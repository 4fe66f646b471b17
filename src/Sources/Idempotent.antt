-- ===== src/Sources/Idempotent.antt =====
-- internal/sources/resolve.go: resolving the result again changes nothing.
use file_fin.Prelude.{
  keys, ◌≡◌, refl, sym, ap, ◌∙◌, inl, inr, Bool, true, false, not, Bool-cases, Option, none, some,
  List, [], ◌∷◌, ◌++◌, contains, keep, Str, str_eq, Map, lookup, arith,
}
use file_fin.Strings.{sort_strings}
use file_fin.Sources.Field.{
  Field, Meta, Slot, title, year, description, actors, genres, metadata, slot, value_at, set_value,
  usable, order, all_fields,
}
use file_fin.Sources.Compare.{Unicode}
use file_fin.Sources.Resolve.{Row, present, known, write, resolve_fields, fill_ratings, resolve}
use file_fin.Sources.Values.{Written}
use file_fin.Sources.Stored.{apart_from, is_table, all_fields-is_table}
use file_fin.Sources.Ratings.{fill_ratings_twice}
use file_fin.Sources.Settled.{
  resolved, row_at, decision_at, Fixed, resolved-Fixed, Fixed-Unmoved, resolve_field-Fixed,
  resolve_field_lem,
}
use file_fin.Sources.Unmoved.{
  Unmoved, Unmoved-refl, Unmoved-trans, write-Unmoved, current-cong, sources-set_at,
}

module _ (uni : Unicode) (srcs : List Str) (rules : Map (List Str)) where
  resolved-Unmoved :
      (f g : Field) (m : Meta)
      → str_eq f.key g.key ≡ false
      → Unmoved f m (resolved uni srcs rules m g)
  unfolding resolved
  resolved-Unmoved f g m h = write-Unmoved f g m (decision_at uni srcs rules m g).0 h

  -- The loop over the fields: the state and the rows that it ends with.
  unfoldable pub all_resolved : Meta → List Field → Meta
  all_resolved m [] = m
  all_resolved m (f ∷ fs) = all_resolved (resolved uni srcs rules m f) fs

  unfoldable pub all_rows : Meta → List Field → List Row
  all_rows m [] = []
  all_rows m (f ∷ fs) = row_at uni srcs rules m f ∷ all_rows (resolved uni srcs rules m f) fs

  resolve_fields_lem :
      (m : Meta) (fs : List Field)
      → resolve_fields uni m fs srcs rules ≡ (all_resolved m fs, all_rows m fs)
  unfolding resolve_fields all_resolved all_rows
  resolve_fields_lem m [] = refl
  resolve_fields_lem m (f ∷ fs) =
      rw (resolve_field_lem uni srcs rules m f, resolve_fields_lem (resolved uni srcs rules m f) fs)
        refl

  pub all_resolved-Unmoved :
      (f : Field) (m : Meta) (fs : List Field)
      → apart_from f fs ≡ true
      → Unmoved f m (all_resolved m fs)
  unfolding all_resolved
  all_resolved-Unmoved f m [] h = Unmoved-refl f m
  all_resolved-Unmoved f m (g ∷ fs) h =
      Unmoved-trans f m (resolved uni srcs rules m g)
        (all_resolved (resolved uni srcs rules m g) fs) (resolved-Unmoved f g m (ground (arith, h)))
        (all_resolved-Unmoved f (resolved uni srcs rules m g) fs (ground (arith, h)))

  -- Every field of the table is settled in a state, and these are its rows.
  abbrev Settled : Meta → List Field → List Row → Type 0
  Settled n [] rows = rows ≡ []
  Settled n (f ∷ fs) [] = ⊥
  Settled n (f ∷ fs) (r ∷ rows) =
      Fixed uni srcs rules n f × (row_at uni srcs rules n f ≡ r) × Settled n fs rows

  all_resolved-Settled :
      (m : Meta) (fs : List Field)
      → is_table fs ≡ true
      → Settled (all_resolved m fs) fs (all_rows m fs)
  unfolding all_resolved all_rows
  all_resolved-Settled m [] h = refl
  all_resolved-Settled m (f ∷ fs) h =
      let k = resolved uni srcs rules m f in
      let n = all_resolved k fs in
      let (x, e) = resolve_field-Fixed uni srcs rules m f (ground (arith, h)) in
      let (y, e') =
        Fixed-Unmoved uni srcs rules f k n (all_resolved-Unmoved f k fs (ground (arith, h))) x in
      (y, e' ∙ e, all_resolved-Settled k fs (ground (arith, h)))

  Settled-resolved :
      (n : Meta) (fs : List Field) (rows : List Row)
      → Settled n fs rows
      → (all_resolved n fs ≡ n) × (all_rows n fs ≡ rows)
  unfolding all_resolved all_rows
  Settled-resolved n [] rows h = (refl, sym h)
  Settled-resolved n (f ∷ fs) [] h = absurd h
  Settled-resolved n (f ∷ fs) (r ∷ rows) h =
      let (a, b) = Settled-resolved n fs rows h.2 in
      rw (resolved-Fixed uni srcs rules n f h.0, h.1) (a, rw b refl)

  sources-all_resolved : (m : Meta) (fs : List Field) → (all_resolved m fs).sources ≡ m.sources
  unfolding all_resolved resolved
  sources-all_resolved m [] = refl
  sources-all_resolved m (f ∷ fs) =
      sources-all_resolved (resolved uni srcs rules m f) fs
      ∙ sources-write m f (decision_at uni srcs rules m f).0
    where
      sources-write :
          (m : Meta) (f : Field) (o : Option (List Str)) → (write m f o).sources ≡ m.sources
      sources-write m f none = unfold write in refl
      sources-write m f (some v) = elim (Bool-cases f.virtual) [
        | inl e ↦ unfold write in rw e refl
        | inr e ↦ unfold write set_value in rw e (sources-set_at m (slot f.key) v)
      ]

  Settled-Unmoved :
      (m n : Meta) (fs : List Field) (rows : List Row)
      → ((f : Field) → Unmoved f m n)
      → Settled m fs rows
      → Settled n fs rows
  Settled-Unmoved m n [] rows u h = h
  Settled-Unmoved m n (f ∷ fs) [] u h = h
  Settled-Unmoved m n (f ∷ fs) (r ∷ rows) u h =
      let (x, e) = Fixed-Unmoved uni srcs rules f m n (u f) h.0 in
      (x, e ∙ h.1, Settled-Unmoved m n fs rows u h.2)

abbrev pub rated : Meta → Map Str → Meta
rated m r = record m { ratings = r }

pub value_at-rated :
    (m : Meta) (r : Map Str) (p : Slot) (joined : Bool)
    → value_at (rated m r) p joined ≡ value_at m p joined
unfolding value_at
value_at-rated m r title joined = refl
value_at-rated m r year joined = refl
value_at-rated m r description joined = refl
value_at-rated m r actors joined = refl
value_at-rated m r genres joined = refl
value_at-rated m r (metadata k) joined = refl

Written-rated :
    (m : Meta) (r : Map Str) (p : Slot) (v : List Str) → Written m p v → Written (rated m r) p v
Written-rated m r title v w = w
Written-rated m r year v w = w
Written-rated m r description v w = w
Written-rated m r actors v w = w
Written-rated m r genres v w = w
Written-rated m r (metadata k) v w = w

rated-Unmoved : (m : Meta) (r : Map Str) (f : Field) → Unmoved f m (rated m r)
rated-Unmoved m r f = record {
  sources = refl;
  choices = refl;
  value = current-cong f m (rated m r) (value_at-rated m r (slot f.key) f.joined);
  written = λ v w. Written-rated m r (slot f.key) v w;
}

present-cong : (m n : Meta) → n.sources ≡ m.sources → present n ≡ present m
unfolding present known
present-cong m n e =
    ap
      (λ s.
        keep (λ src. usable (lookup src s))
          (order ++ sort_strings (keep (λ src. not (contains order src)) (keys s))))
      e

module _ (uni : Unicode) (m : Meta) (rules : Map (List Str)) where
  unfoldable pub end_state : Meta
  end_state = all_resolved uni (present m) rules m all_fields

  unfoldable pub end_ratings : Map Str
  end_ratings = fill_ratings end_state.sources (present m) end_state.ratings

  pub resolve_lem :
      resolve uni m rules
      ≡ (rated end_state end_ratings, all_rows uni (present m) rules m all_fields)
  unfolding resolve end_state end_ratings
  resolve_lem = rw (resolve_fields_lem uni (present m) rules m all_fields) refl

  present-end : present (rated end_state end_ratings) ≡ present m
  unfolding end_state
  present-end =
      present-cong m (rated end_state end_ratings)
        (sources-all_resolved uni (present m) rules m all_fields)

  again_fields :
      resolve_fields uni (rated end_state end_ratings) all_fields (present m) rules
      ≡ (rated end_state end_ratings, all_rows uni (present m) rules m all_fields)
  unfolding end_state
  again_fields =
      let srcs = present m in
      let n = rated end_state end_ratings in
      let (a, b) =
        Settled-resolved uni srcs rules n all_fields (all_rows uni srcs rules m all_fields) (
          Settled-Unmoved uni srcs rules end_state n all_fields
            (all_rows uni srcs rules m all_fields) (λ f. rated-Unmoved end_state end_ratings f)
            (all_resolved-Settled uni srcs rules m all_fields all_fields-is_table)) in
      rw (resolve_fields_lem uni srcs rules n all_fields, a, b) refl

  rated_twice :
      rated (rated end_state end_ratings) (
        fill_ratings
          (rated end_state end_ratings).sources
          (present m)
          (rated end_state end_ratings).ratings)
      ≡ rated end_state end_ratings
  unfolding end_ratings
  rated_twice =
      ap (rated end_state) (fill_ratings_twice end_state.sources (present m) end_state.ratings)

  again_lem :
      resolve uni (rated end_state end_ratings) rules
      ≡ (rated end_state end_ratings, all_rows uni (present m) rules m all_fields)
  unfolding resolve
  again_lem = rw (present-end, again_fields, rated_twice) refl

  -- Resolving the result again changes nothing: the second merge gives the same item and the same
  -- rows, statuses and conflicts included, for every item, every set of library rules and every
  -- folding of Unicode.
  pub resolve_twice : resolve uni (resolve uni m rules).0 rules ≡ resolve uni m rules
  resolve_twice = rw resolve_lem again_lem
