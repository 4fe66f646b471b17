-- ===== src/Sources/Stored.antt =====
-- internal/sources: the values that the merge writes are values that can be stored, and the table
-- of fields has the shape that this needs.
use file_fin.Prelude.{
  ◌≡◌, ◌≢◌, refl, subst, ap, inl, inr, Bool, true, false, not, ◌&&◌, ◌||◌, Bool-cases, Option, none,
  some, List, [], ◌∷◌, ◌++◌, All, contains, Str, str_eq, bytes, Map, lookup, arith,
}
use file_fin.Sources.Field.{
  Field, Snapshot, Slot, title, year, description, actors, genres, metadata, slot, value, meta_of,
  snapshot_value, all_fields,
}
use file_fin.Sources.Compare.{Unicode, fold}
use file_fin.Sources.Resolve.{
  is_nil, is_union_policy, gather, add_value, union, union_from, union_values,
}
use file_fin.Sources.Clean.{IsClean, IsEntry}
use file_fin.Sources.Values.{Storable, value_at-Storable}

-- A place that holds several entries.
abbrev pub holds_list : Slot → Bool → Bool
holds_list actors joined = true
holds_list genres joined = true
holds_list year joined = false
holds_list title joined = joined
holds_list description joined = joined
holds_list (metadata k) joined = joined

-- A list field has a place for a list, a field that is united is a list, and only the kind, which
-- is not stored, is read from elsewhere.
abbrev pub has_shape : Field → Bool
has_shape f =
    (not f.list || holds_list (slot f.key) f.joined)
    && (not (is_union_policy f.policy) || f.list)
    && (f.virtual || not (str_eq f.key (bytes "kind")))

abbrev pub apart_from : Field → List Field → Bool
apart_from f [] = true
apart_from f (g ∷ gs) = not (str_eq f.key g.key) && apart_from f gs

abbrev pub is_table : List Field → Bool
is_table [] = true
is_table (f ∷ fs) = has_shape f && apart_from f fs && is_table fs

pub all_fields-is_table : is_table all_fields ≡ true
unfolding all_fields slot str_eq
all_fields-is_table = refl

module _ (p : Slot) (joined : Bool) where
  abbrev pub Entries : Map (List Str) → Type 0
  Entries vals = All (λ e. Storable p joined e.1) vals

  add_value-Entries :
      (src : Str) (v : List Str) (rest : Map (List Str))
      → (v ≢ [] → Storable p joined v)
      → Entries rest
      → Entries (add_value src v rest)
  add_value-Entries src [] rest ok h = h
  add_value-Entries src (x ∷ xs) rest ok h = (ok (λ e. cc), h)

snapshot_value-Storable :
    (f : Field) (s : Snapshot)
    → str_eq f.key (bytes "kind") ≡ false
    → snapshot_value s f ≢ []
    → Storable (slot f.key) f.joined (snapshot_value s f)
unfolding snapshot_value value
snapshot_value-Storable f s k = rw k (λ ne. value_at-Storable (meta_of s) (slot f.key) f.joined ne)

-- No source of the merge has an empty value.
abbrev pub Filled : Map (List Str) → Type 0
Filled vals = All (λ e. is_nil e.1 ≡ false) vals

add_value-Filled :
    (src : Str) (v : List Str) (rest : Map (List Str)) → Filled rest → Filled (add_value src v rest)
add_value-Filled src [] rest h = h
add_value-Filled src (x ∷ xs) rest h = (refl, h)

pub gather-Filled :
    (sources : Map Snapshot) (f : Field) (srcs : List Str) → Filled (gather sources f srcs)
unfolding gather
gather-Filled sources f [] = tt
gather-Filled sources f (src ∷ srcs) = step (lookup src sources) (gather-Filled sources f srcs)
  where
    step :
        (o : Option Snapshot)
        → Filled (gather sources f srcs)
        → Filled (elim o [
          | none ↦ gather sources f srcs
          | some s ↦ add_value src (snapshot_value s f) (gather sources f srcs)
        ])
    step none h = h
    step (some s) h = add_value-Filled src (snapshot_value s f) (gather sources f srcs) h

-- Every value that the sources have for a stored field can be stored.
pub gather-Entries :
    (sources : Map Snapshot) (f : Field) (srcs : List Str)
    → str_eq f.key (bytes "kind") ≡ false
    → Entries (slot f.key) f.joined (gather sources f srcs)
unfolding gather
gather-Entries sources f [] k = tt
gather-Entries sources f (src ∷ srcs) k =
    step (lookup src sources) (gather-Entries sources f srcs k)
  where
    step :
        (o : Option Snapshot)
        → Entries (slot f.key) f.joined (gather sources f srcs)
        → Entries (slot f.key) f.joined (elim o [
          | none ↦ gather sources f srcs
          | some s ↦ add_value src (snapshot_value s f) (gather sources f srcs)
        ])
    step none h = h
    step (some s) h =
        add_value-Entries (slot f.key) f.joined src (snapshot_value s f) (gather sources f srcs)
          (snapshot_value-Storable f s k) h

pub lookup-Entries :
    (p : Slot) (joined : Bool) (vals : Map (List Str)) (src : Str) (v : List Str)
    → Entries p joined vals
    → lookup src vals ≡ some v
    → Storable p joined v
lookup-Entries p joined [] src v h e = absurd (unfold lookup in cc)
lookup-Entries p joined ((k, w) ∷ vals) src v h e = elim (Bool-cases (str_eq k src)) [
  | inl a ↦
      let same : w ≡ v = unfold lookup in ground (arith, a, e) in subst (Storable p joined) same h.0
  | inr a ↦ lookup-Entries p joined vals src v h.1 (unfold lookup in ground (arith, a, e))
]

-- A predicate that every entry of every source has, every entry of the union has.
module _ (uni : Unicode) (P : Str → Type 0) where
  union_values-All :
      (out seen v : List Str) → All P out → All P v → All P (union_values uni out seen v).0
  unfolding union_values
  union_values-All out seen [] h k = h
  union_values-All out seen (x ∷ v) h k = elim (Bool-cases (contains seen (fold uni x))) [
    | inl a ↦ rw a (union_values-All out seen v h k.1)
    | inr a ↦
        rw a (union_values-All (out ++ x ∷ []) (fold uni x ∷ seen) v (All-snoc out x h k.0) k.1)
  ]
    where
      All-snoc : (xs : List Str) (y : Str) → All P xs → P y → All P (xs ++ y ∷ [])
      All-snoc [] y h k = (k, tt)
      All-snoc (z ∷ xs) y h k = (h.0, All-snoc xs y h.1 k)

  union_from-All :
      (out seen : List Str) (vals : Map (List Str))
      → All P out
      → All (λ e. All P e.1) vals
      → All P (union_from uni out seen vals)
  unfolding union_from
  union_from-All out seen [] h k = h
  union_from-All out seen ((src, v) ∷ vals) h k =
      let (out', seen') = union_values uni out seen v in
      union_from-All out' seen' vals (union_values-All out seen v h k.0) k.1

module _ (uni : Unicode) where
  union_values-full :
      (out seen v : List Str) → is_nil out ≡ false → is_nil (union_values uni out seen v).0 ≡ false
  unfolding union_values
  union_values-full out seen [] h = h
  union_values-full out seen (x ∷ v) h = elim (Bool-cases (contains seen (fold uni x))) [
    | inl a ↦ rw a (union_values-full out seen v h)
    | inr a ↦
        rw a
          (union_values-full (out ++ x ∷ []) (fold uni x ∷ seen) v (is_nil-append out (x ∷ []) h))
  ]
    where
      is_nil-append : (xs ys : List Str) → is_nil xs ≡ false → is_nil (xs ++ ys) ≡ false
      is_nil-append [] ys h = cc
      is_nil-append (z ∷ xs) ys h = refl

  union_from-full :
      (out seen : List Str) (vals : Map (List Str))
      → is_nil out ≡ false
      → is_nil (union_from uni out seen vals) ≡ false
  unfolding union_from
  union_from-full out seen [] h = h
  union_from-full out seen ((src, v) ∷ vals) h =
      let (out', seen') = union_values uni out seen v in
      union_from-full out' seen' vals (union_values-full out seen v h)

  union-full :
      (vals : Map (List Str)) → Filled vals → is_nil vals ≡ false → is_nil (union uni vals) ≡ false
  unfolding union union_from union_values contains
  union-full [] h n = cc
  union-full ((src, []) ∷ vals) h n = cc (h.0)
  union-full ((src, x ∷ v) ∷ vals) h n =
      let (out', seen') = union_values uni (x ∷ []) (fold uni x ∷ []) v in
      union_from-full out' seen' vals (union_values-full (x ∷ []) (fold uni x ∷ []) v refl)

  not-nil : (v : List Str) → is_nil v ≡ false → v ≢ []
  not-nil v h e = cc (ap is_nil e)

  Entries-IsEntry :
      (p : Slot) (vals : Map (List Str))
      → ((v : List Str) → Storable p true v → All IsEntry v)
      → Entries p true vals
      → All (λ e. All IsEntry e.1) vals
  Entries-IsEntry p [] entry h = tt
  Entries-IsEntry p (e ∷ vals) entry h = (entry e.1 h.0, Entries-IsEntry p vals entry h.1)

  union-text :
      (p : Slot) (vals : Map (List Str))
      → ((v : List Str) → Storable p true v → All IsEntry v)
      → Filled vals
      → is_nil vals ≡ false
      → Entries p true vals
      → All IsEntry (union uni vals) × (union uni vals ≢ [])
  unfolding union
  union-text p vals entry h n e = (
    union_from-All uni IsEntry [] [] vals tt (Entries-IsEntry p vals entry e),
    not-nil (union uni vals) (union-full vals h n),
  )

  -- The union of the sources can be stored in a place for a list.
  pub union-Storable :
      (p : Slot) (joined : Bool) (vals : Map (List Str))
      → holds_list p joined ≡ true
      → Filled vals
      → is_nil vals ≡ false
      → Entries p joined vals
      → Storable p joined (union uni vals)
  unfolding union
  union-Storable actors joined vals l h n e = union_from-All uni IsClean [] [] vals tt e
  union-Storable genres joined vals l h n e = union_from-All uni IsClean [] [] vals tt e
  union-Storable title true vals l h n e = union-text title vals (λ v s. s.0) h n e
  union-Storable description true vals l h n e = union-text description vals (λ v s. s.0) h n e
  union-Storable (metadata k) true vals l h n e = union-text (metadata k) vals (λ v s. s.0) h n e
  union-Storable year joined vals l h n e = cc
  union-Storable title false vals l h n e = cc
  union-Storable description false vals l h n e = cc
  union-Storable (metadata k) false vals l h n e = cc
