-- ===== src/Sources/Settled.antt =====
-- internal/sources/resolve.go: a field that `resolveField` has merged is settled: merging it again
-- changes neither the item nor the row.
use file_fin.Prelude.{
  ◌≡◌, refl, ◌⊎◌, inl, inr, true, false, Bool-cases, Option, none, some, List, [], ◌∷◌,
  if◌then◌else◌, Str, Map, lookup, arith,
}
use file_fin.Sources.Field.{Policy, Field, Snapshot, Meta, slot, value, set_at, set_value, text_at}
use file_fin.Sources.Compare.{Unicode, Class, agree}
use file_fin.Sources.Resolve.{
  Status, Row, is_nil, is_union_policy, gather, class_of, values_at, decide, current, write,
  choice_for, first_for, shown_rule, resolve_field,
}
use file_fin.Sources.Values.{Storable, Written, value_at-Written, set_at-Written}
use file_fin.Sources.Places.{set_at-same}
use file_fin.Sources.Stored.{
  has_shape, gather-Filled, gather-Entries, lookup-Entries, union-Storable,
}
use file_fin.Sources.Decisions.{Origin, of_source, of_union, Repeats, decide-Repeats}
use file_fin.Sources.Unmoved.{Unmoved, sources-set_at, choices-set_at, rule_first-values}

write_unstored : (m : Meta) (f : Field) (o : Option (List Str)) → f.virtual ≡ true → write m f o ≡ m
unfolding write
write_unstored m f none h = refl
write_unstored m f (some v) h = rw h refl

write-Written :
    (m : Meta) (f : Field) (v : List Str) → Written m (slot f.key) v → write m f (some v) ≡ m
unfolding write set_value
write-Written m f v w = elim (Bool-cases f.virtual) [
  | inl e ↦ rw e refl
  | inr e ↦ rw e (set_at-same m (slot f.key) v w)
]

shape-union : (f : Field) → has_shape f ≡ true → f.policy ≡ Policy.union → f.list ≡ true
shape-union f h p = let u : is_union_policy f.policy ≡ true = rw p refl in ground (arith, u, h)

module _ (uni : Unicode) (srcs : List Str) (rules : Map (List Str)) where
  abbrev pub values_of : Map Snapshot → Field → Map (List Str)
  values_of sources f = gather sources f srcs

  -- The decision for a field, with what stands in it as an argument.
  unfoldable pub decision : Map Snapshot → Map Str → Field → List Str → Option (List Str) × Status
  decision sources choices f cur =
      decide uni f (values_of sources f) (if f.pickable then text_at choices f.key else [])
        (first_for rules f (values_of sources f))
        (class_of uni f sources (values_of sources f) agree) cur

  unfoldable pub row_of : Map Snapshot → Map Str → Field → List Str → List Str → Row
  row_of sources choices f cur after = record {
    key = f.key;
    current = after;
    values = values_of sources f;
    status = (decision sources choices f cur).1;
    class = class_of uni f sources (values_of sources f) agree;
    choice = if f.pickable then text_at choices f.key else [];
    rule = shown_rule rules f (first_for rules f (values_of sources f));
    pickable = f.pickable;
    list = f.list;
    is_union = is_union_policy f.policy;
  }

  unfoldable pub decision_at : Meta → Field → Option (List Str) × Status
  decision_at m f = decision m.sources m.choices f (current m f)

  unfoldable pub resolved : Meta → Field → Meta
  resolved m f = write m f (decision_at m f).0

  unfoldable pub row_at : Meta → Field → Row
  row_at m f = row_of m.sources m.choices f (current m f) (current (resolved m f) f)

  pub resolve_field_lem :
      (m : Meta) (f : Field) → resolve_field uni m f srcs rules ≡ (resolved m f, row_at m f)
  unfolding resolve_field choice_for resolved row_at row_of decision_at decision
  resolve_field_lem m f = refl

  -- The field is where its own decision leaves it.
  pub data Fixed (m : Meta) (f : Field) : Type 0 where
    unset : (decision_at m f).0 ≡ none → Fixed m f
    unstored : f.virtual ≡ true → Fixed m f
    kept : (v : List Str) → (decision_at m f).0 ≡ some v → Written m (slot f.key) v → Fixed m f

  pub resolved-Fixed : (m : Meta) (f : Field) → Fixed m f → resolved m f ≡ m
  unfolding resolved write set_value
  resolved-Fixed m f (unset e) = rw e refl
  resolved-Fixed m f (unstored e) = write_unstored m f (decision_at m f).0 e
  resolved-Fixed m f (kept v e w) = rw e (write-Written m f v w)

  -- The merge of another field leaves this one settled, with the same row.
  pub Fixed-Unmoved :
      (f : Field) (m n : Meta) → Unmoved f m n → Fixed m f → Fixed n f × (row_at n f ≡ row_at m f)
  unfolding row_at
  Fixed-Unmoved f m n u x =
      let same : decision_at n f ≡ decision_at m f =
        unfold decision_at in rw (u.value, u.sources, u.choices) refl in
      let y : Fixed n f = moved same x in
      (y, rw (resolved-Fixed n f y, resolved-Fixed m f x, u.value, u.sources, u.choices) refl)
    where
      moved : decision_at n f ≡ decision_at m f → Fixed m f → Fixed n f
      moved same (unset e) = unset (rw same e)
      moved same (unstored e) = unstored e
      moved same (kept v e w) = kept v (rw same e) (u.written v w)

  first_for-values :
      (vals : Map (List Str)) (f : Field) (src : Str)
      → first_for rules f vals ≡ some src
      → is_nil (values_at vals src) ≡ false
  unfolding first_for
  first_for-values vals f src h = elim (Bool-cases f.pickable) [
    | inl e ↦ rule_first-values vals (values_at rules f.key) src (rw e at h)
    | inr e ↦ absurd (ground (arith, h, e))
  ]

  Origin-Storable :
      (sources : Map Snapshot) (f : Field) (v : List Str)
      → has_shape f ≡ true
      → f.virtual ≡ false
      → Origin uni f (values_of sources f) v
      → Storable (slot f.key) f.joined v
  Origin-Storable sources f v shape stored (of_source src e) =
      lookup-Entries (slot f.key) f.joined (values_of sources f) src v
        (gather-Entries sources f srcs (ground arith)) e
  Origin-Storable sources f v shape stored (of_union l n e) = rw e (
      union-Storable uni (slot f.key) f.joined (values_of sources f) (ground arith)
        (gather-Filled sources f srcs) n (gather-Entries sources f srcs (ground arith)))

  decide_nil :
      (f : Field) (vals : Map (List Str)) (choice : Str) (first : Option Str) (class : Class)
      (cur : List Str)
      → is_nil vals ≡ true
      → (decide uni f vals choice first class cur).0 ≡ none
  unfolding decide values_at lookup
  decide_nil f [] choice first class cur h = ground arith
  decide_nil f (x ∷ vals) choice first class cur h = cc

  decision-Repeats :
      (m : Meta) (f : Field)
      → has_shape f ≡ true
      → Repeats uni f (values_of m.sources f) (decision m.sources m.choices f) (decision_at m f)
  unfolding decision_at decision
  decision-Repeats m f shape =
      let vals = values_of m.sources f in
      let first = first_for rules f vals in
      let class = class_of uni f m.sources vals agree in
      let choice : Str = if f.pickable then text_at m.choices f.key else [] in
      elim (Bool-cases (is_nil vals)) [
        | inl e ↦ inl (decide_nil f vals choice first class (current m f) e)
        | inr e ↦
            decide-Repeats uni f vals first class (first_for-values vals f) e (shape-union f shape)
              choice (current m f)
      ]

  row_of-status :
      (sources : Map Snapshot) (choices : Map Str) (f : Field) (a b after : List Str)
      → (decision sources choices f a).1 ≡ (decision sources choices f b).1
      → row_of sources choices f a after ≡ row_of sources choices f b after
  unfolding row_of
  row_of-status sources choices f a b after e = rw e refl

  -- Where a value is set, what stands there afterwards is that value, and the decision for it is
  -- the same or sets nothing.
  module _ (m : Meta) (f : Field) (v : List Str) (stored : f.virtual ≡ false)
      (storable : Storable (slot f.key) f.joined v) (set : (decision_at m f).0 ≡ some v)
      (again : (decision m.sources m.choices f v ≡ decision_at m f)
        ⊎ (decision m.sources m.choices f v ≡ (none, (decision_at m f).1))) where
    resolved-set : resolved m f ≡ set_at m (slot f.key) v
    unfolding resolved write set_value
    resolved-set = rw (set, write, stored) refl

    current-set : current (set_at m (slot f.key) v) f ≡ v
    unfolding current value
    current-set = rw stored (
        value_at-Written (set_at m (slot f.key) v) (slot f.key) f.joined v storable
          (set_at-Written m (slot f.key) f.joined v storable))

    decision-set : decision_at (set_at m (slot f.key) v) f ≡ decision m.sources m.choices f v
    unfolding decision_at
    decision-set =
        rw (current-set, sources-set_at m (slot f.key) v, choices-set_at m (slot f.key) v) refl

    set-Fixed : Fixed (set_at m (slot f.key) v) f
    set-Fixed = elim again [
      | inl e ↦
          kept v (rw (decision-set, e) set) (set_at-Written m (slot f.key) f.joined v storable)
      | inr e ↦ unset (rw (decision-set, e) refl)
    ]

    status-set :
        (decision m.sources m.choices f v).1 ≡ (decision m.sources m.choices f (current m f)).1
    status-set = elim again [
      | inl e ↦ rw e (unfold decision_at in refl)
      | inr e ↦ rw e (unfold decision_at in refl)
    ]

    row_at-set : row_at (set_at m (slot f.key) v) f ≡ row_at m f
    unfolding row_at
    row_at-set =
        rw
          (
            resolved-Fixed (set_at m (slot f.key) v) f set-Fixed,
            resolved-set,
            current-set,
            sources-set_at m (slot f.key) v,
            choices-set_at m (slot f.key) v,
          )
          (row_of-status m.sources m.choices f v (current m f) v status-set)

    settled-set : Fixed (resolved m f) f × (row_at (resolved m f) f ≡ row_at m f)
    settled-set = rw resolved-set (set-Fixed, row_at-set)

  -- After its own step a field is settled, and its row would be the same again.
  pub resolve_field-Fixed :
      (m : Meta) (f : Field)
      → has_shape f ≡ true
      → Fixed (resolved m f) f × (row_at (resolved m f) f ≡ row_at m f)
  resolve_field-Fixed m f shape = elim (Bool-cases f.virtual) [
    | inl virtual ↦ stays (resolved-Fixed m f (unstored virtual)) (unstored virtual)
    | inr stored ↦ elim (decision-Repeats m f shape) [
      | inl nothing ↦ stays (resolved-Fixed m f (unset nothing)) (unset nothing)
      | inr (v, set, origin, again) ↦
          settled-set m f v stored (Origin-Storable m.sources f v shape stored origin) set again
    ]
  ]
    where
      stays :
          resolved m f ≡ m
          → Fixed m f
          → Fixed (resolved m f) f × (row_at (resolved m f) f ≡ row_at m f)
      stays e x = rw e (x, refl)
