-- ===== src/Sources/Resolve.antt =====
-- internal/sources/resolve.go. A `map[string][]string` from the sources that have a value to their
-- values is kept as an association list in the order in which it is filled, so its keys are the
-- slice `have` as well. A range over the ratings of a snapshot writes each key once, so the order
-- in which Go takes them does not show.
use file_fin.Prelude.{
  Bool, true, false, not, ◌&&◌, ◌||◌, Option, none, some, List, [], ◌∷◌, ◌++◌, ◌==◌, if◌then◌else◌,
  length, Str, str_eq, Map, keys, lookup, insert, contains, keep,
}
use file_fin.Strings.{sort_strings}
use file_fin.Sources.Field.{
  Policy, Field, Snapshot, Meta, usable, order, choice_union, choice_manual, text_at, value,
  set_value, snapshot_value, all_fields,
}
use file_fin.Sources.Compare.{Unicode, Class, agree, field, identity, compare, fold, same_values}

pub data Status : Type 0 where
  empty single agrees differ conflict rule chosen manual kept_local : Status

-- `Row` less the label and the group of its field.
pub record Row : Type 0 where
  pub key : Str
  pub current : List Str
  pub values : Map (List Str)
  pub status : Status
  pub class : Class
  pub choice : Str
  pub rule : List Str
  pub pickable : Bool
  pub list : Bool
  pub is_union : Bool

abbrev pub is_nil {ℓ} : {A : Type ℓ} → List A → Bool
is_nil [] = true
is_nil (x ∷ xs) = false

-- `m[k]` of a map of slices, nil for a missing key.
unfoldable pub values_at : Map (List Str) → Str → List Str
values_at m k = elim (lookup k m) [ none ↦ [] | some v ↦ v ]

unfoldable pub known : Meta → List Str
known m = order ++ sort_strings (keep (λ src. not (contains order src)) (keys m.sources))

unfoldable pub present : Meta → List Str
unfolding known
present m = keep (λ src. usable (lookup src m.sources)) (known m)

abbrev pub add_value : Str → List Str → Map (List Str) → Map (List Str)
add_value src v rest = if is_nil v then rest else (src, v) ∷ rest

-- The first loop of `resolveField`.
unfoldable pub gather : Map Snapshot → Field → List Str → Map (List Str)
gather sources f [] = []
gather sources f (src ∷ srcs) =
    let rest = gather sources f srcs in
    elim (lookup src sources) [ none ↦ rest | some s ↦ add_value src (snapshot_value s f) rest ]

unfoldable pub worse : Class → Class → Class
worse row identity = identity
worse agree field = field
worse row c = row

abbrev pub is_agree : Class → Bool
is_agree agree = true
is_agree field = false
is_agree identity = false

abbrev pub is_field : Class → Bool
is_field agree = false
is_field field = true
is_field identity = false

abbrev pub is_manual_choice : Str → Bool
is_manual_choice c = str_eq c choice_manual

-- The first source of a rule that has a value.
unfoldable pub rule_first : Map (List Str) → List Str → Option Str
rule_first vals [] = none
rule_first vals (src ∷ srcs) =
    if is_nil (values_at vals src) then rule_first vals srcs else some src

abbrev pub order_first : Map (List Str) → List Str
order_first [] = []
order_first ((src, v) ∷ rest) = v

abbrev pub is_union_policy : Policy → Bool
is_union_policy Policy.union = true
is_union_policy _ = false

-- The cases of the switch of `resolveField`: the value that is set, if any, and the status.
unfoldable pub fill : Map (List Str) → List Str → Option (List Str)
fill vals cur = if is_nil cur then some (order_first vals) else none

unfoldable pub settle_agreed : Map (List Str) → List Str → Option (List Str) × Status
unfolding fill
settle_agreed vals cur = (fill vals cur, if length vals == 1 then single else agrees)

unfoldable pub settle_compared :
    Map (List Str) → Option Str → Class → List Str → Option (List Str) × Status
unfolding fill
settle_compared vals none class cur = (fill vals cur, conflict)
settle_compared vals (some src) class cur =
    if is_field class then (some (values_at vals src), rule) else (fill vals cur, conflict)

unfoldable pub settle_prose : Map (List Str) → Option Str → List Str → Option (List Str)
unfolding fill
settle_prose vals none cur = fill vals cur
settle_prose vals (some src) cur = some (values_at vals src)

unfoldable pub current : Meta → Field → List Str
current m f = if f.virtual then [] else value m f

unfoldable pub write : Meta → Field → Option (List Str) → Meta
write m f none = m
write m f (some v) = if f.virtual then m else set_value m f v

unfoldable pub choice_for : Meta → Field → Str
choice_for m f = if f.pickable then text_at m.choices f.key else []

unfoldable pub first_for : Map (List Str) → Field → Map (List Str) → Option Str
first_for rules f vals = if f.pickable then rule_first vals (values_at rules f.key) else none

unfoldable pub shown_rule : Map (List Str) → Field → Option Str → List Str
shown_rule rules f none = []
shown_rule rules f (some src) = values_at rules f.key

-- One rating of a snapshot, kept if the item has none of that name.
unfoldable pub add_rating : Str → Str → Map Str → Map Str
add_rating k v ratings =
    if not (str_eq v []) && str_eq (text_at ratings k) [] then insert k v ratings else ratings

unfoldable pub add_ratings : Map Str → Map Str → Map Str
unfolding add_rating
add_ratings [] ratings = ratings
add_ratings ((k, v) ∷ rest) ratings = add_ratings rest (add_rating k v ratings)

unfoldable pub fill_ratings : Map Snapshot → List Str → Map Str → Map Str
unfolding add_ratings
fill_ratings sources [] ratings = ratings
fill_ratings sources (src ∷ srcs) ratings =
    fill_ratings sources srcs
      (elim (lookup src sources) [ none ↦ ratings | some s ↦ add_ratings s.ratings ratings ])

module _ (uni : Unicode) where
  -- One source against those after it, then the rest of the pairs.
  class_with : Field → Map Snapshot → Str → List Str → Map (List Str) → Class → Class
  class_with f sources src v [] row = row
  class_with f sources src v ((src', v') ∷ rest) row =
      class_with f sources src v rest (elim (lookup src sources) [
        | none ↦ row
        | some s ↦ elim (lookup src' sources) [
          | none ↦ row
          | some s' ↦ worse row (compare uni f.policy v v' s s')
        ]
      ])

  unfoldable pub class_of : Field → Map Snapshot → Map (List Str) → Class → Class
  unfolding class_with worse
  class_of f sources [] row = row
  class_of f sources ((src, v) ∷ rest) row =
      class_of f sources rest (class_with f sources src v rest row)

  unfoldable pub union_values : List Str → List Str → List Str → List Str × List Str
  union_values out seen [] = (out, seen)
  union_values out seen (v ∷ vs) =
      if contains seen (fold uni v)
      then union_values out seen vs
      else union_values (out ++ v ∷ []) (fold uni v ∷ seen) vs

  unfoldable pub union_from : List Str → List Str → Map (List Str) → List Str
  unfolding union_values
  union_from out seen [] = out
  union_from out seen ((src, v) ∷ rest) =
      let (out', seen') = union_values out seen v in union_from out' seen' rest

  unfoldable pub union : Map (List Str) → List Str
  unfolding union_from
  union vals = union_from [] [] vals

  unfoldable pub equals_some : List Str → Map (List Str) → Bool → Bool
  equals_some cur [] list = false
  equals_some cur ((src, v) ∷ rest) list = same_values uni cur v list || equals_some cur rest list

  unfoldable pub derived : List Str → Map (List Str) → Field → Bool
  unfolding equals_some
  derived cur vals f =
      equals_some cur vals f.list || (f.list && same_values uni cur (union vals) true)

  all_equal : List Str → Map (List Str) → Bool → Bool
  all_equal v [] list = true
  all_equal v ((src, v') ∷ rest) list = same_values uni v v' list && all_equal v rest list

  unfoldable pub spread : Map (List Str) → Field → Status
  unfolding all_equal
  spread [] f = agrees
  spread ((src, v) ∷ []) f = single
  spread ((src, v) ∷ rest) f = if all_equal v rest f.list then agrees else differ

  unfoldable pub settle_union : Map (List Str) → Option Str → List Str
  settle_union vals none = union vals
  settle_union vals (some src) = values_at vals src

  unfoldable pub settle_policy :
      Policy → Field → Map (List Str) → Option Str → Class → List Str → Option (List Str) × Status
  unfolding settle_agreed settle_compared settle_union settle_prose
  settle_policy Policy.union f vals first class cur =
      (some (settle_union vals first), spread vals f)
  settle_policy Policy.prose f vals first class cur = (settle_prose vals first cur, spread vals f)
  settle_policy Policy.fill f vals first class cur = (settle_prose vals first cur, spread vals f)
  settle_policy policy f vals first class cur =
      if is_agree class then settle_agreed vals cur else settle_compared vals first class cur

  unfoldable pub decide :
      Field → Map (List Str) → Str → Option Str → Class → List Str → Option (List Str) × Status
  unfolding settle_policy
  decide f vals choice first class cur =
      if is_manual_choice choice
      then (none, manual)
      else if str_eq choice choice_union && f.list && not (is_nil vals)
      then (some (union vals), chosen)
      else if not (str_eq choice []) && not (is_nil (values_at vals choice))
      then (some (values_at vals choice), chosen)
      else if is_nil vals
      then (none, empty)
      else if not (is_nil cur) && not (derived cur vals f)
      then (none, kept_local)
      else settle_policy f.policy f vals first class cur

  unfoldable pub resolve_field : Meta → Field → List Str → Map (List Str) → Meta × Row
  unfolding shown_rule
  resolve_field m f srcs rules =
      let vals = gather m.sources f srcs in
      let class = class_of f m.sources vals agree in
      let first = first_for rules f vals in
      let (v, status) = decide f vals (choice_for m f) first class (current m f) in
      let m' = write m f v in
      (
        m',
        record {
          key = f.key;
          current = current m' f;
          values = vals;
          status = status;
          class = class;
          choice = choice_for m f;
          rule = shown_rule rules f first;
          pickable = f.pickable;
          list = f.list;
          is_union = is_union_policy f.policy;
        },
      )

  unfoldable pub resolve_fields : Meta → List Field → List Str → Map (List Str) → Meta × List Row
  resolve_fields m [] srcs rules = (m, [])
  resolve_fields m (f ∷ fs) srcs rules =
      let (m₁, row) = resolve_field m f srcs rules in
      let (m₂, rows) = resolve_fields m₁ fs srcs rules in (m₂, row ∷ rows)

  unfoldable pub resolve : Meta → Map (List Str) → Meta × List Row
  resolve m rules =
      let srcs = present m in
      let (m', rows) = resolve_fields m all_fields srcs rules in
      (record m' { ratings = fill_ratings m'.sources srcs m'.ratings }, rows)

-- `Conflicts`
abbrev is_conflict : Status → Bool
is_conflict conflict = true
is_conflict _ = false

unfoldable pub conflicts : List Row → List Row
conflicts rows = keep (λ r. is_conflict r.status) rows
