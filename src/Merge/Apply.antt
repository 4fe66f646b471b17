-- ===== src/Merge/Apply.antt =====
-- internal/server/merge.go: the pins and rules that an admin's picks write, the pins that a new
-- match drops, when a snapshot is fetched, and the daily budget of lookups.
use file_fin.Prelude.{
  ℕ, ◌+◌, ◌-◌, ◌*◌, ◌≡◌, refl, Bool, true, false, not, ◌&&◌, Option, none, some, List, [], ◌∷◌, Str,
  str_eq, str_eq_iff, str_eq_self, bytes, contains, Map, lookup, insert, lookup-insert, Distinct,
  keep, ltb, if◌then◌else◌, pos_part, neg_part, get_elem?, ◌∙◌, ap, subst, Bool-cases, inl, inr,
  arith,
}
use file_fin.Sources.Field.{
  Field, Meta, Snapshot, value, slot, order, choice_union, choice_manual, text_at, all_fields,
  field_by_key,
}
use file_fin.Sources.Resolve.{present, resolve}
use file_fin.Sources.Compare.{Unicode}
use file_fin.Sources.Pins.{resolve-manual}
use file_fin.Sources.Edits.{value_at-choices}

-- `withSnapshot`: the copy of the map, and the snapshot set.
unfoldable pub with_snapshot : Map Snapshot → Str → Snapshot → Map Snapshot
with_snapshot sources src snap = insert src snap sources

unfoldable pub manual_choices : Map Str → Map Str
manual_choices [] = []
manual_choices ((k, v) ∷ rest) =
    if str_eq v choice_manual then (k, v) ∷ manual_choices rest else manual_choices rest

unfoldable pub drop_choices_for : Map Str → Str → Map Str
drop_choices_for [] src = []
drop_choices_for ((k, v) ∷ rest) src =
    if str_eq v src then drop_choices_for rest src else (k, v) ∷ drop_choices_for rest src

abbrev pub second : ℕ
second = 1000000000

abbrev pub snapshot_retry_interval : ℕ
snapshot_retry_interval = 14 * 24 * 60 * 60 * second

-- `now` is in nanoseconds since the Unix epoch, of which `Fetched` counts the seconds.
unfoldable pub needs_snapshot : Meta → Str → ℕ → Bool
needs_snapshot m src now = elim (lookup src m.sources) [
  | none ↦ true
  | some snap ↦
      if not (str_eq snap.error [])
      then ltb snapshot_retry_interval
          (now + neg_part snap.fetched * second - pos_part snap.fetched * second)
      else not (str_eq (text_at m.metadata (bytes "imdbID")) [])
        && not (str_eq snap.imdb_id [])
        && not (str_eq snap.imdb_id (text_at m.metadata (bytes "imdbID")))
]

abbrev pub omdb_snapshots_per_day : ℕ
omdb_snapshots_per_day = 200

-- The two fields of the server that the budget keeps. A day is its text.
pub record Budget : Type 0 where
  pub day : Str
  pub used : ℕ

unfoldable pub roll_omdb_budget : Str → Budget → Budget
roll_omdb_budget today b = if str_eq today b.day then b else record { day = today; used = 0 }

-- The remaining lookups; the code's difference is negative where this is 0.
unfoldable pub omdb_backfill_remaining : Str → Budget → Budget × ℕ
omdb_backfill_remaining today b =
    let b' = roll_omdb_budget today b in (b', omdb_snapshots_per_day - b'.used)

unfoldable pub spend_omdb_backfill : Str → Budget → Budget
spend_omdb_backfill today b = let b' = roll_omdb_budget today b in record b' { used = b'.used + 1 }

unfoldable pub valid_pick : Field → Str → List Str → Bool
valid_pick f pick srcs =
    if str_eq pick choice_manual
    then true
    else if str_eq pick choice_union
    then f.list
    else contains srcs pick

-- The loop over the picks that answers "bad request".
unfoldable pub valid_picks : Map Str → List Str → Bool
valid_picks [] srcs = true
valid_picks ((key, pick) ∷ picks) srcs =
    let rest = valid_picks picks srcs in
    elim (field_by_key key all_fields) [
      | none ↦ false
      | some f ↦ f.pickable && valid_pick f pick srcs && rest
    ]

unfoldable pub rule_order : Str → List Str
rule_order pick = pick ∷ keep (λ src. not (str_eq src pick)) order

-- The loop over the remembered fields.
unfoldable pub remembered : Map Str → List Str → List Str → Map (List Str)
unfolding rule_order
remembered picks srcs [] = []
remembered picks srcs (key ∷ keys) =
    let rest = remembered picks srcs keys in
    if contains srcs (text_at picks key)
    then insert key (rule_order (text_at picks key)) rest
    else rest

-- Copying one map over another.
unfoldable pub overlay {ℓ} : {V : Type ℓ} → Map V → Map V → Map V
overlay m [] = m
overlay m ((k, v) ∷ over) = overlay (insert k v m) over

-- What `handleApplyMerge` leaves of the item and of the library's rules, if it accepts the picks:
-- they are checked against the metadata as first read, and `cur` is what the update reads.
unfoldable pub apply_merge :
    Unicode → Meta → Meta → Map (List Str) → Map Str → List Str → Option (Meta × Map (List Str))
apply_merge uni meta cur rules picks remember =
    let rules' = overlay rules (remembered picks (present meta) remember) in
    let merged = resolve uni (record cur { choices = overlay cur.choices picks }) rules' in
    if valid_picks picks (present meta) then some (merged.0, rules') else none

lookup-manual_choices-none :
    (m : Map Str) (k : Str) → lookup k m ≡ none → lookup k (manual_choices m) ≡ none
unfolding lookup manual_choices
lookup-manual_choices-none [] k h = refl
lookup-manual_choices-none ((j, v) ∷ m) k h = ground (arith, lookup-manual_choices-none m k)

-- What a choice comes to once a match to another record has dropped all but the typed values.
abbrev pub if_manual : Option Str → Option Str
if_manual none = none
if_manual (some v) = if str_eq v choice_manual then some v else none

-- Of the pins of an item, those to the typed value are kept, and no others.
pub lookup-manual_choices :
    (m : Map Str) (k : Str) → Distinct m → lookup k (manual_choices m) ≡ if_manual (lookup k m)
unfolding lookup manual_choices
lookup-manual_choices [] k d = refl
lookup-manual_choices ((j, v) ∷ m) k d =
    ground (arith, str_eq_iff j k, lookup-manual_choices m k, lookup-manual_choices-none m j)

abbrev pub or_before {ℓ} : {V : Type ℓ} → Option V → Option V → Option V
or_before none o = o
or_before (some v) o = some v

lookup-overlay :
    (m over : Map Str) (k : Str)
    → Distinct over
    → lookup k (overlay m over) ≡ or_before (lookup k over) (lookup k m)
unfolding lookup overlay
lookup-overlay m [] k d = refl
lookup-overlay m ((j, v) ∷ over) k d =
    ground (arith, str_eq_iff j k, lookup-overlay (insert j v m) over k, lookup-insert j k v m)

text_at-Some : (m : Map Str) (k v : Str) → lookup k m ≡ some v → text_at m k ≡ v
unfolding text_at
text_at-Some m k v h = rw (text_at, h) refl

accepted :
    (b : Bool) (m : Meta) (rules : Map (List Str)) (out : Meta × Map (List Str))
    → (if b then some (m, rules) else none) ≡ some out
    → m ≡ out.0
accepted true m rules out e = let same : (m, rules) ≡ out = cc in ap (λ o. o.0) same
accepted false m rules out e = cc

-- A field for which the admin picks "keep" has after the merge the value that it had, whatever the
-- other picks and the rules that are remembered with them.
pub apply_merge-manual :
    (uni : Unicode) (meta cur : Meta) (rules : Map (List Str)) (picks : Map Str)
    (remember : List Str) (out : Meta × Map (List Str)) (i : ℕ) (f : Field)
    → apply_merge uni meta cur rules picks remember ≡ some out
    → get_elem? all_fields i ≡ some f
    → f.pickable ≡ true
    → f.virtual ≡ false
    → Distinct picks
    → lookup f.key picks ≡ some choice_manual
    → value out.0 f ≡ value cur f
unfolding apply_merge
apply_merge-manual uni meta cur rules picks remember out i f done at pick stored d kept =
    let rules' = overlay rules (remembered picks (present meta) remember) in
    let m : Meta = record cur { choices = overlay cur.choices picks } in
    let same : (resolve uni m rules').0 ≡ out.0 =
      accepted (valid_picks picks (present meta)) (resolve uni m rules').0 rules' out done in
    let pinned : text_at m.choices f.key ≡ choice_manual =
      text_at-Some m.choices f.key choice_manual
        (lookup-overlay cur.choices picks f.key d ∙ rw kept refl) in
    subst (λ x. value x f ≡ value cur f) same
      (resolve-manual uni m rules' i f at pick stored pinned
        ∙ (unfold value in value_at-choices cur (overlay cur.choices picks) (slot f.key) f.joined))

-- A lookup leaves one less of the day's budget, and the first of a day has all the day's budget.
pub remaining-spend :
    (today : Str) (b : Budget)
    → (omdb_backfill_remaining today (spend_omdb_backfill today b)).1
      ≡ (if str_eq today b.day then omdb_snapshots_per_day - b.used else omdb_snapshots_per_day) - 1
unfolding omdb_backfill_remaining spend_omdb_backfill roll_omdb_budget
remaining-spend today b = elim (Bool-cases (str_eq today b.day)) [
  | inl e ↦ rw (e, e) (omega arith)
  | inr e ↦ rw (e, str_eq_self today) (omega arith)
]
