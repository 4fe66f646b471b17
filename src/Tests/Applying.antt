-- ===== src/Tests/Applying.antt =====
-- Tests of the picks, the pins and the budget of internal/server/merge.go.
use file_fin.Prelude.{◌-◌, ◌≡◌, refl, List, [], ◌∷◌, Str, str_eq, bytes, Map, lookup, if◌then◌else◌}
use file_fin.Sources.Field.{
  Meta, value, all_fields, choice_manual, field_by_key, value_at, slot, split_raw, clean,
  not_available,
}
use file_fin.Strings.{trim_space, is_space, equal_fold, join, fields, trim_left, trim_right, split}
use file_fin.Sources.Compare.{same_values, fold}
use file_fin.Sources.Edits.{pin_edits, resolve-pin_edits}
use file_fin.Merge.Apply.{
  Budget, manual_choices, if_manual, lookup-manual_choices, apply_merge, overlay, remembered,
  valid_picks, valid_pick, apply_merge-manual, omdb_backfill_remaining, spend_omdb_backfill,
  omdb_snapshots_per_day, remaining-spend,
}
use file_fin.Sources.Resolve.{present, resolve}
use file_fin.Tests.Merging.{ascii, item, no_rules, plot}

abbrev pins : Map Str
pins = (bytes "title", bytes "manual") ∷ (bytes "genres", bytes "tmdb") ∷ []

lookup-manual_choices_example :
    lookup (bytes "title") (manual_choices pins) ≡ if_manual (lookup (bytes "title") pins)
unfolding lookup str_eq
lookup-manual_choices_example = lookup-manual_choices pins (bytes "title") (refl, (refl, tt))

abbrev picks : Map Str
picks = (bytes "description", bytes "manual") ∷ []

abbrev merged : Meta × Map (List Str)
merged = (
  (resolve ascii (record item { choices = overlay item.choices picks })
      (overlay no_rules (remembered picks (present item) []))).0,
  overlay no_rules (remembered picks (present item) []),
)

apply_merge-manual_example : value merged.0 plot ≡ value item plot
unfolding lookup str_eq all_fields choice_manual apply_merge valid_picks valid_pick field_by_key
apply_merge-manual_example =
    apply_merge-manual ascii item item no_rules picks [] merged 5 plot refl refl refl refl
      (refl, tt) refl

abbrev yesterday : Budget
yesterday = record { day = bytes "2026-01-01"; used = 150 }

remaining-spend_example :
    (omdb_backfill_remaining
      (bytes "2026-01-02")
      (spend_omdb_backfill (bytes "2026-01-02") yesterday)).1
    ≡ (if str_eq (bytes "2026-01-02") yesterday.day
        then omdb_snapshots_per_day - yesterday.used
        else omdb_snapshots_per_day)
      - 1
remaining-spend_example = remaining-spend (bytes "2026-01-02") yesterday

abbrev retyped : Meta
retyped = record item { description = bytes "Another text." }

resolve-pin_edits_example :
    value
      (resolve ascii (record retyped { choices = pin_edits ascii item retyped }) no_rules).0
      plot
    ≡ value retyped plot
unfolding all_fields same_values str_eq value value_at slot split_raw clean trim_space is_space
    equal_fold not_available fold join fields trim_left trim_right split
resolve-pin_edits_example = resolve-pin_edits ascii item retyped no_rules 5 plot refl refl refl refl
