-- ===== src/Tests/Activity.antt =====
-- Tests of the drain tracker (internal/server/activity.go).
use file_fin.Prelude.{ℕ, suc, ◌-◌, max, ◌≡◌, refl, some, List, [], ◌∷◌, Str, str_eq, bytes, Map}
use file_fin.Progress.{high, observe, observe_all, peak, observe-peak}

abbrev seen : List (Str × ℕ)
seen = (bytes "probe", 9) ∷ (bytes "people", 0) ∷ (bytes "probe", 4) ∷ []

abbrev started : Map ℕ
started = (bytes "probe", 3) ∷ []

observe-peak_example :
    (observe (observe_all started seen) (bytes "probe") (suc 1)).1
    ≡ some (
      max (peak (bytes "probe") (high started (bytes "probe")) seen) (suc 1) - suc 1,
      max (peak (bytes "probe") (high started (bytes "probe")) seen) (suc 1),
    )
unfolding str_eq
observe-peak_example = observe-peak started seen (bytes "probe") 1 refl
