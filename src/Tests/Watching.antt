-- ===== src/Tests/Watching.antt =====
-- Tests of the watch-list matcher (internal/watchlist). Similarities are whole thousandths.
use file_fin.Prelude.{
  ℕ, ◌*◌, ◌/◌, ◌-◌, ◌≤◌, ◌≡◌, ◌≢◌, refl, true, some, List, [], ◌∷◌, get_elem?, Str, str_eq, bytes,
  keep, lookup, insert, ltb, ltb_iff, if◌then◌else◌, All, pos, arith,
}
use mathlib.Core.List.{Permᴰ}
use file_fin.Watchlist.{
  confident, approximate, LibraryItem, Entry, Ratios, years_apart, closest_from, closest_year,
  index_from, candidates, first_candidates, fuzzy_match, match_one, decide_candidates,
  decide_unique, decide_collision, same_year, within_tolerance, decide_within, grade_unique,
  items_at,
}
use file_fin.Watchlist.Key.{
  normalize, normalize_twice, lower, replace_ampersand, fold_diacritics, drop_marks,
  strip_leading_article, strip_first, after_prefix, trim_spaces,
}
use file_fin.Watchlist.Distance.{Edit, levenshtein, source, target, cost, levenshtein-least}
use file_fin.Watchlist.Years.{Among, closest_year-nearest}
use file_fin.Watchlist.Preselected.{Trusted, Preselects, match_one-Trusted}
use file_fin.Watchlist.Index.{with_key, items_at-index, match_one-titled}
use file_fin.Watchlist.Order.{fuzzy_match-order}
use file_fin.Tests.Merging.{ascii}

abbrev thousandths : Ratios
thousandths = record {
  Ratio = ℕ;
  zero_r = 0;
  one = 1000;
  fuzzy_threshold = 900;
  fuzzy_separation = 50;
  length_share = 100;
  lt = ltb;
  sub = λ a b. a - b;
  mul = λ a b. a * b / 1000;
  div = λ a b. a * 1000 / b;
  of_int = λ n. n * 1000;
}

abbrev kingdom : LibraryItem
kingdom = record { id = bytes "a"; title = bytes "Kingdom"; year = pos 2019 }

abbrev kingdom_anime : LibraryItem
kingdom_anime = record { id = bytes "b"; title = bytes "The Kingdom!"; year = pos 2012 }

abbrev library : List LibraryItem
library = kingdom ∷ kingdom_anime ∷ []

abbrev watched_kingdom : Entry
watched_kingdom = record {
  title = bytes "kingdom";
  aliases = [];
  year = pos 2020;
  rating = pos 9;
  watched = true;
}

levenshtein-least_example :
    ((s : List Edit)
      → source s ≡ bytes "kingdom"
      → target s ≡ bytes "kindom"
      → levenshtein (bytes "kingdom") (bytes "kindom") ≤ cost s)
    × ((s : List Edit) × (source s ≡ bytes "kingdom")
        × (target s ≡ bytes "kindom")
        × (cost s ≡ levenshtein (bytes "kingdom") (bytes "kindom")))
levenshtein-least_example = levenshtein-least (bytes "kingdom") (bytes "kindom")

one_letter_dropped : levenshtein (bytes "kingdom") (bytes "kindom") ≡ 1
unfolding levenshtein
one_letter_dropped = refl

normalize_twice_example :
    normalize ascii (normalize ascii (bytes "The Goblin & Co"))
    ≡ normalize ascii (bytes "The Goblin & Co")
normalize_twice_example =
    normalize_twice ascii (λ c h. ground (arith, h)) (λ c h. refl) (λ s h. refl)
      (bytes "The Goblin & Co")

closest_year-nearest_example :
    Among kingdom library
    × All (λ d. years_apart kingdom.year (pos 2020) ≤ years_apart d.year (pos 2020)) library
unfolding closest_year closest_from years_apart
closest_year-nearest_example = closest_year-nearest library (pos 2020) kingdom refl

items_at-index_example :
    items_at (index_from ascii [] library) (bytes "kingdom")
    ≡ (if str_eq (bytes "kingdom") [] then [] else with_key ascii (bytes "kingdom") library)
items_at-index_example = items_at-index ascii library (bytes "kingdom")

confident_not_approximate : confident ≢ approximate
confident_not_approximate = λ e. cc

preselected :
    Preselects
      (match_one ascii thousandths
        (index_from ascii [] library)
        (bytes "kingdom" ∷ [])
        watched_kingdom)
      kingdom
unfolding match_one index_from candidates first_candidates items_at lookup insert str_eq keep
    normalize lower replace_ampersand fold_diacritics drop_marks strip_leading_article strip_first
    after_prefix trim_spaces decide_candidates decide_unique decide_collision same_year
    within_tolerance decide_within years_apart grade_unique
preselected = (refl, λ e. confident_not_approximate (cc e))

match_one-Trusted_example :
    Trusted watched_kingdom (candidates ascii (index_from ascii [] library) watched_kingdom) kingdom
match_one-Trusted_example =
    match_one-Trusted ascii thousandths (index_from ascii [] library) (bytes "kingdom" ∷ [])
      watched_kingdom kingdom preselected

match_one-titled_example :
    (i : ℕ) × (t : Str) × (get_elem? (bytes "kingdom" ∷ []) i ≡ some t)
    × (normalize ascii kingdom.title ≡ normalize ascii t)
match_one-titled_example =
    match_one-titled ascii thousandths library (bytes "kingdom" ∷ []) watched_kingdom kingdom
      preselected

abbrev keys : List Str
keys = bytes "kingdom" ∷ bytes "goblin" ∷ []

no_separation : (x : ℕ) → ltb (x - x) 50 ≡ true
no_separation x = (ltb_iff (x - x) 50).1 (omega arith)

fuzzy_match-order_example :
    fuzzy_match ascii thousandths (index_from ascii [] library) keys watched_kingdom
    ≡ fuzzy_match ascii thousandths
        (index_from ascii [] library)
        (bytes "goblin" ∷ bytes "kingdom" ∷ [])
        watched_kingdom
fuzzy_match-order_example =
    fuzzy_match-order ascii thousandths (λ x. x) (λ x y. refl) (λ x y e. e) no_separation
      (index_from ascii [] library) keys (bytes "goblin" ∷ bytes "kingdom" ∷ []) watched_kingdom
      (Permᴰ.swap refl refl)
