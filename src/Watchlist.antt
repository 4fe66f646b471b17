-- ===== src/Watchlist.antt =====
-- internal/watchlist/match.go: pairing the entries of an external watch list with library items.
use file_fin.Prelude.{
  ℕ, zero, suc, ◌+◌, ◌-◌, min, max, Bool, true, false, ◌&&◌, ◌||◌, Option, none, some, List, [],
  ◌∷◌, ◌++◌, Str, str_eq, bytes, Map, lookup, insert, length, keep, ltb, leb, ◌==◌, if◌then◌else◌,
  ℤ, pos, pos_part, neg_part, ltb_ℤ, eqb_ℤ,
}
use file_fin.Sources.Compare.{Unicode}
use file_fin.Watchlist.Key.{normalize}
use file_fin.Watchlist.Distance.{levenshtein}
pub mod Distance
pub mod Years
pub mod Preselected
pub mod Index
pub mod Order
pub mod Key

pub data Confidence : Type 0 where
  exact confident approximate : Confidence

pub record LibraryItem : Type 0 where
  pub id : Str
  pub title : Str
  pub year : ℤ

pub record Entry : Type 0 where
  pub title : Str
  pub aliases : List Str
  pub year : ℤ
  pub rating : ℤ
  pub watched : Bool

-- The confidence of an entry without an item is "", here `none`.
pub record Match : Type 0 where
  pub entry : Entry
  pub item : Option LibraryItem
  pub confidence : Option Confidence
  pub reason : Str
  pub library_year : ℤ

abbrev pub year_tolerance : ℕ
year_tolerance = 1

-- `abs(a - b)` of two years.
unfoldable pub years_apart : ℤ → ℤ → ℕ
years_apart a b =
    let x = pos_part a + neg_part b in let y = pos_part b + neg_part a in (x - y) + (y - x)

abbrev pub unmatched : Entry → Match
unmatched e = record {
  entry = e;
  item = none;
  confidence = none;
  reason = [];
  library_year = pos 0;
}

abbrev pub matched : Entry → LibraryItem → Confidence → Match
matched e it grade = record {
  entry = e;
  item = some it;
  confidence = some grade;
  reason = [];
  library_year = it.year;
}

unfoldable pub grade_unique : ℤ → ℤ → Confidence
unfolding years_apart
grade_unique y z =
    if ltb_ℤ (pos 0) y && ltb_ℤ (pos 0) z && eqb_ℤ z y
    then exact
    else if eqb_ℤ y (pos 0) || eqb_ℤ z (pos 0) || leb (years_apart z y) year_tolerance
    then confident
    else approximate

unfoldable pub decide_unique : Entry → LibraryItem → Match
decide_unique e it = matched e it (grade_unique e.year it.year)

-- The loop of `closestYear`, from the pick so far.
unfoldable pub closest_from : LibraryItem → List LibraryItem → ℤ → LibraryItem
closest_from pick [] year = pick
closest_from pick (c ∷ cs) year =
    closest_from (if ltb (years_apart c.year year) (years_apart pick.year year) then c else pick) cs
      year

-- `none` stands for the index panic on no candidates; the callers have one.
unfoldable pub closest_year : List LibraryItem → ℤ → Option LibraryItem
closest_year [] year = none
closest_year (c ∷ cs) year = some (closest_from c (c ∷ cs) year)

unfoldable pub same_year : List LibraryItem → ℤ → Option LibraryItem
same_year [] year = none
same_year (c ∷ cs) year = if eqb_ℤ c.year year then some c else same_year cs year

unfoldable pub within_tolerance : List LibraryItem → ℤ → List LibraryItem
within_tolerance cands year =
    keep (λ c. ltb_ℤ (pos 0) c.year && leb (years_apart c.year year) year_tolerance) cands

abbrev pub offer : Entry → Option LibraryItem → Str → Match
offer e none reason = unmatched e
offer e (some it) reason = record (matched e it approximate) { reason = reason }

unfoldable pub decide_within : Entry → List LibraryItem → List LibraryItem → Match
decide_within e cands (c ∷ []) = matched e c confident
decide_within e cands [] = offer e (closest_year cands e.year) []
decide_within e cands (c ∷ d ∷ cs) = offer e (closest_year cands e.year) []

unfoldable pub decide_collision : Entry → List LibraryItem → Match
unfolding decide_within
decide_collision e cands =
    if ltb_ℤ (pos 0) e.year
    then elim (same_year cands e.year) [
      | some c ↦ matched e c exact
      | none ↦ decide_within e cands (within_tolerance cands e.year)
    ]
    else offer e (closest_year cands e.year) []

-- `idx[key]`
unfoldable pub items_at : Map (List LibraryItem) → Str → List LibraryItem
items_at idx key = elim (lookup key idx) [ none ↦ [] | some cands ↦ cands ]

-- What the matcher uses of `float64`: the constants `fuzzyThreshold`, `fuzzySeparation` and
-- `1 - fuzzyThreshold`, the comparison and the arithmetic.
pub record Ratios : Type 1 where
  pub Ratio : Type 0
  pub zero_r : Ratio
  pub one : Ratio
  pub fuzzy_threshold : Ratio
  pub fuzzy_separation : Ratio
  pub length_share : Ratio
  pub lt : Ratio → Ratio → Bool
  pub sub : Ratio → Ratio → Ratio
  pub mul : Ratio → Ratio → Ratio
  pub div : Ratio → Ratio → Ratio
  pub of_int : ℕ → Ratio

abbrev pub or_else : List LibraryItem → List LibraryItem → List LibraryItem
or_else [] rest = rest
or_else (c ∷ cs) rest = c ∷ cs

module _ (uni : Unicode) where
  -- The loop of `MatchLibrary` that groups the library by key.
  unfoldable pub index_from : Map (List LibraryItem) → List LibraryItem → Map (List LibraryItem)
  index_from idx [] = idx
  index_from idx (it ∷ lib) =
      index_from
        (if str_eq (normalize uni it.title) []
          then idx
          else insert (normalize uni it.title) (items_at idx (normalize uni it.title) ++ it ∷ [])
              idx)
        lib

  unfoldable pub first_candidates : Map (List LibraryItem) → List Str → List LibraryItem
  first_candidates idx [] = []
  first_candidates idx (title ∷ titles) =
      or_else (items_at idx (normalize uni title)) (first_candidates idx titles)

  unfoldable pub candidates : Map (List LibraryItem) → Entry → List LibraryItem
  candidates idx e = first_candidates idx (e.title ∷ e.aliases)

  module _ (fl : Ratios) where
    open fl use {
      Ratio, zero_r, one, fuzzy_threshold, fuzzy_separation, length_share, lt, sub, mul, div,
      of_int,
    }

    unfoldable pub similar : Str → Str → Ratio
    similar a b =
        if str_eq a b
        then one
        else if str_eq a [] || str_eq b []
        then zero_r
        else sub one (div (of_int (levenshtein a b)) (of_int (max (length a) (length b))))

    unfoldable pub too_different_length : ℕ → ℕ → Bool
    too_different_length la lb =
        lt (mul length_share (of_int (max la lb))) (of_int ((la - lb) + (lb - la)))

    -- The variables of the loop of `fuzzyMatch`.
    pub record Scan : Type 0 where
      pub best_key : Str
      pub best : Ratio
      pub second : Ratio

    -- What the loop does with the similarity of a key that is not skipped.
    unfoldable pub note : Scan → Str → Ratio → Scan
    note s key x =
        if lt s.best x
        then record { best_key = key; best = x; second = s.best }
        else if lt s.second x
        then record s { second = x }
        else s

    unfoldable pub score : Str → Scan → Str → Scan
    unfolding similar too_different_length note
    score q s key =
        if too_different_length (length q) (length key) then s else note s key (similar q key)

    unfoldable pub scan_keys : Str → Scan → List Str → Scan
    unfolding score
    scan_keys q s [] = s
    scan_keys q s (key ∷ keys) = scan_keys q (score q s key) keys

    unfoldable pub rejected : Scan → Bool
    rejected s =
        str_eq s.best_key []
        || lt s.best fuzzy_threshold
        || lt (sub s.best s.second) fuzzy_separation

    -- What `fuzzyMatch` returns after the loop.
    unfoldable pub fuzzy_answer : Map (List LibraryItem) → Entry → Scan → Match
    fuzzy_answer idx e s =
        if rejected s
        then unmatched e
        else offer e (closest_year (items_at idx s.best_key) e.year) (bytes "similar title")

    -- `keys` is the order in which the range over the index meets its keys.
    unfoldable pub fuzzy_match : Map (List LibraryItem) → List Str → Entry → Match
    fuzzy_match idx keys e =
        if str_eq (normalize uni e.title) []
        then unmatched e
        else fuzzy_answer idx e (
            scan_keys (normalize uni e.title)
              (record { best_key = []; best = zero_r; second = zero_r }) keys)

    unfoldable pub decide_candidates :
        Map (List LibraryItem) → List Str → Entry → List LibraryItem → Match
    unfolding fuzzy_match decide_unique decide_collision
    decide_candidates idx keys e [] = fuzzy_match idx keys e
    decide_candidates idx keys e (c ∷ []) = decide_unique e c
    decide_candidates idx keys e (c ∷ d ∷ cs) = decide_collision e (c ∷ d ∷ cs)

    unfoldable pub match_one : Map (List LibraryItem) → List Str → Entry → Match
    unfolding decide_candidates candidates
    match_one idx keys e = decide_candidates idx keys e (candidates idx e)

    -- `MatchLibrary`; `order` is the order of the keys that the range for an entry meets.
    unfoldable pub match_library : (Entry → List Str) → List Entry → List LibraryItem → List Match
    unfolding match_one index_from
    match_library order [] lib = []
    match_library order (e ∷ entries) lib =
        match_one (index_from [] lib) (order e) e ∷ match_library order entries lib
