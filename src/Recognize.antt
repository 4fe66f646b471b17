-- ===== src/Recognize.antt =====
-- internal/recognize/sanity.go: the checks on a recognised title and its files, and the choice among
-- the candidates. What the regular expressions and the tables of characters say of a title, and the
-- current year, are parameters.
use file_fin.Prelude.{
  ℕ, zero, suc, ◌+◌, Bool, true, false, not, ◌&&◌, ◌||◌, Option, none, some, List, [], ◌∷◌, ◌++◌,
  map, any, keep, length, ltb, leb, ◌==◌, if◌then◌else◌, Str, str_eq,
}
use file_fin.Strings.{trim_space, fields}
use file_fin.Strings.Paths.{to_lower}
pub mod Ranking
pub mod Contiguous

pub data Confidence : Type 0 where
  high : Confidence
  medium : Confidence
  low : Confidence

pub data Check : Type 0 where
  film_files : Check
  title_agreement : Check
  episode_unique : Check
  title_junk : Check
  title_shape : Check
  year_range : Check
  episode_run : Check
  year_missing : Check
  season_guess : Check

pub record Parsed : Type 0 where
  pub title : Str
  pub year : ℕ
  pub season : ℕ
  pub episode : ℕ
  pub part : ℕ

-- What the tests on a title say, and the current year.
pub record Looks : Type 0 where
  pub abbrev_pair : Str → Bool
  pub title_word : Str → Bool
  pub junk : Str → Bool
  pub this_year : ℕ

abbrev pub when : Bool → Check → List Check
when true c = c ∷ []
when false c = []

unfoldable pub hard_title : Looks → Parsed → List Check
hard_title l p =
    let t = trim_space p.title in
    when (str_eq t [] || l.abbrev_pair t || not (l.title_word t)) title_shape
    ++ (when (l.junk t) title_junk
        ++ when (not (p.year == 0) && (ltb p.year 1900 || ltb (l.this_year + 2) p.year)) year_range)

unfoldable pub soft_title : Parsed → List Check
soft_title p = when (p.year == 0) year_missing

insert_number : ℕ → List ℕ → List ℕ
insert_number n [] = n ∷ []
insert_number n (m ∷ ms) = if ltb m n then m ∷ insert_number n ms else n ∷ m ∷ ms

unfoldable pub sort_numbers : List ℕ → List ℕ
unfolding insert_number
sort_numbers [] = []
sort_numbers (n ∷ ns) = insert_number n (sort_numbers ns)

abbrev runs_from : ℕ → List ℕ → Bool
runs_from i [] = true
runs_from i (n ∷ ns) = n == i && runs_from (suc i) ns

unfoldable pub contiguous_from_1 : List ℕ → Bool
unfolding sort_numbers
contiguous_from_1 nums = runs_from 1 (sort_numbers nums)

unfoldable pub contiguous_parts : List Parsed → Bool
unfolding contiguous_from_1
contiguous_parts files =
    not (any (λ f. f.part == 0) files) && contiguous_from_1 (map (λ f. f.part) files)

abbrev same_episode : Parsed → Parsed → Bool
same_episode f g = f.season == g.season && f.episode == g.episode

unfoldable pub claimed_twice : List Parsed → Bool
claimed_twice [] = false
claimed_twice (f ∷ files) = any (same_episode f) files || claimed_twice files

-- The order of the range over the seasons does not matter: one gap is reported, once.
unfoldable pub has_gap : List Parsed → Bool
unfolding contiguous_from_1
has_gap files =
    any
      (λ f. not (contiguous_from_1 (map (λ g. g.episode) (keep (λ g. g.season == f.season) files))))
      files

-- The hard and the soft failures.
unfoldable pub check_files : List Parsed → Bool → List Check × List Check
unfolding contiguous_parts claimed_twice has_gap
check_files [] is_show = ([], [])
check_files (f ∷ files) false =
    (when (ltb 1 (length (f ∷ files)) && not (contiguous_parts (f ∷ files))) film_files, [])
check_files (f ∷ files) true =
    (when (claimed_twice (f ∷ files)) episode_unique, when (has_gap (f ∷ files)) episode_run)

-- The shorter of two lists of words is the start of the longer.
unfoldable pub share_prefix : List Str → List Str → Bool
share_prefix [] b = true
share_prefix (w ∷ a) [] = true
share_prefix (w ∷ a) (v ∷ b) = str_eq w v && share_prefix a b

unfoldable pub title_words : List Parsed → List (List Str)
title_words [] = []
title_words (f ∷ files) = words_before (fields (to_lower f.title)) (title_words files)
  where
    words_before : List Str → List (List Str) → List (List Str)
    words_before [] rest = rest
    words_before (w ∷ ws) rest = (w ∷ ws) ∷ rest

abbrev agree_with_first : List (List Str) → Bool
agree_with_first [] = true
agree_with_first (t ∷ ts) = not (any (λ u. not (share_prefix t u)) ts)

unfoldable pub titles_agree : List Parsed → Bool
unfolding title_words share_prefix
titles_agree files = agree_with_first (title_words files)

pub record Scored : Type 0 where
  pub parsed : Parsed
  pub at_place : ℕ
  pub hard : List Check
  pub soft : List Check

unfoldable pub score_from : Looks → ℕ → List Parsed → List Scored
unfolding hard_title soft_title
score_from l i [] = []
score_from l i (p ∷ ps) =
    record { parsed = p; at_place = i; hard = hard_title l p; soft = soft_title p }
    ∷ score_from l (suc i) ps

-- The order of the ranking.
unfoldable pub less_doubtful : Scored → Scored → Bool
less_doubtful a b =
    if not (length a.hard == length b.hard)
    then ltb (length a.hard) (length b.hard)
    else ltb (length a.soft) (length b.soft)

unfoldable pub insert_scored : Scored → List Scored → List Scored
unfolding less_doubtful
insert_scored a [] = a ∷ []
insert_scored a (b ∷ bs) = if less_doubtful b a then b ∷ insert_scored a bs else a ∷ b ∷ bs

-- `sort.SliceStable`
unfoldable pub rank : List Scored → List Scored
unfolding insert_scored
rank [] = []
rank (c ∷ cands) = insert_scored c (rank cands)

unfoldable pub capitals : List Str → ℕ
capitals [] = 0
capitals ([] ∷ ws) = capitals ws
capitals ((c ∷ w) ∷ ws) = (if leb b'A' c && leb c b'Z' then 1 else 0) + capitals ws

-- The title of the winner, taken over from a candidate that only capitalises it more.
unfoldable pub capitalised : Str → List Scored → Str
unfolding capitals
capitalised title [] = title
capitalised title (c ∷ cs) =
    let better =
      str_eq (to_lower c.parsed.title) (to_lower title)
      && ltb (capitals (fields title)) (capitals (fields c.parsed.title)) in
    capitalised (if better then c.parsed.title else title) cs

unfoldable pub first_year : List Scored → ℕ
first_year [] = 0
first_year (c ∷ cs) = if not (c.parsed.year == 0) then c.parsed.year else first_year cs

abbrev is_year_missing : Check → Bool
is_year_missing year_missing = true
is_year_missing _ = false

abbrev drop_year_missing : List Check → List Check
drop_year_missing = keep (λ c. not (is_year_missing c))

-- The winner, with its title and its year completed from the others.
unfoldable pub completed : Scored → List Scored → Scored
unfolding capitalised first_year
completed win others =
    let title = capitalised win.parsed.title others in
    let year = first_year others in
    if win.parsed.year == 0 && not (year == 0)
    then record win {
      parsed = record (win.parsed) { title = title; year = year };
      soft = drop_year_missing win.soft;
    }
    else record win { parsed = record (win.parsed) { title = title } }

pub record Result : Type 0 where
  pub identified : Parsed
  pub confidence : Confidence
  pub failed : List Check

abbrev pub confidence_of : List Check → List Check → ℕ → Confidence
confidence_of (c ∷ hard) soft at_place = low
confidence_of [] (c ∷ soft) at_place = medium
confidence_of [] [] zero = high
confidence_of [] [] (suc at_place) = medium

abbrev pub no_title : Parsed
no_title = record { title = []; year = 0; season = 0; episode = 0; part = 0 }

abbrev pub best_of : List Check → List Check → List Scored → Result
best_of file_hard file_soft [] = record {
  identified = no_title;
  confidence = low;
  failed = title_shape ∷ [];
}
best_of file_hard file_soft (win ∷ others) =
    let w = completed win others in
    let hard = file_hard ++ w.hard in
    let soft = file_soft ++ w.soft in
    record {
      identified = w.parsed;
      confidence = confidence_of hard soft w.at_place;
      failed = hard ++ soft;
    }

-- `Best`, over the parsed names of the candidates in the order of trust.
unfoldable pub best : Looks → List Parsed → List Parsed → Bool → Result
unfolding check_files titles_agree score_from rank completed
best l cands files is_show =
    let checked = check_files files is_show in
    best_of (checked.0 ++ when (not (titles_agree files)) title_agreement) checked.1
      (rank (score_from l 0 cands))
