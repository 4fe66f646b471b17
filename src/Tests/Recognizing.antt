-- ===== src/Tests/Recognizing.antt =====
-- Tests of internal/recognize/sanity.go.
use file_fin.Prelude.{
  ℕ, ◌≡◌, refl, true, false, not, List, [], ◌∷◌, ◌++◌, any, keep, length, ◌≤◌, ◌↔◌, ◌⊎◌, Str, bytes,
  str_eq,
}
use file_fin.Strings.{trim_space, trim_left, trim_right, is_space, fields}
use file_fin.Strings.Paths.{to_lower}
use file_fin.Recognize.{
  Parsed, Looks, film_files, title_agreement, hard_title, soft_title, when, sort_numbers,
  contiguous_from_1, contiguous_parts, check_files, share_prefix, title_words, titles_agree,
  score_from, less_doubtful, insert_scored, rank, capitals, capitalised, first_year, completed,
  best,
}
use file_fin.Recognize.Contiguous.{Numbered, check_files-Numbered}
use file_fin.Recognize.Ranking.{Least, Trusted, rank-Least, best-Trusted}

abbrev looks : Looks
looks = record {
  abbrev_pair = λ t. false;
  title_word = λ t. true;
  junk = λ t. str_eq t (bytes "Dune 1080p");
  this_year = 2026;
}

abbrev film : Str → ℕ → ℕ → Parsed
film title year part = record { title = title; year = year; season = 0; episode = 0; part = part }

abbrev two_parts : List Parsed
two_parts = film (bytes "Dune") 2021 2 ∷ film (bytes "dune") 2021 1 ∷ []

parts_run : contiguous_from_1 (2 ∷ 3 ∷ 1 ∷ []) ≡ true
unfolding contiguous_from_1 sort_numbers
parts_run = refl

parts_gap :
    (check_files (film (bytes "a") 0 1 ∷ film (bytes "a") 0 3 ∷ []) false).0 ≡ film_files ∷ []
unfolding check_files contiguous_parts contiguous_from_1 sort_numbers any
parts_gap = refl

abbrev sources : List Parsed
sources = film (bytes "Dune") 2021 0 ∷ film (bytes "Dune 1080p") 0 0 ∷ []

rank-Least_example : Least (rank (score_from looks 0 sources)) (score_from looks 0 sources)
rank-Least_example = rank-Least (score_from looks 0 sources)

best-Trusted_example :
    Trusted
      ((check_files two_parts false).0 ++ when (not (titles_agree two_parts)) title_agreement)
      (check_files two_parts false).1
      (rank (score_from looks 0 sources))
    × ((best looks sources two_parts false).failed ≡ [])
unfolding best check_files contiguous_parts contiguous_from_1 sort_numbers any titles_agree
    title_words share_prefix score_from hard_title soft_title trim_space trim_left trim_right
    is_space str_eq fields to_lower rank insert_scored less_doubtful completed capitalised
    first_year capitals keep
best-Trusted_example = best-Trusted looks sources two_parts false refl

check_files-Numbered_example :
    ((check_files two_parts false).0 ≡ []) ↔ ((length two_parts ≤ 1) ⊎ Numbered two_parts)
check_files-Numbered_example = check_files-Numbered two_parts
