-- ===== src/Tests/Predicting.antt =====
-- Tests of internal/server/importpredict.go.
use mathlib.Core.List.{Permᴰ}
use file_fin.Prelude.{
  ℕ, ◌*◌, ◌≤◌, ◌≡◌, ◌⊎◌, ◌↔◌, refl, Bool, true, false, none, some, List, [], ◌∷◌, length, keep, any,
  lookup, insert, str_eq, contains, Str, bytes, leb, ◌==◌, ◌&&◌, suc, arith,
}
use file_fin.Strings.{trim_space, trim_left, trim_right, is_space}
use file_fin.Strings.Paths.{to_lower, has_prefix}
use file_fin.Library.Markings.{accepts, no_markers, kind_films, kind_shows}
use file_fin.Library.{Category}
use file_fin.Predict.Text.{contains_word, word_from, index}
use file_fin.Predict.Seeds.{seed_matches}
use file_fin.Predict.{
  ImportItem, Vote, unsaid, new_predictor, add_tally, add_learned, predict, pick_vote, best_count,
  learned_vote, item_markers, by_id, cast,
}
use file_fin.Predict.Words.{stands_at, word_from-answers, contains_word-Mentions}
use file_fin.Predict.Votes.{votes-order, learned_vote-pure, sightings, sightings_in}
use file_fin.Predict.Guess.{predict-takes}

word_from-answers_example :
    (b : Bool) × (word_from
        (suc (length (bytes "workroom kr")))
        (bytes "workroom kr")
        (bytes "kr")
        0
      ≡ some b)
word_from-answers_example =
    word_from-answers (bytes "workroom kr") (bytes "kr") (λ e. ground (arith, e))

contains_word-Mentions_example :
    (contains_word (bytes "workroom kr") (bytes " KR") ≡ true)
    ↔ ((k : ℕ) × (stands_at (bytes "workroom kr") (bytes "kr") k ≡ true))
unfolding trim_space trim_left trim_right is_space to_lower str_eq
contains_word-Mentions_example =
    contains_word-Mentions (bytes "workroom kr") (bytes " KR") (λ e. ground (arith, e))

inside_a_word : contains_word (bytes "workroom") (bytes "kr") ≡ false
unfolding contains_word trim_space trim_left trim_right is_space to_lower str_eq has_prefix
inside_a_word = refl

behind_an_overlap : contains_word (bytes "ana an") (bytes "an") ≡ true
unfolding contains_word trim_space trim_left trim_right is_space to_lower str_eq has_prefix
behind_an_overlap = refl

abbrev ballot : ℕ → Vote
ballot n = record { score = n; weight = n; reason = unsaid }

votes-order_example :
    (best_count (0, 0) ((1, 4) ∷ (2, 4) ∷ []) ≡ best_count (0, 0) ((2, 4) ∷ (1, 4) ∷ []))
    × (pick_vote ((3, ballot 2) ∷ (2, ballot 2) ∷ [])
        ≡ pick_vote ((2, ballot 2) ∷ (3, ballot 2) ∷ []))
votes-order_example = votes-order (Permᴰ.swap refl refl) (Permᴰ.swap refl refl)

abbrev category : ℕ → Str → Str → ℕ → Category
category id name kind n = record {
  id = id;
  name = name;
  parent = [];
  leaf = name;
  alias = name;
  position = id;
  markers = record no_markers { kind = kind; learned = (bytes "grp:jkct", n) ∷ [] };
}

abbrev cats : List Category
cats = category 1 (bytes "films") kind_films 1 ∷ category 2 (bytes "drama") kind_shows 9 ∷ []

-- The quotient of two numbers is at least 0.8.
abbrev four_fifths : ℕ → ℕ → Bool
four_fifths best all = leb (4 * all) (5 * best)

learned_vote-pure_example :
    (2 ≤ sightings (bytes "grp:jkct") cats)
    × (9 ≤ sightings_in 2 (bytes "grp:jkct") cats)
    × (4 * sightings (bytes "grp:jkct") cats ≤ 5 * 9)
unfolding learned_vote new_predictor add_learned add_tally lookup insert str_eq
learned_vote-pure_example =
    learned_vote-pure four_fifths (λ best all small h. ground (arith, h)) cats (bytes "grp:jkct") 2
      9 (omega arith) refl

abbrev row : ImportItem
row = record { entry = bytes "Drama.S01-JKCT"; title = bytes "Drama"; is_show = true; path = none }

predict-takes_example :
    ((predict (λ n. bytes "grp:jkct" ∷ []) four_fifths (new_predictor cats) row).category_id ≡ 0)
    ⊎ (any
          (λ (c : Category).
            c.id
              == (predict
                  (λ n. bytes "grp:jkct" ∷ [])
                  four_fifths
                  (new_predictor cats)
                  row).category_id
            && accepts c.markers true)
          (new_predictor cats).cats
        ≡ true)
predict-takes_example =
    predict-takes (λ n. bytes "grp:jkct" ∷ []) four_fifths (new_predictor cats) row

guessed :
    (predict (λ n. bytes "grp:jkct" ∷ []) four_fifths (new_predictor cats) row).category_id ≡ 2
unfolding predict pick_vote new_predictor add_learned add_tally learned_vote lookup insert str_eq
    keep accepts item_markers contains contains_word trim_space trim_left trim_right is_space
    to_lower seed_matches by_id has_prefix index cast
guessed = refl
