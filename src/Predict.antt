-- ===== src/Predict.antt =====
-- internal/server/importpredict.go and importseeds.go: the category that an import row is preselected
-- into, from the markers of its name. The division of float64 in the purity test is a parameter, and
-- so is what recognize.Markers finds in a name.
use file_fin.Prelude.{
  ℕ, zero, suc, ◌+◌, Bool, true, false, not, ◌&&◌, ◌||◌, Option, none, some, List, [], ◌∷◌, ◌++◌,
  length, take, drop, keep, ◌-◌, ltb, leb, ◌==◌, if◌then◌else◌, Str, bytes, str_eq, contains, Map,
  lookup, insert,
}
use file_fin.Strings.{trim_space}
use file_fin.Strings.Paths.{to_lower, has_prefix, base_name}
use file_fin.Library.Markings.{Markers, accepts}
use file_fin.Library.{Category}
use file_fin.Predict.Text.{contains_word, marker_value, as_written}
use file_fin.Predict.Seeds.{Seed, seeds, seed_matches}
pub mod Text
pub mod Seeds
pub mod Words
pub mod Votes
pub mod Guess

abbrev pub min_sightings : ℕ
min_sightings = 2

abbrev declared_weight : ℕ
declared_weight = min_sightings

abbrev seed_weight : ℕ
seed_weight = 1

-- An import row, as far as the prediction reads it; `path` is its first file.
pub record ImportItem : Type 0 where
  pub entry : Str
  pub title : Str
  pub is_show : Bool
  pub path : Option Str

-- Why a row was preselected; the sentences made of these are not modelled.
pub data Reason : Type 0 where
  unsaid : Reason
  imported_before : Str → Str → ℕ → Reason
  keyword : Str → Str → Reason
  language : Str → Str → Reason
  seeded : Str → Str → Str → Reason
  only_category : Reason

-- Category 0 stands for no guess.
pub record Prediction : Type 0 where
  pub category_id : ℕ
  pub reason : Reason

abbrev pub no_guess : Prediction
no_guess = record { category_id = 0; reason = unsaid }

-- Sightings per category.
abbrev pub Tally : Type 0
Tally = List (ℕ × ℕ)

pub record Predictor : Type 0 where
  pub cats : List Category
  pub counts : Map Tally
  pub totals : Map ℕ

abbrev pub tally_of : Option Tally → Tally
tally_of none = []
tally_of (some t) = t

abbrev pub total_of : Option ℕ → ℕ
total_of none = 0
total_of (some n) = n

-- `counts[id] += n`
unfoldable pub add_tally : ℕ → ℕ → Tally → Tally
add_tally id n [] = (id, n) ∷ []
add_tally id n ((j, m) ∷ t) = if j == id then (j, m + n) ∷ t else (j, m) ∷ add_tally id n t

-- The body of the loop of `newPredictor`.
abbrev pub add_marker : ℕ → Str → ℕ → Predictor → Predictor
add_marker id marker n p = record p {
  counts = insert marker (add_tally id n (tally_of (lookup marker p.counts))) p.counts;
  totals = insert marker (total_of (lookup marker p.totals) + n) p.totals;
}

-- The loop over the learned markers of one category.
unfoldable pub add_learned : ℕ → Map ℕ → Predictor → Predictor
add_learned id [] p = p
add_learned id ((marker, n) ∷ rest) p = add_learned id rest (add_marker id marker n p)

unfoldable pub add_categories : List Category → Predictor → Predictor
unfolding add_learned
add_categories [] p = p
add_categories (c ∷ cats) p = add_categories cats (add_learned c.id c.markers.learned p)

unfoldable pub new_predictor : List Category → Predictor
unfolding add_categories
new_predictor cats = add_categories cats (record { cats = cats; counts = []; totals = [] })

unfoldable pub distinct : List Str → List Str → List Str
distinct seen [] = []
distinct seen (m ∷ ms) =
    let old = distinct seen ms in
    let new = m ∷ distinct (m ∷ seen) ms in if contains seen m then old else new

abbrev markers_of_path : (Str → List Str) → Option Str → List Str
markers_of_path markers none = []
markers_of_path markers (some p) = markers (base_name p)

unfoldable pub item_markers : (Str → List Str) → ImportItem → List Str
unfolding distinct
item_markers markers it = distinct [] (markers it.entry ++ markers_of_path markers it.path)

-- The body of the loop of `learnedVote`: the most sightings, a tie to the lowest id.
unfoldable pub note_count : ℕ × ℕ → ℕ × ℕ → ℕ × ℕ
note_count (best_id, best) (id, n) =
    if ltb best n || (n == best && ltb id best_id) then (id, n) else (best_id, best)

unfoldable pub best_count : ℕ × ℕ → Tally → ℕ × ℕ
unfolding note_count
best_count best [] = best
best_count best (e ∷ t) = best_count (note_count best e) t

-- `pure best total` is `float64(best)/float64(total) >= minPurity`.
unfoldable pub learned_vote : (ℕ → ℕ → Bool) → Predictor → Str → Option (ℕ × ℕ)
unfolding best_count
learned_vote pure p marker =
    let total = total_of (lookup marker p.totals) in
    let best = best_count (0, 0) (tally_of (lookup marker p.counts)) in
    if ltb total min_sightings then none else if pure best.1 total then some best else none

pub record Vote : Type 0 where
  pub score : ℕ
  pub weight : ℕ
  pub reason : Reason

abbrev pub Votes : Type 0
Votes = List (ℕ × Vote)

raise : ℕ → Reason → Vote → Vote
raise weight reason v =
    if ltb v.weight weight
    then record { score = v.score + weight; weight = weight; reason = reason }
    else record v { score = v.score + weight }

unfoldable pub cast : ℕ → ℕ → Reason → Votes → Votes
unfolding raise
cast id weight reason [] =
    (id, raise weight reason (record { score = 0; weight = 0; reason = unsaid })) ∷ []
cast id weight reason ((j, v) ∷ votes) =
    if j == id then (j, raise weight reason v) ∷ votes else (j, v) ∷ cast id weight reason votes

-- The body of the loop of `pickVote`: the highest score, a tie to the lowest id.
unfoldable pub note_vote : ℕ × ℕ → ℕ × Vote → ℕ × ℕ
note_vote (best_id, best) (id, v) =
    if ltb best v.score || (v.score == best && not (best_id == 0) && ltb id best_id)
    then (id, v.score)
    else (best_id, best)

unfoldable pub pick_from : ℕ × ℕ → Votes → ℕ × ℕ
unfolding note_vote
pick_from best [] = best
pick_from best (e ∷ votes) = pick_from (note_vote best e) votes

unfoldable pub pick_vote : Votes → ℕ
unfolding pick_from
pick_vote votes = (pick_from (0, 0) votes).0

-- `byID[id]`: the last category with an id.
unfoldable pub by_id : List Category → ℕ → Option Category
by_id [] id = none
by_id (c ∷ cats) id = elim (by_id cats id) [
  | some d ↦ some d
  | none ↦ if c.id == id then some c else none
]

abbrev pub found_cast : ImportItem → Str → ℕ → ℕ → Votes → Option Category → Votes
found_cast it marker id n votes none = votes
found_cast it marker id n votes (some c) =
    cast id n (imported_before (as_written it.entry (marker_value marker)) c.alias n) votes

-- What one marker of the name casts.
unfoldable pub learned_cast : ImportItem → List Category → Str → Option (ℕ × ℕ) → Votes → Votes
learned_cast it eligible marker none votes = votes
learned_cast it eligible marker (some (id, n)) votes =
    found_cast it marker id n votes (by_id eligible id)

unfoldable pub learned_votes :
    (ℕ → ℕ → Bool) → Predictor → ImportItem → List Category → List Str → Votes → Votes
unfolding learned_cast
learned_votes pure p it eligible [] votes = votes
learned_votes pure p it eligible (m ∷ ms) votes =
    learned_votes pure p it eligible ms (learned_cast it eligible m (learned_vote pure p m) votes)

unfoldable pub word_votes : ℕ → (Str → Reason) → Str → List Str → Votes → Votes
word_votes id reason names [] votes = votes
word_votes id reason names (w ∷ ws) votes =
    word_votes id reason names ws
      (if contains_word names w then cast id declared_weight (reason w) votes else votes)

-- The words that the categories declare.
unfoldable pub declared_votes : Str → List Category → Votes → Votes
unfolding word_votes
declared_votes names [] votes = votes
declared_votes names (c ∷ cats) votes =
    let keywords = word_votes c.id (λ w. keyword w c.alias) names c.markers.keywords votes in
    declared_votes names cats
      (word_votes c.id (λ w. language w c.alias) names c.markers.languages keywords)

unfoldable pub seed_cast : Seed → List Category → Votes → Votes
seed_cast seed [] votes = votes
seed_cast seed (c ∷ cats) votes = seed_cast seed cats (elim (seed_matches c seed.1) [
  | none ↦ votes
  | some hint ↦ cast c.id seed_weight (seeded (marker_value seed.0) hint c.alias) votes
])

unfoldable pub seed_votes : List Seed → List Str → List Category → Votes → Votes
unfolding seed_cast
seed_votes [] found eligible votes = votes
seed_votes (s ∷ seeds) found eligible votes =
    seed_votes seeds found eligible
      (if contains found s.0 then seed_cast s eligible votes else votes)

vote_reason : ℕ → Votes → Reason
vote_reason id [] = unsaid
vote_reason id ((j, v) ∷ votes) = if j == id then v.reason else vote_reason id votes

abbrev sole : List Category → Prediction
sole [] = no_guess
sole (c ∷ []) = record { category_id = c.id; reason = only_category }
sole (c ∷ d ∷ cats) = no_guess

unfoldable pub settle : List Category → Votes → Prediction
unfolding vote_reason
settle eligible votes =
    let best = pick_vote votes in
    if best == 0
    then sole eligible
    else record { category_id = best; reason = vote_reason best votes }

unfoldable pub all_votes :
    (Str → List Str) → (ℕ → ℕ → Bool) → Predictor → ImportItem → List Category → Votes
unfolding learned_votes declared_votes seed_votes seeds
all_votes markers pure p it eligible =
    let found = item_markers markers it in
    let names = to_lower (it.entry ++ (b' ' ∷ it.title)) in
    seed_votes seeds found eligible
      (declared_votes names eligible (learned_votes pure p it eligible found []))

unfoldable pub predict : (Str → List Str) → (ℕ → ℕ → Bool) → Predictor → ImportItem → Prediction
unfolding all_votes settle
predict markers pure p it =
    let eligible = keep (λ (c : Category). accepts c.markers it.is_show) p.cats in
    settle eligible (all_votes markers pure p it eligible)
