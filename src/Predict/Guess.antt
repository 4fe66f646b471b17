-- ===== src/Predict/Guess.antt =====
-- internal/server/importpredict.go: a guess is a category that takes the row.
use file_fin.Prelude.{
  ℕ, ◌≡◌, ◌⊎◌, refl, Bool, true, ◌&&◌, Option, none, some, List, [], ◌∷◌, any, keep, All, ◌==◌,
  ==_iff, ltb, Str, contains, Bool-cases, Option-cases, inl, inr, arith, sym, subst, ◌∙◌, not, ◌||◌,
  ◌++◌,
}
use file_fin.Strings.Paths.{to_lower}
use file_fin.Library.Markings.{accepts}
use file_fin.Library.{Category}
use file_fin.Predict.Text.{contains_word, as_written, marker_value}
use file_fin.Predict.Seeds.{Seed, seeds, seed_matches}
use file_fin.Predict.{
  ImportItem, Reason, Predictor, Vote, Votes, imported_before, keyword, language, seeded, cast,
  note_vote, pick_from, pick_vote, learned_vote, by_id, found_cast, learned_cast, learned_votes,
  word_votes, declared_votes, seed_cast, seed_votes, settle, all_votes, predict, item_markers,
  declared_weight, seed_weight, sole,
}

note_vote-cases : (b : ℕ × ℕ) (e : ℕ × Vote) → ((note_vote b e).0 ≡ b.0) ⊎ ((note_vote b e).0 ≡ e.0)
unfolding note_vote
note_vote-cases (best_id, best) (id, v) =
    elim (Bool-cases
      (ltb best v.score || (v.score == best && not (best_id == 0) && ltb id best_id))) [
        | inl e ↦ inr (rw e refl)
        | inr e ↦ inl (rw e refl)
      ]

module _ (P : ℕ → Type 0) where
  abbrev Voted : Votes → Type 0
  Voted [] = Unit
  Voted ((id, v) ∷ votes) = P id × Voted votes

  cast-Voted :
      (id weight : ℕ) (reason : Reason) (votes : Votes)
      → P id
      → Voted votes
      → Voted (cast id weight reason votes)
  unfolding cast
  cast-Voted id weight reason [] p h = (p, tt)
  cast-Voted id weight reason ((j, v) ∷ votes) p h = elim (Bool-cases (j == id)) [
    | inl e ↦ rw e h
    | inr e ↦ rw e (h.0, cast-Voted id weight reason votes p h.1)
  ]

  word_votes-Voted :
      (id : ℕ) (reason : Str → Reason) (names : Str) (ws : List Str) (votes : Votes)
      → P id
      → Voted votes
      → Voted (word_votes id reason names ws votes)
  unfolding word_votes
  word_votes-Voted id reason names [] votes p h = h
  word_votes-Voted id reason names (w ∷ ws) votes p h = elim (Bool-cases (contains_word names w)) [
    | inl e ↦ rw e (
        word_votes-Voted id reason names ws (cast id declared_weight (reason w) votes) p
          (cast-Voted id declared_weight (reason w) votes p h))
    | inr e ↦ rw e (word_votes-Voted id reason names ws votes p h)
  ]

  declared_votes-Voted :
      (names : Str) (cats : List Category) (votes : Votes)
      → All (λ (c : Category). P c.id) cats
      → Voted votes
      → Voted (declared_votes names cats votes)
  unfolding declared_votes
  declared_votes-Voted names [] votes a h = h
  declared_votes-Voted names (c ∷ cats) votes a h =
      let keywords = word_votes c.id (λ w. keyword w c.alias) names c.markers.keywords votes in
      let first : Voted keywords =
        word_votes-Voted c.id (λ w. keyword w c.alias) names c.markers.keywords votes a.0 h in
      declared_votes-Voted names cats
        (word_votes c.id (λ w. language w c.alias) names c.markers.languages keywords) a.1
        (word_votes-Voted c.id (λ w. language w c.alias) names c.markers.languages keywords a.0
          first)

  seed_cast-Voted :
      (seed : Seed) (cats : List Category) (votes : Votes)
      → All (λ (c : Category). P c.id) cats
      → Voted votes
      → Voted (seed_cast seed cats votes)
  unfolding seed_cast
  seed_cast-Voted seed [] votes a h = h
  seed_cast-Voted seed (c ∷ cats) votes a h = elim (Option-cases (seed_matches c seed.1)) [
    | inl e ↦ rw e (seed_cast-Voted seed cats votes a.1 h)
    | inr (hint, e) ↦
        let reason : Reason = seeded (marker_value seed.0) hint c.alias in
        rw e (
          seed_cast-Voted seed cats (cast c.id seed_weight reason votes) a.1
            (cast-Voted c.id seed_weight reason votes a.0 h))
  ]

  seed_votes-Voted :
      (table : List Seed) (found : List Str) (cats : List Category) (votes : Votes)
      → All (λ (c : Category). P c.id) cats
      → Voted votes
      → Voted (seed_votes table found cats votes)
  unfolding seed_votes
  seed_votes-Voted [] found cats votes a h = h
  seed_votes-Voted (s ∷ table) found cats votes a h = elim (Bool-cases (contains found s.0)) [
    | inl e ↦ rw e (
        seed_votes-Voted table found cats (seed_cast s cats votes) a
          (seed_cast-Voted s cats votes a h))
    | inr e ↦ rw e (seed_votes-Voted table found cats votes a h)
  ]

  by_id-id :
      (cats : List Category) (id : ℕ) (c : Category)
      → All (λ (d : Category). P d.id) cats
      → by_id cats id ≡ some c
      → P id
  unfolding by_id
  by_id-id [] id c a h = absurd (ground (arith, h))
  by_id-id (d ∷ cats) id c a h = elim (Option-cases (by_id cats id)) [
    | inl e ↦ elim (Bool-cases (d.id == id)) [
      | inl same ↦ subst P ((==_iff d.id id).0 same) a.0
      | inr other ↦ absurd (ground (arith, h, e, other))
    ]
    | inr (x, e) ↦ by_id-id cats id x a.1 e
  ]

  found_cast-Voted :
      (it : ImportItem) (m : Str) (n id : ℕ) (o : Option Category) (cats : List Category)
      (votes : Votes)
      → by_id cats id ≡ o
      → All (λ (c : Category). P c.id) cats
      → Voted votes
      → Voted (found_cast it m id n votes o)
  found_cast-Voted it m n id none cats votes e a h = h
  found_cast-Voted it m n id (some c) cats votes e a h =
      cast-Voted id n (imported_before (as_written it.entry (marker_value m)) c.alias n) votes
        (by_id-id cats id c a e) h

  learned_votes-Voted :
      (pure : ℕ → ℕ → Bool) (p : Predictor) (it : ImportItem) (cats : List Category)
      (found : List Str) (votes : Votes)
      → All (λ (c : Category). P c.id) cats
      → Voted votes
      → Voted (learned_votes pure p it cats found votes)
  unfolding learned_votes
  learned_votes-Voted pure p it cats [] votes a h = h
  learned_votes-Voted pure p it cats (m ∷ found) votes a h =
      learned_votes-Voted pure p it cats found
        (learned_cast it cats m (learned_vote pure p m) votes) a (cast_once (learned_vote pure p m))
    where
      cast_once : (o : Option (ℕ × ℕ)) → Voted (learned_cast it cats m o votes)
      cast_once none = unfold learned_cast in h
      cast_once (some (id, n)) =
          unfold learned_cast in found_cast-Voted it m n id (by_id cats id) cats votes refl a h

  pick_from-Voted :
      (b : ℕ × ℕ) (votes : Votes)
      → (b.0 ≡ 0) ⊎ P b.0
      → Voted votes
      → ((pick_from b votes).0 ≡ 0) ⊎ P (pick_from b votes).0
  unfolding pick_from
  pick_from-Voted b [] p h = p
  pick_from-Voted b ((id, v) ∷ votes) p h =
      pick_from-Voted (note_vote b (id, v)) votes
        (noted (note_vote b (id, v)) (note_vote-cases b (id, v))) h.1
    where
      noted : (r : ℕ × ℕ) → ((r.0 ≡ b.0) ⊎ (r.0 ≡ id)) → (r.0 ≡ 0) ⊎ P r.0
      noted r (inl e) = elim p [ inl z ↦ inl (e ∙ z) | inr q ↦ inr (subst P (sym e) q) ]
      noted r (inr e) = inr (subst P (sym e) h.0)

abbrev takes : Bool → List Category → ℕ → Bool
takes is_show cats id = any (λ (c : Category). c.id == id && accepts c.markers is_show) cats

keep-takes :
    (is_show : Bool) (cats all : List Category)
    → ((id : ℕ) → takes is_show cats id ≡ true → takes is_show all id ≡ true)
    → All
        (λ (c : Category). takes is_show all c.id ≡ true)
        (keep (λ (c : Category). accepts c.markers is_show) cats)
unfolding keep any
keep-takes is_show [] all h = tt
keep-takes is_show (c ∷ cats) all h = elim (Bool-cases (accepts c.markers is_show)) [
  | inl e ↦
      rw e
        (h c.id (ground (arith, e)), keep-takes is_show cats all (λ id g. h id (ground (arith, g))))
  | inr e ↦ rw e (keep-takes is_show cats all (λ id g. h id (ground (arith, g))))
]

sole-takes :
    (P : ℕ → Type 0) (cats : List Category)
    → All (λ (c : Category). P c.id) cats
    → ((sole cats).category_id ≡ 0) ⊎ P (sole cats).category_id
sole-takes P [] a = inl refl
sole-takes P (c ∷ []) a = inr a.0
sole-takes P (c ∷ d ∷ cats) a = inl refl

settle-takes :
    (P : ℕ → Type 0) (cats : List Category) (votes : Votes)
    → All (λ (c : Category). P c.id) cats
    → Voted P votes
    → ((settle cats votes).category_id ≡ 0) ⊎ P (settle cats votes).category_id
unfolding settle pick_vote
settle-takes P cats votes a h = elim (Bool-cases ((pick_from (0, 0) votes).0 == 0)) [
  | inl e ↦ rw e (sole-takes P cats a)
  | inr e ↦ rw e (pick_from-Voted P (0, 0) votes (inl refl) h)
]

-- A guess, where there is one, is the id of a category of the library that takes the kind of the row,
-- whatever is declared, learned or seeded and however the name reads.
pub predict-takes :
    (markers : Str → List Str) (pure : ℕ → ℕ → Bool) (p : Predictor) (it : ImportItem)
    → ((predict markers pure p it).category_id ≡ 0)
      ⊎ (takes it.is_show p.cats (predict markers pure p it).category_id ≡ true)
unfolding predict all_votes
predict-takes markers pure p it =
    let eligible = keep (λ (c : Category). accepts c.markers it.is_show) p.cats in
    let found = item_markers markers it in
    let names = to_lower (it.entry ++ (b' ' ∷ it.title)) in
    let P : ℕ → Type 0 = λ id. takes it.is_show p.cats id ≡ true in
    let live = keep-takes it.is_show p.cats p.cats (λ id h. h) in
    let learned = learned_votes-Voted P pure p it eligible found [] live tt in
    let declared =
      declared_votes-Voted P names eligible (learned_votes pure p it eligible found []) live
        learned in
    settle-takes P eligible
      (seed_votes seeds found eligible
        (declared_votes names eligible (learned_votes pure p it eligible found [])))
      live
      (seed_votes-Voted P seeds found eligible
        (declared_votes names eligible (learned_votes pure p it eligible found [])) live declared)
