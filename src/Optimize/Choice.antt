-- ===== src/Optimize/Choice.antt =====
-- internal/optimize/optimize.go: which files need a copy, and that a copy ends the need.
use file_fin.Prelude.{
  ℕ, ◌≡◌, refl, true, false, not, ◌&&◌, ◌||◌, List, [], ◌∷◌, All, Option, some, get_elem?, Str,
  Bool-cases, inl, inr, Bool, arith, suc, zero,
}
use file_fin.Playable.{MediaFile, optimized_sibling, direct_playable, remux_eligible, Streams}
use file_fin.Optimize.{
  Candidate, candidate, candidates, file_needs_transcode, file_remux_eligible, probed,
}

abbrev skipped : MediaFile → Bool
skipped f = not (file_needs_transcode f) || file_remux_eligible f

-- Once each file that was found has a fresh copy, and the copies that were fresh still are, nothing
-- is found any more.
pub candidates-settled :
    (stat stat' : Str → Option ℕ) (files : List MediaFile)
    → All (λ c. (optimized_sibling stat' c.source).1 ≡ true) (candidates stat files)
    → All
        (λ f. (optimized_sibling stat f.path).1 ≡ true → (optimized_sibling stat' f.path).1 ≡ true)
        files
    → candidates stat' files ≡ []
unfolding candidates
candidates-settled stat stat' [] done kept = refl
candidates-settled stat stat' (f ∷ files) done kept = elim (Bool-cases (skipped f)) [
  | inl e ↦
      let done' : All (λ c. (optimized_sibling stat' c.source).1 ≡ true) (candidates stat files) =
        rw e at done in
      rw e (candidates-settled stat stat' files done' kept.1)
  | inr e ↦ elim (Bool-cases (optimized_sibling stat f.path).1) [
    | inl fresh ↦
        let done' : All (λ c. (optimized_sibling stat' c.source).1 ≡ true) (candidates stat files) =
          rw (e, fresh) at done in
        rw (e, kept.0 fresh) (candidates-settled stat stat' files done' kept.1)
    | inr stale ↦
        let done' : All (λ c. (optimized_sibling stat' c.source).1 ≡ true)
            (candidate f (optimized_sibling stat f.path).0 ∷ candidates stat files) =
          rw (e, stale) at done in
        rw (e, done'.0) (candidates-settled stat stat' files done'.1 kept.1)
  ]
]

abbrev pub streams_of : MediaFile → Streams
streams_of f = record { video_codec = f.video_codec; audio_codec = f.audio_codec; duration = 0 }

-- What is known of a file that is found.
abbrev pub Needed : List MediaFile → Candidate → Type 0
Needed files c =
    (i : ℕ) × (f : MediaFile) × (get_elem? files i ≡ some f)
    × (c.source ≡ f.path)
    × (probed f && direct_playable f.container f.video_codec f.audio_codec ≡ false)
    × (probed f && remux_eligible (streams_of f) ≡ false)

Needed-later :
    (f : MediaFile) (files : List MediaFile) (cs : List Candidate)
    → All (Needed files) cs
    → All (Needed (f ∷ files)) cs
Needed-later f files [] h = tt
Needed-later f files (c ∷ cs) ((i, g, found, same, a, b), h) =
    ((suc i, g, found, same, a, b), Needed-later f files cs h)

not_skipped :
    (f : MediaFile)
    → skipped f ≡ false
    → (probed f && direct_playable f.container f.video_codec f.audio_codec ≡ false)
      × (probed f && remux_eligible (streams_of f) ≡ false)
unfolding file_needs_transcode file_remux_eligible
not_skipped f e = ground arith

-- A file is found only if a file with its path is among those given whose format, where it is
-- probed, neither the browser plays as it is nor live HLS copies.
pub candidates-Needed :
    (stat : Str → Option ℕ) (files : List MediaFile) → All (Needed files) (candidates stat files)
unfolding candidates
candidates-Needed stat [] = tt
candidates-Needed stat (f ∷ files) =
    let rest = Needed-later f files (candidates stat files) (candidates-Needed stat files) in
    elim (Bool-cases (skipped f)) [
      | inl e ↦ rw e rest
      | inr e ↦ elim (Bool-cases (optimized_sibling stat f.path).1) [
        | inl fresh ↦ rw (e, fresh) rest
        | inr stale ↦
            rw (e, stale) ((zero, f, refl, refl, (not_skipped f e).0, (not_skipped f e).1), rest)
      ]
    ]
