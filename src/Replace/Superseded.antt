-- ===== src/Replace/Superseded.antt =====
-- internal/server/importreplace.go: which files a new one retires.
use file_fin.Prelude.{
  ℕ, ◌<◌, ◌≡◌, refl, Bool, true, false, List, [], ◌∷◌, All, keep, length, leb, Str, str_eq,
  Bool-cases, inl, inr, arith,
}
use file_fin.Playable.{MediaFile, base_no_ext}
use file_fin.Replace.{superseded_files, would_replace, by_name}

pub keep-All {ℓ} : {A : Type ℓ} (p : A → Bool) (xs : List A) → All (λ x. p x ≡ true) (keep p xs)
unfolding keep
keep-All p [] = tt
keep-All p (x ∷ xs) = elim (Bool-cases (p x)) [
  | inl e ↦ rw e (e, keep-All p xs)
  | inr e ↦ rw e (keep-All p xs)
]

pub keep-Stays {ℓ κ} :
    {A : Type ℓ} (P : A → Type κ) (p : A → Bool) (xs : List A) → All P xs → All P (keep p xs)
unfolding keep
keep-Stays P p [] h = tt
keep-Stays P p (x ∷ xs) h = elim (Bool-cases (p x)) [
  | inl e ↦ rw e (h.0, keep-Stays P p xs h.1)
  | inr e ↦ rw e (keep-Stays P p xs h.1)
]

by_name-fst : (xs : List MediaFile) → (by_name xs).0 ≡ xs
by_name-fst [] = refl
by_name-fst (x ∷ xs) = refl

by_name-snd : (xs : List MediaFile) → (by_name xs).1 ≡ true → xs ≡ []
by_name-snd [] h = refl
by_name-snd (x ∷ xs) h = cc

-- Every retired file is one of the library's rows with the property that they all have, is of the
-- season and the episode of the new file, and is not the new file itself, however its path is
-- spelled.
pub superseded_files-safe {κ} :
    (P : MediaFile → Type κ) (files : List MediaFile) (season episode : ℕ) (target : Str)
    → All P files
    → All P (superseded_files files season episode target).0
      × All
          (λ f. would_replace season episode target f ≡ true)
          (superseded_files files season episode target).0
unfolding superseded_files
superseded_files-safe P files season episode target h =
    let test = would_replace season episode target in
    let cand = keep test files in
    let named = λ (f : MediaFile). str_eq (base_no_ext f.path) (base_no_ext target) in
    let all = keep-Stays P test files h in
    elim (Bool-cases (leb (length cand) 1)) [
      | inl e ↦ rw e (all, keep-All test files)
      | inr e ↦ rw e (
          rw (by_name-fst (keep named cand)) (
            keep-Stays P named cand all,
            keep-Stays (λ f. test f ≡ true) named cand (keep-All test files),
          ))
    ]

-- When it cannot be told which file is meant nothing is retired, and then at least two other files
-- of the episode are there and none of them has the new file's name.
pub superseded_files-ambiguous :
    (files : List MediaFile) (season episode : ℕ) (target : Str)
    → (superseded_files files season episode target).1 ≡ true
    → let cand = keep (would_replace season episode target) files in
      ((superseded_files files season episode target).0 ≡ [])
      × (1 < length cand)
      × (keep (λ f. str_eq (base_no_ext f.path) (base_no_ext target)) cand ≡ [])
unfolding superseded_files
superseded_files-ambiguous files season episode target h =
    let cand = keep (would_replace season episode target) files in
    let named = λ (f : MediaFile). str_eq (base_no_ext f.path) (base_no_ext target) in
    elim (Bool-cases (leb (length cand) 1)) [
      | inl e ↦ absurd (
          let clear : (superseded_files files season episode target).1 ≡ false =
            rw (superseded_files, e) refl in
          cc)
      | inr e ↦
          let amb : (by_name (keep named cand)).1 ≡ true = rw e at h in
          let none_named = by_name-snd (keep named cand) amb in
          rw e (rw (by_name-fst (keep named cand)) (none_named, ground arith, none_named))
    ]
