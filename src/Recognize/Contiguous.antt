-- ===== src/Recognize/Contiguous.antt =====
-- internal/recognize/sanity.go: when the files of a film pass as its parts.
use file_fin.Prelude.{
  ℕ, zero, suc, ◌≤◌, ◌≡◌, ◌↔◌, ◌⊎◌, refl, sym, ap, ◌∙◌, true, false, not, ◌&&◌, List, [], ◌∷◌,
  length, map, any, ltb, ◌==◌, Bool-cases, inl, inr, subst, arith,
}
use mathlib.Core.List.{Permᴰ}
use file_fin.Recognize.{
  Parsed, insert_number, sort_numbers, runs_from, contiguous_from_1, contiguous_parts, check_files,
}

-- The numbers from one on, that many.
abbrev pub numbers_from : ℕ → ℕ → List ℕ
numbers_from i zero = []
numbers_from i (suc n) = i ∷ numbers_from (suc i) n

insert_number-swap :
    (a b : ℕ) (l : List ℕ)
    → insert_number a (insert_number b l) ≡ insert_number b (insert_number a l)
unfolding insert_number
insert_number-swap a b [] = ground arith
insert_number-swap a b (n ∷ l) = ground (arith, insert_number-swap a b l)

sort_numbers-Perm : {xs ys : List ℕ} → Permᴰ xs ys → sort_numbers xs ≡ sort_numbers ys
unfolding sort_numbers
sort_numbers-Perm Permᴰ.nil = refl
sort_numbers-Perm (Permᴰ.cons {a} {b} {l₁} {l₂} e p) =
    rw (← e) (ap (insert_number a) (sort_numbers-Perm p))
sort_numbers-Perm (Permᴰ.swap {a} {b} {a'} {b'} {l} e f) =
    rw (← e, ← f) (insert_number-swap _ _ (sort_numbers l))
sort_numbers-Perm (Permᴰ.trans p r) = sort_numbers-Perm p ∙ sort_numbers-Perm r

Permᴰ-self : (l : List ℕ) → Permᴰ l l
Permᴰ-self [] = Permᴰ.nil
Permᴰ-self (x ∷ l) = Permᴰ.cons refl (Permᴰ-self l)

insert_number-Perm : (n : ℕ) (l : List ℕ) → Permᴰ (n ∷ l) (insert_number n l)
unfolding insert_number
insert_number-Perm n [] = Permᴰ-self (n ∷ [])
insert_number-Perm n (m ∷ l) = elim (Bool-cases (ltb m n)) [
  | inl e ↦ rw e (Permᴰ.trans (Permᴰ.swap refl refl) (Permᴰ.cons refl (insert_number-Perm n l)))
  | inr e ↦ rw e (Permᴰ-self (n ∷ m ∷ l))
]

sort_numbers-IsPerm : (l : List ℕ) → Permᴰ l (sort_numbers l)
unfolding sort_numbers
sort_numbers-IsPerm [] = Permᴰ.nil
sort_numbers-IsPerm (n ∷ l) =
    Permᴰ.trans (Permᴰ.cons refl (sort_numbers-IsPerm l)) (insert_number-Perm n (sort_numbers l))

length-Perm : {xs ys : List ℕ} → Permᴰ xs ys → length xs ≡ length ys
length-Perm Permᴰ.nil = refl
length-Perm (Permᴰ.cons e p) = ap suc (length-Perm p)
length-Perm (Permᴰ.swap e f) = refl
length-Perm (Permᴰ.trans p r) = length-Perm p ∙ length-Perm r

runs_from-numbers_from : (i : ℕ) (l : List ℕ) → runs_from i l ≡ true → l ≡ numbers_from i (length l)
runs_from-numbers_from i [] h = refl
runs_from-numbers_from i (n ∷ l) h = ground (arith, runs_from-numbers_from (suc i) l)

numbers_from-runs : (i n : ℕ) → runs_from i (numbers_from i n) ≡ true
numbers_from-runs i zero = refl
numbers_from-runs i (suc n) = ground (arith, numbers_from-runs (suc i) n)

insert_number-numbers_from :
    (i n : ℕ) → insert_number i (numbers_from (suc i) n) ≡ i ∷ numbers_from (suc i) n
unfolding insert_number
insert_number-numbers_from i zero = refl
insert_number-numbers_from i (suc n) = ground arith

sort_numbers-numbers_from : (i n : ℕ) → sort_numbers (numbers_from i n) ≡ numbers_from i n
unfolding sort_numbers
sort_numbers-numbers_from i zero = refl
sort_numbers-numbers_from i (suc n) =
    ap (insert_number i) (sort_numbers-numbers_from (suc i) n) ∙ insert_number-numbers_from i n

contiguous_from_1-Perm :
    (l : List ℕ) → (contiguous_from_1 l ≡ true) ↔ Permᴰ l (numbers_from 1 (length l))
unfolding contiguous_from_1
contiguous_from_1-Perm l = (forth, back)
  where
    forth : runs_from 1 (sort_numbers l) ≡ true → Permᴰ l (numbers_from 1 (length l))
    forth h =
        let same : sort_numbers l ≡ numbers_from 1 (length l) =
          runs_from-numbers_from 1 (sort_numbers l) h
          ∙ ap (numbers_from 1) (sym (length-Perm (sort_numbers-IsPerm l))) in
        subst (λ (s : List ℕ). Permᴰ l s) same (sort_numbers-IsPerm l)

    back : Permᴰ l (numbers_from 1 (length l)) → runs_from 1 (sort_numbers l) ≡ true
    back p =
        let same : sort_numbers l ≡ numbers_from 1 (length l) =
          sort_numbers-Perm p ∙ sort_numbers-numbers_from 1 (length l) in
        rw same (numbers_from-runs 1 (length l))

-- A number in a run from one is not zero.
no_zero : {xs ys : List ℕ} → Permᴰ xs ys → any (λ n. n == 0) xs ≡ any (λ n. n == 0) ys
unfolding any
no_zero Permᴰ.nil = refl
no_zero (Permᴰ.cons e p) = ground (arith, e, no_zero p)
no_zero (Permᴰ.swap e f) = ground (arith, e, f)
no_zero (Permᴰ.trans p r) = no_zero p ∙ no_zero r

numbers_from-no_zero : (i n : ℕ) → any (λ m. m == 0) (numbers_from (suc i) n) ≡ false
unfolding any
numbers_from-no_zero i zero = refl
numbers_from-no_zero i (suc n) = ground (arith, numbers_from-no_zero (suc i) n)

abbrev pub parts : List Parsed → List ℕ
parts files = map (λ f. f.part) files

any-parts : (files : List Parsed) → any (λ f. f.part == 0) files ≡ any (λ n. n == 0) (parts files)
unfolding any
any-parts [] = refl
any-parts (f ∷ files) = rw (any-parts files) refl

length-parts : (files : List Parsed) → length (parts files) ≡ length files
length-parts [] = refl
length-parts (f ∷ files) = ap suc (length-parts files)

abbrev pub Numbered : List Parsed → Type 0
Numbered files = Permᴰ (parts files) (numbers_from 1 (length files))

contiguous_parts-Numbered : (files : List Parsed) → (contiguous_parts files ≡ true) ↔ Numbered files
unfolding contiguous_parts
contiguous_parts-Numbered files = (forth, back)
  where
    run : (contiguous_from_1 (parts files) ≡ true) ↔ Numbered files
    run =
        subst
          (λ (n : ℕ).
            (contiguous_from_1 (parts files) ≡ true) ↔ Permᴰ (parts files) (numbers_from 1 n))
          (length-parts files) (contiguous_from_1-Perm (parts files))

    forth :
        (not (any (λ f. f.part == 0) files) && contiguous_from_1 (parts files)) ≡ true
        → Numbered files
    forth h = run.0 (ground (arith, h))

    back :
        Numbered files
        → (not (any (λ f. f.part == 0) files) && contiguous_from_1 (parts files)) ≡ true
    back p =
        let none_zero : any (λ f. f.part == 0) files ≡ false =
          any-parts files ∙ no_zero p ∙ numbers_from-no_zero 0 (length files) in
        rw (none_zero, run.1 p) refl

-- The files of a film pass the hard checks exactly when there is one file at most, or their part
-- numbers are those from one to the number of files, each once, in any order.
pub check_files-Numbered :
    (files : List Parsed)
    → ((check_files files false).0 ≡ []) ↔ ((length files ≤ 1) ⊎ Numbered files)
unfolding check_files
check_files-Numbered [] = (λ e. inl (omega arith), λ h. refl)
check_files-Numbered (f ∷ files) = elim (Bool-cases (ltb 1 (length (f ∷ files)))) [
  | inl many ↦ elim (Bool-cases (contiguous_parts (f ∷ files))) [
    | inl e ↦ rw (many, e) (λ h. inr ((contiguous_parts-Numbered (f ∷ files)).0 e), λ h. refl)
    | inr e ↦
        rw (many, e)
          (
            λ h. absurd (ground (arith, h)),
            λ h. elim h [
              | inl few ↦ absurd (ground (arith, many))
              | inr p ↦ absurd (ground (arith, e, (contiguous_parts-Numbered (f ∷ files)).1 p))
            ],
          )
  ]
  | inr few ↦ rw few (λ h. inl (ground (arith, few)), λ h. refl)
]
