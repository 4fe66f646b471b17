-- ===== src/Formats/Parts.antt =====
-- internal/mediafmt/mediafmt.go: the part number of a name that `FileName` writes is read back.
use file_fin.Prelude.{
  ℕ, suc, ◌+◌, ◌<◌, ◌≡◌, refl, sym, ap, true, false, none, some, [], ◌∷◌, ◌++◌, any, ◌==◌, ◌||◌,
  if◌then◌else◌, Str, bytes, length, ℤ, pos, ltb_ℤ, Bool-cases, Option-cases, inl, inr, arith,
}
use mathlib.Core.List.{append_assoc}
use file_fin.Strings.{itoa, is_digit, all_digits}
use file_fin.Strings.Paths.{cut_prefix, stem-append}
use file_fin.Strings.Decimal.{itoa-all_digits, itoa-ne-nil, atoi-itoa}
use file_fin.Formats.{
  digits_to_end, re_part, part_from_name, file_name, folder_name, episode_mark, part_mark,
  format_int,
}

-- How much of a text stands before the digits that it ends with.
before_digits : Str → ℕ
before_digits [] = 0
before_digits (c ∷ s) = if all_digits s then if is_digit c then 0 else 1 else suc (before_digits s)

all_digits-append : (x ds : Str) (c : ℕ) → is_digit c ≡ false → all_digits (x ++ c ∷ ds) ≡ false
unfolding all_digits
all_digits-append [] ds c h = rw h refl
all_digits-append (d ∷ x) ds c h = ground (arith, all_digits-append x ds c h)

before_digits-mark :
    (x ds : Str)
    → all_digits ds ≡ true
    → before_digits (x ++ (bytes " - part" ++ ds)) ≡ length x + 7
unfolding before_digits
before_digits-mark [] ds h = unfold all_digits in unfold is_digit in rw h refl
before_digits-mark (c ∷ x) ds h =
    let marked : all_digits (x ++ (bytes " - part" ++ ds)) ≡ false =
      all_digits-append x (bytes "- part" ++ ds) b' ' (unfold is_digit in refl) in
    rw (marked, before_digits-mark x ds h) (omega arith)

cut_prefix_sound : (s p rest : Str) → cut_prefix s p ≡ some rest → s ≡ p ++ rest
unfolding cut_prefix
cut_prefix_sound s [] rest h = cc
cut_prefix_sound [] (p ∷ pre) rest h = cc
cut_prefix_sound (c ∷ s) (p ∷ pre) rest h = ground (arith, cut_prefix_sound s pre rest)

cut_prefix-append : (p rest : Str) → cut_prefix (p ++ rest) p ≡ some rest
unfolding cut_prefix
cut_prefix-append [] rest = refl
cut_prefix-append (c ∷ p) rest = ground (arith, cut_prefix-append p rest)

digits_to_end-all : (ds : Str) → all_digits ds ≡ false → digits_to_end (some ds) ≡ none
unfolding digits_to_end
digits_to_end-all [] h = refl
digits_to_end-all (c ∷ ds) h = rw h refl

module _ (ds : Str) (h : all_digits ds ≡ true) where
  -- The mark is found where it stands last, and nowhere before.
  no_mark :
      (c : ℕ) (x : Str)
      → digits_to_end (cut_prefix (c ∷ x ++ (bytes " - part" ++ ds)) (bytes " - part")) ≡ none
  no_mark c x =
      let s : Str = c ∷ x ++ (bytes " - part" ++ ds) in
      elim (Option-cases (cut_prefix s (bytes " - part"))) [
        | inl e ↦ rw e (unfold digits_to_end in refl)
        | inr (rest, e) ↦ rw e (elim (Bool-cases (all_digits rest)) [
          | inl all ↦ absurd (
              omega (
                arith,
                before_digits-mark (c ∷ x) ds h,
                before_digits-mark [] rest all,
                ap before_digits (cut_prefix_sound s (bytes " - part") rest e),
              ))
          | inr e' ↦ digits_to_end-all rest e'
        ])
      ]

  re_part-mark :
      (x : Str)
      → digits_to_end (some ds) ≡ some ds
      → re_part (x ++ (bytes " - part" ++ ds)) ≡ some ds
  unfolding re_part
  re_part-mark [] d = rw (cut_prefix-append (bytes " - part") ds, d) refl
  re_part-mark (c ∷ x) d = rw (no_mark c x) (re_part-mark x d)

digits_to_end-some :
    (ds : Str) → all_digits ds ≡ true → (ds ≡ [] → ⊥) → digits_to_end (some ds) ≡ some ds
unfolding digits_to_end
digits_to_end-some [] h ne = absurd (ne refl)
digits_to_end-some (c ∷ ds) h ne = rw h refl

-- A file name that is written for a part above zero, with an extension that is one dot and letters
-- without dots and slashes behind it, gives the same part number when it is read, whatever the
-- format, the title, the year, the season and the episode are.
pub part_from_name-file_name :
    (format : Str) (year : ℤ) (title : Str) (season episode : ℤ) (part : ℕ) (e : Str)
    → 0 < part
    → any (λ c. c == b'.' || c == b'/') e ≡ false
    → part_from_name (file_name format year title season episode (pos part) (b'.' ∷ e)) ≡ pos part
unfolding part_from_name file_name part_mark
part_from_name-file_name format year title season episode part e positive plain =
    let base = folder_name format year title ++ episode_mark format season episode in
    let some_part : ltb_ℤ (pos 0) (pos part) ≡ true = ground arith in
    let number = itoa part in
    let all = itoa-all_digits part in
    let d = digits_to_end-some number all (itoa-ne-nil part) in
    let grouped : base ++ ((bytes " - part" ++ number) ++ b'.' ∷ e)
        ≡ (base ++ (bytes " - part" ++ number)) ++ b'.' ∷ e =
      sym (append_assoc base (bytes " - part" ++ number) (b'.' ∷ e)) in
    unfold format_int in
    rw
      (
        some_part,
        grouped,
        stem-append (base ++ (bytes " - part" ++ number)) e plain,
        re_part-mark number all base d,
      )
      (atoi-itoa part)
