-- ===== src/Subtitle/Plain.antt =====
-- internal/subtitle/subtitle.go: the text of a cue cannot be read as markup and cannot end its cue.
use file_fin.Prelude.{
  ℕ, ◌≡◌, refl, Bool, true, false, none, List, [], ◌∷◌, ◌++◌, any, All, ◌==◌, Bool-cases, inl, inr,
  Str, bytes, str_eq, arith,
}
use file_fin.Strings.{split, trim_space, prepend}
use file_fin.Strings.Split.{has, has-trim_space}
use file_fin.Subtitle.Ass.{replace_escape, replace_char, kept_lines, strip_overrides, ass_lines}

module _ (k : ℕ) where
  has-append : (x y : Str) → has k x ≡ false → has k y ≡ false → has k (x ++ y) ≡ false
  unfolding any
  has-append [] y h e = e
  has-append (c ∷ x) y h e = ground (arith, has-append x y)

  has-replace_self : (new s : Str) → has k new ≡ false → has k (replace_char k new s) ≡ false
  unfolding replace_char any
  has-replace_self new [] h = refl
  has-replace_self new (c ∷ s) h = elim (Bool-cases (c == k)) [
    | inl e ↦ rw e (has-append new (replace_char k new s) h (has-replace_self new s h))
    | inr e ↦ rw e (ground (arith, has-replace_self new s h))
  ]

  has-replace_char :
      (old : ℕ) (new s : Str)
      → has k new ≡ false
      → has k s ≡ false
      → has k (replace_char old new s) ≡ false
  unfolding replace_char any
  has-replace_char old new [] h e = refl
  has-replace_char old new (c ∷ s) h e =
      let tail : has k s ≡ false = ground arith in
      let head : (c == k) ≡ false = ground arith in
      elim (Bool-cases (c == old)) [
        | inl o ↦
            rw o (has-append new (replace_char old new s) h (has-replace_char old new s h tail))
        | inr o ↦ rw o (ground (arith, has-replace_char old new s h tail))
      ]

  has-replace_escape :
      (letter out : ℕ) (held : Bool) (s : Str)
      → (out == k) ≡ false
      → (b'\\' == k) ≡ false
      → has k s ≡ false
      → has k (replace_escape letter out held s) ≡ false
  unfolding replace_escape any
  has-replace_escape letter out false [] o b h = refl
  has-replace_escape letter out true [] o b h = ground arith
  has-replace_escape letter out false (c ∷ s) o b h =
      ground (arith, has-replace_escape letter out (c == b'\\') s o b)
  has-replace_escape letter out true (c ∷ s) o b h =
      ground (arith, has-replace_escape letter out (c == b'\\') s o b)

  has-prepend :
      (c : ℕ) (xs : List Str)
      → (c == k) ≡ false
      → All (λ x. has k x ≡ false) xs
      → All (λ x. has k x ≡ false) (prepend c xs)
  unfolding any
  has-prepend c [] e h = (ground arith, tt)
  has-prepend c (x ∷ xs) e h = (ground (arith, h.0), h.1)

  has-split : (sep : ℕ) (s : Str) → has k s ≡ false → All (λ x. has k x ≡ false) (split sep s)
  unfolding split
  has-split sep [] h = (h, tt)
  has-split sep (c ∷ s) h =
      let tail : has k s ≡ false = unfold any in ground arith in
      let head : (c == k) ≡ false = unfold any in ground arith in
      elim (Bool-cases (c == sep)) [
        | inl e ↦ rw e (unfold any in refl, has-split sep s tail)
        | inr e ↦ rw e (has-prepend c (split sep s) head (has-split sep s tail))
      ]

  has-kept_lines :
      (ls : List Str) → All (λ x. has k x ≡ false) ls → All (λ x. has k x ≡ false) (kept_lines ls)
  unfolding kept_lines
  has-kept_lines [] h = tt
  has-kept_lines (l ∷ ls) h = elim (Bool-cases (str_eq (trim_space l) [])) [
    | inl e ↦ rw e (has-kept_lines ls h.1)
    | inr e ↦ rw e (has-trim_space k l h.0, has-kept_lines ls h.1)
  ]

kept_lines-ne-nil : (ls : List Str) → All (λ x. str_eq x [] ≡ false) (kept_lines ls)
unfolding kept_lines
kept_lines-ne-nil [] = tt
kept_lines-ne-nil (l ∷ ls) = elim (Bool-cases (str_eq (trim_space l) [])) [
  | inl e ↦ rw e (kept_lines-ne-nil ls)
  | inr e ↦ rw e (e, kept_lines-ne-nil ls)
]

-- The lines that the text of a cue is joined from hold neither angle bracket, whatever the field of
-- the script holds, and none of them is empty.
pub ass_lines-plain :
    (s : Str)
    → All (λ l. has b'<' l ≡ false) (ass_lines s)
      × All (λ l. has b'>' l ≡ false) (ass_lines s)
      × All (λ l. str_eq l [] ≡ false) (ass_lines s)
unfolding ass_lines
ass_lines-plain s =
    let plain = replace_escape b'h' b' ' false (strip_overrides none s) in
    let amp = replace_char b'&' (bytes "&amp;") plain in
    let lt = replace_char b'<' (bytes "&lt;") amp in
    let gt = replace_char b'>' (bytes "&gt;") lt in
    let no_lt : has b'<' gt ≡ false =
      has-replace_char b'<' b'>' (bytes "&gt;") lt (unfold any in refl)
        (has-replace_self b'<' (bytes "&lt;") amp (unfold any in refl)) in
    let no_gt : has b'>' gt ≡ false =
      has-replace_self b'>' (bytes "&gt;") lt (unfold any in refl) in
    let hard = replace_escape b'N' b'\n' false gt in
    let soft = replace_escape b'n' b'\n' false hard in
    let free =
      λ (k : ℕ) (o : (b'\n' == k) ≡ false) (b : (b'\\' == k) ≡ false) (h : has k gt ≡ false).
        has-kept_lines k (split b'\n' soft) (
          has-split k b'\n' soft (
            has-replace_escape k b'n' b'\n' false hard o b
              (has-replace_escape k b'N' b'\n' false gt o b h))) in
    (free b'<' refl refl no_lt, free b'>' refl refl no_gt, kept_lines-ne-nil (split b'\n' soft))
