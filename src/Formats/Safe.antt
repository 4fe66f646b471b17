-- ===== src/Formats/Safe.antt =====
-- internal/mediafmt/mediafmt.go: a title cannot lead out of the folder that its name is put in.
use file_fin.Prelude.{
  ℕ, suc, ◌≡◌, refl, Bool, true, false, ◌||◌, [], ◌∷◌, ◌++◌, any, All, ◌==◌, Str, bytes, ltb, ltb_ℤ,
  ℤ, pos, negsuc, Bool-cases, inl, inr, if◌then◌else◌, arith,
}
use file_fin.Strings.{itoa, is_digit}
use file_fin.Strings.Decimal.{itoa-are_digits}
use file_fin.Formats.{
  sanitize_component, format_int, format_two, folder_name, episode_mark, part_mark, file_name,
}

-- A path separator, of Unix or of Windows, stands in the text.
unfoldable pub separates : Str → Bool
unfolding any
separates = any (λ c. c == b'/' || c == b'\\')

separates-append :
    (x y : Str) → separates x ≡ false → separates y ≡ false → separates (x ++ y) ≡ false
unfolding separates any
separates-append [] y h k = k
separates-append (c ∷ x) y h k = ground (arith, separates-append x y)

separates-sanitize : (s : Str) → separates (sanitize_component s) ≡ false
unfolding separates any sanitize_component
separates-sanitize [] = refl
separates-sanitize (c ∷ s) = ground (arith, separates-sanitize s)

separates-digits : (s : Str) → All (λ c. is_digit c ≡ true) s → separates s ≡ false
unfolding separates any is_digit
separates-digits [] h = refl
separates-digits (c ∷ s) h = ground (arith, separates-digits s h.1, h.0)

separates-itoa : (n : ℕ) → separates (itoa n) ≡ false
separates-itoa n = separates-digits (itoa n) (itoa-are_digits n)

separates-format_int : (n : ℤ) → separates (format_int n) ≡ false
unfolding format_int
separates-format_int (pos n) = separates-itoa n
separates-format_int (negsuc n) = unfold separates in unfold any in separates-itoa (suc n)

separates-format_two : (n : ℤ) → separates (format_two n) ≡ false
unfolding format_two
separates-format_two (pos n) = elim (Bool-cases (ltb n 10)) [
  | inl e ↦ rw e (unfold separates in unfold any in separates-itoa n)
  | inr e ↦ rw e (separates-itoa n)
]
separates-format_two (negsuc n) = unfold separates in unfold any in separates-itoa (suc n)

mark : (s : Str) → any (λ c. c == b'/' || c == b'\\') s ≡ false → separates s ≡ false
unfolding separates
mark s h = h

separates-two :
    (a : Str) (m : ℤ → Str) (b : Str) (x y : ℤ)
    → separates a ≡ false
    → separates b ≡ false
    → ((n : ℤ) → separates (m n) ≡ false)
    → separates (a ++ (m x ++ (b ++ m y))) ≡ false
separates-two a m b x y ha hb hm =
    separates-append a _ ha (separates-append (m x) _ (hm x) (separates-append b (m y) hb (hm y)))

separates-if :
    (b : Bool) (x y : Str)
    → separates x ≡ false
    → separates y ≡ false
    → separates (if b then x else y) ≡ false
separates-if true x y h k = h
separates-if false x y h k = k

separates-episode_mark :
    (format : Str) (season episode : ℤ) → separates (episode_mark format season episode) ≡ false
unfolding episode_mark
separates-episode_mark format season episode =
    separates-if (ltb_ℤ (pos 0) season || ltb_ℤ (pos 0) episode) _ []
      (separates-if _ _ _
        (separates-two (bytes " S") format_two (bytes "E") season episode
          (mark (bytes " S") (unfold any in refl)) (mark (bytes "E") (unfold any in refl))
          separates-format_two)
        (separates-if _ _ _
          (separates-two (bytes " - s") format_two (bytes "e") season episode
            (mark (bytes " - s") (unfold any in refl)) (mark (bytes "e") (unfold any in refl))
            separates-format_two)
          (separates-two (bytes " - ") format_int (bytes "x") season episode
            (mark (bytes " - ") (unfold any in refl)) (mark (bytes "x") (unfold any in refl))
            separates-format_int)))
      (mark [] (unfold any in refl))

separates-part_mark : (part : ℤ) → separates (part_mark part) ≡ false
unfolding part_mark
separates-part_mark part =
    separates-if (ltb_ℤ (pos 0) part) _ []
      (separates-append (bytes " - part") (format_int part)
        (mark (bytes " - part") (unfold any in refl)) (separates-format_int part))
      (mark [] (unfold any in refl))

separates-folder_name :
    (format : Str) (year : ℤ) (title : Str) → separates (folder_name format year title) ≡ false
unfolding folder_name
separates-folder_name format year title =
    separates-if _ _ _
      (separates-append (sanitize_component title) _ (separates-sanitize title) (
        separates-append (bytes " (") _ (mark (bytes " (") (unfold any in refl)) (
          separates-append (format_int year) (bytes ")") (separates-format_int year)
            (mark (bytes ")") (unfold any in refl)))))
      (separates-append (bytes "(") _ (mark (bytes "(") (unfold any in refl)) (
        separates-append (format_int year) _ (separates-format_int year) (
          separates-append (bytes ") ") (sanitize_component title)
            (mark (bytes ") ") (unfold any in refl)) (separates-sanitize title))))

-- Neither the folder name nor the file name of a medium holds a slash or a backslash, whatever the
-- title, the format and the numbers are, as long as the extension holds none: a title cannot lead
-- out of the folder that its name is put in.
pub separates-file_name :
    (format : Str) (year : ℤ) (title : Str) (season episode part : ℤ) (ext : Str)
    → separates ext ≡ false
    → (separates (folder_name format year title) ≡ false)
      × (separates (file_name format year title season episode part ext) ≡ false)
unfolding file_name
separates-file_name format year title season episode part ext h = (
  separates-folder_name format year title,
  separates-append _ _
      (separates-append _ _ (separates-folder_name format year title)
        (separates-episode_mark format season episode))
      (separates-append _ _ (separates-part_mark part) h),
)
