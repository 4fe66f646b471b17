-- ===== src/Watchlist/Key.antt =====
-- internal/watchlist/match.go, `normalize`: the key of a title.
use file_fin.Prelude.{
  ℕ, ◌≡◌, refl, arith, true, false, Bool, ◌&&◌, ◌||◌, Option, none, some, List, [], ◌∷◌, Str, bytes,
  keep, leb, ◌==◌, if◌then◌else◌,
}
use file_fin.Sources.Compare.{Unicode}

abbrev pub is_key_char : ℕ → Bool
is_key_char c = (leb b'a' c && leb c b'z') || (leb b'0' c && leb c b'9')

-- Only letters and digits of ASCII.
abbrev pub keyed : Str → Bool
keyed [] = true
keyed (c ∷ s) = is_key_char c && keyed s

module _ (uni : Unicode) where
  open uni use {nfkd, is_mn, to_lower}

  unfoldable pub lower : Str → Str
  lower [] = []
  lower (c ∷ s) = to_lower c ∷ lower s

  -- `strings.ReplaceAll(s, "&", "and")`
  unfoldable pub replace_ampersand : Str → Str
  replace_ampersand [] = []
  replace_ampersand (c ∷ s) =
      let rest = replace_ampersand s in if c == b'&' then b'a' ∷ b'n' ∷ b'd' ∷ rest else c ∷ rest

  unfoldable pub drop_marks : Str → Str
  drop_marks [] = []
  drop_marks (c ∷ s) = if is_mn c then drop_marks s else c ∷ drop_marks s

  unfoldable pub fold_diacritics : Str → Str
  unfolding drop_marks
  fold_diacritics s = drop_marks (nfkd s)

  unfoldable pub trim_spaces : Str → Str
  trim_spaces [] = []
  trim_spaces (c ∷ s) = if c == b' ' then trim_spaces s else c ∷ s

  -- What follows a prefix, if the string has it.
  unfoldable pub after_prefix : Str → Str → Option Str
  after_prefix [] s = some s
  after_prefix (p ∷ ps) [] = none
  after_prefix (p ∷ ps) (c ∷ s) = if p == c then after_prefix ps s else none

  unfoldable pub strip_first : List Str → Str → Str
  unfolding after_prefix
  strip_first [] s = s
  strip_first (art ∷ arts) s = elim (after_prefix art s) [
    | none ↦ strip_first arts s
    | some rest ↦ rest
  ]

  unfoldable pub strip_leading_article : Str → Str
  unfolding strip_first trim_spaces
  strip_leading_article s =
      strip_first (bytes "the " ∷ bytes "an " ∷ bytes "a " ∷ []) (trim_spaces s)

  unfoldable pub normalize : Str → Str
  unfolding strip_leading_article fold_diacritics replace_ampersand lower
  normalize s =
      keep is_key_char (strip_leading_article (fold_diacritics (replace_ampersand (lower s))))

keep-keyed : (s : Str) → keyed (keep is_key_char s) ≡ true
unfolding keep
keep-keyed [] = refl
keep-keyed (c ∷ s) = ground (arith, keep-keyed s)

keyed-keep : (s : Str) → keyed s ≡ true → keep is_key_char s ≡ s
unfolding keep
keyed-keep [] h = refl
keyed-keep (c ∷ s) h = ground (arith, keyed-keep s)

-- The key of a title, of which the length in bytes is the length in characters.
pub normalize-keyed : (uni : Unicode) (s : Str) → keyed (normalize uni s) ≡ true
unfolding normalize
normalize-keyed uni s =
    keep-keyed
      (strip_leading_article uni (fold_diacritics uni (replace_ampersand uni (lower uni s))))

module _ (uni : Unicode) (to_lower-key : (c : ℕ) → is_key_char c ≡ true → uni.to_lower c ≡ c)
    (is_mn-key : (c : ℕ) → is_key_char c ≡ true → uni.is_mn c ≡ false)
    (nfkd-keyed : (s : Str) → keyed s ≡ true → uni.nfkd s ≡ s) where
  lower-keyed : (s : Str) → keyed s ≡ true → lower uni s ≡ s
  unfolding lower
  lower-keyed [] h = refl
  lower-keyed (c ∷ s) h = ground (arith, to_lower-key c, lower-keyed s)

  replace_ampersand-keyed : (s : Str) → keyed s ≡ true → replace_ampersand uni s ≡ s
  unfolding replace_ampersand
  replace_ampersand-keyed [] h = refl
  replace_ampersand-keyed (c ∷ s) h = ground (arith, replace_ampersand-keyed s)

  drop_marks-keyed : (s : Str) → keyed s ≡ true → drop_marks uni s ≡ s
  unfolding drop_marks
  drop_marks-keyed [] h = refl
  drop_marks-keyed (c ∷ s) h = ground (arith, is_mn-key c, drop_marks-keyed s)

  trim_spaces-keyed : (s : Str) → keyed s ≡ true → trim_spaces uni s ≡ s
  unfolding trim_spaces
  trim_spaces-keyed [] h = refl
  trim_spaces-keyed (c ∷ s) h = ground arith

  after_prefix-keyed : (p s : Str) → keyed p ≡ false → keyed s ≡ true → after_prefix uni p s ≡ none
  unfolding after_prefix
  after_prefix-keyed [] s h k = cc
  after_prefix-keyed (c ∷ p) [] h k = refl
  after_prefix-keyed (c ∷ p) (d ∷ s) h k = ground (arith, after_prefix-keyed p s)

  strip_leading_article-keyed : (s : Str) → keyed s ≡ true → strip_leading_article uni s ≡ s
  unfolding strip_leading_article strip_first
  strip_leading_article-keyed s h =
      rw
        (
          trim_spaces-keyed s h,
          after_prefix-keyed (bytes "the ") s refl h,
          after_prefix-keyed (bytes "an ") s refl h,
          after_prefix-keyed (bytes "a ") s refl h,
        )
        refl

  keyed-normalize : (k : Str) → keyed k ≡ true → normalize uni k ≡ k
  unfolding normalize fold_diacritics
  keyed-normalize k h =
      rw
        (
          lower-keyed k h,
          replace_ampersand-keyed k h,
          nfkd-keyed k h,
          drop_marks-keyed k h,
          strip_leading_article-keyed k h,
        )
        (keyed-keep k h)

  -- The key of a key is that key, so that keys can be normalized again, if folding the case and
  -- decomposing leave ASCII letters and digits as they are.
  pub normalize_twice : (s : Str) → normalize uni (normalize uni s) ≡ normalize uni s
  normalize_twice s = keyed-normalize (normalize uni s) (normalize-keyed uni s)
