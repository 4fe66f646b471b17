-- ===== src/Playable/Direct.antt =====
-- internal/transcode/transcode.go: the container decides by its tokens.
use file_fin.Prelude.{
  ◌≡◌, refl, ◌||◌, ◌++◌, [], ◌∷◌, List, any, Str, contains, Bool-cases, Bool, inl, inr, arith, ℕ,
  ==_iff, ◌==◌,
}
use mathlib.Core.List.{map-append}
use file_fin.Strings.{split, trim_space, prepend}
use file_fin.Strings.Paths.{to_lower}
use file_fin.Strings.Split.{split-ne-nil}
use file_fin.Playable.{container_in, direct_playable, mp4_family, mkv_family}

prepend-append :
    (c : ℕ) (xs ys : List Str) → (xs ≡ [] → ⊥) → prepend c (xs ++ ys) ≡ prepend c xs ++ ys
prepend-append c [] ys h = absurd (h refl)
prepend-append c (x ∷ xs) ys h = refl

split-both : (sep : ℕ) (x y : Str) → split sep (x ++ sep ∷ y) ≡ split sep x ++ split sep y
unfolding split
split-both sep [] y = ground (arith, ==_iff sep sep)
split-both sep (c ∷ x) y = elim (Bool-cases (c == sep)) [
  | inl e ↦ rw (e, split-both sep x y) refl
  | inr e ↦
      rw (e, split-both sep x y, prepend-append c (split sep x) (split sep y) (split-ne-nil sep x))
        refl
]

any-append {ℓ} :
    {A : Type ℓ} (p : A → Bool) (xs ys : List A) → any p (xs ++ ys) ≡ any p xs || any p ys
unfolding any
any-append p [] ys = refl
any-append p (x ∷ xs) ys = ground (arith, any-append p xs ys)

to_lower-append : (x y : Str) → to_lower (x ++ y) ≡ to_lower x ++ to_lower y
unfolding to_lower
to_lower-append x y = map-append _ x y

container_in-both :
    (x y : Str) (family : List Str)
    → container_in (x ++ b',' ∷ y) family ≡ container_in x family || container_in y family
unfolding container_in
container_in-both x y family =
    let p = λ (tok : Str). contains family (trim_space tok) in
    rw (to_lower-append x (b',' ∷ y)) (
      rw (lower-comma y) (
        rw (split-both b',' (to_lower x) (to_lower y))
          (any-append p (split b',' (to_lower x)) (split b',' (to_lower y)))))
  where
    lower-comma : (y : Str) → to_lower (b',' ∷ y) ≡ b',' ∷ to_lower y
    lower-comma y = unfold to_lower in refl

or_comm : (a b : Bool) → a || b ≡ b || a
or_comm a b = ground arith

-- The order in which ffprobe lists the names of a container does not change what the browser is
-- said to play.
pub direct_playable_comm :
    (x y : Str) (video audio : Str)
    → direct_playable (x ++ b',' ∷ y) video audio ≡ direct_playable (y ++ b',' ∷ x) video audio
unfolding direct_playable
direct_playable_comm x y video audio =
    rw
      (
        container_in-both x y mp4_family,
        container_in-both y x mp4_family,
        container_in-both x y mkv_family,
        container_in-both y x mkv_family,
        or_comm (container_in x mp4_family) (container_in y mp4_family),
        or_comm (container_in x mkv_family) (container_in y mkv_family),
      )
      refl
