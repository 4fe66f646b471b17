-- ===== src/State/Refs.antt =====
-- internal/state/engine.go, `Refs`: the references by which a folder's files are remembered.
use file_fin.Prelude.{
  ℕ, zero, suc, ◌+◌, ◌<◌, subst, ◌≡◌, ◌≢◌, refl, ap, sym, ◌∙◌, Bool, false, ◌&&◌, some, List, [],
  ◌∷◌, ◌++◌, length, get_elem?, Str, ◌==◌, if◌then◌else◌, ℤ, pos, pos_part, ltb_ℤ, arith,
}
use file_fin.Strings.{itoa, atoi}
use file_fin.Strings.Decimal.{atoi-itoa}

pub record FileKey : Type 0 where
  pub season : ℤ
  pub episode : ℤ

abbrev pub numbered : FileKey → Bool
numbered f = ltb_ℤ (pos 0) f.season && ltb_ℤ (pos 0) f.episode

unfoldable pub ref_of : Bool → ℕ → FileKey → Str
ref_of single i f =
    if numbered f
    then itoa (pos_part f.season) ++ b'x' ∷ itoa (pos_part f.episode)
    else if single
    then []
    else b'#' ∷ itoa (i + 1)

unfoldable pub refs_from : Bool → ℕ → List FileKey → List Str
refs_from single i [] = []
refs_from single i (f ∷ files) = ref_of single i f ∷ refs_from single (i + 1) files

unfoldable pub refs_of : List FileKey → List Str
refs_of files = refs_from (length files == 1) 0 files

get_elem?-refs_from :
    (single : Bool) (k : ℕ) (files : List FileKey) (i : ℕ) (f : FileKey)
    → get_elem? files i ≡ some f
    → get_elem? (refs_from single k files) i ≡ some (ref_of single (i + k) f)
unfolding refs_from
get_elem?-refs_from single k [] i f h = cc
get_elem?-refs_from single k (g ∷ files) zero f h =
    let same : g ≡ f = cc in rw same (ap (λ n. some (ref_of single n f)) (omega arith))
get_elem?-refs_from single k (g ∷ files) (suc i) f h =
    get_elem?-refs_from single (k + 1) files i f h
    ∙ ap (λ n. some (ref_of single n f)) (omega arith)

get_elem?-lt :
    (files : List FileKey) (i : ℕ) (f : FileKey) → get_elem? files i ≡ some f → i < length files
get_elem?-lt [] i f h = cc
get_elem?-lt (g ∷ files) zero f h = omega arith
get_elem?-lt (g ∷ files) (suc i) f h = omega (arith, get_elem?-lt files i f h)

itoa-injective : (m n : ℕ) → itoa m ≡ itoa n → m ≡ n
itoa-injective m n e = let same : pos m ≡ pos n = sym (atoi-itoa m) ∙ ap atoi e ∙ atoi-itoa n in cc

drop_first : Str → Str
drop_first [] = []
drop_first (c ∷ s) = s

ref_of-unnumbered :
    (i j : ℕ) (f g : FileKey)
    → numbered f ≡ false
    → numbered g ≡ false
    → ref_of false i f ≡ ref_of false j g
    → i ≡ j
unfolding drop_first ref_of
ref_of-unnumbered i j f g h k e =
    let hashed : b'#' ∷ itoa (i + 1) ≡ b'#' ∷ itoa (j + 1) = sym (rw h refl) ∙ e ∙ rw k refl in
    omega (arith, itoa-injective (i + 1) (j + 1) (ap drop_first hashed))

-- Two files of a folder without season and episode never share a reference, so progress in one of
-- them is not taken for progress in the other.
pub refs_of-apart :
    (files : List FileKey) (i j : ℕ) (f g : FileKey)
    → get_elem? files i ≡ some f
    → get_elem? files j ≡ some g
    → numbered f ≡ false
    → numbered g ≡ false
    → i ≢ j
    → get_elem? (refs_of files) i ≢ get_elem? (refs_of files) j
unfolding refs_of
refs_of-apart files i j f g at_i at_j h k apart e =
    let several : (length files == 1) ≡ false =
      ground (arith, apart, get_elem?-lt files i f at_i, get_elem?-lt files j g at_j) in
    let ri = get_elem?-refs_from (length files == 1) 0 files i f at_i in
    let rj = get_elem?-refs_from (length files == 1) 0 files j g at_j in
    let both : some (ref_of (length files == 1) (i + 0) f)
        ≡ some (ref_of (length files == 1) (j + 0) g) =
      sym ri ∙ e ∙ rj in
    let same : ref_of (length files == 1) (i + 0) f ≡ ref_of (length files == 1) (j + 0) g = cc in
    let equal =
      ref_of-unnumbered (i + 0) (j + 0) f g h k
        (subst (λ b. ref_of b (i + 0) f ≡ ref_of b (j + 0) g) several same) in
    apart (omega (arith, equal))
