-- ===== src/Replace/Probed.antt =====
-- internal/server/importreplace.go: the formats of the rows that are read again from the disk.
use file_fin.Prelude.{
  ℕ, zero, suc, ◌≡◌, refl, ap, subst, ◌∙◌, false, List, [], ◌∷◌, map, get_elem?, some, All, Str,
  str_eq, str_eq_self, Map, lookup, insert, lookup-insert,
}
use file_fin.Playable.{MediaFile}
use file_fin.Replace.{Technical, same_file, by_path, with_format, keep_format, keep_probed_formats}

-- No two rows have the same path, as the database's key says.
abbrev pub PathsDiffer : List MediaFile → Type 0
PathsDiffer [] = Unit
PathsDiffer (f ∷ fs) = All (λ g. str_eq g.path f.path ≡ false) fs × PathsDiffer fs

lookup-by_path-other :
    (path : Str) (fs : List MediaFile) (m : Map MediaFile)
    → All (λ g. str_eq g.path path ≡ false) fs
    → lookup path (by_path m fs) ≡ lookup path m
unfolding by_path
lookup-by_path-other path [] m h = refl
lookup-by_path-other path (g ∷ fs) m h =
    rw (lookup-by_path-other path fs (insert g.path g m) h.1, lookup-insert g.path path g m, h.0)
      refl

lookup-by_path :
    (known : List MediaFile) (j : ℕ) (g : MediaFile) (m : Map MediaFile)
    → PathsDiffer known
    → get_elem? known j ≡ some g
    → lookup g.path (by_path m known) ≡ some g
unfolding by_path
lookup-by_path [] j g m d h = cc
lookup-by_path (f ∷ fs) zero g m d h =
    let same : f ≡ g = cc in
    subst (λ (x : MediaFile). lookup x.path (by_path (insert f.path f m) fs) ≡ some x) same
      (rw
        (
          lookup-by_path-other f.path fs (insert f.path f m) d.0,
          lookup-insert f.path f.path f m,
          str_eq_self f.path,
        )
        refl)
lookup-by_path (f ∷ fs) (suc j) g m d h = lookup-by_path fs j g (insert f.path f m) d.1 h

get_elem?-map {ℓ κ} :
    {A : Type ℓ} {B : Type κ} (g : A → B) (xs : List A) (i : ℕ) (x : A)
    → get_elem? xs i ≡ some x
    → get_elem? (map g xs) i ≡ some (g x)
get_elem?-map g [] i x h = cc
get_elem?-map g (y ∷ ys) zero x h = cc
get_elem?-map g (y ∷ ys) (suc i) x h = get_elem?-map g ys i x h

-- A row read again from the disk keeps the container and the codecs that the row of the same path
-- had before, in place of its own, unless it is the file just written; nothing else of it changes.
pub keep_probed_formats-known :
    (fresh known : List MediaFile) (target : Str) (tech : Technical) (i j : ℕ) (f g : MediaFile)
    → PathsDiffer known
    → get_elem? fresh i ≡ some f
    → get_elem? known j ≡ some g
    → f.path ≡ g.path
    → same_file f.path target ≡ false
    → get_elem? (keep_probed_formats fresh known target tech) i
      ≡ some (record f {
        container = g.container;
        video_codec = g.video_codec;
        audio_codec = g.audio_codec;
      })
unfolding keep_probed_formats keep_format
keep_probed_formats-known fresh known target tech i j f g d hf hg same other =
    let found : lookup f.path (by_path [] known) ≡ some g =
      rw same (lookup-by_path known j g [] d hg) in
    let kept : keep_format (by_path [] known) target tech f ≡ with_format f (some g) =
      rw (other, found) refl in
    get_elem?-map (keep_format (by_path [] known) target tech) fresh i f hf ∙ ap some kept
