-- ===== src/Replace/Disk.antt =====
-- internal/server/importreplace.go: what a replacement leaves on the disk.
use file_fin.Prelude.{
  ℕ, ◌≡◌, sym, ap, Bool, true, false, not, ◌&&◌, none, List, [], ◌∷◌, ◌++◌, All, keep, Str, bytes,
  str_eq, str_eq_iff, contains, Bool-cases, inl, inr, arith,
}
use file_fin.Strings.Paths.{clean_path, dir_name, base_name, to_lower, ext}
use file_fin.Playable.{MediaFile, base_no_ext, optimized_sibling}
use file_fin.Replace.{
  same_file, superseded_files, would_replace, without, remove_file, remove_optimized, remove_each,
  remove_sidecars, sidecar_of, retire, retire_all, finish_replace, subtitle_exts,
}
use file_fin.Replace.Superseded.{keep-All, superseded_files-safe}

-- Neither of the two files of an optimized copy is the given one.
abbrev pub NoCopy : Str → Str → Type 0
NoCopy p path =
    let sib = (optimized_sibling (λ q. none) path).0 in
    (str_eq p sib ≡ false) × (str_eq p (sib ++ bytes ".tmp") ≡ false)

-- A file that retiring another one does not touch.
abbrev Spared : Str → MediaFile → Type 0
Spared p f =
    (str_eq p f.path ≡ false)
    × NoCopy p f.path
    × (sidecar_of (dir_name f.path) (base_no_ext f.path) p ≡ false)

module _ (removable : Str → Bool) (p : Str) where
  contains-without :
      (path : Str) (files : List Str)
      → str_eq p path ≡ false
      → contains files p ≡ true
      → contains (without path files) p ≡ true
  unfolding contains keep
  contains-without path [] e h = cc
  contains-without path (x ∷ xs) e h =
      ground (arith, contains-without path xs e, str_eq_iff x p, str_eq_iff x path)

  contains-remove_file :
      (path : Str) (files : List Str)
      → str_eq p path ≡ false
      → contains files p ≡ true
      → contains (remove_file removable path files) p ≡ true
  unfolding remove_file
  contains-remove_file path files e h = elim (Bool-cases (removable path)) [
    | inl r ↦ rw r (contains-without path files e h)
    | inr r ↦ rw r h
  ]

  contains-remove_optimized :
      (path : Str) (files : List Str)
      → NoCopy p path
      → contains files p ≡ true
      → contains (remove_optimized removable path files) p ≡ true
  unfolding remove_optimized
  contains-remove_optimized path files c h =
      let sib = (optimized_sibling (λ q. none) path).0 in
      contains-remove_file (sib ++ bytes ".tmp") (remove_file removable sib files) c.1
        (contains-remove_file sib files c.0 h)

  contains-remove_each :
      (test : Str → Bool) (gone files : List Str)
      → test p ≡ false
      → All (λ q. test q ≡ true) gone
      → contains files p ≡ true
      → contains (remove_each removable gone files) p ≡ true
  contains-remove_each test [] files e a h = h
  contains-remove_each test (q ∷ gone) files e a h =
      let other : str_eq p q ≡ false = elim (Bool-cases (str_eq p q)) [
        | inl same ↦ (let eq : p ≡ q = (str_eq_iff p q).0 same in absurd (cc (a.0, ap test eq, e)))
        | inr e' ↦ e'
      ] in
      contains-remove_each test gone (remove_file removable q files) e a.1
        (contains-remove_file q files other h)

  contains-retire :
      (target : Str) (files : List Str) (f : MediaFile)
      → Spared p f
      → contains files p ≡ true
      → contains (retire removable target files f) p ≡ true
  unfolding retire remove_sidecars
  contains-retire target files f (e, c, s) h =
      let gone = remove_optimized removable f.path (without f.path files) in
      let kept : contains gone p ≡ true =
        contains-remove_optimized f.path (without f.path files) c
          (contains-without f.path files e h) in
      let side = sidecar_of (dir_name f.path) (base_no_ext f.path) in
      elim (Bool-cases (not (removable f.path) && contains files f.path)) [
        | inl stays ↦ rw stays h
        | inr goes ↦ rw goes (elim (Bool-cases (str_eq (base_no_ext f.path) (base_no_ext target))) [
          | inl same ↦ rw same kept
          | inr named ↦
              rw named (contains-remove_each side (keep side gone) gone s (keep-All side gone) kept)
        ])
      ]

  contains-retire_all :
      (target : Str) (old : List MediaFile) (files : List Str)
      → All (Spared p) old
      → contains files p ≡ true
      → contains (retire_all removable target old files) p ≡ true
  unfolding retire_all
  contains-retire_all target [] files a h = h
  contains-retire_all target (f ∷ old) files a h =
      contains-retire_all target old (retire removable target files f) a.1
        (contains-retire target files f a.0 h)

other-path :
    (season episode : ℕ) (target : Str) (f : MediaFile)
    → would_replace season episode target f ≡ true
    → str_eq target f.path ≡ false
unfolding same_file
other-path season episode target f h = elim (Bool-cases (str_eq target f.path)) [
  | inl e ↦
      let same : clean_path f.path ≡ clean_path target =
        ap clean_path (sym ((str_eq_iff target f.path).0 e)) in
      let cleaned = (str_eq_iff (clean_path f.path) (clean_path target)).1 same in
      absurd (ground (arith, cleaned))
  | inr e ↦ e
]

not-sidecar :
    (dir base p : Str)
    → contains subtitle_exts (to_lower (ext (base_name p))) ≡ false
    → sidecar_of dir base p ≡ false
not-sidecar dir base p h = ground arith

Spared-old :
    (season episode : ℕ) (target : Str) (old : List MediaFile)
    → contains subtitle_exts (to_lower (ext (base_name target))) ≡ false
    → All (λ f. NoCopy target f.path) old
    → All (λ f. would_replace season episode target f ≡ true) old
    → All (Spared target) old
Spared-old season episode target [] video c r = tt
Spared-old season episode target (f ∷ old) video c r = (
  (
    other-path season episode target f r.0,
    c.0,
    not-sidecar (dir_name f.path) (base_no_ext f.path) target video,
  ),
  Spared-old season episode target old video c.1 r.1,
)

-- The file that a replacement has written is still on the disk when the replacement is finished,
-- whichever files it retires and whichever of them the system lets it remove, as long as the new
-- file has no subtitle's extension and is not the optimized copy of itself or of a library file.
pub finish_replace-target :
    (removable : Str → Bool) (known : List MediaFile) (season episode : ℕ) (target : Str)
    (files : List Str)
    → contains subtitle_exts (to_lower (ext (base_name target))) ≡ false
    → NoCopy target target
    → All (λ f. NoCopy target f.path) known
    → contains files target ≡ true
    → contains (finish_replace removable known season episode target files) target ≡ true
unfolding finish_replace
finish_replace-target removable known season episode target files video own copies here =
    let safe =
      superseded_files-safe (λ f. NoCopy target f.path) known season episode target copies in
    let old = (superseded_files known season episode target).0 in
    contains-remove_optimized removable target target (retire_all removable target old files) own (
      contains-retire_all removable target target old files
        (Spared-old season episode target old video safe.0 safe.1) here)
