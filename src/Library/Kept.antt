-- ===== src/Library/Kept.antt =====
-- internal/library/library.go: what every change of a category's configuration keeps.
use file_fin.Prelude.{
  ℕ, zero, suc, ◌≤◌, ◌≡◌, ◌⊎◌, refl, Bool, true, false, Option, none, some, List, [], ◌∷◌, Str,
  str_eq, str_eq_iff, str_eq_self, insert, Map, lookup, lookup-insert, length, take, leb, leb_iff,
  Bool-cases, inl, inr, arith, if◌then◌else◌, ap, sym, subst, ◌∙◌,
}
use file_fin.Strings.{trim_space, trim_left, trim_right}
use file_fin.Strings.Paths.{base_name}
use file_fin.Library.Markings.{
  Markers, max_learned, cap_learned, clean, is_empty_markers, clean_counts, learn_all,
  learn_markers, sort_entries,
}
use file_fin.Library.{
  CategoryConfig, Stored, readable, unreadable, Writing, written, untouched, truncated, done,
  write_failed, write_config, Disk, Outcome, read_config, change, change_found, alias_or,
  with_alias, with_markers, with_learned, with_position, markers_of, set_alias, set_markers, learn,
  set_position,
}

-- The changes that the handlers make to one category.
pub data Edit : Type 0 where
  alias : Str → Bool → Edit
  marking : Markers → Edit
  imported : List Str → Edit
  moved : ℕ → Edit

pub edit : Edit → Writing → Disk → Str → Disk × Outcome
edit (alias shown other) w disk path = set_alias w disk path shown other
edit (marking m) w disk path = set_markers w disk path m
edit (imported ks) w disk path = learn w disk path ks
edit (moved position) w disk path = set_position w disk path position

abbrev pub IsCapped : CategoryConfig → Type 0
IsCapped c = length (markers_of c.markers).learned ≤ max_learned

length-take : (i : ℕ) (m : Map ℕ) → length (take i m) ≤ i
length-take zero m = omega arith
length-take (suc i) [] = omega arith
length-take (suc i) (e ∷ m) = omega (arith, length-take i m)

length-cap_learned : (m : Map ℕ) → length (cap_learned m) ≤ max_learned
unfolding cap_learned
length-cap_learned m = elim (Bool-cases (leb (length m) max_learned)) [
  | inl e ↦ rw e ((leb_iff (length m) max_learned).0 e)
  | inr e ↦ rw e (length-take max_learned (sort_entries m))
]

-- What the entry of a category has become.
abbrev pub Kept : Writing → Str → Str → CategoryConfig → Option Stored → Type 0
Kept w path j c none = ⊥
Kept w path j c (some (readable d)) =
    (d.id ≡ c.id) × IsCapped d × ((str_eq path j ≡ true) ⊎ (d ≡ c))
Kept w path j c (some unreadable) = (str_eq path j ≡ true) × (w ≡ truncated)

module _ (f : CategoryConfig → CategoryConfig) (id_kept : (c : CategoryConfig) → (f c).id ≡ c.id)
    (cap_kept : (c : CategoryConfig) → IsCapped c → IsCapped (f c)) (disk : Disk) (path j : Str)
    (c : CategoryConfig) (h : lookup j disk ≡ some (readable c)) (capped : IsCapped c) where
  -- An entry is written, at its own path or at another.
  insert-Kept :
      (w : Writing) (t : Stored)
      → (str_eq path j ≡ true → Kept w path j c (some t))
      → Kept w path j c (lookup j (insert path t disk))
  insert-Kept w t own = elim (Bool-cases (str_eq path j)) [
    | inl same ↦
        subst (λ (o : Option Stored). Kept w path j c o)
          (sym (
            lookup-insert path j t disk
            ∙ ap (λ (b : Bool). if b then some t else lookup j disk) same))
          (own same)
    | inr apart ↦ rw (lookup-insert path j t disk, apart, h) (refl, capped, inr refl)
  ]

  own_entry : (s : Stored) → lookup path disk ≡ some s → str_eq path j ≡ true → s ≡ readable c
  own_entry s e same = ground (arith, e, h, same, str_eq_iff path j)

  own_written :
      (b : CategoryConfig)
      → lookup path disk ≡ some (readable b)
      → str_eq path j ≡ true
      → Kept written path j c (some (readable (f (read_config (base_name path) (readable b)))))
  unfolding read_config
  own_written b e same =
      let old : b ≡ c = ground (arith, own_entry (readable b) e same) in
      let read : CategoryConfig = record b { alias = alias_or b.alias (base_name path) } in
      (
        id_kept read ∙ ap (λ (d : CategoryConfig). d.id) old,
        cap_kept read (rw old capped),
        inl same,
      )

  change_found-Kept :
      (w : Writing) (o : Option Stored)
      → lookup path disk ≡ o
      → Kept w path j c (lookup j (change_found f w disk path o).0)
  unfolding change_found read_config write_config
  change_found-Kept w none e = rw h (refl, capped, inr refl)
  change_found-Kept untouched (some s) e = rw h (refl, capped, inr refl)
  change_found-Kept truncated (some s) e = insert-Kept truncated unreadable (λ same. (same, refl))
  change_found-Kept written (some unreadable) e =
      insert-Kept written (readable (f (read_config (base_name path) unreadable)))
        (λ same. absurd (ground (arith, own_entry unreadable e same)))
  change_found-Kept written (some (readable b)) e =
      insert-Kept written (readable (f (read_config (base_name path) (readable b))))
        (own_written b e)

  change-Kept : (w : Writing) → Kept w path j c (lookup j (change f w disk path).0)
  unfolding change
  change-Kept w = change_found-Kept w (lookup path disk) refl

clean-capped : (m : Markers) → length (clean m).learned ≤ max_learned
unfolding clean
clean-capped m = length-cap_learned (clean_counts [] m.learned)

with_markers-IsCapped : (m : Markers) (c : CategoryConfig) → IsCapped (with_markers (clean m) c)
with_markers-IsCapped m c = elim (Bool-cases (is_empty_markers (clean m))) [
  | inl e ↦ rw e (omega arith)
  | inr e ↦ rw e (clean-capped m)
]

with_learned-IsCapped : (ks : List Str) (c : CategoryConfig) → IsCapped (with_learned ks c)
unfolding learn_markers
with_learned-IsCapped ks c = length-cap_learned (learn_all ks (markers_of c.markers).learned)

-- No change of a category loses a category, gives one that can be read another id, touches a category
-- other than the one named, or lets the learned markers grow beyond the cap. Only a write that breaks
-- off leaves a configuration that cannot be read, and only that of the category named.
pub edit-Kept :
    (e : Edit) (w : Writing) (disk : Disk) (path j : Str) (c : CategoryConfig)
    → lookup j disk ≡ some (readable c)
    → IsCapped c
    → Kept w path j c (lookup j (edit e w disk path).0)
unfolding edit set_alias set_markers learn set_position
edit-Kept (alias shown other) w disk path j c h k =
    let name = if str_eq (trim_space shown) [] then base_name path else trim_space shown in
    change-Kept (with_alias name other) (λ d. refl) (λ d w. w) disk path j c h k w
edit-Kept (marking m) w disk path j c h k =
    change-Kept (with_markers (clean m)) (λ d. refl) (λ d w. with_markers-IsCapped m d) disk path j
      c h k w
edit-Kept (imported []) w disk path j c h k = rw h (refl, k, inr refl)
edit-Kept (imported (x ∷ ks)) w disk path j c h k =
    change-Kept (with_learned (x ∷ ks)) (λ d. refl) (λ d w. with_learned-IsCapped (x ∷ ks) d) disk
      path j c h k w
edit-Kept (moved position) w disk path j c h k =
    change-Kept (with_position position) (λ d. refl) (λ d w. w) disk path j c h k w

-- An edit that writes: all but an import that carries no marker.
abbrev pub Changes : Edit → Type 0
Changes (alias shown other) = Unit
Changes (marking m) = Unit
Changes (imported []) = ⊥
Changes (imported (k ∷ ks)) = Unit
Changes (moved position) = Unit

abbrev changing : Edit → Str → CategoryConfig → CategoryConfig
changing (alias shown other) path =
    with_alias (if str_eq (trim_space shown) [] then base_name path else trim_space shown) other
changing (marking m) path = with_markers (clean m)
changing (imported ks) path = with_learned ks
changing (moved position) path = with_position position

edit-change :
    (e : Edit) (w : Writing) (disk : Disk) (path : Str)
    → Changes e
    → edit e w disk path ≡ change (changing e path) w disk path
unfolding edit set_alias set_markers learn set_position
edit-change (alias shown other) w disk path ch = refl
edit-change (marking m) w disk path ch = refl
edit-change (imported []) w disk path ch = absurd ch
edit-change (imported (k ∷ ks)) w disk path ch = refl
edit-change (moved position) w disk path ch = refl

-- A configuration that says nothing: no id, no alias, no position and no markers.
abbrev pub blank : CategoryConfig
blank = record { id = 0; alias = []; other_media = false; position = 0; markers = none }

module _ (f : CategoryConfig → CategoryConfig) (path : Str) where
  change-truncated :
      (disk : Disk) (s : Stored)
      → lookup path disk ≡ some s
      → change f truncated disk path ≡ (insert path unreadable disk, write_failed)
  unfolding change change_found write_config
  change-truncated disk s h = rw h refl

  -- A configuration that cannot be read is changed as a blank one is.
  change-unreadable :
      (disk disk' : Disk)
      → lookup path disk ≡ some unreadable
      → lookup path disk' ≡ some (readable blank)
      → ((change f written disk path).1 ≡ done)
        × (lookup path (change f written disk path).0 ≡ lookup path (change f written disk' path).0)
  unfolding change change_found write_config read_config trim_space trim_left trim_right str_eq
  change-unreadable disk disk' h h' =
      let fresh = readable (f (record blank { alias = base_name path })) in
      rw
        (
          h,
          h',
          lookup-insert path path fresh disk,
          lookup-insert path path fresh disk',
          str_eq_self path,
        )
        (refl, refl)

abbrev pub edit_twice : Edit → Edit → Disk → Str → Disk × Outcome
edit_twice e e' disk path = edit e' written (edit e truncated disk path).0 path

-- An edit of a category whose write breaks off is answered with an error, but the next edit, if
-- it is written, is answered without one, and leaves the category as the same edit leaves one with a blank
-- configuration, which has the id 0, no position and no markers. (Imports without a marker write
-- nothing and are not among these edits.)
pub edit_twice-blank :
    (e e' : Edit) (disk : Disk) (path : Str) (c : CategoryConfig)
    → Changes e
    → Changes e'
    → lookup path disk ≡ some (readable c)
    → ((edit e truncated disk path).1 ≡ write_failed)
      × ((edit_twice e e' disk path).1 ≡ done)
      × (lookup path (edit_twice e e' disk path).0
          ≡ lookup path (edit e' written (insert path (readable blank) disk) path).0)
edit_twice-blank e e' disk path c ch ch' h =
    let broken = insert path unreadable disk in
    let reset = insert path (readable blank) disk in
    let first : edit e truncated disk path ≡ (broken, write_failed) =
      edit-change e truncated disk path ch
      ∙ change-truncated (changing e path) path disk (readable c) h in
    let second =
      change-unreadable (changing e' path) path broken reset
        (lookup-insert path path unreadable disk ∙ rw (str_eq_self path) refl)
        (lookup-insert path path (readable blank) disk ∙ rw (str_eq_self path) refl) in
    rw (first, edit-change e' written broken path ch', edit-change e' written reset path ch')
      (refl, second.0, second.1)
