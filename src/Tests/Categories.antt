-- ===== src/Tests/Categories.antt =====
-- Tests of internal/library/library.go.
use file_fin.Prelude.{
  ℕ, zero, suc, ◌≡◌, refl, false, none, some, List, [], ◌∷◌, replicate, All, lookup, insert, str_eq,
  Map, Str, bytes, contains, arith,
}
use file_fin.Strings.{trim_space, trim_left, trim_right, is_space, byte_length}
use file_fin.Strings.Paths.{to_lower, has_prefix}
use file_fin.Library.Markings.{clean_list, learn_markers, no_markers}
use file_fin.Library.{
  readable, written, truncated, done, write_failed, CategoryConfig, Disk, hidden, valid_name,
}
use file_fin.Library.Learning.{Once, learn_each, learn_each-starves}
use file_fin.Library.Kept.{
  edit, edit-Kept, Kept, blank, edit_twice, edit_twice-blank, imported, moved,
}

-- That many markers, each seen twice.
abbrev seen_twice : ℕ → Map ℕ
seen_twice zero = []
seen_twice (suc n) = (replicate (suc n) b'a', 2) ∷ seen_twice n

abbrev group : Str
group = bytes "grp:jkct"

abbrev thrice : List (List Str)
thrice = (group ∷ []) ∷ (group ∷ []) ∷ (group ∷ []) ∷ []

once : All (Once group) thrice
unfolding contains
once = ((λ e. refl, tt), ((λ e. refl, tt), ((λ e. refl, tt), tt)))

learn_each-starves_example : lookup group (learn_each (seen_twice 50) thrice) ≡ none
unfolding lookup str_eq trim_space trim_left trim_right is_space
learn_each-starves_example = learn_each-starves group thrice (seen_twice 50) (omega arith) refl once

-- A category with room learns the marker.
learns : lookup group (learn_each (seen_twice 2) ((group ∷ []) ∷ (group ∷ []) ∷ [])) ≡ some 2
unfolding learn_each learn_markers lookup str_eq trim_space trim_left trim_right is_space
learns = refl

abbrev films : CategoryConfig
films = record {
  id = 7;
  alias = bytes "Films";
  other_media = false;
  position = 1;
  markers = some (record no_markers { learned = (group, 1) ∷ [] });
}

abbrev disk : Disk
disk = (bytes "films", readable films) ∷ []

edit-Kept_example :
    Kept written
      (bytes "films")
      (bytes "films")
      films
      (lookup (bytes "films") (edit (imported (group ∷ [])) written disk (bytes "films")).0)
unfolding lookup str_eq
edit-Kept_example =
    edit-Kept (imported (group ∷ [])) written disk (bytes "films") (bytes "films") films refl
      (omega arith)

hidden_name : valid_name (bytes ".trash") ≡ some hidden
unfolding valid_name byte_length has_prefix str_eq
hidden_name = refl

cleaned : clean_list (bytes " Anime" ∷ bytes "anime" ∷ bytes " " ∷ []) ≡ bytes "Anime" ∷ []
unfolding clean_list trim_space trim_left trim_right is_space str_eq to_lower contains
cleaned = refl

edit_twice-blank_example :
    ((edit (moved 3) truncated disk (bytes "films")).1 ≡ write_failed)
    × ((edit_twice (moved 3) (moved 3) disk (bytes "films")).1 ≡ done)
    × (lookup (bytes "films") (edit_twice (moved 3) (moved 3) disk (bytes "films")).0
        ≡ lookup
            (bytes "films")
            (edit
              (moved 3)
              written
              (insert (bytes "films") (readable blank) disk)
              (bytes "films")).0)
unfolding lookup str_eq
edit_twice-blank_example =
    edit_twice-blank (moved 3) (moved 3) disk (bytes "films") films tt tt refl
