-- ===== src/Tests/Naming.antt =====
-- Tests of the names of internal/mediafmt/mediafmt.go, and of Go's path functions.
use file_fin.Prelude.{◌≡◌, refl, arith, false, any, bytes, str_eq, pos, negsuc}
use file_fin.Strings.{itoa, atoi, parse_from, is_digit, all_digits, split, join}
use file_fin.Strings.Paths.{
  has_prefix, cut_prefix, trim_suffix, ext, stem, clean_path, base_name, dir_name, path_parts,
  trim_slashes, last_element, upto_last_slash,
}
use file_fin.Formats.{
  sanitize_component, format_int, format_two, folder_name, episode_mark, part_mark, file_name,
  digits_to_end, re_part, part_from_name, jellyfin, plex, file_fin_format,
}
use file_fin.Formats.Parts.{part_from_name-file_name}
use file_fin.Formats.Safe.{separates, separates-file_name}

name_filefin :
    file_name file_fin_format (pos 1999) (bytes "A/B") (pos 1) (pos 2) (pos 0) (bytes ".mkv")
    ≡ bytes "(1999) A-B - 1x2.mkv"
unfolding file_name folder_name sanitize_component format_int itoa episode_mark part_mark str_eq
name_filefin = refl

name_jellyfin :
    file_name jellyfin (pos 1999) (bytes "A") (pos 1) (pos 12) (pos 3) (bytes ".mkv")
    ≡ bytes "A (1999) S01E12 - part3.mkv"
unfolding file_name folder_name sanitize_component format_int format_two itoa episode_mark part_mark
    str_eq
name_jellyfin = refl

part_read : part_from_name (bytes "A - part1 - part12.mkv") ≡ pos 12
unfolding part_from_name re_part digits_to_end cut_prefix stem trim_suffix ext str_eq any all_digits
    is_digit atoi parse_from
part_read = refl

part_absent : part_from_name (bytes "A - part.mkv") ≡ pos 0
unfolding part_from_name re_part digits_to_end cut_prefix stem trim_suffix ext str_eq any all_digits
    is_digit
part_absent = refl

cleaned : clean_path (bytes "/a/./b//../c/") ≡ bytes "/a/c"
unfolding clean_path has_prefix path_parts split join str_eq
cleaned = refl

cleaned_up : clean_path (bytes "../../x/..") ≡ bytes "../.."
unfolding clean_path has_prefix path_parts split join str_eq
cleaned_up = refl

folder_of : dir_name (bytes "/films/a/b.mkv") ≡ bytes "/films/a"
unfolding dir_name upto_last_slash clean_path has_prefix path_parts split join str_eq any
folder_of = refl

base_of : base_name (bytes "/films/a.b.mkv/") ≡ bytes "a.b.mkv"
unfolding base_name trim_slashes last_element str_eq any
base_of = refl

ext_of : ext (bytes "/films.d/a.b.mkv") ≡ bytes ".mkv"
unfolding ext any
ext_of = refl

part_from_name-file_name_example :
    part_from_name
      (file_name plex (pos 2001) (bytes "A.B - part7") (pos 0) (pos 0) (pos 12) (bytes ".mkv"))
    ≡ pos 12
unfolding any
part_from_name-file_name_example =
    part_from_name-file_name plex (pos 2001) (bytes "A.B - part7") (pos 0) (pos 0) 12 (bytes "mkv")
      (omega arith) refl

separates-file_name_example :
    (separates (folder_name plex (negsuc 0) (bytes "../etc")) ≡ false)
    × (separates (file_name plex (negsuc 0) (bytes "../etc") (pos 1) (pos 2) (pos 0) (bytes ".mkv"))
        ≡ false)
unfolding separates any
separates-file_name_example =
    separates-file_name plex (negsuc 0) (bytes "../etc") (pos 1) (pos 2) (pos 0) (bytes ".mkv") refl
