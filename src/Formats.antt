-- ===== src/Formats.antt =====
-- internal/mediafmt/mediafmt.go: the names of media folders and files in the three formats, and the
-- part number read back from a name. Numbers are Go's `int`, without its upper bound.
use file_fin.Prelude.{
  ℕ, suc, Bool, true, false, ◌&&◌, ◌||◌, Option, none, some, [], ◌∷◌, ◌++◌, map, ltb, ◌==◌,
  if◌then◌else◌, Str, bytes, str_eq, ℤ, pos, negsuc, ltb_ℤ,
}
use file_fin.Strings.{itoa, atoi, all_digits}
use file_fin.Strings.Paths.{cut_prefix, stem}
pub mod Parts
pub mod Safe

abbrev pub file_fin_format : Str
file_fin_format = bytes "filefin"

abbrev pub jellyfin : Str
jellyfin = bytes "jellyfin"

abbrev pub plex : Str
plex = bytes "plex"

unfoldable pub valid : Str → Bool
valid s = str_eq s file_fin_format || str_eq s jellyfin || str_eq s plex

-- The verbs `%d` and `%02d` of `fmt.Sprintf`
unfoldable pub format_int : ℤ → Str
format_int (pos n) = itoa n
format_int (negsuc n) = b'-' ∷ itoa (suc n)

unfoldable pub format_two : ℤ → Str
format_two (pos n) = if ltb n 10 then b'0' ∷ itoa n else itoa n
format_two (negsuc n) = b'-' ∷ itoa (suc n)

unfoldable pub sanitize_component : Str → Str
sanitize_component = map (λ c. if c == b'/' || c == b'\\' then b'-' else c)

abbrev year_last : Str → Bool
year_last format = str_eq format jellyfin || str_eq format plex

unfoldable pub folder_name : Str → ℤ → Str → Str
unfolding sanitize_component format_int
folder_name format year title =
    let title' = sanitize_component title in
    if year_last format
    then title' ++ (bytes " (" ++ (format_int year ++ bytes ")"))
    else bytes "(" ++ (format_int year ++ (bytes ") " ++ title'))

-- The marker that an episode's name carries.
unfoldable pub episode_mark : Str → ℤ → ℤ → Str
unfolding format_int format_two
episode_mark format season episode =
    if ltb_ℤ (pos 0) season || ltb_ℤ (pos 0) episode
    then if str_eq format jellyfin
      then bytes " S" ++ (format_two season ++ (bytes "E" ++ format_two episode))
      else if str_eq format plex
      then bytes " - s" ++ (format_two season ++ (bytes "e" ++ format_two episode))
      else bytes " - " ++ (format_int season ++ (bytes "x" ++ format_int episode))
    else []

unfoldable pub part_mark : ℤ → Str
unfolding format_int
part_mark part = if ltb_ℤ (pos 0) part then bytes " - part" ++ format_int part else []

unfoldable pub file_name : Str → ℤ → Str → ℤ → ℤ → ℤ → Str → Str
unfolding folder_name episode_mark part_mark
file_name format year title season episode part ext =
    (folder_name format year title ++ episode_mark format season episode) ++ (part_mark part ++ ext)

-- What the regular expression `(\d+)$` takes of the text behind ` - part`.
unfoldable pub digits_to_end : Option Str → Option Str
unfolding all_digits
digits_to_end none = none
digits_to_end (some []) = none
digits_to_end (some (c ∷ s)) = if all_digits (c ∷ s) then some (c ∷ s) else none

abbrev pub first_match : Option Str → Option Str → Option Str
first_match none other = other
first_match (some s) other = some s

-- The group of the leftmost match of ` - part(\d+)$`.
unfoldable pub re_part : Str → Option Str
unfolding digits_to_end cut_prefix
re_part [] = none
re_part (c ∷ s) = first_match (digits_to_end (cut_prefix (c ∷ s) (bytes " - part"))) (re_part s)

abbrev part_number : Option Str → ℤ
part_number none = pos 0
part_number (some m) = atoi m

unfoldable pub part_from_name : Str → ℤ
unfolding re_part stem
part_from_name name = part_number (re_part (stem name))
