-- ===== src/Tests/Subtitles.antt =====
-- Tests of internal/subtitle/subtitle.go.
use file_fin.Prelude.{
  ℕ, ◌≡◌, refl, Bool, false, ◌&&◌, some, List, [], ◌∷◌, any, All, lookup, Str, bytes, str_eq,
  contains, leb,
}
use file_fin.Strings.{
  itoa, is_digit, split, join, trim_space, trim_left, trim_right, is_space, byte_length,
}
use file_fin.Strings.Paths.{
  has_prefix, trim_suffix, to_lower, ext, stem, base_name, trim_slashes, last_element,
}
use file_fin.Strings.Split.{has}
use file_fin.Subtitle.{normalize_lang, lang_from_name, last_tag, is_lang_token, match_name}
use file_fin.Subtitle.Srt.{
  srt_to_vtt, srt_from, is_numeric_line, is_timing, dotted, contains_text, trim_mark, rendered,
  first_line, srt_to_vtt-rendered,
}
use file_fin.Subtitle.Ass.{
  strip_overrides, replace_escape, replace_char, kept_lines, ass_lines, ass_text, scan_int,
  scan_digits, take_digits, skip_blanks, ass_time, vtt_time, ass_format, place_of,
  ass_default_format, cut_prefix_fold, split_n, dialogue, script_line, script_from, insert_cue,
  sort_cues, write_cues, ass_cues, ass_to_vtt,
}
use file_fin.Subtitle.Cues.{IsSorted, Shows, ass_cues-IsSorted}
use file_fin.Subtitle.Plain.{ass_lines-plain}

abbrev letter : ℕ → Bool
letter c = leb b'a' c && leb c b'z'

-- internal/subtitle/subtitle_test.go
english : normalize_lang (bytes " ENG ") (bytes "xx") ≡ bytes "en"
unfolding normalize_lang to_lower trim_space trim_left trim_right is_space str_eq lookup
english = refl

forced : lang_from_name letter (bytes "Movie.en.forced.srt") ≡ bytes "en"
unfolding lang_from_name last_tag is_lang_token byte_length split stem ext trim_suffix base_name
    trim_slashes last_element to_lower contains str_eq any
forced = refl

belongs : match_name letter (bytes "Movie") (bytes "Movie.de.srt") ≡ some (bytes "de")
unfolding match_name lang_from_name last_tag is_lang_token byte_length split stem ext trim_suffix
    base_name trim_slashes last_element to_lower contains str_eq any has_prefix
belongs = refl

abbrev srt : List Str
srt = bytes "1" ∷ bytes "00:00:01,000 --> 00:00:02,000" ∷ bytes "42" ∷ bytes "years, later" ∷ []

srt_lines :
    srt_to_vtt is_digit srt
    ≡ bytes "WEBVTT"
      ∷ []
      ∷ bytes "00:00:01.000 --> 00:00:02.000"
      ∷ bytes "42"
      ∷ bytes "years, later"
      ∷ []
unfolding srt_to_vtt srt_from is_numeric_line is_timing dotted contains_text trim_mark has_prefix
    trim_space trim_left trim_right is_space str_eq any is_digit
srt_lines = refl

srt_to_vtt-rendered_example :
    srt_to_vtt is_digit srt ≡ bytes "WEBVTT" ∷ [] ∷ rendered is_digit (first_line srt)
srt_to_vtt-rendered_example = srt_to_vtt-rendered is_digit srt

stamp : ass_time (bytes " 1:02:03.45") ≡ some 372345
unfolding ass_time scan_int scan_digits take_digits skip_blanks is_digit trim_space trim_left
    trim_right is_space str_eq
stamp = refl

shown : vtt_time 372345 ≡ bytes "01:02:03.450"
unfolding vtt_time itoa
shown = refl

styled : ass_text (bytes "{\\i1}a < b{\\i0}\\N\\Nc{open") ≡ bytes "a &lt; b\nc{open"
unfolding ass_text ass_lines strip_overrides replace_escape replace_char kept_lines split join
    trim_space trim_left trim_right is_space str_eq
styled = refl

abbrev script : List Str
script =
    bytes "[Events]"
    ∷ bytes "Format: Start, End, Text"
    ∷ bytes "Dialogue: 0:00:05.00,0:00:06.00,later, on"
    ∷ bytes "Dialogue: 0:00:01.00,0:00:02.50,first"
    ∷ bytes "Dialogue: 0:00:09.00,0:00:08.00,backwards"
    ∷ []

ass_rendered :
    ass_to_vtt script
    ≡ bytes
        "WEBVTT\n\n00:00:01.000 --> 00:00:02.500\nfirst\n\n00:00:05.000 --> 00:00:06.000\nlater, on\n\n"
unfolding ass_to_vtt ass_cues script_from script_line dialogue ass_format place_of
    ass_default_format cut_prefix_fold split_n ass_text ass_lines strip_overrides replace_escape
    replace_char kept_lines split join trim_space trim_left trim_right is_space str_eq ass_time
    scan_int scan_digits take_digits skip_blanks is_digit vtt_time itoa write_cues sort_cues
    insert_cue to_lower has_prefix trim_mark
ass_rendered = refl

ass_cues-IsSorted_example : IsSorted (ass_cues script) × All Shows (ass_cues script)
ass_cues-IsSorted_example = ass_cues-IsSorted script

ass_lines-plain_example :
    All (λ l. has b'<' l ≡ false) (ass_lines (bytes "a<b>\\N\\Nc"))
    × All (λ l. has b'>' l ≡ false) (ass_lines (bytes "a<b>\\N\\Nc"))
    × All (λ l. str_eq l [] ≡ false) (ass_lines (bytes "a<b>\\N\\Nc"))
ass_lines-plain_example = ass_lines-plain (bytes "a<b>\\N\\Nc")
