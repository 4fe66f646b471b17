-- ===== src/Subtitle.antt =====
-- internal/subtitle/subtitle.go: the languages and the names of subtitle files. Unicode's letters are
-- a parameter; case is that of ASCII.
use file_fin.Prelude.{
  ℕ, zero, suc, ◌+◌, ◌-◌, Bool, true, false, not, ◌&&◌, ◌||◌, Option, none, some, List, [], ◌∷◌,
  ◌++◌, map, any, keep, length, ltb, leb, ◌==◌, if◌then◌else◌, Str, bytes, str_eq, contains, Map,
  lookup,
}
use mathlib.Core.List.{reverse}
use file_fin.Strings.{trim_space, split, byte_length}
use file_fin.Strings.Paths.{to_lower, has_prefix, ext, base_name, trim_suffix, stem}
pub mod Srt
pub mod Plain
pub mod Ass
pub mod Cues

abbrev pub lang_labels : Map Str
lang_labels =
    (bytes "en", bytes "English")
    ∷ (bytes "de", bytes "German")
    ∷ (bytes "fr", bytes "French")
    ∷ (bytes "es", bytes "Spanish")
    ∷ (bytes "it", bytes "Italian")
    ∷ (bytes "ja", bytes "Japanese")
    ∷ (bytes "zh", bytes "Chinese")
    ∷ (bytes "ko", bytes "Korean")
    ∷ (bytes "ru", bytes "Russian")
    ∷ (bytes "pt", bytes "Portuguese")
    ∷ (bytes "nl", bytes "Dutch")
    ∷ []

abbrev sub_qualifiers : List Str
sub_qualifiers = bytes "forced" ∷ bytes "sdh" ∷ bytes "cc" ∷ bytes "hi" ∷ bytes "default" ∷ []

abbrev pub lang_aliases : Map Str
lang_aliases =
    (bytes "eng", bytes "en")
    ∷ (bytes "english", bytes "en")
    ∷ (bytes "ger", bytes "de")
    ∷ (bytes "deu", bytes "de")
    ∷ (bytes "german", bytes "de")
    ∷ (bytes "fre", bytes "fr")
    ∷ (bytes "fra", bytes "fr")
    ∷ (bytes "french", bytes "fr")
    ∷ (bytes "spa", bytes "es")
    ∷ (bytes "esp", bytes "es")
    ∷ (bytes "spanish", bytes "es")
    ∷ (bytes "ita", bytes "it")
    ∷ (bytes "italian", bytes "it")
    ∷ (bytes "jpn", bytes "ja")
    ∷ (bytes "jap", bytes "ja")
    ∷ (bytes "japanese", bytes "ja")
    ∷ (bytes "chi", bytes "zh")
    ∷ (bytes "zho", bytes "zh")
    ∷ (bytes "chinese", bytes "zh")
    ∷ (bytes "kor", bytes "ko")
    ∷ (bytes "korean", bytes "ko")
    ∷ (bytes "rus", bytes "ru")
    ∷ (bytes "russian", bytes "ru")
    ∷ (bytes "por", bytes "pt")
    ∷ (bytes "portuguese", bytes "pt")
    ∷ (bytes "dut", bytes "nl")
    ∷ (bytes "nld", bytes "nl")
    ∷ (bytes "dutch", bytes "nl")
    ∷ []

abbrev pub found_or : Option Str → Str → Str
found_or none other = other
found_or (some s) other = s

abbrev pub is_known : Option Str → Bool
is_known none = false
is_known (some s) = true

unfoldable pub normalize_lang : Str → Str → Str
normalize_lang raw fallback =
    let s = to_lower (trim_space raw) in
    if str_eq s [] then fallback else found_or (lookup s lang_aliases) s

unfoldable pub known_lang : Str → Bool
known_lang raw =
    let s = to_lower (trim_space raw) in
    if str_eq s []
    then false
    else is_known (lookup s lang_aliases) || is_known (lookup s lang_labels)

unfoldable pub to_upper : Str → Str
to_upper = map (λ c. if leb b'a' c && leb c b'z' then c - 32 else c)

unfoldable pub label : Str → Str
unfolding to_upper
label lang = found_or (lookup (to_lower lang) lang_labels) (to_upper lang)

pub record Sidecar : Type 0 where
  pub name : Str
  pub lang : Str
  pub shown : Str

abbrev pub with_sidecar : Str → Option Str → List Sidecar → List Sidecar
with_sidecar name none rest = rest
with_sidecar name (some lang) rest = record { name = name; lang = lang; shown = label lang } ∷ rest

module _ (is_letter : ℕ → Bool) where
  unfoldable pub is_lang_token : Str → Bool
  is_lang_token s =
      not (ltb (byte_length s) 2 || ltb 3 (byte_length s)) && not (any (λ c. not (is_letter c)) s)

  -- The parts from the last one back; the first part is no tag.
  unfoldable pub last_tag : List Str → Str
  unfolding is_lang_token
  last_tag [] = []
  last_tag (part ∷ []) = []
  last_tag (part ∷ next ∷ parts) =
      let rest = last_tag (next ∷ parts) in
      if contains sub_qualifiers (to_lower part)
      then rest
      else if is_lang_token (to_lower part)
      then part
      else []

  unfoldable pub lang_from_name : Str → Str
  unfolding last_tag
  lang_from_name name = last_tag (reverse (split b'.' (stem (base_name name))))

  abbrev some_lang : Str → Option Str
  some_lang [] = none
  some_lang (c ∷ s) = some (c ∷ s)

  -- None where the file does not belong to the video.
  unfoldable pub match_name : Str → Str → Option Str
  unfolding lang_from_name
  match_name video_base sub_name =
      let s = stem sub_name in
      if not (str_eq (to_lower (ext sub_name)) (bytes ".srt"))
      then none
      else if str_eq s video_base
      then some []
      else if has_prefix s (video_base ++ bytes ".")
      then some_lang (lang_from_name sub_name)
      else none

  unfoldable pub sidecars : List Str → Str → List Sidecar
  unfolding match_name
  sidecars [] video_base = []
  sidecars (name ∷ entries) video_base =
      with_sidecar name (match_name video_base name) (sidecars entries video_base)

abbrev pub tail_parts : List Str → List Str
tail_parts [] = []
tail_parts (part ∷ parts) = parts

-- `strings.TrimSuffix(filepath.Base(name), filepath.Ext(name))`
unfoldable pub qualifiers : Str → List Str
qualifiers name =
    keep (contains sub_qualifiers)
      (map to_lower (tail_parts (split b'.' (trim_suffix (base_name name) (ext name)))))
