-- ===== src/Subtitle/Ass.antt =====
-- internal/subtitle/subtitle.go: ASS rendered as WebVTT, a line of the script at a time. Case is that
-- of ASCII. Of `fmt.Sscanf` the verb `%d` is what is needed: blanks, a sign and digits; what stands
-- behind the last number of a time is not looked at.
use file_fin.Prelude.{
  ℕ, zero, suc, ◌+◌, ◌-◌, ◌*◌, ◌/◌, ◌%◌, Bool, true, false, not, ◌&&◌, ◌||◌, Option, none, some,
  List, [], ◌∷◌, ◌++◌, any, length, get_or, drop, ltb, leb, ◌==◌, if◌then◌else◌, Str, bytes, str_eq,
  ℤ, pos, negsuc,
}
use mathlib.Core.List.{reverse}
use file_fin.Strings.{trim_space, split, join, itoa, is_digit, prepend}
use file_fin.Strings.Paths.{to_lower, has_prefix}
use file_fin.Subtitle.Srt.{trim_mark, contains_text}

abbrev pub markers : List Str
markers =
    bytes "[script info]"
    ∷ bytes "[v4 styles]"
    ∷ bytes "[v4+ styles]"
    ∷ bytes "[events]"
    ∷ bytes "\ndialogue:"
    ∷ []

-- Over the opening of a file.
unfoldable pub is_ass : Str → Bool
unfolding trim_mark contains_text to_lower has_prefix
is_ass head =
    let s = to_lower (trim_mark head) in
    any (contains_text s) markers || has_prefix s (bytes "dialogue:")

-- `\{[^}]*\}` taken out. What is held stands, backwards, behind a brace that is still open.
unfoldable pub strip_overrides : Option Str → Str → Str
strip_overrides none [] = []
strip_overrides (some held) [] = reverse held
strip_overrides none (c ∷ s) =
    let inside = strip_overrides (some (c ∷ [])) s in
    let outside = strip_overrides none s in if c == b'{' then inside else c ∷ outside
strip_overrides (some held) (c ∷ s) =
    let closed = strip_overrides none s in
    let open_still = strip_overrides (some (c ∷ held)) s in if c == b'}' then closed else open_still

-- `strings.ReplaceAll` of a backslash with a letter behind it. The flag says that a backslash is
-- held.
unfoldable pub replace_escape : ℕ → ℕ → Bool → Str → Str
replace_escape letter out false [] = []
replace_escape letter out true [] = b'\\' ∷ []
replace_escape letter out false (c ∷ s) =
    let rest = replace_escape letter out (c == b'\\') s in if c == b'\\' then rest else c ∷ rest
replace_escape letter out true (c ∷ s) =
    let rest = replace_escape letter out (c == b'\\') s in
    if c == letter then out ∷ rest else if c == b'\\' then b'\\' ∷ rest else b'\\' ∷ c ∷ rest

-- `strings.ReplaceAll` of one character
unfoldable pub replace_char : ℕ → Str → Str → Str
replace_char old new [] = []
replace_char old new (c ∷ s) =
    let rest = replace_char old new s in if c == old then new ++ rest else c ∷ rest

unfoldable pub kept_lines : List Str → List Str
kept_lines [] = []
kept_lines (l ∷ ls) =
    let t = trim_space l in if str_eq t [] then kept_lines ls else t ∷ kept_lines ls

unfoldable pub ass_lines : Str → List Str
unfolding strip_overrides replace_escape replace_char kept_lines
ass_lines s =
    let plain = replace_escape b'h' b' ' false (strip_overrides none s) in
    let amp = replace_char b'&' (bytes "&amp;") plain in
    let lt = replace_char b'<' (bytes "&lt;") amp in
    let gt = replace_char b'>' (bytes "&gt;") lt in
    let hard = replace_escape b'N' b'\n' false gt in
    kept_lines (split b'\n' (replace_escape b'n' b'\n' false hard))

unfoldable pub ass_text : Str → Str
unfolding ass_lines
ass_text s = join (bytes "\n") (ass_lines s)

-- The digits in front of a text as a number, with the rest.
unfoldable pub take_digits : ℕ → Str → ℕ × Str
take_digits n [] = (n, [])
take_digits n (c ∷ s) =
    let rest = take_digits (n * 10 + (c - b'0')) s in if is_digit c then rest else (n, c ∷ s)

abbrev pub minus : ℕ → ℤ
minus zero = pos 0
minus (suc n) = negsuc n

unfoldable pub scan_digits : Bool → Str → Option (ℤ × Str)
unfolding take_digits
scan_digits negative [] = none
scan_digits negative (c ∷ s) =
    let read = take_digits 0 (c ∷ s) in
    if is_digit c then some (if negative then minus read.0 else pos read.0, read.1) else none

unfoldable pub skip_blanks : Str → Str
skip_blanks [] = []
skip_blanks (c ∷ s) = if c == b' ' || c == b'\t' then skip_blanks s else c ∷ s

abbrev pub signed_digits : Str → Option (ℤ × Str)
signed_digits [] = none
signed_digits (c ∷ s) =
    if c == b'-'
    then scan_digits true s
    else if c == b'+'
    then scan_digits false s
    else scan_digits false (c ∷ s)

-- `%d`
unfoldable pub scan_int : Str → Option (ℤ × Str)
unfolding scan_digits skip_blanks
scan_int s = signed_digits (skip_blanks s)

-- A number that is not negative, and the rest behind a separator.
abbrev pub behind : ℕ → Option (ℤ × Str) → Option (ℕ × Str)
behind sep (some (pos n, c ∷ s)) = if c == sep then some (n, s) else none
behind sep _ = none

abbrev pub last_number : Option (ℤ × Str) → Option ℕ
last_number (some (pos n, s)) = some n
last_number _ = none

infixl 5 ◌>>=◌
abbrev pub ◌>>=◌ {ℓ κ} : {A : Type ℓ} {B : Type κ} → Option A → (A → Option B) → Option B
none >>= f = none
some a >>= f = f a

-- None where the time cannot be read or a part of it is negative.
unfoldable pub ass_time : Str → Option ℕ
unfolding scan_int
ass_time s = do
  (h, rest) ← behind b':' (scan_int (trim_space s))
  (m, rest') ← behind b':' (scan_int rest)
  (sec, rest'') ← behind b'.' (scan_int rest')
  cs ← last_number (scan_int rest'')
  some (((h * 60 + m) * 60 + sec) * 100 + cs)

abbrev two : ℕ → Str
two n = if ltb n 10 then b'0' ∷ itoa n else itoa n

abbrev three : ℕ → Str
three n = (b'0' + n / 100) ∷ (b'0' + n / 10 % 10) ∷ (b'0' + n % 10) ∷ []

unfoldable pub vtt_time : ℕ → Str
vtt_time cs =
    let ms = cs * 10 in
    let h = ms / 3600000 in
    let in_hour = ms % 3600000 in
    let m = in_hour / 60000 in
    let in_minute = in_hour % 60000 in
    two h ++ (b':' ∷ two m ++ (b':' ∷ two (in_minute / 1000) ++ (b'.' ∷ three (in_minute % 1000))))

pub record Cue : Type 0 where
  pub begins : ℕ
  pub ends : ℕ
  pub text : Str

-- The places of the fields Start, End and Text, and the number of fields.
pub record Order : Type 0 where
  pub start_idx : ℕ
  pub end_idx : ℕ
  pub text_idx : ℕ
  pub fields : ℕ

unfoldable pub ass_default_format : Order
ass_default_format = record { start_idx = 1; end_idx = 2; text_idx = 9; fields = 10 }

abbrev pub numbered_fields : ℕ → (Str → Bool) → Option ℕ → List Str → Option ℕ
numbered_fields i test found [] = found
numbered_fields i test found (n ∷ names) =
    numbered_fields (suc i) test (if test (to_lower (trim_space n)) then some i else found) names

-- The last place of a field's name, none where it is missing.
unfoldable pub place_of : Str → List Str → Option ℕ
place_of name names = numbered_fields 0 (λ n. str_eq n name) none names

abbrev pub place_or : Option ℕ → ℕ → ℕ
place_or none other = other
place_or (some i) other = i

abbrev pub ordered : ℕ → ℕ → Option ℕ → Option ℕ → Order
ordered text count none e = ass_default_format
ordered text count (some b) none = ass_default_format
ordered text count (some b) (some e) =
    if ltb count 2
    then ass_default_format
    else record { start_idx = b; end_idx = e; text_idx = text; fields = count }

unfoldable pub ass_format : Str → Order
unfolding place_of ass_default_format
ass_format list =
    let names = split b',' list in
    ordered (place_or (place_of (bytes "text") names) (length names - 1)) (length names)
      (place_of (bytes "start") names) (place_of (bytes "end") names)

-- `cutPrefixFold`, for a prefix in lower case
unfoldable pub cut_prefix_fold : Str → Str → Option Str
cut_prefix_fold s prefix =
    if has_prefix (to_lower s) prefix then some (trim_space (drop (length prefix) s)) else none

-- `strings.SplitN` at a separator of one character, into at least one part
unfoldable pub split_n : ℕ → ℕ → Str → List Str
split_n sep n [] = [] ∷ []
split_n sep n (c ∷ s) =
    let cut = c == sep && ltb 1 n in
    let rest = split_n sep (if cut then n - 1 else n) s in if cut then [] ∷ rest else prepend c rest

abbrev pub cue_of : Option ℕ → Option ℕ → Str → Option Cue
cue_of none e text = none
cue_of (some b) none text = none
cue_of (some b) (some e) text =
    if leb e b || str_eq text [] then none else some (record { begins = b; ends = e; text = text })

-- The cue of a dialogue line, none where the line is dropped.
unfoldable pub dialogue : Order → Str → Option Cue
unfolding split_n ass_time ass_text
dialogue o rest =
    let parts = split_n b',' o.fields rest in
    if ltb (length parts) o.fields || leb (length parts) o.text_idx
    then none
    else cue_of (ass_time (get_or parts o.start_idx [])) (ass_time (get_or parts o.end_idx []))
        (ass_text (get_or parts o.text_idx []))

pub record AssScript : Type 0 where
  pub in_events : Bool
  pub order : Order
  pub cues : List Cue

abbrev pub add_cue : AssScript → Option Cue → AssScript
add_cue st none = st
add_cue st (some cue) = record st { cues = st.cues ++ cue ∷ [] }

abbrev pub dialogue_line : AssScript → Option Str → AssScript
dialogue_line st none = st
dialogue_line st (some rest) = add_cue st (dialogue st.order rest)

abbrev pub event_line : AssScript → Str → Option Str → AssScript
event_line st line none = dialogue_line st (cut_prefix_fold line (bytes "dialogue:"))
event_line st line (some rest) = record st { order = ass_format rest }

-- One turn of the loop of `assToVTT`, on a line whose mark is off.
unfoldable pub script_line : AssScript → Str → AssScript
unfolding dialogue ass_format cut_prefix_fold
script_line st text =
    let line = trim_space text in
    if has_prefix line (bytes "[")
    then record st { in_events = str_eq (to_lower line) (bytes "[events]") }
    else if not st.in_events
    then st
    else event_line st line (cut_prefix_fold line (bytes "format:"))

unfoldable pub script_from : AssScript → List Str → AssScript
unfolding script_line
script_from st [] = st
script_from st (line ∷ lines) = script_from (script_line st line) lines

unfoldable pub insert_cue : Cue → List Cue → List Cue
insert_cue c [] = c ∷ []
insert_cue c (d ∷ cs) = if ltb d.begins c.begins then d ∷ insert_cue c cs else c ∷ d ∷ cs

-- `sort.SliceStable` by the start
unfoldable pub sort_cues : List Cue → List Cue
unfolding insert_cue
sort_cues [] = []
sort_cues (c ∷ cs) = insert_cue c (sort_cues cs)

unfoldable pub write_cues : List Cue → Str
unfolding vtt_time
write_cues [] = []
write_cues (c ∷ cs) =
    vtt_time c.begins
    ++ (bytes " --> " ++ (vtt_time c.ends ++ (b'\n' ∷ c.text ++ (bytes "\n\n" ++ write_cues cs))))

abbrev pub marked : List Str → List Str
marked [] = []
marked (line ∷ lines) = trim_mark line ∷ lines

-- The cues of a script, in the order in which they are written.
unfoldable pub ass_cues : List Str → List Cue
unfolding script_from sort_cues
ass_cues lines =
    sort_cues
      (script_from (record { in_events = false; order = ass_default_format; cues = [] })
        (marked lines)).cues

unfoldable pub ass_to_vtt : List Str → Str
unfolding ass_cues write_cues
ass_to_vtt lines = bytes "WEBVTT\n\n" ++ write_cues (ass_cues lines)
