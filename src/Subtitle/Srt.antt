-- ===== src/Subtitle/Srt.antt =====
-- internal/subtitle/subtitle.go: SRT rendered as WebVTT. The lines come without their ends, and the
-- digits of Unicode are a parameter. A line that the scanner's buffer cannot hold is not modelled.
use file_fin.Prelude.{
  ℕ, ◌≡◌, refl, ap, ◌∙◌, Bool, true, false, not, ◌&&◌, ◌||◌, Option, none, some, List, [], ◌∷◌,
  ◌++◌, map, any, ◌==◌, if◌then◌else◌, Bool-cases, inl, inr, Str, bytes, str_eq,
}
use file_fin.Strings.{trim_space}
use file_fin.Strings.Paths.{has_prefix}

-- `strings.Contains`
unfoldable pub contains_text : Str → Str → Bool
contains_text [] text = has_prefix [] text
contains_text (c ∷ s) text = has_prefix (c ∷ s) text || contains_text s text

-- The byte order mark in front of the first line.
unfoldable pub trim_mark : Str → Str
trim_mark [] = []
trim_mark (c ∷ s) = if c == 0xfeff then s else c ∷ s

abbrev pub first_line : List Str → List Str
first_line [] = []
first_line (line ∷ lines) = trim_mark line ∷ lines

unfoldable pub is_timing : Str → Bool
is_timing line = contains_text line (bytes "-->")

-- `strings.ReplaceAll(line, ",", ".")`
unfoldable pub dotted : Str → Str
dotted = map (λ c. if c == b',' then b'.' else c)

abbrev pub pending_line : Option Str → List Str
pending_line none = []
pending_line (some line) = line ∷ []

module _ (unicode_digit : ℕ → Bool) where
  unfoldable pub is_numeric_line : Str → Bool
  is_numeric_line line =
      let s = trim_space line in not (str_eq s []) && not (any (λ c. not (unicode_digit c)) s)

  -- The loop of `srtToVTT` with the number that it holds back, and the lines that it writes.
  unfoldable pub srt_from : Option Str → List Str → List Str
  unfolding is_numeric_line is_timing dotted
  srt_from pending [] = pending_line pending
  srt_from pending (line ∷ lines) =
      let timing = is_timing line in
      let number = is_numeric_line line in
      let rest = srt_from (if number then some line else none) lines in
      (if timing then [] else pending_line pending)
      ++ (if number then rest else (if timing then dotted line else line) ∷ rest)

  unfoldable pub srt_to_vtt : List Str → List Str
  unfolding srt_from trim_mark
  srt_to_vtt lines = bytes "WEBVTT" ∷ [] ∷ srt_from none (first_line lines)

  abbrev pub next_is_timing : List Str → Bool
  next_is_timing [] = false
  next_is_timing (line ∷ lines) = is_timing line

  -- What the comment of `srtToVTT` says, without a state: a numeric line goes where a timing line
  -- follows, the other timing lines get dots, and the rest stays.
  unfoldable pub rendered : List Str → List Str
  rendered [] = []
  rendered (line ∷ lines) =
      let rest = rendered lines in
      if is_numeric_line line
      then if next_is_timing lines then rest else line ∷ rest
      else (if is_timing line then dotted line else line) ∷ rest

  nothing_held : (b : Bool) (rest : List Str) → (if b then [] else pending_line none) ++ rest ≡ rest
  nothing_held true rest = refl
  nothing_held false rest = refl

  line_held :
      (b : Bool) (line : Str) (rest : List Str)
      → (if b then [] else pending_line (some line)) ++ rest ≡ (if b then rest else line ∷ rest)
  line_held true line rest = refl
  line_held false line rest = refl

  srt_from-rendered :
      (lines : List Str) (pending : Option Str)
      → srt_from pending lines
        ≡ (if next_is_timing lines then [] else pending_line pending) ++ rendered lines
  unfolding srt_from rendered
  srt_from-rendered [] none = refl
  srt_from-rendered [] (some p) = refl
  srt_from-rendered (line ∷ lines) pending =
      ap (λ (rest : List Str). (if is_timing line then [] else pending_line pending) ++ rest)
        (elim (Bool-cases (is_numeric_line line)) [
          | inl e ↦ rw e (
              rw (srt_from-rendered lines (some line))
                (line_held (next_is_timing lines) line (rendered lines)))
          | inr e ↦ rw e (
              rw
                (srt_from-rendered lines none, nothing_held (next_is_timing lines) (rendered lines))
                refl)
        ])

  -- The rendering of SRT is the one without a state, behind the two lines of the header: exactly the
  -- numeric lines in front of a timing line are dropped, the commas of the other timing lines are
  -- dots, and every other line is kept as it is and where it is.
  pub srt_to_vtt-rendered :
      (lines : List Str) → srt_to_vtt lines ≡ bytes "WEBVTT" ∷ [] ∷ rendered (first_line lines)
  unfolding srt_to_vtt
  srt_to_vtt-rendered lines =
      ap (λ (rest : List Str). bytes "WEBVTT" ∷ [] ∷ rest)
        (srt_from-rendered (first_line lines) none
          ∙ nothing_held (next_is_timing (first_line lines)) (rendered (first_line lines)))
