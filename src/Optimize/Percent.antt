-- ===== src/Optimize/Percent.antt =====
-- internal/optimize/optimize.go: what `onProgress` is called with.
use file_fin.Prelude.{
  ◌≡◌, false, Option, none, some, List, [], ◌∷◌, All, Str, Bool-cases, inl, inr, ℤ, pos, negsuc,
  ◌≤ℤ◌, eqb_ℤ, leb_ℤ, arith,
}
use file_fin.Optimize.{
  EncodeLine, out_time, finished, other, read_line, clamp_percent, progress_step, scan_from,
  scan_progress, report, last_percent,
}

-- Each is another than the one before it.
abbrev pub Moving : ℤ → List ℤ → Type 0
Moving last [] = Unit
Moving last (p ∷ ps) = (eqb_ℤ p last ≡ false) × Moving p ps

abbrev pub IsPercent : ℤ → Type 0
IsPercent p = (pos 0 ≤ℤ p) × (p ≤ℤ pos 100)

abbrev Good : ℤ → Option ℤ → Type 0
Good last none = Unit
Good last (some p) = IsPercent p × (eqb_ℤ p last ≡ false)

clamp_percent-IsPercent : (p : ℤ) → IsPercent (clamp_percent p)
unfolding clamp_percent
clamp_percent-IsPercent p = ground arith

progress_step-Good :
    (percent : ℤ → ℤ → ℤ) (duration last : ℤ) (line : EncodeLine)
    → Good last (progress_step percent duration last line)
unfolding progress_step
progress_step-Good percent duration last other = tt
progress_step-Good percent duration last finished = elim (Bool-cases (eqb_ℤ last (pos 100))) [
  | inl e ↦ rw e tt
  | inr e ↦ rw e (omega arith, ground arith)
]
progress_step-Good percent duration last (out_time us) =
    let p = clamp_percent (percent us duration) in
    let good = clamp_percent-IsPercent (percent us duration) in
    elim (Bool-cases (leb_ℤ duration (pos 0))) [
      | inl e ↦ rw e tt
      | inr e ↦
          rw e (elim (Bool-cases (eqb_ℤ p last)) [ inl e' ↦ rw e' tt | inr e' ↦ rw e' (good, e') ])
    ]

scan_from-Good :
    (percent : ℤ → ℤ → ℤ) (duration : ℤ) (lines : List Str) (last : ℤ)
    → All IsPercent (scan_from percent duration last lines)
      × Moving last (scan_from percent duration last lines)
unfolding scan_from
scan_from-Good percent duration [] last = (tt, tt)
scan_from-Good percent duration (text ∷ lines) last =
    let step = progress_step percent duration last (read_line text) in
    go step (progress_step-Good percent duration last (read_line text))
      (scan_from-Good percent duration lines (last_percent last step))
  where
    go :
        (step : Option ℤ)
        → Good last step
        → All IsPercent (scan_from percent duration (last_percent last step) lines)
          × Moving
              (last_percent last step)
              (scan_from percent duration (last_percent last step) lines)
        → All IsPercent (report step (scan_from percent duration (last_percent last step) lines))
          × Moving last (report step (scan_from percent duration (last_percent last step) lines))
    go none good h = h
    go (some p) good h = ((good.0, h.0), (good.1, h.1))

-- Whatever ffmpeg writes and however its times are turned into percents, every percent reported
-- lies between 0 and 100, none is reported twice in a row, and the first is not -1.
pub scan_progress-bounds :
    (percent : ℤ → ℤ → ℤ) (duration : ℤ) (lines : List Str)
    → All IsPercent (scan_progress percent duration lines)
      × Moving (negsuc 0) (scan_progress percent duration lines)
unfolding scan_progress
scan_progress-bounds percent duration lines = scan_from-Good percent duration lines (negsuc 0)
