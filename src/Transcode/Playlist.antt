-- ===== src/Transcode/Playlist.antt =====
-- internal/transcode/hls.go: what the lengths in a playlist add up to, and its target duration.
use file_fin.Prelude.{
  ℕ, zero, suc, ◌+◌, ◌-◌, ◌*◌, ◌≤◌, ◌<◌, max, ◌≡◌, ◌⊎◌, inl, inr, refl, true, false, [], ◌∷◌, List,
  All, sum, sum-append, replicate, set, if◌then◌else◌, leb, ltb, Bool-cases, get_elem?, some, arith,
}
use file_fin.Transcode.{
  segment_millis, segment_seconds, grid_segments, grid_count, remux_segments, remux_cuts,
  ceil_seconds, raise_target, target_duration,
}

sum-set : (n x r : ℕ) → sum (set (replicate (suc n) x) n r) ≡ n * x + r
sum-set zero x r = omega arith
sum-set (suc n) x r = grind (arith, sum-set n x r)

grid_of :
    (m duration : ℕ)
    → 0 < duration - segment_millis * m
    → (let segs = replicate (suc m) segment_millis in
        let rem = duration - segment_millis * (suc m - 1) in
        sum (if ltb 0 rem then set segs (suc m - 1) rem else segs))
      ≡ duration
grid_of m duration h =
    let back : suc m - 1 ≡ m = omega arith in
    let rest : ltb 0 (duration - segment_millis * m) ≡ true = ground arith in
    rw (back, rest, sum-set m segment_millis (duration - segment_millis * m)) (omega arith)

-- The grid of a known duration adds up to the duration.
pub sum-grid_segments : (duration : ℕ) → 0 < duration → sum (grid_segments duration) ≡ duration
unfolding grid_segments
sum-grid_segments duration h =
    let m = grid_count duration - 1 in
    let count : grid_count duration ≡ suc m = unfold grid_count in grind arith in
    let rest : 0 < duration - segment_millis * m = unfold grid_count in grind arith in
    rw count (grid_of m duration rest)

abbrev pub Ascending : ℕ → List ℕ → Type 0
Ascending p [] = Unit
Ascending p (k ∷ ks) = (p ≤ k) × Ascending k ks

-- The times at which the segments end.
abbrev pub ends : ℕ → List ℕ → List ℕ
ends prev [] = []
ends prev (d ∷ ds) = (prev + d) ∷ ends (prev + d) ds

-- End n + i lies at least n + i + 1 times the segment's length past the start.
abbrev pub Late : ℕ → ℕ → List ℕ → Type 0
Late start n [] = Unit
Late start n (e ∷ es) = (start + segment_millis * (n + 1) ≤ e) × Late start (n + 1) es

remux_cuts-sum :
    (start p prev made : ℕ) (ks : List ℕ)
    → prev ≤ p
    → Ascending p ks
    → sum (remux_cuts start prev made ks).0 + prev ≡ (remux_cuts start prev made ks).1
unfolding remux_cuts
remux_cuts-sum start p prev made [] h a = omega arith
remux_cuts-sum start p prev made (k ∷ ks) h a =
    elim (Bool-cases (leb (segment_millis * (made + 1)) (k - start))) [
      | inl e ↦ rw e (omega (arith, remux_cuts-sum start k k (made + 1) ks (omega arith) a.1))
      | inr e ↦ rw e (remux_cuts-sum start k prev made ks (omega arith) a.1)
    ]

remux_cuts-Late :
    (start p prev made : ℕ) (ks : List ℕ)
    → prev ≤ p
    → Ascending p ks
    → Late start made (ends prev (remux_cuts start prev made ks).0)
unfolding remux_cuts
remux_cuts-Late start p prev made [] h a = tt
remux_cuts-Late start p prev made (k ∷ ks) h a =
    elim (Bool-cases (leb (segment_millis * (made + 1)) (k - start))) [
      | inl e ↦ rw e (
          let same : prev + (k - prev) ≡ k = omega (arith, a.0) in
          rw same (ground arith, remux_cuts-Late start k k (made + 1) ks (omega arith) a.1))
      | inr e ↦ rw e (remux_cuts-Late start k prev made ks (omega arith) a.1)
    ]

-- Where ffprobe gives the key frames in ascending order and the duration lies past the last cut,
-- the segments of a stream copy add up to the duration, and segment n does not end before n + 1
-- times six seconds past the first key frame.
pub sum-remux_segments :
    (start : ℕ) (ks : List ℕ) (duration : ℕ)
    → Ascending start ks
    → (remux_cuts start start 0 ks).1 - start < duration
    → (sum (remux_segments start ks duration) ≡ duration)
      × Late start 0 (ends start (remux_cuts start start 0 ks).0)
unfolding remux_segments
sum-remux_segments start ks duration a h =
    let cuts = remux_cuts start start 0 ks in
    let last = duration - (cuts.1 - start) in
    let some_left : leb last 0 ≡ false = ground arith in
    (
      rw (some_left, sum-append cuts.0 (last ∷ []))
          (omega (arith, remux_cuts-sum start start start 0 ks (omega arith) a)),
      remux_cuts-Late start start start 0 ks (omega arith) a,
    )

raise_target-le : (target : ℕ) (ds : List ℕ) → target ≤ raise_target target ds
unfolding raise_target
raise_target-le target [] = omega arith
raise_target-le target (d ∷ ds) = omega (arith, raise_target-le (max target (ceil_seconds d)) ds)

raise_target-All : (target : ℕ) (ds : List ℕ) → All (λ d. d ≤ 1000 * raise_target target ds) ds
unfolding raise_target
raise_target-All target [] = tt
raise_target-All target (d ∷ ds) =
    let target' = max target (ceil_seconds d) in
    (unfold ceil_seconds in omega (arith, raise_target-le target' ds), raise_target-All target' ds)

-- The target is where it started, or it is a length rounded up.
abbrev pub Reached : ℕ → ℕ → List ℕ → Type 0
Reached target result ds =
    (result ≡ target) ⊎ ((i : ℕ) × (d : ℕ) × (get_elem? ds i ≡ some d) × (result ≡ ceil_seconds d))

raise_target-Reached : (target : ℕ) (ds : List ℕ) → Reached target (raise_target target ds) ds
unfolding raise_target
raise_target-Reached target [] = inl refl
raise_target-Reached target (d ∷ ds) =
    elim (raise_target-Reached (max target (ceil_seconds d)) ds) [
      | inl e ↦ elim (Bool-cases (leb (ceil_seconds d) target)) [
        | inl small ↦ inl (ground arith)
        | inr large ↦ inr (0, d, refl, ground arith)
      ]
      | inr (i, d', found, e) ↦ inr (suc i, d', found, e)
    ]

-- The target duration of a playlist is at least six seconds, no segment is longer than it, and it is
-- six seconds or the length of one of the segments in seconds, rounded up.
pub target_duration_bounds :
    (segs : List ℕ)
    → (segment_seconds ≤ target_duration segs)
      × All (λ d. d ≤ 1000 * target_duration segs) segs
      × Reached segment_seconds (target_duration segs) segs
unfolding target_duration
target_duration_bounds segs = (
  raise_target-le segment_seconds segs,
  raise_target-All segment_seconds segs,
  raise_target-Reached segment_seconds segs,
)
