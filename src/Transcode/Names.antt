-- ===== src/Transcode/Names.antt =====
-- internal/transcode/hls.go: the names of segments, written into a playlist and read in a request.
use file_fin.Prelude.{
  ℕ, suc, ◌+◌, ◌-◌, ◌≡◌, refl, true, false, [], ◌∷◌, ◌++◌, length, length-append, take-append,
  str_eq, str_eq_iff, Str, bytes, subst, some, List, get_elem?, zero, arith,
}
use native.Mathlib.Nat.{zero-add}
use file_fin.Strings.{itoa}
use file_fin.Strings.Decimal.{itoa-all_digits, itoa-ne-nil, atoi-itoa}
use file_fin.Strings.Paths.{cut_prefix, has_suffix, trim_suffix-append}
use file_fin.Transcode.{segment_file, segment_name, has_number, seg_index, entries_from}

has_suffix-append : (x : Str) (d : ℕ) (s : Str) → has_suffix (x ++ d ∷ s) (d ∷ s) ≡ true
unfolding has_suffix
has_suffix-append [] d s = ground (arith, str_eq_iff (d ∷ s) (d ∷ s))
has_suffix-append (c ∷ x) d s = ground (arith, has_suffix-append x d s)

ne-nil : (s : Str) → (s ≡ [] → ⊥) → str_eq s [] ≡ false
unfolding str_eq
ne-nil [] h = absurd (h refl)
ne-nil (c ∷ s) h = refl

segment_name-file : (i : ℕ) → segment_name (segment_file i) ≡ true
unfolding segment_name segment_file cut_prefix has_number
segment_name-file i =
    rw
      (
        has_suffix-append (itoa i) b'.' (bytes "ts"),
        trim_suffix-append (itoa i) (bytes ".ts"),
        ne-nil (itoa i) (itoa-ne-nil i),
        itoa-all_digits i,
      )
      refl

seg_index-file : (i : ℕ) → seg_index (segment_file i) ≡ i
unfolding seg_index segment_file
seg_index-file i =
    let size : length (itoa i ++ bytes ".ts") ≡ length (itoa i) + 3 =
      length-append (itoa i) (bytes ".ts") in
    let number : suc (suc (suc (length (itoa i ++ bytes ".ts")))) - 3 - 3 ≡ length (itoa i) =
      omega (arith, size) in
    rw (number, take-append (itoa i) (bytes ".ts"), atoi-itoa i) refl

entries_from-file :
    (n : ℕ) (segs : List ℕ) (i d : ℕ)
    → get_elem? segs i ≡ some d
    → get_elem? (entries_from n segs) i ≡ some (d, segment_file (n + i))
unfolding entries_from
entries_from-file n [] i d h = cc
entries_from-file n (x ∷ xs) zero d h = ground arith
entries_from-file n (x ∷ xs) (suc i) d h =
    let step : suc n + i ≡ n + suc i = omega arith in
    subst (λ (k : ℕ). get_elem? (entries_from (suc n) xs) i ≡ some (d, segment_file k)) step
      (entries_from-file (suc n) xs i d h)

-- A request for the name that a playlist lists for its segment i is accepted, and is read as a
-- request for segment i: the entry at i is the length of segment i with such a name.
pub seg_index-entry :
    (segs : List ℕ) (i d : ℕ)
    → get_elem? segs i ≡ some d
    → (name : Str) × (get_elem? (entries_from 0 segs) i ≡ some (d, name))
      × (segment_name name ≡ true)
      × (seg_index name ≡ i)
seg_index-entry segs i d h = (
  segment_file i,
  subst (λ (k : ℕ). get_elem? (entries_from 0 segs) i ≡ some (d, segment_file k)) (zero-add i)
      (entries_from-file 0 segs i d h),
  segment_name-file i,
  seg_index-file i,
)
