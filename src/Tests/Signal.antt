-- ===== src/Tests/Signal.antt =====
-- The signal algorithms on small traces.
use gb_522_a16g.Base.{
  ℕ, suc, ◌*◌, ◌/◌, ◌+◌, ◌<◌, ◌≤◌, ◌≡◌, ◌⊎◌, refl, inr, List, [], ◌∷◌, true, if◌then◌else◌, ℤ, pos,
  ok, err, errorf, length, All, count_if, sort_by, arith,
}
use gb_522_a16g.Float.{zero_f, float_less, Within}
use gb_522_a16g.Float.Fixed.{fixed, fixed-IsOrdered, fixed-IsRounded, fixed-IsMonotone}
use gb_522_a16g.Algorithm.Median.{median}
use gb_522_a16g.Algorithm.Median.Laws.{median_splits}
use gb_522_a16g.Algorithm.Denoise.{filter_from, moving_median}
use gb_522_a16g.Algorithm.Denoise.Laws.{
  moving_median_total, moving_median_refuses, moving_median-Within,
}
use gb_522_a16g.Algorithm.Distance.{sample_distance}
use gb_522_a16g.Algorithm.Distance.Laws.{sample_distance_mono}
use gb_522_a16g.Algorithm.Detect.{
  Peak, DetectedEvent, derivative_peaks, merge_from, merge_peaks, detect,
}
use gb_522_a16g.Algorithm.Detect.Peaks.{
  is_jump, count_at, IsAscending, IsPeakOf, derivative_peaks_lem,
}
use gb_522_a16g.Algorithm.Detect.Merge.{
  IsSeparated, IsBelow, merge_peaks-IsSeparated, merge_peaks_keeps_strongest,
}
use gb_522_a16g.Algorithm.Detect.Total.{IsEventOf, detect_total}
open fixed use {dec, lt, le, is_nan}

-- Thousandths.
abbrev milli : ℕ → ℤ
milli n = pos (n * 1_000_000_000)

abbrev samples : List ℤ
samples =
    milli 100
    ∷ milli 120
    ∷ milli 110
    ∷ milli 5000
    ∷ milli 90
    ∷ milli 100
    ∷ milli 130
    ∷ milli 120
    ∷ []

-- A quiet trace with a drop of 2.5 dB after its tenth sample.
abbrev trace : List ℤ
trace =
    milli 9000
    ∷ milli 9000
    ∷ milli 9000
    ∷ milli 9000
    ∷ milli 9000
    ∷ milli 9000
    ∷ milli 9000
    ∷ milli 9000
    ∷ milli 9000
    ∷ milli 9000
    ∷ milli 6500
    ∷ milli 6500
    ∷ milli 6500
    ∷ milli 6500
    ∷ milli 6500
    ∷ milli 6500
    ∷ milli 6500
    ∷ milli 6500
    ∷ milli 6500
    ∷ milli 6500
    ∷ []

median_splits_example :
    (count_if (λ x. float_less x (milli 120)) (milli 500 ∷ milli 100 ∷ milli 120 ∷ []) ≤ 3 / 2)
    × (count_if (λ x. float_less (milli 120) x) (milli 500 ∷ milli 100 ∷ milli 120 ∷ []) ≤ 3 / 2)
unfolding median sort_by
median_splits_example =
    median_splits fixed-IsOrdered (milli 500 ∷ milli 100 ∷ milli 120 ∷ []) refl refl

moving_median_total_example :
    (out : List ℤ) × (moving_median samples (pos 3) ≡ ok out) × (length out ≡ 8)
moving_median_total_example =
    moving_median_total samples (pos 3) (omega arith) (omega arith) (omega arith)

moving_median_refuses_example :
    (moving_median samples (pos 32) ≡ err (errorf "at least three samples are required"))
    ⊎ (moving_median samples (pos 32) ≡ err (errorf "window must be between 1 and 31"))
moving_median_refuses_example =
    moving_median_refuses samples (pos 32) (inr (λ h. absurd (omega arith)))

moving_median-Within_example :
    All (Within zero_f (milli 5000)) (milli 110 ∷ milli 110 ∷ milli 120 ∷ [])
unfolding moving_median median sort_by filter_from
moving_median-Within_example =
    moving_median-Within fixed-IsRounded zero_f (milli 5000)
      (milli 100 ∷ milli 120 ∷ milli 5000 ∷ []) (pos 3) refl refl
      ((refl, refl), ((refl, refl), ((refl, refl), tt))) refl

sample_distance_mono_example : le (milli 10210) (milli 51050) ≡ true
unfolding sample_distance
sample_distance_mono_example =
    sample_distance_mono fixed-IsMonotone 1 5 (dec 100 0) (dec 1468 3) (omega arith) (refl, refl)
      refl refl refl

derivative_peaks_example :
    (peaks : List (Peak ℤ)) × (derivative_peaks trace (dec 1 0) ≡ ok peaks)
    × IsAscending peaks
    × (count_at 0 peaks ≡ 0)
    × ((k : ℕ) → count_at (suc k) peaks ≡ (if is_jump (dec 1 0) trace k then 1 else 0))
    × All (IsPeakOf trace (dec 1 0)) peaks
derivative_peaks_example = derivative_peaks_lem trace (dec 1 0) (omega arith) refl

abbrev jump_at : ℕ → ℕ → Peak ℤ
jump_at index size = record { index = index; magnitude = milli size; direction = pos 1 }

abbrev jumps : List (Peak ℤ)
jumps = jump_at 3 1500 ∷ jump_at 4 2500 ∷ jump_at 9 1200 ∷ []

merge_peaks-IsSeparated_example :
    (merged : List (Peak ℤ)) × (merge_peaks jumps (pos 2) ≡ ok merged)
    × IsSeparated 2 merged
    × All (λ (p : Peak ℤ). p.index < 10) merged
    × (0 < 3 → 0 < length merged)
merge_peaks-IsSeparated_example =
    merge_peaks-IsSeparated (λ (p : Peak ℤ). p.index < 10) jumps (pos 2) (omega arith)
      ((omega arith, (omega arith, tt)), ((omega arith, tt), (tt, tt)))
      (omega arith, (omega arith, (omega arith, tt)))

merge_peaks_keeps_strongest_example : All (IsBelow (milli 2500)) jumps
unfolding merge_peaks merge_from
merge_peaks_keeps_strongest_example =
    merge_peaks_keeps_strongest fixed-IsOrdered (milli 2500) jumps (pos 2) refl
      (refl, (refl, (refl, tt))) refl (refl, (refl, tt))

detect_total_example :
    (peaks merged : List (Peak ℤ)) × (events : List (DetectedEvent ℤ)) × (rejected : ℕ)
    × (derivative_peaks trace (dec 1 0) ≡ ok peaks)
    × (merge_peaks peaks (pos 2) ≡ ok merged)
    × (detect trace (dec 1 0) (pos 2) (dec 100 0) (dec 1468 3) (dec 1000 0) ≡ ok (events, rejected))
    × (length events + rejected ≡ length merged)
    × All (IsEventOf trace (dec 100 0) (dec 1468 3) (dec 1000 0)) events
detect_total_example =
    detect_total trace (dec 1 0) (pos 2) (dec 100 0) (dec 1468 3) (dec 1000 0) (omega arith) refl
      (omega arith) refl refl refl
