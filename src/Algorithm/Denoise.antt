-- ===== src/Algorithm/Denoise.antt =====
-- internal/algorithm/denoise.go: the moving median and the moving average.
pub mod Laws
use gb_522_a16g.Base.{
  ℕ, zero, suc, ◌+◌, ◌-◌, ◌/◌, ◌%◌, List, [], ◌∷◌, ◌==◌, ltb, leb, ◌||◌, if◌then◌else◌, ℤ, pos,
  pos_part, ltb_ℤ, Result, ok, errorf, bind, or_panic, fail_if, get_elem?, length, slice,
}
use gb_522_a16g.Float.{Float64, zero_f}
use gb_522_a16g.Algorithm.Median.{median}

-- An even window is widened by one.
abbrev pub odd_window : ℕ → ℕ
odd_window window = if window % 2 == 0 then window + 1 else window

module _ {F : Type 0} ⦃fl : Float64 F⦄ where
  open fl use {add, sub, div, of_ℕ}

  -- `points[start:end]` for sample `i`, with both ends clipped to the slice; `-` stops at 0.
  abbrev pub window_at : ℕ → List F → ℕ → List F
  window_at half points i =
      let end = i + half + 1 in
      slice (i - half) (if ltb (length points) end then length points else end) points

  -- The loop of `MovingMedian`, with `left` samples to go from sample `i`.
  unfoldable pub filter_from : ℕ → List F → ℕ → ℕ → Result (List F)
  filter_from half points zero i = ok []
  filter_from half points (suc left) i =
      bind (median (window_at half points i))
        λ m. bind (filter_from half points left (i + 1)) λ rest. ok (m ∷ rest)

  unfoldable pub moving_median : List F → ℤ → Result (List F)
  moving_median points window =
      bind (fail_if (ltb (length points) 3) (errorf "at least three samples are required")) λ _.
        bind
          (fail_if (ltb_ℤ window (pos 1) || ltb_ℤ (pos 31) window)
            (errorf "window must be between 1 and 31"))
          λ _. filter_from (odd_window (pos_part window) / 2) points (length points) 0

  -- The loop of `MovingAverage` from sample `i`, with the running sum.
  unfoldable pub average_from : ℕ → List F → List F → ℕ → F → Result (List F)
  average_from window points [] i sum = ok []
  average_from window points (point ∷ rest) i sum =
      let sum' = add sum point in
      bind
        (if leb window i
          then (bind (or_panic (get_elem? points (i - window))) λ old. ok (sub sum' old))
          else ok sum')
        λ sum''.
          bind (average_from window points rest (i + 1) sum'')
            λ out. ok (div sum'' (of_ℕ (if ltb window (i + 1) then window else i + 1)) ∷ out)

  unfoldable pub moving_average : List F → ℤ → Result (List F)
  moving_average points window =
      bind (fail_if (length points == 0) (errorf "samples are empty")) λ _.
        bind
          (fail_if (ltb_ℤ window (pos 1) || ltb_ℤ (pos (length points)) window)
            (errorf "invalid average window"))
          λ _. average_from (pos_part window) points points 0 zero_f
