-- ===== src/Algorithm/Denoise/Laws.antt =====
-- What the moving median promises: totality, length and range; and the totality of the average.
use gb_522_a16g.Base.{
  ℕ, zero, suc, ◌+◌, ◌-◌, ◌/◌, ◌≤◌, ◌<◌, ◌≡◌, false, leb, bind-eq-ok, ◌⊎◌, refl, List, [], ◌∷◌,
  arith, ltb, if◌then◌else◌, ℤ, pos, negsuc, pos_part, ◌≤ℤ◌, ok, err, errorf, get_elem?-some,
  length, length-slice, All, All-take, All-drop, take,
}
use gb_522_a16g.Float.{Float64, zero_f, Within, IsRounded}
use gb_522_a16g.Algorithm.Median.{median}
use gb_522_a16g.Algorithm.Median.Laws.{median_total, median-Within}
use gb_522_a16g.Algorithm.Denoise.{
  window_at, filter_from, odd_window, moving_median, average_from, moving_average,
}

module _ {F : Type 0} ⦃fl : Float64 F⦄ where
  open fl use {add, sub, is_inf}

  -- The window of a sample is never empty.
  window_at-nonempty :
      (half : ℕ) (points : List F) (i : ℕ)
      → i < length points
      → 0 < length (window_at half points i)
  window_at-nonempty half points i h =
      let end = if ltb (length points) (i + half + 1) then length points else i + half + 1 in
      ground (arith, length-slice (i - half) end points)

  filter_from_total :
      (half : ℕ) (points : List F) (left i : ℕ)
      → i + left ≡ length points
      → (out : List F) × (filter_from half points left i ≡ ok out) × (length out ≡ left)
  unfolding filter_from
  filter_from_total half points zero i h = ([], refl, refl)
  filter_from_total half points (suc left) i h =
      let (m, em) =
        median_total (window_at half points i) (window_at-nonempty half points i (omega arith)) in
      let (out, eo, lo) = filter_from_total half points left (i + 1) (omega arith) in
      (m ∷ out, rw (em, eo) (refl), omega (arith, lo))

  -- With at least three samples and a window from 1 to 31 the moving median returns one value for
  -- each sample, and never indexes out of range.
  pub moving_median_total :
      (points : List F) (window : ℤ)
      → 3 ≤ length points
      → pos 1 ≤ℤ window
      → window ≤ℤ pos 31
      → (out : List F) × (moving_median points window ≡ ok out) × (length out ≡ length points)
  unfolding moving_median
  moving_median_total points (pos w) h lo hi =
      let (out, eo, lo') =
        filter_from_total (odd_window w / 2) points (length points) 0 (omega arith) in
      (out, ground arith, lo')
  moving_median_total points (negsuc w) h lo hi = absurd (omega arith)

  -- Any other input is refused with an error.
  pub moving_median_refuses :
      (points : List F) (window : ℤ)
      → (length points < 3) ⊎ ¬ ((pos 1 ≤ℤ window) × (window ≤ℤ pos 31))
      → (moving_median points window ≡ err (errorf "at least three samples are required"))
        ⊎ (moving_median points window ≡ err (errorf "window must be between 1 and 31"))
  unfolding moving_median
  moving_median_refuses points window h = ground arith

  moving_median-runs :
      (points : List F) (window : ℤ) {out : List F}
      → moving_median points window ≡ ok out
      → filter_from (odd_window (pos_part window) / 2) points (length points) 0 ≡ ok out
  unfolding moving_median
  moving_median-runs points window e = ground arith

  module _ (rounded : IsRounded F) where
    filter_from-Within :
        (lo hi : F) (half : ℕ) (points : List F) (left i : ℕ) {out : List F}
        → is_inf (add lo lo) ≡ false
        → is_inf (add hi hi) ≡ false
        → All (Within lo hi) points
        → filter_from half points left i ≡ ok out
        → All (Within lo hi) out
    unfolding filter_from
    filter_from-Within lo hi half points zero i fin_lo fin_hi all e = ground arith
    filter_from-Within lo hi half points (suc left) i {out} fin_lo fin_hi all e =
        let end = if ltb (length points) (i + half + 1) then length points else i + half + 1 in
        let in_window =
          All-drop (Within lo hi) (i - half) (take end points)
            (All-take (Within lo hi) end points all) in
        let (m, em, more) = bind-eq-ok (median (window_at half points i)) _ e in
        let (rest, er, last) = bind-eq-ok (filter_from half points left (i + 1)) _ more in
        let whole : m ∷ rest ≡ out = cc in
        rw (← whole) (
          median-Within rounded lo hi (window_at half points i) fin_lo fin_hi in_window em,
          filter_from-Within lo hi half points left (i + 1) fin_lo fin_hi all er,
        )

    -- The moving median stays between bounds of the samples, if twice each bound is finite: a trace
    -- inside the dB range of an import stays inside it.
    pub moving_median-Within :
        (lo hi : F) (points : List F) (window : ℤ) {out : List F}
        → is_inf (add lo lo) ≡ false
        → is_inf (add hi hi) ≡ false
        → All (Within lo hi) points
        → moving_median points window ≡ ok out
        → All (Within lo hi) out
    moving_median-Within lo hi points window fin_lo fin_hi all e =
        filter_from-Within lo hi (odd_window (pos_part window) / 2) points (length points) 0 fin_lo
          fin_hi all (moving_median-runs points window e)

  average_from_total :
      (window : ℕ) (points rest : List F) (i : ℕ) (sum : F)
      → 0 < window
      → i + length rest ≡ length points
      → (out : List F) × (average_from window points rest i sum ≡ ok out)
        × (length out ≡ length rest)
  unfolding average_from
  average_from_total window points [] i sum h n = ([], refl, refl)
  average_from_total window points (point ∷ rest) i sum h n =
      let (old, eold) = get_elem?-some points (i - window) (omega arith) in
      let next = if leb window i then sub (add sum point) old else add sum point in
      let (out, eo, lo) = average_from_total window points rest (i + 1) next h (omega arith) in
      (
        fl.div next (fl.of_ℕ (if ltb window (i + 1) then window else i + 1)) ∷ out,
        ground arith,
        omega (arith, lo),
      )

  -- With a window from 1 to the number of samples the moving average returns one value for each
  -- sample, and never indexes out of range.
  pub moving_average_total :
      (points : List F) (window : ℤ)
      → pos 1 ≤ℤ window
      → window ≤ℤ pos (length points)
      → (out : List F) × (moving_average points window ≡ ok out) × (length out ≡ length points)
  unfolding moving_average
  moving_average_total points (pos w) lo hi =
      let (out, eo, lo') =
        average_from_total w points points 0 zero_f (omega arith) (omega arith) in
      (out, ground arith, lo')
  moving_average_total points (negsuc w) lo hi = absurd (omega arith)
