-- ===== src/Algorithm/Distance/Laws.antt =====
-- The distance of a sample grows with its index, and which arguments are refused.
use gb_522_a16g.Base.{ℕ, ◌≡◌, ◌≤◌, ◌↔◌, true, false, arith, ℤ, pos, negsuc, ◌≤ℤ◌, ok}
use gb_522_a16g.Float.{Float64, zero_f, IsFinite, IsMonotone}
use gb_522_a16g.Algorithm.Distance.{sample_distance, vacuum_speed_m_per_second, round_cents}

module _ {F : Type 0} ⦃fl : Float64 F⦄ where
  open fl use {dec, le, lt, is_nan, mul, of_ℕ}

  -- The length of fibre that light travels in half of the time.
  abbrev path : F → F → F
  path seconds refractive =
      fl.div (fl.mul vacuum_speed_m_per_second seconds) (fl.mul (dec 2 0) refractive)

  -- A distance is returned exactly for an index that is not negative, an interval that does not compare
  -- as at most zero and a refractive index that does not compare as outside 1.3 to 1.7; NaN passes both.
  pub sample_distance_total :
      (index : ℤ) (interval refractive : F)
      → ((d : F) × (sample_distance index interval refractive ≡ ok d)) ↔ (
          (pos 0 ≤ℤ index)
          × (le interval zero_f ≡ false)
          × (lt refractive (dec 13 1) ≡ false)
          × (lt (dec 17 1) refractive ≡ false))
  unfolding sample_distance
  sample_distance_total (pos i) interval refractive = (
    λ h. ground arith,
    λ h. (round_cents (path (mul (mul (of_ℕ i) interval) (dec 1 9)) refractive), ground arith),
  )
  sample_distance_total (negsuc i) interval refractive =
      (λ h. ground arith, λ h. absurd (omega arith))

  module _ (mono : IsMonotone F) where
    open mono use {
      of_ℕ_mono, mul_mono_left, mul_mono_right, div_mono, round_int_mono, dec_pos, dec_finite,
      double_pos, pos_of_not_le,
    }

    -- A later sample lies no nearer, for a finite interval and a refractive index that is a number.
    pub sample_distance_mono :
        (i j : ℕ) (interval refractive : F) {d e : F}
        → i ≤ j
        → IsFinite interval
        → is_nan refractive ≡ false
        → sample_distance (pos i) interval refractive ≡ ok d
        → sample_distance (pos j) interval refractive ≡ ok e
        → le d e ≡ true
    unfolding sample_distance
    sample_distance_mono i j interval refractive {d} {e} h fin num ed ee =
        let second : F = mul (mul (of_ℕ i) interval) (dec 1 9) in
        let second' : F = mul (mul (of_ℕ j) interval) (dec 1 9) in
        let positive = pos_of_not_le interval fin (ground arith) in
        let twice = double_pos refractive num (ground arith) (ground arith) in
        let nano = dec_pos 1 9 (omega arith) (omega arith) (omega arith) in
        let hundred = dec_pos 100 0 (omega arith) (omega arith) (omega arith) in
        let speed = dec_pos 299792458 0 (omega arith) (omega arith) (omega arith) in
        let a : le second second' ≡ true =
          mul_mono_left _ _ _ nano (dec_finite 1 9 (omega arith))
            (mul_mono_left _ _ _ positive fin (of_ℕ_mono i j h)) in
        let b : le (path second refractive) (path second' refractive) ≡ true =
          div_mono _ _ _ twice.0 twice.1
            (mul_mono_right _ _ _ speed (dec_finite 299792458 0 (omega arith)) a) in
        let c : le (round_cents (path second refractive)) (round_cents (path second' refractive))
            ≡ true =
          div_mono _ _ _ hundred (dec_finite 100 0 (omega arith))
            (round_int_mono _ _ (mul_mono_left _ _ _ hundred (dec_finite 100 0 (omega arith)) b)) in
        let ed' : round_cents (path second refractive) ≡ d = ground arith in
        let ee' : round_cents (path second' refractive) ≡ e = ground arith in rw (← ed', ← ee') c
