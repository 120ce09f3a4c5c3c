-- ===== src/Algorithm/Distance.antt =====
-- internal/algorithm/distance.go: from a sample's index to metres of fibre.
pub mod Laws
use gb_522_a16g.Base.{
  Bool, ◌&&◌, ◌||◌, not, ℤ, pos, pos_part, ltb_ℤ, Result, ok, errorf, bind, fail_if,
}
use gb_522_a16g.Float.{Float64, zero_f}

module _ {F : Type 0} ⦃fl : Float64 F⦄ where
  open fl use {dec, of_ℕ, le, lt, mul, div, round_int, is_nan, is_inf}

  abbrev pub vacuum_speed_m_per_second : F
  vacuum_speed_m_per_second = dec 299792458 0

  -- math.Round(x·100) / 100
  abbrev pub round_cents : F → F
  round_cents x = div (round_int (mul x (dec 100 0))) (dec 100 0)

  unfoldable pub sample_distance : ℤ → F → F → Result F
  sample_distance index sample_interval_ns refractive_index =
      bind (fail_if (ltb_ℤ index (pos 0)) (errorf "sample index cannot be negative")) λ _.
        bind (fail_if (le sample_interval_ns zero_f) (errorf "sample interval must be positive"))
          λ _.
            bind
              (fail_if (lt refractive_index (dec 13 1) || lt (dec 17 1) refractive_index)
                (errorf "refractive index outside 1.3-1.7"))
              λ _.
                let round_trip_seconds =
                  mul (mul (of_ℕ (pos_part index)) sample_interval_ns) (dec 1 9) in
                let distance =
                  div (mul vacuum_speed_m_per_second round_trip_seconds)
                    (mul (dec 2 0) refractive_index) in
                ok (round_cents distance)

  unfoldable pub valid_route_distance : F → F → Bool
  valid_route_distance distance route_length =
      not (is_nan distance)
      && not (is_inf distance)
      && le zero_f distance
      && le distance route_length

  unfoldable pub distance_uncertainty : F → F → ℤ → Result F
  distance_uncertainty sample_interval_ns refractive_index merge_window =
      bind (fail_if (ltb_ℤ merge_window (pos 1)) (errorf "merge window must be positive")) λ _.
        bind (sample_distance (pos 1) sample_interval_ns refractive_index)
          λ one_sample. ok (round_cents (mul one_sample (of_ℕ (pos_part merge_window))))
