-- ===== src/Algorithm/Detect/Total.antt =====
-- `Detect` runs through on every valid input and accounts for every merged peak.
use gb_522_a16g.Base.{
  ℕ, zero, suc, ◌+◌, ◌*◌, ◌/◌, ◌≤◌, ◌<◌, ◌≡◌, refl, inl, inr, List, [], ◌∷◌, some, true, false,
  arith, leb, Bool-cases, ℤ, pos, ◌≤ℤ◌, ok, get_elem?-some, get_elem?-lt, length, length-drop, drop,
  All, All-imp,
}
use gb_522_a16g.Float.{Float64, zero_f}
use gb_522_a16g.Constants.{EventType, end}
use gb_522_a16g.Algorithm.Median.Laws.{median_total}
use gb_522_a16g.Algorithm.Distance.{sample_distance, valid_route_distance}
use gb_522_a16g.Algorithm.Distance.Laws.{sample_distance_total}
use gb_522_a16g.Algorithm.Detect.{
  Peak, DetectedEvent, estimate_noise_floor, derivative_peaks, merge_peaks, sample_before,
  peak_type, classification, classify_peak, events_from, detect,
}
use gb_522_a16g.Algorithm.Detect.Peaks.{IsPeakOf, derivative_peaks_lem}
use gb_522_a16g.Algorithm.Detect.Merge.{merge_peaks-IsSeparated}

module _ {F : Type 0} ⦃fl : Float64 F⦄ where
  open fl use {dec, lt, le}

  -- The peak has a sample before it and one at it.
  abbrev IsInside : List F → Peak F → Type 0
  IsInside points p = (0 < p.index) × (p.index < length points)

  -- The event stands at a sample of the trace, at that sample's distance, inside the route; in the
  -- last three samples it is the fibre end.
  abbrev pub IsEventOf : List F → F → F → F → DetectedEvent F → Type 0
  IsEventOf points interval refractive route_length e =
      (0 < e.index)
      × (e.index < length points)
      × (sample_distance (pos e.index) interval refractive ≡ ok e.distance_m)
      × (valid_route_distance e.distance_m route_length ≡ true)
      × (length points ≤ e.index + 3 → e.event_type ≡ end)

  -- The noise floor of at least 16 samples exists.
  pub estimate_noise_floor_total :
      (points : List F) → 16 ≤ length points → (n : F) × (estimate_noise_floor points ≡ ok n)
  unfolding estimate_noise_floor
  estimate_noise_floor_total points h =
      let start = length points * 4 / 5 in
      let (n, e) = median_total (drop start points) (omega (arith, length-drop start points)) in
      (n, ground arith)

  sample_before-pos : (points : List F) (i : ℕ) {a : F} → sample_before points i ≡ some a → 0 < i
  sample_before-pos points zero e = cc
  sample_before-pos points (suc i) e = omega arith

  sample_before-some :
      (points : List F) (i : ℕ)
      → 0 < i
      → i < length points
      → (a : F) × (sample_before points i ≡ some a)
  sample_before-some points zero lower upper = absurd (omega arith)
  sample_before-some points (suc i) lower upper = get_elem?-some points i (omega arith)

  IsPeakOf-IsInside :
      (points : List F) (threshold : F) (p : Peak F)
      → IsPeakOf points threshold p
      → IsInside points p
  IsPeakOf-IsInside points threshold p h =
      (sample_before-pos points p.index h.2, get_elem?-lt points p.index h.3)

  peak_type-end :
      (peak : Peak F) (count : ℕ) (threshold : F)
      → count ≤ peak.index + 3
      → peak_type peak count threshold ≡ end
  unfolding peak_type
  peak_type-end peak count threshold h =
      let near : leb count (peak.index + 3) ≡ true = ground arith in rw near

  classify_peak_total :
      (peak : Peak F) (points : List F) (noise threshold : F)
      → IsInside points peak
      → (r : EventType × F × F × F) × (classify_peak peak points noise threshold ≡ ok r)
        × (length points ≤ peak.index + 3 → r.0 ≡ end)
  unfolding classify_peak classification
  classify_peak_total peak points noise threshold (lower, upper) =
      let (before, eb) = sample_before-some points peak.index lower upper in
      let (after, ea) = get_elem?-some points peak.index upper in
      (
        classification peak (length points) before after noise threshold,
        rw (eb, ea) (refl),
        peak_type-end peak (length points) threshold,
      )

  events_from_total :
      (points : List F) (threshold interval refractive route_length noise : F)
      (peaks : List (Peak F))
      → le interval zero_f ≡ false
      → lt refractive (dec 13 1) ≡ false
      → lt (dec 17 1) refractive ≡ false
      → All (IsInside points) peaks
      → (events : List (DetectedEvent F)) × (rejected : ℕ) × (events_from points threshold interval
            refractive route_length noise peaks
          ≡ ok (events, rejected))
        × (length events + rejected ≡ length peaks)
        × All (IsEventOf points interval refractive route_length) events
  unfolding events_from
  events_from_total points threshold interval refractive route_length noise [] hi lo up all =
      ([], 0, refl, refl, tt)
  events_from_total points threshold interval refractive route_length noise (peak ∷ peaks) hi lo up
        (inside, all) =
      let (events, rejected, run, sum, good) =
        events_from_total points threshold interval refractive route_length noise peaks hi lo up
          all in
      let (d, ed) =
        (sample_distance_total (pos peak.index) interval refractive).1 (omega arith, hi, lo, up) in
      let (r, er, at_end) = classify_peak_total peak points noise threshold inside in
      elim (Bool-cases (valid_route_distance d route_length)) [
        | inl valid ↦ (
          record {
            index = peak.index;
            distance_m = d;
            event_type = r.0;
            insertion_loss_db = r.1;
            reflectance_db = r.2;
            confidence = r.3;
          }
              ∷ events,
          rejected,
          rw (ed, valid, er, run) (refl),
          omega (arith, sum),
          ((inside.0, inside.1, ed, valid, at_end), good),
        )
        | inr beyond ↦ (events, rejected + 1, rw (ed, beyond, run) (refl), omega (arith, sum), good)
      ]

  -- With at least 16 samples, a threshold, a merge window and an interval above zero and a refractive
  -- index from 1.3 to 1.7, `Detect` returns without error or panic; its events and its rejected count
  -- together account for every merged peak, and every event stands inside the trace and the route, at
  -- its sample's distance, with the fibre end in the last three samples.
  pub detect_total :
      (points : List F) (threshold : F) (window : ℤ) (interval refractive route_length : F)
      → 16 ≤ length points
      → le threshold zero_f ≡ false
      → pos 1 ≤ℤ window
      → le interval zero_f ≡ false
      → lt refractive (dec 13 1) ≡ false
      → lt (dec 17 1) refractive ≡ false
      → (peaks merged : List (Peak F)) × (events : List (DetectedEvent F)) × (rejected : ℕ)
        × (derivative_peaks points threshold ≡ ok peaks)
        × (merge_peaks peaks window ≡ ok merged)
        × (detect points threshold window interval refractive route_length ≡ ok (events, rejected))
        × (length events + rejected ≡ length merged)
        × All (IsEventOf points interval refractive route_length) events
  unfolding detect
  detect_total points threshold window interval refractive route_length n t w hi lo up =
      let (noise, en) = estimate_noise_floor_total points n in
      let (peaks, ep, ascending, none_at_0, jumps, of_points) =
        derivative_peaks_lem points threshold (omega arith) t in
      let inside =
        All-imp (IsPeakOf points threshold) (IsInside points) (IsPeakOf-IsInside points threshold)
          peaks of_points in
      let (merged, em, apart, kept, nonempty) =
        merge_peaks-IsSeparated (IsInside points) peaks window w ascending inside in
      let (events, rejected, run, sum, good) =
        events_from_total points threshold interval refractive route_length noise merged hi lo up
          kept in
      (peaks, merged, events, rejected, ep, em, rw (en, ep, em) run, sum, good)
