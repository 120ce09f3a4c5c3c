-- ===== src/Algorithm/Detect.antt =====
-- internal/algorithm/detect.go: noise floor, derivative peaks, merging and classification.
pub mod Peaks
pub mod Merge
pub mod Total
use gb_522_a16g.Base.{
  ℕ, zero, suc, ◌+◌, ◌*◌, ◌/◌, List, [], ◌∷◌, Option, none, ◌&&◌, not, ltb, leb, if◌then◌else◌, ℤ,
  pos, pos_part, ltb_ℤ, Result, ok, errorf, bind, or_panic, fail_if, get_elem?, length, drop,
}
use gb_522_a16g.Float.{Float64, zero_f}
use gb_522_a16g.Constants.{EventType, connector, splice, bend, break, end}
use gb_522_a16g.Algorithm.Median.{median}
use gb_522_a16g.Algorithm.Distance.{sample_distance, valid_route_distance}

pub record Peak (F : Type 0) : Type 0 where
  pub index : ℕ
  pub magnitude : F
  pub direction : F

pub record DetectedEvent (F : Type 0) : Type 0 where
  pub index : ℕ
  pub distance_m : F
  pub event_type : EventType
  pub insertion_loss_db : F
  pub reflectance_db : F
  pub confidence : F

module _ {F : Type 0} ⦃fl : Float64 F⦄ where
  open fl use {dec, of_ℕ, lt, le, add, sub, mul, div, abs, copysign, fmin, fmax, round_int}

  -- The median of the last fifth.
  unfoldable pub estimate_noise_floor : List F → Result F
  estimate_noise_floor points =
      bind
        (fail_if (ltb (length points) 16)
          (errorf "at least 16 samples are required for noise estimation"))
        λ _. median (drop (length points * 4 / 5) points)

  -- The loop of `DerivativePeaks`: `previous` is sample i - 1, the list begins at sample i.
  unfoldable pub peaks_from : F → F → ℕ → List F → List (Peak F)
  peaks_from threshold previous i [] = []
  peaks_from threshold previous i (point ∷ rest) =
      let delta = sub point previous in
      let peaks = peaks_from threshold point (i + 1) rest in
      if le threshold (abs delta)
      then record { index = i; magnitude = abs delta; direction = copysign (dec 1 0) delta } ∷ peaks
      else peaks

  all_peaks : F → List F → List (Peak F)
  all_peaks threshold [] = []
  all_peaks threshold (point ∷ rest) = peaks_from threshold point 1 rest

  unfoldable pub derivative_peaks : List F → F → Result (List (Peak F))
  unfolding all_peaks
  derivative_peaks points threshold =
      bind (fail_if (ltb (length points) 3) (errorf "at least three samples are required")) λ _.
        bind (fail_if (le threshold zero_f) (errorf "threshold must be positive"))
          λ _. ok (all_peaks threshold points)

  -- The loop of `MergePeaks`: the merged peaks from `current` on, its last `append` included.
  unfoldable pub merge_from : ℕ → Peak F → List (Peak F) → List (Peak F)
  merge_from window current [] = current ∷ []
  merge_from window current (peak ∷ rest) =
      let joined =
        merge_from window (if lt current.magnitude peak.magnitude then peak else current) rest in
      let apart = current ∷ merge_from window peak rest in
      if leb peak.index (current.index + window) then joined else apart

  merge_all : ℕ → List (Peak F) → List (Peak F)
  merge_all window [] = []
  merge_all window (peak ∷ rest) = merge_from window peak rest

  unfoldable pub merge_peaks : List (Peak F) → ℤ → Result (List (Peak F))
  unfolding merge_all
  merge_peaks peaks window =
      bind (fail_if (ltb_ℤ window (pos 1)) (errorf "merge window must be positive"))
        λ _. ok (merge_all (pos_part window) peaks)

  -- `points[i-1]`, which panics at 0.
  abbrev pub sample_before : List F → ℕ → Option F
  sample_before points zero = none
  sample_before points (suc i) = get_elem? points i

  abbrev pub round_milli : F → F
  round_milli value = div (round_int (mul value (dec 1000 0))) (dec 1000 0)

  -- The five assignments to `eventType`, the last one that applies wins.
  unfoldable pub peak_type : Peak F → ℕ → F → EventType
  peak_type peak count threshold =
      let strong = mul threshold (dec 15 1) in
      let t0 = if lt zero_f peak.direction && le strong peak.magnitude then connector else splice in
      let t1 =
        if lt peak.direction zero_f && le (mul threshold (dec 25 1)) peak.magnitude
        then break
        else t0 in
      let t2 = if lt peak.direction zero_f && lt peak.magnitude strong then bend else t1 in
      if leb count (peak.index + 3) then end else t2

  -- The results of `ClassifyPeak`, from the two samples that it reads.
  unfoldable pub classification : Peak F → ℕ → F → F → F → F → EventType × F × F × F
  classification peak count before after noise_floor threshold =
      let loss = fmax zero_f (sub before after) in
      let reflectance = sub (fmin before after) noise_floor in
      let confidence =
        fmin (dec 99 2) (add (dec 5 1) (div peak.magnitude (mul threshold (dec 10 0)))) in
      (
        peak_type peak count threshold,
        round_milli loss,
        round_milli reflectance,
        round_milli confidence,
      )

  unfoldable pub classify_peak : Peak F → List F → F → F → Result (EventType × F × F × F)
  classify_peak peak points noise_floor threshold =
      bind (or_panic (sample_before points peak.index)) λ before.
        bind (or_panic (get_elem? points peak.index))
          λ after. ok (classification peak (length points) before after noise_floor threshold)

  -- The loop of `Detect`: the events of the peaks, and how many peaks lie beyond the route.
  unfoldable pub events_from :
      List F → F → F → F → F → F → List (Peak F) → Result (List (DetectedEvent F) × ℕ)
  events_from points threshold interval refractive route_length noise [] = ok ([], 0)
  events_from points threshold interval refractive route_length noise (peak ∷ peaks) =
      bind (sample_distance (pos peak.index) interval refractive) λ distance.
        let later = events_from points threshold interval refractive route_length noise peaks in
        let kept =
          bind (classify_peak peak points noise threshold) λ (kind, loss, reflectance, confidence).
            bind later λ (events, rejected). ok (
              record {
                index = peak.index;
                distance_m = distance;
                event_type = kind;
                insertion_loss_db = loss;
                reflectance_db = reflectance;
                confidence = confidence;
              }
                  ∷ events,
              rejected,
            ) in
        let dropped = bind later λ (events, rejected). ok (events, rejected + 1) in
        if not (valid_route_distance distance route_length) then dropped else kept

  unfoldable pub detect : List F → F → ℤ → F → F → F → Result (List (DetectedEvent F) × ℕ)
  detect points threshold merge_window interval refractive route_length =
      bind (estimate_noise_floor points) λ noise. bind (derivative_peaks points threshold) λ peaks.
        bind (merge_peaks peaks merge_window)
          λ merged. events_from points threshold interval refractive route_length noise merged
