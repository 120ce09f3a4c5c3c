-- ===== src/Algorithm/Detect/Peaks.antt =====
-- `DerivativePeaks` finds each jump of the trace once, in order, and nothing else.
use gb_522_a16g.Base.{
  ℕ, zero, suc, ◌+◌, ◌≤◌, ◌<◌, ◌≡◌, refl, inl, inr, List, [], ◌∷◌, none, some, Bool, true, false,
  arith, Bool-cases, ◌==◌, if◌then◌else◌, ok, get_elem?, length, All, All-imp, count_if,
}
use gb_522_a16g.Float.{Float64, zero_f}
use gb_522_a16g.Algorithm.Detect.{Peak, peaks_from, derivative_peaks, sample_before}

module _ {F : Type 0} ⦃fl : Float64 F⦄ where
  open fl use {dec, lt, le, sub, abs, copysign}

  -- The step from sample k to sample k + 1 reaches the threshold.
  abbrev pub is_jump : F → List F → ℕ → Bool
  is_jump threshold points k = elim (get_elem? points k) [
    | none ↦ false
    | some a ↦ elim (get_elem? points (suc k)) [
      | none ↦ false
      | some b ↦ le threshold (abs (sub b a))
    ]
  ]

  abbrev pub count_at : ℕ → List (Peak F) → ℕ
  count_at i peaks = count_if (λ p. p.index == i) peaks

  -- Strictly rising indices.
  abbrev pub IsAscending : List (Peak F) → Type 0
  IsAscending [] = Unit
  IsAscending (p ∷ ps) = All (λ (q : Peak F). p.index < q.index) ps × IsAscending ps

  -- The peak records the step that ends at its index, and that step reaches the threshold.
  abbrev pub IsPeakOf : List F → F → Peak F → Type 0
  IsPeakOf points threshold p =
      (a : F) × (b : F) × (sample_before points p.index ≡ some a)
      × (get_elem? points p.index ≡ some b)
      × (p.magnitude ≡ abs (sub b a))
      × (p.direction ≡ copysign (dec 1 0) (sub b a))
      × (le threshold (abs (sub b a)) ≡ true)

  peaks_from_above :
      (threshold previous : F) (i : ℕ) (rest : List F)
      → All (λ (p : Peak F). i ≤ p.index) (peaks_from threshold previous i rest)
  unfolding peaks_from
  peaks_from_above threshold previous i [] = tt
  peaks_from_above threshold previous i (point ∷ rest) =
      let later =
        All-imp (λ (p : Peak F). i + 1 ≤ p.index) (λ (p : Peak F). i ≤ p.index) (λ p h. omega arith)
          (peaks_from threshold point (i + 1) rest)
          (peaks_from_above threshold point (i + 1) rest) in
      elim (Bool-cases (le threshold (abs (sub point previous)))) [
        | inl e ↦ rw e (omega arith, later)
        | inr e ↦ rw e later
      ]

  count_at-above :
      (i j : ℕ) (ps : List (Peak F))
      → j < i
      → All (λ (p : Peak F). i ≤ p.index) ps
      → count_at j ps ≡ 0
  count_at-above i j [] h a = refl
  count_at-above i j (p ∷ ps) h (a, as') = ground (arith, count_at-above i j ps h as')

  count_at-peaks_from :
      (threshold previous : F) (i : ℕ) (rest : List F) (k : ℕ)
      → count_at (i + k) (peaks_from threshold previous i rest)
        ≡ (if is_jump threshold (previous ∷ rest) k then 1 else 0)
  unfolding peaks_from
  count_at-peaks_from threshold previous i [] zero = refl
  count_at-peaks_from threshold previous i [] (suc k) = refl
  count_at-peaks_from threshold previous i (point ∷ rest) zero =
      let later =
        count_at-above (i + 1) (i + 0) (peaks_from threshold point (i + 1) rest) (omega arith)
          (peaks_from_above threshold point (i + 1) rest) in
      ground (arith, later)
  count_at-peaks_from threshold previous i (point ∷ rest) (suc k) =
      let shift : i + suc k ≡ i + 1 + k = omega arith in
      rw shift (ground (arith, count_at-peaks_from threshold point (i + 1) rest k))

  peaks_from-IsAscending :
      (threshold previous : F) (i : ℕ) (rest : List F)
      → IsAscending (peaks_from threshold previous i rest)
  unfolding peaks_from
  peaks_from-IsAscending threshold previous i [] = tt
  peaks_from-IsAscending threshold previous i (point ∷ rest) =
      let above =
        All-imp (λ (p : Peak F). i + 1 ≤ p.index) (λ (p : Peak F). i < p.index) (λ p h. omega arith)
          (peaks_from threshold point (i + 1) rest)
          (peaks_from_above threshold point (i + 1) rest) in
      elim (Bool-cases (le threshold (abs (sub point previous)))) [
        | inl e ↦ rw e (above, peaks_from-IsAscending threshold point (i + 1) rest)
        | inr e ↦ rw e (peaks_from-IsAscending threshold point (i + 1) rest)
      ]

  peaks_from-IsPeakOf :
      (points : List F) (threshold previous : F) (i : ℕ) (rest : List F)
      → get_elem? points i ≡ some previous
      → ((k : ℕ) → get_elem? points (suc i + k) ≡ get_elem? rest k)
      → All (IsPeakOf points threshold) (peaks_from threshold previous (suc i) rest)
  unfolding peaks_from
  peaks_from-IsPeakOf points threshold previous i [] at link = tt
  peaks_from-IsPeakOf points threshold previous i (point ∷ rest) at link =
      let zeroed : suc i + 0 ≡ suc i = omega arith in
      let here : get_elem? points (suc i) ≡ some point = rw zeroed at (link 0) in
      let next : suc i + 1 ≡ suc (suc i) = omega arith in
      let later =
        peaks_from-IsPeakOf points threshold point (suc i) rest here
          (λ k. let e : suc (suc i) + k ≡ suc i + suc k = omega arith in rw e (link (suc k))) in
      elim (Bool-cases (le threshold (abs (sub point previous)))) [
        | inl e ↦ rw (e, next) ((previous, point, at, here, refl, refl, e), later)
        | inr e ↦ rw (e, next) later
      ]

  -- On at least three samples and a threshold above zero, `DerivativePeaks` returns peaks in
  -- strictly rising order, exactly one at each sample where the trace jumps by the threshold or
  -- more and none elsewhere (sample 0 ends no step), and each records the size and the sign of its
  -- jump.
  pub derivative_peaks_lem :
      (points : List F) (threshold : F)
      → 3 ≤ length points
      → le threshold zero_f ≡ false
      → (peaks : List (Peak F)) × (derivative_peaks points threshold ≡ ok peaks)
        × IsAscending peaks
        × (count_at 0 peaks ≡ 0)
        × ((k : ℕ) → count_at (suc k) peaks ≡ (if is_jump threshold points k then 1 else 0))
        × All (IsPeakOf points threshold) peaks
  unfolding derivative_peaks
  derivative_peaks_lem [] threshold h t = absurd (omega arith)
  derivative_peaks_lem (point ∷ rest) threshold h t = (
    peaks_from threshold point 1 rest,
    ground arith,
    peaks_from-IsAscending threshold point 1 rest,
    count_at-above 1 0 (peaks_from threshold point 1 rest) (omega arith)
        (peaks_from_above threshold point 1 rest),
    (λ k.
        let e : suc k ≡ 1 + k = omega arith in rw e (count_at-peaks_from threshold point 1 rest k)),
    peaks_from-IsPeakOf (point ∷ rest) threshold point 0 rest refl
        (λ k. let e : 1 + k ≡ suc k = omega arith in rw e refl),
  )
