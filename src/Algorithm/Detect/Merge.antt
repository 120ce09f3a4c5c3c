-- ===== src/Algorithm/Detect/Merge.antt =====
-- `MergePeaks` leaves peaks that lie further apart than the window, and keeps the strongest.
use gb_522_a16g.Base.{
  ℕ, ◌+◌, ◌<◌, ◌≡◌, inl, inr, List, [], ◌∷◌, false, arith, leb, Bool-cases, ℤ, pos, pos_part, ◌≤ℤ◌,
  ok, All, All-imp, length,
}
use gb_522_a16g.Float.{Float64, IsOrdered}
use gb_522_a16g.Algorithm.Detect.{Peak, merge_from, merge_peaks}
use gb_522_a16g.Algorithm.Detect.Peaks.{IsAscending}

module _ {F : Type 0} ⦃fl : Float64 F⦄ where
  open fl use {lt, is_nan}

  -- Every later peak lies more than the window after an earlier one.
  abbrev pub IsSeparated : ℕ → List (Peak F) → Type 0
  IsSeparated w [] = Unit
  IsSeparated w (p ∷ ps) = All (λ (q : Peak F). p.index + w < q.index) ps × IsSeparated w ps

  -- The bound is not below the peak's magnitude.
  abbrev pub IsBelow : F → Peak F → Type 0
  IsBelow bound p = lt bound p.magnitude ≡ false

  -- What holds of every peak holds of every merged peak.
  All-merge_from :
      (P : Peak F → Type 0) (w : ℕ) (current : Peak F) (rest : List (Peak F))
      → P current
      → All P rest
      → All P (merge_from w current rest)
  unfolding merge_from
  All-merge_from P w current [] h hs = (h, tt)
  All-merge_from P w current (peak ∷ rest) h (hp, hs) =
      elim (Bool-cases (leb peak.index (current.index + w))) [
        | inl near ↦ elim (Bool-cases (lt current.magnitude peak.magnitude)) [
          | inl more ↦ rw (near, more) (All-merge_from P w peak rest hp hs)
          | inr less ↦ rw (near, less) (All-merge_from P w current rest h hs)
        ]
        | inr far ↦ rw far (h, All-merge_from P w peak rest hp hs)
      ]

  merge_from-nonempty :
      (w : ℕ) (current : Peak F) (rest : List (Peak F)) → 0 < length (merge_from w current rest)
  unfolding merge_from
  merge_from-nonempty w current [] = omega arith
  merge_from-nonempty w current (peak ∷ rest) =
      ground (arith, merge_from-nonempty w peak rest, merge_from-nonempty w current rest)

  merge_from-IsSeparated :
      (w : ℕ) (current : Peak F) (rest : List (Peak F))
      → IsAscending (current ∷ rest)
      → IsSeparated w (merge_from w current rest)
  unfolding merge_from
  merge_from-IsSeparated w current [] a = (tt, tt)
  merge_from-IsSeparated w current (peak ∷ rest) ((lower, above), (tail, ascending)) =
      elim (Bool-cases (leb peak.index (current.index + w))) [
        | inl near ↦ elim (Bool-cases (lt current.magnitude peak.magnitude)) [
          | inl more ↦ rw (near, more) (merge_from-IsSeparated w peak rest (tail, ascending))
          | inr less ↦ rw (near, less) (merge_from-IsSeparated w current rest (above, ascending))
        ]
        | inr far ↦ rw far (
          All-merge_from (λ (q : Peak F). current.index + w < q.index) w peak rest (ground arith)
              (All-imp (λ (q : Peak F). peak.index < q.index)
                (λ (q : Peak F). current.index + w < q.index) (λ q h. ground arith) rest tail),
          merge_from-IsSeparated w peak rest (tail, ascending),
        )
      ]

  -- On peaks in strictly rising order, `MergePeaks` with a window of at least one returns peaks that
  -- are pairwise more than the window apart, at least one if there was one, each of them among the
  -- peaks given (it satisfies whatever all of those satisfy).
  pub merge_peaks-IsSeparated :
      (P : Peak F → Type 0) (peaks : List (Peak F)) (window : ℤ)
      → pos 1 ≤ℤ window
      → IsAscending peaks
      → All P peaks
      → (merged : List (Peak F)) × (merge_peaks peaks window ≡ ok merged)
        × IsSeparated (pos_part window) merged
        × All P merged
        × (0 < length peaks → 0 < length merged)
  unfolding merge_peaks
  merge_peaks-IsSeparated P [] window h a all = ([], ground arith, tt, tt, λ k. k)
  merge_peaks-IsSeparated P (peak ∷ rest) window h a (p, ps) = (
    merge_from (pos_part window) peak rest,
    ground arith,
    merge_from-IsSeparated (pos_part window) peak rest a,
    All-merge_from P (pos_part window) peak rest p ps,
    λ k. merge_from-nonempty (pos_part window) peak rest,
  )

  module _ (ordered : IsOrdered F) where
    merge_from-IsBelow :
        (bound : F) (w : ℕ) (current : Peak F) (rest : List (Peak F))
        → is_nan bound ≡ false
        → All (λ (p : Peak F). is_nan p.magnitude ≡ false) (current ∷ rest)
        → All (IsBelow bound) (merge_from w current rest)
        → All (IsBelow bound) (current ∷ rest)
    unfolding merge_from
    merge_from-IsBelow bound w current [] nb num below = below
    merge_from-IsBelow bound w current (peak ∷ rest) nb (nc, (np, ns)) below =
        elim (Bool-cases (leb peak.index (current.index + w))) [
          | inl near ↦ elim (Bool-cases (lt current.magnitude peak.magnitude)) [
            | inl more ↦
                let hs =
                  merge_from-IsBelow bound w peak rest nb (np, ns) (rw (near, more) at below) in
                (
                  ground (
                    arith,
                    hs,
                    ordered.lt_asymm current.magnitude peak.magnitude,
                    ordered.not-lt_trans current.magnitude peak.magnitude bound,
                  ),
                  hs,
                )
            | inr less ↦
                let hs =
                  merge_from-IsBelow bound w current rest nb (nc, ns) (rw (near, less) at below) in
                (
                  hs.0,
                  (
                    ground (arith, hs, ordered.not-lt_trans peak.magnitude current.magnitude bound),
                    hs.1,
                  ),
                )
          ]
          | inr far ↦
              let split : All (IsBelow bound) (current ∷ merge_from w peak rest) =
                rw far at below in
              (split.0, merge_from-IsBelow bound w peak rest nb (np, ns) split.1)
        ]

    -- Merging loses no strength: of peaks whose magnitudes are numbers, a bound that no merged peak
    -- exceeds, no given peak exceeds, so the strongest jump is always among the merged peaks.
    pub merge_peaks_keeps_strongest :
        (bound : F) (peaks : List (Peak F)) (window : ℤ) {merged : List (Peak F)}
        → is_nan bound ≡ false
        → All (λ (p : Peak F). is_nan p.magnitude ≡ false) peaks
        → merge_peaks peaks window ≡ ok merged
        → All (IsBelow bound) merged
        → All (IsBelow bound) peaks
    unfolding merge_peaks
    merge_peaks_keeps_strongest bound [] window nb num e below = tt
    merge_peaks_keeps_strongest bound (peak ∷ rest) window {merged} nb num e below =
        let whole : merge_from (pos_part window) peak rest ≡ merged = ground arith in
        merge_from-IsBelow bound (pos_part window) peak rest nb num (rw whole below)
