-- ===== src/Algorithm/Compare/Match.antt =====
-- The inner loop of the comparison finds the nearest free candidate within the tolerance.
use gb_522_a16g.Base.{
  ℕ, zero, suc, ◌+◌, ◌≡◌, ◌⊎◌, refl, inl, inr, ap, ◌∙◌, List, [], ◌∷◌, Option, none, some, Bool,
  true, false, arith, not, ◌&&◌, Bool-cases, get_elem?,
}
use gb_522_a16g.Float.{Float64, IsOrdered}
use gb_522_a16g.Algorithm.Compare.{ComparableEvent, gap, find_match}

module _ {F : Type 0} ⦃fl : Float64 F⦄ where
  open fl use {lt, le, is_nan, max_value}

  -- The candidate k places on is free and within the tolerance.
  abbrev pub IsFree :
      ComparableEvent F
      → (ℕ → Bool)
      → F
      → ℕ
      → List (ComparableEvent F)
      → ℕ
      → ComparableEvent F
      → Type 0
  IsFree base used tolerance i current k c =
      (get_elem? current k ≡ some c) × (used (i + k) ≡ false) × (le (gap base c) tolerance ≡ true)

  abbrev pub is_hit : ComparableEvent F → (ℕ → Bool) → F → ℕ → ComparableEvent F → F → Bool
  is_hit base used tolerance i c best =
      not (used i) && (le (gap base c) tolerance && lt (gap base c) best)

  -- The loop returns what it was given, or a free candidate with its gap.
  pub find_match-origin :
      (base : ComparableEvent F) (used : ℕ → Bool) (tolerance : F) (i : ℕ)
      (current : List (ComparableEvent F)) (found : Option ℕ) (best : F)
      → (find_match base used tolerance i current found best ≡ (found, best))
        ⊎ ((k : ℕ) × (c : ComparableEvent F) × IsFree base used tolerance i current k c
            × (find_match base used tolerance i current found best ≡ (some (i + k), gap base c)))
  unfolding find_match
  find_match-origin base used tolerance i [] found best = inl refl
  find_match-origin base used tolerance i (c ∷ rest) found best =
      elim (Bool-cases (is_hit base used tolerance i c best)) [
        | inl hit ↦
            elim (find_match-origin base used tolerance (i + 1) rest (some i) (gap base c)) [
              | inl same ↦ inr (0, c, (refl, ground arith, ground arith), ground arith)
              | inr (k, d, (at, free, near), r) ↦
                  inr (suc k, d, (at, ground arith, near), ground arith)
            ]
        | inr miss ↦ elim (find_match-origin base used tolerance (i + 1) rest found best) [
          | inl same ↦ inl (rw miss same)
          | inr (k, d, (at, free, near), r) ↦ inr (suc k, d, (at, ground arith, near), ground arith)
        ]
      ]

  module _ (base : ComparableEvent F) (used : ℕ → Bool) (tolerance : F) (i : ℕ)
      (c : ComparableEvent F) (rest : List (ComparableEvent F)) (found : Option ℕ) (best : F) where
    pub find_match-hit :
        is_hit base used tolerance i c best ≡ true
        → find_match base used tolerance i (c ∷ rest) found best
          ≡ find_match base used tolerance (i + 1) rest (some i) (gap base c)
    unfolding find_match
    find_match-hit hit = rw hit

    pub find_match-miss :
        is_hit base used tolerance i c best ≡ false
        → find_match base used tolerance i (c ∷ rest) found best
          ≡ find_match base used tolerance (i + 1) rest found best
    unfolding find_match
    find_match-miss miss = rw miss

  module _ (ordered : IsOrdered F) where
    open ordered use {lt_asymm, not-lt_trans, le_nan_left}

    -- The final `best` is a number not above the initial one.
    find_match-le :
        (base : ComparableEvent F) (used : ℕ → Bool) (tolerance : F) (i : ℕ)
        (current : List (ComparableEvent F)) (found : Option ℕ) (best : F)
        → is_nan best ≡ false
        → (is_nan (find_match base used tolerance i current found best).1 ≡ false)
          × (lt best (find_match base used tolerance i current found best).1 ≡ false)
    find_match-le base used tolerance i [] found best num =
        unfold find_match in (num, ground (arith, lt_asymm best best))
    find_match-le base used tolerance i (c ∷ rest) found best num =
        elim (Bool-cases (is_hit base used tolerance i c best)) [
          | inl hit ↦
              let num' : is_nan (gap base c) ≡ false =
                ground (arith, le_nan_left (gap base c) tolerance) in
              let closer : lt best (gap base c) ≡ false =
                ground (arith, lt_asymm (gap base c) best) in
              let (n, l) =
                find_match-le base used tolerance (i + 1) rest (some i) (gap base c) num' in
              rw (find_match-hit base used tolerance i c rest found best hit)
                (n, not-lt_trans _ (gap base c) best num' l closer n num)
          | inr miss ↦
              rw (find_match-miss base used tolerance i c rest found best miss)
                (find_match-le base used tolerance (i + 1) rest found best num)
        ]

    -- No free candidate is nearer than the final `best`.
    find_match-least :
        (base : ComparableEvent F) (used : ℕ → Bool) (tolerance : F) (i : ℕ)
        (current : List (ComparableEvent F)) (found : Option ℕ) (best : F)
        → is_nan best ≡ false
        → (k : ℕ) (c : ComparableEvent F) → IsFree base used tolerance i current k c
        → lt (gap base c) (find_match base used tolerance i current found best).1 ≡ false
    find_match-least base used tolerance i [] found best num k c (at, free, near) = cc
    find_match-least base used tolerance i (d ∷ rest) found best num zero c (at, free, near) =
        let q : c ≡ d = cc in
        let free' : used i ≡ false = ground arith in
        let num' : is_nan (gap base c) ≡ false =
          ground (arith, le_nan_left (gap base c) tolerance) in
        elim (Bool-cases (is_hit base used tolerance i d best)) [
          | inl hit ↦ rw (find_match-hit base used tolerance i d rest found best hit) (
              rw q
                (find_match-le base used tolerance (i + 1) rest (some i) (gap base d)
                  (rw (← q) num')).1)
          | inr miss ↦
              let (n, l) = find_match-le base used tolerance (i + 1) rest found best num in
              let near' : le (gap base d) tolerance ≡ true = rw (← q) near in
              let no_closer : lt (gap base d) best ≡ false = ground arith in
              rw (find_match-miss base used tolerance i d rest found best miss)
                (not-lt_trans _ best (gap base c) num l (rw q no_closer) n num')
        ]
    find_match-least base used tolerance i (d ∷ rest) found best num (suc k) c (at, free, near) =
        let later : IsFree base used tolerance (i + 1) rest k c = (at, ground arith, near) in
        elim (Bool-cases (is_hit base used tolerance i d best)) [
          | inl hit ↦
              let num' : is_nan (gap base d) ≡ false =
                ground (arith, le_nan_left (gap base d) tolerance) in
              rw (find_match-hit base used tolerance i d rest found best hit) (
                find_match-least base used tolerance (i + 1) rest (some i) (gap base d) num' k c
                  later)
          | inr miss ↦
              rw (find_match-miss base used tolerance i d rest found best miss)
                (find_match-least base used tolerance (i + 1) rest found best num k c later)
        ]

    -- The matching of one baseline event: it fails only if no free candidate within the tolerance
    -- has a gap below the largest float, and else gives the index of a free candidate within the
    -- tolerance to which no other free candidate within the tolerance is strictly nearer.
    pub find_match_nearest :
        (base : ComparableEvent F) (used : ℕ → Bool) (tolerance : F)
        (current : List (ComparableEvent F))
        → is_nan max_value ≡ false
        → let r = (find_match base used tolerance 0 current none max_value).0 in
          ((r ≡ none)
            × ((k : ℕ) (c : ComparableEvent F)
                → IsFree base used tolerance 0 current k c
                → lt (gap base c) max_value ≡ false))
          ⊎ ((m : ℕ) × (c : ComparableEvent F) × (r ≡ some m)
              × IsFree base used tolerance 0 current m c
              × ((k : ℕ) (d : ComparableEvent F)
                  → IsFree base used tolerance 0 current k d
                  → lt (gap base d) (gap base c) ≡ false))
    find_match_nearest base used tolerance current num =
        let least = find_match-least base used tolerance 0 current none max_value num in
        elim (find_match-origin base used tolerance 0 current none max_value) [
          | inl same ↦ inl (ap (λ r. r.0) same, λ k c f. rw same at (least k c f))
          | inr (m, c, (at, free, near), r) ↦
              let zeroed : 0 + m ≡ m = omega arith in
              inr (
                m,
                c,
                ap (λ r. r.0) r ∙ ap some zeroed,
                (at, free, near),
                λ k d f. rw r at (least k d f),
              )
        ]
