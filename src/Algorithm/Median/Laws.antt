-- ===== src/Algorithm/Median/Laws.antt =====
-- What the median of a bucket is.
use gb_522_a16g.Base.{
  ℕ, zero, suc, ◌+◌, ◌-◌, ◌/◌, ◌%◌, ◌≤◌, ◌<◌, ◌≡◌, inl, inr, true, false, List, [], ◌∷◌, arith,
  Bool-cases, ◌==◌, ok, get_elem?, get_elem?-some, length, All, All-get_elem?, count_if,
  count_if-none, count_if-le-length, All-imp, Option-cases, some, sort_by, length-sort_by,
  All-sort_by, count_if-sort_by, IsSorted, sort_by-IsSorted,
}
use mathlib.Core.Option.{some-injective}
use gb_522_a16g.Float.{Float64, float_less, Within, IsOrdered, IsRounded}
use gb_522_a16g.Algorithm.Median.{median}

module _ {F : Type 0} ⦃fl : Float64 F⦄ where
  open fl use {is_nan, is_inf, add, lt}

  -- A nonempty bucket has a median: neither index is out of range.
  pub median_total : (bucket : List F) → 0 < length bucket → (m : F) × (median bucket ≡ ok m)
  unfolding median
  median_total bucket h =
      let sorted = sort_by float_less bucket in
      let n : length sorted ≡ length bucket = length-sort_by float_less bucket in
      let (a, ea) = get_elem?-some sorted (length sorted / 2 - 1) (omega arith) in
      let (b, eb) = get_elem?-some sorted (length sorted / 2) (omega arith) in
      elim (Bool-cases (length sorted % 2 == 0)) [
        | inl even ↦ (fl.div (add a b) (fl.dec 2 0), rw (even, ea, eb))
        | inr odd ↦ (b, rw (odd, eb))
      ]

  module _ (rounded : IsRounded F) where
    -- The median lies between bounds of all the elements.
    pub median-Within :
        (lo hi : F) (bucket : List F) {m : F}
        → is_inf (add lo lo) ≡ false
        → is_inf (add hi hi) ≡ false
        → All (Within lo hi) bucket
        → median bucket ≡ ok m
        → Within lo hi m
    unfolding median
    median-Within lo hi bucket fin_lo fin_hi all e =
        let sorted = sort_by float_less bucket in
        let bounded = All-sort_by float_less (Within lo hi) bucket all in
        let middle = length sorted / 2 in
        elim (Option-cases (get_elem? sorted (middle - 1))) [
          | inl none_a ↦ elim (Option-cases (get_elem? sorted middle)) [
            | inl none_b ↦ ground arith
            | inr (b, eb) ↦ ground (arith, All-get_elem? (Within lo hi) sorted middle bounded eb)
          ]
          | inr (a, ea) ↦ elim (Option-cases (get_elem? sorted middle)) [
            | inl none_b ↦ ground arith
            | inr (b, eb) ↦ ground (
              arith,
              All-get_elem? (Within lo hi) sorted (middle - 1) bounded ea,
              All-get_elem? (Within lo hi) sorted middle bounded eb,
              rounded.mean_within lo hi a b,
            )
          ]
        ]

  module _ (ordered : IsOrdered F) where
    open ordered use {lt_asymm, lt_nan_left, lt_nan_right, not-lt_trans}

    pub float_less_asymm : (x y : F) → float_less x y ≡ true → float_less y x ≡ false
    float_less_asymm x y h =
        ground (
          arith,
          lt_asymm x y,
          lt_nan_left x y,
          lt_nan_left y x,
          lt_nan_right x y,
          lt_nan_right y x,
        )

    float_less_irrefl : (x : F) → float_less x x ≡ false
    float_less_irrefl x = ground (arith, float_less_asymm x x)

    pub not-float_less_trans :
        (x y z : F) → float_less y x ≡ false → float_less z y ≡ false → float_less z x ≡ false
    not-float_less_trans x y z h k = ground (
      arith,
      not-lt_trans x y z,
      lt_nan_left x y,
      lt_nan_left y x,
      lt_nan_right x y,
      lt_nan_right y x,
      lt_nan_left x z,
      lt_nan_left z x,
      lt_nan_right x z,
      lt_nan_right z x,
      lt_nan_left z y,
      lt_nan_right z y,
    )

    IsSorted-tail : (x : F) (xs : List F) → IsSorted float_less (x ∷ xs) → IsSorted float_less xs
    IsSorted-tail x [] h = tt
    IsSorted-tail x (y ∷ ys) h = h.1

    -- The head of a sorted list is above none of the others.
    IsSorted-All :
        (x : F) (xs : List F) → IsSorted float_less (x ∷ xs) → All (λ y. float_less y x ≡ false) xs
    IsSorted-All x [] h = tt
    IsSorted-All x (y ∷ ys) (h, hs) = (
      h,
      All-imp (λ z. float_less z y ≡ false) (λ z. float_less z x ≡ false)
          (λ z k. not-float_less_trans x y z h k) ys (IsSorted-All y ys hs),
    )

    count_below :
        (xs : List F) (i : ℕ) (m : F)
        → IsSorted float_less xs
        → get_elem? xs i ≡ some m
        → count_if (λ x. float_less x m) xs ≤ i
    count_below [] i m s e = cc
    count_below (x ∷ xs) zero m s e =
        let q : x ≡ m = some-injective _ _ e in
        let zeros = count_if-none (λ y. float_less y m) xs (rw (← q) (IsSorted-All x xs s)) in
        let head : float_less x m ≡ false = rw q (float_less_irrefl m) in
        rw head (omega (arith, zeros))
    count_below (x ∷ xs) (suc i) m s e = ground (arith, count_below xs i m (IsSorted-tail x xs s) e)

    count_above :
        (xs : List F) (i : ℕ) (m : F)
        → IsSorted float_less xs
        → get_elem? xs i ≡ some m
        → count_if (λ x. float_less m x) xs + i < length xs
    count_above [] i m s e = cc
    count_above (x ∷ xs) zero m s e =
        let q : x ≡ m = some-injective _ _ e in
        let head : float_less m x ≡ false = rw q (float_less_irrefl m) in
        rw head (omega (arith, count_if-le-length (λ y. float_less m y) xs))
    count_above (x ∷ xs) (suc i) m s e =
        rw (All-get_elem? (λ y. float_less y x ≡ false) xs i (IsSorted-All x xs s) e)
          (omega (arith, count_above xs i m (IsSorted-tail x xs s) e))

    -- The median of a bucket of odd length is a median: at most half of the elements lie below it,
    -- and at most half above.
    pub median_splits :
        (bucket : List F) {m : F}
        → length bucket % 2 ≡ 1
        → median bucket ≡ ok m
        → (count_if (λ x. float_less x m) bucket ≤ length bucket / 2)
          × (count_if (λ x. float_less m x) bucket ≤ length bucket / 2)
    unfolding median
    median_splits bucket {m} odd e =
        let sorted = sort_by float_less bucket in
        let n : length sorted ≡ length bucket = length-sort_by float_less bucket in
        let s = sort_by-IsSorted float_less float_less_asymm bucket in
        let middle = length sorted / 2 in
        let not_even : (length sorted % 2 == 0) ≡ false = ground arith in
        elim (Option-cases (get_elem? sorted middle)) [
          | inl none_b ↦ ground arith
          | inr (b, eb) ↦
              let same : b ≡ m = ground arith in
              let eb' : get_elem? sorted middle ≡ some m = rw (← same) eb in
              (
                omega (
                  arith,
                  count_if-sort_by float_less (λ x. float_less x m) bucket,
                  count_below sorted middle m s eb',
                ),
                omega (
                  arith,
                  count_if-sort_by float_less (λ x. float_less m x) bucket,
                  count_above sorted middle m s eb',
                ),
              )
        ]
