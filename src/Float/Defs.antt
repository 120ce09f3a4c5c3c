-- ===== src/Float/Defs.antt =====
-- The operations on a `float64`, and what IEEE 754 says of them.
use gb_522_a16g.Base.{ℕ, ◌≡◌, ◌≤◌, ◌<◌, ◌^◌, Bool, true, false, ◌&&◌, ◌||◌, not}

-- `dec m k` is the literal m · 10⁻ᵏ; `max_value` is math.MaxFloat64; `round_int` is math.Round;
-- `is_inf x` is math.IsInf(x, 0).
pub record Float64 (F : Type 0) : Type 0 where
  pub dec : ℕ → ℕ → F
  pub of_ℕ : ℕ → F
  pub max_value : F
  pub lt : F → F → Bool
  pub le : F → F → Bool
  pub eq : F → F → Bool
  pub add : F → F → F
  pub sub : F → F → F
  pub mul : F → F → F
  pub div : F → F → F
  pub neg : F → F
  pub abs : F → F
  pub copysign : F → F → F
  pub fmin : F → F → F
  pub fmax : F → F → F
  pub round_int : F → F
  pub is_nan : F → Bool
  pub is_inf : F → Bool

module _ {F : Type 0} ⦃fl : Float64 F⦄ where
  open fl use {dec, lt, le, eq, is_nan, is_inf}

  abbrev pub zero_f : F
  zero_f = dec 0 0

  -- The order of `sort.Float64s`: NaN comes first.
  abbrev pub float_less : F → F → Bool
  float_less a b = lt a b || (is_nan a && not (is_nan b))

  -- The value lies between two bounds, so it is not NaN.
  abbrev pub Within : F → F → F → Type 0
  Within lo hi x = (le lo x ≡ true) × (le x hi ≡ true)

  -- Neither NaN nor infinite.
  abbrev pub IsFinite : F → Type 0
  IsFinite x = (is_nan x ≡ false) × (is_inf x ≡ false)

-- The comparisons of IEEE 754.
pub record IsOrdered (F : Type 0) ⦃fl : Float64 F⦄ : Type 0 where
  pub lt_asymm : (x y : F) → fl.lt x y ≡ true → fl.lt y x ≡ false
  pub lt_nan_left : (x y : F) → fl.is_nan x ≡ true → fl.lt x y ≡ false
  pub lt_nan_right : (x y : F) → fl.is_nan y ≡ true → fl.lt x y ≡ false
  pub not-lt_trans :
      (x y z : F)
      → fl.is_nan y ≡ false
      → fl.lt y x ≡ false
      → fl.lt z y ≡ false
      → fl.is_nan x ≡ false
      → fl.is_nan z ≡ false
      → fl.lt z x ≡ false
  pub le_trans : (x y z : F) → fl.le x y ≡ true → fl.le y z ≡ true → fl.le x z ≡ true
  pub le-not-lt :
      (x y : F) → fl.is_nan x ≡ false → fl.is_nan y ≡ false → fl.le x y ≡ not (fl.lt y x)
  pub le_nan_left : (x y : F) → fl.is_nan x ≡ true → fl.le x y ≡ false
  pub le_nan_right : (x y : F) → fl.is_nan y ≡ true → fl.le x y ≡ false
  pub eq_comm : (x y : F) → fl.eq x y ≡ fl.eq y x

-- Facts about rounding, each away from overflow.
pub record IsRounded (F : Type 0) ⦃fl : Float64 F⦄ : Type 0 where
  -- The mean of two values lies between their bounds, if twice a bound is finite.
  pub mean_within :
      (lo hi x y : F)
      → fl.is_inf (fl.add lo lo) ≡ false
      → fl.is_inf (fl.add hi hi) ≡ false
      → Within lo hi x
      → Within lo hi y
      → Within lo hi (fl.div (fl.add x y) (fl.dec 2 0))
  pub sub_self : (x : F) → IsFinite x → fl.sub x x ≡ zero_f
  pub abs_zero : fl.abs zero_f ≡ zero_f
  pub abs_nonneg : (x : F) → fl.lt (fl.abs x) zero_f ≡ false
  pub zero-lt-max : fl.lt zero_f fl.max_value ≡ true
  pub zero_finite : IsFinite {F = F} zero_f

-- The operations on which distances rest are monotone, also under rounding.
pub record IsMonotone (F : Type 0) ⦃fl : Float64 F⦄ : Type 0 where
  pub of_ℕ_mono : (m n : ℕ) → m ≤ n → fl.le (fl.of_ℕ m) (fl.of_ℕ n) ≡ true
  pub mul_mono_left :
      (x y z : F)
      → fl.lt zero_f z ≡ true
      → IsFinite z
      → fl.le x y ≡ true
      → fl.le (fl.mul x z) (fl.mul y z) ≡ true
  pub mul_mono_right :
      (x y z : F)
      → fl.lt zero_f z ≡ true
      → IsFinite z
      → fl.le x y ≡ true
      → fl.le (fl.mul z x) (fl.mul z y) ≡ true
  pub div_mono :
      (x y z : F)
      → fl.lt zero_f z ≡ true
      → IsFinite z
      → fl.le x y ≡ true
      → fl.le (fl.div x z) (fl.div y z) ≡ true
  pub round_int_mono : (x y : F) → fl.le x y ≡ true → fl.le (fl.round_int x) (fl.round_int y) ≡ true
  -- A nonzero literal in range is above zero and finite.
  pub dec_pos : (m k : ℕ) → 0 < m → m < 10 ^ 15 → k ≤ 9 → fl.lt zero_f (fl.dec m k) ≡ true
  pub dec_finite : (m k : ℕ) → m < 10 ^ 15 → IsFinite (fl.dec m k)
  -- Twice a value from 1.3 to 1.7 is above zero and finite.
  pub double_pos :
      (x : F)
      → fl.is_nan x ≡ false
      → fl.lt x (fl.dec 13 1) ≡ false
      → fl.lt (fl.dec 17 1) x ≡ false
      → (fl.lt zero_f (fl.mul (fl.dec 2 0) x) ≡ true) × IsFinite (fl.mul (fl.dec 2 0) x)
  pub pos_of_not_le : (x : F) → IsFinite x → fl.le x zero_f ≡ false → fl.lt zero_f x ≡ true
