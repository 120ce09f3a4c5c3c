-- ===== src/Float/Fixed.antt =====
-- A value at which the parameter `Float64` can be instantiated: fixed-point numbers with twelve
-- decimal places. It has no NaN and no infinity, and runs in the tests.
use gb_522_a16g.Base.{
  ℕ, zero, suc, ◌+◌, ◌*◌, ◌/◌, ◌^◌, ◌≤◌, ◌<◌, refl, Bool, true, false, ℤ, pos, negsuc, pos_part,
  neg_part, ◌+ℤ◌, ◌-ℤ◌, ltb_ℤ, leb_ℤ, eqb_ℤ, if◌then◌else◌, arith,
}
use gb_522_a16g.Float.Defs.{Float64, IsOrdered, IsRounded, IsMonotone}

abbrev pub scale : ℕ
scale = 10 ^ 12

abbrev magnitude : ℤ → ℕ
magnitude x = pos_part x + neg_part x

abbrev is_negative : ℤ → Bool
is_negative (pos n) = false
is_negative (negsuc n) = true

abbrev opposite : ℤ → ℤ
opposite (pos zero) = pos 0
opposite (pos (suc n)) = negsuc n
opposite (negsuc n) = pos (suc n)

-- A magnitude with the sign of a product.
abbrev signed : ℤ → ℤ → ℕ → ℤ
signed a b n =
    if is_negative a
    then (if is_negative b then pos n else opposite (pos n))
    else (if is_negative b then opposite (pos n) else pos n)

instance abbrev pub fixed : Float64 ℤ
fixed = record {
  dec = λ m k. pos (m * scale / 10 ^ k);
  of_ℕ = λ n. pos (n * scale);
  max_value = pos (10 ^ 308 * scale);
  lt = ltb_ℤ;
  le = leb_ℤ;
  eq = eqb_ℤ;
  add = ◌+ℤ◌;
  sub = ◌-ℤ◌;
  mul = λ a b. signed a b (magnitude a * magnitude b / scale);
  div = λ a b. signed a b (magnitude a * scale / magnitude b);
  neg = opposite;
  abs = λ a. pos (magnitude a);
  copysign = λ a b. if is_negative b then opposite (pos (magnitude a)) else pos (magnitude a);
  fmin = λ a b. if ltb_ℤ b a then b else a;
  fmax = λ a b. if ltb_ℤ a b then b else a;
  round_int = λ a. signed a (pos 0) ((magnitude a + scale / 2) / scale * scale);
  is_nan = λ a. false;
  is_inf = λ a. false;
}

pub fixed-IsOrdered : IsOrdered ℤ
fixed-IsOrdered = record {
  lt_asymm = λ x y h. ground arith;
  lt_nan_left = λ x y h. cc;
  lt_nan_right = λ x y h. cc;
  not-lt_trans = λ x y z a b c d e. ground arith;
  le_trans = λ x y z a b. ground arith;
  le-not-lt = λ x y a b. ground arith;
  le_nan_left = λ x y h. cc;
  le_nan_right = λ x y h. cc;
  eq_comm = λ x y. ground arith;
}

pub fixed-IsRounded : IsRounded ℤ
fixed-IsRounded = record {
  mean_within = λ lo hi x y a b (c, d) (e, f). (ground arith, ground arith);
  sub_self = λ x h. ground arith;
  abs_zero = refl;
  abs_nonneg = λ x. ground arith;
  zero-lt-max = refl;
  zero_finite = (refl, refl);
}

div_scale_mono : (a b c : ℕ) → a ≤ b → a * c / scale ≤ b * c / scale
div_scale_mono a b c h = let m : a * c ≤ b * c = grind arith in omega arith

scale_div_mono : (a b c : ℕ) → a ≤ b → a * scale / c ≤ b * scale / c
scale_div_mono a b c h = grind arith

dec_above_zero : (m k : ℕ) → 0 < m → k ≤ 9 → 0 < m * scale / 10 ^ k
dec_above_zero m zero p r = omega arith
dec_above_zero m (suc zero) p r = omega arith
dec_above_zero m (suc (suc zero)) p r = omega arith
dec_above_zero m (suc (suc (suc zero))) p r = omega arith
dec_above_zero m (suc (suc (suc (suc zero)))) p r = omega arith
dec_above_zero m (suc (suc (suc (suc (suc zero))))) p r = omega arith
dec_above_zero m (suc (suc (suc (suc (suc (suc zero)))))) p r = omega arith
dec_above_zero m (suc (suc (suc (suc (suc (suc (suc zero))))))) p r = omega arith
dec_above_zero m (suc (suc (suc (suc (suc (suc (suc (suc zero)))))))) p r = omega arith
dec_above_zero m (suc (suc (suc (suc (suc (suc (suc (suc (suc zero))))))))) p r = omega arith
dec_above_zero m (suc (suc (suc (suc (suc (suc (suc (suc (suc (suc k)))))))))) p r =
    absurd (omega arith)

pub fixed-IsMonotone : IsMonotone ℤ
fixed-IsMonotone = record {
  of_ℕ_mono = λ m n h. ground arith;
  mul_mono_left = λ x y z p f h. ground (
    arith,
    div_scale_mono (magnitude x) (magnitude y) (magnitude z),
    div_scale_mono (magnitude y) (magnitude x) (magnitude z),
  );
  mul_mono_right = λ x y z p f h. ground (
    arith,
    div_scale_mono (magnitude x) (magnitude y) (magnitude z),
    div_scale_mono (magnitude y) (magnitude x) (magnitude z),
  );
  div_mono = λ x y z p f h. ground (
    arith,
    scale_div_mono (magnitude x) (magnitude y) (magnitude z),
    scale_div_mono (magnitude y) (magnitude x) (magnitude z),
  );
  round_int_mono = λ x y h. ground arith;
  dec_pos = λ m k p q r. ground (arith, dec_above_zero m k p r);
  dec_finite = λ m k q. (refl, refl);
  double_pos = λ x p q r. (ground arith, (refl, refl));
  pos_of_not_le = λ x f h. ground arith;
}
