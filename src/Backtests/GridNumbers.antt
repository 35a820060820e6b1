-- ===== src/Backtests/GridNumbers.antt =====
-- The numbers of a grid: a multiple of the step stays in the range, and it is an integer when the start
-- and the step are.
use Prim.Native.Nat.{◌∣◌}
use native.Mathlib.Nat.{
  mul-le-mul_left, mul-div-le, dvd-add, dvd-sub, dvd-mul_right_of_dvd, dvd_of_mod-eq-zero,
  mod-eq-zero_of_dvd, div-add-mod,
}
use atrade.Prelude.{
  ◌⊎◌, inl, inr, ap, ◌∙◌, Bool-cases, leb, ◌%◌, ◌-◌, ℕ, zero, suc, ◌+◌, ◌*◌, ◌/◌, ◌≤◌, ◌≡◌, true,
  false, arith,
}
use atrade.Prelude.Int.{
  ℤ, pos, negsuc, pos_part, neg_part, magnitude, ◌+ℤ◌, ◌-ℤ◌, ◌*ℤ◌, ◌≤ℤ◌, leb_ℤ, int_laws,
}
use atrade.Backtests.Grid.{to_int, is_integral}

mul_pos : (s k : ℕ) → pos s *ℤ pos k ≡ pos (s * k)
unfolding ◌*ℤ◌
mul_pos s k = ground arith

magnitude_of_sub :
    (a b : ℤ) → a ≤ℤ b → magnitude (b -ℤ a) + pos_part a + neg_part b ≡ pos_part b + neg_part a
unfolding ◌-ℤ◌
magnitude_of_sub a b h = ground arith

-- The multiple of the step at an index up to the quotient stays in the range.
pub step_in_range :
    (start end step : ℤ) (k : ℕ)
    → leb_ℤ step (pos 0) ≡ false
    → start ≤ℤ end
    → k ≤ magnitude (end -ℤ start) / magnitude step
    → (start ≤ℤ start +ℤ step *ℤ pos k) × (start +ℤ step *ℤ pos k ≤ℤ end)
step_in_range start end (negsuc n) k positive order h = absurd (ground arith)
step_in_range start end (pos s) k positive order h =
    rw (mul_pos s k) (omega (int_laws, magnitude_of_sub start end order, within))
  where
    within : s * k ≤ magnitude (end -ℤ start)
    within = omega (arith, mul-le-mul_left s h, mul-div-le (magnitude (end -ℤ start)) s)

-- The number `magnitude` of a sum.
magnitude_of_add :
    (a : ℤ) (m : ℕ)
    → (magnitude (a +ℤ pos m) ≡ magnitude a + m)
      ⊎ ((magnitude (a +ℤ pos m) ≡ magnitude a - m) ⊎ (magnitude (a +ℤ pos m) ≡ m - magnitude a))
unfolding ◌+ℤ◌
magnitude_of_add (pos n) m = inl (ground arith)
magnitude_of_add (negsuc n) m = elim (Bool-cases (leb (suc n) m)) [
  | inl above ↦ inr (inr (ground arith))
  | inr below ↦ inr (inl (ground arith))
]

-- The start and the step are integers, so each value is one.
add_integral :
    (scale : ℕ) (a : ℤ) (m : ℕ) → scale ∣ magnitude a → scale ∣ m → scale ∣ magnitude (a +ℤ pos m)
add_integral scale a m h k = elim (magnitude_of_add a m) [
  | inl e ↦ rw e (dvd-add scale h k)
  | inr (inl e) ↦ rw e (dvd-sub scale h k)
  | inr (inr e) ↦ rw e (dvd-sub scale k h)
]

pub value_integral :
    (scale : ℕ) (start step : ℤ) (k : ℕ)
    → leb_ℤ step (pos 0) ≡ false
    → is_integral scale start ≡ true
    → is_integral scale step ≡ true
    → scale ∣ magnitude (start +ℤ step *ℤ pos k)
value_integral scale start (negsuc n) k positive a b = absurd (ground arith)
value_integral scale start (pos s) k positive a b =
    let a' : magnitude start % scale ≡ 0 = ground arith in
    let b' : s % scale ≡ 0 = ground arith in
    rw (mul_pos s k) (
      add_integral scale start (s * k) (dvd_of_mod-eq-zero scale a')
        (dvd-mul_right_of_dvd scale (dvd_of_mod-eq-zero scale b') k))

quotient : (scale n : ℕ) → scale ∣ n → n / scale * scale ≡ n
quotient scale n h =
    let m : n % scale ≡ 0 = mod-eq-zero_of_dvd scale h in grind (arith, div-add-mod n scale, m)

negative_product : (q scale n : ℕ) → q * scale ≡ suc n → (pos 0 -ℤ pos q) *ℤ pos scale ≡ negsuc n
unfolding ◌-ℤ◌ ◌*ℤ◌
negative_product zero scale n h = absurd (omega (arith, h))
negative_product (suc p) scale n h = ground (arith, h)

-- The conversion of an integer to `int` is exact.
pub to_int_exact : (scale : ℕ) (a : ℤ) → scale ∣ magnitude a → to_int scale a *ℤ pos scale ≡ a
to_int_exact scale (pos n) h = mul_pos (n / scale) scale ∙ ap pos (quotient scale n h)
to_int_exact scale (negsuc n) h =
    negative_product (suc n / scale) scale n (quotient scale (suc n) h)
