-- ===== src/Float/Fixed.antt =====
-- Fixed-point numbers with four decimals: an instance of `Float` on which the definitions run, and
-- which shows that the laws of `IsIeee` can be met.
use market_app.Prelude.{
  ℕ, suc, ◌+◌, ◌*◌, ◌/◌, ◌^◌, ◌≤◌, ◌<◌, refl, true, some, List, [], ◌∷◌, arith,
}
use market_app.Prelude.Int.{ℤ, pos, negsuc, pos_part, neg_part, sub_ℕ, leb_ℤ, ltb_ℤ}
use market_app.Float.{Float, IsIeee, ◌≼◌, ◌≺◌, nought, one, mul, quot}

abbrev pub Fixed : Type 0
Fixed = ℤ

abbrev scale : ℕ
scale = 10_000

-- `on_parts f x y` is `f` of the magnitudes, with the sign of a product.
abbrev on_parts : (ℕ → ℕ → ℕ) → ℤ → ℤ → ℤ
on_parts f (pos a) (pos b) = pos (f a b)
on_parts f (pos a) (negsuc b) = sub_ℕ 0 (f a (suc b))
on_parts f (negsuc a) (pos b) = sub_ℕ 0 (f (suc a) b)
on_parts f (negsuc a) (negsuc b) = pos (f (suc a) (suc b))

abbrev mul_scaled : ℕ → ℕ → ℕ
mul_scaled a b = a * b / 10_000

abbrev div_scaled : ℕ → ℕ → ℕ
div_scaled a b = a * 10_000 / b

abbrev magnitude : ℤ → ℤ
magnitude (pos n) = pos n
magnitude (negsuc n) = pos (suc n)

abbrev truncate : ℤ → ℤ
truncate (pos n) = pos (n / 10_000)
truncate (negsuc n) = sub_ℕ 0 (suc n / 10_000)

abbrev whole : ℤ → ℤ
whole (pos n) = pos (n * 10_000)
whole (negsuc n) = sub_ℕ 0 (suc n * 10_000)

abbrev plus : ℤ → ℤ → ℤ
plus a b = sub_ℕ (pos_part a + pos_part b) (neg_part a + neg_part b)

abbrev minus : ℤ → ℤ → ℤ
minus a b = sub_ℕ (pos_part a + neg_part b) (neg_part a + pos_part b)

abbrev total : List ℤ → ℤ
total [] = pos 0
total (x ∷ xs) = plus x (total xs)

instance abbrev pub fixed_float : Float Fixed
fixed_float = record {
  lt_op = ltb_ℤ;
  le_op = leb_ℤ;
  add_op = plus;
  sub_op = minus;
  mul_op = on_parts mul_scaled;
  div_op = on_parts div_scaled;
  neg_op = minus (pos 0);
  abs_op = magnitude;
  finite_op = λ x. true;
  sum_op = total;
  int_op = λ x. some (truncate x);
  of_int_op = whole;
  literal_op = λ n k. pos (n * 10_000 / 10 ^ k);
}

mul_scaled-le : (a b : ℕ) → b ≤ 10_000 → mul_scaled a b ≤ a
mul_scaled-le a b h = grind arith

div_scaled-le : (a b : ℕ) → 0 < b → a ≤ b → div_scaled a b ≤ 10_000
div_scaled-le a b p h = grind arith

mul_unit : (x y : Fixed) → nought ≼ x → nought ≼ y → y ≼ one → (nought ≼ mul x y) × (mul x y ≼ x)
mul_unit (pos a) (pos b) hx hy h = ground (arith, mul_scaled-le a b)
mul_unit x y hx hy h = ground arith

div_unit : (x y : Fixed) → nought ≼ x → x ≼ y → nought ≺ y → (nought ≼ quot x y) × (quot x y ≼ one)
div_unit (pos a) (pos b) hx h p = ground (arith, div_scaled-le a b)
div_unit x y hx h p = ground arith

pub Fixed-IsIeee : IsIeee Fixed
Fixed-IsIeee = record {
  finite_number = λ x h. ground arith;
  le_numbers = λ x y h. ground arith;
  lt_numbers = λ x y h. ground arith;
  lt-not-le = λ x y h k. ground arith;
  le_trans = λ x y z h k. ground arith;
  le_total = λ x y h k. ground arith;
  finite_below = λ x y h k l. refl;
  nought_number = refl;
  abs_abs = λ x. ground arith;
  abs_number = λ x h. ground arith;
  sub_nonneg = λ x y h k. ground arith;
  sub_self = λ x h. ground arith;
  add_nonneg = λ x y h k. ground arith;
  sub_pos = λ x y h k l. ground arith;
  sub_finite_unit = λ x y h k l. refl;
  sub_mono_left = λ x y z h k l m. ground arith;
  one_sub_unit = λ x h k. ground arith;
  mul_unit = λ x y f. mul_unit x y;
  div_unit = λ x y f. div_unit x y;
}
