-- ===== src/Float.antt =====
-- Python's `float`: any type with the operations that the services call. The comparisons and the
-- arithmetic of IEEE 754 are not code of the repository, so they are an interface; what the
-- theorems need of them is the record `IsIeee`, whose laws also hold of NaN and the infinities.
pub mod Fixed
use market_app.Prelude.{ℕ, ◌≡◌, ◌⊎◌, Bool, true, not, ◌&&◌, Option, none, some, List, if◌then◌else◌}
use market_app.Prelude.Int.{ℤ}

pub record Float (F : Type 0) : Type 0 where
  pub lt_op : F → F → Bool
  pub le_op : F → F → Bool
  pub add_op : F → F → F
  pub sub_op : F → F → F
  pub mul_op : F → F → F
  pub div_op : F → F → F
  pub neg_op : F → F
  pub abs_op : F → F
  pub finite_op : F → Bool
  -- `sum` of a list, which newer interpreters compute with a compensation
  pub sum_op : List F → F
  -- `int(x)`; `none` is the exception at NaN and at the infinities
  pub int_op : F → Option ℤ
  pub of_int_op : ℤ → F
  -- `literal n k` is the decimal literal n / 10^k
  pub literal_op : ℕ → ℕ → F

module _ {F : Type 0} ⦃fl : Float F⦄ where
  abbrev pub lt : F → F → Bool
  lt = fl.lt_op

  abbrev pub le : F → F → Bool
  le = fl.le_op

  -- `x == y`, which NaN fails
  abbrev pub feq : F → F → Bool
  feq x y = fl.le_op x y && fl.le_op y x

  abbrev pub add : F → F → F
  add = fl.add_op

  abbrev pub sub : F → F → F
  sub = fl.sub_op

  abbrev pub mul : F → F → F
  mul = fl.mul_op

  abbrev pub neg : F → F
  neg = fl.neg_op

  abbrev pub abs : F → F
  abs = fl.abs_op

  abbrev pub is_finite : F → Bool
  is_finite = fl.finite_op

  abbrev pub sum : List F → F
  sum = fl.sum_op

  abbrev pub int : F → Option ℤ
  int = fl.int_op

  abbrev pub of_int : ℤ → F
  of_int = fl.of_int_op

  abbrev pub literal : ℕ → ℕ → F
  literal = fl.literal_op

  abbrev pub nought : F
  nought = fl.literal_op 0 0

  abbrev pub one : F
  one = fl.literal_op 1 0

  -- A quotient whose divisor the code has shown not to be zero.
  abbrev pub quot : F → F → F
  quot = fl.div_op

  -- `x / y`: Python raises ZeroDivisionError where the divisor is zero.
  abbrev pub div : F → F → Option F
  div x y = if feq y (fl.literal_op 0 0) then none else some (fl.div_op x y)

  -- `max(x, y)` and `min(x, y)` keep the first argument unless the other one wins.
  abbrev pub max : F → F → F
  max x y = if fl.lt_op x y then y else x

  abbrev pub min : F → F → F
  min x y = if fl.lt_op y x then y else x

infix 4 ◌≼◌ ◌≺◌
abbrev pub ◌≼◌ : {F : Type 0} ⦃fl : Float F⦄ → F → F → Type 0
◌≼◌ ⦃fl⦄ x y = fl.le_op x y ≡ true

abbrev pub ◌≺◌ : {F : Type 0} ⦃fl : Float F⦄ → F → F → Type 0
◌≺◌ ⦃fl⦄ x y = fl.lt_op x y ≡ true

abbrev pub IsFinite : {F : Type 0} ⦃fl : Float F⦄ → F → Type 0
IsFinite ⦃fl⦄ x = fl.finite_op x ≡ true

-- NaN is the value that is not `<=` itself.
abbrev pub IsNumber : {F : Type 0} ⦃fl : Float F⦄ → F → Type 0
IsNumber ⦃fl⦄ x = fl.le_op x x ≡ true

-- IEEE 754 with rounding to nearest: comparisons are ordered away from NaN and false at NaN, and
-- rounding is monotone.
pub record IsIeee (F : Type 0) ⦃fl : Float F⦄ : Type 0 where
  pub finite_number : (x : F) → IsFinite x → IsNumber x
  pub le_numbers : (x y : F) → x ≼ y → IsNumber x × IsNumber y
  pub lt_numbers : (x y : F) → x ≺ y → IsNumber x × IsNumber y
  pub lt-not-le : (x y : F) → IsNumber x → IsNumber y → lt x y ≡ not (le y x)
  pub le_trans : (x y z : F) → x ≼ y → y ≼ z → x ≼ z
  pub le_total : (x y : F) → IsNumber x → IsNumber y → (x ≼ y) ⊎ (y ≼ x)
  pub finite_below : (x y : F) → IsFinite y → nought ≼ x → x ≼ y → IsFinite x
  pub nought_number : IsNumber {F = F} nought
  pub abs_abs : (x : F) → abs (abs x) ≡ abs x
  pub abs_number : (x : F) → IsNumber x → nought ≼ abs x
  pub sub_nonneg : (x y : F) → IsFinite y → y ≼ x → nought ≼ sub x y
  pub sub_self : (x : F) → IsFinite x → feq (sub x x) nought ≡ true
  pub add_nonneg : (x y : F) → nought ≼ x → nought ≼ y → nought ≼ add x y
  -- Gradual underflow: different numbers have a difference that is not zero.
  pub sub_pos : (x y : F) → IsFinite x → IsFinite y → y ≺ x → nought ≺ sub x y
  pub sub_finite_unit : (x y : F) → IsFinite x → nought ≼ y → y ≼ x → IsFinite (sub x y)
  pub sub_mono_left : (x y z : F) → IsFinite x → IsFinite z → x ≼ y → IsFinite y → sub x z ≼ sub y z
  pub one_sub_unit : (x : F) → nought ≼ x → x ≼ one → (nought ≼ sub one x) × (sub one x ≼ one)
  pub mul_unit :
      (x y : F)
      → IsFinite x
      → nought ≼ x
      → nought ≼ y
      → y ≼ one
      → (nought ≼ mul x y) × (mul x y ≼ x)
  pub div_unit :
      (x y : F)
      → IsFinite y
      → nought ≼ x
      → x ≼ y
      → nought ≺ y
      → (nought ≼ quot x y) × (quot x y ≼ one)
