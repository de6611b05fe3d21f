-- ===== src/Double.antt =====
-- What the program does with a `double`. The language has no floats, so the type is a parameter `D`
-- with the constants, comparisons and operations that the sources use; `x >= y` is `le y x` and `x
-- > y` is `lt y x`, as for IEEE 754 values, NaN included. What is known of them comes in three
-- records that are used apart: the order and the behaviour of NaN (true of IEEE 754 values), and
-- exact addition (true of any number type without rounding).
use Prim.Native.Nat.{ℕ}
use mathlib.Core.Path.{◌≡◌}
use mathlib.Core.Bool.{Bool, true, false, not}
use mathlib.Core.Option.{Option}

pub record Double (D : Type 0) : Type 0 where
  pub nought : D
  pub one : D
  pub two : D
  pub three : D
  pub four : D
  pub epsilon : D  -- 1e-10
  pub lt : D → D → Bool
  pub le : D → D → Bool
  pub add : D → D → D
  pub sub : D → D → D
  pub mul : D → D → D
  pub div : D → D → D
  pub abs : D → D  -- std::abs
  pub log : D → D  -- std::log
  pub of_uint : ℕ → D  -- static_cast<double> of an unsigned integer
  -- static_cast<uint64_t>(std::ceil(x)): `none` where the cast is undefined, as the value is out of
  -- range or NaN
  pub ceil_u64 : D → Option ℕ

module _ {D : Type 0} ⦃d : Double D⦄ where
  open d use {lt, le}

  -- NaN is the value that is not `<=` itself.
  abbrev pub IsNumber : D → Type 0
  IsNumber x = le x x ≡ true

  -- Every comparison with NaN is false.
  pub record IsNaN (x : D) : Type 0 where
    pub le_left : (y : D) → le x y ≡ false
    pub le_right : (y : D) → le y x ≡ false
    pub lt_left : (y : D) → lt x y ≡ false
    pub lt_right : (y : D) → lt y x ≡ false

-- The order of IEEE 754 values.
pub record IsOrdered (D : Type 0) ⦃d : Double D⦄ : Type 0 where
  pub lt-eq-not-le : (x y : D) → IsNumber x → IsNumber y → d.lt x y ≡ not (d.le y x)
  pub le_of_lt : (x y : D) → d.lt x y ≡ true → d.le x y ≡ true
  pub number_of_le : (x y : D) → d.le x y ≡ true → IsNumber x × IsNumber y
  pub le_trans : (x y z : D) → d.le x y ≡ true → d.le y z ≡ true → d.le x z ≡ true
  pub nought_number : IsNumber d.nought

-- NaN passes through a subtraction and `std::abs`.
pub record IsNaNStrict (D : Type 0) ⦃d : Double D⦄ : Type 0 where
  pub sub_left : (x y : D) → IsNaN x → IsNaN (d.sub x y)
  pub abs_nan : (x : D) → IsNaN x → IsNaN (d.abs x)

-- Addition without rounding.
pub record IsExact (D : Type 0) ⦃d : Double D⦄ : Type 0 where
  pub add_comm : (x y : D) → d.add x y ≡ d.add y x
  pub add_assoc : (x y z : D) → d.add (d.add x y) z ≡ d.add x (d.add y z)
  pub nought_add : (x : D) → d.add d.nought x ≡ x
  pub two_mul : (x : D) → d.mul d.two x ≡ d.add x x
