-- ===== src/Examples/Sample.antt =====
-- Number types for the examples: whole numbers (exact), whole numbers with a sum rounded down to
-- tens (a step can be lost), and whole numbers with NaN. The logarithm is 1 from 2 on, and 0 below.
use Prim.Native.Nat.{◌/◌}
use distributed_integration.Base.{
  ℕ, ◌+◌, ◌-◌, ◌*◌, ◌≤◌, ◌<◌, ◌≡◌, refl, true, false, Option, none, some, arith, ltb, leb,
}
use distributed_integration.Double.{Double, IsOrdered, IsExact, IsNaN, IsNaNStrict}
use distributed_integration.Methods.Trapezoidal.Termination.{IsRanked}

abbrev pub whole_log : ℕ → ℕ
whole_log x = elim (leb 2 x) [ true ↦ 1 | false ↦ 0 ]

instance abbrev pub whole : Double ℕ
whole = record {
  nought = 0;
  one = 1;
  two = 2;
  three = 3;
  four = 4;
  epsilon = 1;
  lt = ltb;
  le = leb;
  add = λ a b. a + b;
  sub = λ a b. a - b;
  mul = λ a b. a * b;
  div = λ a b. a / b;
  abs = λ a. a;
  log = whole_log;
  of_uint = λ n. n;
  ceil_u64 = λ a. some a;
}

abbrev pub tens : Double ℕ
tens = record whole { add = λ a b. (a + b) / 10 * 10 }

pub whole-IsOrdered : IsOrdered ℕ ⦃d = whole⦄
whole-IsOrdered = record {
  lt-eq-not-le = λ x y nx ny. ground arith;
  le_of_lt = λ x y h. ground arith;
  number_of_le = λ x y h. ground arith;
  le_trans = λ x y z h k. ground arith;
  nought_number = refl;
}

pub tens-IsOrdered : IsOrdered ℕ ⦃d = tens⦄
tens-IsOrdered = record {
  lt-eq-not-le = λ x y nx ny. ground arith;
  le_of_lt = λ x y h. ground arith;
  number_of_le = λ x y h. ground arith;
  le_trans = λ x y z h k. ground arith;
  nought_number = refl;
}

pub whole-IsExact : IsExact ℕ ⦃d = whole⦄
whole-IsExact = record {
  add_comm = λ x y. omega arith;
  add_assoc = λ x y z. omega arith;
  nought_add = λ x. omega arith;
  two_mul = λ x. omega arith;
}

pub whole_rank_lt : (x y : ℕ) → ltb x y ≡ true → x < y
whole_rank_lt x y h = ground arith

pub whole_rank_le : (x y : ℕ) → leb x y ≡ true → x ≤ y
whole_rank_le x y h = ground arith

abbrev pub whole-IsRanked : IsRanked ℕ ⦃d = whole⦄
whole-IsRanked = record { rank = λ x. x; rank_lt = whole_rank_lt; rank_le = whole_rank_le }

-- `none` is NaN.
abbrev on_both {ℓ} : {A : Type ℓ} → A → (ℕ → ℕ → A) → Option ℕ → Option ℕ → A
on_both nan f (some a) (some b) = f a b
on_both nan f none b = nan
on_both nan f (some a) none = nan

abbrev on_one : (ℕ → ℕ) → Option ℕ → Option ℕ
on_one f none = none
on_one f (some a) = some (f a)

instance abbrev pub partial : Double (Option ℕ)
partial = record {
  nought = some 0;
  one = some 1;
  two = some 2;
  three = some 3;
  four = some 4;
  epsilon = some 1;
  lt = on_both false ltb;
  le = on_both false leb;
  add = on_both none (λ a b. some (a + b));
  sub = on_both none (λ a b. some (a - b));
  mul = on_both none (λ a b. some (a * b));
  div = on_both none (λ a b. some (a / b));
  abs = λ a. a;
  log = on_one whole_log;
  of_uint = λ n. some n;
  ceil_u64 = λ a. a;
}

pub none-IsNaN : IsNaN ⦃d = partial⦄ none
none-IsNaN = record {
  le_left = λ y. refl;
  le_right = λ y. elim y as (λ z. on_both false leb z none ≡ false) [ none ↦ refl | some b ↦ refl ];
  lt_left = λ y. refl;
  lt_right = λ y. elim y as (λ z. on_both false ltb z none ≡ false) [ none ↦ refl | some b ↦ refl ];
}

sub_left :
    (x y : Option ℕ)
    → IsNaN ⦃d = partial⦄ x
    → IsNaN ⦃d = partial⦄ (on_both none (λ a b. some (a - b)) x y)
sub_left none y h = none-IsNaN
sub_left (some a) y h = absurd (ground (arith, h.le_left (some a)))

pub partial-IsNaNStrict : IsNaNStrict (Option ℕ) ⦃d = partial⦄
partial-IsNaNStrict = record { sub_left = sub_left; abs_nan = λ x h. h }
