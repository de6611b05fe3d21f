-- ===== src/Messages/Validity.antt =====
-- src/common/messages.h, Task::is_valid: what it accepts.
use distributed_integration.Base.{◌≡◌, ◌↔◌, ◌⊎◌, true, arith}
use distributed_integration.Double.{Double, IsNumber, IsOrdered, IsNaN, IsNaNStrict}
use distributed_integration.Messages.Defs.{Task, task_is_valid}

module _ {D : Type 0} ⦃d : Double D⦄ where
  open d use {nought, one, epsilon, lt, le, sub, abs}

  -- No value that the test compares is NaN.
  pub record IsNumeric (t : Task D) : Type 0 where
    pub begin_number : IsNumber t.begin
    pub end_number : IsNumber t.end
    pub step_number : IsNumber t.step
    pub width_number : IsNumber (sub t.end t.begin)
    pub from_one_number : IsNumber (abs (sub t.begin one))
    pub to_one_number : IsNumber (abs (sub t.end one))
    pub one_number : IsNumber one
    pub epsilon_number : IsNumber epsilon

  -- The interval is not empty and wider than the positive step, lies in the positive numbers on one
  -- side of 1, and its ends keep clear of 1.
  pub record IsWellPosed (t : Task D) : Type 0 where
    pub increasing : lt t.begin t.end ≡ true
    pub step_positive : lt nought t.step ≡ true
    pub step_fits : lt t.step (sub t.end t.begin) ≡ true
    pub begin_positive : lt nought t.begin ≡ true
    pub one_side : (le one t.begin ≡ true) ⊎ (le t.end one ≡ true)
    pub begin_clear : le epsilon (abs (sub t.begin one)) ≡ true
    pub end_clear : le epsilon (abs (sub t.end one)) ≡ true

  module _ (laws : IsOrdered D) where
    open laws use {lt-eq-not-le, nought_number}

    -- If the values are ordered and none that the test compares is NaN, it accepts exactly the
    -- well-posed tasks.
    pub task_is_valid_iff : (t : Task D) → IsNumeric t → (task_is_valid t ≡ true) ↔ IsWellPosed t
    unfolding task_is_valid
    task_is_valid_iff t n = (
      λ h. ground (
        arith,
        lt-eq-not-le t.begin t.end n.begin_number n.end_number,
        lt-eq-not-le nought t.step nought_number n.step_number,
        lt-eq-not-le t.step (sub t.end t.begin) n.step_number n.width_number,
        lt-eq-not-le nought t.begin nought_number n.begin_number,
        lt-eq-not-le t.begin one n.begin_number n.one_number,
        lt-eq-not-le one t.end n.one_number n.end_number,
        lt-eq-not-le (abs (sub t.begin one)) epsilon n.from_one_number n.epsilon_number,
        lt-eq-not-le (abs (sub t.end one)) epsilon n.to_one_number n.epsilon_number,
      ),
      λ w. ground (
        arith,
        lt-eq-not-le t.begin t.end n.begin_number n.end_number,
        lt-eq-not-le nought t.step nought_number n.step_number,
        lt-eq-not-le t.step (sub t.end t.begin) n.step_number n.width_number,
        lt-eq-not-le nought t.begin nought_number n.begin_number,
        lt-eq-not-le t.begin one n.begin_number n.one_number,
        lt-eq-not-le one t.end n.one_number n.end_number,
        lt-eq-not-le (abs (sub t.begin one)) epsilon n.from_one_number n.epsilon_number,
        lt-eq-not-le (abs (sub t.end one)) epsilon n.to_one_number n.epsilon_number,
      ),
    )

  -- If NaN passes through a subtraction and `std::abs`, a task whose limits and step are all NaN
  -- passes the test.
  pub nan-task_is_valid :
      (t : Task D)
      → IsNaNStrict D
      → IsNaN t.begin
      → IsNaN t.end
      → IsNaN t.step
      → task_is_valid t ≡ true
  unfolding task_is_valid
  nan-task_is_valid t strict b e s =
      let width = strict.sub_left t.end t.begin e in
      let from_one = strict.abs_nan _ (strict.sub_left t.begin one b) in
      let to_one = strict.abs_nan _ (strict.sub_left t.end one e) in
      rw (
        e.le_left t.begin,
        s.le_left nought,
        width.le_left t.step,
        b.le_left nought,
        b.lt_left one,
        from_one.lt_left epsilon,
        to_one.lt_left epsilon,
      )
