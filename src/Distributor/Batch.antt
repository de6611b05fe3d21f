-- ===== src/Distributor/Batch.antt =====
-- src/server/task_distributor.cpp: the loop that makes the batch of one client.
use distributed_integration.Base.{
  ℕ, zero, suc, ◌+◌, ◌-◌, ◌^◌, ◌<◌, ◌≡◌, refl, Bool, true, List, ◌∷◌, ◌++◌, arith, ◌==◌, length,
  length-append, ap,
}
use distributed_integration.Base.Words.{u64-eq}
use distributed_integration.Double.{Double}
use distributed_integration.Messages.{Task}
use distributed_integration.Distributor.{Cursor, advance, task_end, tasks_loop}
use distributed_integration.Distributor.Spec.{Tiles, Tiles-append, IsNumbered, IsNumbered-append}

module _ {D : Type 0} ⦃d : Double D⦄ where
  open d use {add, sub, mul, div, of_uint}

  -- What a run of a loop from `c` to `c'` has made: the tasks `ts`.
  pub record Made (step : D) (c c' : Cursor D) (ts : List (Task D)) : Type 0 where
    pub tiles : Tiles step c.position c'.position ts
    pub numbered : IsNumbered c.task_id ts
    pub next_id : c'.task_id ≡ c.task_id + length ts
    pub counted : c'.total ≡ c.total + length ts

  abbrev pub Fits : Cursor D → ℕ → Type 0
  Fits c n = (c.task_id + n < 2 ^ 64) × (c.total + n < 2 ^ 64)

  Made-cons :
      (step end : D) (c c' : Cursor D) (ts : List (Task D))
      → Fits c 1
      → Made step (advance c end) c' ts
      → Made step c c' (record { id = c.task_id; begin = c.position; end = end; step = step } ∷ ts)
  Made-cons step end c c' ts fits made =
      let id = u64-eq (c.task_id + 1) fits.0 in
      let total = u64-eq (c.total + 1) fits.1 in
      record {
        tiles = (refl, refl, made.tiles);
        numbered = (refl, rw id at (made.numbered));
        next_id = omega (arith, made.next_id, id);
        counted = omega (arith, made.counted, total);
      }

  pub Made-append :
      (step : D) (c c₁ c₂ : Cursor D) (xs ys : List (Task D))
      → Made step c c₁ xs
      → Made step c₁ c₂ ys
      → Made step c c₂ (xs ++ ys)
  Made-append step c c₁ c₂ xs ys p q = record {
    tiles = Tiles-append step c.position c₁.position c₂.position xs ys p.tiles q.tiles;
    numbered = IsNumbered-append c.task_id c₁.task_id xs ys p.next_id p.numbered q.numbered;
    next_id = omega (arith, p.next_id, q.next_id, length-append xs ys);
    counted = omega (arith, p.counted, q.counted, length-append xs ys);
  }

  module _ (upper step range : D) (n : ℕ) (last : Bool) where
    pub length-tasks_loop :
        (left j : ℕ) (c : Cursor D) → length (tasks_loop upper step range n last left j c).0 ≡ left
    unfolding tasks_loop
    length-tasks_loop zero j c = refl
    length-tasks_loop (suc left) j c =
        ap suc
          (length-tasks_loop left (j + 1) (advance c (task_end upper range n last j c.position)))

    pub tasks_loop-Made :
        (left j : ℕ) (c : Cursor D)
        → Fits c left
        → let (ts, c') = tasks_loop upper step range n last left j c in Made step c c' ts
    unfolding tasks_loop
    tasks_loop-Made zero j c fits = record {
      tiles = refl;
      numbered = tt;
      next_id = omega arith;
      counted = omega arith;
    }
    tasks_loop-Made (suc left) j c fits =
        let end = task_end upper range n last j c.position in
        let id = u64-eq (c.task_id + 1) (omega arith) in
        let total = u64-eq (c.total + 1) (omega arith) in
        let rest = tasks_loop-Made left (j + 1) (advance c end) (omega (arith, id, total)) in
        Made-cons step end c _ _ (omega arith) rest

  -- The last task of the last client ends at the upper limit.
  pub tasks_loop-position :
      (upper step range : D) (n left j : ℕ) (c : Cursor D)
      → 0 < left
      → j + left ≡ n
      → (tasks_loop upper step range n true left j c).1.position ≡ upper
  unfolding tasks_loop
  tasks_loop-position upper step range n zero j c pos e = absurd (omega arith)
  tasks_loop-position upper step range n (suc zero) j c pos e =
      let now : (j == n - 1) ≡ true = ground arith in rw (now, task_end)
  tasks_loop-position upper step range n (suc (suc left)) j c pos e =
      tasks_loop-position upper step range n (suc left) (j + 1)
        (advance c (task_end upper range n true j c.position)) (omega arith) (omega arith)
