-- ===== src/Distributor/Cut.antt =====
-- src/server/task_distributor.cpp: the tasks that a distribution is to make, written down task by task,
-- and the loop of one client against them.
use distributed_integration.Base.{
  ℕ, zero, suc, ◌+◌, ◌-◌, ◌<◌, ◌≡◌, refl, ap, ◌∙◌, true, false, ◌&&◌, List, [], ◌∷◌, ◌++◌, foldl,
  arith, ◌==◌, length, replicate,
}
use distributed_integration.Base.Words.{u64, u64-eq}
use distributed_integration.Double.{Double}
use distributed_integration.Messages.{Task}
use distributed_integration.Distributor.{ClientRef, Cursor, advance, task_end, tasks_loop}
use distributed_integration.Distributor.Batch.{Fits}

module _ {D : Type 0} ⦃d : Double D⦄ (whole : D) (total : ℕ) where
  open d use {mul, div, of_uint}

  -- The width of a task of the client: its share of the whole is in proportion to its cores, and has
  -- one task for each of them.
  abbrev pub width_of : ClientRef → D
  width_of client =
      div (div (mul whole (of_uint client.cpu_cores)) (of_uint total)) (of_uint client.cpu_cores)

  -- The widths of all tasks, client by client.
  abbrev pub widths : List ClientRef → List D
  widths [] = []
  widths (c ∷ cs) = replicate c.cpu_cores (width_of c) ++ widths cs

module _ {D : Type 0} ⦃d : Double D⦄ (step : D) where
  open d use {add}

  -- Tasks of these widths one behind the other, with identifiers that count up.
  abbrev pub strip : (id : ℕ) → (from : D) → (widths : List D) → List (Task D)
  strip id from [] = []
  strip id from (w ∷ ws) =
      record { id = id; begin = from; end = add from w; step = step }
      ∷ strip (id + 1) (add from w) ws

  -- The same, but the last task of all ends at the upper limit.
  abbrev pub cut : (upper : D) → (id : ℕ) → (from : D) → (widths : List D) → List (Task D)
  cut upper id from [] = []
  cut upper id from (w ∷ []) = record { id = id; begin = from; end = upper; step = step } ∷ []
  cut upper id from (w ∷ v ∷ ws) =
      record { id = id; begin = from; end = add from w; step = step }
      ∷ cut upper (id + 1) (add from w) (v ∷ ws)

  cut-append :
      (upper : D) (id n : ℕ) (from : D) (ws : List D) (v : D) (vs : List D)
      → n ≡ id + length ws
      → strip id from ws ++ cut upper n (foldl add from ws) (v ∷ vs)
        ≡ cut upper id from (ws ++ (v ∷ vs))
  cut-append upper id n from [] v vs e =
      let same : n ≡ id = omega arith in ap (λ k. cut upper k from (v ∷ vs)) same
  cut-append upper id n from (w ∷ []) v vs e =
      let same : n ≡ id + 1 = omega arith in
      ap
        (λ k.
          record { id = id; begin = from; end = add from w; step = step }
          ∷ cut upper k (add from w) (v ∷ vs))
        same
  cut-append upper id n from (w ∷ u ∷ ws) v vs e =
      ap (λ l. record { id = id; begin = from; end = add from w; step = step } ∷ l)
        (cut-append upper (id + 1) n (add from w) (u ∷ ws) v vs (omega arith))

  -- A strip with the rest of the cut behind it.
  pub cut-join :
      (upper : D) (id : ℕ) (from : D) (ws vs : List D) (c : Cursor D) (xs ys : List (Task D))
      → 0 < length vs
      → c.task_id ≡ id + length ws
      → xs ≡ strip id from ws
      → c.position ≡ foldl add from ws
      → ys ≡ cut upper c.task_id c.position vs
      → xs ++ ys ≡ cut upper id from (ws ++ vs)
  cut-join upper id from ws [] c xs ys some_width next e f h = absurd (omega arith)
  cut-join upper id from ws (v ∷ vs) c xs ys some_width next e f h =
      rw (e, h, f) (cut-append upper id c.task_id from ws v vs next)

  module _ (upper range : D) (n : ℕ) where
    -- The loop of a client that is not the last one.
    pub tasks_loop-strip :
        (left j : ℕ) (c : Cursor D)
        → Fits c left
        → ((tasks_loop upper step range n false left j c).0
            ≡ strip c.task_id c.position (replicate left range))
          × ((tasks_loop upper step range n false left j c).1.position
              ≡ foldl add c.position (replicate left range))
    unfolding tasks_loop task_end
    tasks_loop-strip zero j c fits = (refl, refl)
    tasks_loop-strip (suc left) j c fits =
        let inside : (j == n - 1 && false) ≡ false = ground arith in
        let next : u64 (c.task_id + 1) ≡ c.task_id + 1 = u64-eq (c.task_id + 1) (omega arith) in
        let counted : u64 (c.total + 1) ≡ c.total + 1 = u64-eq (c.total + 1) (omega arith) in
        let (tasks, position) =
          tasks_loop-strip left (j + 1) (advance c (add c.position range))
            (omega (arith, next, counted)) in
        let task : Task D = record {
          id = c.task_id;
          begin = c.position;
          end = add c.position range;
          step = step;
        } in
        (
          rw inside (
              ap (λ ts. task ∷ ts) tasks
              ∙ ap (λ k. task ∷ strip k (add c.position range) (replicate left range)) next),
          rw inside position,
        )

    -- The loop of the last client.
    pub tasks_loop-cut :
        (left j : ℕ) (c : Cursor D)
        → Fits c left
        → j + left ≡ n
        → (tasks_loop upper step range n true left j c).0
          ≡ cut upper c.task_id c.position (replicate left range)
    unfolding tasks_loop task_end
    tasks_loop-cut zero j c fits e = refl
    tasks_loop-cut (suc zero) j c fits e =
        let last : (j == n - 1 && true) ≡ true = ground arith in rw last refl
    tasks_loop-cut (suc (suc left)) j c fits e =
        let inside : (j == n - 1 && true) ≡ false = ground arith in
        let next : u64 (c.task_id + 1) ≡ c.task_id + 1 = u64-eq (c.task_id + 1) (omega arith) in
        let counted : u64 (c.total + 1) ≡ c.total + 1 = u64-eq (c.total + 1) (omega arith) in
        let tasks =
          tasks_loop-cut (suc left) (j + 1) (advance c (add c.position range))
            (omega (arith, next, counted)) (omega arith) in
        let task : Task D = record {
          id = c.task_id;
          begin = c.position;
          end = add c.position range;
          step = step;
        } in
        rw inside (
          ap (λ ts. task ∷ ts) tasks
          ∙ ap (λ k. task ∷ cut upper k (add c.position range) (replicate (suc left) range)) next)
