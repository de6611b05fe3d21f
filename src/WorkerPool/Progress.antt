-- ===== src/WorkerPool/Progress.antt =====
-- src/client/worker_pool.cpp: every schedule ends, no state is stuck, and all schedules agree with
-- the sequential executor.
use distributed_integration.Base.{
  ℕ, zero, suc, ◌+◌, ◌-◌, ◌*◌, ◌≤◌, ◌<◌, ◌≡◌, ◌⊎◌, inl, inr, refl, sym, ap, ◌∙◌, some, List, [],
  ◌∷◌, map, arith, length, get_elem?, set, replicate, All, Outcome, ok, length-map, get_elem?-map,
  get_elem?_of_lt, eq_of_get_elem?, All-get_elem?,
}
use native.Mathlib.Decide.{dec_lt}
use distributed_integration.Double.{Double}
use distributed_integration.Messages.{Task, Result}
use distributed_integration.Integrator.{Integrator, execute_single_task, execute_tasks_sequential}
use distributed_integration.Methods.{Strategy}
use distributed_integration.Integrator.Reports.{IsSound, execute_single_task-IsReport}
use distributed_integration.WorkerPool.{
  Worker, ready, working, finished, WorkerPool, Pool, worker_result, start, Step, take, leave,
  write, Reach, started, next, IsDone, Parallel, no_tasks, joined,
}
use distributed_integration.WorkerPool.Invariant.{IsStored, Inv, Reach-Inv}

-- The steps that a thread can still take without a new index, at most.
abbrev weight : Worker → ℕ
weight ready = 1
weight (working _) = 2
weight finished = 0

abbrev total_weight : List Worker → ℕ
total_weight [] = 0
total_weight (w ∷ ws) = weight w + total_weight ws

total_weight-set :
    (ws : List Worker) (i : ℕ) (v w : Worker)
    → get_elem? ws i ≡ some v
    → total_weight (set ws i w) + weight v ≡ total_weight ws + weight w
total_weight-set [] i v w e = cc
total_weight-set (x ∷ ws) zero v w e = ground (arith)
total_weight-set (x ∷ ws) (suc i) v w e = omega (arith, total_weight-set ws i v w e)

total_weight-replicate : (n : ℕ) → total_weight (replicate n ready) ≡ n
total_weight-replicate zero = refl
total_weight-replicate (suc n) = omega (arith, total_weight-replicate n)

-- All threads have ended, or one of them has not.
done_or_busy :
    (ws : List Worker)
    → All (λ w. w ≡ finished) ws
      ⊎ ((i : ℕ) × ((get_elem? ws i ≡ some ready)
            ⊎ ((k : ℕ) × (get_elem? ws i ≡ some (working k)))))
done_or_busy [] = inl tt
done_or_busy (ready ∷ ws) = inr (0, inl refl)
done_or_busy (working k ∷ ws) = inr (0, inr (k, refl))
done_or_busy (finished ∷ ws) = elim (done_or_busy ws) [
  | inl all ↦ inl (refl, all)
  | inr (i, busy) ↦ inr (suc i, busy)
]

module _ {D : Type 0} ⦃d : Double D⦄ (g : Integrator D) (n : ℕ) (tasks : List (Task D)) where
  abbrev measure : Pool D → ℕ
  measure s = 2 * (length tasks - s.task_index) + total_weight s.workers

  Step-measure : {s t : Pool D} → Step g tasks s t → measure t < measure s
  Step-measure {s} (take i now room) =
      omega (arith, total_weight-set s.workers i ready (working s.task_index) now)
  Step-measure {s} (leave i now all) =
      omega (arith, total_weight-set s.workers i ready finished now)
  Step-measure {s} (write i k task r now here value) =
      omega (arith, total_weight-set s.workers i (working k) ready now)

  -- The number of steps of a schedule.
  abbrev pub steps : {s : Pool D} → Reach g n tasks s → ℕ
  steps started = 0
  steps (next before step) = suc (steps before)

  steps-measure : {s : Pool D} (r : Reach g n tasks s) → steps r + measure s ≤ 2 * length tasks + n
  unfolding start
  steps-measure started = omega (arith, total_weight-replicate n)
  steps-measure (next before step) = omega (arith, steps-measure before, Step-measure step)

  steps-le : {s : Pool D} (r : Reach g n tasks s) → steps r ≤ 2 * length tasks + n
  steps-le r = omega (arith, steps-measure r)

  -- In no reachable state are two threads at work on one task.
  exclusive :
      {s : Pool D}
      → Reach g n tasks s
      → (i j k : ℕ) → get_elem? s.workers i ≡ some (working k)
      → get_elem? s.workers j ≡ some (working k)
      → i ≡ j
  exclusive r = (Reach-Inv g tasks r).unique

  -- Each task has a result, so that no thread is cut short.
  abbrev pub HasResults : Type 0
  HasResults = All (λ task. (r : Result D) × (worker_result g task ≡ ok r)) tasks

  module _ (has_results : HasResults) where
    busy-Step :
        (s : Pool D) (i : ℕ)
        → Inv g tasks n s
        → (get_elem? s.workers i ≡ some ready)
          ⊎ ((k : ℕ) × (get_elem? s.workers i ≡ some (working k)))
        → (t : Pool D) × Step g tasks s t
    busy-Step s i inv (inl now) = elim (dec_lt s.task_index (length tasks)) [
      | yes room ↦ (_, take i now room)
      | no full ↦ (_, leave i now (omega arith))
    ]
    busy-Step s i inv (inr (k, now)) =
        let (task, here) = get_elem?_of_lt tasks k (omega (arith, inv.taken i k now, inv.index)) in
        let (r, value) = All-get_elem? _ tasks k task has_results here in
        (_, write i k task r now here value)

    finish :
        (fuel : ℕ) (s : Pool D)
        → measure s ≤ fuel
        → Reach g n tasks s
        → (t : Pool D) × Reach g n tasks t × IsDone t
    finish zero s m r = elim (done_or_busy s.workers) [
      | inl done ↦ (s, r, done)
      | inr (i, busy) ↦
          let (t, step) = busy-Step s i (Reach-Inv g tasks r) busy in
          absurd (omega (arith, Step-measure step))
    ]
    finish (suc fuel) s m r = elim (done_or_busy s.workers) [
      | inl done ↦ (s, r, done)
      | inr (i, busy) ↦
          let (t, step) = busy-Step s i (Reach-Inv g tasks r) busy in
          finish fuel t (omega (arith, Step-measure step)) (next r step)
    ]

    -- If each task has a result, every schedule of `n` threads comes to its end: none takes more than
    -- two steps for each task and one for each thread, and from every state that can be reached the
    -- threads can go on to a state where all of them have ended.
    pub Reach-ends :
        {s : Pool D} (r : Reach g n tasks s)
        → (steps r ≤ 2 * length tasks + n) × ((t : Pool D) × Reach g n tasks t × IsDone t)
    Reach-ends {s} r = (steps-le r, finish (measure s) s (omega arith) r)

  done-IsStored :
      {s : Pool D}
      → 0 < n
      → Reach g n tasks s
      → IsDone s
      → (k : ℕ) → k < length tasks
      → IsStored g tasks s.results k
  done-IsStored {s} pos r done k lt =
      let inv = Reach-Inv g tasks r in
      let (w, first) = get_elem?_of_lt s.workers 0 (omega (arith, inv.threads)) in
      let ended = All-get_elem? (λ v. v ≡ finished) s.workers 0 w done first in
      elim (inv.stored k (omega (arith, inv.left 0 (first ∙ ap some ended)))) [
        | inl (j, held) ↦
            let wrong = All-get_elem? (λ v. v ≡ finished) s.workers j (working k) done held in cc
        | inr stored ↦ stored
      ]

  done-results :
      {s : Pool D}
      → 0 < n
      → Reach g n tasks s
      → IsDone s
      → map ok s.results ≡ map (worker_result g) tasks
  done-results {s} pos r done =
      let inv = Reach-Inv g tasks r in
      let oks : List (Outcome (Result D)) = map ok s.results in
      let count : length oks ≡ length s.results = length-map s.results ok in
      eq_of_get_elem? _ _
        (length-map s.results ok ∙ inv.size ∙ sym (length-map tasks (worker_result g)))
        λ k lt.
          let (task, q, here, at, value) =
            done-IsStored pos r done k (omega (arith, inv.size, count)) in
          get_elem?-map s.results ok k at
          ∙ ap some (sym value)
          ∙ sym (get_elem?-map tasks (worker_result g) k here)

module _ {D : Type 0} ⦃d : Double D⦄ where
  sequential-eq-ok :
      (g : Integrator D) (tasks : List (Task D)) (results : List (Result D))
      → map ok results ≡ map (worker_result g) tasks
      → execute_tasks_sequential g tasks ≡ ok results
  unfolding execute_tasks_sequential worker_result
  sequential-eq-ok g [] [] e = refl
  sequential-eq-ok g [] (r ∷ rs) e = cc
  sequential-eq-ok g (t ∷ ts) [] e = cc
  sequential-eq-ok g (t ∷ ts) (r ∷ rs) e =
      let first : execute_single_task g t ≡ ok r = sym (cc) in
      let others : map ok rs ≡ map (worker_result g) ts = cc in
      rw (first, sequential-eq-ok g ts rs others)

  -- However the threads of a pool with at least one thread interleave, the results that they leave
  -- behind are those of the sequential executor on the same tasks.
  pub Parallel-sequential :
      (pool : WorkerPool D) (tasks : List (Task D)) (results : List (Result D))
      → 0 < pool.num_threads
      → Parallel pool tasks results
      → execute_tasks_sequential pool.integrator tasks ≡ ok results
  Parallel-sequential pool [] [] pos no_tasks = sequential-eq-ok pool.integrator [] [] refl
  Parallel-sequential pool tasks results pos (joined _ s _ r done) =
      sequential-eq-ok pool.integrator tasks s.results
        (done-results pool.integrator pool.num_threads tasks pos r done)

  -- If each task has a result, the parallel call can return: some schedule of the threads ends and
  -- leaves results behind.
  pub Parallel-total :
      (pool : WorkerPool D) (tasks : List (Task D))
      → HasResults pool.integrator pool.num_threads tasks
      → (results : List (Result D)) × Parallel pool tasks results
  Parallel-total pool [] has = ([], no_tasks)
  Parallel-total pool (t ∷ ts) has =
      let (_, (s, r, done)) = Reach-ends pool.integrator pool.num_threads (t ∷ ts) has started in
      (s.results, joined (t ∷ ts) s (omega arith) r done)

  -- A strategy that is defined on every task gives every task a result.
  pub HasResults_of_sound :
      (s : Strategy D) (n : ℕ) (tasks : List (Task D))
      → All (IsSound s) tasks
      → HasResults (record { strategy = some s }) n tasks
  unfolding worker_result execute_single_task
  HasResults_of_sound s n [] sound = tt
  HasResults_of_sound s n (task ∷ tasks) sound =
      let (r, e, _) = execute_single_task-IsReport s task sound.0 in
      ((r, e), HasResults_of_sound s n tasks sound.1)
