-- ===== src/WorkerPool/Invariant.antt =====
-- src/client/worker_pool.cpp: what holds whenever the threads stop between two steps.
use distributed_integration.Base.{
  ℕ, zero, suc, ◌+◌, ◌≤◌, ◌<◌, ◌≡◌, ◌≢◌, ◌⊎◌, inl, inr, sym, ap, ◌∙◌, some, List, arith, length,
  get_elem?, set, replicate, ok, length-set, length-replicate, get_elem?-set_self, get_elem?-set_ne,
  get_elem?-lt,
}
use native.Mathlib.Decide.{ℕ_discrete}
use distributed_integration.Double.{Double}
use distributed_integration.Messages.{Task, Result}
use distributed_integration.Integrator.{Integrator}
use distributed_integration.WorkerPool.{
  Worker, ready, working, finished, Pool, worker_result, start, Step, take, leave, write, Reach,
  started, next,
}

module _ {D : Type 0} ⦃d : Double D⦄ (g : Integrator D) (tasks : List (Task D)) where
  -- The result of the task at index `k` is in its place.
  abbrev pub IsStored : List (Result D) → ℕ → Type 0
  IsStored results k =
      (task : Task D) × (r : Result D) × (get_elem? tasks k ≡ some task)
      × (get_elem? results k ≡ some r)
      × (worker_result g task ≡ ok r)

  abbrev pub IsHeld : List Worker → ℕ → Type 0
  IsHeld workers k = (j : ℕ) × (get_elem? workers j ≡ some (working k))

  pub record Inv (n : ℕ) (s : Pool D) : Type 0 where
    pub threads : length s.workers ≡ n
    pub size : length s.results ≡ length tasks
    pub index : s.task_index ≤ length tasks
    pub taken : (j k : ℕ) → get_elem? s.workers j ≡ some (working k) → k < s.task_index
    pub unique :
        (i j k : ℕ)
        → get_elem? s.workers i ≡ some (working k)
        → get_elem? s.workers j ≡ some (working k)
        → i ≡ j
    pub stored : (k : ℕ) → k < s.task_index → IsHeld s.workers k ⊎ IsStored s.results k
    pub left : (j : ℕ) → get_elem? s.workers j ≡ some finished → length tasks ≤ s.task_index

  get_elem?-replicate : (n j : ℕ) (w v : Worker) → get_elem? (replicate n w) j ≡ some v → w ≡ v
  get_elem?-replicate zero j w v e = cc
  get_elem?-replicate (suc n) zero w v e = ground arith
  get_elem?-replicate (suc n) (suc j) w v e = get_elem?-replicate n j w v e

  Inv-start : (n : ℕ) → Inv n (start n tasks)
  unfolding start
  Inv-start n = record {
    threads = length-replicate n ready;
    size = length-replicate (length tasks) _;
    index = omega arith;
    taken = λ j k e. ground (arith, get_elem?-replicate n j ready (working k) e);
    unique = λ i j k e f. ground (arith, get_elem?-replicate n j ready (working k) f);
    stored = λ k lt. absurd (omega arith);
    left = λ j e. ground (arith, get_elem?-replicate n j ready finished e);
  }

  -- What thread `j` does after thread `i` was set to `w`.
  after-set :
      (ws : List Worker) (i j : ℕ) (v w u : Worker)
      → get_elem? ws i ≡ some v
      → get_elem? (set ws i w) j ≡ some u
      → ((i ≡ j) × (w ≡ u)) ⊎ ((i ≢ j) × (get_elem? ws j ≡ some u))
  after-set ws i j v w u now e = elim (ℕ_discrete i j) [
    | yes same ↦
        inl (same, ground (arith, get_elem?-set_self ws i w (get_elem?-lt ws i v now), same, e))
    | no differ ↦ inr (differ, sym (get_elem?-set_ne ws i j w differ) ∙ e)
  ]

  -- A thread other than `i` goes on holding its index.
  IsHeld-set :
      (ws : List Worker) (i k : ℕ) (v w : Worker)
      → get_elem? ws i ≡ some v
      → v ≢ working k
      → IsHeld ws k
      → IsHeld (set ws i w) k
  IsHeld-set ws i k v w now other (j, e) = elim (ℕ_discrete i j) [
    | yes same ↦ absurd (other (ground (arith, now, e, same)))
    | no differ ↦ (j, get_elem?-set_ne ws i j w differ ∙ e)
  ]

  module _ {n : ℕ} {s : Pool D} (inv : Inv n s) (i : ℕ) where
    open inv use {threads, size, index, taken, unique, stored, left}

    -- A thread that stops holding an index leaves the others alone.
    free_unique :
        (v w : Worker)
        → get_elem? s.workers i ≡ some v
        → ((k : ℕ) → w ≢ working k)
        → (a b k : ℕ) → get_elem? (set s.workers i w) a ≡ some (working k)
        → get_elem? (set s.workers i w) b ≡ some (working k)
        → a ≡ b
    free_unique v w now free a b k ea eb = elim (after-set s.workers i a v w (working k) now ea) [
      | inl (same, is) ↦ absurd (free k is)
      | inr (differ, old_a) ↦ elim (after-set s.workers i b v w (working k) now eb) [
        | inl (same, is) ↦ absurd (free k is)
        | inr (differ', old_b) ↦ unique a b k old_a old_b
      ]
    ]

    take_unique :
        get_elem? s.workers i ≡ some ready
        → (a b k : ℕ) → get_elem? (set s.workers i (working s.task_index)) a ≡ some (working k)
        → get_elem? (set s.workers i (working s.task_index)) b ≡ some (working k)
        → a ≡ b
    take_unique now a b k ea eb = ground (
      arith,
      after-set s.workers i a ready (working s.task_index) (working k) now ea,
      after-set s.workers i b ready (working s.task_index) (working k) now eb,
      taken a k,
      taken b k,
      unique a b k,
    )

    take-IsStored :
        get_elem? s.workers i ≡ some ready
        → (k : ℕ) → k < s.task_index + 1
        → IsHeld (set s.workers i (working s.task_index)) k ⊎ IsStored s.results k
    take-IsStored now k lt = elim (ℕ_discrete k s.task_index) [
      | yes new ↦ inl (
        i,
        get_elem?-set_self s.workers i _ (get_elem?-lt s.workers i ready now)
            ∙ ap (λ m. some (working m)) (sym new),
      )
      | no old ↦ elim (stored k (omega arith)) [
        | inl held ↦ inl (IsHeld-set s.workers i k ready (working s.task_index) now (λ e. cc) held)
        | inr done ↦ inr done
      ]
    ]

    write-IsStored :
        (k : ℕ) (task : Task D) (r : Result D)
        → get_elem? s.workers i ≡ some (working k)
        → get_elem? tasks k ≡ some task
        → worker_result g task ≡ ok r
        → (m : ℕ) → m < s.task_index
        → IsHeld (set s.workers i ready) m ⊎ IsStored (set s.results k r) m
    write-IsStored k task r now here value m lt = elim (ℕ_discrete k m) [
      | yes same ↦ inr (
        task,
        r,
        ap (get_elem? tasks) (sym same) ∙ here,
        ap (get_elem? (set s.results k r)) (sym same)
            ∙ get_elem?-set_self s.results k r (omega (arith, taken i k now)),
        value,
      )
      | no differ ↦ elim (stored m lt) [
        | inl held ↦
            inl (
              IsHeld-set s.workers i m (working k) ready now (λ e. differ (ground (arith, e))) held)
        | inr (t, q, et, eq, v) ↦ inr (t, q, et, get_elem?-set_ne s.results k m r differ ∙ eq, v)
      ]
    ]

    take-Inv :
        get_elem? s.workers i ≡ some ready
        → s.task_index < length tasks
        → Inv n (record s {
          task_index = s.task_index + 1;
          workers = set s.workers i (working s.task_index);
        })
    take-Inv now room = record {
      threads = length-set s.workers i _ ∙ threads;
      size = size;
      index = omega arith;
      taken = λ j k e.
          elim (after-set s.workers i j ready (working s.task_index) (working k) now e) [
            | inl (same, is) ↦ ground arith
            | inr (differ, old) ↦ omega (arith, taken j k old)
          ];
      unique = take_unique now;
      stored = take-IsStored now;
      left = λ j e. elim (after-set s.workers i j ready (working s.task_index) finished now e) [
        | inl (same, is) ↦ cc
        | inr (differ, old) ↦ absurd (omega (arith, left j old))
      ];
    }

    leave-Inv :
        get_elem? s.workers i ≡ some ready
        → length tasks ≤ s.task_index
        → Inv n (record s { workers = set s.workers i finished })
    leave-Inv now all = record {
      threads = length-set s.workers i _ ∙ threads;
      size = size;
      index = index;
      taken = λ j k e. elim (after-set s.workers i j ready finished (working k) now e) [
        | inl (same, is) ↦ cc
        | inr (differ, old) ↦ taken j k old
      ];
      unique = free_unique ready finished now (λ k e. cc);
      stored = λ k lt. elim (stored k lt) [
        | inl held ↦ inl (IsHeld-set s.workers i k ready finished now (λ e. cc) held)
        | inr done ↦ inr done
      ];
      left = λ j e. all;
    }

    write-Inv :
        (k : ℕ) (task : Task D) (r : Result D)
        → get_elem? s.workers i ≡ some (working k)
        → get_elem? tasks k ≡ some task
        → worker_result g task ≡ ok r
        → Inv n (record s { results = set s.results k r; workers = set s.workers i ready })
    write-Inv k task r now here value = record {
      threads = length-set s.workers i _ ∙ threads;
      size = length-set s.results k _ ∙ size;
      index = index;
      taken = λ j m e. elim (after-set s.workers i j (working k) ready (working m) now e) [
        | inl (same, is) ↦ cc
        | inr (differ, old) ↦ taken j m old
      ];
      unique = free_unique (working k) ready now (λ m e. cc);
      stored = write-IsStored k task r now here value;
      left = λ j e. elim (after-set s.workers i j (working k) ready finished now e) [
        | inl (same, is) ↦ cc
        | inr (differ, old) ↦ left j old
      ];
    }

  Step-Inv : {n : ℕ} {s t : Pool D} → Step g tasks s t → Inv n s → Inv n t
  Step-Inv (take i now room) inv = take-Inv inv i now room
  Step-Inv (leave i now all) inv = leave-Inv inv i now all
  Step-Inv (write i k task r now here value) inv = write-Inv inv i k task r now here value

  pub Reach-Inv : {n : ℕ} {s : Pool D} → Reach g n tasks s → Inv n s
  Reach-Inv {n} started = Inv-start n
  Reach-Inv (next before step) = Step-Inv step (Reach-Inv before)
