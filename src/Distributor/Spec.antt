-- ===== src/Distributor/Spec.antt =====
-- src/server/task_distributor.cpp: what a distribution promises, and the laws of the map.
use distributed_integration.Base.{
  ℕ, ◌+◌, ◌<◌, ◌≡◌, ◌≢◌, Option, none, some, List, [], ◌∷◌, ◌++◌, arith, length, All, ==_refl,
}
use distributed_integration.Messages.{Task, TaskBatch}
use distributed_integration.Distributor.{ClientRef, assign, find}

module _ {ℓ} {V : Type ℓ} where
  pub find-assign_self : (k : ℕ) (v : V) (m : List (ℕ × V)) → find k (assign k v m) ≡ some v
  unfolding find assign
  find-assign_self k v [] = ground (arith, ==_refl k)
  find-assign_self k v ((j, w) ∷ m) = ground (arith, ==_refl k, find-assign_self k v m)

  pub find-assign_ne :
      (k j : ℕ) (v : V) (m : List (ℕ × V)) → k ≢ j → find j (assign k v m) ≡ find j m
  unfolding find assign
  find-assign_ne k j v [] h = ground arith
  find-assign_ne k j v ((i, w) ∷ m) h = ground (arith, find-assign_ne k j v m h)

-- The clients have distinct identifiers.
abbrev pub IsOther : ℕ → ClientRef → Type 0
IsOther k c = c.client_id ≢ k

abbrev pub Distinct : List ClientRef → Type 0
Distinct [] = Unit
Distinct (c ∷ cs) = All (IsOther c.client_id) cs × Distinct cs

abbrev pub HasCores : ClientRef → Type 0
HasCores c = 0 < c.cpu_cores

-- The count of cores, without wrapping around.
abbrev pub cores : List ClientRef → ℕ
cores [] = 0
cores (c ∷ cs) = c.cpu_cores + cores cs

module _ {D : Type 0} where
  -- Each task begins where the one before it ends, from `from` to `to`, and all have the step.
  abbrev pub Tiles : (step from to : D) → List (Task D) → Type 0
  Tiles step from to [] = from ≡ to
  Tiles step from to (t ∷ ts) = (t.begin ≡ from) × (t.step ≡ step) × Tiles step t.end to ts

  pub Tiles-append :
      (step from mid to : D) (xs ys : List (Task D))
      → Tiles step from mid xs
      → Tiles step mid to ys
      → Tiles step from to (xs ++ ys)
  Tiles-append step from mid to [] ys p q = rw p q
  Tiles-append step from mid to (x ∷ xs) ys p q =
      (p.0, p.1, Tiles-append step x.end mid to xs ys p.2 q)

  -- The identifiers of the tasks count up from `n`.
  abbrev pub IsNumbered : ℕ → List (Task D) → Type 0
  IsNumbered n [] = Unit
  IsNumbered n (t ∷ ts) = (t.id ≡ n) × IsNumbered (n + 1) ts

  pub IsNumbered-append :
      (n m : ℕ) (xs ys : List (Task D))
      → m ≡ n + length xs
      → IsNumbered n xs
      → IsNumbered m ys
      → IsNumbered n (xs ++ ys)
  IsNumbered-append n m [] ys e p q = let e' : n ≡ m = omega arith in rw e' q
  IsNumbered-append n m (x ∷ xs) ys e p q =
      (p.0, IsNumbered-append (n + 1) m xs ys (omega arith) p.1 q)

  -- The tasks of the batch that the map holds for a client.
  abbrev pub batch_tasks : Option (TaskBatch D) → List (Task D)
  batch_tasks none = []
  batch_tasks (some b) = b.tasks

  -- All tasks, in the order in which the server sends them: client by client.
  abbrev pub sent : List ClientRef → List (ℕ × TaskBatch D) → List (Task D)
  sent [] m = []
  sent (c ∷ cs) m = batch_tasks (find c.client_id m) ++ sent cs m

  -- The client has a batch, with one task for each core.
  abbrev pub IsServed : List (ℕ × TaskBatch D) → ClientRef → Type 0
  IsServed m c = (b : TaskBatch D) × (find c.client_id m ≡ some b) × (length b.tasks ≡ c.cpu_cores)
