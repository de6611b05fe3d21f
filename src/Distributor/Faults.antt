-- ===== src/Distributor/Faults.antt =====
-- src/server/task_distributor.cpp: the calls that do not give a distribution.
use distributed_integration.Base.{
  ℕ, zero, suc, ◌+◌, ◌≡◌, refl, List, [], ◌∷◌, arith, ◌==◌, true, length, get_elem?, some,
  Bool-cases, inl, inr, throw, runtime_error, undefined,
}
use mathlib.Core.Option
use distributed_integration.Double.{Double}
use distributed_integration.Messages.{TaskBatch}
use distributed_integration.Distributor.{
  ClientRef, Distributor, Cursor, sum_cores, calculate_tasks_per_client, clients_loop,
  distribute_tasks,
}

-- The client at index `i` has no cores.
abbrev pub IsIdleAt : List ClientRef → ℕ → Type 0
IsIdleAt clients i = (c : ClientRef) × (get_elem? clients i ≡ some c) × (c.cpu_cores ≡ 0)

module _ {D : Type 0} ⦃d : Double D⦄ where
  clients_loop_undefined :
      (lower upper step : D) (total_cores size i : ℕ) (clients : List ClientRef)
      (m : List (ℕ × TaskBatch D)) (c : Cursor D) (j : ℕ)
      → IsIdleAt clients j
      → clients_loop lower upper step total_cores size i clients
          (calculate_tasks_per_client clients)
          m
          c
        ≡ undefined
  unfolding clients_loop calculate_tasks_per_client
  clients_loop_undefined lower upper step total_cores size i [] m c j (x, e, z) = cc
  clients_loop_undefined lower upper step total_cores size i (client ∷ clients) m c zero (x, e, z) =
      let same : client ≡ x = Option.some-injective _ _ e in
      let idle : (client.cpu_cores == 0) ≡ true = rw same (ground arith) in rw idle
  clients_loop_undefined lower upper step total_cores size i (client ∷ clients) m c (suc j) idle =
      elim (Bool-cases (client.cpu_cores == 0)) [
        | inl none_here ↦ rw none_here
        | inr busy ↦
            rw busy
              (clients_loop_undefined lower upper step total_cores size (i + 1) clients _ _ j idle)
      ]

  -- With no client the call throws. With a client that has no cores, at whatever index, it is
  -- undefined: `front()` is called on the empty batch of that client.
  pub distribute_tasks_faults :
      (s : Distributor) (clients : List ClientRef) (lower upper step : D) (i : ℕ)
      → IsIdleAt clients i
      → (distribute_tasks s [] lower upper step ≡ throw (runtime_error "No clients connected"))
        × (distribute_tasks s clients lower upper step ≡ undefined)
  unfolding distribute_tasks
  distribute_tasks_faults s [] lower upper step i (x, e, z) = cc
  distribute_tasks_faults s (x ∷ xs) lower upper step i idle = (
    refl,
    rw (
        clients_loop_undefined lower upper step (sum_cores (x ∷ xs)) (length (x ∷ xs)) 0 (x ∷ xs) []
          (record { position = lower; task_id = s.next_task_id; total = 0 }) i idle),
  )
