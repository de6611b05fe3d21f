-- ===== src/Distributor/Tiling.antt =====
-- src/server/task_distributor.cpp: over all clients, the tasks that are sent are cut from the interval
-- as Distributor/Cut.antt writes it down.
use distributed_integration.Distributor.Shares.{clients_loop-Shares}
use mathlib.Core.Path.{subst}
use distributed_integration.Base.Words.{u32, u32-eq}
use distributed_integration.Distributor.Cut.{widths, cut}
use distributed_integration.Base.{
  foldl, ℕ, ◌+◌, ◌^◌, ◌<◌, ◌≡◌, List, [], ◌∷◌, arith, length, All, ok,
}
use distributed_integration.Double.{Double}
use distributed_integration.Messages.{TaskBatch}
use distributed_integration.Distributor.{
  ClientRef, Distributor, Cursor, sum_cores, distribute_tasks,
}
use distributed_integration.Distributor.Spec.{
  Distinct, HasCores, cores, Tiles, IsNumbered, sent, IsServed,
}

-- Without wrapping around, the count of cores of the distributor is the true one.
pub sum_cores-eq :
    (clients : List ClientRef) → cores clients < 2 ^ 32 → sum_cores clients ≡ cores clients
unfolding sum_cores
sum_cores-eq clients fits = let e = summed clients 0 (omega arith) in omega (arith, e)
  where
    summed :
        (cs : List ClientRef) (n : ℕ)
        → n + cores cs < 2 ^ 32
        → foldl (λ total c. u32 (total + c.cpu_cores)) n cs ≡ n + cores cs
    summed [] n fits = omega arith
    summed (c ∷ cs) n fits =
        let same : u32 (n + c.cpu_cores) ≡ n + c.cpu_cores =
          u32-eq (n + c.cpu_cores) (omega arith) in
        let rest = summed cs (u32 (n + c.cpu_cores)) (omega (arith, same)) in
        omega (arith, rest, same)

module _ {D : Type 0} ⦃d : Double D⦄ where
  open d use {sub}

  -- The promise of a distribution of `[lower, upper]` over the clients by the distributor `s`, where
  -- the clients have `all_cores` cores.
  pub record IsDistribution (all_cores : ℕ) (s s' : Distributor) (clients : List ClientRef)
      (lower upper step : D) (m : List (ℕ × TaskBatch D)) : Type 0 where
    pub cuts :
        sent clients m
        ≡ cut step upper s.next_task_id lower (widths (sub upper lower) all_cores clients)
    pub tiles : Tiles step lower upper (sent clients m)
    pub numbered : IsNumbered s.next_task_id (sent clients m)
    pub served : All (IsServed m) clients
    pub total : s'.total_tasks ≡ length (sent clients m)
    pub next_id : s'.next_task_id ≡ s.next_task_id + length (sent clients m)

  pub distribute_tasks_lem :
      (s : Distributor) (clients : List ClientRef) (lower upper step : D)
      → 0 < length clients
      → All HasCores clients
      → Distinct clients
      → s.next_task_id + cores clients < 2 ^ 64
      → (m : List (ℕ × TaskBatch D)) × (s' : Distributor) × (distribute_tasks s clients lower upper
            step
          ≡ ok (m, s'))
        × IsDistribution (sum_cores clients) s s' clients lower upper step m
  unfolding distribute_tasks
  distribute_tasks_lem s [] lower upper step some_client h distinct fits = absurd (omega arith)
  distribute_tasks_lem s (x ∷ xs) lower upper step some_client h distinct fits =
      let clients = x ∷ xs in
      let start : Cursor D = record { position = lower; task_id = s.next_task_id; total = 0 } in
      let (m, c, run, shares) =
        clients_loop-Shares lower upper step (sum_cores clients) (length clients) 0 clients [] start
          h distinct (omega arith) in
      (
        m,
        record { total_tasks = c.total; next_task_id = c.task_id },
        rw run,
        record {
          cuts = shares.cuts (omega arith);
          tiles = rw (shares.ends (omega arith) (omega arith)) at (shares.made.tiles);
          numbered = shares.made.numbered;
          served = shares.served;
          total = omega (arith, shares.made.counted);
          next_id = shares.made.next_id;
        },
      )

  -- If there are clients, all with cores and distinct identifiers, and neither the counters of tasks
  -- nor that of cores wrap around, the distribution succeeds: each client gets one task for each of
  -- its cores. The tasks, in the order of sending, are cut from the interval: the first begins at
  -- the lower limit, each ends at its begin plus (upper - lower) * cores / total / cores, with the
  -- cores of its client and of all clients, where the next one begins, but for the last one, which
  -- ends exactly at the upper limit. All have the given step, their identifiers count up, and the
  -- total is their number.
  pub distribute_tasks-IsDistribution :
      (s : Distributor) (clients : List ClientRef) (lower upper step : D)
      → 0 < length clients
      → All HasCores clients
      → Distinct clients
      → s.next_task_id + cores clients < 2 ^ 64
      → cores clients < 2 ^ 32
      → (m : List (ℕ × TaskBatch D)) × (s' : Distributor) × (distribute_tasks s clients lower upper
            step
          ≡ ok (m, s'))
        × IsDistribution (cores clients) s s' clients lower upper step m
  distribute_tasks-IsDistribution s clients lower upper step some_client h distinct fits few =
      let (m, s', run, promise) =
        distribute_tasks_lem s clients lower upper step some_client h distinct fits in
      (
        m,
        s',
        run,
        subst (λ n. IsDistribution n s s' clients lower upper step m) (sum_cores-eq clients few)
            promise,
      )
