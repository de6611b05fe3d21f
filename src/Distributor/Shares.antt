-- ===== src/Distributor/Shares.antt =====
-- src/server/task_distributor.cpp: what the loop over the clients makes of the interval.
use distributed_integration.Distributor.Cut.{
  width_of, widths, strip, cut, cut-join, tasks_loop-strip, tasks_loop-cut,
}
use distributed_integration.Base.{
  ◌++◌, foldl, replicate, append_nil, length-append, length-replicate, ap, sym, ℕ, ◌+◌, ◌-◌, ◌<◌,
  ◌≡◌, refl, ◌∙◌, true, false, List, [], ◌∷◌, arith, ◌==◌, length, All, some, suc, ok,
}
use distributed_integration.Double.{Double}
use distributed_integration.Messages.{Task, TaskBatch}
use distributed_integration.Distributor.{
  ClientRef, Cursor, assign, find, calculate_tasks_per_client, tasks_loop, clients_loop,
}
use distributed_integration.Distributor.Spec.{
  find-assign_self, find-assign_ne, IsOther, Distinct, HasCores, cores, sent, IsServed,
}
use distributed_integration.Distributor.Batch.{
  Made, Fits, Made-append, length-tasks_loop, tasks_loop-Made, tasks_loop-position,
}

module _ {D : Type 0} ⦃d : Double D⦄ (lower upper step : D) (total_cores size : ℕ) where
  open d use {add, sub}

  -- What the loop over `clients` from index `i` makes of the map `m` and the cursor `c`.
  pub record Shares (i : ℕ) (clients : List ClientRef) (m m' : List (ℕ × TaskBatch D))
      (c c' : Cursor D) : Type 0 where
    pub made : Made step c c' (sent clients m')
    pub cuts :
        i + length clients ≡ size
        → sent clients m'
          ≡ cut step upper c.task_id c.position (widths (sub upper lower) total_cores clients)
    pub served : All (IsServed m') clients
    pub kept : (k : ℕ) → All (IsOther k) clients → find k m' ≡ find k m
    pub ends : i + length clients ≡ size → 0 < length clients → c'.position ≡ upper
    pub stays : length clients ≡ 0 → c'.position ≡ c.position

  abbrev range_of : ClientRef → D
  range_of = width_of (sub upper lower) total_cores

  -- The batch of the client at index `i`, and the cursor behind it.
  abbrev share : ℕ → ClientRef → Cursor D → List (Task D) × Cursor D
  share i client c =
      tasks_loop upper step (range_of client) client.cpu_cores (i == size - 1) client.cpu_cores 0 c

  share-position :
      (i : ℕ) (client : ClientRef) (c : Cursor D)
      → HasCores client
      → i + 1 ≡ size
      → (share i client c).1.position ≡ upper
  share-position i client c h e =
      let last : (i == size - 1) ≡ true = ground arith in
      rw last (
        tasks_loop-position upper step (range_of client) client.cpu_cores client.cpu_cores 0 c h
          (omega arith))

  share-cut :
      (i : ℕ) (client : ClientRef) (c : Cursor D)
      → Fits c client.cpu_cores
      → i + 1 ≡ size
      → (share i client c).0
        ≡ cut step upper c.task_id c.position (replicate client.cpu_cores (range_of client))
  share-cut i client c fits e =
      let last : (i == size - 1) ≡ true = ground arith in
      rw last (
        tasks_loop-cut step upper (range_of client) client.cpu_cores client.cpu_cores 0 c fits
          (omega arith))

  share-strip :
      (i : ℕ) (client : ClientRef) (c : Cursor D)
      → Fits c client.cpu_cores
      → i + 1 < size
      → ((share i client c).0
          ≡ strip step c.task_id c.position (replicate client.cpu_cores (range_of client)))
        × ((share i client c).1.position
            ≡ foldl add c.position (replicate client.cpu_cores (range_of client)))
  share-strip i client c fits e =
      let inside : (i == size - 1) ≡ false = ground arith in
      rw inside
        (tasks_loop-strip step upper (range_of client) client.cpu_cores client.cpu_cores 0 c fits)

  share-join :
      (i : ℕ) (client : ClientRef) (clients : List ClientRef) (m : List (ℕ × TaskBatch D))
      (c : Cursor D)
      → Fits c client.cpu_cores
      → All HasCores clients
      → (i + 1 + length clients ≡ size
          → sent clients m
            ≡ cut step upper
                (share i client c).1.task_id
                (share i client c).1.position
                (widths (sub upper lower) total_cores clients))
      → i + suc (length clients) ≡ size
      → (share i client c).0 ++ sent clients m
        ≡ cut step upper c.task_id c.position
            (widths (sub upper lower) total_cores (client ∷ clients))
  share-join i client [] m c fits h rest e =
      let alone = share-cut i client c fits (omega arith) in
      append_nil (share i client c).0
      ∙ alone
      ∙ ap (cut step upper c.task_id c.position)
          (sym (append_nil (replicate client.cpu_cores (range_of client))))
  share-join i client (x ∷ xs) m c fits h rest e =
      let (tasks, position) = share-strip i client c fits (omega arith) in
      let made =
        tasks_loop-Made upper step (range_of client) client.cpu_cores (i == size - 1)
          client.cpu_cores 0 c fits in
      let count =
        length-tasks_loop upper step (range_of client) client.cpu_cores (i == size - 1)
          client.cpu_cores 0 c in
      let ws = replicate client.cpu_cores (range_of client) in
      let vs = widths (sub upper lower) total_cores (x ∷ xs) in
      cut-join step upper c.task_id c.position ws vs (share i client c).1 (share i client c).0
        (sent (x ∷ xs) m)
        (omega (
          arith,
          h.0,
          length-append (replicate x.cpu_cores (range_of x))
              (widths (sub upper lower) total_cores xs),
          length-replicate x.cpu_cores (range_of x),
        ))
        (omega (arith, made.next_id, count, length-replicate client.cpu_cores (range_of client)))
        tasks position (rest (omega arith))

  Shares-cons :
      (i : ℕ) (client : ClientRef) (clients : List ClientRef) (m m' : List (ℕ × TaskBatch D))
      (c c' : Cursor D)
      → HasCores client
      → All HasCores clients
      → All (IsOther client.client_id) clients
      → Fits c client.cpu_cores
      → Shares
          (i + 1)
          clients
          (assign client.client_id (record { tasks = (share i client c).0 }) m)
          m'
          (share i client c).1
          c'
      → Shares i (client ∷ clients) m m' c c'
  Shares-cons i client clients m m' c c' h cored other fits rest = record {
    made = rw found (
        Made-append step c c₁ c' tasks (sent clients m')
          (tasks_loop-Made upper step (range_of client) client.cpu_cores (i == size - 1)
            client.cpu_cores 0 c fits)
          rest.made);
    cuts = rw found (share-join i client clients m' c fits cored rest.cuts);
    served = (
      (
        batch,
        found,
        length-tasks_loop upper step (range_of client) client.cpu_cores (i == size - 1)
            client.cpu_cores 0 c,
      ),
      rest.served,
    );
    kept = λ k away. rest.kept k away.1 ∙ find-assign_ne client.client_id k batch m away.0;
    ends = ends (clients) rest.ends rest.stays;
    stays = λ e. absurd (omega arith);
  }
    where
      tasks : List (Task D)
      tasks = (share i client c).0

      c₁ : Cursor D
      c₁ = (share i client c).1

      batch : TaskBatch D
      batch = record { tasks = tasks }

      found : find client.client_id m' ≡ some batch
      found = rest.kept client.client_id other ∙ find-assign_self client.client_id batch m

      ends :
          (l : List ClientRef)
          → (i + 1 + length l ≡ size → 0 < length l → c'.position ≡ upper)
          → (length l ≡ 0 → c'.position ≡ c₁.position)
          → i + suc (length l) ≡ size
          → 0 < suc (length l)
          → c'.position ≡ upper
      ends [] more none_left e pos = none_left refl ∙ share-position i client c h (omega arith)
      ends (x ∷ l) more none_left e pos = more (omega arith) (omega arith)

  pub clients_loop-Shares :
      (i : ℕ) (clients : List ClientRef) (m : List (ℕ × TaskBatch D)) (c : Cursor D)
      → All HasCores clients
      → Distinct clients
      → Fits c (cores clients)
      → (m' : List (ℕ × TaskBatch D)) × (c' : Cursor D) × (clients_loop lower upper step total_cores
            size i clients
            (calculate_tasks_per_client clients)
            m
            c
          ≡ ok (m', c'))
        × Shares i clients m m' c c'
  unfolding clients_loop calculate_tasks_per_client
  clients_loop-Shares i [] m c h distinct fits = (
    m,
    c,
    refl,
    record {
      made = record { tiles = refl; numbered = tt; next_id = omega arith; counted = omega arith };
      cuts = λ e. refl;
      served = tt;
      kept = λ k away. refl;
      ends = λ e pos. absurd (omega arith);
      stays = λ e. refl;
    },
  )
  clients_loop-Shares i (client ∷ clients) m c h distinct fits =
      let (tasks, c₁) = share i client c in
      let first =
        tasks_loop-Made upper step (range_of client) client.cpu_cores (i == size - 1)
          client.cpu_cores 0 c (omega arith) in
      let count =
        length-tasks_loop upper step (range_of client) client.cpu_cores (i == size - 1)
          client.cpu_cores 0 c in
      let (m', c', run, shares) =
        clients_loop-Shares (i + 1) clients (assign client.client_id (record { tasks = tasks }) m)
          c₁ h.1 distinct.1 (omega (arith, first.next_id, first.counted, count)) in
      let busy : (client.cpu_cores == 0) ≡ false = ground arith in
      (
        m',
        c',
        rw (busy, run),
        Shares-cons i client clients m m' c c' h.0 h.1 distinct.0 (omega arith) shares,
      )
