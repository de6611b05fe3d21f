-- ===== src/Collect/Joined.antt =====
-- src/server/server.cpp, collect_results: the state in which all threads are joined.
use mathlib.Core.List.{Permᴰ, append_assoc, append-nil, foldl-append}
use mathlib.Core.List.Permᴰ
use mathlib.Core.Path.{ap₂, subst}
use native.Mathlib.Decide.{ℕ_discrete}
use distributed_integration.Base.{
  ℕ, ◌<◌, ◌≡◌, ◌≢◌, Bool, refl, sym, ap, ◌∙◌, true, some, List, [], ◌++◌, map, foldl, get_elem?,
  get_elem?-set_ne, get_elem?-lt, set, All_of_get_elem?, arith,
}
use mathlib.Core.Option
use distributed_integration.Double.{Double}
use distributed_integration.Messages.{ResultBatch}
use distributed_integration.ClientManager.{ClientConnection, get_all_clients}
use distributed_integration.Aggregator.{Aggregator, add_result, add_results, wait_for_all_results}
use distributed_integration.ServerState.{Server}
use distributed_integration.Server.{Environment, received, mark_received, collect_results}
use distributed_integration.Server.Schedules.{rescheduled, received-rescheduled}
use distributed_integration.Collect.{
  ended, Thread, Collection, collecting, thread_step, may_move, Step, moves, joins, Steps, here,
  next, IsJoined,
}
use distributed_integration.Base.Orders.{IsSchedule, perm-IsSchedule}
use distributed_integration.Collect.Owed.{
  gives, leaves, due, leaves-thread_step, due-set, aggregator_step_lem, due_lem, leaves_lem,
  due-ended, leaves-ended, map-set_same,
}

module _ {D : Type 0} ⦃d : Double D⦄ (env : Environment D) (silent : ℕ → Bool) where
  -- The joined threads have ended.
  abbrev pub AreEnded : ℕ → List (Thread D) → Type 0
  AreEnded n ts = (j : ℕ) (t : Thread D) → j < n → get_elem? ts j ≡ some t → t.at ≡ ended

  -- `added` are the batches that the aggregator has got, in their order.
  pub record Inv (a : Aggregator D) (cs : List ClientConnection) (s : Collection D) : Type 0 where
    pub added : List (ResultBatch D)
    pub sums : s.aggregator ≡ add_results a added
    pub orders : Permᴰ (added ++ due env s.threads) (received env cs)
    pub keeps : map (leaves env) s.threads ≡ map (mark_received env) cs
    pub ends : AreEnded s.joined s.threads

  start-Inv : (a : Aggregator D) (cs : List ClientConnection) → Inv a cs (collecting a cs)
  unfolding add_results
  start-Inv a cs = record {
    added = [];
    sums = refl;
    orders =
        subst (λ (l : List (ResultBatch D)). Permᴰ l (received env cs)) (sym (due_lem env cs))
          (Permᴰ.refl (received env cs));
    keeps = leaves_lem env cs;
    ends = λ j t lt e. absurd (omega arith);
  }

  moving-ended : (t : Thread D) → may_move silent t.client t.at ≡ true → t.at ≢ ended
  unfolding may_move
  moving-ended t go e = cc

  AreEnded-set :
      (n : ℕ) (ts : List (Thread D)) (i : ℕ) (t u : Thread D)
      → get_elem? ts i ≡ some t
      → may_move silent t.client t.at ≡ true
      → AreEnded n ts
      → AreEnded n (set ts i u)
  AreEnded-set n ts i t u e go h j v lt at = elim (ℕ_discrete i j) [
    | yes same ↦ absurd (moving-ended t go (h i t (omega arith) e))
    | no other ↦ h j v lt (sym (get_elem?-set_ne ts i j u other) ∙ at)
  ]

  Step-Inv :
      (a : Aggregator D) (cs : List ClientConnection) {s t : Collection D}
      → Inv a cs s
      → Step env silent s t
      → Inv a cs t
  unfolding add_results
  Step-Inv a cs {s} inv (moves i t e go) = record {
    added = inv.added ++ gives t.at;
    sums =
        aggregator_step_lem s.aggregator t.at
        ∙ ap (λ b. foldl add_result b (gives t.at)) inv.sums
        ∙ sym (foldl-append add_result a inv.added (gives t.at));
    orders =
        subst (λ (l : List (ResultBatch D)). Permᴰ l (received env cs))
          (sym (append_assoc inv.added (gives t.at) _))
          (Permᴰ.trans (Permᴰ.append_left inv.added (due-set env s.threads i t e)) inv.orders);
    keeps =
        map-set_same (leaves env) s.threads i t (thread_step env t) e (leaves-thread_step env t)
        ∙ inv.keeps;
    ends = AreEnded-set s.joined s.threads i t (thread_step env t) e go inv.ends;
  }
  Step-Inv a cs {s} inv (joins t e at) = record {
    added = inv.added;
    sums = inv.sums;
    orders = inv.orders;
    keeps = inv.keeps;
    ends = λ j v lt here. elim (ℕ_discrete j s.joined) [
      | yes same ↦
          let both : v ≡ t =
            Option.some-injective _ _ (sym here ∙ ap (get_elem? s.threads) same ∙ e) in
          ap (λ (w : Thread D). w.at) both ∙ at
      | no other ↦ inv.ends j v (omega arith) here
    ];
  }

  pub Steps-Inv :
      (a : Aggregator D) (cs : List ClientConnection) {n : ℕ} {s : Collection D}
      → Steps env silent (collecting a cs) n s
      → Inv a cs s
  Steps-Inv a cs here = start-Inv a cs
  Steps-Inv a cs (next more step) = Step-Inv a cs (Steps-Inv a cs more) step

  -- What the aggregator has got when all threads are joined, and in which order.
  pub joined_added :
      (a : Aggregator D) (cs : List ClientConnection) {n : ℕ} {c : Collection D}
      → Steps env silent (collecting a cs) n c
      → IsJoined c
      → (added : List (ResultBatch D)) × (c.aggregator ≡ add_results a added)
        × Permᴰ added (received env cs)
        × (map (mark_received env) cs ≡ map (λ t. t.client) c.threads)
  joined_added a cs {n} {c} more joined =
      let inv = Steps-Inv a cs more in
      let over =
        All_of_get_elem? (λ t. t.at ≡ ended) c.threads
          (λ j t e. inv.ends j t (omega (arith, joined, get_elem?-lt c.threads j t e)) e) in
      (
        inv.added,
        inv.sums,
        subst (λ (l : List (ResultBatch D)). Permᴰ l (received env cs))
            (ap (λ l. inv.added ++ l) (due-ended env c.threads over) ∙ append-nil inv.added)
            inv.orders,
        sym inv.keeps ∙ leaves-ended env c.threads over,
      )

  -- Whenever all threads are joined, the steps of the threads, in whatever order they were taken,
  -- have done what `collect_results` does in one step for some order in which the batches that
  -- arrive get to the aggregator: the clients have the same marks and the aggregator is the same,
  -- so that the wait gives the same result.
  pub collect_results_joined :
      (a : Aggregator D) (s : Server) {n : ℕ} {c : Collection D}
      → Steps env silent (collecting a s.manager.clients) n c
      → IsJoined c
      → (f : List (ResultBatch D) → List (ResultBatch D)) × (h : IsSchedule f) × (collect_results
            (rescheduled env f h)
            a
            s
          ≡ (
            record s { manager = record (s.manager) { clients = map (λ t. t.client) c.threads } },
            c.aggregator,
            wait_for_all_results 300 c.aggregator,
          ))
  unfolding collect_results get_all_clients mark_received
  collect_results_joined a s {n} {c} more joined =
      let cs = s.manager.clients in
      let (added, sums, orders, marked) = joined_added a cs more joined in
      let (f, h, same) = perm-IsSchedule orders in
      (
        f,
        h,
        ap₂
            (λ (l : List ClientConnection) (b : Aggregator D). (
              record s { manager = record (s.manager) { clients = l } },
              b,
              wait_for_all_results 300 b,
            ))
            marked
            (ap (λ l. add_results a (f l)) (received-rescheduled env f h cs)
              ∙ ap (add_results a) same
              ∙ sym sums),
      )
