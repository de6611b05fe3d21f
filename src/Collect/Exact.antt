-- ===== src/Collect/Exact.antt =====
-- src/server/server.cpp, collect_results: the receiving threads can bring their batches to the
-- aggregator in any order.
use mathlib.Core.List.Permᴰ
use mathlib.Core.Path.{ap₂, subst}
use distributed_integration.Base.{
  ℕ, zero, suc, ◌+◌, ◌*◌, ◌<◌, ◌≡◌, Bool, refl, sym, ap, ◌∙◌, false, true, not, some, List, [], ◌∷◌,
  map, foldl, get_elem?, get_elem?-set_self, get_elem?-lt, set, length, arith, inl, inr,
}
use distributed_integration.Double.{Double}
use distributed_integration.Messages.{ResultBatch}
use distributed_integration.ClientManager.{ClientConnection, mark_result_received, get_all_clients}
use distributed_integration.Aggregator.{Aggregator, add_result, add_results, wait_for_all_results}
use distributed_integration.ServerState.{Server}
use distributed_integration.Server.{Environment, received, collect_results}
use distributed_integration.Collect.{
  marking, adding, Thread, Collection, collecting, thread_step, receiver_step, received_by,
  client_step, aggregator_step, may_move, Step, moves, joins, Steps, here, next, IsJoined,
}
use distributed_integration.Collect.Owed.{gives, due, due-set, aggregator_step_lem}
use distributed_integration.Collect.Joined.{joined_added}
use distributed_integration.Collect.Ends.{collect_results_ends}
use distributed_integration.Base.Orders.{IsSchedule}
use distributed_integration.Server.Schedules.{rescheduled, received-rescheduled}
use distributed_integration.Collect.Order.{
  Order, rest, pick, waiting_on, done_with, Order-perm, Order-received, set-set, both_nil,
  Permᴰ-nil,
}

module _ {D : Type 0} ⦃d : Double D⦄ (env : Environment D) where
  module _ (silent : ℕ → Bool) (talks : (id : ℕ) → silent id ≡ false) where
    moved :
        (a : Aggregator D) (cs : List ClientConnection) {n : ℕ} (s : Collection D) (i : ℕ)
        (t u : Thread D) (ts : List (Thread D))
        → Steps env silent (collecting a cs) n s
        → get_elem? s.threads i ≡ some t
        → may_move silent t.client t.at ≡ true
        → thread_step env t ≡ u
        → set s.threads i u ≡ ts
        → Steps env silent
            (collecting a cs)
            (n + 1)
            (record s { aggregator = aggregator_step s.aggregator t.at; threads = ts })
    moved a cs {n} s i t u ts more at go stepped written =
        subst
          (λ (us : List (Thread D)).
            Steps env silent (collecting a cs) (n + 1)
              (record s { aggregator = aggregator_step s.aggregator t.at; threads = us }))
          (ap (set s.threads i) stepped ∙ written) (next more (moves i t at go))

    -- A thread runs from its begin to its end while the others stand still.
    whole_thread :
        (a : Aggregator D) (cs : List ClientConnection) {n : ℕ} (s : Collection D) (i : ℕ)
        (c : ClientConnection) (batch : ResultBatch D)
        → Steps env silent (collecting a cs) n s
        → get_elem? s.threads i ≡ some (waiting_on c)
        → env.receive c.client_id ≡ some batch
        → Steps env silent (collecting a cs) (n + 1 + 1 + 1) (record s {
          aggregator = add_result s.aggregator batch;
          threads = set s.threads i (done_with c);
        })
    unfolding thread_step receiver_step received_by client_step aggregator_step may_move
    whole_thread a cs {n} s i c batch more at got =
        let lt = get_elem?-lt s.threads i _ at in
        let got_it : Thread D = record { client = c; at = marking batch } in
        let marked : Thread D = record { client = mark_result_received c; at = adding batch } in
        let first =
          moved a cs s i (waiting_on c) got_it (set s.threads i got_it) more at
            (ap not (talks c.client_id)) (ap (λ o. record { client = c; at = received_by o }) got)
            refl in
        let second =
          moved a cs (record s { threads = set s.threads i got_it }) i got_it marked
            (set s.threads i marked) first (get_elem?-set_self s.threads i got_it lt) refl refl
            (set-set s.threads i got_it marked) in
        moved a cs (record s { threads = set s.threads i marked }) i marked (done_with c)
          (set s.threads i (done_with c)) second (get_elem?-set_self s.threads i marked lt) refl
          refl (set-set s.threads i marked (done_with c))

    -- The batches are brought in this order, and then nothing is due.
    bring :
        (a : Aggregator D) (cs : List ClientConnection) (ts : List (Thread D))
        (bs : List (ResultBatch D))
        → Order env ts bs
        → {n : ℕ} (s : Collection D) → s.threads ≡ ts
        → Steps env silent (collecting a cs) n s
        → (m : ℕ) × (s' : Collection D) × Steps env silent (collecting a cs) m s'
          × (s'.aggregator ≡ add_results s.aggregator bs)
          × (due env s'.threads ≡ [])
    unfolding add_results
    bring a cs ts [] (rest _ nothing) {n} s same more =
        (n, s, more, refl, ap (due env) same ∙ nothing)
    bring a cs ts (b ∷ bs) (pick _ i c _ _ at got order) {n} s same more =
        bring a cs (set ts i (done_with c)) bs order _ (ap (λ us. set us i (done_with c)) same)
          (whole_thread a cs s i c b more (ap (λ us. get_elem? us i) same ∙ at) got)

    quiet-Step :
        {s t : Collection D}
        → due env s.threads ≡ []
        → Step env silent s t
        → (due env t.threads ≡ []) × (t.aggregator ≡ s.aggregator)
    quiet-Step {s} nothing (moves i t at go) =
        let (given, left) =
          both_nil (gives t.at) _ (Permᴰ-nil (due-set env s.threads i t at) nothing) in
        (left, aggregator_step_lem s.aggregator t.at ∙ ap (foldl add_result s.aggregator) given)
    quiet-Step {s} nothing (joins t at over) = (nothing, refl)

    -- The other threads end, and all are joined.
    rest_joins :
        (a : Aggregator D) (cs : List ClientConnection) (fuel : ℕ) {n : ℕ} (s : Collection D)
        → 4 * length cs < n + fuel
        → due env s.threads ≡ []
        → Steps env silent (collecting a cs) n s
        → (m : ℕ) × (s' : Collection D) × Steps env silent (collecting a cs) m s'
          × IsJoined s'
          × (s'.aggregator ≡ s.aggregator)
    rest_joins a cs zero {n} s enough nothing more =
        absurd (omega (arith, (collect_results_ends env silent a cs n s talks more).0))
    rest_joins a cs (suc fuel) {n} s enough nothing more =
        elim ((collect_results_ends env silent a cs n s talks more).1) [
          | inl all ↦ (n, s, more, all, refl)
          | inr (t, step) ↦
              let (still, kept) = quiet-Step nothing step in
              let (m, s', steps, joined, same) =
                rest_joins a cs fuel t (omega arith) still (next more step) in
              (m, s', steps, joined, same ∙ kept)
        ]

    -- The receiving threads can get to the aggregator in any order: some steps of theirs join all
    -- threads and do what `collect_results` does in one step for that order.
    pub collect_results-Steps :
        (f : List (ResultBatch D) → List (ResultBatch D)) (h : IsSchedule f) (a : Aggregator D)
        (s : Server)
        → (n : ℕ) × (c : Collection D) × Steps env silent (collecting a s.manager.clients) n c
          × IsJoined c
          × (collect_results (rescheduled env f h) a s ≡ (
            record s { manager = record (s.manager) { clients = map (λ t. t.client) c.threads } },
            c.aggregator,
            wait_for_all_results 300 c.aggregator,
          ))
    unfolding collect_results get_all_clients
    collect_results-Steps f h a s =
        let cs = s.manager.clients in
        let order =
          Order-perm env (Permᴰ.symm (h (received env cs))) (map waiting_on cs)
            (Order-received env cs) in
        let (m, s', brought, sums, nothing) =
          bring a cs (map waiting_on cs) (f (received env cs)) order (collecting a cs) refl here in
        let (n, c, more, joined, same) =
          rest_joins a cs (4 * length cs + 1) s' (omega arith) nothing brought in
        let (_, _, _, marked) = joined_added env silent a cs more joined in
        (
          n,
          c,
          more,
          joined,
          ap₂
              (λ (l : List ClientConnection) (b : Aggregator D). (
                record s { manager = record (s.manager) { clients = l } },
                b,
                wait_for_all_results 300 b,
              ))
              marked
              (ap (λ l. add_results a (f l)) (received-rescheduled env f h cs) ∙ sym (same ∙ sums)),
        )
