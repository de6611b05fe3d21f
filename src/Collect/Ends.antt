-- ===== src/Collect/Ends.antt =====
-- src/server/server.cpp, collect_results: how many steps the threads and the joins take.
use native.Mathlib.Decide.{ℕ_discrete}
use mathlib.Core.Option
use distributed_integration.Base.{
  ℕ, zero, suc, ◌+◌, ◌*◌, ◌≤◌, ◌<◌, ◌≡◌, Bool, refl, ap, ◌∙◌, false, true, Option, none, some, List,
  [], ◌∷◌, map, get_elem?, get_elem?-lt, get_elem?_of_lt, set, length, length-set, length-map,
  arith, ◌⊎◌, inl, inr,
}
use distributed_integration.Double.{Double}
use distributed_integration.Messages.{ResultBatch}
use distributed_integration.ClientManager.{ClientConnection}
use distributed_integration.Aggregator.{Aggregator}
use distributed_integration.Server.{Environment}
use distributed_integration.Collect.{
  Receiver, receiving, marking, adding, ended, Thread, Collection, collecting, thread_step,
  receiver_step, received_by, may_move, Step, moves, joins, Steps, here, next, IsJoined,
}

module _ {D : Type 0} where
  -- How many steps a thread has left at most.
  abbrev rank : Receiver D → ℕ
  rank receiving = 3
  rank (marking batch) = 2
  rank (adding batch) = 1
  rank ended = 0

  abbrev total : List (Thread D) → ℕ
  total [] = 0
  total (t ∷ ts) = rank t.at + total ts

  waiting_on : ClientConnection → Thread D
  waiting_on c = record { client = c; at = receiving }

  total-set :
      (ts : List (Thread D)) (i : ℕ) (t u : Thread D)
      → get_elem? ts i ≡ some t
      → total (set ts i u) + rank t.at ≡ total ts + rank u.at
  total-set [] i t u e = absurd (cc)
  total-set (x ∷ ts) zero t u e =
      let same : rank x.at ≡ rank t.at =
        ap (λ (v : Thread D). rank v.at) (Option.some-injective _ _ e) in
      omega (arith, same)
  total-set (x ∷ ts) (suc i) t u e = omega (arith, total-set ts i t u e)

  rank-received_by : (o : Option (ResultBatch D)) → rank (received_by o) ≤ 2
  unfolding received_by
  rank-received_by none = omega arith
  rank-received_by (some batch) = omega arith

  rank-receiver_step :
      (env : Environment D) (silent : ℕ → Bool) (c : ClientConnection) (r : Receiver D)
      → may_move silent c r ≡ true
      → rank (receiver_step env c r) < rank r
  unfolding receiver_step may_move
  rank-receiver_step env silent c receiving go =
      omega (arith, rank-received_by (env.receive c.client_id))
  rank-receiver_step env silent c (marking batch) go = omega arith
  rank-receiver_step env silent c (adding batch) go = omega arith
  rank-receiver_step env silent c ended go = absurd (cc)

total-map :
    (D : Type 0) (cs : List ClientConnection) → total (map (waiting_on {D = D}) cs) ≡ 3 * length cs
unfolding waiting_on
total-map D [] = refl
total-map D (c ∷ cs) = omega (arith, total-map D cs)

module _ {D : Type 0} ⦃d : Double D⦄ (env : Environment D) (silent : ℕ → Bool) where
  record Count (clients n : ℕ) (s : Collection D) : Type 0 where
    size : length s.threads ≡ clients
    joined_le : s.joined ≤ clients
    spent : n + total s.threads ≤ 3 * clients + s.joined

  Steps-Count :
      (a : Aggregator D) (cs : List ClientConnection) {n : ℕ} {s : Collection D}
      → Steps env silent (collecting a cs) n s
      → Count (length cs) n s
  unfolding thread_step waiting_on
  Steps-Count a cs here = record {
    size = length-map cs (waiting_on {D = D});
    joined_le = omega arith;
    spent = omega (arith, total-map D cs);
  }
  Steps-Count a cs (next {t = s} more (moves i t e go)) =
      let count = Steps-Count a cs more in
      record {
        size = length-set s.threads i (thread_step env t) ∙ count.size;
        joined_le = count.joined_le;
        spent = omega (
          arith,
          count.spent,
          total-set s.threads i t (thread_step env t) e,
          rank-receiver_step env silent t.client t.at go,
        );
      }
  Steps-Count a cs (next {t = s} more (joins t e at)) =
      let count = Steps-Count a cs more in
      record {
        size = count.size;
        joined_le = omega (arith, count.size, get_elem?-lt s.threads s.joined t e);
        spent = omega (arith, count.spent);
      }

  may_move-ended :
      (c : ClientConnection) (r : Receiver D)
      → silent c.client_id ≡ false
      → (may_move silent c r ≡ true) ⊎ (r ≡ ended)
  unfolding may_move
  may_move-ended c receiving talks = inl (rw talks refl)
  may_move-ended c (marking batch) talks = inl refl
  may_move-ended c (adding batch) talks = inl refl
  may_move-ended c ended talks = inr refl

  -- If no client is silent, the collection from `n` clients ends after at most 4 n steps, however
  -- the threads are scheduled: no run of it has more steps, and in each state that can be reached
  -- either all threads are joined or a step is possible.
  pub collect_results_ends :
      (a : Aggregator D) (cs : List ClientConnection) (n : ℕ) (c : Collection D)
      → ((id : ℕ) → silent id ≡ false)
      → Steps env silent (collecting a cs) n c
      → (n ≤ 4 * length cs) × (IsJoined c ⊎ ((c' : Collection D) × Step env silent c c'))
  collect_results_ends a cs n c talks more =
      let count = Steps-Count a cs more in
      (
        omega (arith, count.joined_le, count.spent),
        elim (ℕ_discrete c.joined (length c.threads)) [
          | yes all ↦ inl all
          | no some_left ↦
              let (t, at) =
                get_elem?_of_lt c.threads c.joined (omega (arith, count.joined_le, count.size)) in
              inr (elim (may_move-ended t.client t.at (talks t.client.client_id)) [
                | inl go ↦ (_, moves c.joined t at go)
                | inr over ↦ (_, joins t at over)
              ])
        ],
      )
