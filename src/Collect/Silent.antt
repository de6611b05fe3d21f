-- ===== src/Collect/Silent.antt =====
-- src/server/server.cpp, collect_results: a client that neither answers nor closes its connection.
use distributed_integration.Base.{
  ℕ, ◌≤◌, ◌<◌, ◌≡◌, Bool, sym, ap, ◌∙◌, false, true, not, some, List, get_elem?, get_elem?-map,
  get_elem?-set_ne, get_elem?-lt, length, arith,
}
use native.Mathlib.Decide.{ℕ_discrete}
use mathlib.Core.Option
use distributed_integration.Double.{Double}
use distributed_integration.ClientManager.{ClientConnection}
use distributed_integration.Aggregator.{Aggregator}
use distributed_integration.Server.{Environment}
use distributed_integration.Collect.{
  Receiver, receiving, ended, Thread, Collection, collecting, thread_step, may_move, Step, moves,
  joins, Steps, here, next,
}

module _ {D : Type 0} ⦃d : Double D⦄ (env : Environment D) (silent : ℕ → Bool) where
  abbrev waiting_on : ClientConnection → Thread D
  waiting_on k = record { client = k; at = receiving }

  stuck :
      (k : ClientConnection)
      → silent k.client_id ≡ true
      → may_move {D = D} silent k receiving ≡ false
  unfolding may_move
  stuck k quiet = ap not quiet

  Step-waiting :
      (i : ℕ) (k : ClientConnection) {s t : Collection D}
      → silent k.client_id ≡ true
      → get_elem? s.threads i ≡ some (waiting_on k)
      → s.joined ≤ i
      → Step env silent s t
      → (get_elem? t.threads i ≡ some (waiting_on k)) × (t.joined ≤ i)
  Step-waiting i k {s} quiet at le (moves j t e go) = elim (ℕ_discrete j i) [
    | yes same ↦
        let both : t ≡ waiting_on k =
          Option.some-injective _ _ (sym e ∙ ap (get_elem? s.threads) same ∙ at) in
        let allowed : may_move silent k receiving ≡ true =
          sym (ap (λ (u : Thread D). may_move silent u.client u.at) both) ∙ go in
        let denied = stuck k quiet in absurd (cc)
    | no other ↦ (get_elem?-set_ne s.threads j i (thread_step env t) other ∙ at, le)
  ]
  Step-waiting i k {s} quiet at le (joins t e over) = elim (ℕ_discrete s.joined i) [
    | yes same ↦
        let both : t ≡ waiting_on k =
          Option.some-injective _ _ (sym e ∙ ap (get_elem? s.threads) same ∙ at) in
        let wrong : ◌≡◌ {A = Receiver D} receiving ended =
          sym (ap (λ (u : Thread D). u.at) both) ∙ over in
        absurd (cc)
    | no other ↦ (at, omega arith)
  ]

  -- If a client is silent, then whatever the other threads do, its thread is never joined, so that
  -- not all threads are: the wait of 300 seconds behind the joins is never begun.
  pub collect_results_silent :
      (a : Aggregator D) (cs : List ClientConnection) (i : ℕ) (k : ClientConnection) (n : ℕ)
      (c : Collection D)
      → get_elem? cs i ≡ some k
      → silent k.client_id ≡ true
      → Steps env silent (collecting a cs) n c
      → (c.joined ≤ i) × (i < length c.threads)
  collect_results_silent a cs i k n c at quiet more =
      let (still, le) = reach more in (le, get_elem?-lt c.threads i (waiting_on k) still)
    where
      reach :
          {m : ℕ} {s : Collection D}
          → Steps env silent (collecting a cs) m s
          → (get_elem? s.threads i ≡ some (waiting_on k)) × (s.joined ≤ i)
      reach here = (get_elem?-map cs waiting_on i at, omega arith)
      reach (next steps step) =
          let (still, le) = reach steps in Step-waiting i k quiet still le step
