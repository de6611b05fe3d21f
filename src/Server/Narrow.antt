-- ===== src/Server/Narrow.antt =====
-- src/server/server.cpp with src/common/messages.h: a distribution whose tasks are not wider than
-- the step.
use mathlib.Core.List.{Permᴰ}
use mathlib.Core.Path.{subst}
use distributed_integration.Base.{
  ℕ, ◌+◌, ◌<◌, ◌^◌, ◌≡◌, sym, ap, true, false, List, [], ◌∷◌, ◌++◌, arith, length, All, All-append,
  ok,
}
use distributed_integration.Double.{Double}
use distributed_integration.Messages.{Task, Result, Command, TaskBatch, ResultBatch, task_is_valid}
use distributed_integration.Integrator.{Integrator, execute_single_task, failed_result}
use distributed_integration.Integrator.Sequence.{Gives, Gives-cons, Gives-nil}
use distributed_integration.ClientManager.{cores_of}
use distributed_integration.ClientManager.Registry.{IsDistinct, all_cores}
use distributed_integration.Distributor.{Distributor, distribute_tasks}
use distributed_integration.Distributor.Spec.{sent}
use distributed_integration.Aggregator.Counts.{results_of}
use distributed_integration.ServerState.{Server}
use distributed_integration.Server.{
  IntegrationParameters, Environment, completed, refs, received, integration_round,
}
use distributed_integration.Server.Round.{Sends, IsFailure, integration_round_silent}
use distributed_integration.Server.Sequential.{Computes, received-Gives, shared-Answers}

module _ {ℓ} {A : Type ℓ} (P : A → Type 0) where
  All-split : (xs ys : List A) → All P (xs ++ ys) → All P xs × All P ys
  All-split [] ys h = (tt, h)
  All-split (x ∷ xs) ys h = let (l, r) = All-split xs ys h.1 in ((h.0, l), r)

module _ {D : Type 0} ⦃d : Double D⦄ where
  open d use {nought, le, sub}

  -- The task is not wider than its step.
  abbrev pub IsNarrow : Task D → Type 0
  IsNarrow t = le (sub t.end t.begin) t.step ≡ true

  narrow-invalid : (t : Task D) → IsNarrow t → task_is_valid t ≡ false
  unfolding task_is_valid
  narrow-invalid t narrow = ground (arith, narrow)

  narrow-failed :
      (g : Integrator D) (t : Task D) (r : Result D)
      → IsNarrow t
      → execute_single_task g t ≡ ok r
      → IsFailure r
  unfolding execute_single_task failed_result
  narrow-failed g t r narrow e =
      let refused : ok (failed_result t.id "Invalid task parameters") ≡ ok r =
        rw (narrow-invalid t narrow) at e in
      let same : failed_result t.id "Invalid task parameters" ≡ r = cc in
      ap (λ (x : Result D). x.success) (sym same)

  narrow-failures :
      (g : Integrator D) (ts : List (Task D)) (rs : List (Result D))
      → Gives g ts rs
      → All IsNarrow ts
      → All IsFailure rs
  narrow-failures g [] rs e h = subst (All IsFailure) (Gives-nil g rs e) tt
  narrow-failures g (t ∷ ts) rs e h =
      let (r, qs, one, others, same) = Gives-cons g t ts rs e in
      subst (All IsFailure) same (narrow-failed g t r h.0 one, narrow-failures g ts qs others h.1)

  All-results-perm :
      (P : Result D → Type 0) {xs ys : List (ResultBatch D)}
      → Permᴰ xs ys
      → All P (results_of ys)
      → All P (results_of xs)
  All-results-perm P Permᴰ.nil h = tt
  All-results-perm P (Permᴰ.cons {a} {b} {l₁} {l₂} e p) h =
      let (first, rest) = All-split P b.results (results_of l₂) h in
      All-append P a.results (results_of l₁)
        (subst (λ (x : ResultBatch D). All P x.results) (sym e) first) (All-results-perm P p rest)
  All-results-perm P (Permᴰ.swap {a} {b} {a'} {b'} {l} e f) h =
      let (x, more) = All-split P a'.results (b'.results ++ results_of l) h in
      let (y, rest) = All-split P b'.results (results_of l) more in
      All-append P a.results (b.results ++ results_of l)
        (subst (λ (c : ResultBatch D). All P c.results) (sym e) y)
        (All-append P b.results (results_of l)
          (subst (λ (c : ResultBatch D). All P c.results) (sym f) x) rest)
  All-results-perm P (Permᴰ.trans p q) h = All-results-perm P p (All-results-perm P q h)

  -- If no task of the distribution is wider than the step, a round in which every client answers
  -- with the results that the sequential executor has for its batch completes with the value zero;
  -- the clients have cores and distinct identifiers, can be reached, and the task counter does not
  -- wrap around.
  pub integration_round_narrow :
      (g : Integrator D) (env : Environment D) (p : IntegrationParameters D) (s : Server)
      (m : List (ℕ × TaskBatch D)) (t : Distributor)
      → let cs = s.manager.clients in
        0 < length cs
        → IsDistinct cs
        → All (λ c. 0 < cores_of c) cs
        → Sends env
        → s.distributor.next_task_id + all_cores cs < 2 ^ 64
        → distribute_tasks s.distributor (refs cs) p.lower_limit p.upper_limit p.step ≡ ok (m, t)
        → All (Computes g env m) cs
        → All IsNarrow (sent (refs cs) m)
        → (s' : Server) × (stops : List (ℕ × Command)) × (integration_round env p s
            ≡ ok (s', completed nought stops))
  integration_round_narrow g env p s m t some_client distinct busy sends fits shared computes
        narrow =
      let cs = s.manager.clients in
      let (answers, tiles) =
        shared-Answers g env p s m t some_client distinct busy fits shared computes in
      let gives = received-Gives g env m cs computes in
      integration_round_silent env p s some_client distinct busy sends answers fits (
        All-results-perm IsFailure (env.schedule-perm (received env cs))
          (narrow-failures g (sent (refs cs) m) (results_of (received env cs)) gives narrow))
