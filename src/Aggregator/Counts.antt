-- ===== src/Aggregator/Counts.antt =====
-- src/server/result_aggregator.cpp: the counters and the sum after any sequence of batches.
use distributed_integration.Base.{
  ℕ, ◌+◌, ◌^◌, ◌≤◌, ◌<◌, ◌≡◌, refl, sym, ap, ◌∙◌, true, none, some, List, [], ◌∷◌, ◌++◌, foldl,
  arith, leb, ◌==◌, false, if◌then◌else◌, length, length-append,
}
use mathlib.Core.List.{append_assoc, append-nil}
use distributed_integration.Base.Words.{u64-eq}
use distributed_integration.Double.{Double}
use distributed_integration.Messages.{Result, ResultBatch}
use distributed_integration.Aggregator.{
  Aggregator, new_aggregator, add_one, add_result, add_results, wait_for_all_results,
}

module _ {D : Type 0} where
  -- All results of some batches, one batch after the other.
  abbrev pub results_of : List (ResultBatch D) → List (Result D)
  results_of [] = []
  results_of (b ∷ bs) = b.results ++ results_of bs

  abbrev pub successes : List (Result D) → ℕ
  successes [] = 0
  successes (r ∷ rs) = (if r.success then 1 else 0) + successes rs

  pub successes-append :
      (xs ys : List (Result D)) → successes (xs ++ ys) ≡ successes xs + successes ys
  successes-append [] ys = omega arith
  successes-append (x ∷ xs) ys = omega (arith, successes-append xs ys)

  successes-le : (rs : List (Result D)) → successes rs ≤ length rs
  successes-le [] = omega arith
  successes-le (r ∷ rs) = ground (arith, successes-le rs)

module _ {D : Type 0} ⦃d : Double D⦄ where
  open d use {nought, add}

  -- The values of the successful results, added from the left to `acc`.
  abbrev pub sum_from : D → List (Result D) → D
  sum_from acc [] = acc
  sum_from acc (r ∷ rs) = sum_from (if r.success then add acc r.value else acc) rs

  pub sum_from-append :
      (acc : D) (xs ys : List (Result D)) → sum_from acc (xs ++ ys) ≡ sum_from (sum_from acc xs) ys
  sum_from-append acc [] ys = refl
  sum_from-append acc (x ∷ xs) ys =
      sum_from-append (if x.success then add acc x.value else acc) xs ys

  -- What adding the results `rs` does to an aggregator; `batch_size` says how many of them are
  -- counted as received.
  pub record Added (s s' : Aggregator D) (rs : List (Result D)) (received : ℕ) : Type 0 where
    pub expected : s'.expected_count ≡ s.expected_count
    pub received_up : s'.received_count ≡ s.received_count + received
    pub successful_up : s'.successful_count ≡ s.successful_count + successes rs
    pub split :
        s'.successful_count + s'.error_count ≡ s.successful_count + s.error_count + length rs
    pub sum : s'.total_sum ≡ sum_from s.total_sum rs
    pub kept : s'.all_results ≡ s.all_results ++ rs

  abbrev pub Room : Aggregator D → ℕ → Type 0
  Room s n =
      (s.successful_count + n < 2 ^ 64)
      × (s.error_count + n < 2 ^ 64)
      × (s.received_count + n < 2 ^ 64)

  add_one-Added : (s : Aggregator D) (r : Result D) → Room s 1 → Added s (add_one s r) (r ∷ []) 0
  unfolding add_one
  add_one-Added s r room =
      ground (arith, u64-eq (s.successful_count + 1) room.0, u64-eq (s.error_count + 1) room.1)

  Added-trans :
      (s s' s'' : Aggregator D) (xs ys : List (Result D)) (m n : ℕ)
      → Added s s' xs m
      → Added s' s'' ys n
      → Added s s'' (xs ++ ys) (m + n)
  Added-trans s s' s'' xs ys m n p q = record {
    expected = q.expected ∙ p.expected;
    received_up = omega (arith, p.received_up, q.received_up);
    successful_up = omega (arith, p.successful_up, q.successful_up, successes-append xs ys);
    split = omega (arith, p.split, q.split, length-append xs ys);
    sum = q.sum ∙ ap (λ (a : D). sum_from a ys) p.sum ∙ sym (sum_from-append s.total_sum xs ys);
    kept = q.kept ∙ ap (λ l. l ++ ys) p.kept ∙ append_assoc s.all_results xs ys;
  }

  Added-nil : (s : Aggregator D) → Added s s [] 0
  Added-nil s = record {
    expected = refl;
    received_up = omega arith;
    successful_up = omega arith;
    split = omega arith;
    sum = refl;
    kept = sym (append-nil s.all_results);
  }

  -- Room for `n` results more is left behind the results `xs`.
  Added-Room :
      (s s' : Aggregator D) (xs : List (Result D)) (m k n : ℕ)
      → Added s s' xs m
      → m ≤ length xs
      → length xs + n ≡ k
      → Room s k
      → Room s' n
  Added-Room s s' xs m k n p le e room =
      omega (arith, p.received_up, p.successful_up, p.split, successes-le xs)

  loop-Added :
      (s : Aggregator D) (rs : List (Result D))
      → Room s (length rs)
      → Added s (foldl add_one s rs) rs 0
  loop-Added s [] room = Added-nil s
  loop-Added s (r ∷ rs) room =
      let first = add_one-Added s r (omega arith) in
      Added-trans s (add_one s r) (foldl add_one (add_one s r) rs) (r ∷ []) rs 0 0 first (
        loop-Added (add_one s r) rs (
          Added-Room s (add_one s r) (r ∷ []) 0 (length (r ∷ rs)) (length rs) first (omega arith)
            (omega arith) room))

  add_result-Added :
      (s : Aggregator D) (b : ResultBatch D)
      → Room s (length b.results)
      → Added s (add_result s b) b.results (length b.results)
  unfolding add_result
  add_result-Added s b room =
      let p = loop-Added s b.results room in
      let fits =
        u64-eq ((foldl add_one s b.results).received_count + length b.results)
          (omega (arith, p.received_up)) in
      record {
        expected = p.expected;
        received_up = omega (arith, fits, p.received_up);
        successful_up = p.successful_up;
        split = p.split;
        sum = p.sum;
        kept = p.kept;
      }

  add_results-Added :
      (s : Aggregator D) (bs : List (ResultBatch D))
      → Room s (length (results_of bs))
      → Added s (add_results s bs) (results_of bs) (length (results_of bs))
  unfolding add_results
  add_results-Added s [] room = Added-nil s
  add_results-Added s (b ∷ bs) room =
      let all = length-append b.results (results_of bs) in
      let first = add_result-Added s b (omega (arith, all)) in
      let rest = add_results-Added (add_result s b) bs (
        Added-Room s (add_result s b) b.results (length b.results) (length (results_of (b ∷ bs)))
          (length (results_of bs)) first (omega arith) (omega (arith, all)) room) in
      rw all (
        Added-trans s (add_result s b) (add_results (add_result s b) bs) b.results (results_of bs)
          (length b.results) (length (results_of bs)) first rest)

  -- After any batches (fewer than 2 ^ 64 results in all) the aggregator has counted each result as
  -- received, and as a success or an error; it keeps them in order, and its sum is that of the
  -- values of the successes, added in the order of arrival.
  pub add_results_lem :
      (expected : ℕ) (bs : List (ResultBatch D))
      → length (results_of bs) < 2 ^ 64
      → Added
          (new_aggregator expected)
          (add_results (new_aggregator expected) bs)
          (results_of bs)
          (length (results_of bs))
  add_results_lem expected bs fits = add_results-Added (new_aggregator expected) bs (omega arith)

  -- After any batches (fewer than 2 ^ 64 results in all) the wait returns `true` if as many results
  -- have arrived as were expected. Otherwise it returns `false` when its timeout has passed, and
  -- blocks if it has none.
  pub wait_for_all_results_lem :
      (timeout expected : ℕ) (bs : List (ResultBatch D))
      → length (results_of bs) < 2 ^ 64
      → wait_for_all_results timeout (add_results (new_aggregator expected) bs) ≡ (
          if leb expected (length (results_of bs))
          then some true
          else (if timeout == 0 then none else some false))
  unfolding wait_for_all_results
  wait_for_all_results_lem timeout expected bs fits =
      let p = add_results_lem expected bs fits in
      let s = add_results (new_aggregator expected) bs in
      let e : s.expected_count ≡ expected = p.expected in
      let r : s.received_count ≡ length (results_of bs) = omega (arith, p.received_up) in
      rw (e, r) (ground arith)
