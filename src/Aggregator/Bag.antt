-- ===== src/Aggregator/Bag.antt =====
-- src/server/result_aggregator.cpp: what an aggregator promises in exact arithmetic, over batches
-- without an order.
use mathlib.Core.List.{Permᴰ}
use mathlib.Core.Quot
use mathlib.Core.Quot.{Quot}
use native.Mathlib.Nat.{ℕ_set}
use distributed_integration.Base.{
  ℕ, ◌<◌, ◌^◌, ◌≡◌, some, none, true, false, List, length, leb, ◌==◌, if◌then◌else◌,
}
use distributed_integration.Double.{Double, IsExact}
use distributed_integration.Messages.{ResultBatch}
use distributed_integration.Aggregator.{
  new_aggregator, add_results, get_final_result, wait_for_all_results,
}
use distributed_integration.Aggregator.Counts.{
  results_of, sum_from, add_results_lem, wait_for_all_results_lem,
}
use distributed_integration.Aggregator.Order.{length-perm, sum_from-perm}

-- Batches without the order in which they arrive.
abbrev pub Bag : Type 0 → Type 0
Bag D = Quot (Permᴰ {A = ResultBatch D})

-- How many results the batches hold.
unfoldable pub bag_count : {D : Type 0} → Bag D → ℕ
bag_count = Quot.lift ℕ_set (λ xs. length (results_of xs)) (λ xs ys p. length-perm p)

module _ {D : Type 0} ⦃d : Double D⦄ (exact : IsExact D) (D-set : IsSet D) where
  -- The sum of the values of their successful results.
  unfoldable pub bag_value : Bag D → D
  bag_value =
      Quot.lift D-set (λ xs. sum_from d.nought (results_of xs))
        (λ xs ys p. sum_from-perm exact p d.nought)

  -- If addition is exact, an aggregator that has got some batches (fewer than 2 ^ 64 results in all)
  -- shows nothing of their order: its final result is the value of the bag of the batches, and the
  -- wait returns `true` if the bag has as many results as were expected, and otherwise `false` behind
  -- its timeout, or never without one.
  pub add_results-Bag :
      (timeout expected : ℕ) (xs : List (ResultBatch D))
      → length (results_of xs) < 2 ^ 64
      → let a = add_results (new_aggregator expected) xs in
        let bag : Bag D = Quot.mk xs in
        (get_final_result a ≡ bag_value bag)
        × (wait_for_all_results timeout a ≡ (
            if leb expected (bag_count bag)
            then some true
            else (if timeout == 0 then none else some false)))
  unfolding get_final_result bag_value bag_count
  add_results-Bag timeout expected xs fits =
      ((add_results_lem expected xs fits).sum, wait_for_all_results_lem timeout expected xs fits)
