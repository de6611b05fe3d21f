-- ===== src/Collect/Value.antt =====
-- src/server/server.cpp with src/server/result_aggregator.cpp: what the threads of `collect_results`
-- leave in the aggregator.
use mathlib.Core.List.{Permᴰ}
use mathlib.Core.Quot
use mathlib.Core.Quot.{Quot}
use distributed_integration.Base.{
  ℕ, ◌<◌, ◌^◌, ◌≡◌, Bool, ap, ◌∙◌, some, List, length, leb, true, false, if◌then◌else◌, arith,
}
use distributed_integration.Double.{Double, IsExact}
use distributed_integration.ClientManager.{ClientConnection}
use distributed_integration.Aggregator.{new_aggregator, get_final_result, wait_for_all_results}
use distributed_integration.Aggregator.Counts.{results_of}
use distributed_integration.Aggregator.Order.{length-perm}
use distributed_integration.Aggregator.Bag.{Bag, bag_count, bag_value, add_results-Bag}
use distributed_integration.Server.{Environment, received}
use distributed_integration.Collect.{Collection, collecting, Steps, IsJoined}
use distributed_integration.Collect.Joined.{joined_added}

-- If addition is exact, then whatever the schedule of the threads, once all of them are joined the
-- final result is the value of the bag of the batches that were received (fewer than 2 ^ 64 results
-- in all), and the wait of 300 seconds says whether it holds as many results as were expected.
pub collect_results_value :
    {D : Type 0} ⦃d : Double D⦄ (exact : IsExact D) (D-set : IsSet D) (env : Environment D)
    (silent : ℕ → Bool) (expected : ℕ) (cs : List ClientConnection) {n : ℕ} {c : Collection D}
    → Steps env silent (collecting (new_aggregator expected) cs) n c
    → IsJoined c
    → length (results_of (received env cs)) < 2 ^ 64
    → let bag : Bag D = Quot.mk (received env cs) in
      (get_final_result c.aggregator ≡ bag_value exact D-set bag)
      × (wait_for_all_results 300 c.aggregator ≡ some (leb expected (bag_count bag)))
collect_results_value exact D-set env silent expected cs {n} {c} more joined fits =
    let (added, sums, orders, _) =
      joined_added env silent (new_aggregator expected) cs more joined in
    let (value, waited) =
      add_results-Bag exact D-set 300 expected added (omega (arith, fits, length-perm orders)) in
    let same = Quot.sound {r = Permᴰ} orders in
    (
      ap get_final_result sums ∙ value ∙ ap (bag_value exact D-set) same,
      ap (wait_for_all_results 300) sums
          ∙ waited
          ∙ ap (λ q. if leb expected (bag_count q) then some true else some false) same
          ∙ ground arith,
    )
