-- ===== src/Aggregator.antt =====
-- src/server/result_aggregator.{h,cpp}. Every method locks the mutex, so a call is one step;
-- batches that arrive from several threads are a list in the order of arrival.
use distributed_integration.Base.{
  ℕ, ◌+◌, String, Bool, true, false, Option, none, some, List, [], ◌∷◌, ◌++◌, foldl, leb, ◌==◌,
  if◌then◌else◌, length,
}
use distributed_integration.Base.Words.{u64}
use distributed_integration.Double.{Double}
use distributed_integration.Messages.{Result, ResultBatch}
pub mod Counts
pub mod Order
pub mod Bag

pub record Aggregator (D : Type 0) : Type 0 where
  pub expected_count : ℕ  -- size_t, as the three counters
  pub received_count : ℕ
  pub successful_count : ℕ
  pub error_count : ℕ
  pub total_sum : D
  pub all_results : List (Result D)

module _ {D : Type 0} ⦃d : Double D⦄ where
  open d use {nought, add}

  -- the constructor
  abbrev pub new_aggregator : ℕ → Aggregator D
  new_aggregator expected = record {
    expected_count = expected;
    received_count = 0;
    successful_count = 0;
    error_count = 0;
    total_sum = nought;
    all_results = [];
  }

  -- one round of the loop in `add_result`
  unfoldable pub add_one : Aggregator D → Result D → Aggregator D
  add_one s result =
      if result.success
      then record s {
        total_sum = add s.total_sum result.value;
        successful_count = u64 (s.successful_count + 1);
        all_results = s.all_results ++ (result ∷ []);
      }
      else record s {
        error_count = u64 (s.error_count + 1);
        all_results = s.all_results ++ (result ∷ []);
      }

  -- `ResultAggregator::add_result`
  unfoldable pub add_result : Aggregator D → ResultBatch D → Aggregator D
  unfolding add_one
  add_result s batch =
      let s' = foldl add_one s batch.results in
      record s' { received_count = u64 (s'.received_count + length batch.results) }

  -- The batches of the clients, in the order in which their threads get the lock.
  unfoldable pub add_results : Aggregator D → List (ResultBatch D) → Aggregator D
  unfolding add_result
  add_results = foldl add_result

  abbrev pub is_complete : Aggregator D → Bool
  is_complete s = leb s.expected_count s.received_count

  -- `wait_for_all_results` when no other thread adds results any more: with no timeout (0) the call
  -- returns `true` or never returns (`none`), else it returns what the predicate says at the end.
  unfoldable pub wait_for_all_results : ℕ → Aggregator D → Option Bool
  wait_for_all_results timeout_seconds s =
      if timeout_seconds == 0
      then (if is_complete s then some true else none)
      else some (is_complete s)

  unfoldable pub get_final_result : Aggregator D → D
  get_final_result s = s.total_sum
