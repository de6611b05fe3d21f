-- ===== src/Examples/Collecting.antt =====
-- The threads of `collect_results` at concrete inputs: two clients, of which the second answers first,
-- and two clients, of which the first is silent.
use native.Mathlib.Nat.{ℕ_set}
use distributed_integration.Base.{
  ℕ, ◌*◌, ◌≤◌, ◌<◌, ◌≡◌, ◌⊎◌, Bool, refl, true, false, some, [], ◌∷◌, arith, ◌==◌, length,
}
use distributed_integration.Base.Words.{u64}
use distributed_integration.Messages.{ResultBatch}
use distributed_integration.ClientManager.{ClientConnection, new_connection, mark_result_received}
use distributed_integration.Aggregator.{
  new_aggregator, add_result, get_final_result, wait_for_all_results,
}
use distributed_integration.Aggregator.Bag.{bag_value, bag_count}
use distributed_integration.Server.{received}
use distributed_integration.Collect.{
  Receiver, receiving, marking, adding, ended, Thread, Collection, collecting, thread_step,
  aggregator_step, may_move, Step, moves, joins, Steps, here, next, IsJoined,
}
use distributed_integration.Collect.Ends.{collect_results_ends}
use distributed_integration.Collect.Silent.{collect_results_silent}
use distributed_integration.Collect.Value.{collect_results_value}
use distributed_integration.Examples.Sample.{whole, whole-IsExact}
use distributed_integration.Examples.Rounds.{info, batch, result, environment}

abbrev nobody : ℕ → Bool
nobody id = false

abbrev first_silent : ℕ → Bool
first_silent id = id == 1

abbrev first : ClientConnection
first = new_connection 1 (info 2)

abbrev second : ClientConnection
second = new_connection 2 (info 1)

abbrev batch_one : ResultBatch ℕ
batch_one = batch 1 (result true 1 4 ∷ result true 2 5 ∷ [])

abbrev batch_two : ResultBatch ℕ
batch_two = batch 2 (result true 3 6 ∷ [])

abbrev at : ClientConnection → Receiver ℕ → Thread ℕ
at c r = record { client = c; at = r }

abbrev begun : Collection ℕ
begun = collecting (new_aggregator ⦃d = whole⦄ 3) (first ∷ second ∷ [])

abbrev marked : ClientConnection → Thread ℕ
marked c = at (record c { result_received = true }) ended

abbrev collected : Collection ℕ
collected = record {
  aggregator = record {
    expected_count = 3;
    received_count = 3;
    successful_count = 3;
    error_count = 0;
    total_sum = 15;
    all_results = result true 3 6 ∷ result true 1 4 ∷ result true 2 5 ∷ [];
  };
  threads = marked first ∷ marked second ∷ [];
  joined = 2;
}

-- The second client answers first.
second_first : Steps ⦃d = whole⦄ (environment true) nobody begun 8 collected
unfolding thread_step aggregator_step may_move u64 mark_result_received add_result
second_first =
    next
      (next
        (next
          (next
            (next
              (next
                (next (next here (moves 1 (at second receiving) refl refl))
                  (moves 0 (at first receiving) refl refl))
                (moves 1 (at second (marking batch_two)) refl refl))
              (moves 1 (at (record second { result_received = true }) (adding batch_two)) refl
                refl))
            (moves 0 (at first (marking batch_one)) refl refl))
          (moves 0 (at (record first { result_received = true }) (adding batch_one)) refl refl))
        (joins (marked first) refl refl))
      (joins (marked second) refl refl)

collect_results_value_example :
    (get_final_result ⦃d = whole⦄ collected.aggregator ≡ 15)
    × (wait_for_all_results ⦃d = whole⦄ 300 collected.aggregator ≡ some true)
unfolding bag_value bag_count received
collect_results_value_example =
    collect_results_value ⦃d = whole⦄ whole-IsExact ℕ_set (environment true) nobody 3
      (first ∷ second ∷ []) second_first refl (omega arith)

collect_results_ends_example :
    (8 ≤ 4 * length (first ∷ second ∷ []))
    × (IsJoined collected
        ⊎ ((c : Collection ℕ) × Step ⦃d = whole⦄ (environment true) nobody collected c))
collect_results_ends_example =
    collect_results_ends ⦃d = whole⦄ (environment true) nobody begun.aggregator
      (first ∷ second ∷ []) 8 collected (λ id. refl) second_first

-- The thread of the second client has ended, that of the first never does.
abbrev half_collected : Collection ℕ
half_collected = record {
  aggregator = record {
    expected_count = 3;
    received_count = 1;
    successful_count = 1;
    error_count = 0;
    total_sum = 6;
    all_results = result true 3 6 ∷ [];
  };
  threads = at first receiving ∷ marked second ∷ [];
  joined = 0;
}

only_second : Steps ⦃d = whole⦄ (environment true) first_silent begun 3 half_collected
unfolding thread_step aggregator_step may_move u64 mark_result_received add_result
only_second =
    next
      (next (next here (moves 1 (at second receiving) refl refl))
        (moves 1 (at second (marking batch_two)) refl refl))
      (moves 1 (at (record second { result_received = true }) (adding batch_two)) refl refl)

collect_results_silent_example : (half_collected.joined ≤ 0) × (0 < length half_collected.threads)
collect_results_silent_example =
    collect_results_silent ⦃d = whole⦄ (environment true) first_silent begun.aggregator
      (first ∷ second ∷ []) 0 first 3 half_collected refl refl only_second
