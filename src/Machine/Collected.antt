-- ===== src/Machine/Collected.antt =====
-- src/common/utils.cpp and src/client/client.cpp: a client can be made on every machine.
use distributed_integration.Base.{ℕ, ◌≡◌, refl, ◌∙◌, false, some, ◌==◌, ok, Bool-cases, inl, inr}
use distributed_integration.Double.{Double}
use distributed_integration.Methods.Simpson.{simpsons_rule}
use distributed_integration.Client.{new_client, initial_client}
use distributed_integration.Client.Answers.{new_client_lem}
use distributed_integration.Machine.{Machine, collect_system_info, at_least_one}

cores_collected : (n : ℕ) → (at_least_one n == 0) ≡ false
unfolding at_least_one
cores_collected n = elim (Bool-cases (n == 0)) [
  | inl silent ↦ rw silent refl
  | inr told ↦ rw told told
]

module _ {D : Type 0} ⦃d : Double D⦄ where
  -- The constructor of the client never throws: whatever the system calls give, also where they
  -- fail or know nothing of the processor, the client is made with Simpson's rule, and its pool has
  -- as many threads as the machine tells of, or one if it tells of none.
  pub new_client-collect_system_info :
      (m : Machine)
      → new_client {D = D} (collect_system_info m)
        ≡ ok (
          initial_client (collect_system_info m),
          record {
            num_threads = at_least_one m.hardware_concurrency;
            integrator = record { strategy = some simpsons_rule };
          },
        )
  unfolding collect_system_info
  new_client-collect_system_info m =
      new_client_lem (collect_system_info m) ∙ rw (cores_collected m.hardware_concurrency) refl
