-- ===== src/Program/ClientMain.antt =====
-- src/client/main.cpp: main, from the arguments to the exit.
use distributed_integration.Base.{
  ℕ, ◌%◌, ◌^◌, String, ◌≡◌, refl, true, Option, none, some, List, [], ◌∷◌, Outcome, ok, throw,
  undefined,
}
use distributed_integration.Double.{Double}
use distributed_integration.Logger
use distributed_integration.Logger.{Logger}
use distributed_integration.Messages.{Task, Result}
use distributed_integration.WorkerPool.{WorkerPool}
use distributed_integration.Client.{Client, Link, Ending, new_client, initial_client, run}
use distributed_integration.Methods.Simpson.{simpsons_rule}
use distributed_integration.Machine.{Machine, collect_system_info, at_least_one}
use distributed_integration.Machine.Collected.{new_client-collect_system_info}
use distributed_integration.Program.Exits.{Exit, exited, terminated, unpredictable, escapes}

-- `static_cast<uint16_t>` of an `int`, which is given by the natural number with its bits
unfoldable pub u16 : ℕ → ℕ
u16 n = n % 2 ^ 16

-- `~Client`: the first of its lines is a line of the log. What follows it is the exit.
unfoldable pub destroy_client : Logger → Exit → Exit
unfolding escapes
destroy_client g after = escapes (Logger.get g) after

-- The handler of `main`
client_error : Logger → Exit
unfolding escapes
client_error g = escapes (Logger.get g) (exited 1)

-- `LOG_INFO("Client finished"); return 0;` in the block of `try`, where the client is destroyed at
-- the end
client_finished : Logger → Outcome (Unit {0}) → Exit
unfolding destroy_client client_error
client_finished g (ok _) = destroy_client g (exited 0)
client_finished g (throw e) = destroy_client g (client_error g)
client_finished g undefined = unpredictable

-- Behind `client.run()`
after_run {ℓ} : {A : Type ℓ} → Logger → Outcome A → Exit
unfolding client_finished
after_run g (ok a) = client_finished (Logger.shutdown g) (Logger.get (Logger.shutdown g))
after_run g (throw e) = destroy_client g (client_error g)
after_run g undefined = unpredictable

-- What surrounds the process: the calls of the system, `atoi` and the network, by address and port,
-- the scheduling of the threads and the clock.
pub record World (D : Type 0) : Type 0 where
  pub machine : Machine
  pub atoi : String → ℕ
  pub network : String → ℕ → Link D
  pub execute : WorkerPool D → List (Task D) → List (Result D)
  pub elapsed : D

module _ {D : Type 0} ⦃d : Double D⦄ where
  abbrev pub client_run : World D → String → String → Client × WorkerPool D → Outcome (Ending D)
  client_run w address port (c, pool) =
      (run (w.network address (u16 (w.atoi port))) (w.execute pool) w.elapsed c).1

  -- Where the constructor throws, there is no client to destroy.
  constructed : Logger → World D → String → String → Outcome (Client × WorkerPool D) → Exit
  unfolding after_run client_error
  constructed g w address port (ok made) = after_run g (client_run w address port made)
  constructed g w address port (throw e) = client_error g
  constructed g w address port undefined = unpredictable

  with_arguments : Logger → World D → List String → Exit
  unfolding constructed
  with_arguments g w (program ∷ address ∷ port ∷ []) =
      constructed g w address port (new_client (collect_system_info w.machine))
  with_arguments g w _ = exited 1

  after_init : Outcome Logger → World D → List String → Exit
  unfolding with_arguments
  after_init (ok g) w argv = with_arguments g w argv
  after_init (throw e) w argv = exited 1
  after_init undefined w argv = unpredictable

  -- `main`
  unfoldable pub client_main : (trouble : Option String) → World D → (argv : List String) → Exit
  unfolding after_init
  client_main trouble w argv = after_init (Logger.init trouble) w argv

  -- What to expect of the exit, by what the run of the client does.
  abbrev pub client_exit : Outcome (Ending D) → Exit
  client_exit (ok e) = terminated
  client_exit (throw e) = exited 1
  client_exit undefined = unpredictable

  after_run_exit : (o : Outcome (Ending D)) → after_run (record { is_set = true }) o ≡ client_exit o
  unfolding after_run client_finished client_error destroy_client escapes Logger.get Logger.shutdown
  after_run_exit (ok e) = refl
  after_run_exit (throw e) = refl
  after_run_exit undefined = refl

  abbrev pub pool_of : Machine → WorkerPool D
  pool_of m = record {
    num_threads = at_least_one m.hardware_concurrency;
    integrator = record { strategy = some simpsons_rule };
  }

  -- With a logger and the two arguments, the exit is told by the run of a new client, with a pool
  -- for the machine, on the link to the address and to the port modulo 2 ^ 16: if the run returns,
  -- std::terminate ends the program, if it throws, the program exits with 1, and if it has
  -- undefined behaviour, so has the program. In no case does it exit with 0.
  pub client_main-run :
      (w : World D) (program address port : String)
      → client_main none w (program ∷ address ∷ port ∷ [])
        ≡ client_exit (
            client_run w address port
              (initial_client (collect_system_info w.machine), pool_of w.machine))
  unfolding client_main after_init with_arguments constructed Logger.init
  client_main-run w program address port =
      rw (new_client-collect_system_info w.machine) (after_run_exit (client_run w address port _))
