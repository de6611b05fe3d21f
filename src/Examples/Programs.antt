-- ===== src/Examples/Programs.antt =====
-- The console and the two main programs at concrete inputs.
use distributed_integration.Base.{
  ℕ, zero, suc, ◌<◌, ◌≡◌, refl, true, false, none, some, List, [], ◌∷◌, Option, arith, throw,
  system_error, ◌==◌, if◌then◌else◌,
}
use distributed_integration.InputHandler.{
  codes, InputEvent.start, InputEvent.stop, InputEvent.end, input_loop, input_life, is_start,
  InputHandler, start_input,
}
use distributed_integration.InputHandler.Loop.{input_loop_start, input_loop_forever}
use distributed_integration.InputHandler.Life.{input_life_lem}
use distributed_integration.Messages.{Architecture}
use distributed_integration.Machine.{architecture_named, Machine}
use distributed_integration.Server.{Environment, parameters_is_valid}
use distributed_integration.Program.Exits.{exited, terminated}
use distributed_integration.Program.Asking.{ask_parameters}
use distributed_integration.Program.ServerMain.{server_main, server_main-valid}
use distributed_integration.Program.ClientMain.{World, client_main, client_main-run}
use distributed_integration.Client.{
  run, connect, perform_handshake, receive_tasks, send_results, receive_command, exchange, rethrow,
}
use distributed_integration.Examples.Sample.{whole}
use distributed_integration.Examples.Rounds.{environment, parameters}
use distributed_integration.Examples.Clients.{link, execute}

-- An empty line, another command, and START in small letters between blanks.
abbrev lines : ℕ → List ℕ
lines i = if i == 1 then codes "stop" else if i == 2 then codes " st art " else []

no_line : (i : ℕ) → i < 2 → is_start (lines i) ≡ false
unfolding is_start
no_line zero h = refl
no_line (suc zero) h = refl
no_line (suc (suc i)) h = absurd (omega arith)

input_loop_start_example : input_loop lines (λ i. false) 3 0 ≡ some true
unfolding is_start
input_loop_start_example =
    input_loop_start lines (λ i. false) 2 3 (λ i h. refl) no_line refl (omega arith)

-- One command, and then the end of the input.
abbrev short : ℕ → List ℕ
short i = if i == 0 then codes "go" else []

other_line : (i : ℕ) → i < 1 → is_start (short i) ≡ false
unfolding is_start
other_line zero h = refl
other_line (suc i) h = absurd (omega arith)

input_loop_forever_example : input_loop short (λ i. false) 1000 0 ≡ none
unfolding is_start
input_loop_forever_example =
    input_loop_forever short (λ i. false) 1 (λ i. refl) other_line (λ i over. ground arith) 1000

input_life_lem_example : input_life (start ∷ end ∷ stop ∷ []) ≡ none
input_life_lem_example = input_life_lem (start ∷ end ∷ stop ∷ [])

-- The first answer is no number.
abbrev answers : ℕ → Option ℕ
answers i = if i == 1 then some 2 else if i == 2 then some 15 else if i == 3 then some 1 else none

-- The port is taken.
abbrev occupied : Environment ℕ
occupied = record (environment true) { listen = throw (system_error "Address already in use") }

server_main-valid_example :
    server_main ⦃d = whole⦄ none occupied (end ∷ stop ∷ []) answers 9 ≡ some (exited 0)
unfolding ask_parameters parameters_is_valid
server_main-valid_example =
    server_main-valid ⦃d = whole⦄ occupied (end ∷ stop ∷ []) answers 9 parameters refl refl

abbrev laptop : Machine
laptop = record {
  uname = some (codes "aarch64");
  hardware_concurrency = 0;
  sysinfo = some (4096, 1048576);
}

abbrev world : World ℕ
world = record {
  machine = laptop;
  atoi = λ s. 5555;
  network = λ address port. link;
  execute = λ pool. execute;
  elapsed = 0;
}

client_main-run_example :
    client_main ⦃d = whole⦄ none world ("client" ∷ "127.0.0.1" ∷ "5555" ∷ []) ≡ terminated
unfolding run connect perform_handshake receive_tasks send_results receive_command exchange rethrow
client_main-run_example = client_main-run ⦃d = whole⦄ world "client" "127.0.0.1" "5555"

-- The names that `uname` gives on some machines.
architectures :
    (architecture_named (codes "x86_64") ≡ Architecture.x64)
    × (architecture_named (codes "i686") ≡ Architecture.x86)
    × (architecture_named (codes "armv7l") ≡ Architecture.arm)
    × (architecture_named (codes "aarch64") ≡ Architecture.arm64)
    × (architecture_named (codes "riscv64") ≡ Architecture.unknown)
unfolding architecture_named
architectures = (refl, refl, refl, refl, refl)

lines_of_start :
    (is_start (codes "start") ≡ true)
    × (is_start (codes " St Art ") ≡ true)
    × (is_start (codes "START!") ≡ false)
unfolding is_start
lines_of_start = (refl, refl, refl)

-- A handler is started again after its thread has ended.
abbrev ran : InputHandler
ran = record { running = false; stop_requested = false; has_callback = true; joinable = true }

started_twice : start_input ran ≡ none
unfolding start_input
started_twice = refl
