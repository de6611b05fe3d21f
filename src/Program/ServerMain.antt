-- ===== src/Program/ServerMain.antt =====
-- src/server/main.cpp: main. `console` is what happens to the input handler after its start: the
-- end of its thread and the stops, in their order.
use distributed_integration.Base.{
  ℕ, String, ◌≡◌, refl, ap, Bool, true, not, Option, none, some, List, [], ◌∷◌, if◌then◌else◌,
  Bool-cases, inl, inr, Outcome, ok, throw, undefined,
}
use distributed_integration.Double.{Double}
use distributed_integration.Logger
use distributed_integration.Logger.{Logger}
use distributed_integration.ServerState.{Server, new_server}
use distributed_integration.InputHandler.{InputEvent, InputEvent.start, input_life}
use distributed_integration.InputHandler.Life.{input_life_lem}
use distributed_integration.Server.{
  IntegrationParameters, parameters_is_valid, Environment, Ending, run,
}
use distributed_integration.Program.Asking.{ask_parameters}
use distributed_integration.Program.Exits.{Exit, exited, terminated, unpredictable, escapes}

then_end : Option (Unit {0}) → Exit → Exit
then_end none after = terminated
then_end (some _) after = after

-- `~Server`, which stops a server that runs, and the destructors of its members; then what follows
unfoldable pub destroy_server : Logger → (running : Bool) → List InputEvent → Exit → Exit
unfolding then_end escapes
destroy_server g running events after =
    let members = then_end (input_life events) after in
    if running then escapes (Logger.get g) members else members

-- The handler of `main`, which logs, shuts the logger down and goes on to `return 0`
server_error : Logger → Exit
unfolding escapes
server_error g = escapes (Logger.get g) (exited 0)

destroyed_started :
    (g : Logger) (running : Bool) (console : List InputEvent) (after : Exit)
    → destroy_server g running (start ∷ console) after ≡ terminated
unfolding destroy_server then_end escapes Logger.get
destroyed_started g running console after =
    rw (input_life_lem (start ∷ console)) (elim (Bool-cases running) [
      | inl on ↦ elim (Bool-cases g.is_set) [
        | inl there ↦ simp (on, there) refl
        | inr gone ↦ simp (on, gone) refl
      ]
      | inr off ↦ simp (off) refl
    ])

module _ {D : Type 0} ⦃d : Double D⦄ where
  -- What becomes of the input handler of a server that is run; it is started behind the acceptor.
  unfoldable pub handler_events :
      Environment D → IntegrationParameters D → List InputEvent → List InputEvent
  handler_events env p console =
      if not (parameters_is_valid p)
      then []
      else elim env.listen [ ok _ ↦ start ∷ console | throw e ↦ [] | undefined ↦ [] ]

  -- The end of the block of `try`: the logger is shut down before the server is destroyed. Whatever
  -- throws in `run` does so after `running_` is set.
  after_run : Logger → List InputEvent → Outcome (Server × Ending D) → Exit
  unfolding destroy_server server_error
  after_run g events (ok (s, e)) = destroy_server (Logger.shutdown g) s.running events (exited 0)
  after_run g events (throw e) = destroy_server g true events (server_error g)
  after_run g events undefined = unpredictable

  serve : Logger → Environment D → List InputEvent → IntegrationParameters D → Exit
  unfolding after_run handler_events
  serve g env console p =
      if not (parameters_is_valid p)
      then escapes (Logger.get g) (exited 1)
      else after_run g (handler_events env p console) (run env p new_server)

  answered :
      Logger → Environment D → List InputEvent → Option (IntegrationParameters D) → Option Exit
  unfolding serve
  answered g env console none = none
  answered g env console (some p) = some (serve g env console p)

  started : Outcome Logger → Environment D → List InputEvent → (ℕ → Option D) → ℕ → Option Exit
  unfolding answered
  started (ok g) env console reads fuel = answered g env console (ask_parameters reads fuel)
  started (throw e) env console reads fuel = some (exited 1)
  started undefined env console reads fuel = some unpredictable

  -- `main`; `none` means that a question goes on.
  unfoldable pub server_main :
      (trouble : Option String)
      → Environment D
      → List InputEvent
      → (reads : ℕ → Option D) → ℕ
      → Option Exit
  unfolding started
  server_main trouble env console reads fuel = started (Logger.init trouble) env console reads fuel

  -- What to expect of the exit, by whether the server could listen.
  abbrev pub server_exit : Outcome (Unit {0}) → Outcome (Server × Ending D) → Exit
  server_exit (ok _) (ok _) = terminated
  server_exit (ok _) (throw e) = terminated
  server_exit (ok _) undefined = unpredictable
  server_exit (throw e) _ = exited 0
  server_exit undefined _ = unpredictable

  after_run_started :
      (g : Logger) (console : List InputEvent) (o : Outcome (Server × Ending D))
      → after_run g (start ∷ console) o ≡ server_exit (ok tt) o
  unfolding after_run
  after_run_started g console (ok (s, e)) =
      destroyed_started (Logger.shutdown g) s.running console (exited 0)
  after_run_started g console (throw e) = destroyed_started g true console (server_error g)
  after_run_started g console undefined = refl

  serve_valid :
      (env : Environment D) (console : List InputEvent) (p : IntegrationParameters D)
      (listen : Outcome (Unit {0}))
      → parameters_is_valid p ≡ true
      → env.listen ≡ listen
      → serve (record { is_set = true }) env console p ≡ server_exit listen (run env p new_server)
  unfolding serve handler_events run after_run destroy_server server_error then_end escapes
      Logger.get
  serve_valid env console p (ok _) valid e = rw (valid, e) (after_run_started _ console _)
  serve_valid env console p (throw why) valid e = rw (valid, e) (rw (input_life_lem []) refl)
  serve_valid env console p undefined valid e = rw (valid, e) refl

  -- Let the logger be set up, and let the questions be answered by valid parameters. A server that
  -- gets its port does not return from main: unless its run has undefined behaviour, std::terminate
  -- ends it in the destructor of the server, whatever becomes of its input handler, also where the
  -- integral has been computed. A server that does not get its port exits with 0.
  pub server_main-valid :
      (env : Environment D) (console : List InputEvent) (reads : ℕ → Option D) (fuel : ℕ)
      (p : IntegrationParameters D)
      → ask_parameters reads fuel ≡ some p
      → parameters_is_valid p ≡ true
      → server_main none env console reads fuel
        ≡ some (server_exit env.listen (run env p new_server))
  unfolding server_main started answered Logger.init
  server_main-valid env console reads fuel p asked valid =
      rw asked (ap some (serve_valid env console p env.listen valid refl))
