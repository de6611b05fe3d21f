-- ===== src/InputHandler.antt =====
-- src/server/input_handler.{h,cpp}: the console thread that waits for START. A line is its bytes.
use Prim.Native.Char.{code}
use Prim.Native.String.{String}
use distributed_integration.Base.{
  ℕ, zero, suc, ◌+◌, ◌-◌, ◌*◌, ◌≡◌, Bool, true, false, ◌&&◌, ◌||◌, Option, none, some, List, [],
  ◌∷◌, map, leb, ◌==◌, if◌then◌else◌,
}
pub mod Lines
pub mod Loop
pub mod Life

-- The bytes of an ASCII text.
abbrev pub codes : String → List ℕ
codes String.[] = []
codes (String.◌∷◌ c s) = code c ∷ codes s

-- `::isspace` and `::toupper` in the C locale
unfoldable pub is_space : ℕ → Bool
is_space c = c == 32 || (leb 9 c && leb c 13)

unfoldable pub to_upper : ℕ → ℕ
to_upper c = if leb 97 c && leb c 122 then c - 32 else c

-- `erase` of what `remove_if` leaves at the end
unfoldable pub remove_spaces : List ℕ → List ℕ
unfolding is_space
remove_spaces [] = []
remove_spaces (c ∷ line) = let rest = remove_spaces line in if is_space c then rest else c ∷ rest

unfoldable pub normalize : List ℕ → List ℕ
unfolding remove_spaces to_upper
normalize line = map to_upper (remove_spaces line)

unfoldable pub same_bytes : List ℕ → List ℕ → Bool
same_bytes [] [] = true
same_bytes [] (d ∷ t) = false
same_bytes (c ∷ s) [] = false
same_bytes (c ∷ s) (d ∷ t) = c == d && same_bytes s t

-- `input == "START"`
unfoldable pub is_start : List ℕ → Bool
unfolding normalize same_bytes
is_start line = same_bytes (normalize line) (codes "START")

-- The loop of `input_thread_func` on fuel, from round `k` on. `reads k` is what the call of
-- `getline` in round `k` gives, which at the end of the input is the empty line, and `stops i` what
-- the check with number `i` of `stop_requested_` sees, two in each round. The result says whether
-- the callback was called; `none` means that the loop goes on.
unfoldable pub input_loop : (reads : ℕ → List ℕ) → (stops : ℕ → Bool) → ℕ → ℕ → Option Bool
unfolding is_start
input_loop reads stops zero k = none
input_loop reads stops (suc fuel) k = elim (stops (2 * k) || stops (2 * k + 1)) [
  | true ↦ some false
  | false ↦ elim (is_start (reads k)) [
    | true ↦ some true
    | false ↦ input_loop reads stops fuel (k + 1)
  ]
]

-- The state of the handler; `joinable` is that of the object `input_thread_`.
pub record InputHandler : Type 0 where
  pub running : Bool
  pub stop_requested : Bool
  pub has_callback : Bool
  pub joinable : Bool

abbrev pub new_input_handler : InputHandler
new_input_handler = record {
  running = false;
  stop_requested = false;
  has_callback = false;
  joinable = false;
}

-- `InputHandler::start`; the assignment to a joinable thread calls std::terminate, which is `none`.
unfoldable pub start_input : InputHandler → Option InputHandler
start_input h =
    if h.running
    then some h
    else if h.joinable
    then none
    else some
        (record { running = true; stop_requested = false; has_callback = true; joinable = true })

-- `InputHandler::stop`
unfoldable pub stop_input : InputHandler → InputHandler
stop_input h = if h.running then record h { stop_requested = true; running = false } else h

-- The last assignment of the thread.
unfoldable pub thread_ends : InputHandler → InputHandler
thread_ends h = record h { running = false }

-- `~InputHandler`; the destructor of a joinable thread calls std::terminate.
unfoldable pub destroy_input : InputHandler → Option (Unit {0})
unfolding stop_input
destroy_input h = if (stop_input h).joinable then none else some tt

-- What can happen to a handler between its construction and its end.
pub data InputEvent : Type 0 where
  start stop end : InputEvent

unfoldable pub on_input : InputEvent → InputHandler → Option InputHandler
unfolding start_input stop_input thread_ends
on_input start h = start_input h
on_input stop h = some (stop_input h)
on_input end h = some (thread_ends h)

on_all : List InputEvent → Option InputHandler → Option InputHandler
unfolding on_input
on_all [] o = o
on_all (e ∷ es) none = none
on_all (e ∷ es) (some h) = on_all es (on_input e h)

ended : Option InputHandler → Option (Unit {0})
unfolding destroy_input
ended none = none
ended (some h) = destroy_input h

-- A handler that is destroyed after the events; `none` for std::terminate on the way.
unfoldable pub input_life : List InputEvent → Option (Unit {0})
unfolding on_all ended
input_life events = ended (on_all events (some new_input_handler))
