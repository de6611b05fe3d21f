-- ===== src/InputHandler/Life.antt =====
-- src/server/input_handler.{h,cpp}: what a start means for the end of the handler.
use distributed_integration.Base.{
  ◌≡◌, refl, Bool, true, false, Option, none, some, List, [], ◌∷◌, arith, if◌then◌else◌, Bool-cases,
  inl, inr,
}
use distributed_integration.InputHandler.{
  InputHandler, InputEvent, InputEvent.start, InputEvent.stop, InputEvent.end, on_input, on_all,
  ended, input_life,
}

-- Whether `start` is among the events.
abbrev pub any_start : List InputEvent → Bool
any_start [] = false
any_start (start ∷ events) = true
any_start (stop ∷ events) = any_start events
any_start (end ∷ events) = any_start events

-- The program has been ended, or the handler has a thread.
abbrev Started : Option InputHandler → Type 0
Started none = Unit
Started (some h) = h.joinable ≡ true

on_input-Started : (e : InputEvent) (h : InputHandler) → h.joinable ≡ true → Started (on_input e h)
unfolding on_input
on_input-Started start h j = elim (Bool-cases h.running) [
  | inl on ↦ simp (on) j
  | inr off ↦ simp (off, j) tt
]
on_input-Started stop h j = elim (Bool-cases h.running) [
  | inl on ↦ simp (on) j
  | inr off ↦ simp (off) j
]
on_input-Started end h j = j

-- Nothing makes a handler with a thread free of it again.
ended-Started :
    (events : List InputEvent) (o : Option InputHandler)
    → Started o
    → ended (on_all events o) ≡ none
unfolding on_all ended
ended-Started [] none s = refl
ended-Started [] (some h) s = ground arith
ended-Started (e ∷ events) none s = refl
ended-Started (e ∷ events) (some h) s = ended-Started events (on_input e h) (on_input-Started e h s)

ended-free :
    (events : List InputEvent) (h : InputHandler)
    → h.joinable ≡ false
    → h.running ≡ false
    → ended (on_all events (some h)) ≡ (if any_start events then none else some tt)
unfolding on_all ended on_input
ended-free [] h j r = ground arith
ended-free (start ∷ events) h j r = rw (r, j) (ended-Started events _ refl)
ended-free (stop ∷ events) h j r = simp (r) (ended-free events h j r)
ended-free (end ∷ events) h j r = ended-free events _ j refl

-- Whatever else is done with a handler, its destruction is reached and goes well exactly if it was
-- never started: with a start among the events the program is ended by std::terminate, at the
-- latest in the destructor, also where the handler was stopped or its thread has come to its end
-- before.
pub input_life_lem :
    (events : List InputEvent) → input_life events ≡ (if any_start events then none else some tt)
unfolding input_life
input_life_lem events = ended-free events _ refl refl
