-- ===== src/StateMachine/Expected.antt =====
-- common/include/sg/state_machine.h: which callbacks each tick should invoke, and what the callbacks and
-- the other threads make of the requested state, without running the machine.
use libsg.Common.{ℕ, Bool, true, not, Option, none, some, List, [], ◌∷◌, ◌++◌, ◌==◌, if◌then◌else◌}
use libsg.StateMachine.{Machine, Config, Event, Behaviour, lookup, entries, exits, rounds, Input}

-- What is requested after these callbacks: each may ask for a state, and the last request counts.
abbrev pub or_else : Option ℕ → ℕ → ℕ
or_else none s = s
or_else (some t) s = t

abbrev pub asks : Behaviour → List Event → List Event → ℕ → ℕ
asks b log [] s = s
asks b log (e ∷ es) s = asks b (log ++ (e ∷ [])) es (or_else (b e log).request s)

-- The machine as an observer of the callbacks knows it.
pub record Trace : Type 0 where
  pub entered : Bool  -- the initial state was entered
  pub current : ℕ
  pub requested : ℕ
  pub log : List Event

abbrev pub config_of : List (ℕ × Config) → ℕ → Config
config_of states s = elim (lookup s states) [
  | none ↦ record { ticks = []; entry_cb = []; exit_cb = [] }
  | some c ↦ c
]

abbrev pub entering : List (ℕ × Config) → Trace → List Event
entering states v =
    if v.entered then [] else entries v.current v.current (config_of states v.current)

abbrev pub changing : List (ℕ × Config) → ℕ → ℕ → List Event
changing states s t =
    if s == t then [] else exits t s (config_of states s) ++ entries t s (config_of states t)

-- What a tick invokes: if it is the first, the entry callbacks of the initial state; if another state
-- is requested, the exit callbacks of the current one and the entry callbacks of the other; and the
-- tick callbacks of the state that was requested.
abbrev pub tick_events : List (ℕ × Config) → Trace → List Event
tick_events states v =
    entering states v
    ++ (changing states v.current v.requested ++ rounds v.requested (config_of states v.requested))

abbrev pub expect : Behaviour → List (ℕ × Config) → Input → Trace → Trace
expect b states (Input.sets s) v = record v { requested = s }
expect b states Input.ticks v = record {
  entered = true;
  current = v.requested;
  requested = asks b v.log (tick_events states v) v.requested;
  log = v.log ++ tick_events states v;
}

abbrev pub expect_all : Behaviour → List (ℕ × Config) → List Input → Trace → Trace
expect_all b states [] v = v
expect_all b states (i ∷ is) v = expect_all b states is (expect b states i v)

-- What an observer knows of a machine.
abbrev pub view : Machine → Trace
view m = record {
  entered = not m.just_started;
  current = m.current_state;
  requested = m.requested_state;
  log = m.log;
}
