-- ===== src/StateMachine.antt =====
-- common/include/sg/state_machine.h: `sg::state_machine<TState>`, a worker that ticks the callbacks
-- of its current state. States and callbacks are numbers; what a callback does is a parameter.
pub mod Registry
pub mod Behaving
pub mod Expected
pub mod Trace
pub mod Sessions
pub mod Whole
pub mod Corners
mod Examples
use libsg.Common.{
  ℕ, Bool, true, false, Option, none, some, List, [], ◌∷◌, ◌++◌, map, ◌==◌, ◌||◌, not,
  if◌then◌else◌,
}

-- `state_config`
pub record Config : Type 0 where
  pub ticks : List ℕ
  pub entry_cb : List ℕ
  pub exit_cb : List ℕ

-- A callback with the details that it is given.
pub data Event : Type 0 where
  started stopped : ℕ → Event
  entered exited : (cb new_state old_state : ℕ) → Event
  ticked : (cb current_state : ℕ) → Event

pub record Machine : Type 0 where
  pub current_state : ℕ
  pub requested_state : ℕ
  pub just_started : Bool
  pub states : List (ℕ × Config)  -- `std::map`
  pub on_start_cb : Option ℕ
  pub on_stop_cb : Option ℕ
  pub running : Bool  -- of the worker
  pub log : List Event  -- the callbacks invoked so far

-- What a callback does: it may call `set_state`, and it may throw.
pub record Effect : Type 0 where
  pub request : Option ℕ
  pub throws : Bool

-- It may depend on all that was invoked before.
abbrev pub Behaviour : Type 0
Behaviour = Event → List Event → Effect

-- The machine afterwards, and whether an exception was thrown.
abbrev pub Outcome : Type 0
Outcome = Machine × Bool

-- `std::map::find`
unfoldable pub lookup : ℕ → List (ℕ × Config) → Option Config
lookup s [] = none
lookup s (p ∷ ps) = let rest = lookup s ps in if p.0 == s then some p.1 else rest

-- `set_state`, less the notification
unfoldable pub set_state : ℕ → Machine → Machine
set_state s m = record m { requested_state = s }

unfoldable pub set_requested : Option ℕ → Machine → Machine
unfolding set_state
set_requested none m = m
set_requested (some s) m = set_state s m

unfoldable pub invoke : Behaviour → Event → Machine → Outcome
unfolding set_requested
invoke b e m =
    let effect = b e m.log in
    (record (set_requested effect.request m) { log = m.log ++ (e ∷ []) }, effect.throws)

-- the next statement, unless an exception was thrown
unfoldable pub and_then : (Machine → Outcome) → Outcome → Outcome
and_then f r = elim r.1 [ true ↦ r | false ↦ f r.0 ]

-- a loop over callbacks
unfoldable pub invoke_all : Behaviour → List Event → Machine → Outcome
unfolding invoke and_then
invoke_all b [] m = (m, false)
invoke_all b (e ∷ es) m = and_then (λ u. invoke_all b es u) (invoke b e m)

-- `m_states.at(s)`, which throws if the state is missing
unfoldable pub with_state : ℕ → (Config → Machine → Outcome) → Machine → Outcome
unfolding lookup
with_state s f m = elim (lookup s m.states) [ none ↦ (m, true) | some c ↦ f c m ]

abbrev pub entries : ℕ → ℕ → Config → List Event
entries new_state old_state c = map (λ cb. Event.entered cb new_state old_state) c.entry_cb

abbrev pub exits : ℕ → ℕ → Config → List Event
exits new_state old_state c = map (λ cb. Event.exited cb new_state old_state) c.exit_cb

abbrev pub rounds : ℕ → Config → List Event
rounds current_state c = map (λ cb. Event.ticked cb current_state) c.ticks

unfoldable pub run_entries : Behaviour → ℕ → ℕ → Machine → Outcome
unfolding with_state invoke_all
run_entries b new_state old_state =
    with_state new_state (λ c m. invoke_all b (entries new_state old_state c) m)

unfoldable pub run_exits : Behaviour → ℕ → ℕ → Machine → Outcome
unfolding with_state invoke_all
run_exits b new_state old_state =
    with_state old_state (λ c m. invoke_all b (exits new_state old_state c) m)

unfoldable pub run_ticks : Behaviour → ℕ → Machine → Outcome
unfolding with_state invoke_all
run_ticks b current_state =
    with_state current_state (λ c m. invoke_all b (rounds current_state c) m)

-- the entry callbacks of the initial state
unfoldable pub enter_initial : Behaviour → ℕ → Machine → Outcome
unfolding run_entries
enter_initial b s m = elim m.just_started [
  | true ↦ run_entries b s s (record m { just_started = false })
  | false ↦ (m, false)
]

unfoldable pub change_state : Behaviour → ℕ → ℕ → Machine → Outcome
unfolding run_exits run_entries and_then
change_state b old_state new_state m =
    if old_state == new_state
    then (m, false)
    else and_then (λ u. run_entries b new_state old_state (record u { current_state = new_state }))
        (run_exits b new_state old_state m)

-- Both states are read once, at the beginning; after a change the new state is ticked.
unfoldable pub tick_action : Behaviour → Machine → Outcome
unfolding enter_initial change_state run_ticks and_then
tick_action b m =
    let old_state = m.current_state in
    let new_state = m.requested_state in
    and_then (λ u. run_ticks b new_state u)
      (and_then (λ u. change_state b old_state new_state u) (enter_initial b old_state m))

unfoldable pub invoke_some : Behaviour → (ℕ → Event) → Option ℕ → Machine → Outcome
unfolding invoke
invoke_some b f none m = (m, false)
invoke_some b f (some cb) m = invoke b (f cb) m

unfoldable pub worker_on_start : Behaviour → Machine → Outcome
unfolding invoke_some and_then
worker_on_start b m =
    and_then (λ u. (record u { just_started = true }, false))
      (invoke_some b Event.started m.on_start_cb m)

unfoldable pub worker_on_stop : Behaviour → Machine → Outcome
unfolding run_exits invoke_some and_then
worker_on_stop b m =
    and_then (λ u. invoke_some b Event.stopped u.on_stop_cb u)
      (run_exits b m.current_state m.current_state m)

-- `start`, less the worker
unfoldable pub begin : ℕ → Machine → Machine
begin s m = record m { current_state = s; requested_state = s; running = true }

-- The worker invokes the stop callback also after an exception.
unfoldable pub finish : Behaviour → Outcome → Outcome
unfolding worker_on_stop
finish b r = let s = worker_on_stop b r.0 in (record s.0 { running = false }, r.1 || s.1)

-- What happens to a running machine: another thread calls `set_state`, or the worker ticks.
pub data Input : Type 0 where
  sets : ℕ → Input
  ticks : Input

unfoldable pub act : Behaviour → Input → Machine → Outcome
unfolding set_state tick_action
act b (Input.sets s) m = (set_state s m, false)
act b Input.ticks m = tick_action b m

-- until a tick throws
unfoldable pub play : Behaviour → List Input → Machine → Outcome
unfolding act and_then
play b [] m = (m, false)
play b (i ∷ is) m = and_then (λ u. play b is u) (act b i m)

-- from `start` to the end of the thread
unfoldable pub session : Behaviour → ℕ → List Input → Machine → Outcome
unfolding begin worker_on_start finish play and_then
session b s is m =
    let r = worker_on_start b (begin s m) in
    elim r.1 [ true ↦ (record r.0 { running = false }, true) | false ↦ finish b (play b is r.0) ]
