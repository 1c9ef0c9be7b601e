-- ===== src/StateMachine/Examples.antt =====
-- A machine with two states: the tick callback of the first one asks for the second one.
use libsg.Common.{ℕ, ◌≡◌, refl, false, none, some, List, [], ◌∷◌, ◌++◌, ◌==◌, if◌then◌else◌, arith}
use libsg.StateMachine.{
  Machine, Config, Event, Behaviour, lookup, set_state, invoke, and_then, invoke_all, invoke_some,
  with_state, exits, run_entries, run_exits, run_ticks, enter_initial, change_state, tick_action,
  worker_on_start, worker_on_stop, begin, finish, Input, act, play, session, set_requested,
}
use libsg.StateMachine.Behaving.{IsRegistered, WellBehaved}
use libsg.StateMachine.Sessions.{some_event}
use libsg.StateMachine.Expected.{config_of}
use libsg.StateMachine.Whole.{observed, session_log}

abbrev first_config : Config
first_config = record { ticks = 10 ∷ []; entry_cb = 11 ∷ []; exit_cb = 12 ∷ [] }

abbrev second_config : Config
second_config = record { ticks = 20 ∷ []; entry_cb = 21 ∷ []; exit_cb = 22 ∷ [] }

abbrev two_states : List (ℕ × Config)
two_states = (1, first_config) ∷ (2, second_config) ∷ []

abbrev machine : Machine
machine = record {
  current_state = 0;
  requested_state = 0;
  just_started = false;
  states = two_states;
  on_start_cb = some 5;
  on_stop_cb = some 6;
  running = false;
  log = [];
}

abbrev on_to_second : Behaviour
on_to_second (Event.ticked cb s) log = record {
  request = if cb == 10 then some 2 else none;
  throws = false;
}
on_to_second _ log = record { request = none; throws = false }

asks-IsRegistered :
    (cb s : ℕ) → (if cb == 10 then some 2 else none) ≡ some s → IsRegistered two_states s
unfolding lookup
asks-IsRegistered cb s h = ground (arith, h)

throws_nothing : (e : Event) (log : List Event) → (on_to_second e log).throws ≡ false
throws_nothing (Event.ticked cb s) log = refl
throws_nothing (Event.started cb) log = refl
throws_nothing _ log = refl

asks_rightly :
    (e : Event) (log : List Event) (s : ℕ)
    → (on_to_second e log).request ≡ some s
    → IsRegistered two_states s
asks_rightly (Event.ticked cb c) log s h = asks-IsRegistered cb s h
asks_rightly (Event.started cb) log s h = ground (arith, h)
asks_rightly _ log s h = ground (arith, h)

on_to_second-WellBehaved : WellBehaved two_states on_to_second
on_to_second-WellBehaved = record { calm = throws_nothing; sound = asks_rightly }

abbrev two_ticks : List Input
two_ticks = Input.ticks ∷ Input.ticks ∷ []

whole_log :
    (session on_to_second 1 two_ticks machine).0.log
    ≡ Event.started 5
      ∷ Event.entered 11 1 1
      ∷ Event.ticked 10 1
      ∷ Event.exited 12 2 1
      ∷ Event.entered 21 2 1
      ∷ Event.ticked 20 2
      ∷ Event.exited 22 2 2
      ∷ Event.stopped 6
      ∷ []
unfolding session begin finish play act tick_action enter_initial change_state run_entries run_exits
    run_ticks with_state invoke_all invoke_some invoke and_then worker_on_start worker_on_stop
    lookup set_requested set_state
whole_log = refl

session_log_example :
    ((session on_to_second 1 two_ticks machine).1 ≡ false)
    × ((session on_to_second 1 two_ticks machine).0.log
        ≡ ((observed on_to_second 1 two_ticks machine).log
            ++ exits
                (observed on_to_second 1 two_ticks machine).current
                (observed on_to_second 1 two_ticks machine).current
                (config_of two_states (observed on_to_second 1 two_ticks machine).current))
          ++ some_event Event.stopped (some 6))
unfolding lookup
session_log_example = session_log 1 two_ticks machine on_to_second-WellBehaved refl (tt, (tt, tt))
