-- ===== src/StateMachine/Corners.antt =====
-- Runs of the machine in which callbacks do not come in pairs.
use libsg.Common.{ℕ, ◌≡◌, refl, ap, true, false, none, some, List, [], ◌∷◌, ◌++◌, ◌==◌, arith}
use libsg.StateMachine.{
  Machine, Config, Event, Behaviour, lookup, set_state, and_then, enter_initial, change_state,
  with_state, exits, run_exits, run_entries, tick_action, worker_on_start, worker_on_stop, begin,
  finish, Input, act, play, session,
}
use libsg.StateMachine.Behaving.{WellBehaved, with_state-Played}
use libsg.StateMachine.Sessions.{has_tick, some_event, invoke_some-Played}

play-idle :
    (b : Behaviour) (is : List Input) (m : Machine)
    → has_tick is ≡ false
    → (t : ℕ) × (play b is m ≡ (set_state t m, false))
unfolding play act and_then set_state
play-idle b [] m h = (m.requested_state, refl)
play-idle b (Input.sets s ∷ is) m h = play-idle b is (set_state s m) h
play-idle b (Input.ticks ∷ is) m h = ground (arith, h)

-- If the machine is stopped before its first tick, and its callbacks throw nothing and ask only
-- for registered states, the exit callbacks of the initial state are invoked although its entry
-- callbacks were not: between the started and the stopped callback there is nothing else.
pub exits_without_entry :
    {b : Behaviour} (s : ℕ) (is : List Input) (m : Machine) (c : Config)
    → WellBehaved m.states b
    → lookup s m.states ≡ some c
    → has_tick is ≡ false
    → (session b s is m).0.log
      ≡ ((m.log ++ some_event Event.started m.on_start_cb) ++ exits s s c)
        ++ some_event Event.stopped m.on_stop_cb
unfolding session begin finish worker_on_start worker_on_stop run_exits and_then set_state
exits_without_entry {b} s is m c w hc h =
    let p = invoke_some-Played w Event.started m.on_start_cb (begin s m) in
    let u = (worker_on_start b (begin s m)).0 in
    let (t, e) = play-idle b is u h in
    let v = set_state t u in
    let kept : v.states ≡ m.states = ground (arith, p) in
    let q = with_state-Played w s (exits s s) v kept hc in
    let x = (run_exits b s s v).0 in
    let n = invoke_some-Played w Event.stopped x.on_stop_cb x in
    let same : x.on_stop_cb ≡ m.on_stop_cb = ground (arith, p, q) in
    ground (arith, p, e, q, n, ap (some_event Event.stopped) same)

-- After `set_state` with a state that was never added, the next tick of a machine that has entered
-- its current state invokes the exit callbacks of that state and throws; then the stop callback of
-- the worker throws as well, so that the machine ends without its stopped callback.
pub unregistered_skips_stopped :
    {b : Behaviour} (t : ℕ) (m : Machine) (c : Config)
    → WellBehaved m.states b
    → m.just_started ≡ false
    → lookup m.current_state m.states ≡ some c
    → lookup t m.states ≡ none
    → let r = tick_action b (set_state t m) in
      (r.1 ≡ true)
      × ((finish b r).1 ≡ true)
      × ((finish b r).0.log ≡ m.log ++ exits t m.current_state c)
unfolding tick_action enter_initial change_state run_exits run_entries with_state finish
    worker_on_stop and_then set_state
unregistered_skips_stopped {b} t m c w j hc ht =
    let s = m.current_state in
    let p = with_state-Played w s (exits t s) (set_state t m) refl hc in
    let other : (s == t) ≡ false = ground (arith, hc, ht) in ground (arith, p, j, hc, ht, other)
