-- ===== src/StateMachine/Whole.antt =====
-- common/include/sg/state_machine.h: which callbacks a whole run of the machine invokes, from `start`
-- to the stop callback of its worker.
use libsg.Common.{
  ℕ, ◌≡◌, refl, sym, subst, ap, ◌∙◌, true, false, not, Option, none, some, List, [], ◌∷◌, ◌++◌,
  arith,
}
use libsg.StateMachine.{
  Machine, Config, Event, Behaviour, set_state, and_then, exits, run_exits, invoke_some,
  worker_on_start, worker_on_stop, begin, finish, Input, act, play, session,
}
use libsg.StateMachine.Behaving.{
  IsRegistered, WellBehaved, Ready, Option-some, with_state-Played, tick_action-Entered,
}
use libsg.StateMachine.Expected.{Trace, view, config_of, asks, expect, expect_all}
use libsg.StateMachine.Trace.{config_of-some, ticking-Said, invoke-asked}
use libsg.StateMachine.Sessions.{IsAllowed, AllAllowed, some_event, invoke_some-Played, act-Ready}

same_view :
    {v w : Trace}
    → v.entered ≡ w.entered
    → v.current ≡ w.current
    → v.requested ≡ w.requested
    → v.log ≡ w.log
    → v ≡ w
same_view p q r s = λ i. record { entered = p i; current = q i; requested = r i; log = s i }

module _ {st : List (ℕ × Config)} {b : Behaviour} (w : WellBehaved st b) {stop : Option ℕ} where
  act-view :
      (i : Input) (m : Machine)
      → Ready st stop m
      → IsAllowed st i
      → view (act b i m).0 ≡ expect b st i (view m)
  unfolding act set_state
  act-view (Input.sets s) m r ok = refl
  act-view Input.ticks m r ok =
      let e = tick_action-Entered w m r in
      let x = ticking-Said w m r.kept r.here r.wanted in
      same_view (ap not e.just) e.current x.asked x.log

  play-view :
      (is : List Input) (m : Machine)
      → Ready st stop m
      → AllAllowed st is
      → ((play b is m).1 ≡ false)
        × Ready st stop (play b is m).0
        × (view (play b is m).0 ≡ expect_all b st is (view m))
  unfolding play and_then
  play-view [] m r ok = (refl, r, refl)
  play-view (i ∷ is) m r ok =
      let (calm, q) = act-Ready w i m r ok.0 in
      let (still, ready, seen) = play-view is (act b i m).0 q ok.1 in
      let goes : play b (i ∷ is) m ≡ play b is (act b i m).0 =
        ap (λ t. elim t [ true ↦ act b i m | false ↦ play b is (act b i m).0 ]) calm in
      let whole = seen ∙ ap (expect_all b st is) (act-view i m r ok.0) in
      subst
        (λ o. (o.1 ≡ false) × Ready st stop o.0 × (view o.0 ≡ expect_all b st (i ∷ is) (view m)))
        (sym goes) (still, ready, whole)

  finish-log :
      (m : Machine)
      → Ready st stop m
      → ((finish b (m, false)).1 ≡ false)
        × ((finish b (m, false)).0.log
            ≡ (m.log ++ exits m.current_state m.current_state (config_of st m.current_state))
              ++ some_event Event.stopped stop)
  unfolding finish worker_on_stop run_exits and_then
  finish-log m r =
      let s = m.current_state in
      let (c, h) = Option-some r.here in
      let p = with_state-Played w s (exits s s) m r.kept h in
      let u = (run_exits b s s m).0 in
      let q = invoke_some-Played w Event.stopped u.on_stop_cb u in
      let events = ap (some_event Event.stopped) (p.stop ∙ r.callback) in
      let found = ap (exits s s) (config_of-some st s c h) in ground (arith, p, q, events, found)

invoke_some-asked :
    (b : Behaviour) (f : ℕ → Event) (o : Option ℕ) (m : Machine)
    → (invoke_some b f o m).0.requested_state ≡ asks b m.log (some_event f o) m.requested_state
unfolding invoke_some
invoke_some-asked b f none m = refl
invoke_some-asked b f (some cb) m = invoke-asked b (f cb) m

-- The run as far as an observer of the callbacks knows it: the started callback is invoked, and then
-- the inputs happen.
abbrev pub observed : Behaviour → ℕ → List Input → Machine → Trace
observed b s is m =
    let first = some_event Event.started m.on_start_cb in
    expect_all b m.states is (record {
      entered = false;
      current = s;
      requested = asks b m.log first s;
      log = m.log ++ first;
    })

-- A machine is started in a registered state, with callbacks that throw nothing and ask only for
-- registered states, as do the other threads. Then nothing is thrown, and exactly these callbacks are
-- invoked: the started callback; what each input entails (a request of another thread nothing; a
-- tick, if it is the first, the entry callbacks of the current state; then, if another state is
-- requested as the tick begins, the exit callbacks of the current state and the entry callbacks of
-- the other, which is the current one from then on; then the tick callbacks of the current state;
-- where the requested state is the one that was asked for last, by a thread or by any callback); the
-- exit callbacks of the state that is the current one after all inputs; and the stopped callback.
pub session_log :
    {b : Behaviour} (s : ℕ) (is : List Input) (m : Machine)
    → WellBehaved m.states b
    → IsRegistered m.states s
    → AllAllowed m.states is
    → ((session b s is m).1 ≡ false)
      × ((session b s is m).0.log
          ≡ ((observed b s is m).log
              ++ exits
                  (observed b s is m).current
                  (observed b s is m).current
                  (config_of m.states (observed b s is m).current))
            ++ some_event Event.stopped m.on_stop_cb)
unfolding session begin finish worker_on_start and_then
session_log {b} s is m w hs ok =
    let first = some_event Event.started m.on_start_cb in
    let p = invoke_some-Played w Event.started m.on_start_cb (begin s m) in
    let asked = invoke_some-asked b Event.started m.on_start_cb (begin s m) in
    let u = (worker_on_start b (begin s m)).0 in
    let begun : Ready m.states m.on_stop_cb u = ground (arith, p, hs) in
    let seen : view u ≡ record {
      entered = false;
      current = s;
      requested = asks b m.log first s;
      log = m.log ++ first;
    } =
      ground (arith, p, asked) in
    let (calm, q, played) = play-view w is u begun ok in
    let v = (play b is u).0 in
    let (still, e) = finish-log w v q in
    let whole = played ∙ ap (expect_all b m.states is) seen in
    let tail =
      ap
        (λ (t : Trace).
          (t.log ++ exits t.current t.current (config_of m.states t.current))
          ++ some_event Event.stopped m.on_stop_cb)
        whole in
    (ground (arith, p, calm, still), ground (arith, p, calm, e, tail))
