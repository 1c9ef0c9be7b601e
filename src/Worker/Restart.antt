-- ===== src/Worker/Restart.antt =====
-- A worker that is started again from its own stop callback never runs again.
use libsg.Common.{ℕ, ◌≡◌, Bool, true, false, Option, some, arith}
use libsg.Worker.{
  Worker, Thread, State, Refusal, notify, request_stop, request_stop_after_iterations, start,
  start_within, launch, launch_fails, clean_up, start_callback_returns, start_callback_throws,
  loop_test, tick_returns, tick_throws, check_target, wake, unwind, stop_callback_returns,
  stop_callback_throws,
}
use libsg.Worker.System.{Rules, Step, Steps, here, next, guard}

-- Nothing else is under way.
abbrev pub InStopCallback : Option ℕ → Worker → Type 0
InStopCallback ex w =
    (w.thread ≡ Thread.stopping ex)
    × (w.state ≡ State.stopped)
    × (w.launching ≡ false)
    × (w.cleaning ≡ false)

abbrev pub over : Thread → Bool
over (Thread.stopping ex) = true
over Thread.finished = true
over _ = false

record Wedged (w : Worker) : Type 0 where
  claimed : w.state ≡ State.running
  nobody : (w.launching ≡ false) × (w.cleaning ≡ false)
  gone : over w.thread ≡ true

Step-Wedged : {r : Rules} {w u : Worker} → Step r w u → Wedged w → Wedged u
unfolding notify request_stop request_stop_after_iterations start start_within launch launch_fails
    clean_up start_callback_returns start_callback_throws loop_test tick_returns tick_throws
    check_target wake unwind stop_callback_returns stop_callback_throws
Step-Wedged (Step.notifies) a = ground (arith, a)
Step-Wedged st a = ground (arith, a, guard st)

Steps-Wedged : {r : Rules} {w u : Worker} → Steps r w u → Wedged w → Wedged u
Steps-Wedged here a = a
Steps-Wedged (next h st) a = Step-Wedged st (Steps-Wedged h a)

-- `start()` called from the stop callback throws, and leaves the worker claiming to run for ever:
-- after any further steps its state is `running`, no thread ticks, and every `start()` is refused.
pub start_within_wedges :
    {r : Rules} (ex : Option ℕ) (w : Worker) {u : Worker}
    → InStopCallback ex w
    → Steps r (start_within w).0 u
    → ((start_within w).1 ≡ some Refusal.waits_for_itself)
      × (u.state ≡ State.running)
      × (over u.thread ≡ true)
      × (start u ≡ (u, some Refusal.already_running))
unfolding start_within start
start_within_wedges ex w c h =
    let wedged : Wedged (start_within w).0 = ground arith in ground (arith, Steps-Wedged h wedged)
