-- ===== src/Worker/Examples.antt =====
-- A worker at concrete inputs.
use libsg.Common.{◌+◌, ◌≡◌, ◌||◌, if◌then◌else◌, refl, true, false, some, none, arith}
use libsg.Worker.{
  Worker, Thread, State, Refusal, fresh, start, start_within, launch, start_callback_returns,
  loop_test, tick_returns, check_target, unwind, request_stop_after_iterations,
}
use libsg.Worker.System.{Rules, Step, here, next, Reach}
use libsg.Worker.Running.{running_iff_active, is_running, is_active, owes_stop}
use libsg.Worker.Iterations.{advance, run, Stopped, further_iterations}
use libsg.Worker.Restart.{start_within_wedges, over}

abbrev plain : Rules
plain = record { reentrant = false; overlap = false }

-- started with a limit of one tick, up to the stop callback
abbrev begun : Worker
unfolding start launch start_callback_returns loop_test tick_returns check_target
begun =
    check_target 1 (tick_returns 1 (loop_test (start_callback_returns (launch 1 (start fresh).0))))

abbrev in_stop : Worker
unfolding begun unwind
in_stop = unwind none begun

begun-Reach : (r : Rules) → Reach r begun
unfolding start launch start_callback_returns loop_test tick_returns check_target
begun-Reach r =
    next
      (next
        (next
          (next (next (next here (Step.starts (ground arith))) (Step.launches 1 refl refl))
            (Step.start_returns refl))
          (Step.tests refl))
        (Step.tick_ends 1 refl))
      (Step.checks 1 refl)

running_iff_active_example :
    (is_running begun.state ≡ begun.launching || is_active begun.thread)
    × (begun.starts ≡ begun.stops + (if owes_stop begun.thread then 1 else 0))
running_iff_active_example = running_iff_active {r = plain} refl refl (begun-Reach plain)

-- after a first tick with no limit
abbrev waiting_worker : Worker
waiting_worker = record fresh {
  state = State.running;
  iterations_done = 1;
  thread = Thread.waiting;
  starts = 1;
  ticks = 1;
}

ticks_further : (run 14 (request_stop_after_iterations 3 waiting_worker)).ticks ≡ 4
unfolding run request_stop_after_iterations advance
ticks_further = refl

further_iterations_example :
    Stopped 3 waiting_worker (run 14 (request_stop_after_iterations 3 waiting_worker))
further_iterations_example = further_iterations 2 waiting_worker refl refl (omega arith)

restarted : Worker
unfolding start_within
restarted = (start_within in_stop).0

start_within_wedges_example :
    ((start_within in_stop).1 ≡ some Refusal.waits_for_itself)
    × (restarted.state ≡ State.running)
    × (over restarted.thread ≡ true)
    × (start restarted ≡ (restarted, some Refusal.already_running))
unfolding restarted start_within unwind in_stop
start_within_wedges_example =
    start_within_wedges {r = plain} none in_stop (refl, refl, refl, refl) here
