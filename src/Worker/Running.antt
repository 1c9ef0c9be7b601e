-- ===== src/Worker/Running.antt =====
-- `is_running()` tells the truth, and the callbacks come in pairs.
use libsg.Common.{◌+◌, ◌≡◌, Bool, true, false, ◌||◌, arith, if◌then◌else◌}
use libsg.Worker.{
  Worker, Thread, State, notify, request_stop, request_stop_after_iterations, start, start_within,
  launch, launch_fails, clean_up, start_callback_returns, start_callback_throws, loop_test,
  tick_returns, tick_throws, check_target, wake, unwind, stop_callback_returns,
  stop_callback_throws,
}
use libsg.Worker.System.{Rules, Step, here, next, Reach, guard}

-- The thread is between its creation and the store of `stopped`.
abbrev pub is_active : Thread → Bool
is_active Thread.no_thread = false
is_active (Thread.stopping ex) = false
is_active Thread.finished = false
is_active _ = true

-- The start callback has returned and the stop callback is still to come.
abbrev pub owes_stop : Thread → Bool
owes_stop Thread.entered = false
owes_stop t = is_active t

abbrev pub is_running : State → Bool
is_running State.running = true
is_running State.stopped = false

record Accurate (w : Worker) : Type 0 where
  told : is_running w.state ≡ w.launching || is_active w.thread
  exclusive : w.launching ≡ true → is_active w.thread ≡ false
  cleared : w.cleaning ≡ true → (w.state ≡ State.stopped) × (w.thread ≡ Thread.finished)
  paired : w.starts ≡ w.stops + (if owes_stop w.thread then 1 else 0)

Step-Accurate :
    {r : Rules} {w u : Worker}
    → r.reentrant ≡ false
    → r.overlap ≡ false
    → Step r w u
    → Accurate w
    → Accurate u
unfolding notify request_stop request_stop_after_iterations start start_within launch launch_fails
    clean_up start_callback_returns start_callback_throws loop_test tick_returns tick_throws
    check_target wake unwind stop_callback_returns stop_callback_throws
Step-Accurate p q (Step.notifies) a = ground (arith, a)
Step-Accurate p q st a = ground (arith, a, guard st)

Reach-Accurate :
    {r : Rules} {w : Worker} → r.reentrant ≡ false → r.overlap ≡ false → Reach r w → Accurate w
Reach-Accurate p q here = ground arith
Reach-Accurate p q (next h st) = Step-Accurate p q st (Reach-Accurate p q h)

-- If `start()` is not called from the stop callback, nor while another `start()` is failing, then
-- in every reachable state `is_running()` is true exactly while a `start()` is creating the thread
-- or the thread has not yet stored that it stopped; and the stop callback has been reached once
-- for each start callback that returned, except for the run that is still going on.
pub running_iff_active :
    {r : Rules} {w : Worker}
    → r.reentrant ≡ false
    → r.overlap ≡ false
    → Reach r w
    → (is_running w.state ≡ w.launching || is_active w.thread)
      × (w.starts ≡ w.stops + (if owes_stop w.thread then 1 else 0))
running_iff_active p q h = let a = Reach-Accurate p q h in (a.told, a.paired)
