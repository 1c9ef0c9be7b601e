-- ===== src/BackgroundTimer/Runs.antt =====
-- What holds of the callbacks and of `is_running` in every run of the timer.
use libsg.Common.{ℕ, ◌+◌, ◌≡◌, ◌≢◌, Bool, true, false, arith, if◌then◌else◌}
use libsg.BackgroundTimer.{
  Timer, Thread, Starter, fresh, start, start_joined, start_sets, start_creates, start_throws,
  wait_for_stop, request_stop, set_interval, started_callback, decide, invoke_task, task_returns,
  task_throws, task_sets_interval, interval_set, sleep_ends, leave, stopped_callback, is_over,
}
use libsg.BackgroundTimer.System.{Inner, Step, Steps, here, next, Reach}

-- The thread has not yet said that it no longer runs.
abbrev pub is_active : Thread → Bool
is_active Thread.no_thread = false
is_active Thread.notifying = false
is_active Thread.ended = false
is_active _ = true

abbrev pub has_begun : Thread → Bool
has_begun Thread.begun = false
has_begun _ = true

abbrev is_nobody : Starter → Bool
is_nobody Starter.nobody = true
is_nobody _ = false

abbrev pub may_throw : Thread → Bool
may_throw Thread.leaving = false
may_throw x = is_active x

pub record Runs (t : Timer) : Type 0 where
  pub runs_active : is_active t.thread ≡ true → t.is_running ≡ true
  pub rests : t.is_running ≡ true → is_active t.thread ≡ false → t.thread ≡ Thread.no_thread
  pub alone : is_active t.thread ≡ true → t.starter ≡ Starter.nobody
  pub empty : t.starter ≡ Starter.resetting → t.thread ≡ Thread.no_thread
  pub ready : t.starter ≡ Starter.creating → t.thread ≡ Thread.no_thread
  pub announced : t.starter ≡ Starter.creating → t.is_running ≡ true
  pub clean : t.starter ≡ Starter.creating → t.has_exception ≡ false
  pub begun_counted : t.runs ≡ t.started + (if has_begun t.thread then 0 else 1)
  pub ended_counted : t.runs ≡ t.stopped + (if is_over t.thread then 0 else 1)
  pub quiet : may_throw t.thread ≡ true → t.has_exception ≡ false
  pub told : t.thread ≡ Thread.ended → t.reported ≡ t.threw
  pub recorded : t.thread ≢ Thread.no_thread → t.has_exception ≡ t.threw
  pub unthrown : may_throw t.thread ≡ true → t.threw ≡ false

Inner-Runs : {t u : Timer} → Inner true t u → Runs t → Runs u
unfolding started_callback decide invoke_task task_returns task_throws sleep_ends leave
    stopped_callback
Inner-Runs (Inner.begins e) c = ground (arith, c, e)
Inner-Runs (Inner.decides e) c = ground (arith, c, e)
Inner-Runs (Inner.invokes e) c = ground (arith, c, e)
Inner-Runs (Inner.returns e) c = ground (arith, c, e)
Inner-Runs (Inner.throws f e) c = ground (arith, c, e)
Inner-Runs (Inner.wakes e) c = ground (arith, c, e)
Inner-Runs (Inner.leaves e) c = ground (arith, c, e)
Inner-Runs (Inner.notifies e) c = ground (arith, c, e)

Step-Runs : {t u : Timer} → Step t u → Runs t → Runs u
unfolding start start_joined start_sets start_creates start_throws wait_for_stop request_stop
    set_interval task_sets_interval interval_set
Step-Runs (Step.inner st) c = Inner-Runs st c
Step-Runs (Step.starts e) c = ground (arith, c, e)
Step-Runs (Step.joins e f) c = ground (arith, c, e, f)
Step-Runs (Step.sets e) c = ground (arith, c, e)
Step-Runs (Step.creates e) c = ground (arith, c, e)
Step-Runs (Step.fails e) c = ground (arith, c, e)
Step-Runs (Step.waits e f) c = ground (arith, c, e, f)
Step-Runs Step.requests c = ground (arith, c)
Step-Runs (Step.sets_interval n e) c = ground (arith, c, e)
Step-Runs (Step.task_sets e) c = ground (arith, c, e)
Step-Runs (Step.task_set n e f) c = ground (arith, c, e, f)

fresh-Runs : (n : ℕ) → Runs (fresh n)
fresh-Runs n = ground arith

Steps-Runs : {t u : Timer} → Runs t → Steps t u → Runs u
Steps-Runs c here = c
Steps-Runs c (next h st) = Step-Runs st (Steps-Runs c h)

pub Reach-Runs : {t : Timer} → Reach t → Runs t
Reach-Runs (n, s) = Steps-Runs (fresh-Runs n) s

-- In every reachable state: the started callback has been invoked once for each thread that was
-- created and has begun, and the stopped callback once for each that has ended; the last one was given
-- an exception exactly if the task of that run threw; no exception is held while the thread can still
-- invoke the task; and `is_running` holds from before the thread is created until it leaves its loop.
pub callbacks_per_run :
    (t : Timer)
    → Reach t
    → (t.runs ≡ t.started + (if has_begun t.thread then 0 else 1))
      × (t.runs ≡ t.stopped + (if is_over t.thread then 0 else 1))
      × (t.thread ≡ Thread.ended → t.reported ≡ t.threw)
      × (may_throw t.thread ≡ true → t.has_exception ≡ false)
      × (is_active t.thread ≡ true → t.is_running ≡ true)
      × (t.starter ≡ Starter.creating → t.is_running ≡ true)
callbacks_per_run t h =
    let c = Reach-Runs h in
    (c.begun_counted, c.ended_counted, c.told, c.quiet, c.runs_active, c.announced)
