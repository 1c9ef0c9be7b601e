-- ===== src/BackgroundTimer/Examples.antt =====
-- A timer that is started, ticks, and is asked to stop inside its task.
use libsg.Common.{suc, ◌+◌, ◌≤◌, ◌≡◌, refl, Bool, true, false, arith, if◌then◌else◌}
use libsg.BackgroundTimer.{
  Timer, Thread, Starter, fresh, start, start_joined, start_sets, start_creates, request_stop,
  started_callback, decide, invoke_task, is_over,
}
use libsg.BackgroundTimer.System.{Inner, Step, InnerSteps, Steps, here, next, Reach}
use libsg.BackgroundTimer.Runs.{has_begun, may_throw, is_active, callbacks_per_run}
use libsg.BackgroundTimer.Ends.{stop_ends}

abbrev creating : Timer
unfolding start start_joined start_sets
creating = start_sets (start_joined (start (fresh 100)))

creating-Steps : Steps (fresh 100) creating
unfolding creating start start_joined start_sets
creating-Steps =
    (next (next (next here (Step.starts refl)) (Step.joins refl refl)) (Step.sets refl))

abbrev working : Timer
unfolding creating start start_joined start_sets start_creates started_callback decide invoke_task
working = invoke_task (decide (started_callback (start_creates creating)))

working-Reach : Reach working
unfolding working creating start start_joined start_sets start_creates started_callback decide
    invoke_task
working-Reach = (
  100,
  next
      (next (next (next creating-Steps (Step.creates refl)) (Step.inner (Inner.begins refl)))
        (Step.inner (Inner.decides refl)))
      (Step.inner (Inner.invokes refl)),
)

abbrev stopping : Timer
unfolding working creating start start_joined start_sets start_creates started_callback decide
    invoke_task request_stop
stopping = request_stop working

callbacks_per_run_example :
    (working.runs ≡ working.started + (if has_begun working.thread then 0 else 1))
    × (working.runs ≡ working.stopped + (if is_over working.thread then 0 else 1))
    × (working.thread ≡ Thread.ended → working.reported ≡ working.threw)
    × (may_throw working.thread ≡ true → working.has_exception ≡ false)
    × (is_active working.thread ≡ true → working.is_running ≡ true)
    × (working.starter ≡ Starter.creating → working.is_running ≡ true)
callbacks_per_run_example = callbacks_per_run working working-Reach

stop_ends_example :
    (u : Timer) × InnerSteps false stopping u
    × (u.thread ≡ Thread.ended)
    × (u.is_running ≡ false)
    × (u.stopped ≡ suc stopping.stopped)
    × ((fallible : Bool) (v : Timer)
        → InnerSteps fallible stopping v
        → v.ticks ≤ 1 + stopping.ticks)
unfolding stopping working creating start start_joined start_sets start_creates started_callback
    decide invoke_task request_stop
stop_ends_example = stop_ends stopping refl refl (λ e. ground (arith, e))
