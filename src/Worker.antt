-- ===== src/Worker.antt =====
-- common/include/sg/worker.h and common/src/worker.cpp: `sg::worker`, a thread that ticks. The
-- state of the class, where its thread and the callers of `start()` stand, and each operation.
pub mod System
pub mod Running
pub mod Iterations
pub mod Restart
mod Examples
use libsg.Common.{
  ℕ, ◌+◌, ◌-◌, ◌^◌, suc, Bool, true, false, Option, none, some, leb, ◌==◌, if◌then◌else◌, add64,
}

-- `state_t`
pub data State : Type 0 where
  running stopped : State

-- The worker's thread, inside `action()`.
pub data Thread : Type 0 where
  no_thread : Thread
  entered : Thread  -- before the start callback
  looping : Thread  -- at the test of the loop
  ticking : ℕ → Thread  -- in the tick callback of that iteration
  ticked : ℕ → Thread  -- before the test against `m_stop_at_iteration`
  waiting : Thread  -- in `wait_until_next_tick`
  unwinding : Option ℕ → Thread  -- after the loop, with the exception that it ended by
  stopping : Option ℕ → Thread  -- in the stop callback
  finished : Thread

pub record Worker : Type 0 where
  pub state : State
  pub stop_requested : Bool
  pub iterations_done : ℕ
  pub stop_at_iteration : ℕ
  pub notify_sem : ℕ
  pub thread : Thread
  pub result : Option ℕ  -- the exception in the future of the last run
  pub launching : Bool  -- a `start()` between its compare-exchange and the new thread
  pub cleaning : Bool  -- a `start()` whose start callback threw, before its `catch`
  -- how often the start callback has returned, a tick has begun, and the stop callback was reached
  pub starts : ℕ
  pub ticks : ℕ
  pub stops : ℕ

-- `MAX_ITERATION_COUNT`
abbrev pub max_iteration_count : ℕ
max_iteration_count = 2 ^ 64 - 1

-- the constructor
abbrev pub fresh : Worker
fresh = record {
  state = State.stopped;
  stop_requested = false;
  iterations_done = 0;
  stop_at_iteration = max_iteration_count;
  notify_sem = 0;
  thread = Thread.no_thread;
  result = none;
  launching = false;
  cleaning = false;
  starts = 0;
  ticks = 0;
  stops = 0;
}

pub data Refusal : Type 0 where
  already_running waits_for_itself : Refusal

unfoldable pub notify : Worker → Worker
notify w = record w { notify_sem = suc w.notify_sem }

unfoldable pub request_stop : Worker → Worker
unfolding notify
request_stop w = notify (record w { stop_requested = true })

-- the target of `request_stop_after_iterations`, which does not reach the value that means never
unfoldable pub stop_target : ℕ → ℕ → ℕ
stop_target count done =
    if leb (max_iteration_count - done) count then max_iteration_count - 1 else done + count

unfoldable pub request_stop_after_iterations : ℕ → Worker → Worker
unfolding notify request_stop stop_target
request_stop_after_iterations count w =
    if count == 0
    then request_stop w
    else notify (record w { stop_at_iteration = stop_target count w.iterations_done })

-- the compare-exchange of `start()`, called from another thread
unfoldable pub start : Worker → Worker × Option Refusal
start w = elim w.state [
  | State.stopped ↦ (record w { state = State.running; launching = true }, none)
  | State.running ↦ (w, some Refusal.already_running)
]

-- `start()` called from the stop callback: `wait_for_stop()` throws before the `try`.
unfoldable pub start_within : Worker → Worker × Option Refusal
start_within w = elim w.state [
  | State.stopped ↦ (record w { state = State.running }, some Refusal.waits_for_itself)
  | State.running ↦ (w, some Refusal.already_running)
]

-- The old thread is joined, everything is set anew, and the new thread begins.
unfoldable pub launch : ℕ → Worker → Worker
launch stop_at w = record w {
  stop_requested = false;
  iterations_done = 0;
  stop_at_iteration = stop_at;
  notify_sem = 0;
  thread = Thread.entered;
  result = none;
  launching = false;
}

-- The new thread cannot be created: the future is made invalid, and the state stopped again.
unfoldable pub launch_fails : ℕ → Worker → Worker
unfolding launch
launch_fails stop_at w = record (launch stop_at w) {
  state = State.stopped;
  thread = Thread.no_thread;
}

-- the `catch` of `start()`
unfoldable pub clean_up : Worker → Worker
clean_up w = record w { state = State.stopped; cleaning = false }

unfoldable pub start_callback_returns : Worker → Worker
start_callback_returns w = record w { thread = Thread.looping; starts = suc w.starts }

unfoldable pub start_callback_throws : Worker → Worker
start_callback_throws w = record w {
  state = State.stopped;
  thread = Thread.finished;
  cleaning = true;
}

-- the test of the loop, and the count of the iteration
unfoldable pub loop_test : Worker → Worker
loop_test w =
    if w.stop_requested
    then record w { thread = Thread.unwinding none }
    else (let iteration = add64 w.iterations_done 1 in
        record w {
          iterations_done = iteration;
          thread = Thread.ticking iteration;
          ticks = suc w.ticks;
        })

unfoldable pub tick_returns : ℕ → Worker → Worker
tick_returns iteration w = record w { thread = Thread.ticked iteration }

unfoldable pub tick_throws : ℕ → Worker → Worker
tick_throws f w = record w { thread = Thread.unwinding (some f) }

unfoldable pub check_target : ℕ → Worker → Worker
check_target iteration w = record w {
  thread = if leb w.stop_at_iteration iteration then Thread.unwinding none else Thread.waiting;
}

-- The wait is over, by a notification or by time; what is left in the semaphore is drained.
unfoldable pub wake : Worker → Worker
wake w = record w { notify_sem = 0; thread = Thread.looping }

-- `m_state` is stored, then the stop callback is invoked.
unfoldable pub unwind : Option ℕ → Worker → Worker
unwind ex w = record w { state = State.stopped; thread = Thread.stopping ex; stops = suc w.stops }

unfoldable pub stop_callback_returns : Option ℕ → Worker → Worker
stop_callback_returns ex w = record w { thread = Thread.finished; result = ex }

-- What the stop callback throws takes the place of the loop's exception.
unfoldable pub stop_callback_throws : ℕ → Worker → Worker
stop_callback_throws f w = record w { thread = Thread.finished; result = some f }
