-- ===== src/BackgroundTimer.antt =====
-- common/src/background_timer.cpp: `background_timer::impl`, a thread that runs a task again and again
-- with a sleep in between. The state of the timer, where its thread and the caller of `start()`
-- stand, and each operation.
pub mod System
pub mod Runs
pub mod Ends
pub mod Stuck
mod Examples
use libsg.Common.{ℕ, suc, Bool, true, false, if◌then◌else◌}

-- where `m_thread` stands in `action()`
pub data Thread : Type 0 where
  no_thread : Thread  -- never created, or joined
  begun : Thread
  deciding : Thread  -- at the test of the loop
  locking : Thread
  working : Thread  -- in the task, with `m_sleeper_mutex` shared
  setting : Thread  -- in a `set_interval` that the task calls, before its lock
  sleeping : Thread  -- with `m_sleeper_mutex` shared
  leaving : Thread  -- after the loop
  notifying : Thread
  ended : Thread

-- where the call of `start()` stands
pub data Starter : Type 0 where
  nobody : Starter
  joining : Starter
  resetting : Starter
  creating : Starter

pub record Timer : Type 0 where
  pub is_running : Bool
  pub stop_requested : Bool
  pub has_exception : Bool
  pub threw : Bool  -- whether the task has thrown in this run
  pub interval : ℕ
  pub thread : Thread
  pub starter : Starter
  pub runs : ℕ  -- threads created
  pub started : ℕ  -- times that the started callback, if set, was called
  pub ticks : ℕ  -- calls of the task
  pub stopped : ℕ  -- times that the stopped callback, if set, was called
  pub reported : Bool  -- whether the last of these was given an exception

abbrev pub fresh : ℕ → Timer
fresh interval = record {
  is_running = false;
  stop_requested = false;
  has_exception = false;
  threw = false;
  interval = interval;
  thread = Thread.no_thread;
  starter = Starter.nobody;
  runs = 0;
  started = 0;
  ticks = 0;
  stopped = 0;
  reported = false;
}

-- The exception of a running timer leaves it as it is.
unfoldable pub start : Timer → Timer
start t = if t.is_running then t else record t { starter = Starter.joining }

-- after `wait_for_stop()`
unfoldable pub start_joined : Timer → Timer
start_joined t = record t {
  thread = Thread.no_thread;
  stop_requested = false;
  starter = Starter.resetting;
}

unfoldable pub start_sets : Timer → Timer
start_sets t = record t { has_exception = false; is_running = true; starter = Starter.creating }

unfoldable pub start_creates : Timer → Timer
start_creates t = record t {
  thread = Thread.begun;
  starter = Starter.nobody;
  runs = suc t.runs;
  threw = false;
}

-- the constructor of std::thread throws
unfoldable pub start_throws : Timer → Timer
start_throws t = record t { starter = Starter.nobody }

unfoldable pub wait_for_stop : Timer → Timer
wait_for_stop t = record t { thread = Thread.no_thread }

unfoldable pub request_stop : Timer → Timer
request_stop t = record t { stop_requested = true }

unfoldable pub set_interval : ℕ → Timer → Timer
set_interval n t = record t { interval = n }

unfoldable pub started_callback : Timer → Timer
started_callback t = record t { thread = Thread.deciding; started = suc t.started }

unfoldable pub decide : Timer → Timer
decide t = record t { thread = if t.stop_requested then Thread.leaving else Thread.locking }

unfoldable pub invoke_task : Timer → Timer
invoke_task t = record t { thread = Thread.working; ticks = suc t.ticks }

unfoldable pub task_returns : Timer → Timer
task_returns t = record t { thread = Thread.sleeping }

unfoldable pub task_throws : Timer → Timer
task_throws t = record t { thread = Thread.leaving; has_exception = true; threw = true }

unfoldable pub task_sets_interval : Timer → Timer
task_sets_interval t = record t { thread = Thread.setting }

unfoldable pub interval_set : ℕ → Timer → Timer
interval_set n t = record t { thread = Thread.working; interval = n }

unfoldable pub sleep_ends : Timer → Timer
sleep_ends t = record t { thread = Thread.deciding }

unfoldable pub leave : Timer → Timer
leave t = record t { thread = Thread.notifying; is_running = false }

unfoldable pub stopped_callback : Timer → Timer
stopped_callback t = record t {
  thread = Thread.ended;
  stopped = suc t.stopped;
  reported = t.has_exception;
}

-- `m_sleeper_mutex` is held, shared, by the thread
abbrev pub holds_sleeper : Thread → Bool
holds_sleeper Thread.working = true
holds_sleeper Thread.setting = true
holds_sleeper Thread.sleeping = true
holds_sleeper _ = false

-- `m_thread` can be joined at once, or need not be
abbrev pub is_over : Thread → Bool
is_over Thread.no_thread = true
is_over Thread.ended = true
is_over _ = false
