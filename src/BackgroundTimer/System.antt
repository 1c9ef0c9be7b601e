-- ===== src/BackgroundTimer/System.antt =====
-- The timer among its thread, the caller of `start()` and `wait_for_stop()`, and any others.
use libsg.Common.{ℕ, ◌≡◌, Bool, true, false}
use libsg.BackgroundTimer.{
  Timer, Thread, Starter, fresh, start, start_joined, start_sets, start_creates, start_throws,
  wait_for_stop, request_stop, set_interval, started_callback, decide, invoke_task, task_returns,
  task_throws, task_sets_interval, interval_set, sleep_ends, leave, stopped_callback, holds_sleeper,
  is_over,
}

-- What the thread does by itself, where the task may throw or not.
pub data Inner (fallible : Bool) (t : Timer) : Timer → Type 0 where
  begins : t.thread ≡ Thread.begun → Inner fallible t (started_callback t)
  decides : t.thread ≡ Thread.deciding → Inner fallible t (decide t)
  invokes : t.thread ≡ Thread.locking → Inner fallible t (invoke_task t)
  returns : t.thread ≡ Thread.working → Inner fallible t (task_returns t)
  throws : fallible ≡ true → t.thread ≡ Thread.working → Inner fallible t (task_throws t)
  wakes : t.thread ≡ Thread.sleeping → Inner fallible t (sleep_ends t)
  leaves : t.thread ≡ Thread.leaving → Inner fallible t (leave t)
  notifies : t.thread ≡ Thread.notifying → Inner fallible t (stopped_callback t)

-- `set_interval` waits until nobody has `m_sleeper_mutex`, also if the task calls it.
pub data Step (t : Timer) : Timer → Type 0 where
  inner : {u : Timer} → Inner true t u → Step t u
  starts : t.starter ≡ Starter.nobody → Step t (start t)
  joins : t.starter ≡ Starter.joining → is_over t.thread ≡ true → Step t (start_joined t)
  sets : t.starter ≡ Starter.resetting → Step t (start_sets t)
  creates : t.starter ≡ Starter.creating → Step t (start_creates t)
  fails : t.starter ≡ Starter.creating → Step t (start_throws t)
  waits : t.starter ≡ Starter.nobody → is_over t.thread ≡ true → Step t (wait_for_stop t)
  requests : Step t (request_stop t)
  sets_interval : (n : ℕ) → holds_sleeper t.thread ≡ false → Step t (set_interval n t)
  task_sets : t.thread ≡ Thread.working → Step t (task_sets_interval t)
  task_set :
      (n : ℕ)
      → t.thread ≡ Thread.setting
      → holds_sleeper t.thread ≡ false
      → Step t (interval_set n t)

pub data InnerSteps (fallible : Bool) (t : Timer) : Timer → Type 0 where
  rest : InnerSteps fallible t t
  and_then : {u v : Timer} → InnerSteps fallible t u → Inner fallible u v → InnerSteps fallible t v

pub data Steps (t : Timer) : Timer → Type 0 where
  here : Steps t t
  next : {u v : Timer} → Steps t u → Step u v → Steps t v

abbrev pub Reach : Timer → Type 0
Reach t = (interval : ℕ) × Steps (fresh interval) t
