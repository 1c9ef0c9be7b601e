-- ===== src/IoPool.antt =====
-- net/src/asio_io_pool.cpp and net/include/sg/net/asio_io_pool.h: `sg::net::asio_io_pool`, threads
-- that drive one `io_context`, in cycles. The state of the pool, where the callers of `run()` and
-- the threads stand, and each operation. Of the `io_context` the model has what Boost documents: the
-- count of outstanding work, and the stopped flag, which is set by `stop()` and by a `run()` that
-- finds no work, and cleared by `restart()`.
pub mod System
pub mod Cycles
pub mod WindDown
pub mod Deadlock
mod Examples
use libsg.Common.{ℕ, suc, ◌+◌, ◌-◌, ◌==◌, Bool, true, false, not, if◌then◌else◌}

-- `state_t`
pub data State : Type 0 where
  stopped running stopping : State

-- Where the call of `run()` stands that holds `m_mutex`.
pub data Runner : Type 0 where
  nobody : Runner
  looking : Runner  -- at the test of the loop that waits for the last cycle
  waiting : Runner  -- in `m_cycle_active.wait`
  spawning : Runner  -- in the `try`
  failing : Runner  -- in the `catch`, joining the workers

-- The thread of `m_cb_thread`.
pub data Monitor : Type 0 where
  no_thread : Monitor
  joining : Monitor
  in_callback : Monitor
  in_stop : Monitor  -- in a `stop_async()` that the callback calls, before the lock
  publishing : Monitor
  finished : Monitor

pub record Pool : Type 0 where
  pub no_workers : ℕ
  pub guard_enabled : Bool
  pub has_callback : Bool
  pub cycle_active : Bool
  pub guard : Bool
  pub context_stopped : Bool
  pub work : ℕ  -- outstanding work besides the guard
  pub workers : ℕ  -- threads inside `m_context.run()`, or not yet in it
  pub spawned : ℕ  -- workers that this cycle has started
  pub runner : Runner
  pub monitor : Monitor
  pub cycles : ℕ  -- monitors that were created
  pub callbacks : ℕ  -- calls of the stopped callback

-- `create`, where `hardware` is what `hardware_concurrency()` says
unfoldable pub create : (hardware no_workers : ℕ) → Bool → Bool → Pool
create hardware no_workers guard_enabled has_callback = record {
  no_workers = if no_workers == 0 then (if hardware == 0 then 1 else hardware) else no_workers;
  guard_enabled = guard_enabled;
  has_callback = has_callback;
  cycle_active = false;
  guard = false;
  context_stopped = false;
  work = 0;
  workers = 0;
  spawned = 0;
  runner = Runner.nobody;
  monitor = Monitor.no_thread;
  cycles = 0;
  callbacks = 0;
}

unfoldable pub state : Pool → State
state p =
    if p.cycle_active
    then (if p.context_stopped then State.stopping else State.running)
    else State.stopped

unfoldable pub is_running : Pool → Bool
is_running p = if p.cycle_active then not p.context_stopped else false

-- whether the lock is taken at a moment when nobody else moves
abbrev pub is_free : Runner → Bool
is_free Runner.nobody = true
is_free _ = false

unfoldable pub run_begins : Pool → Pool
run_begins p = record p { runner = Runner.looking }

-- the test of the loop: another cycle is in flight
unfoldable pub run_looks : Pool → Pool
run_looks p = record p { runner = if p.context_stopped then Runner.waiting else Runner.nobody }

-- The wait is over: the test again.
unfoldable pub run_wakes : Pool → Pool
run_wakes p = record p { runner = Runner.looking }

-- No cycle is in flight: the context is restarted and the cycle claimed.
unfoldable pub run_claims : Pool → Pool
run_claims p = record p {
  context_stopped = false;
  guard = p.guard_enabled;
  cycle_active = true;
  spawned = 0;
  runner = Runner.spawning;
}

unfoldable pub spawn_worker : Pool → Pool
spawn_worker p = record p { workers = suc p.workers; spawned = suc p.spawned }

unfoldable pub spawn_monitor : Pool → Pool
spawn_monitor p = record p {
  monitor = Monitor.joining;
  runner = Runner.nobody;
  cycles = suc p.cycles;
}

-- A thread cannot be created: the `catch`, up to the joining of the workers.
unfoldable pub spawn_fails : Pool → Pool
spawn_fails p = record p { guard = false; context_stopped = true; runner = Runner.failing }

unfoldable pub run_throws : Pool → Pool
run_throws p = record p { cycle_active = false; runner = Runner.nobody }

-- The workers are joined, and the callback is invoked if there is one.
unfoldable pub monitor_joins : Pool → Pool
monitor_joins p =
    if p.has_callback
    then record p { monitor = Monitor.in_callback; callbacks = suc p.callbacks }
    else record p { monitor = Monitor.publishing }

unfoldable pub callback_returns : Pool → Pool
callback_returns p = record p { monitor = Monitor.publishing }

unfoldable pub publish : Pool → Pool
publish p = record p { cycle_active = false; monitor = Monitor.finished }

-- `stop_async()`, with the lock held
unfoldable pub stop_async : Pool → Pool
stop_async p = if p.cycle_active then record p { guard = false; context_stopped = true } else p

-- `stop_async()` called from the stopped callback, in two steps: up to the lock, and with it
unfoldable pub callback_stops : Pool → Pool
callback_stops p = record p { monitor = Monitor.in_stop }

unfoldable pub callback_stopped : Pool → Pool
unfolding stop_async
callback_stopped p = record (stop_async p) { monitor = Monitor.in_callback }

unfoldable pub post : Pool → Pool
post p = record p { work = suc p.work }

-- a handler ends, in one of the workers
unfoldable pub complete : Pool → Pool
complete p = record p { work = p.work - 1 }

-- a worker finds no work
unfoldable pub drain : Pool → Pool
drain p = record p { context_stopped = true }

-- a worker leaves `m_context.run()`
unfoldable pub worker_leaves : Pool → Pool
worker_leaves p = record p { workers = p.workers - 1 }
