-- ===== src/IoPool/System.antt =====
-- A pool among its callers, handlers and threads.
use libsg.Common.{ℕ, ◌<◌, ◌≡◌, Bool, true, false}
use libsg.IoPool.{
  Pool, Runner, Monitor, create, is_free, run_begins, run_looks, run_wakes, run_claims,
  spawn_worker, spawn_monitor, spawn_fails, run_throws, monitor_joins, callback_returns, publish,
  stop_async, callback_stops, callback_stopped, post, complete, drain, worker_leaves,
}

-- The last monitor, if there was one, can be joined at once.
abbrev pub is_over : Monitor → Bool
is_over Monitor.no_thread = true
is_over Monitor.finished = true
is_over _ = false

-- What the threads of the pool do by themselves.
pub data Inner (p : Pool) : Pool → Type 0 where
  completes : p.context_stopped ≡ false → 0 < p.workers → 0 < p.work → Inner p (complete p)
  drains :
      p.context_stopped ≡ false → 0 < p.workers → p.work ≡ 0 → p.guard ≡ false → Inner p (drain p)
  leaves : p.context_stopped ≡ true → 0 < p.workers → Inner p (worker_leaves p)
  joins : p.monitor ≡ Monitor.joining → p.workers ≡ 0 → Inner p (monitor_joins p)
  returns : p.monitor ≡ Monitor.in_callback → Inner p (callback_returns p)
  publishes : p.monitor ≡ Monitor.publishing → Inner p (publish p)

-- `run()` and `stop_async()` take the lock; a handler may post, and so may anybody.
pub data Step (p : Pool) : Pool → Type 0 where
  inner : {q : Pool} → Inner p q → Step p q
  posts : Step p (post p)
  begins : is_free p.runner ≡ true → Step p (run_begins p)
  looks : p.runner ≡ Runner.looking → p.cycle_active ≡ true → Step p (run_looks p)
  wakes : p.runner ≡ Runner.waiting → p.cycle_active ≡ false → Step p (run_wakes p)
  claims : p.runner ≡ Runner.looking → p.cycle_active ≡ false → Step p (run_claims p)
  spawns : p.runner ≡ Runner.spawning → p.spawned < p.no_workers → Step p (spawn_worker p)
  watches :
      p.runner ≡ Runner.spawning
      → p.spawned ≡ p.no_workers
      → is_over p.monitor ≡ true
      → Step p (spawn_monitor p)
  fails : p.runner ≡ Runner.spawning → Step p (spawn_fails p)
  throws : p.runner ≡ Runner.failing → p.workers ≡ 0 → Step p (run_throws p)
  stops : is_free p.runner ≡ true → Step p (stop_async p)
  callback_calls : p.monitor ≡ Monitor.in_callback → Step p (callback_stops p)
  callback_locks :
      p.monitor ≡ Monitor.in_stop → is_free p.runner ≡ true → Step p (callback_stopped p)

pub data InnerSteps (p : Pool) : Pool → Type 0 where
  rest : InnerSteps p p
  and_then : {q r : Pool} → InnerSteps p q → Inner q r → InnerSteps p r

pub data Steps (p : Pool) : Pool → Type 0 where
  here : Steps p p
  next : {q r : Pool} → Steps p q → Step q r → Steps p r

-- The states since the construction, for any arguments of `create`.
abbrev pub Reach : Pool → Type 0
Reach p =
    (hardware no_workers : ℕ) × (guard_enabled : Bool) × (has_callback : Bool) × Steps
      (create hardware no_workers guard_enabled has_callback) p

-- The premises of a step, for a proof that treats many steps alike.
abbrev pub InnerGuard : {p q : Pool} → Inner p q → Type 0
InnerGuard {p} (Inner.completes e f g) =
    (p.context_stopped ≡ false) × (0 < p.workers) × (0 < p.work)
InnerGuard {p} (Inner.drains e f g h) =
    (p.context_stopped ≡ false) × (0 < p.workers) × (p.work ≡ 0) × (p.guard ≡ false)
InnerGuard {p} (Inner.leaves e f) = (p.context_stopped ≡ true) × (0 < p.workers)
InnerGuard {p} (Inner.joins e f) = (p.monitor ≡ Monitor.joining) × (p.workers ≡ 0)
InnerGuard {p} (Inner.returns e) = p.monitor ≡ Monitor.in_callback
InnerGuard {p} (Inner.publishes e) = p.monitor ≡ Monitor.publishing

pub inner_guard : {p q : Pool} (st : Inner p q) → InnerGuard st
inner_guard (Inner.completes e f g) = (e, f, g)
inner_guard (Inner.drains e f g h) = (e, f, g, h)
inner_guard (Inner.leaves e f) = (e, f)
inner_guard (Inner.joins e f) = (e, f)
inner_guard (Inner.returns e) = e
inner_guard (Inner.publishes e) = e
