-- ===== src/IoPool/Cycles.antt =====
-- What holds of the threads and of the stopped callback in every cycle.
use libsg.Common.{ℕ, suc, ◌+◌, ◌<◌, ◌≤◌, ◌≡◌, Bool, true, false, not, arith, if◌then◌else◌}
use libsg.IoPool.{
  Pool, State, Runner, Monitor, create, state, run_begins, run_looks, run_wakes, run_claims,
  spawn_worker, spawn_monitor, spawn_fails, run_throws, monitor_joins, callback_returns, publish,
  stop_async, callback_stops, callback_stopped, post, complete, drain, worker_leaves,
}
use libsg.IoPool.System.{is_over, Inner, Step, Steps, here, next, Reach, inner_guard}

-- A call of `run()` has claimed the cycle and not yet handed it to the monitor.
abbrev pub is_claiming : Runner → Bool
is_claiming Runner.spawning = true
is_claiming Runner.failing = true
is_claiming _ = false

-- The monitor has invoked the callback of its cycle.
abbrev pub has_joined : Monitor → Bool
has_joined Monitor.joining = false
has_joined _ = true

pub record Cycle (p : Pool) : Type 0 where
  pub owned : p.cycle_active ≡ (if is_claiming p.runner then true else not (is_over p.monitor))
  pub exclusive : is_claiming p.runner ≡ true → is_over p.monitor ≡ true
  pub joined : is_claiming p.runner ≡ false → has_joined p.monitor ≡ true → p.workers ≡ 0
  pub failed : p.runner ≡ Runner.failing → p.context_stopped ≡ true
  pub counted :
      p.has_callback ≡ true → p.cycles ≡ p.callbacks + (if has_joined p.monitor then 0 else 1)
  pub silent : p.has_callback ≡ false → p.callbacks ≡ 0
  pub staffed : p.context_stopped ≡ false → p.cycle_active ≡ true → p.workers ≡ p.spawned
  pub complete_staff :
      p.context_stopped ≡ false
      → p.cycle_active ≡ true
      → is_claiming p.runner ≡ false
      → p.spawned ≡ p.no_workers
  pub wound_down :
      is_claiming p.runner ≡ false
      → has_joined p.monitor ≡ true
      → p.cycle_active ≡ true
      → p.context_stopped ≡ true
  pub some_worker : 0 < p.no_workers

Inner-Cycle : {p q : Pool} → Inner p q → Cycle p → Cycle q
unfolding monitor_joins callback_returns publish complete drain worker_leaves
Inner-Cycle (Inner.completes e f g) c = ground (arith, c, e, f, g)
Inner-Cycle st c = ground (arith, c, inner_guard st)

Step-Cycle : {p q : Pool} → Step p q → Cycle p → Cycle q
unfolding run_begins run_looks run_wakes run_claims spawn_worker spawn_monitor spawn_fails
    run_throws stop_async callback_stops callback_stopped post
Step-Cycle (Step.inner st) c = Inner-Cycle st c
Step-Cycle Step.posts c = ground (arith, c)
Step-Cycle (Step.begins e) c = ground (arith, c, e)
Step-Cycle (Step.looks e f) c = ground (arith, c, e, f)
Step-Cycle (Step.wakes e f) c = ground (arith, c, e, f)
Step-Cycle (Step.claims e f) c = ground (arith, c, e, f)
Step-Cycle (Step.spawns e f) c = ground (arith, c, e, f)
Step-Cycle (Step.watches e f g) c = ground (arith, c, e, f, g)
Step-Cycle (Step.fails e) c = ground (arith, c, e)
Step-Cycle (Step.throws e f) c = ground (arith, c, e, f)
Step-Cycle (Step.stops e) c = ground (arith, c, e)
Step-Cycle (Step.callback_calls e) c = ground (arith, c, e)
Step-Cycle (Step.callback_locks e f) c = ground (arith, c, e, f)

create-Cycle : (h n : ℕ) (g k : Bool) → Cycle (create h n g k)
unfolding create
create-Cycle h n g k = ground arith

Steps-Cycle : {p q : Pool} → Cycle p → Steps p q → Cycle q
Steps-Cycle c here = c
Steps-Cycle c (next h st) = Step-Cycle st (Steps-Cycle c h)

pub Reach-Cycle : {p : Pool} → Reach p → Cycle p
Reach-Cycle (h, n, g, k, s) = Steps-Cycle (create-Cycle h n g k) s

-- In every reachable state: a pool in the state `stopped` has no worker thread, so that the context
-- is restarted only when all workers of the last cycle have left it; the stopped callback, if there
-- is one, has then been invoked once for each cycle whose threads could be created, and at other
-- times at most one call is still to come; without a callback there is none.
pub once_per_cycle :
    (p : Pool)
    → Reach p
    → (state p ≡ State.stopped → p.workers ≡ 0)
      × (p.has_callback ≡ true → state p ≡ State.stopped → p.callbacks ≡ p.cycles)
      × (p.has_callback ≡ true → (p.callbacks ≤ p.cycles) × (p.cycles ≤ suc p.callbacks))
      × (p.has_callback ≡ false → p.callbacks ≡ 0)
unfolding state
once_per_cycle p h =
    let c = Reach-Cycle h in
    (
      λ e. ground (arith, c, e),
      λ e f. ground (arith, c, e, f),
      λ e. ground (arith, c, e),
      λ e. ground (arith, c, e),
    )
