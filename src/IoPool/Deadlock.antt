-- ===== src/IoPool/Deadlock.antt =====
-- `stop_async()` called from the stopped callback while `run()` waits for that callback.
use libsg.Common.{◌≡◌, refl, true, arith}
use libsg.IoPool.{
  Pool, State, Runner, Monitor, state, run_begins, run_looks, run_wakes, run_claims, spawn_worker,
  spawn_monitor, spawn_fails, run_throws, monitor_joins, callback_returns, publish, stop_async,
  callback_stops, callback_stopped, post, complete, drain, worker_leaves, is_free,
}
use libsg.IoPool.System.{Inner, Step, Steps, here, next, Reach, inner_guard}
use libsg.IoPool.Cycles.{Reach-Cycle}

record Stuck (p : Pool) : Type 0 where
  waits : p.runner ≡ Runner.waiting
  blocked : p.monitor ≡ Monitor.in_stop
  active : p.cycle_active ≡ true
  halted : p.context_stopped ≡ true

Inner-Stuck : {p q : Pool} → Inner p q → Stuck p → Stuck q
unfolding monitor_joins callback_returns publish complete drain worker_leaves
Inner-Stuck (Inner.completes e f g) c = ground (arith, c, e, f, g)
Inner-Stuck st c = ground (arith, c, inner_guard st)

Step-Stuck : {p q : Pool} → Step p q → Stuck p → Stuck q
unfolding run_begins run_looks run_wakes run_claims spawn_worker spawn_monitor spawn_fails
    run_throws stop_async callback_stops callback_stopped post
Step-Stuck (Step.inner st) c = Inner-Stuck st c
Step-Stuck Step.posts c = ground (arith, c)
Step-Stuck (Step.begins e) c = ground (arith, c, e)
Step-Stuck (Step.looks e f) c = ground (arith, c, e, f)
Step-Stuck (Step.wakes e f) c = ground (arith, c, e, f)
Step-Stuck (Step.claims e f) c = ground (arith, c, e, f)
Step-Stuck (Step.spawns e f) c = ground (arith, c, e, f)
Step-Stuck (Step.watches e f g) c = ground (arith, c, e, f, g)
Step-Stuck (Step.fails e) c = ground (arith, c, e)
Step-Stuck (Step.throws e f) c = ground (arith, c, e, f)
Step-Stuck (Step.stops e) c = ground (arith, c, e)
Step-Stuck (Step.callback_calls e) c = ground (arith, c, e)
Step-Stuck (Step.callback_locks e f) c = ground (arith, c, e, f)

Steps-Stuck : {p q : Pool} → Stuck p → Steps p q → Stuck q
Steps-Stuck c here = c
Steps-Stuck c (next h st) = Step-Stuck st (Steps-Stuck c h)

-- From every reachable state in which the stopped callback runs and nobody holds the lock, there is
-- a run after which the pool is stuck: `run()` was called, holds the lock and waits for the cycle
-- to end; the callback has called `stop_async()` and waits for the lock. Whatever happens then, it
-- stays so, and the state remains `stopping`.
pub stop_in_callback_deadlocks :
    (p : Pool)
    → Reach p
    → p.monitor ≡ Monitor.in_callback
    → p.runner ≡ Runner.nobody
    → (q : Pool) × Steps p q
      × ((r : Pool)
          → Steps q r
          → (r.runner ≡ Runner.waiting)
            × (r.monitor ≡ Monitor.in_stop)
            × (state r ≡ State.stopping))
unfolding run_begins run_looks callback_stops state
stop_in_callback_deadlocks p h m f =
    let c = Reach-Cycle h in
    let live : p.cycle_active ≡ true = ground (arith, c, m, f) in
    let halted : p.context_stopped ≡ true = ground (arith, c, m, f, live) in
    let q = callback_stops (run_looks (run_begins p)) in
    let free : is_free p.runner ≡ true = ground (arith, f) in
    let stuck : Stuck q = ground (arith, live, halted) in
    (
      q,
      next (next (next here (Step.begins free)) (Step.looks refl live)) (Step.callback_calls m),
      λ r k. ground (arith, Steps-Stuck stuck k),
    )
