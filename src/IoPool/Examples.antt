-- ===== src/IoPool/Examples.antt =====
-- A pool with one worker, no guard and a stopped callback, up to that callback.
use libsg.Common.{suc, ◌≤◌, ◌≡◌, inr, refl, true, false, arith}
use libsg.IoPool.{
  Pool, State, Runner, Monitor, create, state, run_begins, run_claims, spawn_worker, spawn_monitor,
  drain, worker_leaves, monitor_joins,
}
use libsg.IoPool.System.{Inner, InnerSteps, Step, Steps, here, next, Reach}
use libsg.IoPool.Cycles.{once_per_cycle}
use libsg.IoPool.WindDown.{cycle_ends}
use libsg.IoPool.Deadlock.{stop_in_callback_deadlocks}

-- `run()` has returned, and the worker finds no work
abbrev running_pool : Pool
unfolding create run_begins run_claims spawn_worker spawn_monitor
running_pool = spawn_monitor (spawn_worker (run_claims (run_begins (create 0 0 false true))))

running_pool-Steps : Steps (create 0 0 false true) running_pool
unfolding running_pool create run_begins run_claims spawn_worker spawn_monitor
running_pool-Steps =
    let a = next (next here (Step.begins refl)) (Step.claims refl refl) in
    let b = next (next a (Step.spawns refl (omega arith))) (Step.watches refl refl refl) in b

running_pool-Reach : Reach running_pool
running_pool-Reach = (0, 0, false, true, running_pool-Steps)

abbrev in_callback : Pool
unfolding running_pool create run_begins run_claims spawn_worker spawn_monitor drain worker_leaves
    monitor_joins
in_callback = monitor_joins (worker_leaves (drain running_pool))

in_callback-Reach : Reach in_callback
unfolding running_pool create run_begins run_claims spawn_worker spawn_monitor drain worker_leaves
    monitor_joins
in_callback-Reach =
    let b = next running_pool-Steps (Step.inner (Inner.drains refl (omega arith) refl refl)) in
    let c = next b (Step.inner (Inner.leaves refl (omega arith))) in
    (0, 0, false, true, next c (Step.inner (Inner.joins refl refl)))

once_per_cycle_example :
    (state in_callback ≡ State.stopped → in_callback.workers ≡ 0)
    × (true ≡ true → state in_callback ≡ State.stopped → in_callback.callbacks ≡ in_callback.cycles)
    × (true ≡ true
        → (in_callback.callbacks ≤ in_callback.cycles)
          × (in_callback.cycles ≤ suc in_callback.callbacks))
    × (true ≡ false → in_callback.callbacks ≡ 0)
unfolding in_callback running_pool create run_begins run_claims spawn_worker spawn_monitor drain
    worker_leaves monitor_joins
once_per_cycle_example = once_per_cycle in_callback in_callback-Reach

cycle_ends_example :
    (q : Pool) × InnerSteps running_pool q
    × (state q ≡ State.stopped)
    × (running_pool.runner ≡ Runner.waiting → (r : Pool) × Steps q r × (state r ≡ State.running))
unfolding running_pool create run_begins run_claims spawn_worker spawn_monitor
cycle_ends_example =
    cycle_ends running_pool running_pool-Reach refl (λ e. ground (arith, e)) (inr refl)

stop_in_callback_deadlocks_example :
    (q : Pool) × Steps in_callback q
    × ((r : Pool)
        → Steps q r
        → (r.runner ≡ Runner.waiting) × (r.monitor ≡ Monitor.in_stop) × (state r ≡ State.stopping))
unfolding in_callback running_pool create run_begins run_claims spawn_worker spawn_monitor drain
    worker_leaves monitor_joins
stop_in_callback_deadlocks_example =
    stop_in_callback_deadlocks in_callback in_callback-Reach refl refl
