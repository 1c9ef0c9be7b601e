-- ===== src/IoPool/WindDown.antt =====
-- A pool that may stop does stop, and a call of `run()` that waits for it then starts a new cycle.
use libsg.Common.{
  ℕ, zero, suc, ◌<◌, ◌≡◌, ◌≢◌, ◌⊎◌, inl, inr, refl, Bool, true, false, Bool-cases, arith,
}
use libsg.IoPool.{
  Pool, State, Runner, Monitor, state, run_wakes, run_claims, monitor_joins, callback_returns,
  publish, complete, drain, worker_leaves,
}
use libsg.IoPool.System.{Inner, InnerSteps, rest, and_then, Step, Steps, here, next, Reach, is_over}
use libsg.IoPool.Cycles.{Cycle, Reach-Cycle}

InnerSteps-trans : {p q r : Pool} → InnerSteps p q → InnerSteps q r → InnerSteps p r
InnerSteps-trans h rest = h
InnerSteps-trans h (and_then k st) = and_then (InnerSteps-trans h k) st

-- What stays while the threads of the pool wind down.
record Kept (p q : Pool) : Type 0 where
  runner : q.runner ≡ p.runner
  monitor : q.monitor ≡ p.monitor
  active : q.cycle_active ≡ p.cycle_active
  guard : q.guard ≡ p.guard

abbrev Reaches : Pool → (Pool → Type 0) → Type 0
Reaches p P = (q : Pool) × InnerSteps p q × P q

workers_leave :
    (n : ℕ) (p : Pool)
    → p.workers ≡ n
    → p.context_stopped ≡ true
    → Reaches p (λ q. Kept p q × (q.workers ≡ 0) × (q.context_stopped ≡ true))
unfolding worker_leaves
workers_leave zero p e s = (p, rest, ground (arith, e, s))
workers_leave (suc n) p e s =
    let (q, h, k) = workers_leave n (worker_leaves p) (ground (arith, e)) s in
    (q, InnerSteps-trans (and_then rest (Inner.leaves s (ground (arith, e)))) h, ground (arith, k))

handlers_complete :
    (n : ℕ) (p : Pool)
    → p.work ≡ n
    → p.guard ≡ false
    → 0 < p.workers
    → p.context_stopped ≡ false
    → Reaches p (λ q. Kept p q × (q.context_stopped ≡ true))
unfolding complete drain
handlers_complete zero p e g w s =
    (drain p, and_then rest (Inner.drains s w e g), ground (arith, e))
handlers_complete (suc n) p e g w s =
    let (q, h, k) = handlers_complete n (complete p) (ground (arith, e)) g w s in
    (
      q,
      InnerSteps-trans (and_then rest (Inner.completes s w (ground (arith, e)))) h,
      ground (arith, k),
    )

abbrev Ended : Pool → Pool → Type 0
Ended p q = (q.cycle_active ≡ false) × (q.runner ≡ p.runner)

from_publishing : (p : Pool) → p.monitor ≡ Monitor.publishing → Reaches p (Ended p)
unfolding publish
from_publishing p m = (publish p, and_then rest (Inner.publishes m), ground arith)

from_callback : (p : Pool) → p.monitor ≡ Monitor.in_callback → Reaches p (Ended p)
unfolding callback_returns
from_callback p m =
    let (q, h, e) = from_publishing (callback_returns p) refl in
    (q, InnerSteps-trans (and_then rest (Inner.returns m)) h, e)

from_joining : (p : Pool) → p.monitor ≡ Monitor.joining → p.workers ≡ 0 → Reaches p (Ended p)
unfolding monitor_joins
from_joining p m w = elim (Bool-cases p.has_callback) [
  | inl e ↦
      let (q, h, k) = from_callback (monitor_joins p) (ground (arith, e)) in
      (q, InnerSteps-trans (and_then rest (Inner.joins m w)) h, ground (arith, k, e))
  | inr e ↦
      let (q, h, k) = from_publishing (monitor_joins p) (ground (arith, e)) in
      (q, InnerSteps-trans (and_then rest (Inner.joins m w)) h, ground (arith, k, e))
]

from_monitor :
    (m : Monitor) (p : Pool)
    → p.monitor ≡ m
    → is_over m ≡ false
    → m ≢ Monitor.in_stop
    → p.workers ≡ 0
    → Reaches p (Ended p)
from_monitor Monitor.no_thread p e o s w = absurd (ground (arith, o))
from_monitor Monitor.joining p e o s w = from_joining p e w
from_monitor Monitor.in_callback p e o s w = from_callback p e
from_monitor Monitor.in_stop p e o s w = absurd (s refl)
from_monitor Monitor.publishing p e o s w = from_publishing p e
from_monitor Monitor.finished p e o s w = absurd (ground (arith, o))

stopped_ends :
    (p : Pool)
    → p.context_stopped ≡ true
    → is_over p.monitor ≡ false
    → p.monitor ≢ Monitor.in_stop
    → Reaches p (Ended p)
stopped_ends p c o s =
    let (q, h, k) = workers_leave p.workers p refl c in
    let (r, g, e) =
      from_monitor q.monitor q refl (ground (arith, k, o)) (λ x. s (ground (arith, k, x)))
        (ground (arith, k)) in
    (r, InnerSteps-trans h g, ground (arith, k, e))

-- the context is stopped, or nothing but its handlers keeps it running
abbrev pub MayEnd : Pool → Type 0
MayEnd p = (p.context_stopped ≡ true) ⊎ (p.guard ≡ false)

ends :
    (p : Pool)
    → Cycle p
    → is_over p.monitor ≡ false
    → p.monitor ≢ Monitor.in_stop
    → MayEnd p
    → (b : Bool) → p.context_stopped ≡ b
    → Reaches p (Ended p)
ends p c o s m true e = stopped_ends p e o s
ends p c o s m false e =
    let staff : 0 < p.workers = ground (arith, c, o, e) in
    let alone : p.guard ≡ false = ground (arith, m, e) in
    let (q, h, k) = handlers_complete p.work p refl alone staff e in
    let (r, g, f) = stopped_ends q k.1 (ground (arith, k, o)) (λ x. s (ground (arith, k, x))) in
    (r, InnerSteps-trans h g, ground (arith, k, f))

-- Every cycle that was handed to its monitor can end without any call from outside, if the context
-- was stopped or has no guard and the callback is not inside `stop_async()`: the handlers complete,
-- the workers leave, the callback returns, and the state is `stopped`. A call of `run()` that
-- waited for this can then go on to claim a new cycle, and the state is `running`.
pub cycle_ends :
    (p : Pool)
    → Reach p
    → is_over p.monitor ≡ false
    → p.monitor ≢ Monitor.in_stop
    → MayEnd p
    → (q : Pool) × InnerSteps p q
      × (state q ≡ State.stopped)
      × (p.runner ≡ Runner.waiting → (r : Pool) × Steps q r × (state r ≡ State.running))
unfolding state run_wakes run_claims
cycle_ends p h o s m =
    let (q, g, e) = ends p (Reach-Cycle h) o s m p.context_stopped refl in
    (
      q,
      g,
      ground (arith, e),
      λ w.
          let waits : q.runner ≡ Runner.waiting = ground (arith, e, w) in
          (
            run_claims (run_wakes q),
            next (next here (Step.wakes waits e.0)) (Step.claims refl e.0),
            ground arith,
          ),
    )
