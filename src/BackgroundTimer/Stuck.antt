-- ===== src/BackgroundTimer/Stuck.antt =====
-- Two ways in which a timer runs for ever.
use libsg.Common.{◌≡◌, ◌⊎◌, inl, inr, ap, refl, true, arith, if◌then◌else◌}
use libsg.BackgroundTimer.{
  Timer, Thread, Starter, start, start_joined, start_sets, start_creates, start_throws,
  wait_for_stop, request_stop, set_interval, started_callback, decide, invoke_task, task_returns,
  task_throws, task_sets_interval, interval_set, sleep_ends, leave, stopped_callback,
}
use libsg.BackgroundTimer.System.{Inner, Step, Steps, here, next, Reach}
use libsg.BackgroundTimer.Runs.{Reach-Runs}

-- a state of the thread that nothing ends while `is_running` holds and nobody is in `start()`
record Stays (x : Thread) (t : Timer) : Type 0 where
  there : t.thread ≡ x
  on : t.is_running ≡ true
  unattended : t.starter ≡ Starter.nobody

abbrev IsDead : Thread → Type 0
IsDead x = (x ≡ Thread.setting) ⊎ (x ≡ Thread.no_thread)

Inner-Stays : {t u : Timer} (x : Thread) → IsDead x → Inner true t u → Stays x t → Stays x u
unfolding started_callback decide invoke_task task_returns task_throws sleep_ends leave
    stopped_callback
Inner-Stays x d (Inner.begins e) c = ground (arith, c, e, d)
Inner-Stays x d (Inner.decides e) c = ground (arith, c, e, d)
Inner-Stays x d (Inner.invokes e) c = ground (arith, c, e, d)
Inner-Stays x d (Inner.returns e) c = ground (arith, c, e, d)
Inner-Stays x d (Inner.throws f e) c = ground (arith, c, e, d)
Inner-Stays x d (Inner.wakes e) c = ground (arith, c, e, d)
Inner-Stays x d (Inner.leaves e) c = ground (arith, c, e, d)
Inner-Stays x d (Inner.notifies e) c = ground (arith, c, e, d)

Step-Stays : {t u : Timer} (x : Thread) → IsDead x → Step t u → Stays x t → Stays x u
unfolding start start_joined start_sets start_creates start_throws wait_for_stop request_stop
    set_interval task_sets_interval interval_set
Step-Stays x d (Step.inner st) c = Inner-Stays x d st c
Step-Stays x d (Step.starts e) c = ground (arith, c, e, d)
Step-Stays x d (Step.joins e f) c = ground (arith, c, e, f, d)
Step-Stays x d (Step.sets e) c = ground (arith, c, e, d)
Step-Stays x d (Step.creates e) c = ground (arith, c, e, d)
Step-Stays x d (Step.fails e) c = ground (arith, c, e, d)
Step-Stays x d (Step.waits e f) c = ground (arith, c, e, f, d)
Step-Stays x d Step.requests c = ground (arith, c, d)
Step-Stays x d (Step.sets_interval n e) c = ground (arith, c, e, d)
Step-Stays x d (Step.task_sets e) c = ground (arith, c, e, d)
Step-Stays x d (Step.task_set n e f) c = ground (arith, c, e, f, d)

Steps-Stays : {t u : Timer} (x : Thread) → IsDead x → Stays x t → Steps t u → Stays x u
Steps-Stays x d c here = c
Steps-Stays x d c (next h st) = Step-Stays x d st (Steps-Stays x d c h)

-- From every reachable state in which the task runs: if the task calls `set_interval`, the thread
-- waits for ever for the mutex that it has itself, and the timer is running for ever, whatever is
-- requested and whoever calls.
pub set_interval_in_task_deadlocks :
    (t r : Timer)
    → Reach t
    → t.thread ≡ Thread.working
    → Steps (task_sets_interval t) r
    → (r.thread ≡ Thread.setting) × (r.is_running ≡ true)
unfolding task_sets_interval
set_interval_in_task_deadlocks t r h e k =
    let c = Reach-Runs h in
    let on : t.is_running ≡ true = ground (arith, c, e) in
    let alone : t.starter ≡ Starter.nobody = ground (arith, c, e) in
    let s =
      Steps-Stays Thread.setting (inl refl) (record { there = refl; on = on; unattended = alone })
        k in
    (s.there, s.on)

-- From every reachable state in which `start()` is about to create its thread: if that throws, the
-- timer is running for ever without a thread, and no thread is ever created.
pub failed_start_stays :
    (t r : Timer)
    → Reach t
    → t.starter ≡ Starter.creating
    → Steps (start_throws t) r
    → (r.thread ≡ Thread.no_thread) × (r.is_running ≡ true) × (start r ≡ r)
unfolding start_throws start
failed_start_stays t r h e k =
    let c = Reach-Runs h in
    let on : t.is_running ≡ true = ground (arith, c, e) in
    let none : t.thread ≡ Thread.no_thread = ground (arith, c, e) in
    let s =
      Steps-Stays Thread.no_thread (inr refl) (record { there = none; on = on; unattended = refl })
        k in
    (s.there, s.on, ap (λ b. if b then r else record r { starter = Starter.joining }) s.on)
