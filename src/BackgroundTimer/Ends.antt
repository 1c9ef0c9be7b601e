-- ===== src/BackgroundTimer/Ends.antt =====
-- A timer that was asked to stop.
use libsg.Common.{ℕ, suc, ◌+◌, ◌≤◌, ◌≡◌, ◌≢◌, refl, Bool, true, false, arith}
use libsg.BackgroundTimer.{
  Timer, Thread, started_callback, decide, invoke_task, task_returns, task_throws, sleep_ends,
  leave, stopped_callback,
}
use libsg.BackgroundTimer.System.{Inner, InnerSteps, rest, and_then}
use libsg.BackgroundTimer.Runs.{is_active}

-- the thread by itself comes to its end, after at most k more calls of the task
record Ends (k : ℕ) (t : Timer) : Type 0 where
  last : Timer
  path : InnerSteps false t last
  over : last.thread ≡ Thread.ended
  off : last.is_running ≡ false
  told : last.stopped ≡ suc t.stopped
  few : last.ticks ≤ k + t.ticks

InnerSteps-join : {t u v : Timer} → Inner false t u → InnerSteps false u v → InnerSteps false t v
InnerSteps-join st rest = and_then rest st
InnerSteps-join st (and_then h k) = and_then (InnerSteps-join st h) k

module _ (k : ℕ) where
  -- one more step of the thread, which adds d calls of the task
  before :
      (d : ℕ) (t u : Timer)
      → Inner false t u
      → u.stopped ≡ t.stopped
      → u.ticks ≡ d + t.ticks
      → Ends k u
      → Ends (d + k) t
  before d t u st same more e = record {
    last = e.last;
    path = InnerSteps-join st e.path;
    over = e.over;
    off = e.off;
    told = omega (arith, e.told, same);
    few = omega (arith, e.few, more);
  }

notifying-Ends : (t : Timer) → t.thread ≡ Thread.notifying → t.is_running ≡ false → Ends 0 t
unfolding stopped_callback
notifying-Ends t e off = record {
  last = stopped_callback t;
  path = and_then rest (Inner.notifies e);
  over = refl;
  off = off;
  told = refl;
  few = omega arith;
}

leaving-Ends : (t : Timer) → t.thread ≡ Thread.leaving → Ends 0 t
unfolding leave
leaving-Ends t e =
    before 0 0 t (leave t) (Inner.leaves e) refl (omega arith) (notifying-Ends (leave t) refl refl)

deciding-Ends : (t : Timer) → t.thread ≡ Thread.deciding → t.stop_requested ≡ true → Ends 0 t
unfolding decide
deciding-Ends t e s =
    before 0 0 t (decide t) (Inner.decides e) refl (omega arith)
      (leaving-Ends (decide t) (ground (arith, s)))

begun-Ends : (t : Timer) → t.thread ≡ Thread.begun → t.stop_requested ≡ true → Ends 0 t
unfolding started_callback
begun-Ends t e s =
    before 0 0 t (started_callback t) (Inner.begins e) refl (omega arith)
      (deciding-Ends (started_callback t) refl s)

sleeping-Ends : (t : Timer) → t.thread ≡ Thread.sleeping → t.stop_requested ≡ true → Ends 0 t
unfolding sleep_ends
sleeping-Ends t e s =
    before 0 0 t (sleep_ends t) (Inner.wakes e) refl (omega arith)
      (deciding-Ends (sleep_ends t) refl s)

working-Ends : (t : Timer) → t.thread ≡ Thread.working → t.stop_requested ≡ true → Ends 0 t
unfolding task_returns
working-Ends t e s =
    before 0 0 t (task_returns t) (Inner.returns e) refl (omega arith)
      (sleeping-Ends (task_returns t) refl s)

locking-Ends : (t : Timer) → t.thread ≡ Thread.locking → t.stop_requested ≡ true → Ends 1 t
unfolding invoke_task
locking-Ends t e s =
    before 0 1 t (invoke_task t) (Inner.invokes e) refl (omega arith)
      (working-Ends (invoke_task t) refl s)

one_more : (t : Timer) → Ends 0 t → Ends 1 t
one_more t e = record {
  last = e.last;
  path = e.path;
  over = e.over;
  off = e.off;
  told = e.told;
  few = omega (arith, e.few);
}

active-Ends :
    (x : Thread) (t : Timer)
    → t.thread ≡ x
    → t.stop_requested ≡ true
    → is_active x ≡ true
    → x ≢ Thread.setting
    → Ends 1 t
active-Ends Thread.no_thread t e s a n = absurd (ground (arith, a))
active-Ends Thread.begun t e s a n = one_more t (begun-Ends t e s)
active-Ends Thread.deciding t e s a n = one_more t (deciding-Ends t e s)
active-Ends Thread.locking t e s a n = locking-Ends t e s
active-Ends Thread.working t e s a n = one_more t (working-Ends t e s)
active-Ends Thread.setting t e s a n = absurd (n refl)
active-Ends Thread.sleeping t e s a n = one_more t (sleeping-Ends t e s)
active-Ends Thread.leaving t e s a n = one_more t (leaving-Ends t e)
active-Ends Thread.notifying t e s a n = absurd (ground (arith, a))
active-Ends Thread.ended t e s a n = absurd (ground (arith, a))

-- calls of the task that the thread has decided on
abbrev due : Thread → ℕ
due Thread.locking = 1
due _ = 0

record Bounded (t u : Timer) : Type 0 where
  requested : u.stop_requested ≡ true
  few : u.ticks + due u.thread ≤ due t.thread + t.ticks

Inner-Bounded : {fallible : Bool} {t u v : Timer} → Inner fallible u v → Bounded t u → Bounded t v
unfolding started_callback decide invoke_task task_returns task_throws sleep_ends leave
    stopped_callback
Inner-Bounded (Inner.begins e) c = ground (arith, c, e)
Inner-Bounded (Inner.decides e) c = ground (arith, c, e)
Inner-Bounded (Inner.invokes e) c = ground (arith, c, e)
Inner-Bounded (Inner.returns e) c = ground (arith, c, e)
Inner-Bounded (Inner.throws f e) c = ground (arith, c, e)
Inner-Bounded (Inner.wakes e) c = ground (arith, c, e)
Inner-Bounded (Inner.leaves e) c = ground (arith, c, e)
Inner-Bounded (Inner.notifies e) c = ground (arith, c, e)

InnerSteps-Bounded :
    {fallible : Bool} {t u : Timer}
    → t.stop_requested ≡ true
    → InnerSteps fallible t u
    → Bounded t u
InnerSteps-Bounded s rest = record { requested = s; few = omega arith }
InnerSteps-Bounded s (and_then h st) = Inner-Bounded st (InnerSteps-Bounded s h)

at_most_one :
    {fallible : Bool} (t u : Timer)
    → t.stop_requested ≡ true
    → InnerSteps fallible t u
    → u.ticks ≤ 1 + t.ticks
at_most_one t u s h = ground (arith, (InnerSteps-Bounded s h).few)

-- In every state in which the stop is requested and the thread has not left its loop or is leaving it,
-- except inside a `set_interval` that the task calls: the thread can come to its end by its
-- own steps without the task throwing, the timer is then not running, and the stopped callback has been
-- invoked once more. Whatever the task does, and however far the thread has gone, the task is called
-- at most once more.
pub stop_ends :
    (t : Timer)
    → t.stop_requested ≡ true
    → is_active t.thread ≡ true
    → t.thread ≢ Thread.setting
    → (u : Timer) × InnerSteps false t u
      × (u.thread ≡ Thread.ended)
      × (u.is_running ≡ false)
      × (u.stopped ≡ suc t.stopped)
      × ((fallible : Bool) (v : Timer) → InnerSteps fallible t v → v.ticks ≤ 1 + t.ticks)
stop_ends t s a n =
    let e = active-Ends t.thread t refl s a n in
    (e.last, e.path, e.over, e.off, e.told, λ fallible v h. at_most_one t v s h)
