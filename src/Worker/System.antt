-- ===== src/Worker/System.antt =====
-- A worker among its callers.
use libsg.Common.{ℕ, ◌≡◌, Bool, true, false, ◌||◌, not, Option}
use libsg.Worker.{
  Worker, Thread, fresh, notify, request_stop, request_stop_after_iterations, start, start_within,
  launch, launch_fails, clean_up, start_callback_returns, start_callback_throws, loop_test,
  tick_returns, tick_throws, check_target, wake, unwind, stop_callback_returns,
  stop_callback_throws,
}

-- What callers may do: call `start()` from the stop callback; call it while another `start()`,
-- whose start callback threw, has not yet finished.
pub record Rules : Type 0 where
  pub reentrant : Bool
  pub overlap : Bool

-- No thread, or one that can be joined.
abbrev pub joinable : Thread → Bool
joinable Thread.no_thread = true
joinable Thread.finished = true
joinable _ = false

pub data Step (r : Rules) (w : Worker) : Worker → Type 0 where
  notifies : Step r w (notify w)
  requests_stop : Step r w (request_stop w)
  requests_stop_after : (count : ℕ) → Step r w (request_stop_after_iterations count w)
  starts : r.overlap || not w.cleaning ≡ true → Step r w (start w).0
  starts_within :
      (ex : Option ℕ)
      → w.thread ≡ Thread.stopping ex
      → r.reentrant ≡ true
      → Step r w (start_within w).0
  launches :
      (stop_at : ℕ) → w.launching ≡ true → joinable w.thread ≡ true → Step r w (launch stop_at w)
  fails_to_launch :
      (stop_at : ℕ)
      → w.launching ≡ true
      → joinable w.thread ≡ true
      → Step r w (launch_fails stop_at w)
  cleans_up : w.cleaning ≡ true → Step r w (clean_up w)
  start_returns : w.thread ≡ Thread.entered → Step r w (start_callback_returns w)
  start_throws : w.thread ≡ Thread.entered → Step r w (start_callback_throws w)
  tests : w.thread ≡ Thread.looping → Step r w (loop_test w)
  tick_ends : (n : ℕ) → w.thread ≡ Thread.ticking n → Step r w (tick_returns n w)
  tick_fails : (n f : ℕ) → w.thread ≡ Thread.ticking n → Step r w (tick_throws f w)
  checks : (n : ℕ) → w.thread ≡ Thread.ticked n → Step r w (check_target n w)
  wakes : w.thread ≡ Thread.waiting → Step r w (wake w)
  unwinds : (ex : Option ℕ) → w.thread ≡ Thread.unwinding ex → Step r w (unwind ex w)
  stop_returns :
      (ex : Option ℕ) → w.thread ≡ Thread.stopping ex → Step r w (stop_callback_returns ex w)
  stop_throws :
      (ex : Option ℕ) (f : ℕ) → w.thread ≡ Thread.stopping ex → Step r w (stop_callback_throws f w)

pub data Steps (r : Rules) (w : Worker) : Worker → Type 0 where
  here : Steps r w w
  next : {u v : Worker} → Steps r w u → Step r u v → Steps r w v

-- The states of a worker since its construction.
abbrev pub Reach : Rules → Worker → Type 0
Reach r w = Steps r fresh w

-- The premises of a step, for a proof that treats many steps alike.
abbrev pub Guard : {r : Rules} {w u : Worker} → Step r w u → Type 0
Guard {r} {w} (Step.starts p) = r.overlap || not w.cleaning ≡ true
Guard {r} {w} (Step.starts_within ex e p) = (w.thread ≡ Thread.stopping ex) × (r.reentrant ≡ true)
Guard {w} (Step.launches k l j) = (w.launching ≡ true) × (joinable w.thread ≡ true)
Guard {w} (Step.fails_to_launch k l j) = (w.launching ≡ true) × (joinable w.thread ≡ true)
Guard {w} (Step.cleans_up e) = w.cleaning ≡ true
Guard {w} (Step.start_returns e) = w.thread ≡ Thread.entered
Guard {w} (Step.start_throws e) = w.thread ≡ Thread.entered
Guard {w} (Step.tests e) = w.thread ≡ Thread.looping
Guard {w} (Step.tick_ends n e) = w.thread ≡ Thread.ticking n
Guard {w} (Step.tick_fails n f e) = w.thread ≡ Thread.ticking n
Guard {w} (Step.checks n e) = w.thread ≡ Thread.ticked n
Guard {w} (Step.wakes e) = w.thread ≡ Thread.waiting
Guard {w} (Step.unwinds ex e) = w.thread ≡ Thread.unwinding ex
Guard {w} (Step.stop_returns ex e) = w.thread ≡ Thread.stopping ex
Guard {w} (Step.stop_throws ex f e) = w.thread ≡ Thread.stopping ex
Guard _ = Unit {0}

pub guard : {r : Rules} {w u : Worker} (st : Step r w u) → Guard st
guard (Step.starts p) = p
guard (Step.starts_within ex e p) = (e, p)
guard (Step.launches k l j) = (l, j)
guard (Step.fails_to_launch k l j) = (l, j)
guard (Step.cleans_up e) = e
guard (Step.start_returns e) = e
guard (Step.start_throws e) = e
guard (Step.tests e) = e
guard (Step.tick_ends n e) = e
guard (Step.tick_fails n f e) = e
guard (Step.checks n e) = e
guard (Step.wakes e) = e
guard (Step.unwinds ex e) = e
guard (Step.stop_returns ex e) = e
guard (Step.stop_throws ex f e) = e
guard _ = tt
