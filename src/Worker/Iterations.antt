-- ===== src/Worker/Iterations.antt =====
-- How many more ticks follow a request to stop after some iterations.
use libsg.Common.{ℕ, zero, suc, ◌+◌, ◌-◌, ◌^◌, ◌≡◌, ◌<◌, ◌≤◌, false, none, arith}
use libsg.Worker.{
  Worker, Thread, State, request_stop_after_iterations, start_callback_returns, loop_test,
  tick_returns, check_target, wake, unwind, stop_callback_returns, stop_target, max_iteration_count,
}

-- The next step of the thread, if no callback throws.
advance_from : Thread → Worker → Worker
advance_from Thread.no_thread w = w
advance_from Thread.entered w = start_callback_returns w
advance_from Thread.looping w = loop_test w
advance_from (Thread.ticking n) w = tick_returns n w
advance_from (Thread.ticked n) w = check_target n w
advance_from Thread.waiting w = wake w
advance_from (Thread.unwinding ex) w = unwind ex w
advance_from (Thread.stopping ex) w = stop_callback_returns ex w
advance_from Thread.finished w = w

unfoldable pub advance : Worker → Worker
unfolding advance_from start_callback_returns loop_test tick_returns check_target wake unwind
    stop_callback_returns
advance w = advance_from w.thread w

-- `n` steps of the thread, with nobody else calling the worker
unfoldable pub run : ℕ → Worker → Worker
run zero w = w
run (suc n) w = run n (advance w)

-- the steps of `n + 1` iterations from the loop's test, and of the way out
abbrev pub steps_for : ℕ → ℕ
steps_for zero = 5
steps_for (suc n) = suc (suc (suc (suc (steps_for n))))

abbrev Looping : ℕ → Worker → Type 0
Looping done w =
    (w.thread ≡ Thread.looping) × (w.stop_requested ≡ false) × (w.iterations_done ≡ done)

record Rounds (k : ℕ) (w u : Worker) : Type 0 where
  ticks : u.ticks ≡ w.ticks + k
  stops : u.stops ≡ w.stops
  target : u.stop_at_iteration ≡ w.stop_at_iteration
  looping : Looping (w.iterations_done + k) u

one_round :
    (w : Worker)
    → Looping w.iterations_done w
    → w.iterations_done + 1 < w.stop_at_iteration
    → w.stop_at_iteration < 2 ^ 64
    → Rounds 1 w (advance (advance (advance (advance w))))
unfolding advance
one_round w l more small = ground arith

pub record Stopped (k : ℕ) (w u : Worker) : Type 0 where
  pub thread : u.thread ≡ Thread.finished
  pub state : u.state ≡ State.stopped
  pub result : u.result ≡ none
  pub ticks : u.ticks ≡ w.ticks + k
  pub stops : u.stops ≡ suc w.stops

last_round :
    (w : Worker)
    → Looping w.iterations_done w
    → w.stop_at_iteration ≡ w.iterations_done + 1
    → w.stop_at_iteration < 2 ^ 64
    → Stopped 1 w (advance (advance (advance (advance (advance w)))))
unfolding advance
last_round w l e small = ground arith

exact_rounds :
    (n : ℕ) (w : Worker)
    → Looping w.iterations_done w
    → w.stop_at_iteration ≡ w.iterations_done + suc n
    → w.stop_at_iteration < 2 ^ 64
    → Stopped (suc n) w (run (steps_for n) w)
unfolding run
exact_rounds zero w l e small = last_round w l (omega arith) small
exact_rounds (suc n) w l e small =
    let r = one_round w l (omega arith) small in
    let u = advance (advance (advance (advance w))) in ground (arith, r, exact_rounds n u)

requested-Looping :
    (n : ℕ) (w : Worker)
    → w.thread ≡ Thread.waiting
    → w.stop_requested ≡ false
    → w.iterations_done + suc n < max_iteration_count
    → let u = advance (request_stop_after_iterations (suc n) w) in
      Looping w.iterations_done u
      × (u.iterations_done ≡ w.iterations_done)
      × (u.stop_at_iteration ≡ w.iterations_done + suc n)
      × (u.ticks ≡ w.ticks)
      × (u.stops ≡ w.stops)
unfolding advance request_stop_after_iterations
requested-Looping n w e q small = ground arith

-- While the worker waits between ticks and no stop is requested, `request_stop_after_iterations`
-- with a positive number (that the counter can still reach) makes its thread tick exactly that
-- many times more and then stop: the stop callback is reached once, the state is `stopped` and the
-- future holds no exception, if no callback throws and nobody else calls the worker. The number of
-- steps that this takes is given.
pub further_iterations :
    (n : ℕ) (w : Worker)
    → w.thread ≡ Thread.waiting
    → w.stop_requested ≡ false
    → w.iterations_done + suc n < max_iteration_count
    → Stopped (suc n) w (run (suc (steps_for n)) (request_stop_after_iterations (suc n) w))
unfolding run
further_iterations n w e q small = ground (
  arith,
  requested-Looping n w e q small,
  exact_rounds n (advance (request_stop_after_iterations (suc n) w)),
)

-- The target never becomes the value that means never, and is not below the iterations done: it is
-- the sum if the counter can reach it, and the largest other value if not.
pub stop_target_bounds :
    (count done : ℕ)
    → done < max_iteration_count
    → (stop_target count done < max_iteration_count)
      × (done ≤ stop_target count done)
      × (count + done < max_iteration_count → stop_target count done ≡ done + count)
      × (max_iteration_count ≤ count + done → stop_target count done ≡ max_iteration_count - 1)
unfolding stop_target
stop_target_bounds count done h = ground arith
