-- ===== src/FileWriter/Ends.antt =====
-- That the thread does not sleep on its work, and what it has done when it ends.
use libsg.Common.{
  ℕ, ◌<◌, ◌≡◌, ◌≢◌, ◌⊎◌, Bool, true, false, [], ◌++◌, length, u64, flatten, arith, refl, ◌∙◌,
  append-nil,
}
use libsg.FileWriter.{
  Writer, Thread, Stopper, write_async, request_stop, wake, test, acquire, swap, write_front,
  count_bytes, check,
}
use libsg.FileWriter.System.{Step, here, next, Reach}
use libsg.FileWriter.Flow.{in_hand, Reach-Flow}

-- to pass the semaphore or the test of the stop token before the next swap
abbrev pub may_sleep : Thread → Bool
may_sleep Thread.swapping = false
may_sleep Thread.finished = false
may_sleep _ = true

-- No wake-up is lost, and what is left at the end came late.
record Awake (w : Writer) : Type 0 where
  queued : may_sleep w.thread ≡ true → w.data_queue ≢ [] → 0 < w.signal
  stopped : w.thread ≡ Thread.acquiring → w.stopper ≡ Stopper.joining → 0 < w.signal
  flagged : w.stop_requested ≡ false → w.stopper ≡ Stopper.nobody
  drained : w.thread ≡ Thread.finished → w.late ≡ false → w.data_queue ≡ []

module _ {release : ℕ → ℕ} (releases : (n : ℕ) → 0 < release n) where
  Step-Awake : {w u : Writer} → Step release w u → Awake w → Awake u
  unfolding write_async request_stop wake test acquire swap write_front count_bytes check
  Step-Awake {w} (Step.writes buff) a = ground (arith, a, releases w.signal)
  Step-Awake {w} (Step.requests_stop p) a = ground (arith, a, p)
  Step-Awake {w} (Step.wakes p) a = ground (arith, a, p, releases w.signal)
  Step-Awake {w} (Step.tests p) a = ground (arith, a, p)
  Step-Awake {w} (Step.acquires p q) a = ground (arith, a, p)
  Step-Awake {w} (Step.swaps p) a = ground (arith, a, p)
  Step-Awake {w} (Step.writes_front buff old count p) a = ground (arith, a, p)
  Step-Awake {w} (Step.counts count p) a = ground (arith, a, p)
  Step-Awake {w} (Step.checks p) a = ground (arith, a, p)

  Reach-Awake : {good : Bool} {w : Writer} → Reach release good w → Awake w
  Reach-Awake here = ground arith
  Reach-Awake (next h st) = Step-Awake st (Reach-Awake h)

Step-good : {release : ℕ → ℕ} {w u : Writer} → Step release w u → u.good ≡ w.good
unfolding write_async request_stop wake test acquire swap write_front count_bytes check
Step-good (Step.checks p) = ground arith
Step-good (Step.writes buff) = refl
Step-good (Step.requests_stop p) = refl
Step-good (Step.wakes p) = refl
Step-good (Step.tests p) = refl
Step-good (Step.acquires p q) = refl
Step-good (Step.swaps p) = refl
Step-good (Step.writes_front buff old count p) = refl
Step-good (Step.counts count p) = refl

Reach-good : {release : ℕ → ℕ} {good : Bool} {w : Writer} → Reach release good w → w.good ≡ good
Reach-good here = refl
Reach-good (next h st) = Step-good st ∙ Reach-good h

-- If `release()` leaves the semaphore above zero, then in every reachable state a thread that waits
-- while something is queued, or while a call of `stop()` waits for it, finds the semaphore
-- released: it can go on.
pub no_lost_wakeup :
    {release : ℕ → ℕ} {good : Bool} {w : Writer}
    → ((n : ℕ) → 0 < release n)
    → Reach release good w
    → w.thread ≡ Thread.acquiring
    → (w.data_queue ≢ []) ⊎ (w.stopper ≡ Stopper.joining)
    → 0 < w.signal
no_lost_wakeup rel h t d = let a = Reach-Awake rel h in ground (arith, a, t, d)

-- If a release leaves the semaphore above 0 and the stream accepts bytes, then in every reachable
-- state all bytes given to `write_async` are in the file, in the batch in hand and in the queue, in
-- this order. When the thread has ended and nothing was given to it after its end, all of them are in
-- the file, and `bytes_transferred()` is their number, modulo 2 ^ 64.
pub file_in_order :
    {release : ℕ → ℕ} {w : Writer}
    → ((n : ℕ) → 0 < release n)
    → Reach release true w
    → (w.accepted ≡ w.file ++ (in_hand w.thread ++ flatten w.data_queue))
      × (w.thread ≡ Thread.finished
          → w.late ≡ false
          → (w.file ≡ w.accepted) × (w.byte_count ≡ u64 (length w.accepted)))
file_in_order {w} rel h =
    let f = Reach-Flow h in
    let a = Reach-Awake rel h in
    let g = Reach-good h in
    (
      ground (arith, f, g),
      λ t l. (
        ground (arith, f, a, g, t, l, append-nil w.taken),
        ground (arith, f, a, g, t, l, append-nil w.taken),
      ),
    )

-- If the file could not be opened, the file stays empty and yet `bytes_transferred()` counts, at
-- the end of the thread, all bytes that were given to `write_async`, if none came later.
pub lost_bytes_counted :
    {release : ℕ → ℕ} {w : Writer}
    → ((n : ℕ) → 0 < release n)
    → Reach release false w
    → w.thread ≡ Thread.finished
    → w.late ≡ false
    → (w.file ≡ []) × (w.byte_count ≡ u64 (length w.accepted))
lost_bytes_counted {w} rel h t l =
    let f = Reach-Flow h in
    let a = Reach-Awake rel h in
    let g = Reach-good h in (ground (arith, f, g), ground (arith, f, a, t, l, append-nil w.taken))
