-- ===== src/FileWriter/Flow.antt =====
-- What becomes of the bytes, and that the thread does not sleep on them.
use libsg.Common.{
  ℕ, ◌^◌, ◌<◌, ◌≡◌, Bool, true, false, List, [], ◌∷◌, ◌++◌, length, add64, u64, flatten,
  if◌then◌else◌, arith, append-nil, append_assoc, flatten-append, length-append,
}
use libsg.FileWriter.{
  Writer, Thread, write_async, request_stop, wake, test, acquire, swap, write_front, count_bytes,
  check,
}
use libsg.FileWriter.System.{Step, here, next, Reach}

-- the bytes of the batch in hand
abbrev pub in_hand : Thread → List ℕ
in_hand (Thread.writing old count) = flatten old
in_hand _ = []

abbrev counted : Thread → ℕ
counted (Thread.writing old count) = count
counted _ = 0

pub record Flow (w : Writer) : Type 0 where
  pub order : w.accepted ≡ w.taken ++ (in_hand w.thread ++ flatten w.data_queue)
  pub count : add64 w.byte_count (counted w.thread) ≡ u64 (length w.taken)
  pub small : w.byte_count < 2 ^ 64
  pub stored : w.file ≡ (if w.good then w.taken else [])

module _ {release : ℕ → ℕ} where
  Step-Flow : {w u : Writer} → Step release w u → Flow w → Flow u
  unfolding write_async request_stop wake test acquire swap write_front count_bytes check
  Step-Flow {w} (Step.writes buff) f =
      let hand = in_hand w.thread in
      let rest = flatten w.data_queue in
      ground (
        arith,
        f,
        flatten-append w.data_queue (buff ∷ []),
        append-nil buff,
        append_assoc w.taken (hand ++ rest) buff,
        append_assoc hand rest buff,
      )
  Step-Flow {w} (Step.requests_stop p) f = ground (arith, f)
  Step-Flow {w} (Step.wakes p) f = ground (arith, f)
  Step-Flow {w} (Step.tests p) f = ground (arith, f, p)
  Step-Flow {w} (Step.acquires p q) f = ground (arith, f, p)
  Step-Flow {w} (Step.swaps p) f = ground (arith, f, p, append-nil (flatten w.data_queue))
  Step-Flow {w} (Step.writes_front buff old count p) f = ground (
    arith,
    f,
    p,
    length-append w.taken buff,
    append_assoc w.taken buff (flatten old ++ flatten w.data_queue),
    append_assoc buff (flatten old) (flatten w.data_queue),
  )
  Step-Flow {w} (Step.counts count p) f = ground (arith, f, p)
  Step-Flow {w} (Step.checks p) f = ground (arith, f, p)

  pub Reach-Flow : {good : Bool} {w : Writer} → Reach release good w → Flow w
  Reach-Flow {good = true} here = ground arith
  Reach-Flow {good = false} here = ground arith
  Reach-Flow (next h st) = Step-Flow st (Reach-Flow h)
