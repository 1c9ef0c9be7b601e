-- ===== src/FileWriter/Examples.antt =====
-- A writer that is given one buffer and stopped.
use libsg.Common.{
  suc, ◌<◌, ◌≡◌, inl, refl, Bool, true, false, [], ◌∷◌, ◌++◌, length, u64, flatten, arith,
}
use libsg.FileWriter.{
  Writer, Thread, started, write_async, request_stop, wake, test, acquire, swap, write_front,
  count_bytes, check,
}
use libsg.FileWriter.System.{Step, here, next, Reach}
use libsg.FileWriter.Flow.{in_hand}
use libsg.FileWriter.Ends.{no_lost_wakeup, file_in_order}

-- the thread waits, and a buffer is queued
abbrev given : Bool → Writer
unfolding write_async test
given good = write_async suc (7 ∷ 8 ∷ []) (test (started good))

given-Reach : (good : Bool) → Reach suc good (given good)
unfolding given write_async test
given-Reach good = next (next here (Step.tests refl)) (Step.writes (7 ∷ 8 ∷ []))

no_lost_wakeup_example : 0 < (given true).signal
unfolding given write_async test
no_lost_wakeup_example =
    no_lost_wakeup {release = suc} {good = true} (λ n. omega arith) (given-Reach true) refl
      (inl (ground arith))

abbrev ended : Bool → Writer
unfolding given write_async request_stop wake test acquire swap write_front count_bytes check
ended good = check (
    count_bytes 2
      (write_front (7 ∷ 8 ∷ []) [] 0 (swap (acquire (wake suc (request_stop (given good)))))))

ended-Reach : (good : Bool) → Reach suc good (ended good)
unfolding ended given write_async request_stop wake test acquire swap write_front count_bytes check
ended-Reach good =
    let r = next (next (given-Reach good) (Step.requests_stop refl)) (Step.wakes refl) in
    let s = next (next r (Step.acquires refl (omega arith))) (Step.swaps refl) in
    next (next (next s (Step.writes_front (7 ∷ 8 ∷ []) [] 0 refl)) (Step.counts 2 refl))
      (Step.checks refl)

file_in_order_example :
    ((ended true).accepted
      ≡ (ended true).file ++ (in_hand (ended true).thread ++ flatten (ended true).data_queue))
    × ((ended true).thread ≡ Thread.finished
        → (ended true).late ≡ false
        → ((ended true).file ≡ (ended true).accepted)
          × ((ended true).byte_count ≡ u64 (length (ended true).accepted)))
file_in_order_example = file_in_order {release = suc} (λ n. omega arith) (ended-Reach true)
