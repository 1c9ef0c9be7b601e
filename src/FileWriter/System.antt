-- ===== src/FileWriter/System.antt =====
-- The thread of a file writer among those who write to it and stop it.
use libsg.Common.{ℕ, ◌<◌, ◌≡◌, Bool, List, [], ◌∷◌}
use libsg.FileWriter.{
  Writer, Thread, Stopper, started, write_async, request_stop, wake, test, acquire, swap,
  write_front, count_bytes, check,
}

-- `release` is what the semaphore does.
pub data Step (release : ℕ → ℕ) (w : Writer) : Writer → Type 0 where
  writes : (buff : List ℕ) → Step release w (write_async release buff w)
  requests_stop : w.stopper ≡ Stopper.nobody → Step release w (request_stop w)
  wakes : w.stopper ≡ Stopper.flagged → Step release w (wake release w)
  tests : w.thread ≡ Thread.testing → Step release w (test w)
  acquires : w.thread ≡ Thread.acquiring → 0 < w.signal → Step release w (acquire w)
  swaps : w.thread ≡ Thread.swapping → Step release w (swap w)
  writes_front :
      (buff : List ℕ) (old : List (List ℕ)) (count : ℕ)
      → w.thread ≡ Thread.writing (buff ∷ old) count
      → Step release w (write_front buff old count w)
  counts : (count : ℕ) → w.thread ≡ Thread.writing [] count → Step release w (count_bytes count w)
  checks : w.thread ≡ Thread.checking → Step release w (check w)

pub data Steps (release : ℕ → ℕ) (w : Writer) : Writer → Type 0 where
  here : Steps release w w
  next : {u v : Writer} → Steps release w u → Step release u v → Steps release w v

-- The states since `start()`, whose stream is good or not.
abbrev pub Reach : (ℕ → ℕ) → Bool → Writer → Type 0
Reach release good w = Steps release (started good) w
