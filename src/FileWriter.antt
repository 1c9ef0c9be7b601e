-- ===== src/FileWriter.antt =====
-- common/src/file_writer.cpp and common/include/sg/file_writer.h: `sg::file_writer`, a thread that
-- writes queued buffers to a file until it is stopped. A byte is a number. What `release()` makes of
-- the count of the semaphore is a parameter, since the standard leaves it open above one.
pub mod System
pub mod Flow
pub mod Ends
mod Examples
use libsg.Common.{
  ℕ, ◌-◌, Bool, true, false, List, [], ◌∷◌, ◌++◌, length, add64, if◌then◌else◌, ◌||◌,
}

-- Where the thread stands inside `action()`.
pub data Thread : Type 0 where
  testing : Thread  -- before the test of the stop token
  acquiring : Thread
  swapping : Thread
  writing : List (List ℕ) → ℕ → Thread  -- with `m_old_data` and `count`
  checking : Thread  -- before the second test of the stop token
  finished : Thread

-- Where a call of `stop()` stands.
pub data Stopper : Type 0 where
  nobody flagged joining : Stopper

pub record Writer : Type 0 where
  pub data_queue : List (List ℕ)  -- `m_data`
  pub signal : ℕ
  pub stop_requested : Bool
  pub thread : Thread
  pub stopper : Stopper
  pub good : Bool  -- the stream accepts bytes
  pub file : List ℕ
  pub byte_count : ℕ
  pub accepted : List ℕ  -- all bytes given to `write_async`
  pub taken : List ℕ  -- all bytes given to the stream
  pub late : Bool  -- `write_async` was called after the end of the thread

-- after `start()`, with what the stream says after it was opened
abbrev pub started : Bool → Writer
started good = record {
  data_queue = [];
  signal = 0;
  stop_requested = false;
  thread = Thread.testing;
  stopper = Stopper.nobody;
  good = good;
  file = [];
  byte_count = 0;
  accepted = [];
  taken = [];
  late = false;
}

abbrev pub is_finished : Thread → Bool
is_finished Thread.finished = true
is_finished _ = false

unfoldable pub write_async : (ℕ → ℕ) → List ℕ → Writer → Writer
write_async release buff w = record w {
  data_queue = w.data_queue ++ (buff ∷ []);
  signal = release w.signal;
  accepted = w.accepted ++ buff;
  late = w.late || is_finished w.thread;
}

-- the first half of `stop()`
unfoldable pub request_stop : Writer → Writer
request_stop w = record w { stop_requested = true; stopper = Stopper.flagged }

-- the second half, up to the wait for the thread
unfoldable pub wake : (ℕ → ℕ) → Writer → Writer
wake release w = record w { signal = release w.signal; stopper = Stopper.joining }

unfoldable pub test : Writer → Writer
test w = record w { thread = if w.stop_requested then Thread.swapping else Thread.acquiring }

unfoldable pub acquire : Writer → Writer
acquire w = record w { signal = w.signal - 1; thread = Thread.swapping }

unfoldable pub swap : Writer → Writer
swap w = record w { data_queue = []; thread = Thread.writing w.data_queue 0 }

-- `m_file.write`: a stream that is not good drops the bytes and, as no exceptions are asked for,
-- throws nothing.
unfoldable pub write_front : List ℕ → List (List ℕ) → ℕ → Writer → Writer
write_front buff old count w = record w {
  file = if w.good then w.file ++ buff else w.file;
  taken = w.taken ++ buff;
  thread = Thread.writing old (add64 count (length buff));
}

unfoldable pub count_bytes : ℕ → Writer → Writer
count_bytes count w = record w { byte_count = add64 w.byte_count count; thread = Thread.checking }

unfoldable pub check : Writer → Writer
check w = elim w.data_queue [
  | [] ↦ record w { thread = if w.stop_requested then Thread.finished else Thread.testing }
  | buff ∷ buffs ↦ record w { thread = Thread.testing }
]
