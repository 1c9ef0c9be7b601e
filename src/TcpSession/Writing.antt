-- ===== src/TcpSession/Writing.antt =====
-- What one call of `write` does, on every branch.
use libsg.Common.{
  Option, ℕ, ◌≡◌, ◌≢◌, ◌<◌, ◌≤◌, ◌⊎◌, true, false, some, none, List, [], ◌∷◌, ◌++◌, length, add64,
  arith,
}
use libsg.TcpSession.{Session, Status, Writer, pending_bytes}
use libsg.TcpSession.Calls.{write}
use libsg.TcpSession.System.{Rules, Reach}
use libsg.TcpSession.Calls.{Refusal}
use libsg.TcpSession.Writers.{Reach-Writers, has_writer}

-- What an accepted message changes: it is the last in the queue and counted as pending; a writer is
-- spawned only where none was there.
pub record Queued (msg : List ℕ) (s t : Session) : Type 0 where
  pub allowed : s.state ≡ Status.running
  pub below :
      (s.options.write_high_water_mark ≡ 0) ⊎ (pending_bytes s < s.options.write_high_water_mark)
  pub last_one : t.write_msgs ≡ s.write_msgs ++ msg ∷ []
  pub counted : t.queued_bytes ≡ add64 s.queued_bytes (length msg)
  pub scheduled : t.write_scheduled ≡ true
  pub kept_writer : has_writer s.writer ≡ true → t.writer ≡ s.writer
  pub new_writer :
      s.write_scheduled ≡ false → (s.writer ≡ Writer.idle) × (t.writer ≡ Writer.spawned)

abbrev pub Outcome : List ℕ → Session → Session × Option Refusal → Type 0
Outcome msg s (t, none) = Queued msg s t
Outcome msg s (t, some Refusal.buffer_full) =
    (t ≡ s)
    × (s.state ≡ Status.running)
    × (0 < s.options.write_high_water_mark)
    × (s.options.write_high_water_mark ≤ pending_bytes s)
Outcome msg s (t, some Refusal.not_operational) = (t ≡ s) × (s.state ≢ Status.running)
Outcome msg s (t, some _) = ⊥

-- In every reachable state, `write` queues the message if the session is running and fewer bytes
-- than the high-water mark are pending (or there is no mark); it throws `buffer_full` if the mark
-- is reached, and the other error if the session is not running, and then changes nothing. It
-- never starts a second writer.
pub write-Outcome :
    {r : Rules} {s : Session} (msg : List ℕ) → Reach r s → Outcome msg s (write msg s)
unfolding write pending_bytes
write-Outcome {s} msg h = ground (arith, Reach-Writers h)
