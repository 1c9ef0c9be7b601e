-- ===== src/TcpSession/Shutdown.antt =====
-- A session that is to stop can always do so by itself.
use libsg.Common.{
  ℕ, ◌≡◌, ◌≢◌, ◌<◌, ◌⊎◌, inl, inr, true, false, List, [], ◌∷◌, arith, refl, Bool-cases,
}
use libsg.TcpSession.{Session, Status, Writer, Reader, Closing, note_failure}
use libsg.TcpSession.Calls.{close}
use libsg.TcpSession.Strand.{
  took, writer_takes, writer_leaves, writer_sent, writer_notes, reader_notes, close_impl,
  close_returns,
}
use libsg.TcpSession.System.{
  Rules, Step, Steps, here, next, Reach, first, undisturbed, is_busy, writer_notes_now,
  reader_notes_now,
}
use libsg.TcpSession.Writers.{Writers, Reach-Writers, is_there}
use libsg.TcpSession.Lifecycle.{Lifecycle, Reach-Lifecycle, Agree}

-- The session can reach `stopped` with no call from outside and nothing failing.
abbrev pub CanStop : Session → Type 0
CanStop s = (t : Session) × Steps undisturbed s t × (t.state ≡ Status.stopped)

before : {s t : Session} → Step undisturbed s t → CanStop t → CanStop s
before e (u, x, h) = (u, first e x, h)

from_notified : (s : Session) → s.closing ≡ Closing.notified → CanStop s
unfolding close_returns
from_notified s e = (close_returns s, next here (Step.ends e), refl)

from_posted_alone : (s : Session) → s.closing ≡ Closing.posted → is_busy s ≡ false → CanStop s
unfolding close_impl
from_posted_alone s e f = before (Step.shuts e f) (from_notified (close_impl s) refl)

-- The coroutines leave their `catch` blocks, the writer before the reader.
from_posted_reader :
    (x : Reader) (s : Session)
    → s.reader ≡ x
    → s.closing ≡ Closing.posted
    → s.leaving ≡ false
    → writer_notes_now s.writer ≡ false
    → CanStop s
unfolding reader_notes note_failure
from_posted_reader (Reader.noting f) s d e l w =
    before (Step.read_noted f d) (from_posted_alone (reader_notes f s) e (ground (arith, l, w)))
from_posted_reader x s d e l w = from_posted_alone s e (ground (arith, d, l, w))

from_posted_writer :
    (x : Writer) (s : Session)
    → s.writer ≡ x
    → s.closing ≡ Closing.posted
    → s.leaving ≡ false
    → CanStop s
unfolding writer_notes note_failure
from_posted_writer (Writer.noting f) s d e l =
    before (Step.write_noted f d) (from_posted_reader s.reader (writer_notes f s) refl e l refl)
from_posted_writer x s d e l = from_posted_reader s.reader s refl e l (ground (arith, d))

from_posted : (s : Session) → s.closing ≡ Closing.posted → CanStop s
unfolding writer_leaves
from_posted s e = elim (Bool-cases s.leaving) [
  | inl l ↦ before (Step.leaves l) (from_posted_writer s.writer (writer_leaves s) refl e refl)
  | inr l ↦ from_posted_writer s.writer s refl e l
]

from_closers : (s : Session) → s.state ≡ Status.stop_requested → 0 < s.closers → CanStop s
unfolding close
from_closers s e c = before (Step.closes c) (from_posted (close s) (ground arith))

from_leaving : (s : Session) → s.state ≡ Status.stop_requested → s.leaving ≡ true → CanStop s
unfolding writer_leaves
from_leaving s e l = before (Step.leaves l) (from_closers (writer_leaves s) e (ground arith))

from_spawned_empty :
    (s : Session)
    → s.state ≡ Status.stop_requested
    → s.closing ≡ Closing.not_closing
    → s.leaving ≡ false
    → reader_notes_now s.reader ≡ false
    → s.writer ≡ Writer.spawned
    → s.write_msgs ≡ []
    → CanStop s
unfolding writer_takes took
from_spawned_empty s e c l d w q =
    before (Step.takes w (ground arith))
      (from_leaving (writer_takes s) (ground arith) (ground arith))

-- A stop was requested, nobody is in `close()`, no writer is leaving and the reader is not in its
-- `catch` block.
abbrev Waiting : Session → Type 0
Waiting s =
    (s.state ≡ Status.stop_requested)
    × (s.closing ≡ Closing.not_closing)
    × (s.leaving ≡ false)
    × (reader_notes_now s.reader ≡ false)

from_spawned_list :
    (ms : List (List ℕ)) (s : Session)
    → Waiting s
    → s.writer ≡ Writer.spawned
    → s.write_msgs ≡ ms
    → CanStop s
unfolding writer_takes took writer_sent
from_spawned_list [] s h w q = from_spawned_empty s h.0 h.1 h.2 h.3 w q
from_spawned_list (m ∷ ms) s h w q = before (Step.takes w (ground arith)) (
    before {s = writer_takes s}
      (Step.sends s.options.timeout_msec (m ∷ ms) (ground arith) (ground arith))
      (from_spawned_empty (writer_sent (m ∷ ms) (writer_takes s)) (ground arith) (ground arith)
        (ground arith) (ground arith) (ground arith) (ground arith)))

from_writer : (w : Writer) (s : Session) → Waiting s → s.writer ≡ w → is_there w ≡ true → CanStop s
unfolding writer_sent writer_notes note_failure
from_writer (Writer.noting f) s h e p =
    before (Step.write_noted f e) (from_closers (writer_notes f s) h.0 (omega arith))
from_writer Writer.idle s h e p = cc
from_writer Writer.spawned s h e p = from_spawned_list s.write_msgs s h e refl
from_writer (Writer.writing t bs) s h e p =
    before (Step.sends t bs e (ground arith))
      (from_spawned_list s.write_msgs (writer_sent bs s) h refl refl)

-- The reader first leaves its `catch` block, if it is there.
from_reader :
    (x : Reader) (s : Session)
    → s.reader ≡ x
    → (s.state ≡ Status.stop_requested) × (s.closing ≡ Closing.not_closing) × (s.leaving ≡ false)
    → is_there s.writer ≡ true
    → CanStop s
unfolding reader_notes note_failure
from_reader (Reader.noting f) s d h p =
    before (Step.read_noted f d) (from_closers (reader_notes f s) h.0 (omega arith))
from_reader x s d h p = from_writer s.writer s (h.0, h.1, h.2, ground (arith, d)) refl p

from_stop_requested :
    (s : Session)
    → s.state ≡ Status.stop_requested
    → s.closing ≡ Closing.not_closing
    → (0 < s.closers) ⊎ ((is_there s.writer ≡ true) ⊎ (s.leaving ≡ true))
    → CanStop s
from_stop_requested s e c (inl h) = from_closers s e h
from_stop_requested s e c (inr (inr h)) = from_leaving s e h
from_stop_requested s e c (inr (inl h)) = elim (Bool-cases s.leaving) [
  | inl l ↦ from_leaving s e l
  | inr l ↦ from_reader s.reader s refl (e, c, l) h
]

from_closing :
    (c : Closing) (s : Session)
    → s.closing ≡ c
    → s.state ≡ Status.stopping
    → Agree c s.state s.start_called
    → CanStop s
from_closing Closing.not_closing s e q a = ground arith
from_closing Closing.posted s e q a = from_posted s e
from_closing Closing.notified s e q a = from_notified s e
from_closing Closing.closed s e q a = ground arith

from_status :
    (st : Status) (s : Session)
    → s.state ≡ st
    → Lifecycle s
    → Writers s
    → s.start_called ≡ true
    → st ≢ Status.running
    → CanStop s
from_status Status.running s e l w b n = absurd (n refl)
from_status Status.stop_requested s e l w b n =
    from_stop_requested s e (ground (arith, l)) (w.stopping e)
from_status Status.stopping s e l w b n = from_closing s.closing s refl e l.agree
from_status Status.stopped s e l w b n = (s, here, e)

-- However a session has come to leave `running` (a stop requested or forced, a failure of the
-- socket, of a callback or of `start()`), and whatever its coroutines were doing: with no further
-- call from outside and no failure, it can go on to `stopped` by its own steps.
pub stop_completes :
    {r : Rules} {s : Session}
    → Reach r s
    → s.start_called ≡ true
    → s.state ≢ Status.running
    → CanStop s
stop_completes {s} h b n = from_status s.state s refl (Reach-Lifecycle h) (Reach-Writers h) b n
