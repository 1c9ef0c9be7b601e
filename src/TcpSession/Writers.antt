-- ===== src/TcpSession/Writers.antt =====
-- Who is there to close the session: the writer that `m_write_scheduled` promises, and the threads
-- on their way into `close()`.
use libsg.Common.{ℕ, ◌≡◌, ◌<◌, ◌⊎◌, Bool, true, false, List, [], ◌∷◌, arith}
use libsg.TcpSession.{Session, Status, Writer, can_close}
use libsg.TcpSession.Calls.{
  create, start, set_up_ok, start_throws, start_notes, mark_connected, start_returns, stop_async,
  stop_async_force, start_fails, close, write, set_timeout,
}
use libsg.TcpSession.Strand.{
  took, writer_takes, writer_leaves, writer_sent, writer_fails, writer_notes, reader_loops,
  reader_reads, reader_throws, reader_notes, close_impl, close_returns,
}
use libsg.TcpSession.System.{Rules, Step, Reach, created, later, guard}

abbrev pub has_writer : Writer → Bool
has_writer Writer.idle = false
has_writer (Writer.noting f) = false
has_writer _ = true

-- The writer that goes on to `close()` if need be.
abbrev pub is_there : Writer → Bool
is_there Writer.idle = false
is_there _ = true

pub record Writers (s : Session) : Type 0 where
  pub unstarted : s.start_called ≡ false → (s.state ≡ Status.stopped) × (s.write_scheduled ≡ false)
  pub unscheduled :
      s.write_scheduled ≡ false → (s.writer ≡ Writer.idle) × (s.write_msgs ≡ []) × (s.dropped ≡ [])
  pub live : has_writer s.writer ≡ true → s.dropped ≡ []
  pub lost :
      s.write_scheduled ≡ true
      → is_there s.writer ≡ false
      → (0 < s.closers) ⊎ (can_close s.state ≡ false)
  pub stopping :
      s.state ≡ Status.stop_requested
      → (0 < s.closers) ⊎ ((is_there s.writer ≡ true) ⊎ (s.leaving ≡ true))

took-Writers :
    (ms : List (List ℕ)) (s : Session) → s.writer ≡ Writer.spawned → Writers s → Writers (took ms s)
unfolding took
took-Writers [] s e w = ground (arith, w)
took-Writers (m ∷ ms) s e w = ground (arith, w)

pub Step-Writers : {r : Rules} {s t : Session} → Step r s t → Writers s → Writers t
unfolding start set_up_ok start_throws start_notes mark_connected start_returns stop_async
    stop_async_force start_fails close write set_timeout writer_takes writer_leaves writer_sent
    writer_fails writer_notes reader_loops reader_reads reader_throws reader_notes close_impl
    close_returns
Step-Writers (Step.takes e free) w = took-Writers _ _ e w
Step-Writers (Step.starts) w = ground (arith, w)
Step-Writers st w = ground (arith, w, guard st)

pub Reach-Writers : {r : Rules} {s : Session} → Reach r s → Writers s
unfolding create
Reach-Writers (created o c e) = ground (arith, e)
Reach-Writers (later h st) = Step-Writers st (Reach-Writers h)
