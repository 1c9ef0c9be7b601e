-- ===== src/TcpSession/Drain.antt =====
-- A graceful stop sends everything first.
use libsg.Common.{ℕ, ◌≡◌, ◌<◌, ◌⊎◌, Bool, true, false, List, [], ◌∷◌, arith, append-nil}
use libsg.TcpSession.{Session, Starter, Writer, Closing, is_running, can_close}
use libsg.TcpSession.Calls.{
  create, start, set_up_ok, start_throws, start_notes, mark_connected, start_returns, stop_async,
  stop_async_force, start_fails, close, write, set_timeout,
}
use libsg.TcpSession.Strand.{
  took, writer_takes, writer_leaves, writer_sent, writer_fails, writer_notes, reader_loops,
  reader_reads, reader_throws, reader_notes, close_impl, close_returns,
}
use libsg.TcpSession.System.{
  Rules, Step, Reach, created, later, guard, strand_free, writer_notes_now, reader_notes_now,
}
use libsg.TcpSession.Writers.{Writers, Reach-Writers}
use libsg.TcpSession.Lifecycle.{Lifecycle, Reach-Lifecycle, told}
use libsg.TcpSession.Bytes.{Reach-Bytes}

-- `close_impl()` has been posted.
-- `start()` has thrown and not yet returned.
abbrev gives_up : Starter → Bool
gives_up Starter.failing = true
gives_up (Starter.noting f) = true
gives_up _ = false

abbrev closing_begun : Closing → Bool
closing_begun Closing.not_closing = false
closing_begun _ = true

record Drained (s : Session) : Type 0 where
  uncalled : s.start_called ≡ false → (s.closers ≡ 0) × (s.leaving ≡ false)
  open_until : told s.closing ≡ false → s.socket_open ≡ true
  left : s.leaving ≡ true → s.write_scheduled ≡ false
  by_closer : 0 < s.closers → (s.write_scheduled ≡ false) × (is_running s.state ≡ false)
  by_close : closing_begun s.closing ≡ true → s.write_scheduled ≡ false
  given_up : gives_up s.starter ≡ true → closing_begun s.closing ≡ true
  unnoted :
      (writer_notes_now s.writer ≡ true) ⊎ (reader_notes_now s.reader ≡ true)
      → closing_begun s.closing ≡ true

took-Drained :
    (ms : List (List ℕ)) (s : Session)
    → s.writer ≡ Writer.spawned
    → strand_free s ≡ true
    → Writers s
    → Drained s
    → Drained (took ms s)
unfolding took
took-Drained [] s e f w d = ground (arith, w, d)
took-Drained (m ∷ ms) s e f w d = ground (arith, w, d)

Step-Drained :
    {r : Rules} {s t : Session}
    → r.faults ≡ false
    → r.overlap ≡ false
    → Lifecycle s
    → Writers s
    → Step r s t
    → Drained s
    → Drained t
unfolding start set_up_ok start_throws start_notes mark_connected start_returns stop_async
    stop_async_force start_fails close write set_timeout writer_takes writer_leaves writer_sent
    writer_fails writer_notes reader_loops reader_reads reader_throws reader_notes close_impl
    close_returns
Step-Drained p q l w (Step.takes e free) d = took-Drained _ _ e free w d
Step-Drained p q l w (Step.starts) d = ground (arith, l, w, d)
Step-Drained p q l w st d = ground (arith, l, w, d, guard st)

Reach-Drained :
    {r : Rules} {s : Session} → r.faults ≡ false → r.overlap ≡ false → Reach r s → Drained s
unfolding create
Reach-Drained p q (created o c e) = ground (arith, e)
Reach-Drained p q (later h st) =
    Step-Drained p q (Reach-Lifecycle h) (Reach-Writers h) st (Reach-Drained p q h)

-- If nobody forces the session to stop, no socket or callback fails, and `write` is not called
-- while a writer that found no message is between its lock and its load of `m_state`, then a
-- session that is closing or closed has sent every byte that `write` accepted.
pub graceful_stop_drains :
    {r : Rules} {s : Session}
    → r.faults ≡ false
    → r.overlap ≡ false
    → Reach r s
    → s.start_called ≡ true
    → can_close s.state ≡ false
    → s.sent ≡ s.accepted
graceful_stop_drains {s} p q h b e = ground (
  arith,
  Reach-Lifecycle h,
  Reach-Writers h,
  Reach-Bytes h,
  Reach-Drained p q h,
  append-nil s.sent,
)
