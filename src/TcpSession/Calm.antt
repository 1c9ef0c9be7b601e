-- ===== src/TcpSession/Calm.antt =====
-- Where nothing fails but a closed socket, no coroutine of a running session is in its `catch` block.
use libsg.Common.{ℕ, ◌≡◌, ◌⊎◌, true, false, List, [], ◌∷◌, arith}
use libsg.TcpSession.{Session, is_running}
use libsg.TcpSession.Calls.{
  create, start, set_up_ok, start_throws, start_notes, mark_connected, start_returns, stop_async,
  stop_async_force, start_fails, close, write, set_timeout,
}
use libsg.TcpSession.Strand.{
  took, writer_takes, writer_leaves, writer_sent, writer_fails, writer_notes, reader_loops,
  reader_reads, reader_throws, reader_notes, close_impl, close_returns,
}
use libsg.TcpSession.System.{
  Rules, Step, Reach, created, later, guard, writer_notes_now, reader_notes_now,
}
use libsg.TcpSession.Lifecycle.{Lifecycle, Reach-Lifecycle, told}

record Calm (s : Session) : Type 0 where
  open_until : told s.closing ≡ false → s.socket_open ≡ true
  unnoted :
      (writer_notes_now s.writer ≡ true) ⊎ (reader_notes_now s.reader ≡ true)
      → (is_running s.state ≡ false) × (s.start_called ≡ true)

took-Calm : (ms : List (List ℕ)) (s : Session) → Calm s → Calm (took ms s)
unfolding took
took-Calm [] s c = ground (arith, c)
took-Calm (m ∷ ms) s c = ground (arith, c)

Step-Calm :
    {r : Rules} {s t : Session} → r.faults ≡ false → Step r s t → Lifecycle s → Calm s → Calm t
unfolding start set_up_ok start_throws start_notes mark_connected start_returns stop_async
    stop_async_force start_fails close write set_timeout writer_takes writer_leaves writer_sent
    writer_fails writer_notes reader_loops reader_reads reader_throws reader_notes close_impl
    close_returns
Step-Calm q (Step.takes w free) l c = took-Calm _ _ c
Step-Calm q (Step.starts) l c = ground (arith, l, c)
Step-Calm q st l c = ground (arith, l, c, guard st)

Reach-Calm : {r : Rules} {s : Session} → r.faults ≡ false → Reach r s → Calm s
unfolding create
Reach-Calm q (created o c e) = ground (arith, e)
Reach-Calm q (later h st) = Step-Calm q st (Reach-Lifecycle h) (Reach-Calm q h)

pub unnoted_while_running :
    {r : Rules} {s : Session}
    → r.faults ≡ false
    → Reach r s
    → is_running s.state ≡ true
    → (writer_notes_now s.writer ≡ false) × (reader_notes_now s.reader ≡ false)
unnoted_while_running q h run = ground (arith, Reach-Calm q h, run)
