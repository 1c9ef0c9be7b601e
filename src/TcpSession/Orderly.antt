-- ===== src/TcpSession/Orderly.antt =====
-- A session that nobody calls before `onConnected`: its callbacks come in pairs.
use libsg.Common.{ℕ, ◌≡◌, ◌≢◌, true, false, ◌&&◌, List, [], ◌∷◌, arith}
use libsg.TcpSession.{Session, Status, Starter, Writer, Reader}
use libsg.TcpSession.Calls.{
  create, start, set_up_ok, start_throws, start_notes, mark_connected, start_returns, stop_async,
  stop_async_force, start_fails, close, write, set_timeout,
}
use libsg.TcpSession.Strand.{
  took, writer_takes, writer_leaves, writer_sent, writer_fails, writer_notes, reader_loops,
  reader_reads, reader_throws, reader_notes, close_impl, close_returns,
}
use libsg.TcpSession.System.{Rules, Step, Reach, created, later, guard}
use libsg.TcpSession.Lifecycle.{
  Lifecycle, Reach-Lifecycle, told, past_set_up, connects, disconnects, one_if,
}

-- Until the callback is owed, nothing but `start()` acts on the session.
abbrev pub Untouched : Session → Type 0
Untouched s =
    (s.closers ≡ 0)
    × (s.writer ≡ Writer.idle)
    × (s.leaving ≡ false)
    × (s.reader ≡ Reader.unspawned)
    × (s.starter ≢ Starter.not_called → s.state ≡ Status.running)

pub record Orderly (s : Session) : Type 0 where
  pub calm : past_set_up s.starter ≡ false → Untouched s
  pub begun : s.start_called ≡ true → s.starter ≢ Starter.not_called
  pub all_told :
      told s.closing ≡ true → disconnects s.events ≡ one_if (s.owed && s.callbacks.on_disconnected)

took-Orderly :
    (ms : List (List ℕ)) (s : Session) → s.writer ≡ Writer.spawned → Orderly s → Orderly (took ms s)
unfolding took
took-Orderly [] s e o = ground (arith, o)
took-Orderly (m ∷ ms) s e o = ground (arith, o)

Step-Orderly :
    {r : Rules} {s t : Session} → r.early ≡ false → Step r s t → Lifecycle s → Orderly s → Orderly t
unfolding start set_up_ok start_throws start_notes mark_connected start_returns stop_async
    stop_async_force start_fails close write set_timeout writer_takes writer_leaves writer_sent
    writer_fails writer_notes reader_loops reader_reads reader_throws reader_notes close_impl
    close_returns
Step-Orderly q (Step.takes e free) l o = took-Orderly _ _ e o
Step-Orderly q (Step.starts) l o = ground (arith, l, o)
Step-Orderly q st l o = ground (arith, l, o, guard st)

pub Reach-Orderly : {r : Rules} {s : Session} → r.early ≡ false → Reach r s → Orderly s
unfolding create
Reach-Orderly q (created o c e) = ground (arith, e)
Reach-Orderly q (later h st) = Step-Orderly q st (Reach-Lifecycle h) (Reach-Orderly q h)

-- If no other thread calls the session before `onConnected` is invoked, then once it has stopped,
-- `onDisconnected` has been invoked exactly once if `start()` got as far as `onConnected`, and
-- never otherwise; with both callbacks set, as often as `onConnected`.
pub callbacks_paired :
    {r : Rules} {s : Session}
    → r.early ≡ false
    → Reach r s
    → s.start_called ≡ true
    → s.state ≡ Status.stopped
    → (disconnects s.events ≡ one_if (s.owed && s.callbacks.on_disconnected))
      × (connects s.events ≡ one_if (s.owed && s.callbacks.on_connected))
      × (s.callbacks.on_connected ≡ s.callbacks.on_disconnected
          → connects s.events ≡ disconnects s.events)
callbacks_paired q h begun e = ground (arith, Reach-Lifecycle h, Reach-Orderly q h)
