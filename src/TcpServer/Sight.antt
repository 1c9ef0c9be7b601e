-- ===== src/TcpServer/Sight.antt =====
-- What the server sees of a `tcp_session` with its callbacks, net/src/tcp_server.cpp, `listener` and
-- `on_session_stopped`.
use libsg.Common.{ℕ, ◌≡◌, ◌&&◌, Bool, true, false, not, List, [], ◌∷◌, arith, if◌then◌else◌}
use libsg.TcpSession
use libsg.TcpSession.{Starter, Closing, Callbacks}
use libsg.TcpSession.Calls.{
  start, set_up_ok, start_throws, start_notes, stop_async, stop_async_force, close, write,
  set_timeout,
}
use libsg.TcpSession.Strand.{
  took, writer_takes, writer_leaves, writer_sent, writer_fails, writer_notes, reader_loops,
  reader_reads, reader_throws, reader_notes, close_returns,
}
use libsg.TcpSession.System.{Rules, Step, guard}
use libsg.TcpSession.Lifecycle.{Lifecycle, told, one_if}
use libsg.TcpServer.{Session, Life, count_session, release}
use libsg.TcpServer.System.{Move}

abbrev pub has_returned : Starter → Bool
has_returned Starter.returned = true
has_returned _ = false

-- What the server has seen of a session in this state: `onConn` runs when `onConnected` is due, and
-- `on_session_stopped` inside `close_impl()` if it is owed.
abbrev pub seen : Bool → TcpSession.Session → Session
seen asked s = record {
  opening = not (has_returned s.starter);
  life =
      if s.owed
      then (if told s.closing then Life.gone else Life.connected)
      else (if has_returned s.starter then Life.failed else Life.created);
  in_map = s.owed && not (told s.closing);
  asked = asked;
  announced = one_if s.owed;
  informed = one_if (s.owed && told s.closing);
}

-- What the server allows a session, one step after the other.
pub data Run (x : Session) : Session → Type 0 where
  rest : Run x x
  moves : {y : Session} → Run x y → (f : Session → Session) → Move y f → Run x (f y)
  counts : {y : Session} → Run x y → y.life ≡ Life.created → Run x (count_session y)
  releases : {y : Session} → Run x y → y.life ≡ Life.erased → Run x (release y)

-- The three parts of a session that the server can see.
pub record Alike (s t : TcpSession.Session) : Type 0 where
  pub owing : t.owed ≡ s.owed
  pub telling : told t.closing ≡ told s.closing
  pub returning : has_returned t.starter ≡ has_returned s.starter

took-Alike : (ms : List (List ℕ)) (s : TcpSession.Session) → Alike s (took ms s)
unfolding took
took-Alike [] s = ground arith
took-Alike (m ∷ ms) s = ground arith

-- a step that is neither of `start()` nor of `close_impl()`
abbrev pub is_quiet : {r : Rules} {s t : TcpSession.Session} → Step r s t → Bool
is_quiet (Step.connects e) = false
is_quiet (Step.connect_returns e) = false
is_quiet (Step.start_gives_up e) = false
is_quiet (Step.shuts e f) = false
is_quiet _ = true

pub quiet-Alike :
    {r : Rules} {s t : TcpSession.Session}
    → (st : Step r s t) → is_quiet st ≡ true
    → Lifecycle s
    → Alike s t
unfolding start set_up_ok start_throws start_notes stop_async stop_async_force close write
    set_timeout writer_takes writer_leaves writer_sent writer_fails writer_notes reader_loops
    reader_reads reader_throws reader_notes close_returns
quiet-Alike (Step.takes w free) q l = took-Alike _ _
quiet-Alike (Step.starts) q l = ground (arith, l)
quiet-Alike st q l = ground (arith, q, l, guard st)

pub same_sight : {s t : TcpSession.Session} (asked : Bool) → Alike s t → seen asked s ≡ seen asked t
same_sight asked a = grind (arith, a)
