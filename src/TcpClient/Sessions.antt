-- ===== src/TcpClient/Sessions.antt =====
-- What the client knows of its sessions.
use libsg.Common.{some, ℕ, ◌≡◌, ◌≢◌, ◌≤◌, ◌&&◌, true, false, List, [], ◌∷◌, arith, refl}
use libsg.TcpSession.{Session, Status, Starter, Reader, is_running, Callbacks, Options}
use libsg.TcpSession.Calls.{
  create, start, set_up_ok, start_throws, start_notes, mark_connected, start_returns, stop_async,
  stop_async_force, start_fails, close, write, set_timeout,
}
use libsg.TcpSession.Strand.{
  took, writer_takes, writer_leaves, writer_sent, writer_fails, writer_notes, reader_loops,
  reader_reads, reader_throws, reader_notes, close_impl, close_returns,
}
use libsg.TcpSession.System.{Rules, Step, here, next, Reach, created, later, guard}
use libsg.TcpSession.Lifecycle.{Lifecycle, Reach-Lifecycle, disconnects, one_if}
use libsg.TcpSession.Orderly.{callbacks_paired}
use libsg.TcpSession.Onward.{rank, state_moves_on}
use libsg.TcpClient.System.{rules}

pub record Known (s : Session) : Type 0 where
  pub owing : s.reader ≢ Reader.unspawned → s.owed ≡ true
  pub connecting : s.starter ≡ Starter.connecting → s.owed ≡ true
  pub left : s.start_called ≡ true → s.starter ≢ Starter.not_called

took-Known : (ms : List (List ℕ)) (s : Session) → Known s → Known (took ms s)
unfolding took
took-Known [] s k = ground (arith, k)
took-Known (m ∷ ms) s k = ground (arith, k)

Step-Known : {r : Rules} {s t : Session} → Step r s t → Lifecycle s → Known s → Known t
unfolding start set_up_ok start_throws start_notes mark_connected start_returns stop_async
    stop_async_force start_fails close write set_timeout writer_takes writer_leaves writer_sent
    writer_fails writer_notes reader_loops reader_reads reader_throws reader_notes close_impl
    close_returns
Step-Known (Step.takes w free) l k = took-Known _ _ k
Step-Known (Step.starts) l k = ground (arith, l, k)
Step-Known st l k = ground (arith, l, k, guard st)

pub Reach-Known : {r : Rules} {s : Session} → Reach r s → Known s
unfolding create
Reach-Known (created o c e) = ground (arith, e)
Reach-Known (later h st) = Step-Known st (Reach-Lifecycle h) (Reach-Known h)

took-owed : (ms : List (List ℕ)) (s : Session) → s.owed ≡ true → (took ms s).owed ≡ true
unfolding took
took-owed [] s e = e
took-owed (m ∷ ms) s e = e

Step-owed : {r : Rules} {s t : Session} → Step r s t → s.owed ≡ true → t.owed ≡ true
unfolding start set_up_ok start_throws start_notes mark_connected start_returns stop_async
    stop_async_force start_fails close write set_timeout writer_takes writer_leaves writer_sent
    writer_fails writer_notes reader_loops reader_reads reader_throws reader_notes close_impl
    close_returns
Step-owed (Step.takes w free) e = took-owed _ _ e
Step-owed st e = ground (arith, e, guard st)

-- a session that `start()` was called on
pub record IsBegun (s : Session) : Type 0 where
  pub reach : Reach rules s
  pub begun : s.start_called ≡ true

-- and that `onConnected` was due for
pub record IsExposed (s : Session) : Type 0 where
  pub known : IsBegun s
  pub owing : s.owed ≡ true

pub record IsOver (s : Session) : Type 0 where
  pub exposed : IsExposed s
  pub halted : is_running s.state ≡ false

-- The session has stopped, and `onDisconnected` was invoked once if the session had been connected.
pub record IsRetired (s : Session) : Type 0 where
  pub known : IsBegun s
  pub ended : s.state ≡ Status.stopped

pub Step-IsBegun : {s t : Session} → Step rules s t → IsBegun s → IsBegun t
Step-IsBegun st k = record {
  reach = later k.reach st;
  begun = (state_moves_on k.reach k.begun (next here st)).1;
}

pub Step-IsExposed : {s t : Session} → Step rules s t → IsExposed s → IsExposed t
Step-IsExposed st k = record { known = Step-IsBegun st k.known; owing = Step-owed st k.owing }

rank-halted : (x y : Status) → rank x ≤ rank y → is_running x ≡ false → is_running y ≡ false
rank-halted x y h e = ground (arith, h, e)

pub Step-IsOver : {s t : Session} → Step rules s t → IsOver s → IsOver t
Step-IsOver {s} {t} st k = record {
  exposed = Step-IsExposed st k.exposed;
  halted =
      rank-halted s.state t.state
        (state_moves_on k.exposed.known.reach k.exposed.known.begun (next here st)).0 k.halted;
}

stop_async-halts : (s : Session) → is_running (stop_async s).state ≡ false
unfolding stop_async
stop_async-halts s = ground arith

-- The client's own call.
pub stop_async-IsOver : (s : Session) → IsExposed s → IsOver (stop_async s)
stop_async-IsOver s k = record {
  exposed = Step-IsExposed (Step.stops (ground (arith, k.owing))) k;
  halted = stop_async-halts s;
}

pub spawned-IsExposed : (s : Session) → s.reader ≢ Reader.unspawned → IsBegun s → IsExposed s
spawned-IsExposed s n k = record { known = k; owing = (Reach-Known k.reach).owing n }

start-begins : (s : Session) → s.start_called ≡ false → (start s).0.start_called ≡ true
unfolding start
start-begins s e = ground (arith, e)

create-fresh :
    (o : Options) (c : Callbacks) {s : Session} → create o c ≡ some s → s.start_called ≡ false
unfolding create
create-fresh o c e = ground (arith, e)

pub created-IsBegun :
    (o : Options) (c : Callbacks) {s : Session} → create o c ≡ some s → IsBegun (start s).0
created-IsBegun o c {s} e = record {
  reach = later (created o c e) Step.starts;
  begun = start-begins s (create-fresh o c e);
}

pub IsRetired-told :
    (s : Session)
    → IsRetired s
    → disconnects s.events ≡ one_if (s.owed && s.callbacks.on_disconnected)
IsRetired-told s k = (callbacks_paired refl k.known.reach k.known.begun k.ended).0
