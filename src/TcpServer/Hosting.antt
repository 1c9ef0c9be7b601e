-- ===== src/TcpServer/Hosting.antt =====
-- What the server allows a session, against what a `tcp_session` with the server's callbacks does.
use libsg.Common.{◌≡◌, ◌&&◌, Bool, true, false, not, arith, refl, subst, sym, Bool-cases, inl, inr}
use libsg.TcpSession
use libsg.TcpSession.{Starter, Closing, Callbacks}
use libsg.TcpSession.Calls.{create, mark_connected, start_returns, stop_async, start_fails}
use libsg.TcpSession.Strand.{close_impl}
use libsg.TcpSession.System.{Rules, Step, Reach, created, later}
use libsg.TcpSession.Lifecycle.{Lifecycle, Reach-Lifecycle, told, one_if, connects, disconnects}
use libsg.TcpSession.Orderly.{Orderly, Reach-Orderly}
use libsg.TcpServer.{
  Session, Life, new_session, count_session, register, announce, opened, open_fails, inform, erase,
  release,
}
use libsg.TcpServer.System.{Move}
use libsg.TcpServer.Sight.{has_returned, seen, Run, quiet-Alike, same_sight}

Run-along : {x x' y y' : Session} → x ≡ x' → y ≡ y' → Run x' y' → Run x y
Run-along {x'} {y} e f p = subst (λ z. Run z y) (sym e) (subst (λ z. Run x' z) (sym f) p)

same-Run : {x y : Session} → x ≡ y → Run x y
same-Run {x} e = subst (λ z. Run x z) e Run.rest

-- Before `onConnected`; in the map; after `on_session_stopped`.
abbrev waiting : Bool → Session
waiting asked = record new_session { asked = asked }

abbrev hosted : Bool → Bool → Session
hosted opening asked = record {
  opening = opening;
  life = Life.connected;
  in_map = true;
  asked = asked;
  announced = 1;
  informed = 0;
}

abbrev left : Bool → Bool → Session
left opening asked = record (hosted opening asked) {
  life = Life.gone;
  in_map = false;
  informed = 1;
}

abbrev broken : Bool → Session
broken asked = record (waiting asked) { opening = false; life = Life.failed }

join_in-Run : (asked : Bool) → Run (waiting asked) (hosted true asked)
unfolding count_session register announce
join_in-Run asked =
    let counted = Run.counts Run.rest refl in
    let registered = Run.moves counted register (Move.registers refl) in
    Run.moves registered announce (Move.announces refl refl refl)

leave-Run : (opening asked : Bool) → Run (hosted opening asked) (left opening asked)
unfolding inform erase release
leave-Run opening asked =
    let informed = Run.moves Run.rest inform (Move.informs refl) in
    Run.releases (Run.moves informed erase (Move.erases refl)) refl

-- `onConnected` is invoked.
connects-Run :
    {s : TcpSession.Session} (asked : Bool)
    → s.starter ≡ Starter.set_up
    → Lifecycle s
    → Orderly s
    → Run (seen asked s) (seen asked (mark_connected s))
unfolding mark_connected
connects-Run asked e l o =
    Run-along (grind (arith, e, l, o)) (grind (arith, e, l, o)) (join_in-Run asked)

-- `start()` returns, or throws after `onConnected`.
opens-Run :
    (s t : TcpSession.Session) (asked : Bool)
    → s.owed ≡ true
    → t.owed ≡ true
    → told t.closing ≡ told s.closing
    → has_returned s.starter ≡ false
    → has_returned t.starter ≡ true
    → Run (seen asked s) (seen asked t)
unfolding opened
opens-Run s t asked o p c a b =
    Run-along refl (grind (arith, o, p, c, a, b))
      (Run.moves Run.rest opened (Move.opens (grind (arith, o, a)) (grind (arith, o))))

returns-Run :
    (s : TcpSession.Session) (asked : Bool)
    → s.starter ≡ Starter.connecting
    → s.owed ≡ true
    → Run (seen asked s) (seen asked (start_returns s))
unfolding start_returns
returns-Run s asked e o =
    opens-Run s (start_returns s) asked o (ground arith) (ground arith) (ground arith)
      (ground arith)

-- `start()` throws before `onConnected`.
breaks-Run :
    (s t : TcpSession.Session) (asked : Bool)
    → s.owed ≡ false
    → t.owed ≡ false
    → has_returned s.starter ≡ false
    → has_returned t.starter ≡ true
    → Run (seen asked s) (seen asked t)
unfolding open_fails
breaks-Run s t asked o p a b =
    Run-along (grind (arith, o, a)) (grind (arith, p, b))
      (Run.moves {y = waiting asked} Run.rest open_fails (Move.open_breaks refl))

gives_up-Run :
    (s : TcpSession.Session) (asked : Bool)
    → s.starter ≡ Starter.failing
    → Run (seen asked s) (seen asked (start_fails s))
unfolding start_fails stop_async
gives_up-Run s asked e = elim (Bool-cases s.owed) [
  | inl o ↦
      opens-Run s (start_fails s) asked o (ground arith) (ground arith) (ground arith)
        (ground arith)
  | inr o ↦ breaks-Run s (start_fails s) asked o (ground arith) (ground arith) (ground arith)
]

-- `on_session_stopped` runs if it is owed.
shuts-Run :
    (s : TcpSession.Session) (asked : Bool)
    → s.closing ≡ Closing.posted
    → Run (seen asked s) (seen asked (close_impl s))
unfolding close_impl
shuts-Run s asked e = elim (Bool-cases s.owed) [
  | inl o ↦
      Run-along (grind (arith, o, e)) (grind (arith, o))
        (leave-Run (not (has_returned s.starter)) asked)
  | inr o ↦ same-Run (grind (arith, o))
]

Run-trans : {x y z : Session} → Run x y → Run y z → Run x z
Run-trans p Run.rest = p
Run-trans p (Run.moves q f m) = Run.moves (Run-trans p q) f m
Run-trans p (Run.counts q e) = Run.counts (Run-trans p q) e
Run-trans p (Run.releases q e) = Run.releases (Run-trans p q) e

-- One step of a session that nobody calls before `onConnected`.
Step-Run :
    {r : Rules} {s t : TcpSession.Session}
    → r.early ≡ false
    → Reach r s
    → Step r s t
    → (asked : Bool) → Run (seen asked s) (seen asked t)
Step-Run q h (Step.connects e) asked = connects-Run asked e (Reach-Lifecycle h) (Reach-Orderly q h)
Step-Run {s} q h (Step.connect_returns e) asked =
    returns-Run s asked e ((Reach-Lifecycle h).connecting e)
Step-Run {s} q h (Step.start_gives_up e) asked = gives_up-Run s asked e
Step-Run {s} q h (Step.shuts e f) asked = shuts-Run s asked e
Step-Run q h st asked = same-Run (same_sight asked (quiet-Alike st refl (Reach-Lifecycle h)))

-- The callbacks that the server gives to a session.
abbrev pub server_callbacks : Callbacks
server_callbacks = record { on_connected = true; on_disconnected = true; on_data_available = true }

connects-announced :
    {s : TcpSession.Session}
    → Lifecycle s
    → s.callbacks ≡ server_callbacks
    → connects s.events ≡ one_if s.owed
connects-announced l c = grind (arith, l, c)

disconnects-informed :
    {s : TcpSession.Session}
    → Lifecycle s
    → Orderly s
    → s.callbacks ≡ server_callbacks
    → disconnects s.events ≡ one_if (s.owed && told s.closing)
disconnects-informed {s} l o c = elim (Bool-cases (told s.closing)) [
  | inl e ↦ grind (arith, o, c, e)
  | inr e ↦ grind (arith, l, e)
]

Reach-Run :
    {r : Rules} {s : TcpSession.Session}
    → r.early ≡ false
    → Reach r s
    → (asked : Bool) → Run (record new_session { asked = asked }) (seen asked s)
unfolding create
Reach-Run q (created o c e) asked = same-Run (grind (arith, e))
Reach-Run q (later h st) asked = Run-trans (Reach-Run q h asked) (Step-Run q h st asked)

-- Take a session with the server's callbacks that nobody calls before `onConnected`, in any state
-- that it can reach. What the server has seen of it comes from a new session by steps that the
-- server allows a session; the session has invoked `onConnected` as often as the server has called
-- OnSessionCreated for it, and `onDisconnected` as often as OnDisconnected.
pub session_allowed :
    {r : Rules} {s : TcpSession.Session}
    → r.early ≡ false
    → Reach r s
    → s.callbacks ≡ server_callbacks
    → (asked : Bool)
    → Run (record new_session { asked = asked }) (seen asked s)
      × (connects s.events ≡ (seen asked s).announced)
      × (disconnects s.events ≡ (seen asked s).informed)
session_allowed q h c asked =
    let l = Reach-Lifecycle h in
    (Reach-Run q h asked, connects-announced l c, disconnects-informed l (Reach-Orderly q h) c)
