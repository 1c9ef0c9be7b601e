-- ===== src/TcpServer/Stopped.antt =====
-- What the thread of `stop_async()` waits for, and what it leaves behind.
use libsg.Common.{◌≡◌, ◌⊎◌, true, false, List, [], ◌∷◌, arith, if◌then◌else◌}
use libsg.TcpServer.{Server, Session, Life}
use libsg.TcpServer.System.{count, is_opening, was_connected, Reach}
use libsg.TcpServer.Counting.{All}
use libsg.TcpServer.Sessions.{Fine, in_flight}
use libsg.TcpServer.Stopping.{has_asked, is_done, Asked, none_opening, Reach-Safe}

-- In every reachable state of a server whose `start()` does not fail: from the moment that the
-- thread of `stop_async()` waits for the sessions, no listener runs, no session is being opened, and
-- every session that is connected was asked to stop; what the thread waits for is the number of
-- sessions between the increment of `m_active_sessions` and its decrement.
pub stop_misses_nobody :
    (s : Server)
    → Reach false s
    → has_asked s.stopper ≡ true
    → (s.acceptors_running_count ≡ 0)
      × All (λ x. x.opening ≡ false) s.sessions
      × All Asked s.sessions
      × (s.active_sessions ≡ count in_flight s.sessions)
stop_misses_nobody s h e =
    let a = Reach-Safe h in
    let shut : s.acceptors_running_count ≡ 0 = ground (arith, a.stops, e) in
    (shut, none_opening s.sessions (ground (arith, a.sound, shut)), a.asked e, a.sound.active)

-- The server has nothing more to do with the session: it failed before it was connected, or both
-- callbacks have been called once.
pub record Over (x : Session) : Type 0 where
  pub ended : (x.life ≡ Life.gone) ⊎ (x.life ≡ Life.failed)
  pub forgotten : x.in_map ≡ false
  pub returned : x.opening ≡ false
  pub paired : x.announced ≡ x.informed
  pub called : x.informed ≡ (if was_connected x.life then 1 else 0)

All-Over :
    (xs : List Session)
    → All Fine xs
    → count is_opening xs ≡ 0
    → count in_flight xs ≡ 0
    → All Over xs
All-Over [] f o c = tt
All-Over (x ∷ xs) f o c =
    (ground (arith, f.0, o, c), All-Over xs f.1 (ground (arith, o)) (ground (arith, c)))

-- In every reachable state of a server whose `start()` does not fail: when the thread of
-- `stop_async()` has seen the last session end, no listener runs, no session is in flight, and for
-- every session of this run `start()` has returned, the map has forgotten it, and OnSessionCreated
-- and OnDisconnected have both been called once, or neither if it failed to start.
pub stopped_server_is_empty :
    (s : Server)
    → Reach false s
    → is_done s.stopper ≡ true
    → (s.acceptors_running_count ≡ 0) × (s.active_sessions ≡ 0) × All Over s.sessions
stopped_server_is_empty s h e =
    let a = Reach-Safe h in
    let shut : s.acceptors_running_count ≡ 0 = ground (arith, a.stops, e) in
    let none_left : s.active_sessions ≡ 0 = ground (arith, a.stops, e) in
    (
      shut,
      none_left,
      All-Over s.sessions a.sound.fine (ground (arith, a.sound, shut))
          (ground (arith, a.sound, none_left)),
    )
