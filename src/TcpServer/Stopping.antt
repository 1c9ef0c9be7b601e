-- ===== src/TcpServer/Stopping.antt =====
-- The stopping of a server whose `start()` does not fail: nobody is missed.
use libsg.Common.{ℕ, ◌≡◌, Bool, true, false, List, [], ◌∷◌, arith}
use libsg.TcpServer.{
  Server, Session, Life, Stopper, new_session, start, start_fails, stop_async, listeners_ended,
  disconnect_all, stop_disconnects, sessions_ended, pool_stopped, accept, listener_ends,
  count_session, register, announce, opened, open_fails, inform, erase, release, ask, on_session,
  count_up, count_down,
}
use libsg.TcpServer.System.{count, is_opening, Has, Move, Step, here, next, Reach}
use libsg.TcpServer.Counting.{All, All-append, All-get, All-change, All-map, count-get}
use libsg.TcpServer.Sessions.{
  Fine, Sound, moves-Sound, counts-Sound, releases-Sound, accepts-Sound, asks-Sound,
}

-- every listener has ended
abbrev pub is_late : Stopper → Bool
is_late Stopper.idle = false
is_late Stopper.closing = false
is_late _ = true

-- all sessions were asked to stop
abbrev pub has_asked : Stopper → Bool
has_asked Stopper.idle = false
has_asked Stopper.closing = false
has_asked Stopper.disconnecting = false
has_asked _ = true

abbrev pub is_done : Stopper → Bool
is_done Stopper.stopping_pool = true
is_done Stopper.finished = true
is_done _ = false

abbrev pub is_at_rest : Stopper → Bool
is_at_rest Stopper.idle = true
is_at_rest Stopper.finished = true
is_at_rest _ = false

-- The session's `stop_async()` was called, if it is connected.
abbrev pub Asked : Session → Type 0
Asked x = x.life ≡ Life.connected → x.asked ≡ true

pub record Stops (s : Server) : Type 0 where
  pub closed : is_late s.stopper ≡ true → s.acceptors_running_count ≡ 0
  pub empty : is_done s.stopper ≡ true → s.active_sessions ≡ 0
  pub rests :
      s.running ≡ false
      → (is_at_rest s.stopper ≡ true) × (s.acceptors_running_count ≡ 0) × (s.active_sessions ≡ 0)
  pub flag : s.stop_in_operation ≡ false → (s.stopper ≡ Stopper.idle) × (s.running ≡ true)

abbrev pub AllAsked : Server → Type 0
AllAsked s = has_asked s.stopper ≡ true → All Asked s.sessions

pub none_opening : (xs : List Session) → count is_opening xs ≡ 0 → All (λ x. x.opening ≡ false) xs
none_opening [] h = tt
none_opening (x ∷ xs) h = (ground (arith, h), none_opening xs (ground (arith, h)))

-- A session that is not being opened is not yet to be connected.
opening-get :
    (s : Server) (id : ℕ) (x : Session)
    → Sound s
    → Stops s
    → has_asked s.stopper ≡ true
    → Has s id x
    → (x.opening ≡ false) × Fine x
opening-get s id x a b h g =
    let none_left : count is_opening s.sessions ≡ 0 = ground (arith, a, b, h) in
    (
      All-get (λ x. x.opening ≡ false) id x s.sessions g (none_opening s.sessions none_left),
      All-get Fine id x s.sessions g a.fine,
    )

Move-Asked :
    {x : Session} {f : Session → Session}
    → Move x f
    → x.opening ≡ false
    → Fine x
    → Asked x
    → Asked (f x)
unfolding register announce opened open_fails inform erase
Move-Asked (Move.registers e) o g a = ground (arith, e, o, g)
Move-Asked (Move.announces e f g) o h a = ground (arith, a)
Move-Asked (Move.opens e f) o h a = ground (arith, a)
Move-Asked (Move.open_breaks e) o h a = ground (arith, a)
Move-Asked (Move.informs e) o h a = ground (arith, a)
Move-Asked (Move.erases e) o h a = ground (arith, a)
Move-Asked (Move.is_asked e) o h a = ground (arith, a)

moves-AllAsked :
    (s : Server) (id : ℕ) (x : Session) (f : Session → Session)
    → Sound s
    → Stops s
    → Has s id x
    → Move x f
    → AllAsked s
    → AllAsked (on_session id f s)
unfolding on_session
moves-AllAsked s id x f a b g m k h =
    let (o, fine) = opening-get s id x a b h g in
    All-change Asked f id x s.sessions g
      (Move-Asked m o fine (All-get Asked id x s.sessions g (k h))) (k h)

ask-Asked : (x : Session) → Fine x → Asked (ask x)
ask-Asked x a = ground (arith, a)

ask-keeps : (x : Session) → Asked x → Asked (ask x)
ask-keeps x a = ground (arith, a)

pub record Safe (s : Server) : Type 0 where
  pub sound : Sound s
  pub stops : Stops s
  pub asked : AllAsked s

Step-Stops : {s t : Server} → Step false s t → Sound s → Stops s → Stops t
unfolding start stop_async listeners_ended disconnect_all stop_disconnects sessions_ended
    pool_stopped accept listener_ends on_session count_up count_down
Step-Stops (Step.starts n e) a b = ground (arith, b, e)
Step-Stops (Step.start_breaks e f) a b = ground (arith, e)
Step-Stops Step.stops a b = ground (arith, b)
Step-Stops (Step.listeners_end e f) a b = ground (arith, b, e, f)
Step-Stops (Step.disconnects e) a b = ground (arith, b, e)
Step-Stops (Step.sessions_end e f) a b = ground (arith, b, e, f)
Step-Stops (Step.pool_stops e) a b = ground (arith, b, e)
Step-Stops (Step.accepts h) a b = ground (arith, b, h)
Step-Stops (Step.listener_stops h e) a b = ground (arith, b, e)
Step-Stops (Step.moves id x f h m) a b = ground (arith, b)
Step-Stops {s} (Step.counts id x h e) a b =
    let fine = All-get Fine id x s.sessions h a.fine in
    let opens : x.opening ≡ true = ground (arith, fine, e) in
    ground (arith, a, b, opens, count-get is_opening id x s.sessions h)
Step-Stops (Step.releases id x h e) a b = ground (arith, b)
Step-Stops Step.users_disconnect a b = ground (arith, b)

Step-Sound : {s t : Server} → Step false s t → Stops s → Sound s → Sound t
unfolding start stop_async listeners_ended stop_disconnects sessions_ended pool_stopped
    listener_ends
Step-Sound (Step.starts n e) b a = ground (arith, b, e)
Step-Sound (Step.start_breaks e f) b a = ground (arith, e)
Step-Sound Step.stops b a = ground (arith, a)
Step-Sound (Step.listeners_end e f) b a = ground (arith, a)
Step-Sound {s} (Step.disconnects e) b a = ground (arith, asks-Sound s a)
Step-Sound (Step.sessions_end e f) b a = ground (arith, a)
Step-Sound (Step.pool_stops e) b a = ground (arith, a)
Step-Sound {s} (Step.accepts h) b a = accepts-Sound s h a
Step-Sound (Step.listener_stops h e) b a = ground (arith, a, h)
Step-Sound {s} (Step.moves id x f h m) b a = moves-Sound id x f s h m a
Step-Sound {s} (Step.counts id x h e) b a = counts-Sound id x s h e a
Step-Sound {s} (Step.releases id x h e) b a = releases-Sound id x s h e a
Step-Sound {s} Step.users_disconnect b a = asks-Sound s a

Step-AllAsked : {s t : Server} → Step false s t → Sound s → Stops s → AllAsked s → AllAsked t
unfolding start stop_async listeners_ended disconnect_all stop_disconnects sessions_ended
    pool_stopped accept listener_ends on_session count_up count_down count_session release
    start_fails
Step-AllAsked (Step.starts n e) a b k h = tt
Step-AllAsked (Step.start_breaks e f) a b k h = tt
Step-AllAsked {s} Step.stops a b k h = ground (arith, k, h, b)
Step-AllAsked (Step.listeners_end e f) a b k h = ground (arith, h)
Step-AllAsked {s} (Step.disconnects e) a b k h = All-map Fine Asked ask s.sessions ask-Asked a.fine
Step-AllAsked (Step.sessions_end e f) a b k h = ground (arith, k, e)
Step-AllAsked (Step.pool_stops e) a b k h = ground (arith, k, e)
Step-AllAsked {s} (Step.accepts g) a b k h =
    All-append Asked s.sessions (new_session ∷ []) (k h) (ground arith, tt)
Step-AllAsked (Step.listener_stops g e) a b k h = k h
Step-AllAsked {s} (Step.moves id x f g m) a b k h = moves-AllAsked s id x f a b g m k h
Step-AllAsked {s} (Step.counts id x g e) a b k h =
    All-change Asked count_session id x s.sessions g (ground arith) (k h)
Step-AllAsked {s} (Step.releases id x g e) a b k h =
    All-change Asked release id x s.sessions g (ground arith) (k h)
Step-AllAsked {s} Step.users_disconnect a b k h = All-map Asked Asked ask s.sessions ask-keeps (k h)

pub Reach-Safe : {s : Server} → Reach false s → Safe s
Reach-Safe here = ground arith
Reach-Safe (next h st) =
    let a = Reach-Safe h in
    record {
      sound = Step-Sound st a.stops a.sound;
      stops = Step-Stops st a.sound a.stops;
      asked = Step-AllAsked st a.sound a.stops a.asked;
    }
