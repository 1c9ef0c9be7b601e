-- ===== src/TcpServer.antt =====
-- net/src/tcp_server.cpp and net/include/sg/net/tcp_server.h: `sg::net::tcp_server`, its start and
-- stop, and what it knows of its sessions. The loop of a listener has a module of its own,
-- `Listener`; here a listener is counted, and holds the session whose `start()` it calls.
pub mod System
pub mod Counting
pub mod Sessions
pub mod Stopping
pub mod Stopped
pub mod Restart
pub mod Sight
pub mod Hosting
mod Examples
use libsg.Common.{
  ℕ, zero, suc, ◌+◌, ◌-◌, Bool, true, false, List, [], ◌∷◌, ◌++◌, map, if◌then◌else◌, ◌||◌,
}

-- What the server has seen of a session.
pub data Life : Type 0 where
  created : Life
  counted : Life  -- in `onConn`, after `m_active_sessions.fetch_add`
  connected : Life  -- after `m_sessions.emplace`
  informing : Life  -- in the user's OnDisconnected
  erased : Life  -- before the release of `release_session`
  gone : Life
  failed : Life  -- `start()` has thrown before `onConn`

pub record Session : Type 0 where
  pub opening : Bool  -- its `start()` has not yet returned to the listener
  pub life : Life
  pub in_map : Bool  -- `m_sessions` has it
  pub asked : Bool  -- its `stop_async()` was called
  pub announced : ℕ  -- calls of OnSessionCreated
  pub informed : ℕ  -- calls of OnDisconnected

-- Where the thread of `stop_async()` stands.
pub data Stopper : Type 0 where
  idle closing disconnecting waiting_sessions stopping_pool finished : Stopper

pub record Server : Type 0 where
  pub running : Bool
  pub stop_in_operation : Bool
  pub acceptors_running_count : ℕ
  pub sessions : List Session  -- all sessions of this run, by their id
  pub active_sessions : ℕ
  pub stopper : Stopper

-- the constructor
abbrev pub fresh : Server
fresh = record {
  running = false;
  stop_in_operation = true;
  acceptors_running_count = 0;
  sessions = [];
  active_sessions = 0;
  stopper = Stopper.idle;
}

abbrev pub new_session : Session
new_session = record {
  opening = true;
  life = Life.created;
  in_map = false;
  asked = false;
  announced = 0;
  informed = 0;
}

-- A thread that has ended is as good as none.
abbrev pub forget : Stopper → Stopper
forget Stopper.finished = Stopper.idle
forget t = t

-- `start` with so many endpoints, past the exchange of `m_running`
unfoldable pub start : ℕ → Server → Server
start endpoints s = record s {
  running = true;
  stop_in_operation = false;
  sessions = [];
  acceptors_running_count = endpoints;
  stopper = forget s.stopper;
}

-- `start` that throws, in or before `m_context->run()`
unfoldable pub start_fails : Server → Server
start_fails s = record s {
  running = false;
  stop_in_operation = false;
  sessions = [];
  acceptors_running_count = 0;
  stopper = forget s.stopper;
}

unfoldable pub stop_async : Server → Server
stop_async s =
    if s.stop_in_operation
    then s
    else record s { stop_in_operation = true; stopper = Stopper.closing }

-- The acceptors are closed and every listener has ended.
unfoldable pub listeners_ended : Server → Server
listeners_ended s = record s { stopper = Stopper.disconnecting }

abbrev pub ask : Session → Session
ask x = record x { asked = x.asked || x.in_map }

unfoldable pub disconnect_all : Server → Server
disconnect_all s = record s { sessions = map ask s.sessions }

unfoldable pub stop_disconnects : Server → Server
unfolding disconnect_all
stop_disconnects s = record (disconnect_all s) { stopper = Stopper.waiting_sessions }

unfoldable pub sessions_ended : Server → Server
sessions_ended s = record s { stopper = Stopper.stopping_pool }

unfoldable pub pool_stopped : Server → Server
pool_stopped s = record s { stopper = Stopper.finished; running = false }

-- A listener accepts a connection that the filter passes: `m_last_id++` and `tcp_session::create`.
unfoldable pub accept : Server → Server
accept s = record s { sessions = s.sessions ++ (new_session ∷ []) }

-- the end of `listener`
unfoldable pub listener_ends : Server → Server
listener_ends s = record s { acceptors_running_count = s.acceptors_running_count - 1 }

-- `onConn`, in three steps
unfoldable pub count_session : Session → Session
count_session x = record x { life = Life.counted }

unfoldable pub register : Session → Session
register x = record x { life = Life.connected; in_map = true }

unfoldable pub announce : Session → Session
announce x = record x { announced = suc x.announced }

-- `sess->start()` returns, or throws after `onConn`
unfoldable pub opened : Session → Session
opened x = record x { opening = false }

-- `sess->start()` throws before `onConn`
unfoldable pub open_fails : Session → Session
open_fails x = record x { opening = false; life = Life.failed }

-- `on_session_stopped`, in three steps: the user's callback, the erasure, the release
unfoldable pub inform : Session → Session
inform x = record x { life = Life.informing; informed = suc x.informed }

unfoldable pub erase : Session → Session
erase x = record x { life = Life.erased; in_map = false }

unfoldable pub release : Session → Session
release x = record x { life = Life.gone }

-- the session with an id
unfoldable pub change : ℕ → (Session → Session) → List Session → List Session
change id f [] = []
change zero f (x ∷ xs) = f x ∷ xs
change (suc id) f (x ∷ xs) = x ∷ change id f xs

unfoldable pub on_session : ℕ → (Session → Session) → Server → Server
unfolding change
on_session id f s = record s { sessions = change id f s.sessions }

-- the two steps that touch `m_active_sessions`
unfoldable pub count_up : ℕ → Server → Server
unfolding on_session count_session
count_up id s = record (on_session id count_session s) { active_sessions = suc s.active_sessions }

unfoldable pub count_down : ℕ → Server → Server
unfolding on_session release
count_down id s = record (on_session id release s) { active_sessions = s.active_sessions - 1 }
