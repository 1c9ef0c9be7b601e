-- ===== src/TcpServer/System.antt =====
-- The server among its listeners, sessions and users.
use libsg.Common.{
  ℕ, suc, ◌+◌, ◌<◌, ◌≡◌, Bool, true, false, List, [], ◌∷◌, some, get_elem?, if◌then◌else◌,
}
use libsg.TcpServer.{
  Server, Session, Life, Stopper, fresh, start, start_fails, stop_async, listeners_ended,
  disconnect_all, stop_disconnects, sessions_ended, pool_stopped, accept, listener_ends, register,
  announce, opened, open_fails, inform, erase, ask, on_session, count_up, count_down,
}

abbrev pub count : (Session → Bool) → List Session → ℕ
count p [] = 0
count p (x ∷ xs) = (if p x then 1 else 0) + count p xs

abbrev pub is_opening : Session → Bool
is_opening x = x.opening

-- A listener that is not inside the `start()` of a session.
abbrev pub HasFree : Server → Type 0
HasFree s = count is_opening s.sessions < s.acceptors_running_count

abbrev pub Has : Server → ℕ → Session → Type 0
Has s id x = get_elem? s.sessions id ≡ some x

-- `onConn` has put the session into the map, whatever has happened to it since.
abbrev pub was_connected : Life → Bool
was_connected Life.created = false
was_connected Life.counted = false
was_connected Life.failed = false
was_connected _ = true

-- What one session does, with the listener that opens it.
pub data Move (x : Session) : (Session → Session) → Type 0 where
  registers : x.life ≡ Life.counted → Move x register
  announces : x.opening ≡ true → was_connected x.life ≡ true → x.announced ≡ 0 → Move x announce
  opens : x.opening ≡ true → x.announced ≡ 1 → Move x opened
  open_breaks : x.life ≡ Life.created → Move x open_fails
  informs : x.life ≡ Life.connected → Move x inform
  erases : x.life ≡ Life.informing → Move x erase
  is_asked : x.in_map ≡ true → Move x ask

-- `fallible` says whether a `start()` may fail.
pub data Step (fallible : Bool) (s : Server) : Server → Type 0 where
  starts : (n : ℕ) → s.running ≡ false → Step fallible s (start (suc n) s)
  start_breaks : fallible ≡ true → s.running ≡ false → Step fallible s (start_fails s)
  stops : Step fallible s (stop_async s)
  listeners_end :
      s.stopper ≡ Stopper.closing
      → s.acceptors_running_count ≡ 0
      → Step fallible s (listeners_ended s)
  disconnects : s.stopper ≡ Stopper.disconnecting → Step fallible s (stop_disconnects s)
  sessions_end :
      s.stopper ≡ Stopper.waiting_sessions
      → s.active_sessions ≡ 0
      → Step fallible s (sessions_ended s)
  pool_stops : s.stopper ≡ Stopper.stopping_pool → Step fallible s (pool_stopped s)
  accepts : HasFree s → Step fallible s (accept s)
  listener_stops : HasFree s → s.stop_in_operation ≡ true → Step fallible s (listener_ends s)
  moves :
      (id : ℕ) (x : Session) (f : Session → Session)
      → Has s id x
      → Move x f
      → Step fallible s (on_session id f s)
  counts :
      (id : ℕ) (x : Session) → Has s id x → x.life ≡ Life.created → Step fallible s (count_up id s)
  releases :
      (id : ℕ) (x : Session) → Has s id x → x.life ≡ Life.erased → Step fallible s (count_down id s)
  users_disconnect : Step fallible s (disconnect_all s)

pub data Steps (fallible : Bool) (s : Server) : Server → Type 0 where
  here : Steps fallible s s
  next : {t u : Server} → Steps fallible s t → Step fallible t u → Steps fallible s u

abbrev pub Reach : Bool → Server → Type 0
Reach fallible s = Steps fallible fresh s
