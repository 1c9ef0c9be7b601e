-- ===== src/TcpClient.antt =====
-- net/src/tcp_client.cpp: `tcp_client`, which connects sessions one after the other. Its sessions are
-- those of `TcpSession`. The model has one user, and says where the user's call stands.
pub mod System
pub mod Sessions
pub mod Turns
pub mod Starting
pub mod Returns
mod Examples
use libsg.Common.{Bool, true, false, ◌&&◌, Option, none, some, List, [], ◌∷◌, if◌then◌else◌}
use libsg.TcpSession.{Session, Options, Callbacks, ErrorCode, is_running}
use libsg.TcpSession.Calls.{create, start, stop_async}

pub data Caller : Type 0 where
  idle : Caller
  joining : Caller  -- `connect()`, waiting for the previous session
  dialing : Caller  -- `connect()`, resolving and connecting the socket
  starting : Caller  -- `connect()`, in `m_session->start()`
  disconnecting : Caller  -- `disconnect()`, waiting
  destroying : Caller  -- the destructor, waiting in `disconnect()`
  gone : Caller  -- the client is destroyed; a session may live on by itself

pub record Client : Type 0 where
  pub has_context : Bool
  pub session : Option Session
  pub caller : Caller
  pub retired : List Session  -- those that `m_session` was before

-- What a call throws.
pub data Refusal : Type 0 where
  io_thread already_connected time_out system_error not_started invalid_options start_failed :
      Refusal

-- the constructors, without or with a pool
abbrev pub fresh : Bool → Client
fresh has_context = record {
  has_context = has_context;
  session = none;
  caller = Caller.idle;
  retired = [];
}

-- `running_in_pool_thread()` is an argument.
abbrev pub in_pool : Bool → Client → Bool
in_pool on_pool_thread c = c.has_context && on_pool_thread

-- up to the wait for the previous session, or to the reset of `m_session` if there is none
unfoldable pub connect : Bool → Client → Client × Option Refusal
unfolding stop_async
connect on_pool_thread c =
    if in_pool on_pool_thread c then (c, some Refusal.io_thread) else elim c.session [
      | none ↦ (record c { caller = Caller.dialing }, none)
      | some s ↦
          if is_running s.state
          then (c, some Refusal.already_connected)
          else (record c { session = some (stop_async s); caller = Caller.joining }, none)
    ]

-- `wait_until_stopped()` has returned, and `m_session.reset()`
unfoldable pub connect_joined : Session → Client → Client
connect_joined s c = record c { session = none; retired = s ∷ c.retired; caller = Caller.dialing }

abbrev pub is_timeout : ErrorCode → Bool
is_timeout ErrorCode.timed_out = true
is_timeout ErrorCode.operation_aborted = true
is_timeout (ErrorCode.other n) = false

-- `async_connect` fails. The pool was created by then.
unfoldable pub dial_fails : ErrorCode → Client → Client × Option Refusal
dial_fails ec c = (
  record c { has_context = true; caller = Caller.idle },
  some (if is_timeout ec then Refusal.time_out else Refusal.system_error),
)

-- `tcp_session::create`, which may throw, and the first part of `start()`
unfoldable pub dial_succeeds : Options → Callbacks → Client → Client × Option Refusal
unfolding create start
dial_succeeds o callbacks c = elim (create o (record callbacks { on_connected = false })) [
  | none ↦ (record c { has_context = true; caller = Caller.idle }, some Refusal.invalid_options)
  | some s ↦
      (record c { has_context = true; session = some (start s).0; caller = Caller.starting }, none)
]

unfoldable pub start_succeeded : Client → Client
start_succeeded c = record c { caller = Caller.idle }

-- the `catch` around `start()`
unfoldable pub start_threw : Session → Client → Client × Option Refusal
start_threw s c = (
  record c { session = none; retired = s ∷ c.retired; caller = Caller.idle },
  some Refusal.start_failed,
)

abbrev pub is_connected : Client → Bool
is_connected c = elim c.session [ none ↦ false | some s ↦ is_running s.state ]

-- `disconnect()` up to its wait
unfoldable pub disconnect : Bool → Client → Client × Option Refusal
unfolding stop_async
disconnect on_pool_thread c =
    if in_pool on_pool_thread c then (c, some Refusal.io_thread) else elim c.session [
      | none ↦ (c, none)
      | some s ↦ (record c { session = some (stop_async s); caller = Caller.disconnecting }, none)
    ]

unfoldable pub disconnected : Client → Client
disconnected c = record c { caller = Caller.idle }

-- The destructor waits only outside the pool's threads.
unfoldable pub destroy : Bool → Client → Client
unfolding stop_async
destroy on_pool_thread c = elim c.session [
  | none ↦ record c { caller = Caller.gone }
  | some s ↦ record c {
    session = some (stop_async s);
    caller = if in_pool on_pool_thread c then Caller.gone else Caller.destroying;
  }
]

unfoldable pub destroyed : Client → Client
destroyed c = record c { caller = Caller.gone }

pub session : Client → Option Session × Option Refusal
session c = elim c.session [ none ↦ (none, some Refusal.not_started) | some s ↦ (some s, none) ]
