-- ===== src/TcpSession.antt =====
-- net/include/sg/net/tcp_session.h: the state of a `tcp_session`, and where each of the code's
-- threads and coroutines stands in it.
pub mod Calls
pub mod Strand
pub mod System
pub mod Writers
pub mod Lifecycle
pub mod Orderly
pub mod Onward
pub mod Bytes
pub mod Writing
pub mod Drain
pub mod Shutdown
pub mod Calm
pub mod Races
mod Examples
use libsg.Common.{
  ℕ, zero, ◌+◌, ◌-◌, suc, Bool, true, false, Option, none, some, List, [], add64, if◌then◌else◌,
}

-- `state_t`
pub data Status : Type 0 where
  running stop_requested stopping stopped : Status

-- `boost::system::error_code`, as far as `writer` tells the codes apart
pub data ErrorCode : Type 0 where
  timed_out operation_aborted : ErrorCode
  other : ℕ → ErrorCode

-- What an `exception_ptr` holds: the library's `time_out`, a `system_error`, or anything that the
-- socket or a callback of the user throws.
pub data Failure : Type 0 where
  time_out : Failure
  system_error : ErrorCode → Failure
  thrown : ℕ → Failure

-- `options_t`, without the socket's own options
pub record Options : Type 0 where
  pub dont_read : Bool
  pub timeout_msec : ℕ
  pub write_high_water_mark : ℕ

-- `Callbacks`: which of them are set
pub record Callbacks : Type 0 where
  pub on_connected : Bool
  pub on_disconnected : Bool
  pub on_data_available : Bool

-- The callbacks that were invoked.
pub data Event : Type 0 where
  connected : Event
  disconnected : Option Failure → Event
  data_available : List ℕ → Event

-- The thread inside `start()`.
pub data Starter : Type 0 where
  not_called : Starter
  setting_up : Starter  -- inside the `try`, before the socket's options are set
  set_up : Starter  -- the socket is ready, `m_disconnection_callback_owed` is not yet set
  connecting : Starter  -- `onConnected` has been invoked
  noting : Failure → Starter  -- in the `catch`, having found the session running
  failing : Starter  -- in the `catch`, before `stop_async()`
  returned : Starter

-- The coroutine `writer()` that `m_write_scheduled` stands for.
pub data Writer : Type 0 where
  idle : Writer
  spawned : Writer  -- at the head of the loop
  writing : ℕ → List (List ℕ) → Writer  -- in `async_write`, with its timeout and its batch
  noting : Failure → Writer  -- in the `catch`, having found the session running

-- The coroutine `reader()`.
pub data Reader : Type 0 where
  unspawned : Reader
  entered : Reader
  reading : Reader
  noting : Failure → Reader  -- in the `catch`, having found the session running
  finished : Reader

-- `close_impl()` on the strand.
pub data Closing : Type 0 where
  not_closing : Closing
  posted : Closing
  notified : Closing  -- the socket is closed and `onDisconnected` has returned
  closed : Closing

pub record Session : Type 0 where
  pub options : Options
  pub callbacks : Callbacks
  pub state : Status
  pub start_called : Bool
  pub owed : Bool  -- m_disconnection_callback_owed
  pub write_scheduled : Bool
  pub write_msgs : List (List ℕ)
  pub queued_bytes : ℕ
  pub writing_bytes : ℕ
  pub exception : Option Failure
  pub socket_open : Bool
  -- where the code stands
  pub starter : Starter
  pub writer : Writer
  pub leaving : Bool  -- a writer that found no message, before it loads `m_state`
  pub reader : Reader
  pub closers : ℕ  -- calls of `close()` before their compare-exchange
  pub closing : Closing
  -- what an observer sees: callbacks (newest first), bytes that `write` took and the socket took,
  -- and the bytes of a batch whose write failed that the socket did not take
  pub events : List Event
  pub accepted : List ℕ
  pub sent : List ℕ
  pub dropped : List ℕ

abbrev pub is_running : Status → Bool
is_running running = true
is_running _ = false

-- The states from which `close()` goes on.
abbrev pub can_close : Status → Bool
can_close running = true
can_close stop_requested = true
can_close _ = false

-- `if (!m_exception) m_exception = …`
abbrev pub keep_first : Option Failure → Failure → Option Failure
keep_first none f = some f
keep_first (some g) f = some g

-- The store of a `catch` block, under `m_exception_mutex`. The load of `m_state` that comes first, and
-- lets only a running session get here, is a step of its own.
unfoldable pub note_failure : Failure → Session → Session
note_failure f s = record s { exception = keep_first s.exception f }

unfoldable pub pending_bytes : Session → ℕ
pending_bytes s = add64 s.queued_bytes s.writing_bytes
