-- ===== src/TcpClientSync.antt =====
-- net/src/tcp_client_sync.cpp: `sg::net::tcp_client_sync`, a blocking client that keeps the bytes
-- that it has read and not yet returned. What Boost.Asio does in an operation is an argument.
pub mod Contract
pub mod Stream
pub mod Errors
mod Examples
use libsg.Common.{
  ℕ, ◌+◌, Bool, true, false, Option, none, some, List, [], ◌∷◌, ◌++◌, length, take, drop, ltb,
  if◌then◌else◌,
}

pub data ErrorCode : Type 0 where
  timed_out operation_aborted : ErrorCode
  other : ℕ → ErrorCode

-- What an asynchronous operation has come to when `run_with_timeout` returns: the bytes that it took
-- from the socket, its error code, and its count.
pub record Answer : Type 0 where
  pub arrived : List ℕ
  pub ec : Option ErrorCode
  pub n : ℕ

pub record Client : Type 0 where
  pub is_open : Bool  -- of the socket
  pub read_buffer : List ℕ
  pub received : List ℕ  -- all bytes taken from the socket since `connect`
  pub returned : List ℕ  -- all bytes given to the caller since `connect`

pub data Result : Type 0 where
  bytes : List ℕ → Result
  done : Result
  not_connected already_connected time_out : Result
  failed : Result

abbrev pub is_timeout : ErrorCode → Bool
is_timeout ErrorCode.timed_out = true
is_timeout ErrorCode.operation_aborted = true
is_timeout (ErrorCode.other n) = false

-- the constructor
abbrev pub fresh : Client
fresh = record { is_open = false; read_buffer = []; received = []; returned = [] }

abbrev pub throw_net_error : ErrorCode → Result
throw_net_error ec = if is_timeout ec then Result.time_out else Result.failed

unfoldable pub disconnect : Client → Client
disconnect c = record c { is_open = false }

-- for an error code; without one the caller goes on
unfoldable pub throw_on_read_error : ErrorCode → Client → Client × Result
unfolding disconnect
throw_on_read_error ec c = (if is_timeout ec then c else disconnect c, throw_net_error ec)

-- What an operation leaves in `m_read_buffer`: two read straight into it, and `read_some` appends the
-- bytes of its temporary buffer.
unfoldable pub fill : Answer → Client → Client
fill a c = record c { read_buffer = c.read_buffer ++ a.arrived; received = c.received ++ a.arrived }

-- `substr` and `erase`
unfoldable pub give : ℕ → Client → Client × Result
give n c = (
  record c { read_buffer = drop n c.read_buffer; returned = c.returned ++ take n c.read_buffer },
  Result.bytes (take n c.read_buffer),
)

unfoldable pub read_until : Answer → Client → Client × Result
unfolding fill give throw_on_read_error
read_until a c = elim c.is_open [
  | false ↦ (c, Result.not_connected)
  | true ↦ elim a.ec [ none ↦ give a.n (fill a c) | some ec ↦ throw_on_read_error ec (fill a c) ]
]

-- the swap at the end of `read_some`
unfoldable pub give_all : Client → Client × Result
give_all c = (
  record c { read_buffer = []; returned = c.returned ++ c.read_buffer },
  Result.bytes c.read_buffer,
)

-- The error is reported only if there is nothing to return.
unfoldable pub some_arrived : Answer → Client → Client × Result
unfolding give_all throw_on_read_error
some_arrived a c = elim c.read_buffer [
  | [] ↦ elim a.ec [ none ↦ give_all c | some ec ↦ throw_on_read_error ec c ]
  | b ∷ bs ↦ give_all c
]

unfoldable pub read_some : Answer → Client → Client × Result
unfolding fill give_all some_arrived
read_some a c = elim c.is_open [
  | false ↦ (c, Result.not_connected)
  | true ↦ elim c.read_buffer [ [] ↦ some_arrived a (fill a c) | b ∷ bs ↦ give_all c ]
]

unfoldable pub read : ℕ → Answer → Client → Client × Result
unfolding fill give throw_on_read_error
read size a c = elim c.is_open [
  | false ↦ (c, Result.not_connected)
  | true ↦ elim (ltb (length c.read_buffer) size) [
    | false ↦ give size c
    | true ↦ elim a.ec [ none ↦ give size (fill a c) | some ec ↦ throw_on_read_error ec (fill a c) ]
  ]
]

-- A failed connect leaves the socket open or not.
unfoldable pub connect : Option ErrorCode → Bool → Client → Client × Result
connect ec left_open c = elim c.is_open [
  | true ↦ (c, Result.already_connected)
  | false ↦ elim ec [
    | none ↦
        (record { is_open = true; read_buffer = []; received = []; returned = [] }, Result.done)
    | some e ↦ (
      record { is_open = left_open; read_buffer = []; received = []; returned = [] },
      throw_net_error e,
    )
  ]
]

unfoldable pub write : Option ErrorCode → Client → Client × Result
unfolding disconnect
write ec c = elim c.is_open [
  | false ↦ (c, Result.not_connected)
  | true ↦ elim ec [ none ↦ (c, Result.done) | some e ↦ (disconnect c, throw_net_error e) ]
]
