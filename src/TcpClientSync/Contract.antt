-- ===== src/TcpClientSync/Contract.antt =====
-- What Boost.Asio documents of the operations, and sequences of calls.
use libsg.Common.{ℕ, ◌≤◌, ◌<◌, ◌≡◌, Bool, Option, none, ◌++◌, length}
use libsg.TcpClientSync.{
  Answer, Client, ErrorCode, connect, disconnect, read, read_some, read_until, write,
}

-- `async_read_until` without an error: the count lies inside what is then in the buffer.
abbrev pub AnswersUntil : Client → Answer → Type 0
AnswersUntil c a = a.ec ≡ none → a.n ≤ length (c.read_buffer ++ a.arrived)

-- `async_read` into a buffer of a largest size: it does not go beyond this size, and fills it if
-- there is no error.
abbrev pub AnswersRead : ℕ → Client → Answer → Type 0
AnswersRead size c a = a.ec ≡ none → length (c.read_buffer ++ a.arrived) ≡ size

-- `async_read_some` without an error: at least one byte.
abbrev pub AnswersSome : Answer → Type 0
AnswersSome a = a.ec ≡ none → 0 < length a.arrived

pub data Call (c : Client) : Client → Type 0 where
  connects : (ec : Option ErrorCode) (left_open : Bool) → Call c (connect ec left_open c).0
  disconnects : Call c (disconnect c)
  reads_until : (a : Answer) → AnswersUntil c a → Call c (read_until a c).0
  reads_some : (a : Answer) → AnswersSome a → Call c (read_some a c).0
  reads : (size : ℕ) (a : Answer) → AnswersRead size c a → Call c (read size a c).0
  writes : (ec : Option ErrorCode) → Call c (write ec c).0

pub data Calls (c : Client) : Client → Type 0 where
  here : Calls c c
  next : {d e : Client} → Calls c d → Call d e → Calls c e
