-- ===== src/TcpSession/System.antt =====
-- A session among its threads: the calls of other threads, the coroutines on the strand and the
-- answers of the socket, in any order that the strand and the mutexes allow.
use libsg.Common.{ℕ, ◌≡◌, ◌<◌, Bool, true, false, ◌&&◌, ◌||◌, not, some, List}
use libsg.TcpSession.{
  Session, Options, Callbacks, Failure, ErrorCode, Starter, Writer, Reader, Closing,
}
use libsg.TcpSession.Calls.{
  create, start, set_up_ok, start_throws, start_notes, mark_connected, start_returns, stop_async,
  stop_async_force, start_fails, close, write, set_timeout,
}
use libsg.TcpSession.Strand.{
  writer_takes, writer_leaves, writer_sent, writer_fails, writer_notes, reader_loops, reader_reads,
  reader_throws, reader_notes, close_impl, close_returns,
}

-- What the environment may do: call the session at all, and before `onConnected` has been invoked;
-- force it to stop, or let the socket or a callback fail; call `write` while a writer that found
-- no message has left the lock and not yet loaded `m_state`.
pub record Rules : Type 0 where
  pub calls : Bool
  pub early : Bool
  pub faults : Bool
  pub overlap : Bool

-- A coroutine is inside its `catch` block.
abbrev pub writer_notes_now : Writer → Bool
writer_notes_now (Writer.noting f) = true
writer_notes_now _ = false

abbrev pub reader_notes_now : Reader → Bool
reader_notes_now (Reader.noting f) = true
reader_notes_now _ = false

-- Handlers on the strand run one at a time: not while a writer is leaving or a coroutine is in its
-- `catch` block, nor inside `close_impl()`.
abbrev pub is_busy : Session → Bool
is_busy s = s.leaving || (writer_notes_now s.writer || reader_notes_now s.reader)

abbrev pub in_close : Closing → Bool
in_close Closing.notified = true
in_close _ = false

abbrev pub strand_free : Session → Bool
strand_free s = not (is_busy s) && not (in_close s.closing)

abbrev pub may_call : Rules → Session → Bool
may_call r s = r.calls && (r.early || s.owed)

pub data Step (r : Rules) (s : Session) : Session → Type 0 where
  -- other threads
  starts : Step r s (start s).0
  sets_up : s.starter ≡ Starter.setting_up → s.socket_open ≡ true → Step r s (set_up_ok s)
  set_up_throws :
      (f : Failure)
      → s.starter ≡ Starter.setting_up
      → r.faults || not s.socket_open ≡ true
      → Step r s (start_throws f s)
  connects : s.starter ≡ Starter.set_up → Step r s (mark_connected s)
  connect_returns : s.starter ≡ Starter.connecting → Step r s (start_returns s)
  connect_throws :
      (f : Failure) → s.starter ≡ Starter.connecting → r.faults ≡ true → Step r s (start_throws f s)
  start_noted : (f : Failure) → s.starter ≡ Starter.noting f → Step r s (start_notes f s)
  start_gives_up : s.starter ≡ Starter.failing → Step r s (start_fails s)
  writes :
      (msg : List ℕ)
      → may_call r s ≡ true
      → r.overlap || not s.leaving ≡ true
      → Step r s (write msg s).0
  sets_timeout : (t : ℕ) → may_call r s ≡ true → strand_free s ≡ true → Step r s (set_timeout t s)
  stops : may_call r s ≡ true → Step r s (stop_async s)
  forces : may_call r s ≡ true → r.faults ≡ true → Step r s (stop_async_force s)
  closes : 0 < s.closers → Step r s (close s)
  -- the strand
  takes : s.writer ≡ Writer.spawned → strand_free s ≡ true → Step r s (writer_takes s)
  leaves : s.leaving ≡ true → Step r s (writer_leaves s)
  sends :
      (t : ℕ) (buffers : List (List ℕ))
      → s.writer ≡ Writer.writing t buffers
      → strand_free s ≡ true
      → Step r s (writer_sent buffers s)
  fails_to_send :
      (t : ℕ) (buffers : List (List ℕ)) (ec : ErrorCode) (k : ℕ)
      → s.writer ≡ Writer.writing t buffers
      → strand_free s ≡ true
      → r.faults || not s.socket_open ≡ true
      → Step r s (writer_fails t buffers ec k s)
  write_noted : (f : Failure) → s.writer ≡ Writer.noting f → Step r s (writer_notes f s)
  reads_first : s.reader ≡ Reader.entered → strand_free s ≡ true → Step r s (reader_loops s)
  first_read_throws :
      (f : Failure)
      → s.reader ≡ Reader.entered
      → strand_free s ≡ true
      → r.faults || not s.socket_open ≡ true
      → Step r s (reader_throws f s)
  reads :
      (bytes : List ℕ)
      → s.reader ≡ Reader.reading
      → strand_free s ≡ true
      → Step r s (reader_reads bytes s)
  read_throws :
      (f : Failure)
      → s.reader ≡ Reader.reading
      → strand_free s ≡ true
      → r.faults || not s.socket_open ≡ true
      → Step r s (reader_throws f s)
  read_noted : (f : Failure) → s.reader ≡ Reader.noting f → Step r s (reader_notes f s)
  shuts : s.closing ≡ Closing.posted → is_busy s ≡ false → Step r s (close_impl s)
  ends : s.closing ≡ Closing.notified → Step r s (close_returns s)

-- The premises of a step, for a proof that treats many steps alike.
abbrev pub Guard : {r : Rules} {s t : Session} → Step r s t → Type 0
Guard {s} (Step.sets_up e o) = (s.starter ≡ Starter.setting_up) × (s.socket_open ≡ true)
Guard {r} {s} (Step.set_up_throws f e p) =
    (s.starter ≡ Starter.setting_up) × (r.faults || not s.socket_open ≡ true)
Guard {s} (Step.connects e) = s.starter ≡ Starter.set_up
Guard {s} (Step.connect_returns e) = s.starter ≡ Starter.connecting
Guard {r} {s} (Step.connect_throws f e p) = (s.starter ≡ Starter.connecting) × (r.faults ≡ true)
Guard {s} (Step.start_gives_up e) = s.starter ≡ Starter.failing
Guard {r} {s} (Step.writes msg m o) = (may_call r s ≡ true) × (r.overlap || not s.leaving ≡ true)
Guard {r} {s} (Step.stops m) = may_call r s ≡ true
Guard {r} {s} (Step.forces m p) = (may_call r s ≡ true) × (r.faults ≡ true)
Guard {s} (Step.closes c) = 0 < s.closers
Guard {s} (Step.takes e f) = (s.writer ≡ Writer.spawned) × (strand_free s ≡ true)
Guard {s} (Step.leaves e) = s.leaving ≡ true
Guard {s} (Step.sends t b e f) = (s.writer ≡ Writer.writing t b) × (strand_free s ≡ true)
Guard {r} {s} (Step.fails_to_send t b ec k e f p) =
    (s.writer ≡ Writer.writing t b)
    × (strand_free s ≡ true)
    × (r.faults || not s.socket_open ≡ true)
Guard {s} (Step.reads_first e f) = (s.reader ≡ Reader.entered) × (strand_free s ≡ true)
Guard {r} {s} (Step.first_read_throws x e f p) =
    (s.reader ≡ Reader.entered) × (r.faults || not s.socket_open ≡ true)
Guard {s} (Step.reads bytes e f) = (s.reader ≡ Reader.reading) × (strand_free s ≡ true)
Guard {r} {s} (Step.read_throws x e f p) =
    (s.reader ≡ Reader.reading) × (r.faults || not s.socket_open ≡ true)
Guard {s} (Step.start_noted f e) = s.starter ≡ Starter.noting f
Guard {s} (Step.write_noted f e) = s.writer ≡ Writer.noting f
Guard {s} (Step.read_noted f e) = s.reader ≡ Reader.noting f
Guard {s} (Step.shuts e f) = (s.closing ≡ Closing.posted) × (is_busy s ≡ false)
Guard {s} (Step.ends e) = s.closing ≡ Closing.notified
Guard _ = Unit {0}

pub guard : {r : Rules} {s t : Session} (st : Step r s t) → Guard st
guard (Step.sets_up e o) = (e, o)
guard (Step.set_up_throws f e p) = (e, p)
guard (Step.connects e) = e
guard (Step.connect_returns e) = e
guard (Step.connect_throws f e p) = (e, p)
guard (Step.start_gives_up e) = e
guard (Step.writes msg m o) = (m, o)
guard (Step.stops m) = m
guard (Step.forces m p) = (m, p)
guard (Step.closes c) = c
guard (Step.takes e f) = (e, f)
guard (Step.leaves e) = e
guard (Step.sends t b e f) = (e, f)
guard (Step.fails_to_send t b ec k e f p) = (e, f, p)
guard (Step.reads_first e f) = (e, f)
guard (Step.first_read_throws x e f p) = (e, p)
guard (Step.reads bytes e f) = (e, f)
guard (Step.read_throws x e f p) = (e, p)
guard (Step.start_noted f e) = e
guard (Step.write_noted f e) = e
guard (Step.read_noted f e) = e
guard (Step.shuts e f) = (e, f)
guard (Step.ends e) = e
guard _ = tt

pub data Steps (r : Rules) (s : Session) : Session → Type 0 where
  here : Steps r s s
  next : {t u : Session} → Steps r s t → Step r t u → Steps r s u

-- The states of a session that was created with some options and callbacks.
pub data Reach (r : Rules) : Session → Type 0 where
  created : (o : Options) (c : Callbacks) {s : Session} → create o c ≡ some s → Reach r s
  later : {s t : Session} → Reach r s → Step r s t → Reach r t

pub extend : {r : Rules} {s t : Session} → Reach r s → Steps r s t → Reach r t
extend h here = h
extend h (next st e) = later (extend h st) e

-- Nothing is ruled out.
abbrev pub anything : Rules
anything = record { calls = true; early = true; faults = true; overlap = true }

-- Nobody calls, and nothing fails.
abbrev pub undisturbed : Rules
undisturbed = record { calls = false; early = false; faults = false; overlap = false }

pub join : {r : Rules} {s t u : Session} → Steps r s t → Steps r t u → Steps r s u
join x here = x
join x (next y e) = next (join x y) e

pub first : {r : Rules} {s t u : Session} → Step r s t → Steps r t u → Steps r s u
first e x = join (next here e) x
