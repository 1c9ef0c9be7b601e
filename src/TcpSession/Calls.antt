-- ===== src/TcpSession/Calls.antt =====
-- net/src/tcp_session.cpp: what other threads call. Each critical section under `m_write_mutex`
-- and each atomic compare-exchange is one step; a call that throws returns what it throws.
use libsg.Common.{
  ℕ, suc, ◌-◌, Bool, true, false, ◌&&◌, not, Option, none, some, List, [], ◌∷◌, ◌++◌, ltb, leb,
  if◌then◌else◌, add64, length,
}
use libsg.TcpSession.{
  Session, Options, Callbacks, Failure, Status, Starter, Writer, Reader, Closing, Event, is_running,
  can_close, note_failure, pending_bytes,
}

-- What a call throws.
pub data Refusal : Type 0 where
  already_started already_running not_operational buffer_full invalid_options : Refusal

-- the members' initialisers
abbrev pub fresh : Options → Callbacks → Session
fresh o c = record {
  options = o;
  callbacks = c;
  state = Status.stopped;
  start_called = false;
  owed = false;
  write_scheduled = false;
  write_msgs = [];
  queued_bytes = 0;
  writing_bytes = 0;
  exception = none;
  socket_open = true;
  starter = Starter.not_called;
  writer = Writer.idle;
  leaving = false;
  reader = Reader.unspawned;
  closers = 0;
  closing = Closing.not_closing;
  events = [];
  accepted = [];
  sent = [];
  dropped = [];
}

-- the constructor, and `create()`, which calls it
unfoldable pub create : Options → Callbacks → Option Session
create o c = if o.dont_read && not c.on_data_available then none else some (fresh o c)

-- `start()` up to its `try`: the flag, then the compare-exchange of `m_state`
unfoldable pub start : Session → Session × Option Refusal
start s =
    if s.start_called
    then (s, some Refusal.already_started)
    else (let s' = record s { start_called = true } in
        elim s.state [
          | Status.stopped ↦
              (record s' { state = Status.running; starter = Starter.setting_up }, none)
          | _ ↦ (s', some Refusal.already_running)
        ])

-- the socket's options and endpoints, which can throw
unfoldable pub set_up_ok : Session → Session
set_up_ok s = record s { starter = Starter.set_up }

-- Inside the `try` something throws: the `catch` loads `m_state`.
unfoldable pub start_throws : Failure → Session → Session
start_throws f s = record s {
  starter = if is_running s.state then Starter.noting f else Starter.failing;
}

unfoldable pub start_notes : Failure → Session → Session
unfolding note_failure
start_notes f s = record (note_failure f s) { starter = Starter.failing }

-- `m_disconnection_callback_owed` and the call of `onConnected`
unfoldable pub mark_connected : Session → Session
mark_connected s = record s {
  owed = true;
  events = if s.callbacks.on_connected then Event.connected ∷ s.events else s.events;
  starter = Starter.connecting;
}

-- `onConnected` has returned: spawn the reader.
unfoldable pub start_returns : Session → Session
start_returns s = record s { reader = Reader.entered; starter = Starter.returned }

-- The critical section of `stop_async()`. If no writer is there to close the session, the caller
-- goes on to `close()`.
unfoldable pub stop_async : Session → Session
stop_async s =
    if is_running s.state
    then record s {
      state = Status.stop_requested;
      closers = if s.write_scheduled then s.closers else suc s.closers;
    }
    else s

unfoldable pub stop_async_force : Session → Session
stop_async_force s = record s { closers = suc s.closers }

-- the rest of the `catch` of `start()`
unfoldable pub start_fails : Session → Session
unfolding stop_async
start_fails s = record (stop_async s) { starter = Starter.returned }

-- `close()`: only the caller whose compare-exchange succeeds posts `close_impl()`.
unfoldable pub close : Session → Session
close s =
    let s' = record s { closers = s.closers - 1 } in
    if can_close s.state
    then record s' { state = Status.stopping; closing = Closing.posted }
    else s'

-- `mark && pending_bytes() >= mark`
abbrev pub over_mark : Session → Bool
over_mark s = let mark = s.options.write_high_water_mark in ltb 0 mark && leb mark (pending_bytes s)

unfoldable pub write : List ℕ → Session → Session × Option Refusal
unfolding pending_bytes
write msg s =
    if is_running s.state
    then (if over_mark s then (s, some Refusal.buffer_full) else (
      record s {
        queued_bytes = add64 s.queued_bytes (length msg);
        write_msgs = s.write_msgs ++ msg ∷ [];
        write_scheduled = true;
        writer = if s.write_scheduled then s.writer else Writer.spawned;
        accepted = s.accepted ++ msg;
      },
      none,
    ))
    else (s, some Refusal.not_operational)

-- `set_timeout()`, run on the strand
unfoldable pub set_timeout : ℕ → Session → Session
set_timeout t s = record s { options = record (s.options) { timeout_msec = t } }
