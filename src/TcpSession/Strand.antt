-- ===== src/TcpSession/Strand.antt =====
-- net/src/tcp_session.cpp: what runs on the session's strand, from one suspension of a coroutine
-- to the next.
use libsg.Common.{
  ℕ, suc, Bool, true, false, ◌&&◌, List, [], ◌∷◌, ◌++◌, ltb, if◌then◌else◌, add64, sub64, length,
  take, drop, flatten,
}
use libsg.TcpSession.{
  Session, Failure, ErrorCode, Status, Writer, Reader, Closing, Event, is_running, note_failure,
}

-- `for (const auto& buff : buffers) batch += buff.size();`
unfoldable pub batch_size : ℕ → List (List ℕ) → ℕ
batch_size batch [] = batch
batch_size batch (buff ∷ buffers) = batch_size (add64 batch (length buff)) buffers

-- The critical section of `writer()`, with the messages that it has swapped out.
unfoldable pub took : List (List ℕ) → Session → Session
unfolding batch_size
took [] s = record s {
  write_msgs = [];
  write_scheduled = false;
  queued_bytes = sub64 s.queued_bytes (batch_size 0 []);
  writing_bytes = batch_size 0 [];
  writer = Writer.idle;
  leaving = true;
}
took (m ∷ ms) s = record s {
  write_msgs = [];
  queued_bytes = sub64 s.queued_bytes (batch_size 0 (m ∷ ms));
  writing_bytes = batch_size 0 (m ∷ ms);
  writer = Writer.writing s.options.timeout_msec (m ∷ ms);
}

unfoldable pub writer_takes : Session → Session
unfolding took
writer_takes s = took s.write_msgs s

-- A writer that found no message loads `m_state` after it has left the lock.
unfoldable pub writer_leaves : Session → Session
writer_leaves s = record s {
  leaving = false;
  closers = if is_running s.state then s.closers else suc s.closers;
}

-- `async_write` has sent the batch.
unfoldable pub writer_sent : List (List ℕ) → Session → Session
writer_sent buffers s = record s { sent = s.sent ++ flatten buffers; writer = Writer.spawned }

abbrev pub is_time_out : ErrorCode → Bool
is_time_out ErrorCode.timed_out = true
is_time_out ErrorCode.operation_aborted = true
is_time_out (ErrorCode.other _) = false

-- what `writer()` throws for an error of `async_write`
abbrev pub write_failure : ℕ → ErrorCode → Status → Failure
write_failure timeout ec state =
    if ltb 0 timeout && (is_running state && is_time_out ec)
    then Failure.time_out
    else Failure.system_error ec

-- `async_write` has failed when the socket had taken `k` bytes of the batch, and the `catch` loads
-- `m_state`. `m_write_scheduled` stays set.
unfoldable pub writer_fails : ℕ → List (List ℕ) → ErrorCode → ℕ → Session → Session
writer_fails timeout buffers ec k s =
    let run = is_running s.state in
    record s {
      sent = s.sent ++ take k (flatten buffers);
      dropped = drop k (flatten buffers);
      writer = if run then Writer.noting (write_failure timeout ec s.state) else Writer.idle;
      closers = if run then s.closers else suc s.closers;
    }

unfoldable pub writer_notes : Failure → Session → Session
unfolding note_failure
writer_notes f s = record (note_failure f s) { writer = Writer.idle; closers = suc s.closers }

-- the test of the loop of `reader()`
unfoldable pub reader_loops : Session → Session
reader_loops s =
    if s.socket_open
    then record s { reader = Reader.reading }
    else record s { reader = Reader.finished; closers = suc s.closers }

-- Bytes have come in: the callback, then the test of the loop. Under `dont_read` the callback is
-- always there, and is given no bytes.
unfoldable pub reader_reads : List ℕ → Session → Session
unfolding reader_loops
reader_reads bytes s =
    let e = Event.data_available (if s.options.dont_read then [] else bytes) in
    reader_loops (record s {
      events =
          if s.options.dont_read
          then e ∷ s.events
          else (if s.callbacks.on_data_available then e ∷ s.events else s.events);
    })

-- The read, or the callback, has thrown, and the `catch` loads `m_state`.
unfoldable pub reader_throws : Failure → Session → Session
reader_throws f s =
    let run = is_running s.state in
    record s {
      reader = if run then Reader.noting f else Reader.finished;
      closers = if run then s.closers else suc s.closers;
    }

unfoldable pub reader_notes : Failure → Session → Session
unfolding note_failure
reader_notes f s = record (note_failure f s) { reader = Reader.finished; closers = suc s.closers }

-- `close_impl()` up to the store of `m_state`; what `onDisconnected` throws is only printed.
unfoldable pub close_impl : Session → Session
close_impl s = record s {
  socket_open = false;
  events =
      if s.owed && s.callbacks.on_disconnected
      then Event.disconnected s.exception ∷ s.events
      else s.events;
  closing = Closing.notified;
}

unfoldable pub close_returns : Session → Session
close_returns s = record s { state = Status.stopped; closing = Closing.closed }
