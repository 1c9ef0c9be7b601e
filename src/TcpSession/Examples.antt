-- ===== src/TcpSession/Examples.antt =====
-- A session at concrete inputs.
use libsg.Common.{◌≡◌, ◌≢◌, ◌≤◌, true, false, none, some, [], ◌∷◌, ◌++◌, arith, refl}
use libsg.TcpSession.{Session, Failure, Options, Callbacks, Event, Status, is_running, note_failure}
use libsg.TcpSession.Calls.{
  create, fresh, start, set_up_ok, mark_connected, start_returns, stop_async, close, write,
}
use libsg.TcpSession.Strand.{
  took, writer_takes, writer_sent, reader_throws, reader_notes, close_impl, close_returns,
}
use libsg.TcpSession.System.{
  Rules, Step, Steps, here, next, Reach, created, later, may_call, extend,
}
use libsg.TcpSession.System.{anything}
use libsg.TcpSession.Lifecycle.{connects, disconnects, told, callbacks_at_most_once, one_if}
use libsg.TcpSession.Orderly.{callbacks_paired}
use libsg.TcpSession.Onward.{rank, is_noting, state_moves_on, clean_stop, ReportsNone}
use libsg.TcpSession.Bytes.{bytes_in_order}
use libsg.TcpSession.Writing.{Outcome, write-Outcome}
use libsg.TcpSession.Drain.{graceful_stop_drains}
use libsg.TcpSession.Shutdown.{CanStop, stop_completes}
use libsg.TcpSession.Races.{overlapping, stop_loses_message}

abbrev all_set : Callbacks
all_set = record { on_connected = true; on_disconnected = true; on_data_available = true }

abbrev usual : Options
usual = record { dont_read = false; timeout_msec = 5000; write_high_water_mark = 0 }

abbrev calling : Rules
calling = record { calls = true; early = false; faults = false; overlap = false }

-- created, started, connected
abbrev started : Session
started = fresh usual all_set

set_up_session : Session
unfolding start set_up_ok
set_up_session = set_up_ok (start started).0

running_session : Session
unfolding set_up_session mark_connected start_returns
running_session = start_returns (mark_connected set_up_session)

-- one message given to the socket, another queued
busy_session : Session
unfolding running_session write writer_takes took
busy_session = (write (4 ∷ 5 ∷ []) (writer_takes (write (1 ∷ 2 ∷ 3 ∷ []) running_session).0)).0

-- all of it sent, and the writer about to look again
sent_session : Session
unfolding running_session write writer_takes took writer_sent
sent_session = writer_sent ((1 ∷ []) ∷ []) (writer_takes (write (1 ∷ []) running_session).0)

-- The reader has found the session running, and stores its error after the stop.
late_error :
    (reader_notes
      (Failure.thrown 7)
      (stop_async (reader_throws (Failure.thrown 7) running_session))).exception
    ≡ some (Failure.thrown 7)
unfolding running_session reader_throws stop_async reader_notes note_failure
late_error = refl

module _ (r : Rules) where
  set_up-Reach : Reach r set_up_session
  unfolding create set_up_session
  set_up-Reach =
      later (later (created usual all_set {s = started} refl) Step.starts) (Step.sets_up refl refl)

  running-Reach : Reach r running_session
  unfolding running_session
  running-Reach = later (later set_up-Reach (Step.connects refl)) (Step.connect_returns refl)

  busy-Reach : may_call r running_session ≡ true → Reach r busy_session
  unfolding busy_session running_session
  busy-Reach m =
      later
        (later (later running-Reach (Step.writes (1 ∷ 2 ∷ 3 ∷ []) m (ground arith)))
          (Step.takes refl refl))
        (Step.writes (4 ∷ 5 ∷ []) m (ground arith))

  sent-Reach : may_call r running_session ≡ true → Reach r sent_session
  unfolding sent_session running_session
  sent-Reach m =
      later
        (later (later running-Reach (Step.writes (1 ∷ []) m (ground arith))) (Step.takes refl refl))
        (Step.sends 5000 ((1 ∷ []) ∷ []) refl refl)

stopped_session : Session
unfolding running_session stop_async close close_impl close_returns
stopped_session = close_returns (close_impl (close (stop_async running_session)))

stopping-Steps : (r : Rules) → Steps r (stop_async running_session) stopped_session
unfolding stopped_session
stopping-Steps r =
    next (next (next here (Step.closes (omega arith))) (Step.shuts refl refl)) (Step.ends refl)

stopped-Reach : Reach calling stopped_session
unfolding running_session
stopped-Reach = extend (later (running-Reach calling) (Step.stops refl)) (stopping-Steps calling)

stopped_events : stopped_session.events ≡ Event.disconnected none ∷ Event.connected ∷ []
unfolding stopped_session
stopped_events = refl

callbacks_at_most_once_example :
    (connects stopped_session.events ≤ 1)
    × (disconnects stopped_session.events ≤ 1)
    × (disconnects stopped_session.events ≤ one_if stopped_session.owed)
    × (told stopped_session.closing ≡ false → disconnects stopped_session.events ≡ 0)
    × (is_running stopped_session.state ≡ true → disconnects stopped_session.events ≡ 0)
callbacks_at_most_once_example = callbacks_at_most_once stopped-Reach

callbacks_paired_example :
    (disconnects stopped_session.events ≡ 1)
    × (connects stopped_session.events ≡ 1)
    × (true ≡ true → connects stopped_session.events ≡ disconnects stopped_session.events)
unfolding stopped_session
callbacks_paired_example = callbacks_paired refl stopped-Reach refl refl

state_moves_on_example :
    (rank (stop_async running_session).state ≤ 3)
    × (stopped_session.start_called ≡ true)
    × ((stop_async running_session).exception ≢ none
        → stopped_session.exception ≡ (stop_async running_session).exception)
    × (false ≡ false → false ≡ false → is_noting stopped_session ≡ false)
    × (false ≡ false → false ≡ false → stopped_session.exception ≡ none)
unfolding stopped_session
state_moves_on_example =
    state_moves_on (later (running-Reach calling) (Step.stops refl)) refl (stopping-Steps calling)

clean_stop_example : (stopped_session.exception ≡ none) × ReportsNone stopped_session.events
unfolding running_session
clean_stop_example =
    clean_stop (running-Reach anything) refl refl refl refl (stopping-Steps anything)

bytes_in_order_example :
    (busy_session.accepted ≡ [] ++ (busy_session.dropped ++ ((1 ∷ 2 ∷ 3 ∷ []) ++ (4 ∷ 5 ∷ []))))
    × (true ≡ true → busy_session.dropped ≡ [])
unfolding busy_session running_session
bytes_in_order_example = bytes_in_order (busy-Reach calling refl)

write-Outcome_example : Outcome (6 ∷ []) busy_session (write (6 ∷ []) busy_session)
unfolding running_session
write-Outcome_example = write-Outcome (6 ∷ []) (busy-Reach calling refl)

graceful_stop_drains_example : stopped_session.sent ≡ stopped_session.accepted
unfolding stopped_session
graceful_stop_drains_example = graceful_stop_drains refl refl stopped-Reach refl refl

stop_completes_example : CanStop (stop_async running_session)
unfolding running_session stop_async
stop_completes_example =
    stop_completes (later (running-Reach calling) (Step.stops refl)) refl (λ e. cc)

stop_loses_message_example :
    (t : Session) × Steps overlapping sent_session t
    × (t.state ≡ Status.stopped)
    × (t.accepted ≡ 1 ∷ 7 ∷ [])
    × (t.sent ≡ 1 ∷ [])
unfolding sent_session running_session
stop_loses_message_example =
    stop_loses_message (7 ∷ []) (sent-Reach overlapping refl) refl refl refl refl refl refl
