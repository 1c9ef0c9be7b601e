-- ===== src/TcpServer/Examples.antt =====
-- A server with one listener and one session, which is stopped.
use libsg.Common.{◌≡◌, refl, true, false, arith}
use libsg.TcpSession
use libsg.TcpSession.Calls.{create, set_up_ok, mark_connected, start_returns, close}
use libsg.TcpSession.Strand.{close_impl}
use libsg.TcpSession.System.{created, later}
use libsg.TcpSession.Lifecycle.{connects, disconnects}
use libsg.TcpServer.{
  new_session, Server, fresh, start, stop_async, listeners_ended, disconnect_all, stop_disconnects,
  sessions_ended, accept, listener_ends, count_session, register, announce, opened, inform, erase,
  release, change, on_session, count_up, count_down,
}
use libsg.TcpServer.System.{Move, Step, here, next, Reach, count}
use libsg.TcpServer.Sight.{Run, seen}
use libsg.TcpServer.Hosting.{server_callbacks, session_allowed}
use libsg.TcpServer.Counting.{All}
use libsg.TcpServer.Sessions.{in_flight}
use libsg.TcpServer.Stopping.{Asked}
use libsg.TcpServer.Stopped.{stop_misses_nobody, stopped_server_is_empty, Over}

-- The session is connected, and `stop_async()` has asked it to stop.
abbrev asking : Server
unfolding start stop_async listeners_ended stop_disconnects disconnect_all accept listener_ends
    count_session register announce opened change on_session count_up
asking =
    let a = on_session 0 register (count_up 0 (accept (start 1 fresh))) in
    let b = on_session 0 opened (on_session 0 announce a) in
    stop_disconnects (listeners_ended (listener_ends (stop_async b)))

asking-Reach : Reach false asking
unfolding asking start stop_async listeners_ended stop_disconnects disconnect_all accept
    listener_ends count_session register announce opened change on_session count_up
asking-Reach =
    let a = next (next here (Step.starts 0 refl)) (Step.accepts (omega arith)) in
    let b =
      next (next a (Step.counts 0 _ refl refl))
        (Step.moves 0 _ register refl (Move.registers refl)) in
    let c = next b (Step.moves 0 _ announce refl (Move.announces refl refl refl)) in
    let d = next c (Step.moves 0 _ opened refl (Move.opens refl refl)) in
    let e = next (next d Step.stops) (Step.listener_stops (omega arith) refl) in
    next (next e (Step.listeners_end refl refl)) (Step.disconnects refl)

stop_misses_nobody_example :
    (asking.acceptors_running_count ≡ 0)
    × All (λ x. x.opening ≡ false) asking.sessions
    × All Asked asking.sessions
    × (asking.active_sessions ≡ count in_flight asking.sessions)
unfolding asking start stop_async listeners_ended stop_disconnects disconnect_all accept
    listener_ends count_session register announce opened change on_session count_up
stop_misses_nobody_example = stop_misses_nobody asking asking-Reach refl

abbrev emptied : Server
unfolding asking start stop_async listeners_ended stop_disconnects disconnect_all accept
    listener_ends count_session register announce opened change on_session count_up count_down
    inform erase release sessions_ended
emptied = sessions_ended (count_down 0 (on_session 0 erase (on_session 0 inform asking)))

emptied-Reach : Reach false emptied
unfolding emptied asking start stop_async listeners_ended stop_disconnects disconnect_all accept
    listener_ends count_session register announce opened change on_session count_up count_down
    inform erase release sessions_ended
emptied-Reach =
    let a = next asking-Reach (Step.moves 0 _ inform refl (Move.informs refl)) in
    let b = next a (Step.moves 0 _ erase refl (Move.erases refl)) in
    next (next b (Step.releases 0 _ refl refl)) (Step.sessions_end refl refl)

stopped_server_is_empty_example :
    (emptied.acceptors_running_count ≡ 0)
    × (emptied.active_sessions ≡ 0)
    × All Over emptied.sessions
unfolding emptied asking start stop_async listeners_ended stop_disconnects disconnect_all accept
    listener_ends count_session register announce opened change on_session count_up count_down
    inform erase release sessions_ended
stopped_server_is_empty_example = stopped_server_is_empty emptied emptied-Reach refl

abbrev calling : TcpSession.System.Rules
calling = record { calls = true; early = false; faults = false; overlap = false }

abbrev usual : TcpSession.Options
usual = record { dont_read = false; timeout_msec = 5000; write_high_water_mark = 0 }

-- A session connects, is asked to stop and has told the server so.
abbrev informing : TcpSession.Session
unfolding TcpSession.Calls.start set_up_ok mark_connected start_returns TcpSession.Calls.stop_async
    close close_impl
informing =
    let a =
      mark_connected
        (set_up_ok (TcpSession.Calls.start (TcpSession.Calls.fresh usual server_callbacks)).0) in
    close_impl (close (TcpSession.Calls.stop_async (start_returns a)))

informing-Reach : TcpSession.System.Reach calling informing
unfolding create informing TcpSession.Calls.start set_up_ok mark_connected start_returns
    TcpSession.Calls.stop_async close close_impl
informing-Reach =
    let a =
      created usual server_callbacks {s = TcpSession.Calls.fresh usual server_callbacks} refl in
    let b =
      later (later a TcpSession.System.Step.starts) (TcpSession.System.Step.sets_up refl refl) in
    let c =
      later (later b (TcpSession.System.Step.connects refl))
        (TcpSession.System.Step.connect_returns refl) in
    let d =
      later (later c (TcpSession.System.Step.stops refl))
        (TcpSession.System.Step.closes (omega arith)) in
    later d (TcpSession.System.Step.shuts refl refl)

session_allowed_example :
    Run (record new_session { asked = true }) (seen true informing)
    × (connects informing.events ≡ (seen true informing).announced)
    × (disconnects informing.events ≡ (seen true informing).informed)
unfolding informing TcpSession.Calls.start set_up_ok mark_connected start_returns
    TcpSession.Calls.stop_async close close_impl
session_allowed_example = session_allowed refl informing-Reach refl true
