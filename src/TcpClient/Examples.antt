-- ===== src/TcpClient/Examples.antt =====
-- A client that connects, disconnects and connects again.
use libsg.Common.{◌≡◌, refl, true, false, none, some, [], ◌∷◌, arith}
use libsg.TcpSession.{Session, Options, Callbacks}
use libsg.TcpSession.Calls
use libsg.TcpSession.Calls.{
  create, start, set_up_ok, mark_connected, start_returns, stop_async, close,
}
use libsg.TcpSession.Strand.{close_impl, close_returns}
use libsg.TcpSession.System as Of
use libsg.TcpClient.{
  Client, Caller, fresh, connect, connect_joined, dial_succeeds, start_succeeded, disconnect,
  disconnected,
}
use libsg.TcpSession.System.{undisturbed}
use libsg.TcpClient.System.{rules, Inner, Step, Reach, created, later, InnerSteps}
use libsg.TcpClient.Turns.{HaveEnded, Exposes, one_session_at_a_time}
use libsg.TcpClient.Returns.{after, calls_go_on}

abbrev usual : Options
usual = record { dont_read = false; timeout_msec = 5000; write_high_water_mark = 0 }

abbrev callbacks : Callbacks
callbacks = record { on_connected = false; on_disconnected = true; on_data_available = true }

-- in `start()` for the first time
starting : Client
unfolding connect dial_succeeds
starting = (dial_succeeds usual callbacks (connect false (fresh false)).0).0

begun : Session
unfolding start
begun = (start (Calls.fresh usual callbacks)).0

connected : Session
unfolding begun set_up_ok mark_connected start_returns
connected = start_returns (mark_connected (set_up_ok begun))

-- after `disconnect()`
stopped : Session
unfolding connected stop_async close close_impl close_returns
stopped = close_returns (close_impl (close (stop_async connected)))

-- the second call of `connect()` has let the first session go
dialing_again : Client
unfolding stopped
dialing_again = record {
  has_context = true;
  session = none;
  caller = Caller.dialing;
  retired = stopped ∷ [];
}

starting-Reach : Reach starting
unfolding starting connect dial_succeeds
starting-Reach =
    later (later (created false) (Step.connects false refl)) (Step.dials usual callbacks refl)

calls_go_on_example :
    (d : Client) × (e : Client) × InnerSteps undisturbed starting d
    × Step d e
    × (e.caller ≡ after starting.caller)
unfolding starting
calls_go_on_example = calls_go_on starting starting-Reach refl

-- the session of a client takes a step
moved :
    {c : Client} {s t : Session}
    → Reach c
    → c.session ≡ some s
    → Of.Step rules s t
    → Reach (record c { session = some t })
moved h e st = later h (Step.inner (Inner.moves e st))

dialing_again-Reach : Reach dialing_again
unfolding starting begun connected stopped dialing_again connect connect_joined start_succeeded
    disconnect disconnected
dialing_again-Reach =
    let one = moved starting-Reach refl (Of.Step.sets_up refl refl) in
    let two = moved one refl (Of.Step.connects refl) in
    let three = moved two refl (Of.Step.connect_returns refl) in
    let four = later three (Step.starts refl refl (λ e. ground (arith, e))) in
    let five = later four (Step.disconnects false refl) in
    let six = moved five refl (Of.Step.closes (omega arith)) in
    let seven = moved six refl (Of.Step.shuts refl refl) in
    let eight = moved seven refl (Of.Step.ends refl) in
    let nine = later eight (Step.leaves refl refl refl) in
    let ten = later nine (Step.connects false refl) in later ten (Step.joins refl refl refl)

one_session_at_a_time_example :
    HaveEnded dialing_again.retired × Exposes dialing_again.caller dialing_again.session
one_session_at_a_time_example = one_session_at_a_time dialing_again dialing_again-Reach
