-- ===== src/TcpClient/System.antt =====
-- The client among its user, the threads of the pool and the users of `session()`.
use libsg.Common.{◌≡◌, ◌≢◌, Bool, true, false, some}
use libsg.TcpSession.{Session, Options, Callbacks, ErrorCode, Status, Starter, Reader}
use libsg.TcpSession.System.{Rules}
use libsg.TcpSession.System as Of
use libsg.TcpClient.{
  Client, Caller, fresh, connect, connect_joined, dial_fails, dial_succeeds, start_succeeded,
  start_threw, disconnect, disconnected, destroy, destroyed,
}

-- Nobody has a session before `connect()` has started it; anything may fail.
abbrev pub rules : Rules
rules = record { calls = true; early = false; faults = true; overlap = true }

-- What the session does, among its own threads and users, as far as these rules allow.
pub data Inner (r : Rules) (c : Client) : Client → Type 0 where
  moves :
      {s t : Session}
      → c.session ≡ some s
      → Of.Step r s t
      → Inner r c (record c { session = some t })

-- `wait_until_stopped()` waits for the state `stopped`. `start()` has returned if it has spawned the
-- reader; if it throws, it has waited for the session to stop.
pub data Step (c : Client) : Client → Type 0 where
  inner : {d : Client} → Inner rules c d → Step c d
  connects : (p : Bool) → c.caller ≡ Caller.idle → Step c (connect p c).0
  joins :
      {s : Session}
      → c.caller ≡ Caller.joining
      → c.session ≡ some s
      → s.state ≡ Status.stopped
      → Step c (connect_joined s c)
  dials_in_vain : (ec : ErrorCode) → c.caller ≡ Caller.dialing → Step c (dial_fails ec c).0
  dials : (o : Options) (k : Callbacks) → c.caller ≡ Caller.dialing → Step c (dial_succeeds o k c).0
  starts :
      {s : Session}
      → c.caller ≡ Caller.starting
      → c.session ≡ some s
      → s.reader ≢ Reader.unspawned
      → Step c (start_succeeded c)
  gives_up :
      {s : Session}
      → c.caller ≡ Caller.starting
      → c.session ≡ some s
      → s.starter ≡ Starter.returned
      → s.reader ≡ Reader.unspawned
      → s.state ≡ Status.stopped
      → Step c (start_threw s c).0
  disconnects : (p : Bool) → c.caller ≡ Caller.idle → Step c (disconnect p c).0
  leaves :
      {s : Session}
      → c.caller ≡ Caller.disconnecting
      → c.session ≡ some s
      → s.state ≡ Status.stopped
      → Step c (disconnected c)
  destroys : (p : Bool) → c.caller ≡ Caller.idle → Step c (destroy p c)
  ends :
      {s : Session}
      → c.caller ≡ Caller.destroying
      → c.session ≡ some s
      → s.state ≡ Status.stopped
      → Step c (destroyed c)

pub data Reach : Client → Type 0 where
  created : (has_context : Bool) → Reach (fresh has_context)
  later : {c d : Client} → Reach c → Step c d → Reach d

pub data InnerSteps (r : Rules) (c : Client) : Client → Type 0 where
  rest : InnerSteps r c c
  and_then : {d e : Client} → InnerSteps r c d → Inner r d e → InnerSteps r c e
