-- ===== src/TcpSession/Lifecycle.antt =====
-- The session's state only moves on, and each callback comes at most once.
use libsg.Common.{ℕ, suc, ◌≡◌, ◌≤◌, Bool, true, false, ◌&&◌, List, [], ◌∷◌, arith, if◌then◌else◌}
use libsg.TcpSession.{Session, Event, Status, Starter, Closing, is_running}
use libsg.TcpSession.Calls.{
  create, start, set_up_ok, start_throws, start_notes, mark_connected, start_returns, stop_async,
  stop_async_force, start_fails, close, write, set_timeout,
}
use libsg.TcpSession.Strand.{
  took, writer_takes, writer_leaves, writer_sent, writer_fails, writer_notes, reader_loops,
  reader_reads, reader_throws, reader_notes, close_impl, close_returns,
}
use libsg.TcpSession.System.{Rules, Step, Reach, created, later, guard}

-- The state that goes with each stage of `close_impl()`.
abbrev pub Agree : Closing → Status → Bool → Type 0
Agree Closing.not_closing Status.running called = called ≡ true
Agree Closing.not_closing Status.stop_requested called = called ≡ true
Agree Closing.not_closing Status.stopped called = called ≡ false
Agree Closing.not_closing Status.stopping called = ⊥
Agree Closing.posted state called = (state ≡ Status.stopping) × (called ≡ true)
Agree Closing.notified state called = (state ≡ Status.stopping) × (called ≡ true)
Agree Closing.closed state called = (state ≡ Status.stopped) × (called ≡ true)

-- `close_impl()` has passed its callback.
abbrev pub told : Closing → Bool
told Closing.not_closing = false
told Closing.posted = false
told _ = true

-- `start()` has passed the point from which `onDisconnected` is owed, or has failed before it.
abbrev pub past_set_up : Starter → Bool
past_set_up Starter.not_called = false
past_set_up Starter.setting_up = false
past_set_up Starter.set_up = false
past_set_up _ = true

abbrev pub connects : List Event → ℕ
connects [] = 0
connects (Event.connected ∷ es) = suc (connects es)
connects (Event.disconnected e ∷ es) = connects es
connects (Event.data_available b ∷ es) = connects es

abbrev pub disconnects : List Event → ℕ
disconnects [] = 0
disconnects (Event.connected ∷ es) = disconnects es
disconnects (Event.disconnected e ∷ es) = suc (disconnects es)
disconnects (Event.data_available b ∷ es) = disconnects es

abbrev pub one_if : Bool → ℕ
one_if b = if b then 1 else 0

pub record Lifecycle (s : Session) : Type 0 where
  pub agree : Agree s.closing s.state s.start_called
  pub uncalled : s.start_called ≡ false → s.starter ≡ Starter.not_called
  pub marked : s.owed ≡ true → past_set_up s.starter ≡ true
  pub connecting : s.starter ≡ Starter.connecting → s.owed ≡ true
  pub connected : connects s.events ≡ one_if (s.owed && s.callbacks.on_connected)
  pub untold : told s.closing ≡ false → disconnects s.events ≡ 0
  pub told_at_most : disconnects s.events ≤ one_if (s.owed && s.callbacks.on_disconnected)

took-Lifecycle : (ms : List (List ℕ)) (s : Session) → Lifecycle s → Lifecycle (took ms s)
unfolding took
took-Lifecycle [] s l = ground (arith, l)
took-Lifecycle (m ∷ ms) s l = ground (arith, l)

pub Step-Lifecycle : {r : Rules} {s t : Session} → Step r s t → Lifecycle s → Lifecycle t
unfolding start set_up_ok start_throws start_notes mark_connected start_returns stop_async
    stop_async_force start_fails close write set_timeout writer_takes writer_leaves writer_sent
    writer_fails writer_notes reader_loops reader_reads reader_throws reader_notes close_impl
    close_returns
Step-Lifecycle (Step.takes e free) l = took-Lifecycle _ _ l
Step-Lifecycle (Step.starts) l = ground (arith, l)
Step-Lifecycle st l = ground (arith, l, guard st)

pub Reach-Lifecycle : {r : Rules} {s : Session} → Reach r s → Lifecycle s
unfolding create
Reach-Lifecycle (created o c e) = ground (arith, e)
Reach-Lifecycle (later h st) = Step-Lifecycle st (Reach-Lifecycle h)

-- In every reachable state, whatever the threads and the socket do: `onConnected` and
-- `onDisconnected` have each been invoked at most once, `onDisconnected` only if the session had
-- reached the call of `onConnected`, and neither before `close_impl()` runs nor while the session is running.
pub callbacks_at_most_once :
    {r : Rules} {s : Session}
    → Reach r s
    → (connects s.events ≤ 1)
      × (disconnects s.events ≤ 1)
      × (disconnects s.events ≤ one_if s.owed)
      × (told s.closing ≡ false → disconnects s.events ≡ 0)
      × (is_running s.state ≡ true → disconnects s.events ≡ 0)
callbacks_at_most_once h = ground (arith, Reach-Lifecycle h)
