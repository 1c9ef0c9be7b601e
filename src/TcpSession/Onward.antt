-- ===== src/TcpSession/Onward.antt =====
-- What can no longer change: a session that has left `running` never comes back, and the first error
-- that it records stays.
use libsg.Common.{◌∙◌, ℕ, ◌≡◌, ◌≢◌, ◌≤◌, ◌||◌, Bool, true, false, some, none, List, [], ◌∷◌, arith}
use libsg.TcpSession.{Session, Event, Status, Starter, is_running}
use libsg.TcpSession.Calls.{
  start, set_up_ok, start_throws, start_notes, mark_connected, start_returns, stop_async,
  stop_async_force, start_fails, close, write, set_timeout,
}
use libsg.TcpSession.Strand.{
  took, writer_takes, writer_leaves, writer_sent, writer_fails, writer_notes, reader_loops,
  reader_reads, reader_throws, reader_notes, close_impl, close_returns,
}
use libsg.TcpSession.System.{
  Rules, Step, Steps, here, next, Reach, later, guard, extend, may_call, writer_notes_now,
  reader_notes_now,
}
use libsg.TcpSession.Lifecycle.{Lifecycle, Reach-Lifecycle, disconnects}

-- how far a session that was started has come
abbrev pub rank : Status → ℕ
rank Status.running = 0
rank Status.stop_requested = 1
rank Status.stopping = 2
rank Status.stopped = 3

-- No `onDisconnected` was given an error.
abbrev pub ReportsNone : List Event → Type 0
ReportsNone [] = Unit {0}
ReportsNone (Event.connected ∷ es) = ReportsNone es
ReportsNone (Event.disconnected none ∷ es) = ReportsNone es
ReportsNone (Event.disconnected (some f) ∷ es) = ⊥
ReportsNone (Event.data_available b ∷ es) = ReportsNone es

abbrev start_notes_now : Starter → Bool
start_notes_now (Starter.noting f) = true
start_notes_now _ = false

-- A `catch` block stands between its load of `m_state`, which found the session running, and its
-- store of the error.
abbrev pub is_noting : Session → Bool
is_noting s = start_notes_now s.starter || (writer_notes_now s.writer || reader_notes_now s.reader)

record Moves (s t : Session) : Type 0 where
  begun : t.start_called ≡ true
  onward : rank s.state ≤ rank t.state
  first_stays : s.exception ≢ none → t.exception ≡ s.exception
  settled : is_running s.state ≡ false → is_noting s ≡ false → is_noting t ≡ false
  frozen : is_running s.state ≡ false → is_noting s ≡ false → t.exception ≡ s.exception
  silent : s.exception ≡ none → ReportsNone s.events → ReportsNone t.events

took-Moves : (ms : List (List ℕ)) (s : Session) → s.start_called ≡ true → Moves s (took ms s)
unfolding took
took-Moves [] s e = ground arith
took-Moves (m ∷ ms) s e = ground arith

Step-Moves :
    {r : Rules} {s t : Session} → Lifecycle s → s.start_called ≡ true → Step r s t → Moves s t
unfolding start set_up_ok start_throws start_notes mark_connected start_returns stop_async
    stop_async_force start_fails close write set_timeout writer_takes writer_leaves writer_sent
    writer_fails writer_notes reader_loops reader_reads reader_throws reader_notes close_impl
    close_returns
Step-Moves l e (Step.takes w free) = took-Moves _ _ e
Step-Moves l e (Step.starts) = ground (arith, l)
Step-Moves l e st = ground (arith, l, guard st)

-- Along any steps of a session that was started, its state only moves on from `running` over
-- `stop_requested` and `stopping` to `stopped`; an error that is recorded stays; and once it is not
-- `running` and no `catch` block that found it running has still to store its error, what is
-- recorded no longer changes.
pub state_moves_on :
    {r : Rules} {s t : Session}
    → Reach r s
    → s.start_called ≡ true
    → Steps r s t
    → (rank s.state ≤ rank t.state)
      × (t.start_called ≡ true)
      × (s.exception ≢ none → t.exception ≡ s.exception)
      × (is_running s.state ≡ false → is_noting s ≡ false → is_noting t ≡ false)
      × (is_running s.state ≡ false → is_noting s ≡ false → t.exception ≡ s.exception)
state_moves_on h e here = ground arith
state_moves_on h e (next st x) =
    let before = state_moves_on h e st in
    ground (arith, before, Step-Moves (Reach-Lifecycle (extend h st)) before.1 x)

stays_silent :
    {r : Rules} {s t : Session}
    → Reach r s
    → s.start_called ≡ true
    → is_running s.state ≡ false
    → is_noting s ≡ false
    → s.exception ≡ none
    → ReportsNone s.events
    → Steps r s t
    → ReportsNone t.events
stays_silent h e p m n q here = q
stays_silent h e p m n q (next st x) =
    let before = state_moves_on h e st in
    (Step-Moves (Reach-Lifecycle (extend h st)) before.1 x).silent (before.4 p m ∙ n)
      (stays_silent h e p m n q st)

none_reported : (es : List Event) → disconnects es ≡ 0 → ReportsNone es
none_reported [] h = tt
none_reported (Event.connected ∷ es) h = none_reported es h
none_reported (Event.disconnected e ∷ es) h = absurd (omega arith)
none_reported (Event.data_available b ∷ es) h = none_reported es h

stop_async-Quiet :
    (s : Session)
    → Lifecycle s
    → s.state ≡ Status.running
    → is_noting s ≡ false
    → s.exception ≡ none
    → let t = stop_async s in
      (t.start_called ≡ true)
      × (is_running t.state ≡ false)
      × (is_noting t ≡ false)
      × (t.exception ≡ none)
      × (disconnects t.events ≡ 0)
unfolding stop_async
stop_async-Quiet s l run m n = ground (arith, l)

-- A stop that is requested (where the rules allow calls) while the session runs and no error is
-- recorded is reported as clean, unless a `catch` block has found the session running and not yet
-- stored its error: whatever happens after `stop_async()`, even a forced stop or a failing socket, no
-- error is recorded or passed to `onDisconnected`.
pub clean_stop :
    {r : Rules} {s t : Session}
    → Reach r s
    → may_call r s ≡ true
    → s.state ≡ Status.running
    → s.exception ≡ none
    → is_noting s ≡ false
    → Steps r (stop_async s) t
    → (t.exception ≡ none) × ReportsNone t.events
clean_stop {s} h m run n calm st =
    let stopped = later h (Step.stops m) in
    let (begun, past, quiet, none_yet, untold) =
      stop_async-Quiet s (Reach-Lifecycle h) run calm n in
    (
      (state_moves_on stopped begun st).4 past quiet ∙ none_yet,
      stays_silent stopped begun past quiet none_yet (none_reported (stop_async s).events untold)
          st,
    )
