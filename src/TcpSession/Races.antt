-- ===== src/TcpSession/Races.antt =====
-- Two interleavings in which a session does not do what tcp_session.h says.
use libsg.Common.{ℕ, suc, ◌≡◌, true, false, List, [], ◌++◌, arith, refl}
use libsg.TcpSession.{Session, Status, Starter, Writer}
use libsg.TcpSession.Calls.{mark_connected, start_returns, stop_async, close, write}
use libsg.TcpSession.Strand.{took, writer_takes, writer_leaves, close_impl, close_returns}
use libsg.TcpSession.System.{Rules, Step, Steps, here, next, Reach, first}
use libsg.TcpSession.Calm.{unnoted_while_running}
use libsg.TcpSession.Lifecycle.{Reach-Lifecycle, connects, disconnects}

-- Any calls once connected, and nothing fails.
abbrev pub overlapping : Rules
overlapping = record { calls = true; early = false; faults = false; overlap = true }

-- Calls from the moment that the session exists, and nothing fails.
abbrev pub hasty : Rules
hasty = record { calls = true; early = true; faults = false; overlap = false }

-- The steps of a writer that finds no message, a `write` and a `stop_async()` before it loads
-- `m_state`, and the rest.
module _ (msg : List ℕ) (s : Session) where
  taken : Session
  unfolding writer_takes took
  taken = writer_takes s

  written : Session
  unfolding taken write
  written = (write msg taken).0

  stopped_early : Session
  unfolding written stop_async
  stopped_early = stop_async written

  left : Session
  unfolding stopped_early writer_leaves
  left = writer_leaves stopped_early

  closed_early : Session
  unfolding left close close_impl close_returns
  closed_early = close_returns (close_impl (close left))

-- From every reachable state in which a running session with no high-water mark has a writer that
-- is about to find no message: for every message there is a run, in which nothing fails and nobody
-- forces a stop, that ends with the session stopped, the message accepted by `write` and none of
-- it sent.
pub stop_loses_message :
    {s : Session} (msg : List ℕ)
    → Reach overlapping s
    → s.state ≡ Status.running
    → s.writer ≡ Writer.spawned
    → s.write_msgs ≡ []
    → s.leaving ≡ false
    → s.owed ≡ true
    → s.options.write_high_water_mark ≡ 0
    → (t : Session) × Steps overlapping s t
      × (t.state ≡ Status.stopped)
      × (t.accepted ≡ s.accepted ++ msg)
      × (t.sent ≡ s.sent)
unfolding closed_early
stop_loses_message {s} msg h e w q l o m =
    let calm = unnoted_while_running refl h (ground (arith, e)) in
    (
      closed_early msg s,
      first (Step.takes w (ground (arith, Reach-Lifecycle h))) (
          first (Step.writes msg (ground arith) refl) (
            first (Step.stops (ground arith)) (
              first (Step.leaves (ground arith)) (
                first (Step.closes (ground arith)) (
                  first (Step.shuts (ground arith) (ground arith))
                    (next here (Step.ends (ground arith)))))))),
      refl,
      ground arith,
      ground arith,
    )

-- A stop that completes while `start()` stands just before it marks the callback as owed.
module _ (s : Session) where
  stopped_first : Session
  unfolding stop_async close close_impl close_returns
  stopped_first = close_returns (close_impl (close (stop_async s)))

  started_last : Session
  unfolding stopped_first mark_connected start_returns
  started_last = start_returns (mark_connected stopped_first)

-- From every reachable state in which `start()` has prepared the socket of a session with both
-- callbacks set and is about to mark `onDisconnected` as owed, with nothing written yet: there is a
-- run, in which nothing fails, that ends with the session stopped and `start()` returned, where
-- `onConnected` has been invoked once more and `onDisconnected` never.
pub connected_never_disconnected :
    {s : Session}
    → Reach hasty s
    → s.state ≡ Status.running
    → s.starter ≡ Starter.set_up
    → s.write_scheduled ≡ false
    → s.leaving ≡ false
    → s.callbacks.on_connected ≡ true
    → s.callbacks.on_disconnected ≡ true
    → (t : Session) × Steps hasty s t
      × (t.state ≡ Status.stopped)
      × (t.starter ≡ Starter.returned)
      × (connects t.events ≡ suc (connects s.events))
      × (disconnects t.events ≡ 0)
unfolding started_last
connected_never_disconnected {s} h e w q l c d =
    let calm = unnoted_while_running refl h (ground (arith, e)) in
    (
      started_last s,
      first (Step.stops refl) (
          first (Step.closes (ground arith)) (
            first (Step.shuts (ground arith) (ground arith)) (
              first (Step.ends (ground arith)) (
                first (Step.connects (ground arith))
                  (next here (Step.connect_returns (ground arith))))))),
      refl,
      refl,
      ground arith,
      ground (arith, Reach-Lifecycle h),
    )
