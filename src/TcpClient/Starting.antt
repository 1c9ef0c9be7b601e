-- ===== src/TcpClient/Starting.antt =====
-- `m_session->start()` comes to an end.
use libsg.Common.{ℕ, ◌≡◌, ◌≢◌, ◌⊎◌, inl, inr, true, false, List, [], ◌∷◌, arith, refl, Bool-cases}
use libsg.TcpSession.{Session, Status, Starter, Reader, Failure, is_running, note_failure}
use libsg.TcpSession.Calls.{
  create, start, set_up_ok, start_throws, start_notes, mark_connected, start_returns, stop_async,
  stop_async_force, start_fails, close, write, set_timeout,
}
use libsg.TcpSession.Strand.{
  took, writer_takes, writer_leaves, writer_sent, writer_fails, writer_notes, reader_loops,
  reader_reads, reader_throws, reader_notes, close_impl, close_returns,
}
use libsg.TcpSession.System.{
  Rules, Step, Steps, here, next, Reach, created, later, guard, undisturbed, first,
}
use libsg.TcpSession.Lifecycle.{Lifecycle, Reach-Lifecycle}
use libsg.TcpSession.Shutdown.{stop_completes}
use libsg.TcpClient.System.{rules}
use libsg.TcpClient.Sessions.{Reach-Known, IsBegun}

-- `start()` has thrown.
record GaveUp (s : Session) : Type 0 where
  begun : s.start_called ≡ true
  back : s.starter ≡ Starter.returned
  unspawned : s.reader ≡ Reader.unspawned

took-GaveUp : (ms : List (List ℕ)) (s : Session) → GaveUp s → GaveUp (took ms s)
unfolding took
took-GaveUp [] s k = ground (arith, k)
took-GaveUp (m ∷ ms) s k = ground (arith, k)

Step-GaveUp : {r : Rules} {s t : Session} → Step r s t → GaveUp s → GaveUp t
unfolding start set_up_ok start_throws start_notes mark_connected start_returns stop_async
    stop_async_force start_fails close write set_timeout writer_takes writer_leaves writer_sent
    writer_fails writer_notes reader_loops reader_reads reader_throws reader_notes close_impl
    close_returns
Step-GaveUp (Step.takes w free) k = took-GaveUp _ _ k
Step-GaveUp (Step.starts) k = ground (arith, k)
Step-GaveUp st k = ground (arith, k, guard st)

Steps-GaveUp : {r : Rules} {s t : Session} → Steps r s t → GaveUp s → GaveUp t
Steps-GaveUp here k = k
Steps-GaveUp (next x st) k = Step-GaveUp st (Steps-GaveUp x k)

-- `start()` has come to its end: by itself, or by an exception after the session has stopped.
abbrev pub HasStarted : Session → Type 0
HasStarted s =
    (s.reader ≢ Reader.unspawned)
    ⊎ ((s.starter ≡ Starter.returned) × (s.reader ≡ Reader.unspawned) × (s.state ≡ Status.stopped))

abbrev pub CanStart : Session → Type 0
CanStart s = (t : Session) × Steps undisturbed s t × HasStarted t

before : {s t : Session} → Step undisturbed s t → CanStart t → CanStart s
before e (u, x, h) = (u, first e x, h)

spawned : (s : Session) → s.reader ≢ Reader.unspawned → CanStart s
spawned s n = (s, here, inl n)

from_connecting : (s : Session) → s.starter ≡ Starter.connecting → CanStart s
unfolding start_returns
from_connecting s e =
    before (Step.connect_returns e) (spawned (start_returns s) (λ h. ground (arith, h)))

from_set_up : (s : Session) → s.starter ≡ Starter.set_up → CanStart s
unfolding mark_connected
from_set_up s e = before (Step.connects e) (from_connecting (mark_connected s) refl)

record Course (s : Session) : Type 0 where
  spawns_last : s.reader ≢ Reader.unspawned → s.starter ≡ Starter.returned
  fails_down :
      s.starter ≡ Starter.returned → s.reader ≡ Reader.unspawned → is_running s.state ≡ false

took-Course : (ms : List (List ℕ)) (s : Session) → Course s → Course (took ms s)
unfolding took
took-Course [] s k = ground (arith, k)
took-Course (m ∷ ms) s k = ground (arith, k)

Step-Course : {r : Rules} {s t : Session} → Step r s t → Lifecycle s → Course s → Course t
unfolding start set_up_ok start_throws start_notes mark_connected start_returns stop_async
    stop_async_force start_fails close write set_timeout writer_takes writer_leaves writer_sent
    writer_fails writer_notes reader_loops reader_reads reader_throws reader_notes close_impl
    close_returns
Step-Course (Step.takes w free) l k = took-Course _ _ k
Step-Course (Step.starts) l k = ground (arith, l, k)
Step-Course st l k = ground (arith, l, k, guard st)

Reach-Course : {r : Rules} {s : Session} → Reach r s → Course s
unfolding create
Reach-Course (created o c e) = ground (arith, e)
Reach-Course (later h st) = Step-Course st (Reach-Lifecycle h) (Reach-Course h)

from_given_up : {s : Session} → Reach rules s → GaveUp s → CanStart s
from_given_up {s} h g =
    let halted = (Reach-Course h).fails_down g.back g.unspawned in
    let (t, x, e) = stop_completes h g.begun (λ r. ground (arith, halted, r)) in
    let k = Steps-GaveUp x g in (t, x, inr (k.back, k.unspawned, e))

start_fails-GaveUp :
    (s : Session) → s.start_called ≡ true → s.reader ≡ Reader.unspawned → GaveUp (start_fails s)
unfolding start_fails stop_async
start_fails-GaveUp s b u = ground (arith, b, u)

from_failing :
    {s : Session}
    → Reach rules s
    → s.start_called ≡ true
    → s.reader ≡ Reader.unspawned
    → s.starter ≡ Starter.failing
    → CanStart s
from_failing {s} h b u e =
    before (Step.start_gives_up e)
      (from_given_up (later h (Step.start_gives_up e)) (start_fails-GaveUp s b u))

from_noting :
    {s : Session} {f : Failure}
    → Reach rules s
    → s.start_called ≡ true
    → s.reader ≡ Reader.unspawned
    → s.starter ≡ Starter.noting f
    → CanStart s
unfolding start_notes note_failure
from_noting h b u e =
    before (Step.start_noted _ e) (from_failing (later h (Step.start_noted _ e)) b u refl)

-- `start()` has thrown, and has found the session running or not.
from_thrown :
    {s : Session}
    → Reach rules s
    → s.start_called ≡ true
    → s.reader ≡ Reader.unspawned
    → (s.starter ≡ Starter.failing) ⊎ ((f : Failure) × (s.starter ≡ Starter.noting f))
    → CanStart s
from_thrown h b u (inl e) = from_failing h b u e
from_thrown h b u (inr (f, e)) = from_noting h b u e

-- the socket is closed already: the first option cannot be set
from_setting_up :
    {s : Session}
    → Reach rules s
    → s.start_called ≡ true
    → s.reader ≡ Reader.unspawned
    → s.starter ≡ Starter.setting_up
    → CanStart s
unfolding set_up_ok start_throws start_notes
from_setting_up {s} h b u e = elim (Bool-cases s.socket_open) [
  | inl o ↦ before (Step.sets_up e o) (from_set_up (set_up_ok s) refl)
  | inr o ↦
      let f = Failure.thrown 0 in
      before (Step.set_up_throws f e (ground (arith, o))) (
        from_thrown (later h (Step.set_up_throws f e refl)) (ground (arith, b)) (ground (arith, u))
          (ground arith))
]

unspawned_before :
    (s : Session) → Course s → s.starter ≢ Starter.returned → s.reader ≡ Reader.unspawned
unspawned_before s k n = ground (arith, k, n)

spawned_or_not : (x : Reader) → (x ≢ Reader.unspawned) ⊎ (x ≡ Reader.unspawned)
spawned_or_not x = ground arith

from_starter :
    (x : Starter) {s : Session} → Reach rules s → s.start_called ≡ true → s.starter ≡ x → CanStart s
from_starter Starter.not_called h b e = absurd ((Reach-Known h).left b e)
from_starter Starter.setting_up {s} h b e =
    from_setting_up h b (unspawned_before s (Reach-Course h) (λ r. ground (arith, e, r))) e
from_starter Starter.set_up {s} h b e = from_set_up s e
from_starter Starter.connecting {s} h b e = from_connecting s e
from_starter (Starter.noting f) {s} h b e =
    from_noting h b (unspawned_before s (Reach-Course h) (λ r. ground (arith, e, r))) e
from_starter Starter.failing {s} h b e =
    from_failing h b (unspawned_before s (Reach-Course h) (λ r. ground (arith, e, r))) e
from_starter Starter.returned {s} h b e = elim (spawned_or_not s.reader) [
  | inl n ↦ spawned s n
  | inr u ↦ from_given_up h (record { begun = b; back = e; unspawned = u })
]

-- By steps of the session alone, with nothing failing but a socket that is closed already.
pub start_ends : {s : Session} → IsBegun s → CanStart s
start_ends {s} k = from_starter s.starter k.reach k.begun refl
