-- ===== src/TcpServer/Restart.antt =====
-- A stop that begins after a failed `start()` and ends after the next one.
use libsg.Common.{ℕ, suc, ◌≡◌, refl, true, false}
use libsg.TcpServer.{
  Server, fresh, start, start_fails, stop_async, listeners_ended, disconnect_all, stop_disconnects,
  sessions_ended, pool_stopped,
}
use libsg.TcpServer.System.{Step, Steps, here, next, Reach}

-- For every number of endpoints there is a run in which a first `start()` fails, `stop_async()` is
-- called, a second `start()` succeeds, and then the thread of that stop ends: the server says that
-- it is stopped, while all its listeners run and no stop is under way.
pub stopped_while_listening :
    (n : ℕ)
    → (s : Server) × Reach true s
      × (s.running ≡ false)
      × (s.acceptors_running_count ≡ suc n)
      × (s.stop_in_operation ≡ false)
unfolding start start_fails stop_async listeners_ended disconnect_all stop_disconnects
    sessions_ended pool_stopped
stopped_while_listening n =
    let a : Steps true fresh _ = next (next here (Step.start_breaks refl refl)) Step.stops in
    let b =
      next (next (next a (Step.listeners_end refl refl)) (Step.disconnects refl))
        (Step.sessions_end refl refl) in
    let c = next (next b (Step.starts n refl)) (Step.pool_stops refl) in (_, c, refl, refl, refl)
