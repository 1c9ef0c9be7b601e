-- ===== src/TcpClient/Returns.antt =====
-- The calls that wait for a session can return.
use libsg.Common.{
  ◌≡◌, ◌≢◌, Bool, true, false, Option, none, some, arith, refl, subst, sym, ap, inl, inr, ◌∙◌, ◌⊎◌,
}
use libsg.TcpSession.{Session, Status, is_running}
use libsg.TcpSession.System as Of
use libsg.TcpSession.System.{undisturbed}
use libsg.TcpSession.Shutdown.{stop_completes}
use libsg.TcpClient.{
  Client, Caller, connect_joined, start_succeeded, start_threw, disconnected, destroyed,
}
use libsg.TcpClient.System.{Inner, Step, Reach, InnerSteps, rest, and_then}
use libsg.TcpClient.Sessions.{IsBegun, IsOver}
use libsg.TcpClient.Starting.{HasStarted, start_ends}
use libsg.TcpClient.Turns.{Holds, Turn, Reach-Turn}

-- The session of a client takes its steps.
session_path :
    (c : Client) {s t : Session}
    → Of.Steps undisturbed s t
    → InnerSteps undisturbed (record c { session = some s }) (record c { session = some t })
session_path c Of.Steps.here = rest
session_path c (Of.Steps.next x st) = and_then (session_path c x) (Inner.moves refl st)

-- The user's call waits for a session to stop, and where it goes then.
abbrev pub waits : Caller → Bool
waits Caller.joining = true
waits Caller.disconnecting = true
waits Caller.destroying = true
waits _ = false

abbrev pub is_blocked : Caller → Bool
is_blocked Caller.starting = true
is_blocked x = waits x

starting_or_not : (x : Caller) → is_blocked x ≡ true → (waits x ≡ true) ⊎ (x ≡ Caller.starting)
starting_or_not x b = ground (arith, b)

abbrev pub after : Caller → Caller
after Caller.joining = Caller.dialing
after Caller.disconnecting = Caller.idle
after Caller.destroying = Caller.gone
after Caller.starting = Caller.idle
after x = x

awaited :
    (x : Caller) (o : Option Session)
    → waits x ≡ true
    → Holds x o
    → (s : Session) × (o ≡ some s) × IsOver s
awaited Caller.joining (some s) w h = (s, refl, h)
awaited Caller.disconnecting (some s) w h = (s, refl, h)
awaited Caller.destroying (some s) w h = (s, refl, h)
awaited Caller.joining none w h = absurd h
awaited Caller.disconnecting none w h = absurd h
awaited Caller.destroying none w h = absurd h
awaited Caller.idle o w h = absurd (ground (arith, w))
awaited Caller.dialing o w h = absurd (ground (arith, w))
awaited Caller.starting o w h = absurd (ground (arith, w))
awaited Caller.gone o w h = absurd (ground (arith, w))

-- The wait is over when the session has stopped.
returns :
    (x : Caller) (c : Client) (s : Session)
    → c.caller ≡ x
    → waits x ≡ true
    → c.session ≡ some s
    → s.state ≡ Status.stopped
    → (d : Client) × Step c d × (d.caller ≡ after x)
unfolding connect_joined disconnected destroyed
returns Caller.joining c s e w f g = (connect_joined s c, Step.joins e f g, refl)
returns Caller.disconnecting c s e w f g = (disconnected c, Step.leaves e f g, refl)
returns Caller.destroying c s e w f g = (destroyed c, Step.ends e f g, refl)
returns Caller.idle c s e w f g = absurd (ground (arith, w))
returns Caller.dialing c s e w f g = absurd (ground (arith, w))
returns Caller.starting c s e w f g = absurd (ground (arith, w))
returns Caller.gone c s e w f g = absurd (ground (arith, w))

not_running : (s : Session) → is_running s.state ≡ false → s.state ≢ Status.running
not_running s h e = ground (arith, h, e)

starting_session :
    (o : Option Session) → Holds Caller.starting o → (s : Session) × (o ≡ some s) × IsBegun s
starting_session none h = absurd h
starting_session (some s) h = (s, refl, h)

-- `start()` returns, or throws and `connect()` drops the session.
leaves_start :
    (c : Client) (s : Session)
    → c.caller ≡ Caller.starting
    → c.session ≡ some s
    → HasStarted s
    → (d : Client) × Step c d × (d.caller ≡ Caller.idle)
unfolding start_succeeded start_threw
leaves_start c s e f (inl n) = (start_succeeded c, Step.starts e f n, refl)
leaves_start c s e f (inr (g, u, h)) = ((start_threw s c).0, Step.gives_up e f g u h, refl)

abbrev Goes : Client → Type 0
Goes c =
    (d : Client) × (e : Client) × InnerSteps undisturbed c d
    × Step d e
    × (e.caller ≡ after c.caller)

from_session :
    (c : Client) (s t : Session) (e : Client)
    → c.session ≡ some s
    → Of.Steps undisturbed s t
    → Step (record c { session = some t }) e
    → e.caller ≡ after c.caller
    → Goes c
from_session c s t e f path st there =
    let d = record c { session = some t } in
    (
      d,
      e,
      subst (λ o. InnerSteps undisturbed (record c { session = o }) d) (sym f)
          (session_path c path),
      st,
      there,
    )

waits_end : (c : Client) → Turn c → waits c.caller ≡ true → Goes c
waits_end c h w =
    let (s, f, over) = awaited c.caller c.session w h.current in
    let known = over.exposed.known in
    let (t, path, stopped) = stop_completes known.reach known.begun (not_running s over.halted) in
    let (e, st, there) = returns c.caller (record c { session = some t }) t refl w refl stopped in
    from_session c s t e f path st there

start_continues : (c : Client) → Turn c → c.caller ≡ Caller.starting → Goes c
start_continues c h w =
    let (s, f, begun) = starting_session c.session (subst (λ x. Holds x c.session) w h.current) in
    let (t, path, started) = start_ends begun in
    let (e, st, there) = leaves_start (record c { session = some t }) t w refl started in
    from_session c s t e f path st (there ∙ ap after (sym w))

-- From every reachable client whose user waits for a session (in `connect()` for the previous one
-- to stop or for the new one to start, in `disconnect()` or in the destructor): by steps of the session
-- alone, with nobody calling and nothing failing but what a closed socket makes fail, the wait can
-- come to its end, and the call go on: `connect()` from the first wait to dial and from the second to
-- its end, `disconnect()` and the destructor to their ends.
pub calls_go_on :
    (c : Client)
    → Reach c
    → is_blocked c.caller ≡ true
    → (d : Client) × (e : Client) × InnerSteps undisturbed c d
      × Step d e
      × (e.caller ≡ after c.caller)
calls_go_on c h b = elim (starting_or_not c.caller b) [
  | inl w ↦ waits_end c (Reach-Turn h) w
  | inr w ↦ start_continues c (Reach-Turn h) w
]
