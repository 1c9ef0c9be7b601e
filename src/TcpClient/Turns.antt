-- ===== src/TcpClient/Turns.antt =====
-- The client has its sessions one after the other.
use libsg.Common.{
  ◌≡◌, ◌&&◌, Bool, true, false, Option, none, some, List, [], ◌∷◌, arith, refl, Option-cases,
  Bool-cases, inl, inr, subst, sym,
}
use libsg.TcpSession.{Session, Status, Options, Callbacks, ErrorCode, is_running}
use libsg.TcpSession.Calls.{create, start, stop_async}
use libsg.TcpSession.Lifecycle.{disconnects, one_if}
use libsg.TcpSession.System as Of
use libsg.TcpClient.{
  Client, Caller, connect, connect_joined, dial_fails, dial_succeeds, start_succeeded, start_threw,
  disconnect, disconnected, destroy, destroyed, in_pool,
}
use libsg.TcpClient.System.{rules, Inner, Step, Reach, created, later}
use libsg.TcpClient.Sessions.{
  IsBegun, IsExposed, IsOver, IsRetired, Step-IsBegun, Step-IsExposed, Step-IsOver,
  stop_async-IsOver, spawned-IsExposed, created-IsBegun, IsRetired-told,
}

-- What `m_session` is, wherever the user's call stands.
abbrev pub Holds : Caller → Option Session → Type 0
Holds Caller.idle none = Unit {0}
Holds Caller.idle (some s) = IsExposed s
Holds Caller.joining none = ⊥
Holds Caller.joining (some s) = IsOver s
Holds Caller.dialing none = Unit {0}
Holds Caller.dialing (some s) = ⊥
Holds Caller.starting none = ⊥
Holds Caller.starting (some s) = IsBegun s
Holds Caller.disconnecting none = ⊥
Holds Caller.disconnecting (some s) = IsOver s
Holds Caller.destroying none = ⊥
Holds Caller.destroying (some s) = IsOver s
Holds Caller.gone none = Unit {0}
Holds Caller.gone (some s) = IsOver s

abbrev pub AllRetired : List Session → Type 0
AllRetired [] = Unit {0}
AllRetired (s ∷ ss) = IsRetired s × AllRetired ss

pub record Turn (c : Client) : Type 0 where
  pub current : Holds c.caller c.session
  pub before : AllRetired c.retired

moves-Holds : (x : Caller) {s t : Session} → Of.Step rules s t → Holds x (some s) → Holds x (some t)
moves-Holds Caller.idle st h = Step-IsExposed st h
moves-Holds Caller.joining st h = Step-IsOver st h
moves-Holds Caller.dialing st h = h
moves-Holds Caller.starting st h = Step-IsBegun st h
moves-Holds Caller.disconnecting st h = Step-IsOver st h
moves-Holds Caller.destroying st h = Step-IsOver st h
moves-Holds Caller.gone st h = Step-IsOver st h

-- the session that the call in hand is about
held :
    (x : Caller) (c : Client) {s : Session}
    → c.caller ≡ x
    → c.session ≡ some s
    → Turn c
    → Holds x (some s)
held x c e f t = subst (λ o. Holds x o) f (subst (λ y. Holds y c.session) e t.current)

by_equation : (c d : Client) → c ≡ d → Turn d → Turn c
by_equation c d e t = subst Turn (sym e) t

connect-Turn : (p : Bool) (c : Client) → c.caller ≡ Caller.idle → Turn c → Turn (connect p c).0
unfolding connect
connect-Turn p c e t = elim (Bool-cases (in_pool p c)) [
  | inl b ↦ by_equation (connect p c).0 c (ground (arith, b)) t
  | inr b ↦ elim (Option-cases c.session) [
    | inl f ↦
        by_equation (connect p c).0 (record c { session = none; caller = Caller.dialing })
          (ground (arith, b, f)) (record { current = tt; before = t.before })
    | inr (s, f) ↦ elim (Bool-cases (is_running s.state)) [
      | inl r ↦ by_equation (connect p c).0 c (ground (arith, b, f, r)) t
      | inr r ↦
          by_equation (connect p c).0
            (record c { session = some (stop_async s); caller = Caller.joining })
            (ground (arith, b, f, r))
            (record { current = stop_async-IsOver s (held Caller.idle c e f t); before = t.before })
    ]
  ]
]

disconnect-Turn :
    (p : Bool) (c : Client) → c.caller ≡ Caller.idle → Turn c → Turn (disconnect p c).0
unfolding disconnect
disconnect-Turn p c e t = elim (Bool-cases (in_pool p c)) [
  | inl b ↦ by_equation (disconnect p c).0 c (ground (arith, b)) t
  | inr b ↦ elim (Option-cases c.session) [
    | inl f ↦ by_equation (disconnect p c).0 c (ground (arith, b, f)) t
    | inr (s, f) ↦
        by_equation (disconnect p c).0
          (record c { session = some (stop_async s); caller = Caller.disconnecting })
          (ground (arith, b, f))
          (record { current = stop_async-IsOver s (held Caller.idle c e f t); before = t.before })
  ]
]

destroy-Turn : (p : Bool) (c : Client) → c.caller ≡ Caller.idle → Turn c → Turn (destroy p c)
unfolding destroy
destroy-Turn p c e t = elim (Option-cases c.session) [
  | inl f ↦
      by_equation (destroy p c) (record c { session = none; caller = Caller.gone })
        (ground (arith, f)) (record { current = tt; before = t.before })
  | inr (s, f) ↦
      let over = stop_async-IsOver s (held Caller.idle c e f t) in
      elim (Bool-cases (in_pool p c)) [
        | inl b ↦
            by_equation (destroy p c)
              (record c { session = some (stop_async s); caller = Caller.gone })
              (ground (arith, b, f)) (record { current = over; before = t.before })
        | inr b ↦
            by_equation (destroy p c)
              (record c { session = some (stop_async s); caller = Caller.destroying })
              (ground (arith, b, f)) (record { current = over; before = t.before })
      ]
]

-- No session is there while `connect()` has none.
dialing-none : (o : Option Session) → Holds Caller.dialing o → o ≡ none
dialing-none none h = refl
dialing-none (some s) h = absurd h

none_held : (c : Client) → c.caller ≡ Caller.dialing → Turn c → c.session ≡ none
none_held c e t = dialing-none c.session (subst (λ y. Holds y c.session) e t.current)

dial_succeeds-Turn :
    (o : Options) (k : Callbacks) (c : Client)
    → c.caller ≡ Caller.dialing
    → Turn c
    → Turn (dial_succeeds o k c).0
unfolding dial_succeeds
dial_succeeds-Turn o k c e t =
    let k' = record k { on_connected = false } in
    elim (Option-cases (create o k')) [
      | inl f ↦
          by_equation (dial_succeeds o k c).0
            (record c { has_context = true; session = none; caller = Caller.idle })
            (ground (arith, f, none_held c e t)) (record { current = tt; before = t.before })
      | inr (s, f) ↦
          by_equation (dial_succeeds o k c).0
            (record c { has_context = true; session = some (start s).0; caller = Caller.starting })
            (ground (arith, f)) (record { current = created-IsBegun o k' f; before = t.before })
    ]

dial_fails-Turn :
    (ec : ErrorCode) (c : Client) → c.caller ≡ Caller.dialing → Turn c → Turn (dial_fails ec c).0
unfolding dial_fails
dial_fails-Turn ec c e t =
    by_equation (dial_fails ec c).0
      (record c { has_context = true; session = none; caller = Caller.idle })
      (ground (arith, none_held c e t)) (record { current = tt; before = t.before })

over-IsRetired : (s : Session) → IsOver s → s.state ≡ Status.stopped → IsRetired s
over-IsRetired s k e = record { known = k.exposed.known; ended = e }

-- A wait is over, and the client keeps its session.
keeps-Turn :
    (x y : Caller) (c : Client) {s : Session}
    → c.caller ≡ x
    → c.session ≡ some s
    → (Holds x (some s) → Holds y (some s))
    → Turn c
    → Turn (record c { caller = y })
keeps-Turn x y c e f g t = record {
  current = subst (λ o. Holds y o) (sym f) (g (held x c e f t));
  before = t.before;
}

Step-Turn : {c d : Client} → Step c d → Turn c → Turn d
unfolding connect_joined start_succeeded start_threw disconnected destroyed
Step-Turn {c} (Step.inner (Inner.moves f st)) t = record {
  current = moves-Holds c.caller st (held c.caller c refl f t);
  before = t.before;
}
Step-Turn {c} (Step.connects p e) t = connect-Turn p c e t
Step-Turn {c} (Step.joins {s} e f g) t = record {
  current = tt;
  before = (over-IsRetired s (held Caller.joining c e f t) g, t.before);
}
Step-Turn {c} (Step.dials_in_vain ec e) t = dial_fails-Turn ec c e t
Step-Turn {c} (Step.dials o k e) t = dial_succeeds-Turn o k c e t
Step-Turn {c} (Step.starts {s} e f n) t =
    keeps-Turn Caller.starting Caller.idle c e f (spawned-IsExposed s n) t
Step-Turn {c} (Step.gives_up e f g u n) t = record {
  current = tt;
  before = (record { known = held Caller.starting c e f t; ended = n }, t.before);
}
Step-Turn {c} (Step.disconnects p e) t = disconnect-Turn p c e t
Step-Turn {c} (Step.leaves e f g) t =
    keeps-Turn Caller.disconnecting Caller.idle c e f (λ k. k.exposed) t
Step-Turn {c} (Step.destroys p e) t = destroy-Turn p c e t
Step-Turn {c} (Step.ends e f g) t = keeps-Turn Caller.destroying Caller.gone c e f (λ k. k) t

pub Reach-Turn : {c : Client} → Reach c → Turn c
Reach-Turn (created b) = record { current = tt; before = tt }
Reach-Turn (later h st) = Step-Turn st (Reach-Turn h)

-- The session has stopped, and `onDisconnected` was invoked once if the session had been connected.
abbrev pub HaveEnded : List Session → Type 0
HaveEnded [] = Unit {0}
HaveEnded (s ∷ ss) =
    (s.state ≡ Status.stopped)
    × (disconnects s.events ≡ one_if (s.owed && s.callbacks.on_disconnected))
    × HaveEnded ss

have_ended : (ss : List Session) → AllRetired ss → HaveEnded ss
have_ended [] h = tt
have_ended (s ∷ ss) (k, h) = (k.ended, IsRetired-told s k, have_ended ss h)

abbrev HasBeenConnected : Option Session → Type 0
HasBeenConnected none = Unit {0}
HasBeenConnected (some s) = s.owed ≡ true

-- When no call of the user is under way, `session()` gives only a session that has been connected.
abbrev pub Exposes : Caller → Option Session → Type 0
Exposes Caller.idle o = HasBeenConnected o
Exposes _ o = Unit {0}

exposed : (o : Option Session) → Holds Caller.idle o → HasBeenConnected o
exposed none h = tt
exposed (some s) h = h.owing

exposes : (x : Caller) (o : Option Session) → Holds x o → Exposes x o
exposes Caller.idle o h = exposed o h
exposes Caller.joining o h = tt
exposes Caller.dialing o h = tt
exposes Caller.starting o h = tt
exposes Caller.disconnecting o h = tt
exposes Caller.destroying o h = tt
exposes Caller.gone o h = tt

-- Whatever the user, the pool and the peers do: every session that the client has had before its
-- current one has stopped, and its `onDisconnected` was invoked exactly once if it had been connected
-- and never otherwise, so that only the current session can be running; and when no call of the
-- user is under way, the session that `session()` gives, if any, had been connected.
pub one_session_at_a_time :
    (c : Client) → Reach c → HaveEnded c.retired × Exposes c.caller c.session
one_session_at_a_time c h =
    let t = Reach-Turn h in (have_ended c.retired t.before, exposes c.caller c.session t.current)
