-- ===== src/StateMachine/Sessions.antt =====
-- common/include/sg/state_machine.h: what other threads may ask of a machine, and one input to it.
use libsg.Common.{ℕ, ◌≡◌, Bool, true, false, Option, none, some, List, [], ◌∷◌, append-nil, arith}
use libsg.StateMachine.{Machine, Config, Event, Behaviour, set_state, invoke_some, Input, act}
use libsg.StateMachine.Behaving.{
  IsRegistered, WellBehaved, Played, Ready, invoke-Played, tick_action-Entered,
}

-- another thread asks only for registered states
abbrev pub IsAllowed : List (ℕ × Config) → Input → Type 0
IsAllowed st (Input.sets s) = IsRegistered st s
IsAllowed st Input.ticks = Unit

abbrev pub AllAllowed : List (ℕ × Config) → List Input → Type 0
AllAllowed st [] = Unit
AllAllowed st (i ∷ is) = IsAllowed st i × AllAllowed st is

abbrev pub has_tick : List Input → Bool
has_tick [] = false
has_tick (Input.sets s ∷ is) = has_tick is
has_tick (Input.ticks ∷ is) = true

abbrev pub some_event : (ℕ → Event) → Option ℕ → List Event
some_event f none = []
some_event f (some cb) = f cb ∷ []

pub invoke_some-Played :
    {st : List (ℕ × Config)} {b : Behaviour}
    → WellBehaved st b
    → (f : ℕ → Event) (o : Option ℕ) (m : Machine)
    → Played st (some_event f o) m (invoke_some b f o m)
unfolding invoke_some
invoke_some-Played w f none m = ground (arith, append-nil m.log)
invoke_some-Played w f (some cb) m = invoke-Played w (f cb) m

module _ {st : List (ℕ × Config)} {b : Behaviour} (w : WellBehaved st b) {stop : Option ℕ} where
  pub act-Ready :
      (i : Input) (m : Machine)
      → Ready st stop m
      → IsAllowed st i
      → ((act b i m).1 ≡ false) × Ready st stop (act b i m).0
  unfolding act set_state
  act-Ready (Input.sets s) m r ok = ground (arith, r, ok)
  act-Ready Input.ticks m r ok = let e = tick_action-Entered w m r in ground (arith, e, r)
