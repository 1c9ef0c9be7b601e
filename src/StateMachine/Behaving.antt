-- ===== src/StateMachine/Behaving.antt =====
-- Callbacks that behave: what they leave of the machine, alone and over a tick.
use libsg.Common.{
  ℕ, ◌≡◌, ◌≢◌, inl, inr, refl, sym, ◌∙◌, Bool, true, false, Option, none, some, List, [], ◌∷◌, ◌++◌,
  append-nil, append_assoc, ◌==◌, arith, Option-cases, Bool-cases,
}
use libsg.StateMachine.{
  Machine, Config, Event, Behaviour, Outcome, lookup, set_state, set_requested, invoke, and_then,
  invoke_all, with_state, entries, exits, rounds, run_entries, run_exits, run_ticks, enter_initial,
  change_state, tick_action,
}

abbrev pub is_some {ℓ} : {A : Type ℓ} → Option A → Bool
is_some none = false
is_some (some a) = true

abbrev pub IsRegistered : List (ℕ × Config) → ℕ → Type 0
IsRegistered states s = is_some (lookup s states) ≡ true

-- The callbacks throw nothing and ask only for states that are registered.
pub record WellBehaved (states : List (ℕ × Config)) (b : Behaviour) : Type 0 where
  pub calm : (e : Event) (log : List Event) → (b e log).throws ≡ false
  pub sound :
      (e : Event) (log : List Event) (s : ℕ) → (b e log).request ≡ some s → IsRegistered states s

-- Nothing was thrown, and only the log and the request have changed.
pub record Played (states : List (ℕ × Config)) (es : List Event) (m : Machine) (r : Outcome)
    : Type 0 where
  pub calm : r.1 ≡ false
  pub log : r.0.log ≡ m.log ++ es
  pub current : r.0.current_state ≡ m.current_state
  pub just : r.0.just_started ≡ m.just_started
  pub kept : r.0.states ≡ m.states
  pub stop : r.0.on_stop_cb ≡ m.on_stop_cb
  pub wanted : IsRegistered states m.requested_state → IsRegistered states r.0.requested_state

pub invoke-Played :
    {states : List (ℕ × Config)} {b : Behaviour}
    → WellBehaved states b
    → (e : Event) (m : Machine) → Played states (e ∷ []) m (invoke b e m)
unfolding invoke set_requested set_state
invoke-Played {b} w e m = elim (Option-cases (b e m.log).request) [
  | inl h ↦ ground (arith, h, w.calm e m.log)
  | inr (s, h) ↦ ground (arith, h, w.calm e m.log, w.sound e m.log s h)
]

invoke_all-Played :
    {states : List (ℕ × Config)} {b : Behaviour}
    → WellBehaved states b
    → (es : List Event) (m : Machine) → Played states es m (invoke_all b es m)
unfolding invoke_all and_then
invoke_all-Played w [] m = record {
  calm = refl;
  log = sym (append-nil m.log);
  current = refl;
  just = refl;
  kept = refl;
  stop = refl;
  wanted = λ h. h;
}
invoke_all-Played {b} w (e ∷ es) m =
    let p = invoke-Played w e m in
    let q = invoke_all-Played w es (invoke b e m).0 in
    ground (arith, p, q, append_assoc m.log (e ∷ []) es, Bool-cases (invoke b e m).1)

-- One of the three loops of `tick_action`.
pub with_state-Played :
    {st : List (ℕ × Config)} {b : Behaviour} {c : Config}
    → WellBehaved st b
    → (s : ℕ) (f : Config → List Event) (m : Machine) → m.states ≡ st
    → lookup s st ≡ some c
    → Played st (f c) m (with_state s (λ d u. invoke_all b (f d) u) m)
unfolding with_state
with_state-Played {b} {c} w s f m e h =
    let p = invoke_all-Played w (f c) m in ground (arith, p, e, h)

pub Option-some : {o : Option Config} → is_some o ≡ true → (c : Config) × (o ≡ some c)
Option-some {o = none} h = ground arith
Option-some {o = some c} h = (c, refl)

-- Between two ticks: the states are there, and so are the callbacks.
pub record Ready (st : List (ℕ × Config)) (stop : Option ℕ) (m : Machine) : Type 0 where
  pub kept : m.states ≡ st
  pub callback : m.on_stop_cb ≡ stop
  pub here : IsRegistered st m.current_state
  pub wanted : IsRegistered st m.requested_state

-- After a part of a tick: nothing was thrown, and `s` is the current state.
pub record Entered (st : List (ℕ × Config)) (stop : Option ℕ) (s : ℕ) (r : Outcome) : Type 0 where
  pub calm : r.1 ≡ false
  pub just : r.0.just_started ≡ false
  pub kept : r.0.states ≡ st
  pub callback : r.0.on_stop_cb ≡ stop
  pub current : r.0.current_state ≡ s
  pub wanted : IsRegistered st r.0.requested_state

module _ {st : List (ℕ × Config)} {b : Behaviour} (w : WellBehaved st b) {stop : Option ℕ} where
  enter_initial-Entered :
      (m : Machine)
      → Ready st stop m
      → Entered st stop m.current_state (enter_initial b m.current_state m)
  unfolding enter_initial run_entries
  enter_initial-Entered m r = elim (Bool-cases m.just_started) [
    | inl j ↦
        let (c, h) = Option-some r.here in
        let s = m.current_state in
        let p = with_state-Played w s (entries s s) (record m { just_started = false }) r.kept h in
        ground (arith, p, r, j)
    | inr j ↦ ground (arith, r, j)
  ]

  change_state-Entered :
      (s t : ℕ) (m : Machine)
      → Entered st stop s (m, false)
      → IsRegistered st s
      → IsRegistered st t
      → Entered st stop t (change_state b s t m)
  unfolding change_state run_exits run_entries and_then
  change_state-Entered s t m e hs ht = elim (Bool-cases (s == t)) [
    | inl q ↦ let same : s ≡ t = ground arith in ground (arith, q, e, same)
    | inr q ↦
        let other : s ≢ t = ground arith in
        let (c, hc) = Option-some hs in
        let (d, hd) = Option-some ht in
        let p = with_state-Played w s (exits t s) m e.kept hc in
        let u = (run_exits b t s m).0 in
        let n =
          with_state-Played w t (entries t s) (record u { current_state = t }) (p.kept ∙ e.kept)
            hd in
        ground (arith, e, q, p, n)
  ]

  run_ticks-Entered :
      (s : ℕ) (m : Machine)
      → Entered st stop s (m, false)
      → IsRegistered st s
      → Entered st stop s (run_ticks b s m)
  unfolding run_ticks
  run_ticks-Entered s m e hs =
      let (c, h) = Option-some hs in
      let p = with_state-Played w s (rounds s) m e.kept h in ground (arith, p, e)

  pub tick_action-Entered :
      (m : Machine) → Ready st stop m → Entered st stop m.requested_state (tick_action b m)
  unfolding tick_action and_then
  tick_action-Entered m r =
      let e = enter_initial-Entered m r in
      let u = (enter_initial b m.current_state m).0 in
      let f =
        change_state-Entered m.current_state m.requested_state u (ground (arith, e)) r.here
          r.wanted in
      let v = (change_state b m.current_state m.requested_state u).0 in
      let g = run_ticks-Entered m.requested_state v (ground (arith, f)) r.wanted in
      ground (arith, e, f, g)
