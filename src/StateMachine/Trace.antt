-- ===== src/StateMachine/Trace.antt =====
-- A tick invokes the callbacks that are expected of it, and what they ask for is what is requested.
use libsg.Common.{
  ℕ, ◌≡◌, inl, inr, refl, sym, subst, ap, ap₂, ◌∙◌, true, false, some, List, [], ◌∷◌, ◌++◌,
  append-nil, append_assoc, ◌==◌, arith, Option-cases, Bool-cases, if◌then◌else◌,
}
use libsg.StateMachine.{
  Machine, Config, Event, Behaviour, Outcome, lookup, set_state, set_requested, invoke, and_then,
  invoke_all, with_state, entries, exits, rounds, run_entries, run_exits, run_ticks, enter_initial,
  change_state, tick_action,
}
use libsg.StateMachine.Behaving.{
  IsRegistered, WellBehaved, invoke-Played, with_state-Played, Option-some,
}
use libsg.StateMachine.Expected.{or_else, asks, config_of, entering, changing, tick_events, view}

asks-append :
    (b : Behaviour) (log xs ys : List Event) (s : ℕ)
    → asks b log (xs ++ ys) s ≡ asks b (log ++ xs) ys (asks b log xs s)
asks-append b log [] ys s = ap (λ l. asks b l ys s) (sym (append-nil log))
asks-append b log (x ∷ xs) ys s =
    asks-append b (log ++ (x ∷ [])) xs ys (or_else (b x log).request s)
    ∙ ap (λ l. asks b l ys (asks b (log ++ (x ∷ [])) xs (or_else (b x log).request s)))
        (append_assoc log (x ∷ []) xs)

pub config_of-some :
    (states : List (ℕ × Config)) (s : ℕ) (c : Config)
    → lookup s states ≡ some c
    → config_of states s ≡ c
config_of-some states s c h = ground (arith, h)

pub invoke-asked :
    (b : Behaviour) (e : Event) (m : Machine)
    → (invoke b e m).0.requested_state ≡ or_else (b e m.log).request m.requested_state
unfolding invoke set_requested set_state
invoke-asked b e m = elim (Option-cases (b e m.log).request) [
  | inl h ↦ ground (arith, h)
  | inr (s, h) ↦ ground (arith, h)
]

-- These callbacks were invoked, with what they ask for, and nothing was thrown.
pub record Said (b : Behaviour) (es : List Event) (m : Machine) (r : Outcome) : Type 0 where
  pub calm : r.1 ≡ false
  pub log : r.0.log ≡ m.log ++ es
  pub asked : r.0.requested_state ≡ asks b m.log es m.requested_state
  pub kept : r.0.states ≡ m.states

Said-join :
    {b : Behaviour} {es fs : List Event} {m : Machine} {q r : Outcome}
    → Said b es m q
    → Said b fs q.0 r
    → Said b (es ++ fs) m r
Said-join {b} {es} {fs} {m} {q} {r} x y = record {
  calm = y.calm;
  log = y.log ∙ ap (λ l. l ++ fs) x.log ∙ append_assoc m.log es fs;
  asked =
      y.asked
      ∙ ap₂ (λ l s. asks b l fs s) x.log x.asked
      ∙ sym (asks-append b m.log es fs m.requested_state);
  kept = y.kept ∙ x.kept;
}

and_then-Said :
    {b : Behaviour} {es fs : List Event} {m : Machine} (q : Outcome) (f : Machine → Outcome)
    → Said b es m q
    → Said b fs q.0 (f q.0)
    → Said b (es ++ fs) m (and_then f q)
unfolding and_then
and_then-Said {b} {es} {fs} {m} q f x y =
    let goes : and_then f q ≡ f q.0 = ap (λ t. elim t [ true ↦ q | false ↦ f q.0 ]) x.calm in
    subst (λ r. Said b (es ++ fs) m r) (sym goes) (Said-join x y)

module _ {st : List (ℕ × Config)} {b : Behaviour} (w : WellBehaved st b) where
  invoke_all-asked :
      (es : List Event) (m : Machine)
      → (invoke_all b es m).0.requested_state ≡ asks b m.log es m.requested_state
  unfolding invoke_all and_then
  invoke_all-asked [] m = refl
  invoke_all-asked (e ∷ es) m =
      let u = (invoke b e m).0 in
      let p = invoke-Played w e m in
      let rest = invoke_all-asked es u in
      let same = ap₂ (λ l s. asks b l es s) p.log (invoke-asked b e m) in
      ground (arith, p, rest, same)

  loop-Said :
      (s : ℕ) (f : Config → List Event) (m : Machine)
      → m.states ≡ st
      → IsRegistered st s
      → Said b (f (config_of st s)) m (with_state s (λ d u. invoke_all b (f d) u) m)
  unfolding with_state
  loop-Said s f m e h =
      let (c, hc) = Option-some h in
      let p = with_state-Played w s f m e hc in
      let asked = invoke_all-asked (f c) m in
      ground (arith, p, asked, e, hc, config_of-some st s c hc)

  entering-Said :
      (m : Machine)
      → m.states ≡ st
      → IsRegistered st m.current_state
      → Said b (entering st (view m)) m (enter_initial b m.current_state m)
  unfolding enter_initial run_entries
  entering-Said m e h =
      let s = m.current_state in
      let p = loop-Said s (entries s s) (record m { just_started = false }) e h in
      elim (Bool-cases m.just_started) [
        | inl j ↦ ground (arith, p, j)
        | inr j ↦ ground (arith, j, append-nil m.log)
      ]

  changing-Said :
      (s t : ℕ) (m : Machine)
      → m.states ≡ st
      → IsRegistered st s
      → IsRegistered st t
      → Said b (changing st s t) m (change_state b s t m)
  unfolding change_state run_exits run_entries and_then
  changing-Said s t m e hs ht =
      let x = loop-Said s (exits t s) m e hs in
      let u = (run_exits b t s m).0 in
      let y = loop-Said t (entries t s) (record u { current_state = t }) (x.kept ∙ e) ht in
      let moved : Said b (entries t s (config_of st t)) u
          (run_entries b t s (record u { current_state = t })) =
        record { calm = y.calm; log = y.log; asked = y.asked; kept = y.kept } in
      let both =
        and_then-Said (run_exits b t s m) (λ v. run_entries b t s (record v { current_state = t }))
          x moved in
      let none : Said b [] m (m, false) = record {
        calm = refl;
        log = sym (append-nil m.log);
        asked = refl;
        kept = refl;
      } in
      let es = exits t s (config_of st s) ++ entries t s (config_of st t) in
      let r =
        and_then (λ v. run_entries b t s (record v { current_state = t })) (run_exits b t s m) in
      elim (Bool-cases (s == t)) [
        | inl h ↦
            subst (λ q. Said b (if q then [] else es) m (if q then (m, false) else r)) (sym h) none
        | inr h ↦
            subst (λ q. Said b (if q then [] else es) m (if q then (m, false) else r)) (sym h) both
      ]

  pub ticking-Said :
      (m : Machine)
      → m.states ≡ st
      → IsRegistered st m.current_state
      → IsRegistered st m.requested_state
      → Said b (tick_events st (view m)) m (tick_action b m)
  unfolding tick_action and_then run_ticks
  ticking-Said m e hs ht =
      let x = entering-Said m e hs in
      let u = (enter_initial b m.current_state m).0 in
      let y = changing-Said m.current_state m.requested_state u (x.kept ∙ e) hs ht in
      let first = enter_initial b m.current_state m in
      let two = and_then-Said first (λ n. change_state b m.current_state m.requested_state n) x y in
      let second = and_then (λ n. change_state b m.current_state m.requested_state n) first in
      let z = loop-Said m.requested_state (rounds m.requested_state) second.0 (two.kept ∙ e) ht in
      let three = and_then-Said second (λ n. run_ticks b m.requested_state n) two z in
      subst (λ es. Said b es m (tick_action b m))
        (append_assoc (entering st (view m)) (changing st m.current_state m.requested_state)
          (rounds m.requested_state (config_of st m.requested_state)))
        three
