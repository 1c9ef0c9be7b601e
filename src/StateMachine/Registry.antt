-- ===== src/StateMachine/Registry.antt =====
-- The map of states and their callbacks, which is filled before the machine is started.
use libsg.Common.{
  ℕ, ◌≡◌, ◌≢◌, true, false, Option, none, some, List, [], ◌∷◌, ◌++◌, ◌==◌, if◌then◌else◌, arith,
}
use libsg.StateMachine.{Machine, Config, lookup}

-- the exceptions of the members below
pub data Refusal : Type 0 where
  machine_running already_added : Refusal

abbrev pub no_callbacks : Config
no_callbacks = record { ticks = []; entry_cb = []; exit_cb = [] }

-- `m_states[s]`, which adds an empty entry if there is none, and a change of that entry
unfoldable pub update : ℕ → (Config → Config) → List (ℕ × Config) → List (ℕ × Config)
update s f [] = (s, f no_callbacks) ∷ []
update s f (p ∷ ps) = let rest = update s f ps in if p.0 == s then (s, f p.1) ∷ ps else p ∷ rest

-- `std::map::erase`
unfoldable pub erase : ℕ → List (ℕ × Config) → List (ℕ × Config)
erase s [] = []
erase s (p ∷ ps) = let rest = erase s ps in if p.0 == s then rest else p ∷ rest

unfoldable pub add_state : ℕ → Machine → Machine × Option Refusal
unfolding lookup update
add_state s m = if m.running then (m, some Refusal.machine_running) else (elim (lookup s m.states) [
  | some c ↦ (m, some Refusal.already_added)
  | none ↦ (record m { states = update s (λ c. no_callbacks) m.states }, none)
])

unfoldable pub remove_state : ℕ → Machine → Machine × Option Refusal
unfolding erase
remove_state s m =
    if m.running
    then (m, some Refusal.machine_running)
    else (record m { states = erase s m.states }, none)

unfoldable pub add_tick_callback : ℕ → ℕ → Machine → Machine
unfolding update
add_tick_callback s cb m = record m {
  states = update s (λ c. record c { ticks = c.ticks ++ (cb ∷ []) }) m.states;
}

unfoldable pub add_entry_callback : ℕ → ℕ → Machine → Machine
unfolding update
add_entry_callback s cb m = record m {
  states = update s (λ c. record c { entry_cb = c.entry_cb ++ (cb ∷ []) }) m.states;
}

unfoldable pub add_exit_callback : ℕ → ℕ → Machine → Machine
unfolding update
add_exit_callback s cb m = record m {
  states = update s (λ c. record c { exit_cb = c.exit_cb ++ (cb ∷ []) }) m.states;
}

unfoldable pub set_machine_started_cb : Option ℕ → Machine → Machine × Option Refusal
set_machine_started_cb cb m =
    if m.running then (m, some Refusal.machine_running) else (record m { on_start_cb = cb }, none)

unfoldable pub set_machine_stopped_cb : Option ℕ → Machine → Machine × Option Refusal
set_machine_stopped_cb cb m =
    if m.running then (m, some Refusal.machine_running) else (record m { on_stop_cb = cb }, none)

abbrev pub or_empty : Option Config → Config
or_empty none = no_callbacks
or_empty (some c) = c

lookup-update :
    (s : ℕ) (f : Config → Config) (l : List (ℕ × Config))
    → lookup s (update s f l) ≡ some (f (or_empty (lookup s l)))
unfolding lookup update
lookup-update s f [] = ground arith
lookup-update s f (p ∷ ps) = ground (arith, lookup-update s f ps)

lookup-update_other :
    (s t : ℕ) (f : Config → Config) (l : List (ℕ × Config))
    → s ≢ t
    → lookup t (update s f l) ≡ lookup t l
unfolding lookup update
lookup-update_other s t f [] h = ground arith
lookup-update_other s t f (p ∷ ps) h = ground (arith, lookup-update_other s t f ps h)

lookup-erase :
    (s t : ℕ) (l : List (ℕ × Config)) → lookup t (erase s l) ≡ (if s == t then none else lookup t l)
unfolding lookup erase
lookup-erase s t [] = ground arith
lookup-erase s t (p ∷ ps) = ground (arith, lookup-erase s t ps)

-- While the machine does not run, a state that is missing is added without callbacks, and the other
-- states stay as they are; adding it again is refused and changes nothing; after its removal it is
-- missing again. While the machine runs, adding and removing are refused and change nothing.
pub add_state-remove_state :
    (s : ℕ) (m : Machine)
    → lookup s m.states ≡ none
    → let added = add_state s m in
      (m.running ≡ false
        → (added.1 ≡ none)
          × (lookup s added.0.states ≡ some no_callbacks)
          × ((t : ℕ) → s ≢ t → lookup t added.0.states ≡ lookup t m.states)
          × (add_state s added.0 ≡ (added.0, some Refusal.already_added))
          × (lookup s (remove_state s added.0).0.states ≡ none))
      × (m.running ≡ true
          → (added ≡ (m, some Refusal.machine_running))
            × (remove_state s m ≡ (m, some Refusal.machine_running)))
unfolding add_state remove_state
add_state-remove_state s m h =
    let kept = lookup-update s (λ c. no_callbacks) m.states in
    let gone = lookup-erase s s (update s (λ c. no_callbacks) m.states) in
    (
      λ q. (
        ground (arith, q, h),
        ground (arith, q, h, kept),
        λ t o. ground (arith, q, h, lookup-update_other s t (λ c. no_callbacks) m.states o),
        ground (arith, q, h, kept),
        ground (arith, q, h, gone),
      ),
      λ q. (ground (arith, q), ground (arith, q)),
    )

-- Each of the three functions that add a callback puts it after the others of its kind in that
-- state (which is created if it is missing), and changes neither the other kinds nor other states.
pub add_callback-lookup :
    (s cb : ℕ) (m : Machine)
    → let old = or_empty (lookup s m.states) in
      (lookup s (add_tick_callback s cb m).states
        ≡ some (record old { ticks = old.ticks ++ (cb ∷ []) }))
      × (lookup s (add_entry_callback s cb m).states
          ≡ some (record old { entry_cb = old.entry_cb ++ (cb ∷ []) }))
      × (lookup s (add_exit_callback s cb m).states
          ≡ some (record old { exit_cb = old.exit_cb ++ (cb ∷ []) }))
      × ((t : ℕ)
          → s ≢ t
          → (lookup t (add_tick_callback s cb m).states ≡ lookup t m.states)
            × (lookup t (add_entry_callback s cb m).states ≡ lookup t m.states)
            × (lookup t (add_exit_callback s cb m).states ≡ lookup t m.states))
unfolding add_tick_callback add_entry_callback add_exit_callback
add_callback-lookup s cb m =
    let tick = λ (c : Config). record c { ticks = c.ticks ++ (cb ∷ []) } in
    let entry = λ (c : Config). record c { entry_cb = c.entry_cb ++ (cb ∷ []) } in
    let exit = λ (c : Config). record c { exit_cb = c.exit_cb ++ (cb ∷ []) } in
    (
      lookup-update s tick m.states,
      lookup-update s entry m.states,
      lookup-update s exit m.states,
      λ t o. (
        lookup-update_other s t tick m.states o,
        lookup-update_other s t entry m.states o,
        lookup-update_other s t exit m.states o,
      ),
    )
