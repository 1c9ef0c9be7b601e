-- ===== src/Listener/Course.antt =====
-- What ends the listener, and which ids it gives.
use libsg.Common.{
  ℕ, zero, suc, ◌≡◌, ◌⊎◌, inl, inr, ◌+◌, ◌^◌, ◌<◌, ◌≤◌, length, true, false, none, some, List, [],
  ◌∷◌, ◌++◌, if◌then◌else◌, arith, refl, add64, append-nil,
}
use libsg.Listener.{
  ErrorCode, Attempt, Action, Listener, Verdict, is_transient_accept_error, is_aborted, fresh,
  fatal, back_off, accept_error, filter, accept_connection, turn, listen,
}

-- no stop is under way, and an error, if there is one, is of those to be retried
abbrev pub Recovers : Attempt → Type 0
Recovers a =
    (a.stop_before ≡ false)
    × (a.stop_after ≡ false)
    × ((a.ec ≡ none)
        ⊎ ((ec : ErrorCode) × (a.ec ≡ some ec) × (is_transient_accept_error ec ≡ true)))

abbrev pub AllRecover : List Attempt → Type 0
AllRecover [] = Unit
AllRecover (a ∷ xs) = Recovers a × AllRecover xs

filter-keeps :
    (v : Verdict) (l : Listener)
    → ((filter v l).listening ≡ l.listening)
      × ((filter v l).last_error ≡ l.last_error)
      × ((filter v l).backoff ≡ l.backoff)
unfolding filter
filter-keeps Verdict.accepts l = (refl, refl, refl)
filter-keeps _ l = (refl, refl, refl)

turn-keeps :
    (a : Attempt) (l : Listener)
    → Recovers a
    → l.listening ≡ true
    → ((turn a l).listening ≡ true) × ((turn a l).last_error ≡ l.last_error)
unfolding turn accept_error accept_connection back_off
turn-keeps a l (p, q, inl e) h =
    let f = filter-keeps a.verdict (record l { backoff = 1 }) in ground (arith, p, q, e, h, f)
turn-keeps a l (p, q, inr (ec, e, t)) h = ground (arith, p, q, e, t, h)

-- Whatever accepts fail for want of a resource, and whatever the filter decides or throws, the
-- listener goes on listening and records no error, as long as no stop is under way and no other
-- error comes. The first other error ends it: it is recorded, unless it says that the acceptor was
-- closed, and the server is told to stop.
pub only_fatal_ends :
    (xs : List Attempt) (a : Attempt) (ec : ErrorCode) (l : Listener)
    → AllRecover xs
    → a.stop_before ≡ false
    → a.ec ≡ some ec
    → is_transient_accept_error ec ≡ false
    → l.listening ≡ true
    → l.last_error ≡ none
    → ((listen xs l).listening ≡ true)
      × ((listen xs l).last_error ≡ none)
      × (listen (xs ++ (a ∷ [])) l ≡ fatal ec (listen xs l))
      × ((listen (xs ++ (a ∷ [])) l).listening ≡ false)
      × ((listen (xs ++ (a ∷ [])) l).last_error ≡ (if is_aborted ec then none else some ec))
unfolding listen turn accept_error fatal
only_fatal_ends [] a ec l r p e t h n = ground (arith, p, e, t, h, n)
only_fatal_ends (x ∷ xs) a ec l (r, rs) p e t h n =
    let k = turn-keeps x l r h in
    let u = turn x l in
    ground (arith, h, only_fatal_ends xs a ec u rs p e t k.0 (ground (arith, k, n)))

-- the ids of the sessions that were created, in order
abbrev pub ids : List Action → List ℕ
ids [] = []
ids (Action.created n ∷ xs) = n ∷ ids xs
ids (_ ∷ xs) = ids xs

ids-append : (xs ys : List Action) → ids (xs ++ ys) ≡ ids xs ++ ids ys
ids-append [] ys = refl
ids-append (Action.created t ∷ xs) ys = ground (arith, ids-append xs ys)
ids-append (Action.reported t ∷ xs) ys = ids-append xs ys
ids-append (Action.waited t ∷ xs) ys = ids-append xs ys
ids-append (Action.stops ∷ xs) ys = ids-append xs ys

-- 0, 1, ... below a number
abbrev pub iota : ℕ → List ℕ
iota zero = []
iota (suc n) = iota n ++ (n ∷ [])

abbrev Counted : Listener → Type 0
Counted l = ids l.log ≡ iota l.last_id

-- the id before and after a turn
abbrev Near : ℕ → Listener → Type 0
Near n l = l.last_id ≤ n + 1

filter-Near : (v : Verdict) (l : Listener) → l.last_id + 1 < 2 ^ 64 → Near l.last_id (filter v l)
unfolding filter
filter-Near Verdict.accepts l h = ground arith
filter-Near Verdict.rejects l h = ground arith
filter-Near Verdict.throws l h = ground arith

filter-Counted :
    (v : Verdict) (l : Listener) → l.last_id + 1 < 2 ^ 64 → Counted l → Counted (filter v l)
unfolding filter
filter-Counted Verdict.accepts l small h =
    let next : add64 l.last_id 1 ≡ suc l.last_id = ground arith in
    ground (arith, h, next, ids-append l.log (Action.created l.last_id ∷ []))
filter-Counted Verdict.rejects l small h = h
filter-Counted Verdict.throws l small h = h

back_off-Counted : (ec : ErrorCode) (l : Listener) → Counted l → Counted (back_off ec l)
unfolding back_off
back_off-Counted ec l h =
    let a = ids-append l.log (Action.reported ec ∷ []) in
    let b = ids-append (l.log ++ (Action.reported ec ∷ [])) (Action.waited l.backoff ∷ []) in
    let c = ids-append l.log (Action.waited l.backoff ∷ []) in
    ground (arith, h, a, b, c, append-nil (ids l.log))

fatal-Counted : (ec : ErrorCode) (l : Listener) → Counted l → Counted (fatal ec l)
unfolding fatal
fatal-Counted ec l h =
    ground (arith, h, ids-append l.log (Action.stops ∷ []), append-nil (ids l.log))

turn-Counted :
    (a : Attempt) (l : Listener)
    → l.last_id + 1 < 2 ^ 64
    → Counted l
    → Counted (turn a l) × Near l.last_id (turn a l)
unfolding turn accept_error accept_connection back_off fatal
turn-Counted a l small h =
    elim a.ec as (λ o. let u = turn (record a { ec = o }) l in Counted u × Near l.last_id u) [
      | some ec ↦ ground (arith, h, back_off-Counted ec l h, fatal-Counted ec l h)
      | none ↦
          let reset = record l { backoff = 1 } in
          ground
            (arith, h, filter-Counted a.verdict reset small h, filter-Near a.verdict reset small)
    ]

listen-Counted :
    (xs : List Attempt) (l : Listener)
    → l.last_id + length xs < 2 ^ 64
    → Counted l
    → Counted (listen xs l)
unfolding listen
listen-Counted [] l small h = h
listen-Counted (a ∷ xs) l small h =
    let (c, n) = turn-Counted a l (ground arith) h in
    ground (arith, h, listen-Counted xs (turn a l) (ground (arith, n)) c)

-- From the start and for fewer than 2 ^ 64 turns of the loop, the sessions that the listener creates
-- get the ids 0, 1, 2 and so on in this order: a connection that fails, comes during a stop or is
-- rejected takes none.
pub ids_consecutive :
    (xs : List Attempt)
    → length xs < 2 ^ 64
    → ids (listen xs fresh).log ≡ iota (listen xs fresh).last_id
ids_consecutive xs h = listen-Counted xs fresh (omega arith) refl
