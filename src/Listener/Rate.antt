-- ===== src/Listener/Rate.antt =====
-- How long the listener waits and how often it reports.
use libsg.Common.{
  ℕ, suc, ◌+◌, ◌*◌, ◌%◌, ◌≤◌, ◌<◌, ◌≡◌, ◌⊎◌, true, false, some, List, [], ◌∷◌, ◌++◌, arith,
}
use libsg.Listener.{
  ErrorCode, Attempt, Action, Listener, is_transient_accept_error, fresh, back_off, accept_error,
  turn, listen,
}

-- the time waited, in milliseconds
abbrev pub total_wait : List Action → ℕ
total_wait [] = 0
total_wait (Action.waited t ∷ xs) = t + total_wait xs
total_wait (_ ∷ xs) = total_wait xs

abbrev pub report_count : List Action → ℕ
report_count [] = 0
report_count (Action.reported ec ∷ xs) = suc (report_count xs)
report_count (_ ∷ xs) = report_count xs

total_wait-append : (xs ys : List Action) → total_wait (xs ++ ys) ≡ total_wait xs + total_wait ys
total_wait-append [] ys = omega arith
total_wait-append (Action.waited t ∷ xs) ys = ground (arith, total_wait-append xs ys)
total_wait-append (Action.reported t ∷ xs) ys = total_wait-append xs ys
total_wait-append (Action.created t ∷ xs) ys = total_wait-append xs ys
total_wait-append (Action.stops ∷ xs) ys = total_wait-append xs ys

report_count-append :
    (xs ys : List Action) → report_count (xs ++ ys) ≡ report_count xs + report_count ys
report_count-append [] ys = omega arith
report_count-append (Action.reported t ∷ xs) ys = ground (arith, report_count-append xs ys)
report_count-append (Action.waited t ∷ xs) ys = report_count-append xs ys
report_count-append (Action.created t ∷ xs) ys = report_count-append xs ys
report_count-append (Action.stops ∷ xs) ys = report_count-append xs ys

-- a turn that fails for want of a resource, while no stop is under way
abbrev pub FailsTransiently : Attempt → Type 0
FailsTransiently a =
    (a.stop_before ≡ false)
    × (a.stop_after ≡ false)
    × ((ec : ErrorCode) × (a.ec ≡ some ec) × (is_transient_accept_error ec ≡ true))

abbrev pub AllFail : List Attempt → Type 0
AllFail [] = Unit
AllFail (a ∷ xs) = FailsTransiently a × AllFail xs

-- The backoff is one of the doublings, and the reports are paid for by the time waited.
record Paced (l : Listener) : Type 0 where
  bounds : (1 ≤ l.backoff) × (l.backoff ≤ 500)
  doubled : (l.backoff ≡ 1) ⊎ ((l.backoff ≡ 2) ⊎ (l.backoff % 4 ≡ 0))
  early : l.backoff < 500 → (l.backoff ≤ total_wait l.log + 1) × (report_count l.log ≤ 1)
  unreported : l.backoff ≡ 1 → report_count l.log ≡ 0
  late : l.backoff ≡ 500 → 500 * report_count l.log ≤ total_wait l.log
  alive : l.listening ≡ true

back_off-Paced : (ec : ErrorCode) (l : Listener) → Paced l → Paced (back_off ec l)
unfolding back_off
back_off-Paced ec l p =
    let a = total_wait-append l.log (Action.reported ec ∷ []) in
    let b = total_wait-append (l.log ++ (Action.reported ec ∷ [])) (Action.waited l.backoff ∷ []) in
    let c = total_wait-append l.log (Action.waited l.backoff ∷ []) in
    let d = report_count-append l.log (Action.reported ec ∷ []) in
    let e =
      report_count-append (l.log ++ (Action.reported ec ∷ [])) (Action.waited l.backoff ∷ []) in
    let f = report_count-append l.log (Action.waited l.backoff ∷ []) in
    ground (arith, p, a, b, c, d, e, f)

listen-Paced : (xs : List Attempt) (l : Listener) → AllFail xs → Paced l → Paced (listen xs l)
unfolding listen turn accept_error
listen-Paced [] l h p = p
listen-Paced (a ∷ xs) l (f, h) p =
    let (ec, e, t) = f.2 in
    ground (arith, p, f, e, t, listen-Paced xs (back_off ec l) h (back_off-Paced ec l p))

-- However many accepts fail in a row for want of a resource while no stop is under way, the
-- listener goes on listening, its next wait is between a millisecond and half a second, and the
-- number of its reports is at most one more than the half seconds that it has waited.
pub failures_in_a_row :
    (xs : List Attempt)
    → AllFail xs
    → let l = listen xs fresh in
      (l.listening ≡ true)
      × (1 ≤ l.backoff)
      × (l.backoff ≤ 500)
      × (500 * report_count l.log ≤ total_wait l.log + 500)
unfolding listen
failures_in_a_row xs h = let p = listen-Paced xs fresh h (ground arith) in ground (arith, p)
