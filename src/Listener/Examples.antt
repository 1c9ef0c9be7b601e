-- ===== src/Listener/Examples.antt =====
-- A listener that runs out of descriptors, recovers, and meets an error that ends it.
use libsg.Common.{
  ◌+◌, ◌*◌, ◌≡◌, ◌≤◌, inl, inr, refl, true, false, none, some, List, [], ◌∷◌, ◌++◌, if◌then◌else◌,
}
use libsg.Listener.{
  ErrorCode, Attempt, Action, Verdict, fresh, fatal, back_off, accept_error, turn, listen,
  is_aborted,
}
use libsg.Listener.Rate.{failures_in_a_row, total_wait, report_count}
use libsg.Listener.Course.{only_fatal_ends}

abbrev failing : Attempt
failing = record {
  stop_before = false;
  ec = some ErrorCode.no_descriptors;
  stop_after = false;
  verdict = Verdict.accepts;
}

abbrev connecting : Verdict → Attempt
connecting v = record { stop_before = false; ec = none; stop_after = false; verdict = v }

abbrev breaking : Attempt
breaking = record {
  stop_before = false;
  ec = some (ErrorCode.other 9);
  stop_after = false;
  verdict = Verdict.accepts;
}

abbrev three_failures : List Attempt
three_failures = failing ∷ failing ∷ failing ∷ []

three_failures_log :
    (listen three_failures fresh).log
    ≡ Action.reported ErrorCode.no_descriptors
      ∷ Action.waited 1
      ∷ Action.waited 2
      ∷ Action.waited 4
      ∷ []
unfolding listen turn accept_error back_off
three_failures_log = refl

failures_in_a_row_example :
    let l = listen three_failures fresh in
    (l.listening ≡ true)
    × (1 ≤ l.backoff)
    × (l.backoff ≤ 500)
    × (500 * report_count l.log ≤ total_wait l.log + 500)
failures_in_a_row_example = failures_in_a_row three_failures (
  (refl, refl, (ErrorCode.no_descriptors, refl, refl)),
  (
    (refl, refl, (ErrorCode.no_descriptors, refl, refl)),
    ((refl, refl, (ErrorCode.no_descriptors, refl, refl)), tt),
  ),
)

abbrev mixed : List Attempt
mixed = failing ∷ connecting Verdict.accepts ∷ connecting Verdict.throws ∷ []

only_fatal_ends_example :
    ((listen mixed fresh).listening ≡ true)
    × ((listen mixed fresh).last_error ≡ none)
    × (listen (mixed ++ (breaking ∷ [])) fresh ≡ fatal (ErrorCode.other 9) (listen mixed fresh))
    × ((listen (mixed ++ (breaking ∷ [])) fresh).listening ≡ false)
    × ((listen (mixed ++ (breaking ∷ [])) fresh).last_error
        ≡ (if is_aborted (ErrorCode.other 9) then none else some (ErrorCode.other 9)))
only_fatal_ends_example =
    only_fatal_ends mixed breaking (ErrorCode.other 9) fresh
      (
        (refl, refl, inr (ErrorCode.no_descriptors, refl, refl)),
        ((refl, refl, inl refl), ((refl, refl, inl refl), tt)),
      )
      refl refl refl refl refl
