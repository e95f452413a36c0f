-- ===== src/Outcome/Summary.antt =====
-- How a mutant's summary follows from the phases that were run on it.
use cargo_mutants.Prelude.{
  ◌≡◌, refl, Bool, true, false, not, ◌&&◌, false≢true, none, some, List, [], ◌∷◌, ◌++◌, arith,
  if◌then◌else◌, get_last?, All,
}
use cargo_mutants.Process.{Exit, is_success, is_timeout, is_failure}
use cargo_mutants.Mutant.{Mutant}
use cargo_mutants.Outcome.{
  Phase, test, phase_eq, Scenario, PhaseResult, ScenarioOutcome, succeeded, any_result, has_timeout,
  check_or_build_failed, last_phase, last_phase_result, mutant_caught, mutant_missed,
  SummaryOutcome, caught_mutant, missed_mutant, unviable, failure, summary, summary_skipped,
  summary_unskipped, summary_of_mutant,
}

-- What a mutant's summary is when its phases ended in `phase` with the exit `e`
pub summary_after : Phase → Exit → SummaryOutcome
summary_after phase e =
    if is_timeout e
    then SummaryOutcome.timeout
    else if is_success e
    then if phase_eq phase test then missed_mutant else SummaryOutcome.success
    else if is_failure e
    then if phase_eq phase test then caught_mutant else unviable
    else failure

abbrev pub Passed : PhaseResult → Type 0
Passed pr = is_success pr.process_status ≡ true

passed-not_timeout : (e : Exit) → is_success e ≡ true → is_timeout e ≡ false
passed-not_timeout Exit.success h = refl
passed-not_timeout Exit.timeout h = absurd (false≢true h)
passed-not_timeout _ h = refl

passed-not_failure : (b : Bool) (e : Exit) → is_success e ≡ true → (b && is_failure e) ≡ false
passed-not_failure true (Exit.failure c) h = absurd (false≢true h)
passed-not_failure true _ h = refl
passed-not_failure false e h = refl

any_result-append :
    (f : PhaseResult → Bool) (prs : List PhaseResult) (pr : PhaseResult)
    → ((q : PhaseResult) → Passed q → f q ≡ false)
    → All Passed prs
    → any_result f (prs ++ pr ∷ []) ≡ f pr
any_result-append f [] pr quiet all = ground arith
any_result-append f (q ∷ prs) pr quiet (h, all) =
    rw (quiet q h) (any_result-append f prs pr quiet all)

get_last?-append :
    (prs : List PhaseResult) (pr : PhaseResult) → get_last? (prs ++ pr ∷ []) ≡ some pr
get_last?-append [] pr = refl
get_last?-append (p ∷ []) pr = refl
get_last?-append (p ∷ q ∷ prs) pr = get_last?-append (q ∷ prs) pr

-- The branches of `summary` for a mutant, from the answers of the tests that it makes
by_tests : Bool → Bool → Bool → Bool → Bool → SummaryOutcome
by_tests broken late caught missed passes =
    if broken
    then unviable
    else if late
    then SummaryOutcome.timeout
    else if caught
    then caught_mutant
    else if missed
    then missed_mutant
    else if passes
    then SummaryOutcome.success
    else failure

by_tests-last :
    (phase : Phase) (e : Exit)
    → by_tests
        (not (phase_eq phase test) && is_failure e)
        (is_timeout e)
        (phase_eq phase test && is_failure e)
        (phase_eq phase test && is_success e)
        (is_success e)
      ≡ summary_after phase e
unfolding by_tests summary_after
by_tests-last test Exit.success = refl
by_tests-last test (Exit.failure c) = refl
by_tests-last test Exit.timeout = refl
by_tests-last test _ = refl
by_tests-last _ Exit.success = refl
by_tests-last _ (Exit.failure c) = refl
by_tests-last _ Exit.timeout = refl
by_tests-last _ _ = refl

-- A mutant that is not skipped, and whose phases all passed but the last, is summarised from that last
-- phase.
pub summary-eq-summary_after :
    (o : ScenarioOutcome) (m : Mutant) (prs : List PhaseResult) (pr : PhaseResult)
    → o.scenario ≡ Scenario.mutated m
    → o.skip_reason ≡ none
    → o.phase_results ≡ prs ++ pr ∷ []
    → All Passed prs
    → summary o ≡ summary_after pr.phase pr.process_status
unfolding summary summary_skipped summary_unskipped summary_of_mutant by_tests check_or_build_failed
    has_timeout mutant_caught mutant_missed succeeded last_phase last_phase_result
summary-eq-summary_after o m prs pr e s r all =
    let late =
      any_result-append (λ q. is_timeout q.process_status) prs pr
        (λ q h. passed-not_timeout q.process_status h) all in
    let broken =
      any_result-append (λ q. not (phase_eq q.phase test) && is_failure q.process_status) prs pr
        (λ q h. passed-not_failure (not (phase_eq q.phase test)) q.process_status h) all in
    rw s (
      rw e (
        rw r (
          rw (get_last?-append prs pr)
            (rw late (rw broken (by_tests-last pr.phase pr.process_status))))))
