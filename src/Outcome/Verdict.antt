-- ===== src/Outcome/Verdict.antt =====
-- The exit code of a run, from the outcomes that it recorded.
use cargo_mutants.Prelude.{
  ℕ, ◌+◌, ◌≡◌, refl, sym, ap, ap₂, ◌∙◌, Bool, true, false, not, ◌&&◌, ◌||◌, List, [], ◌∷◌, arith,
  ltb, ◌==◌, if◌then◌else◌,
}
use cargo_mutants.Outcome.{
  ExitCode, baseline_failed, found_problems, Scenario, is_mutant, ScenarioOutcome, exit_status,
  succeeded, SummaryOutcome, missed_mutant, summary,
}
use cargo_mutants.Outcome.Totals.{new_lab, exit_code, any_failed_baseline}
use cargo_mutants.Outcome.Counts.{tally, summary_eq, record_all, record_all-Counts}

-- Whether an outcome of a mutant has the summary `s`
unfoldable pub some_mutant : SummaryOutcome → List ScenarioOutcome → Bool
some_mutant s [] = false
some_mutant s (o ∷ os) = is_mutant o.scenario && summary_eq (summary o) s || some_mutant s os

positive_or :
    (b : Bool) (n : ℕ) {c : Bool} → ltb 0 n ≡ c → ltb 0 ((if b then 1 else 0) + n) ≡ b || c
positive_or true n e = ground arith
positive_or false n e = ground arith

tally-some_mutant :
    (s : SummaryOutcome) (os : List ScenarioOutcome) → ltb 0 (tally s os) ≡ some_mutant s os
unfolding tally some_mutant
tally-some_mutant s [] = refl
tally-some_mutant s (o ∷ os) =
    positive_or (is_mutant o.scenario && summary_eq (summary o) s) (tally s os)
      (tally-some_mutant s os)

-- The exit code that the user documentation promises for the outcomes `os`
unfoldable pub verdict : List ScenarioOutcome → ExitCode
verdict os =
    if any_failed_baseline os
    then baseline_failed
    else if some_mutant SummaryOutcome.timeout os
    then ExitCode.timeout
    else if some_mutant missed_mutant os || some_mutant SummaryOutcome.uncovered os
    then found_problems
    else ExitCode.success

branches : Bool → Bool → Bool → Bool → ExitCode
branches b t m u =
    if b
    then baseline_failed
    else if t
    then ExitCode.timeout
    else if m || u
    then found_problems
    else ExitCode.success

ap₄ :
    {A B : Type 0} (f : A → A → A → A → B) {a a' b b' c c' d d' : A}
    → a ≡ a'
    → b ≡ b'
    → c ≡ c'
    → d ≡ d'
    → f a b c d ≡ f a' b' c' d'
ap₄ f {a} {a'} {b} {b'} {c} {c'} {d} {d'} p q r s = cc

-- The exit code of a run is decided by its outcomes alone: a baseline that failed, else a mutant
-- that timed out, else a mutant that was missed or that no test covers, else success.
pub exit_code-eq-verdict :
    (os : List ScenarioOutcome) → exit_code (record_all new_lab os) ≡ verdict os
unfolding exit_code verdict branches
exit_code-eq-verdict os =
    let c = record_all-Counts os in
    let each = λ (s : SummaryOutcome). tally-some_mutant s os in
    ap₄ branches (ap any_failed_baseline c.outcomes)
      (ap (ltb 0) c.timeouts ∙ each SummaryOutcome.timeout)
      (ap (ltb 0) c.missed ∙ each missed_mutant)
      (ap (ltb 0) c.uncovereds ∙ each SummaryOutcome.uncovered)

-- What a run of exit code 0 asks of each outcome: the baseline passed, and no mutant was missed,
-- timed out or is without coverage.
unfoldable pub passes : Scenario → ScenarioOutcome → Bool
passes Scenario.baseline o = succeeded o
passes (Scenario.mutated m) o = not (
    summary_eq (summary o) SummaryOutcome.timeout
    || (summary_eq (summary o) missed_mutant || summary_eq (summary o) SummaryOutcome.uncovered))

unfoldable pub all_pass : List ScenarioOutcome → Bool
all_pass [] = true
all_pass (o ∷ os) = passes o.scenario o && all_pass os

abbrev clean : List ScenarioOutcome → Bool
clean os = not (
    any_failed_baseline os
    || (some_mutant SummaryOutcome.timeout os
        || (some_mutant missed_mutant os || some_mutant SummaryOutcome.uncovered os)))

double_negation : (b : Bool) → b ≡ not (not b || false)
double_negation true = refl
double_negation false = refl

passes_lem :
    (sc : Scenario) (o : ScenarioOutcome)
    → passes sc o
      ≡ not (
          not (is_mutant sc) && not (succeeded o)
          || (is_mutant sc && summary_eq (summary o) SummaryOutcome.timeout
              || (is_mutant sc && summary_eq (summary o) missed_mutant
                  || is_mutant sc && summary_eq (summary o) SummaryOutcome.uncovered)))
unfolding passes
passes_lem Scenario.baseline o = double_negation (succeeded o)
passes_lem (Scenario.mutated m) o = refl

none_of_each :
    (b b' t t' m m' u u' : Bool)
    → not ((b || b') || ((t || t') || ((m || m') || (u || u'))))
      ≡ not (b || (t || (m || u))) && not (b' || (t' || (m' || u')))
none_of_each b b' t t' m m' u u' = ground arith

clean-all_pass : (os : List ScenarioOutcome) → clean os ≡ all_pass os
unfolding any_failed_baseline some_mutant all_pass
clean-all_pass [] = refl
clean-all_pass (o ∷ os) =
    none_of_each (not (is_mutant o.scenario) && not (succeeded o)) (any_failed_baseline os)
      (is_mutant o.scenario && summary_eq (summary o) SummaryOutcome.timeout)
      (some_mutant SummaryOutcome.timeout os)
      (is_mutant o.scenario && summary_eq (summary o) missed_mutant) (some_mutant missed_mutant os)
      (is_mutant o.scenario && summary_eq (summary o) SummaryOutcome.uncovered)
      (some_mutant SummaryOutcome.uncovered os)
    ∙ ap₂ (λ a b. a && b) (sym (passes_lem o.scenario o)) (clean-all_pass os)

branches-status :
    (b t m u : Bool) → (exit_status (branches b t m u) == 0) ≡ not (b || (t || (m || u)))
unfolding branches exit_status
branches-status b t m u = ground arith

verdict-status : (os : List ScenarioOutcome) → (exit_status (verdict os) == 0) ≡ clean os
unfolding verdict branches
verdict-status os =
    branches-status (any_failed_baseline os) (some_mutant SummaryOutcome.timeout os)
      (some_mutant missed_mutant os) (some_mutant SummaryOutcome.uncovered os)

-- The run exits with status 0 just when every outcome passes.
pub exit_status-zero :
    (os : List ScenarioOutcome)
    → (exit_status (exit_code (record_all new_lab os)) == 0) ≡ all_pass os
exit_status-zero os =
    ap (λ c. exit_status c == 0) (exit_code-eq-verdict os) ∙ (verdict-status os ∙ clean-all_pass os)
