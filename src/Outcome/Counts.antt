-- ===== src/Outcome/Counts.antt =====
-- The counters of a run say how many mutants had each summary.
use mathlib.Core.Option
use cargo_mutants.Prelude.{
  ℕ, ◌+◌, ◌≡◌, refl, sym, ap, ◌∙◌, Bool, true, false, ◌&&◌, Option, none, some, List, [], ◌∷◌, ◌++◌,
  append-nil, append_assoc, arith, if◌then◌else◌,
}
use mathlib.Core.Option.{some-injective}
use cargo_mutants.Outcome.{
  Scenario, is_mutant, ScenarioOutcome, SummaryOutcome, caught_mutant, missed_mutant, unviable,
  failure, summary,
}
use cargo_mutants.Outcome.Totals.{LabOutcome, new_lab, add, count_scenario, count_summary}

abbrev pub summary_eq : SummaryOutcome → SummaryOutcome → Bool
summary_eq SummaryOutcome.success SummaryOutcome.success = true
summary_eq caught_mutant caught_mutant = true
summary_eq missed_mutant missed_mutant = true
summary_eq unviable unviable = true
summary_eq failure failure = true
summary_eq SummaryOutcome.timeout SummaryOutcome.timeout = true
summary_eq SummaryOutcome.equivalent SummaryOutcome.equivalent = true
summary_eq SummaryOutcome.uncovered SummaryOutcome.uncovered = true
summary_eq _ _ = false

-- 1 for an outcome of a mutant with the summary `s`, else 0
abbrev pub hit : SummaryOutcome → ScenarioOutcome → ℕ
hit s o = if is_mutant o.scenario && summary_eq (summary o) s then 1 else 0

-- How many outcomes of mutants have the summary `s`
unfoldable pub tally : SummaryOutcome → List ScenarioOutcome → ℕ
tally s [] = 0
tally s (o ∷ os) = hit s o + tally s os

-- The field of `LabOutcome` that counts the summary `s`, where there is one
abbrev pub counter : SummaryOutcome → LabOutcome → Option ℕ
counter SummaryOutcome.success l = some l.successes
counter caught_mutant l = some l.caught
counter missed_mutant l = some l.missed
counter unviable l = some l.unviables
counter failure l = none
counter SummaryOutcome.timeout l = some l.timeouts
counter SummaryOutcome.equivalent l = some l.equivalents
counter SummaryOutcome.uncovered l = some l.uncovereds

-- The outcome of a run after recording the outcomes `os`
unfoldable pub record_all : LabOutcome → List ScenarioOutcome → LabOutcome
record_all l [] = l
record_all l (o ∷ os) = record_all (add l o) os

-- Recording the summary `t` changes the counter of `s` just where they are the same summary.
abbrev Bumps : SummaryOutcome → LabOutcome → SummaryOutcome → Type 0
unfolding count_summary
Bumps t l s =
    counter s (count_summary t l)
    ≡ Option.map (λ n. if summary_eq t s then n + 1 else n) (counter s l)

count_summary-counter : (t s : SummaryOutcome) (l : LabOutcome) → Bumps t l s
unfolding count_summary
count_summary-counter SummaryOutcome.success s l = elim s as (Bumps SummaryOutcome.success l) [
  | SummaryOutcome.success ↦ refl
  | _ ↦ refl
]
count_summary-counter caught_mutant s l = elim s as (Bumps caught_mutant l) [
  | caught_mutant ↦ refl
  | _ ↦ refl
]
count_summary-counter missed_mutant s l = elim s as (Bumps missed_mutant l) [
  | missed_mutant ↦ refl
  | _ ↦ refl
]
count_summary-counter unviable s l = elim s as (Bumps unviable l) [ unviable ↦ refl | _ ↦ refl ]
count_summary-counter failure s l = elim s as (Bumps failure l) [ failure ↦ refl | _ ↦ refl ]
count_summary-counter SummaryOutcome.timeout s l = elim s as (Bumps SummaryOutcome.timeout l) [
  | SummaryOutcome.timeout ↦ refl
  | _ ↦ refl
]
count_summary-counter SummaryOutcome.equivalent s l =
    elim s as (Bumps SummaryOutcome.equivalent l) [ SummaryOutcome.equivalent ↦ refl | _ ↦ refl ]
count_summary-counter SummaryOutcome.uncovered s l = elim s as (Bumps SummaryOutcome.uncovered l) [
  | SummaryOutcome.uncovered ↦ refl
  | _ ↦ refl
]

counter-total :
    (s : SummaryOutcome) (l : LabOutcome) (n : ℕ)
    → counter s (record l { total_mutants = n }) ≡ counter s l
counter-total s l n = elim s as (λ k. counter k (record l { total_mutants = n }) ≡ counter k l) [
  | failure ↦ refl
  | _ ↦ refl
]

map-id : (o : Option ℕ) → Option.map (λ n. n) o ≡ o
map-id none = refl
map-id (some n) = refl

count_scenario-counter :
    (sc : Scenario) (t s : SummaryOutcome) (l : LabOutcome)
    → counter s (count_scenario sc t l)
      ≡ Option.map (λ n. if is_mutant sc && summary_eq t s then n + 1 else n) (counter s l)
unfolding count_scenario Bumps
count_scenario-counter Scenario.baseline t s l = sym (map-id (counter s l))
count_scenario-counter (Scenario.mutated m) t s l =
    count_summary-counter t s (record l { total_mutants = l.total_mutants + 1 })
    ∙ ap (Option.map (λ n. if summary_eq t s then n + 1 else n))
        (counter-total s l (l.total_mutants + 1))

counter-outcomes :
    (s : SummaryOutcome) (l : LabOutcome) (os : List ScenarioOutcome)
    → counter s (record l { outcomes = os }) ≡ counter s l
counter-outcomes s l os = elim s as (λ k. counter k (record l { outcomes = os }) ≡ counter k l) [
  | failure ↦ refl
  | _ ↦ refl
]

add-counter :
    (s : SummaryOutcome) (l : LabOutcome) (o : ScenarioOutcome)
    → counter s (add l o)
      ≡ Option.map
          (λ n. if is_mutant o.scenario && summary_eq (summary o) s then n + 1 else n)
          (counter s l)
unfolding add
add-counter s l o =
    let counted = count_scenario o.scenario (summary o) l in
    counter-outcomes s counted (counted.outcomes ++ o ∷ [])
    ∙ count_scenario-counter o.scenario (summary o) s l

bump-tally :
    (b : Bool) (n : ℕ) (o : Option ℕ)
    → Option.map (λ k. k + n) (Option.map (λ k. if b then k + 1 else k) o)
      ≡ Option.map (λ k. k + ((if b then 1 else 0) + n)) o
bump-tally b n none = refl
bump-tally true n (some k) = ground arith
bump-tally false n (some k) = ground arith

map-plus-zero : (o : Option ℕ) → Option.map (λ n. n + 0) o ≡ o
map-plus-zero none = refl
map-plus-zero (some n) = ground arith

record_all-counter :
    (s : SummaryOutcome) (l : LabOutcome) (os : List ScenarioOutcome)
    → counter s (record_all l os) ≡ Option.map (λ n. n + tally s os) (counter s l)
unfolding record_all tally
record_all-counter s l [] = sym (map-plus-zero (counter s l))
record_all-counter s l (o ∷ os) =
    record_all-counter s (add l o) os
    ∙ (ap (Option.map (λ n. n + tally s os)) (add-counter s l o)
        ∙ bump-tally (is_mutant o.scenario && summary_eq (summary o) s) (tally s os) (counter s l))

count_summary-outcomes :
    (t : SummaryOutcome) (l : LabOutcome) → (count_summary t l).outcomes ≡ l.outcomes
unfolding count_summary
count_summary-outcomes failure l = refl
count_summary-outcomes _ l = refl

count_summary-total :
    (t : SummaryOutcome) (l : LabOutcome) → (count_summary t l).total_mutants ≡ l.total_mutants
unfolding count_summary
count_summary-total failure l = refl
count_summary-total _ l = refl

count_scenario-outcomes :
    (sc : Scenario) (t : SummaryOutcome) (l : LabOutcome)
    → (count_scenario sc t l).outcomes ≡ l.outcomes
unfolding count_scenario
count_scenario-outcomes Scenario.baseline t l = refl
count_scenario-outcomes (Scenario.mutated m) t l =
    count_summary-outcomes t (record l { total_mutants = l.total_mutants + 1 })

add-outcomes : (l : LabOutcome) (o : ScenarioOutcome) → (add l o).outcomes ≡ l.outcomes ++ o ∷ []
unfolding add
add-outcomes l o = ap (λ os. os ++ o ∷ []) (count_scenario-outcomes o.scenario (summary o) l)

count_scenario-total :
    (sc : Scenario) (t : SummaryOutcome) (l : LabOutcome)
    → (count_scenario sc t l).total_mutants ≡ l.total_mutants + (if is_mutant sc then 1 else 0)
unfolding count_scenario
count_scenario-total Scenario.baseline t l = omega arith
count_scenario-total (Scenario.mutated m) t l =
    count_summary-total t (record l { total_mutants = l.total_mutants + 1 })

-- 1 for an outcome of a mutant
abbrev pub mutant_hit : ScenarioOutcome → ℕ
mutant_hit o = if is_mutant o.scenario then 1 else 0

add-total :
    (l : LabOutcome) (o : ScenarioOutcome)
    → (add l o).total_mutants ≡ l.total_mutants + mutant_hit o
unfolding add
add-total l o = count_scenario-total o.scenario (summary o) l

unfoldable pub mutants_in : List ScenarioOutcome → ℕ
mutants_in [] = 0
mutants_in (o ∷ os) = mutant_hit o + mutants_in os

record_all-total :
    (l : LabOutcome) (os : List ScenarioOutcome)
    → (record_all l os).total_mutants ≡ l.total_mutants + mutants_in os
unfolding record_all mutants_in
record_all-total l [] = omega arith
record_all-total l (o ∷ os) = omega (arith, record_all-total (add l o) os, add-total l o)

pub record_all-outcomes :
    (l : LabOutcome) (os : List ScenarioOutcome) → (record_all l os).outcomes ≡ l.outcomes ++ os
unfolding record_all
record_all-outcomes l [] = sym (append-nil l.outcomes)
record_all-outcomes l (o ∷ os) =
    record_all-outcomes (add l o) os
    ∙ (ap (λ ps. ps ++ os) (add-outcomes l o) ∙ append_assoc l.outcomes (o ∷ []) os)

-- `l` lists the outcomes `os`, in their order, and each counter is the number of its mutants.
pub record Counts (l : LabOutcome) (os : List ScenarioOutcome) : Type 0 where
  pub outcomes : l.outcomes ≡ os
  pub total_mutants : l.total_mutants ≡ mutants_in os
  pub missed : l.missed ≡ tally missed_mutant os
  pub caught : l.caught ≡ tally caught_mutant os
  pub timeouts : l.timeouts ≡ tally SummaryOutcome.timeout os
  pub unviables : l.unviables ≡ tally unviable os
  pub successes : l.successes ≡ tally SummaryOutcome.success os
  pub equivalents : l.equivalents ≡ tally SummaryOutcome.equivalent os
  pub uncovereds : l.uncovereds ≡ tally SummaryOutcome.uncovered os

counted : {m n : ℕ} → some m ≡ some (0 + n) → m ≡ n
counted {m} {n} e = some-injective m (0 + n) e ∙ omega arith

-- After any sequence of recorded outcomes, the outcome of the run lists exactly them, in their
-- order, and each of its counters is the number of mutants that it is named for.
pub record_all-Counts : (os : List ScenarioOutcome) → Counts (record_all new_lab os) os
record_all-Counts os = record {
  outcomes = record_all-outcomes new_lab os;
  total_mutants = record_all-total new_lab os ∙ omega arith;
  missed = counted (record_all-counter missed_mutant new_lab os);
  caught = counted (record_all-counter caught_mutant new_lab os);
  timeouts = counted (record_all-counter SummaryOutcome.timeout new_lab os);
  unviables = counted (record_all-counter unviable new_lab os);
  successes = counted (record_all-counter SummaryOutcome.success new_lab os);
  equivalents = counted (record_all-counter SummaryOutcome.equivalent new_lab os);
  uncovereds = counted (record_all-counter SummaryOutcome.uncovered new_lab os);
}
