-- ===== src/Lab/Recorded.antt =====
-- What a scenario, and a queue of mutants, adds to the outcome of the run.
use cargo_mutants.Prelude.Text.{Text}
use cargo_mutants.Prelude.{
  ◌≡◌, refl, sym, ap, ap₂, ◌∙◌, inl, inr, Option, none, some, List, [], ◌∷◌, map, Bool-cases,
  Result, ok, err,
}
use cargo_mutants.Process.{is_success}
use cargo_mutants.Paths.{FilePath}
use cargo_mutants.Mutant.{Mutant, mutated_code}
use cargo_mutants.Mutant.Diff.{diff}
use cargo_mutants.Outcome.{
  add_phase_result, set_skip_reason, SkipReason, Phase, Scenario, baseline, mutated, PhaseResult,
  ScenarioOutcome,
}
use cargo_mutants.Outcome.Totals.{LabOutcome, add}
use cargo_mutants.Outcome.Counts.{record_all}
use cargo_mutants.Lab.{
  PackageSelection, Timeouts, Env, World, Io, return, ◌>>◌, perform, overwritten, overwrite_file,
  file_written, diff_written, message_written, outcome_written, apply, revert,
}
use cargo_mutants.Lab.Worker.{
  expect, new_outcome, start_scenario, uncovered_message, run_phase, equivalent_to, skip_or,
  skip_message, next_phase, run_phases, finish_scenario, revert_if_mutant, after_phases,
  run_all_phases, run_mutant, run_prepared, run_one_scenario, phases, packages_for, run_queue,
}
use cargo_mutants.Lab.Keeps.{
  Part, Keeps, kept, err≢ok, bind-ok, return-Keeps, expect-Keeps, perform-Keeps, run_phases-Keeps,
  start_scenario-Keeps,
}
use cargo_mutants.Lab.Tree.{fail-not_ok}

-- The outcome of the run so far
abbrev totals : Part LabOutcome
totals = record { of = λ w. w.lab_outcome; by_event = λ w es. refl; by_fingerprint = λ w fs. refl }

abbrev value_or {ℓ} : {A : Type ℓ} → A → Result Text A → A
value_or d (ok a) = a
value_or d (err e) = d

return-ok {ℓ} : {A : Type ℓ} (a b : A) (w w' : World) → return a w ≡ (ok b, w') → a ≡ b
unfolding return
return-ok a b w w' h = ap (λ r. value_or a r.0) h

overwritten-totals :
    (path : FilePath) (code : Text) (torn old failed : Option Text) (w : World)
    → (overwritten path code torn old failed w).1.lab_outcome ≡ w.lab_outcome
overwritten-totals path code torn none failed w = refl
overwritten-totals path code torn (some old) none w = refl
overwritten-totals path code torn (some old) (some x) w = refl

module _ (env : Env) (unified_diff : Text → Text → Text) where
  overwrite_file-Keeps :
      (path : FilePath) (code : Text) → Keeps totals (overwrite_file env path code)
  unfolding overwrite_file
  overwrite_file-Keeps path code w =
      overwritten-totals path code (env.torn_file w.events) (w.tree path)
        (env.io_error w.events (file_written path code)) w

  finish_scenario-ok :
      (o o' : ScenarioOutcome) (w w' : World)
      → finish_scenario env unified_diff o w ≡ (ok o', w')
      → (w'.lab_outcome ≡ add w.lab_outcome o') × (o ≡ o')
  unfolding finish_scenario
  finish_scenario-ok o o' w w' h =
      let counted = record w { lab_outcome = add w.lab_outcome o } in
      let done = perform env (outcome_written o) in
      let (u, (v, first, last)) = bind-ok done (λ u. return o) counted w' o' h in
      let same = return-ok o o' v w' last in
      (
        kept totals (return o) v w' (ok o') (return-Keeps totals o) last
            ∙ (kept totals done counted v (ok u)
                  (perform-Keeps totals env unified_diff (outcome_written o)) first
                ∙ ap (add w.lab_outcome) same),
        same,
      )

  skip_or-scenario :
      (o o' : ScenarioOutcome) (other : Option Text) (rest : Io (Result Text ScenarioOutcome))
      (w w' : World)
      → ((v : World) → rest v ≡ (ok (ok o'), w') → o'.scenario ≡ o.scenario)
      → skip_or env unified_diff o other rest w ≡ (ok (ok o'), w')
      → o'.scenario ≡ o.scenario
  unfolding skip_or set_skip_reason
  skip_or-scenario o o' none rest w w' k h = k w h
  skip_or-scenario o o' (some other) rest w w' k h =
      let skipped = set_skip_reason SkipReason.equivalent o in
      let (u, (v, _, last)) =
        bind-ok (perform env (message_written (skip_message env unified_diff other)))
          (λ u. return (ok skipped)) w w' (ok o') h in
      let same : skipped ≡ o' = ap (value_or o) (return-ok (ok skipped) (ok o') v w' last) in
      sym (ap (λ p. p.scenario) same)

  next_phase-scenario :
      (phase : Phase) (o o' : ScenarioOutcome) (r : Result Text PhaseResult)
      (rest : ScenarioOutcome → Io (Result Text ScenarioOutcome)) (w w' : World)
      → ((p : ScenarioOutcome) (v : World) → rest p v ≡ (ok (ok o'), w') → o'.scenario ≡ p.scenario)
      → next_phase env unified_diff phase o r rest w ≡ (ok (ok o'), w')
      → o'.scenario ≡ o.scenario
  unfolding next_phase add_phase_result
  next_phase-scenario phase o o' (err e) rest w w' k h =
      absurd (err≢ok (return-ok (err e) (ok o') w w' h))
  next_phase-scenario phase o o' (ok pr) rest w w' k h =
      let p = add_phase_result pr o in
      elim (Bool-cases (is_success pr.process_status)) [
        | inl e ↦
            let (other, (v, _, last)) =
              bind-ok (equivalent_to env unified_diff phase o.scenario)
                (λ other. skip_or env unified_diff p other (rest p)) w w' (ok o') (rw e at h) in
            skip_or-scenario p o' other (rest p) v w' (λ v' h'. k p v' h') last
        | inr e ↦
            let same : p ≡ o' = ap (value_or o) (return-ok (ok p) (ok o') w w' (rw e at h)) in
            sym (ap (λ q. q.scenario) same)
      ]

  run_phases-scenario :
      (ps : List Phase) (packages : PackageSelection) (timeouts : Timeouts) (o o' : ScenarioOutcome)
      (w w' : World)
      → run_phases env unified_diff ps packages timeouts o w ≡ (ok (ok o'), w')
      → o'.scenario ≡ o.scenario
  unfolding run_phases
  run_phases-scenario [] packages timeouts o o' w w' h =
      sym (ap (λ q. q.scenario) (ap (value_or o) (return-ok (ok o) (ok o') w w' h)))
  run_phases-scenario (phase ∷ ps) packages timeouts o o' w w' h =
      let rest = run_phases env unified_diff ps packages timeouts in
      let (r, (v, _, last)) =
        bind-ok (run_phase env unified_diff phase packages timeouts)
          (λ r. next_phase env unified_diff phase o r rest) w w' (ok o') h in
      next_phase-scenario phase o o' r rest v w'
        (λ p v' h'. run_phases-scenario ps packages timeouts p o' v' w' h') last

  revert_if_mutant-Keeps : (sc : Scenario) → Keeps totals (revert_if_mutant env unified_diff sc)
  unfolding revert_if_mutant revert
  revert_if_mutant-Keeps baseline = return-Keeps totals tt
  revert_if_mutant-Keeps (mutated m) =
      overwrite_file-Keeps m.source_file.tree_relative_path m.source_file.code

  -- The outcome `o` of the scenario `sc` is added to the totals of `w`.
  abbrev Recorded : Scenario → ScenarioOutcome → World → World → Type 0
  Recorded sc o w w' = (w'.lab_outcome ≡ add w.lab_outcome o) × (o.scenario ≡ sc)

  finish-Recorded :
      (sc : Scenario) (p o : ScenarioOutcome) (w v w' : World)
      → p.scenario ≡ sc
      → v.lab_outcome ≡ w.lab_outcome
      → finish_scenario env unified_diff p v ≡ (ok o, w')
      → Recorded sc o w w'
  finish-Recorded sc p o w v w' e k h =
      let (added, same) = finish_scenario-ok p o v w' h in
      (added ∙ ap (λ l. add l o) k, sym (ap (λ q. q.scenario) same) ∙ e)

  after_phases-Recorded :
      (sc : Scenario) (r : Result Text ScenarioOutcome) (o : ScenarioOutcome) (w v w' : World)
      → v.lab_outcome ≡ w.lab_outcome
      → ((q : ScenarioOutcome) → r ≡ ok q → q.scenario ≡ sc)
      → after_phases env unified_diff sc r v ≡ (ok o, w')
      → Recorded sc o w w'
  unfolding after_phases
  after_phases-Recorded sc (ok q) o w v w' k e h =
      let (u, (x, reverted, last)) =
        bind-ok (revert_if_mutant env unified_diff sc) (λ u. finish_scenario env unified_diff q) v
          w' o h in
      finish-Recorded sc q o w x w' (e q refl)
        (kept totals (revert_if_mutant env unified_diff sc) v x (ok u) (revert_if_mutant-Keeps sc)
            reverted
          ∙ k)
        last
  after_phases-Recorded sc (err x) o w v w' k e h =
      absurd (fail-not_ok env unified_diff x (revert_if_mutant env unified_diff sc) v w' o h)

  run_all_phases-Recorded :
      (sc : Scenario) (packages : PackageSelection) (timeouts : Timeouts) (p o : ScenarioOutcome)
      (w w' : World)
      → p.scenario ≡ sc
      → run_all_phases env unified_diff sc packages timeouts p w ≡ (ok o, w')
      → Recorded sc o w w'
  unfolding run_all_phases
  run_all_phases-Recorded sc packages timeouts p o w w' e h =
      let loop = run_phases env unified_diff (phases env.check_only) packages timeouts p in
      let (r, (v, ran, last)) = bind-ok loop (after_phases env unified_diff sc) w w' o h in
      let before =
        kept totals loop w v (ok r)
          (run_phases-Keeps totals env unified_diff (phases env.check_only) packages timeouts p
            (λ v phase. refl))
          ran in
      after_phases-Recorded sc r o w v w' before
        (λ q same.
          run_phases-scenario (phases env.check_only) packages timeouts p q w v
            (ran ∙ ap (λ x. (ok x, v)) same)
          ∙ e)
        last

  run_mutant-Recorded :
      (message : Option Text) (m : Mutant) (packages : PackageSelection) (timeouts : Timeouts)
      (p o : ScenarioOutcome) (w w' : World)
      → p.scenario ≡ mutated m
      → run_mutant env unified_diff message m packages timeouts p w ≡ (ok o, w')
      → Recorded (mutated m) o w w'
  unfolding run_mutant apply set_skip_reason
  run_mutant-Recorded (some message) m packages timeouts p o w w' e h =
      let done = set_skip_reason SkipReason.uncovered p in
      let said = perform env (message_written message) in
      let (u, (v, first, last)) =
        bind-ok said (λ u. finish_scenario env unified_diff done) w w' o h in
      finish-Recorded (mutated m) done o w v w' e
        (kept totals said w v (ok u)
          (perform-Keeps totals env unified_diff (message_written message)) first)
        last
  run_mutant-Recorded none m packages timeouts p o w w' e h =
      let path = m.source_file.tree_relative_path in
      let run = run_all_phases env unified_diff (mutated m) packages timeouts p in
      let (code, (v₁, got, rest)) =
        bind-ok (expect (mutated_code m)) (λ code. apply env m code >> run) w w' o h in
      let (u, (v₂, applied, last)) = bind-ok (apply env m code) (λ u. run) v₁ w' o rest in
      let (added, sc) = run_all_phases-Recorded (mutated m) packages timeouts p o v₂ w' e last in
      let before =
        kept totals (apply env m code) v₁ v₂ (ok u) (overwrite_file-Keeps path code) applied
        ∙ kept totals (expect (mutated_code m)) w v₁ (ok code)
            (expect-Keeps totals (mutated_code m)) got in
      (added ∙ ap (λ l. add l o) before, sc)

  run_prepared-Recorded :
      (sc : Scenario) (packages : PackageSelection) (timeouts : Timeouts) (p o : ScenarioOutcome)
      (w w' : World)
      → p.scenario ≡ sc
      → run_prepared env unified_diff sc packages timeouts p w ≡ (ok o, w')
      → Recorded sc o w w'
  unfolding run_prepared
  run_prepared-Recorded baseline packages timeouts p o w w' e h =
      run_all_phases-Recorded baseline packages timeouts p o w w' e h
  run_prepared-Recorded (mutated m) packages timeouts p o w w' e h =
      let message = uncovered_message env unified_diff m in
      let run = run_mutant env unified_diff message m packages timeouts p in
      let (text, (v₁, got, rest)) =
        bind-ok (expect (diff unified_diff m)) (λ text. perform env (diff_written text) >> run) w w'
          o h in
      let (u, (v₂, written, last)) =
        bind-ok (perform env (diff_written text)) (λ u. run) v₁ w' o rest in
      let (added, sc) = run_mutant-Recorded message m packages timeouts p o v₂ w' e last in
      let before =
        kept totals (perform env (diff_written text)) v₁ v₂ (ok u)
          (perform-Keeps totals env unified_diff (diff_written text)) written
        ∙ kept totals (expect (diff unified_diff m)) w v₁ (ok text)
            (expect-Keeps totals (diff unified_diff m)) got in
      (added ∙ ap (λ l. add l o) before, sc)

  -- A scenario that returns an outcome has added just that outcome to the run, and it is an outcome
  -- of that scenario.
  pub run_one_scenario-Recorded :
      (sc : Scenario) (packages : PackageSelection) (timeouts : Timeouts) (o : ScenarioOutcome)
      (w w' : World)
      → run_one_scenario env unified_diff sc packages timeouts w ≡ (ok o, w')
      → (w'.lab_outcome ≡ add w.lab_outcome o) × (o.scenario ≡ sc)
  unfolding run_one_scenario new_outcome
  run_one_scenario-Recorded sc packages timeouts o w w' h =
      let (out, (v, started, last)) =
        bind-ok (start_scenario env unified_diff sc)
          (λ out. run_prepared env unified_diff sc packages timeouts (new_outcome out sc)) w w' o
          h in
      let (added, same) =
        run_prepared-Recorded sc packages timeouts (new_outcome out sc) o v w' refl last in
      let before =
        kept totals (start_scenario env unified_diff sc) w v (ok out)
          (start_scenario-Keeps totals env unified_diff sc) started in
      (added ∙ ap (λ l. add l o) before, same)

  -- A worker that takes all of a queue and returns has recorded one outcome for each mutant, in the
  -- order of the queue, and nothing else.
  pub run_queue-records :
      (queue : List Mutant) (timeouts : Timeouts) (u : Unit {0}) (w w' : World)
      → run_queue env unified_diff queue timeouts w ≡ (ok u, w')
      → (os : List ScenarioOutcome) × (map (λ (o : ScenarioOutcome). o.scenario) os
          ≡ map mutated queue)
        × (w'.lab_outcome ≡ record_all w.lab_outcome os)
  unfolding run_queue record_all
  run_queue-records [] timeouts u w w' h =
      ([], refl, kept totals (return tt) w w' (ok u) (return-Keeps totals tt) h)
  run_queue-records (m ∷ queue) timeouts u w w' h =
      let packages = packages_for env unified_diff env.tests_for_mutant m in
      let (o, (v, ran, last)) =
        bind-ok (run_one_scenario env unified_diff (mutated m) packages timeouts)
          (λ o. run_queue env unified_diff queue timeouts) w w' u h in
      let (added, same) = run_one_scenario-Recorded (mutated m) packages timeouts o w v ran in
      let (os, scenarios, recorded) = run_queue-records queue timeouts u v w' last in
      (o ∷ os, ap₂ (λ s ss. s ∷ ss) same scenarios, recorded ∙ ap (λ l. record_all l os) added)
