-- ===== src/Lab/Tree.antt =====
-- What a scenario leaves in the build directory.
use cargo_mutants.Prelude.Text.{Text}
use cargo_mutants.Prelude.{
  ◌≡◌, refl, sym, ap, ◌∙◌, ◌⊎◌, inl, inr, true, false, false≢true, Option, none, some, List,
  Bool-cases, Result, ok, err,
}
use cargo_mutants.Paths.{FilePath, path_eq, path_eq→eq, path_eq_refl}
use cargo_mutants.Mutant.{Mutant, mutated_code}
use cargo_mutants.Mutant.Diff.{diff}
use cargo_mutants.Outcome.{Phase, set_skip_reason, uncovered, mutated, ScenarioOutcome}
use cargo_mutants.Outcome.Totals.{add}
use cargo_mutants.Lab.{
  PackageSelection, Timeouts, Event, outcome_written, Env, World, Io, return, fail, ◌>>=◌, ◌>>◌,
  perform, write_tree, overwritten, file_written, message_written, diff_written, overwrite_file,
  apply, revert,
}
use cargo_mutants.Lab.Keeps.{
  Part, Keeps, kept, err≢ok, bind-ok, return-Keeps, bind-Keeps, expect-Keeps, perform-Keeps,
  run_phases-Keeps, start_scenario-Keeps,
}
use cargo_mutants.Lab.Worker.{
  expect, new_outcome, start_scenario, uncovered_message, run_phases, finish_scenario,
  revert_if_mutant, after_phases, run_all_phases, run_mutant, run_prepared, run_one_scenario,
  phases,
}

-- One file of the build directory
abbrev file : FilePath → Part (Option Text)
file q = record { of = λ w. w.tree q; by_event = λ w es. refl; by_fingerprint = λ w fs. refl }

write_tree-same :
    (path : FilePath) (code : Option Text) (tree : FilePath → Option Text) (q : FilePath)
    → path_eq path q ≡ true
    → write_tree path code tree q ≡ code
write_tree-same path code tree q h = rw h refl

write_tree-other :
    (path : FilePath) (code : Option Text) (tree : FilePath → Option Text) (q : FilePath)
    → path_eq path q ≡ false
    → write_tree path code tree q ≡ tree q
write_tree-other path code tree q h = rw h refl

overwritten-ok :
    (path : FilePath) (code : Text) (torn old failed : Option Text) (w w' : World) (u : Unit {0})
    → overwritten path code torn old failed w ≡ (ok u, w')
    → w'.tree ≡ write_tree path (some code) w.tree
overwritten-ok path code torn none failed w w' u h = absurd (err≢ok (ap (λ r. r.0) h))
overwritten-ok path code torn (some old) none w w' u h = sym (ap (λ r. r.1.tree) h)
overwritten-ok path code torn (some old) (some x) w w' u h = absurd (err≢ok (ap (λ r. r.0) h))

module _ (env : Env) (unified_diff : Text → Text → Text) where
  finish_scenario-Keeps :
      (q : FilePath) (o : ScenarioOutcome) → Keeps (file q) (finish_scenario env unified_diff o)
  unfolding finish_scenario
  finish_scenario-Keeps q o w =
      bind-Keeps (file q) (perform env (outcome_written o)) (λ u. return o)
        (perform-Keeps (file q) env unified_diff (outcome_written o)) (λ u. return-Keeps (file q) o)
        (record w { lab_outcome = add w.lab_outcome o })

  overwrite_file-ok :
      (path : FilePath) (code : Text) (w w' : World) (u : Unit {0})
      → overwrite_file env path code w ≡ (ok u, w')
      → w'.tree ≡ write_tree path (some code) w.tree
  unfolding overwrite_file
  overwrite_file-ok path code w w' u h =
      overwritten-ok path code (env.torn_file w.events) (w.tree path)
        (env.io_error w.events (file_written path code)) w w' u h

  pub fail-not_ok :
      (e : Text) (m : Io (Unit {0})) (w w' : World) (o : ScenarioOutcome)
      → ¬ ((m >>= λ u. fail e) w ≡ (ok o, w'))
  unfolding fail
  fail-not_ok e m w w' o h =
      let (u, (v, _, g)) = bind-ok m (λ u. fail e) w w' o h in err≢ok (ap (λ r. r.0) g)

  -- After the phases of a mutant, its file is overwritten with its original code.
  after_phases-ok :
      (m : Mutant) (r : Result Text ScenarioOutcome) (w w' : World) (o : ScenarioOutcome)
      (q : FilePath)
      → after_phases env unified_diff (mutated m) r w ≡ (ok o, w')
      → w'.tree q ≡ write_tree m.source_file.tree_relative_path (some m.source_file.code) w.tree q
  unfolding after_phases revert_if_mutant revert
  after_phases-ok m (ok p) w w' o q h =
      let (u, (v, first, last)) =
        bind-ok (revert_if_mutant env unified_diff (mutated m))
          (λ u. finish_scenario env unified_diff p) w w' o h in
      kept (file q) (finish_scenario env unified_diff p) v w' (ok o) (finish_scenario-Keeps q p)
        last
      ∙ ap (λ tree. tree q)
          (overwrite_file-ok m.source_file.tree_relative_path m.source_file.code w v u first)
  after_phases-ok m (err e) w w' o q h =
      absurd (fail-not_ok e (revert_if_mutant env unified_diff (mutated m)) w w' o h)

  -- The file of the mutant, or a file that no phase changes
  abbrev Settled : FilePath → FilePath → Type 0
  Settled path q =
      (path_eq path q ≡ true)
      ⊎ ((es : List Event) (phase : Phase) (tree : FilePath → Option Text)
          → env.written_by_cargo es phase tree q ≡ tree q)

  -- What the phases and the revert make of such a file, once the mutated code is written
  reverted :
      (path q : FilePath) (code original : Text) (ps : List Phase) (packages : PackageSelection)
      (timeouts : Timeouts) (o : ScenarioOutcome) (r : Result Text ScenarioOutcome)
      (tree : FilePath → Option Text) (w w' : World)
      → Settled path q
      → tree path ≡ some original
      → w.tree q ≡ write_tree path (some code) tree q
      → run_phases env unified_diff ps packages timeouts o w ≡ (ok r, w')
      → write_tree path (some original) w'.tree q ≡ tree q
  reverted path q code original ps packages timeouts o r tree w w' settled pristine applied ran =
      elim (Bool-cases (path_eq path q)) [
        | inl e ↦
            write_tree-same path (some original) w'.tree q e
            ∙ (sym pristine ∙ ap tree (path_eq→eq path q e))
        | inr e ↦ elim settled [
          | inl same ↦ absurd (false≢true (sym e ∙ same))
          | inr untouched ↦
              write_tree-other path (some original) w'.tree q e
              ∙ (kept (file q) (run_phases env unified_diff ps packages timeouts o) w w' (ok r)
                    (run_phases-Keeps (file q) env unified_diff ps packages timeouts o
                      (λ v phase. untouched v.events phase v.tree))
                    ran
                  ∙ (applied ∙ write_tree-other path (some code) tree q e))
        ]
      ]

  run_mutant-ok :
      (message : Option Text) (m : Mutant) (packages : PackageSelection) (timeouts : Timeouts)
      (o o' : ScenarioOutcome) (w w' : World) (q : FilePath)
      → Settled m.source_file.tree_relative_path q
      → w.tree m.source_file.tree_relative_path ≡ some m.source_file.code
      → run_mutant env unified_diff message m packages timeouts o w ≡ (ok o', w')
      → w'.tree q ≡ w.tree q
  unfolding run_mutant run_all_phases apply
  run_mutant-ok (some message) m packages timeouts o o' w w' q settled pristine h =
      let done = set_skip_reason uncovered o in
      let (u, (v, first, last)) =
        bind-ok (perform env (message_written message)) (λ u. finish_scenario env unified_diff done)
          w w' o' h in
      kept (file q) (finish_scenario env unified_diff done) v w' (ok o')
        (finish_scenario-Keeps q done) last
      ∙ kept (file q) (perform env (message_written message)) w v (ok u)
          (perform-Keeps (file q) env unified_diff (message_written message)) first
  run_mutant-ok none m packages timeouts o o' w w' q settled pristine h =
      let path = m.source_file.tree_relative_path in
      let loop = run_phases env unified_diff (phases env.check_only) packages timeouts o in
      let finish = after_phases env unified_diff (mutated m) in
      let (code, (v₁, got, rest)) =
        bind-ok (expect (mutated_code m)) (λ code. apply env m code >> (loop >>= finish)) w w' o'
          h in
      let (u, (v₂, applied, after)) =
        bind-ok (apply env m code) (λ u. loop >>= finish) v₁ w' o' rest in
      let (r, (v₃, ran, last)) = bind-ok loop finish v₂ w' o' after in
      let before = λ (p : FilePath).
        kept (file p) (expect (mutated_code m)) w v₁ (ok code)
          (expect-Keeps (file p) (mutated_code m)) got in
      after_phases-ok m r v₃ w' o' q last
      ∙ (reverted path q code m.source_file.code (phases env.check_only) packages timeouts o r
            v₁.tree v₂ v₃ settled (before path ∙ pristine)
            (ap (λ tree. tree q) (overwrite_file-ok path code v₁ v₂ u applied)) ran
          ∙ before q)

  -- What comes before the phases of a mutant changes no file.
  run_one_scenario-Settled :
      (m : Mutant) (packages : PackageSelection) (timeouts : Timeouts) (w w' : World)
      (o : ScenarioOutcome) (q : FilePath)
      → Settled m.source_file.tree_relative_path q
      → w.tree m.source_file.tree_relative_path ≡ some m.source_file.code
      → run_one_scenario env unified_diff (mutated m) packages timeouts w ≡ (ok o, w')
      → w'.tree q ≡ w.tree q
  unfolding run_one_scenario run_prepared
  run_one_scenario-Settled m packages timeouts w w' o q settled pristine h =
      let path = m.source_file.tree_relative_path in
      let message = uncovered_message env unified_diff m in
      let (out, (v₁, started, rest)) =
        bind-ok (start_scenario env unified_diff (mutated m))
          (λ out.
            run_prepared env unified_diff (mutated m) packages timeouts
              (new_outcome out (mutated m)))
          w w' o h in
      let run =
        run_mutant env unified_diff message m packages timeouts (new_outcome out (mutated m)) in
      let (text, (v₂, got, rest₂)) =
        bind-ok (expect (diff unified_diff m)) (λ text. perform env (diff_written text) >> run) v₁
          w' o rest in
      let (u, (v₃, written, last)) =
        bind-ok (perform env (diff_written text)) (λ u. run) v₂ w' o rest₂ in
      let before = λ (p : FilePath).
        kept (file p) (perform env (diff_written text)) v₂ v₃ (ok u)
          (perform-Keeps (file p) env unified_diff (diff_written text)) written
        ∙ (kept (file p) (expect (diff unified_diff m)) v₁ v₂ (ok text)
              (expect-Keeps (file p) (diff unified_diff m)) got
            ∙ kept (file p) (start_scenario env unified_diff (mutated m)) w v₁ (ok out)
                (start_scenario-Keeps (file p) env unified_diff (mutated m)) started) in
      run_mutant-ok message m packages timeouts (new_outcome out (mutated m)) o v₃ w' q settled
        (before path ∙ pristine) last
      ∙ before q

  -- A mutant's scenario that returns an outcome leaves the file of the mutant with its original code,
  -- also where what cargo ran changed it or failed, and every other file that no phase changes as it
  -- was. The condition is that the file of the mutant had its original code before.
  pub run_one_scenario-restores :
      (m : Mutant) (packages : PackageSelection) (timeouts : Timeouts) (w w' : World)
      (o : ScenarioOutcome) (q : FilePath)
      → ((es : List Event) (phase : Phase) (tree : FilePath → Option Text)
          → env.written_by_cargo es phase tree q ≡ tree q)
      → w.tree m.source_file.tree_relative_path ≡ some m.source_file.code
      → run_one_scenario env unified_diff (mutated m) packages timeouts w ≡ (ok o, w')
      → (w'.tree m.source_file.tree_relative_path ≡ some m.source_file.code)
        × (w'.tree q ≡ w.tree q)
  run_one_scenario-restores m packages timeouts w w' o q untouched pristine h =
      let path = m.source_file.tree_relative_path in
      (
        run_one_scenario-Settled m packages timeouts w w' o path (inl (path_eq_refl path)) pristine
              h
            ∙ pristine,
        run_one_scenario-Settled m packages timeouts w w' o q (inr untouched) pristine h,
      )
