-- ===== src/Lab/Keeps.antt =====
-- What the steps of a worker keep of the world: a part that neither an event nor the fingerprints
-- belong to.
use cargo_mutants.Prelude.Text.{Text}
use cargo_mutants.Prelude.{
  ℕ, ◌≡◌, refl, sym, ap, ◌∙◌, ◌≢◌, inl, inr, Bool, true, false, ◌&&◌, Option, none, some, List, [],
  ◌∷◌, if◌then◌else◌, Bool-cases, Result, ok, err,
}
use cargo_mutants.Mutant.{full_name}
use cargo_mutants.Process.{is_success}
use cargo_mutants.Outcome.{
  add_phase_result, set_skip_reason, equivalent, Phase, build, phase_eq, Scenario, baseline,
  mutated, PhaseResult, ScenarioOutcome,
}
use cargo_mutants.Lab.{
  phase_ran, PackageSelection, Timeouts, Event, Env, World, Io, return, fail, unit_or, ◌>>=◌,
  continue, perform, message_written, log_created,
}
use cargo_mutants.Lab.Worker.{
  phase_limit, expect, start_scenario, record_build, is_baseline_fingerprint, find_build,
  compare_build, equivalent_build, run_phase, equivalent_to, skip_message, skip_or, next_phase,
  run_phases,
}

pub err≢ok {ℓ} : {A : Type ℓ} {e : Text} {a : A} → ◌≢◌ {A = Result Text A} (err e) (ok a)
err≢ok h = cc

continue-ok {ℓ κ} :
    {A : Type ℓ} {B : Type κ} (f : A → Io B) (r : Result Text A × World) (w' : World) (b : B)
    → continue f r ≡ (ok b, w')
    → (a : A) × ((v : World) × (r ≡ (ok a, v)) × (f a v ≡ (ok b, w')))
continue-ok f (ok a, v) w' b h = (a, (v, refl, h))
continue-ok f (err e, v) w' b h = absurd (err≢ok (ap (λ r. r.0) h))

-- A computation that returned a value, in two steps
pub bind-ok {ℓ κ} :
    {A : Type ℓ} {B : Type κ} (m : Io A) (f : A → Io B) (w w' : World) (b : B)
    → (m >>= f) w ≡ (ok b, w')
    → (a : A) × ((v : World) × (m w ≡ (ok a, v)) × (f a v ≡ (ok b, w')))
unfolding ◌>>=◌
bind-ok m f w w' b h = continue-ok f (m w) w' b h

-- A part of the world that neither an event nor a fingerprint changes
pub record Part (X : Type 0) : Type 0 where
  pub of : World → X
  pub by_event : (w : World) (es : List Event) → of (record w { events = es }) ≡ of w
  pub by_fingerprint :
      (w : World) (fs : List (ℕ × Text)) → of (record w { mutant_fingerprints = fs }) ≡ of w

-- Whatever it returns, the computation leaves the part as it was.
abbrev pub Keeps {ℓ} : {X : Type 0} {A : Type ℓ} → Part X → Io A → Type 0
Keeps part io = (w : World) → part.of (io w).1 ≡ part.of w

-- A step that keeps the part, and what it returned
pub kept {ℓ} :
    {X : Type 0} {A : Type ℓ} (part : Part X) (io : Io A) (w w' : World) (r : Result Text A)
    → Keeps part io
    → io w ≡ (r, w')
    → part.of w' ≡ part.of w
kept part io w w' r k h = sym (ap (λ p. part.of p.1) h) ∙ k w

module _ {X : Type 0} (part : Part X) where
  pub return-Keeps {ℓ} : {A : Type ℓ} (a : A) → Keeps part (return a)
  unfolding return
  return-Keeps a w = refl

  continue-part {ℓ κ} :
      {A : Type ℓ} {B : Type κ} (f : A → Io B) (r : Result Text A × World)
      → ((a : A) → Keeps part (f a))
      → part.of (continue f r).1 ≡ part.of r.1
  continue-part f (ok a, w) k = k a w
  continue-part f (err e, w) k = refl

  pub bind-Keeps {ℓ κ} :
      {A : Type ℓ} {B : Type κ} (m : Io A) (f : A → Io B)
      → Keeps part m
      → ((a : A) → Keeps part (f a))
      → Keeps part (m >>= f)
  unfolding ◌>>=◌
  bind-Keeps m f h k w = continue-part f (m w) k ∙ h w

  pub expect-Keeps {ℓ} : {A : Type ℓ} (o : Option A) → Keeps part (expect o)
  unfolding expect fail return
  expect-Keeps none w = refl
  expect-Keeps (some a) w = refl

  unit_or-part : (o : Option Text) (w : World) → part.of (unit_or o w).1 ≡ part.of w
  unit_or-part none w = refl
  unit_or-part (some e) w = refl

  if-Keeps {ℓ} :
      {A : Type ℓ} (b : Bool) (m k : Io A)
      → Keeps part m
      → Keeps part k
      → Keeps part (if b then m else k)
  if-Keeps true m k h h' = h
  if-Keeps false m k h h' = h'

  module _ (env : Env) (unified_diff : Text → Text → Text) where
    pub perform-Keeps : (e : Event) → Keeps part (perform env e)
    unfolding perform
    perform-Keeps e w =
        unit_or-part (env.io_error w.events e) (record w { events = e ∷ w.events })
        ∙ part.by_event w (e ∷ w.events)

    record_build-Keeps :
        (f : ℕ) (name : Text) (o : Option Text)
        → Keeps part (record_build env unified_diff f name o)
    unfolding record_build
    record_build-Keeps f name none w = part.by_fingerprint w ((f, name) ∷ w.mutant_fingerprints)
    record_build-Keeps f name (some o) w = refl

    compare_build-Keeps :
        (name : Text) (o : Option ℕ) → Keeps part (compare_build env unified_diff name o)
    unfolding compare_build
    compare_build-Keeps name none w = refl
    compare_build-Keeps name (some f) w =
        elim (Bool-cases (is_baseline_fingerprint env unified_diff f)) [
          | inl e ↦ rw (e, compare_build) refl
          | inr e ↦
              rw (e, compare_build)
                (record_build-Keeps f name (find_build f w.mutant_fingerprints) w)
        ]

    equivalent_to-Keeps :
        (phase : Phase) (sc : Scenario) → Keeps part (equivalent_to env unified_diff phase sc)
    unfolding equivalent_to equivalent_build
    equivalent_to-Keeps phase baseline = return-Keeps none
    equivalent_to-Keeps phase (mutated m) =
        if-Keeps (phase_eq phase build && env.detect_equivalent_mutants)
          (expect (full_name m) >>= equivalent_build env unified_diff) (return none)
          (bind-Keeps (expect (full_name m)) (equivalent_build env unified_diff)
            (expect-Keeps (full_name m))
            (λ name w. compare_build-Keeps name (env.fingerprint_build_artifacts w.events) w))
          (return-Keeps none)

    skip_or-Keeps :
        (o : ScenarioOutcome) (other : Option Text) (rest : Io (Result Text ScenarioOutcome))
        → Keeps part rest
        → Keeps part (skip_or env unified_diff o other rest)
    unfolding skip_or
    skip_or-Keeps o none rest k = k
    skip_or-Keeps o (some other) rest k =
        bind-Keeps (perform env (message_written (skip_message env unified_diff other)))
          (λ u. return (ok (set_skip_reason equivalent o)))
          (perform-Keeps (message_written (skip_message env unified_diff other)))
          (λ u. return-Keeps (ok (set_skip_reason equivalent o)))

    next_phase-Keeps :
        (phase : Phase) (o : ScenarioOutcome) (r : Result Text PhaseResult)
        (rest : ScenarioOutcome → Io (Result Text ScenarioOutcome))
        → ((o' : ScenarioOutcome) → Keeps part (rest o'))
        → Keeps part (next_phase env unified_diff phase o r rest)
    unfolding next_phase
    next_phase-Keeps phase o (err e) rest k = return-Keeps (err e)
    next_phase-Keeps phase o (ok pr) rest k =
        let o' = add_phase_result pr o in
        if-Keeps (is_success pr.process_status)
          (equivalent_to env unified_diff phase o.scenario >>= λ other.
            skip_or env unified_diff o' other (rest o'))
          (return (ok o'))
          (bind-Keeps (equivalent_to env unified_diff phase o.scenario)
            (λ other. skip_or env unified_diff o' other (rest o'))
            (equivalent_to-Keeps phase o.scenario)
            (λ other. skip_or-Keeps o' other (rest o') (k o')))
          (return-Keeps (ok o'))

    -- The phases keep a part that what they run in the build directory keeps.
    pub run_phases-Keeps :
        (ps : List Phase) (packages : PackageSelection) (timeouts : Timeouts) (o : ScenarioOutcome)
        → ((w : World) (phase : Phase)
            → part.of (record w { tree = env.written_by_cargo w.events phase w.tree }) ≡ part.of w)
        → Keeps part (run_phases env unified_diff ps packages timeouts o)
    unfolding run_phases run_phase
    run_phases-Keeps [] packages timeouts o k = return-Keeps (ok o)
    run_phases-Keeps (phase ∷ rest) packages timeouts o k =
        bind-Keeps (run_phase env unified_diff phase packages timeouts)
          (λ r.
            next_phase env unified_diff phase o r
              (run_phases env unified_diff rest packages timeouts))
          (λ w.
            part.by_event (record w { tree = env.written_by_cargo w.events phase w.tree })
              (phase_ran phase packages (phase_limit timeouts phase) ∷ w.events)
            ∙ k w phase)
          (λ r.
            next_phase-Keeps phase o r (run_phases env unified_diff rest packages timeouts)
              (λ o'. run_phases-Keeps rest packages timeouts o' k))

    pub start_scenario-Keeps : (sc : Scenario) → Keeps part (start_scenario env unified_diff sc)
    unfolding start_scenario
    start_scenario-Keeps sc =
        bind-Keeps (perform env (log_created sc)) (λ u w. (ok (env.scenario_output w.events sc), w))
          (perform-Keeps (log_created sc)) (λ u w. refl)
