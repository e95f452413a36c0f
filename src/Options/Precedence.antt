-- ===== src/Options/Precedence.antt =====
-- The command line comes before the configuration file, and that before the defaults.
use cargo_mutants.Prelude.{
  ◌≡◌, refl, subst, inl, inr, Bool, true, false, not, ◌||◌, false≢true, Option, none, some,
  Bool-cases,
}
use cargo_mutants.Prelude.Maybe.{unwrap_or}
use cargo_mutants.Options.{Common, or_else, merge, Vars}
use cargo_mutants.Options.Input.{Args, Config, default_common}
use cargo_mutants.Options.Merge.{
  Libs, new, choose_test_package, choose_skip_calls, is_true, is_empty,
}

abbrev pub is_some : {A : Type 0} → Option A → Bool
is_some none = false
is_some (some a) = true

or_else-set : {A : Type 0} (a b c : Option A) → is_some a ≡ true → or_else a b ≡ or_else a c
or_else-set none b c h = absurd (false≢true h)
or_else-set (some x) b c h = refl

unwrap_or-set :
    {A : Type 0} (a : Option A) (d e : A) → is_some a ≡ true → unwrap_or d a ≡ unwrap_or e a
unwrap_or-set none d e h = absurd (false≢true h)
unwrap_or-set (some x) d e h = refl

merge_assoc : (a b c : Common) → merge (merge a b) c ≡ merge a (merge b c)
unfolding merge
merge_assoc a b c =
    rw
      (
        or_assoc a.emit_diffs b.emit_diffs c.emit_diffs,
        or_assoc a.test_tool b.test_tool c.test_tool,
        or_assoc a.sharding b.sharding c.sharding,
      )
      refl
  where
    or_assoc : {A : Type 0} (a b c : Option A) → or_else (or_else a b) c ≡ or_else a (or_else b c)
    or_assoc none b c = refl
    or_assoc (some x) b c = refl

-- Merging the options that the command line and the configuration share is associative, and options
-- that set nothing are its neutral element.
pub merge-IsMonoid :
    ((a b c : Common) → merge (merge a b) c ≡ merge a (merge b c))
    × (((a : Common) → merge default_common a ≡ a) × ((a : Common) → merge a default_common ≡ a))
unfolding merge
merge-IsMonoid = (
  merge_assoc,
  (λ a. refl, λ a. rw (or_none a.emit_diffs, or_none a.test_tool, or_none a.sharding) refl),
)
  where
    or_none : {A : Type 0} (a : Option A) → or_else a none ≡ a
    or_none none = refl
    or_none (some x) = refl

-- Two configurations with the same lists, apart from that of the packages to test
pub record SameLists {F : Type 0} (c d : Config F) : Type 0 where
  pub additional_cargo_args : c.additional_cargo_args ≡ d.additional_cargo_args
  pub additional_cargo_test_args : c.additional_cargo_test_args ≡ d.additional_cargo_test_args
  pub error_values : c.error_values ≡ d.error_values
  pub examine_globs : c.examine_globs ≡ d.examine_globs
  pub examine_re : c.examine_re ≡ d.examine_re
  pub exclude_globs : c.exclude_globs ≡ d.exclude_globs
  pub exclude_re : c.exclude_re ≡ d.exclude_re
  pub features : c.features ≡ d.features
  pub skip_calls : c.skip_calls ≡ d.skip_calls

module _ {F Level Shell : Type 0} where
  -- The command line sets each option that it shares with the configuration and that is not a list
  pub record SetsAll (args : Args F Level Shell) : Type 0 where
    pub minimum_test_timeout : is_some args.minimum_test_timeout ≡ true
    pub test_package : is_true args.test_workspace || not (is_empty args.test_package) ≡ true
    pub skip_calls_defaults : is_some args.skip_calls_defaults ≡ true
    pub all_features : args.all_features ≡ true
    pub build_timeout_multiplier : is_some args.build_timeout_multiplier ≡ true
    pub cap_lints : is_some args.cap_lints ≡ true
    pub detect_equivalent_mutants : args.detect_equivalent_mutants ≡ true
    pub copy_vcs : is_some args.copy_vcs ≡ true
    pub test_tool : is_some args.common.test_tool ≡ true
    pub sharding : is_some args.common.sharding ≡ true
    pub emit_diffs : is_some args.common.emit_diffs ≡ true
    pub gitignore : is_some args.gitignore ≡ true
    pub copy_target : is_some args.copy_target ≡ true
    pub no_default_features : args.no_default_features ≡ true
    pub output : is_some args.output ≡ true
    pub profile : is_some args.profile ≡ true
    pub skip_uncovered : args.skip_uncovered ≡ true
    pub timeout_multiplier : is_some args.timeout_multiplier ≡ true

  test_package-same :
      (args : Args F Level Shell) (c d : Config F)
      → SetsAll args
      → choose_test_package args c ≡ choose_test_package args d
  unfolding choose_test_package
  test_package-same args c d h = elim (Bool-cases (is_true args.test_workspace)) [
    | inl e ↦ rw e refl
    | inr e ↦
        rw (e, subst (λ b. b || not (is_empty args.test_package) ≡ true) e h.test_package) refl
  ]

  skip_calls-same :
      (args : Args F Level Shell) (c d : Config F)
      → SetsAll args
      → SameLists c d
      → choose_skip_calls args c ≡ choose_skip_calls args d
  unfolding choose_skip_calls
  skip_calls-same args c d h s =
      rw
        (
          s.skip_calls,
          or_else-set args.skip_calls_defaults c.skip_calls_defaults d.skip_calls_defaults
              h.skip_calls_defaults,
        )
        refl

  common-same :
      (args : Args F Level Shell) (c d : Config F)
      → SetsAll args
      → merge args.common c.common ≡ merge args.common d.common
  unfolding merge
  common-same args c d h =
      rw
        (
          or_else-set args.common.emit_diffs c.common.emit_diffs d.common.emit_diffs h.emit_diffs,
          or_else-set args.common.test_tool c.common.test_tool d.common.test_tool h.test_tool,
          or_else-set args.common.sharding c.common.sharding d.common.sharding h.sharding,
        )
        refl

  module _ {E R G S : Type 0} (vars : Vars) (windows : Bool) (lib : Libs F E R G S) where
    -- Where the command line sets each option that it shares with the configuration file, apart from
    -- the lists, two configurations with the same lists give the same options, or the same error: the
    -- command line comes first.
    pub new-same :
        (args : Args F Level Shell) (c d : Config F)
        → SetsAll args
        → SameLists c d
        → new vars windows lib args c ≡ new vars windows lib args d
    unfolding new
    new-same args c d h s =
        rw
          (
            test_package-same args c d h,
            skip_calls-same args c d h s,
            common-same args c d h,
            s.additional_cargo_args,
            s.additional_cargo_test_args,
            s.error_values,
            s.examine_globs,
            s.examine_re,
            s.exclude_globs,
            s.exclude_re,
            s.features,
            or_else-set args.minimum_test_timeout c.minimum_test_timeout d.minimum_test_timeout
                h.minimum_test_timeout,
            or_else-set args.build_timeout_multiplier c.build_timeout_multiplier
                d.build_timeout_multiplier h.build_timeout_multiplier,
            unwrap_or-set args.cap_lints c.cap_lints d.cap_lints h.cap_lints,
            or_else-set args.copy_vcs c.copy_vcs d.copy_vcs h.copy_vcs,
            unwrap_or-set args.gitignore (unwrap_or false c.gitignore) (unwrap_or false d.gitignore)
                h.gitignore,
            or_else-set args.copy_target c.copy_target d.copy_target h.copy_target,
            or_else-set args.output c.output d.output h.output,
            or_else-set args.profile c.profile d.profile h.profile,
            or_else-set args.timeout_multiplier c.timeout_multiplier d.timeout_multiplier
                h.timeout_multiplier,
            h.all_features,
            h.detect_equivalent_mutants,
            h.no_default_features,
            h.skip_uncovered,
          )
          refl
