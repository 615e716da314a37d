-- ===== src/Policy/Evaluate.antt =====
-- `evaluatePolicy` of src/policy.mjs, for an action that `validateAction` accepts. The environment is
-- always resolved from the action: the option `environmentResolution` is left out.
use ai_sdlc_framework.Prelude.{
  ℕ, true, not, List, [], ◌∷◌, ◌++◌, Option, none, some, any, if◌then◌else◌, String,
}
use ai_sdlc_framework.Result.{Result, ok, ◌>>=◌}
use ai_sdlc_framework.Authority.Records.{Context, Cycle}
use ai_sdlc_framework.Authority.Permission.{current_cycle}
use ai_sdlc_framework.Policy.Environment as Env
use ai_sdlc_framework.Policy.Request.{
  Answers, Configuration, Request, State, complete_push, effective_environments, environment_action,
  with_environment,
}
use ai_sdlc_framework.Policy.Rules.{
  Check, Decision, apply_rules, candidate_checks, class_in, conflict_checks, detected_checks,
  draft_checks, is_violation, phase_checks, work_checks,
}
use ai_sdlc_framework.Policy.Delivery.{
  deploy_checks, environments_checks, last_checks, permission_checks, scope_checks, test_checks,
}

abbrev pub cycle_of : State → Option Cycle
cycle_of s = current_cycle s.records s.cycle_ref

-- `{ cycleId: cycle?.id, clock }`
abbrev pub context_of : State → ℕ → Context
context_of s now = record {
  cycle_id = elim (cycle_of s) [ none ↦ none | some cycle ↦ some cycle.id ];
  now = now;
}

abbrev pub resolution_of : Configuration → Request → Env.Resolution
resolution_of config r = Env.resolve_action_environment config.mappings (environment_action r)

-- The action that the rules see.
abbrev pub resolved_request : (String → String) → State → Configuration → Request → Request
resolved_request digest s config r =
    complete_push digest s (with_environment r (resolution_of config r))

module _ (digest : String → String) (s : State) (config : Configuration) (answers : Answers)
    (now : ℕ) where
  -- The rules that do not depend on an environment.
  abbrev pub work_rules : Request → Env.Resolution → List Check
  work_rules r resolution =
      detected_checks digest s config answers (cycle_of s) (context_of s now) r config.detected
      ++ work_checks digest s config answers (cycle_of s) (context_of s now) r resolution
      ++ draft_checks digest s config answers (cycle_of s) (context_of s now) r
      ++ candidate_checks digest s config answers (cycle_of s) (context_of s now) r
      ++ phase_checks digest s config answers (cycle_of s) (context_of s now) r
      ++ conflict_checks digest s config answers (cycle_of s) (context_of s now) r s.conflicts
      ++ scope_checks digest s config answers (cycle_of s) (context_of s now) r

  abbrev pub delivery_rules : Request → List Check
  delivery_rules r =
      environments_checks digest s config answers (cycle_of s) (context_of s now) r
        (effective_environments r)
      ++ deploy_checks digest s config answers (cycle_of s) (context_of s now) r
      ++ test_checks digest s config answers (cycle_of s) (context_of s now) r answers.test
      ++ last_checks digest s config answers (cycle_of s) (context_of s now) r

  abbrev pub permission_rules : Request → List Check
  permission_rules r = permission_checks digest s config answers (cycle_of s) (context_of s now) r

  -- Every call of `rule`, in order.
  abbrev pub all_rules : Request → Env.Resolution → List Check
  all_rules r resolution = work_rules r resolution ++ permission_rules r ++ delivery_rules r

  unfoldable pub evaluate_policy : Request → Result Decision
  unfolding apply_rules
  evaluate_policy request =
      let r = resolved_request digest s config request in
      if class_in r ("read" ∷ "bookkeeping" ∷ [])
      then ok (record { allowed = true; findings = []; request = r })
      else do
        findings ←
            apply_rules digest s config answers (cycle_of s) (context_of s now) r
              (all_rules r (resolution_of config request))
        ok (record { allowed = not (any is_violation findings); findings = findings; request = r })
