-- ===== src/Policy/Rules.antt =====
-- `evaluatePolicy` of src/policy.mjs: the rules in their order, and the decision.
use ai_sdlc_framework.Prelude.{
  Bool, true, false, not, ◌&&◌, ◌||◌, List, [], ◌∷◌, ◌++◌, Option, none, some, if◌then◌else◌, same,
  same_opt, member, String, is_defined,
}
use Prim.Native.String.{◌++◌ as joined}
use ai_sdlc_framework.Result.{Result, ok, ◌>>=◌}
use ai_sdlc_framework.Authority.Records.{Context, Cycle, Phase, coding}
use ai_sdlc_framework.Authority.Scope.{applicable_override, scope_matches, is_empty_list}
use ai_sdlc_framework.Authority.Permission.{assurance_pending, phase_authority}
use ai_sdlc_framework.Policy.Environment as Env
use ai_sdlc_framework.Policy.Request.{
  Answers, Configuration, Detected, OpenConflict, Request, State, authorized_destination,
  is_publication,
}

-- One call of `rule`: its name, its condition, and whether no override can lift it. A condition that
-- throws ends the evaluation.
pub record Check : Type 0 where
  pub name : String
  pub met : Result Bool
  pub external : Bool

abbrev pub check : String → Bool → Check
check name b = record { name = name; met = ok b; external = false }

abbrev pub check_with : String → Result Bool → Check
check_with name b = record { name = name; met = b; external = false }

abbrev pub external_check : String → Result Bool → Check
external_check name b = record { name = name; met = b; external = true }

abbrev pub given : Bool → List Check → List Check
given b checks = if b then checks else []

-- A finding: `some` of the override's identity where it deviates with authority.
pub record Finding : Type 0 where
  pub rule : String
  pub override_id : Option String

abbrev pub is_violation : Finding → Bool
is_violation f = not (is_defined f.override_id)

pub record Decision : Type 0 where
  pub allowed : Bool
  pub findings : List Finding
  pub request : Request

abbrev pub is_coding : Phase → Bool
is_coding p = elim p [ coding ↦ true | _ ↦ false ]

abbrev pub is_flag : Bool → Option Bool → Bool
is_flag b none = false
is_flag true (some c) = c
is_flag false (some c) = not c

abbrev pub environment_name : Request → String → Bool
environment_name r e = same_opt r.base.environment (some e)

abbrev pub class_in : Request → List String → Bool
class_in r classes = member classes r.base.class

module _ (digest : String → String) (s : State) (config : Configuration) (answers : Answers)
    (cycle : Option Cycle) (c : Context) where
  -- The function `rule`.
  unfoldable pub apply_rule : Request → Check → Result (List Finding)
  unfolding applicable_override
  apply_rule r k = do
    met ← k.met
    if met
        then ok []
        else if k.external
        then ok (record { rule = k.name; override_id = none } ∷ [])
        else do
          found ← applicable_override digest s.records k.name r.base c
          elim found [
            | none ↦ ok (record { rule = k.name; override_id = none } ∷ [])
            | some e ↦ ok (record { rule = k.name; override_id = some e.id } ∷ [])
          ]

  unfoldable pub apply_rules : Request → List Check → Result (List Finding)
  unfolding apply_rule
  apply_rules r [] = ok []
  apply_rules r (k ∷ ks) =
      let rest = apply_rules r ks in do found ← apply_rule r k; more ← rest; ok (found ++ more)

  -- `configuration.detectedConflicts`
  unfoldable pub detected_checks : Request → List Detected → List Check
  detected_checks r [] = []
  detected_checks r (d ∷ ds) =
      given
        (environment_name r d.environment
          || (same d.environment "PROD" && same r.base.class "recommend-prod"))
        (check d.rule false ∷ [])
      ++ detected_checks r ds

  unfoldable pub work_checks : Request → Env.Resolution → List Check
  work_checks r resolution =
      check "active-work" (same s.lifecycle_status "active")
      ∷ check "cycle-assurance" (not (assurance_pending cycle s.records))
      ∷ check "supported-operation" (not (same r.base.class "unknown"))
      ∷ given (resolution.required || not (is_empty_list resolution.reasons))
          (external_check "environment-resolution" (ok resolution.resolved) ∷ [])

  abbrev pub is_early_draft : Request → Bool
  is_early_draft r =
      r.early_draft
      && is_publication r
      && r.draft
      && not (is_empty_list r.base.paths)
      && answers.draft_paths r

  -- `authorizedDestination && Boolean(publicationAuthority(…))`
  abbrev pub published : Request → Option String → Result Bool
  published r target_ref = do
    there ← authorized_destination digest s r
    ok (there && answers.publication_authority r target_ref)

  unfoldable pub draft_checks : Request → List Check
  draft_checks r =
      given r.early_draft (check "early-draft-documents" (is_early_draft r) ∷ [])
      ++ given (is_early_draft r && same r.base.class "push")
          (check_with "pr-publication" (published r r.base_ref) ∷ [])

  abbrev pub is_candidate_remote : Request → Bool
  is_candidate_remote r =
      (is_publication r
        || (class_in r ("build" ∷ "deploy" ∷ "pipeline" ∷ "pr-validation" ∷ "test" ∷ [])
            && not (environment_name r "local")))
      && not (is_early_draft r)

  unfoldable pub candidate_checks : Request → List Check
  candidate_checks r = given (is_candidate_remote r) (
      check "local-validation" (answers.stage_passed "local")
      ∷ check "candidate-review" answers.review_passed
      ∷ check "review-completion" (answers.stage_completed "review")
      ∷ [])

  abbrev pub phase_met : Request → Result Bool
  phase_met r =
      if is_coding s.phase
      then (do
        authority ← phase_authority digest s.records s.phase (some r.base) c
        ok authority.active)
      else ok false

  unfoldable pub phase_checks : Request → List Check
  phase_checks r =
      given (class_in r ("code" ∷ "local-build" ∷ "test" ∷ "build" ∷ "deploy" ∷ "pipeline" ∷ []))
        (check_with "phase" (phase_met r) ∷ [])
      ++ given (same r.base.class "document")
          (check "artifact-role" (answers.document_roles r) ∷ [])

  unfoldable pub conflict_checks : Request → List OpenConflict → List Check
  conflict_checks r [] = []
  conflict_checks r (k ∷ ks) =
      given (scope_matches k.scope r.base) (check (joined "conflict:" k.id) false ∷ [])
      ++ conflict_checks r ks
