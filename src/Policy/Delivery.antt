-- ===== src/Policy/Delivery.antt =====
-- The rules of `evaluatePolicy` in src/policy.mjs on publication, environments and tests.
use ai_sdlc_framework.Prelude.{
  Bool, true, false, not, ◌&&◌, ◌||◌, List, [], ◌∷◌, ◌++◌, Option, none, some, if◌then◌else◌, same,
  same_opt, member, member_opt, String, every,
}
use ai_sdlc_framework.Result.{Result, ok, ◌>>=◌}
use ai_sdlc_framework.Authority.Records.{Context, Cycle}
use ai_sdlc_framework.Authority.Active.{active_events}
use ai_sdlc_framework.Authority.Scope.{find_matching}
use ai_sdlc_framework.Policy.Request.{
  Answers, Configuration, Contract, Deployment, MergeContext, Artifact, PlannedTest, Request,
  StagingExecution, State, authorized_destination, contract, has_environment_grant, is_publication,
  member_root, permission,
}
use ai_sdlc_framework.Policy.Rules.{
  Check, check, check_with, external_check, given, is_flag, environment_name, class_in, published,
}

-- `config && config.target === action.target && config.configDigest === action.configDigest`
abbrev pub target_configured : Option Contract → Request → Bool
target_configured none r = false
target_configured (some k) r =
    same_opt k.target r.base.publication.target && same_opt k.config_digest r.base.config_digest

abbrev pub stages_allowed : Option Contract → List String → Bool
stages_allowed none stages = false
stages_allowed (some k) stages = every (member k.allowed_stages) stages

abbrev pub stage_checks : Option Contract → Option (List String) → List Check
stage_checks k none = []
stage_checks k (some stages) = check "allowed-stages" (stages_allowed k stages) ∷ []

-- `config?.pr?.required || config?.pr?.validation`
abbrev pub needs_pr : Option Contract → Bool
needs_pr none = false
needs_pr (some k) = k.pr_required || k.pr_validation

abbrev pub merges : Option MergeContext → String → Request → Bool
merges none revision r = false
merges (some m) revision r =
    same m.merge_revision revision && same_opt m.source_revision r.base.publication.source_revision

-- `source?.revision && (…)`: an empty revision is falsy.
abbrev pub candidate_matches : Option String → Option MergeContext → Request → Bool
candidate_matches none m r = false
candidate_matches (some revision) m r =
    not (same revision "")
    && (same_opt (some revision) r.base.publication.source_revision || merges m revision r)

abbrev pub deployment_matches : Option Deployment → Request → Bool
deployment_matches none r = false
deployment_matches (some d) r =
    same_opt (some d.id) r.deployment_id && same_opt d.artifact_id r.artifact_id

abbrev pub deployment_targets : Option Deployment → Request → Bool
deployment_targets none r = false
deployment_targets (some d) r = same_opt d.target r.base.publication.target

-- `stagingExecutionMatches`
unfoldable pub execution_matches : StagingExecution → Option String → Option String → Bool
execution_matches x owner host = x.resolved && same_opt x.owner owner && member_opt x.locations host

abbrev pub planned_for : PlannedTest → Request → Bool
planned_for t r = same_opt t.owner r.base.owner && same_opt t.location r.base.host

-- `${environment.toLowerCase()}-authorization`, for an environment that is not PROD
abbrev pub authorization_name : String → String
authorization_name e = if same e "DEV" then "dev-authorization" else "staging-authorization"

module _ (digest : String → String) (s : State) (config : Configuration) (answers : Answers)
    (cycle : Option Cycle) (c : Context) where
  -- A decision of a kind for the item of the action, in force and in scope.
  unfoldable pub item_decision : Request → String → Result Bool
  item_decision r kind = do
    found ←
        find_matching digest s.records
          (λ e. same e.kind kind && same_opt e.effect.item_id r.base.item_id) r.base
          (active_events s.records c)
    elim found [ none ↦ ok false | some e ↦ ok true ]

  abbrev included : Request → Result Bool
  included r = do
    inclusion ← item_decision r "scope-inclusion"
    if inclusion
        then ok true
        else item_decision r (
            if same r.base.class "document"
            then "out-of-scope-documentation"
            else "out-of-scope-execution")

  unfoldable pub scope_checks : Request → List Check
  scope_checks r = given r.out_of_scope (
      check_with
        (if same r.base.class "document"
          then "out-of-scope-documentation"
          else "out-of-scope-execution")
        (included r)
      ∷ [])

  abbrev pub granted : Request → String → Result Bool
  granted r grant = permission digest s.records grant r.base c

  abbrev pub destination_checks : Request → List Check
  destination_checks r =
      given (is_publication r)
        (external_check "publication-destination" (authorized_destination digest s r) ∷ [])

  abbrev pub operation_checks : Request → List Check
  operation_checks r =
      given (class_in r ("push" ∷ "merge" ∷ "auto-merge" ∷ "policy-bypass" ∷ []))
        (check_with r.base.class (granted r r.base.class) ∷ [])

  abbrev pub push_checks : Request → List Check
  push_checks r = given (same r.base.class "push") (
      check "force-push" (not (is_flag true r.base.publication.force))
      ∷ check "remote-ref-delete" (not (is_flag true r.base.publication.delete))
      ∷ [])

  abbrev pub denial_checks : Request → List Check
  denial_checks r =
      given (is_flag false r.external_permission)
        (external_check "external-permission" (ok false) ∷ [])

  abbrev pub change_checks : Request → List Check
  change_checks r =
      given (same r.base.class "destructive")
        (check "protect-existing-changes" r.preserves_changes ∷ [])
      ++ given (class_in r ("pr-create" ∷ "pr-update" ∷ [])) (
          check_with "pr-publication"
            (published digest s config answers cycle c r r.base.publication.target_ref)
          ∷ [])

  unfoldable pub permission_checks : Request → List Check
  permission_checks r =
      destination_checks r
      ++ (operation_checks r ++ (push_checks r ++ (denial_checks r ++ change_checks r)))

  abbrev pub environment_class : Request → Bool
  environment_class r = class_in r ("build" ∷ "deploy" ∷ "pipeline" ∷ [])

  unfoldable pub pr_checks : Request → String → List Check
  pr_checks r e = given (environment_class r) (
      check "pr-readiness" (answers.readiness e r)
      ∷ given (needs_pr (contract config.contracts e) || same e "PROD") (
          check "pr-candidate-provenance"
            (candidate_matches (answers.source_revision r) (answers.merge_context r) r)
          ∷ []))

  unfoldable pub prod_checks : Request → List Check
  prod_checks r = given (not (same r.base.class "recommend-prod")) (
      check_with "prod-execution" (granted r "prod-execution")
      ∷ check "configured-target" (target_configured (contract config.contracts "PROD") r)
      ∷ [])

  unfoldable pub grant_checks : Request → String → List Check
  grant_checks r e = given (not (class_in r ("recommend-staging" ∷ "recommend-prod" ∷ []))) (
      check_with (authorization_name e) (has_environment_grant digest s.records cycle e r.base c)
      ∷ check "local-validation" (answers.stage_passed "local")
      ∷ (given (same e "STAGING") (
            check "dev-validation" (answers.stage_passed "DEV")
            ∷ check "dev-completion" (answers.stage_completed "DEV")
            ∷ [])
          ++ check "configured-target" (target_configured (contract config.contracts e) r) ∷ []))

  unfoldable pub environment_checks : Request → String → List Check
  unfolding pr_checks prod_checks grant_checks
  environment_checks r e =
      stage_checks (contract config.contracts e) r.stages
      ++ (pr_checks r e ++ (if same e "PROD" then prod_checks r else grant_checks r e))

  -- `for (const environment of environments)`
  unfoldable pub environments_checks : Request → List String → List Check
  environments_checks r [] = []
  environments_checks r (e ∷ es) = environment_checks r e ++ environments_checks r es

  abbrev pub artifact_matches : Option Artifact → Request → Bool
  artifact_matches none r = false
  artifact_matches (some a) r =
      same_opt a.artifact_id r.artifact_id
      && same_opt a.environment r.base.environment
      && same_opt a.artifact_ref answers.requested_artifact_ref
      && same_opt a.local_repository_path (member_root s.members r.base.repository_id)
      && same_opt r.base.publication.local_repository_path
          (member_root s.members r.base.repository_id)
      && same_opt a.remote_repository_url r.base.publication.remote_repository_url

  unfoldable pub deploy_checks : Request → List Check
  deploy_checks r =
      given (same r.base.class "deploy" && not (environment_name r "PROD"))
        (check "artifact-provenance" (artifact_matches (answers.artifact r) r) ∷ [])

  unfoldable pub staging_checks : Request → PlannedTest → List Check
  unfolding execution_matches
  staging_checks r t =
      let x = answers.staging_execution r in
      external_check "staging-execution-policy" (ok x.resolved)
      ∷ check "staging-execution-contract"
          (execution_matches x r.base.owner r.base.host && (x.overridden || planned_for t r))
      ∷ (given (x.resolved && same_opt x.owner (some "user"))
            (check "staging-user-handoff" false ∷ [])
          ++ check "deployment-before-test" (
              deployment_matches (answers.deployment "STAGING") r
              && deployment_targets (answers.deployment "STAGING") r)
            ∷ [])

  unfoldable pub planned_checks : Request → PlannedTest → List Check
  unfolding staging_checks
  planned_checks r t =
      check "test-target" (same_opt (some t.environment) r.base.environment)
      ∷ ((if same t.environment "STAGING"
            then staging_checks r t
            else check "test-owner" (planned_for t r) ∷ [])
          ++ check_with "unit-first" answers.unit_first
            ∷ given (same t.environment "DEV") (
                check "deployment-before-test" (deployment_matches (answers.deployment "DEV") r)
                ∷ []))

  unfoldable pub test_checks : Request → Option PlannedTest → List Check
  unfolding planned_checks
  test_checks r none = given (same r.base.class "test") (check "test-specification" false ∷ [])
  test_checks r (some t) =
      given (same r.base.class "test") (check "test-specification" true ∷ planned_checks r t)

  unfoldable pub last_checks : Request → List Check
  last_checks r =
      given
        (class_in r ("build" ∷ "deploy" ∷ "pipeline" ∷ "pr-validation" ∷ [])
          && not (environment_name r "local"))
        (check "monitor-capability" r.monitor_capability ∷ [])
      ++ given (same r.base.class "recommend-staging")
          (check "dev-completion" (answers.stage_completed "DEV") ∷ [])
      ++ given (same r.base.class "recommend-prod") (
          check "staging-completion" answers.staging_completed
          ∷ check "prod-pr-readiness" (answers.readiness "PROD" r)
          ∷ [])
