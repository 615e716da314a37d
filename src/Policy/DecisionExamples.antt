-- ===== src/Policy/DecisionExamples.antt =====
-- Examples for the decisions of `evaluatePolicy` in src/policy.mjs.
use ai_sdlc_framework.Policy.Delivery.{
  target_configured, deploy_checks, environment_checks, environments_checks, grant_checks,
  item_decision, last_checks, permission_checks, planned_checks, pr_checks, prod_checks,
  scope_checks, test_checks,
}
use ai_sdlc_framework.Authority.Scope.{
  applicable_override, digest_is, find_matching, find_reservation, matches_scope, observes,
  once_matches, publication_destination, publication_matches, push_bound, scope_matches,
}
use ai_sdlc_framework.Authority.Active.{
  active_events, events, filter_active, lifetime_over, revoked,
}
use ai_sdlc_framework.Policy.Rules.{
  draft_checks, candidate_checks, detected_checks, work_checks, phase_checks, apply_rule,
  apply_rules, conflict_checks,
}
use ai_sdlc_framework.Policy.Evaluate.{
  evaluate_policy, resolved_request, resolution_of, all_rules, cycle_of, context_of,
}
use ai_sdlc_framework.Policy.Request.{
  Answers, Configuration, Contract, Request, State, StagingExecution, authorized_destination,
  permission, has_environment_grant, contract, complete_push, with_environment, environment_action,
  any_permission, canonical_only, effective_environments, member_root, observed_url,
}
use ai_sdlc_framework.Policy.Environment.{
  resolve_action_environment, is_required, reasons, unresolved, environments, add_labels, add,
  add_all, label_environments, mapped, mapping_matches,
}
use ai_sdlc_framework.Authority.Permission.{
  assurance_pending, current_cycle, bound_to_cycle, higher, in_scope, latest, latest_authority,
  latest_from, permission_matches, phase_authority, push_complete, push_fields_match, push_matches,
  transition_authority, transitions,
}
use ai_sdlc_framework.Prelude.{true, false, List, [], ◌∷◌, some, none, ◌≡◌, refl, ◌⊎◌, ◌↔◌, String}
use ai_sdlc_framework.Result.{ok}
use ai_sdlc_framework.Authority.Records.{
  Action, Event, Record, Cycle, event, repository_observation, cycle_record, coding,
}
use ai_sdlc_framework.Authority.Fixtures.{
  branch_push, build, first_approval, no_publication, plain_effect, push_consent,
}
use ai_sdlc_framework.Policy.RuleChecks.{AllUpheld, IsAllowed, evaluate_policy_iff}
use ai_sdlc_framework.Policy.Guarantees.{Overridden, seen}
use ai_sdlc_framework.Policy.Allowed.{push_allowed, external_denial_final}
use ai_sdlc_framework.Policy.AllowedEnvironments.{prod_allowed, staging_allowed}

abbrev itself : String → String
itself u = u

abbrev candidate : Cycle
candidate = record {
  id = "c1";
  work_item_id = "w1";
  candidate_digest = "cd";
  test_spec_digest = "td";
  config_digest = "kd";
  assurance_invalidated = false;
}

abbrev prod_consent : Event
prod_consent = record {
  id = "d5";
  kind = "permission";
  sequence = 5;
  effect = record plain_effect { grant = some "prod-execution" };
}

abbrev promotion : Event
promotion = record {
  id = "d6";
  kind = "staging-promotion";
  sequence = 6;
  effect = record plain_effect {
    publication = record no_publication { target = some "t" };
    cycle_id = some "c1";
    candidate_digest = some "cd";
    test_spec_digest = some "td";
    config_digest = some "kd";
  };
}

abbrev ready_records : List Record
ready_records =
    repository_observation (record {
      repository_id = "repo";
      local_repository_path = "/repo";
      remote_repository_url = "url";
    })
    ∷ event push_consent
    ∷ event first_approval
    ∷ event prod_consent
    ∷ event promotion
    ∷ cycle_record candidate
    ∷ []

abbrev ready : State
ready = record {
  records = ready_records;
  conflicts = [];
  members = record { repository_id = "repo"; root = "/repo" } ∷ [];
  lifecycle_status = "active";
  phase = coding;
  cycle_ref = some "c1";
}

abbrev known_target : Contract
known_target = record {
  target = some "t";
  config_digest = some "kd";
  allowed_stages = [];
  pr_required = true;
  pr_validation = false;
}

abbrev two_targets : Configuration
two_targets = record {
  mappings = [];
  detected = [];
  contracts = ("STAGING", known_target) ∷ ("PROD", known_target) ∷ [];
}

abbrev no_execution : StagingExecution
no_execution = record { resolved = false; owner = none; locations = []; overridden = false }

abbrev all_passed : Answers
all_passed = record {
  stage_passed = λ e. true;
  review_passed = true;
  stage_completed = λ e. true;
  staging_completed = true;
  publication_authority = λ r t. true;
  readiness = λ e r. true;
  source_revision = λ r. some "r1";
  merge_context = λ r. none;
  draft_paths = λ r. true;
  document_roles = λ r. true;
  test = none;
  staging_execution = λ r. no_execution;
  unit_first = ok true;
  deployment = λ e. none;
  artifact = λ r. none;
  requested_artifact_ref = none;
}

abbrev requested : Action → Request
requested a = record {
  base = a;
  implicit_environments = [];
  stages = none;
  provider = none;
  pipeline = none;
  base_ref = none;
  draft = false;
  early_draft = false;
  out_of_scope = false;
  external_permission = none;
  preserves_changes = false;
  monitor_capability = true;
  artifact_id = none;
  deployment_id = none;
}

abbrev plain_push : Request
plain_push =
    requested
      (record build { class = "push"; repository_id = some "repo"; publication = branch_push })

abbrev denied_request : Request
denied_request = record plain_push { external_permission = some false }

-- A build for an environment, of the revision of the candidate.
abbrev build_request : String → Request
build_request e = requested (record build {
  environment = some e;
  config_digest = some "kd";
  publication = record no_publication { target = some "t"; source_revision = some "r1" };
})

plain_push-IsAllowed : IsAllowed (evaluate_policy itself ready two_targets all_passed 0 plain_push)
unfolding assurance_pending current_cycle resolve_action_environment is_required environment_action
    complete_push with_environment evaluate_policy reasons unresolved environments add_labels
    draft_checks candidate_checks detected_checks work_checks phase_checks active_events events
    filter_active lifetime_over revoked bound_to_cycle higher in_scope latest latest_authority
    latest_from permission_matches phase_authority push_complete push_fields_match push_matches
    transition_authority transitions applicable_override digest_is find_matching find_reservation
    matches_scope observes once_matches publication_destination publication_matches push_bound
    scope_matches deploy_checks environment_checks environments_checks grant_checks item_decision
    last_checks permission_checks planned_checks pr_checks prod_checks scope_checks test_checks add
    add_all label_environments mapped mapping_matches any_permission authorized_destination
    canonical_only contract effective_environments has_environment_grant member_root observed_url
    permission apply_rule apply_rules conflict_checks
plain_push-IsAllowed = refl

prod_request-IsAllowed :
    IsAllowed (evaluate_policy itself ready two_targets all_passed 0 (build_request "PROD"))
unfolding assurance_pending current_cycle resolve_action_environment is_required environment_action
    complete_push with_environment evaluate_policy reasons unresolved environments add_labels
    draft_checks candidate_checks detected_checks work_checks phase_checks active_events events
    filter_active lifetime_over revoked bound_to_cycle higher in_scope latest latest_authority
    latest_from permission_matches phase_authority push_complete push_fields_match push_matches
    transition_authority transitions applicable_override digest_is find_matching find_reservation
    matches_scope observes once_matches publication_destination publication_matches push_bound
    scope_matches deploy_checks environment_checks environments_checks grant_checks item_decision
    last_checks permission_checks planned_checks pr_checks prod_checks scope_checks test_checks add
    add_all label_environments mapped mapping_matches any_permission authorized_destination
    canonical_only contract effective_environments has_environment_grant member_root observed_url
    permission apply_rule apply_rules conflict_checks
prod_request-IsAllowed = refl

staging_request-IsAllowed :
    IsAllowed (evaluate_policy itself ready two_targets all_passed 0 (build_request "STAGING"))
unfolding assurance_pending current_cycle resolve_action_environment is_required environment_action
    complete_push with_environment evaluate_policy reasons unresolved environments add_labels
    draft_checks candidate_checks detected_checks work_checks phase_checks active_events events
    filter_active lifetime_over revoked bound_to_cycle higher in_scope latest latest_authority
    latest_from permission_matches phase_authority push_complete push_fields_match push_matches
    transition_authority transitions applicable_override digest_is find_matching find_reservation
    matches_scope observes once_matches publication_destination publication_matches push_bound
    scope_matches deploy_checks environment_checks environments_checks grant_checks item_decision
    last_checks permission_checks planned_checks pr_checks prod_checks scope_checks test_checks add
    add_all label_environments mapped mapping_matches any_permission authorized_destination
    canonical_only contract effective_environments has_environment_grant member_root observed_url
    permission apply_rule apply_rules conflict_checks
staging_request-IsAllowed = refl

evaluate_policy_iff_example :
    IsAllowed (evaluate_policy itself ready two_targets all_passed 0 plain_push)
    ↔ AllUpheld itself ready two_targets all_passed
        (cycle_of ready)
        (context_of ready 0)
        (resolved_request itself ready two_targets plain_push)
        (all_rules itself ready two_targets all_passed 0
          (resolved_request itself ready two_targets plain_push)
          (resolution_of two_targets plain_push))
unfolding complete_push with_environment
evaluate_policy_iff_example =
    evaluate_policy_iff itself ready two_targets all_passed 0 plain_push refl

push_allowed_example :
    (authorized_destination itself ready (seen itself ready two_targets all_passed 0 plain_push)
      ≡ ok true)
    × ((permission itself ready_records "push"
            (seen itself ready two_targets all_passed 0 plain_push).base
            (context_of ready 0)
          ≡ ok true)
        ⊎ Overridden itself ready two_targets all_passed 0
            (seen itself ready two_targets all_passed 0 plain_push)
            "push")
    × (some false ≡ some true
        → Overridden itself ready two_targets all_passed 0
            (seen itself ready two_targets all_passed 0 plain_push)
            "force-push")
    × (some false ≡ some true
        → Overridden itself ready two_targets all_passed 0
            (seen itself ready two_targets all_passed 0 plain_push)
            "remote-ref-delete")
push_allowed_example =
    push_allowed itself ready two_targets all_passed 0 plain_push refl plain_push-IsAllowed

external_denial_final_example :
    ¬ IsAllowed (evaluate_policy itself ready two_targets all_passed 0 denied_request)
external_denial_final_example =
    external_denial_final itself ready two_targets all_passed 0 denied_request refl refl

prod_allowed_example :
    ((permission itself ready_records "prod-execution"
          (seen itself ready two_targets all_passed 0 (build_request "PROD")).base
          (context_of ready 0)
        ≡ ok true)
      ⊎ Overridden itself ready two_targets all_passed 0
          (seen itself ready two_targets all_passed 0 (build_request "PROD"))
          "prod-execution")
    × ((target_configured
            (contract two_targets.contracts "PROD")
            (seen itself ready two_targets all_passed 0 (build_request "PROD"))
          ≡ true)
        ⊎ Overridden itself ready two_targets all_passed 0
            (seen itself ready two_targets all_passed 0 (build_request "PROD"))
            "configured-target")
unfolding effective_environments add_all environment_action complete_push with_environment
    resolve_action_environment environments add_labels
prod_allowed_example =
    prod_allowed itself ready two_targets all_passed 0 (build_request "PROD") refl refl refl
      prod_request-IsAllowed

staging_allowed_example :
    ((has_environment_grant itself ready_records
          (cycle_of ready)
          "STAGING"
          (seen itself ready two_targets all_passed 0 (build_request "STAGING")).base
          (context_of ready 0)
        ≡ ok true)
      ⊎ Overridden itself ready two_targets all_passed 0
          (seen itself ready two_targets all_passed 0 (build_request "STAGING"))
          "staging-authorization")
    × ((all_passed.stage_passed "local" ≡ true)
        ⊎ Overridden itself ready two_targets all_passed 0
            (seen itself ready two_targets all_passed 0 (build_request "STAGING"))
            "local-validation")
    × ((all_passed.stage_passed "DEV" ≡ true)
        ⊎ Overridden itself ready two_targets all_passed 0
            (seen itself ready two_targets all_passed 0 (build_request "STAGING"))
            "dev-validation")
    × ((all_passed.stage_completed "DEV" ≡ true)
        ⊎ Overridden itself ready two_targets all_passed 0
            (seen itself ready two_targets all_passed 0 (build_request "STAGING"))
            "dev-completion")
    × ((target_configured
            (contract two_targets.contracts "STAGING")
            (seen itself ready two_targets all_passed 0 (build_request "STAGING"))
          ≡ true)
        ⊎ Overridden itself ready two_targets all_passed 0
            (seen itself ready two_targets all_passed 0 (build_request "STAGING"))
            "configured-target")
unfolding effective_environments add_all environment_action complete_push with_environment
    resolve_action_environment environments add_labels
staging_allowed_example =
    staging_allowed itself ready two_targets all_passed 0 (build_request "STAGING") refl refl refl
      staging_request-IsAllowed
