-- ===== src/Operations/Examples.antt =====
-- Runs of the ledger of src/operations.mjs on concrete operations.
use ai_sdlc_framework.Authority.Scope.{is_once}
use ai_sdlc_framework.Operations.Reservations.{reserve_once, reserve_once_lem}
use ai_sdlc_framework.Authority.Fixtures.{plain_effect}
use ai_sdlc_framework.Authority.Records.{Event, once}
use ai_sdlc_framework.Prelude.{
  true, false, List, [], ◌∷◌, Option, none, some, ◌≡◌, ◌≢◌, refl, inl, inr, IsIn, lookup, ◌&&◌,
  Bool, String,
}
use ai_sdlc_framework.Result.{ok}
use ai_sdlc_framework.Operations.Records.{
  prepared, dispatching, succeeded, Checked, Operation, CycleState, Report, Verified,
}
use ai_sdlc_framework.Operations.Recording.{
  record_operation, checked_of, weigh_report, settle_operation, next_status, check_report, repeats,
  caller_agrees, claimed_status, placed_status, weighed_status, with_proof, with_sequence,
  with_fields, sibling_sequences,
}
use ai_sdlc_framework.Operations.Dispatch.{
  next_deployment_sequence, environment_effects, reset_cycle_results, reset_each,
  restore_test_reset, environment_sequences, cycle_sequences,
}
use ai_sdlc_framework.Operations.Boundary.{
  Dispatching, dispatch_operation, repair_projection, claim_operation, open_boundary,
  close_environments, number_deployment, invalidate_each, invalidate, close_environment,
}
use ai_sdlc_framework.Operations.Proofs.{outcome_proven}
use ai_sdlc_framework.Operations.Superseded.{superseded}
use ai_sdlc_framework.Operations.Runs.{stays, answered_undispatched}
use ai_sdlc_framework.Operations.Sequences.{IsFresh, next-IsFresh}

-- A prepared deployment to DEV.
abbrev deployment : Operation
deployment = record {
  id = "deploy-2";
  class = "deploy";
  environment = some "DEV";
  target = "cluster";
  status = prepared;
  dispatch_bound = false;
  request_fingerprint = "f2";
  correlation_key = "k2";
  cycle_id = some "cycle-1";
  candidate_digest = some "candidate";
  external = true;
  intended_outcome = some "outcome";
  handle = none;
  evidence_ref = none;
  provider_status = none;
  expected_met = none;
  result_proof = none;
  has_result_gap = false;
  deployment_sequence = none;
  terminal_sequence = none;
  stages = [];
  implicit_environments = [];
}

abbrev sent : Operation
sent = record deployment {
  status = dispatching;
  dispatch_bound = true;
  deployment_sequence = some 4;
}

-- An earlier deployment, whose success has not been reported yet.
abbrev earlier_deployment : Operation
earlier_deployment = record sent { id = "deploy-1"; deployment_sequence = some 3 }

abbrev success : Report
success = record {
  status = succeeded;
  handle = none;
  evidence_ref = none;
  request_fingerprint = none;
  target = none;
  correlation_key = none;
  expected_met = none;
  dispatch_attempted = none;
  provider_status = none;
}

abbrev proof : Checked
proof = record { status = succeeded; result_digest = "digest"; provider_result_id = some "run-7" }

abbrev observed : Option (Option Verified)
observed = some (
    some (record {
      checked = proof;
      evidence_ref = "https://ci.example/7";
      provider_status = some "succeeded";
      expected_met = none;
    }))

abbrev cycle : CycleState
cycle = record {
  id = "cycle-1";
  candidate_digest = "candidate";
  is_pending = false;
  tests = (record { id = "dev-smoke"; checkpoint = "DEV" }) ∷ [];
  results = ("dev-smoke", "evidence-1") ∷ [];
  barriers = [];
  last_evidence_sequence = 1;
  invalidated_environments = [];
  invalidation_sequences = [];
  artifacts = ("DEV", "artifact-1") ∷ [];
  deployments = ("DEV", "deploy-1") ∷ [];
  last_deployment_sequence = some 3;
  step = "dev-running";
  pending_plan_sync = false;
  review_ref = none;
}

abbrev checks : Dispatching
checks = record {
  description_conflicts = false;
  is_bound = true;
  allowed = true;
  outcome_verified = true;
  retry_authorized = true;
  generation = 5;
  at = "2026-01-01T00:00:00.000Z";
  atomic_claim = true;
}

abbrev known : List Operation
known = deployment ∷ earlier_deployment ∷ []

abbrev finished : Operation
finished = record sent {
  status = succeeded;
  result_proof = some proof;
  evidence_ref = some "https://ci.example/7";
  handle = some "run-7";
  provider_status = some "succeeded";
  terminal_sequence = some 1;
}

record_success : record_operation false known success observed sent ≡ ok finished
unfolding record_operation weigh_report settle_operation next_status check_report repeats
    caller_agrees claimed_status placed_status weighed_status with_proof with_sequence with_fields
    sibling_sequences
record_success = refl

outcome_proven_example :
    (c : Checked) × (checked_of sent observed ≡ some c)
    × (finished.status ≡ c.status)
    × (finished.result_proof ≡ some c)
outcome_proven_example =
    outcome_proven false known success observed sent refl refl record_success refl

answered_undispatched_example :
    dispatch_operation checks known finished cycle ≢ ok (finished, cycle)
answered_undispatched_example = answered_undispatched checks known cycle (stays {o = finished}) refl

next-IsFresh_example : IsFresh cycle known (next_deployment_sequence cycle known)
next-IsFresh_example = next-IsFresh cycle known

-- The deployment is claimed, as the fourth of its cycle.
abbrev claimed_cycle : CycleState
claimed_cycle = record cycle {
  results = [];
  barriers =
      (
        "dev-smoke",
        record {
          sequence = 1;
          event_sequence = 5;
          at = "2026-01-01T00:00:00.000Z";
          operation_id = none;
        },
      )
      ∷ [];
  invalidated_environments = "DEV" ∷ "STAGING" ∷ [];
  invalidation_sequences = ("DEV", 3) ∷ ("STAGING", 0) ∷ [];
  deployments = ("DEV", "deploy-2") ∷ [];
  last_deployment_sequence = some 4;
  step = "dev-running";
  pending_plan_sync = true;
}

dispatch_claims : dispatch_operation checks known deployment cycle ≡ ok (sent, claimed_cycle)
unfolding dispatch_operation claim_operation open_boundary close_environments number_deployment
    invalidate_each invalidate close_environment reset_cycle_results reset_each restore_test_reset
    environment_effects environment_sequences next_deployment_sequence cycle_sequences
dispatch_claims = refl

reached : IsIn "DEV" (environment_effects deployment)
unfolding environment_effects
reached = inl refl

superseded_example :
    repair_projection known
      (record earlier_deployment { status = succeeded; result_proof = some proof })
      claimed_cycle
      "DEV"
    ≡ claimed_cycle
superseded_example =
    superseded checks known known deployment earlier_deployment
      (record earlier_deployment { status = succeeded; result_proof = some proof }) cycle "DEV"
      dispatch_claims refl reached (inr (inl refl)) refl refl

-- A decision that one operation may use, held by nobody yet, and one that an operation holds.
abbrev one_push : Event
one_push = record {
  id = "event-1";
  kind = "permission";
  sequence = 1;
  effect = record plain_effect { grant = some "push"; lifetime = some once };
}

abbrev all_authorize : Event → Bool
all_authorize e = true

abbrev earlier_reservations : List (String × String)
earlier_reservations = ("event-0", "push-0") ∷ []

abbrev later_reservations : List (String × String)
later_reservations = ("event-0", "push-0") ∷ ("event-1", "push-1") ∷ []

reserve_succeeds :
    reserve_once all_authorize "push-1" (one_push ∷ []) earlier_reservations ≡ ok later_reservations
unfolding reserve_once
reserve_succeeds = refl

reserve_once_lem_example :
    ((e : Event)
      → IsIn e (one_push ∷ [])
      → (is_once e.effect.lifetime && all_authorize e) ≡ true
      → lookup later_reservations e.id ≡ some "push-1")
    × ((i holder : String)
        → lookup earlier_reservations i ≡ some holder
        → lookup later_reservations i ≡ some holder)
reserve_once_lem_example =
    reserve_once_lem all_authorize "push-1" (one_push ∷ []) earlier_reservations reserve_succeeds
