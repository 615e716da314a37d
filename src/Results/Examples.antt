-- ===== src/Results/Examples.antt =====
-- The result of a deployment that a provider request proves.
use ai_sdlc_framework.Prelude.{true, false, List, [], ◌∷◌, none, some, String, ◌≡◌, refl, Option}
use ai_sdlc_framework.Result.{ok}
use ai_sdlc_framework.Evidence.Texts.{units, all_hex}
use ai_sdlc_framework.Operations.Records.{dispatching, succeeded, Operation, Report, Verified}
use ai_sdlc_framework.Operations.Recording.{
  record_operation, weigh_report, settle_operation, next_status, check_report, repeats,
  caller_agrees, claimed_status, placed_status, weighed_status, with_proof, with_sequence,
  with_fields, sibling_sequences,
}
use ai_sdlc_framework.Operations.Lifecycle.{Moves}
use ai_sdlc_framework.Results.Observed.{
  Dispatch, provider_request, find_causal_key, verified_evidence,
}
use ai_sdlc_framework.Results.Records.{Intended, Observed, Findings, PriorResult, Validated}
use ai_sdlc_framework.Results.Validate.{
  checked_result, validate_operation_result, resolve_result, conclude_result, weigh_result,
  result_shown, is_addressed, effect_shown, has_no_effect, belongs_to,
}
use ai_sdlc_framework.Results.Sound.{validated_report-Moves}

abbrev tag : String → String
tag s = "digest"

abbrev intended : Intended
intended = record {
  digest = "outcome";
  family = "deployment";
  action_class = "deploy";
  is_local = false;
}

abbrev dispatch : Dispatch
dispatch = record {
  id = "deploy-1";
  status = dispatching;
  host_call_id = none;
  host_call_supported = false;
  provider_request_supported = true;
  provider_request_id = some "request-1";
  provider_idempotency_token = none;
}

abbrev observed : Observed
observed = record {
  status = some succeeded;
  digest = "result";
  intended_digest = some "outcome";
  family = "deployment";
  evidence = some (record {
    ref = some "https://ci.example/7";
    is_verified = true;
    sha256 = none;
    immutable_version = some "v1";
    retrieval_context = some "ci";
  });
  provider_status = some "succeeded";
  provider_verified = true;
  provider_result_id = some "run-7";
  causal_proof = some (record {
    kind = provider_request;
    dispatch_id = some "deploy-1";
    result_id = some "run-7";
    is_supported = true;
    host_call_id = none;
    provider_request_id = some "request-1";
    provider_idempotency_token = none;
    is_accepted = true;
  });
  non_dispatch = none;
  failure = none;
  result = some (record {
    failure_ref = none;
    only_failure_fields = false;
    has_execution_identity = false;
    final_status = none;
    expected_met = none;
  });
}

abbrev findings : Findings
findings = record {
  is_supported = true;
  target_matches = true;
  execution_valid = true;
  destination_matches = true;
  required_result = true;
  result_identity = some "run-7";
  artifact_valid = true;
}

abbrev earlier : List PriorResult
earlier =
    (record { dispatch_id = "deploy-0"; causal_key = some "request:other"; same_resource = false })
    ∷ []

abbrev result : Validated
result = record {
  status = succeeded;
  dispatch_id = "deploy-1";
  intended_digest = "outcome";
  result_digest = "result";
  provider_result_id = some "run-7";
  causal_key = some "request:digest";
}

validated :
    validate_operation_result tag false earlier none intended dispatch observed findings ≡ ok result
unfolding validate_operation_result resolve_result conclude_result weigh_result result_shown
    is_addressed effect_shown has_no_effect belongs_to find_causal_key verified_evidence units
    all_hex
validated = refl

-- The dispatch has no terminal result yet.
abbrev no_earlier : Option Validated
no_earlier = none

abbrev deployment : Operation
deployment = record {
  id = "deploy-1";
  class = "deploy";
  environment = some "DEV";
  target = "cluster";
  status = dispatching;
  dispatch_bound = true;
  request_fingerprint = "f";
  correlation_key = "k";
  cycle_id = some "cycle-1";
  candidate_digest = some "candidate";
  external = true;
  intended_outcome = some "outcome";
  handle = none;
  evidence_ref = none;
  provider_status = none;
  expected_met = none;
  result_proof = none;
  has_result_gap = false;
  deployment_sequence = some 1;
  terminal_sequence = none;
  stages = [];
  implicit_environments = [];
}

abbrev success_report : Report
success_report = record {
  status = succeeded;
  handle = none;
  evidence_ref = none;
  request_fingerprint = none;
  target = none;
  correlation_key = none;
  expected_met = none;
  dispatch_attempted = none;
  provider_status = none;
}

abbrev verified : Verified
verified = record {
  checked = checked_result result;
  evidence_ref = "https://ci.example/7";
  provider_status = some "succeeded";
  expected_met = none;
}

abbrev finished : Operation
finished = record deployment {
  status = succeeded;
  result_proof = some (checked_result result);
  evidence_ref = some "https://ci.example/7";
  handle = some "run-7";
  provider_status = some "succeeded";
  terminal_sequence = some 1;
}

recorded : record_operation false [] success_report (some (some verified)) deployment ≡ ok finished
unfolding record_operation weigh_report settle_operation next_status check_report repeats
    caller_agrees claimed_status placed_status weighed_status with_proof with_sequence with_fields
    sibling_sequences
recorded = refl

validated_report-Moves_example : Moves dispatching succeeded
validated_report-Moves_example =
    validated_report-Moves tag false earlier none intended dispatch observed findings false []
      success_report verified deployment refl (λ h. refl) validated refl recorded
