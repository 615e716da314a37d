-- ===== src/Results/Validate.antt =====
-- `validateOperationResult` of src/external-results.mjs, for an intended outcome and a dispatch that are
-- well formed. What the checks of the result's shape and content find is an argument, and so is which
-- earlier results are of the same resource. The reasons are left out.
use ai_sdlc_framework.Prelude.{
  Bool, true, false, not, ◌&&◌, ◌||◌, List, Option, none, some, if◌then◌else◌, same, same_opt,
  truthy, is_defined, any, String,
}
use ai_sdlc_framework.Result.{Result, ok, id_conflict, require_that, ◌>>◌}
use ai_sdlc_framework.Operations.Records.{
  OperationStatus, succeeded, failed, cancelled, uncertain, not_started, is_terminal, Checked,
}
use ai_sdlc_framework.Operations.Recording.{
  is_not_started, is_prepared, is_uncertain, is_in_flight, is_status, status_name,
}
use ai_sdlc_framework.Results.Records.{
  NonDispatch, FailureFacts, ResultFacts, Observed, Intended, Findings, PriorResult, Validated,
}
use ai_sdlc_framework.Results.Observed.{Dispatch, verified_evidence, find_causal_key}

abbrev pub unresolved_result : Validated
unresolved_result = record {
  status = uncertain;
  dispatch_id = "";
  intended_digest = "";
  result_digest = "";
  provider_result_id = none;
  causal_key = none;
}

-- `if (!condition) return uncertain(…)`
abbrev pub unless : Bool → Validated → Validated
unless b v = if b then v else unresolved_result

abbrev pub is_false : Option Bool → Bool
is_false none = false
is_false (some b) = not b

abbrev pub proves_non_dispatch : Dispatch → Option NonDispatch → Bool
proves_non_dispatch d none = false
proves_non_dispatch d (some n) =
    n.is_host_non_dispatch
    && n.host_supported
    && same_opt n.dispatch_id (some d.id)
    && is_false n.dispatch_attempted

abbrev pub unset_or_not_started : Option String → Bool
unset_or_not_started none = true
unset_or_not_started (some s) = same s "not-started"

-- Affirmative proof that nothing was dispatched.
unfoldable pub never_dispatched : Dispatch → Observed → Bool
never_dispatched d o =
    is_prepared d.status
    && (not (is_defined o.result)
        && not (is_defined o.provider_result_id)
        && not (is_defined o.causal_proof)
        && unset_or_not_started o.provider_status
        && proves_non_dispatch d o.non_dispatch)

abbrev pub is_failure : OperationStatus → Bool
is_failure s = is_status s failed || is_status s cancelled

abbrev pub claims_no_effect : Option FailureFacts → Bool
claims_no_effect none = false
claims_no_effect (some f) = f.no_effect

abbrev pub refers_to_failure : Option ResultFacts → Option String → Bool
refers_to_failure none i = false
refers_to_failure (some r) i =
    truthy r.failure_ref && same_opt r.failure_ref i && r.only_failure_fields

-- `noEffect`
unfoldable pub has_no_effect : OperationStatus → Observed → Bool
has_no_effect s o =
    is_failure s && claims_no_effect o.failure && refers_to_failure o.result o.provider_result_id

-- Whether the result needs the identity of its execution.
abbrev pub needs_identity : Bool → Intended → Bool
needs_identity artifact_identity i =
    (same i.family "execution" && not (same i.action_class "local-build"))
    || (same i.family "test" && not i.is_local)
    || (artifact_identity && same i.family "artifact")

abbrev pub has_identity : Option ResultFacts → Bool
has_identity none = false
has_identity (some r) = r.has_execution_identity

abbrev pub failure_verified : Option FailureFacts → Bool
failure_verified none = false
failure_verified (some f) = f.is_final && f.provider_verified

abbrev pub final_status_is : OperationStatus → Option ResultFacts → Bool
final_status_is s none = false
final_status_is s (some r) = same_opt r.final_status (some (status_name s))

abbrev pub expectation_met : Option ResultFacts → Bool
expectation_met none = false
expectation_met (some r) = elim r.expected_met [ none ↦ false | some b ↦ b ]

abbrev pub fails_in_full : OperationStatus → Intended → Option ResultFacts → Bool
fails_in_full s i r =
    not (is_failure s)
    || ((same i.family "execution" || same i.family "test" || same i.family "deployment")
        && final_status_is s r)

-- The checks of a result that had an effect.
unfoldable pub effect_shown : OperationStatus → Intended → Observed → Findings → Bool
effect_shown s i o f =
    fails_in_full s i o.result
    && f.required_result
    && same_opt f.result_identity o.provider_result_id
    && (not (is_status s succeeded) || not (same i.family "test") || expectation_met o.result)

-- The families whose results have an identity of their own.
abbrev pub is_immutable_family : Intended → Bool
is_immutable_family i =
    same i.family "execution"
    || same i.family "test"
    || same i.family "artifact"
    || same i.family "deployment"
    || same i.family "merge"
    || same i.family "notification"
    || same i.action_class "pr-create"

-- An earlier result of another dispatch with the same cause or of the same resource.
unfoldable pub belongs_to : Dispatch → Intended → Option String → PriorResult → Bool
belongs_to d i key p =
    not (same p.dispatch_id d.id)
    && (same_opt p.causal_key key || (is_immutable_family i && p.same_resource))

abbrev pub accepted : Intended → Dispatch → Observed → OperationStatus → Option String → Validated
accepted i d o s key = record {
  status = s;
  dispatch_id = d.id;
  intended_digest = i.digest;
  result_digest = o.digest;
  provider_result_id = o.provider_result_id;
  causal_key = key;
}

-- The early returns between the causal key and the earlier results.
unfoldable pub result_shown : Bool → Intended → Observed → Findings → OperationStatus → Bool
result_shown artifact_identity i o f s =
    let quiet = has_no_effect s o in
    (quiet
      || not (needs_identity artifact_identity i)
      || (has_identity o.result && f.execution_valid))
    && (not (is_failure s) || failure_verified o.failure)
    && (is_defined o.result && f.destination_matches)
    && (quiet || effect_shown s i o f)
    && (quiet || not (same i.family "artifact") || not artifact_identity || f.artifact_valid)

-- A terminal result with its causal key.
unfoldable pub weigh_result :
    Bool
    → List PriorResult
    → Intended
    → Dispatch
    → Observed
    → Findings
    → OperationStatus
    → Option String
    → Validated
weigh_result artifact_identity prior i d o f s key =
    unless (result_shown artifact_identity i o f s)
      (unless (not (any (belongs_to d i key) prior)) (accepted i d o s key))

-- The observation is of this outcome, and its evidence is verified.
unfoldable pub is_addressed : Intended → Observed → Findings → Bool
is_addressed i o f =
    same_opt o.intended_digest (some i.digest)
    && f.target_matches
    && same o.family i.family
    && verified_evidence o.evidence

abbrev pub is_concluded : OperationStatus → Bool
is_concluded s = not (is_in_flight s || is_uncertain s)

abbrev pub provider_agrees : Observed → OperationStatus → Bool
provider_agrees o s = same_opt o.provider_status (some (status_name s)) && o.provider_verified

abbrev pub not_dispatched : Intended → Dispatch → Observed → Validated
not_dispatched i d o = record (accepted i d o not_started none) { provider_result_id = none }

-- A result that has a causal key.
unfoldable pub conclude_result :
    (String → String)
    → Bool
    → List PriorResult
    → Intended
    → Dispatch
    → Observed
    → Findings
    → OperationStatus
    → Validated
conclude_result digest artifact_identity prior i d o f s =
    let key = find_causal_key digest d o.provider_result_id o.causal_proof in
    unless (provider_agrees o s)
      (unless (is_defined key) (weigh_result artifact_identity prior i d o f s key))

-- The result of an observation that names its status.
unfoldable pub resolve_result :
    (String → String)
    → Bool
    → List PriorResult
    → Intended
    → Dispatch
    → Observed
    → Findings
    → OperationStatus
    → Validated
resolve_result digest artifact_identity prior i d o f s = unless (is_addressed i o f) (
    if is_not_started s
    then unless (never_dispatched d o) (not_dispatched i d o)
    else unless (is_concluded s) (conclude_result digest artifact_identity prior i d o f s))

abbrev pub resolve_status :
    (String → String)
    → Bool
    → List PriorResult
    → Intended
    → Dispatch
    → Observed
    → Findings
    → Option OperationStatus
    → Validated
resolve_status digest artifact_identity prior i d o f none = unresolved_result
resolve_status digest artifact_identity prior i d o f (some s) =
    unless (is_terminal s || is_in_flight s || is_uncertain s)
      (resolve_result digest artifact_identity prior i d o f s)

-- The terminal result that the dispatch has already is of this dispatch, outcome and observation.
abbrev pub is_replay : Intended → Dispatch → Observed → Validated → Bool
is_replay i d o p =
    same p.dispatch_id d.id && same p.intended_digest i.digest && same p.result_digest o.digest

-- `if (previousTerminal) …`
unfoldable pub replay_result : Intended → Dispatch → Observed → Validated → Result Validated
replay_result i d o p = do require_that (is_replay i d o p) id_conflict; ok p

-- `validateOperationResult`, with `previousTerminal` as an option
unfoldable pub validate_operation_result :
    (String → String)
    → Bool
    → List PriorResult
    → Option Validated
    → Intended
    → Dispatch
    → Observed
    → Findings
    → Result Validated
unfolding replay_result
validate_operation_result digest artifact_identity prior previous i d o f =
    if not f.is_supported then ok unresolved_result else elim previous [
      | none ↦ ok (resolve_status digest artifact_identity prior i d o f o.status)
      | some p ↦ replay_result i d o p
    ]

-- What `recordOperation` keeps of the result.
abbrev pub checked_result : Validated → Checked
checked_result v = record {
  status = v.status;
  result_digest = v.result_digest;
  provider_result_id = v.provider_result_id;
}
