-- ===== src/Operations/Recording.antt =====
-- `recordOperation` of src/operations.mjs: what a report of the provider does to the operation. The
-- observation that comes with the report has been verified by the adapter of the store; `none` is a
-- report without observation, and `some none` one that no adapter can verify. The texts of a report
-- are valid.
use ai_sdlc_framework.Prelude.{
  ℕ, suc, Bool, true, false, not, ◌&&◌, ◌||◌, List, [], ◌∷◌, Option, none, some, if◌then◌else◌,
  same, same_opt, truthy, is_defined, member, String, max_of, otherwise,
}
use ai_sdlc_framework.Result.{Result, ok, input, evidence, id_conflict, require_that, ◌>>=◌, ◌>>◌}
use ai_sdlc_framework.Result.{uncertain as uncertain_code, operation as operation_code}
use ai_sdlc_framework.Operations.Records.{
  OperationStatus, prepared, dispatching, submitted, running, succeeded, failed, cancelled,
  uncertain, not_started, is_terminal, Checked, Operation, Report, Verified,
}

abbrev pub status_name : OperationStatus → String
status_name prepared = "prepared"
status_name dispatching = "dispatching"
status_name submitted = "submitted"
status_name running = "running"
status_name succeeded = "succeeded"
status_name failed = "failed"
status_name cancelled = "cancelled"
status_name uncertain = "uncertain"
status_name not_started = "not-started"

-- `===` on statuses
abbrev pub is_status : OperationStatus → OperationStatus → Bool
is_status s t = same (status_name s) (status_name t)

abbrev pub is_uncertain : OperationStatus → Bool
is_uncertain s = elim s [ uncertain ↦ true | _ ↦ false ]

abbrev pub is_prepared : OperationStatus → Bool
is_prepared s = elim s [ prepared ↦ true | _ ↦ false ]

abbrev pub is_not_started : OperationStatus → Bool
is_not_started s = elim s [ not_started ↦ true | _ ↦ false ]

-- `['submitted', 'running'].includes(status)`
abbrev pub is_in_flight : OperationStatus → Bool
is_in_flight s = elim s [ submitted ↦ true | running ↦ true | _ ↦ false ]

abbrev pub is_failed : OperationStatus → Bool
is_failed s = elim s [ failed ↦ true | _ ↦ false ]

-- `requiresCurrentProof`
abbrev pub requires_proof : Operation → Bool
requires_proof o = is_defined o.intended_outcome || o.external

abbrev pub unverified : Checked
unverified = record { status = uncertain; result_digest = ""; provider_result_id = none }

-- `checked`: only where the operation has an intended outcome and the report an observation.
abbrev pub checked_of : Operation → Option (Option Verified) → Option Checked
checked_of o none = none
checked_of o (some none) = if is_defined o.intended_outcome then some unverified else none
checked_of o (some (some v)) = if is_defined o.intended_outcome then some v.checked else none

abbrev pub unset_or_is : Option String → Option String → Bool
unset_or_is none actual = true
unset_or_is (some s) actual = same_opt (some s) actual

abbrev pub unset_or_flag : Option Bool → Option Bool → Bool
unset_or_flag none actual = true
unset_or_flag (some b) none = false
unset_or_flag (some true) (some c) = c
unset_or_flag (some false) (some c) = not c

-- A caller may repeat the fields of the verified result, and may not contradict them.
unfoldable pub caller_agrees : Operation → Report → Option (Option Verified) → Bool
caller_agrees o r none = true
caller_agrees o r (some none) = true
caller_agrees o r (some (some v)) =
    not (is_defined o.intended_outcome)
    || is_uncertain v.checked.status
    || (is_status r.status v.checked.status
        && unset_or_is r.evidence_ref (some v.evidence_ref)
        && unset_or_is r.handle v.checked.provider_result_id
        && unset_or_is r.provider_status v.provider_status
        && unset_or_flag r.expected_met v.expected_met)

abbrev pub proof_repeated : Option Checked → Option Checked → Bool
proof_repeated proof none = false
proof_repeated none (some c) = false
proof_repeated (some p) (some c) = same c.result_digest p.result_digest

-- A terminal operation takes the same report again, and no other.
unfoldable pub repeats : Operation → Report → Option Checked → Bool
repeats o r checked =
    is_status o.status r.status
    && (if requires_proof o
        then proof_repeated o.result_proof checked
        else same_opt o.evidence_ref r.evidence_ref)

abbrev pub checked_status : Option Checked → OperationStatus
checked_status none = uncertain
checked_status (some c) = c.status

abbrev pub denied : Option Bool → Bool
denied none = false
denied (some b) = not b

-- The status that the report claims, before it is weighed.
unfoldable pub claimed_status : Operation → Report → Option Checked → Result OperationStatus
claimed_status o r checked =
    if requires_proof o && is_terminal r.status
    then ok (checked_status checked)
    else if requires_proof o && is_uncertain r.status
    then ok r.status
    else if is_not_started r.status
    then (require_that
          (is_prepared o.status && denied r.dispatch_attempted && truthy r.evidence_ref)
          uncertain_code
        >> ok r.status)
    else ok r.status

-- A response needs a dispatch, and a running operation a handle.
unfoldable pub placed_status : Operation → Report → OperationStatus → Result OperationStatus
placed_status o r s = do
  require_that (is_not_started s || not (is_prepared o.status) || is_uncertain s) operation_code
  ok (if is_in_flight s && not (truthy r.handle) then uncertain else s)

abbrev pub handled_classes : List String
handled_classes = "build" ∷ "deploy" ∷ "pipeline" ∷ "pr-create" ∷ "pr-validation" ∷ []

abbrev pub is_unproven : Operation → Report → Bool
is_unproven o r =
    (is_failed r.status && not (truthy r.provider_status))
    || (member handled_classes o.class && not (truthy r.handle) && not (truthy o.handle))

abbrev pub names_evidence : Operation → Report → Bool
names_evidence o r =
    truthy r.evidence_ref
    && same_opt r.target (some o.target)
    && same_opt r.request_fingerprint (some o.request_fingerprint)

abbrev pub is_evaluated : Operation → Report → Bool
is_evaluated o r = not (same o.class "test") || is_defined r.expected_met

-- The outcome of a local operation needs evidence of its own.
unfoldable pub local_outcome : Operation → Report → OperationStatus → Result OperationStatus
local_outcome o r s = do
  require_that (names_evidence o r) evidence
  require_that (is_evaluated o r) evidence
  ok (if is_unproven o r then uncertain else s)

unfoldable pub weighed_status : Operation → Report → OperationStatus → Result OperationStatus
weighed_status o r s =
    if not (requires_proof o) && is_terminal s && not (is_not_started s)
    then local_outcome o r s
    else ok s

-- `activeDiagnostic`
abbrev pub is_diagnostic : Report → Bool
is_diagnostic r = is_in_flight r.status && (is_defined r.handle || is_defined r.evidence_ref)

unfoldable pub check_report : Operation → Report → Result (Unit {0})
check_report o r = do
  require_that (not (truthy r.handle && truthy o.handle) || same_opt r.handle o.handle) evidence
  require_that
      (not (is_diagnostic r)
        || (not (is_prepared o.status)
            && same_opt r.request_fingerprint (some o.request_fingerprint)
            && same_opt r.correlation_key (some o.correlation_key)))
      evidence

unfoldable pub next_status : Operation → Report → Option Checked → Result OperationStatus
unfolding claimed_status placed_status weighed_status
next_status o r checked = do
  claimed ← claimed_status o r checked
  placed ← placed_status o r claimed
  weighed_status o r placed

abbrev pub or_keep {ℓ} : {A : Type ℓ} → Option A → Option A → Option A
or_keep none a = a
or_keep (some b) a = some b

-- The result of a verified observation, where the status is terminal.
unfoldable pub with_proof : Operation → Option (Option Verified) → Option Checked → Operation
with_proof o observation none = o
with_proof o none (some c) = o
with_proof o (some none) (some c) = o
with_proof o (some (some v)) (some c) = record o {
  has_result_gap = false;
  result_proof = some c;
  evidence_ref = some v.evidence_ref;
  handle = if truthy c.provider_result_id then c.provider_result_id else o.handle;
  provider_status = some (status_name o.status);
  expected_met = or_keep v.expected_met o.expected_met;
}

-- The terminal operations of the same cycle, class and environment.
unfoldable pub sibling_sequences : Operation → List Operation → List ℕ
sibling_sequences o [] = []
sibling_sequences o (p ∷ ps) =
    let rest = sibling_sequences o ps in
    if is_terminal p.status
      && same_opt p.cycle_id o.cycle_id
      && same p.class o.class
      && same_opt p.environment o.environment
    then otherwise p.terminal_sequence 0 ∷ rest
    else rest

unfoldable pub with_sequence : List Operation → Operation → Operation
unfolding sibling_sequences
with_sequence others o =
    if is_terminal o.status && not (is_defined o.terminal_sequence)
    then record o { terminal_sequence = some (suc (max_of (sibling_sequences o others))) }
    else o

-- Whether the report's own fields are taken over.
abbrev pub takes_fields : Operation → Option Checked → Bool
takes_fields o none = not (requires_proof o)
takes_fields o (some c) =
    not (requires_proof o) || (is_status c.status o.status && not (is_uncertain o.status))

unfoldable pub with_fields : Report → Option Checked → Operation → Operation
with_fields r checked o =
    let all = takes_fields o checked in
    let some_fields = all || is_diagnostic r in
    record o {
      handle = if some_fields then or_keep r.handle o.handle else o.handle;
      evidence_ref = if some_fields then or_keep r.evidence_ref o.evidence_ref else o.evidence_ref;
      expected_met = if all then or_keep r.expected_met o.expected_met else o.expected_met;
      provider_status =
          if all then or_keep r.provider_status o.provider_status else o.provider_status;
    }

-- Whether `operation.resultGap` is set.
abbrev pub leaves_gap : Operation → Report → Option Checked → Bool
leaves_gap o r checked =
    requires_proof o
    && (if is_terminal r.status
        then is_uncertain (checked_status checked)
        else is_uncertain r.status)

-- The operation with the new status, and what follows from it.
unfoldable pub settle_operation :
    List Operation → Report → Option (Option Verified) → Operation → OperationStatus → Operation
unfolding with_proof with_sequence with_fields
settle_operation others r observation o s =
    let checked = checked_of o observation in
    let moved = record o {
      status = s;
      has_result_gap = o.has_result_gap || leaves_gap o r checked;
    } in
    let proven = if is_terminal s then with_proof moved observation checked else moved in
    with_fields r checked (with_sequence others proven)

-- The report on an operation that is not terminal.
unfoldable pub weigh_report :
    List Operation → Report → Option (Option Verified) → Operation → Result Operation
weigh_report others r observation o = do
  s ← next_status o r (checked_of o observation)
  check_report o r
  ok (settle_operation others r observation o s)

-- The statuses that a report may have.
abbrev pub is_recordable : OperationStatus → Bool
is_recordable s = elim s [ prepared ↦ false | dispatching ↦ false | _ ↦ true ]

-- The transaction of `recordOperation` on the operation itself.
unfoldable pub record_operation :
    Bool → List Operation → Report → Option (Option Verified) → Operation → Result Operation
record_operation reconcile others r observation o = do
  require_that (is_recordable r.status) input
  require_that (not (is_uncertain o.status) || is_uncertain r.status || reconcile) uncertain_code
  require_that (caller_agrees o r observation) evidence
  if is_terminal o.status
      then (require_that (repeats o r (checked_of o observation)) id_conflict >> ok o)
      else weigh_report others r observation o
