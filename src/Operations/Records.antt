-- ===== src/Operations/Records.antt =====
-- The records of src/operations.mjs, with the fields that it reads and writes.
use ai_sdlc_framework.Prelude.{ℕ, Bool, true, false, List, Option, String}

-- `operation.status`
pub data OperationStatus : Type 0 where
  prepared dispatching submitted running succeeded failed cancelled uncertain not_started :
      OperationStatus

-- `TERMINAL.includes(status)`
abbrev pub is_terminal : OperationStatus → Bool
is_terminal prepared = false
is_terminal dispatching = false
is_terminal submitted = false
is_terminal running = false
is_terminal succeeded = true
is_terminal failed = true
is_terminal cancelled = true
is_terminal uncertain = false
is_terminal not_started = true

-- What `validateOperationResult` of src/external-results.mjs returns for an observation.
pub record Checked : Type 0 where
  pub status : OperationStatus
  pub result_digest : String
  pub provider_result_id : Option String

pub record Operation : Type 0 where
  pub id : String
  pub class : String
  pub environment : Option String
  pub target : String
  pub status : OperationStatus
  pub dispatch_bound : Bool
  pub request_fingerprint : String
  pub correlation_key : String
  pub cycle_id : Option String
  pub candidate_digest : Option String
  pub external : Bool
  pub intended_outcome : Option String
  pub handle : Option String
  pub evidence_ref : Option String
  pub provider_status : Option String
  pub expected_met : Option Bool
  pub result_proof : Option Checked
  pub has_result_gap : Bool
  pub deployment_sequence : Option ℕ
  pub terminal_sequence : Option ℕ
  pub stages : List String
  pub implicit_environments : List String

-- The barrier that a reset puts before the results of a test.
pub record Barrier : Type 0 where
  pub sequence : ℕ
  pub event_sequence : ℕ
  pub at : String
  pub operation_id : Option String

pub record CycleTest : Type 0 where
  pub id : String
  pub checkpoint : String

-- The fields of a validation cycle that operations change, where the cycle holds its results itself.
pub record CycleState : Type 0 where
  pub id : String
  pub candidate_digest : String
  pub is_pending : Bool
  pub tests : List CycleTest
  pub results : List (String × String)
  pub barriers : List (String × Barrier)
  pub last_evidence_sequence : ℕ
  pub invalidated_environments : List String
  pub invalidation_sequences : List (String × ℕ)
  pub artifacts : List (String × String)
  pub deployments : List (String × String)
  pub last_deployment_sequence : Option ℕ
  pub step : String
  pub pending_plan_sync : Bool
  pub review_ref : Option String

-- The input of `recordOperation`.
pub record Report : Type 0 where
  pub status : OperationStatus
  pub handle : Option String
  pub evidence_ref : Option String
  pub request_fingerprint : Option String
  pub target : Option String
  pub correlation_key : Option String
  pub expected_met : Option Bool
  pub dispatch_attempted : Option Bool
  pub provider_status : Option String

-- What the verification of an observation gives: the checked result, and what the hosting service
-- observed.
pub record Verified : Type 0 where
  pub checked : Checked
  pub evidence_ref : String
  pub provider_status : Option String
  pub expected_met : Option Bool
