-- ===== src/Results/Records.antt =====
-- The records that `validateOperationResult` of src/external-results.mjs reads and returns. What the
-- checks of the result's shape and content find is a record too.
use ai_sdlc_framework.Prelude.{Bool, Option, String}
use ai_sdlc_framework.Operations.Records.{OperationStatus}
use ai_sdlc_framework.Results.Observed.{ResultEvidence, CausalProof}

pub record NonDispatch : Type 0 where
  pub is_host_non_dispatch : Bool
  pub host_supported : Bool
  pub dispatch_id : Option String
  pub dispatch_attempted : Option Bool

pub record FailureFacts : Type 0 where
  pub is_final : Bool
  pub provider_verified : Bool
  pub no_effect : Bool

pub record ResultFacts : Type 0 where
  pub failure_ref : Option String
  pub only_failure_fields : Bool
  pub has_execution_identity : Bool
  pub final_status : Option String
  pub expected_met : Option Bool

-- `observed`; a status that is not one of the seven is `none`.
pub record Observed : Type 0 where
  pub status : Option OperationStatus
  pub digest : String
  pub intended_digest : Option String
  pub family : String
  pub evidence : Option ResultEvidence
  pub provider_status : Option String
  pub provider_verified : Bool
  pub provider_result_id : Option String
  pub causal_proof : Option CausalProof
  pub non_dispatch : Option NonDispatch
  pub failure : Option FailureFacts
  pub result : Option ResultFacts

pub record Intended : Type 0 where
  pub digest : String
  pub family : String
  pub action_class : String
  pub is_local : Bool

-- What the other checks of the file find on the observation. `is_supported` says that it has a status,
-- a canonical form and only known fields.
pub record Findings : Type 0 where
  pub is_supported : Bool
  pub target_matches : Bool
  pub execution_valid : Bool
  pub destination_matches : Bool
  pub required_result : Bool
  pub result_identity : Option String
  pub artifact_valid : Bool

-- A result that was accepted before.
pub record PriorResult : Type 0 where
  pub dispatch_id : String
  pub causal_key : Option String
  pub same_resource : Bool

-- What is returned, and kept as the proof of a terminal operation; `uncertain` has only its status.
pub record Validated : Type 0 where
  pub status : OperationStatus
  pub dispatch_id : String
  pub intended_digest : String
  pub result_digest : String
  pub provider_result_id : Option String
  pub causal_key : Option String
