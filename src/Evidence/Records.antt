-- ===== src/Evidence/Records.antt =====
-- The records that src/current-evidence.mjs reads, with their fields.
use ai_sdlc_framework.Prelude.{Bool, List, Option, String}
use ai_sdlc_framework.Evidence.Identity.{ExecutionIdentity, ExecutionProof}

-- What identifies the content of an artifact.
pub record Content : Type 0 where
  pub sha256 : Option String
  pub immutable_version : Option String
  pub retrieval_context : Option String
  pub version_verified : Bool

-- `operation.intendedOutcome`, with the fields of `requested` and `target`
pub record IntendedOutcome : Type 0 where
  pub digest : String
  pub source_revision : Option String
  pub config_digest : Option String
  pub artifact_id : Option String
  pub artifact_ref : Option String
  pub content : Content
  pub local_repository_path : Option String
  pub remote_repository_url : Option String
  pub provider : Option String
  pub pipeline : Option String
  pub environment : Option String
  pub target : Option String

-- `operation.resultProof`
pub record Proof : Type 0 where
  pub status : String
  pub dispatch_id : String
  pub intended_outcome_digest : Option String
  pub result_digest : Option String
  pub causal_key : Option String
  pub execution : ExecutionProof

pub record OperationRecord : Type 0 where
  pub id : String
  pub class : String
  pub status : String
  pub repository_id : String
  pub cycle_id : Option String
  pub candidate_digest : Option String
  pub target : String
  pub artifact_id : Option String
  pub environment : Option String
  pub action_provider : Option String
  pub action_config_digest : Option String
  pub action_artifact_id : Option String
  pub action_artifact_ref : Option String
  pub action_content : Content
  pub action_source_revision : Option String
  pub action_target : Option String
  pub intended_outcome : Option IntendedOutcome
  pub result_proof : Option Proof

pub record ArtifactRecord : Type 0 where
  pub id : String
  pub artifact_id : Option String
  pub artifact_ref : Option String
  pub status : String
  pub cycle_id : Option String
  pub source_digest : Option String
  pub repository_id : Option String
  pub source_revision : Option String
  pub config_digest : Option String
  pub local_repository_path : Option String
  pub remote_repository_url : Option String
  pub provider : Option String
  pub connection : Option String
  pub repository_ref : Option String
  pub content : Content
  pub build_run_id : Option String
  pub producing_operation_id : Option String
  pub producing_attempt_capability : Option String
  pub producing_attempt_ref : Option String
  pub producing_execution : Option ExecutionIdentity

pub record RepositoryObservation : Type 0 where
  pub repository_id : String
  pub local_repository_path : String
  pub remote_repository_url : String
  pub provider : String
  pub connection : String
  pub repository_ref : String

-- What is bound to the records by `bindCurrentRepositoryIdentities`.
pub record RepositoryIdentity : Type 0 where
  pub repository_id : String
  pub local_repository_path : Option String
  pub remote_repository_url : Option String
  pub revision : Option String
  pub has_evidence_gap : Bool

pub record Source : Type 0 where
  pub repository_id : String
  pub revision : Option String

pub record CandidateCycle : Type 0 where
  pub id : String
  pub candidate_digest : String
  pub config_digest : String
  pub sources : List Source
  pub artifacts : List (String × String)
  pub deployments : List (String × String)

-- The records of a work item by their type, the archived operations and the bound identities.
pub record Records : Type 0 where
  pub operations : List OperationRecord
  pub archived : List OperationRecord
  pub artifacts : List ArtifactRecord
  pub observations : List RepositoryObservation
  pub identities : Option (List RepositoryIdentity)
