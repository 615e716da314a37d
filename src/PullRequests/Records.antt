-- ===== src/PullRequests/Records.antt =====
-- The records and the input of `evaluateReadiness` of src/pr.mjs. Times are in milliseconds.
use ai_sdlc_framework.Prelude.{ℕ, Bool, List, Option, String}

-- A record of type `pr`, or `pr-observation` where it is an observation.
pub record PullRequest : Type 0 where
  pub id : String
  pub is_observation : Bool
  pub repository_id : Option String
  pub provider : Option String
  pub connection : Option String
  pub repository_ref : Option String
  pub pull_request_ref : Option String
  pub local_repository_path : Option String
  pub remote_repository_url : Option String
  pub sequence : ℕ
  pub observed_at : ℕ
  pub state : String
  pub source_revision : Option String
  pub target_revision : Option String

pub record PrCheck : Type 0 where
  pub id : String
  pub required_check_ref : Option String
  pub status : String
  pub tested_revision : Option String
  pub source_revision : Option String
  pub target_revision : Option String
  pub merge_revision : Option String
  pub run_key : Option String

pub record MergeFacts : Type 0 where
  pub evidence_ref : Option String
  pub source_revision : Option String
  pub target_revision : Option String
  pub merge_revision : Option String

-- A record of type `pr-facts`.
pub record Facts : Type 0 where
  pub pr_record_id : String
  pub policy_version : Option String
  pub source_revision : Option String
  pub target_revision : Option String
  pub observed_at : ℕ
  pub required_checks : List String
  pub checks : List PrCheck
  pub merge_context : Option MergeFacts
  pub run_monitor_refs : List String
  pub reviews_satisfied : Bool
  pub merged : Bool

-- `input.policy`, with what is not given
pub record PolicyInput : Type 0 where
  pub required : Option Bool
  pub validation : Option Bool
  pub reviews : Option Bool
  pub merge : Option Bool

pub record PrPolicy : Type 0 where
  pub required : Bool
  pub validation : Bool
  pub reviews : Bool
  pub merge : Bool

pub record ReadinessInput : Type 0 where
  pub environment : String
  pub repository_id : Option String
  pub pr_record_id : Option String
  pub source_revision : Option String
  pub target_revision : Option String
  pub policy_version : Option String
  pub policy : PolicyInput
  pub local_repository_path : Option String
  pub remote_repository_url : Option String
  pub pr_id : Option String
  pub require_artifact : Bool
  pub artifact_id : Option String

-- What a gap says; the gaps of a check name the required check.
pub data Gap : Type 0 where
  artifact_unverified pr_missing pr_unverified observation_differs repository_mismatch
        hosted_id_mismatch pr_repository_mismatch closed_without_merge metadata_unavailable
        revision_differs policy_version_unverified stale_source_or_target re_read_readiness
        check_set_unverified reviews_missing merge_missing :
      Gap
  result_ambiguous provenance_unverified monitor_missing monitor_unattached : String → Gap
  check_status : String → String → Gap
