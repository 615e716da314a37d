-- ===== src/Evidence/Current.antt =====
-- The currency of evidence: src/current-evidence.mjs for a cycle that is there, with `lookupOperation`
-- of src/validation-evidence.mjs.
use ai_sdlc_framework.Prelude.{
  Bool, true, false, not, ◌&&◌, ◌||◌, Option, none, some, same, same_opt, truthy, is_defined, any,
  String,
}
use ai_sdlc_framework.Result.{Result, ok, fail}
use ai_sdlc_framework.Evidence.Texts.{is_sha256, is_full_revision}
use ai_sdlc_framework.Evidence.Identity.{
  ExecutionIdentity, ExecutionProof, ExpectedExecution, no_expectation, validate_result_identity,
  run_id, unset_or,
}
use ai_sdlc_framework.Evidence.Records.{
  Content, IntendedOutcome, Proof, OperationRecord, RepositoryObservation, Source, CandidateCycle,
  Records,
}

abbrev pub is_source : String → Option String → Source → Bool
is_source repository revision s = same s.repository_id repository && same_opt s.revision revision

-- `currentSource`
unfoldable pub current_source :
    CandidateCycle → Option String → Option String → Option String → Bool
current_source c none revision config = false
current_source c (some repository) revision config =
    is_full_revision revision
    && any (is_source repository revision) c.sources
    && same_opt (some c.config_digest) config

-- `verifiedDestination`, with the identity of its last argument
abbrev pub observes_destination :
    Option String
    → Option String
    → Option String
    → Option String
    → Option String
    → Option String
    → RepositoryObservation
    → Bool
observes_destination repository path url provider connection reference r =
    same_opt (some r.repository_id) repository
    && same_opt (some r.local_repository_path) path
    && same_opt (some r.remote_repository_url) url
    && unset_or provider (some r.provider)
    && unset_or connection (some r.connection)
    && unset_or reference (some r.repository_ref)

unfoldable pub verified_destination :
    Records
    → Option String
    → Option String
    → Option String
    → Option String
    → Option String
    → Option String
    → Bool
verified_destination rs repository path url provider connection reference =
    truthy path
    && truthy url
    && any (observes_destination repository path url provider connection reference) rs.observations

-- `matchesProducingAttempt`
unfoldable pub matches_attempt : ExecutionProof → Option String → Option String → Bool
matches_attempt p capability attempt =
    truthy p.execution_ref
    && same_opt p.attempt_capability capability
    && same_opt p.attempt_ref attempt
    && same_opt p.provider_result_id (run_id p.execution_ref attempt)

abbrev pub is_settled : String → Bool
is_settled s = same s "succeeded" || same s "failed" || same s "cancelled"

-- Whether a `try` block returns.
abbrev pub returns {ℓ} : {A : Type ℓ} → Result A → Bool
returns (ok a) = true
returns (fail c) = false

abbrev pub outcome_digest : Option IntendedOutcome → Option String
outcome_digest none = none
outcome_digest (some o) = some o.digest

abbrev pub provider_of : Option IntendedOutcome → Option String
provider_of none = none
provider_of (some o) = o.provider

abbrev pub pipeline_of : Option IntendedOutcome → Option String
pipeline_of none = none
pipeline_of (some o) = o.pipeline

abbrev pub path_of : Option IntendedOutcome → Option String
path_of none = none
path_of (some o) = o.local_repository_path

abbrev pub url_of : Option IntendedOutcome → Option String
url_of none = none
url_of (some o) = o.remote_repository_url

abbrev pub expects_target : Option IntendedOutcome → ExpectedExecution
expects_target o = record no_expectation {
  provider = provider_of o;
  definition_ref = pipeline_of o;
}

unfoldable pub execution_proven : Records → OperationRecord → Proof → ExecutionIdentity → Bool
execution_proven rs o p i =
    is_settled o.status
    && same p.status o.status
    && same p.dispatch_id o.id
    && same_opt p.intended_outcome_digest (outcome_digest o.intended_outcome)
    && is_sha256 p.result_digest
    && truthy p.causal_key
    && matches_attempt p.execution p.execution.attempt_capability p.execution.attempt_ref
    && returns (validate_result_identity i p.execution (expects_target o.intended_outcome))
    && verified_destination rs (some o.repository_id) (path_of o.intended_outcome)
        (url_of o.intended_outcome) (some i.provider) (some i.connection) none

abbrev pub identity_of : Option Proof → Option ExecutionIdentity
identity_of none = none
identity_of (some p) = p.execution.execution_identity

-- `hasCurrentExecutionProof`
unfoldable pub has_execution_proof : Records → OperationRecord → Bool
unfolding execution_proven
has_execution_proof rs o = proven_by o.result_proof
  where
    with_identity : Proof → Option ExecutionIdentity → Bool
    with_identity p none = false
    with_identity p (some i) = execution_proven rs o p i

    proven_by : Option Proof → Bool
    proven_by none = false
    proven_by (some p) = with_identity p p.execution.execution_identity

-- `hasImmutableArtifactIdentity`
unfoldable pub is_immutable : Content → Bool
is_immutable c =
    (is_sha256 c.sha256
      && not (is_defined c.immutable_version)
      && not (is_defined c.retrieval_context))
    || (not (is_defined c.sha256)
        && truthy c.immutable_version
        && truthy c.retrieval_context
        && c.version_verified)

-- `matchesArtifactContent`
unfoldable pub matches_content : Content → Content → Bool
matches_content a b =
    is_immutable a
    && same_opt a.sha256 b.sha256
    && same_opt a.immutable_version b.immutable_version
    && same_opt a.retrieval_context b.retrieval_context
