-- ===== src/Evidence/Deployment.antt =====
-- `currentArtifact` and `currentDeployment` of src/current-evidence.mjs, for a cycle that is there.
use ai_sdlc_framework.Prelude.{
  Bool, true, false, not, ◌&&◌, ◌||◌, List, [], ◌∷◌, Option, none, some, if◌then◌else◌, same,
  same_opt, truthy, lookup, String, any,
}
use ai_sdlc_framework.Result.{Result, ok, fail, ◌>>=◌, evidence, require_that, ◌>>◌}
use ai_sdlc_framework.Evidence.Identity.{
  ExecutionIdentity, ExecutionProof, no_expectation, validate_result_identity,
  validate_current_identity, same_identity, unset_or,
}
use ai_sdlc_framework.Evidence.Records.{
  IntendedOutcome, Proof, OperationRecord, ArtifactRecord, RepositoryIdentity, CandidateCycle,
  Records,
}
use ai_sdlc_framework.Evidence.Current.{
  current_source, verified_destination, matches_attempt, has_execution_proof, is_immutable,
  matches_content, outcome_digest, is_source,
}

abbrev pub accepts : Result Bool → Bool
accepts (ok b) = b
accepts (fail c) = false

-- The identities that the proof and the artifact give, where both are there.
unfoldable pub same_execution :
    ExecutionProof → ExecutionIdentity → ExecutionIdentity → ArtifactRecord → Bool
same_execution p proven selected a = accepts (do
  i ← validate_result_identity proven p (record no_expectation {
    provider = a.provider;
    connection = a.connection;
    attempt_capability = a.producing_attempt_capability;
  })
  j ← validate_current_identity selected a.producing_attempt_capability
  ok (same_identity i j))

abbrev pub same_executions :
    ExecutionProof → Option ExecutionIdentity → Option ExecutionIdentity → ArtifactRecord → Bool
same_executions p none selected a = false
same_executions p (some i) none a = false
same_executions p (some i) (some j) a = same_execution p i j a

-- `matchesProducerExecution`
unfoldable pub matches_producer : Proof → ArtifactRecord → Bool
matches_producer p a =
    matches_attempt p.execution a.producing_attempt_capability a.producing_attempt_ref
    && same_executions p.execution p.execution.execution_identity a.producing_execution a

unfoldable pub find_identity : List RepositoryIdentity → Option String → Option RepositoryIdentity
find_identity [] repository = none
find_identity (i ∷ l) repository =
    if same_opt (some i.repository_id) repository then some i else find_identity l repository

abbrev pub identity_matches :
    CandidateCycle
    → Option String
    → Option String
    → Option String
    → Option RepositoryIdentity
    → Bool
identity_matches c repository path url none = false
identity_matches c repository path url (some i) =
    not i.has_evidence_gap
    && same_opt i.local_repository_path path
    && same_opt i.remote_repository_url url
    && current_source c repository i.revision (some c.config_digest)

abbrev pub repository_matches :
    CandidateCycle
    → Option (List RepositoryIdentity)
    → Option String
    → Option String
    → Option String
    → Bool
repository_matches c none repository path url = true
repository_matches c (some identities) repository path url =
    identity_matches c repository path url (find_identity identities repository)

-- `matchesSelectedRepository`
abbrev pub matches_repository :
    CandidateCycle → Records → Option String → Option String → Option String → Bool
matches_repository c rs repository path url = repository_matches c rs.identities repository path url

unfoldable pub find_operation : List OperationRecord → Option String → Option OperationRecord
find_operation [] i = none
find_operation (o ∷ os) i = if same_opt (some o.id) i then some o else find_operation os i

abbrev pub first_of {ℓ} : {A : Type ℓ} → Option A → Option A → Option A
first_of none b = b
first_of (some a) b = some a

-- `lookupOperation`
abbrev pub lookup_operation : Records → Option String → Option OperationRecord
lookup_operation rs i = first_of (find_operation rs.operations i) (find_operation rs.archived i)

-- The artifact's own fields.
unfoldable pub artifact_current : CandidateCycle → Records → ArtifactRecord → Option String → Bool
artifact_current c rs a repository =
    same a.status "succeeded"
    && same_opt a.cycle_id (some c.id)
    && same_opt a.source_digest (some c.candidate_digest)
    && current_source c repository a.source_revision a.config_digest
    && matches_repository c rs repository a.local_repository_path a.remote_repository_url
    && verified_destination rs repository a.local_repository_path a.remote_repository_url a.provider
        a.connection a.repository_ref
    && truthy a.provider
    && truthy a.connection
    && truthy a.repository_ref
    && truthy a.artifact_ref
    && is_immutable a.content

abbrev pub is_distinct_ref : Option String → Bool
is_distinct_ref none = false
is_distinct_ref (some r) = not (same r "unknown" || same r "not-applicable" || same r "")

-- The attempt that produced the artifact is known, or there is none.
abbrev pub attempt_decided : ArtifactRecord → Bool
attempt_decided a =
    (same_opt a.producing_attempt_capability (some "none")
      && same_opt a.producing_attempt_ref (some "not-applicable"))
    || (same_opt a.producing_attempt_capability (some "distinct")
        && is_distinct_ref a.producing_attempt_ref)

unfoldable pub requested_matches : Option IntendedOutcome → ArtifactRecord → Bool
requested_matches none a = false
requested_matches (some o) a =
    same_opt o.source_revision a.source_revision
    && same_opt o.config_digest a.config_digest
    && same_opt o.local_repository_path a.local_repository_path
    && same_opt o.remote_repository_url a.remote_repository_url

unfoldable pub proof_matches : OperationRecord → ArtifactRecord → Option Proof → Bool
proof_matches o a none = false
proof_matches o a (some p) =
    same p.status "succeeded"
    && same p.dispatch_id o.id
    && same_opt p.intended_outcome_digest (outcome_digest o.intended_outcome)
    && same_opt p.execution.provider_result_id a.build_run_id
    && matches_producer p a

unfoldable pub producer_proven : Records → ArtifactRecord → OperationRecord → Bool
producer_proven rs a o =
    (same o.class "build" || same o.class "pipeline")
    && same o.status "succeeded"
    && has_execution_proof rs o
    && proof_matches o a o.result_proof

unfoldable pub producer_bound :
    CandidateCycle → ArtifactRecord → Option String → OperationRecord → Bool
producer_bound c a repository o =
    same_opt o.cycle_id (some c.id)
    && same_opt o.candidate_digest (some c.candidate_digest)
    && same_opt (some o.repository_id) repository
    && same_opt o.action_provider a.provider
    && requested_matches o.intended_outcome a

-- The operation that produced the artifact.
unfoldable pub produces :
    CandidateCycle → Records → ArtifactRecord → Option String → OperationRecord → Bool
produces c rs a repository o = producer_proven rs a o && producer_bound c a repository o

unfoldable pub produced_by :
    CandidateCycle → Records → ArtifactRecord → Option String → Option OperationRecord → Bool
produced_by c rs a repository none = false
produced_by c rs a repository (some o) = produces c rs a repository o

-- `currentArtifact`
unfoldable pub current_artifact : CandidateCycle → Records → ArtifactRecord → Option String → Bool
current_artifact c rs a repository =
    artifact_current c rs a repository
    && attempt_decided a
    && produced_by c rs a repository (lookup_operation rs a.producing_operation_id)

abbrev pub deployment_proven : OperationRecord → Option Proof → Bool
deployment_proven d none = false
deployment_proven d (some p) =
    same p.status "succeeded"
    && same p.dispatch_id d.id
    && same_opt p.intended_outcome_digest (outcome_digest d.intended_outcome)
    && truthy p.execution.provider_result_id

-- The deployment's own fields.
unfoldable pub deployment_current : CandidateCycle → OperationRecord → String → Bool
deployment_current c d environment =
    same d.class "deploy"
    && same d.status "succeeded"
    && same_opt (lookup c.deployments environment) (some d.id)
    && same_opt d.cycle_id (some c.id)
    && same_opt d.candidate_digest (some c.candidate_digest)
    && same_opt d.environment (some environment)
    && same_opt d.action_config_digest (some c.config_digest)
    && deployment_proven d d.result_proof
    && same_opt d.action_target (some d.target)

unfoldable pub outcome_deploys :
    OperationRecord → ArtifactRecord → String → Option IntendedOutcome → Bool
outcome_deploys d a environment none = false
outcome_deploys d a environment (some o) =
    matches_content a.content o.content
    && same_opt o.artifact_id a.artifact_id
    && same_opt o.artifact_ref a.artifact_ref
    && same_opt o.source_revision a.source_revision
    && same_opt o.config_digest a.config_digest
    && same_opt o.local_repository_path a.local_repository_path
    && same_opt o.remote_repository_url a.remote_repository_url
    && unset_or d.action_source_revision a.source_revision
    && same_opt o.environment (some environment)
    && same_opt o.target (some d.target)

unfoldable pub names_artifact : OperationRecord → ArtifactRecord → Bool
names_artifact d a =
    same_opt d.artifact_id a.artifact_id
    && same_opt d.action_artifact_id a.artifact_id
    && same_opt d.action_artifact_ref a.artifact_ref

-- The deployment is one of the artifact.
unfoldable pub deploys : CandidateCycle → Records → OperationRecord → ArtifactRecord → String → Bool
deploys c rs d a environment =
    current_artifact c rs a (some d.repository_id)
    && names_artifact d a
    && matches_content a.content d.action_content
    && outcome_deploys d a environment d.intended_outcome

unfoldable pub find_artifact : List ArtifactRecord → Option String → Option ArtifactRecord
find_artifact [] i = none
find_artifact (a ∷ l) i = if same_opt (some a.id) i then some a else find_artifact l i

abbrev pub deploys_found :
    CandidateCycle → Records → OperationRecord → String → Option ArtifactRecord → Bool
deploys_found c rs d environment none = false
deploys_found c rs d environment (some a) = deploys c rs d a environment

-- `currentDeployment`
unfoldable pub current_deployment : CandidateCycle → Records → OperationRecord → String → Bool
current_deployment c rs d environment =
    deployment_current c d environment
    && deploys_found c rs d environment
        (find_artifact rs.artifacts (lookup c.artifacts environment))

-- `requireCurrentDeployment`
abbrev pub require_current_deployment :
    CandidateCycle → Records → OperationRecord → String → Result OperationRecord
require_current_deployment c rs d environment = do
  require_that (current_deployment c rs d environment) evidence
  ok d

abbrev pub requested_revision : Option IntendedOutcome → Option String
requested_revision none = none
requested_revision (some o) = o.source_revision

-- `operationMatchesCurrentSource`
abbrev pub operation_matches_source : CandidateCycle → OperationRecord → Bool
operation_matches_source c o =
    same_opt o.environment (some "local")
    || (truthy (requested_revision o.intended_outcome)
        && any (is_source o.repository_id (requested_revision o.intended_outcome)) c.sources)
