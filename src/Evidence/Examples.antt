-- ===== src/Evidence/Examples.antt =====
-- A deployment to DEV with its artifact and the build that produced it.
use ai_sdlc_framework.Prelude.{true, false, [], ◌∷◌, Option, none, some, String, lookup, ◌≡◌, refl}
use ai_sdlc_framework.Shell.Chars.{is_space}
use ai_sdlc_framework.Evidence.Texts.{
  units, has_control, is_blank, is_text, ends_space, is_trimmed, all_hex,
}
use ai_sdlc_framework.Evidence.Identity.{
  ExecutionIdentity, not_applicable, validate_identity, validate_current_identity,
  validate_result_identity, agrees_with_proof, expect_field, same_identity,
}
use ai_sdlc_framework.Evidence.Records.{
  Content, IntendedOutcome, Proof, OperationRecord, ArtifactRecord, CandidateCycle, Records,
}
use ai_sdlc_framework.Evidence.Current.{
  current_source, verified_destination, matches_attempt, execution_proven, has_execution_proof,
  is_immutable, matches_content,
}
use ai_sdlc_framework.Evidence.Deployment.{
  artifact_current, current_artifact, current_deployment, deployment_current, deploys,
  names_artifact, find_artifact, find_operation, lookup_operation, produces, produced_by,
  producer_proven, producer_bound, matches_producer, same_execution, outcome_deploys, proof_matches,
  requested_matches,
}
use ai_sdlc_framework.Evidence.Chain.{deployment_chained}

abbrev revision : Option String
revision = some "bbbbbbbbbbbbbbbbbbbbbbbbbbbbbbbbbbbbbbbb"

abbrev sha : Option String
sha = some "aaaaaaaaaaaaaaaaaaaaaaaaaaaaaaaaaaaaaaaaaaaaaaaaaaaaaaaaaaaaaaaa"

abbrev identity : ExecutionIdentity
identity = record {
  provider = "ci";
  connection = "main";
  scope_ref = "scope";
  definition_ref = some "build";
  execution_ref = "17";
  attempt_ref = none;
  attempt_kind = some not_applicable;
}

abbrev content : Content
content = record {
  sha256 = sha;
  immutable_version = none;
  retrieval_context = none;
  version_verified = false;
}

abbrev no_content : Content
no_content = record {
  sha256 = none;
  immutable_version = none;
  retrieval_context = none;
  version_verified = false;
}

abbrev outcome : IntendedOutcome
outcome = record {
  digest = "outcome-1";
  source_revision = revision;
  config_digest = some "config";
  artifact_id = none;
  artifact_ref = none;
  content = no_content;
  local_repository_path = some "/work/app";
  remote_repository_url = some "https://host.example/app";
  provider = some "ci";
  pipeline = some "build";
  environment = none;
  target = none;
}

abbrev proof : Proof
proof = record {
  status = "succeeded";
  dispatch_id = "build-1";
  intended_outcome_digest = some "outcome-1";
  result_digest = sha;
  causal_key = some "cause";
  execution = record {
    execution_identity = some identity;
    attempt_capability = some "none";
    attempt_ref = some "not-applicable";
    execution_ref = some "17";
    provider = none;
    pipeline = none;
    provider_result_id = some "17:not-applicable";
  };
}

abbrev build : OperationRecord
build = record {
  id = "build-1";
  class = "build";
  status = "succeeded";
  repository_id = "app";
  cycle_id = some "cycle-1";
  candidate_digest = some "candidate";
  target = "local";
  artifact_id = none;
  environment = none;
  action_provider = some "ci";
  action_config_digest = none;
  action_artifact_id = none;
  action_artifact_ref = none;
  action_content = no_content;
  action_source_revision = none;
  action_target = none;
  intended_outcome = some outcome;
  result_proof = some proof;
}

abbrev artifact : ArtifactRecord
artifact = record {
  id = "artifact-record";
  artifact_id = some "app-image";
  artifact_ref = some "registry/app";
  status = "succeeded";
  cycle_id = some "cycle-1";
  source_digest = some "candidate";
  repository_id = some "app";
  source_revision = revision;
  config_digest = some "config";
  local_repository_path = some "/work/app";
  remote_repository_url = some "https://host.example/app";
  provider = some "ci";
  connection = some "main";
  repository_ref = some "ref";
  content = content;
  build_run_id = some "17:not-applicable";
  producing_operation_id = some "build-1";
  producing_attempt_capability = some "none";
  producing_attempt_ref = some "not-applicable";
  producing_execution = some identity;
}

abbrev deployment : OperationRecord
deployment = record build {
  id = "deploy-1";
  class = "deploy";
  target = "cluster";
  artifact_id = some "app-image";
  environment = some "DEV";
  action_config_digest = some "config";
  action_artifact_id = some "app-image";
  action_artifact_ref = some "registry/app";
  action_content = content;
  action_target = some "cluster";
  intended_outcome = some (record outcome {
    artifact_id = some "app-image";
    artifact_ref = some "registry/app";
    content = content;
    environment = some "DEV";
    target = some "cluster";
  });
  result_proof = some (record proof { dispatch_id = "deploy-1" });
}

abbrev cycle : CandidateCycle
cycle = record {
  id = "cycle-1";
  candidate_digest = "candidate";
  config_digest = "config";
  sources = (record { repository_id = "app"; revision = revision }) ∷ [];
  artifacts = ("DEV", "artifact-record") ∷ [];
  deployments = ("DEV", "deploy-1") ∷ [];
}

abbrev records : Records
records = record {
  operations = deployment ∷ build ∷ [];
  archived = [];
  artifacts = artifact ∷ [];
  observations =
      (record {
        repository_id = "app";
        local_repository_path = "/work/app";
        remote_repository_url = "https://host.example/app";
        provider = "ci";
        connection = "main";
        repository_ref = "ref";
      })
      ∷ [];
  identities = none;
}

is_current : current_deployment cycle records deployment "DEV" ≡ true
unfolding current_deployment deployment_current deploys names_artifact current_artifact
    artifact_current produced_by produces producer_proven producer_bound matches_producer
    same_execution outcome_deploys proof_matches requested_matches find_artifact find_operation
    has_execution_proof execution_proven current_source verified_destination matches_attempt
    is_immutable matches_content validate_identity validate_current_identity
    validate_result_identity agrees_with_proof expect_field same_identity units has_control is_blank
    is_text ends_space is_trimmed all_hex is_space
is_current = refl

deployment_chained_example :
    ((deployment.status ≡ "succeeded")
      × (deployment.candidate_digest ≡ some "candidate")
      × (lookup cycle.deployments "DEV" ≡ some "deploy-1"))
    × ((a : ArtifactRecord) × (find_artifact records.artifacts (some "artifact-record") ≡ some a)
        × (a.source_digest ≡ some "candidate")
        × (is_immutable a.content ≡ true)
        × (current_source cycle (some "app") a.source_revision a.config_digest ≡ true)
        × (a.content.sha256 ≡ sha)
        × (a.content.immutable_version ≡ none)
        × ((o : OperationRecord) × (lookup_operation records a.producing_operation_id ≡ some o)
            × (o.status ≡ "succeeded")
            × (o.candidate_digest ≡ some "candidate")
            × (has_execution_proof records o ≡ true)))
deployment_chained_example = deployment_chained cycle records deployment "DEV" is_current
