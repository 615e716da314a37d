-- ===== src/Evidence/Chain.antt =====
-- What a current deployment rests on: src/current-evidence.mjs.
use ai_sdlc_framework.Prelude.{
  true, Option, none, some, same, same_iff, same_opt, same_opt_eq, lookup, String, ◌≡◌, refl, arith,
}
use ai_sdlc_framework.Evidence.Records.{
  Content, OperationRecord, ArtifactRecord, CandidateCycle, Records,
}
use ai_sdlc_framework.Evidence.Current.{
  current_source, has_execution_proof, is_immutable, matches_content,
}
use ai_sdlc_framework.Evidence.Deployment.{
  artifact_current, current_artifact, current_deployment, deployment_current, deploys,
  deploys_found, find_artifact, lookup_operation, produces, produced_by, producer_proven,
  producer_bound,
}

-- The artifact is one of the candidate of the cycle, at a revision of its sources.
artifact_facts :
    (c : CandidateCycle) (rs : Records) (a : ArtifactRecord) (repository : Option String)
    → artifact_current c rs a repository ≡ true
    → (same_opt a.source_digest (some c.candidate_digest) ≡ true)
      × (current_source c repository a.source_revision a.config_digest ≡ true)
      × (is_immutable a.content ≡ true)
unfolding artifact_current
artifact_facts c rs a repository h = ground (arith, h)

proven_facts :
    (rs : Records) (a : ArtifactRecord) (o : OperationRecord)
    → producer_proven rs a o ≡ true
    → (same o.status "succeeded" ≡ true) × (has_execution_proof rs o ≡ true)
unfolding producer_proven
proven_facts rs a o h = ground (arith, h)

bound_facts :
    (c : CandidateCycle) (a : ArtifactRecord) (repository : Option String) (o : OperationRecord)
    → producer_bound c a repository o ≡ true
    → same_opt o.candidate_digest (some c.candidate_digest) ≡ true
unfolding producer_bound
bound_facts c a repository o h = ground (arith, h)

producer_facts :
    (c : CandidateCycle) (rs : Records) (a : ArtifactRecord) (repository : Option String)
    (o : OperationRecord)
    → produces c rs a repository o ≡ true
    → (same o.status "succeeded" ≡ true)
      × (same_opt o.candidate_digest (some c.candidate_digest) ≡ true)
      × (has_execution_proof rs o ≡ true)
unfolding produces
producer_facts c rs a repository o h =
    let halves : (producer_proven rs a o ≡ true) × (producer_bound c a repository o ≡ true) =
      ground (arith, h) in
    let proven = proven_facts rs a o halves.0 in
    (proven.0, bound_facts c a repository o halves.1, proven.1)

produced_inversion :
    (c : CandidateCycle) (rs : Records) (a : ArtifactRecord) (repository : Option String)
    (found : Option OperationRecord)
    → produced_by c rs a repository found ≡ true
    → (o : OperationRecord) × (found ≡ some o) × (produces c rs a repository o ≡ true)
unfolding produced_by
produced_inversion c rs a repository none h = cc
produced_inversion c rs a repository (some o) h = (o, refl, h)

found_inversion :
    (c : CandidateCycle) (rs : Records) (d : OperationRecord) (environment : String)
    (found : Option ArtifactRecord)
    → deploys_found c rs d environment found ≡ true
    → (a : ArtifactRecord) × (found ≡ some a) × (deploys c rs d a environment ≡ true)
found_inversion c rs d environment none h = cc
found_inversion c rs d environment (some a) h = (a, refl, h)

deploys_facts :
    (c : CandidateCycle) (rs : Records) (d : OperationRecord) (a : ArtifactRecord)
    (environment : String)
    → deploys c rs d a environment ≡ true
    → (current_artifact c rs a (some d.repository_id) ≡ true)
      × (matches_content a.content d.action_content ≡ true)
unfolding deploys
deploys_facts c rs d a environment h = ground (arith, h)

artifact_parts :
    (c : CandidateCycle) (rs : Records) (a : ArtifactRecord) (repository : Option String)
    → current_artifact c rs a repository ≡ true
    → (artifact_current c rs a repository ≡ true)
      × (produced_by c rs a repository (lookup_operation rs a.producing_operation_id) ≡ true)
unfolding current_artifact
artifact_parts c rs a repository h = ground (arith, h)

deployment_parts :
    (c : CandidateCycle) (rs : Records) (d : OperationRecord) (environment : String)
    → current_deployment c rs d environment ≡ true
    → (deployment_current c d environment ≡ true)
      × (deploys_found c rs d environment
            (find_artifact rs.artifacts (lookup c.artifacts environment))
          ≡ true)
unfolding current_deployment
deployment_parts c rs d environment h = ground (arith, h)

deployment_facts :
    (c : CandidateCycle) (d : OperationRecord) (environment : String)
    → deployment_current c d environment ≡ true
    → (same d.status "succeeded" ≡ true)
      × (same_opt d.candidate_digest (some c.candidate_digest) ≡ true)
      × (same_opt (lookup c.deployments environment) (some d.id) ≡ true)
unfolding deployment_current
deployment_facts c d environment h = ground (arith, h)

content_facts :
    (a b : Content)
    → matches_content a b ≡ true
    → (same_opt a.sha256 b.sha256 ≡ true)
      × (same_opt a.immutable_version b.immutable_version ≡ true)
unfolding matches_content
content_facts a b h = ground (arith, h)

-- A deployment that is current for an environment of a cycle has succeeded with the candidate of the
-- cycle, and is the cycle's deployment there. The cycle's artifact there is immutable and of the same
-- candidate, at a revision of its sources; the deployment requested the same content. The artifact was
-- produced by an operation that succeeded on the same candidate, with a proof of its execution.
pub deployment_chained :
    (c : CandidateCycle) (rs : Records) (d : OperationRecord) (environment : String)
    → current_deployment c rs d environment ≡ true
    → ((d.status ≡ "succeeded")
        × (d.candidate_digest ≡ some c.candidate_digest)
        × (lookup c.deployments environment ≡ some d.id))
      × ((a : ArtifactRecord) × (find_artifact rs.artifacts (lookup c.artifacts environment)
            ≡ some a)
          × (a.source_digest ≡ some c.candidate_digest)
          × (is_immutable a.content ≡ true)
          × (current_source c (some d.repository_id) a.source_revision a.config_digest ≡ true)
          × (a.content.sha256 ≡ d.action_content.sha256)
          × (a.content.immutable_version ≡ d.action_content.immutable_version)
          × ((o : OperationRecord) × (lookup_operation rs a.producing_operation_id ≡ some o)
              × (o.status ≡ "succeeded")
              × (o.candidate_digest ≡ some c.candidate_digest)
              × (has_execution_proof rs o ≡ true)))
deployment_chained c rs d environment h =
    let parts = deployment_parts c rs d environment h in
    let own = deployment_facts c d environment parts.0 in
    let found =
      found_inversion c rs d environment
        (find_artifact rs.artifacts (lookup c.artifacts environment)) parts.1 in
    let a = found.0 in
    let facts = deploys_facts c rs d a environment found.2 in
    let content = content_facts a.content d.action_content facts.1 in
    let halves = artifact_parts c rs a (some d.repository_id) facts.0 in
    let artifact = artifact_facts c rs a (some d.repository_id) halves.0 in
    let made =
      produced_inversion c rs a (some d.repository_id)
        (lookup_operation rs a.producing_operation_id) halves.1 in
    let producer = producer_facts c rs a (some d.repository_id) made.0 made.2 in
    (
      (
        (same_iff d.status "succeeded").0 own.0,
        same_opt_eq d.candidate_digest (some c.candidate_digest) own.1,
        same_opt_eq (lookup c.deployments environment) (some d.id) own.2,
      ),
      (
        a,
        found.1,
        same_opt_eq a.source_digest (some c.candidate_digest) artifact.0,
        artifact.2,
        artifact.1,
        same_opt_eq a.content.sha256 d.action_content.sha256 content.0,
        same_opt_eq a.content.immutable_version d.action_content.immutable_version content.1,
        (
          made.0,
          made.1,
          (same_iff made.0.status "succeeded").0 producer.0,
          same_opt_eq made.0.candidate_digest (some c.candidate_digest) producer.1,
          producer.2,
        ),
      ),
    )
