-- ===== src/PullRequests/Readiness.antt =====
-- `evaluateReadiness` of src/pr.mjs. The identity key of a pull request and the key of a monitor's
-- association are digests, and arguments; the environment is one of the three. Times are natural
-- numbers.
use ai_sdlc_framework.Prelude.{
  ℕ, ◌-◌, Bool, true, false, not, ◌&&◌, ◌||◌, List, [], ◌∷◌, ◌++◌, Option, none, some,
  if◌then◌else◌, same, same_opt, truthy, is_defined, member, any, filter, lookup, otherwise, ltb,
  String,
}
use ai_sdlc_framework.Evidence.Records.{ArtifactRecord, CandidateCycle}
use ai_sdlc_framework.Evidence.Records.{Records as EvidenceRecords}
use ai_sdlc_framework.Evidence.Deployment.{current_artifact}
use ai_sdlc_framework.PullRequests.Records.{
  PullRequest, PrCheck, MergeFacts, Facts, PrPolicy, ReadinessInput, Gap, artifact_unverified,
  pr_missing, pr_unverified, observation_differs, repository_mismatch, hosted_id_mismatch,
  pr_repository_mismatch, closed_without_merge, metadata_unavailable, revision_differs,
  policy_version_unverified, stale_source_or_target, re_read_readiness, check_set_unverified,
  reviews_missing, merge_missing, result_ambiguous, provenance_unverified, monitor_missing,
  monitor_unattached, check_status,
}
use ai_sdlc_framework.PullRequests.Observations.{current_observation}

-- `gaps.push(gap)` under a condition
abbrev pub gap_if : Bool → Gap → List Gap
gap_if true g = g ∷ []
gap_if false g = []

-- The policy of an environment: PROD needs a pull request and its validation.
abbrev pub policy_of : ReadinessInput → PrPolicy
policy_of i =
    let prod = same i.environment "PROD" in
    record {
      required = prod || otherwise i.policy.required false;
      validation = prod || otherwise i.policy.validation false;
      reviews = otherwise i.policy.reviews false;
      merge = otherwise i.policy.merge false;
    }

abbrev pub artifact_environment : String → String
artifact_environment e = if same e "PROD" then "STAGING" else e

abbrev pub is_candidate_artifact :
    ReadinessInput → CandidateCycle → EvidenceRecords → ArtifactRecord → Bool
is_candidate_artifact i c rs a =
    truthy i.local_repository_path
    && truthy i.remote_repository_url
    && same_opt (some a.id) (lookup c.artifacts (artifact_environment i.environment))
    && same_opt a.artifact_id i.artifact_id
    && same_opt a.local_repository_path i.local_repository_path
    && same_opt a.remote_repository_url i.remote_repository_url
    && current_artifact c rs a i.repository_id

-- The gap of the artifact; the assurance of the cycle may be pending.
unfoldable pub artifact_gaps : ReadinessInput → CandidateCycle → EvidenceRecords → Bool → List Gap
artifact_gaps i c rs pending =
    gap_if
      (i.require_artifact && (pending || not (any (is_candidate_artifact i c rs) rs.artifacts)))
      artifact_unverified

unfoldable pub find_pr : List PullRequest → Option String → Option PullRequest
find_pr [] i = none
find_pr (p ∷ ps) i = if same_opt (some p.id) i then some p else find_pr ps i

unfoldable pub find_facts : List Facts → String → Option Facts
find_facts [] i = none
find_facts (f ∷ fs) i = if same f.pr_record_id i then some f else find_facts fs i

-- The gaps of the pull request itself.
unfoldable pub pr_gaps :
    (PullRequest → String) → List PullRequest → ReadinessInput → Option PullRequest → List Gap
pr_gaps key prs i none = pr_missing ∷ []
pr_gaps key prs i (some p) =
    gap_if (not p.is_observation) pr_unverified
    ++ gap_if (p.is_observation && not (current_observation key prs p)) observation_differs
    ++ gap_if
        (p.is_observation
          && (not (same_opt p.local_repository_path i.local_repository_path)
              || not (same_opt p.remote_repository_url i.remote_repository_url)))
        repository_mismatch
    ++ gap_if (p.is_observation && not (same_opt p.pull_request_ref i.pr_id)) hosted_id_mismatch
    ++ gap_if (truthy i.repository_id && not (same_opt p.repository_id i.repository_id))
        pr_repository_mismatch
    ++ gap_if (same p.state "closed") closed_without_merge

-- The checks that answer a required check.
abbrev pub answers : PullRequest → String → PrCheck → Bool
answers p required c =
    if p.is_observation then same_opt c.required_check_ref (some required) else same c.id required

abbrev pub only_match : List PrCheck → Option PrCheck
only_match [] = none
only_match (c ∷ []) = some c
only_match (c ∷ d ∷ cs) = none

abbrev pub tests_directly : ReadinessInput → PrCheck → Bool
tests_directly i c =
    same_opt c.tested_revision i.source_revision
    && same_opt c.source_revision i.source_revision
    && same_opt c.target_revision i.target_revision

abbrev pub tests_merge : ReadinessInput → PrCheck → Option MergeFacts → Bool
tests_merge i c none = false
tests_merge i c (some m) =
    same_opt c.tested_revision c.merge_revision
    && truthy m.evidence_ref
    && same_opt m.source_revision i.source_revision
    && same_opt m.target_revision i.target_revision
    && same_opt m.merge_revision c.merge_revision

abbrev pub monitor_gaps :
    (PullRequest → PrCheck → String) → PullRequest → Facts → String → PrCheck → List Gap
monitor_gaps key p f required c =
    if truthy c.run_key
    then gap_if (not (member f.run_monitor_refs (key p c))) (monitor_unattached required)
    else monitor_missing required ∷ []

-- The gaps of a check that was found.
unfoldable pub found_gaps :
    (PullRequest → PrCheck → String)
    → ReadinessInput
    → PullRequest
    → Facts
    → String
    → PrCheck
    → List Gap
found_gaps key i p f required c =
    if same c.status "succeeded"
    then (gap_if (not (tests_directly i c) && not (tests_merge i c f.merge_context))
          (provenance_unverified required)
        ++ monitor_gaps key p f required c)
    else check_status required c.status ∷ []

abbrev pub resolved_gaps :
    (PullRequest → PrCheck → String)
    → ReadinessInput
    → PullRequest
    → Facts
    → String
    → Option PrCheck
    → List Gap
resolved_gaps key i p f required none = check_status required "missing" ∷ []
resolved_gaps key i p f required (some c) = found_gaps key i p f required c

-- The gaps of one required check.
unfoldable pub check_gaps :
    (PullRequest → PrCheck → String) → ReadinessInput → PullRequest → Facts → String → List Gap
check_gaps key i p f required =
    let matching = filter (answers p required) f.checks in
    gap_if (not (is_defined (only_match matching)) && p.is_observation) (result_ambiguous required)
    ++ resolved_gaps key i p f required (only_match matching)

unfoldable pub all_check_gaps :
    (PullRequest → PrCheck → String) → ReadinessInput → PullRequest → Facts → List String → List Gap
all_check_gaps key i p f [] = []
all_check_gaps key i p f (r ∷ rs) = check_gaps key i p f r ++ all_check_gaps key i p f rs

abbrev pub is_empty : List String → Bool
is_empty [] = true
is_empty (s ∷ l) = false

abbrev pub validation_gaps :
    (PullRequest → PrCheck → String) → ReadinessInput → PullRequest → Facts → Bool → List Gap
validation_gaps key i p f validates =
    if validates
    then (gap_if (is_empty f.required_checks) check_set_unverified
        ++ all_check_gaps key i p f f.required_checks)
    else []

-- The gaps of the provider's facts about a pull request.
unfoldable pub facts_gaps :
    (PullRequest → PrCheck → String) → ℕ → ℕ → ReadinessInput → PullRequest → Facts → List Gap
facts_gaps key now max_age i p f =
    gap_if
      (not (same_opt p.source_revision i.source_revision)
        || not (same_opt p.target_revision i.target_revision))
      revision_differs
    ++ gap_if (not (truthy i.policy_version) || not (same_opt f.policy_version i.policy_version))
        policy_version_unverified
    ++ gap_if
        (not (truthy i.source_revision)
          || not (truthy i.target_revision)
          || not (same_opt f.source_revision i.source_revision)
          || not (same_opt f.target_revision i.target_revision))
        stale_source_or_target
    ++ gap_if (ltb max_age (now - f.observed_at)) re_read_readiness
    ++ validation_gaps key i p f (policy_of i).validation
    ++ gap_if ((policy_of i).reviews && not f.reviews_satisfied) reviews_missing
    ++ gap_if ((policy_of i).merge && (not f.merged || not (same p.state "merged"))) merge_missing

-- The facts belong to a pull request that was found.
unfoldable pub known_gaps :
    (PullRequest → PrCheck → String)
    → ℕ
    → ℕ
    → ReadinessInput
    → List Facts
    → Option PullRequest
    → List Gap
known_gaps key now max_age i fs none = metadata_unavailable ∷ []
known_gaps key now max_age i fs (some p) = gaps_of (find_facts fs p.id)
  where
    gaps_of : Option Facts → List Gap
    gaps_of none = metadata_unavailable ∷ []
    gaps_of (some f) = facts_gaps key now max_age i p f

abbrev pub needs_pull_request : PrPolicy → Bool
needs_pull_request p = p.required || p.validation || p.reviews || p.merge

pub data Verdict : Type 0 where
  unverified satisfied exempt : Verdict

pub record Readiness : Type 0 where
  pub verdict : Verdict
  pub ready : Bool
  pub gaps : List Gap
  pub may_publish : Bool
  pub may_merge : Bool
  pub may_deploy : Bool

abbrev pub no_gaps : List Gap → Bool
no_gaps [] = true
no_gaps (g ∷ gs) = false

abbrev pub readiness_of : List Gap → Verdict → Readiness
readiness_of gs clear = record {
  verdict = if no_gaps gs then clear else unverified;
  ready = no_gaps gs;
  gaps = gs;
  may_publish = false;
  may_merge = false;
  may_deploy = false;
}

-- The records that `evaluateReadiness` reads, the two keys and the clock.
pub record ReadinessContext : Type 0 where
  pub pull_requests : List PullRequest
  pub facts : List Facts
  pub evidence : EvidenceRecords
  pub cycle : CandidateCycle
  pub is_pending : Bool
  pub identity_key : PullRequest → String
  pub association_key : PullRequest → PrCheck → String
  pub now : ℕ
  pub max_age : ℕ

-- `evaluateReadiness`
unfoldable pub evaluate_readiness : ReadinessContext → ReadinessInput → Readiness
evaluate_readiness x i =
    let artifact = artifact_gaps i x.cycle x.evidence x.is_pending in
    let pr = find_pr x.pull_requests i.pr_record_id in
    if needs_pull_request (policy_of i)
    then readiness_of
        (artifact
          ++ pr_gaps x.identity_key x.pull_requests i pr
          ++ known_gaps x.association_key x.now x.max_age i x.facts pr)
        satisfied
    else readiness_of artifact exempt
