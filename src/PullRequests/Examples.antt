-- ===== src/PullRequests/Examples.antt =====
-- A pull request that is ready for PROD.
use ai_sdlc_framework.Prelude.{true, false, [], ◌∷◌, none, some, String, IsIn, ◌≡◌, refl}
use ai_sdlc_framework.PullRequests.Records.{PullRequest, PrCheck, Facts, ReadinessInput}
use ai_sdlc_framework.PullRequests.Observations.{current_observation, current_pr_observation}
use ai_sdlc_framework.PullRequests.Readiness.{
  evaluate_readiness, ReadinessContext, find_pr, find_facts, pr_gaps, known_gaps, facts_gaps,
  all_check_gaps, check_gaps, found_gaps, artifact_gaps,
}
use ai_sdlc_framework.PullRequests.Gaps.{IsFresh, IsProven, production_ready}

abbrev pull_request : PullRequest
pull_request = record {
  id = "pr-1";
  is_observation = true;
  repository_id = some "app";
  provider = some "host";
  connection = some "main";
  repository_ref = some "ref";
  pull_request_ref = some "12";
  local_repository_path = some "/work/app";
  remote_repository_url = some "https://host.example/app";
  sequence = 1;
  observed_at = 900;
  state = "open";
  source_revision = some "s1";
  target_revision = some "t1";
}

abbrev passing_check : PrCheck
passing_check = record {
  id = "check-1";
  required_check_ref = some "ci";
  status = "succeeded";
  tested_revision = some "s1";
  source_revision = some "s1";
  target_revision = some "t1";
  merge_revision = none;
  run_key = some "run-1";
}

abbrev facts : Facts
facts = record {
  pr_record_id = "pr-1";
  policy_version = some "v1";
  source_revision = some "s1";
  target_revision = some "t1";
  observed_at = 950;
  required_checks = "ci" ∷ [];
  checks = passing_check ∷ [];
  merge_context = none;
  run_monitor_refs = "monitor" ∷ [];
  reviews_satisfied = false;
  merged = false;
}

abbrev request : ReadinessInput
request = record {
  environment = "PROD";
  repository_id = some "app";
  pr_record_id = some "pr-1";
  source_revision = some "s1";
  target_revision = some "t1";
  policy_version = some "v1";
  policy = record { required = some false; validation = some false; reviews = none; merge = none };
  local_repository_path = some "/work/app";
  remote_repository_url = some "https://host.example/app";
  pr_id = some "12";
  require_artifact = false;
  artifact_id = none;
}

abbrev context : ReadinessContext
context = record {
  pull_requests = pull_request ∷ [];
  facts = facts ∷ [];
  evidence = record {
    operations = [];
    archived = [];
    artifacts = [];
    observations = [];
    identities = none;
  };
  cycle = record {
    id = "cycle-1";
    candidate_digest = "candidate";
    config_digest = "config";
    sources = [];
    artifacts = [];
    deployments = [];
  };
  is_pending = false;
  identity_key = λ p. "identity";
  association_key = λ p c. "monitor";
  now = 1000;
  max_age = 60000;
}

is_ready : (evaluate_readiness context request).ready ≡ true
unfolding evaluate_readiness find_pr find_facts pr_gaps known_gaps facts_gaps all_check_gaps
    check_gaps found_gaps artifact_gaps current_observation current_pr_observation
is_ready = refl

production_ready_example :
    (p : PullRequest) × (f : Facts) × (find_pr context.pull_requests (some "pr-1") ≡ some p)
    × (find_facts context.facts p.id ≡ some f)
    × (current_observation context.identity_key context.pull_requests p ≡ true)
    × IsFresh 1000 60000 request p f
    × ((required : String)
        → IsIn required f.required_checks
        → (c : PrCheck) × IsProven context.association_key request p f required c)
production_ready_example = production_ready context request refl is_ready
