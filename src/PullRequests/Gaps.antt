-- ===== src/PullRequests/Gaps.antt =====
-- What readiness for production means: src/pr.mjs.
use mathlib.Core.Path.{subst}
use ai_sdlc_framework.Prelude.{
  ℕ, ◌-◌, ◌≤◌, Bool, true, false, not, ◌&&◌, ◌||◌, List, [], ◌∷◌, ◌++◌, Option, none, some, same,
  same_iff, same_opt, same_opt_eq, member, filter, ltb, String, IsIn, ◌≡◌, inl, inr, refl, arith,
  Bool-cases, Option-cases,
}
use ai_sdlc_framework.PullRequests.Records.{PullRequest, PrCheck, Facts, ReadinessInput, Gap}
use ai_sdlc_framework.PullRequests.Observations.{current_observation}
use ai_sdlc_framework.PullRequests.Readiness.{
  gap_if, no_gaps, evaluate_readiness, ReadinessContext, find_pr, find_facts, pr_gaps, known_gaps,
  facts_gaps, all_check_gaps, check_gaps, found_gaps, resolved_gaps, validation_gaps, monitor_gaps,
  artifact_gaps, policy_of, needs_pull_request, answers, only_match, tests_directly, tests_merge,
  is_empty,
}

no_gaps-append :
    (gs hs : List Gap) → no_gaps (gs ++ hs) ≡ true → (no_gaps gs ≡ true) × (no_gaps hs ≡ true)
no_gaps-append [] hs h = (refl, h)
no_gaps-append (g ∷ gs) hs h = cc

gap_if_none : (b : Bool) (g : Gap) → no_gaps (gap_if b g) ≡ true → b ≡ false
gap_if_none true g h = cc
gap_if_none false g h = refl

-- What a required check needs: one check that succeeded, tested the revisions, and is monitored.
abbrev pub IsProven :
    (PullRequest → PrCheck → String)
    → ReadinessInput
    → PullRequest
    → Facts
    → String
    → PrCheck
    → Type 0
IsProven key i p f required c =
    (only_match (filter (answers p required) f.checks) ≡ some c)
    × (c.status ≡ "succeeded")
    × ((tests_directly i c || tests_merge i c f.merge_context) ≡ true)
    × (member f.run_monitor_refs (key p c) ≡ true)

monitored :
    (key : PullRequest → PrCheck → String) (p : PullRequest) (f : Facts) (required : String)
    (c : PrCheck)
    → no_gaps (monitor_gaps key p f required c) ≡ true
    → member f.run_monitor_refs (key p c) ≡ true
monitored key p f required c h = ground (arith, h)

found_proven :
    (key : PullRequest → PrCheck → String) (i : ReadinessInput) (p : PullRequest) (f : Facts)
    (required : String) (c : PrCheck)
    → no_gaps (found_gaps key i p f required c) ≡ true
    → (c.status ≡ "succeeded")
      × ((tests_directly i c || tests_merge i c f.merge_context) ≡ true)
      × (member f.run_monitor_refs (key p c) ≡ true)
unfolding found_gaps
found_proven key i p f required c h = elim (Bool-cases (same c.status "succeeded")) [
  | inl y ↦
      let parts = no_gaps-append _ (monitor_gaps key p f required c) (rw y at h) in
      let tested = gap_if_none _ _ parts.0 in
      (
        (same_iff c.status "succeeded").0 y,
        tested_either (tests_directly i c) (tests_merge i c f.merge_context) tested,
        monitored key p f required c parts.1,
      )
  | inr n ↦ cc (rw n at h)
]
  where
    tested_either : (a b : Bool) → (not a && not b) ≡ false → (a || b) ≡ true
    tested_either a b t = ground arith

resolved_proven :
    (key : PullRequest → PrCheck → String) (i : ReadinessInput) (p : PullRequest) (f : Facts)
    (required : String) (found : Option PrCheck)
    → no_gaps (resolved_gaps key i p f required found) ≡ true
    → (c : PrCheck) × (found ≡ some c) × (no_gaps (found_gaps key i p f required c) ≡ true)
resolved_proven key i p f required none h = cc
resolved_proven key i p f required (some c) h = (c, refl, h)

check-IsProven :
    (key : PullRequest → PrCheck → String) (i : ReadinessInput) (p : PullRequest) (f : Facts)
    (required : String)
    → no_gaps (check_gaps key i p f required) ≡ true
    → (c : PrCheck) × IsProven key i p f required c
unfolding check_gaps
check-IsProven key i p f required h =
    let parts =
      no_gaps-append _
        (resolved_gaps key i p f required (only_match (filter (answers p required) f.checks))) h in
    let found =
      resolved_proven key i p f required (only_match (filter (answers p required) f.checks))
        parts.1 in
    let proven = found_proven key i p f required found.0 found.2 in
    (found.0, (found.1, proven.0, proven.1, proven.2))

all-IsProven :
    (key : PullRequest → PrCheck → String) (i : ReadinessInput) (p : PullRequest) (f : Facts)
    (rs : List String)
    → no_gaps (all_check_gaps key i p f rs) ≡ true
    → (required : String) → IsIn required rs
    → (c : PrCheck) × IsProven key i p f required c
unfolding all_check_gaps
all-IsProven key i p f [] h required m = elim m [ ]
all-IsProven key i p f (r ∷ rs) h required (inl y) =
    let parts = no_gaps-append (check_gaps key i p f r) (all_check_gaps key i p f rs) h in
    check-IsProven key i p f required (rw y parts.0)
all-IsProven key i p f (r ∷ rs) h required (inr later) =
    let parts = no_gaps-append (check_gaps key i p f r) (all_check_gaps key i p f rs) h in
    all-IsProven key i p f rs parts.1 required later

-- Facts without a gap, where the policy validates.
abbrev pub IsFresh : ℕ → ℕ → ReadinessInput → PullRequest → Facts → Type 0
IsFresh now max_age i p f =
    (p.source_revision ≡ i.source_revision)
    × (p.target_revision ≡ i.target_revision)
    × (now - f.observed_at ≤ max_age)
    × (is_empty f.required_checks ≡ false)

revisions_same :
    (i : ReadinessInput) (p : PullRequest)
    → (not (same_opt p.source_revision i.source_revision)
        || not (same_opt p.target_revision i.target_revision))
      ≡ false
    → (same_opt p.source_revision i.source_revision ≡ true)
      × (same_opt p.target_revision i.target_revision ≡ true)
revisions_same i p h = ground (arith, h)

ltb-not_above : (a b : ℕ) → ltb a b ≡ false → b ≤ a
ltb-not_above a b h = ground (arith, h)

facts-IsProven :
    (key : PullRequest → PrCheck → String) (now max_age : ℕ) (i : ReadinessInput) (p : PullRequest)
    (f : Facts)
    → (policy_of i).validation ≡ true
    → no_gaps (facts_gaps key now max_age i p f) ≡ true
    → IsFresh now max_age i p f
      × ((required : String)
          → IsIn required f.required_checks
          → (c : PrCheck) × IsProven key i p f required c)
unfolding facts_gaps
facts-IsProven key now max_age i p f validates h =
    let one = no_gaps-append _ _ h in
    let two = no_gaps-append _ _ one.0 in
    let three = no_gaps-append _ (validation_gaps key i p f (policy_of i).validation) two.0 in
    let four = no_gaps-append _ _ three.0 in
    let five = no_gaps-append _ _ four.0 in
    let six = no_gaps-append _ _ five.0 in
    let checked =
      no_gaps-append _ (all_check_gaps key i p f f.required_checks) (rw validates at three.1) in
    let revisions = revisions_same i p (gap_if_none _ _ six.0) in
    (
      (
        same_opt_eq p.source_revision i.source_revision revisions.0,
        same_opt_eq p.target_revision i.target_revision revisions.1,
        ltb-not_above max_age (now - f.observed_at) (gap_if_none _ _ four.1),
        gap_if_none _ _ checked.0,
      ),
      all-IsProven key i p f f.required_checks checked.1,
    )

-- A pull request without a gap of its own.
pr_proven :
    (key : PullRequest → String) (prs : List PullRequest) (i : ReadinessInput)
    (found : Option PullRequest)
    → no_gaps (pr_gaps key prs i found) ≡ true
    → (p : PullRequest) × (found ≡ some p)
      × (p.is_observation ≡ true)
      × (current_observation key prs p ≡ true)
unfolding pr_gaps
pr_proven key prs i none h = cc
pr_proven key prs i (some p) h =
    let one = no_gaps-append _ _ h in
    let two = no_gaps-append _ _ one.0 in
    let three = no_gaps-append _ _ two.0 in
    let four = no_gaps-append _ _ three.0 in
    let five = no_gaps-append _ _ four.0 in
    let observed = gap_if_none (not p.is_observation) _ five.0 in
    let current = gap_if_none (p.is_observation && not (current_observation key prs p)) _ five.1 in
    (
      p,
      refl,
      double_not p.is_observation observed,
      second p.is_observation (current_observation key prs p) observed current,
    )
  where
    double_not : (b : Bool) → not b ≡ false → b ≡ true
    double_not b n = ground arith

    second : (a b : Bool) → not a ≡ false → (a && not b) ≡ false → b ≡ true
    second a b n m = ground arith

known_proven :
    (x : ReadinessContext) (i : ReadinessInput) (p : PullRequest)
    → no_gaps (known_gaps x.association_key x.now x.max_age i x.facts (some p)) ≡ true
    → (f : Facts) × (find_facts x.facts p.id ≡ some f)
      × (no_gaps (facts_gaps x.association_key x.now x.max_age i p f) ≡ true)
unfolding known_gaps
known_proven x i p h = elim (Option-cases (find_facts x.facts p.id)) [
  | inl missing ↦ cc (rw missing at h)
  | inr found ↦ (found.0, found.1, rw found.1 at h)
]

needs_prod :
    (i : ReadinessInput)
    → same i.environment "PROD" ≡ true
    → needs_pull_request (policy_of i) ≡ true
needs_prod i h = ground (arith, h)

validates :
    (i : ReadinessInput) → same i.environment "PROD" ≡ true → (policy_of i).validation ≡ true
validates i h = ground (arith, h)

ready_gaps :
    (x : ReadinessContext) (i : ReadinessInput)
    → same i.environment "PROD" ≡ true
    → (evaluate_readiness x i).ready ≡ true
    → (no_gaps (pr_gaps x.identity_key x.pull_requests i (find_pr x.pull_requests i.pr_record_id))
        ≡ true)
      × (no_gaps (
            known_gaps x.association_key x.now x.max_age i x.facts
              (find_pr x.pull_requests i.pr_record_id))
          ≡ true)
unfolding evaluate_readiness
ready_gaps x i prod h =
    let needed = needs_prod i prod in
    let parts =
      no_gaps-append
        (artifact_gaps i x.cycle x.evidence x.is_pending
          ++ pr_gaps x.identity_key x.pull_requests i (find_pr x.pull_requests i.pr_record_id))
        (known_gaps x.association_key x.now x.max_age i x.facts
          (find_pr x.pull_requests i.pr_record_id))
        (rw needed at h) in
    ((no_gaps-append (artifact_gaps i x.cycle x.evidence x.is_pending) _ parts.0).1, parts.1)

-- A pull request is ready for PROD only where the current observation of it is at the requested
-- revisions, the provider's facts about it are at most as old as the limit and name required checks,
-- and each required check has exactly one result, which succeeded, tested the requested revisions or
-- their merge, and has an attached monitor. Whatever the policy of the input says.
pub production_ready :
    (x : ReadinessContext) (i : ReadinessInput)
    → i.environment ≡ "PROD"
    → (evaluate_readiness x i).ready ≡ true
    → (p : PullRequest) × (f : Facts) × (find_pr x.pull_requests i.pr_record_id ≡ some p)
      × (find_facts x.facts p.id ≡ some f)
      × (current_observation x.identity_key x.pull_requests p ≡ true)
      × IsFresh x.now x.max_age i p f
      × ((required : String)
          → IsIn required f.required_checks
          → (c : PrCheck) × IsProven x.association_key i p f required c)
production_ready x i prod h =
    let is_prod : (same i.environment "PROD" ≡ true) = (same_iff i.environment "PROD").1 prod in
    let whole = ready_gaps x i is_prod h in
    let pr =
      pr_proven x.identity_key x.pull_requests i (find_pr x.pull_requests i.pr_record_id) whole.0 in
    let known = known_proven x i pr.0 (
      subst (λ found. no_gaps (known_gaps x.association_key x.now x.max_age i x.facts found) ≡ true)
        pr.1 whole.1) in
    let facts =
      facts-IsProven x.association_key x.now x.max_age i pr.0 known.0 (validates i is_prod)
        known.2 in
    (pr.0, known.0, pr.1, known.1, pr.3, facts.0, facts.1)
