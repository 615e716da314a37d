-- ===== src/Policy/AllowedEnvironments.antt =====
-- What an action that `evaluatePolicy` of src/policy.mjs allows has for each of its environments.
use mathlib.Core.Path.{subst}
use ai_sdlc_framework.Prelude.{
  ℕ, true, false, not, List, [], ◌∷◌, ◌++◌, ◌≡◌, ◌⊎◌, inl, inr, Bool-cases, String, same, member,
  same_iff, ◌∙◌, ap, if◌then◌else◌,
}
use ai_sdlc_framework.Result.{ok}
use ai_sdlc_framework.Policy.Request.{
  Answers, Configuration, Request, State, effective_environments, has_environment_grant, permission,
  contract,
}
use ai_sdlc_framework.Policy.Rules.{Check, check, check_with, class_in}
use ai_sdlc_framework.Policy.Delivery.{
  environments_checks, environment_checks, stage_checks, pr_checks, prod_checks, grant_checks,
  target_configured, deploy_checks, test_checks, last_checks,
}
use ai_sdlc_framework.Policy.Evaluate.{evaluate_policy, cycle_of, context_of}
use ai_sdlc_framework.Policy.RuleChecks.{IsAllowed}
use ai_sdlc_framework.Policy.Guarantees.{
  intent_resolved, Holds, Holds-append, Holds-given, seen, changes, allowed_parts, Overridden,
  granted_or, passed_or,
}

module _ (digest : String → String) (s : State) (config : Configuration) (answers : Answers)
    (now : ℕ) where
  abbrev checks_of : Request → String → List Check
  checks_of r e = environment_checks digest s config answers (cycle_of s) (context_of s now) r e

  each_environment :
      (r : Request) (es : List String) (e : String)
      → member es e ≡ true
      → Holds digest s config answers now r
          (environments_checks digest s config answers (cycle_of s) (context_of s now) r es)
      → Holds digest s config answers now r (checks_of r e)
  unfolding environments_checks
  each_environment r [] e i h = cc
  each_environment r (f ∷ fs) e i h =
      let parts =
        Holds-append digest s config answers now r (checks_of r f)
          (environments_checks digest s config answers (cycle_of s) (context_of s now) r fs) h in
      elim (Bool-cases (same f e)) [
        | inl y ↦
            subst (λ x. Holds digest s config answers now r (checks_of r x)) ((same_iff f e).0 y)
              parts.0
        | inr n ↦ each_environment r fs e (rw n at i) parts.1
      ]

  allowed_environment :
      (r : Request) (e : String)
      → changes digest s config answers now r ≡ true
      → IsAllowed (evaluate_policy digest s config answers now r)
      → member (effective_environments (seen digest s config answers now r)) e ≡ true
      → Holds digest s config answers now
          (seen digest s config answers now r)
          (checks_of (seen digest s config answers now r) e)
  allowed_environment r e n h i =
      let q = seen digest s config answers now r in
      let each =
        environments_checks digest s config answers (cycle_of s) (context_of s now) q
          (effective_environments q) in
      let deploys = deploy_checks digest s config answers (cycle_of s) (context_of s now) q in
      let tests =
        test_checks digest s config answers (cycle_of s) (context_of s now) q answers.test in
      let last = last_checks digest s config answers (cycle_of s) (context_of s now) q in
      let delivery = (allowed_parts digest s config answers now r n h).1 in
      let three =
        Holds-append digest s config answers now q ((each ++ deploys) ++ tests) last delivery in
      let two = Holds-append digest s config answers now q (each ++ deploys) tests three.0 in
      each_environment q (effective_environments q) e i
        (Holds-append digest s config answers now q each deploys two.0).0

  last_part :
      (r : Request) (e : String)
      → Holds digest s config answers now r (checks_of r e)
      → Holds digest s config answers now r (
          if same e "PROD"
          then prod_checks digest s config answers (cycle_of s) (context_of s now) r
          else grant_checks digest s config answers (cycle_of s) (context_of s now) r e)
  unfolding environment_checks
  last_part r e h =
      let prs = pr_checks digest s config answers (cycle_of s) (context_of s now) r e in
      let rest =
        if same e "PROD"
        then prod_checks digest s config answers (cycle_of s) (context_of s now) r
        else grant_checks digest s config answers (cycle_of s) (context_of s now) r e in
      (Holds-append digest s config answers now r prs rest
        (Holds-append digest s config answers now r
          (stage_checks (contract config.contracts e) r.stages) (prs ++ rest) h).1).1

  -- An allowed action on PROD that does more than recommend it has a PROD permission in force that
  -- covers it, and the configured target and configuration, or an override of the rule.
  pub prod_allowed :
      (r : Request)
      → changes digest s config answers now r ≡ true
      → same r.base.class "recommend-prod" ≡ false
      → member (effective_environments (seen digest s config answers now r)) "PROD" ≡ true
      → IsAllowed (evaluate_policy digest s config answers now r)
      → ((permission digest s.records "prod-execution"
              (seen digest s config answers now r).base
              (context_of s now)
            ≡ ok true)
          ⊎ Overridden digest s config answers now
              (seen digest s config answers now r)
              "prod-execution")
        × ((target_configured
                (contract config.contracts "PROD")
                (seen digest s config answers now r)
              ≡ true)
            ⊎ Overridden digest s config answers now
                (seen digest s config answers now r)
                "configured-target")
  unfolding prod_checks
  prod_allowed r n c i h =
      let q = seen digest s config answers now r in
      let not_recommend =
        ap (λ x. not (same x "recommend-prod")) (intent_resolved digest s config answers now r).0
        ∙ ap not c in
      let run =
        check_with "prod-execution"
          (permission digest s.records "prod-execution" q.base (context_of s now)) in
      let target =
        check "configured-target" (target_configured (contract config.contracts "PROD") q) in
      let facts =
        Holds-given digest s config answers now q (not (same q.base.class "recommend-prod"))
          (run ∷ target ∷ []) not_recommend
          (last_part q "PROD" (allowed_environment r "PROD" n h i)) in
      (
        granted_or digest s config answers now q run facts.0,
        passed_or digest s config answers now q "configured-target"
            (target_configured (contract config.contracts "PROD") q) facts.1.0,
      )

  -- An allowed action on STAGING that does more than recommend has a promotion in force for the
  -- candidate and the target, passed local and DEV tests, a confirmed completion of DEV, and the
  -- configured target, each or an override of its rule.
  pub staging_allowed :
      (r : Request)
      → changes digest s config answers now r ≡ true
      → class_in r ("recommend-staging" ∷ "recommend-prod" ∷ []) ≡ false
      → member (effective_environments (seen digest s config answers now r)) "STAGING" ≡ true
      → IsAllowed (evaluate_policy digest s config answers now r)
      → let q = seen digest s config answers now r in
        ((has_environment_grant digest s.records (cycle_of s) "STAGING" q.base (context_of s now)
            ≡ ok true)
          ⊎ Overridden digest s config answers now q "staging-authorization")
        × ((answers.stage_passed "local" ≡ true)
            ⊎ Overridden digest s config answers now q "local-validation")
        × ((answers.stage_passed "DEV" ≡ true)
            ⊎ Overridden digest s config answers now q "dev-validation")
        × ((answers.stage_completed "DEV" ≡ true)
            ⊎ Overridden digest s config answers now q "dev-completion")
        × ((target_configured (contract config.contracts "STAGING") q ≡ true)
            ⊎ Overridden digest s config answers now q "configured-target")
  unfolding grant_checks
  staging_allowed r n c i h =
      let q = seen digest s config answers now r in
      let not_recommend =
        ap (λ x. not (member ("recommend-staging" ∷ "recommend-prod" ∷ []) x))
          (intent_resolved digest s config answers now r).0
        ∙ ap not c in
      let grant =
        check_with "staging-authorization" (
          has_environment_grant digest s.records (cycle_of s) "STAGING" q.base
            (context_of s now)) in
      let target = target_configured (contract config.contracts "STAGING") q in
      let facts =
        Holds-given digest s config answers now q
          (not (class_in q ("recommend-staging" ∷ "recommend-prod" ∷ [])))
          (grant
            ∷ check "local-validation" (answers.stage_passed "local")
            ∷ check "dev-validation" (answers.stage_passed "DEV")
            ∷ check "dev-completion" (answers.stage_completed "DEV")
            ∷ check "configured-target" target
            ∷ [])
          not_recommend (last_part q "STAGING" (allowed_environment r "STAGING" n h i)) in
      let passed = passed_or digest s config answers now q in
      (
        granted_or digest s config answers now q grant facts.0,
        passed "local-validation" (answers.stage_passed "local") facts.1.0,
        passed "dev-validation" (answers.stage_passed "DEV") facts.1.1.0,
        passed "dev-completion" (answers.stage_completed "DEV") facts.1.1.1.0,
        passed "configured-target" target facts.1.1.1.1.0,
      )
