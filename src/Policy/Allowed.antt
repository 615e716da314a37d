-- ===== src/Policy/Allowed.antt =====
-- What an action that `evaluatePolicy` of src/policy.mjs allows is certain to have.
use ai_sdlc_framework.Prelude.{
  refl, ◌∙◌, ap, member, ℕ, Bool, true, false, not, [], ◌∷◌, ◌++◌, ◌≡◌, String, same, some, ◌⊎◌,
  arith,
}
use mathlib.Core.Path.{subst}
use ai_sdlc_framework.Result.{ok}
use ai_sdlc_framework.Policy.Request.{
  Answers, Configuration, Request, State, authorized_destination, permission, is_publication,
}
use ai_sdlc_framework.Policy.Rules.{
  Check, check, check_with, external_check, given, class_in, is_flag,
}
use ai_sdlc_framework.Policy.Delivery.{
  permission_checks, destination_checks, operation_checks, push_checks, denial_checks,
  change_checks,
}
use ai_sdlc_framework.Policy.Evaluate.{cycle_of, context_of, permission_rules, evaluate_policy}
use ai_sdlc_framework.Policy.RuleChecks.{IsAllowed}
use ai_sdlc_framework.Policy.Guarantees.{
  Holds, Holds-append, Holds-given, Met, changes, seen, allowed_parts, external_met, Overridden,
  intent_resolved, granted_or, failed_or,
}

module _ (digest : String → String) (s : State) (config : Configuration) (answers : Answers)
    (now : ℕ) where
  -- The rules of permission, for the class of the action.
  abbrev PermissionParts : Request → Type 0
  PermissionParts r =
      (is_publication r ≡ true
        → Met digest s config answers now r
            (external_check "publication-destination" (authorized_destination digest s r)))
      × (class_in r ("push" ∷ "merge" ∷ "auto-merge" ∷ "policy-bypass" ∷ []) ≡ true
          → Met digest s config answers now r (
              check_with r.base.class
                (permission digest s.records r.base.class r.base (context_of s now))))
      × (same r.base.class "push" ≡ true
          → Met digest s config answers now r
              (check "force-push" (not (is_flag true r.base.publication.force)))
            × Met digest s config answers now r
                (check "remote-ref-delete" (not (is_flag true r.base.publication.delete))))
      × (is_flag false r.external_permission ≡ true
          → Met digest s config answers now r (external_check "external-permission" (ok false)))

  permission_parts :
      (r : Request)
      → Holds digest s config answers now r (permission_rules digest s config answers now r)
      → PermissionParts r
  unfolding permission_checks
  permission_parts r h =
      let destination =
        destination_checks digest s config answers (cycle_of s) (context_of s now) r in
      let operation = operation_checks digest s config answers (cycle_of s) (context_of s now) r in
      let pushes = push_checks digest s config answers (cycle_of s) (context_of s now) r in
      let denial = denial_checks digest s config answers (cycle_of s) (context_of s now) r in
      let change = change_checks digest s config answers (cycle_of s) (context_of s now) r in
      let split = Holds-append digest s config answers now r in
      let one = split destination (operation ++ (pushes ++ (denial ++ change))) h in
      let two = split operation (pushes ++ (denial ++ change)) one.1 in
      let three = split pushes (denial ++ change) two.1 in
      let four = split denial change three.1 in
      (
        λ e.
            part (is_publication r)
              (external_check "publication-destination" (authorized_destination digest s r)) e
              one.0,
        λ e.
            part (class_in r ("push" ∷ "merge" ∷ "auto-merge" ∷ "policy-bypass" ∷ []))
              (check_with r.base.class
                (permission digest s.records r.base.class r.base (context_of s now)))
              e two.0,
        λ e. pair e three.0,
        λ e.
            part (is_flag false r.external_permission)
              (external_check "external-permission" (ok false)) e four.0,
      )
    where
      part :
          (b : Bool) (k : Check)
          → b ≡ true
          → Holds digest s config answers now r (given b (k ∷ []))
          → Met digest s config answers now r k
      part b k e g = (Holds-given digest s config answers now r b (k ∷ []) e g).0

      pair :
          same r.base.class "push" ≡ true
          → Holds digest s config answers now r
              (push_checks digest s config answers (cycle_of s) (context_of s now) r)
          → Met digest s config answers now r
              (check "force-push" (not (is_flag true r.base.publication.force)))
            × Met digest s config answers now r
                (check "remote-ref-delete" (not (is_flag true r.base.publication.delete)))
      pair e g =
          let both =
            Holds-given digest s config answers now r (same r.base.class "push")
              (check "force-push" (not (is_flag true r.base.publication.force))
                ∷ check "remote-ref-delete" (not (is_flag true r.base.publication.delete))
                ∷ [])
              e g in
          (both.0, both.1.0)

  class_changes :
      (r : Request) → r.base.class ≡ "push" → changes digest s config answers now r ≡ true
  class_changes r p = ap (λ c. not (member ("read" ∷ "bookkeeping" ∷ []) c)) p

  -- An allowed push has a destination that was observed, a push permission in force that covers it or
  -- an override of that rule, and an override of their own rules for force and for deletion where it
  -- asks for them.
  pub push_allowed :
      (r : Request)
      → r.base.class ≡ "push"
      → IsAllowed (evaluate_policy digest s config answers now r)
      → (authorized_destination digest s (seen digest s config answers now r) ≡ ok true)
        × ((permission digest s.records "push"
                (seen digest s config answers now r).base
                (context_of s now)
              ≡ ok true)
            ⊎ Overridden digest s config answers now (seen digest s config answers now r) "push")
        × (r.base.publication.force ≡ some true
            → Overridden digest s config answers now
                (seen digest s config answers now r)
                "force-push")
        × (r.base.publication.delete ≡ some true
            → Overridden digest s config answers now
                (seen digest s config answers now r)
                "remote-ref-delete")
  push_allowed r p h =
      let q = seen digest s config answers now r in
      let intent = intent_resolved digest s config answers now r in
      let is_push = intent.0 ∙ p in
      let parts =
        permission_parts q (allowed_parts digest s config answers now r (class_changes r p) h).0 in
      let flags = parts.2 (ap (λ c. same c "push") is_push) in
      (
        external_met digest s config answers now q
            (external_check "publication-destination" (authorized_destination digest s q)) refl
            (parts.0 (ap (λ c. member ("push" ∷ "pr-create" ∷ "pr-update" ∷ []) c) is_push)),
        granted_or digest s config answers now q
            (check_with "push" (permission digest s.records "push" q.base (context_of s now)))
            (subst
              (λ c.
                Met digest s config answers now q
                  (check_with c (permission digest s.records c q.base (context_of s now))))
              is_push
              (parts.1 (
                ap (λ c. member ("push" ∷ "merge" ∷ "auto-merge" ∷ "policy-bypass" ∷ []) c)
                  is_push))),
        λ f.
            failed_or digest s config answers now q "force-push"
              (not (is_flag true q.base.publication.force))
              (ap (λ x. not (is_flag true x)) (intent.2 ∙ f)) flags.0,
        λ d.
            failed_or digest s config answers now q "remote-ref-delete"
              (not (is_flag true q.base.publication.delete))
              (ap (λ x. not (is_flag true x)) (intent.3 ∙ d)) flags.1,
      )

  -- No override lifts a denial by the host: an action that changes something and that external policy
  -- denies is never allowed.
  pub external_denial_final :
      (r : Request)
      → changes digest s config answers now r ≡ true
      → r.external_permission ≡ some false
      → ¬ IsAllowed (evaluate_policy digest s config answers now r)
  external_denial_final r n x h =
      let q = seen digest s config answers now r in
      let parts = permission_parts q (allowed_parts digest s config answers now r n h).0 in
      let met =
        external_met digest s config answers now q (external_check "external-permission" (ok false))
          refl
          (parts.3 (ap (is_flag false) ((intent_resolved digest s config answers now r).1 ∙ x))) in
      absurd (ground (arith, met))
