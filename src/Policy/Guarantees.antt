-- ===== src/Policy/Guarantees.antt =====
-- How the rules of an allowed action are used: each is met or overridden, and the resolution of the
-- environment leaves the intent of the action alone (src/policy.mjs).
use ai_sdlc_framework.Prelude.{
  ℕ, Bool, true, false, not, List, [], ◌∷◌, ◌++◌, Option, none, some, ◌≡◌, refl, ◌⊎◌, inl, inr,
  arith, Bool-cases, String, ◌||◌, ◌&&◌, same, member, truthy, ◌∙◌, ap, if◌then◌else◌,
}
use ai_sdlc_framework.Result.{ok}
use ai_sdlc_framework.Authority.Records.{Event}
use ai_sdlc_framework.Authority.Scope.{applicable_override}
use ai_sdlc_framework.Policy.Request.{
  Answers, Configuration, Request, State, complete_push, with_environment, member_root,
  observed_url, with_destination,
}
use ai_sdlc_framework.Policy.Rules.{Check, check, given, class_in}
use ai_sdlc_framework.Policy.Evaluate.{
  evaluate_policy, resolved_request, resolution_of, cycle_of, context_of, work_rules,
  permission_rules, delivery_rules,
}
use ai_sdlc_framework.Policy.RuleChecks.{
  Upheld, AllUpheld, AllUpheld-append, IsAllowed, evaluate_policy_iff,
}

-- The fields of a request that resolution leaves alone.
abbrev pub SameIntent : Request → Request → Type 0
SameIntent q r =
    (q.base.class ≡ r.base.class)
    × (q.external_permission ≡ r.external_permission)
    × (q.base.publication.force ≡ r.base.publication.force)
    × (q.base.publication.delete ≡ r.base.publication.delete)

intent_destination :
    (digest : String → String) (r : Request) (path : String) (url : Option String)
    → SameIntent (with_destination digest r path url) r
intent_destination digest r path none = (refl, refl, refl, refl)
intent_destination digest r path (some u) = (refl, refl, refl, refl)

intent_completed :
    (digest : String → String) (s : State) (r : Request) → SameIntent (complete_push digest s r) r
unfolding complete_push
intent_completed digest s r =
    elim (Bool-cases
      (not (same r.base.class "push" && not (truthy r.base.publication.remote_repository_url)))) [
        | inl other ↦ rw other (refl, refl, refl, refl)
        | inr pushes ↦ rw pushes (
            known (member_root s.members r.base.repository_id) r.base.publication.remote_url_digest)
      ]
  where
    known :
        (root d : Option String)
        → SameIntent
            (elim root [
              | none ↦ r
              | some path ↦ elim d [
                | none ↦ r
                | some x ↦
                    if same path "" || same x ""
                    then r
                    else with_destination digest r path
                        (observed_url digest s.records r.base.repository_id path x)
              ]
            ])
            r
    known none d = (refl, refl, refl, refl)
    known (some path) none = (refl, refl, refl, refl)
    known (some path) (some x) = elim (Bool-cases (same path "" || same x "")) [
      | inl e ↦ rw e (refl, refl, refl, refl)
      | inr n ↦ rw n (
          intent_destination digest r path
            (observed_url digest s.records r.base.repository_id path x))
    ]

module _ (digest : String → String) (s : State) (config : Configuration) (answers : Answers)
    (now : ℕ) where
  pub intent_resolved : (r : Request) → SameIntent (resolved_request digest s config r) r
  unfolding with_environment
  intent_resolved r = intent_completed digest s (with_environment r (resolution_of config r))

  abbrev pub Holds : Request → List Check → Type 0
  Holds r ks = AllUpheld digest s config answers (cycle_of s) (context_of s now) r ks

  pub Holds-append :
      (r : Request) (ks ls : List Check) → Holds r (ks ++ ls) → Holds r ks × Holds r ls
  Holds-append r ks ls h =
      AllUpheld-append digest s config answers (cycle_of s) (context_of s now) r ks ls h

  pub Holds-given :
      (r : Request) (b : Bool) (ks : List Check) → b ≡ true → Holds r (given b ks) → Holds r ks
  Holds-given r true ks e h = h
  Holds-given r false ks e h = cc

  -- The action that the rules see.
  abbrev pub seen : Request → Request
  seen request = resolved_request digest s config request

  abbrev pub changes : Request → Bool
  changes r = not (class_in r ("read" ∷ "bookkeeping" ∷ []))

  pub seen-changes : (r : Request) → changes r ≡ true → changes (seen r) ≡ true
  seen-changes r h =
      ap (λ c. not (member ("read" ∷ "bookkeeping" ∷ []) c)) (intent_resolved r).0 ∙ h

  -- The rules of permission, and those of delivery.
  pub allowed_parts :
      (r : Request)
      → changes r ≡ true
      → IsAllowed (evaluate_policy digest s config answers now r)
      → Holds (seen r) (permission_rules digest s config answers now (seen r))
        × Holds (seen r) (delivery_rules digest s config answers now (seen r))
  allowed_parts r n h =
      let rules =
        (evaluate_policy_iff digest s config answers now r (ground (arith, seen-changes r n))).0
          h in
      let work = work_rules digest s config answers now (seen r) (resolution_of config r) in
      let permissions = permission_rules digest s config answers now (seen r) in
      let delivery = delivery_rules digest s config answers now (seen r) in
      let halves = Holds-append (seen r) (work ++ permissions) delivery rules in
      ((Holds-append (seen r) work permissions halves.0).1, halves.1)

  -- An override in force lifts the rule.
  abbrev pub Overridden : Request → String → Type 0
  Overridden r name =
      (e : Event) × (applicable_override digest s.records name r.base (context_of s now)
        ≡ ok (some e))

  abbrev pub Met : Request → Check → Type 0
  Met r k = Upheld digest s config answers (cycle_of s) (context_of s now) r k

  pub external_met : (r : Request) (k : Check) → k.external ≡ true → Met r k → k.met ≡ ok true
  external_met r k x (inl m) = m
  external_met r k x (inr (m, y, o)) = cc

  pub granted_or : (r : Request) (k : Check) → Met r k → (k.met ≡ ok true) ⊎ Overridden r k.name
  granted_or r k (inl m) = inl m
  granted_or r k (inr (m, y, o)) = inr o

  pub passed_or :
      (r : Request) (name : String) (b : Bool)
      → Met r (check name b)
      → (b ≡ true) ⊎ Overridden r name
  passed_or r name b (inl m) = inl (ground (arith, m))
  passed_or r name b (inr (m, y, o)) = inr o

  pub failed_or :
      (r : Request) (name : String) (b : Bool)
      → b ≡ false
      → Met r (check name b)
      → Overridden r name
  failed_or r name b e (inl m) = absurd (ground (arith, m))
  failed_or r name b e (inr (m, y, o)) = o
