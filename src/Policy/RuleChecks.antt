-- ===== src/Policy/RuleChecks.antt =====
-- The decision of `evaluatePolicy` is that of its rules: each is met, or lifted by an override.
use ai_sdlc_framework.Prelude.{
  ℕ, true, false, not, List, [], ◌∷◌, ◌++◌, Option, some, any, ◌≡◌, refl, ◌⊎◌, inl, inr, arith,
  String, ◌||◌, ◌↔◌,
}
use ai_sdlc_framework.Result.{Result, ok, fail, ◌>>=◌}
use ai_sdlc_framework.Authority.Records.{Context, Cycle, Event}
use ai_sdlc_framework.Authority.Scope.{applicable_override}
use ai_sdlc_framework.Policy.Request.{Answers, Configuration, Request, State}
use ai_sdlc_framework.Policy.Rules.{
  Check, Finding, Decision, apply_rule, apply_rules, class_in, is_violation,
}
use ai_sdlc_framework.Policy.Evaluate.{
  evaluate_policy, all_rules, resolved_request, resolution_of, cycle_of, context_of,
}

module _ (digest : String → String) (s : State) (config : Configuration) (answers : Answers)
    (cycle : Option Cycle) (c : Context) where
  -- The condition holds, or a decision in force lifts a rule that is not external.
  abbrev pub Upheld : Request → Check → Type 0
  Upheld r k =
      (k.met ≡ ok true)
      ⊎ ((k.met ≡ ok false)
          × (k.external ≡ false)
          × ((e : Event) × (applicable_override digest s.records k.name r.base c ≡ ok (some e))))

  abbrev pub AllUpheld : Request → List Check → Type 0
  AllUpheld r [] = Unit {0}
  AllUpheld r (k ∷ ks) = Upheld r k × AllUpheld r ks

  -- The findings exist, and none of them is a violation.
  abbrev pub IsClean : Result (List Finding) → Type 0
  IsClean (fail e) = ⊥
  IsClean (ok fs) = any is_violation fs ≡ false

  any_violation :
      (fs gs : List Finding)
      → any is_violation (fs ++ gs) ≡ (any is_violation fs || any is_violation gs)
  any_violation [] gs = refl
  any_violation (f ∷ fs) gs = ground (arith, any_violation fs gs)

  rule-Upheld :
      (r : Request) (k : Check)
      → IsClean (apply_rule digest s config answers cycle c r k)
      → Upheld r k
  unfolding apply_rule
  rule-Upheld r k h = ground arith

  Upheld-rule :
      (r : Request) (k : Check)
      → Upheld r k
      → IsClean (apply_rule digest s config answers cycle c r k)
  unfolding apply_rule
  Upheld-rule r k (inl m) = rw m refl
  Upheld-rule r k (inr (m, x, o)) = rw (m, x, o.1) refl

  abbrev both : Result (List Finding) → Result (List Finding) → Result (List Finding)
  both x y = do found ← x; more ← y; ok (found ++ more)

  both-IsClean : (x y : Result (List Finding)) → IsClean (both x y) ↔ (IsClean x × IsClean y)
  both-IsClean (fail e) y = (λ h. elim h [ ], λ h. h.0)
  both-IsClean (ok fs) (fail e) = (λ h. elim h [ ], λ h. h.1)
  both-IsClean (ok fs) (ok gs) = (
    λ h. (ground (arith, any_violation fs gs), ground (arith, any_violation fs gs)),
    λ h. ground (arith, any_violation fs gs),
  )

  pub rules-IsClean :
      (r : Request) (ks : List Check)
      → IsClean (apply_rules digest s config answers cycle c r ks) ↔ AllUpheld r ks
  unfolding apply_rules
  rules-IsClean r [] = (λ h. tt, λ h. refl)
  rules-IsClean r (k ∷ ks) =
      let one = apply_rule digest s config answers cycle c r k in
      let rest = apply_rules digest s config answers cycle c r ks in
      (
        λ h.
            let parts = (both-IsClean one rest).0 h in
            (rule-Upheld r k parts.0, (rules-IsClean r ks).0 parts.1),
        λ h. (both-IsClean one rest).1 (Upheld-rule r k h.0, (rules-IsClean r ks).1 h.1),
      )

  pub AllUpheld-append :
      (r : Request) (ks ls : List Check) → AllUpheld r (ks ++ ls) → AllUpheld r ks × AllUpheld r ls
  AllUpheld-append r [] ls h = (tt, h)
  AllUpheld-append r (k ∷ ks) ls h =
      let rest = AllUpheld-append r ks ls h.1 in ((h.0, rest.0), rest.1)

-- A decision that allows the action.
abbrev pub IsAllowed : Result Decision → Type 0
IsAllowed (fail e) = ⊥
IsAllowed (ok d) = d.allowed ≡ true

module _ (digest : String → String) (s : State) (config : Configuration) (answers : Answers)
    (now : ℕ) where
  decision-IsClean :
      (r : Request) (x : Result (List Finding))
      → IsAllowed (do
        findings ← x
        ok (record { allowed = not (any is_violation findings); findings = findings; request = r }))
        ↔ IsClean digest s config answers (cycle_of s) (context_of s now) x
  decision-IsClean r (fail e) = (λ h. h, λ h. h)
  decision-IsClean r (ok fs) = (λ h. ground arith, λ h. ground arith)

  -- `evaluatePolicy` allows an action that does not just read or keep the books exactly when each of
  -- its rules, in the state after the environment is resolved and the destination completed, is
  -- met, or is not external and is lifted by an override in force whose scope covers the action.
  pub evaluate_policy_iff :
      (request : Request)
      → class_in (resolved_request digest s config request) ("read" ∷ "bookkeeping" ∷ []) ≡ false
      → IsAllowed (evaluate_policy digest s config answers now request)
        ↔ AllUpheld digest s config answers
            (cycle_of s)
            (context_of s now)
            (resolved_request digest s config request)
            (all_rules digest s config answers now
              (resolved_request digest s config request)
              (resolution_of config request))
  unfolding evaluate_policy
  evaluate_policy_iff request n =
      let r = resolved_request digest s config request in
      let rules = all_rules digest s config answers now r (resolution_of config request) in
      let clean = rules-IsClean digest s config answers (cycle_of s) (context_of s now) r rules in
      let decided =
        decision-IsClean r
          (apply_rules digest s config answers (cycle_of s) (context_of s now) r rules) in
      rw n (λ h. clean.0 (decided.0 h), λ h. decided.1 (clean.1 h))
