-- ===== src/Operations/Invalidation.antt =====
-- What the boundary of an environment does: no earlier deployment comes back.
use ai_sdlc_framework.Result.{ok}
use Prim.Native.Nat.{max}
use ai_sdlc_framework.Prelude.{
  ℕ, List, [], ◌∷◌, none, some, String, max_of, otherwise, lookup, filter, ◌≡◌, inl, inr, refl, ◌∙◌,
  Bool-cases, ◌≤◌, sym, arith, same, same_iff, IsIn, lookup-assign_self, lookup-assign_other,
  lookup-remove_self, lookup-remove_other, true, ◌&&◌, not, Option, same_opt, ap,
}
use ai_sdlc_framework.Operations.Records.{Operation, CycleState, CycleTest, Barrier}
use ai_sdlc_framework.Operations.Dispatch.{
  environment_sequences, reset_cycle_results, reset_each, restore_test_reset, at_checkpoint,
  holds_barrier, is_deploy,
}
use ai_sdlc_framework.Operations.Boundary.{
  Dispatching, invalidate, close_environment, invalidate_each, can_dispatch, claim_operation,
  dispatch_operation, claimed_by,
}

-- The fields that a reset of results leaves.
abbrev pub Keeps : CycleState → CycleState → Type 0
Keeps c c' =
    (c'.id ≡ c.id)
    × (c'.invalidation_sequences ≡ c.invalidation_sequences)
    × (c'.artifacts ≡ c.artifacts)
    × (c'.deployments ≡ c.deployments)

restore-Keeps : (c : CycleState) (t : String) (b : Barrier) → Keeps c (restore_test_reset c t b)
unfolding restore_test_reset
restore-Keeps c t b = elim (Bool-cases (holds_barrier (lookup c.barriers t) b)) [
  | inl y ↦ rw y (refl, refl, refl, refl)
  | inr n ↦ rw n (refl, refl, refl, refl)
]

each-Keeps : (c : CycleState) (ts : List CycleTest) (b : Barrier) → Keeps c (reset_each c ts b)
unfolding reset_each
each-Keeps c [] b = (refl, refl, refl, refl)
each-Keeps c (t ∷ ts) b =
    let first = restore-Keeps c t.id b in
    let rest = each-Keeps (restore_test_reset c t.id b) ts b in
    (rest.0 ∙ first.0, rest.1 ∙ first.1, rest.2 ∙ first.2, rest.3 ∙ first.3)

reset-Keeps :
    (c : CycleState) (e : String) (generation : ℕ) (at : String)
    → Keeps c (reset_cycle_results c e generation at)
unfolding reset_cycle_results
reset-Keeps c e generation at = each-Keeps c (filter (at_checkpoint e) c.tests) (record {
  sequence = c.last_evidence_sequence;
  event_sequence = generation;
  at = at;
  operation_id = none;
})

-- The last deployment to an environment that is invalidated.
abbrev pub floor : CycleState → String → ℕ
floor c e = otherwise (lookup c.invalidation_sequences e) 0

module _ (d : Dispatching) (o : Operation) (records : List Operation) where
  -- The last of the other deployments to an environment.
  abbrev pub earlier : CycleState → String → ℕ
  earlier c e = max_of (environment_sequences c.id e (some o.id) records)

  invalidate-Keeps :
      (c : CycleState) (e : String)
      → Keeps (close_environment o records c e) (invalidate d o records c e)
  unfolding invalidate
  invalidate-Keeps c e = reset-Keeps (close_environment o records c e) e d.generation d.at

  invalidate_id : (c : CycleState) (e : String) → (invalidate d o records c e).id ≡ c.id
  unfolding close_environment
  invalidate_id c e = (invalidate-Keeps c e).0

  floor_set :
      (c : CycleState) (e : String)
      → floor (invalidate d o records c e) e ≡ max (floor c e) (earlier c e)
  unfolding close_environment
  floor_set c e =
      rw
        (
          (invalidate-Keeps c e).1,
          lookup-assign_self c.invalidation_sequences e (max (floor c e) (earlier c e)),
        )
        refl

  floor_grows : (c : CycleState) (e f : String) → floor c f ≤ floor (invalidate d o records c e) f
  unfolding close_environment
  floor_grows c e f = elim (Bool-cases (same e f)) [
    | inl y ↦ rw (sym ((same_iff e f).0 y), floor_set c e) (omega arith)
    | inr n ↦
        rw
          (
            (invalidate-Keeps c e).1,
            lookup-assign_other c.invalidation_sequences e f (max (floor c e) (earlier c e)) n,
          )
          (omega arith)
  ]

  floors_grow :
      (c : CycleState) (es : List String) (f : String)
      → floor c f ≤ floor (invalidate_each d o records c es) f
  unfolding invalidate_each
  floors_grow c [] f = omega arith
  floors_grow c (e ∷ es) f =
      omega (arith, floor_grows c e f, floors_grow (invalidate d o records c e) es f)

  pub floors_reach :
      (c : CycleState) (es : List String) (f : String)
      → IsIn f es
      → earlier c f ≤ floor (invalidate_each d o records c es) f
  unfolding invalidate_each
  floors_reach c [] f h = elim h [ ]
  floors_reach c (e ∷ es) f (inl y) =
      let grown : floor (invalidate d o records c e) e
          ≤ floor (invalidate_each d o records (invalidate d o records c e) es) e =
        floors_grow (invalidate d o records c e) es e in
      rw y (omega (arith, floor_set c e, grown))
  floors_reach c (e ∷ es) f (inr later) =
      let rest = floors_reach (invalidate d o records c e) es f later in
      let moved : earlier (invalidate d o records c e) f ≡ earlier c f =
        ap (λ i. max_of (environment_sequences i f (some o.id) records)) (invalidate_id c e) in
      omega (arith, moved, rest)

  gone_stays :
      (c : CycleState) (e f : String)
      → lookup c.deployments f ≡ none
      → lookup (invalidate d o records c e).deployments f ≡ none
  unfolding close_environment
  gone_stays c e f h = elim (Bool-cases (same e f)) [
    | inl y ↦ rw ((invalidate-Keeps c e).3, (same_iff e f).0 y) (lookup-remove_self c.deployments f)
    | inr n ↦ rw ((invalidate-Keeps c e).3, lookup-remove_other c.deployments e f n) h
  ]

  all_stay :
      (c : CycleState) (es : List String) (f : String)
      → lookup c.deployments f ≡ none
      → lookup (invalidate_each d o records c es).deployments f ≡ none
  unfolding invalidate_each
  all_stay c [] f h = h
  all_stay c (e ∷ es) f h = all_stay (invalidate d o records c e) es f (gone_stays c e f h)

  pub deployments_gone :
      (c : CycleState) (es : List String) (f : String)
      → IsIn f es
      → lookup (invalidate_each d o records c es).deployments f ≡ none
  unfolding invalidate_each close_environment
  deployments_gone c [] f h = elim h [ ]
  deployments_gone c (e ∷ es) f (inl y) =
      all_stay (invalidate d o records c e) es f
        (rw ((invalidate-Keeps c e).3, y) (lookup-remove_self c.deployments e))
  deployments_gone c (e ∷ es) f (inr later) =
      deployments_gone (invalidate d o records c e) es f later

-- A deployment counts in the sequences of its cycle and environment.
pub sequence_counts :
    (cycle e : String) (but : Option String) (records : List Operation) (q : Operation)
    → IsIn q records
    → (is_deploy q
        && same_opt q.cycle_id (some cycle)
        && same_opt q.environment (some e)
        && not (same_opt but (some q.id)))
      ≡ true
    → otherwise q.deployment_sequence 0 ≤ max_of (environment_sequences cycle e but records)
unfolding environment_sequences
sequence_counts cycle e but [] q h y = elim h [ ]
sequence_counts cycle e but (o ∷ os) q (inl found) y = rw (sym found, y) (omega arith)
sequence_counts cycle e but (o ∷ os) q (inr later) y =
    let rest = sequence_counts cycle e but os q later y in
    elim (Bool-cases (
      is_deploy o
      && same_opt o.cycle_id (some cycle)
      && same_opt o.environment (some e)
      && not (same_opt but (some o.id)))) [ inl t ↦ rw t (omega (arith, rest)) | inr n ↦ rw n rest ]

-- A dispatch that reaches an environment opens its boundary.
pub dispatch_inversion :
    (d : Dispatching) (records : List Operation) (o : Operation) (c : CycleState)
    {after : Operation × CycleState}
    → dispatch_operation d records o c ≡ ok after
    → (can_dispatch o ≡ true) × (claim_operation d records (claimed_by d o) c ≡ after)
unfolding dispatch_operation
dispatch_inversion d records o c h = ground (arith, h)
