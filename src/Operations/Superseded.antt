-- ===== src/Operations/Superseded.antt =====
-- What a dispatch supersedes: the deployments that its boundary reaches.
use ai_sdlc_framework.Result.{ok}
use mathlib.Core.Path.{subst}
use ai_sdlc_framework.Prelude.{
  false, ◌&&◌, List, Option, none, some, same_opt, String, max_of, lookup, IsIn, ◌≤◌, ◌≡◌, inl, inr,
  refl, sym, ap, ◌∙◌, arith, Bool-cases, lookup-assign_other, if_either, true, otherwise, leb, same,
  not, Bool, ◌∷◌, ℕ, [],
}
use ai_sdlc_framework.Operations.Records.{Operation, CycleState}
use ai_sdlc_framework.Operations.Dispatch.{
  is_deploy, environment_sequences, environment_effects, include_all, is_some,
}
use ai_sdlc_framework.Operations.Boundary.{
  Dispatching, open_boundary, number_deployment, point_at, close_environments, dispatch_operation,
  repair_projection, is_latest, is_overtaken, claim_operation, claimed_by,
}
use ai_sdlc_framework.Operations.Invalidation.{
  floor, floors_reach, deployments_gone, sequence_counts, dispatch_inversion,
}

-- What the numbering leaves.
abbrev Numbers : Operation → CycleState → Operation × CycleState → Type 0
Numbers o c m =
    (environment_effects m.0 ≡ environment_effects o)
    × (m.0.id ≡ o.id)
    × (m.1.id ≡ c.id)
    × (is_deploy m.0 ≡ is_deploy o)
    × (m.1.deployments ≡ c.deployments)

number-Numbers :
    (records : List Operation) (o : Operation) (c : CycleState)
    → Numbers o c (number_deployment records o c)
unfolding number_deployment environment_effects
number-Numbers records o c =
    if_either (is_deploy o) (Numbers o c) (refl, refl, refl, refl, refl)
      (refl, refl, refl, refl, refl)

pointed_floor :
    (o : Operation) (environment : Option String) (c : CycleState) (e : String)
    → floor (point_at o environment c) e ≡ floor c e
pointed_floor o none c e = refl
pointed_floor o (some f) c e = if_either (is_deploy o) (λ k. floor k e ≡ floor c e) refl refl

pointed_elsewhere :
    (o : Operation) (environment : Option String) (c : CycleState) (e : String)
    → (is_deploy o && same_opt environment (some e)) ≡ false
    → lookup (point_at o environment c).deployments e ≡ lookup c.deployments e
pointed_elsewhere o none c e h = refl
pointed_elsewhere o (some f) c e h = elim (Bool-cases (is_deploy o)) [
  | inl y ↦ rw y (lookup-assign_other c.deployments f e o.id (ground (arith, h, y)))
  | inr n ↦ rw n refl
]

closed_reach :
    (d : Dispatching) (records : List Operation) (o : Operation) (c : CycleState) (e : String)
    → IsIn e (environment_effects o)
    → (max_of (environment_sequences c.id e (some o.id) records)
        ≤ floor (close_environments d records o c) e)
      × (lookup (close_environments d records o c).deployments e ≡ none)
unfolding close_environments
closed_reach d records o c e h =
    let marked : CycleState = record c {
      invalidated_environments = include_all c.invalidated_environments (environment_effects o);
    } in
    (
      floors_reach d o records marked (environment_effects o) e h,
      deployments_gone d o records marked (environment_effects o) e h,
    )

opened_reach :
    (d : Dispatching) (records : List Operation) (o : Operation) (c : CycleState) (e : String)
    → IsIn e (environment_effects o)
    → (max_of (environment_sequences c.id e (some o.id) records)
        ≤ floor (open_boundary d records o c).1 e)
unfolding open_boundary
opened_reach d records o c e h =
    let m = number_deployment records o c in
    let kept = number-Numbers records o c in
    let closed = closed_reach d records m.0 m.1 e (subst (IsIn e) (sym kept.0) h) in
    let moved : environment_sequences m.1.id e (some m.0.id) records
        ≡ environment_sequences c.id e (some o.id) records =
      ap (λ i. environment_sequences i e (some m.0.id) records) kept.2
      ∙ ap (λ i. environment_sequences c.id e (some i) records) kept.1 in
    omega (
      arith,
      ap max_of moved,
      closed.0,
      pointed_floor m.0 o.environment (close_environments d records m.0 m.1) e,
    )

opened_elsewhere :
    (d : Dispatching) (records : List Operation) (o : Operation) (c : CycleState) (e : String)
    → IsIn e (environment_effects o)
    → (is_deploy o && same_opt o.environment (some e)) ≡ false
    → lookup (open_boundary d records o c).1.deployments e ≡ none
unfolding open_boundary
opened_elsewhere d records o c e h elsewhere =
    let m = number_deployment records o c in
    let kept = number-Numbers records o c in
    let closed = closed_reach d records m.0 m.1 e (subst (IsIn e) (sym kept.0) h) in
    pointed_elsewhere m.0 o.environment (close_environments d records m.0 m.1) e
      (ap (λ b. b && same_opt o.environment (some e)) kept.3 ∙ elsewhere)
    ∙ closed.1

le→leb : (a b : ℕ) → a ≤ b → leb a b ≡ true
le→leb a b h = ground arith

both_false : (a b : Bool) → b ≡ true → (a && not b) ≡ false
both_false a b h = ground arith

-- A deployment at or below the floor repairs nothing.
repair_below :
    (records : List Operation) (o : Operation) (c : CycleState) (e : String)
    → otherwise o.deployment_sequence 0 ≤ floor c e
    → repair_projection records o c e ≡ c
unfolding repair_projection
repair_below records o c e below =
    let skipped =
      both_false (is_latest records o c e) (is_overtaken o c e)
        (le→leb (otherwise o.deployment_sequence 0) (floor c e) below) in
    rw skipped refl

effects_some : (es : List String) (e : String) → IsIn e es → is_some es ≡ true
effects_some [] e h = elim h [ ]
effects_some (f ∷ es) e h = refl

effects_claimed :
    (d : Dispatching) (o : Operation) → environment_effects (claimed_by d o) ≡ environment_effects o
unfolding environment_effects
effects_claimed d o = refl

-- A dispatch that reaches an environment of its cycle opens the boundary.
pub dispatch_opens :
    (d : Dispatching) (records : List Operation) (o : Operation) (c : CycleState)
    {after : Operation × CycleState} (e : String)
    → dispatch_operation d records o c ≡ ok after
    → same_opt o.cycle_id (some c.id) ≡ true
    → IsIn e (environment_effects o)
    → open_boundary d records (claimed_by d o) c ≡ after
unfolding claim_operation
dispatch_opens d records o c e h own reached =
    let step = dispatch_inversion d records o c h in
    let effects : is_some (environment_effects (claimed_by d o)) ≡ true =
      ap is_some (effects_claimed d o) ∙ effects_some (environment_effects o) e reached in
    rw (effects, own) at step.1

-- After the dispatch of an operation of a cycle, no other deployment of the cycle that was known then
-- to an environment that the operation reaches is ever taken for the current one: a repair by such a
-- deployment, or by a later form of it with the same sequence, leaves the cycle as it is, whatever
-- the other records are.
pub superseded :
    (d : Dispatching) (records later : List Operation) (o q r : Operation) (c : CycleState)
    {after : Operation × CycleState} (e : String)
    → dispatch_operation d records o c ≡ ok after
    → same_opt o.cycle_id (some c.id) ≡ true
    → IsIn e (environment_effects o)
    → IsIn q records
    → (is_deploy q
        && same_opt q.cycle_id (some c.id)
        && same_opt q.environment (some e)
        && not (same o.id q.id))
      ≡ true
    → r.deployment_sequence ≡ q.deployment_sequence
    → repair_projection later r after.1 e ≡ after.1
superseded d records later o q r c {after} e h own reached known counts same_sequence =
    let opened = dispatch_opens d records o c e h own reached in
    let floor_above =
      opened_reach d records (claimed_by d o) c e
        (subst (IsIn e) (sym (effects_claimed d o)) reached) in
    let counted = sequence_counts c.id e (some o.id) records q known counts in
    let below : otherwise r.deployment_sequence 0 ≤ floor after.1 e = omega (
      arith,
      ap (λ s. otherwise s 0) same_sequence,
      counted,
      floor_above,
      ap (λ a. floor a.1 e) opened,
    ) in
    repair_below later r after.1 e below

-- After the dispatch of an operation of a cycle, no environment that the operation reaches has a
-- deployment, but for the one that the operation itself deploys to.
pub reached_cleared :
    (d : Dispatching) (records : List Operation) (o : Operation) (c : CycleState)
    {after : Operation × CycleState} (e : String)
    → dispatch_operation d records o c ≡ ok after
    → same_opt o.cycle_id (some c.id) ≡ true
    → IsIn e (environment_effects o)
    → (is_deploy o && same_opt o.environment (some e)) ≡ false
    → lookup (after.1).deployments e ≡ none
reached_cleared d records o c e h own reached elsewhere =
    let opened = dispatch_opens d records o c e h own reached in
    sym (ap (λ a. lookup (a.1).deployments e) opened)
    ∙ opened_elsewhere d records (claimed_by d o) c e
        (subst (IsIn e) (sym (effects_claimed d o)) reached) elsewhere
