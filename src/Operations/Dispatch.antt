-- ===== src/Operations/Dispatch.antt =====
-- `nextDeploymentSequence` and the environment effects of `dispatchOperationInTransaction` of
-- src/operations.mjs, with `resetCycleResults` and `restoreTestReset` of src/validation-evidence.mjs.
use Prim.Native.Nat.{max}
use ai_sdlc_framework.Prelude.{
  ℕ, suc, Bool, true, false, not, ◌&&◌, ◌||◌, List, [], ◌∷◌, ◌++◌, Option, none, some,
  if◌then◌else◌, same, same_opt, member, String, ◌==◌, max_of, otherwise, lookup, assign, remove,
  filter,
}
use ai_sdlc_framework.Operations.Records.{Operation, CycleState, CycleTest, Barrier}

abbrev pub is_deploy : Operation → Bool
is_deploy o = same o.class "deploy"

-- The sequences of the deployments of a cycle.
unfoldable pub cycle_sequences : CycleState → List Operation → List ℕ
cycle_sequences c [] = []
cycle_sequences c (o ∷ os) =
    let rest = cycle_sequences c os in
    if is_deploy o && same_opt o.cycle_id (some c.id)
    then otherwise o.deployment_sequence 0 ∷ rest
    else rest

-- `Object.values(…)`
abbrev pub values {ℓ} : {A : Type ℓ} → List (String × A) → List A
values [] = []
values ((i, a) ∷ m) = a ∷ values m

-- `nextDeploymentSequence`
unfoldable pub next_deployment_sequence : CycleState → List Operation → ℕ
next_deployment_sequence c os = suc (
    max (otherwise c.last_deployment_sequence 0)
      (max (max_of (cycle_sequences c os)) (max_of (values c.invalidation_sequences))))

-- The sequences of the deployments of a cycle to an environment, but for one operation.
unfoldable pub environment_sequences : String → String → Option String → List Operation → List ℕ
environment_sequences cycle environment but [] = []
environment_sequences cycle environment but (o ∷ os) =
    let rest = environment_sequences cycle environment but os in
    if is_deploy o
      && same_opt o.cycle_id (some cycle)
      && same_opt o.environment (some environment)
      && not (same_opt but (some o.id))
    then otherwise o.deployment_sequence 0 ∷ rest
    else rest

abbrev pub is_hosted : String → Bool
is_hosted e = same e "DEV" || same e "STAGING"

abbrev pub hosted : List String → List String
hosted es = filter is_hosted es

abbrev pub listed {ℓ} : {A : Type ℓ} → Option A → List A
listed none = []
listed (some a) = a ∷ []

-- `new Set([…])`, and adding to one
abbrev pub include : List String → String → List String
include es e = if member es e then es else es ++ (e ∷ [])

abbrev pub include_all : List String → List String → List String
include_all es [] = es
include_all es (f ∷ fs) = include_all (include es f) fs

abbrev pub is_some {ℓ} : {A : Type ℓ} → List A → Bool
is_some [] = false
is_some (a ∷ l) = true

-- `environmentEffects`: what reaches DEV reaches STAGING.
unfoldable pub environment_effects : Operation → List String
environment_effects o =
    if is_deploy o || same o.class "pipeline" || is_some o.implicit_environments
    then (let direct =
          include_all [] (hosted (listed o.environment ++ o.stages ++ o.implicit_environments)) in
        if member direct "DEV" then include direct "STAGING" else direct)
    else []

abbrev pub same_barrier : Barrier → Barrier → Bool
same_barrier a b =
    (a.sequence == b.sequence)
    && (a.event_sequence == b.event_sequence)
    && same a.at b.at
    && same_opt a.operation_id b.operation_id

abbrev pub holds_barrier : Option Barrier → Barrier → Bool
holds_barrier none b = false
holds_barrier (some a) b = same_barrier a b

-- `restoreTestReset`
unfoldable pub restore_test_reset : CycleState → String → Barrier → CycleState
restore_test_reset c test b = if holds_barrier (lookup c.barriers test) b then c else record c {
  results = remove c.results test;
  barriers = assign c.barriers test b;
  pending_plan_sync = true;
}

unfoldable pub reset_each : CycleState → List CycleTest → Barrier → CycleState
unfolding restore_test_reset
reset_each c [] b = c
reset_each c (t ∷ ts) b = reset_each (restore_test_reset c t.id b) ts b

-- `testCheckpoint(test) === environment`
abbrev pub at_checkpoint : String → CycleTest → Bool
at_checkpoint environment t = same t.checkpoint environment

-- `resetCycleResults` for the tests of a checkpoint
unfoldable pub reset_cycle_results : CycleState → String → ℕ → String → CycleState
unfolding reset_each
reset_cycle_results c environment generation at =
    let b : Barrier = record {
      sequence = c.last_evidence_sequence;
      event_sequence = generation;
      at = at;
      operation_id = none;
    } in
    record (reset_each c (filter (at_checkpoint environment) c.tests) b) {
      pending_plan_sync = true;
    }
