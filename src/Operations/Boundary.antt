-- ===== src/Operations/Boundary.antt =====
-- `dispatchOperationInTransaction` of src/operations.mjs, and `repairDeploymentProjection`. The verdicts
-- of the checks before the claim are an argument. The order of a set of environments is left out, and so
-- are the sources and the reset of a test operation, the comparison of the candidate's stamp with that
-- of the atomic claim, and the reservation of once-only decisions, which can fail.
use Prim.Native.Nat.{max}
use ai_sdlc_framework.Prelude.{
  ℕ, Bool, true, false, not, ◌&&◌, ◌||◌, List, [], ◌∷◌, Option, none, some, if◌then◌else◌, same,
  same_opt, is_defined, String, max_of, otherwise, lookup, assign, remove, filter, leb, ◌==◌,
}
use ai_sdlc_framework.Result.{
  Result, ok, stale, gate, uncertain as uncertain_code, require_that, ◌>>◌, binding, evidence,
  authority,
}
use ai_sdlc_framework.Operations.Records.{
  dispatching, succeeded, Operation, CycleState, Checked, prepared, OperationStatus,
}
use ai_sdlc_framework.Operations.Recording.{is_status}
use ai_sdlc_framework.Operations.Dispatch.{
  is_deploy, next_deployment_sequence, environment_sequences, environment_effects, include_all,
  is_some, reset_cycle_results,
}

-- `operation.status === 'prepared' || (operation.status === 'dispatching' && !operation.dispatchBound)`
abbrev pub may_dispatch : OperationStatus → Bool → Bool
may_dispatch s bound = elim s [ prepared ↦ true | dispatching ↦ not bound | _ ↦ false ]

abbrev pub can_dispatch : Operation → Bool
can_dispatch o = may_dispatch o.status o.dispatch_bound

-- What the transaction reads besides the operation and its cycle: the verdicts of the checks that stand
-- before the claim, the policy generation and the time.
pub record Dispatching : Type 0 where
  pub description_conflicts : Bool
  pub is_bound : Bool
  pub allowed : Bool
  pub outcome_verified : Bool
  pub retry_authorized : Bool
  pub generation : ℕ
  pub at : String
  pub atomic_claim : Bool

abbrev pub drop_artifact : Operation → CycleState → String → List (String × String)
drop_artifact o c environment =
    if is_deploy o && same_opt o.environment (some environment)
    then c.artifacts
    else remove c.artifacts environment

-- The sequence below which the deployments of an environment are invalidated, its artifact and its
-- deployment.
unfoldable pub close_environment : Operation → List Operation → CycleState → String → CycleState
close_environment o records c environment = record c {
  invalidation_sequences = assign c.invalidation_sequences environment (
      max (otherwise (lookup c.invalidation_sequences environment) 0)
        (max_of (environment_sequences c.id environment (some o.id) records)));
  artifacts = drop_artifact o c environment;
  deployments = remove c.deployments environment;
}

-- The boundary of one environment.
unfoldable pub invalidate :
    Dispatching → Operation → List Operation → CycleState → String → CycleState
unfolding close_environment
invalidate d o records c environment =
    reset_cycle_results (close_environment o records c environment) environment d.generation d.at

unfoldable pub invalidate_each :
    Dispatching → Operation → List Operation → CycleState → List String → CycleState
unfolding invalidate
invalidate_each d o records c [] = c
invalidate_each d o records c (e ∷ es) = invalidate_each d o records (invalidate d o records c e) es

-- `operation.deploymentSequence ??= …`, and the cycle's last one.
unfoldable pub number_deployment : List Operation → Operation → CycleState → Operation × CycleState
number_deployment records o c =
    if is_deploy o
    then (let n = otherwise o.deployment_sequence (next_deployment_sequence c records) in
        (
          record o { deployment_sequence = some n },
          record c {
            last_deployment_sequence = some (max (otherwise c.last_deployment_sequence 0) n);
          },
        ))
    else (o, c)

abbrev pub point_at : Operation → Option String → CycleState → CycleState
point_at o none c = c
point_at o (some e) c =
    if is_deploy o then record c { deployments = assign c.deployments e o.id } else c

-- `${environment.toLowerCase()}-running` for the environments of an action
abbrev pub environment_step : Option String → String
environment_step none = "local-running"
environment_step (some e) =
    if same e "DEV"
    then "dev-running"
    else if same e "STAGING"
    then "staging-running"
    else if same e "PROD"
    then "prod-running"
    else "local-running"

abbrev pub running_step : Operation → String
running_step o =
    if is_deploy o then environment_step o.environment else "environment-pipeline-running"

-- The cycle with the boundaries of all environments that the operation reaches.
unfoldable pub close_environments :
    Dispatching → List Operation → Operation → CycleState → CycleState
close_environments d records o c =
    let effects = environment_effects o in
    invalidate_each d o records
      (record c { invalidated_environments = include_all c.invalidated_environments effects })
      effects

-- The numbered operation, and its cycle with the operation as the deployment of its environment.
unfoldable pub open_boundary :
    Dispatching → List Operation → Operation → CycleState → Operation × CycleState
open_boundary d records o c =
    let numbered = number_deployment records o c in
    (
      numbered.0,
      record (point_at (numbered.0) o.environment
          (close_environments d records (numbered.0) (numbered.1))) {
            pending_plan_sync = true;
            step = running_step o;
          },
    )

-- The claimed operation, and the boundary where it reaches an environment of its own cycle.
unfoldable pub claim_operation :
    Dispatching → List Operation → Operation → CycleState → Operation × CycleState
claim_operation d records o c =
    if is_some (environment_effects o) && same_opt o.cycle_id (some c.id)
    then open_boundary d records o c
    else (o, c)

abbrev pub claimed_by : Dispatching → Operation → Operation
claimed_by d o = record o {
  status = dispatching;
  dispatch_bound = o.dispatch_bound || d.atomic_claim;
}

-- The checks and the claim.
unfoldable pub dispatch_operation :
    Dispatching → List Operation → Operation → CycleState → Result (Operation × CycleState)
unfolding open_boundary
dispatch_operation d records o c = do
  require_that (can_dispatch o) uncertain_code
  require_that (not d.description_conflicts) uncertain_code
  require_that d.is_bound binding
  require_that d.allowed gate
  require_that (not (is_defined o.cycle_id) || same_opt o.cycle_id (some c.id)) stale
  require_that (not o.external || d.outcome_verified) evidence
  require_that d.retry_authorized authority
  ok (claim_operation d records (claimed_by d o) c)

abbrev pub proves_success : Option Checked → Bool
proves_success none = false
proves_success (some p) = is_status p.status succeeded

-- Whether a deployment of the cycle has succeeded, and is the latest of its environment.
unfoldable pub is_latest : List Operation → Operation → CycleState → String → Bool
is_latest records o c e =
    is_deploy o
    && is_status o.status succeeded
    && proves_success o.result_proof
    && same_opt o.cycle_id (some c.id)
    && not c.is_pending
    && same_opt o.candidate_digest (some c.candidate_digest)
    && (otherwise o.deployment_sequence 0 == max_of (environment_sequences c.id e none records))

abbrev pub is_overtaken : Operation → CycleState → String → Bool
is_overtaken o c e =
    leb (otherwise o.deployment_sequence 0) (otherwise (lookup c.invalidation_sequences e) 0)

-- `repairDeploymentProjection` for an operation with an environment
unfoldable pub repair_projection : List Operation → Operation → CycleState → String → CycleState
repair_projection records o c e =
    if is_latest records o c e && not (is_overtaken o c e)
    then record c {
      deployments = assign c.deployments e o.id;
      invalidated_environments = filter (λ i. not (same i e)) c.invalidated_environments;
      invalidation_sequences = remove c.invalidation_sequences e;
      step = if same e "STAGING" then "awaiting-staging-result" else "dev-running";
    }
    else c
