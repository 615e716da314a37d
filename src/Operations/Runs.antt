-- ===== src/Operations/Runs.antt =====
-- Dispatches and reports of src/operations.mjs in sequence.
use mathlib.Core.Path.{subst}
use ai_sdlc_framework.Prelude.{
  Bool, true, false, ◌&&◌, List, Option, some, if_either, same_opt, ◌≡◌, refl, sym, ap, ◌∙◌, arith,
  ◌≢◌,
}
use ai_sdlc_framework.Result.{ok}
use ai_sdlc_framework.Operations.Records.{
  OperationStatus, prepared, dispatching, submitted, running, succeeded, failed, cancelled,
  uncertain, not_started, Operation, CycleState, Report, Verified,
}
use ai_sdlc_framework.Operations.Recording.{record_operation, checked_of}
use ai_sdlc_framework.Operations.Dispatch.{is_deploy, environment_effects, is_some}
use ai_sdlc_framework.Operations.Boundary.{
  Dispatching, dispatch_operation, open_boundary, claim_operation, claimed_by, number_deployment,
  may_dispatch,
}
use ai_sdlc_framework.Operations.Lifecycle.{
  Moves, Reaches, here, onward, dispatched, redispatched, answered_stays, is_response,
}
use ai_sdlc_framework.Operations.Ledger.{is_sound, record-Moves}
use ai_sdlc_framework.Operations.Invalidation.{dispatch_inversion}

claimed_status_lem :
    (d : Dispatching) (records : List Operation) (o : Operation) (c : CycleState)
    → (claim_operation d records o c).0.status ≡ o.status
unfolding claim_operation open_boundary number_deployment
claimed_status_lem d records o c =
    if_either (is_some (environment_effects o) && same_opt o.cycle_id (some c.id))
      (λ (m : Operation × CycleState). m.0.status ≡ o.status)
      (if_either (is_deploy o) (λ (m : Operation × CycleState). m.0.status ≡ o.status) refl refl)
      refl

may_dispatch-Moves :
    (s : OperationStatus) (bound : Bool) → may_dispatch s bound ≡ true → Moves s dispatching
may_dispatch-Moves prepared bound h = dispatched
may_dispatch-Moves dispatching bound h = redispatched
may_dispatch-Moves submitted bound h = cc
may_dispatch-Moves running bound h = cc
may_dispatch-Moves succeeded bound h = cc
may_dispatch-Moves failed bound h = cc
may_dispatch-Moves cancelled bound h = cc
may_dispatch-Moves uncertain bound h = cc
may_dispatch-Moves not_started bound h = cc

response_closed :
    (s : OperationStatus) (bound : Bool) → is_response s ≡ true → may_dispatch s bound ≡ false
response_closed s bound h = ground arith

dispatch-Moves :
    (d : Dispatching) (records : List Operation) (o : Operation) (c : CycleState)
    {after : Operation × CycleState}
    → dispatch_operation d records o c ≡ ok after
    → Moves o.status after.0.status
dispatch-Moves d records o c h =
    let step = dispatch_inversion d records o c h in
    let status =
      sym (claimed_status_lem d records (claimed_by d o) c) ∙ ap (λ a. a.0.status) step.1 in
    subst (Moves o.status) status (may_dispatch-Moves o.status o.dispatch_bound step.0)

-- A dispatch or a report that is taken.
pub data Changes : Operation → Operation → Type 0 where
  claims :
      (d : Dispatching) (records : List Operation) (c : CycleState) {o : Operation}
      {after : Operation × CycleState}
      → dispatch_operation d records o c ≡ ok after
      → Changes o after.0
  reports :
      (reconcile : Bool) (others : List Operation) (r : Report)
      (observation : Option (Option Verified)) {o p : Operation}
      → is_sound o (checked_of o observation) ≡ true
      → record_operation reconcile others r observation o ≡ ok p
      → Changes o p

pub data Runs : Operation → Operation → Type 0 where
  stays : {o : Operation} → Runs o o
  then : {o p q : Operation} → Runs o p → Changes p q → Runs o q

change-Moves : {o p : Operation} → Changes o p → Moves o.status p.status
change-Moves (claims d records c {o = o} h) = dispatch-Moves d records o c h
change-Moves (reports reconcile others r observation {o = o} sound h) =
    record-Moves reconcile others r observation o sound h

-- Every sequence of dispatches and reports follows the lifecycle.
pub run-Reaches : {o p : Operation} → Runs o p → Reaches o.status p.status
run-Reaches stays = here
run-Reaches (then run change) = onward (run-Reaches run) (change-Moves change)

-- An operation that a provider has answered, or that is uncertain, is never dispatched again, after
-- any further dispatches and reports.
pub answered_undispatched :
    {o p : Operation} (d : Dispatching) (records : List Operation) (c : CycleState)
    {after : Operation × CycleState}
    → Runs o p
    → is_response o.status ≡ true
    → dispatch_operation d records p c ≢ ok after
answered_undispatched {o} {p} d records c run answer h =
    let shut =
      response_closed p.status p.dispatch_bound (answered_stays (run-Reaches run) answer) in
    cc (shut, (dispatch_inversion d records p c h).0)
