-- ===== src/Results/Sound.antt =====
-- What `validateOperationResult` of src/external-results.mjs accepts.
use ai_sdlc_framework.Results.Founded.{IsFounded, status-IsFounded}
use ai_sdlc_framework.Result.{ok, fail, id_conflict, Result}
use ai_sdlc_framework.Operations.Lifecycle.{Moves, settled}
use mathlib.Core.Path.{subst}
use ai_sdlc_framework.Prelude.{
  Bool, true, false, not, List, Option, none, some, is_defined, String, ◌≡◌, ◌⊎◌, inl, inr, refl,
  sym, arith, Bool-cases, if◌then◌else◌, if_either, ap, ◌∙◌, same_iff,
}
use ai_sdlc_framework.Operations.Records.{is_terminal, Operation, Report, Verified}
use ai_sdlc_framework.Operations.Recording.{record_operation}
use ai_sdlc_framework.Operations.Ledger.{is_sound, record-Moves, terminal_final}
use ai_sdlc_framework.Results.Observed.{Dispatch}
use ai_sdlc_framework.Results.Records.{Intended, Observed, Findings, PriorResult, Validated}
use ai_sdlc_framework.Results.Validate.{
  unresolved_result, resolve_status, validate_operation_result, checked_result, is_replay,
  replay_result,
}

-- The earlier terminal result is of the same dispatch, outcome and observation.
abbrev pub IsSameReplay : Intended → Dispatch → Observed → Validated → Type 0
IsSameReplay i d o p =
    (p.dispatch_id ≡ d.id) × (p.intended_digest ≡ i.digest) × (p.result_digest ≡ o.digest)

replay_cases :
    (i : Intended) (d : Dispatch) (o : Observed) (p : Validated)
    → (IsSameReplay i d o p × (replay_result i d o p ≡ ok p))
      ⊎ (¬ IsSameReplay i d o p × (replay_result i d o p ≡ fail id_conflict))
unfolding replay_result
replay_cases i d o p = elim (Bool-cases (is_replay i d o p)) [
  | inl y ↦ inl (
    (
      (same_iff p.dispatch_id d.id).0 (ground arith),
      (same_iff p.intended_digest i.digest).0 (ground arith),
      (same_iff p.result_digest o.digest).0 (ground arith),
    ),
    rw y refl,
  )
  | inr n ↦ inr (
    λ h. differs (
        rw
          (
            (same_iff p.dispatch_id d.id).1 h.0,
            (same_iff p.intended_digest i.digest).1 h.1,
            (same_iff p.result_digest o.digest).1 h.2,
          )
          at n),
    rw n refl,
  )
]
  where
    differs : true ≡ false → ⊥
    differs e = cc e

supported :
    (b : Bool) (x : Result Validated) → b ≡ true → (if not b then ok unresolved_result else x) ≡ x
supported b x h = rw h refl

pub validated-IsFounded :
    (digest : String → String) (artifact_identity : Bool) (prior : List PriorResult)
    (previous : Option Validated) (i : Intended) (d : Dispatch) (o : Observed) (f : Findings)
    → (previous ≡ none
        → (v : Validated) × (validate_operation_result digest artifact_identity prior previous i d o
              f
            ≡ ok v)
          × IsFounded prior i d v)
      × ((p : Validated)
          → previous ≡ some p
          → ((f.is_supported ≡ false)
              × (validate_operation_result digest artifact_identity prior previous i d o f
                  ≡ ok unresolved_result))
            ⊎ ((IsSameReplay i d o p
                  × (validate_operation_result digest artifact_identity prior previous i d o f
                      ≡ ok p))
                ⊎ (¬ IsSameReplay i d o p
                    × (validate_operation_result digest artifact_identity prior previous i d o f
                        ≡ fail id_conflict))))
unfolding validate_operation_result
validated-IsFounded digest artifact_identity prior previous i d o f =
    elim (Bool-cases f.is_supported) [
      | inr n ↦ (λ e. (unresolved_result, rw n refl, inl refl), λ p e. inl (n, rw n refl))
      | inl y ↦ (
        λ e. (
          resolve_status digest artifact_identity prior i d o f o.status,
          rw e (
              supported f.is_supported
                (ok (resolve_status digest artifact_identity prior i d o f o.status)) y),
          status-IsFounded digest artifact_identity prior i d o f o.status,
        ),
        λ p e. inr (elim (replay_cases i d o p) [
          | inl kept ↦
              inl (kept.0, rw e (supported f.is_supported (replay_result i d o p) y ∙ kept.1))
          | inr refused ↦
              inr (refused.0, rw e (supported f.is_supported (replay_result i d o p) y ∙ refused.1))
        ]),
      )
    ]

-- A founded result is what the ledger relies on.
pub founded_sound :
    (prior : List PriorResult) (i : Intended) (d : Dispatch) (v : Validated) (o : Operation)
    → IsFounded prior i d v
    → d.status ≡ o.status
    → is_sound o (some (checked_result v)) ≡ true
founded_sound prior i d v o (inl u) same_status = rw u refl
founded_sound prior i d v o (inr (from, outcome, inl n)) same_status =
    rw (n.0, sym same_status, n.1) refl
founded_sound prior i d v o (inr (from, outcome, inr t)) same_status = rw (t.0, t.1) (ground arith)

-- A report with a validated observation moves an operation along its lifecycle, where the result is
-- the validated one for a dispatch that has the status of the operation, and an earlier terminal result
-- is there only if the operation is terminal.
pub validated_report-Moves :
    (digest : String → String) (artifact_identity : Bool) (prior : List PriorResult)
    (previous : Option Validated) (i : Intended) (d : Dispatch) (o : Observed) (f : Findings)
    (reconcile : Bool) (others : List Operation) (r : Report) (v : Verified) (operation : Operation)
    {result : Validated} {after : Operation}
    → d.status ≡ operation.status
    → (is_terminal operation.status ≡ false → previous ≡ none)
    → validate_operation_result digest artifact_identity prior previous i d o f ≡ ok result
    → v.checked ≡ checked_result result
    → record_operation reconcile others r (some (some v)) operation ≡ ok after
    → Moves operation.status after.status
validated_report-Moves digest artifact_identity prior previous i d o f reconcile others r v
      operation {result} same_status first validated from h =
    elim (Bool-cases (is_terminal operation.status)) [
      | inl t ↦
          let kept = terminal_final reconcile others r (some (some v)) operation t h in
          rw (ap (λ q. q.status) kept) (settled t)
      | inr u ↦
          let found =
            (validated-IsFounded digest artifact_identity prior previous i d o f).0 (first u) in
          let equal : found.0 ≡ result = same_value (sym found.1 ∙ validated) in
          let founded =
            founded_sound prior i d result operation (subst (IsFounded prior i d) equal found.2)
              same_status in
          let sound : is_sound operation (some v.checked) ≡ true =
            ap (λ c. is_sound operation (some c)) from ∙ founded in
          record-Moves reconcile others r (some (some v)) operation
            (if_either (is_defined operation.intended_outcome) (λ c. is_sound operation c ≡ true)
              sound refl)
            h
    ]
  where
    same_value : {x y : Validated} → ok x ≡ ok y → x ≡ y
    same_value e = cc e
