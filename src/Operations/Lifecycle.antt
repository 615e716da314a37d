-- ===== src/Operations/Lifecycle.antt =====
-- The lifecycle of an operation of src/operations.mjs, as a relation between statuses.
use ai_sdlc_framework.Prelude.{Bool, true, false, ◌≡◌, ◌⊎◌, inl, inr, refl, arith, ◌||◌}
use ai_sdlc_framework.Operations.Records.{
  OperationStatus, prepared, dispatching, submitted, running, uncertain, not_started, is_terminal,
}

-- Between the dispatch and the outcome.
abbrev pub is_open : OperationStatus → Bool
is_open s = elim s [
  | dispatching ↦ true
  | submitted ↦ true
  | running ↦ true
  | uncertain ↦ true
  | _ ↦ false
]

-- What the provider of a dispatched operation can report.
abbrev pub is_response : OperationStatus → Bool
is_response s = elim s [ prepared ↦ false | dispatching ↦ false | not_started ↦ false | _ ↦ true ]

pub data Moves : OperationStatus → OperationStatus → Type 0 where
  dispatched : Moves prepared dispatching
  abandoned : Moves prepared not_started
  lost : Moves prepared uncertain
  redispatched : Moves dispatching dispatching
  answered : {s t : OperationStatus} → is_open s ≡ true → is_response t ≡ true → Moves s t
  settled : {s : OperationStatus} → is_terminal s ≡ true → Moves s s

-- What a report can do to a status: it withdraws or doubts a prepared operation, answers an open one,
-- and leaves a settled one.
pub data Reports : OperationStatus → OperationStatus → Type 0 where
  withdrawn : Reports prepared not_started
  doubted : Reports prepared uncertain
  replied : {s t : OperationStatus} → is_open s ≡ true → is_response t ≡ true → Reports s t
  final : {s : OperationStatus} → is_terminal s ≡ true → Reports s s

pub Reports-Moves : {s t : OperationStatus} → Reports s t → Moves s t
Reports-Moves withdrawn = abandoned
Reports-Moves doubted = lost
Reports-Moves (replied a b) = answered a b
Reports-Moves (final a) = settled a

pub data Reaches : OperationStatus → OperationStatus → Type 0 where
  here : {s : OperationStatus} → Reaches s s
  onward : {s t u : OperationStatus} → Reaches s t → Moves t u → Reaches s u

pub move_cases :
    {s t : OperationStatus}
    → Moves s t
    → (((s ≡ prepared) × (t ≡ dispatching)) ⊎ ((s ≡ prepared) × (t ≡ not_started)))
      ⊎ ((((s ≡ prepared) × (t ≡ uncertain)) ⊎ ((s ≡ dispatching) × (t ≡ dispatching)))
          ⊎ (((is_open s ≡ true) × (is_response t ≡ true)) ⊎ ((is_terminal s ≡ true) × (s ≡ t))))
move_cases dispatched = inl (inl (refl, refl))
move_cases abandoned = inl (inr (refl, refl))
move_cases lost = inr (inl (inl (refl, refl)))
move_cases redispatched = inr (inl (inr (refl, refl)))
move_cases (answered a b) = inr (inr (inl (a, b)))
move_cases (settled a) = inr (inr (inr (a, refl)))

open_unsettled : (s : OperationStatus) → is_open s ≡ true → is_terminal s ≡ false
open_unsettled s h = ground arith

-- A settled status is final.
pub settled_final : {s t : OperationStatus} → Reaches s t → is_terminal s ≡ true → s ≡ t
settled_final here h = refl
settled_final (onward {t = u} r m) h =
    ground (arith, settled_final r h, move_cases m, open_unsettled u)

-- Once dispatched, an operation is never again prepared, and never found not to have started.
pub left_behind :
    {s t : OperationStatus}
    → Reaches s t
    → (is_open s || is_response s) ≡ true
    → (is_open t || is_response t) ≡ true
left_behind here h = h
left_behind (onward {t = u} {u = v} r m) h =
    let before = left_behind r h in ground (arith, before, move_cases m)

-- An answer is never taken back.
pub answered_stays :
    {s t : OperationStatus} → Reaches s t → is_response s ≡ true → is_response t ≡ true
answered_stays here h = h
answered_stays (onward {t = u} {u = v} r m) h =
    let before = answered_stays r h in ground (arith, before, move_cases m)
