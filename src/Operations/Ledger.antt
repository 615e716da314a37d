-- ===== src/Operations/Ledger.antt =====
-- What `recordOperation` of src/operations.mjs does to the status of an operation.
use ai_sdlc_framework.Operations.Lifecycle.{
  Moves, Reports, withdrawn, doubted, replied, final, Reports-Moves,
}
use mathlib.Core.Path.{subst}
use ai_sdlc_framework.Prelude.{
  Bool, true, false, ◌||◌, List, Option, ◌≡◌, arith, ◌&&◌, some, not, none, Bool-cases, sym, ap,
  ◌∙◌, refl, inl, inr, ◌⊎◌, if◌then◌else◌,
}
use ai_sdlc_framework.Result.{bind_ok, ok, require_ok, evidence}
use ai_sdlc_framework.Operations.Records.{
  OperationStatus, is_terminal, Operation, Report, Verified, Checked, prepared, dispatching,
  submitted, running, succeeded, failed, cancelled, uncertain, not_started,
}
use ai_sdlc_framework.Operations.Recording.{
  record_operation, weigh_report, is_recordable, settle_operation, next_status, checked_of,
  is_uncertain, with_proof, with_sequence, with_fields, claimed_status, is_not_started, is_prepared,
  placed_status, weighed_status, local_outcome, requires_proof, is_unproven, names_evidence,
  is_evaluated,
}

-- A terminal operation is never rewritten: a report that is taken leaves it as it is.
pub terminal_final :
    (reconcile : Bool) (others : List Operation) (r : Report)
    (observation : Option (Option Verified)) (o : Operation) {p : Operation}
    → is_terminal o.status ≡ true
    → record_operation reconcile others r observation o ≡ ok p
    → p ≡ o
unfolding record_operation
terminal_final reconcile others r observation o t h = ground (arith, h)

pub record_weighs :
    (reconcile : Bool) (others : List Operation) (r : Report)
    (observation : Option (Option Verified)) (o : Operation) {p : Operation}
    → is_terminal o.status ≡ false
    → record_operation reconcile others r observation o ≡ ok p
    → (is_uncertain o.status ≡ true → (is_uncertain r.status || reconcile) ≡ true)
      × (is_recordable r.status ≡ true)
      × (weigh_report others r observation o ≡ ok p)
unfolding record_operation
record_weighs reconcile others r observation o t h = ground (arith, h)

pub weigh_inversion :
    (others : List Operation) (r : Report) (observation : Option (Option Verified)) (o : Operation)
    {p : Operation}
    → weigh_report others r observation o ≡ ok p
    → (s : OperationStatus) × (next_status o r (checked_of o observation) ≡ ok s)
      × (settle_operation others r observation o s ≡ p)
unfolding weigh_report
weigh_inversion others r observation o h =
    let step = bind_ok (next_status o r (checked_of o observation)) _ h in
    (step.0, step.1, ground (arith, step.2))

pub status-settle :
    (others : List Operation) (r : Report) (observation : Option (Option Verified)) (o : Operation)
    (s : OperationStatus)
    → (settle_operation others r observation o s).status ≡ s
unfolding settle_operation with_proof with_sequence with_fields
status-settle others r observation o s = ground arith

-- What `validateOperationResult` returns: an outcome, and that nothing was started only where nothing
-- was dispatched.
abbrev pub is_sound : Operation → Option Checked → Bool
is_sound o none = true
is_sound o (some c) =
    is_uncertain c.status
    || (is_terminal c.status && (not (is_not_started c.status) || is_prepared o.status))

claimed_sound :
    (o : Operation) (r : Report) (checked : Option Checked) {s : OperationStatus}
    → is_sound o checked ≡ true
    → is_recordable r.status ≡ true
    → claimed_status o r checked ≡ ok s
    → (is_recordable s && (not (is_not_started s) || is_prepared o.status)) ≡ true
unfolding claimed_status
claimed_sound o r none sound recordable h = ground arith
claimed_sound o r (some c) sound recordable h = ground arith

placed_sound :
    (o : Operation) (r : Report) (claimed : OperationStatus) {s : OperationStatus}
    → (is_recordable claimed && (not (is_not_started claimed) || is_prepared o.status)) ≡ true
    → placed_status o r claimed ≡ ok s
    → ((is_recordable s && (not (is_not_started s) || is_prepared o.status)) ≡ true)
      × ((not (is_prepared o.status) || is_not_started s || is_uncertain s) ≡ true)
unfolding placed_status
placed_sound o r claimed sound h = ground arith

if_uncertain :
    (b : Bool) (placed : OperationStatus) {s : OperationStatus}
    → ok (if b then uncertain else placed) ≡ ok s
    → (placed ≡ s) ⊎ (uncertain ≡ s)
if_uncertain b placed h = ground arith

outcome_or_uncertain :
    (o : Operation) (r : Report) (placed : OperationStatus) {s : OperationStatus}
    → local_outcome o r placed ≡ ok s
    → (placed ≡ s) ⊎ (uncertain ≡ s)
unfolding local_outcome
outcome_or_uncertain o r placed h =
    if_uncertain (is_unproven o r) placed
      (require_ok (is_evaluated o r) evidence _ (require_ok (names_evidence o r) evidence _ h).1).1

weighed_or_uncertain :
    (o : Operation) (r : Report) (placed : OperationStatus) {s : OperationStatus}
    → weighed_status o r placed ≡ ok s
    → (placed ≡ s) ⊎ (uncertain ≡ s)
unfolding weighed_status
weighed_or_uncertain o r placed h =
    elim (Bool-cases
      (not (requires_proof o) && is_terminal placed && not (is_not_started placed))) [
        | inl y ↦ outcome_or_uncertain o r placed (rw y at h)
        | inr n ↦ inl (ground (arith, rw n at h))
      ]

weighed_sound :
    (o : Operation) (r : Report) (placed : OperationStatus) {s : OperationStatus}
    → ((is_recordable placed && (not (is_not_started placed) || is_prepared o.status)) ≡ true)
      × ((not (is_prepared o.status) || is_not_started placed || is_uncertain placed) ≡ true)
    → weighed_status o r placed ≡ ok s
    → ((is_recordable s && (not (is_not_started s) || is_prepared o.status)) ≡ true)
      × ((not (is_prepared o.status) || is_not_started s || is_uncertain s) ≡ true)
weighed_sound o r placed sound h = elim (weighed_or_uncertain o r placed h) [
  | inl kept ↦ rw (sym kept) sound
  | inr left ↦ rw (sym left) ground arith
]

next_sound :
    (o : Operation) (r : Report) (checked : Option Checked) {s : OperationStatus}
    → is_sound o checked ≡ true
    → is_recordable r.status ≡ true
    → next_status o r checked ≡ ok s
    → ((is_recordable s && (not (is_not_started s) || is_prepared o.status)) ≡ true)
      × ((not (is_prepared o.status) || is_not_started s || is_uncertain s) ≡ true)
unfolding next_status
next_sound o r checked sound recordable h =
    let claimed = bind_ok (claimed_status o r checked) _ h in
    let placed = bind_ok (placed_status o r claimed.0) _ claimed.2 in
    weighed_sound o r placed.0
      (placed_sound o r claimed.0 (claimed_sound o r checked sound recordable claimed.1) placed.1)
      placed.2

sound_Reports :
    (s t : OperationStatus)
    → is_terminal s ≡ false
    → ((is_recordable t && (not (is_not_started t) || is_prepared s)) ≡ true)
      × ((not (is_prepared s) || is_not_started t || is_uncertain t) ≡ true)
    → Reports s t
sound_Reports prepared prepared a h = ground (arith, h)
sound_Reports prepared dispatching a h = ground (arith, h)
sound_Reports prepared submitted a h = ground (arith, h)
sound_Reports prepared running a h = ground (arith, h)
sound_Reports prepared succeeded a h = ground (arith, h)
sound_Reports prepared failed a h = ground (arith, h)
sound_Reports prepared cancelled a h = ground (arith, h)
sound_Reports prepared uncertain a h = doubted
sound_Reports prepared not_started a h = withdrawn
sound_Reports dispatching t a h = replied refl (ground (arith, h))
sound_Reports submitted t a h = replied refl (ground (arith, h))
sound_Reports running t a h = replied refl (ground (arith, h))
sound_Reports uncertain t a h = replied refl (ground (arith, h))
sound_Reports succeeded t a h = cc
sound_Reports failed t a h = cc
sound_Reports cancelled t a h = cc
sound_Reports not_started t a h = cc

pub record-Reports :
    (reconcile : Bool) (others : List Operation) (r : Report)
    (observation : Option (Option Verified)) (o : Operation) {p : Operation}
    → is_sound o (checked_of o observation) ≡ true
    → record_operation reconcile others r observation o ≡ ok p
    → Reports o.status p.status
record-Reports reconcile others r observation o {p} sound h =
    elim (Bool-cases (is_terminal o.status)) [
      | inl t ↦
          rw (ap (λ q. q.status) (terminal_final reconcile others r observation o t h)) (final t)
      | inr u ↦
          let weighed = record_weighs reconcile others r observation o u h in
          let step = weigh_inversion others r observation o weighed.2 in
          let moved =
            sound_Reports o.status step.0 u
              (next_sound o r (checked_of o observation) sound weighed.1 step.1) in
          subst (Reports o.status)
            (sym (status-settle others r observation o step.0) ∙ ap (λ q. q.status) step.2) moved
    ]

-- So a report moves an operation along its lifecycle.
pub record-Moves :
    (reconcile : Bool) (others : List Operation) (r : Report)
    (observation : Option (Option Verified)) (o : Operation) {p : Operation}
    → is_sound o (checked_of o observation) ≡ true
    → record_operation reconcile others r observation o ≡ ok p
    → Moves o.status p.status
record-Moves reconcile others r observation o sound h =
    Reports-Moves (record-Reports reconcile others r observation o sound h)
