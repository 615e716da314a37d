-- ===== src/Operations/Proofs.antt =====
-- The proof that the outcome of an operation of src/operations.mjs rests on.
use ai_sdlc_framework.Prelude.{
  Bool, true, false, List, Option, ◌≡◌, arith, some, none, sym, ap, ◌∙◌, refl,
}
use ai_sdlc_framework.Result.{bind_ok, ok}
use ai_sdlc_framework.Operations.Records.{
  OperationStatus, is_terminal, Operation, Report, Verified, Checked,
}
use ai_sdlc_framework.Operations.Recording.{
  record_operation, settle_operation, next_status, checked_of, is_uncertain, with_proof,
  with_sequence, with_fields, claimed_status, placed_status, weighed_status, requires_proof,
}
use ai_sdlc_framework.Operations.Ledger.{record_weighs, weigh_inversion, status-settle}

terminal_known : (s : OperationStatus) → is_terminal s ≡ true → is_uncertain s ≡ false
terminal_known s h = ground arith

proof_settled :
    (others : List Operation) (r : Report) (observation : Option (Option Verified)) (o : Operation)
    (s : OperationStatus) (c : Checked)
    → is_terminal s ≡ true
    → checked_of o observation ≡ some c
    → is_uncertain c.status ≡ false
    → (settle_operation others r observation o s).result_proof ≡ some c
unfolding settle_operation with_proof with_sequence with_fields
proof_settled others r none o s c t h u = ground (arith, h)
proof_settled others r (some none) o s c t h u = ground (arith, h, u)
proof_settled others r (some (some v)) o s c t h u = ground (arith, h)

-- An operation whose outcome is decided elsewhere takes its outcome from the checked result.
claimed_checked :
    (o : Operation) (r : Report) (checked : Option Checked) {s : OperationStatus}
    → requires_proof o ≡ true
    → is_terminal s ≡ true
    → claimed_status o r checked ≡ ok s
    → (c : Checked) × (checked ≡ some c) × (c.status ≡ s)
unfolding claimed_status
claimed_checked o r none proof t h = ground (arith, h, proof, t)
claimed_checked o r (some c) proof t h = (c, refl, ground (arith, h, proof, t))

placed_kept :
    (o : Operation) (r : Report) (claimed : OperationStatus) {s : OperationStatus}
    → is_terminal s ≡ true
    → placed_status o r claimed ≡ ok s
    → claimed ≡ s
unfolding placed_status
placed_kept o r claimed t h = ground arith

weighed_kept :
    (o : Operation) (r : Report) (placed : OperationStatus) {s : OperationStatus}
    → requires_proof o ≡ true
    → weighed_status o r placed ≡ ok s
    → placed ≡ s
unfolding weighed_status
weighed_kept o r placed proof h = ground (arith, rw proof at h)

outcome_checked :
    (o : Operation) (r : Report) (checked : Option Checked) {s : OperationStatus}
    → requires_proof o ≡ true
    → is_terminal s ≡ true
    → next_status o r checked ≡ ok s
    → (c : Checked) × (checked ≡ some c) × (c.status ≡ s)
unfolding next_status
outcome_checked o r checked proof t h =
    let claimed = bind_ok (claimed_status o r checked) _ h in
    let placed = bind_ok (placed_status o r claimed.0) _ claimed.2 in
    let kept = weighed_kept o r placed.0 proof placed.2 in
    let same_status = placed_kept o r claimed.0 (rw kept t) placed.1 in
    let found = claimed_checked o r checked proof (rw same_status (rw kept t)) claimed.1 in
    (found.0, found.1, found.2 ∙ same_status ∙ kept)

-- An operation whose outcome is decided elsewhere, and that is not terminal, becomes terminal only by a
-- checked result of the observation that comes with the report: the operation takes its status, and
-- keeps the result as its proof.
pub outcome_proven :
    (reconcile : Bool) (others : List Operation) (r : Report)
    (observation : Option (Option Verified)) (o : Operation) {p : Operation}
    → requires_proof o ≡ true
    → is_terminal o.status ≡ false
    → record_operation reconcile others r observation o ≡ ok p
    → is_terminal p.status ≡ true
    → (c : Checked) × (checked_of o observation ≡ some c)
      × (p.status ≡ c.status)
      × (p.result_proof ≡ some c)
outcome_proven reconcile others r observation o {p} proof open_ h t =
    let weighed = record_weighs reconcile others r observation o open_ h in
    let step = weigh_inversion others r observation o weighed.2 in
    let became = sym (status-settle others r observation o step.0) ∙ ap (λ q. q.status) step.2 in
    let terminal : is_terminal step.0 ≡ true = rw became t in
    let found = outcome_checked o r (checked_of o observation) proof terminal step.1 in
    (
      found.0,
      found.1,
      sym became ∙ sym found.2,
      sym (ap (λ q. q.result_proof) step.2)
          ∙ proof_settled others r observation o step.0 found.0 terminal found.1
              (terminal_known found.0.status (rw found.2 terminal)),
    )
