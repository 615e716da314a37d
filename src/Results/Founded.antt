-- ===== src/Results/Founded.antt =====
-- What a result of `validateOperationResult` of src/external-results.mjs is worth, without an earlier
-- terminal result.
use mathlib.Core.Path.{subst}
use ai_sdlc_framework.Prelude.{
  Bool, true, false, not, ◌&&◌, ◌||◌, List, Option, none, some, is_defined, any, String, ◌≡◌, ◌⊎◌,
  inl, inr, refl, sym, arith, Bool-cases, if◌then◌else◌,
}
use ai_sdlc_framework.Operations.Records.{OperationStatus, uncertain, not_started, is_terminal}
use ai_sdlc_framework.Operations.Recording.{is_not_started, is_prepared, is_uncertain, is_in_flight}
use ai_sdlc_framework.Results.Observed.{Dispatch, find_causal_key}
use ai_sdlc_framework.Results.Unused.{IsUnused, IsUnused-key}
use ai_sdlc_framework.Results.Records.{Intended, Observed, Findings, PriorResult, Validated}
use ai_sdlc_framework.Results.Validate.{
  unresolved_result, unless, accepted, belongs_to, weigh_result, resolve_result, resolve_status,
  never_dispatched, result_shown, conclude_result, provider_agrees, is_addressed, is_concluded,
  not_dispatched,
}

-- What holds of an uncertain result, and of the rest where the condition holds, holds of both.
unless_either :
    (P : Validated → Type 0) (b : Bool) (v : Validated)
    → P unresolved_result
    → (b ≡ true → P v)
    → P (unless b v)
unless_either P true v p q = q refl
unless_either P false v p q = p

-- What a result is worth: where it is not uncertain, it is of the dispatch and of the outcome. It says
-- that nothing was started only of a prepared dispatch; otherwise it is terminal with a causal key that
-- is not used.
abbrev pub IsFounded : List PriorResult → Intended → Dispatch → Validated → Type 0
IsFounded prior i d v =
    (v.status ≡ uncertain)
    ⊎ ((v.dispatch_id ≡ d.id)
        × (v.intended_digest ≡ i.digest)
        × (((v.status ≡ not_started) × (is_prepared d.status ≡ true))
            ⊎ ((is_terminal v.status ≡ true)
                × (is_not_started v.status ≡ false)
                × ((key : String) × (v.causal_key ≡ some key) × IsUnused prior i d key))))

refuted : (b : Bool) → not b ≡ true → b ≡ false
refuted b h = ground arith

left_part : (a b : Bool) → (a && b) ≡ true → a ≡ true
left_part a b h = ground arith

weigh-IsFounded :
    (artifact_identity : Bool) (prior : List PriorResult) (i : Intended) (d : Dispatch)
    (o : Observed) (f : Findings) (s : OperationStatus) (key : Option String)
    → is_terminal s ≡ true
    → is_not_started s ≡ false
    → is_defined key ≡ true
    → IsFounded prior i d (weigh_result artifact_identity prior i d o f s key)
unfolding weigh_result
weigh-IsFounded artifact_identity prior i d o f s none t n k = cc
weigh-IsFounded artifact_identity prior i d o f s (some name) t n k =
    let key = some name in
    unless_either (IsFounded prior i d) (result_shown artifact_identity i o f s)
      (unless (not (any (belongs_to d i key) prior)) (accepted i d o s key)) (inl refl)
      (λ a.
        unless_either (IsFounded prior i d) (not (any (belongs_to d i key) prior))
          (accepted i d o s key) (inl refl)
          (λ h. inr (
            refl,
            refl,
            inr (
              t,
              n,
              (
                name,
                refl,
                IsUnused-key prior i d name (refuted (any (belongs_to d i key) prior) h),
              ),
            ),
          )))

conclude-IsFounded :
    (digest : String → String) (artifact_identity : Bool) (prior : List PriorResult) (i : Intended)
    (d : Dispatch) (o : Observed) (f : Findings) (s : OperationStatus)
    → is_terminal s ≡ true
    → is_not_started s ≡ false
    → IsFounded prior i d (conclude_result digest artifact_identity prior i d o f s)
unfolding conclude_result
conclude-IsFounded digest artifact_identity prior i d o f s t n =
    let key = find_causal_key digest d o.provider_result_id o.causal_proof in
    unless_either (IsFounded prior i d) (provider_agrees o s)
      (unless (is_defined key) (weigh_result artifact_identity prior i d o f s key)) (inl refl)
      (λ a.
        unless_either (IsFounded prior i d) (is_defined key)
          (weigh_result artifact_identity prior i d o f s key) (inl refl)
          (λ k. weigh-IsFounded artifact_identity prior i d o f s key t n k))

never-prepared :
    (d : Dispatch) (o : Observed) → never_dispatched d o ≡ true → is_prepared d.status ≡ true
unfolding never_dispatched
never-prepared d o h = left_part (is_prepared d.status) _ h

terminal_here :
    (s : OperationStatus)
    → (is_terminal s || is_in_flight s || is_uncertain s) ≡ true
    → is_concluded s ≡ true
    → is_terminal s ≡ true
terminal_here s h k = ground (arith, h, k)

resolve-IsFounded :
    (digest : String → String) (artifact_identity : Bool) (prior : List PriorResult) (i : Intended)
    (d : Dispatch) (o : Observed) (f : Findings) (s : OperationStatus)
    → (is_terminal s || is_in_flight s || is_uncertain s) ≡ true
    → IsFounded prior i d (resolve_result digest artifact_identity prior i d o f s)
unfolding resolve_result
resolve-IsFounded digest artifact_identity prior i d o f s known =
    let quiet = unless (never_dispatched d o) (not_dispatched i d o) in
    let loud = unless (is_concluded s) (conclude_result digest artifact_identity prior i d o f s) in
    unless_either (IsFounded prior i d) (is_addressed i o f)
      (if is_not_started s then quiet else loud) (inl refl)
      (λ a. elim (Bool-cases (is_not_started s)) [
        | inl y ↦ subst (IsFounded prior i d) (sym (if_true (is_not_started s) quiet loud y)) (
            unless_either (IsFounded prior i d) (never_dispatched d o) (not_dispatched i d o)
              (inl refl) (λ h. inr (refl, refl, inl (refl, never-prepared d o h))))
        | inr n ↦ subst (IsFounded prior i d) (sym (if_false (is_not_started s) quiet loud n)) (
            unless_either (IsFounded prior i d) (is_concluded s)
              (conclude_result digest artifact_identity prior i d o f s) (inl refl)
              (λ c.
                conclude-IsFounded digest artifact_identity prior i d o f s
                  (terminal_here s known c) n))
      ])
  where
    if_true : (b : Bool) (x y : Validated) → b ≡ true → (if b then x else y) ≡ x
    if_true b x y h = rw h refl

    if_false : (b : Bool) (x y : Validated) → b ≡ false → (if b then x else y) ≡ y
    if_false b x y h = rw h refl

pub status-IsFounded :
    (digest : String → String) (artifact_identity : Bool) (prior : List PriorResult) (i : Intended)
    (d : Dispatch) (o : Observed) (f : Findings) (status : Option OperationStatus)
    → IsFounded prior i d (resolve_status digest artifact_identity prior i d o f status)
status-IsFounded digest artifact_identity prior i d o f none = inl refl
status-IsFounded digest artifact_identity prior i d o f (some s) =
    unless_either (IsFounded prior i d) (is_terminal s || is_in_flight s || is_uncertain s)
      (resolve_result digest artifact_identity prior i d o f s) (inl refl)
      (resolve-IsFounded digest artifact_identity prior i d o f s)
