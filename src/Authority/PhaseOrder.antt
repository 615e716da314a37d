-- ===== src/Authority/PhaseOrder.antt =====
-- The phase is authorised by the latest transition alone.
use ai_sdlc_framework.Prelude.{
  ◌≤◌, true, List, [], ◌∷◌, Option, none, some, ltb, same, any, ◌≡◌, refl, ◌⊎◌, inl, inr, arith,
  Bool-cases, ◌∙◌, String, Option-cases, IsIn,
}
use mathlib.Core.Path.{subst}
use native.Mathlib.Nat.{le_trans}
use ai_sdlc_framework.Result.{ok}
use ai_sdlc_framework.Authority.Records.{Event, Record, Context, Action, Phase}
use ai_sdlc_framework.Authority.Active.{events, active_events}
use ai_sdlc_framework.Authority.Permission.{
  higher, transitions, latest, latest_from, phase_authority, latest_authority, PhaseAuthority,
  is_requirements, in_scope,
}

higher_lem :
    (e g : Event)
    → (e.sequence ≤ (higher e g).sequence)
      × (g.sequence ≤ (higher e g).sequence)
      × ((higher e g ≡ e) ⊎ (higher e g ≡ g))
unfolding higher
higher_lem e g = elim (Bool-cases (ltb e.sequence g.sequence)) [
  | inl l ↦ rw l (ground arith, omega arith, inr refl)
  | inr n ↦ rw n (omega arith, ground arith, inl refl)
]

start_le : (e : Event) (es : List Event) → e.sequence ≤ (latest_from e es).sequence
unfolding latest_from
start_le e [] = omega arith
start_le e (g ∷ gs) = le_trans (higher_lem e g).0 (start_le (higher e g) gs)

member_le :
    (e : Event) (es : List Event) (f : Event) → IsIn f es → f.sequence ≤ (latest_from e es).sequence
unfolding latest_from
member_le e [] f k = elim k [ ]
member_le e (g ∷ gs) f (inl x) = rw x (le_trans (higher_lem e g).1 (start_le (higher e g) gs))
member_le e (g ∷ gs) f (inr k) = member_le (higher e g) gs f k

latest_from-IsIn :
    (e : Event) (es : List Event) → (latest_from e es ≡ e) ⊎ IsIn (latest_from e es) es
unfolding latest_from
latest_from-IsIn e [] = inl refl
latest_from-IsIn e (g ∷ gs) = widen (latest_from-IsIn (higher e g) gs) (higher_lem e g).2
  where
    widen :
        (latest_from (higher e g) gs ≡ higher e g) ⊎ IsIn (latest_from (higher e g) gs) gs
        → (higher e g ≡ e) ⊎ (higher e g ≡ g)
        → (latest_from (higher e g) gs ≡ e) ⊎ IsIn (latest_from (higher e g) gs) (g ∷ gs)
    widen (inl x) (inl y) = inl (x ∙ y)
    widen (inl x) (inr y) = inr (inl (x ∙ y))
    widen (inr k) y = inr (inr k)

-- `e` is recorded among the transitions, and none of them has a higher sequence.
abbrev pub IsLatest : Event → List Event → Type 0
IsLatest e es = IsIn e es × ((f : Event) → IsIn f es → f.sequence ≤ e.sequence)

latest-IsLatest : (es : List Event) (e : Event) → latest es ≡ some e → IsLatest e es
unfolding latest
latest-IsLatest [] e h = cc
latest-IsLatest (g ∷ gs) e h =
    subst (λ x. IsLatest x (g ∷ gs)) (some-path h) (latest_from-IsIn g gs, highest)
  where
    some-path : latest (g ∷ gs) ≡ some e → latest_from g gs ≡ e
    some-path k = cc k

    highest : (f : Event) → IsIn f (g ∷ gs) → f.sequence ≤ (latest_from g gs).sequence
    highest f (inl x) = rw x (start_le g gs)
    highest f (inr k) = member_le g gs f k

latest_authority_parts :
    (digest : String → String) (records : List Record) (e : Event) (a : Option Action) (c : Context)
    {r : PhaseAuthority}
    → latest_authority digest records e a c ≡ ok r
    → r.active ≡ true
    → (r.event_id ≡ some e.id)
      × (any (λ f. same f.id e.id) (active_events records c) ≡ true)
      × (in_scope digest records e a ≡ ok true)
unfolding latest_authority
latest_authority_parts digest records e a c h y = ground arith

no_latest : (es : List Event) → latest es ≡ none → es ≡ []
unfolding latest
no_latest [] n = refl
no_latest (e ∷ es) n = cc

-- Who may act in the phase: before any transition is recorded, anyone in the requirements phase; else
-- the latest recorded transition alone, while it is in force and its scope covers the action. Earlier
-- transitions never come back when the latest is revoked or runs out.
pub phase_authority-IsLatest :
    (digest : String → String) (records : List Record) (phase : Phase) (a : Option Action)
    (c : Context) {r : PhaseAuthority}
    → phase_authority digest records phase a c ≡ ok r
    → r.active ≡ true
    → ((transitions (events records) ≡ []) × (is_requirements phase ≡ true))
      ⊎ ((e : Event) × IsLatest e (transitions (events records))
          × (r.event_id ≡ some e.id)
          × (any (λ f. same f.id e.id) (active_events records c) ≡ true)
          × (in_scope digest records e a ≡ ok true))
unfolding phase_authority
phase_authority-IsLatest digest records phase a c {r} h y =
    elim (Option-cases (latest (transitions (events records)))) [
      | inl n ↦ inl (
        no_latest (transitions (events records)) n,
        requirements_only (rw (phase_authority, n) at h),
      )
      | inr (e, s) ↦
          let parts =
            latest_authority_parts digest records e a c (rw (phase_authority, s) at h) y in
          inr (e, latest-IsLatest (transitions (events records)) e s, parts.0, parts.1, parts.2)
    ]
  where
    requirements_only :
        ok (record { active = is_requirements phase; event_id = none }) ≡ ok r
        → is_requirements phase ≡ true
    requirements_only k = ground arith
