-- ===== src/Operations/Reservations.antt =====
-- `reserveOnceAuthorities` of src/operations.mjs: the operation takes each once-only decision that
-- authorizes it. A reservation is kept under the digest of its event's identity, so that the
-- reservations are a map from events to operations. Which active events authorize is an argument; the
-- operation's own list of the events is left out.
use ai_sdlc_framework.Prelude.{
  Bool, true, ◌&&◌, List, [], ◌∷◌, Option, none, some, if◌then◌else◌, same, same_iff, lookup,
  assign, lookup-assign_self, lookup-assign_other, String, IsIn, ◌≡◌, inl, inr, sym, ap, ◌∙◌,
  Bool-cases,
}
use ai_sdlc_framework.Result.{Result, ok, authority, require_that, require_ok, ◌>>◌}
use ai_sdlc_framework.Authority.Records.{Event}
use ai_sdlc_framework.Authority.Scope.{is_once}

abbrev pub is_free : Option String → String → Bool
is_free none operation = true
is_free (some holder) operation = same holder operation

-- `reserveOnceAuthorities` for the active events
unfoldable pub reserve_once :
    (Event → Bool) → String → List Event → List (String × String) → Result (List (String × String))
reserve_once authorizes operation [] m = ok m
reserve_once authorizes operation (e ∷ es) m =
    let skipped = reserve_once authorizes operation es m in
    let reserved = reserve_once authorizes operation es (assign m e.id operation) in
    if is_once e.effect.lifetime && authorizes e
    then (require_that (is_free (lookup m e.id) operation) authority >> reserved)
    else skipped

holder_same :
    (found : Option String) (operation holder : String)
    → is_free found operation ≡ true
    → found ≡ some holder
    → operation ≡ holder
holder_same none operation holder h f = cc
holder_same (some held) operation holder h f =
    sym ((same_iff held operation).0 h) ∙ unwrap held holder f
  where
    unwrap : (x y : String) → some x ≡ some y → x ≡ y
    unwrap x y q = cc

assigned_kept :
    (m : List (String × String)) (event operation i holder : String)
    → is_free (lookup m event) operation ≡ true
    → lookup m i ≡ some holder
    → lookup (assign m event operation) i ≡ some holder
assigned_kept m event operation i holder free held = elim (Bool-cases (same event i)) [
  | inl y ↦
      let here = (same_iff event i).0 y in
      let owner = holder_same (lookup m event) operation holder free (ap (lookup m) here ∙ held) in
      ap (lookup (assign m event operation)) (sym here)
      ∙ lookup-assign_self m event operation
      ∙ ap some owner
  | inr n ↦ lookup-assign_other m event i operation n ∙ held
]

-- No reservation changes hands.
reserved_kept :
    (authorizes : Event → Bool) (operation : String) (es : List Event) (m : List (String × String))
    {after : List (String × String)} (i holder : String)
    → reserve_once authorizes operation es m ≡ ok after
    → lookup m i ≡ some holder
    → lookup after i ≡ some holder
unfolding reserve_once
reserved_kept authorizes operation [] m i holder h held = ap (λ n. lookup n i) (ok_same h) ∙ held
  where
    ok_same : {x y : List (String × String)} → ok x ≡ ok y → y ≡ x
    ok_same q = cc
reserved_kept authorizes operation (e ∷ es) m i holder h held =
    elim (Bool-cases (is_once e.effect.lifetime && authorizes e)) [
      | inl y ↦
          let taken =
            require_ok (is_free (lookup m e.id) operation) authority
              (reserve_once authorizes operation es (assign m e.id operation)) (rw y at h) in
          reserved_kept authorizes operation es (assign m e.id operation) i holder taken.1
            (assigned_kept m e.id operation i holder taken.0 held)
      | inr n ↦ reserved_kept authorizes operation es m i holder (rw n at h) held
    ]

reserved_held :
    (authorizes : Event → Bool) (operation : String) (es : List Event) (m : List (String × String))
    {after : List (String × String)} (e : Event)
    → reserve_once authorizes operation es m ≡ ok after
    → IsIn e es
    → (is_once e.effect.lifetime && authorizes e) ≡ true
    → lookup after e.id ≡ some operation
unfolding reserve_once
reserved_held authorizes operation [] m e k i y = elim i [ ]
reserved_held authorizes operation (f ∷ fs) m {after} e k (inl here) y =
    let taken =
      require_ok (is_free (lookup m f.id) operation) authority
        (reserve_once authorizes operation fs (assign m f.id operation))
        (rw (ap (λ (x : Event). is_once x.effect.lifetime && authorizes x) (sym here) ∙ y) at k) in
    ap (λ (x : Event). lookup after x.id) here
    ∙ reserved_kept authorizes operation fs (assign m f.id operation) f.id operation taken.1
        (lookup-assign_self m f.id operation)
reserved_held authorizes operation (f ∷ fs) m e k (inr later) y =
    elim (Bool-cases (is_once f.effect.lifetime && authorizes f)) [
      | inl t ↦
          let taken =
            require_ok (is_free (lookup m f.id) operation) authority
              (reserve_once authorizes operation fs (assign m f.id operation)) (rw t at k) in
          reserved_held authorizes operation fs (assign m f.id operation) e taken.1 later y
      | inr u ↦ reserved_held authorizes operation fs m e (rw u at k) later y
    ]

-- Where the reservation succeeds, the operation holds each active once-only decision that authorizes
-- it, and every decision that an operation held before is still held by that operation.
pub reserve_once_lem :
    (authorizes : Event → Bool) (operation : String) (es : List Event) (m : List (String × String))
    {after : List (String × String)}
    → reserve_once authorizes operation es m ≡ ok after
    → ((e : Event)
        → IsIn e es
        → (is_once e.effect.lifetime && authorizes e) ≡ true
        → lookup after e.id ≡ some operation)
      × ((i holder : String) → lookup m i ≡ some holder → lookup after i ≡ some holder)
reserve_once_lem authorizes operation es m h = (
  λ e i y. reserved_held authorizes operation es m e h i y,
  λ i holder k. reserved_kept authorizes operation es m i holder h k,
)
