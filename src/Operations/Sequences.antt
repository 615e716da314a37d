-- ===== src/Operations/Sequences.antt =====
-- The sequences of deployments, and the environments that a dispatch reaches.
use ai_sdlc_framework.Prelude.{
  ℕ, true, ◌&&◌, List, [], ◌∷◌, some, same, same_iff, same_opt, member, String, max_of, otherwise,
  IsIn, ◌≤◌, ◌<◌, ◌≡◌, inl, inr, refl, sym, arith, Bool-cases, ◌++◌, ◌||◌, if◌then◌else◌,
  same_opt_eq, ap, Option, none,
}
use ai_sdlc_framework.Operations.Records.{Operation, CycleState}
use ai_sdlc_framework.Operations.Dispatch.{
  is_deploy, next_deployment_sequence, cycle_sequences, values, include, include_all, hosted,
  listed, is_some, environment_effects,
}

-- A deployment of the cycle that is recorded with a sequence.
abbrev IsNumbered : CycleState → List Operation → ℕ → Type 0
IsNumbered c records k =
    (q : Operation) × IsIn q records
    × (q.class ≡ "deploy")
    × (q.cycle_id ≡ some c.id)
    × (q.deployment_sequence ≡ some k)

-- Every sequence that the cycle has used or set as a limit is below a number.
abbrev pub AllBelow : CycleState → List Operation → ℕ → Type 0
AllBelow c records n =
    ((k : ℕ) → IsNumbered c records k → k < n)
    × ((k : ℕ) → c.last_deployment_sequence ≡ some k → k < n)
    × ((environment : String) (k : ℕ) → IsIn (environment, k) c.invalidation_sequences → k < n)

-- The least positive number above all of them.
abbrev pub IsFresh : CycleState → List Operation → ℕ → Type 0
IsFresh c records n =
    (1 ≤ n) × AllBelow c records n × ((m : ℕ) → 1 ≤ m → AllBelow c records m → n ≤ m)

counted :
    (c : CycleState) (q : Operation)
    → q.class ≡ "deploy"
    → q.cycle_id ≡ some c.id
    → (is_deploy q && same_opt q.cycle_id (some c.id)) ≡ true
counted c q d y = rw ((same_iff q.class "deploy").1 d, y, (same_iff c.id c.id).1 refl) refl

numbered_below :
    (c : CycleState) (records : List Operation) (k : ℕ)
    → IsNumbered c records k
    → k ≤ max_of (cycle_sequences c records)
unfolding cycle_sequences
numbered_below c [] k h = elim h.1 [ ]
numbered_below c (o ∷ os) k (q, inl found, d, y, s) =
    rw (sym found, counted c q d y, s) (omega arith)
numbered_below c (o ∷ os) k (q, inr later, d, y, s) =
    let rest = numbered_below c os k (q, later, d, y, s) in
    elim (Bool-cases (is_deploy o && same_opt o.cycle_id (some c.id))) [
      | inl t ↦ rw t (omega (arith, rest))
      | inr n ↦ rw n rest
    ]

value_below : (m : List (String × ℕ)) (e : String) (k : ℕ) → IsIn (e, k) m → k ≤ max_of (values m)
value_below [] e k h = elim h [ ]
value_below ((f, n) ∷ m) e k (inl found) = omega (arith, ap (λ (p : String × ℕ). p.1) found)
value_below ((f, n) ∷ m) e k (inr later) = omega (arith, value_below m e k later)

sequence_below : (s : Option ℕ) (n : ℕ) → 1 ≤ n → ((k : ℕ) → s ≡ some k → k < n) → otherwise s 0 < n
sequence_below none n p h = p
sequence_below (some k) n p h = h k refl

values_below :
    (m : List (String × ℕ)) (n : ℕ)
    → 1 ≤ n
    → ((e : String) (k : ℕ) → IsIn (e, k) m → k < n)
    → max_of (values m) < n
values_below [] n p h = omega arith
values_below ((f, k) ∷ m) n p h =
    let first = h f k (inl refl) in
    let rest = values_below m n p (λ e j i. h e j (inr i)) in omega (arith, first, rest)

sequences_below :
    (c : CycleState) (records : List Operation) (n : ℕ)
    → 1 ≤ n
    → ((k : ℕ) → IsNumbered c records k → k < n)
    → max_of (cycle_sequences c records) < n
unfolding cycle_sequences
sequences_below c [] n p h = omega arith
sequences_below c (o ∷ os) n p h =
    let rest = sequences_below c os n p (λ k i. h k (i.0, inr i.1, i.2, i.3, i.4)) in
    elim (Bool-cases (is_deploy o && same_opt o.cycle_id (some c.id))) [
      | inl t ↦
          let first = sequence_below o.deployment_sequence n p (λ k s. h k (
            o,
            inl refl,
            (same_iff o.class "deploy").0 (ground arith),
            same_opt_eq o.cycle_id (some c.id) (ground arith),
            s,
          )) in
          rw t (omega (arith, first, rest))
      | inr u ↦ rw u rest
    ]

-- The next deployment of a cycle gets the least positive sequence above those of all recorded
-- deployments of the cycle, above the cycle's last one, and above every invalidation of the cycle.
pub next-IsFresh :
    (c : CycleState) (records : List Operation)
    → IsFresh c records (next_deployment_sequence c records)
unfolding next_deployment_sequence
next-IsFresh c records = (
  omega arith,
  (
    λ k h. omega (arith, numbered_below c records k h),
    λ k h. rw h (omega arith),
    λ e k h. omega (arith, value_below c.invalidation_sequences e k h),
  ),
  λ m p h. omega (
    arith,
    sequences_below c records m p h.0,
    sequence_below c.last_deployment_sequence m p h.1,
    values_below c.invalidation_sequences m p h.2,
  ),
)

member-IsIn : (es : List String) (e : String) → IsIn e es → member es e ≡ true
member-IsIn [] e h = elim h [ ]
member-IsIn (f ∷ es) e (inl y) = rw ((same_iff f e).1 (sym y)) refl
member-IsIn (f ∷ es) e (inr later) = rw (member-IsIn es e later) (ground arith)

IsIn-member : (es : List String) (e : String) → member es e ≡ true → IsIn e es
IsIn-member [] e h = cc
IsIn-member (f ∷ es) e h = elim (Bool-cases (same f e)) [
  | inl y ↦ inl (sym ((same_iff f e).0 y))
  | inr n ↦ inr (IsIn-member es e (rw n at h))
]

IsIn-append_last : (es : List String) (e : String) → IsIn e (es ++ (e ∷ []))
IsIn-append_last [] e = inl refl
IsIn-append_last (f ∷ es) e = inr (IsIn-append_last es e)

IsIn-include : (es : List String) (e : String) → IsIn e (include es e)
IsIn-include es e = elim (Bool-cases (member es e)) [
  | inl y ↦ rw y (IsIn-member es e y)
  | inr n ↦ rw n (IsIn-append_last es e)
]

abbrev with_staging : List String → List String
with_staging direct = if member direct "DEV" then include direct "STAGING" else direct

staging_added :
    (direct : List String) → IsIn "DEV" (with_staging direct) → IsIn "STAGING" (with_staging direct)
staging_added direct h = elim (Bool-cases (member direct "DEV")) [
  | inl y ↦ rw y (IsIn-include direct "STAGING")
  | inr n ↦ cc (n, member-IsIn direct "DEV" (rw n at h))
]

-- An operation that reaches DEV reaches STAGING.
pub dev_reaches_staging :
    (o : Operation) → IsIn "DEV" (environment_effects o) → IsIn "STAGING" (environment_effects o)
unfolding environment_effects
dev_reaches_staging o h =
    elim (Bool-cases (is_deploy o || same o.class "pipeline" || is_some o.implicit_environments)) [
      | inl y ↦
          let direct =
            include_all [] (hosted (listed o.environment ++ o.stages ++ o.implicit_environments)) in
          rw y (staging_added direct (rw y at h))
      | inr n ↦ elim (rw n at h) [ ]
    ]
