-- ===== src/Scheduling/PoolInvariant.antt =====
-- The invariant of the ready pool, and that admission and settlement keep it.
use ai_sdlc_framework.Prelude.{
  ℕ, ◌+◌, ◌≤◌, Bool, true, false, List, [], ◌∷◌, ◌++◌, ◌≡◌, leb, ==_iff, every, any, includes,
  length, arith, every-append, Bool-cases, inl, inr,
}
use ai_sdlc_framework.Scheduling.Pool.{
  Group, Limits, Pool, has_passed, is_blocked, start_group, admit_group, admit, admission,
  admission_order, is_closed,
}
use ai_sdlc_framework.Scheduling.PoolTotals.{
  as_number, total, same_id, holds, slots, count_done, total-append, length-total, count-delete,
  every-delete, includes-add_all, total-admission_order,
}

abbrev pub is_ready : Pool → Group → Bool
is_ready p g = every (has_passed p.completed) g.depends_on

abbrev pub fits : Limits → Group → Bool
fits l g = leb g.minimum_slots l.capacity

-- What holds of the pool over `groups` between two turns of the event loop.
pub record Inv (l : Limits) (groups : List Group) (p : Pool) : Type 0 where
  pub slots_counted : p.allocated ≡ slots p.running
  pub within_capacity : p.allocated ≤ l.capacity
  pub within_concurrency : length p.running ≤ l.concurrency
  pub exclusive : (r : ℕ) → total (holds r) p.running ≤ 1
  pub held : (r : ℕ) → as_number (includes p.resources r) ≡ total (holds r) p.running
  pub accounted :
      (i : ℕ)
      → total (same_id i) p.pending + total (same_id i) p.running + count_done i p.completed
        ≡ total (same_id i) groups
  pub pending_fit : every (fits l) p.pending ≡ true
  pub running_ready : every (is_ready p) p.running ≡ true

abbrev pub IsUnique : List Group → Type 0
IsUnique groups = (i : ℕ) → total (same_id i) groups ≤ 1

any-includes :
    (xs rs : List ℕ) (r : ℕ)
    → any (includes xs) rs ≡ false
    → includes rs r ≡ true
    → includes xs r ≡ false
any-includes xs [] r h k = cc
any-includes xs (x ∷ rs) r h k = ground (arith, any-includes xs rs r, ==_iff x r)

module _ (l : Limits) (groups : List Group) (p : Pool) (g : Group) (v : Inv l groups p) where
  start_exclusive :
      is_blocked l p g ≡ false → (r : ℕ) → total (holds r) (start_group p g).running ≤ 1
  unfolding is_blocked start_group
  start_exclusive h r = ground (
    arith,
    total-append (holds r) p.running (g ∷ []),
    v.exclusive r,
    v.held r,
    any-includes p.resources g.exclusive_resources r,
  )

  start_held :
      is_blocked l p g ≡ false
      → (r : ℕ)
      → as_number (includes (start_group p g).resources r)
        ≡ total (holds r) (start_group p g).running
  unfolding is_blocked start_group
  start_held h r = rw (includes-add_all g.exclusive_resources p.resources r) (
      ground (
        arith,
        total-append (holds r) p.running (g ∷ []),
        v.held r,
        any-includes p.resources g.exclusive_resources r,
      ))

  start_accounted :
      1 ≤ total (same_id g.id) p.pending
      → (i : ℕ)
      → total (same_id i) (start_group p g).pending
          + total (same_id i) (start_group p g).running
          + count_done i (start_group p g).completed
        ≡ total (same_id i) groups
  unfolding start_group
  start_accounted k i = ground (
    arith,
    total-append (same_id i) p.running (g ∷ []),
    count-delete i g.id p.pending,
    v.accounted i,
    ==_iff g.id i,
  )

  pub start-Inv :
      is_blocked l p g ≡ false
      → length p.running + 1 ≤ l.concurrency
      → 1 ≤ total (same_id g.id) p.pending
      → Inv l groups (start_group p g)
  unfolding is_blocked start_group
  start-Inv h c k = record {
    slots_counted =
        ground (arith, total-append (λ x. x.minimum_slots) p.running (g ∷ []), v.slots_counted);
    within_capacity = ground arith;
    within_concurrency = omega (
      arith,
      length-total (p.running ++ g ∷ []),
      length-total p.running,
      total-append (λ x. 1) p.running (g ∷ []),
    );
    exclusive = start_exclusive h;
    held = start_held h;
    accounted = start_accounted k;
    pending_fit = every-delete (fits l) g.id p.pending v.pending_fit;
    running_ready = every-append (is_ready p) p.running (g ∷ []) v.running_ready (ground arith);
  }

-- The rest of the snapshot that the admission loop goes through is still pending.
abbrev pub IsPending : List Group → Pool → Type 0
IsPending gs p = (i : ℕ) → total (same_id i) gs ≤ total (same_id i) p.pending

pub IsPending-admit_group :
    (l : Limits) (g : Group) (gs : List Group) (p : Pool)
    → IsPending (g ∷ gs) p
    → IsPending gs (admit_group l p g)
unfolding admit_group start_group
IsPending-admit_group l g gs p s i = ground (arith, s i, count-delete i g.id p.pending)

admit_group-Inv :
    (l : Limits) (groups : List Group) (p : Pool) (g : Group)
    → Inv l groups p
    → length p.running + 1 ≤ l.concurrency
    → 1 ≤ total (same_id g.id) p.pending
    → Inv l groups (admit_group l p g)
unfolding admit_group
admit_group-Inv l groups p g v c k = elim (Bool-cases (is_blocked l p g)) [
  | inl e ↦ rw e v
  | inr n ↦ rw n (start-Inv l groups p g v n c k)
]

pub admit-Inv :
    (l : Limits) (groups : List Group) (aborted : Bool) (gs : List Group) (p : Pool)
    → Inv l groups p
    → IsPending gs p
    → Inv l groups (admit l aborted gs p)
unfolding admit
admit-Inv l groups aborted [] p v s = v
admit-Inv l groups aborted (g ∷ gs) p v s = elim (Bool-cases (is_closed l aborted p)) [
  | inl e ↦ rw (e, admit) v
  | inr n ↦
      rw (n, admit)
        (admit-Inv l groups aborted gs (admit_group l p g)
          (admit_group-Inv l groups p g v (ground arith) (ground (arith, s g.id)))
          (IsPending-admit_group l g gs p s))
]

pub admission-Inv :
    (l : Limits) (groups : List Group) (aborted : Bool) (p : Pool)
    → Inv l groups p
    → Inv l groups (admission l aborted p)
unfolding admission
admission-Inv l groups aborted p v =
    admit-Inv l groups aborted (admission_order p.pending) p v
      (λ i. omega (arith, total-admission_order (same_id i) p.pending))
