-- ===== src/Scheduling/PoolRuns.antt =====
-- Every run of the ready pool: admission and settlement in any order that the event loop allows.
use ai_sdlc_framework.Prelude.{
  ℕ, ◌+◌, ◌≤◌, Bool, true, ◌&&◌, List, [], ◌∷◌, ◌≡◌, refl, leb, ltb, every, arith,
}
use ai_sdlc_framework.Result.{ok}
use ai_sdlc_framework.Scheduling.Pool.{
  Group, Outcome, Limits, Pool, admission, settle, open_pool, initial_pool, unique, ids,
}
use ai_sdlc_framework.Scheduling.PoolTotals.{total, same_id, IsIn, unique-count}
use ai_sdlc_framework.Scheduling.PoolInvariant.{Inv, IsUnique, fits, admission-Inv}
use ai_sdlc_framework.Scheduling.PoolSettle.{settle-Inv}

-- One turn: the outer loop admits groups, under any state of the abort signal, or a running group
-- settles with any outcome.
pub data Step (l : Limits) (p : Pool) : Pool → Type 0 where
  admits : (aborted : Bool) → Step l p (admission l aborted p)
  settles : (g : Group) (o : Outcome) → IsIn g p.running → Step l p (settle p g o)

pub data Reach (l : Limits) (p : Pool) : Pool → Type 0 where
  here : Reach l p p
  next : {q r : Pool} → Reach l p q → Step l q r → Reach l p r

total-zero : (i : ℕ) (gs : List Group) → total (same_id i) gs + 0 + 0 ≡ total (same_id i) gs
total-zero i gs = omega arith

initial-Inv :
    (l : Limits) (groups : List Group)
    → every (fits l) groups ≡ true
    → Inv l groups (initial_pool groups)
unfolding initial_pool
initial-Inv l groups h = record {
  slots_counted = refl;
  within_capacity = omega arith;
  within_concurrency = omega arith;
  exclusive = λ r. omega arith;
  held = λ r. refl;
  accounted = λ i. total-zero i groups;
  pending_fit = h;
  running_ready = refl;
}

fits_of_checked :
    (l : Limits) (groups : List Group)
    → every (λ g. ltb 0 g.minimum_slots && leb g.minimum_slots l.capacity) groups ≡ true
    → every (fits l) groups ≡ true
fits_of_checked l [] h = refl
fits_of_checked l (g ∷ gs) h = ground (arith, fits_of_checked l gs)

open_inversion :
    (groups : List Group) (l : Limits) {p : Pool}
    → open_pool groups l ≡ ok p
    → (p ≡ initial_pool groups)
      × (unique (ids groups) ≡ true)
      × (every (λ g. ltb 0 g.minimum_slots && leb g.minimum_slots l.capacity) groups ≡ true)
      × (1 ≤ l.concurrency)
unfolding open_pool
open_inversion groups l h = ground arith

Step-Inv :
    (l : Limits) (groups : List Group) {p q : Pool}
    → IsUnique groups
    → Inv l groups p
    → Step l p q
    → Inv l groups q
Step-Inv l groups {p} u v (admits aborted) = admission-Inv l groups aborted p v
Step-Inv l groups {p} u v (settles g o k) = settle-Inv l groups p g o v u k

pub Reach-Inv :
    (l : Limits) (groups : List Group) {p q : Pool}
    → IsUnique groups
    → Inv l groups p
    → Reach l p q
    → Inv l groups q
Reach-Inv l groups u v here = v
Reach-Inv l groups u v (next r s) = Step-Inv l groups u (Reach-Inv l groups u v r) s

-- In every state that the pool reaches from accepted groups, in any order of admissions and
-- settlements: the allocated slots are those of the running groups and at most the capacity, at most
-- `concurrency` groups run, no two running groups hold one exclusive resource, exactly the held
-- resources are reserved, every group is pending, running or completed exactly once, and every
-- dependency of a running group has passed.
pub Reach-open_pool :
    (groups : List Group) (l : Limits) {p q : Pool}
    → open_pool groups l ≡ ok p
    → Reach l p q
    → Inv l groups q
unfolding open_pool
Reach-open_pool groups l {p} h r =
    let facts = open_inversion groups l h in
    Reach-Inv l groups (unique-count groups facts.1)
      (rw facts.0 (initial-Inv l groups (fits_of_checked l groups facts.2))) r

pub open_concurrency :
    (groups : List Group) (l : Limits) {p : Pool} → open_pool groups l ≡ ok p → 1 ≤ l.concurrency
open_concurrency groups l h = (open_inversion groups l h).3

pub open_initial :
    (groups : List Group) (l : Limits) {p : Pool}
    → open_pool groups l ≡ ok p
    → p ≡ initial_pool groups
open_initial groups l h = (open_inversion groups l h).0

pub open-IsUnique :
    (groups : List Group) (l : Limits) {p : Pool} → open_pool groups l ≡ ok p → IsUnique groups
open-IsUnique groups l h = unique-count groups (open_inversion groups l h).1
