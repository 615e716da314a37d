-- ===== src/Scheduling/PoolProgress.antt =====
-- The ready pool ends, and leaves only groups whose dependencies have not passed.
use ai_sdlc_framework.Prelude.{
  ℕ, ◌≤◌, Bool, true, false, not, List, [], ◌∷◌, ◌++◌, ◌≡◌, refl, sym, ap, ◌∙◌, every, any,
  includes, length, arith, Bool-cases, inl, inr,
}
use native.Mathlib.Nat.{le_trans}
use ai_sdlc_framework.Result.{ok}
use ai_sdlc_framework.Scheduling.Pool.{
  Group, Limits, Pool, admission, admit, admit_group, is_blocked, is_closed, start_group, open_pool,
  admission_order,
}
use ai_sdlc_framework.Scheduling.PoolTotals.{
  total, holds, slots, total-append, every-admission_order, length-total,
}
use ai_sdlc_framework.Scheduling.PoolInvariant.{Inv, is_ready, fits}
use ai_sdlc_framework.Scheduling.PoolRuns.{open_concurrency, Reach, Reach-open_pool}

any_none : (xs rs : List ℕ) → ((r : ℕ) → includes xs r ≡ false) → any (includes xs) rs ≡ false
any_none xs [] h = refl
any_none xs (r ∷ rs) h = rw (h r) (any_none xs rs h)

-- With nothing running, a group that fits is blocked only by its dependencies.
idle_blocked :
    (l : Limits) (groups : List Group) (p : Pool) (g : Group)
    → Inv l groups p
    → p.running ≡ []
    → fits l g ≡ true
    → is_blocked l p g ≡ not (is_ready p g)
unfolding is_blocked
idle_blocked l groups p g v e f = ground (
  arith,
  v.slots_counted,
  ap slots e,
  any_none p.resources g.exclusive_resources
      (λ r. ground (arith, v.held r, ap (total (holds r)) e)),
)

admit_group_grows :
    (l : Limits) (g : Group) (p : Pool) → length p.running ≤ length (admit_group l p g).running
unfolding admit_group start_group
admit_group_grows l g p = ground (
  arith,
  length-total p.running,
  length-total (p.running ++ g ∷ []),
  total-append (λ x. 1) p.running (g ∷ []),
)

running_grows :
    (l : Limits) (aborted : Bool) (gs : List Group) (p : Pool)
    → length p.running ≤ length (admit l aborted gs p).running
unfolding admit
running_grows l aborted [] p = omega arith
running_grows l aborted (g ∷ gs) p = elim (Bool-cases (is_closed l aborted p)) [
  | inl e ↦ rw (e, admit) (omega arith)
  | inr n ↦
      rw (n, admit)
        (le_trans (admit_group_grows l g p) (running_grows l aborted gs (admit_group l p g)))
]

start_runs : (p : Pool) (g : Group) → 1 ≤ length (start_group p g).running
unfolding start_group
start_runs p g =
    omega (arith, length-total (p.running ++ g ∷ []), total-append (λ x. 1) p.running (g ∷ []))

-- One round of the loop in an idle pool that is open: a ready group starts, any other is passed over.
module _ (l : Limits) (groups : List Group) (p : Pool) (g : Group) (gs : List Group)
    (v : Inv l groups p) (c : 1 ≤ l.concurrency) (f : p.failure ≡ false) (e : p.running ≡ [])
    (s : fits l g ≡ true) where
  idle_open : is_closed l false p ≡ false
  idle_open = ground (arith, ap (λ (x : List Group). length x) e)

  admit_ready : is_ready p g ≡ true → admit l false (g ∷ gs) p ≡ admit l false gs (start_group p g)
  unfolding admit admit_group
  admit_ready r = rw (idle_open, admit) (rw (idle_blocked l groups p g v e s, r) refl)

  admit_waiting : is_ready p g ≡ false → admit l false (g ∷ gs) p ≡ admit l false gs p
  unfolding admit admit_group
  admit_waiting r = rw (idle_open, admit) (rw (idle_blocked l groups p g v e s, r) refl)

  -- A ready group starts, so something runs when the loop ends.
  ready_runs : is_ready p g ≡ true → 1 ≤ length (admit l false (g ∷ gs) p).running
  ready_runs r =
      rw (admit_ready r) (le_trans (start_runs p g) (running_grows l false gs (start_group p g)))

-- An admission loop that leaves an idle, open pool idle has passed over groups only that wait for a
-- dependency, and has changed nothing.
admit_idle :
    (l : Limits) (groups : List Group) (gs : List Group) (p : Pool)
    → Inv l groups p
    → 1 ≤ l.concurrency
    → p.failure ≡ false
    → p.running ≡ []
    → every (fits l) gs ≡ true
    → length (admit l false gs p).running ≡ 0
    → (every (λ g. not (is_ready p g)) gs ≡ true) × (admit l false gs p ≡ p)
unfolding admit
admit_idle l groups [] p v c f e s h = (refl, refl)
admit_idle l groups (g ∷ gs) p v c f e s h = elim (Bool-cases (is_ready p g)) [
  | inl r ↦ absurd (omega (arith, ready_runs l groups p g gs v c f e (ground arith) r))
  | inr n ↦
      let same = admit_waiting l groups p g gs v c f e (ground arith) n in
      let rest =
        admit_idle l groups gs p v c f e (ground arith)
          (ap (λ (q : Pool). length q.running) (sym same) ∙ h) in
      (rw n rest.0, same ∙ rest.1)
]

length_nil : (gs : List Group) → length gs ≡ 0 → gs ≡ []
length_nil [] h = refl
length_nil (g ∷ gs) h = absurd (omega arith)

-- No deadlock: in every state that the pool reaches from accepted groups, if nothing has thrown, the
-- signal has not aborted, and an admission leaves nothing running, then each pending group has a
-- dependency that has not passed. Slots and exclusive resources alone never stop the pool.
pub admission_stops :
    (groups : List Group) (l : Limits) {p q : Pool}
    → open_pool groups l ≡ ok p
    → Reach l p q
    → q.failure ≡ false
    → (admission l false q).running ≡ []
    → (admission l false q ≡ q) × (every (λ g. not (is_ready q g)) q.pending ≡ true)
unfolding admission
admission_stops groups l {p} {q} h r f e =
    let v = Reach-open_pool groups l h r in
    let none_ran = ap (λ (x : List Group). length x) e in
    let idle =
      length_nil q.running
        (omega (arith, none_ran, running_grows l false (admission_order q.pending) q)) in
    let result =
      admit_idle l groups (admission_order q.pending) q v (open_concurrency groups l h) f idle
        (every-admission_order (fits l) q.pending ∙ v.pending_fit) none_ran in
    (result.1, sym (every-admission_order (λ g. not (is_ready q g)) q.pending) ∙ result.0)
