-- ===== src/Scheduling/PoolTermination.antt =====
-- The outer loop of the ready pool ends, whatever the order and the outcomes of the executions.
use ai_sdlc_framework.Prelude.{
  ℕ, zero, suc, ◌+◌, ◌≤◌, ◌<◌, Bool, List, [], ◌∷◌, ◌++◌, Option, some, ◌≡◌, refl, ap, ◌∙◌, length,
  arith, Bool-cases, inl, inr, ◌⊎◌,
}
use ai_sdlc_framework.Result.{ok}
use ai_sdlc_framework.Scheduling.Pool.{
  Group, Limits, Pool, Turn, pick, drain, admission, admit, admit_group, is_closed, start_group,
  settle, open_pool, initial_pool, admission_order, delete,
}
use ai_sdlc_framework.Scheduling.PoolTotals.{
  total, same_id, count_done, IsIn, total-append, total-admission_order, length-total,
}
use ai_sdlc_framework.Scheduling.PoolInvariant.{
  Inv, IsUnique, IsPending, IsPending-admit_group, admission-Inv,
}
use ai_sdlc_framework.Scheduling.PoolSettle.{settle-Inv, length-settle}
use ai_sdlc_framework.Scheduling.PoolRuns.{
  Reach, here, next, admits, settles, Reach-open_pool, open-IsUnique, open_initial,
}

-- The groups that have not settled.
abbrev pub load : Pool → ℕ
load p = length p.pending + length p.running

length-delete :
    (i : ℕ) (gs : List Group) → 1 ≤ total (same_id i) gs → suc (length (delete i gs)) ≡ length gs
unfolding delete
length-delete i [] h = absurd (omega arith)
length-delete i (g ∷ gs) h = ground (arith, length-delete i gs)

load-admit_group :
    (l : Limits) (g : Group) (p : Pool)
    → 1 ≤ total (same_id g.id) p.pending
    → load (admit_group l p g) ≡ load p
unfolding admit_group start_group
load-admit_group l g p h = ground (
  arith,
  length-delete g.id p.pending h,
  length-total p.running,
  length-total (p.running ++ g ∷ []),
  total-append (λ x. 1) p.running (g ∷ []),
)

load-admit :
    (l : Limits) (aborted : Bool) (gs : List Group) (p : Pool)
    → IsPending gs p
    → load (admit l aborted gs p) ≡ load p
unfolding admit
load-admit l aborted [] p s = refl
load-admit l aborted (g ∷ gs) p s = elim (Bool-cases (is_closed l aborted p)) [
  | inl e ↦ rw (e, admit) refl
  | inr n ↦
      rw (n, admit)
        (load-admit l aborted gs (admit_group l p g) (IsPending-admit_group l g gs p s)
          ∙ load-admit_group l g p (ground (arith, s g.id)))
]

load-admission : (l : Limits) (aborted : Bool) (p : Pool) → load (admission l aborted p) ≡ load p
unfolding admission
load-admission l aborted p =
    load-admit l aborted (admission_order p.pending) p
      (λ i. omega (arith, total-admission_order (same_id i) p.pending))

pick-IsIn : (i : ℕ) (g : Group) (gs : List Group) → IsIn (pick i g gs) (g ∷ gs)
unfolding pick
pick-IsIn i g [] = inl refl
pick-IsIn zero g (h ∷ hs) = inl refl
pick-IsIn (suc i) g (h ∷ hs) = inr (pick-IsIn i h hs)

Reach-trans : (l : Limits) {p q r : Pool} → Reach l p q → Reach l q r → Reach l p r
Reach-trans l a here = a
Reach-trans l a (next b s) = next (Reach-trans l a b) s

abbrev Ends : Limits → Pool → Option Pool → Type 0
Ends l p o = (q : Pool) × (o ≡ some q) × (q.running ≡ []) × Reach l p q

List-cases : (gs : List Group) → (gs ≡ []) ⊎ ((h : Group) × (hs : List Group) × (gs ≡ h ∷ hs))
List-cases [] = inl refl
List-cases (h ∷ hs) = inr (h, hs, refl)

IsIn-running :
    (q : Pool) (g : Group) (gs : List Group) (i : ℕ)
    → q.running ≡ g ∷ gs
    → IsIn (pick i g gs) q.running
IsIn-running q g gs i e = rw e (pick-IsIn i g gs)

drain-Ends :
    (fuel : ℕ) (env : ℕ → Turn) (l : Limits) (groups : List Group) (p : Pool)
    → IsUnique groups
    → Inv l groups p
    → load p < fuel
    → Ends l p (drain fuel env l p)
unfolding drain
drain-Ends zero env l groups p u v h = absurd (omega arith)
drain-Ends (suc fuel) env l groups p u v h =
    let q = admission l (env fuel).aborted p in
    let w = admission-Inv l groups (env fuel).aborted p v in
    elim (List-cases q.running) [
      | inl e ↦ rw (e, drain) (q, refl, e, next here (admits (env fuel).aborted))
      | inr (g, gs, e) ↦
          let k = IsIn-running q g gs (env fuel).settles_first e in
          let t = settle q (pick (env fuel).settles_first g gs) (env fuel).outcome in
          let rest =
            drain-Ends fuel env l groups t u
              (settle-Inv l groups q (pick (env fuel).settles_first g gs) (env fuel).outcome w u k)
              (omega (
                arith,
                load-admission l (env fuel).aborted p,
                length-settle l groups q (pick (env fuel).settles_first g gs) (env fuel).outcome w u
                    k,
              )) in
          rw (e, drain)
            (
              rest.0,
              rest.1,
              rest.2,
              Reach-trans l
                  (next (next here (admits (env fuel).aborted))
                    (settles (pick (env fuel).settles_first g gs) (env fuel).outcome k))
                  rest.3,
            )
    ]

-- The outer loop ends within one turn more than there are groups, for every sequence of abort
-- signals, settlement orders and outcomes; then nothing runs, and each identity is completed or still
-- pending as often as it was given.
pub drain-open_pool :
    (groups : List Group) (l : Limits) {p : Pool} (env : ℕ → Turn)
    → open_pool groups l ≡ ok p
    → (q : Pool) × (drain (suc (length groups)) env l p ≡ some q)
      × (q.running ≡ [])
      × Reach l p q
      × ((i : ℕ)
          → total (same_id i) q.pending + count_done i q.completed ≡ total (same_id i) groups)
unfolding initial_pool
drain-open_pool groups l {p} env h =
    let ends =
      drain-Ends (suc (length groups)) env l groups p (open-IsUnique groups l h)
        (Reach-open_pool groups l h here) (ground (arith, open_initial groups l h)) in
    (
      ends.0,
      ends.1,
      ends.2,
      ends.3,
      λ i.
          omega
            (arith, (Reach-open_pool groups l h ends.3).accounted i, ap (total (same_id i)) ends.2),
    )
