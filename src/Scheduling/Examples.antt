-- ===== src/Scheduling/Examples.antt =====
-- Examples for the worker budget and the ready pool of scripts/test-scheduling.mjs.
use ai_sdlc_framework.Prelude.{
  ℕ, ◌+◌, ◌≤◌, false, true, not, every, List, [], ◌∷◌, Option, some, none, ◌≡◌, refl, ◌⊎◌, ◌*◌,
  length, ◌<◌,
}
use Prim.Native.Nat.{min, max}
use ai_sdlc_framework.Scheduling.Workers.{
  allocate_validation_workers, resolve_validation_workers, Resolved, number, gibibyte, bump,
}
use ai_sdlc_framework.Scheduling.WorkersBounds.{declared, entry, sum_of, allocate_lem, resolve_lem}
use ai_sdlc_framework.Scheduling.Pool.{
  Group, Limits, Pool, Turn, returned, passed, open_pool, initial_pool, admission, drain,
}
use ai_sdlc_framework.Scheduling.PoolTotals.{total, same_id, count_done}
use ai_sdlc_framework.Scheduling.PoolInvariant.{Inv, is_ready}
use ai_sdlc_framework.Scheduling.PoolRuns.{Reach, here, next, admits, Reach-open_pool}
use ai_sdlc_framework.Scheduling.PoolProgress.{admission_stops}
use ai_sdlc_framework.Scheduling.PoolTermination.{drain-open_pool}

allocate_lem_example :
    (length {A = ℕ} (3 ∷ 2 ∷ 3 ∷ []) ≡ 3)
    × ((i : ℕ) → i < 3 → min 8 (declared (some 2 ∷ []) i) ≤ entry (3 ∷ 2 ∷ 3 ∷ []) i)
    × (sum_of 3 (entry (3 ∷ 2 ∷ 3 ∷ [])) ≡ max 8 (sum_of 3 (λ i. min 8 (declared (some 2 ∷ []) i))))
unfolding allocate_validation_workers bump
allocate_lem_example = allocate_lem 3 8 (some 2 ∷ []) refl

abbrev eight_workers : Resolved
eight_workers = record { workers = 8; capacity = 8; requested_workers = none; digest = 9 }

resolve_lem_example :
    (1 ≤ 8)
    × (8 ≤ 32)
    × (eight_workers.workers ≡ 8)
    × ((text : List ℕ) → none ≡ some text → eight_workers.capacity ≡ number text)
    × (Path (Option (List ℕ)) none none
        → (◌≡◌ {A = ℕ} 8 1) ⊎ ((8 ≤ 16) × (8 ≤ 8) × (8 * gibibyte ≤ 17179869184)))
unfolding resolve_validation_workers
resolve_lem_example = resolve_lem (λ p. p) 8 17179869184 none 9 {r = eight_workers} refl

-- The second group depends on the first.
abbrev two_groups : List Group
two_groups =
    record { id = 1; minimum_slots = 2; depends_on = []; exclusive_resources = 7 ∷ [] }
    ∷ record { id = 2; minimum_slots = 3; depends_on = 1 ∷ []; exclusive_resources = 7 ∷ [] }
    ∷ []

abbrev four_slots : Limits
four_slots = record { concurrency = 2; capacity = 4 }

Reach-open_pool_example :
    Inv four_slots two_groups (admission four_slots false (initial_pool two_groups))
unfolding open_pool
Reach-open_pool_example = Reach-open_pool two_groups four_slots refl (next here (admits false))

abbrev all_pass : ℕ → Turn
all_pass n = record { aborted = false; settles_first = 0; outcome = returned passed }

drain-open_pool_example :
    (q : Pool) × (drain 3 all_pass four_slots (initial_pool two_groups) ≡ some q)
    × (q.running ≡ [])
    × Reach four_slots (initial_pool two_groups) q
    × ((i : ℕ)
        → total (same_id i) q.pending + count_done i q.completed ≡ total (same_id i) two_groups)
unfolding open_pool
drain-open_pool_example = drain-open_pool two_groups four_slots all_pass refl

-- Two groups that wait for each other are accepted, and never start.
abbrev waiting_groups : List Group
waiting_groups =
    record { id = 1; minimum_slots = 1; depends_on = 2 ∷ []; exclusive_resources = [] }
    ∷ record { id = 2; minimum_slots = 1; depends_on = 1 ∷ []; exclusive_resources = [] }
    ∷ []

admission_stops_example :
    (admission four_slots false (initial_pool waiting_groups) ≡ initial_pool waiting_groups)
    × (every (λ g. not (is_ready (initial_pool waiting_groups) g)) waiting_groups ≡ true)
unfolding open_pool admission
admission_stops_example = admission_stops waiting_groups four_slots refl here refl refl
