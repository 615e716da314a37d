-- ===== src/Scheduling/PoolSettle.antt =====
-- A running group of the ready pool settles: its slots and resources come back, and its status is
-- recorded.
use ai_sdlc_framework.Prelude.{
  ℕ, ◌+◌, ◌≤◌, true, List, ◌≡◌, ap, ==_iff, includes, arith, suc, length,
}
use ai_sdlc_framework.Scheduling.Pool.{
  Group, Outcome, Limits, Pool, has_passed, set_completed, delete, settle, settled_status,
}
use ai_sdlc_framework.Scheduling.PoolTotals.{
  as_number, total, same_id, holds, count_done, IsIn, length-total, total-delete, every-delete,
  every_mono, includes-delete_all, has_passed-set_completed, count_done-set_completed,
  has_passed-count_done,
}
use ai_sdlc_framework.Scheduling.PoolInvariant.{Inv, IsUnique, is_ready}

module _ (l : Limits) (groups : List Group) (p : Pool) (g : Group) (o : Outcome)
    (v : Inv l groups p) (u : IsUnique groups) (k : IsIn g p.running) where
  running_once : total (same_id g.id) p.running ≤ 1
  running_once = omega (arith, v.accounted g.id, u g.id)

  settled : (m : Group → ℕ) → m g + total m (delete g.id p.running) ≡ total m p.running
  settled m = total-delete m g p.running k running_once

  not_completed : count_done g.id p.completed ≡ 0
  not_completed = ground (arith, settled (same_id g.id), v.accounted g.id, u g.id)

  keeps_passed :
      (d : ℕ)
      → has_passed p.completed d ≡ true
      → has_passed (set_completed p.completed g.id (settled_status o)) d ≡ true
  keeps_passed d h = ground (
    arith,
    has_passed-set_completed p.completed g.id d (settled_status o),
    has_passed-count_done p.completed d h,
    not_completed,
    ==_iff g.id d,
    ap (λ (i : ℕ). count_done i p.completed) {x = g.id} {y = d},
  )

  settle_held :
      (r : ℕ)
      → as_number (includes (settle p g o).resources r) ≡ total (holds r) (settle p g o).running
  unfolding settle
  settle_held r =
      rw (includes-delete_all g.exclusive_resources p.resources r)
        (ground (arith, settled (holds r), v.exclusive r, v.held r))

  settle_accounted :
      (i : ℕ)
      → total (same_id i) (settle p g o).pending
          + total (same_id i) (settle p g o).running
          + count_done i (settle p g o).completed
        ≡ total (same_id i) groups
  unfolding settle
  settle_accounted i = ground (
    arith,
    settled (same_id i),
    count_done-set_completed p.completed g.id i (settled_status o) not_completed,
    v.accounted i,
  )

  pub settle-Inv : Inv l groups (settle p g o)
  unfolding settle
  settle-Inv = record {
    slots_counted = ground (arith, settled (λ x. x.minimum_slots), v.slots_counted);
    within_capacity = omega (arith, v.within_capacity);
    within_concurrency = omega (
      arith,
      settled (λ x. 1),
      length-total p.running,
      length-total (delete g.id p.running),
      v.within_concurrency,
    );
    exclusive = λ r. omega (arith, settled (holds r), v.exclusive r);
    held = settle_held;
    accounted = settle_accounted;
    pending_fit = v.pending_fit;
    running_ready =
        every_mono (is_ready p) (is_ready (settle p g o)) (delete g.id p.running)
          (λ x h. every_mono (has_passed p.completed) _ x.depends_on keeps_passed h)
          (every-delete (is_ready p) g.id p.running v.running_ready);
  }

  pub length-settle : suc (length (settle p g o).running) ≡ length p.running
  unfolding settle
  length-settle =
      omega (arith, settled (λ x. 1), length-total p.running, length-total (delete g.id p.running))
