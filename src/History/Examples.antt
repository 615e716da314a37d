-- ===== src/History/Examples.antt =====
-- A history with an old failure, a new success and a new failure of another operation.
use ai_sdlc_framework.Prelude.{
  ◌≤◌, true, List, [], ◌∷◌, none, some, filter, max_of, ◌≡◌, refl, inl, inr,
}
use ai_sdlc_framework.Result.{ok}
use ai_sdlc_framework.History.Reduce.{
  TestObservation, test_passed, test_failed, rank, newest_group, reduce_test_history,
}
use ai_sdlc_framework.History.Newest.{candidates, at_time, times, newest_group_lem}
use ai_sdlc_framework.History.Worst.{IsProduced, reduction_worst}

abbrev old_failure : TestObservation
old_failure = record {
  id = "evidence-1";
  digest = "d1";
  status = test_failed;
  source_time = some 100;
  is_eligible = true;
  execution_producer_key = none;
  operation_id = some "test-1";
  event_id = none;
  direct_key = "k";
  sequence = 1;
  tie = 1 ∷ [];
}

abbrev new_failure : TestObservation
new_failure = record old_failure {
  id = "evidence-2";
  digest = "d2";
  source_time = some 200;
  operation_id = some "test-2";
  tie = 2 ∷ [];
}

abbrev new_success : TestObservation
new_success = record new_failure {
  id = "evidence-3";
  digest = "d3";
  status = test_passed;
  operation_id = some "test-3";
  tie = 3 ∷ [];
}

abbrev history : List TestObservation
history = old_failure ∷ new_failure ∷ new_success ∷ new_failure ∷ []

read_group : newest_group [] none [] history ≡ ok (new_failure ∷ new_success ∷ [])
unfolding newest_group
read_group = refl

newest_group_lem_example :
    (new_failure ∷ new_success ∷ [])
    ≡ filter (at_time (max_of (times (candidates [] history)))) (candidates [] history)
newest_group_lem_example = newest_group_lem history read_group

all-IsProduced : IsProduced (new_failure ∷ new_success ∷ [])
all-IsProduced e (inl h) = cc (h)
all-IsProduced e (inr (inl h)) = cc (h)
all-IsProduced e (inr (inr h)) = elim h [ ]

reduction_worst_example :
    (z : TestObservation) × (reduce_test_history history ≡ ok (some z)) × (2 ≤ rank z.status)
reduction_worst_example = reduction_worst history new_failure read_group all-IsProduced (inl refl)
