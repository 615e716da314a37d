-- ===== src/History/Reduce.antt =====
-- `reduceTestHistory` of src/validation-evidence.mjs. An observation has the values of the functions
-- that the caller gives: its source time, where it is a date, and whether it is eligible; and its
-- digest, and the canonical text by which ties are broken, which come from Node. Times are natural
-- numbers.
use Prim.Native.String.{◌++◌ as join}
use ai_sdlc_framework.Prelude.{
  ℕ, Bool, true, false, not, ◌&&◌, ◌||◌, List, [], ◌∷◌, ◌++◌, Option, none, some, if◌then◌else◌,
  same, truthy, lookup, assign, ltb, ◌==◌, String,
}
use ai_sdlc_framework.Result.{Result, ok, fail, id_conflict, evidence, require_that, ◌>>=◌, ◌>>◌}
use ai_sdlc_framework.Shell.Chars.{Text}

pub data TestStatus : Type 0 where
  test_passed test_not_run test_failed : TestStatus

-- `rank`
abbrev pub rank : TestStatus → ℕ
rank test_passed = 0
rank test_not_run = 1
rank test_failed = 2

pub record TestObservation : Type 0 where
  pub id : String
  pub digest : String
  pub status : TestStatus
  pub source_time : Option ℕ
  pub is_eligible : Bool
  pub execution_producer_key : Option String
  pub operation_id : Option String
  pub event_id : Option String
  pub direct_key : String
  pub sequence : ℕ
  pub tie : Text

-- `previous < next` of JavaScript strings
unfoldable pub text_below : Text → Text → Bool
text_below [] [] = false
text_below [] (d ∷ w) = true
text_below (c ∷ v) [] = false
text_below (c ∷ v) (d ∷ w) = ltb c d || (c == d && text_below v w)

-- One observation of the group of the newest time.
abbrev pub group_from : Option ℕ → List TestObservation → ℕ → TestObservation → List TestObservation
group_from none group t e = e ∷ []
group_from (some n) group t e =
    if ltb n t then e ∷ [] else if n == t then group ++ (e ∷ []) else group

abbrev pub newest_from : Option ℕ → ℕ → ℕ
newest_from none t = t
newest_from (some n) t = if ltb n t then t else n

abbrev pub agrees_with : Option String → TestObservation → Bool
agrees_with none e = true
agrees_with (some d) e = same d e.digest

abbrev pub is_known_id : Option String → Bool
is_known_id none = false
is_known_id (some d) = true

-- The first loop: the observations of the newest time, each identity once.
unfoldable pub newest_group :
    List (String × String)
    → Option ℕ
    → List TestObservation
    → List TestObservation
    → Result (List TestObservation)
newest_group ids newest group [] = ok group
newest_group ids newest group (e ∷ es) =
    let skipped = newest_group ids newest group es in
    let noted = newest_group (assign ids e.id e.digest) newest group es in
    let timed : Option ℕ → Result (List TestObservation) = λ time. elim time [
      | none ↦ fail evidence
      | some t ↦
          newest_group (assign ids e.id e.digest) (some (newest_from newest t))
            (group_from newest group t e) es
    ] in
    require_that (agrees_with (lookup ids e.id) e) id_conflict
    >> (if is_known_id (lookup ids e.id)
        then skipped
        else if e.is_eligible
        then timed e.source_time
        else noted)

abbrev pub is_direct : TestObservation → Bool
is_direct e = not (truthy e.operation_id) && not (truthy e.event_id)

abbrev pub prefixed : String → Option String → String → String
prefixed p none other = other
prefixed p (some s) other = if truthy (some s) then join p s else other

-- `producer`
unfoldable pub producer_of : TestObservation → String
producer_of e = prefixed "execution:" e.execution_producer_key (
    prefixed "operation:" e.operation_id
      (prefixed "event:" e.event_id (join "direct:" e.direct_key)))

-- Whether an observation takes the place of the previous one of its producer.
unfoldable pub replaces : TestObservation → TestObservation → Bool
unfolding text_below
replaces e previous =
    if is_direct e
    then ltb previous.sequence e.sequence
      || (e.sequence == previous.sequence && text_below previous.tie e.tie)
    else ltb (rank previous.status) (rank e.status)
      || (rank e.status == rank previous.status && text_below previous.tie e.tie)

abbrev pub wins : Option TestObservation → TestObservation → Bool
wins none e = true
wins (some previous) e = replaces e previous

-- The second loop: one observation for each producer.
unfoldable pub by_producer :
    List (String × TestObservation) → List TestObservation → List (String × TestObservation)
unfolding producer_of replaces
by_producer m [] = m
by_producer m (e ∷ es) =
    by_producer (if wins (lookup m (producer_of e)) e then assign m (producer_of e) e else m) es

-- What stands before what in the last sort.
abbrev pub sorts_before : TestObservation → TestObservation → Bool
sorts_before a b =
    ltb (rank a.status) (rank b.status)
    || (rank a.status == rank b.status && not (text_below b.tie a.tie))

-- The last of the sorted observations.
unfoldable pub last_sorted :
    Option TestObservation → List (String × TestObservation) → Option TestObservation
last_sorted best [] = best
last_sorted none ((k, e) ∷ m) = last_sorted (some e) m
last_sorted (some b) ((k, e) ∷ m) = last_sorted (some (if sorts_before b e then e else b)) m

-- `reduceTestHistory`
unfoldable pub reduce_test_history : List TestObservation → Result (Option TestObservation)
unfolding newest_group
reduce_test_history history = do
  group ← newest_group [] none [] history
  ok (last_sorted none (by_producer [] group))
