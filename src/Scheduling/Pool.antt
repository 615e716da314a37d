-- ===== src/Scheduling/Pool.antt =====
-- `runValidationReadyPool` of scripts/test-scheduling.mjs: the pool that starts each validation
-- group once its dependencies have passed, within the worker budget and its exclusive resources.
-- Identities and resources are numbers, since the code compares them only.
use ai_sdlc_framework.Prelude.{
  zero, suc, ℕ, ◌+◌, ◌-◌, Bool, true, false, not, ◌&&◌, ◌||◌, List, [], ◌∷◌, ◌++◌, leb, ltb, ◌==◌,
  every, any, includes, if◌then◌else◌, length, Option, suc, none, some,
}
use ai_sdlc_framework.Result.{Result, ok, budget, inventory, require_that, ◌>>◌}

pub record Group : Type 0 where
  pub id : ℕ
  pub minimum_slots : ℕ
  pub depends_on : List ℕ
  pub exclusive_resources : List ℕ

-- What `execute` resolves to.
pub data Status : Type 0 where
  passed failed not_run : Status

-- A group's execution resolves to a status or throws.
pub data Outcome : Type 0 where
  returned : Status → Outcome
  threw : Outcome

pub record Limits : Type 0 where
  pub concurrency : ℕ
  pub capacity : ℕ

-- The variables of the loop. Maps keep the order in which their keys were added.
pub record Pool : Type 0 where
  pub pending : List Group
  pub running : List Group
  pub completed : List (ℕ × Status)
  pub resources : List ℕ
  pub allocated : ℕ
  pub failure : Bool

abbrev pub is_passed : Status → Bool
is_passed passed = true
is_passed failed = false
is_passed not_run = false

-- `completed.get(dependency) === 'Passed'`
unfoldable pub has_passed : List (ℕ × Status) → ℕ → Bool
has_passed [] i = false
has_passed ((j, s) ∷ done) i = if j == i then is_passed s else has_passed done i

-- `completed.set(id, status)`, which keeps the place of a key that is there.
unfoldable pub set_completed : List (ℕ × Status) → ℕ → Status → List (ℕ × Status)
set_completed [] i s = (i, s) ∷ []
set_completed ((j, t) ∷ done) i s =
    if j == i then (j, s) ∷ done else (j, t) ∷ set_completed done i s

-- `pending.delete(id)`, `running.delete(id)`
unfoldable pub delete : ℕ → List Group → List Group
delete i [] = []
delete i (g ∷ gs) = if g.id == i then gs else g ∷ delete i gs

-- `resources.add`, for each resource of a group.
unfoldable pub add_all : List ℕ → List ℕ → List ℕ
add_all [] resources = resources
add_all (r ∷ rs) resources =
    add_all rs (if includes resources r then resources else resources ++ r ∷ [])

unfoldable pub delete_resource : ℕ → List ℕ → List ℕ
delete_resource r [] = []
delete_resource r (x ∷ xs) = if x == r then delete_resource r xs else x ∷ delete_resource r xs

-- `resources.delete`, for each resource of a group.
unfoldable pub delete_all : List ℕ → List ℕ → List ℕ
unfolding delete_resource
delete_all [] resources = resources
delete_all (r ∷ rs) resources = delete_all rs (delete_resource r resources)

-- `[...pending].sort((left, right) => right.minimumSlots - left.minimumSlots)`, a stable sort.
unfoldable pub insert_group : Group → List Group → List Group
insert_group g [] = g ∷ []
insert_group g (h ∷ hs) =
    if ltb g.minimum_slots h.minimum_slots then h ∷ insert_group g hs else g ∷ h ∷ hs

unfoldable pub admission_order : List Group → List Group
unfolding insert_group
admission_order [] = []
admission_order (g ∷ gs) = insert_group g (admission_order gs)

-- The test under which a group is passed over.
unfoldable pub is_blocked : Limits → Pool → Group → Bool
unfolding has_passed
is_blocked l p g =
    not (every (has_passed p.completed) g.depends_on)
    || ltb l.capacity (p.allocated + g.minimum_slots)
    || any (includes p.resources) g.exclusive_resources

unfoldable pub start_group : Pool → Group → Pool
unfolding delete add_all
start_group p g = record p {
  pending = delete g.id p.pending;
  running = p.running ++ g ∷ [];
  resources = add_all g.exclusive_resources p.resources;
  allocated = p.allocated + g.minimum_slots;
}

unfoldable pub admit_group : Limits → Pool → Group → Pool
unfolding is_blocked start_group
admit_group l p g = if is_blocked l p g then p else start_group p g

-- `signal?.aborted || failure || running.size >= concurrency`
abbrev pub is_closed : Limits → Bool → Pool → Bool
is_closed l aborted p = aborted || p.failure || leb l.concurrency (length p.running)

-- The admission loop. It does not wait, so the signal keeps its value throughout.
unfoldable pub admit : Limits → Bool → List Group → Pool → Pool
unfolding admit_group
admit l aborted [] p = p
admit l aborted (g ∷ gs) p = elim (is_closed l aborted p) [
  | true ↦ p
  | false ↦ admit l aborted gs (admit_group l p g)
]

-- One pass of the outer loop, up to the wait.
unfoldable pub admission : Limits → Bool → Pool → Pool
unfolding admit admission_order
admission l aborted p = admit l aborted (admission_order p.pending) p

abbrev pub settled_status : Outcome → Status
settled_status (returned s) = s
settled_status threw = not_run

abbrev pub is_throw : Outcome → Bool
is_throw (returned s) = false
is_throw threw = true

-- The `then`, `catch` and `finally` callbacks of a running group.
unfoldable pub settle : Pool → Group → Outcome → Pool
unfolding set_completed delete delete_all
settle p g o = record p {
  running = delete g.id p.running;
  completed = set_completed p.completed g.id (settled_status o);
  resources = delete_all g.exclusive_resources p.resources;
  allocated = p.allocated - g.minimum_slots;
  failure = p.failure || is_throw o;
}

unfoldable pub ids : List Group → List ℕ
ids [] = []
ids (g ∷ gs) = g.id ∷ ids gs

-- `pending.size === groups.length` for the map of the groups by identity.
unfoldable pub unique : List ℕ → Bool
unique [] = true
unique (i ∷ is) = not (includes is i) && unique is

abbrev pub within_host : ℕ → Bool
within_host n = ltb 0 n && leb n 32

unfoldable pub initial_pool : List Group → Pool
initial_pool groups = record {
  pending = groups;
  running = [];
  completed = [];
  resources = [];
  allocated = 0;
  failure = false;
}

-- The two `requireThat` calls, and the variables that they leave.
unfoldable pub open_pool : List Group → Limits → Result Pool
unfolding unique ids initial_pool
open_pool groups l = do
  require_that
      (within_host l.concurrency
        && within_host l.capacity
        && every (λ g. ltb 0 g.minimum_slots && leb g.minimum_slots l.capacity) groups)
      budget
  require_that
      (unique (ids groups)
        && every (λ g. every (λ d. includes (ids groups) d && not (d == g.id)) g.depends_on) groups)
      inventory
  ok (initial_pool groups)

-- What the environment decides in one pass: the abort signal, which running group settles first, and
-- how.
pub record Turn : Type 0 where
  pub aborted : Bool
  pub settles_first : ℕ
  pub outcome : Outcome

-- The group at an index, or the first where the index is out of range.
unfoldable pub pick : ℕ → Group → List Group → Group
pick i g [] = g
pick zero g (h ∷ hs) = g
pick (suc i) g (h ∷ hs) = pick i h hs

-- `while (pending.size || running.size) { …; if (!running.size) break; await … }` with fuel; `none`
-- means that the fuel ran out. Groups that settle while the loop is about to go on settle in later
-- turns, in which nothing is admitted before them if the environment has aborted.
unfoldable pub drain : ℕ → (ℕ → Turn) → Limits → Pool → Option Pool
unfolding admission settle pick
drain zero env l p = none
drain (suc fuel) env l p =
    let q = admission l (env fuel).aborted p in
    elim q.running [
      | [] ↦ some q
      | g ∷ gs ↦ drain fuel env l (settle q (pick (env fuel).settles_first g gs) (env fuel).outcome)
    ]

-- What the call resolves to: `none` where it throws `failure`.
unfoldable pub report : Pool → Option (List (ℕ × Status) × List Group)
report p = if p.failure then none else some (p.completed, p.pending)
