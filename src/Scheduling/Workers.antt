-- ===== src/Scheduling/Workers.antt =====
-- `validationSchedulingPolicyDigest`, `resolveValidationWorkers` and `allocateValidationWorkers` of
-- scripts/test-scheduling.mjs. The numbers that reach them are non-negative integers.
use ai_sdlc_framework.Prelude.{
  ℕ, zero, suc, ◌+◌, ◌-◌, ◌*◌, ◌/◌, ◌%◌, Bool, true, false, ◌&&◌, List, [], ◌∷◌, Option, none, some,
  leb, ltb, every,
}
use Prim.Native.Nat.{min, max}
use ai_sdlc_framework.Result.{Result, ok, evidence, budget, require_that, ◌>>=◌, ◌>>◌}

-- A scheduling policy, by its schema version: the adopted ones are 2 to 9. `digest` is the SHA-256 of
-- a policy, which comes from Node's crypto module.
unfoldable pub policy_digest : (ℕ → ℕ) → ℕ → Result ℕ
policy_digest digest policy = do
  require_that (leb 2 policy && leb policy 9) evidence
  ok (digest policy)

abbrev pub is_digit : ℕ → Bool
is_digit c = leb b'0' c && leb c b'9'

-- `/^[1-9]\d*$/u`
unfoldable pub is_decimal : List ℕ → Bool
is_decimal [] = false
is_decimal (c ∷ text) = leb b'1' c && leb c b'9' && every is_digit text

-- `Number(text)` of decimal digits, from the digits read so far.
unfoldable pub number_from : ℕ → List ℕ → ℕ
number_from n [] = n
number_from n (c ∷ text) = number_from (n * 10 + (c - b'0')) text

abbrev pub number : List ℕ → ℕ
number = number_from 0

abbrev pub max_safe_integer : ℕ
max_safe_integer = 9007199254740991

abbrev pub gibibyte : ℕ
gibibyte = 1073741824

abbrev pub is_safe_positive : ℕ → Bool
is_safe_positive n = leb n max_safe_integer && ltb 0 n

pub record Resolved : Type 0 where
  pub workers : ℕ
  pub capacity : ℕ
  pub requested_workers : Option (List ℕ)
  pub digest : ℕ

unfoldable pub valid_request : Option (List ℕ) → Bool
valid_request none = true
valid_request (some text) = is_decimal text && leb (number text) 32

unfoldable pub resolved_capacity : ℕ → ℕ → Option (List ℕ) → ℕ
resolved_capacity parallelism memory none = max 1 (min 16 (min parallelism (memory / gibibyte)))
resolved_capacity parallelism memory (some text) = number text

-- `requested` is `String(requested)`, or `none` for null and undefined.
unfoldable pub resolve_validation_workers : (ℕ → ℕ) → ℕ → ℕ → Option (List ℕ) → ℕ → Result Resolved
unfolding policy_digest valid_request resolved_capacity
resolve_validation_workers digest parallelism memory requested policy = do
  require_that (is_safe_positive parallelism && is_safe_positive memory) budget
  require_that (valid_request requested) budget
  let capacity = resolved_capacity parallelism memory requested
  d ← policy_digest digest policy
  ok (record { workers = capacity; capacity = capacity; requested_workers = requested; digest = d })

-- `minimums[index] ?? 1`
unfoldable pub minimum_at : List (Option ℕ) → ℕ
minimum_at [] = 1
minimum_at (none ∷ ms) = 1
minimum_at (some m ∷ ms) = m

abbrev pub rest_of : List (Option ℕ) → List (Option ℕ)
rest_of [] = []
rest_of (m ∷ ms) = ms

-- `Array.from({ length: producers }, (_, index) => Math.min(capacity, minimums[index] ?? 1))`
unfoldable pub initial_allocation : ℕ → ℕ → List (Option ℕ) → List ℕ
unfolding minimum_at
initial_allocation zero capacity ms = []
initial_allocation (suc n) capacity ms =
    min capacity (minimum_at ms) ∷ initial_allocation n capacity (rest_of ms)

unfoldable pub sum : List ℕ → ℕ
sum [] = 0
sum (x ∷ xs) = x + sum xs

-- `result[index]++`
unfoldable pub bump : List ℕ → ℕ → List ℕ
bump [] i = []
bump (x ∷ xs) zero = suc x ∷ xs
bump (x ∷ xs) (suc i) = x ∷ bump xs i

-- The loop that hands out what remains, from the last producer backwards.
unfoldable pub hand_out : ℕ → ℕ → ℕ → List ℕ → List ℕ
hand_out producers zero index result = result
hand_out producers (suc remaining) index result =
    hand_out producers remaining ((index + producers - 1) % producers) (bump result index)

unfoldable pub allocate_validation_workers : ℕ → ℕ → List (Option ℕ) → Result (List ℕ)
unfolding initial_allocation sum hand_out
allocate_validation_workers producers capacity minimums = do
  require_that (ltb 0 producers && leb producers 32 && ltb 0 capacity && leb capacity 32) budget
  let result = initial_allocation producers capacity minimums
  require_that (every (λ value. ltb 0 value) result) budget
  ok (hand_out producers (capacity - sum result) (producers - 1) result)
