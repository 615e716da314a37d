-- ===== src/Scheduling/WorkersBounds.antt =====
-- What the worker budget of scripts/test-scheduling.mjs guarantees.
use ai_sdlc_framework.Prelude.{
  ℕ, zero, suc, ◌+◌, ◌-◌, ◌*◌, ◌%◌, ◌≤◌, ◌<◌, ◌≡◌, refl, true, List, [], ◌∷◌, Option, none, some,
  length, arith, ◌∙◌, ◌⊎◌, ap, sym,
}
use Prim.Native.Nat.{min, max}
use ai_sdlc_framework.Result.{ok}
use ai_sdlc_framework.Scheduling.Workers.{
  Resolved, resolve_validation_workers, resolved_capacity, valid_request, is_decimal, number,
  number_from, gibibyte, allocate_validation_workers, initial_allocation, rest_of, sum, bump,
  hand_out, minimum_at,
}

length-initial : (n c : ℕ) (ms : List (Option ℕ)) → length (initial_allocation n c ms) ≡ n
unfolding initial_allocation
length-initial zero c ms = refl
length-initial (suc n) c ms = omega (arith, length-initial n c (rest_of ms))

length-bump : (xs : List ℕ) (i : ℕ) → length (bump xs i) ≡ length xs
unfolding bump
length-bump [] i = refl
length-bump (x ∷ xs) zero = refl
length-bump (x ∷ xs) (suc i) = omega (arith, length-bump xs i)

sum-bump : (xs : List ℕ) (i : ℕ) → i < length xs → sum (bump xs i) ≡ suc (sum xs)
unfolding bump sum
sum-bump [] i h = elim h [ ]
sum-bump (x ∷ xs) zero h = omega arith
sum-bump (x ∷ xs) (suc i) h = omega (arith, sum-bump xs i)

-- Position by position, no smaller.
abbrev pub Covers : List ℕ → List ℕ → Type 0
Covers [] ys = Unit {0}
Covers (x ∷ xs) [] = ⊥
Covers (x ∷ xs) (y ∷ ys) = (x ≤ y) × Covers xs ys

Covers-refl : (xs : List ℕ) → Covers xs xs
Covers-refl [] = tt
Covers-refl (x ∷ xs) = (omega arith, Covers-refl xs)

Covers-bump : (xs ys : List ℕ) (i : ℕ) → Covers xs ys → Covers xs (bump ys i)
unfolding bump
Covers-bump [] ys i h = tt
Covers-bump (x ∷ xs) [] i h = h
Covers-bump (x ∷ xs) (y ∷ ys) zero h = (omega arith, h.1)
Covers-bump (x ∷ xs) (y ∷ ys) (suc i) h = (h.0, Covers-bump xs ys i h.1)

hand_out_lem :
    (n r i : ℕ) (low xs : List ℕ)
    → i < n
    → length xs ≡ n
    → Covers low xs
    → (length (hand_out n r i xs) ≡ n)
      × (sum (hand_out n r i xs) ≡ sum xs + r)
      × Covers low (hand_out n r i xs)
unfolding hand_out
hand_out_lem n zero i low xs h l c = (l, omega arith, c)
hand_out_lem n (suc r) i low xs h l c =
    let next =
      hand_out_lem n r ((i + n - 1) % n) low (bump xs i) (omega arith) (length-bump xs i ∙ l)
        (Covers-bump low xs i c) in
    (next.0, omega (arith, sum-bump xs i), next.2)

number_from-le : (n : ℕ) (text : List ℕ) → n ≤ number_from n text
unfolding number_from
number_from-le n [] = omega arith
number_from-le n (c ∷ text) = omega (arith, number_from-le (n * 10 + (c - b'0')) text)

-- A decimal without a leading zero is positive.
number_pos : (text : List ℕ) → is_decimal text ≡ true → 1 ≤ number text
unfolding is_decimal number_from
number_pos [] h = cc
number_pos (c ∷ text) h = ground (arith, number_from-le (0 * 10 + (c - b'0')) text)

-- The minimum that a producer declares; one where it declares none.
abbrev pub declared : List (Option ℕ) → ℕ → ℕ
declared [] i = 1
declared (none ∷ ms) zero = 1
declared (some m ∷ ms) zero = m
declared (m ∷ ms) (suc i) = declared ms i

-- The number at a position, and zero past the end.
abbrev pub entry : List ℕ → ℕ → ℕ
entry [] i = 0
entry (x ∷ xs) zero = x
entry (x ∷ xs) (suc i) = entry xs i

-- The sum of the first values of a function.
abbrev pub sum_of : ℕ → (ℕ → ℕ) → ℕ
sum_of zero f = 0
sum_of (suc n) f = f 0 + sum_of n (λ i. f (suc i))

sum-entry : (xs : List ℕ) → sum xs ≡ sum_of (length xs) (entry xs)
unfolding sum
sum-entry [] = refl
sum-entry (x ∷ xs) = ap (λ k. x + k) (sum-entry xs)

declared-rest : (ms : List (Option ℕ)) (i : ℕ) → declared (rest_of ms) i ≡ declared ms (suc i)
declared-rest [] i = refl
declared-rest (none ∷ ms) i = refl
declared-rest (some m ∷ ms) i = refl

declared-first : (ms : List (Option ℕ)) → minimum_at ms ≡ declared ms 0
unfolding minimum_at
declared-first [] = refl
declared-first (none ∷ ms) = refl
declared-first (some m ∷ ms) = refl

entry-initial :
    (n c : ℕ) (ms : List (Option ℕ)) (i : ℕ)
    → i < n
    → entry (initial_allocation n c ms) i ≡ min c (declared ms i)
unfolding initial_allocation
entry-initial zero c ms i h = absurd (omega arith)
entry-initial (suc n) c ms zero h = ap (min c) (declared-first ms)
entry-initial (suc n) c ms (suc i) h =
    entry-initial n c (rest_of ms) i (omega arith) ∙ ap (min c) (declared-rest ms i)

sum_of-eq : (n : ℕ) (f g : ℕ → ℕ) → ((i : ℕ) → i < n → f i ≡ g i) → sum_of n f ≡ sum_of n g
sum_of-eq zero f g h = refl
sum_of-eq (suc n) f g h =
    let first = h 0 (omega arith) in
    let rest = sum_of-eq n (λ i. f (suc i)) (λ i. g (suc i)) (λ i l. h (suc i) (omega arith)) in
    ap (λ k. k + sum_of n (λ i. f (suc i))) first ∙ ap (λ k. g 0 + k) rest

sum-initial :
    (n c : ℕ) (ms : List (Option ℕ))
    → sum (initial_allocation n c ms) ≡ sum_of n (λ i. min c (declared ms i))
sum-initial n c ms =
    sum-entry (initial_allocation n c ms)
    ∙ (ap (λ k. sum_of k (entry (initial_allocation n c ms))) (length-initial n c ms)
        ∙ sum_of-eq n (entry (initial_allocation n c ms)) (λ i. min c (declared ms i))
            (entry-initial n c ms))

Covers-entry : (xs ys : List ℕ) (i : ℕ) → Covers xs ys → i < length xs → entry xs i ≤ entry ys i
Covers-entry [] ys i c h = absurd (omega arith)
Covers-entry (x ∷ xs) [] i c h = elim c [ ]
Covers-entry (x ∷ xs) (y ∷ ys) zero c h = c.0
Covers-entry (x ∷ xs) (y ∷ ys) (suc i) c h = Covers-entry xs ys i c.1 (omega arith)

allocate-Covers :
    (producers capacity : ℕ) (minimums : List (Option ℕ)) {result : List ℕ}
    → allocate_validation_workers producers capacity minimums ≡ ok result
    → (length result ≡ producers)
      × Covers (initial_allocation producers capacity minimums) result
      × (sum result ≡ max capacity (sum (initial_allocation producers capacity minimums)))
unfolding allocate_validation_workers
allocate-Covers producers capacity minimums h =
    let low = initial_allocation producers capacity minimums in
    ground (
      arith,
      hand_out_lem producers (capacity - sum low) (producers - 1) low low,
      length-initial producers capacity minimums,
      Covers-refl low,
    )

-- An accepted allocation has one entry for each producer, gives each at least its declared minimum
-- (one where none is declared, never more than the capacity), and hands out the whole capacity:
-- the total is the capacity, or the sum of these minimums where that is larger.
pub allocate_lem :
    (producers capacity : ℕ) (minimums : List (Option ℕ)) {result : List ℕ}
    → allocate_validation_workers producers capacity minimums ≡ ok result
    → (length result ≡ producers)
      × ((i : ℕ) → i < producers → min capacity (declared minimums i) ≤ entry result i)
      × (sum_of producers (entry result)
          ≡ max capacity (sum_of producers (λ i. min capacity (declared minimums i))))
allocate_lem producers capacity minimums {result} h =
    let facts = allocate-Covers producers capacity minimums h in
    let size = length-initial producers capacity minimums in
    (
      facts.0,
      λ i l.
          let low = entry-initial producers capacity minimums i l in
          let kept =
            Covers-entry (initial_allocation producers capacity minimums) result i facts.1
              (omega arith) in
          omega (arith, low, kept),
      ap (λ k. sum_of k (entry result)) (sym facts.0)
          ∙ (sym (sum-entry result)
              ∙ (facts.2 ∙ ap (max capacity) (sum-initial producers capacity minimums))),
    )

abbrev Resolves : ℕ → ℕ → Option (List ℕ) → Resolved → Type 0
Resolves parallelism memory requested r =
    (valid_request requested ≡ true)
    × (r.capacity ≡ resolved_capacity parallelism memory requested)
    × (r.workers ≡ r.capacity)

resolve_inversion :
    (digest : ℕ → ℕ) (parallelism memory : ℕ) (requested : Option (List ℕ)) (policy : ℕ)
    {r : Resolved}
    → resolve_validation_workers digest parallelism memory requested policy ≡ ok r
    → Resolves parallelism memory requested r
unfolding resolve_validation_workers
resolve_inversion digest parallelism memory none policy h = ground arith
resolve_inversion digest parallelism memory (some text) policy h = ground arith

default_bounds :
    (parallelism memory c : ℕ)
    → c ≡ resolved_capacity parallelism memory none
    → (1 ≤ c) × (c ≤ 16) × ((c ≡ 1) ⊎ ((c ≤ 16) × (c ≤ parallelism) × (c * gibibyte ≤ memory)))
unfolding resolved_capacity
default_bounds parallelism memory c h = ground arith

requested_bounds :
    (text : List ℕ) → valid_request (some text) ≡ true → (1 ≤ number text) × (number text ≤ 32)
unfolding valid_request
requested_bounds text h = ground (arith, number_pos text)

-- An accepted host budget lies between 1 and 32 workers. It is the requested number where one is
-- requested; without a request it is at most 16, at most the processors, and at most one for each
-- GiB of memory, or else it is 1.
pub resolve_lem :
    (digest : ℕ → ℕ) (parallelism memory : ℕ) (requested : Option (List ℕ)) (policy : ℕ)
    {r : Resolved}
    → resolve_validation_workers digest parallelism memory requested policy ≡ ok r
    → (1 ≤ r.capacity)
      × (r.capacity ≤ 32)
      × (r.workers ≡ r.capacity)
      × ((text : List ℕ) → requested ≡ some text → r.capacity ≡ number text)
      × (requested ≡ none
          → (r.capacity ≡ 1)
            ⊎ ((r.capacity ≤ 16) × (r.capacity ≤ parallelism) × (r.capacity * gibibyte ≤ memory)))
unfolding resolved_capacity
resolve_lem digest parallelism memory none policy {r} h =
    let facts = resolve_inversion digest parallelism memory none policy h in
    let bounds = default_bounds parallelism memory r.capacity facts.1 in
    (bounds.0, omega arith, facts.2, λ text e. cc, λ e. bounds.2)
resolve_lem digest parallelism memory (some text) policy {r} h =
    let facts = resolve_inversion digest parallelism memory (some text) policy h in
    let bounds = requested_bounds text facts.0 in
    (omega arith, omega arith, facts.2, λ text' e. ground (arith, facts.1), λ e. cc)
