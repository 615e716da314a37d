-- ===== src/Summary/PageReads.antt =====
-- The pages of a summary end, advance, and together are the items.
use ai_sdlc_framework.Prelude.{
  ℕ, zero, suc, ◌+◌, ◌-◌, ◌/◌, ◌≤◌, ◌<◌, Bool, true, ◌&&◌, List, [], ◌∷◌, ◌++◌, none, some, ltb,
  length, ◌≡◌, refl, ◌∙◌, ap, sym, arith, Bool-cases, inl, inr,
}
use mathlib.Core.Path.{subst}
use mathlib.Core.List.{append-nil}
use ai_sdlc_framework.Result.{Result, ok, fail, capacity, input, ◌>>=◌}
use ai_sdlc_framework.Summary.Page.{
  Page, take, drop, shrink, page_of, first_count, summary_page, valid_range, valid_limit,
}

shrink_ends :
    (fuel : ℕ) (fits : ℕ → Bool) (count : ℕ)
    → count < fuel
    → (r : Result ℕ) × (shrink fuel fits count ≡ some r)
unfolding shrink
shrink_ends zero fits count h = absurd (omega arith)
shrink_ends (suc fuel) fits count h = elim (Bool-cases (fits count)) [
  | inl y ↦ rw (shrink, y) (ok count, refl)
  | inr n ↦ elim (Bool-cases (ltb 1 count)) [
    | inl m ↦
        let rest = shrink_ends fuel fits (count / 2) (ground (arith, m)) in rw (shrink, n, m) rest
    | inr l ↦ rw (shrink, n, l) (fail capacity, refl)
  ]
]

shrink_lem :
    (fuel : ℕ) (fits : ℕ → Bool) (count : ℕ) {c : ℕ}
    → shrink fuel fits count ≡ some (ok c)
    → (c ≤ count) × (fits c ≡ true) × (1 ≤ count → 1 ≤ c)
unfolding shrink
shrink_lem zero fits count h = cc
shrink_lem (suc fuel) fits count h = elim (Bool-cases (fits count)) [
  | inl y ↦ ground (arith, h)
  | inr n ↦ elim (Bool-cases (ltb 1 count)) [
    | inl m ↦
        let rest = shrink_lem fuel fits (count / 2) (rw (shrink, n, m) at h) in
        ground (arith, rest, m)
    | inr l ↦ absurd (ground (arith, h))
  ]
]

take-drop : {A : Type 0} (n : ℕ) (xs : List A) → take n xs ++ drop n xs ≡ xs
unfolding take drop
take-drop zero xs = refl
take-drop (suc n) [] = refl
take-drop (suc n) (x ∷ xs) = ap (◌∷◌ x) (take-drop n xs)

drop_nil : {A : Type 0} (n : ℕ) → drop {A = A} n [] ≡ []
unfolding drop
drop_nil zero = refl
drop_nil (suc n) = refl

suc_add : (m n : ℕ) → suc (m + n) ≡ suc m + n
suc_add m n = omega arith

drop-drop : {A : Type 0} (m n : ℕ) (xs : List A) → drop n (drop m xs) ≡ drop (m + n) xs
unfolding drop
drop-drop zero n xs = ap (λ k. drop k xs) (omega arith)
drop-drop (suc m) n [] = drop_nil n ∙ sym (drop_nil (suc m + n))
drop-drop (suc m) n (x ∷ xs) = drop-drop m n xs ∙ ap (λ (k : ℕ). drop k (x ∷ xs)) (suc_add m n)

drop_all : {A : Type 0} (n : ℕ) (xs : List A) → length xs ≤ n → drop n xs ≡ []
unfolding drop
drop_all n [] h = drop_nil n
drop_all zero (x ∷ xs) h = absurd (omega arith)
drop_all (suc n) (x ∷ xs) h = drop_all n xs (omega arith)

length-drop : {A : Type 0} (n : ℕ) (xs : List A) → length (drop n xs) ≡ length xs - n
unfolding drop
length-drop zero xs = omega arith
length-drop (suc n) [] = omega arith
length-drop (suc n) (x ∷ xs) = omega (arith, length-drop n xs)

length-take : {A : Type 0} (n : ℕ) (xs : List A) → n ≤ length xs → length (take n xs) ≡ n
unfolding take
length-take zero xs h = refl
length-take (suc n) [] h = absurd (omega arith)
length-take (suc n) (x ∷ xs) h = omega (arith, length-take n xs (omega arith))

-- The items stand in a list after a number of others.
abbrev pub StandsAt : {A : Type 0} → List A → ℕ → List A → Type 0
StandsAt {A} items offset xs =
    (before : List A) × (after : List A) × (items ≡ before ++ (xs ++ after))
    × (length before ≡ offset)

slice-StandsAt :
    {A : Type 0} (items : List A) (offset c : ℕ)
    → offset ≤ length items
    → StandsAt items offset (take c (drop offset items))
slice-StandsAt items offset c h = (
  take offset items,
  drop c (drop offset items),
  sym (take-drop offset items)
      ∙ ap (◌++◌ (take offset items)) (sym (take-drop c (drop offset items))),
  length-take offset items h,
)

abbrev page_from : {A : Type 0} → (ℕ → Page A) → Result ℕ → Result (Page A)
page_from make found = do count ← found; ok (make count)

module _ {A : Type 0} (fits : ℕ → ℕ → Bool) (items : List A) (limit : ℕ) where
  -- A page always results, or an error: the loop needs no more rounds than the limit and one.
  pub summary_page_ends :
      (offset : ℕ)
      → (r : Result (Page A)) × (summary_page fits items limit (suc limit) offset ≡ some r)
  unfolding summary_page
  summary_page_ends offset =
      elim (Bool-cases (valid_range fits items limit offset && valid_limit fits items limit)) [
        | inr n ↦ rw n (fail input, refl)
        | inl y ↦
            let found =
              shrink_ends (suc limit) (fits offset) (first_count fits items limit offset)
                (ground arith) in
            rw (y, found.1) (page_from (page_of fits items limit offset) found.0, refl)
      ]

  -- What a page that results holds.
  abbrev pub IsPage : ℕ → Page A → Type 0
  IsPage offset p =
      (p ≡ page_of fits items limit offset p.count)
      × (p.count ≤ limit)
      × (offset + p.count ≤ length items)
      × (fits offset p.count ≡ true)
      × (offset < length items → 1 ≤ p.count)

  page_made :
      (offset : ℕ) (found : Result ℕ) {p : Page A}
      → some (page_from (page_of fits items limit offset) found) ≡ some (ok p)
      → (c : ℕ) × (found ≡ ok c) × (page_of fits items limit offset c ≡ p)
  page_made offset (ok c) h = (c, refl, cc)
  page_made offset (fail e) h = cc

  count-IsPage :
      (offset c : ℕ)
      → (valid_range fits items limit offset && valid_limit fits items limit) ≡ true
      → (c ≤ first_count fits items limit offset)
        × (fits offset c ≡ true)
        × (1 ≤ first_count fits items limit offset → 1 ≤ c)
      → IsPage offset (page_of fits items limit offset c)
  unfolding page_of
  count-IsPage offset c y h =
      (refl, ground (arith, h.0), ground (arith, h.0), h.1, λ l. ground (arith, h.2))

  page-IsPage :
      (offset : ℕ) {p : Page A}
      → summary_page fits items limit (suc limit) offset ≡ some (ok p)
      → IsPage offset p
  unfolding summary_page
  page-IsPage offset {p} h =
      elim (Bool-cases (valid_range fits items limit offset && valid_limit fits items limit)) [
        | inr n ↦ absurd (ground (arith, h))
        | inl y ↦
            let found =
              shrink_ends (suc limit) (fits offset) (first_count fits items limit offset)
                (ground arith) in
            let made = page_made offset found.0 (rw (y, found.1) at h) in
            let facts =
              shrink_lem (suc limit) (fits offset) (first_count fits items limit offset)
                (found.1 ∙ ap some made.1) in
            subst (IsPage offset) made.2 (count-IsPage offset made.0 y facts)
      ]

  -- What a page shows of the items.
  abbrev pub Shows : ℕ → Page A → Type 0
  Shows offset p =
      (p.offset ≡ offset)
      × (p.total ≡ length items)
      × (length p.items ≡ p.count)
      × StandsAt items offset p.items
      × (offset + p.count ≡ length items → p.next_offset ≡ none)
      × (offset + p.count < length items → p.next_offset ≡ some (offset + p.count))

  page_of-Shows :
      (offset c : ℕ) → offset + c ≤ length items → Shows offset (page_of fits items limit offset c)
  unfolding page_of
  page_of-Shows offset c h = (
    refl,
    refl,
    length-take c (drop offset items) (omega (arith, length-drop offset items)),
    slice-StandsAt items offset c (omega arith),
    λ e. ground arith,
    λ l. ground arith,
  )

  -- A page holds consecutive items, as many as its count says, from the offset that is asked for on.
  -- Its next offset is where it ends, or none where no item is left. It has no more items than the
  -- limit, fits in the working set, and has an item where one is left.
  pub summary_page_lem :
      (offset : ℕ) {p : Page A}
      → summary_page fits items limit (suc limit) offset ≡ some (ok p)
      → Shows offset p
        × (p.count ≤ limit)
        × (offset + p.count ≤ length items)
        × (fits offset p.count ≡ true)
        × (offset < length items → 1 ≤ p.count)
  summary_page_lem offset {p} h =
      let facts = page-IsPage offset h in
      (
        subst (Shows offset) (sym facts.0) (page_of-Shows offset p.count facts.2),
        facts.1,
        facts.2,
        facts.3,
        facts.4,
      )

  -- What a reader gets that starts at an offset and follows `nextOffset` to the end.
  pub data Reads : ℕ → List A → Type 0 where
    last :
        {offset : ℕ} {p : Page A}
        → summary_page fits items limit (suc limit) offset ≡ some (ok p)
        → p.next_offset ≡ none
        → Reads offset p.items
    more :
        {offset n : ℕ} {p : Page A} {rest : List A}
        → summary_page fits items limit (suc limit) offset ≡ some (ok p)
        → p.next_offset ≡ some n
        → Reads n rest
        → Reads offset (p.items ++ rest)

  last_items :
      (offset c : ℕ)
      → (page_of fits items limit offset c).next_offset ≡ none
      → (page_of fits items limit offset c).items ≡ drop offset items
  unfolding page_of
  last_items offset c h =
      let all = drop_all (offset + c) items (ground (arith, h)) in
      sym (append-nil (take c (drop offset items)))
      ∙ (ap (◌++◌ (take c (drop offset items))) (sym (drop-drop offset c items ∙ all))
          ∙ take-drop c (drop offset items))

  next_is :
      (offset c n : ℕ) → (page_of fits items limit offset c).next_offset ≡ some n → offset + c ≡ n
  unfolding page_of
  next_is offset c n h = ground (arith, h)

  more_items :
      (offset c n : ℕ)
      → (page_of fits items limit offset c).next_offset ≡ some n
      → (page_of fits items limit offset c).items ++ drop n items ≡ drop offset items
  unfolding page_of
  more_items offset c n h =
      let next = next_is offset c n h in
      ap (λ k. take c (drop offset items) ++ drop k items) (sym next)
      ∙ (ap (◌++◌ (take c (drop offset items))) (sym (drop-drop offset c items))
          ∙ take-drop c (drop offset items))

  made_last :
      (offset : ℕ) (p : Page A)
      → p ≡ page_of fits items limit offset p.count
      → p.next_offset ≡ none
      → p.items ≡ drop offset items
  made_last offset p e h =
      ap (λ q. q.items) e ∙ last_items offset p.count (sym (ap (λ q. q.next_offset) e) ∙ h)

  made_more :
      (offset n : ℕ) (p : Page A)
      → p ≡ page_of fits items limit offset p.count
      → p.next_offset ≡ some n
      → p.items ++ drop n items ≡ drop offset items
  made_more offset n p e h =
      ap (λ q. q.items ++ drop n items) e
      ∙ more_items offset p.count n (sym (ap (λ q. q.next_offset) e) ∙ h)

  -- A reader that starts at an offset and follows `nextOffset` to the end gets every item from there
  -- on, in order, none twice.
  pub Reads-drop : (offset : ℕ) (xs : List A) → Reads offset xs → xs ≡ drop offset items
  Reads-drop offset xs (last {p = p} h e) = made_last offset p (page-IsPage offset h).0 e
  Reads-drop offset xs (more {n = n} {p = p} {rest = rest} h e next) =
      ap (◌++◌ p.items) (Reads-drop n rest next) ∙ made_more offset n p (page-IsPage offset h).0 e
