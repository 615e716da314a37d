-- ===== src/Summary/Page.antt =====
-- `summaryPage` of src/core.mjs. Whether a page with a number of items from an offset on fits in the
-- working set is a parameter: its size is that of the text that Node's JSON prints.
use ai_sdlc_framework.Prelude.{
  ℕ, zero, suc, ◌+◌, ◌-◌, ◌/◌, Bool, ◌&&◌, not, List, [], ◌∷◌, Option, none, some, leb, ltb,
  if◌then◌else◌, length,
}
use Prim.Native.Nat.{min}
use ai_sdlc_framework.Result.{Result, ok, fail, input, capacity, ◌>>=◌}

abbrev pub summary_page_limit : ℕ
summary_page_limit = 1000

abbrev pub summary_max_offset : ℕ
summary_max_offset = 1000000

pub record Page {ℓ} (A : Type ℓ) : Type ℓ where
  pub total : ℕ
  pub count : ℕ
  pub offset : ℕ
  pub next_offset : Option ℕ
  pub items : List A

-- `items.slice(offset, offset + count)` is `take count (drop offset items)`.
unfoldable pub take {ℓ} : {A : Type ℓ} → ℕ → List A → List A
take zero xs = []
take (suc n) [] = []
take (suc n) (x ∷ xs) = x ∷ take n xs

unfoldable pub drop {ℓ} : {A : Type ℓ} → ℕ → List A → List A
drop zero xs = xs
drop (suc n) [] = []
drop (suc n) (x ∷ xs) = drop n xs

-- The loop that halves the number of items until the page fits; `none` means that the fuel ran out.
unfoldable pub shrink : ℕ → (ℕ → Bool) → ℕ → Option (Result ℕ)
shrink zero fits count = none
shrink (suc fuel) fits count =
    let rest = shrink fuel fits (count / 2) in
    if fits count then some (ok count) else if ltb 1 count then rest else some (fail capacity)

module _ {ℓ} {A : Type ℓ} (fits : ℕ → ℕ → Bool) (items : List A) (limit : ℕ) where
  abbrev pub first_count : ℕ → ℕ
  first_count offset = min limit (length items - offset)

  unfoldable pub page_of : ℕ → ℕ → Page A
  unfolding take drop
  page_of offset count = record {
    total = length items;
    count = count;
    offset = offset;
    next_offset = if ltb (offset + count) (length items) then some (offset + count) else none;
    items = take count (drop offset items);
  }

  abbrev pub valid_range : ℕ → Bool
  valid_range offset = leb offset summary_max_offset && leb offset (length items)

  abbrev pub valid_limit : Bool
  valid_limit = ltb 0 limit && leb limit summary_page_limit

  unfoldable pub summary_page : ℕ → ℕ → Option (Result (Page A))
  unfolding shrink page_of
  summary_page fuel offset =
      if not (valid_range offset && valid_limit)
      then some (fail input)
      else elim (shrink fuel (fits offset) (first_count offset)) [
        | none ↦ none
        | some found ↦ some (do count ← found; ok (page_of offset count))
      ]
