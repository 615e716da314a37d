-- ===== src/Summary/Examples.antt =====
-- Examples for the pages of src/core.mjs.
use ai_sdlc_framework.Prelude.{
  ℕ, Bool, List, [], ◌∷◌, some, none, ◌≡◌, refl, leb, ◌≤◌, ◌+◌, true, ◌<◌,
}
use ai_sdlc_framework.Result.{Result}
use ai_sdlc_framework.Summary.Page.{Page, summary_page, drop}
use ai_sdlc_framework.Summary.PageReads.{
  Shows, Reads, last, more, summary_page_ends, summary_page_lem, Reads-drop,
}

-- Pages of at most two items fit.
abbrev two_fit : ℕ → ℕ → Bool
two_fit offset count = leb count 2

abbrev three_items : List ℕ
three_items = 5 ∷ 6 ∷ 7 ∷ []

abbrev first_page : Page ℕ
first_page = record { total = 3; count = 1; offset = 0; next_offset = some 1; items = 5 ∷ [] }

abbrev second_page : Page ℕ
second_page = record { total = 3; count = 2; offset = 1; next_offset = none; items = 6 ∷ 7 ∷ [] }

summary_page_ends_example :
    (r : Result (Page ℕ)) × (summary_page two_fit three_items 3 4 0 ≡ some r)
summary_page_ends_example = summary_page_ends two_fit three_items 3 0

summary_page_lem_example :
    Shows two_fit three_items 3 0 first_page
    × (1 ≤ 3)
    × (0 + 1 ≤ 3)
    × (two_fit 0 1 ≡ true)
    × (0 < 3 → 1 ≤ 1)
unfolding summary_page
summary_page_lem_example = summary_page_lem two_fit three_items 3 0 {p = first_page} refl

both_pages : Reads two_fit three_items 3 0 (5 ∷ 6 ∷ 7 ∷ [])
unfolding summary_page
both_pages = more {p = first_page} refl refl (last {p = second_page} refl refl)

Reads-drop_example : 5 ∷ 6 ∷ 7 ∷ [] ≡ drop 0 three_items
Reads-drop_example = Reads-drop two_fit three_items 3 0 (5 ∷ 6 ∷ 7 ∷ []) both_pages
