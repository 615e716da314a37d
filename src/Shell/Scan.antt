-- ===== src/Shell/Scan.antt =====
-- The loop that `shellWords`, `powerShellWords` and `cmdWords` of src/platform.mjs share: a scanner
-- over the characters, which takes the step of one shell as an argument.
use ai_sdlc_framework.Prelude.{
  ℕ, Bool, true, false, List, [], ◌∷◌, ◌++◌, Option, none, some, if◌then◌else◌, ◌≡◌, refl,
}
use ai_sdlc_framework.Shell.Chars.{Text}

-- The loop's variables. `just_closed` is used by the two Windows splitters alone.
pub record Scan : Type 0 where
  pub words : List Text
  pub word : Text
  pub quote : Option ℕ
  pub started : Bool
  pub just_closed : Bool

-- Between two words.
abbrev pub between : List Text → Scan
between words = record {
  words = words;
  word = [];
  quote = none;
  started = false;
  just_closed = false;
}

-- What one round of the loop does: goes on, goes on behind the next character too, or returns null.
pub data Move : Type 0 where
  go : Scan → Move
  skip : Scan → Move
  stop : Move

-- `for (let index = 0; index < command.length; index++)`; a step sees `command[index + 1]`.
unfoldable pub scan : (Scan → ℕ → Option ℕ → Move) → Scan → Text → Option Scan
scan step s [] = some s
scan step s (c ∷ []) = elim (step s c none) [ go t ↦ some t | skip t ↦ some t | stop ↦ none ]
scan step s (c ∷ d ∷ rest) = elim (step s c (some d)) [
  | go t ↦ scan step t (d ∷ rest)
  | skip t ↦ scan step t rest
  | stop ↦ none
]

-- `word += c` and `started = true`
abbrev pub put : Scan → ℕ → Scan
put s c = record s { word = s.word ++ c ∷ []; started = true }

-- `words.push(word)` where a word was started
abbrev pub flush : Scan → Scan
flush s =
    if s.started then record s { words = s.words ++ s.word ∷ []; word = []; started = false } else s

abbrev pub next_of : Text → Option ℕ
next_of [] = none
next_of (d ∷ rest) = some d

module _ (step : Scan → ℕ → Option ℕ → Move) where
  pub scan-go :
      (s t : Scan) (c : ℕ) (rest : Text)
      → step s c (next_of rest) ≡ go t
      → scan step s (c ∷ rest) ≡ scan step t rest
  unfolding scan
  scan-go s t c [] h = rw (h, scan) refl
  scan-go s t c (d ∷ rest) h = rw (h, scan) refl

  pub scan-skip :
      (s t : Scan) (c d : ℕ) (rest : Text)
      → step s c (some d) ≡ skip t
      → scan step s (c ∷ d ∷ rest) ≡ scan step t rest
  unfolding scan
  scan-skip s t c d rest h = rw (h, scan) refl
