-- ===== src/Shell/PowerShell.antt =====
-- `powerShellWords` of src/platform.mjs: a doubled quote stands for itself, and text may not touch a
-- closing quote.
use ai_sdlc_framework.Prelude.{
  ℕ, Bool, true, false, ◌&&◌, ◌||◌, List, [], ◌∷◌, Option, none, some, ◌==◌, any, includes,
  if◌then◌else◌,
}
use ai_sdlc_framework.Shell.Chars.{Text, is_space, is_shell_meta}
use ai_sdlc_framework.Shell.Scan.{Scan, between, Move, go, skip, stop, scan, put, flush}

abbrev pub is_empty : Text → Bool
is_empty [] = true
is_empty (c ∷ w) = false

abbrev pub is_quote : ℕ → Bool
is_quote c = c == b'"' || c == 39

abbrev pub close_quote : Scan → Scan
close_quote s = record s { quote = none; started = true; just_closed = true }

unfoldable pub ps_quoted : Scan → ℕ → ℕ → Option ℕ → Move
ps_quoted s q c none = go (if c == q then close_quote s else put s c)
ps_quoted s q c (some d) =
    if c == q then (if d == q then skip (put s q) else go (close_quote s)) else go (put s c)

-- `if (started) { if (word === '') return null; … } justClosedQuote = false;`
unfoldable pub ps_space : Scan → Move
ps_space s =
    if s.started && is_empty s.word then stop else go (record (flush s) { just_closed = false })

unfoldable pub ps_plain : Scan → ℕ → Move
unfolding ps_space
ps_plain s c =
    if is_quote c
    then (if s.just_closed then stop else go (record s { quote = some c; started = true }))
    else if is_space c
    then ps_space s
    else if s.just_closed
    then stop
    else go (put s c)

unfoldable pub ps_step : Scan → ℕ → Option ℕ → Move
unfolding ps_quoted ps_plain
ps_step s c next = elim s.quote [ none ↦ ps_plain s c | some q ↦ ps_quoted s q c next ]

-- `value.startsWith('-') && value.includes(':')`
abbrev pub is_bound_parameter : Text → Bool
is_bound_parameter [] = false
is_bound_parameter (c ∷ w) = c == b'-' && includes (c ∷ w) b':'

-- `words.some(value => value.startsWith('-') && value.includes(':'))` returns null
unfoldable pub ps_checked : List Text → Option (List Text)
ps_checked words = if any is_bound_parameter words then none else some words

unfoldable pub ps_finish : Scan → Option (List Text)
unfolding ps_checked
ps_finish s = elim s.quote [
  | none ↦ if s.started && is_empty s.word then none else ps_checked (flush s).words
  | some q ↦ none
]

-- `/^\s*["']/u`
unfoldable pub begins_quoted : Text → Bool
begins_quoted [] = false
begins_quoted (c ∷ rest) = is_quote c || (is_space c && begins_quoted rest)

unfoldable pub power_shell_words : Text → Option (List Text)
unfolding ps_finish
power_shell_words command =
    if any is_shell_meta command || begins_quoted command
    then none
    else elim (scan ps_step (between []) command) [ none ↦ none | some s ↦ ps_finish s ]
