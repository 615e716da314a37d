-- ===== src/Shell/Bash.antt =====
-- `shellWords` of src/platform.mjs: POSIX quoting, without any expansion.
use ai_sdlc_framework.Prelude.{
  ℕ, true, ◌&&◌, ◌||◌, List, [], Option, none, some, ◌==◌, any, if◌then◌else◌,
}
use ai_sdlc_framework.Shell.Chars.{Text, is_space, is_shell_meta}
use ai_sdlc_framework.Shell.Scan.{Scan, between, Move, go, skip, stop, scan, put, flush}

-- `if (++index >= command.length) return null; word += command[index];`
unfoldable pub bash_escape : Scan → Option ℕ → Move
bash_escape s none = stop
bash_escape s (some d) = skip (put s d)

-- Inside quotes: only `\"` and `\\` in double quotes are escapes.
unfoldable pub bash_quoted : Scan → ℕ → ℕ → Option ℕ → Move
bash_quoted s q c none = go (if c == q then record s { quote = none; started = true } else put s c)
bash_quoted s q c (some d) =
    if c == q
    then go (record s { quote = none; started = true })
    else if c == 92 && q == b'"' && (d == b'"' || d == 92)
    then skip (put s d)
    else go (put s c)

unfoldable pub bash_plain : Scan → ℕ → Option ℕ → Move
unfolding bash_escape
bash_plain s c next =
    if c == b'"' || c == 39
    then go (record s { quote = some c; started = true })
    else if is_space c
    then go (flush s)
    else if c == 92
    then bash_escape s next
    else go (put s c)

unfoldable pub bash_step : Scan → ℕ → Option ℕ → Move
unfolding bash_quoted bash_plain
bash_step s c next = elim s.quote [ none ↦ bash_plain s c next | some q ↦ bash_quoted s q c next ]

-- `if (quote) return null; if (started) words.push(word); return words;`
unfoldable pub bash_finish : Scan → Option (List Text)
bash_finish s = elim s.quote [ none ↦ some (flush s).words | some q ↦ none ]

unfoldable pub shell_words : Text → Option (List Text)
unfolding bash_finish
shell_words command =
    if any is_shell_meta command
    then none
    else elim (scan bash_step (between []) command) [ none ↦ none | some s ↦ bash_finish s ]
