-- ===== src/Shell/Cmd.antt =====
-- `cmdWords` of src/platform.mjs: printable ASCII, a quoted word stands alone, and a word that hands
-- the line to another interpreter is refused. `commandWords` chooses the splitter.
use ai_sdlc_framework.Prelude.{
  ℕ, ◌+◌, Bool, true, false, not, ◌&&◌, ◌||◌, List, [], ◌∷◌, map, Option, none, some, ◌==◌, leb,
  any, every, if◌then◌else◌,
}
use ai_sdlc_framework.Shell.Chars.{Text, same_text, is_cmd_meta, is_cmd_printable}
use ai_sdlc_framework.Shell.Scan.{Scan, between, Move, go, stop, scan, put, flush}
use ai_sdlc_framework.Shell.Bash.{shell_words}
use ai_sdlc_framework.Shell.PowerShell.{power_shell_words, close_quote}

-- `word.endsWith('\\')`
unfoldable pub ends_backslash : Text → Bool
ends_backslash [] = false
ends_backslash (c ∷ []) = c == 92
ends_backslash (c ∷ d ∷ w) = ends_backslash (d ∷ w)

unfoldable pub cmd_quoted : Scan → ℕ → Move
unfolding ends_backslash
cmd_quoted s c =
    if c == b'"' then (if ends_backslash s.word then stop else go (close_quote s)) else go (put s c)

unfoldable pub cmd_plain : Scan → ℕ → Move
cmd_plain s c =
    if c == b'"'
    then (if s.started || s.just_closed
        then stop
        else go (record s { quote = some b'"'; started = true }))
    else if c == 32 || c == 9
    then go (record (flush s) { just_closed = false })
    else if s.just_closed
    then stop
    else go (put s c)

unfoldable pub cmd_step : Scan → ℕ → Option ℕ → Move
unfolding cmd_quoted cmd_plain
cmd_step s c next = elim s.quote [ none ↦ cmd_plain s c | some q ↦ cmd_quoted s c ]

-- `toLowerCase`, on the printable ASCII that the splitter accepts.
unfoldable pub to_lower : ℕ → ℕ
to_lower c = if leb b'A' c && leb c b'Z' then c + 32 else c

abbrev pub interpreters : List Text
interpreters =
    (b'c' ∷ b'a' ∷ b'l' ∷ b'l' ∷ [])
    ∷ (b'c' ∷ b'm' ∷ b'd' ∷ [])
    ∷ (b'c' ∷ b'm' ∷ b'd' ∷ b'.' ∷ b'e' ∷ b'x' ∷ b'e' ∷ [])
    ∷ (b's' ∷ b't' ∷ b'a' ∷ b'r' ∷ b't' ∷ [])
    ∷ []

unfoldable pub cmd_checked : List Text → Option (List Text)
unfolding to_lower
cmd_checked [] = some []
cmd_checked (w ∷ words) =
    if any (same_text (map to_lower w)) interpreters then none else some (w ∷ words)

unfoldable pub cmd_finish : Scan → Option (List Text)
unfolding cmd_checked
cmd_finish s = elim s.quote [ none ↦ cmd_checked (flush s).words | some q ↦ none ]

unfoldable pub cmd_words : Text → Option (List Text)
unfolding cmd_finish
cmd_words command =
    if not (every is_cmd_printable command) || any is_cmd_meta command
    then none
    else elim (scan cmd_step (between []) command) [ none ↦ none | some s ↦ cmd_finish s ]

pub data ShellFamily : Type 0 where
  bash powershell cmd : ShellFamily

-- A tool that is no shell has no words.
unfoldable pub command_words : Option ShellFamily → Text → Option (List Text)
command_words (some bash) command = shell_words command
command_words (some powershell) command = power_shell_words command
command_words (some cmd) command = cmd_words command
command_words none command = none
