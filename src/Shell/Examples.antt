-- ===== src/Shell/Examples.antt =====
-- Examples for the command lines of src/core.mjs and src/platform.mjs.
use ai_sdlc_framework.Prelude.{[], ◌∷◌, some, ◌≡◌, ◌≢◌, refl}
use ai_sdlc_framework.Shell.Chars.{Text, is_plain, is_shell_meta}
use ai_sdlc_framework.Shell.Bash.{shell_words}
use ai_sdlc_framework.Shell.PowerShell.{power_shell_words}
use ai_sdlc_framework.Shell.Quote.{
  posix, win32, shell_argument, detail_command, sdlc_text, work_item_text, home_text,
}
use ai_sdlc_framework.Shell.Lines.{line}
use ai_sdlc_framework.Shell.RoundTrip.{shell_words-line, shell_words-detail_command}
use ai_sdlc_framework.Shell.PowerShellLines.{power_shell_words-line}
use ai_sdlc_framework.Shell.Backslash.{
  shell_words-plain_argument, plain_backslash_lost, drop_escapes,
}

-- `show`
abbrev show_text : Text
show_text = b's' ∷ b'h' ∷ b'o' ∷ b'w' ∷ []

-- `it's 1`
abbrev item_text : Text
item_text = b'i' ∷ b't' ∷ 39 ∷ b's' ∷ 32 ∷ b'1' ∷ []

-- `a\b`
abbrev path_text : Text
path_text = b'a' ∷ 92 ∷ b'b' ∷ []

shell_words-line_example :
    shell_words (line (shell_argument posix) show_text (item_text ∷ [] ∷ []))
    ≡ some (show_text ∷ item_text ∷ [] ∷ [])
unfolding is_shell_meta is_plain
shell_words-line_example =
    shell_words-line show_text (item_text ∷ [] ∷ []) (refl, refl) ((refl, refl), ((refl, refl), tt))

shell_words-detail_command_example :
    shell_words (detail_command posix show_text item_text (some show_text))
    ≡ some (sdlc_text ∷ show_text ∷ work_item_text ∷ item_text ∷ home_text ∷ show_text ∷ [])
unfolding is_shell_meta is_plain
shell_words-detail_command_example =
    shell_words-detail_command show_text item_text (some show_text) refl (refl, refl) (refl, refl)
      (refl, refl)

shell_words-plain_argument_example :
    shell_words (shell_argument posix path_text) ≡ some ((b'a' ∷ b'b' ∷ []) ∷ [])
unfolding is_plain drop_escapes
shell_words-plain_argument_example = shell_words-plain_argument path_text refl

plain_backslash_lost_example : shell_words (shell_argument posix path_text) ≢ some (path_text ∷ [])
unfolding is_plain
plain_backslash_lost_example = plain_backslash_lost path_text refl refl

power_shell_words-line_example :
    power_shell_words (line (shell_argument win32) show_text (item_text ∷ path_text ∷ []))
    ≡ some (show_text ∷ item_text ∷ path_text ∷ [])
unfolding is_shell_meta is_plain
power_shell_words-line_example =
    power_shell_words-line show_text (item_text ∷ path_text ∷ []) refl (refl, refl, refl)
      ((refl, refl, refl), ((refl, refl, refl), tt))
