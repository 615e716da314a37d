-- ===== src/Gate/Git.antt =====
-- `gitInvocation`, `requireIndexOnlyCommit`, `symbolicRefReadOnly` and `unboundReadOnlyShell` of
-- src/gate.mjs.
use ai_sdlc_framework.Prelude.{
  Bool, false, not, ◌&&◌, ◌||◌, List, [], ◌∷◌, Option, none, some, if◌then◌else◌, any, every,
  String, is_defined, map, ◌++◌,
}
use ai_sdlc_framework.Result.{Result, ok, fail, hook, require_that, ◌>>=◌, ◌>>◌}
use ai_sdlc_framework.Shell.Chars.{Text}
use ai_sdlc_framework.Shell.PowerShell.{is_empty}
use ai_sdlc_framework.Shell.Cmd.{to_lower}
use ai_sdlc_framework.Gate.Literals.{
  equals, one_of, starts, text, contains, is_ref_char, begins_with,
}

pub data Invocation : Type 0 where
  not_git : Invocation
  unsupported : Invocation
  invocation : Text → List Text → Option Text → Invocation

abbrev pub is_git_flag : Text → Bool
is_git_flag w = one_of ("--no-pager" ∷ "--no-optional-locks" ∷ []) w

-- The loop over the words behind `git`; `cwd` is there where a `-C` was read.
unfoldable pub git_options : Option Text → List Text → Result Invocation
git_options cwd [] = ok unsupported
git_options cwd (w ∷ []) =
    if is_git_flag w
    then ok unsupported
    else if equals w "-C"
    then fail hook
    else ok (if starts "-" w then unsupported else invocation w [] cwd)
git_options cwd (w ∷ p ∷ ws) =
    let flagged = git_options cwd (p ∷ ws) in
    let moved = git_options (some p) ws in
    if is_git_flag w
    then flagged
    else if equals w "-C"
    then (require_that (not (is_empty p)) hook
        >> (require_that (not (is_defined cwd)) hook >> moved))
    else ok (if starts "-" w then unsupported else invocation w (p ∷ ws) cwd)

unfoldable pub git_invocation : List Text → Result Invocation
unfolding git_options
git_invocation [] = ok not_git
git_invocation (w ∷ ws) = if equals w "git" then git_options none ws else ok not_git

abbrev pub value_options : List String
value_options =
    "-m" ∷ "--message" ∷ "-F" ∷ "--file" ∷ "--author" ∷ "--date" ∷ "--cleanup" ∷ "--trailer" ∷ []

abbrev pub flag_options : List String
flag_options =
    "-q" ∷ "--quiet" ∷ "-v" ∷ "--verbose" ∷ "--no-verify" ∷ "-s" ∷ "--signoff" ∷ "--allow-empty"
    ∷ "--allow-empty-message" ∷ "--no-post-rewrite" ∷ "--no-gpg-sign" ∷ "-S" ∷ "--gpg-sign" ∷ []

-- `${option}=`
abbrev pub has_value : List String → Text → Bool
has_value [] w = false
has_value (s ∷ ss) w = begins_with (text s ++ b'=' ∷ []) w || has_value ss w

-- `/^-S.+/u`
abbrev pub is_signed : Text → Bool
is_signed w = starts "-S" w && not (equals w "-S")

abbrev pub is_commit_flag : Text → Bool
is_commit_flag w =
    one_of flag_options w || is_signed w || starts "--gpg-sign=" w || has_value value_options w

unfoldable pub require_index_only_commit : List Text → Result (Unit {0})
require_index_only_commit [] = ok tt
require_index_only_commit (w ∷ []) =
    require_that (not (one_of value_options w) && is_commit_flag w) hook
require_index_only_commit (w ∷ p ∷ ws) =
    let valued = require_index_only_commit ws in
    let flagged = require_index_only_commit (p ∷ ws) in
    if one_of value_options w then valued else (require_that (is_commit_flag w) hook >> flagged)

-- The operands, or `none` where an option is not one of the three.
unfoldable pub symbolic_operands : List Text → Option (List Text)
symbolic_operands [] = some []
symbolic_operands (w ∷ ws) =
    let rest = symbolic_operands ws in
    if one_of ("-q" ∷ "--quiet" ∷ "--short" ∷ []) w
    then rest
    else if starts "-" w
    then none
    else elim rest [ none ↦ none | some operands ↦ some (w ∷ operands) ]

-- `word.slice(5)` behind `refs/`
abbrev pub behind_refs : Text → Text
behind_refs (r ∷ e ∷ f ∷ s ∷ slash ∷ w) = w
behind_refs w = []

-- `/^(?:HEAD|refs\/[A-Za-z0-9._/-]+)$/u`, without `..` and `@{`
unfoldable pub is_readable_ref : Text → Bool
unfolding contains
is_readable_ref w =
    (equals w "HEAD"
      || (starts "refs/" w && not (is_empty (behind_refs w)) && every is_ref_char (behind_refs w)))
    && not (contains (text "..") w)
    && not (contains (text "@{") w)

unfoldable pub symbolic_ref_read_only : List Text → Bool
unfolding symbolic_operands
symbolic_ref_read_only args = elim (symbolic_operands args) [
  | none ↦ false
  | some operands ↦ elim operands [
    | [] ↦ false
    | w ∷ ws ↦ elim ws [ [] ↦ is_readable_ref w | x ∷ xs ↦ false ]
  ]
]

abbrev pub read_operations : List String
read_operations =
    "status" ∷ "log" ∷ "show" ∷ "diff" ∷ "ls-files" ∷ "rev-parse" ∷ "symbolic-ref" ∷ []

abbrev pub is_writing_option : Text → Bool
is_writing_option w =
    one_of
      ("--output" ∷ "--ext-diff" ∷ "--textconv" ∷ "--no-index" ∷ "--exec-path" ∷ "--git-dir"
        ∷ "--work-tree" ∷ "--delete" ∷ "-d" ∷ [])
      w
    || starts "--output=" w

abbrev pub read_commands : List String
read_commands =
    "pwd" ∷ "ls" ∷ "cd" ∷ "dir" ∷ "type" ∷ "get-location" ∷ "get-childitem" ∷ "get-content"
    ∷ "resolve-path" ∷ "set-location" ∷ []

abbrev pub is_read_command : List Text → Bool
is_read_command [] = false
is_read_command (w ∷ ws) =
    one_of read_commands (map to_lower w) && not (any (starts "-exec") (w ∷ ws))

unfoldable pub git_reads : Text → List Text → Bool
git_reads operation args =
    not (equals operation "symbolic-ref" && not (symbolic_ref_read_only args))
    && one_of read_operations operation
    && not (any is_writing_option args)

-- Without an operation, `git` falls through to the shell commands that read.
unfoldable pub unbound_read_only_shell : List Text → Result Bool
unfolding git_reads
unbound_read_only_shell words = do
  found ← git_invocation words
  elim found [
    | not_git ↦ ok (is_read_command words)
    | unsupported ↦ ok (is_read_command words)
    | invocation operation args cwd ↦
        ok (if is_empty operation then is_read_command words else git_reads operation args)
  ]
