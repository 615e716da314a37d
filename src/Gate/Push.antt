-- ===== src/Gate/Push.antt =====
-- The options and the refspec of `classifyPush` in src/gate.mjs, up to the calls of git.
use ai_sdlc_framework.Prelude.{
  Bool, true, false, not, ◌&&◌, ◌||◌, List, [], ◌∷◌, ◌++◌, Option, none, some, if◌then◌else◌, every,
  ◌==◌,
}
use ai_sdlc_framework.Result.{Result, ok, fail, hook, binding, require_that, ◌>>=◌, ◌>>◌}
use ai_sdlc_framework.Shell.Chars.{Text, same_text}
use ai_sdlc_framework.Shell.PowerShell.{is_empty}
use ai_sdlc_framework.Gate.Literals.{
  equals, one_of, starts, text, contains, is_ref_char, ends_slash,
}

-- The variables of the loop.
pub record PushOptions : Type 0 where
  pub force : Bool
  pub delete_ref : Bool
  pub end_options : Bool
  pub no_follow_tags : Bool
  pub no_recurse_submodules : Bool
  pub operands : List Text

abbrev pub no_options : PushOptions
no_options = record {
  force = false;
  delete_ref = false;
  end_options = false;
  no_follow_tags = false;
  no_recurse_submodules = false;
  operands = [];
}

abbrev pub is_force : Text → Bool
is_force w =
    one_of ("-f" ∷ "--force" ∷ "--force-with-lease" ∷ []) w || starts "--force-with-lease=" w

abbrev pub is_neutral : Text → Bool
is_neutral w =
    one_of
      ("-q" ∷ "--quiet" ∷ "--porcelain" ∷ "--no-verify" ∷ "-u" ∷ "--set-upstream" ∷ "--dry-run"
        ∷ [])
      w

abbrev pub is_no_recurse : Text → Bool
is_no_recurse w = one_of ("--no-recurse-submodules" ∷ "--recurse-submodules=no" ∷ []) w

-- One option, before `--`.
unfoldable pub push_option : PushOptions → Text → Result PushOptions
push_option p w =
    if is_neutral w
    then ok p
    else if equals w "--no-follow-tags"
    then ok (record p { no_follow_tags = true })
    else if is_no_recurse w
    then ok (record p { no_recurse_submodules = true })
    else if is_force w
    then ok (record p { force = true })
    else if one_of ("-d" ∷ "--delete" ∷ []) w
    then ok (record p { delete_ref = true })
    else fail hook

unfoldable pub push_operand : PushOptions → Text → Result PushOptions
push_operand p w =
    if p.no_follow_tags && p.no_recurse_submodules
    then ok (record p { operands = p.operands ++ w ∷ [] })
    else fail hook

unfoldable pub push_argument : PushOptions → Text → Result PushOptions
unfolding push_option push_operand
push_argument p w =
    if not p.end_options && equals w "--"
    then ok (record p { end_options = true })
    else if not p.end_options && starts "-" w
    then push_option p w
    else push_operand p w

unfoldable pub push_options : PushOptions → List Text → Result PushOptions
unfolding push_argument
push_options p [] = ok p
push_options p (w ∷ ws) = do next ← push_argument p w; push_options next ws

-- `word.slice(11)` behind `refs/heads/`
abbrev pub behind_heads : Text → Text
behind_heads (r ∷ e ∷ f ∷ s ∷ slash ∷ h ∷ e2 ∷ a ∷ d ∷ s2 ∷ slash2 ∷ w) = w
behind_heads w = []

unfoldable pub is_branch : Text → Bool
is_branch w =
    starts "refs/heads/" w
    && not (is_empty (behind_heads w))
    && every is_ref_char (behind_heads w)
    && not (contains (text "..") w)
    && not (ends_slash w)

unfoldable pub branch_ref : Text → Result Text
branch_ref value = require_that (is_branch value) hook >> ok value

-- `[A-Za-z0-9._-]+`
unfoldable pub is_remote_name : Text → Bool
is_remote_name w = not (is_empty w) && every (λ c. is_ref_char c && not (c == b'/')) w

-- `value.split(':')`
unfoldable pub split_colon : Text → List Text
split_colon [] = [] ∷ []
split_colon (c ∷ w) =
    let rest = split_colon w in
    if c == b':'
    then [] ∷ rest
    else elim rest [ [] ↦ (c ∷ []) ∷ [] | piece ∷ pieces ↦ (c ∷ piece) ∷ pieces ]

-- `refspec.startsWith('+')`
abbrev pub is_plus : Text → Bool
is_plus [] = false
is_plus (c ∷ w) = c == b'+'

abbrev pub without_plus : Text → Text
without_plus [] = []
without_plus (c ∷ w) = if c == b'+' then w else c ∷ w

-- What the push asks for: the source of a deletion is `none`.
pub record PushRequest : Type 0 where
  pub remote : Text
  pub source_ref : Option Text
  pub target_ref : Text
  pub force : Bool
  pub delete : Bool

unfoldable pub push_pieces : Text → PushOptions → Text → Text → List Text → Result PushRequest
unfolding branch_ref
push_pieces branch p remote refspec pieces = elim pieces [
  | [] ↦ fail hook
  | source ∷ rest ↦ elim rest [
    | [] ↦ fail hook
    | target ∷ more ↦ elim more [
      | [] ↦ do
        require_that (not (is_empty source) && not (is_empty target)) hook
        source_ref ← branch_ref source
        require_that (same_text source_ref branch) binding
        target_ref ← branch_ref target
        ok (record {
          remote = remote;
          source_ref = some source_ref;
          target_ref = target_ref;
          force = p.force || is_plus refspec;
          delete = false;
        })
      | x ∷ xs ↦ fail hook
    ]
  ]
]

unfoldable pub push_refspec : Text → PushOptions → Text → Text → Result PushRequest
unfolding push_pieces split_colon contains
push_refspec branch p remote refspec =
    if p.delete_ref
    then (do
      require_that (not (contains (text ":") (without_plus refspec))) hook
      target_ref ← branch_ref (without_plus refspec)
      ok (record {
        remote = remote;
        source_ref = none;
        target_ref = target_ref;
        force = p.force || is_plus refspec;
        delete = true;
      }))
    else push_pieces branch p remote refspec (split_colon (without_plus refspec))

-- `operands.length === 2`, and the remote's name.
unfoldable pub push_operands : Text → PushOptions → List Text → Result PushRequest
unfolding push_refspec
push_operands branch p operands = elim operands [
  | [] ↦ fail hook
  | remote ∷ rest ↦ elim rest [
    | [] ↦ fail hook
    | refspec ∷ more ↦ elim more [
      | [] ↦ (require_that (is_remote_name remote) hook >> push_refspec branch p remote refspec)
      | x ∷ xs ↦ fail hook
    ]
  ]
]

-- `branch` is the branch of the bound worktree.
unfoldable pub push_request : Text → List Text → Result PushRequest
unfolding push_options push_operands
push_request branch args = do p ← push_options no_options args; push_operands branch p p.operands
