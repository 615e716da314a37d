-- ===== src/Gate/Examples.antt =====
-- Examples for the command classifiers of src/gate.mjs.
use ai_sdlc_framework.Prelude.{true, false, List, [], ◌∷◌, none, some, ◌≡◌, refl, any}
use ai_sdlc_framework.Shell.Chars.{Text, same_text}
use ai_sdlc_framework.Gate.Literals.{text, equals, begins_with, is_ref_char, ends_slash}
use ai_sdlc_framework.Gate.Git.{git_invocation}
use ai_sdlc_framework.Gate.GitForm.{IsForm, git_invocation-IsForm}
use ai_sdlc_framework.Gate.Push.{
  push_request, PushRequest, is_no_recurse, is_remote_name, is_branch,
}
use ai_sdlc_framework.Gate.PushForm.{IsBound, is_no_tags, push_request-IsBound}

-- `--no-pager -C a status -s`
abbrev status_words : List Text
status_words = text "--no-pager" ∷ text "-C" ∷ text "a" ∷ text "status" ∷ text "-s" ∷ []

git_invocation-IsForm_example :
    (g : Text) × (rest : List Text) × (text "git" ∷ status_words ≡ g ∷ rest)
    × (equals g "git" ≡ true)
    × IsForm none rest (text "status") (text "-s" ∷ []) (some (text "a"))
unfolding git_invocation same_text begins_with
git_invocation-IsForm_example =
    git_invocation-IsForm (text "git" ∷ status_words) (text "status") (text "-s" ∷ [])
      (some (text "a")) refl

abbrev push_words : List Text
push_words =
    text "--no-follow-tags"
    ∷ text "--no-recurse-submodules"
    ∷ text "origin"
    ∷ text "refs/heads/a:refs/heads/b"
    ∷ []

abbrev pushed : PushRequest
pushed = record {
  remote = text "origin";
  source_ref = some (text "refs/heads/a");
  target_ref = text "refs/heads/b";
  force = false;
  delete = false;
}

push_request-IsBound_example :
    (any is_no_tags push_words ≡ true)
    × (any is_no_recurse push_words ≡ true)
    × IsBound (text "refs/heads/a") pushed
unfolding push_request same_text is_remote_name is_ref_char is_branch ends_slash
push_request-IsBound_example =
    push_request-IsBound (text "refs/heads/a") push_words {r = pushed} refl
