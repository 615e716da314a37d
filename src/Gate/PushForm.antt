-- ===== src/Gate/PushForm.antt =====
-- What a push has to say for `classifyPush` of src/gate.mjs to accept it.
use ai_sdlc_framework.Prelude.{
  Bool, true, false, List, [], ◌∷◌, Option, none, some, ◌≡◌, ◌≢◌, ◌⊎◌, inl, inr, arith, Bool-cases,
  any, ◌||◌, ◌&&◌,
}
use ai_sdlc_framework.Result.{ok, bind_ok}
use ai_sdlc_framework.Shell.Chars.{Text, same_text}
use ai_sdlc_framework.Gate.Literals.{equals}
use ai_sdlc_framework.Gate.Push.{
  PushOptions, PushRequest, no_options, push_option, push_operand, push_argument, push_options,
  push_operands, push_refspec, push_pieces, push_request, branch_ref, is_branch, is_no_recurse,
  split_colon, without_plus, is_remote_name,
}

abbrev pub is_no_tags : Text → Bool
is_no_tags w = equals w "--no-follow-tags"

-- What one argument may change.
abbrev Advances : PushOptions → Text → PushOptions → Type 0
Advances p w q =
    (q.no_follow_tags ≡ true → (p.no_follow_tags || is_no_tags w) ≡ true)
    × (q.no_recurse_submodules ≡ true → (p.no_recurse_submodules || is_no_recurse w) ≡ true)
    × ((q.operands ≡ p.operands) ⊎ ((p.no_follow_tags ≡ true) × (p.no_recurse_submodules ≡ true)))
    × (p.no_follow_tags ≡ true → q.no_follow_tags ≡ true)
    × (p.no_recurse_submodules ≡ true → q.no_recurse_submodules ≡ true)

argument-Advances : (p q : PushOptions) (w : Text) → push_argument p w ≡ ok q → Advances p w q
unfolding push_argument push_option push_operand
argument-Advances p q w h = ground arith

-- What the arguments may change together.
abbrev AdvancesAll : PushOptions → List Text → PushOptions → Type 0
AdvancesAll p ws q =
    (q.no_follow_tags ≡ true → (p.no_follow_tags || any is_no_tags ws) ≡ true)
    × (q.no_recurse_submodules ≡ true → (p.no_recurse_submodules || any is_no_recurse ws) ≡ true)
    × ((q.operands ≡ p.operands) ⊎ ((q.no_follow_tags ≡ true) × (q.no_recurse_submodules ≡ true)))
    × (p.no_follow_tags ≡ true → q.no_follow_tags ≡ true)
    × (p.no_recurse_submodules ≡ true → q.no_recurse_submodules ≡ true)

advance_again :
    (p next q : PushOptions) (w : Text) (ws : List Text)
    → Advances p w next
    → AdvancesAll next ws q
    → AdvancesAll p (w ∷ ws) q
advance_again p next q w ws a b = ground (arith, a, b)

options_advance :
    (p q : PushOptions) (ws : List Text) → push_options p ws ≡ ok q → AdvancesAll p ws q
unfolding push_options
options_advance p q [] h = ground (arith, h)
options_advance p q (w ∷ ws) h =
    let step = bind_ok (push_argument p w) (λ next. push_options next ws) h in
    advance_again p step.0 q w ws (argument-Advances p step.0 w step.1)
      (options_advance step.0 q ws step.2)

branch_checked : (w : Text) {v : Text} → branch_ref w ≡ ok v → (v ≡ w) × (is_branch w ≡ true)
unfolding branch_ref
branch_checked w h = ground arith

abbrev pub is_bound_source : Text → Option Text → Bool
is_bound_source branch none = false
is_bound_source branch (some source) = is_branch source && same_text source branch

-- What is true of the refs of an accepted push.
abbrev pub IsBound : Text → PushRequest → Type 0
IsBound branch r =
    (is_branch r.target_ref ≡ true) × ((r.delete || is_bound_source branch r.source_ref) ≡ true)

pieces-IsBound :
    (branch : Text) (p : PushOptions) (remote refspec : Text) (pieces : List Text) {r : PushRequest}
    → push_pieces branch p remote refspec pieces ≡ ok r
    → IsBound branch r
unfolding push_pieces branch_ref
pieces-IsBound branch p remote refspec [] h = cc
pieces-IsBound branch p remote refspec (s ∷ []) h = cc
pieces-IsBound branch p remote refspec (s ∷ t ∷ []) {r} h = ground arith
pieces-IsBound branch p remote refspec (s ∷ t ∷ x ∷ xs) h = cc

refspec-IsBound :
    (branch : Text) (p : PushOptions) (remote refspec : Text) {r : PushRequest}
    → push_refspec branch p remote refspec ≡ ok r
    → IsBound branch r
unfolding push_refspec branch_ref
refspec-IsBound branch p remote refspec {r} h = elim (Bool-cases p.delete_ref) [
  | inl d ↦ ground (arith, h)
  | inr k ↦ pieces-IsBound branch p remote refspec (split_colon (without_plus refspec)) (rw k at h)
]

operands-IsBound :
    (branch : Text) (p : PushOptions) (operands : List Text) {r : PushRequest}
    → push_operands branch p operands ≡ ok r
    → (operands ≢ []) × IsBound branch r
unfolding push_operands
operands-IsBound branch p [] h = cc
operands-IsBound branch p (m ∷ []) h = cc
operands-IsBound branch p (m ∷ s ∷ []) {r} h = elim (Bool-cases (is_remote_name m)) [
  | inl y ↦ (λ e. cc, refspec-IsBound branch p m s (rw y at h))
  | inr n ↦ absurd (ground (arith, h))
]
operands-IsBound branch p (m ∷ s ∷ x ∷ xs) h = cc

-- An accepted push says that no tags follow and that no submodule is pushed, its destination is a
-- fully qualified branch, and it deletes, or its source is a fully qualified branch too, which is the
-- branch of the bound worktree.
pub push_request-IsBound :
    (branch : Text) (args : List Text) {r : PushRequest}
    → push_request branch args ≡ ok r
    → (any is_no_tags args ≡ true) × (any is_no_recurse args ≡ true) × IsBound branch r
unfolding push_request
push_request-IsBound branch args {r} h =
    let read = bind_ok (push_options no_options args) (λ p. push_operands branch p p.operands) h in
    let bound = operands-IsBound branch read.0 read.0.operands read.2 in
    let advanced = options_advance no_options read.0 args read.1 in
    (ground (arith, bound.0, advanced), ground (arith, bound.0, advanced), bound.1)
