-- ===== src/Gate/GitForm.antt =====
-- What a command line has to look like for src/gate.mjs to read it as a git operation.
use ai_sdlc_framework.Prelude.{
  true, false, not, List, [], ◌∷◌, ◌++◌, Option, none, some, ◌≡◌, refl, inl, inr, ap, sym, arith,
  Bool-cases, if◌then◌else◌, is_defined,
}
use ai_sdlc_framework.Result.{ok, hook, require_that, ◌>>◌}
use ai_sdlc_framework.Shell.Chars.{Text}
use ai_sdlc_framework.Shell.PowerShell.{is_empty}
use ai_sdlc_framework.Gate.Literals.{equals, starts}
use ai_sdlc_framework.Gate.Git.{invocation, unsupported, git_options, git_invocation, is_git_flag}

-- The options that may stand between `git` and the operation, with the path of `-C` before and
-- behind them: two harmless flags, and `-C` with a path, once.
pub data Options : Option Text → List Text → Option Text → Type 0 where
  done : {cwd : Option Text} → Options cwd [] cwd
  flag :
      {cwd c : Option Text} {w : Text} {ws : List Text}
      → is_git_flag w ≡ true
      → Options cwd ws c
      → Options cwd (w ∷ ws) c
  path :
      {c : Option Text} {w p : Text} {ws : List Text}
      → equals w "-C" ≡ true
      → is_empty p ≡ false
      → Options (some p) ws c
      → Options none (w ∷ p ∷ ws) c

abbrev pub IsForm : Option Text → List Text → Text → List Text → Option Text → Type 0
IsForm cwd words operation args c =
    (before : List Text) × (words ≡ before ++ operation ∷ args)
    × Options cwd before c
    × (starts "-" operation ≡ false)

add_flag :
    {cwd c : Option Text} {w : Text} {ws : List Text} {operation : Text} {args : List Text}
    → is_git_flag w ≡ true
    → IsForm cwd ws operation args c
    → IsForm cwd (w ∷ ws) operation args c
add_flag {w = w} f h = (w ∷ h.0, ap (◌∷◌ w) h.1, flag f h.2, h.3)

add_path :
    {c : Option Text} {w p : Text} {ws : List Text} {operation : Text} {args : List Text}
    → equals w "-C" ≡ true
    → is_empty p ≡ false
    → IsForm (some p) ws operation args c
    → IsForm none (w ∷ p ∷ ws) operation args c
add_path {w = w} {p = p} e n h = (w ∷ p ∷ h.0, ap (λ x. w ∷ p ∷ x) h.1, path e n h.2, h.3)

invocation_parts :
    (w : Text) (ws : List Text) (cwd : Option Text) (operation : Text) (args : List Text)
    (c : Option Text)
    → ok (if starts "-" w then unsupported else invocation w ws cwd)
      ≡ ok (invocation operation args c)
    → (starts "-" w ≡ false) × (w ≡ operation) × (ws ≡ args) × (cwd ≡ c)
invocation_parts w ws cwd operation args c h = ground arith

-- The last option fits.
last-IsForm :
    (w : Text) (ws : List Text) (cwd : Option Text) (operation : Text) (args : List Text)
    (c : Option Text)
    → ok (if starts "-" w then unsupported else invocation w ws cwd)
      ≡ ok (invocation operation args c)
    → IsForm cwd (w ∷ ws) operation args c
last-IsForm w ws cwd operation args c h =
    let parts = invocation_parts w ws cwd operation args c h in
    rw (sym parts.1, sym parts.2, sym parts.3) ([], refl, done, parts.0)

git_options-IsForm :
    (cwd : Option Text) (words : List Text) (operation : Text) (args : List Text) (c : Option Text)
    → git_options cwd words ≡ ok (invocation operation args c)
    → IsForm cwd words operation args c
unfolding git_options
git_options-IsForm cwd [] operation args c h = cc
git_options-IsForm cwd (w ∷ []) operation args c h = elim (Bool-cases (is_git_flag w)) [
  | inl f ↦ absurd (ground (arith, h))
  | inr n ↦ elim (Bool-cases (equals w "-C")) [
    | inl e ↦ absurd (ground (arith, h))
    | inr m ↦ last-IsForm w [] cwd operation args c (rw (n, m) at h)
  ]
]
git_options-IsForm cwd (w ∷ p ∷ ws) operation args c h = elim (Bool-cases (is_git_flag w)) [
  | inl f ↦ add_flag f (git_options-IsForm cwd (p ∷ ws) operation args c (rw f at h))
  | inr n ↦ elim (Bool-cases (equals w "-C")) [
    | inl e ↦ moved_form cwd (git_options-IsForm (some p) ws operation args c) e (rw (n, e) at h)
    | inr m ↦ last-IsForm w (p ∷ ws) cwd operation args c (rw (n, m) at h)
  ]
]
  where
    moved_form :
        (d : Option Text)
        → (git_options (some p) ws ≡ ok (invocation operation args c)
            → IsForm (some p) ws operation args c)
        → equals w "-C" ≡ true
        → (require_that (not (is_empty p)) hook
            >> (require_that (not (is_defined d)) hook >> git_options (some p) ws))
          ≡ ok (invocation operation args c)
        → IsForm d (w ∷ p ∷ ws) operation args c
    moved_form none rest e k = elim (Bool-cases (is_empty p)) [
      | inl y ↦ absurd (ground (arith, k))
      | inr n ↦ add_path e n (rest (rw n at k))
    ]
    moved_form (some d) rest e k = absurd (ground (arith, k))

-- A command line is read as a git operation only where it is `git`, then harmless flags and at most
-- one `-C` with a path that is not empty, then the operation, which is no option, then its arguments;
-- the path of `-C` is the directory that is reported.
pub git_invocation-IsForm :
    (words : List Text) (operation : Text) (args : List Text) (c : Option Text)
    → git_invocation words ≡ ok (invocation operation args c)
    → (g : Text) × (rest : List Text) × (words ≡ g ∷ rest)
      × (equals g "git" ≡ true)
      × IsForm none rest operation args c
unfolding git_invocation
git_invocation-IsForm [] operation args c h = cc
git_invocation-IsForm (w ∷ ws) operation args c h = elim (Bool-cases (equals w "git")) [
  | inl e ↦ (w, ws, refl, e, git_options-IsForm none ws operation args c (rw e at h))
  | inr n ↦ absurd (ground (arith, h))
]
