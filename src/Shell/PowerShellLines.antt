-- ===== src/Shell/PowerShellLines.antt =====
-- `powerShellWords` reads back what `shellArgument` quotes on Windows.
use ai_sdlc_framework.Prelude.{
  ℕ, Bool, true, false, List, [], ◌∷◌, ◌++◌, Option, none, some, ◌≡◌, refl, ◌∙◌, ap, arith, ◌==◌,
  ==_iff, Bool-cases, inl, inr, every, not, any, ◌||◌,
}
use mathlib.Core.List.{append-nil, append_assoc}
use ai_sdlc_framework.Shell.Chars.{Text, is_plain, is_space, is_shell_meta}
use ai_sdlc_framework.Shell.Scan.{Scan, between, go, skip, scan, next_of, scan-go, scan-skip}
use ai_sdlc_framework.Shell.PowerShell.{
  ps_step, is_empty, is_bound_parameter, power_shell_words, ps_checked, begins_quoted, ps_finish,
}
use ai_sdlc_framework.Shell.Lines.{
  IsSeparated, line, behind, All, All-map, any-append, any-line, scan-line,
}
use ai_sdlc_framework.Shell.Quote.{win32, escape_quotes, is_plain_word, shell_argument}

abbrev inside : List Text → Text → Scan
inside ws u = record { words = ws; word = u; quote = some 39; started = true; just_closed = false }

-- Behind an argument; `b` says that it was quoted.
abbrev outside : List Text → Text → Bool → Scan
outside ws u b = record { words = ws; word = u; quote = none; started = true; just_closed = b }

-- A single quote is doubled, unless the text ends: then it closes.
inside_literal :
    (ws : List Text) (u : Text) (c : ℕ) (next : Option ℕ)
    → (c == 39) ≡ false
    → ps_step (inside ws u) c next ≡ go (inside ws (u ++ c ∷ []))
unfolding ps_step
inside_literal ws u c none h = ground arith
inside_literal ws u c (some d) h = ground arith

inside_close :
    (ws : List Text) (u rest : Text)
    → IsSeparated rest
    → ps_step (inside ws u) 39 (next_of rest) ≡ go (outside ws u true)
unfolding ps_step
inside_close ws u rest h = ground arith

inside_double :
    (ws : List Text) (u : Text)
    → ps_step (inside ws u) 39 (some 39) ≡ skip (inside ws (u ++ 39 ∷ []))
unfolding ps_step
inside_double ws u = refl

scan-escaped :
    (ws : List Text) (u w rest : Text)
    → scan ps_step (inside ws u) (escape_quotes win32 w ++ rest)
      ≡ scan ps_step (inside ws (u ++ w)) rest
unfolding escape_quotes
scan-escaped ws u [] rest = rw append-nil
scan-escaped ws u (c ∷ w) rest = elim (Bool-cases (c == 39)) [
  | inl e ↦
      rw (e, (==_iff c 39).0 e)
        (scan-skip ps_step (inside ws u) (inside ws (u ++ 39 ∷ [])) 39 39
            (escape_quotes win32 w ++ rest) (inside_double ws u)
          ∙ (scan-escaped ws (u ++ 39 ∷ []) w rest
              ∙ ap (λ v. scan ps_step (inside ws v) rest) (append_assoc u (39 ∷ []) w)))
  | inr n ↦ rw n (
      scan-go ps_step (inside ws u) (inside ws (u ++ c ∷ [])) c (escape_quotes win32 w ++ rest)
        (inside_literal ws u c (next_of (escape_quotes win32 w ++ rest)) n)
      ∙ (scan-escaped ws (u ++ c ∷ []) w rest
          ∙ ap (λ v. scan ps_step (inside ws v) rest) (append_assoc u (c ∷ []) w)))
]

outside_literal :
    (ws : List Text) (u : Text) (b : Bool) (c : ℕ) (next : Option ℕ)
    → is_plain c ≡ true
    → ps_step
        (record { words = ws; word = u; quote = none; started = b; just_closed = false })
        c
        next
      ≡ go (outside ws (u ++ c ∷ []) false)
unfolding ps_step is_plain is_space
outside_literal ws u b c next h = ground arith

scan-plain :
    (ws : List Text) (u w rest : Text)
    → every is_plain w ≡ true
    → scan ps_step (outside ws u false) (w ++ rest) ≡ scan ps_step (outside ws (u ++ w) false) rest
scan-plain ws u [] rest h = rw append-nil
scan-plain ws u (c ∷ w) rest h =
    scan-go ps_step (outside ws u false) (outside ws (u ++ c ∷ []) false) c (w ++ rest)
      (outside_literal ws u true c (next_of (w ++ rest)) (ground arith))
    ∙ (scan-plain ws (u ++ c ∷ []) w rest (ground arith)
        ∙ ap (λ v. scan ps_step (outside ws v false) rest) (append_assoc u (c ∷ []) w))

reads_plain :
    (ws : List Text) (w rest : Text)
    → is_plain_word w ≡ true
    → scan ps_step (between ws) (w ++ rest) ≡ scan ps_step (outside ws w false) rest
reads_plain ws [] rest h = cc
reads_plain ws (c ∷ w) rest h =
    scan-go ps_step (between ws) (outside ws (c ∷ []) false) c (w ++ rest)
      (outside_literal ws [] false c (next_of (w ++ rest)) (ground arith))
    ∙ scan-plain ws (c ∷ []) w rest (ground arith)

open_quote : (ws : List Text) (next : Option ℕ) → ps_step (between ws) 39 next ≡ go (inside ws [])
unfolding ps_step
open_quote ws next = refl

reads_quoted :
    (ws : List Text) (w rest : Text)
    → IsSeparated rest
    → scan ps_step (between ws) (39 ∷ ((escape_quotes win32 w ++ 39 ∷ []) ++ rest))
      ≡ scan ps_step (outside ws w true) rest
reads_quoted ws w rest h = rw append_assoc (
    scan-go ps_step (between ws) (inside ws []) 39 (escape_quotes win32 w ++ (39 ∷ rest))
      (open_quote ws (next_of (escape_quotes win32 w ++ (39 ∷ rest))))
    ∙ (scan-escaped ws [] w (39 ∷ rest)
        ∙ scan-go ps_step (inside ws w) (outside ws w true) 39 rest (inside_close ws w rest h)))

reads_argument :
    (ws : List Text) (w rest : Text)
    → IsSeparated rest
    → scan ps_step (between ws) (shell_argument win32 w ++ rest)
      ≡ scan ps_step (outside ws w (not (is_plain_word w))) rest
unfolding shell_argument
reads_argument ws w rest h = elim (Bool-cases (is_plain_word w)) [
  | inl e ↦ rw e (reads_plain ws w rest e)
  | inr n ↦ rw n (reads_quoted ws w rest h)
]

abbrev after : List Text → Text → Scan
after ws w = outside ws w (not (is_plain_word w))

-- `shellArgument` cannot express an empty word to `powerShellWords`, nor a parameter with a colon.
abbrev pub IsCarried : Text → Type 0
IsCarried w = (any is_shell_meta w ≡ false) × (is_empty w ≡ false) × (is_bound_parameter w ≡ false)

splits_argument :
    (ws : List Text) (w : Text) (next : Option ℕ)
    → IsCarried w
    → ps_step (after ws w) 32 next ≡ go (between (ws ++ w ∷ []))
unfolding ps_step is_space
splits_argument ws w next h = rw h.1

ps_finish-behind :
    (ws : List Text) (a : Text) (bs : List Text)
    → IsCarried a
    → All IsCarried bs
    → ps_finish (behind after ws a bs) ≡ ps_checked (ws ++ a ∷ bs)
unfolding ps_finish behind
ps_finish-behind ws a [] ha hs = rw ha.1
ps_finish-behind ws a (b ∷ bs) ha hs =
    ps_finish-behind (ws ++ a ∷ []) b bs hs.0 hs.1
    ∙ ap ps_checked (append_assoc ws (a ∷ []) (b ∷ bs))

any-All : (p : Text → Bool) (bs : List Text) → All (λ b. p b ≡ false) bs → any p bs ≡ false
any-All p [] h = refl
any-All p (b ∷ bs) h = rw h.0 (any-All p bs h.1)

checked_carried : (bs : List Text) → All IsCarried bs → ps_checked bs ≡ some bs
unfolding ps_checked
checked_carried bs h = rw (
    any-All is_bound_parameter bs
      (All-map {Q = λ b. is_bound_parameter b ≡ false} (λ b k. k.2) bs h))

quote_not_meta : is_shell_meta 39 ≡ false
unfolding is_shell_meta
quote_not_meta = refl

any-escape_quotes : (w : Text) → any is_shell_meta (escape_quotes win32 w) ≡ any is_shell_meta w
unfolding escape_quotes
any-escape_quotes [] = refl
any-escape_quotes (c ∷ w) = elim (Bool-cases (c == 39)) [
  | inl e ↦ rw (e, (==_iff c 39).0 e, quote_not_meta) (any-escape_quotes w)
  | inr n ↦ rw n (ap (◌||◌ (is_shell_meta c)) (any-escape_quotes w))
]

any-quoted :
    (w : Text) → any is_shell_meta (39 ∷ (escape_quotes win32 w ++ 39 ∷ [])) ≡ any is_shell_meta w
any-quoted w =
    rw (quote_not_meta, any-append is_shell_meta (escape_quotes win32 w) (39 ∷ []), quote_not_meta)
      (ground (arith, any-escape_quotes w))

any-shell_argument : (w : Text) → any is_shell_meta (shell_argument win32 w) ≡ any is_shell_meta w
unfolding shell_argument
any-shell_argument w = elim (Bool-cases (is_plain_word w)) [
  | inl e ↦ rw e
  | inr n ↦ rw n (any-quoted w)
]

line_not_meta :
    (a : Text) (bs : List Text)
    → IsCarried a
    → All IsCarried bs
    → any is_shell_meta (line (shell_argument win32) a bs) ≡ false
unfolding is_shell_meta
line_not_meta a bs ha hs =
    any-line is_shell_meta (shell_argument win32) refl a bs (any-shell_argument a ∙ ha.0) (
      All-map {P = IsCarried} {Q = λ b. any is_shell_meta (shell_argument win32 b) ≡ false}
        (λ b h. any-shell_argument b ∙ h.0) bs hs)

plain_not_quoted : (c : ℕ) (rest : Text) → is_plain c ≡ true → begins_quoted (c ∷ rest) ≡ false
unfolding begins_quoted is_plain is_space
plain_not_quoted c rest h = ground arith

line_not_quoted :
    (a : Text) (bs : List Text)
    → is_plain_word a ≡ true
    → begins_quoted (line (shell_argument win32) a bs) ≡ false
unfolding line shell_argument
line_not_quoted [] bs h = cc
line_not_quoted (c ∷ a) [] h = rw h (plain_not_quoted c a (ground arith))
line_not_quoted (c ∷ a) (b ∷ bs) h = rw h (plain_not_quoted c _ (ground arith))

-- On Windows a line that begins with a plain command and goes on with arguments quoted by
-- `shellArgument`, one space between two of them, is split by `powerShellWords` into exactly those
-- arguments, where none is empty, holds a shell operator or is a parameter with a colon.
pub power_shell_words-line :
    (a : Text) (bs : List Text)
    → is_plain_word a ≡ true
    → IsCarried a
    → All IsCarried bs
    → power_shell_words (line (shell_argument win32) a bs) ≡ some (a ∷ bs)
unfolding power_shell_words
power_shell_words-line a bs plain ha hs =
    rw
      (
        line_not_meta a bs ha hs,
        line_not_quoted a bs plain,
        scan-line ps_step (shell_argument win32) IsCarried after
            (λ ws b rest tail h. reads_argument ws b rest tail) splits_argument [] a bs ha hs,
      )
      (ps_finish-behind [] a bs ha hs ∙ checked_carried (a ∷ bs) (ha, hs))
