-- ===== src/Shell/BashLines.antt =====
-- `shellWords` reads back what `shellArgument` quotes on a POSIX host.
use ai_sdlc_framework.Prelude.{
  ℕ, Bool, true, false, ◌&&◌, List, [], ◌∷◌, ◌++◌, Option, none, some, ◌≡◌, refl, ◌∙◌, ap, arith,
  includes, ◌==◌, ==_iff, Bool-cases, inl, inr, every,
}
use mathlib.Core.List.{append-nil, append_assoc}
use ai_sdlc_framework.Shell.Chars.{Text, is_plain, is_space}
use ai_sdlc_framework.Shell.Scan.{Scan, between, go, skip, scan, next_of, scan-go, scan-skip}
use ai_sdlc_framework.Shell.Bash.{bash_step}
use ai_sdlc_framework.Shell.Quote.{posix, escape_quotes, shell_argument, is_plain_word}

-- Inside the single quotes of a word, and outside quotes in a word.
abbrev inside : List Text → Text → Scan
inside ws u = record { words = ws; word = u; quote = some 39; started = true; just_closed = false }

abbrev pub outside : List Text → Text → Scan
outside ws u = record { words = ws; word = u; quote = none; started = true; just_closed = false }

inside_literal :
    (ws : List Text) (u : Text) (c : ℕ) (next : Option ℕ)
    → (c == 39) ≡ false
    → bash_step (inside ws u) c next ≡ go (inside ws (u ++ c ∷ []))
unfolding bash_step
inside_literal ws u c none h = ground arith
inside_literal ws u c (some d) h = ground arith

inside_close :
    (ws : List Text) (u : Text) (next : Option ℕ)
    → bash_step (inside ws u) 39 next ≡ go (outside ws u)
unfolding bash_step
inside_close ws u none = refl
inside_close ws u (some d) = refl

quote_open :
    (ws : List Text) (u : Text) (next : Option ℕ)
    → bash_step (outside ws u) 39 next ≡ go (inside ws u)
unfolding bash_step
quote_open ws u next = refl

quote_escape :
    (ws : List Text) (u : Text)
    → bash_step (outside ws u) 92 (some 39) ≡ skip (outside ws (u ++ 39 ∷ []))
unfolding bash_step is_space
quote_escape ws u = refl

-- A single quote is written as: close, escaped quote, open.
scan-quote :
    (ws : List Text) (u rest : Text)
    → scan bash_step (inside ws u) (39 ∷ 92 ∷ 39 ∷ 39 ∷ rest)
      ≡ scan bash_step (inside ws (u ++ 39 ∷ [])) rest
scan-quote ws u rest =
    scan-go bash_step (inside ws u) (outside ws u) 39 (92 ∷ 39 ∷ 39 ∷ rest)
      (inside_close ws u (some 92))
    ∙ (scan-skip bash_step (outside ws u) (outside ws (u ++ 39 ∷ [])) 92 39 (39 ∷ rest)
          (quote_escape ws u)
        ∙ scan-go bash_step (outside ws (u ++ 39 ∷ [])) (inside ws (u ++ 39 ∷ [])) 39 rest
            (quote_open ws (u ++ 39 ∷ []) (next_of rest)))

scan-escaped :
    (ws : List Text) (u w rest : Text)
    → scan bash_step (inside ws u) (escape_quotes posix w ++ rest)
      ≡ scan bash_step (inside ws (u ++ w)) rest
unfolding escape_quotes
scan-escaped ws u [] rest = rw append-nil
scan-escaped ws u (c ∷ w) rest = elim (Bool-cases (c == 39)) [
  | inl e ↦
      rw (e, (==_iff c 39).0 e)
        (scan-quote ws u (escape_quotes posix w ++ rest)
          ∙ (scan-escaped ws (u ++ 39 ∷ []) w rest
              ∙ ap (λ v. scan bash_step (inside ws v) rest) (append_assoc u (39 ∷ []) w)))
  | inr n ↦ rw n (
      scan-go bash_step (inside ws u) (inside ws (u ++ c ∷ [])) c (escape_quotes posix w ++ rest)
        (inside_literal ws u c (next_of (escape_quotes posix w ++ rest)) n)
      ∙ (scan-escaped ws (u ++ c ∷ []) w rest
          ∙ ap (λ v. scan bash_step (inside ws v) rest) (append_assoc u (c ∷ []) w)))
]

-- A plain character other than the backslash stands for itself outside quotes.
outside_literal :
    (ws : List Text) (u : Text) (b : Bool) (c : ℕ) (next : Option ℕ)
    → is_plain c ≡ true
    → (c == 92) ≡ false
    → bash_step
        (record { words = ws; word = u; quote = none; started = b; just_closed = false })
        c
        next
      ≡ go (outside ws (u ++ c ∷ []))
unfolding bash_step is_plain is_space
outside_literal ws u b c next h n = ground arith

scan-plain :
    (ws : List Text) (u w rest : Text)
    → every is_plain w ≡ true
    → includes w 92 ≡ false
    → scan bash_step (outside ws u) (w ++ rest) ≡ scan bash_step (outside ws (u ++ w)) rest
scan-plain ws u [] rest h n = rw append-nil
scan-plain ws u (c ∷ w) rest h n =
    scan-go bash_step (outside ws u) (outside ws (u ++ c ∷ [])) c (w ++ rest)
      (outside_literal ws u true c (next_of (w ++ rest)) (ground arith) (ground arith))
    ∙ (scan-plain ws (u ++ c ∷ []) w rest (ground arith) (ground arith)
        ∙ ap (λ v. scan bash_step (outside ws v) rest) (append_assoc u (c ∷ []) w))

-- Words that `shellArgument` leaves unquoted keep their meaning only without a backslash.
abbrev pub IsReadable : Text → Type 0
IsReadable w = (is_plain_word w && includes w 92) ≡ false

reads_plain :
    (ws : List Text) (w rest : Text)
    → is_plain_word w ≡ true
    → includes w 92 ≡ false
    → scan bash_step (between ws) (w ++ rest) ≡ scan bash_step (outside ws w) rest
reads_plain ws [] rest h n = cc
reads_plain ws (c ∷ w) rest h n =
    scan-go bash_step (between ws) (outside ws (c ∷ [])) c (w ++ rest)
      (outside_literal ws [] false c (next_of (w ++ rest)) (ground arith) (ground arith))
    ∙ scan-plain ws (c ∷ []) w rest (ground arith) (ground arith)

reads_quoted :
    (ws : List Text) (w rest : Text)
    → scan bash_step (between ws) (39 ∷ ((escape_quotes posix w ++ 39 ∷ []) ++ rest))
      ≡ scan bash_step (outside ws w) rest
unfolding bash_step
reads_quoted ws w rest = rw append_assoc (
    scan-go bash_step (between ws) (inside ws []) 39 (escape_quotes posix w ++ (39 ∷ rest)) refl
    ∙ (scan-escaped ws [] w (39 ∷ rest)
        ∙ scan-go bash_step (inside ws w) (outside ws w) 39 rest
            (inside_close ws w (next_of rest))))

pub reads_argument :
    (ws : List Text) (w rest : Text)
    → IsReadable w
    → scan bash_step (between ws) (shell_argument posix w ++ rest)
      ≡ scan bash_step (outside ws w) rest
unfolding shell_argument
reads_argument ws w rest h = elim (Bool-cases (is_plain_word w)) [
  | inl e ↦ rw e (reads_plain ws w rest e (ground arith))
  | inr n ↦ rw n (reads_quoted ws w rest)
]

pub splits_argument :
    (ws : List Text) (w : Text) (next : Option ℕ)
    → bash_step (outside ws w) 32 next ≡ go (between (ws ++ w ∷ []))
unfolding bash_step is_space
splits_argument ws w next = refl
