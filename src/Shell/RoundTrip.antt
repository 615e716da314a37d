-- ===== src/Shell/RoundTrip.antt =====
-- The commands that src/core.mjs prints are read back by the splitters of src/platform.mjs.
use ai_sdlc_framework.Prelude.{
  true, false, ◌||◌, List, [], ◌∷◌, ◌++◌, Option, none, some, any, ◌≡◌, refl, ◌∙◌, ap, arith,
  if◌then◌else◌, ◌==◌, Bool-cases, inl, inr, ==_iff,
}
use mathlib.Core.List.{append-nil, append_assoc}
use ai_sdlc_framework.Shell.Chars.{Text, is_plain, is_shell_meta}
use ai_sdlc_framework.Shell.Scan.{between, scan}
use ai_sdlc_framework.Shell.Lines.{line, behind, All, All-map, any-append, any-line, scan-line}
use ai_sdlc_framework.Shell.PowerShell.{is_empty}
use ai_sdlc_framework.Shell.Bash.{shell_words, bash_step, bash_finish}
use ai_sdlc_framework.Shell.BashLines.{outside, IsReadable, reads_argument, splits_argument}
use ai_sdlc_framework.Shell.Quote.{
  posix, escape_quotes, shell_argument, is_plain_word, detail_command, sdlc_text, work_item_text,
  home_text,
}

quote_not_meta : is_shell_meta 39 ≡ false
unfolding is_shell_meta
quote_not_meta = refl

backslash_not_meta : is_shell_meta 92 ≡ false
unfolding is_shell_meta
backslash_not_meta = refl

any-escape_quotes : (w : Text) → any is_shell_meta (escape_quotes posix w) ≡ any is_shell_meta w
unfolding escape_quotes
any-escape_quotes [] = refl
any-escape_quotes (c ∷ w) = elim (Bool-cases (c == 39)) [
  | inl e ↦ rw (e, (==_iff c 39).0 e, quote_not_meta, backslash_not_meta) (any-escape_quotes w)
  | inr n ↦ rw n (ap (◌||◌ (is_shell_meta c)) (any-escape_quotes w))
]

any-quoted :
    (w : Text) → any is_shell_meta (39 ∷ (escape_quotes posix w ++ 39 ∷ [])) ≡ any is_shell_meta w
any-quoted w =
    rw (quote_not_meta, any-append is_shell_meta (escape_quotes posix w) (39 ∷ []), quote_not_meta)
      (ground (arith, any-escape_quotes w))

-- Quoting adds no shell operator.
any-shell_argument : (w : Text) → any is_shell_meta (shell_argument posix w) ≡ any is_shell_meta w
unfolding shell_argument
any-shell_argument w = elim (Bool-cases (is_plain_word w)) [
  | inl e ↦ rw e
  | inr n ↦ rw n (any-quoted w)
]

bash_finish-behind :
    (ws : List Text) (a : Text) (bs : List Text)
    → bash_finish (behind outside ws a bs) ≡ some (ws ++ a ∷ bs)
unfolding bash_finish behind
bash_finish-behind ws a [] = refl
bash_finish-behind ws a (b ∷ bs) =
    bash_finish-behind (ws ++ a ∷ []) b bs ∙ ap some (append_assoc ws (a ∷ []) (b ∷ bs))

-- An argument that survives: no shell operator in it, and no backslash where it is left unquoted.
abbrev pub IsCarried : Text → Type 0
IsCarried w = (any is_shell_meta w ≡ false) × IsReadable w

scan_carried :
    (a : Text) (bs : List Text)
    → IsCarried a
    → All IsCarried bs
    → scan bash_step (between []) (line (shell_argument posix) a bs) ≡ some (behind outside [] a bs)
scan_carried a bs ha hs =
    scan-line bash_step (shell_argument posix) IsReadable outside
      (λ ws b rest tail h. reads_argument ws b rest h) (λ ws b next h. splits_argument ws b next) []
      a bs ha.1 (All-map {Q = IsReadable} (λ b h. h.1) bs hs)

line_not_meta :
    (a : Text) (bs : List Text)
    → IsCarried a
    → All IsCarried bs
    → any is_shell_meta (line (shell_argument posix) a bs) ≡ false
unfolding is_shell_meta
line_not_meta a bs ha hs =
    any-line is_shell_meta (shell_argument posix) refl a bs (any-shell_argument a ∙ ha.0) (
      All-map {P = IsCarried} {Q = λ b. any is_shell_meta (shell_argument posix b) ≡ false}
        (λ b h. any-shell_argument b ∙ h.0) bs hs)

-- On a POSIX host a line of arguments quoted by `shellArgument`, with one space between two of them,
-- is split by `shellWords` into exactly those arguments, where no argument holds a shell operator
-- and none that is left unquoted holds a backslash.
pub shell_words-line :
    (a : Text) (bs : List Text)
    → IsCarried a
    → All IsCarried bs
    → shell_words (line (shell_argument posix) a bs) ≡ some (a ∷ bs)
unfolding shell_words
shell_words-line a bs ha hs =
    rw (line_not_meta a bs ha hs, scan_carried a bs ha hs) (bash_finish-behind [] a bs)

-- The arguments of a printed command.
abbrev pub printed_words : Text → Text → Option Text → List Text
printed_words command id none = command ∷ work_item_text ∷ id ∷ []
printed_words command id (some home) =
    command ∷ work_item_text ∷ id ∷ (if is_empty home then [] else home_text ∷ home ∷ [])

abbrev pub IsHomeCarried : Option Text → Type 0
IsHomeCarried none = Unit {0}
IsHomeCarried (some home) = IsCarried home

work_item-IsCarried : IsCarried work_item_text
unfolding is_shell_meta is_plain
work_item-IsCarried = (refl, refl)

argument_of_plain : (w : Text) → is_plain_word w ≡ true → shell_argument posix w ≡ w
unfolding shell_argument
argument_of_plain w h = rw h

literal_arguments :
    (shell_argument posix sdlc_text ≡ sdlc_text)
    × (shell_argument posix work_item_text ≡ work_item_text)
    × (shell_argument posix home_text ≡ home_text)
unfolding shell_argument is_plain
literal_arguments = (refl, refl, refl)

detail-line :
    (command id : Text) (home : Option Text)
    → is_plain_word command ≡ true
    → detail_command posix command id home
      ≡ line (shell_argument posix) sdlc_text (printed_words command id home)
unfolding detail_command line
detail-line command id none h =
    rw (argument_of_plain command h, literal_arguments.0, literal_arguments.1)
      (simp (append_assoc, append-nil))
detail-line command id (some home) h = elim (Bool-cases (is_empty home)) [
  | inl e ↦
      rw (argument_of_plain command h, literal_arguments.0, literal_arguments.1, e)
        (simp (append_assoc, append-nil))
  | inr n ↦
      rw
        (
          argument_of_plain command h,
          literal_arguments.0,
          literal_arguments.1,
          n,
          literal_arguments.2,
        )
        (simp append_assoc)
]

printed-IsCarried :
    (command id : Text) (home : Option Text)
    → IsCarried command
    → IsCarried id
    → IsHomeCarried home
    → All IsCarried (printed_words command id home)
unfolding is_shell_meta is_plain
printed-IsCarried command id none hc hi hh = (hc, (work_item-IsCarried, (hi, tt)))
printed-IsCarried command id (some home) hc hi hh = elim (Bool-cases (is_empty home)) [
  | inl e ↦ rw e (hc, (work_item-IsCarried, (hi, tt)))
  | inr n ↦ rw n (hc, (work_item-IsCarried, (hi, ((refl, refl), (hh, tt)))))
]

-- On a POSIX host `shellWords` splits what `detailCommand` prints into the words `sdlc`, the
-- command, `--work-item` and the work item, and `--home` with the home where one is given: the
-- command is a plain word, and no argument holds a shell operator, nor a backslash while it is left
-- unquoted.
pub shell_words-detail_command :
    (command id : Text) (home : Option Text)
    → is_plain_word command ≡ true
    → IsCarried command
    → IsCarried id
    → IsHomeCarried home
    → shell_words (detail_command posix command id home)
      ≡ some (sdlc_text ∷ printed_words command id home)
unfolding is_shell_meta is_plain
shell_words-detail_command command id home plain hc hi hh = rw (detail-line command id home plain) (
    shell_words-line sdlc_text (printed_words command id home) (refl, refl)
      (printed-IsCarried command id home hc hi hh))
