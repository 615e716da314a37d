-- ===== src/Shell/Backslash.antt =====
-- `shellArgument` of src/core.mjs leaves a word with a backslash unquoted on every platform, and a
-- POSIX shell drops the backslash.
use ai_sdlc_framework.Prelude.{
  ℕ, suc, ◌≤◌, Bool, true, false, List, [], ◌∷◌, ◌++◌, Option, none, some, any, ◌≡◌, ◌≢◌, refl, ◌∙◌,
  sym, ap, arith, includes, ◌==◌, ==_iff, every, Bool-cases, inl, inr, if◌then◌else◌, length,
}
use mathlib.Core.Option
use mathlib.Core.List.{append_assoc}
use ai_sdlc_framework.Shell.Chars.{Text, is_plain, is_space, is_shell_meta}
use ai_sdlc_framework.Shell.Scan.{Scan, go, skip, scan, scan-go, scan-skip}
use ai_sdlc_framework.Shell.Bash.{shell_words, bash_step, bash_finish}
use ai_sdlc_framework.Shell.BashLines.{outside}
use ai_sdlc_framework.Shell.Quote.{posix, shell_argument, is_plain_word}

-- What an unquoted text stands for: each backslash goes, and the character behind it stays; `none`
-- where a backslash is the last character.
unfoldable pub drop_escapes : Text → Option Text
drop_escapes [] = some []
drop_escapes (c ∷ []) = if c == 92 then none else some (c ∷ [])
drop_escapes (c ∷ d ∷ w) = elim (c == 92) [
  | true ↦ Option.map (◌∷◌ d) (drop_escapes w)
  | false ↦ Option.map (◌∷◌ c) (drop_escapes (d ∷ w))
]

abbrev in_word : List Text → Text → Bool → Scan
in_word ws u b = record { words = ws; word = u; quote = none; started = b; just_closed = false }

escape_step :
    (ws : List Text) (u : Text) (b : Bool) (d : ℕ)
    → bash_step (in_word ws u b) 92 (some d) ≡ skip (outside ws (u ++ d ∷ []))
unfolding bash_step is_space
escape_step ws u b d = refl

escape_last :
    (ws : List Text) (u : Text) (b : Bool) → scan bash_step (in_word ws u b) (92 ∷ []) ≡ none
unfolding scan bash_step is_space
escape_last ws u b = refl

literal_step :
    (ws : List Text) (u : Text) (b : Bool) (c : ℕ) (next : Option ℕ)
    → is_plain c ≡ true
    → (c == 92) ≡ false
    → bash_step (in_word ws u b) c next ≡ go (outside ws (u ++ c ∷ []))
unfolding bash_step is_plain is_space
literal_step ws u b c next h n = ground arith

map-map :
    (ws : List Text) (u : Text) (c : ℕ) (o : Option Text)
    → Option.map (λ v. outside ws ((u ++ c ∷ []) ++ v)) o
      ≡ Option.map (λ v. outside ws (u ++ v)) (Option.map (◌∷◌ c) o)
map-map ws u c none = refl
map-map ws u c (some v) = ap (λ x. some (outside ws x)) (append_assoc u (c ∷ []) v)

scan-drop :
    (w : Text) (c : ℕ) (ws : List Text) (u : Text) (b : Bool)
    → every is_plain (c ∷ w) ≡ true
    → scan bash_step (in_word ws u b) (c ∷ w)
      ≡ Option.map (λ v. outside ws (u ++ v)) (drop_escapes (c ∷ w))
unfolding drop_escapes
scan-drop [] c ws u b h = elim (Bool-cases (c == 92)) [
  | inl e ↦ rw ((==_iff c 92).0 e) (escape_last ws u b)
  | inr n ↦ rw n (
      scan-go bash_step (in_word ws u b) (outside ws (u ++ c ∷ [])) c []
        (literal_step ws u b c none (ground arith) n)
      ∙ unfold scan in refl)
]
scan-drop (d ∷ []) c ws u b h = elim (Bool-cases (c == 92)) [
  | inl e ↦ rw ((==_iff c 92).0 e) (
      scan-skip bash_step (in_word ws u b) (outside ws (u ++ d ∷ [])) 92 d [] (escape_step ws u b d)
      ∙ unfold scan in refl)
  | inr n ↦
      rw (n, drop_escapes)
        (scan-go bash_step (in_word ws u b) (outside ws (u ++ c ∷ [])) c (d ∷ [])
            (literal_step ws u b c (some d) (ground arith) n)
          ∙ (scan-drop [] d ws (u ++ c ∷ []) true (ground arith) ∙ map-map ws u c _))
]
scan-drop (d ∷ e ∷ w) c ws u b h = elim (Bool-cases (c == 92)) [
  | inl x ↦ rw ((==_iff c 92).0 x) (
      scan-skip bash_step (in_word ws u b) (outside ws (u ++ d ∷ [])) 92 d (e ∷ w)
        (escape_step ws u b d)
      ∙ (scan-drop w e ws (u ++ d ∷ []) true (ground arith) ∙ map-map ws u d _))
  | inr n ↦
      rw (n, drop_escapes)
        (scan-go bash_step (in_word ws u b) (outside ws (u ++ c ∷ [])) c (d ∷ e ∷ w)
            (literal_step ws u b c (some d) (ground arith) n)
          ∙ (scan-drop (e ∷ w) d ws (u ++ c ∷ []) true (ground arith) ∙ map-map ws u c _))
]

abbrev opt_length : Option Text → ℕ
opt_length none = 0
opt_length (some v) = length v

opt_length-map : (c : ℕ) (o : Option Text) → opt_length (Option.map (◌∷◌ c) o) ≤ suc (opt_length o)
opt_length-map c none = omega arith
opt_length-map c (some v) = omega arith

-- At least one character is gone if there is an escape.
opt_length-drop :
    (w : Text) (c : ℕ)
    → (opt_length (drop_escapes (c ∷ w)) ≤ suc (length w))
      × (includes (c ∷ w) 92 ≡ true → opt_length (drop_escapes (c ∷ w)) ≤ length w)
unfolding drop_escapes
opt_length-drop [] c = ground arith
opt_length-drop (d ∷ []) c = ground arith
opt_length-drop (d ∷ e ∷ w) c = ground (
  arith,
  opt_length-drop w e,
  opt_length-drop (e ∷ w) d,
  opt_length-map d (drop_escapes (e ∷ w)),
  opt_length-map c (drop_escapes (d ∷ e ∷ w)),
)

drop_escapes-ne :
    (w : Text) (c : ℕ) → includes (c ∷ w) 92 ≡ true → drop_escapes (c ∷ w) ≢ some (c ∷ w)
drop_escapes-ne w c h e = absurd (omega (arith, (opt_length-drop w c).1 h, ap opt_length e))

is_plain-not_meta : (c : ℕ) → is_plain c ≡ true → is_shell_meta c ≡ false
unfolding is_plain is_shell_meta
is_plain-not_meta c h = ground arith

plain_not_meta : (w : Text) → every is_plain w ≡ true → any is_shell_meta w ≡ false
plain_not_meta [] h = refl
plain_not_meta (c ∷ w) h = ground (arith, is_plain-not_meta c, plain_not_meta w)

finish_word :
    (o : Option Text)
    → Path
        (Option (List Text))
        (elim (Option.map (outside []) o) [ none ↦ none | some s ↦ bash_finish s ])
        (Option.map (λ v. v ∷ []) o)
unfolding bash_finish
finish_word none = refl
finish_word (some v) = refl

-- On a POSIX host `shellWords` reads a plain word that `shellArgument` prints as the one word that is
-- left when each backslash is dropped and the character behind it kept, or refuses it where the last
-- backslash escapes nothing.
pub shell_words-plain_argument :
    (w : Text)
    → is_plain_word w ≡ true
    → shell_words (shell_argument posix w) ≡ Option.map (λ v. v ∷ []) (drop_escapes w)
unfolding shell_words shell_argument
shell_words-plain_argument [] h = cc
shell_words-plain_argument (c ∷ w) h =
    rw (h, plain_not_meta (c ∷ w) h, scan-drop w c [] [] false h)
      (finish_word (drop_escapes (c ∷ w)))

one_word : (o : Option Text) (w : Text) → Option.map (λ v. v ∷ []) o ≡ some (w ∷ []) → o ≡ some w
one_word none w h = cc
one_word (some v) w h = cc

-- On a POSIX host `shellWords` never reads a plain word with a backslash that `shellArgument` prints as
-- the word that it was.
pub plain_backslash_lost :
    (w : Text)
    → is_plain_word w ≡ true
    → includes w 92 ≡ true
    → shell_words (shell_argument posix w) ≢ some (w ∷ [])
plain_backslash_lost [] h k e = cc
plain_backslash_lost (c ∷ w) h k e =
    drop_escapes-ne w c k
      (one_word (drop_escapes (c ∷ w)) (c ∷ w) (sym (shell_words-plain_argument (c ∷ w) h) ∙ e))
