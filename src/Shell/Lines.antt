-- ===== src/Shell/Lines.antt =====
-- Command lines built from quoted arguments, for any shell whose scanner reads back one argument.
use ai_sdlc_framework.Prelude.{
  ◌⊎◌, inl, inr, ℕ, Bool, ◌||◌, List, [], ◌∷◌, ◌++◌, Option, some, any, ◌≡◌, refl, ◌∙◌, sym, ap,
  arith, false, none,
}
use mathlib.Core.List.{append-nil}
use ai_sdlc_framework.Shell.Chars.{Text}
use ai_sdlc_framework.Shell.Scan.{Scan, between, Move, go, scan, next_of, scan-go}

pub any-append : (p : ℕ → Bool) (v w : Text) → any p (v ++ w) ≡ (any p v || any p w)
any-append p [] w = refl
any-append p (c ∷ v) w = ground (arith, any-append p v w)

abbrev pub All {ℓ κ} : {A : Type ℓ} → (A → Type κ) → List A → Type κ
All P [] = Unit
All P (x ∷ xs) = P x × All P xs

-- Quoted arguments, one space between two of them.
unfoldable pub line : (Text → Text) → Text → List Text → Text
line quoted a [] = quoted a
line quoted a (b ∷ bs) = quoted a ++ (32 ∷ line quoted b bs)

-- The state behind a whole line: `after ws a` is the state behind `a`, which follows `ws`.
unfoldable pub behind : (List Text → Text → Scan) → List Text → Text → List Text → Scan
behind after ws a [] = after ws a
behind after ws a (b ∷ bs) = behind after (ws ++ a ∷ []) b bs

-- What may stand behind an argument.
abbrev pub IsSeparated : Text → Type 0
IsSeparated rest = (next_of rest ≡ none) ⊎ (next_of rest ≡ some 32)

module _ (step : Scan → ℕ → Option ℕ → Move) (quoted : Text → Text) (P : Text → Type 0)
    (after : List Text → Text → Scan)
    (reads : (ws : List Text) (a rest : Text)
      → IsSeparated rest
      → P a
      → scan step (between ws) (quoted a ++ rest) ≡ scan step (after ws a) rest)
    (splits : (ws : List Text) (a : Text) (next : Option ℕ)
      → P a
      → step (after ws a) 32 next ≡ go (between (ws ++ a ∷ []))) where
  pub scan-line :
      (ws : List Text) (a : Text) (bs : List Text)
      → P a
      → All P bs
      → scan step (between ws) (line quoted a bs) ≡ some (behind after ws a bs)
  unfolding behind line scan
  scan-line ws a [] pa pas =
      ap (scan step (between ws)) (sym (append-nil (quoted a))) ∙ reads ws a [] (inl refl) pa
  scan-line ws a (b ∷ bs) pa pas =
      reads ws a (32 ∷ line quoted b bs) (inr refl) pa
      ∙ (scan-go step (after ws a) (between (ws ++ a ∷ [])) 32 (line quoted b bs)
            (splits ws a (next_of (line quoted b bs)) pa)
          ∙ scan-line (ws ++ a ∷ []) b bs pas.0 pas.1)

pub any-line :
    (p : ℕ → Bool) (quoted : Text → Text)
    → p 32 ≡ false
    → (a : Text) (bs : List Text) → any p (quoted a) ≡ false
    → All (λ b. any p (quoted b) ≡ false) bs
    → any p (line quoted a bs) ≡ false
unfolding line
any-line p quoted h a [] ha hs = ha
any-line p quoted h a (b ∷ bs) ha hs =
    rw (any-append p (quoted a) (32 ∷ line quoted b bs), ha, h) (any-line p quoted h b bs hs.0 hs.1)

pub All-map {ℓ} :
    {P Q : Text → Type ℓ} → ((a : Text) → P a → Q a) → (bs : List Text) → All P bs → All Q bs
All-map f [] h = tt
All-map f (b ∷ bs) h = (f b h.0, All-map f bs h.1)
