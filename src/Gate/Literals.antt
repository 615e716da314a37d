-- ===== src/Gate/Literals.antt =====
-- The string operations of src/gate.mjs on words, and literal words.
use Prim.Native.String.{[] as nil, ◌∷◌ as cons}
use Prim.Native.Char.{code}
use ai_sdlc_framework.Prelude.{ℕ, Bool, true, false, ◌&&◌, ◌||◌, List, [], ◌∷◌, ◌==◌, String, leb}
use ai_sdlc_framework.Shell.Chars.{Text, same_text}

-- A literal of ASCII characters as a word.
abbrev pub text : String → Text
text nil = []
text (cons c s) = code c ∷ text s

-- `word === literal`
abbrev pub equals : Text → String → Bool
equals w s = same_text w (text s)

-- `[literal, …].includes(word)`
abbrev pub one_of : List String → Text → Bool
one_of [] w = false
one_of (s ∷ ss) w = equals w s || one_of ss w

unfoldable pub begins_with : Text → Text → Bool
begins_with [] w = true
begins_with (c ∷ p) [] = false
begins_with (c ∷ p) (d ∷ w) = c == d && begins_with p w

-- `word.startsWith(literal)`
abbrev pub starts : String → Text → Bool
starts s w = begins_with (text s) w

-- `word.includes(literal)`
unfoldable pub contains : Text → Text → Bool
unfolding begins_with
contains p [] = begins_with p []
contains p (c ∷ w) = begins_with p (c ∷ w) || contains p w

-- `word.endsWith('/')`
unfoldable pub ends_slash : Text → Bool
ends_slash [] = false
ends_slash (c ∷ []) = c == b'/'
ends_slash (c ∷ d ∷ w) = ends_slash (d ∷ w)

-- `[A-Za-z0-9._/-]`
unfoldable pub is_ref_char : ℕ → Bool
is_ref_char c =
    (leb b'a' c && leb c b'z')
    || (leb b'A' c && leb c b'Z')
    || (leb b'0' c && leb c b'9')
    || c == b'.'
    || c == b'_'
    || c == b'/'
    || c == b'-'
