-- ===== src/Shell/Chars.antt =====
-- The character classes of the regular expressions in src/platform.mjs and src/core.mjs.
use ai_sdlc_framework.Prelude.{ℕ, Bool, true, false, ◌&&◌, ◌||◌, List, [], ◌∷◌, ◌==◌, leb, includes}

-- A JavaScript string, by its UTF-16 code units.
abbrev pub Text : Type 0
Text = List ℕ

-- `/\s/u`
unfoldable pub is_space : ℕ → Bool
is_space c =
    (leb 9 c && leb c 13)
    || c == 32
    || c == 0xa0
    || c == 0x1680
    || (leb 0x2000 c && leb c 0x200a)
    || c == 0x2028
    || c == 0x2029
    || c == 0x202f
    || c == 0x205f
    || c == 0x3000
    || c == 0xfeff

-- `/[;&|<>`$\n\r]/u`
unfoldable pub is_shell_meta : ℕ → Bool
is_shell_meta c = includes (b';' ∷ b'&' ∷ b'|' ∷ b'<' ∷ b'>' ∷ b'`' ∷ b'$' ∷ 10 ∷ 13 ∷ []) c

-- `/[&|<>^%!()\n\r]/u`
unfoldable pub is_cmd_meta : ℕ → Bool
is_cmd_meta c =
    includes (b'&' ∷ b'|' ∷ b'<' ∷ b'>' ∷ b'^' ∷ b'%' ∷ b'!' ∷ b'(' ∷ b')' ∷ 10 ∷ 13 ∷ []) c

-- `[\x09\x20-\x7e]`
unfoldable pub is_cmd_printable : ℕ → Bool
is_cmd_printable c = c == 9 || (leb 0x20 c && leb c 0x7e)

-- `[a-zA-Z0-9._:/\\-]`
unfoldable pub is_plain : ℕ → Bool
is_plain c =
    (leb b'a' c && leb c b'z')
    || (leb b'A' c && leb c b'Z')
    || (leb b'0' c && leb c b'9')
    || includes (b'.' ∷ b'_' ∷ b':' ∷ b'/' ∷ 92 ∷ b'-' ∷ []) c

-- `===` on strings
unfoldable pub same_text : Text → Text → Bool
same_text [] [] = true
same_text [] (d ∷ w) = false
same_text (c ∷ v) [] = false
same_text (c ∷ v) (d ∷ w) = c == d && same_text v w
