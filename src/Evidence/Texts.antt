-- ===== src/Evidence/Texts.antt =====
-- `text` of src/core.mjs, and the tests of src/current-evidence.mjs and src/provider-adapters.mjs on
-- strings. A string is read by its code points; its length is in UTF-16 code units.
use Prim.Native.String.{[] as nil, ◌∷◌ as cons}
use Prim.Native.Char.{code}
use ai_sdlc_framework.Prelude.{
  ℕ, ◌+◌, Bool, true, false, not, ◌&&◌, ◌||◌, Option, none, some, if◌then◌else◌, ◌==◌, ltb, leb,
  String,
}
use ai_sdlc_framework.Shell.Chars.{is_space}

-- `value.length`
unfoldable pub units : String → ℕ
units nil = 0
units (cons c s) = (if ltb 0xffff (code c) then 2 else 1) + units s

-- `/[\u0000-\u0008\u000b\u000c\u000e-\u001f]/u`
abbrev pub is_control : ℕ → Bool
is_control c = leb c 8 || c == 11 || c == 12 || (leb 14 c && leb c 31)

unfoldable pub has_control : String → Bool
has_control nil = false
has_control (cons c s) = is_control (code c) || has_control s

-- `!value.trim().length`
unfoldable pub is_blank : String → Bool
is_blank nil = true
is_blank (cons c s) = is_space (code c) && is_blank s

-- What `text(value, label)` accepts, for a string.
unfoldable pub is_text : String → Bool
unfolding units has_control is_blank
is_text s = not (is_blank s) && leb (units s) 512 && not (has_control s)

unfoldable pub ends_space : String → Bool
ends_space nil = false
ends_space (cons c nil) = is_space (code c)
ends_space (cons c (cons d s)) = ends_space (cons d s)

abbrev pub starts_space : String → Bool
starts_space nil = false
starts_space (cons c s) = is_space (code c)

-- `value === value.trim()`
unfoldable pub is_trimmed : String → Bool
unfolding ends_space
is_trimmed s = not (starts_space s) && not (ends_space s)

-- `[a-f0-9]`
abbrev pub is_hex : ℕ → Bool
is_hex c = (leb b'0' c && leb c b'9') || (leb b'a' c && leb c b'f')

unfoldable pub all_hex : String → Bool
all_hex nil = true
all_hex (cons c s) = is_hex (code c) && all_hex s

-- `/^[a-f0-9]{64}$/u.test(value ?? '')`
abbrev pub is_sha256 : Option String → Bool
is_sha256 none = false
is_sha256 (some s) = all_hex s && (units s == 64)

-- `/^[a-f0-9]{40,64}$/u.test(value ?? '')`
abbrev pub is_full_revision : Option String → Bool
is_full_revision none = false
is_full_revision (some s) = all_hex s && leb 40 (units s) && leb (units s) 64
