-- ===== src/Shell/Quote.antt =====
-- `shellArgument` and `detailCommand` of src/core.mjs.
use ai_sdlc_framework.Prelude.{
  Bool, not, ◌&&◌, [], ◌∷◌, ◌++◌, Option, none, some, ◌==◌, every, if◌then◌else◌,
}
use ai_sdlc_framework.Shell.Chars.{Text, is_plain}
use ai_sdlc_framework.Shell.PowerShell.{is_empty}

-- `process.platform === 'win32'`, and every other platform.
pub data Platform : Type 0 where
  win32 posix : Platform

-- `"''"` or `"'\\''"`
abbrev pub quote_text : Platform → Text
quote_text win32 = 39 ∷ 39 ∷ []
quote_text posix = 39 ∷ 92 ∷ 39 ∷ 39 ∷ []

-- `value.replaceAll("'", …)`
unfoldable pub escape_quotes : Platform → Text → Text
escape_quotes p [] = []
escape_quotes p (c ∷ w) = (if c == 39 then quote_text p else c ∷ []) ++ escape_quotes p w

-- `/^[a-zA-Z0-9._:/\\-]+$/u`
abbrev pub is_plain_word : Text → Bool
is_plain_word w = not (is_empty w) && every is_plain w

unfoldable pub shell_argument : Platform → Text → Text
unfolding escape_quotes
shell_argument p value =
    if is_plain_word value then value else 39 ∷ (escape_quotes p value ++ 39 ∷ [])

abbrev pub sdlc_text : Text
sdlc_text = b's' ∷ b'd' ∷ b'l' ∷ b'c' ∷ []

abbrev pub work_item_text : Text
work_item_text = b'-' ∷ b'-' ∷ b'w' ∷ b'o' ∷ b'r' ∷ b'k' ∷ b'-' ∷ b'i' ∷ b't' ∷ b'e' ∷ b'm' ∷ []

abbrev pub home_text : Text
home_text = b'-' ∷ b'-' ∷ b'h' ∷ b'o' ∷ b'm' ∷ b'e' ∷ []

-- `home ? …`: the empty string is falsy, as `undefined` is.
unfoldable pub home_suffix : Platform → Option Text → Text
home_suffix p none = []
home_suffix p (some home) =
    if is_empty home then [] else 32 ∷ (home_text ++ 32 ∷ shell_argument p home)

unfoldable pub detail_command : Platform → Text → Text → Option Text → Text
unfolding home_suffix
detail_command p command work_item_id home =
    sdlc_text
    ++ (32 ∷ command)
    ++ (32 ∷ work_item_text)
    ++ (32 ∷ shell_argument p work_item_id)
    ++ home_suffix p home
