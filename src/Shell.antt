-- ===== src/Shell.antt =====
-- `shellQuote` and `formatCommand` of internal/daemon/server.go; cmd/wrapping-bot/main.go has the same
-- `shellQuote`.
pub mod Words
use wrapping_bot.Base.{
  ℕ, Bool, true, false, not, ◌&&◌, ◌||◌, List, [], ◌∷◌, ◌++◌, leb, ◌==◌, if◌then◌else◌, map, length,
}
use wrapping_bot.Base.Bytes.{Bytes, str, is_empty, replace_from, replace_all, join}

abbrev pub quote : ℕ
quote = b'\''

-- Whether a byte is in the string; all that it is asked for here are ASCII.
unfoldable pub has_byte : Bytes → ℕ → Bool
has_byte [] r = false
has_byte (c ∷ s) r = r == c || has_byte s r

-- The characters that need no quotes. A byte of a longer rune is none of them, as the rune is not.
unfoldable pub is_safe : ℕ → Bool
unfolding has_byte
is_safe r =
    leb b'a' r && leb r b'z'
    || leb b'A' r && leb r b'Z'
    || leb b'0' r && leb r b'9'
    || has_byte (str "_@%+=:,./-") r

-- `strings.IndexFunc(value, …) == -1`
unfoldable pub all_safe : Bytes → Bool
all_safe [] = true
all_safe (c ∷ s) = is_safe c && all_safe s

-- A quote inside becomes '"'"'.
abbrev pub quoted_quote : Bytes
quoted_quote = quote ∷ b'"' ∷ quote ∷ b'"' ∷ quote ∷ []

unfoldable pub shell_quote : Bytes → Bytes
unfolding all_safe replace_from
shell_quote value =
    if is_empty value
    then quote ∷ quote ∷ []
    else if all_safe value
    then value
    else quote ∷ (replace_all value (quote ∷ []) quoted_quote ++ quote ∷ [])

abbrev pub blank : Bytes
blank = b' ' ∷ []

unfoldable pub format_command : List Bytes → Bool → Bytes
unfolding shell_quote join
format_command [] shell = []
format_command (arg ∷ []) shell = if shell then arg else shell_quote arg
format_command (arg ∷ next ∷ args) shell = join (map shell_quote (arg ∷ next ∷ args)) blank
