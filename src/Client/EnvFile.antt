-- ===== src/Client/EnvFile.antt =====
-- The environment file of cmd/wrapping-bot/main.go: `parseEnvLine`, `parseEnvValue` and the loop of
-- `loadClientEnv`. `unquote` stands for `strconv.Unquote` and `quoted` for
-- the `%q` of package `fmt`; the lines come from a scanner, and the environment is a list of entries.
pub mod Kept
use wrapping_bot.Base.{
  ℕ, suc, ◌-◌, Bool, true, false, not, ◌&&◌, ◌||◌, List, [], ◌∷◌, ◌++◌, Option, some, none, ltb,
  leb, ◌==◌, if◌then◌else◌, length, take,
}
use wrapping_bot.Base.Bytes.{Bytes, str, is_empty, bytes_eq, has_prefix, trim_prefix}
use wrapping_bot.Base.Decimal.{decimal}
use wrapping_bot.Base.Space.{trim_space}
use wrapping_bot.Client.Environment.{Env, cut_entry, lookup, put}
use wrapping_bot.Shell.{has_byte}

-- A letter, `_`, or behind the first byte a digit. No byte of a longer rune is one of these.
abbrev pub is_key_byte : Bool → ℕ → Bool
is_key_byte first c =
    leb b'A' c && leb c b'Z'
    || leb b'a' c && leb c b'z'
    || c == b'_'
    || not first && leb b'0' c && leb c b'9'

unfoldable pub all_key_bytes : Bool → Bytes → Bool
all_key_bytes first [] = true
all_key_bytes first (c ∷ s) = is_key_byte first c && all_key_bytes false s

unfoldable pub is_env_key : Bytes → Bool
unfolding all_key_bytes
is_env_key key = not (is_empty key) && all_key_bytes true key

-- What stands before the first " #"; `none` is that there is none.
unfoldable pub before_comment : Bytes → Option Bytes
before_comment [] = none
before_comment (c ∷ []) = none
before_comment (c ∷ d ∷ s) = elim (before_comment (d ∷ s)) [
  | some kept ↦ if c == b' ' && d == b'#' then some [] else some (c ∷ kept)
  | none ↦ if c == b' ' && d == b'#' then some [] else none
]

-- The bytes between the first and the last, if the last is this one.
unfoldable pub inside : ℕ → Bytes → Option Bytes
inside quote [] = none
inside quote (c ∷ []) = if c == quote then some [] else none
inside quote (c ∷ d ∷ s) = elim (inside quote (d ∷ s)) [ some kept ↦ some (c ∷ kept) | none ↦ none ]

pub data Parsed {ℓ} (A : Type ℓ) : Type ℓ where
  parsed : A → Parsed A
  skipped : Parsed A
  rejected : Bytes → Parsed A

-- An error of the line with this number.
unfoldable pub located : Bytes → ℕ → Bytes → Bytes
unfolding decimal
located path line_number err = path ++ str ":" ++ decimal line_number ++ str ": " ++ err

abbrev pub unset : Bytes → Bytes
unset key = str "set " ++ key ++ str ": setenv: invalid argument"

module _ (unquote : Bytes → Option Bytes) (quoted : Bytes → Bytes) where
  unfoldable pub parse_env_value : Bytes → Parsed Bytes
  unfolding before_comment inside
  parse_env_value [] = parsed []
  parse_env_value (c ∷ s) =
      if c == b'\''
      then elim (inside b'\'' s) [
        | some value ↦ parsed value
        | none ↦ rejected (str "unterminated single-quoted value")
      ]
      else if c == b'"'
      then elim (inside b'"' s) [
        | some value ↦ elim (unquote (c ∷ s)) [
          | some plain ↦ parsed plain
          | none ↦ rejected (str "invalid double-quoted value: invalid syntax")
        ]
        | none ↦ rejected (str "unterminated double-quoted value")
      ]
      else elim (before_comment (c ∷ s)) [
        | some kept ↦ parsed (trim_space kept)
        | none ↦ parsed (c ∷ s)
      ]

  unfoldable pub with_key : Bytes → Parsed Bytes → Parsed (Bytes × Bytes)
  with_key key (parsed value) = parsed (key, value)
  with_key key skipped = skipped
  with_key key (rejected err) = rejected err

  unfoldable pub parse_assignment : Bytes → Parsed (Bytes × Bytes)
  unfolding is_env_key parse_env_value with_key cut_entry
  parse_assignment line = elim (cut_entry line) [
    | none ↦ rejected (str "expected KEY=VALUE")
    | some (raw_key, raw_value) ↦
        let key = trim_space raw_key in
        if is_env_key key
        then with_key key (parse_env_value (trim_space raw_value))
        else rejected (str "invalid environment key " ++ quoted key)
  ]

  unfoldable pub parse_env_line : Bytes → Parsed (Bytes × Bytes)
  unfolding parse_assignment
  parse_env_line raw =
      let line = trim_space raw in
      if is_empty line || has_prefix line (str "#")
      then skipped
      else if has_prefix line (str "export ")
      then parse_assignment (trim_space (trim_prefix line (str "export ")))
      else parse_assignment line

  -- The environment behind the loop, and the error that ends it early, if one does; `line_number` is
  -- that of the next line. `os.Setenv` takes no value with a zero byte.
  unfoldable pub load_lines : Bytes → ℕ → List Bytes → Env → Env × Option Bytes
  unfolding parse_env_line lookup put located has_byte
  load_lines path line_number [] env = (env, none)
  load_lines path line_number (line ∷ lines) env =
      let next = load_lines path (suc line_number) lines in
      elim (parse_env_line line) [
        | rejected err ↦ (env, some (located path line_number err))
        | skipped ↦ next env
        | parsed (key, value) ↦ elim (lookup key env) [
          | some old ↦ next env
          | none ↦ elim (has_byte value 0) [
            | true ↦ (env, some (located path line_number (unset key)))
            | false ↦ next (put key value env)
          ]
        ]
      ]
