-- ===== src/Daemon/Format.antt =====
-- The messages of internal/daemon/server.go: `formatStart`, `formatExit` and what they write with.
-- `show_duration` stands for the print of `exit.Timestamp.Sub(start.Timestamp)` in Go's package
-- `time`, and is a parameter.
pub mod Inline
use wrapping_bot.Base.{
  ℕ, Bool, true, false, not, ◌&&◌, ◌||◌, List, [], ◌∷◌, ◌++◌, Option, some, none, leb, ltb, ◌==◌,
  if◌then◌else◌, map, length,
}
use wrapping_bot.Base.Bytes.{Bytes, str, is_empty, bytes_eq, replace_from, replace_all}
use wrapping_bot.Base.Decimal.{decimal}
use wrapping_bot.Base.Int.{ℤ, pos, negsuc, is_zero, itoa}
use wrapping_bot.Base.Space.{trim_space}
use wrapping_bot.Daemon.Batcher.{short_run_id}
use wrapping_bot.Protocol.{Event}
use wrapping_bot.Shell.{format_command}
use wrapping_bot.Text.Fence.{escape_code_fence}

-- U+02CB, which looks like a backquote and is none.
abbrev pub modifier_grave : Bytes
modifier_grave = str "ˋ"

-- U+FE0F, behind a sign that is to be shown as an emoji.
abbrev pub variation_selector : Bytes
variation_selector = 0xEF ∷ 0xB8 ∷ 0x8F ∷ []

unfoldable pub inline_code : Bytes → Bytes
unfolding replace_from
inline_code value =
    replace_all (replace_all (replace_all value (str "`") modifier_grave) (str "\n") (str " "))
      (str "\r") (str " ")

-- One byte of `strings.NewReplacer("\\", "\\\\", "*", "\\*", "_", "\\_", "~", "\\~", "`", "ˋ")`.
unfoldable pub markdown_byte : ℕ → Bytes
markdown_byte c =
    if c == b'\\' || c == b'*' || c == b'_' || c == b'~'
    then b'\\' ∷ c ∷ []
    else if c == b'`'
    then modifier_grave
    else c ∷ []

unfoldable pub escape_markdown : Bytes → Bytes
unfolding markdown_byte
escape_markdown [] = []
escape_markdown (c ∷ s) = markdown_byte c ++ escape_markdown s

unfoldable pub value_or_default : Option ℤ → ℤ → ℤ
value_or_default none fallback = fallback
value_or_default (some value) fallback = value

-- The order of `sort.Strings`.
unfoldable pub bytes_le : Bytes → Bytes → Bool
bytes_le [] b = true
bytes_le (x ∷ a) [] = false
bytes_le (x ∷ a) (y ∷ b) = ltb x y || x == y && bytes_le a b

unfoldable pub insert_key : Bytes → List Bytes → List Bytes
unfolding bytes_le
insert_key k [] = k ∷ []
insert_key k (j ∷ ks) = if bytes_le k j then k ∷ j ∷ ks else j ∷ insert_key k ks

-- `sort.Strings`, whose result does not depend on how it sorts.
unfoldable pub sort_keys : List Bytes → List Bytes
unfolding insert_key
sort_keys [] = []
sort_keys (k ∷ ks) = insert_key k (sort_keys ks)

-- `event.Environment[key]`
unfoldable pub get_env : Bytes → List (Bytes × Bytes) → Bytes
get_env key [] = []
get_env key ((k, v) ∷ env) = if bytes_eq k key then v else get_env key env

unfoldable pub environment_lines : List (Bytes × Bytes) → List Bytes → Bytes
unfolding get_env
environment_lines env [] = []
environment_lines env (key ∷ keys) =
    escape_code_fence key
    ++ (b'=' ∷ (escape_code_fence (get_env key env) ++ (b'\n' ∷ environment_lines env keys)))

unfoldable pub format_environment : List (Bytes × Bytes) → Bytes
unfolding environment_lines sort_keys
format_environment [] = []
format_environment (e ∷ env) =
    str "\nEnvironment:\n```text\n"
    ++ (environment_lines (e ∷ env) (sort_keys (map (λ kv. kv.0) (e ∷ env))) ++ str "```")

unfoldable pub format_start : Event → Bytes
unfolding escape_markdown inline_code format_environment
format_start event =
    let name = if is_empty (trim_space event.name) then str "wrapped process" else event.name in
    str "▶"
    ++ variation_selector
    ++ str " **Run started: "
    ++ escape_markdown name
    ++ str "**\nRun: `"
    ++ short_run_id event.run_id
    ++ str "`\n"
    ++ (if is_empty event.hostname
        then []
        else str "Host: `" ++ inline_code event.hostname ++ str "`\n")
    ++ (if is_empty event.working_directory
        then []
        else str "Working directory: `" ++ inline_code event.working_directory ++ str "`\n")
    ++ str "Command:\n```sh\n"
    ++ escape_code_fence (format_command event.command event.shell)
    ++ str "\n```"
    ++ format_environment event.environment

abbrev pub between_times : (ℕ → ℕ → Bytes) → Option ℕ → Option ℕ → Bytes
between_times show_duration (some started) (some ended) =
    str "\nDuration: `" ++ show_duration started ended ++ str "`"
between_times show_duration _ _ = []

abbrev pub warning : Option Bytes → Bytes
warning none = []
warning (some err) = str "\nRelay warning: `" ++ inline_code err ++ str "`"

unfoldable pub is_failed : Event → Bool
unfolding value_or_default
is_failed exit =
    not (is_zero (value_or_default exit.exit_code (negsuc 0))) || not (is_empty exit.error)

unfoldable pub format_exit : (ℕ → ℕ → Bytes) → Event → Event → ℕ → Option Bytes → Bytes
unfolding is_failed value_or_default inline_code
format_exit show_duration start exit dropped_bytes relay_err =
    (if is_failed exit then str "❌ **Run failed**" else str "✅ **Run completed**")
    ++ str "\nRun: `"
    ++ short_run_id start.run_id
    ++ str "`\nExit code: `"
    ++ itoa (value_or_default exit.exit_code (negsuc 0))
    ++ str "`"
    ++ between_times show_duration start.timestamp exit.timestamp
    ++ (if is_empty exit.error then [] else str "\nError: `" ++ inline_code exit.error ++ str "`")
    ++ (if ltb 0 dropped_bytes
        then str "\nDaemon-dropped output: `" ++ decimal dropped_bytes ++ str " bytes`"
        else [])
    ++ warning relay_err
