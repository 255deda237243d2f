-- ===== src/Client/Command.antt =====
-- How cmd/wrapping-bot/main.go runs the command: `shouldUseShell` and `buildCommand`, and the exit code
-- that `run` makes of how the command ends.
use wrapping_bot.Base.{
  Bool, true, false, ◌||◌, List, [], ◌∷◌, ◌++◌, some, ◌≡◌, inr, refl, ◌≤◌, if◌then◌else◌, map,
  length, arith,
}
use wrapping_bot.Base.Bytes.{Bytes, str, join}
use wrapping_bot.Base.Int.{ℤ, pos}
use wrapping_bot.Shell.{has_byte, blank, shell_quote, format_command}
use wrapping_bot.Shell.Words.{between, read_words, read_words-format_command}

-- The characters for which a single argument goes to the shell.
abbrev pub shell_characters : Bytes
shell_characters = str " \t|&;<>()$`*?[]{}~'\"\\"

-- `strings.ContainsAny` of ASCII characters.
unfoldable pub contains_any : Bytes → Bytes → Bool
unfolding has_byte
contains_any [] chars = false
contains_any (c ∷ s) chars = has_byte chars c || contains_any s chars

unfoldable pub should_use_shell : List Bytes → Bool
unfolding contains_any
should_use_shell [] = false
should_use_shell (arg ∷ []) = contains_any arg shell_characters
should_use_shell (arg ∷ next ∷ args) = false

-- The program that is run, and its arguments.
pub record Cmd : Type 0 where
  pub path : Bytes
  pub args : List Bytes

abbrev pub through_shell : Bytes → Cmd
through_shell command = record { path = str "/bin/sh"; args = str "-lc" ∷ command ∷ [] }

-- The command of no words, with which it would panic, is never built.
unfoldable pub build_command : List Bytes → Bool → Cmd
unfolding shell_quote join
build_command [] shell = through_shell []
build_command (arg ∷ []) shell =
    if shell then through_shell arg else record { path = arg; args = [] }
build_command (arg ∷ next ∷ args) shell =
    if shell
    then through_shell (join (map shell_quote (arg ∷ next ∷ args)) blank)
    else record { path = arg; args = next ∷ args }

-- The command does not start, or ends with a code, or its wait fails in another way, or all is well.
pub data Child : Type 0 where
  unstarted : Bytes → Child
  exited : ℤ → Child
  unwaited : Bytes → Child
  succeeded : Child

abbrev pub child_code : Child → ℤ
child_code (unstarted text) = pos 127
child_code (exited code) = code
child_code (unwaited text) = pos 1
child_code succeeded = pos 0

abbrev pub child_error : Child → Bytes
child_error (unstarted text) = text
child_error (unwaited text) = text
child_error _ = []

-- The lines that are printed to the standard error.
abbrev pub child_notice : Child → List Bytes
child_notice (unstarted text) = (str "wrapping-bot: start command: " ++ text) ∷ []
child_notice (unwaited text) = (str "wrapping-bot: wait command: " ++ text) ∷ []
child_notice _ = []

build_command-shell :
    (args : List Bytes)
    → 2 ≤ length args
    → build_command args true ≡ through_shell (format_command args true)
unfolding build_command format_command
build_command-shell [] h = absurd (omega arith)
build_command-shell (arg ∷ []) h = absurd (omega arith)
build_command-shell (arg ∷ next ∷ args) h = refl

-- The text that a shell gets for two words or more is read by it as these words, whatever bytes they
-- hold.
pub read_words-build_command :
    (args : List Bytes)
    → 2 ≤ length args
    → (text : Bytes) × (build_command args true ≡ through_shell text)
      × (read_words between text ≡ some args)
read_words-build_command args h = (
  format_command args true,
  build_command-shell args h,
  read_words-format_command args true (inr (λ e. absurd (omega arith))),
)
