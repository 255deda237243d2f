-- ===== src/Tests/Texts.antt =====
-- Concrete texts for internal/textutil/text.go and the quoting of internal/daemon/server.go.
use wrapping_bot.Base.{
  ◌≤◌, true, false, List, [], ◌∷◌, ◌++◌, some, ◌≡◌, refl, arith, All, length, inl,
}
use wrapping_bot.Base.Bytes.{Bytes, str, concat, contains, bytes_eq}
use wrapping_bot.Base.Number.{parse_uint}
use wrapping_bot.Base.Space.{trim_space}
use wrapping_bot.Daemon.Channel.{is_discord_channel_id}
use wrapping_bot.Shell.{shell_quote, is_safe, format_command}
use wrapping_bot.Shell.Words.{read_words, between, read_words-format_command}
use wrapping_bot.Text.Ansi.{strip_ansi, esc}
use wrapping_bot.Text.Ansi.Laws.{Plain, NoBel}
use wrapping_bot.Text.Ansi.Removed.{Removes, strip_ansi-Removes}
use wrapping_bot.Text.Fence.{escape_code_fence, fence, backtick, contains-escape_code_fence}
use wrapping_bot.Text.Split.{split_utf8}
use wrapping_bot.Text.Split.Laws.{concat-split_utf8, split_utf8-sizes, split_utf8-IsUtf8}
use wrapping_bot.Text.Utf8.{IsUtf8, rune_start, decode_size}

-- "aé€", of one, two and three bytes.
abbrev runes : Bytes
runes = b'a' ∷ 0xC3 ∷ 0xA9 ∷ 0xE2 ∷ 0x82 ∷ 0xAC ∷ []

runes-IsUtf8 : IsUtf8 runes
runes-IsUtf8 = IsUtf8.ascii (omega arith) (
    IsUtf8.two (omega arith) (omega arith)
      (IsUtf8.three (omega arith) (ground arith) (omega arith) IsUtf8.nil))

split_runes : split_utf8 runes 4 ≡ (b'a' ∷ 0xC3 ∷ 0xA9 ∷ []) ∷ (0xE2 ∷ 0x82 ∷ 0xAC ∷ []) ∷ []
unfolding split_utf8 rune_start
split_runes = refl

-- A limit below the size of the first rune gives a chunk above the limit.
split_small :
    split_utf8 (0xE2 ∷ 0x82 ∷ 0xAC ∷ b'a' ∷ []) 1 ≡ (0xE2 ∷ 0x82 ∷ 0xAC ∷ []) ∷ (b'a' ∷ []) ∷ []
unfolding split_utf8 rune_start decode_size
split_small = refl

concat-split_utf8_example : concat (split_utf8 runes 4) ≡ runes
concat-split_utf8_example = concat-split_utf8 runes 4

split_utf8-sizes_example :
    All (λ c. 1 ≤ length c) (split_utf8 runes 4) × All (λ c. length c ≤ 4) (split_utf8 runes 4)
split_utf8-sizes_example = split_utf8-sizes runes 4 (omega arith) (omega arith)

split_utf8-IsUtf8_example : All IsUtf8 (split_utf8 runes 4)
split_utf8-IsUtf8_example = split_utf8-IsUtf8 runes 4 runes-IsUtf8

contains-escape_code_fence_example :
    contains (escape_code_fence (str "````")) fence ≡ contains (str "````") (backtick ∷ fence)
contains-escape_code_fence_example = contains-escape_code_fence (str "````")

-- Four backquotes are left with three in a row.
four_backquotes : contains (escape_code_fence (str "````")) fence ≡ true
unfolding escape_code_fence contains
four_backquotes = refl

ok-Plain : Plain (str "ok")
ok-Plain = (omega arith, (omega arith, tt))

-- "ok", and "a" between two commands, each with its own end: "a" is lost.
abbrev between_ends : Bytes
between_ends = b'0' ∷ esc ∷ b'\\' ∷ b'a' ∷ esc ∷ b']' ∷ b'1' ∷ []

between_ends-NoBel : NoBel between_ends
between_ends-NoBel = ground arith

-- Behind the command a colour.
abbrev coloured : Bytes
coloured = str "b" ++ esc ∷ str "[31m!"

strip_ansi-Removes_example :
    strip_ansi (str "ok" ++ esc ∷ b']' ∷ (between_ends ++ esc ∷ b'\\' ∷ coloured))
    ≡ str "ok" ++ strip_ansi coloured
strip_ansi-Removes_example = strip_ansi-Removes (str "ok") _ _ ok-Plain (
    Removes.osc_st between_ends coloured between_ends-NoBel (ground arith)
      (refl, (refl, (refl, (refl, (refl, (refl, (refl, tt))))))))

abbrev words : List Bytes
words = str "echo" ∷ str "it's $HOME" ∷ [] ∷ []

format_words : format_command words false ≡ str "echo 'it'\"'\"'s $HOME' ''"
unfolding format_command shell_quote is_safe
format_words = refl

read_words-format_command_example : read_words between (format_command words false) ≡ some words
read_words-format_command_example = read_words-format_command words false (inl refl)

snowflake : is_discord_channel_id (str "123456789012345678") ≡ true
unfolding is_discord_channel_id bytes_eq trim_space parse_uint
snowflake = refl
