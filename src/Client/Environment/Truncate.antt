-- ===== src/Client/Environment/Truncate.antt =====
-- `truncateUTF8` of cmd/wrapping-bot/main.go.
use wrapping_bot.Base.{
  ℕ, ◌≤◌, [], ◌∷◌, ◌++◌, ◌≡◌, inl, inr, arith, leb, length, length-take, take, drop,
  take-append-drop, append-nil, length-append, Bool-cases,
}
use wrapping_bot.Base.Bytes.{Bytes}
use wrapping_bot.Client.Environment.{truncate_utf8, limited_value}
use wrapping_bot.Text.Split.{back_to_rune}
use wrapping_bot.Text.Split.Cut.{back_to_rune-le, back_to_rune-starts_rune}
use wrapping_bot.Text.Utf8.{IsUtf8, starts_rune-CutsAt}

take-IsUtf8 : (s : Bytes) (m : ℕ) → IsUtf8 s → IsUtf8 (take (back_to_rune s m) s)
take-IsUtf8 s m v = elim (back_to_rune-starts_rune s m) [
  | inl e ↦ rw e IsUtf8.nil
  | inr h ↦ (starts_rune-CutsAt v (back_to_rune s m) h).0
]

-- The truncated text is a prefix of the text with at most that many bytes, and well-formed UTF-8 if
-- the text is.
pub truncate_utf8-IsUtf8 :
    (s : Bytes) (max_bytes : ℕ)
    → IsUtf8 s
    → IsUtf8 (truncate_utf8 s max_bytes)
      × (length (truncate_utf8 s max_bytes) ≤ max_bytes)
      × ((rest : Bytes) × (truncate_utf8 s max_bytes ++ rest ≡ s))
unfolding truncate_utf8
truncate_utf8-IsUtf8 s m v = elim (Bool-cases (leb (length s) m)) [
  | inl short ↦ rw short (v, ground arith, ([], append-nil s))
  | inr long ↦ rw long (
    take-IsUtf8 s m v,
    omega (arith, length-take (back_to_rune s m) s, back_to_rune-le s m),
    (drop (back_to_rune s m) s, take-append-drop (back_to_rune s m) s),
  )
]

pub length-limited_value : (value : Bytes) → length (limited_value value) ≤ 515
unfolding limited_value truncate_utf8
length-limited_value value = ground (
  arith,
  length-append (take (back_to_rune value 512) value) (0xE2 ∷ 0x80 ∷ 0xA6 ∷ []),
  length-take (back_to_rune value 512) value,
  back_to_rune-le value 512,
)
