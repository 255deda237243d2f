-- ===== src/Base/Space.antt =====
-- `strings.TrimSpace`, over the white space of Unicode.
use Prim.Native.Nat.{ℕ, zero, suc, ◌≤◌, ◌<◌}
use mathlib.Core.Path.{◌≡◌, refl}
use mathlib.Core.Bool.{Bool, true, false, ◌&&◌, ◌||◌}
use mathlib.Core.List.{[], ◌∷◌}
use native.Mathlib.Omega.{arith}
use wrapping_bot.Base.Tests.{leb, ◌==◌, if◌then◌else◌}
use wrapping_bot.Base.Lists.{All}
use wrapping_bot.Base.Bytes.{Bytes}

abbrev pub ascii_space : ℕ → Bool
ascii_space c = leb 0x09 c && leb c 0x0D || c == b' '

-- U+0085, U+00A0; U+1680; U+2000 to U+200A, U+2028, U+2029, U+202F; U+205F; U+3000.
abbrev space_two : ℕ → ℕ → Bool
space_two a b = a == 0xC2 && (b == 0x85 || b == 0xA0)

abbrev space_three : ℕ → ℕ → ℕ → Bool
space_three a b c =
    a == 0xE1 && b == 0x9A && c == 0x80
    || a == 0xE2 && b == 0x80 && (leb 0x80 c && leb c 0x8A || c == 0xA8 || c == 0xA9 || c == 0xAF)
    || a == 0xE2 && b == 0x81 && c == 0x9F
    || a == 0xE3 && b == 0x80 && c == 0x80

-- The size of the white space at the start of the text, or 0.
unfoldable pub space_size : Bytes → ℕ
space_size [] = 0
space_size (a ∷ []) = if ascii_space a then 1 else 0
space_size (a ∷ b ∷ []) = if ascii_space a then 1 else if space_two a b then 2 else 0
space_size (a ∷ b ∷ c ∷ s) =
    if ascii_space a then 1 else if space_two a b then 2 else if space_three a b c then 3 else 0

-- `skip` counts the bytes of a rune that are still to be passed over.
unfoldable pub trim_left_from : ℕ → Bytes → Bytes
unfolding space_size
trim_left_from skip [] = []
trim_left_from (suc skip) (c ∷ s) = trim_left_from skip s
trim_left_from zero (c ∷ s) = elim (space_size (c ∷ s)) [
  | zero ↦ c ∷ s
  | suc k ↦ trim_left_from k s
]

unfoldable pub all_space_from : ℕ → Bytes → Bool
unfolding space_size
all_space_from skip [] = true
all_space_from (suc skip) (c ∷ s) = all_space_from skip s
all_space_from zero (c ∷ s) = elim (space_size (c ∷ s)) [
  | zero ↦ false
  | suc k ↦ all_space_from k s
]

unfoldable pub trim_right : Bytes → Bytes
unfolding all_space_from
trim_right [] = []
trim_right (c ∷ s) = if all_space_from 0 (c ∷ s) then [] else c ∷ trim_right s

unfoldable pub trim_space : Bytes → Bytes
unfolding trim_left_from trim_right
trim_space s = trim_right (trim_left_from 0 s)

-- A byte that is no ASCII space and begins no other white space.
abbrev pub Solid : ℕ → Type 0
Solid c = (0x21 ≤ c) × (c < 0x80)

space_size-Solid : (c : ℕ) (s : Bytes) → Solid c → space_size (c ∷ s) ≡ 0
unfolding space_size
space_size-Solid c [] h = ground arith
space_size-Solid c (b ∷ []) h = ground arith
space_size-Solid c (b ∷ d ∷ s) h = ground arith

trim_right-Solid : (s : Bytes) → All Solid s → trim_right s ≡ s
unfolding trim_right
trim_right-Solid [] h = refl
trim_right-Solid (c ∷ s) (hc, h) = ground (arith, space_size-Solid c s hc, trim_right-Solid s h)

-- Text of visible ASCII characters alone is left as it is.
pub trim_space-Solid : (s : Bytes) → All Solid s → trim_space s ≡ s
unfolding trim_space
trim_space-Solid [] h = refl
trim_space-Solid (c ∷ s) (hc, h) =
    ground (arith, space_size-Solid c s hc, trim_right-Solid (c ∷ s) (hc, h))
