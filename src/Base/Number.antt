-- ===== src/Base/Number.antt =====
-- `strconv.ParseUint(s, 10, 64)`: digits only, and no value of 2^64 or more.
use Prim.Native.Nat.{ℕ, ◌+◌, ◌-◌, ◌*◌, ◌^◌, ◌≤◌}
use mathlib.Core.Path.{◌≡◌, refl}
use mathlib.Core.Logic.{◌≢◌}
use mathlib.Core.Bool.{Bool, ◌&&◌}
use mathlib.Core.Option.{Option, none, some}
use mathlib.Core.List.{[], ◌∷◌}
use native.Mathlib.Omega.{arith}
use wrapping_bot.Base.Tests.{leb, ltb, if◌then◌else◌}
use wrapping_bot.Base.Lists.{All}
use wrapping_bot.Base.Bytes.{Bytes}
use wrapping_bot.Base.Decimal.{decimal_value}

abbrev pub max_u64 : ℕ
max_u64 = 2 ^ 64 - 1

abbrev pub is_digit : ℕ → Bool
is_digit c = leb b'0' c && leb c b'9'

abbrev pub IsDigit : ℕ → Type 0
IsDigit c = (b'0' ≤ c) × (c ≤ b'9')

unfoldable pub parse_digits : ℕ → Bytes → Option ℕ
parse_digits n [] = some n
parse_digits n (c ∷ s) =
    let m = n * 10 + (c - b'0') in
    let rest = parse_digits m s in
    if is_digit c then (if ltb max_u64 m then none else rest) else none

unfoldable pub parse_uint : Bytes → Option ℕ
unfolding parse_digits
parse_uint [] = none
parse_uint (c ∷ s) = parse_digits 0 (c ∷ s)

parse_digits_sound :
    (s : Bytes) (n r : ℕ)
    → n ≤ max_u64
    → parse_digits n s ≡ some r
    → All IsDigit s × (r ≡ decimal_value n s) × (r ≤ max_u64)
unfolding parse_digits
parse_digits_sound [] n r h e = ground arith
parse_digits_sound (c ∷ s) n r h e = ground (arith, parse_digits_sound s (n * 10 + (c - b'0')) r)

-- A text that is read is all digits, and the result is the number that they spell.
pub parse_uint_sound :
    (s : Bytes) {r : ℕ}
    → parse_uint s ≡ some r
    → All IsDigit s × (r ≡ decimal_value 0 s) × (r ≤ max_u64)
unfolding parse_uint
parse_uint_sound [] e = absurd (cc)
parse_uint_sound (c ∷ s) {r} e = parse_digits_sound (c ∷ s) 0 r (omega arith) e

decimal_value-grows : (s : Bytes) (n : ℕ) → n ≤ decimal_value n s
decimal_value-grows [] n = omega arith
decimal_value-grows (c ∷ s) n = omega (arith, decimal_value-grows s (n * 10 + (c - b'0')))

parse_digits_complete :
    (s : Bytes) (n : ℕ)
    → All IsDigit s
    → decimal_value n s ≤ max_u64
    → parse_digits n s ≡ some (decimal_value n s)
unfolding parse_digits
parse_digits_complete [] n h fits = refl
parse_digits_complete (c ∷ s) n (hc, h) fits =
    let m = n * 10 + (c - b'0') in
    ground (arith, parse_digits_complete s m h fits, decimal_value-grows s m)

-- Every number below 2^64 is read.
pub parse_uint_complete :
    (s : Bytes)
    → s ≢ []
    → All IsDigit s
    → decimal_value 0 s ≤ max_u64
    → parse_uint s ≡ some (decimal_value 0 s)
unfolding parse_uint
parse_uint_complete [] h = absurd (h refl)
parse_uint_complete (c ∷ s) h = parse_digits_complete (c ∷ s) 0
