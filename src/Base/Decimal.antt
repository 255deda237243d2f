-- ===== src/Base/Decimal.antt =====
-- Decimal numbers: `strconv.FormatInt` of a number that is not negative, and what `strconv` reads.
use Prim.Native.Nat.{ℕ, zero, suc, ◌+◌, ◌-◌, ◌*◌, ◌/◌, ◌%◌, ◌<◌}
use mathlib.Core.Path.{◌≡◌}
use mathlib.Core.List.{[], ◌∷◌}
use native.Mathlib.Omega.{arith}
use wrapping_bot.Base.Tests.{◌==◌, if◌then◌else◌}
use wrapping_bot.Base.Bytes.{Bytes}

-- The digits of `n` in front of `out`; a number has no more digits than its value and one.
digits : ℕ → ℕ → Bytes → Bytes
digits zero n out = out
digits (suc fuel) n out =
    let more = digits fuel (n / 10) ((b'0' + n % 10) ∷ out) in
    if n / 10 == 0 then (b'0' + n % 10) ∷ out else more

unfoldable pub decimal : ℕ → Bytes
unfolding digits
decimal n = digits (suc n) n []

-- The number that digits spell behind `acc`.
abbrev pub decimal_value : ℕ → Bytes → ℕ
decimal_value acc [] = acc
decimal_value acc (c ∷ s) = decimal_value (acc * 10 + (c - b'0')) s

digits-value :
    (fuel n : ℕ) (out : Bytes)
    → n < fuel
    → decimal_value 0 (digits fuel n out) ≡ decimal_value n out
unfolding digits
digits-value zero n out h = absurd (omega arith)
digits-value (suc fuel) n out h = ground (arith, digits-value fuel (n / 10) ((b'0' + n % 10) ∷ out))

-- The print of a number spells it.
pub decimal_value-decimal : (n : ℕ) → decimal_value 0 (decimal n) ≡ n
unfolding decimal
decimal_value-decimal n = digits-value (suc n) n [] (omega arith)
