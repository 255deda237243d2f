-- ===== src/WebSocket/Words.antt =====
-- Bytes of internal/wsclient/wsclient.go: exclusive or, and `binary.BigEndian`.
use wrapping_bot.Base.{ℕ, zero, suc, ◌+◌, ◌*◌, ◌/◌, ◌%◌, ◌<◌, ◌≤◌, [], ◌∷◌, ◌≡◌, arith}
use wrapping_bot.Base.Bytes.{Bytes}

abbrev pub IsByte : ℕ → Type 0
IsByte c = c < 256

-- Exclusive or of the lowest digits, as many as the first argument says.
unfoldable pub xor_bits : ℕ → ℕ → ℕ → ℕ
xor_bits zero a b = 0
xor_bits (suc k) a b = 2 * xor_bits k (a / 2) (b / 2) + (a + b) % 2

-- `a ^ b` on bytes.
unfoldable pub byte_xor : ℕ → ℕ → ℕ
unfolding xor_bits
byte_xor a b = xor_bits 8 a b

-- `2 ^ k`, as the digits are counted.
abbrev room : ℕ → ℕ
room zero = 1
room (suc k) = 2 * room k

xor_bits-xor_bits : (k a b : ℕ) → a < room k → xor_bits k (xor_bits k a b) b ≡ a
unfolding xor_bits
xor_bits-xor_bits zero a b h = omega arith
xor_bits-xor_bits (suc k) a b h =
    let inner = xor_bits k (a / 2) (b / 2) in
    let halved : (2 * inner + (a + b) % 2) / 2 ≡ inner = omega arith in
    rw halved (omega (arith, xor_bits-xor_bits k (a / 2) (b / 2) (omega arith)))

-- What is masked twice with the same byte is as before.
pub byte_xor-byte_xor : (a b : ℕ) → IsByte a → byte_xor (byte_xor a b) b ≡ a
unfolding byte_xor
byte_xor-byte_xor a b h = xor_bits-xor_bits 8 a b h

-- `binary.BigEndian.PutUint16(uint16(n))`
unfoldable pub put_uint16 : ℕ → Bytes
put_uint16 n = (n / 0x100 % 0x100) ∷ (n % 0x100) ∷ []

-- `binary.BigEndian.PutUint64(uint64(n))`
unfoldable pub put_uint64 : ℕ → Bytes
put_uint64 n =
    (n / 0x100_0000_0000_0000 % 0x100)
    ∷ (n / 0x1_0000_0000_0000 % 0x100)
    ∷ (n / 0x100_0000_0000 % 0x100)
    ∷ (n / 0x1_0000_0000 % 0x100)
    ∷ (n / 0x100_0000 % 0x100)
    ∷ (n / 0x1_0000 % 0x100)
    ∷ (n / 0x100 % 0x100)
    ∷ (n % 0x100)
    ∷ []

-- `binary.BigEndian.Uint16` and `Uint64`: the number that the bytes spell.
unfoldable pub big_endian : ℕ → Bytes → ℕ
big_endian n [] = n
big_endian n (c ∷ s) = big_endian (n * 0x100 + c) s

pub big_endian-put_uint16 : (n : ℕ) → n ≤ 0xFFFF → big_endian 0 (put_uint16 n) ≡ n
unfolding big_endian put_uint16
big_endian-put_uint16 n h = omega arith

pub big_endian-put_uint64 : (n : ℕ) → n ≤ 0x100_0000 → big_endian 0 (put_uint64 n) ≡ n
unfolding big_endian put_uint64
big_endian-put_uint64 n h = omega arith
