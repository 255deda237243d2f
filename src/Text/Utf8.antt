-- ===== src/Text/Utf8.antt =====
-- `utf8.RuneStart` and the size that `utf8.DecodeRuneInString` returns, as internal/textutil/text.go
-- uses them, and valid UTF-8 as a predicate on byte lists.
use wrapping_bot.Base.{
  ℕ, suc, zero, ◌≤◌, ◌<◌, bit_and, Bool, true, false, not, ◌&&◌, ◌||◌, [], ◌∷◌, ◌≡◌, refl, arith,
  ltb, leb, ◌==◌, if◌then◌else◌, holds_from, holds_from_sound, take, drop, length, get_elem?, some,
}
use wrapping_bot.Base.Bytes.{Bytes}

-- `utf8.RuneStart`: any byte but a continuation byte.
unfoldable pub rune_start : ℕ → Bool
rune_start b = not (bit_and b 0xC0 == 0x80)

-- The size of a rune that begins with this byte; an invalid first byte is a rune of size one.
abbrev pub lead_size : ℕ → ℕ
lead_size a =
    if ltb a 0xC2
    then 1
    else if ltb a 0xE0
    then 2
    else if ltb a 0xF0
    then 3
    else if ltb a 0xF5
    then 4
    else 1

-- The bounds on the second byte.
abbrev pub accept_lo : ℕ → ℕ
accept_lo a = if a == 0xE0 then 0xA0 else if a == 0xF0 then 0x90 else 0x80

abbrev pub accept_hi : ℕ → ℕ
accept_hi a = if a == 0xED then 0x9F else if a == 0xF4 then 0x8F else 0xBF

abbrev pub accepts : ℕ → ℕ → Bool
accepts a b = leb (accept_lo a) b && leb b (accept_hi a)

abbrev pub continues : ℕ → Bool
continues b = leb 0x80 b && leb b 0xBF

-- Whether the bytes after the first byte `a` complete a rune of the size `n`.
complete : ℕ → ℕ → Bytes → Bool
complete n a [] = false
complete n a (b ∷ []) = accepts a b && n == 2
complete n a (b ∷ c ∷ []) = accepts a b && (n == 2 || n == 3 && continues c)
complete n a (b ∷ c ∷ d ∷ s) =
    accepts a b && (n == 2 || continues c && (n == 3 || n == 4 && continues d))

-- The size of the first rune: 0 of no text, and 1 of bytes that are not valid UTF-8.
unfoldable pub decode_size : Bytes → ℕ
unfolding complete
decode_size [] = 0
decode_size (a ∷ s) = if complete (lead_size a) a s then lead_size a else 1

-- Well-formed UTF-8: one to four bytes for each rune, in the ranges of the Unicode standard.
pub data IsUtf8 : Bytes → Type 0 where
  nil : IsUtf8 []
  ascii : {a : ℕ} {s : Bytes} → a < 0x80 → IsUtf8 s → IsUtf8 (a ∷ s)
  two :
      {a b : ℕ} {s : Bytes}
      → (0xC2 ≤ a) × (a ≤ 0xDF)
      → (0x80 ≤ b) × (b ≤ 0xBF)
      → IsUtf8 s
      → IsUtf8 (a ∷ b ∷ s)
  three :
      {a b c : ℕ} {s : Bytes}
      → (0xE0 ≤ a) × (a ≤ 0xEF)
      → (accept_lo a ≤ b) × (b ≤ accept_hi a)
      → (0x80 ≤ c) × (c ≤ 0xBF)
      → IsUtf8 s
      → IsUtf8 (a ∷ b ∷ c ∷ s)
  four :
      {a b c d : ℕ} {s : Bytes}
      → (0xF0 ≤ a) × (a ≤ 0xF4)
      → (accept_lo a ≤ b) × (b ≤ accept_hi a)
      → (0x80 ≤ c) × (c ≤ 0xBF)
      → (0x80 ≤ d) × (d ≤ 0xBF)
      → IsUtf8 s
      → IsUtf8 (a ∷ b ∷ c ∷ d ∷ s)

abbrev pub is_ascii : Bytes → Bool
is_ascii [] = true
is_ascii (c ∷ s) = ltb c 0x80 && is_ascii s

pub is_ascii-IsUtf8 : (s : Bytes) → is_ascii s ≡ true → IsUtf8 s
is_ascii-IsUtf8 [] h = nil
is_ascii-IsUtf8 (c ∷ s) h = ascii (ground arith) (is_ascii-IsUtf8 s (ground arith))

-- Both sides of a cut after `k` bytes are well formed.
abbrev pub CutsAt : Bytes → ℕ → Type 0
CutsAt s k = IsUtf8 (take k s) × IsUtf8 (drop k s)

start_table : holds_from 0x80 0x40 (λ b. not (rune_start b)) ≡ true
unfolding holds_from rune_start
start_table = refl

-- A continuation byte starts no rune.
not-rune_start : (b : ℕ) → 0x80 ≤ b → b ≤ 0xBF → rune_start b ≡ false
not-rune_start b lo hi =
    ground
      (arith, holds_from_sound (λ b. not (rune_start b)) 0x80 0x40 start_table b lo (omega arith))

abbrev pub starts_rune : Bytes → Bool
starts_rune [] = true
starts_rune (b ∷ s) = rune_start b

not-starts_rune {ℓ} :
    {A : Type ℓ} (b : ℕ) (s : Bytes) → accept_lo 0 ≤ b → b ≤ 0xBF → starts_rune (b ∷ s) ≡ true → A
not-starts_rune b s lo hi h = absurd (cc (not-rune_start b lo hi))

-- A cut in front of a byte that starts a rune, or at the end, breaks no rune.
pub starts_rune-CutsAt :
    {s : Bytes} → IsUtf8 s → (k : ℕ) → starts_rune (drop k s) ≡ true → CutsAt s k
starts_rune-CutsAt v zero h = (nil, v)
starts_rune-CutsAt nil (suc k) h = (nil, nil)
starts_rune-CutsAt (ascii p v) (suc k) h = let (l, r) = starts_rune-CutsAt v k h in (ascii p l, r)
starts_rune-CutsAt (two {b = b} {s = s} p q v) (suc zero) h =
    not-starts_rune b s (omega arith) (omega arith) h
starts_rune-CutsAt (two p q v) (suc (suc k)) h =
    let (l, r) = starts_rune-CutsAt v k h in (two p q l, r)
starts_rune-CutsAt (three {b = b} {c = c} {s = s} p q t v) (suc zero) h =
    not-starts_rune b (c ∷ s) (ground arith) (ground arith) h
starts_rune-CutsAt (three {c = c} {s = s} p q t v) (suc (suc zero)) h =
    not-starts_rune c s (omega arith) (omega arith) h
starts_rune-CutsAt (three p q t v) (suc (suc (suc k))) h =
    let (l, r) = starts_rune-CutsAt v k h in (three p q t l, r)
starts_rune-CutsAt (four {b = b} {c = c} {d = d} {s = s} p q t u v) (suc zero) h =
    not-starts_rune b (c ∷ d ∷ s) (ground arith) (ground arith) h
starts_rune-CutsAt (four {c = c} {d = d} {s = s} p q t u v) (suc (suc zero)) h =
    not-starts_rune c (d ∷ s) (omega arith) (omega arith) h
starts_rune-CutsAt (four {d = d} {s = s} p q t u v) (suc (suc (suc zero))) h =
    not-starts_rune d s (omega arith) (omega arith) h
starts_rune-CutsAt (four p q t u v) (suc (suc (suc (suc k)))) h =
    let (l, r) = starts_rune-CutsAt v k h in (four p q t u l, r)

-- A cut behind an ASCII byte breaks no rune.
pub ascii-CutsAt :
    {s : Bytes} → IsUtf8 s → (i c : ℕ) → get_elem? s i ≡ some c → c < 0x80 → CutsAt s (suc i)
ascii-CutsAt nil i c e h = (nil, nil)
ascii-CutsAt (ascii p v) zero c e h = (ascii p nil, v)
ascii-CutsAt (ascii p v) (suc i) c e h = let (l, r) = ascii-CutsAt v i c e h in (ascii p l, r)
ascii-CutsAt (two p q v) zero c e h = ground arith
ascii-CutsAt (two p q v) (suc zero) c e h = ground arith
ascii-CutsAt (two p q v) (suc (suc i)) c e h = let (l, r) = ascii-CutsAt v i c e h in (two p q l, r)
ascii-CutsAt (three p q t v) zero c e h = ground arith
ascii-CutsAt (three p q t v) (suc zero) c e h = ground arith
ascii-CutsAt (three p q t v) (suc (suc zero)) c e h = ground arith
ascii-CutsAt (three p q t v) (suc (suc (suc i))) c e h =
    let (l, r) = ascii-CutsAt v i c e h in (three p q t l, r)
ascii-CutsAt (four p q t u v) zero c e h = ground arith
ascii-CutsAt (four p q t u v) (suc zero) c e h = ground arith
ascii-CutsAt (four p q t u v) (suc (suc zero)) c e h = ground arith
ascii-CutsAt (four p q t u v) (suc (suc (suc zero))) c e h = ground arith
ascii-CutsAt (four p q t u v) (suc (suc (suc (suc i)))) c e h =
    let (l, r) = ascii-CutsAt v i c e h in (four p q t u l, r)

-- The first rune of well-formed text is decoded whole.
size-two :
    (a b : ℕ) (s : Bytes)
    → (0xC2 ≤ a) × (a ≤ 0xDF)
    → (0x80 ≤ b) × (b ≤ 0xBF)
    → decode_size (a ∷ b ∷ s) ≡ 2
unfolding decode_size
size-two a b [] p q = ground arith
size-two a b (c ∷ []) p q = ground arith
size-two a b (c ∷ d ∷ s) p q = ground arith

size-three :
    (a b c : ℕ) (s : Bytes)
    → (0xE0 ≤ a) × (a ≤ 0xEF)
    → (accept_lo a ≤ b) × (b ≤ accept_hi a)
    → (0x80 ≤ c) × (c ≤ 0xBF)
    → decode_size (a ∷ b ∷ c ∷ s) ≡ 3
unfolding decode_size
size-three a b c [] p q t = ground arith
size-three a b c (d ∷ s) p q t = ground arith

size-four :
    (a b c d : ℕ) (s : Bytes)
    → (0xF0 ≤ a) × (a ≤ 0xF4)
    → (accept_lo a ≤ b) × (b ≤ accept_hi a)
    → (0x80 ≤ c) × (c ≤ 0xBF)
    → (0x80 ≤ d) × (d ≤ 0xBF)
    → decode_size (a ∷ b ∷ c ∷ d ∷ s) ≡ 4
unfolding decode_size
size-four a b c d s p q t u = ground arith

size-ascii : (a : ℕ) (s : Bytes) → a < 0x80 → decode_size (a ∷ s) ≡ 1
unfolding decode_size
size-ascii a s p = ground arith

size-nil : decode_size [] ≡ 0
unfolding decode_size
size-nil = refl

pub decode_size-CutsAt : {s : Bytes} → IsUtf8 s → CutsAt s (decode_size s)
decode_size-CutsAt nil = rw size-nil (nil, nil)
decode_size-CutsAt (ascii {a} {s} p v) = rw (size-ascii a s p) (ascii p nil, v)
decode_size-CutsAt (two {a} {b} {s} p q v) = rw (size-two a b s p q) (two p q nil, v)
decode_size-CutsAt (three {a} {b} {c} {s} p q t v) =
    rw (size-three a b c s p q t) (three p q t nil, v)
decode_size-CutsAt (four {a} {b} {c} {d} {s} p q t u v) =
    rw (size-four a b c d s p q t u) (four p q t u nil, v)

pub decode_size_bounds :
    (a : ℕ) (s : Bytes)
    → (1 ≤ decode_size (a ∷ s)) × (decode_size (a ∷ s) ≤ 4) × (decode_size (a ∷ s) ≤ suc (length s))
unfolding decode_size
decode_size_bounds a [] = ground arith
decode_size_bounds a (b ∷ []) = ground arith
decode_size_bounds a (b ∷ c ∷ []) = ground arith
decode_size_bounds a (b ∷ c ∷ d ∷ s) = ground arith
