-- ===== src/WebSocket/Lengths.antt =====
-- The header of a frame of internal/wsclient/wsclient.go: its bits, its length and its mask.
use wrapping_bot.Base.{
  ℕ, ◌≤◌, ◌<◌, bit_and, bit_or, true, false, ◌&&◌, [], ◌∷◌, ◌++◌, ◌≡◌, refl, ap, ◌∙◌, arith, leb,
  ◌==◌, length, length-append, take-length-append, drop-length-append, All, holds_from,
  holds_from_sound,
}
use native.Mathlib.Decide.{dec_le}
use wrapping_bot.Base.Bytes.{Bytes}
use wrapping_bot.WebSocket.{
  max_message_size, Mask, apply_mask, turn, got, and_then, read_full, read_extended,
}
use wrapping_bot.WebSocket.Words.{
  IsByte, byte_xor-byte_xor, put_uint16, put_uint64, big_endian, big_endian-put_uint16,
  big_endian-put_uint64,
}
use wrapping_bot.WebSocket.Write.{client_length, server_length}

pub read_full-append : (xs rest : Bytes) → read_full (length xs) (xs ++ rest) ≡ got xs rest
unfolding read_full
read_full-append xs rest =
    ground (arith, take-length-append xs rest, drop-length-append xs rest, length-append xs rest)

pub apply_mask-apply_mask :
    (m : Mask) (s : Bytes) → All IsByte s → apply_mask m (apply_mask m s) ≡ s
unfolding apply_mask
apply_mask-apply_mask m [] h = refl
apply_mask-apply_mask m (c ∷ s) (hc, h) =
    rw (byte_xor-byte_xor c m.mask_0 hc, apply_mask-apply_mask (turn m) s h) refl

pub length-apply_mask : (m : Mask) (s : Bytes) → length (apply_mask m s) ≡ length s
unfolding apply_mask
length-apply_mask m [] = refl
length-apply_mask m (c ∷ s) = omega (arith, length-apply_mask (turn m) s)

-- The bits of the first byte of a frame.
opcode_table :
    holds_from 0 16
      (λ op. (bit_and (bit_or 0x80 op) 0x80 == 0x80) && (bit_and (bit_or 0x80 op) 0x0F == op))
    ≡ true
unfolding holds_from
opcode_table = refl

pub opcode_bits :
    (op : ℕ)
    → op < 16
    → (bit_and (bit_or 0x80 op) 0x80 ≡ 0x80) × (bit_and (bit_or 0x80 op) 0x0F ≡ op)
opcode_bits op h = ground (
  arith,
  holds_from_sound
      (λ op. (bit_and (bit_or 0x80 op) 0x80 == 0x80) && (bit_and (bit_or 0x80 op) 0x0F == op)) 0 16
      opcode_table op (omega arith) (omega arith),
)

-- The bits of its second byte.
length_table :
    holds_from 0 126 (λ n.
      (bit_and n 0x80 == 0)
      && (bit_and n 0x7F == n)
      && (bit_and (bit_or 0x80 n) 0x80 == 0x80)
      && (bit_and (bit_or 0x80 n) 0x7F == n))
    ≡ true
unfolding holds_from
length_table = refl

length_bits :
    (n : ℕ)
    → n ≤ 125
    → (bit_and n 0x80 ≡ 0)
      × (bit_and n 0x7F ≡ n)
      × (bit_and (bit_or 0x80 n) 0x80 ≡ 0x80)
      × (bit_and (bit_or 0x80 n) 0x7F ≡ n)
length_bits n h = ground (
  arith,
  holds_from_sound
      (λ n.
        (bit_and n 0x80 == 0)
        && (bit_and n 0x7F == n)
        && (bit_and (bit_or 0x80 n) 0x80 == 0x80)
        && (bit_and (bit_or 0x80 n) 0x7F == n))
      0 126 length_table n (omega arith) (omega arith),
)

short-read_extended : (n : ℕ) (s : Bytes) → n ≤ 125 → read_extended n s ≡ got n s
unfolding read_extended
short-read_extended n s h = ground arith

read_extended-put_uint16 :
    (n : ℕ) (s : Bytes) → n ≤ 0xFFFF → read_extended 126 (put_uint16 n ++ s) ≡ got n s
unfolding read_extended put_uint16
read_extended-put_uint16 n s h =
    ap (λ r. and_then r (λ extended rest. got (big_endian 0 extended) rest))
      (read_full-append (put_uint16 n) s)
    ∙ ap (λ size. got size s) (big_endian-put_uint16 n h)

read_extended-put_uint64 :
    (n : ℕ) (s : Bytes) → n ≤ max_message_size → read_extended 127 (put_uint64 n ++ s) ≡ got n s
unfolding read_extended put_uint64
read_extended-put_uint64 n s h =
    ap (λ r. and_then r (λ extended rest. got (big_endian 0 extended) rest))
      (read_full-append (put_uint64 n) s)
    ∙ ap (λ size. got size s) (big_endian-put_uint64 n h)

-- What a reader finds behind the first byte of a frame, for a payload of `n` bytes: whether the frame
-- is masked, by `bit`, and the length.
pub record Spells (bit n : ℕ) (field : Bytes) : Type 0 where
  pub head : ℕ
  pub tail : Bytes
  pub field_is : field ≡ head ∷ tail
  pub masks : bit_and head 0x80 ≡ bit
  pub reads : (s : Bytes) → read_extended (bit_and head 0x7F) (tail ++ s) ≡ got n s
  pub fits : (bit_and head 0x7F == 127) && leb 0x8000_0000_0000_0000 n ≡ false

pub server_length-Spells : (n : ℕ) → n ≤ max_message_size → Spells 0 n (server_length n)
server_length-Spells n h = elim (dec_le n 125) [
  | yes small ↦ record {
    head = n;
    tail = [];
    field_is = unfold server_length in ground arith;
    masks = (length_bits n small).0;
    reads = λ s. rw (length_bits n small).1 (short-read_extended n s small);
    fits = ground arith;
  }
  | no over ↦ elim (dec_le n 65535) [
    | yes middle ↦ record {
      head = 126;
      tail = put_uint16 n;
      field_is = unfold server_length in ground arith;
      masks = refl;
      reads = λ s. read_extended-put_uint16 n s middle;
      fits = ground arith;
    }
    | no large ↦ record {
      head = 127;
      tail = put_uint64 n;
      field_is = unfold server_length in ground arith;
      masks = refl;
      reads = λ s. read_extended-put_uint64 n s h;
      fits = ground arith;
    }
  ]
]

pub client_length-Spells : (n : ℕ) → n ≤ max_message_size → Spells 0x80 n (client_length n)
client_length-Spells n h = elim (dec_le n 125) [
  | yes small ↦
      let (_, _, masked, low) = length_bits n small in
      record {
        head = bit_or 0x80 n;
        tail = [];
        field_is = unfold client_length in ground arith;
        masks = masked;
        reads = λ s. rw low (short-read_extended n s small);
        fits = ground arith;
      }
  | no over ↦ elim (dec_le n 65535) [
    | yes middle ↦ record {
      head = 0xFE;
      tail = put_uint16 n;
      field_is = unfold client_length in ground arith;
      masks = refl;
      reads = λ s. read_extended-put_uint16 n s middle;
      fits = ground arith;
    }
    | no large ↦ record {
      head = 0xFF;
      tail = put_uint64 n;
      field_is = unfold client_length in ground arith;
      masks = refl;
      reads = λ s. read_extended-put_uint64 n s h;
      fits = ground arith;
    }
  ]
]
