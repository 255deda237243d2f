-- ===== src/WebSocket/Message/Bounds.antt =====
-- The loop of `readMessage` of internal/wsclient/wsclient.go ends, and its messages are bounded.
use wrapping_bot.Base.{
  ℕ, zero, suc, ◌+◌, ◌≤◌, ◌<◌, bit_and, Bool, true, false, not, ◌&&◌, [], Option, some, ◌≡◌, refl,
  arith, ltb, leb, ◌==◌, if◌then◌else◌, length, length-drop, ◌⊎◌, inl, inr, Bool-cases, ◌∙◌,
}
use wrapping_bot.Base.Bytes.{Bytes}
use wrapping_bot.Text.Split.{byte_at}
use wrapping_bot.WebSocket.{
  max_message_size, Frame, Mask, Read, got, failed, and_then, read_full, read_extended, read_mask,
  read_payload, read_frame, check_frame, mask_of, apply_mask,
}
use wrapping_bot.WebSocket.Words.{big_endian}
use wrapping_bot.WebSocket.Message.{
  Progress, Outcome, complete, broken, Turn, goes, stops, append_payload, answer_ping, take_frame,
  Received, read_loop, read_message, fresh,
}

and_then-got {ℓ κ} :
    {A : Type ℓ} {B : Type κ} (r : Read A) (f : A → Bytes → Read B) (b : B) (rest : Bytes)
    → and_then r f ≡ got b rest
    → (a : A) × (s : Bytes) × (r ≡ got a s) × (f a s ≡ got b rest)
and_then-got (got a s) f b rest e = (a, s, refl, e)
and_then-got (failed err) f b rest e = absurd (cc)

read_full-got : (k : ℕ) (s a rest : Bytes) → read_full k s ≡ got a rest → length rest + k ≡ length s
unfolding read_full
read_full-got k s a rest e = ground (arith, length-drop k s)

-- What a successful read leaves is no longer than the stream.
read_extended-got :
    (short : ℕ) (s : Bytes) (n : ℕ) (rest : Bytes)
    → read_extended short s ≡ got n rest
    → length rest ≤ length s
unfolding read_extended
read_extended-got short s n rest e = elim (Bool-cases (short == 126)) [
  | inl two_more ↦
      let (a, s1, e1, e2) =
        and_then-got (read_full 2 s) (λ extended later. got (big_endian 0 extended) later) n rest
          (ground arith) in
      ground (arith, read_full-got 2 s a s1 e1)
  | inr other ↦ elim (Bool-cases (short == 127)) [
    | inl eight_more ↦
        let (a, s1, e1, e2) =
          and_then-got (read_full 8 s) (λ extended later. got (big_endian 0 extended) later) n rest
            (ground arith) in
        ground (arith, read_full-got 8 s a s1 e1)
    | inr plain ↦ ground arith
  ]
]

read_mask-got :
    (masked : Bool) (s : Bytes) (m : Mask) (rest : Bytes)
    → read_mask masked s ≡ got m rest
    → length rest ≤ length s
unfolding read_mask
read_mask-got true s m rest e =
    let (a, s1, e1, e2) =
      and_then-got (read_full 4 s) (λ mask later. got (mask_of mask) later) m rest e in
    ground (arith, read_full-got 4 s a s1 e1)
read_mask-got false s m rest e = ground arith

check_frame-got :
    (fin : Bool) (opcode : ℕ) (payload s : Bytes) (f : Frame) (rest : Bytes)
    → check_frame fin opcode payload s ≡ got f rest
    → s ≡ rest
unfolding check_frame
check_frame-got fin opcode payload s f rest e = ground arith

read_payload-got :
    (fin : Bool) (opcode : ℕ) (masked : Bool) (size : ℕ) (s : Bytes) (f : Frame) (rest : Bytes)
    → read_payload fin opcode masked size s ≡ got f rest
    → length rest ≤ length s
unfolding read_payload
read_payload-got fin opcode masked size s f rest e = elim (Bool-cases (ltb max_message_size size)) [
  | inl large ↦ absurd (ground arith)
  | inr fits ↦
      let after = λ (mask : Mask) (s1 : Bytes). and_then (read_full size s1) (λ payload later.
        check_frame fin opcode (if masked then apply_mask mask payload else payload) later) in
      let (mask, s1, e1, e2) = and_then-got (read_mask masked s) after f rest (ground arith) in
      let (payload, s2, e3, e4) =
        and_then-got (read_full size s1)
          (λ payload later.
            check_frame fin opcode (if masked then apply_mask mask payload else payload) later)
          f rest e2 in
      let same = check_frame-got fin opcode _ s2 f rest e4 in
      ground (arith, read_mask-got masked s mask s1 e1, read_full-got size s1 payload s2 e3)
]

-- Every frame takes the two bytes of its header at least.
pub read_frame-got :
    (s : Bytes) (f : Frame) (rest : Bytes) → read_frame s ≡ got f rest → length rest + 2 ≤ length s
unfolding read_frame
read_frame-got s f rest e =
    let (header, s1, e1, e2) = and_then-got (read_full 2 s) _ f rest e in
    let (size, s2, e3, e4) =
      and_then-got (read_extended (bit_and (byte_at header 1) 0x7F) s1) _ f rest e2 in
    elim (Bool-cases ((bit_and (byte_at header 1) 0x7F == 127) && leb 0x8000_0000_0000_0000 size)) [
      | inl large ↦ absurd (ground arith)
      | inr fits ↦
          let payload_read =
            read_payload-got (not (bit_and (byte_at header 0) 0x80 == 0))
              (bit_and (byte_at header 0) 0x0F) (not (bit_and (byte_at header 1) 0x80 == 0)) size s2
              f rest (ground arith) in
          omega (
            arith,
            payload_read,
            read_full-got 2 s header s1 e1,
            read_extended-got (bit_and (byte_at header 1) 0x7F) s1 size s2 e3,
          )
    ]

abbrev pub Bounded : Outcome → Type 0
Bounded (complete m) = length m ≤ max_message_size
Bounded (broken err) = Unit

module _ (answer : ℕ → Option Bytes) where
  append_payload-bounded :
      (f : Frame) (p q : Progress) (m : Bytes)
      → append_payload f p ≡ stops (complete m) q
      → length m ≤ max_message_size
  unfolding append_payload
  append_payload-bounded f p q m e = ground arith

  take_frame-Bounded :
      (f : Frame) (p q : Progress) (o : Outcome) → take_frame answer f p ≡ stops o q → Bounded o
  unfolding take_frame answer_ping
  take_frame-Bounded f p q (complete m) e = ground (arith, append_payload-bounded f p q m)
  take_frame-Bounded f p q (broken err) e = tt

  -- A round of the loop returns, or the loop goes on with a shorter stream.
  read_loop-round :
      (fuel : ℕ) (p : Progress) (s : Bytes)
      → ((r : Received) × (read_loop (suc fuel) answer p s ≡ some r) × Bounded r.outcome)
        ⊎ ((q : Progress) × (rest : Bytes) × (length rest + 2 ≤ length s)
            × (read_loop (suc fuel) answer p s ≡ read_loop fuel answer q rest))
  unfolding read_loop
  read_loop-round fuel p s = read_on (read_frame s) refl
    where
      turn_on :
          (f : Frame) (rest : Bytes)
          → read_frame s ≡ got f rest
          → (t : Turn) → take_frame answer f p ≡ t
          → ((r : Received) × (read_loop (suc fuel) answer p s ≡ some r) × Bounded r.outcome)
            ⊎ ((q : Progress) × (rest : Bytes) × (length rest + 2 ≤ length s)
                × (read_loop (suc fuel) answer p s ≡ read_loop fuel answer q rest))
      turn_on f rest e (goes q) t =
          inr (q, rest, read_frame-got s f rest e, rw (read_loop, e, t) refl)
      turn_on f rest e (stops o q) t = inl (
        record { outcome = o; replies = q.replies; rest = rest },
        rw (read_loop, e, t) refl,
        take_frame-Bounded f p q o t,
      )

      read_on :
          (r : Read Frame)
          → read_frame s ≡ r
          → ((r : Received) × (read_loop (suc fuel) answer p s ≡ some r) × Bounded r.outcome)
            ⊎ ((q : Progress) × (rest : Bytes) × (length rest + 2 ≤ length s)
                × (read_loop (suc fuel) answer p s ≡ read_loop fuel answer q rest))
      read_on (failed err) e = inl (
        record { outcome = broken err; replies = p.replies; rest = [] },
        rw (read_loop, e) refl,
        tt,
      )
      read_on (got f rest) e = turn_on f rest e (take_frame answer f p) refl

  pub read_loop-ends :
      (fuel : ℕ) (p : Progress) (s : Bytes)
      → length s < fuel
      → (r : Received) × (read_loop fuel answer p s ≡ some r) × Bounded r.outcome
  read_loop-ends zero p s h = absurd (omega arith)
  read_loop-ends (suc fuel) p s h = elim (read_loop-round fuel p s) [
    | inl ended ↦ ended
    | inr (q, rest, shorter, same) ↦
        let (r, e, bound) = read_loop-ends fuel q rest (omega arith) in (r, same ∙ e, bound)
  ]

  -- `readMessage` returns on every stream, and the message that it returns, if it does, has at most
  -- 16 MiB.
  pub read_message-ends :
      (s : Bytes) → (r : Received) × (read_message answer s ≡ some r) × Bounded r.outcome
  unfolding read_message
  read_message-ends s = read_loop-ends (suc (length s)) fresh s (omega arith)
