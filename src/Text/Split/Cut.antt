-- ===== src/Text/Split/Cut.antt =====
-- Where `SplitUTF8` cuts: within the text, behind at least one byte, and between two runes.
use native.Mathlib.Nat.{zero-add, suc-add}
use native.Mathlib.Numerals.{add-one}
use wrapping_bot.Base.{
  ℕ, suc, zero, ◌+◌, ◌/◌, ◌≤◌, ◌<◌, max, true, [], ◌∷◌, some, ◌≡◌, ◌⊎◌, inl, inr, refl, arith, ◌==◌,
  Bool-cases, Option-cases, take, drop, length, get_elem?,
}
use wrapping_bot.Base.Bytes.{Bytes}
use wrapping_bot.Text.Utf8.{
  rune_start, starts_rune, IsUtf8, CutsAt, starts_rune-CutsAt, ascii-CutsAt, decode_size-CutsAt,
  decode_size_bounds,
}
use wrapping_bot.Text.Split.{byte_at, back_to_rune, last_index_byte, rune_cut, newline_cut}

pub back_to_rune-le : (s : Bytes) (k : ℕ) → back_to_rune s k ≤ k
unfolding back_to_rune
back_to_rune-le s zero = omega arith
back_to_rune-le s (suc k) = ground (arith, back_to_rune-le s k)

byte_at-starts_rune :
    (s : Bytes) (k : ℕ) → rune_start (byte_at s k) ≡ true → starts_rune (drop k s) ≡ true
unfolding byte_at
byte_at-starts_rune [] zero h = refl
byte_at-starts_rune [] (suc k) h = refl
byte_at-starts_rune (c ∷ s) zero h = h
byte_at-starts_rune (c ∷ s) (suc k) h = byte_at-starts_rune s k h

pub back_to_rune-starts_rune :
    (s : Bytes) (k : ℕ) → (back_to_rune s k ≡ 0) ⊎ (starts_rune (drop (back_to_rune s k) s) ≡ true)
unfolding back_to_rune
back_to_rune-starts_rune s zero = inl refl
back_to_rune-starts_rune s (suc k) = elim (Bool-cases (rune_start (byte_at s (suc k)))) [
  | inl start ↦ rw start (inr (byte_at-starts_rune s (suc k) start))
  | inr middle ↦ rw middle (back_to_rune-starts_rune s k)
]

-- A cut is behind the first byte, and behind at most `max` bytes or four.
pub record CutBounds (s : Bytes) (max_bytes cut : ℕ) : Type 0 where
  pub positive : 1 ≤ cut
  pub limited : cut ≤ max max_bytes 4
  pub inside : cut ≤ length s

pub rune_cut-CutBounds :
    (s : Bytes) (max_bytes : ℕ)
    → max_bytes < length s
    → CutBounds s max_bytes (rune_cut s max_bytes)
unfolding rune_cut
rune_cut-CutBounds [] m h = absurd (omega arith)
rune_cut-CutBounds (a ∷ s) m h = ground (arith, back_to_rune-le (a ∷ s) m, decode_size_bounds a s)

pub rune_cut-CutsAt : {s : Bytes} → IsUtf8 s → (m : ℕ) → CutsAt s (rune_cut s m)
unfolding rune_cut
rune_cut-CutsAt {s} v m = elim (Bool-cases (back_to_rune s m == 0)) [
  | inl none_found ↦ rw none_found (decode_size-CutsAt v)
  | inr found ↦ rw found (elim (back_to_rune-starts_rune s m) [
    | inl e ↦ ground arith
    | inr h ↦ starts_rune-CutsAt v (back_to_rune s m) h
  ])
]

last_index_byte-get_elem? :
    (s : Bytes) (c : ℕ) {i : ℕ} → last_index_byte s c ≡ some i → get_elem? s i ≡ some c
unfolding last_index_byte
last_index_byte-get_elem? [] c e = cc
last_index_byte-get_elem? (x ∷ s) c {i} e = elim (Option-cases (last_index_byte s c)) [
  | inl h ↦ ground arith
  | inr (j, h) ↦ ground (arith, last_index_byte-get_elem? s c h)
]

get_elem?-drop :
    (m : ℕ) (s : Bytes) (i : ℕ) {c : ℕ}
    → get_elem? (drop m s) i ≡ some c
    → get_elem? s (m + i) ≡ some c
get_elem?-drop zero s i e = rw zero-add e
get_elem?-drop (suc m) [] i e = e
get_elem?-drop (suc m) (x ∷ s) i e = rw suc-add (get_elem?-drop m s i e)

get_elem?-take :
    (n : ℕ) (s : Bytes) (i : ℕ) {c : ℕ}
    → get_elem? (take n s) i ≡ some c
    → (get_elem? s i ≡ some c) × (i < n)
get_elem?-take zero s i e = absurd (cc)
get_elem?-take (suc n) [] i e = absurd (cc)
get_elem?-take (suc n) (x ∷ s) zero e = (e, omega arith)
get_elem?-take (suc n) (x ∷ s) (suc i) e =
    let (found, below) = get_elem?-take n s i e in (found, omega arith)

-- A newline that the search finds stands in the text before the cut.
found_newline :
    (s : Bytes) (cut start : ℕ) {i : ℕ}
    → last_index_byte (drop start (take cut s)) b'\n' ≡ some i
    → (get_elem? s (start + i) ≡ some b'\n') × (start + i < cut)
found_newline s cut start {i} e =
    get_elem?-take cut s (start + i)
      (get_elem?-drop start (take cut s) i (last_index_byte-get_elem? _ b'\n' e))

pub newline_cut-CutBounds :
    (s : Bytes) (m cut : ℕ) → CutBounds s m cut → CutBounds s m (newline_cut s cut)
unfolding newline_cut
newline_cut-CutBounds s m cut v =
    elim (Option-cases (last_index_byte (drop (cut / 2) (take cut s)) b'\n')) [
      | inl e ↦ rw (e, newline_cut) v
      | inr (i, e) ↦ ground (arith, found_newline s cut (cut / 2) e)
    ]

pub newline_cut-CutsAt :
    {s : Bytes} → IsUtf8 s → (cut : ℕ) → CutsAt s cut → CutsAt s (newline_cut s cut)
unfolding newline_cut
newline_cut-CutsAt {s} v cut h =
    elim (Option-cases (last_index_byte (drop (cut / 2) (take cut s)) b'\n')) [
      | inl e ↦ rw (e, newline_cut) h
      | inr (i, e) ↦
          rw (e, newline_cut, add-one)
            (ascii-CutsAt v (cut / 2 + i) b'\n' (found_newline s cut (cut / 2) e).0 (omega arith))
    ]
