-- ===== src/Text/Split.antt =====
-- `SplitUTF8` of internal/textutil/text.go.
pub mod Cut
pub mod Laws
use wrapping_bot.Base.{
  ℕ, suc, zero, ◌+◌, ◌/◌, Bool, true, false, ◌||◌, List, [], ◌∷◌, Option, some, none, ltb, leb,
  ◌==◌, if◌then◌else◌, take, drop, length,
}
use wrapping_bot.Base.Bytes.{Bytes, is_empty}
use wrapping_bot.Text.Utf8.{rune_start, decode_size}

-- `s[i]`. Every index that the code uses is below `len(s)`.
unfoldable pub byte_at : Bytes → ℕ → ℕ
byte_at [] i = 0
byte_at (c ∷ s) zero = c
byte_at (c ∷ s) (suc i) = byte_at s i

-- `for cut > 0 && !utf8.RuneStart(s[cut]) { cut-- }`
unfoldable pub back_to_rune : Bytes → ℕ → ℕ
unfolding byte_at
back_to_rune s zero = zero
back_to_rune s (suc k) =
    let further = back_to_rune s k in if rune_start (byte_at s (suc k)) then suc k else further

-- `strings.LastIndexByte`; `none` is its -1.
unfoldable pub last_index_byte : Bytes → ℕ → Option ℕ
last_index_byte [] c = none
last_index_byte (x ∷ s) c = elim (last_index_byte s c) [
  | some i ↦ some (suc i)
  | none ↦ if x == c then some 0 else none
]

-- The place before which the text is cut, of at most `max` bytes where a rune lets it.
unfoldable pub rune_cut : Bytes → ℕ → ℕ
unfolding back_to_rune
rune_cut s max = let cut = back_to_rune s max in if cut == 0 then decode_size s else cut

-- Behind the last newline in the second half of the chunk, if there is one.
unfoldable pub newline_cut : Bytes → ℕ → ℕ
unfolding last_index_byte
newline_cut s cut =
    let search_start = cut / 2 in
    elim (last_index_byte (drop search_start (take cut s)) b'\n') [
      | some idx ↦ search_start + idx + 1
      | none ↦ cut
    ]

-- The loop, each round with one chunk; `none` is that the fuel ran out.
unfoldable pub split_loop : ℕ → Bytes → ℕ → Option (List Bytes)
unfolding rune_cut newline_cut
split_loop zero s max = none
split_loop (suc fuel) s max =
    let cut = newline_cut s (rune_cut s max) in
    let rest = split_loop fuel (drop cut s) max in
    if ltb max (length s)
    then elim rest [ some chunks ↦ some (take cut s ∷ chunks) | none ↦ none ]
    else some (if is_empty s then [] else s ∷ [])

abbrev pub chunks_or_nil : Option (List Bytes) → List Bytes
chunks_or_nil (some chunks) = chunks
chunks_or_nil none = []

-- A limit of zero or below is 0 here. Each round takes a byte or more, so the fuel is one more than
-- the number of bytes.
unfoldable pub split_utf8 : Bytes → ℕ → List Bytes
unfolding split_loop
split_utf8 s max_bytes =
    if max_bytes == 0 || leb (length s) max_bytes
    then s ∷ []
    else chunks_or_nil (split_loop (suc (length s)) s max_bytes)
