-- ===== src/Text/Split/Laws.antt =====
-- What `SplitUTF8` promises of its chunks.
use wrapping_bot.Base.{
  ℕ, suc, zero, ◌≤◌, ◌<◌, max, ◌||◌, List, [], ◌∷◌, ◌++◌, some, ◌≡◌, ◌⊎◌, inl, inr, refl, ap, ◌∙◌,
  arith, ltb, leb, ◌==◌, if◌then◌else◌, Bool-cases, take, drop, length, length-drop, length-take,
  take-append-drop, append-nil, All,
}
use wrapping_bot.Base.Bytes.{Bytes, is_empty, concat}
use wrapping_bot.Text.Utf8.{IsUtf8, CutsAt}
use wrapping_bot.Text.Split.{rune_cut, newline_cut, split_loop, split_utf8}
use wrapping_bot.Text.Split.Cut.{
  CutBounds, rune_cut-CutBounds, rune_cut-CutsAt, newline_cut-CutBounds, newline_cut-CutsAt,
}

-- The chunks spell the text, none is empty, and each is within the limit.
pub record IsSplit (s : Bytes) (max_bytes : ℕ) (chunks : List Bytes) : Type 0 where
  pub joins : concat chunks ≡ s
  pub limited : All (λ c. length c ≤ max max_bytes 4) chunks
  pub non_empty : All (λ c. 1 ≤ length c) chunks
  pub utf8 : IsUtf8 s → All IsUtf8 chunks

IsSplit-cons :
    (s : Bytes) (m cut : ℕ) (chunks : List Bytes)
    → CutBounds s m cut
    → (IsUtf8 s → CutsAt s cut)
    → IsSplit (drop cut s) m chunks
    → IsSplit s m (take cut s ∷ chunks)
IsSplit-cons s m cut chunks b h rest = record {
  joins = ap (λ t. take cut s ++ t) rest.joins ∙ take-append-drop cut s;
  limited = (omega (arith, length-take cut s), rest.limited);
  non_empty = (omega (arith, length-take cut s), rest.non_empty);
  utf8 = λ v. ((h v).0, rest.utf8 (h v).1);
}

IsSplit-short : (s : Bytes) (m : ℕ) → length s ≤ m → IsSplit s m (if is_empty s then [] else s ∷ [])
IsSplit-short [] m h = record { joins = refl; limited = tt; non_empty = tt; utf8 = λ v. tt }
IsSplit-short (c ∷ s) m h = record {
  joins = append-nil (c ∷ s);
  limited = (omega arith, tt);
  non_empty = (omega arith, tt);
  utf8 = λ v. (v, tt);
}

-- With more fuel than bytes the loop ends, with the chunks.
pub split_loop-IsSplit :
    (fuel : ℕ) (s : Bytes) (m : ℕ)
    → length s < fuel
    → (chunks : List Bytes) × (split_loop fuel s m ≡ some chunks) × IsSplit s m chunks
unfolding split_loop
split_loop-IsSplit zero s m h = absurd (omega arith)
split_loop-IsSplit (suc fuel) s m h = elim (Bool-cases (ltb m (length s))) [
  | inl long ↦ rw long (
      let cut : ℕ = newline_cut s (rune_cut s m) in
      let b : CutBounds s m cut =
        newline_cut-CutBounds s m _ (rune_cut-CutBounds s m (ground arith)) in
      let (chunks, e, rest) =
        split_loop-IsSplit fuel (drop cut s) m (omega (arith, length-drop cut s, b.positive)) in
      (
        take cut s ∷ chunks,
        rw (e, split_loop),
        IsSplit-cons s m cut chunks b (λ v. newline_cut-CutsAt v _ (rune_cut-CutsAt v m)) rest,
      ))
  | inr short ↦ rw short (_, refl, IsSplit-short s m (ground arith))
]

split_utf8-cases :
    (s : Bytes) (m : ℕ)
    → (split_utf8 s m ≡ s ∷ []) × ((m ≡ 0) ⊎ (length s ≤ m)) ⊎ IsSplit s m (split_utf8 s m)
unfolding split_utf8
split_utf8-cases s m = elim (Bool-cases (m == 0 || leb (length s) m)) [
  | inl whole ↦ rw whole (inl (refl, ground arith))
  | inr cut ↦
      rw cut
        (let (chunks, e, h) = split_loop-IsSplit (suc (length s)) s m (omega arith) in inr (rw e h))
]

-- The chunks of a text, one behind the other, are the text, for every text and every limit.
pub concat-split_utf8 : (s : Bytes) (max_bytes : ℕ) → concat (split_utf8 s max_bytes) ≡ s
concat-split_utf8 s m = elim (split_utf8-cases s m) [
  | inl (e, _) ↦ rw e (append-nil s)
  | inr h ↦ h.joins
]

-- Under a positive limit, each chunk has at most that many bytes, or at most four if the limit is
-- below four.
pub split_utf8-limited :
    (s : Bytes) (max_bytes : ℕ)
    → 1 ≤ max_bytes
    → All (λ c. length c ≤ max max_bytes 4) (split_utf8 s max_bytes)
split_utf8-limited s m pos = elim (split_utf8-cases s m) [
  | inl (e, h) ↦ rw e (omega arith, tt)
  | inr h ↦ h.limited
]

-- Of a text that is not empty no chunk is empty.
split_utf8-non_empty :
    (s : Bytes) (max_bytes : ℕ) → 1 ≤ length s → All (λ c. 1 ≤ length c) (split_utf8 s max_bytes)
split_utf8-non_empty s m full = elim (split_utf8-cases s m) [
  | inl (e, h) ↦ rw e (full, tt)
  | inr h ↦ h.non_empty
]

-- Of a text that is not empty, and under a positive limit, no chunk is empty, and each has at most that
-- many bytes, or at most four if the limit is below four.
pub split_utf8-sizes :
    (s : Bytes) (max_bytes : ℕ)
    → 1 ≤ length s
    → 1 ≤ max_bytes
    → All (λ c. 1 ≤ length c) (split_utf8 s max_bytes)
      × All (λ c. length c ≤ max max_bytes 4) (split_utf8 s max_bytes)
split_utf8-sizes s m full pos = (split_utf8-non_empty s m full, split_utf8-limited s m pos)

-- Of well-formed UTF-8, every chunk is well-formed UTF-8: no rune is broken, at any limit.
pub split_utf8-IsUtf8 : (s : Bytes) (max_bytes : ℕ) → IsUtf8 s → All IsUtf8 (split_utf8 s max_bytes)
split_utf8-IsUtf8 s m v = elim (split_utf8-cases s m) [
  | inl (e, _) ↦ rw e (v, tt)
  | inr h ↦ h.utf8 v
]
