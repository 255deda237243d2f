-- ===== src/Base/Trim.antt =====
-- `strings.TrimSpace` leaves what it has trimmed.
use Prim.Native.Nat.{ℕ, zero, suc, ◌≤◌}
use mathlib.Core.Path.{◌≡◌, refl, sym, ap, ◌∙◌}
use mathlib.Core.Logic.{◌⊎◌, inl, inr}
use mathlib.Core.Bool.{true, false}
use mathlib.Core.List.{[], ◌∷◌, ◌++◌}
use native.Mathlib.Omega.{arith}
use wrapping_bot.Base.Tests.{Bool-cases}
use wrapping_bot.Base.Lists.{length}
use wrapping_bot.Base.Bytes.{Bytes}
use wrapping_bot.Base.Space.{space_size, trim_left_from, all_space_from, trim_right, trim_space}

ℕ-cases : (n : ℕ) → (n ≡ 0) ⊎ ((k : ℕ) × (n ≡ suc k))
ℕ-cases zero = inl refl
ℕ-cases (suc k) = inr (k, refl)

-- A prefix of a text that begins with no white space does not either, and white space stays so.
space_size-prefix : (u rest : Bytes) → (space_size u ≡ 0) ⊎ (space_size (u ++ rest) ≡ space_size u)
unfolding space_size
space_size-prefix [] rest = inl refl
space_size-prefix (a ∷ []) [] = inr refl
space_size-prefix (a ∷ []) (b ∷ []) = ground arith
space_size-prefix (a ∷ []) (b ∷ c ∷ s) = ground arith
space_size-prefix (a ∷ b ∷ []) [] = inr refl
space_size-prefix (a ∷ b ∷ []) (c ∷ s) = ground arith
space_size-prefix (a ∷ b ∷ c ∷ s) rest = inr refl

space_size-le : (s : Bytes) → space_size s ≤ length s
unfolding space_size
space_size-le [] = omega arith
space_size-le (a ∷ []) = ground arith
space_size-le (a ∷ b ∷ []) = ground arith
space_size-le (a ∷ b ∷ c ∷ s) = ground arith

trim_left_from-head : (skip : ℕ) (s : Bytes) → space_size (trim_left_from skip s) ≡ 0
unfolding trim_left_from space_size
trim_left_from-head skip [] = refl
trim_left_from-head (suc skip) (c ∷ s) = trim_left_from-head skip s
trim_left_from-head zero (c ∷ s) = elim (ℕ-cases (space_size (c ∷ s))) [
  | inl e ↦ rw (trim_left_from, e) e
  | inr (k, e) ↦ rw (trim_left_from, e) (trim_left_from-head k s)
]

trim_left_from-same : (s : Bytes) → space_size s ≡ 0 → trim_left_from 0 s ≡ s
unfolding trim_left_from
trim_left_from-same [] e = refl
trim_left_from-same (c ∷ s) e = rw (trim_left_from, e) refl

all_space_from-split :
    (c : ℕ) (u : Bytes)
    → all_space_from 0 (c ∷ u) ≡ true
    → (k : ℕ) × (space_size (c ∷ u) ≡ suc k) × (all_space_from k u ≡ true)
unfolding all_space_from
all_space_from-split c u = split (space_size (c ∷ u)) refl
  where
    split :
        (n : ℕ)
        → space_size (c ∷ u) ≡ n
        → elim n [ zero ↦ false | suc k ↦ all_space_from k u ] ≡ true
        → (k : ℕ) × (space_size (c ∷ u) ≡ suc k) × (all_space_from k u ≡ true)
    split zero e h = absurd (cc)
    split (suc k) e h = (k, e, h)

all_space_from-join :
    (c k : ℕ) (s : Bytes)
    → space_size (c ∷ s) ≡ suc k
    → all_space_from 0 (c ∷ s) ≡ all_space_from k s
unfolding all_space_from
all_space_from-join c k s e = rw (all_space_from, e) refl

all_space_from-append :
    (skip : ℕ) (u rest : Bytes)
    → skip ≤ length u
    → all_space_from skip u ≡ true
    → all_space_from 0 rest ≡ true
    → all_space_from skip (u ++ rest) ≡ true
unfolding all_space_from
all_space_from-append zero [] rest h e r = r
all_space_from-append (suc skip) [] rest h e r = absurd (omega arith)
all_space_from-append (suc skip) (c ∷ u) rest h e r =
    all_space_from-append skip u rest (omega arith) e r
all_space_from-append zero (c ∷ u) rest h e r =
    let (k, size, inner) = all_space_from-split c u e in
    let fits : k ≤ length u = omega (arith, space_size-le (c ∷ u), size) in
    all_space_from-join c k (u ++ rest) (ground (arith, space_size-prefix (c ∷ u) rest))
    ∙ all_space_from-append k u rest fits inner r

-- What `trim_right` takes away is white space.
trim_right-rest :
    (s : Bytes) → (rest : Bytes) × (s ≡ trim_right s ++ rest) × (all_space_from 0 rest ≡ true)
unfolding trim_right
trim_right-rest [] = ([], refl, unfold all_space_from in refl)
trim_right-rest (c ∷ s) = elim (Bool-cases (all_space_from 0 (c ∷ s))) [
  | inl e ↦ rw (trim_right, e) (c ∷ s, refl, e)
  | inr e ↦
      let (rest, split, blank) = trim_right-rest s in
      rw (trim_right, e) (rest, ap (λ r. c ∷ r) split, blank)
]

trim_right-blank : (c : ℕ) (s : Bytes) → all_space_from 0 (c ∷ s) ≡ true → trim_right (c ∷ s) ≡ []
unfolding trim_right
trim_right-blank c s e = rw (trim_right, e) refl

trim_right-cons :
    (c : ℕ) (s : Bytes) → all_space_from 0 (c ∷ s) ≡ false → trim_right (c ∷ s) ≡ c ∷ trim_right s
unfolding trim_right
trim_right-cons c s e = rw (trim_right, e) refl

trim_right-solid :
    (c : ℕ) (s : Bytes)
    → all_space_from 0 (c ∷ s) ≡ false
    → all_space_from 0 (c ∷ trim_right s) ≡ false
trim_right-solid c s e = elim (Bool-cases (all_space_from 0 (c ∷ trim_right s))) [
  | inr solid ↦ solid
  | inl blank ↦
      let (rest, split, gone) = trim_right-rest s in
      let whole : all_space_from 0 (c ∷ s) ≡ true =
        ap (λ r. all_space_from 0 (c ∷ r)) split
        ∙ all_space_from-append 0 (c ∷ trim_right s) rest (omega arith) blank gone in
      absurd (cc)
]

trim_right-again : (s : Bytes) → trim_right (trim_right s) ≡ trim_right s
trim_right-again [] = unfold trim_right in refl
trim_right-again (c ∷ s) = elim (Bool-cases (all_space_from 0 (c ∷ s))) [
  | inl e ↦ rw (trim_right-blank c s e) (unfold trim_right in refl)
  | inr e ↦ rw (trim_right-cons c s e) (
      trim_right-cons c (trim_right s) (trim_right-solid c s e)
      ∙ ap (λ r. c ∷ r) (trim_right-again s))
]

trim_right-head : (s : Bytes) → space_size s ≡ 0 → space_size (trim_right s) ≡ 0
trim_right-head s e =
    let (rest, split, gone) = trim_right-rest s in
    elim (space_size-prefix (trim_right s) rest) [
      | inl apart ↦ apart
      | inr same ↦ sym same ∙ ap space_size (sym split) ∙ e
    ]

-- A text that has been trimmed is left as it is.
pub trim_space-again : (s : Bytes) → trim_space (trim_space s) ≡ trim_space s
unfolding trim_space
trim_space-again s =
    let left = trim_left_from 0 s in
    ap trim_right
      (trim_left_from-same (trim_right left) (trim_right-head left (trim_left_from-head 0 s)))
    ∙ trim_right-again left
