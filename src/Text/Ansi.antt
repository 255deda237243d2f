-- ===== src/Text/Ansi.antt =====
-- `StripANSI` of internal/textutil/text.go: a matcher for the regular expression of `ansiPattern`, as
-- Go's `regexp` finds it (the first alternative that matches, each `*` as long as it can be), and
-- the removal of its matches from left to right. All that the expression names are ASCII bytes, so
-- runes and bytes give the same matches.
pub mod Laws
pub mod Removed
use wrapping_bot.Base.{
  ℕ, zero, suc, ◌+◌, Bool, true, false, ◌&&◌, List, [], ◌∷◌, Option, some, none, leb, ◌==◌,
  if◌then◌else◌,
}
use wrapping_bot.Base.Bytes.{Bytes}

abbrev pub esc : ℕ
esc = 0x1B

abbrev pub bel : ℕ
bel = 0x07

abbrev pub within : ℕ → ℕ → ℕ → Bool
within lo hi c = leb lo c && leb c hi

abbrev pub longer : ℕ → Option ℕ → Option ℕ
longer n none = none
longer n (some m) = some (n + m)

-- The length of a match of `[ -/]*[@-~]` at the start of the text.
unfoldable pub csi_final : Bytes → Option ℕ
csi_final [] = none
csi_final (c ∷ s) =
    let rest = longer 1 (csi_final s) in
    if within 0x20 0x2F c then rest else if within 0x40 0x7E c then some 1 else none

-- Of `[0-?]*[ -/]*[@-~]`. The three classes are disjoint, so no shorter `*` can match.
unfoldable pub csi_params : Bytes → Option ℕ
unfolding csi_final
csi_params [] = none
csi_params (c ∷ s) =
    let rest = longer 1 (csi_params s) in if within 0x30 0x3F c then rest else csi_final (c ∷ s)

-- Up to and with the first BEL.
unfoldable pub bel_end : Bytes → Option ℕ
bel_end [] = none
bel_end (c ∷ s) = let rest = longer 1 (bel_end s) in if c == bel then some 1 else rest

abbrev pub is_st : Bytes → Bool
is_st (c ∷ d ∷ s) = c == esc && d == b'\\'
is_st _ = false

-- Up to and with the last ESC backslash.
unfoldable pub st_end : Bytes → Option ℕ
st_end [] = none
st_end (c ∷ s) = elim (st_end s) [
  | some n ↦ some (1 + n)
  | none ↦ if is_st (c ∷ s) then some 2 else none
]

-- Of `[^\x07]*(?:\x07|\x1b\\)`: the `*` runs up to the first BEL, which then matches; in a text with
-- no BEL it runs to the end, and goes back to the last ESC backslash.
unfoldable pub osc_end : Bytes → Option ℕ
unfolding bel_end st_end
osc_end s = elim (bel_end s) [ some n ↦ some n | none ↦ st_end s ]

-- The length of a match of `ansiPattern` at the start of the text.
unfoldable pub match_ansi : Bytes → Option ℕ
unfolding csi_params osc_end
match_ansi (c ∷ d ∷ s) =
    if c == esc && d == b'['
    then longer 2 (csi_params s)
    else if c == esc && d == b']'
    then longer 2 (osc_end s)
    else none
match_ansi _ = none

-- `ReplaceAllString(s, "")`: `skip` counts the bytes of a match that are still to be passed over.
unfoldable pub strip_from : ℕ → Bytes → Bytes
unfolding match_ansi
strip_from skip [] = []
strip_from (suc skip) (c ∷ s) = strip_from skip s
strip_from zero (c ∷ s) = elim (match_ansi (c ∷ s)) [
  | some (suc n) ↦ strip_from n s
  | _ ↦ c ∷ strip_from 0 s
]

unfoldable pub strip_ansi : Bytes → Bytes
unfolding strip_from
strip_ansi s = strip_from 0 s
