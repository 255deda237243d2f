-- ===== src/Text/Fence.antt =====
-- `EscapeCodeFence` of internal/textutil/text.go.
use wrapping_bot.Base.{
  ℕ, Bool, false, ◌||◌, [], ◌∷◌, ◌++◌, ◌≡◌, ◌≢◌, ◌⊎◌, inl, inr, refl, arith, ◌==◌,
}
use wrapping_bot.Base.Bytes.{Bytes, contains, replace_from, replace_all}

abbrev pub backtick : ℕ
backtick = b'`'

abbrev pub fence : Bytes
fence = backtick ∷ backtick ∷ backtick ∷ []

-- A backtick, the three bytes of U+200B, and two backticks.
abbrev pub escaped_fence : Bytes
escaped_fence = backtick ∷ 0xE2 ∷ 0x80 ∷ 0x8B ∷ backtick ∷ backtick ∷ []

unfoldable pub escape_code_fence : Bytes → Bytes
unfolding replace_from
escape_code_fence s = replace_all s fence escaped_fence

abbrev starts : Bytes → Bool
starts [] = false
starts (c ∷ s) = c == backtick

-- The first byte is a backtick after the escape if it was one before.
starts-escape_code_fence : (s : Bytes) → starts (escape_code_fence s) ≡ starts s
unfolding escape_code_fence
starts-escape_code_fence [] = refl
starts-escape_code_fence (a ∷ []) = ground arith
starts-escape_code_fence (a ∷ b ∷ []) = ground arith
starts-escape_code_fence (a ∷ b ∷ c ∷ s) = ground arith

contains_behind_two :
    (s : Bytes) → contains (backtick ∷ backtick ∷ s) fence ≡ (starts s || contains s fence)
unfolding contains
contains_behind_two [] = refl
contains_behind_two (a ∷ []) = ground arith
contains_behind_two (a ∷ b ∷ s) = ground arith

contains_behind_three :
    (s : Bytes)
    → contains (backtick ∷ backtick ∷ backtick ∷ s) (backtick ∷ fence)
      ≡ (starts s || contains s (backtick ∷ fence))
unfolding contains
contains_behind_three [] = refl
contains_behind_three (a ∷ []) = ground arith
contains_behind_three (a ∷ b ∷ []) = ground arith
contains_behind_three (a ∷ b ∷ c ∷ s) = ground arith

-- One round of the escape at a byte that is no backtick, and at one, two and three backticks.
escape_other :
    (a : ℕ) (s : Bytes) → a ≢ backtick → escape_code_fence (a ∷ s) ≡ a ∷ escape_code_fence s
unfolding escape_code_fence
escape_other a s h = ground arith

escape_one :
    (a : ℕ) (s : Bytes)
    → a ≢ backtick
    → escape_code_fence (backtick ∷ a ∷ s) ≡ backtick ∷ a ∷ escape_code_fence s
unfolding escape_code_fence
escape_one a s h = ground arith

escape_two :
    (a : ℕ) (s : Bytes)
    → a ≢ backtick
    → escape_code_fence (backtick ∷ backtick ∷ a ∷ s)
      ≡ backtick ∷ backtick ∷ a ∷ escape_code_fence s
unfolding escape_code_fence
escape_two a s h = ground arith

escape_three :
    (s : Bytes)
    → escape_code_fence (backtick ∷ backtick ∷ backtick ∷ s) ≡ escaped_fence ++ escape_code_fence s
unfolding escape_code_fence
escape_three s = refl

-- A byte that is no backtick, behind at most two of them, ends the search for a fence there.
contains_other :
    (a : ℕ) (s ticks : Bytes)
    → a ≢ backtick
    → (ticks ≡ fence) ⊎ (ticks ≡ backtick ∷ fence)
    → (contains (a ∷ s) ticks ≡ contains s ticks)
      × (contains (backtick ∷ a ∷ s) ticks ≡ contains s ticks)
      × (contains (backtick ∷ backtick ∷ a ∷ s) ticks ≡ contains s ticks)
unfolding contains
contains_other a s ticks h (inl e) = rw e (ground arith, ground arith, ground arith)
contains_other a s ticks h (inr e) = rw e (ground arith, ground arith, ground arith)

contains-escaped_fence :
    (s : Bytes) → contains (escaped_fence ++ s) fence ≡ contains (backtick ∷ backtick ∷ s) fence
unfolding contains
contains-escaped_fence s = refl

-- The escaped text holds a code fence exactly when the text holds four backticks in a row.
pub contains-escape_code_fence :
    (s : Bytes) → contains (escape_code_fence s) fence ≡ contains s (backtick ∷ fence)
contains-escape_code_fence [] = unfold escape_code_fence contains in refl
contains-escape_code_fence (a ∷ []) = unfold escape_code_fence contains in ground arith
contains-escape_code_fence (a ∷ b ∷ []) = unfold escape_code_fence contains in ground arith
contains-escape_code_fence (a ∷ b ∷ c ∷ s) = ground (
  arith,
  contains-escape_code_fence (b ∷ c ∷ s),
  contains-escape_code_fence (c ∷ s),
  contains-escape_code_fence s,
  escape_other a (b ∷ c ∷ s),
  escape_one b (c ∷ s),
  escape_two c s,
  escape_three s,
  contains_other a (b ∷ c ∷ s) (backtick ∷ fence),
  contains_other a (escape_code_fence (b ∷ c ∷ s)) fence,
  contains_other b (c ∷ s) (backtick ∷ fence),
  contains_other b (escape_code_fence (c ∷ s)) fence,
  contains_other c s (backtick ∷ fence),
  contains_other c (escape_code_fence s) fence,
  contains-escaped_fence (escape_code_fence s),
  contains_behind_two (escape_code_fence s),
  contains_behind_three s,
  starts-escape_code_fence s,
)
