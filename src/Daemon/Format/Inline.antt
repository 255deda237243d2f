-- ===== src/Daemon/Format/Inline.antt =====
-- `inlineCode` and `escapeMarkdown`: user text cannot leave the markup that it stands in.
use wrapping_bot.Base.{ℕ, [], ◌∷◌, ◌++◌, ◌≡◌, ◌≢◌, arith, All, All-append, ◌⊎◌, inl, inr}
use wrapping_bot.Base.Bytes.{Bytes, replace_from, replace_all}
use wrapping_bot.Daemon.Format.{inline_code, modifier_grave}

-- Replacing a byte removes it, if the replacement does not bring it back, and brings in nothing else.
module _ (P : ℕ → Type 0) (old : ℕ) (new : Bytes) where
  replace-cases :
      (c : ℕ) (s : Bytes)
      → (c ≡ old) × (replace_all (c ∷ s) (old ∷ []) new ≡ new ++ replace_all s (old ∷ []) new)
        ⊎ (c ≢ old) × (replace_all (c ∷ s) (old ∷ []) new ≡ c ∷ replace_all s (old ∷ []) new)
  unfolding replace_from
  replace-cases c s = ground arith

  replace_all-All :
      (s : Bytes) → All P new → All (λ c. c ≢ old → P c) s → All P (replace_all s (old ∷ []) new)
  replace_all-All [] hn h = unfold replace_from in tt
  replace_all-All (c ∷ s) hn (hc, h) = elim (replace-cases c s) [
    | inl (_, e) ↦ rw e (All-append P new _ hn (replace_all-All s hn h))
    | inr (other, e) ↦ rw e (hc other, replace_all-All s hn h)
  ]

-- Text in inline code holds no backquote and no line break, so it ends neither the code nor the line.
abbrev pub IsInline : ℕ → Type 0
IsInline c = (c ≢ b'`') × (c ≢ b'\n') × (c ≢ b'\r')

All-weaken : {P Q : ℕ → Type 0} (s : Bytes) → ((c : ℕ) → P c → Q c) → All P s → All Q s
All-weaken [] f h = tt
All-weaken (c ∷ s) f (hc, h) = (f c hc, All-weaken s f h)

All-any : (s : Bytes) → All (λ c. Unit {0}) s
All-any [] = tt
All-any (c ∷ s) = (tt, All-any s)

-- Whatever the value, its inline form has no backquote, no newline and no carriage return.
pub inline_code-IsInline : (value : Bytes) → All IsInline (inline_code value)
unfolding inline_code
inline_code-IsInline value = replace_all-All IsInline b'\r' (b' ' ∷ []) _ (omega arith) (
    All-weaken {P = λ c. (c ≢ b'`') × (c ≢ b'\n')} _ (λ c p no_cr. (p.0, p.1, no_cr))
      (replace_all-All (λ c. (c ≢ b'`') × (c ≢ b'\n')) b'\n' (b' ' ∷ []) _ (omega arith)
        (All-weaken {P = λ c. c ≢ b'`'} _ (λ c p no_lf. (p, no_lf))
          (replace_all-All (λ c. c ≢ b'`') b'`' modifier_grave value (omega arith)
            (All-weaken value (λ c _ p. p) (All-any value))))))
