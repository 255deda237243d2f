-- ===== src/Text/Ansi/Laws.antt =====
-- What `StripANSI` removes and what it keeps.
use wrapping_bot.Base.{
  false, ℕ, zero, suc, ◌+◌, ◌≤◌, ◌≢◌, [], ◌∷◌, ◌++◌, some, none, ◌≡◌, refl, sym, ap, ◌∙◌, arith,
  length, All, All-append, append-nil,
}
use wrapping_bot.Base.Bytes.{Bytes}
use wrapping_bot.Text.Ansi.{
  esc, bel, csi_final, csi_params, bel_end, is_st, st_end, osc_end, match_ansi, strip_from,
  strip_ansi,
}

abbrev pub Plain : Bytes → Type 0
Plain = All (λ c. c ≢ esc)

abbrev pub Param : Bytes → Type 0
Param = All (λ c. (0x30 ≤ c) × (c ≤ 0x3F))

abbrev pub Intermediate : Bytes → Type 0
Intermediate = All (λ c. (0x20 ≤ c) × (c ≤ 0x2F))

abbrev pub NoBel : Bytes → Type 0
NoBel = All (λ c. c ≢ bel)

match-plain : (c : ℕ) (s : Bytes) → c ≢ esc → match_ansi (c ∷ s) ≡ none
unfolding match_ansi
match-plain c [] h = refl
match-plain c (d ∷ s) h = ground arith

strip_from-skip :
    (x rest : Bytes) (n m : ℕ) → n ≡ length x + m → strip_from n (x ++ rest) ≡ strip_from m rest
unfolding strip_from
strip_from-skip [] rest n m e = ap (λ k. strip_from k rest) (omega arith)
strip_from-skip (c ∷ x) rest zero m e = absurd (omega arith)
strip_from-skip (c ∷ x) rest (suc n) m e = strip_from-skip x rest n m (omega arith)

-- A match at the start of the text is passed over.
strip_from-match :
    (c : ℕ) (t : Bytes) (n : ℕ)
    → match_ansi (c ∷ t) ≡ some (suc n)
    → strip_from 0 (c ∷ t) ≡ strip_from n t
unfolding strip_from
strip_from-match c t n e = rw (e, strip_from)

strip_from-Plain : (a rest : Bytes) → Plain a → strip_from 0 (a ++ rest) ≡ a ++ strip_from 0 rest
unfolding strip_from
strip_from-Plain [] rest h = refl
strip_from-Plain (c ∷ a) rest (hc, h) =
    rw (match-plain c (a ++ rest) hc, strip_from) (ap (λ r. c ∷ r) (strip_from-Plain a rest h))

-- Text with no ESC byte is kept as it is.
pub strip_ansi-Plain : (s : Bytes) → Plain s → strip_ansi s ≡ s
unfolding strip_ansi strip_from
strip_ansi-Plain s h = ap strip_ansi (sym (append-nil s)) ∙ strip_from-Plain s [] h ∙ append-nil s

csi_final-length :
    (ms : Bytes) (f : ℕ) (rest : Bytes)
    → Intermediate ms
    → (0x40 ≤ f) × (f ≤ 0x7E)
    → csi_final (ms ++ f ∷ rest) ≡ some (length ms + 1)
unfolding csi_final
csi_final-length [] f rest h hf = ground arith
csi_final-length (c ∷ ms) f rest (hc, h) hf = ground (arith, csi_final-length ms f rest h hf)

csi_params-final :
    (ms : Bytes) (f : ℕ) (rest : Bytes)
    → Intermediate ms
    → (0x40 ≤ f) × (f ≤ 0x7E)
    → csi_params (ms ++ f ∷ rest) ≡ csi_final (ms ++ f ∷ rest)
unfolding csi_params
csi_params-final [] f rest h hf = ground arith
csi_params-final (c ∷ ms) f rest (hc, h) hf = ground arith

csi_params-length :
    (ps ms : Bytes) (f : ℕ) (rest : Bytes)
    → Param ps
    → Intermediate ms
    → (0x40 ≤ f) × (f ≤ 0x7E)
    → csi_params (ps ++ (ms ++ f ∷ rest)) ≡ some (length ps + length ms + 1)
unfolding csi_params
csi_params-length [] ms f rest hp hm hf =
    ground (arith, csi_params-final ms f rest hm hf, csi_final-length ms f rest hm hf)
csi_params-length (c ∷ ps) ms f rest (hc, hp) hm hf =
    ground (arith, csi_params-length ps ms f rest hp hm hf)

-- So is one behind text with no ESC; `rest` is what the match leaves.
strip-at :
    (a t : Bytes) (n : ℕ) (rest : Bytes)
    → Plain a
    → match_ansi (esc ∷ t) ≡ some (suc n)
    → strip_from n t ≡ strip_from 0 rest
    → strip_ansi (a ++ esc ∷ t) ≡ a ++ strip_ansi rest
unfolding strip_ansi
strip-at a t n rest h e left =
    strip_from-Plain a (esc ∷ t) h ∙ ap (λ r. a ++ r) (strip_from-match esc t n e ∙ left)

match-csi :
    (ps ms : Bytes) (f : ℕ) (rest : Bytes)
    → Param ps
    → Intermediate ms
    → (0x40 ≤ f) × (f ≤ 0x7E)
    → match_ansi (esc ∷ b'[' ∷ (ps ++ (ms ++ f ∷ rest)))
      ≡ some (suc (suc (length ps + length ms + 1)))
unfolding match_ansi
match-csi ps ms f rest hp hm hf =
    rw (csi_params-length ps ms f rest hp hm hf) (ap some (omega arith))

-- A control sequence, ESC [ with any parameter and intermediate bytes and a final byte, is removed
-- behind text with no ESC, whatever follows it.
pub strip_ansi_csi :
    (a ps ms : Bytes) (f : ℕ) (rest : Bytes)
    → Plain a
    → Param ps
    → Intermediate ms
    → (0x40 ≤ f) × (f ≤ 0x7E)
    → strip_ansi (a ++ esc ∷ b'[' ∷ (ps ++ (ms ++ f ∷ rest))) ≡ a ++ strip_ansi rest
strip_ansi_csi a ps ms f rest h hp hm hf =
    strip-at a _ (suc (length ps + length ms + 1)) rest h (match-csi ps ms f rest hp hm hf) (
      strip_from-skip (b'[' ∷ []) _ _ (length ps + length ms + 1) (omega arith)
      ∙ strip_from-skip ps _ _ (length ms + 1) (omega arith)
      ∙ strip_from-skip ms (f ∷ rest) _ 1 refl
      ∙ strip_from-skip (f ∷ []) rest 1 0 (omega arith))

bel_end-length :
    (body rest : Bytes) → NoBel body → bel_end (body ++ bel ∷ rest) ≡ some (length body + 1)
unfolding bel_end
bel_end-length [] rest h = refl
bel_end-length (c ∷ body) rest (hc, h) = ground (arith, bel_end-length body rest h)

bel_end-none : (s : Bytes) → NoBel s → bel_end s ≡ none
unfolding bel_end
bel_end-none [] h = refl
bel_end-none (c ∷ s) (hc, h) = ground (arith, bel_end-none s h)

-- No ESC backslash stands in the text.
abbrev pub NoSt : Bytes → Type 0
NoSt [] = Unit
NoSt (c ∷ s) = (is_st (c ∷ s) ≡ false) × NoSt s

st_end-none : (s : Bytes) → NoSt s → st_end s ≡ none
unfolding st_end
st_end-none [] h = refl
st_end-none (c ∷ s) (hc, h) = rw (st_end-none s h, hc) refl

-- The backslash of an ESC backslash begins no other.
st_end-behind : (y : Bytes) → NoSt y → st_end (b'\\' ∷ y) ≡ none
unfolding st_end
st_end-behind [] h = refl
st_end-behind (c ∷ y) h = rw (st_end-none (c ∷ y) h) refl

st_end-length : (x y : Bytes) → NoSt y → st_end (x ++ (esc ∷ b'\\' ∷ y)) ≡ some (length x + 2)
unfolding st_end
st_end-length [] y h = ground (arith, st_end-behind y h)
st_end-length (c ∷ x) y h = ground (arith, st_end-length x y h)

match-osc :
    (s : Bytes) (n : ℕ) → osc_end s ≡ some n → match_ansi (esc ∷ b']' ∷ s) ≡ some (suc (suc n))
unfolding match_ansi
match-osc s n e = rw e (ap some (omega arith))

-- An operating system command that BEL ends, ESC ] up to the first BEL, is removed behind text with
-- no ESC, whatever follows it.
pub strip_ansi_osc_bel :
    (a body rest : Bytes)
    → Plain a
    → NoBel body
    → strip_ansi (a ++ esc ∷ b']' ∷ (body ++ bel ∷ rest)) ≡ a ++ strip_ansi rest
unfolding osc_end
strip_ansi_osc_bel a body rest h hb =
    strip-at a _ (suc (length body + 1)) rest h
      (match-osc _ _ (rw (bel_end-length body rest hb, osc_end)))
      (strip_from-skip (b']' ∷ []) _ _ (length body + 1) (omega arith)
        ∙ strip_from-skip body (bel ∷ rest) _ 1 refl
        ∙ strip_from-skip (bel ∷ []) rest 1 0 (omega arith))

NoBel-st : (x rest : Bytes) → NoBel x → NoBel rest → NoBel (x ++ esc ∷ b'\\' ∷ rest)
NoBel-st x rest hx hr =
    All-append _ x (esc ∷ b'\\' ∷ rest) hx
      ((λ e. absurd (omega arith)), ((λ e. absurd (omega arith)), hr))

-- In a text with no BEL, a command that begins at ESC ] is taken to end at the last ESC backslash of
-- the text, not at its own: whatever stands between, `x`, is removed with it, log text and further
-- commands included.
pub strip_ansi_osc_st :
    (a x rest : Bytes)
    → Plain a
    → NoBel x
    → NoBel rest
    → NoSt rest
    → strip_ansi (a ++ esc ∷ b']' ∷ (x ++ esc ∷ b'\\' ∷ rest)) ≡ a ++ strip_ansi rest
unfolding osc_end
strip_ansi_osc_st a x rest h hx hr hp =
    strip-at a _ (suc (length x + 2)) rest h
      (match-osc _ _
        (rw (bel_end-none _ (NoBel-st x rest hx hr), osc_end) (st_end-length x rest hp)))
      (strip_from-skip (b']' ∷ []) _ _ (length x + 2) (omega arith)
        ∙ strip_from-skip x (esc ∷ b'\\' ∷ rest) _ 2 refl
        ∙ strip_from-skip (esc ∷ b'\\' ∷ []) rest 2 0 (omega arith))
