-- ===== src/Text/Ansi/Removed.antt =====
-- What `StripANSI` of internal/textutil/text.go leaves of a text with escapes.
use wrapping_bot.Base.{ℕ, ◌≤◌, [], ◌∷◌, ◌++◌, ◌≡◌, sym, ap, ◌∙◌, append-nil}
use wrapping_bot.Base.Bytes.{Bytes}
use wrapping_bot.Text.Ansi.{esc, bel, strip_ansi}
use wrapping_bot.Text.Ansi.Laws.{
  Plain, Param, Intermediate, NoBel, NoSt, strip_ansi-Plain, strip_ansi_csi, strip_ansi_osc_bel,
  strip_ansi_osc_st,
}

-- What stands at the start of a text, and what is left of the text behind it: nothing, a control
-- sequence, or a command up to the first BEL, or in a text with no BEL up
-- to the last ESC backslash.
pub data Removes : Bytes → Bytes → Type 0 where
  at_end : Removes [] []
  csi :
      (ps ms : Bytes) (f : ℕ) (rest : Bytes)
      → Param ps
      → Intermediate ms
      → (0x40 ≤ f) × (f ≤ 0x7E)
      → Removes (esc ∷ b'[' ∷ (ps ++ (ms ++ f ∷ rest))) (strip_ansi rest)
  osc_bel :
      (body rest : Bytes)
      → NoBel body
      → Removes (esc ∷ b']' ∷ (body ++ bel ∷ rest)) (strip_ansi rest)
  osc_st :
      (x rest : Bytes)
      → NoBel x
      → NoBel rest
      → NoSt rest
      → Removes (esc ∷ b']' ∷ (x ++ esc ∷ b'\\' ∷ rest)) (strip_ansi rest)

-- Text with no ESC is kept. Behind it, ESC [ with any parameter and intermediate bytes and a final byte
-- is removed, and ESC ] up to the first BEL, whatever follows. In a text with no BEL, a command that
-- begins at ESC ] is taken to end at the last ESC backslash of the text, not at its own: all that stands
-- between is removed with it, log text and further commands included.
pub strip_ansi-Removes :
    (a t kept : Bytes) → Plain a → Removes t kept → strip_ansi (a ++ t) ≡ a ++ kept
strip_ansi-Removes a _ _ h at_end =
    ap strip_ansi (append-nil a) ∙ strip_ansi-Plain a h ∙ sym (append-nil a)
strip_ansi-Removes a _ _ h (csi ps ms f rest hp hm hf) = strip_ansi_csi a ps ms f rest h hp hm hf
strip_ansi-Removes a _ _ h (osc_bel body rest hb) = strip_ansi_osc_bel a body rest h hb
strip_ansi-Removes a _ _ h (osc_st x rest hx hr hp) = strip_ansi_osc_st a x rest h hx hr hp
