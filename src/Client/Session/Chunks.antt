-- ===== src/Client/Session/Chunks.antt =====
-- The pieces of `Write` of internal/clientstream/session.go.
use wrapping_bot.Base.{
  ℕ, zero, suc, ◌≤◌, min, [], ◌∷◌, ◌++◌, ◌≡◌, refl, ap, ◌∙◌, arith, length, length-drop,
  length-take, take, drop, take-append-drop, All,
}
use wrapping_bot.Base.Bytes.{Bytes, concat}
use wrapping_bot.Client.Session.{max_output_event_bytes, chunks}

chunks-pieces :
    (fuel : ℕ) (p : Bytes)
    → length p ≤ fuel
    → (concat (chunks fuel p) ≡ p)
      × All (λ c. (1 ≤ length c) × (length c ≤ max_output_event_bytes)) (chunks fuel p)
unfolding chunks
chunks-pieces zero [] h = (refl, tt)
chunks-pieces zero (c ∷ p) h = absurd (omega arith)
chunks-pieces (suc fuel) [] h = (refl, tt)
chunks-pieces (suc fuel) (c ∷ p) h =
    let n = min (length (c ∷ p)) max_output_event_bytes in
    let (joins, sized) =
      chunks-pieces fuel (drop n (c ∷ p)) (omega (arith, length-drop n (c ∷ p))) in
    (
      ap (λ r. take n (c ∷ p) ++ r) joins ∙ take-append-drop n (c ∷ p),
      ((omega (arith, length-take n (c ∷ p)), omega (arith, length-take n (c ∷ p))), sized),
    )

-- Joined, the pieces are what is written, and each has one to 8192 bytes.
pub concat-chunks :
    (p : Bytes)
    → (concat (chunks (length p) p) ≡ p)
      × All (λ c. (1 ≤ length c) × (length c ≤ max_output_event_bytes)) (chunks (length p) p)
concat-chunks p = chunks-pieces (length p) p (omega arith)
