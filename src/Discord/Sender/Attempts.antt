-- ===== src/Discord/Sender/Attempts.antt =====
-- What one attempt of `Send` of internal/discord/sender.go leads to.
use wrapping_bot.Base.{
  ℕ, ◌≤◌, ◌<◌, Bool, true, false, ◌&&◌, ◌||◌, List, some, none, ◌≡◌, ◌⊎◌, inl, inr, refl, arith,
  ltb, leb, ◌==◌, Bool-cases,
}
use wrapping_bot.Discord.Sender.{
  Answer, Reply, unmade, unreachable, unreadable, answered, Post, Sender, Outside,
  update_rate_window, Attempt, returns, continues, take_answer, take_reply,
}

-- A response of 200 to 299.
abbrev pub IsDelivered : Reply → Type 0
IsDelivered (answered a) = (200 ≤ a.status) × (a.status < 300)
IsDelivered _ = ⊥

-- No connection, 429, or a response of 500 and above.
abbrev pub IsRetried : Reply → Type 0
IsRetried (unmade err) = ⊥
IsRetried (unreachable err) = Unit
IsRetried (unreadable err) = ⊥
IsRetried (answered a) = (a.status ≡ 429) ⊎ (500 ≤ a.status)

module _ (lib : Outside) where
  -- What an attempt leads to, by its reply.
  abbrev pub Fits : Bool → Reply → List Post → Attempt → Type 0
  Fits last r posts (returns none s) = IsDelivered r × (s.posts ≡ posts)
  Fits last r posts (returns (some err) s) =
      ¬ IsDelivered r × (¬ IsRetried r ⊎ (last ≡ true)) × (s.posts ≡ posts)
  Fits last r posts (continues err s) = ¬ IsDelivered r × IsRetried r × (s.posts ≡ posts)

  window-posts : (a : Answer) (s : Sender) → (update_rate_window a s).posts ≡ s.posts
  unfolding update_rate_window
  window-posts a s = ground arith

  ends_for :
      (a : Answer) (last : Bool)
      → (ltb a.status 500 || last) ≡ true
      → (a.status == 429) ≡ false
      → ¬ IsRetried (answered a) ⊎ (last ≡ true)
  ends_for a true e other = inr refl
  ends_for a false e other = inl (λ r. ground arith)

  take_answer-Fits :
      (last : Bool) (attempt : ℕ) (a : Answer) (s : Sender)
      → Fits last (answered a) s.posts (take_answer lib last attempt a s)
  unfolding take_answer
  take_answer-Fits last attempt a s = elim (Bool-cases (leb 200 a.status && ltb a.status 300)) [
    | inl ok ↦ rw ok (ground arith, window-posts a s)
    | inr bad ↦ rw bad (elim (Bool-cases (a.status == 429)) [
      | inl limited ↦
          rw limited ((λ d. absurd (ground arith)), inl (ground arith), window-posts a s)
      | inr other ↦ rw other (elim (Bool-cases (ltb a.status 500 || last)) [
        | inl ends ↦
            rw ends ((λ d. absurd (ground arith)), ends_for a last ends other, window-posts a s)
        | inr again ↦ rw again ((λ d. absurd (ground arith)), inr (ground arith), window-posts a s)
      ])
    ])
  ]

  pub take_reply-Fits :
      (last : Bool) (attempt : ℕ) (r : Reply) (s : Sender)
      → Fits last r s.posts (take_reply lib last attempt r s)
  unfolding take_reply
  take_reply-Fits last attempt (unmade err) s = ((λ d. d), inl (λ d. d), refl)
  take_reply-Fits true attempt (unreachable err) s = ((λ d. d), inr refl, refl)
  take_reply-Fits false attempt (unreachable err) s = ((λ d. d), tt, refl)
  take_reply-Fits last attempt (unreadable err) s = ((λ d. d), inl (λ d. d), refl)
  take_reply-Fits last attempt (answered a) s = take_answer-Fits last attempt a s
