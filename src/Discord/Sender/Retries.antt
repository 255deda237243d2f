-- ===== src/Discord/Sender/Retries.antt =====
-- When `Send` of internal/discord/sender.go succeeds, and which requests it makes.
use wrapping_bot.Base.{
  ℕ, zero, suc, ◌≢◌, ◌↔◌, false, List, [], ◌∷◌, Option, some, none, ◌≡◌, ◌⊎◌, inl, inr, refl, ap,
  arith, ◌==◌,
}
use wrapping_bot.Base.Bytes.{Bytes, is_empty}
use wrapping_bot.Base.Result.{ok}
use wrapping_bot.Base.Space.{trim_space}
use wrapping_bot.Discord.Sender.{
  Reply, Post, Sender, Outside, Attempt, returns, continues, take_reply, post, send_loop, send,
}
use wrapping_bot.Discord.Sender.New.{NewSender, new_sender, new_sender-max_retries}
use wrapping_bot.Discord.Sender.Spacing.{Sent, send_loop-Sent}
use wrapping_bot.Discord.Sender.Attempts.{IsDelivered, IsRetried, Fits, take_reply-Fits}

-- Within `left` requests one is delivered, behind none but requests that are to be retried.
abbrev pub Succeeds : (ℕ → Reply) → ℕ → ℕ → Type 0
Succeeds reply attempt zero = ⊥
Succeeds reply attempt (suc left) =
    IsDelivered (reply attempt) ⊎ IsRetried (reply attempt) × Succeeds reply (suc attempt) left

module _ (lib : Outside) (cfg : NewSender) where
  module _ (reply : ℕ → Reply) (channel_id content : Bytes) where
    -- The posts that an attempt leaves.
    abbrev posted : Reply → Sender → List Post
    posted r s = (post lib cfg channel_id content r s).posts

    abbrev loop : ℕ → ℕ → Option Bytes → Sender → Option Bytes × Sender
    loop = send_loop lib cfg reply channel_id content

    send_loop-round :
        (left attempt : ℕ) (last_err : Option Bytes) (s : Sender)
        → ((s1 : Sender) × (loop (suc left) attempt last_err s ≡ (none, s1))
            × IsDelivered (reply attempt)
            × (s1.posts ≡ posted (reply attempt) s))
          ⊎ ((err : Bytes) × (s1 : Sender) × (loop (suc left) attempt last_err s ≡ (some err, s1))
              × ¬ IsDelivered (reply attempt)
              × (¬ IsRetried (reply attempt) ⊎ (left ≡ 0))
              × (s1.posts ≡ posted (reply attempt) s))
          ⊎ ((err : Bytes) × (s1 : Sender) × (loop (suc left) attempt last_err s
                ≡ loop left (suc attempt) (some err) s1)
              × ¬ IsDelivered (reply attempt)
              × IsRetried (reply attempt)
              × (s1.posts ≡ posted (reply attempt) s))
    unfolding send_loop
    send_loop-round left attempt last_err s =
        after
          (take_reply lib (left == 0) attempt (reply attempt)
            (post lib cfg channel_id content (reply attempt) s))
          refl
          (take_reply-Fits lib (left == 0) attempt (reply attempt)
            (post lib cfg channel_id content (reply attempt) s))
      where
        after :
            (t : Attempt)
            → take_reply lib
                (left == 0)
                attempt
                (reply attempt)
                (post lib cfg channel_id content (reply attempt) s)
              ≡ t
            → Fits lib (left == 0) (reply attempt) (posted (reply attempt) s) t
            → ((s1 : Sender) × (loop (suc left) attempt last_err s ≡ (none, s1))
                × IsDelivered (reply attempt)
                × (s1.posts ≡ posted (reply attempt) s))
              ⊎ ((err : Bytes) × (s1 : Sender) × (loop (suc left) attempt last_err s
                    ≡ (some err, s1))
                  × ¬ IsDelivered (reply attempt)
                  × (¬ IsRetried (reply attempt) ⊎ (left ≡ 0))
                  × (s1.posts ≡ posted (reply attempt) s))
              ⊎ ((err : Bytes) × (s1 : Sender) × (loop (suc left) attempt last_err s
                    ≡ loop left (suc attempt) (some err) s1)
                  × ¬ IsDelivered (reply attempt)
                  × IsRetried (reply attempt)
                  × (s1.posts ≡ posted (reply attempt) s))
        after (returns none s1) e (met, same) = inl (s1, rw (send_loop, e) refl, met, same)
        after (returns (some err) s1) e (bad, inl ends, same) =
            inr (inl (err, s1, rw (send_loop, e) refl, bad, inl ends, same))
        after (returns (some err) s1) e (bad, inr last, same) =
            inr (inl (err, s1, rw (send_loop, e) refl, bad, inr (ground arith), same))
        after (continues err s1) e (bad, again, same) =
            inr (inr (err, s1, rw (send_loop, e) refl, bad, again, same))

    -- What the loop returns.
    abbrev Outcome : ℕ → ℕ → Option Bytes × Sender → Type 0
    Outcome left attempt out = out.0 ≡ none ↔ Succeeds reply attempt left

    Succeeds-none : (left attempt : ℕ) → left ≡ 0 → ¬ Succeeds reply attempt left
    Succeeds-none zero attempt e good = good
    Succeeds-none (suc left) attempt e good = absurd (omega arith)

    fails :
        (left attempt : ℕ)
        → ¬ IsDelivered (reply attempt)
        → ¬ IsRetried (reply attempt) ⊎ (left ≡ 0)
        → ¬ Succeeds reply attempt (suc left)
    fails left attempt bad ends (inl met) = bad met
    fails left attempt bad (inl never) (inr (again, later)) = never again
    fails left attempt bad (inr last) (inr (again, later)) =
        Succeeds-none left (suc attempt) last later

    later_on :
        (left attempt : ℕ)
        → ¬ IsDelivered (reply attempt)
        → Succeeds reply attempt (suc left)
        → Succeeds reply (suc attempt) left
    later_on left attempt bad (inl met) = absurd (bad met)
    later_on left attempt bad (inr (again, later)) = later

    send_loop-Outcome :
        (left attempt : ℕ) (last_err : Option Bytes) (s : Sender)
        → (left ≡ 0 → last_err ≢ none)
        → Outcome left attempt (loop left attempt last_err s)
    send_loop-Outcome zero attempt last_err s h =
        unfold send_loop in ((λ e. absurd (h refl e)), λ bad. absurd bad)
    send_loop-Outcome (suc left) attempt last_err s h =
        elim (send_loop-round left attempt last_err s) [
          | inl (s1, e, met, same) ↦ rw e ((λ _. inl met), λ _. refl)
          | inr (inl (err, s1, e, bad, ends, same)) ↦
              rw e ((λ n. absurd (cc)), λ good. absurd (fails left attempt bad ends good))
          | inr (inr (err, s1, e, bad, again, same)) ↦
              let (sound, complete) =
                send_loop-Outcome left (suc attempt) (some err) s1 (λ _ n. absurd (cc)) in
              rw e ((λ n. inr (again, sound n)), λ good. complete (later_on left attempt bad good))
        ]

    full : (s : Bytes) → s ≢ [] → is_empty s ≡ false
    full [] h = absurd (h refl)
    full (c ∷ s) h = refl

    send_looped :
        (s : Sender)
        → trim_space channel_id ≡ channel_id
        → channel_id ≢ []
        → content ≢ []
        → send lib cfg reply channel_id content s ≡ loop (suc cfg.max_retries) 0 none s
    unfolding send
    send_looped s trimmed some_channel some_content =
        rw (trimmed, full channel_id some_channel, full content some_content) refl

    -- `Send` of a sender that `NewSender` made, for a channel with no blanks around it and a message
    -- that are not empty: it succeeds exactly if one of its first seven requests is answered by 200 to
    -- 299 and each before it met no connection, 429 or 500 and above. It adds at most seven requests,
    -- all of this message, the first at the sender's turn. Behind a reply the next comes no earlier
    -- than the wait of a 429, or the rest of a rate window that is used up, and the back-off where it
    -- is retried for another reason; and the sender's next turn is no earlier than its last reply's
    -- 429 or rate window allows.
    pub send-Outcome :
        (token url : Bytes) (s : Sender)
        → new_sender token url ≡ ok cfg
        → trim_space channel_id ≡ channel_id
        → channel_id ≢ []
        → content ≢ []
        → let out = send lib cfg reply channel_id content s in
          (out.0 ≡ none ↔ Succeeds reply 0 7) × Sent lib reply cfg channel_id content 7 0 s out.1
    send-Outcome token url s made trimmed some_channel some_content =
        let seven : suc cfg.max_retries ≡ 7 = ap suc (new_sender-max_retries token url cfg made) in
        rw (send_looped s trimmed some_channel some_content, seven)
          (
            send_loop-Outcome 7 0 none s (λ e. absurd (omega arith)),
            send_loop-Sent lib reply cfg channel_id content 7 0 none s,
          )
