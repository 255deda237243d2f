-- ===== src/Discord/Sender/Spacing.antt =====
-- The requests of one call of `Send` of internal/discord/sender.go, and the times between them.
use wrapping_bot.Base.{
  ℕ, zero, suc, ◌+◌, ◌*◌, ◌^◌, ◌≤◌, min, max, Bool, List, [], ◌∷◌, ◌++◌, Option, some, none, ◌≡◌,
  ◌⊎◌, inl, inr, refl, sym, subst, ap, ◌∙◌, arith, leb, ◌==◌, if◌then◌else◌, length, length-snoc,
  append_assoc, append-nil, All,
}
use wrapping_bot.Base.Bytes.{Bytes, str, bytes_eq}
use wrapping_bot.Discord.Sender.{
  Answer, Reply, unmade, unreachable, unreadable, answered, Post, Sender, Outside, retry_backoff,
  update_rate_window, rate_limit_wait, Attempt, returns, continues, take_answer, take_reply, post,
  send_loop,
}
use wrapping_bot.Discord.Sender.Attempts.{IsRetried, Fits, take_reply-Fits}
use wrapping_bot.Discord.Sender.New.{NewSender, message_request}

-- The back-off behind a try.
abbrev pub backoff : ℕ → ℕ
backoff attempt = 2 ^ min attempt 5 * 250_000_000

-- How long a 429 asks to wait, and how long a rate window that is used up lasts.
abbrev pub limit : ℕ → Answer → ℕ
limit attempt a =
    if max a.body_retry_after a.header_retry_after == 0
    then backoff attempt
    else max a.body_retry_after a.header_retry_after

abbrev pub window : Answer → ℕ
window a = if bytes_eq a.remaining (str "0") then a.reset_after else 0

-- How long a reply keeps the sender from any request.
abbrev pub kept_back : ℕ → Reply → ℕ
kept_back attempt (answered a) = if a.status == 429 then limit attempt a else window a
kept_back attempt _ = 0

-- How long it keeps it from the next try.
abbrev pub owed : ℕ → Reply → ℕ
owed attempt (unreachable err) = backoff attempt
owed attempt (answered a) =
    if a.status == 429
    then limit attempt a
    else if leb 500 a.status
    then max (backoff attempt) (window a)
    else window a
owed attempt _ = 0

kept_back-owed : (attempt : ℕ) (r : Reply) → kept_back attempt r ≤ owed attempt r
kept_back-owed attempt (answered a) = ground arith
kept_back-owed attempt (unmade err) = omega arith
kept_back-owed attempt (unreachable err) = ground arith
kept_back-owed attempt (unreadable err) = omega arith

-- When a sender may make its next request.
abbrev pub turn : Sender → ℕ
turn s = max s.now s.next_send

abbrev pub Starts : ℕ → List Post → Type 0
Starts time [] = Unit
Starts time (p ∷ ps) = p.at ≡ time

module _ (lib : Outside) where
  abbrev Turns : ℕ → Reply → Sender → Attempt → Type 0
  Turns attempt r s (returns result s1) = s.now + kept_back attempt r ≤ turn s1
  Turns attempt r s (continues err s1) = s.now + owed attempt r ≤ turn s1

  take_reply-Turns :
      (last : Bool) (attempt : ℕ) (r : Reply) (s : Sender)
      → Turns attempt r s (take_reply lib last attempt r s)
  unfolding take_reply take_answer update_rate_window rate_limit_wait retry_backoff
  take_reply-Turns last attempt (unmade err) s = ground arith
  take_reply-Turns last attempt (unreachable err) s = ground arith
  take_reply-Turns last attempt (unreadable err) s = ground arith
  take_reply-Turns last attempt (answered a) s = ground arith

  module _ (reply : ℕ → Reply) where
    -- Each request of a list, of which the first is the `n`-th of the sender and the try `attempt` of
    -- the call, comes no earlier behind the one before than its reply allows; and the turn behind the
    -- last no earlier than its reply allows.
    abbrev pub Spaced : ℕ → ℕ → List Post → ℕ → Type 0
    Spaced n attempt [] time = Unit
    Spaced n attempt (p ∷ []) time = p.at + lib.elapsed n + kept_back attempt (reply attempt) ≤ time
    Spaced n attempt (p ∷ q ∷ ps) time =
        (p.at + lib.elapsed n + owed attempt (reply attempt) ≤ q.at)
        × Spaced (suc n) (suc attempt) (q ∷ ps) time

    Spaced-cons :
        (n attempt : ℕ) (p : Post) (ps : List Post) (next time : ℕ)
        → p.at + lib.elapsed n + owed attempt (reply attempt) ≤ next
        → Starts next ps
        → next ≤ time
        → Spaced (suc n) (suc attempt) ps time
        → Spaced n attempt (p ∷ ps) time
    Spaced-cons n attempt p [] next time h start later rest =
        omega (arith, kept_back-owed attempt (reply attempt))
    Spaced-cons n attempt p (q ∷ ps) next time h start later rest = (omega (arith, start), rest)

    module _ (cfg : NewSender) (channel_id content : Bytes) where
      abbrev pub IsMessage : Post → Type 0
      IsMessage p = p.request ≡ message_request cfg channel_id content

      -- What a call adds to the requests of a sender.
      pub record Sent (left attempt : ℕ) (s out : Sender) : Type 0 where
        pub new : List Post
        pub posts_are : out.posts ≡ s.posts ++ new
        pub few : length new ≤ left
        pub messages : All IsMessage new
        pub first : Starts (turn s) new
        pub spaced : Spaced (length s.posts) attempt new (turn out)
        pub later : turn s ≤ turn out

      abbrev made : Sender → Post
      made s = record { request = message_request cfg channel_id content; at = turn s }

      -- An attempt makes no request and is the last, or it makes one and waits for its reply.
      abbrev Posts : Reply → Sender → Sender → Type 0
      Posts r s t =
          (¬ IsRetried r) × (t.posts ≡ s.posts) × (t.now ≡ turn s)
          ⊎ (t.posts ≡ s.posts ++ (made s ∷ [])) × (t.now ≡ turn s + lib.elapsed (length s.posts))

      post-Posts : (r : Reply) (s : Sender) → Posts r s (post lib cfg channel_id content r s)
      post-Posts (unmade err) s = inl ((λ n. n), refl, refl)
      post-Posts (unreachable err) s = inr (refl, refl)
      post-Posts (unreadable err) s = inr (refl, refl)
      post-Posts (answered a) s = inr (refl, refl)

      returns-Sent :
          (left attempt : ℕ) (s t out : Sender)
          → Posts (reply attempt) s t
          → out.posts ≡ t.posts
          → t.now + kept_back attempt (reply attempt) ≤ turn out
          → Sent (suc left) attempt s out
      returns-Sent left attempt s t out (inl (never, same, time)) e h = record {
        new = [];
        posts_are = e ∙ same ∙ sym (append-nil s.posts);
        few = omega arith;
        messages = tt;
        first = tt;
        spaced = tt;
        later = omega (arith, time, h);
      }
      returns-Sent left attempt s t out (inr (same, time)) e h = record {
        new = made s ∷ [];
        posts_are = e ∙ same;
        few = omega arith;
        messages = (refl, tt);
        first = refl;
        spaced = omega (arith, time, h);
        later = omega (arith, time, h);
      }

      continues-Sent :
          (left attempt : ℕ) (s t s1 out : Sender)
          → Posts (reply attempt) s t
          → IsRetried (reply attempt)
          → s1.posts ≡ t.posts
          → t.now + owed attempt (reply attempt) ≤ turn s1
          → Sent left (suc attempt) s1 out
          → Sent (suc left) attempt s out
      continues-Sent left attempt s t s1 out (inl (never, same, time)) again e h rest =
          absurd (never again)
      continues-Sent left attempt s t s1 out (inr (same, time)) again e h rest =
          let p : Post = made s in
          let one_more : length s1.posts ≡ suc (length s.posts) =
            ap length (e ∙ same) ∙ length-snoc s.posts p in
          record {
            new = p ∷ rest.new;
            posts_are =
                rest.posts_are
                ∙ ap (λ ps. ps ++ rest.new) (e ∙ same)
                ∙ append_assoc s.posts (p ∷ []) rest.new;
            few = omega (arith, rest.few);
            messages = (refl, rest.messages);
            first = refl;
            spaced =
                Spaced-cons (length s.posts) attempt p rest.new (turn s1) (turn out)
                  (omega (arith, time, h)) rest.first rest.later
                  (subst (λ n. Spaced n (suc attempt) rest.new (turn out)) one_more rest.spaced);
            later = omega (arith, time, h, rest.later);
          }

      pub send_loop-Sent :
          (left attempt : ℕ) (last_err : Option Bytes) (s : Sender)
          → Sent left attempt s
              (send_loop lib cfg reply channel_id content left attempt last_err s).1
      unfolding send_loop
      send_loop-Sent zero attempt last_err s = record {
        new = [];
        posts_are = sym (append-nil s.posts);
        few = omega arith;
        messages = tt;
        first = tt;
        spaced = tt;
        later = omega arith;
      }
      send_loop-Sent (suc left) attempt last_err s =
          let t : Sender = post lib cfg channel_id content (reply attempt) s in
          after (take_reply lib (left == 0) attempt (reply attempt) t) refl
            (take_reply-Fits lib (left == 0) attempt (reply attempt) t)
            (take_reply-Turns (left == 0) attempt (reply attempt) t)
            (λ err s1. send_loop-Sent left (suc attempt) (some err) s1)
        where
          after :
              (r : Attempt)
              → take_reply lib
                  (left == 0)
                  attempt
                  (reply attempt)
                  (post lib cfg channel_id content (reply attempt) s)
                ≡ r
              → Fits lib
                  (left == 0)
                  (reply attempt)
                  (post lib cfg channel_id content (reply attempt) s).posts
                  r
              → Turns attempt (reply attempt) (post lib cfg channel_id content (reply attempt) s) r
              → ((err : Bytes) (s1 : Sender)
                  → Sent left
                      (suc attempt)
                      s1
                      (send_loop lib cfg reply channel_id content left
                        (suc attempt)
                        (some err)
                        s1).1)
              → Sent
                  (suc left)
                  attempt
                  s
                  (send_loop lib cfg reply channel_id content (suc left) attempt last_err s).1
          after (returns none s1) e (_, same) h rest =
              rw (send_loop, e)
                (returns-Sent left attempt s (post lib cfg channel_id content (reply attempt) s) s1
                  (post-Posts (reply attempt) s) same h)
          after (returns (some err) s1) e (_, _, same) h rest =
              rw (send_loop, e)
                (returns-Sent left attempt s (post lib cfg channel_id content (reply attempt) s) s1
                  (post-Posts (reply attempt) s) same h)
          after (continues err s1) e (_, again, same) h rest =
              rw (send_loop, e)
                (continues-Sent left attempt s (post lib cfg channel_id content (reply attempt) s)
                  s1 _ (post-Posts (reply attempt) s) again same h (rest err s1))
