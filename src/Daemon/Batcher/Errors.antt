-- ===== src/Daemon/Batcher/Errors.antt =====
-- The error that `Close` of the batcher returns.
use native.Mathlib.Decide.{dec_lt}
use native.Mathlib.Nat.{add-zero, add-suc}
use wrapping_bot.Base.{
  ℕ, zero, suc, ◌+◌, ◌<◌, Bool, true, false, not, ◌&&◌, if◌then◌else◌, ltb, leb, subst, ◌∙◌,
  Option-cases, inl, inr, List, [], ◌∷◌, ◌++◌, Option, some, none, ◌≡◌, refl, ap, arith, length,
  length-snoc,
}
use wrapping_bot.Base.Bytes.{Bytes, is_empty, bytes_eq}
use wrapping_bot.Protocol.{stream_system}
use wrapping_bot.Text.Ansi.{strip_ansi}
use wrapping_bot.Text.Fence.{escape_code_fence}
use wrapping_bot.Text.Split.{split_utf8}
use wrapping_bot.Daemon.Batcher.{
  Message, OutputRecord, Settings, Batcher, Action, adds, closes, delivers, ticks, normalize_stream,
  overflow_notice, record_error, new_batcher, message_content, send, send_parts, send_output, flush,
  receive, finish, deliver, add, step, run,
}
use wrapping_bot.Daemon.Batcher.Invariant.{Holds, run-Holds}

-- The first error among the answers to the first `n` messages.
abbrev pub first_error : (ℕ → Option Bytes) → ℕ → Option Bytes
first_error answer zero = none
first_error answer (suc n) = elim (first_error answer n) [ some err ↦ some err | none ↦ answer n ]

-- There is none exactly if all were answered without an error.
pub first_error-none :
    (answer : ℕ → Option Bytes) (k : ℕ)
    → first_error answer k ≡ none
    → (n : ℕ) → n < k
    → answer n ≡ none
first_error-none answer zero e n h = absurd (omega arith)
first_error-none answer (suc k) e n h = elim (dec_lt n k) [
  | yes below ↦ first_error-none answer k (ground arith) n below
  | no last ↦ let same : n ≡ k = omega arith in rw same (ground arith)
]

pub none-first_error :
    (answer : ℕ → Option Bytes) (k : ℕ)
    → ((n : ℕ) → n < k → answer n ≡ none)
    → first_error answer k ≡ none
none-first_error answer zero h = refl
none-first_error answer (suc k) h =
    ground (arith, none-first_error answer k (λ n p. h n (omega arith)), h k (omega arith))

-- Behind an error the first one stays; otherwise the later answers decide.
pub first_error-add :
    (answer : ℕ → Option Bytes) (m k : ℕ)
    → first_error answer (m + k) ≡ elim (first_error answer m) [
      | some err ↦ some err
      | none ↦ first_error (λ n. answer (m + n)) k
    ]
first_error-add answer m zero = ground (arith, ap (first_error answer) (add-zero m))
first_error-add answer m (suc k) =
    ground (arith, ap (first_error answer) (add-suc m k), first_error-add answer m k)

module _ (cfg : Settings) (answer : ℕ → Option Bytes) where
  abbrev IsFirst : Option Bytes → List Message → Bytes → Type 0
  IsFirst first_err sent stream = first_err ≡ first_error answer (length sent)

  first_error-snoc :
      (sent : List Message) (m : Message)
      → first_error answer (length (sent ++ m ∷ [])) ≡ first_error answer (suc (length sent))
  first_error-snoc sent m = ap (first_error answer) (length-snoc sent m)

  send-IsFirst :
      (b : Batcher) (content : Bytes) → Holds IsFirst b → Holds IsFirst (send cfg answer b content)
  unfolding send
  send-IsFirst b content h =
      ground
        (arith, first_error-snoc b.sent (record { channel_id = cfg.channel_id; content = content }))

  send_parts-IsFirst :
      (b : Batcher) (stream : Bytes) (parts : List Bytes)
      → Holds IsFirst b
      → Holds IsFirst (send_parts cfg answer b stream parts)
  unfolding send_parts
  send_parts-IsFirst b stream [] h = h
  send_parts-IsFirst b stream (part ∷ parts) h =
      send_parts-IsFirst (send cfg answer b (message_content cfg stream part)) stream parts
        (send-IsFirst b (message_content cfg stream part) h)

  send_output-IsFirst :
      (b : Batcher)
      → Holds IsFirst b
      → Holds IsFirst (send_output cfg answer b b.current_stream b.buffer)
  unfolding send_output
  send_output-IsFirst b h =
      send_parts-IsFirst b b.current_stream
        (split_utf8 (escape_code_fence b.buffer) cfg.max_log_bytes) h

  -- The answers to messages, but for the error that is kept, change nothing.
  abbrev all_well : ℕ → Option Bytes
  all_well n = none

  abbrev forget : Batcher → Batcher
  forget b = record b { first_err = none }

  if-forget :
      (c : Bool) (x y : Batcher) {x' y' : Batcher}
      → forget x ≡ x'
      → forget y ≡ y'
      → forget (if c then x else y) ≡ (if c then x' else y')
  if-forget true x y e f = e
  if-forget false x y e f = f

  record_error-forget : (b : Batcher) (err : Bytes) → forget (record_error b err) ≡ forget b
  unfolding record_error
  record_error-forget b err = elim (Option-cases b.first_err) [
    | inl e ↦ rw e refl
    | inr (old, e) ↦ rw e refl
  ]

  send-forget :
      (b : Batcher) (content : Bytes)
      → forget (send cfg answer b content) ≡ send cfg all_well (forget b) content
  unfolding send
  send-forget b content = elim (Option-cases (answer (length b.sent))) [
    | inl e ↦ rw (send, e) refl
    | inr (err, e) ↦ rw (send, e) (record_error-forget _ err)
  ]

  send_parts-forget :
      (b : Batcher) (stream : Bytes) (parts : List Bytes)
      → forget (send_parts cfg answer b stream parts)
        ≡ send_parts cfg all_well (forget b) stream parts
  unfolding send_parts
  send_parts-forget b stream [] = refl
  send_parts-forget b stream (part ∷ parts) =
      send_parts-forget (send cfg answer b (message_content cfg stream part)) stream parts
      ∙ ap (λ c. send_parts cfg all_well c stream parts)
          (send-forget b (message_content cfg stream part))

  flush-forget : (b : Batcher) → forget (flush cfg answer b) ≡ flush cfg all_well (forget b)
  unfolding flush send_output
  flush-forget b =
      let parts = split_utf8 (escape_code_fence b.buffer) cfg.max_log_bytes in
      let sent : Batcher = send_parts cfg answer b b.current_stream parts in
      let out : Batcher = record sent { buffer = [] } in
      if-forget (is_empty b.buffer) b out refl (
        ap {A = Batcher} (λ c. record c { buffer = [] })
          (send_parts-forget b b.current_stream parts))

  receive-forget :
      (b : Batcher) (r : OutputRecord)
      → forget (receive cfg answer b r) ≡ receive cfg all_well (forget b) r
  unfolding receive
  receive-forget b r =
      let stream = normalize_stream r.stream in
      let turned = not (is_empty b.current_stream) && not (bytes_eq stream b.current_stream) in
      let text = if cfg.strip then strip_ansi r.text else r.text in
      let b1 : Batcher = if turned then flush cfg answer b else b in
      let next : Batcher → Batcher =
        λ c. record c { current_stream = stream; buffer = c.buffer ++ text } in
      subst
        (λ c.
          forget (
            if leb cfg.max_log_bytes (length (next b1).buffer)
            then flush cfg answer (next b1)
            else next b1)
          ≡ (if leb cfg.max_log_bytes (length (next c).buffer)
              then flush cfg all_well (next c)
              else next c))
        (if-forget turned (flush cfg answer b) b (flush-forget b) refl)
        (if-forget (leb cfg.max_log_bytes (length (next b1).buffer)) (flush cfg answer (next b1))
          (next b1) (flush-forget (next b1)) refl)

  finish-forget : (b : Batcher) → forget (finish cfg answer b) ≡ finish cfg all_well (forget b)
  unfolding finish
  finish-forget b =
      let words : Batcher → Batcher = λ c. record c {
        current_stream = stream_system;
        buffer = c.buffer ++ overflow_notice b.dropped;
      } in
      let b1 : Batcher = if ltb 0 b.dropped then words (flush cfg answer b) else b in
      ap {A = Batcher} (λ c. record c { done = true })
        (flush-forget b1
          ∙ ap (flush cfg all_well) (
              if-forget (ltb 0 b.dropped) (words (flush cfg answer b)) b (ap words (flush-forget b))
                refl))

  deliver-forget :
      (b : Batcher) (events : List OutputRecord)
      → forget (deliver cfg answer b events) ≡ deliver cfg all_well (forget b) events
  unfolding deliver
  deliver-forget b [] = if-forget b.closed (finish cfg answer b) b (finish-forget b) refl
  deliver-forget b (r ∷ rest) = receive-forget (record b { events = rest }) r

  add-forget :
      (b : Batcher) (stream text : Bytes)
      → forget (add cfg answer b stream text) ≡ add cfg all_well (forget b) stream text
  unfolding add
  add-forget b stream text =
      let kept : Batcher = record b {
        events = b.events ++ (record { stream = stream; text = text } ∷ []);
      } in
      let lost : Batcher = record b { dropped = b.dropped + length text } in
      let room = ltb (length b.events) cfg.queue_size in
      if-forget (is_empty text) b (if room then kept else lost) refl
        (if-forget room kept lost refl refl)

  step-forget :
      (b : Batcher) (a : Action) → forget (step cfg answer b a) ≡ step cfg all_well (forget b) a
  unfolding step
  step-forget b (adds stream text) =
      if-forget b.closed b (add cfg answer b stream text) refl (add-forget b stream text)
  step-forget b closes = refl
  step-forget b delivers =
      if-forget b.done b (deliver cfg answer b b.events) refl (deliver-forget b b.events)
  step-forget b ticks = if-forget b.done b (flush cfg answer b) refl (flush-forget b)

  run-forget :
      (b : Batcher) (acts : List Action)
      → forget (run cfg answer b acts) ≡ run cfg all_well (forget b) acts
  unfolding run
  run-forget b [] = refl
  run-forget b (a ∷ acts) =
      run-forget (step cfg answer b a) acts ∙ ap (λ c. run cfg all_well c acts) (step-forget b a)

  -- After every run from a new batcher, the error kept is the first that a message was answered with,
  -- in the order of the messages, and none if all were accepted. Sending goes on behind an error: the
  -- messages are those of the same run where all are accepted.
  pub run-first_error :
      (acts : List Action)
      → let b = run cfg answer new_batcher acts in
        (b.first_err ≡ first_error answer (length b.sent))
        × (b.sent ≡ (run cfg (λ n. none) new_batcher acts).sent)
  unfolding new_batcher
  run-first_error acts = (
    run-Holds cfg answer IsFirst send_output-IsFirst (λ b stream h. h) new_batcher acts refl,
    ap (λ b. b.sent) (run-forget new_batcher acts),
  )
