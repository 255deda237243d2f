-- ===== src/Client/Session/Picked.antt =====
-- What becomes of the writes to a session of internal/clientstream/session.go.
use wrapping_bot.Base.{
  ℕ, ◌+◌, false, List, [], ◌∷◌, ◌++◌, some, ◌≡◌, inl, inr, refl, sym, subst, ap, ◌∙◌, arith, length,
  append_assoc, append-nil,
}
use wrapping_bot.Base.Bytes.{Bytes}
use wrapping_bot.Protocol
use wrapping_bot.Protocol.{Event, event_output}
use wrapping_bot.Client.Session.{
  Session, output_event, Action, writes, receives, receive_event, enqueue, step, run,
}
use wrapping_bot.Client.Session.Sound.{
  history, history-enqueue, receive_event-kept, write_chunk-cases,
}

-- An output event of a run that holds this piece.
abbrev pub IsPiece : Bytes → ℕ → Bytes → Bytes → Event → Type 0
IsPiece run_id now stream chunk e =
    (e.version ≡ Protocol.version)
    × (e.run_id ≡ run_id)
    × (e.type ≡ event_output)
    × (e.timestamp ≡ some now)
    × (e.stream ≡ stream)
    × (e.payload ≡ chunk)

-- Events of some of the pieces written, in their order, and the bytes of the pieces that are left out.
pub data Picked (run_id : Bytes) : List Action → List Event → ℕ → Type 0 where
  nothing : Picked run_id [] [] 0
  kept :
      {acts : List Action} {outs : List Event} {lost : ℕ}
      → (now : ℕ) (stream chunk : Bytes) (e : Event) → IsPiece run_id now stream chunk e
      → Picked run_id acts outs lost
      → Picked run_id (writes now stream chunk ∷ acts) (e ∷ outs) lost
  left_out :
      {acts : List Action} {outs : List Event} {lost : ℕ}
      → (now : ℕ) (stream chunk : Bytes) → Picked run_id acts outs lost
      → Picked run_id (writes now stream chunk ∷ acts) outs (length chunk + lost)
  received :
      {acts : List Action} {outs : List Event} {lost : ℕ}
      → Picked run_id acts outs lost
      → Picked run_id (receives ∷ acts) outs lost

module _ (queue_size : ℕ) (run_id : Bytes) where
  -- What a run adds to the history of a session, and to its count of dropped bytes.
  abbrev pub Adds : Session → List Action → Session → Type 0
  Adds s acts t =
      (outs : List Event) × (lost : ℕ) × Picked run_id acts outs lost
      × (history t ≡ history s ++ outs)
      × (t.dropped ≡ s.dropped + lost)

  pub run-Adds :
      (s : Session) (acts : List Action)
      → s.closed ≡ false
      → Adds s acts (run queue_size run_id s acts)
  unfolding run step output_event
  run-Adds s [] live = ([], 0, Picked.nothing, sym (append-nil (history s)), omega arith)
  run-Adds s (writes now stream chunk ∷ acts) live =
      let e = output_event run_id now stream chunk in
      elim (write_chunk-cases queue_size run_id e now stream chunk s live) [
        | inl (room, same) ↦
            let (outs, lost, picked, whole, count) = run-Adds (enqueue e s) acts live in
            subst (λ t. Adds s (writes now stream chunk ∷ acts) (run queue_size run_id t acts))
              (sym same)
              (
                e ∷ outs,
                lost,
                Picked.kept now stream chunk e (refl, refl, refl, refl, refl, refl) picked,
                whole
                    ∙ ap (λ h. h ++ outs) (history-enqueue e s)
                    ∙ append_assoc (history s) (e ∷ []) outs,
                count,
              )
        | inr same ↦
            let (outs, lost, picked, whole, count) =
              run-Adds (record s { dropped = s.dropped + length chunk }) acts live in
            subst (λ t. Adds s (writes now stream chunk ∷ acts) (run queue_size run_id t acts))
              (sym same)
              (
                outs,
                length chunk + lost,
                Picked.left_out now stream chunk picked,
                whole,
                omega (arith, count),
              )
      ]
  run-Adds s (receives ∷ acts) live =
      let (same, shut, drops, _, _) = receive_event-kept s.events s refl in
      let (outs, lost, picked, whole, count) =
        run-Adds (receive_event s.events s) acts (shut ∙ live) in
      (
        outs,
        lost,
        Picked.received picked,
        whole ∙ ap (λ h. h ++ outs) same,
        count ∙ ap (λ n. n + lost) drops,
      )
