-- ===== src/Client/Session/Stream.antt =====
-- The events that internal/clientstream/session.go hands to the upload are a stream that the handler
-- of internal/daemon/server.go reads to its end.
use wrapping_bot.Base.{
  ℕ, ◌+◌, ◌≤◌, ◌<◌, true, false, ◌&&◌, List, [], ◌∷◌, ◌++◌, ◌≡◌, ◌⊎◌, inl, inr, refl, sym, subst,
  ap, ◌∙◌, arith, ltb, length, length-snoc, append-nil, All, All-append, Bool-cases,
}
use native.Mathlib.Decide.{dec_le}
use wrapping_bot.Base.Bytes.{Bytes, str}
use wrapping_bot.Base.Decimal.{decimal}
use wrapping_bot.Protocol.{Event, stream_system}
use wrapping_bot.Client.Session.{
  Session, new_session, output_event, Action, starts, enqueue, send_start, run, client_notice,
  add_notice, receive_events, close,
}
use wrapping_bot.Client.Session.Picked.{IsPiece, Picked, run-Adds}
use wrapping_bot.Client.Session.Sound.{
  history, history-enqueue, written_length, send_start-fresh, IsOutput, Sound, run-Sound,
  send_start-Sound, receive_events-kept,
}

module _ (queue_size : ℕ) (run_id : Bytes) (start : Event) (now waited : ℕ) (exit : Event)
    (same_run : exit.run_id ≡ run_id) where
  add_notice-cases :
      (s : Session)
      → (add_notice queue_size exit.run_id now s ≡ s)
        ⊎ ((1 ≤ s.dropped)
            × (length s.events < queue_size)
            × (add_notice queue_size exit.run_id now s
                ≡ enqueue (output_event exit.run_id now stream_system (client_notice s.dropped)) s))
  unfolding add_notice
  add_notice-cases s = elim (Bool-cases (ltb 0 s.dropped && ltb (length s.events) queue_size)) [
    | inl said ↦ rw said (inr (ground arith, ground arith, refl))
    | inr silent ↦ rw silent (inl refl)
  ]

  -- No notice, or one of the bytes dropped, if there are such.
  abbrev pub IsNotice : ℕ → List Event → Type 0
  IsNotice dropped note =
      (note ≡ [])
      ⊎ (1 ≤ dropped)
        × ((e : Event) × (note ≡ e ∷ [])
            × IsPiece run_id now (str "system")
                (str "[wrapping-bot client queue overflow: "
                  ++ decimal dropped
                  ++ str " bytes omitted]\n")
                e)

  -- The notice, where there is one, is an output event too.
  add_notice-kept :
      (s : Session)
      → length s.events ≤ queue_size
      → let t = add_notice queue_size exit.run_id now s in
        (note : List Event) × (history t ≡ history s ++ note)
        × IsNotice s.dropped note
        × All (IsOutput run_id) note
        × (t.dropped ≡ s.dropped)
        × (length t.events ≤ queue_size)
  unfolding output_event client_notice
  add_notice-kept s bounded = elim (add_notice-cases s) [
    | inl same ↦ rw same ([], sym (append-nil (history s)), inl refl, tt, refl, bounded)
    | inr (some_lost, room, same) ↦
        let e = output_event exit.run_id now stream_system (client_notice s.dropped) in
        rw same (
          e ∷ [],
          history-enqueue e s,
          inr (some_lost, (e, refl, (refl, same_run, refl, refl, refl, refl))),
          ((refl, same_run, refl), tt),
          refl,
          omega (arith, length-snoc s.events e),
        )
  ]

  close-cases :
      (s : Session)
      → s.closed ≡ false
      → let t = receive_events waited (add_notice queue_size exit.run_id now s) in
        ((length t.events < queue_size)
          × (close queue_size now waited exit s ≡ record (enqueue exit t) { closed = true }))
        ⊎ ((queue_size ≤ length t.events)
            × (close queue_size now waited exit s ≡ record t { closed = true }))
  unfolding close
  close-cases s e = ground arith

  -- The stream of a session that was closed: the start event, events of what was written, in order and
  -- each piece whole with its stream, but for the bytes counted as dropped, a notice or none, and the
  -- exit event or nothing.
  pub record IsStream (acts : List Action) (c : Session) : Type 0 where
    pub outs : List Event
    pub note : List Event
    pub last : List Event
    pub history_is : history c ≡ start ∷ ((outs ++ note) ++ last)
    pub picked : Picked run_id acts outs c.dropped
    pub noted : IsNotice c.dropped note
    pub are_outputs : All (IsOutput run_id) (outs ++ note)
    pub last_is : (last ≡ exit ∷ []) ⊎ (last ≡ []) × ((waited ≡ 0) ⊎ (queue_size ≡ 0))
    pub is_closed : c.closed ≡ true

  close-IsStream :
      (acts : List Action) (written : ℕ) (s : Session)
      → (h : Sound queue_size run_id start written s) → Picked run_id acts h.outs s.dropped
      → IsStream acts (close queue_size now waited exit s)
  close-IsStream acts written s h picks =
      let a = add_notice queue_size exit.run_id now s in
      let t = receive_events waited a in
      let (note, noted, is_notice, notes, drops, bounded) = add_notice-kept s h.bounded in
      let (same, drops', fewer, strict) = receive_events-kept waited a in
      let so_far : history t ≡ start ∷ (h.outs ++ note) =
        same ∙ noted ∙ ap (λ q. q ++ note) h.history_is in
      let outputs = All-append (IsOutput run_id) h.outs note h.are_outputs notes in
      let lost : s.dropped ≡ t.dropped = sym (drops' ∙ drops) in
      let picked_here = subst (Picked run_id acts h.outs) lost picks in
      let noted_here = subst (λ n. IsNotice n note) lost is_notice in
      elim (close-cases s h.is_open) [
        | inl (room, e) ↦ rw e (record {
          outs = h.outs;
          note = note;
          last = exit ∷ [];
          history_is = history-enqueue exit t ∙ ap (λ q. q ++ (exit ∷ [])) so_far;
          picked = picked_here;
          noted = noted_here;
          are_outputs = outputs;
          last_is = inl refl;
          is_closed = refl;
        })
        | inr (full, e) ↦ rw e (record {
          outs = h.outs;
          note = note;
          last = [];
          history_is = so_far ∙ ap (λ q. start ∷ q) (sym (append-nil (h.outs ++ note)));
          picked = picked_here;
          noted = noted_here;
          are_outputs = outputs;
          last_is = inr (
            refl,
            elim (dec_le 1 waited) [
              | no never ↦ inl (omega arith)
              | yes more ↦ inr (elim (dec_le 1 queue_size) [
                | no none_at_all ↦ omega arith
                | yes some_room ↦
                    absurd (omega (arith, strict more (omega (arith, fewer)), bounded))
              ])
            ],
          );
          is_closed = refl;
        })
      ]

  same_rest : (xs ys : List Event) → start ∷ xs ≡ start ∷ ys → xs ≡ ys
  same_rest xs ys e = cc

  -- Whatever the writers write and the upload receives in between: a session that has started with
  -- an event and is then closed has a stream of that event, output events of the run that hold what
  -- was written, in order and each piece whole with its stream and time, except for pieces whose bytes
  -- are counted as dropped, a notice of that count or none, and at the end the exit event. The exit
  -- event is left out only if the queue has no room for any event or the upload receives none while
  -- `Close` waits.
  pub close-run-IsStream :
      (s : Session) (acts : List Action)
      → send_start queue_size start new_session ≡ starts s
      → IsStream acts (close queue_size now waited exit (run queue_size run_id s acts))
  close-run-IsStream s acts e =
      let t = run queue_size run_id s acts in
      let fresh = send_start-Sound queue_size run_id start s e in
      let h : Sound queue_size run_id start (0 + written_length acts) t =
        run-Sound queue_size run_id start 0 s acts fresh in
      let (begun, none_lost) = send_start-fresh queue_size run_id start s e in
      let (outs, lost, picked, whole, count) = run-Adds queue_size run_id s acts fresh.is_open in
      let same : outs ≡ h.outs =
        same_rest outs h.outs (sym (ap (λ q. q ++ outs) begun) ∙ sym whole ∙ h.history_is) in
      let lost_is : lost ≡ t.dropped = sym (count ∙ ap (λ n. n + lost) none_lost ∙ omega arith) in
      close-IsStream acts (0 + written_length acts) t h (
        subst (λ os. Picked run_id acts os t.dropped) same
          (subst (Picked run_id acts outs) lost_is picked))
