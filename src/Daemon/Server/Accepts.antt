-- ===== src/Daemon/Server/Accepts.antt =====
-- When the handler of internal/daemon/server.go lets a run in, and what it makes of its stream.
use wrapping_bot.Base.{
  ℕ, ◌≤◌, ◌<◌, ◌≢◌, ◌↔◌, true, false, List, [], ◌∷◌, none, ◌≡◌, inl, inr, refl, subst, ap, ◌∙◌,
  arith, ltb, length, Bool-cases, Option-cases,
}
use wrapping_bot.Base.Bytes.{Bytes, is_empty, bytes_eq, bytes_eq_iff}
use wrapping_bot.Base.Int.{int_eq, int_eq_iff}
use wrapping_bot.Base.Space.{trim_space}
use wrapping_bot.Daemon.Channel.{is_discord_channel_id, is_discord_channel_id_iff, IsSnowflake}
use wrapping_bot.Daemon.Server.{
  Outside, Config, Request, Decoded, decoded, invalid, Admission, refused, admitted, admit,
  first_event, check_start, body_events, authorized, validate_start, channel_allowed,
}
use wrapping_bot.Protocol
use wrapping_bot.Protocol.{Event, event_start, event_output, event_exit}

-- A start event that the daemon serves.
pub record IsStart (e : Event) : Type 0 where
  pub version_is : e.version ≡ Protocol.version
  pub type_is : e.type ≡ event_start
  pub run_id_full : trim_space e.run_id ≢ []
  pub run_id_short : length e.run_id ≤ 128
  pub channel_is : IsSnowflake e.channel_id
  pub command_full : 1 ≤ length e.command
  pub environment_small : length e.environment ≤ 128

is_empty-full : (s : Bytes) → is_empty s ≡ false → s ≢ []
is_empty-full [] e h = absurd (cc)
is_empty-full (c ∷ s) e h = absurd (cc)

full-is_empty : (s : Bytes) → s ≢ [] → is_empty s ≡ false
full-is_empty [] h = absurd (h refl)
full-is_empty (c ∷ s) h = refl

validate_start-passes :
    (e : Event)
    → validate_start e ≡ none
    → (int_eq e.version Protocol.version ≡ true)
      × (bytes_eq e.type event_start ≡ true)
      × (is_empty (trim_space e.run_id) ≡ false)
      × (length e.run_id ≤ 128)
      × (is_discord_channel_id e.channel_id ≡ true)
      × (1 ≤ length e.command)
      × (length e.environment ≤ 128)
unfolding validate_start
validate_start-passes e h = ground arith

passes-validate_start :
    (e : Event)
    → int_eq e.version Protocol.version ≡ true
    → bytes_eq e.type event_start ≡ true
    → is_empty (trim_space e.run_id) ≡ false
    → length e.run_id ≤ 128
    → is_discord_channel_id e.channel_id ≡ true
    → 1 ≤ length e.command
    → length e.environment ≤ 128
    → validate_start e ≡ none
unfolding validate_start
passes-validate_start e h1 h2 h3 h4 h5 h6 h7 = ground arith

-- The validation passes exactly the start events of this protocol version with a run ID of at most
-- 128 bytes that is not blank, a channel that is a snowflake, a command, and at most 128 fields of
-- environment.
pub validate_start_iff : (e : Event) → (validate_start e ≡ none) ↔ IsStart e
validate_start_iff e = (passed, valid)
  where
    passed : validate_start e ≡ none → IsStart e
    passed h =
        let (v, t, r, rl, c, k, n) = validate_start-passes e h in
        record {
          version_is = (int_eq_iff e.version Protocol.version).0 v;
          type_is = (bytes_eq_iff e.type event_start).0 t;
          run_id_full = is_empty-full (trim_space e.run_id) r;
          run_id_short = rl;
          channel_is = (is_discord_channel_id_iff e.channel_id).0 c;
          command_full = k;
          environment_small = n;
        }

    valid : IsStart e → validate_start e ≡ none
    valid h =
        passes-validate_start e ((int_eq_iff e.version Protocol.version).1 h.version_is)
          ((bytes_eq_iff e.type event_start).1 h.type_is)
          (full-is_empty (trim_space e.run_id) h.run_id_full) h.run_id_short
          ((is_discord_channel_id_iff e.channel_id).1 h.channel_is) h.command_full
          h.environment_small

module _ (lib : Outside) (cfg : Config) (in_use : ℕ) (request : Request) where
  pub record IsAdmitted (start : Event) (rest : List Decoded) : Type 0 where
    pub is_authorized : authorized lib cfg request.authorization ≡ true
    pub has_slot : in_use < cfg.max_concurrent_runs
    pub begins : body_events cfg request ≡ decoded start ∷ rest
    pub is_start : IsStart start
    pub is_allowed : channel_allowed cfg start.channel_id ≡ true

  abbrev pub Admits : Admission → Type 0
  Admits (refused r) = (r.body.accepted ≡ false) × (400 ≤ r.status)
  Admits (admitted start rest) = IsAdmitted start rest

  -- Once the caller is authorized and has a slot, the first event decides.
  module _ (auth : authorized lib cfg request.authorization ≡ true)
      (slot : in_use < cfg.max_concurrent_runs) where
    check_start-Admits :
        (start : Event) (rest : List Decoded)
        → body_events cfg request ≡ decoded start ∷ rest
        → Admits (check_start cfg start rest)
    unfolding check_start
    check_start-Admits start rest begins = elim (Option-cases (validate_start start)) [
      | inl valid ↦
          rw (valid, check_start)
            (elim (Bool-cases (channel_allowed cfg start.channel_id)) [
              | inl allowed ↦ rw allowed (record {
                is_authorized = auth;
                has_slot = slot;
                begins = begins;
                is_start = (validate_start_iff start).0 valid;
                is_allowed = allowed;
              })
              | inr banned ↦ rw banned (refl, omega arith)
            ])
      | inr (err, e) ↦ rw (e, check_start) (refl, omega arith)
    ]

    first_event-Admits :
        (events : List Decoded) → body_events cfg request ≡ events → Admits (first_event cfg events)
    unfolding first_event
    first_event-Admits [] begins = (refl, omega arith)
    first_event-Admits (decoded start ∷ rest) begins = check_start-Admits start rest begins
    first_event-Admits (invalid err ∷ rest) begins = (refl, omega arith)

  pub admit-Admits : Admits (admit lib cfg in_use request)
  unfolding admit
  admit-Admits = elim (Bool-cases (authorized lib cfg request.authorization)) [
    | inr denied ↦ rw denied (refl, omega arith)
    | inl auth ↦ rw auth (elim (Bool-cases (ltb in_use cfg.max_concurrent_runs)) [
      | inr busy ↦ rw busy (refl, omega arith)
      | inl slot ↦ rw slot (first_event-Admits auth (ground arith) (body_events cfg request) refl)
    ])
  ]

  admit-first_event :
      authorized lib cfg request.authorization ≡ true
      → in_use < cfg.max_concurrent_runs
      → admit lib cfg in_use request ≡ first_event cfg (body_events cfg request)
  unfolding admit
  admit-first_event auth slot = rw auth (ground arith)

  first_event-admitted :
      (start : Event) (rest : List Decoded)
      → validate_start start ≡ none
      → channel_allowed cfg start.channel_id ≡ true
      → first_event cfg (decoded start ∷ rest) ≡ admitted start rest
  unfolding first_event
  first_event-admitted start rest valid allowed = rw (valid, check_start) (rw allowed)

  -- A refusal does not accept the run.
  abbrev pub IsRefusal : Admission → Type 0
  IsRefusal (refused r) = (r.body.accepted ≡ false) × (400 ≤ r.status)
  IsRefusal (admitted start rest) = Unit

  Admits-IsRefusal : (a : Admission) → Admits a → IsRefusal a
  Admits-IsRefusal (refused r) h = h
  Admits-IsRefusal (admitted start rest) h = tt

  -- A run is let in exactly if its caller knows the token, a slot is free, its stream begins with a
  -- start event that passes the validation, and its channel is allowed. Any other request gets a
  -- response that does not accept it, and a status of 400 or more.
  pub admit_iff :
      (start : Event) (rest : List Decoded)
      → (admit lib cfg in_use request ≡ admitted start rest ↔ IsAdmitted start rest)
        × IsRefusal (admit lib cfg in_use request)
  admit_iff start rest =
      ((sound, complete), Admits-IsRefusal (admit lib cfg in_use request) admit-Admits)
    where
      sound : admit lib cfg in_use request ≡ admitted start rest → IsAdmitted start rest
      sound e = subst Admits e admit-Admits

      complete : IsAdmitted start rest → admit lib cfg in_use request ≡ admitted start rest
      complete h =
          admit-first_event h.is_authorized h.has_slot
          ∙ ap (first_event cfg) h.begins
          ∙ first_event-admitted start rest ((validate_start_iff start).1 h.is_start) h.is_allowed
