-- ===== src/Client/Options/Checked.antt =====
-- What `parseOptions` of cmd/wrapping-bot/main.go lets through.
use wrapping_bot.Base.{
  true, false, List, [], ◌∷◌, ◌++◌, Option, some, none, ◌≡◌, ◌≢◌, inl, inr, ap, subst, arith,
  Bool-cases,
}
use wrapping_bot.Base.Bytes.{Bytes, is_empty}
use wrapping_bot.Base.Result.{Result, ok, ok_then-ok, ok_injective, error_ok}
use wrapping_bot.Base.Space.{trim_space}
use wrapping_bot.Client.Flags.{
  Options, Outside, Flag, Argument, positional, terminator, malformed, flagged, all_flags,
  find_flag, is_bool_flag, read_argument, set_flag, take_flag, take_found, take_argument,
  parse_flags,
}
use wrapping_bot.Client.Options.{check_options, default_options, parse_options}
use wrapping_bot.Daemon.Channel.{is_discord_channel_id, IsSnowflake, is_discord_channel_id_iff}
use wrapping_bot.Daemon.Config.{at_least}
use wrapping_bot.Daemon.Config.Ranges.{IsAtLeast, at_least-IsAtLeast}

-- The second list is the end of the first.
abbrev pub IsTail : List Bytes → List Bytes → Type 0
IsTail args command = (front : List Bytes) × (args ≡ front ++ command)

pub record IsChecked (args : List Bytes) (o : Options) (command : List Bytes) : Type 0 where
  pub command_full : command ≢ []
  pub command_tail : IsTail args command
  pub token_full : is_empty (trim_space o.token) ≡ false
  pub channel_is : IsSnowflake o.channel_id
  pub queue_is : IsAtLeast 1 o.queue_size

further :
    (arg : Bytes) (args command : List Bytes) → IsTail args command → IsTail (arg ∷ args) command
further arg args command (front, e) = (arg ∷ front, ap (λ r. arg ∷ r) e)

module _ (lib : Outside) where
  Tails : List Bytes → (Option Flag → Options → Result (Options × List Bytes)) → Type 0
  Tails args next =
      (waits : Option Flag) (o o1 : Options) (command : List Bytes)
      → next waits o ≡ ok (o1, command)
      → IsTail args command

  take_flag-IsTail :
      (args : List Bytes) (next : Option Flag → Options → Result (Options × List Bytes))
      → Tails args next
      → (f : Flag) (value : Option Bytes) (o o1 : Options) (command : List Bytes)
      → take_flag lib next f value o ≡ ok (o1, command)
      → IsTail args command
  unfolding Tails take_flag
  take_flag-IsTail args next tails f none o o1 command e = elim (Bool-cases (is_bool_flag f)) [
    | inl flag ↦
        let (o2, set, more) = ok_then-ok _ _ _ (rw flag at e) in tails none o2 o1 command more
    | inr text ↦ tails (some f) o o1 command (rw text at e)
  ]
  take_flag-IsTail args next tails f (some text) o o1 command e =
      elim (Bool-cases (is_bool_flag f)) [
        | inl flag ↦
            let (o2, set, more) = ok_then-ok _ _ _ (rw flag at e) in tails none o2 o1 command more
        | inr plain ↦
            let (o2, set, more) = ok_then-ok _ _ _ (rw plain at e) in tails none o2 o1 command more
      ]

  take_found-IsTail :
      (args : List Bytes) (next : Option Flag → Options → Result (Options × List Bytes))
      → Tails args next
      → (found : Option Flag) (name : Bytes) (value : Option Bytes) (o o1 : Options)
        (command : List Bytes)
      → take_found lib next found name value o ≡ ok (o1, command)
      → IsTail args command
  unfolding take_found
  take_found-IsTail args next tails none name value o o1 command e = absurd (cc)
  take_found-IsTail args next tails (some f) name value o o1 command e =
      take_flag-IsTail args next tails f value o o1 command e

  take_argument-IsTail :
      (arg : Bytes) (args : List Bytes)
      (next : Option Flag → Options → Result (Options × List Bytes))
      → Tails args next
      → (a : Argument) (o o1 : Options) (command : List Bytes)
      → take_argument lib next a arg args o ≡ ok (o1, command)
      → IsTail (arg ∷ args) command
  unfolding take_argument
  take_argument-IsTail arg args next tails positional o o1 command e = ([], ground arith)
  take_argument-IsTail arg args next tails terminator o o1 command e = (arg ∷ [], ground arith)
  take_argument-IsTail arg args next tails malformed o o1 command e = absurd (cc)
  take_argument-IsTail arg args next tails (flagged name value) o o1 command e =
      further arg args command
        (take_found-IsTail args next tails (find_flag all_flags name) name value o o1 command e)

  parse_flags-IsTail :
      (waits : Option Flag) (args : List Bytes) (o o1 : Options) (command : List Bytes)
      → parse_flags lib waits args o ≡ ok (o1, command)
      → IsTail args command
  unfolding parse_flags Tails
  parse_flags-IsTail none [] o o1 command e = ([], ground arith)
  parse_flags-IsTail (some f) [] o o1 command e = absurd (cc)
  parse_flags-IsTail (some f) (value ∷ args) o o1 command e =
      let (o2, set, more) = ok_then-ok (set_flag lib f value o) _ _ e in
      further value args command (parse_flags-IsTail none args o2 o1 command more)
  parse_flags-IsTail none (arg ∷ args) o o1 command e =
      take_argument-IsTail arg args (λ waits o2. parse_flags lib waits args o2)
        (λ waits o2 o3 c f. parse_flags-IsTail waits args o2 o3 c f) (read_argument arg) o o1
        command e

  check_options-ok :
      (o o1 : Options) (c c1 : List Bytes)
      → check_options lib o c ≡ ok (o1, c1)
      → (o ≡ o1)
        × (c ≡ c1)
        × (c ≢ [])
        × (is_empty (trim_space o.token) ≡ false)
        × (is_discord_channel_id o.channel_id ≡ true)
        × (at_least 1 o.queue_size ≡ true)
  unfolding check_options
  check_options-ok o o1 [] c1 e = absurd (cc)
  check_options-ok o o1 (a ∷ c) c1 e = elim (Bool-cases (is_empty (trim_space o.token))) [
    | inl missing ↦ absurd (error_ok (rw missing at e))
    | inr full ↦ elim (Bool-cases (is_discord_channel_id o.channel_id)) [
      | inr wrong ↦ absurd (error_ok (rw (full, wrong) at e))
      | inl right ↦ elim (Bool-cases (at_least 1 o.queue_size)) [
        | inr low ↦ absurd (error_ok (rw (full, right, low) at e))
        | inl enough ↦
            let same = ok_injective (rw (full, right, enough) at e) in
            (ap (λ p. p.0) same, ap (λ p. p.1) same, (λ h. cc), full, right, enough)
      ]
    ]
  ]

  -- Options that are let through have a token and the ID of a channel, and ask for a queue of at least
  -- one event; and the command is not empty, and is the end of the arguments, word for word.
  pub parse_options-IsChecked :
      (args : List Bytes) (o : Options) (command : List Bytes)
      → parse_options lib args ≡ ok (o, command)
      → IsChecked args o command
  unfolding parse_options
  parse_options-IsChecked args o command e =
      let ((o1, c1), parsed, checked) =
        ok_then-ok (parse_flags lib none args (default_options lib)) _ _ e in
      let (same_o, same_c, full, token, channel, queue) =
        check_options-ok o1 o c1 command checked in
      record {
        command_full = subst (λ c. c ≢ []) same_c full;
        command_tail =
            subst (λ c. IsTail args c) same_c
              (parse_flags-IsTail none args (default_options lib) o1 c1 parsed);
        token_full = subst (λ p. is_empty (trim_space p.token) ≡ false) same_o token;
        channel_is =
            (is_discord_channel_id_iff o.channel_id).0
              (subst (λ p. is_discord_channel_id p.channel_id ≡ true) same_o channel);
        queue_is =
            at_least-IsAtLeast 1 o.queue_size
              (subst (λ p. at_least 1 p.queue_size ≡ true) same_o queue);
      }
