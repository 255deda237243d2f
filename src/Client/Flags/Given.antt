-- ===== src/Client/Flags/Given.antt =====
-- What the options of cmd/wrapping-bot/main.go set, by their names.
use wrapping_bot.Base.{
  List, [], ◌∷◌, ◌++◌, Option, some, none, ◌≡◌, ◌⊎◌, inl, inr, refl, map, All, Option-cases,
  if◌then◌else◌,
}
use wrapping_bot.Base.Bytes.{Bytes, str, is_empty, bytes_eq}
use wrapping_bot.Base.Int.{ℤ}
use wrapping_bot.Base.Result.{Result, ok, error, ok_then, Result-cases}
use wrapping_bot.Base.Space.{trim_space}
use wrapping_bot.Client.Flags.{
  Options, Outside, Flag, client_env_flag, endpoint_flag, token_flag, channel_id_flag, name_flag,
  shell_flag, env_flag, env_prefix_flag, allow_secret_env_flag, queue_size_flag,
  finish_timeout_flag, flag_name, add_text, set_flag, parse_flags,
}
use wrapping_bot.Client.Flags.RoundTrip.{spell, set_all, parse_flags-spelled}
use wrapping_bot.Daemon.Config.{parse_bool}

abbrev pub or_old {ℓ} : {A : Type ℓ} → Option A → A → A
or_old none old = old
or_old (some a) old = a

-- What the last option of a name says, or the old value where there is none.
abbrev pub last_of {ℓ} : {A : Type ℓ} → (Bytes → Option A) → Bytes → List (Flag × Bytes) → A → A
last_of read name [] old = old
last_of read name ((f, value) ∷ given) old =
    last_of read name given (if bytes_eq (flag_name f) name then or_old (read value) old else old)

-- All that the options of a name add, with no blanks around it and not empty.
abbrev pub all_of : Bytes → List (Flag × Bytes) → List Bytes → List Bytes
all_of name [] old = old
all_of name ((f, value) ∷ given) old = all_of name given (
    if bytes_eq (flag_name f) name
    then (if is_empty (trim_space value) then old else old ++ (trim_space value ∷ []))
    else old)

abbrev to_option {ℓ} : {A : Type ℓ} → Result A → Option A
to_option (ok a) = some a
to_option (error text) = none

module _ (lib : Outside) where
  -- The options by what was given under each name.
  abbrev pub given_options : List (Flag × Bytes) → Options → Options
  given_options given o = record {
    client_env = last_of some (str "client-env") given o.client_env;
    endpoint = last_of some (str "endpoint") given o.endpoint;
    token = last_of some (str "token") given o.token;
    channel_id = last_of some (str "channel-id") given o.channel_id;
    name = last_of some (str "name") given o.name;
    shell = last_of parse_bool (str "shell") given o.shell;
    env_keys = all_of (str "env") given o.env_keys;
    env_prefixes = all_of (str "env-prefix") given o.env_prefixes;
    allow_secrets = last_of parse_bool (str "allow-secret-env") given o.allow_secrets;
    queue_size =
        last_of (λ s. to_option (lib.parse_int_literal s)) (str "queue-size") given o.queue_size;
    finish_timeout = last_of lib.parse_duration (str "finish-timeout") given o.finish_timeout;
  }

  -- A value that the option can take.
  abbrev pub IsValid : Flag × Bytes → Type 0
  IsValid (shell_flag, value) = (b : _) × (parse_bool value ≡ some b)
  IsValid (allow_secret_env_flag, value) = (b : _) × (parse_bool value ≡ some b)
  IsValid (queue_size_flag, value) = (n : ℤ) × (lib.parse_int_literal value ≡ ok n)
  IsValid (finish_timeout_flag, value) = (d : ℤ) × (lib.parse_duration value ≡ some d)
  IsValid _ = Unit

  abbrev Sets : List (Flag × Bytes) → Options → Result Options → Type 0
  Sets given o r =
      All IsValid given × (r ≡ ok (given_options given o))
      ⊎ (¬ All IsValid given) × ((text : Bytes) × (r ≡ error text))

  set_flag-Sets :
      (f : Flag) (value : Bytes) (o : Options) → Sets ((f, value) ∷ []) o (set_flag lib f value o)
  unfolding set_flag bytes_eq add_text
  set_flag-Sets client_env_flag value o = inl ((tt, tt), refl)
  set_flag-Sets endpoint_flag value o = inl ((tt, tt), refl)
  set_flag-Sets token_flag value o = inl ((tt, tt), refl)
  set_flag-Sets channel_id_flag value o = inl ((tt, tt), refl)
  set_flag-Sets name_flag value o = inl ((tt, tt), refl)
  set_flag-Sets env_flag value o = inl ((tt, tt), refl)
  set_flag-Sets env_prefix_flag value o = inl ((tt, tt), refl)
  set_flag-Sets shell_flag value o = elim (Option-cases (parse_bool value)) [
    | inl e ↦ rw (set_flag, e) (inr ((λ ((b, h), _). absurd (cc)), (_, refl)))
    | inr (b, e) ↦ rw (set_flag, e) (inl (((b, refl), tt), refl))
  ]
  set_flag-Sets allow_secret_env_flag value o = elim (Option-cases (parse_bool value)) [
    | inl e ↦ rw (set_flag, e) (inr ((λ ((b, h), _). absurd (cc)), (_, refl)))
    | inr (b, e) ↦ rw (set_flag, e) (inl (((b, refl), tt), refl))
  ]
  set_flag-Sets queue_size_flag value o = elim (Result-cases (lib.parse_int_literal value)) [
    | inr (text, e) ↦ rw (set_flag, e) (inr ((λ ((b, h), _). absurd (cc)), (_, refl)))
    | inl (n, e) ↦ rw (set_flag, e) (inl (((n, refl), tt), refl))
  ]
  set_flag-Sets finish_timeout_flag value o = elim (Option-cases (lib.parse_duration value)) [
    | inl e ↦ rw (set_flag, e) (inr ((λ ((b, h), _). absurd (cc)), (_, refl)))
    | inr (d, e) ↦ rw (set_flag, e) (inl (((d, refl), tt), refl))
  ]

  set_all-Sets : (given : List (Flag × Bytes)) (o : Options) → Sets given o (set_all lib given o)
  unfolding set_all ok_then
  set_all-Sets [] o = inl (tt, refl)
  set_all-Sets ((f, value) ∷ given) o = elim (set_flag-Sets f value o) [
    | inr (bad, (text, e)) ↦ rw e (inr ((λ (v, _). bad (v, tt)), (text, refl)))
    | inl ((v, _), e) ↦ rw e (elim (set_all-Sets given (given_options ((f, value) ∷ []) o)) [
      | inl (vs, e') ↦ inl ((v, vs), e')
      | inr (bad, (text, e')) ↦ inr ((λ (_, vs). bad vs), (text, e'))
    ])
  ]

  -- Options that are spelled `--name=value` and end in `--`: if each has a value that it can take, the
  -- options of one value hold the last that was given under their name, `--env` and `--env-prefix` add
  -- to their lists in order, all others are as before, and all behind the `--` is the command, whatever
  -- it looks like. Otherwise there is an error.
  pub parse_flags-given :
      (given : List (Flag × Bytes)) (command : List Bytes) (o : Options)
      → let r = parse_flags lib none (map spell given ++ (str "--" ∷ command)) o in
        All IsValid given × (r ≡ ok (given_options given o, command))
        ⊎ (¬ All IsValid given) × ((text : Bytes) × (r ≡ error text))
  unfolding ok_then
  parse_flags-given given command o =
      rw (parse_flags-spelled lib given command o) (elim (set_all-Sets given o) [
        | inl (vs, e) ↦ rw e (inl (vs, refl))
        | inr (bad, (text, e)) ↦ rw e (inr (bad, (text, refl)))
      ])
