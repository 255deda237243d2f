-- ===== src/Client/Run/Ends.antt =====
-- How `run` of cmd/wrapping-bot/main.go ends.
use wrapping_bot.Base.{
  ◌≤◌, ◌<◌, ◌||◌, List, [], ◌∷◌, some, none, ◌≡◌, ◌≢◌, ◌⊎◌, inl, inr, refl, ◌++◌, sym, subst, arith,
  All, length, Option-cases,
}
use wrapping_bot.Base.Bytes.{Bytes, str}
use wrapping_bot.Base.Int.{pos}
use wrapping_bot.Base.Result.{Result, ok, error, Result-cases}
use wrapping_bot.Client.Command.{child_code, should_use_shell, build_command}
use wrapping_bot.Client.Environment.{Env}
use wrapping_bot.Client.Flags.{Options}
use wrapping_bot.Client.Options.{parse_options, resolve_client_env_path}
use wrapping_bot.Client.Options.Checked.{IsTail, IsChecked, parse_options-IsChecked}
use wrapping_bot.Client.Run.{
  World, Finished, stop, load_client_env, outside, setting, session_config, run_command,
  run_session, run_options, run_loaded, run,
}
use wrapping_bot.Client.Session.{Start, fails, starts, waits, new_session, send_start}
use wrapping_bot.Client.Session.Upload.{Opened, open_session}
use wrapping_bot.Client.Start.{start_event, encode_hex, exit_event}
use wrapping_bot.Client.Start.Valid.{validate_start-start_event}
use wrapping_bot.Daemon.Channel.{is_discord_channel_id_iff}
use wrapping_bot.Daemon.Server.{validate_start}

-- The random bytes of a run ID, where there are some.
abbrev pub IsRandom : Result Bytes → Type 0
IsRandom (ok random) = All (λ c. c < 256) random × (length random ≡ 16)
IsRandom (error text) = Unit

full_length : (command : List Bytes) → command ≢ [] → 1 ≤ length command
full_length [] h = absurd (h refl)
full_length (c ∷ cs) h = omega arith

module _ (w : World) (args : List Bytes) where
  -- No event is sent and the code is 1 or 2; or the command has run, or was tried.
  abbrev pub Ends : Finished → Type 0
  Ends f = elim f.events [
    | none ↦ (f.exit_code ≡ pos 1) ⊎ (f.exit_code ≡ pos 2)
    | some (start, exit) ↦
        (validate_start start ≡ none)
        × IsTail args start.command
        × (exit.run_id ≡ start.run_id)
        × (exit.exit_code ≡ some f.exit_code)
        × (f.exit_code ≡ child_code (w.child (build_command start.command start.shell)))
  ]

  by_start :
      (s : Start) (text : Bytes → Bytes) (f : Finished)
      → Ends f
      → Ends (elim s [ fails err ↦ stop 1 (text err) | _ ↦ f ])
  by_start (fails err) text f h = inl refl
  by_start (starts s) text f h = h
  by_start waits text f h = h

  run_command-Ends :
      (env : Env) (o : Options) (command : List Bytes) (random : Bytes)
      → IsChecked args o command
      → IsRandom (ok random)
      → let shell = o.shell || should_use_shell command in
        Ends (
          run_command w
            (encode_hex random)
            (start_event w.to_upper (setting w env o) w.started_at random command shell)
            command
            shell)
  unfolding run_command start_event exit_event
  run_command-Ends env o command random h (bytes, sixteen) = (
    validate_start-start_event w.to_upper (setting w env o) w.started_at random command
        (o.shell || should_use_shell command) bytes (omega arith) (omega arith)
        ((is_discord_channel_id_iff o.channel_id).1 h.channel_is)
        (full_length command h.command_full),
    h.command_tail,
    refl,
    refl,
    refl,
  )

  run_session-Ends :
      (env : Env) (o : Options) (command : List Bytes) (random : Bytes) (opened : Opened)
      → IsChecked args o command
      → IsRandom (ok random)
      → Ends (run_session w env o command random opened)
  unfolding run_session
  run_session-Ends env o command random opened h r =
      let shell = o.shell || should_use_shell command in
      let start = start_event w.to_upper (setting w env o) w.started_at random command shell in
      by_start (send_start opened.queue_size start new_session)
        (λ err. str "wrapping-bot: initialize relay: " ++ err)
        (run_command w (encode_hex random) start command shell)
        (run_command-Ends env o command random h r)

  random_fails :
      (env : Env) (o : Options) (command : List Bytes) (text : Bytes)
      → w.random ≡ error text
      → run_options w env o command ≡ stop 1 (str "wrapping-bot: generate run ID: " ++ text)
  unfolding run_options
  random_fails env o command text e = rw (run_options, e) refl

  session_fails :
      (env : Env) (o : Options) (command : List Bytes) (random text : Bytes)
      → w.random ≡ ok random
      → open_session (session_config w o) ≡ error text
      → run_options w env o command ≡ stop 2 (str "wrapping-bot: " ++ text)
  unfolding run_options
  session_fails env o command random text e f = rw (run_options, e, f) refl

  session_opens :
      (env : Env) (o : Options) (command : List Bytes) (random : Bytes) (opened : Opened)
      → w.random ≡ ok random
      → open_session (session_config w o) ≡ ok opened
      → run_options w env o command ≡ run_session w env o command random opened
  unfolding run_options
  session_opens env o command random opened e f = rw (run_options, e, f) refl

  run_options-Ends :
      (env : Env) (o : Options) (command : List Bytes)
      → IsChecked args o command
      → IsRandom w.random
      → Ends (run_options w env o command)
  run_options-Ends env o command h r = elim (Result-cases w.random) [
    | inr (text, e) ↦ subst Ends (sym (random_fails env o command text e)) (inl refl)
    | inl (random, e) ↦ elim (Result-cases (open_session (session_config w o))) [
      | inr (text, f) ↦ subst Ends (sym (session_fails env o command random text e f)) (inr refl)
      | inl (opened, f) ↦
          subst Ends (sym (session_opens env o command random opened e f))
            (run_session-Ends env o command random opened h (subst IsRandom e r))
    ]
  ]

  run_loaded-Ends : (env : Env) → IsRandom w.random → Ends (run_loaded w args env)
  unfolding run_loaded
  run_loaded-Ends env r = elim (Result-cases (parse_options (outside w env) args)) [
    | inr (text, e) ↦ rw (run_loaded, e) (inr refl)
    | inl ((o, command), e) ↦
        rw (run_loaded, e)
          (run_options-Ends env o command (parse_options-IsChecked (outside w env) args o command e)
            r)
  ]

  -- Where the run ID comes of 16 bytes: a run that has sent no event ends with code 1 or 2. Any other
  -- has sent a start event that the daemon accepts, for a command that is the end of the arguments, and
  -- an exit event of the same run, with the exit code that the command had; and ends with that code,
  -- whatever has become of the upload.
  pub run-Ends : IsRandom w.random → Ends (run w args)
  unfolding run
  run-Ends r = elim (Result-cases (resolve_client_env_path (outside w w.environ) args)) [
    | inr (text, e) ↦ rw (run, e) (inr refl)
    | inl ((path, required), e) ↦ elim (Option-cases (load_client_env w path required).1) [
      | inr (text, f) ↦ rw (run, e, f) (inr refl)
      | inl f ↦ rw (run, e, f) (run_loaded-Ends (load_client_env w path required).0 r)
    ]
  ]
