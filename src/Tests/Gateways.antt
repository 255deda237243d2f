-- ===== src/Tests/Gateways.antt =====
-- Connections of internal/discord/gateway.go: one that is told of a session, and then that it is void.
use wrapping_bot.Base.{
  length, ℕ, ◌+◌, ◌≤◌, true, false, List, [], ◌∷◌, ◌++◌, Option, some, none, ◌≡◌, ◌⊎◌, inl, refl,
  ◌==◌, if◌then◌else◌,
}
use wrapping_bot.Base.Bytes.{Bytes, str, bytes_eq, has_text}
use wrapping_bot.Base.Int.{ℤ, pos, negsuc, int_eq}
use wrapping_bot.Base.Result.{ok, error, ok_then}
use wrapping_bot.Base.Space.{trim_space}
use wrapping_bot.Discord.Gateway.{
  Gateway, GatewayEnvelope, GatewayReady, ParsedUrl, heartbeat, resume, Asked, unreached, Request,
  Outside, new_gateway, with_gateway_query, connection_url, beat_of, greeting,
}
use wrapping_bot.Discord.Gateway.Beats.{heartbeats, count_op, serve-Paced}
use wrapping_bot.Discord.Gateway.Connected.{Honest, run-Honest}
use wrapping_bot.Discord.Gateway.Connection.{serve}
use wrapping_bot.Discord.Gateway.State.{
  waiting, panicked, stopped, greeting_next, selecting, Link, Step, ticks, reads_sequence, writes,
  forwards, greets, selects, hears, breaks,
}
use wrapping_bot.Discord.Gateway.Unanswered.{IsReturned, serve-stopped}
use wrapping_bot.Discord.Gateway.Greeting.{greetings, serve-greeting}
use wrapping_bot.Discord.Gateway.Lost.{Stuck, connect-voids, run_from-Stuck}
use wrapping_bot.Discord.Gateway.Replay.{begins, voids, silent, meaning, replay, serve-replay}
use wrapping_bot.Discord.Gateway.Resume.{connection_url-resumes}
use wrapping_bot.Discord.Gateway.Run.{
  second, waited, Meeting, open_link, disconnected, connect, run_from, run,
}
use wrapping_bot.Discord.Gateway.Waits.{Scheduled, run-schedule}

abbrev ready : GatewayReady
ready = record { session_id = str "s1"; resume_gateway_url = str "wss://resume" }

-- An URL that begins with `w` is valid here.
abbrev parse : Bytes → Option ParsedUrl
parse [] = none
parse (c ∷ s) =
    if c == b'w'
    then some (record { scheme = str "wss"; host = s; with_query = λ q. c ∷ s })
    else none

abbrev pub outside : Outside
outside = record {
  to_lower = λ s. s;
  quoted = λ s. s;
  goos = str "linux";
  parse_url = parse;
  decode_bot = λ body. ok body;
  decode_hello = λ d. some (record { positive = true; interval = pos 5 });
  decode_ready = λ d. ok ready;
  decode_bool = λ d. false;
}

abbrev gateway : Gateway
gateway = record {
  bot_token = str "bot";
  api_base_url = str "https://api";
  gateway_url = str "wss://gateway";
  status = str "idle";
  activity = [];
  connected = false;
  session_id = [];
  resume_gateway_url = [];
  sequence = negsuc 0;
}

made :
    new_gateway outside (record {
      bot_token = str " bot ";
      api_base_url = str "https://api//";
      gateway_url = str "wss://gateway";
      status = str "idle";
      activity = [];
    })
    ≡ ok gateway
unfolding new_gateway bytes_eq trim_space has_text
made = refl

abbrev envelope : ℕ → Option ℤ → Bytes → GatewayEnvelope
envelope op s t = record { op = pos op; d = []; s = s; t = t }

abbrev ready_envelope : GatewayEnvelope
ready_envelope = envelope 0 (some (pos 1)) (str "READY")

abbrev message_envelope : GatewayEnvelope
message_envelope = envelope 0 (some (pos 2)) (str "MESSAGE_CREATE")

abbrev void_envelope : GatewayEnvelope
void_envelope = envelope 9 none []

abbrev begun : List Step
begun =
    greets none
    ∷ selects none
    ∷ hears ready_envelope none
    ∷ ticks
    ∷ reads_sequence
    ∷ selects none
    ∷ hears message_envelope none
    ∷ writes none
    ∷ selects none
    ∷ []

abbrev told : Link
told = serve outside begun (open_link false (pos 5) gateway)

told-heard : told.heard ≡ [] ++ ready_envelope ∷ message_envelope ∷ []
unfolding serve open_link bytes_eq int_eq greeting
told-heard = refl

-- The heartbeat carries the sequence that was read before the message.
told-sent : told.sent ≡ greeting (str "linux") false gateway ∷ heartbeat (some 1) ∷ []
unfolding serve open_link bytes_eq int_eq
told-sent = refl

serve-replay_example : told.gateway ≡ replay outside told.heard gateway
serve-replay_example = serve-replay outside begun false (pos 5) gateway

serve-Paced_example : heartbeats told.sent ≤ 1 + count_op 11 told.heard + count_op 1 told.heard
serve-Paced_example = serve-Paced outside begun false (pos 5) gateway

serve-greeting_example :
    (greetings told.sent ≡ greeting (str "linux") false gateway ∷ [])
    ⊎ ((told.heard ≡ []) × (greetings told.sent ≡ []))
serve-greeting_example = serve-greeting outside false gateway begun (pos 5)

ready-begins : meaning outside ready_envelope ≡ begins ready
unfolding meaning bytes_eq
ready-begins = refl

message-silent : meaning outside message_envelope ≡ silent
unfolding meaning bytes_eq
message-silent = refl

abbrev asked : Request → Asked
asked r = unreached (str "refused")

connection_url-resumes_example :
    (connection_url outside asked (disconnected told.gateway)
      ≡ ok_then (with_gateway_query outside (str "wss://resume")) (λ url. ok (url, true)))
    × (greeting (str "linux") true (disconnected told.gateway)
        ≡ resume (record { token = str "bot"; session_id = str "s1"; sequence = pos 2 }))
connection_url-resumes_example =
    connection_url-resumes outside begun false (pos 5) gateway asked [] (message_envelope ∷ [])
      ready_envelope ready told-heard ready-begins (inl message-silent, tt) (λ e. absurd (cc))
      (λ e. absurd (cc))

abbrev ended : List Step
ended = greets none ∷ selects none ∷ hears void_envelope none ∷ []

ended-heard :
    (serve outside ended (open_link false (pos 5) gateway)).heard ≡ [] ++ void_envelope ∷ []
unfolding serve open_link int_eq
ended-heard = refl

void-voids : meaning outside void_envelope ≡ voids
unfolding meaning int_eq
void-voids = refl

abbrev meeting : Meeting
meeting = record {
  http = asked;
  dial = λ url. none;
  hello = ok (envelope 10 none []);
  steps = begun;
  after = waited;
}

abbrev fresh : Gateway
fresh = disconnected (serve outside ended (open_link false (pos 5) gateway)).gateway

fresh-connects : connect outside meeting fresh ≡ ok (open_link false (pos 5) fresh)
unfolding connect serve open_link ok_then int_eq trim_space
fresh-connects = refl

connect-voids_example :
    ((open_link false (pos 5) fresh).reader ≡ greeting_next false)
    × (beat_of (open_link false (pos 5) fresh).gateway.sequence ≡ none)
connect-voids_example =
    connect-voids outside ended false (pos 5) gateway [] void_envelope meeting
      (open_link false (pos 5) fresh) ended-heard void-voids fresh-connects

abbrev lost : Gateway
lost = record gateway { session_id = str "s1"; resume_gateway_url = str "!" }

lost-wrong : with_gateway_query outside (str "!") ≡ error (str "invalid Discord Gateway URL !")
unfolding with_gateway_query trim_space
lost-wrong = refl

run_from-Stuck_example : Stuck lost (run_from outside second [] lost (meeting ∷ meeting ∷ []))
run_from-Stuck_example =
    run_from-Stuck outside (meeting ∷ meeting ∷ []) second [] lost
      (str "invalid Discord Gateway URL !") refl lost-wrong

-- A connection that waits for a tick, with the beat before it not acknowledged.
abbrev silent_link : Link
silent_link = record {
  gateway = gateway;
  reader = selecting;
  heart = waiting;
  interval = pos 5;
  heartbeat_ack = false;
  heartbeat_failure = none;
  heartbeat_err = none;
  closed = false;
  heard = [];
  sent = [];
}

-- An event with no data, of opcode 3.
abbrev other : GatewayEnvelope
other = record { op = pos 3; d = []; s = none; t = [] }

is_other : int_eq other.op (pos 11) ≡ false
unfolding int_eq
is_other = refl

abbrev silent_steps : List Step
silent_steps = selects none ∷ hears other none ∷ []

serve-stopped_example :
    let k =
      serve outside
        (silent_steps ++ (ticks ∷ ((selects none ∷ []) ++ (forwards ∷ []))))
        silent_link in
    let m = serve outside (hears other none ∷ []) k in
    (m.heart ≡ stopped)
    × (m.closed ≡ true)
    × (length m.heard ≤ length k.heard + 1)
    × IsReturned (serve outside (greets none ∷ breaks (str "closed") ∷ selects none ∷ []) m).reader
serve-stopped_example =
    serve-stopped outside silent_link silent_steps (selects none ∷ []) (hears other none ∷ []) none
      (str "closed") none (refl, refl, refl) (tt, (is_other, tt)) (tt, tt)

-- A hello of less than a nanosecond gives an interval of 0.
panics :
    (serve outside
      (ticks ∷ reads_sequence ∷ writes none ∷ [])
      (open_link false (pos 0) gateway)).heart
    ≡ panicked
unfolding serve open_link
panics = refl

abbrev broken : Meeting
broken = record meeting { steps = breaks (str "EOF") ∷ greets (some (str "EOF")) ∷ [] }

run-Honest_example : Honest outside (run outside gateway (broken ∷ meeting ∷ []))
run-Honest_example = run-Honest outside gateway (broken ∷ meeting ∷ []) refl

run-schedule_example : Scheduled (run outside gateway (broken ∷ broken ∷ []))
run-schedule_example = run-schedule outside gateway (broken ∷ broken ∷ [])
