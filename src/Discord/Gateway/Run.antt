-- ===== src/Discord/Gateway/Run.antt =====
-- `connectAndServe` and `Run` of internal/discord/gateway.go. A connection meets what its `Meeting`
-- says, and `run` ends where its list does: where the list ends, the context is found to be done
-- before the next connection.
use wrapping_bot.Base.{
  ℕ, ◌*◌, Bool, true, false, not, List, [], ◌∷◌, ◌++◌, Option, some, none, ◌≡◌, refl, ltb,
  if◌then◌else◌,
}
use wrapping_bot.Base.Bytes.{Bytes, str}
use wrapping_bot.Base.Int.{ℤ, pos, int_eq, itoa}
use wrapping_bot.Base.Result.{Result, ok, error, ok_then}
use wrapping_bot.Discord.Gateway.{Gateway, GatewayEnvelope, Request, Asked, Outside, connection_url}
use wrapping_bot.Discord.Gateway.Connection.{serve}
use wrapping_bot.Discord.Gateway.State.{starting, greeting_next, returned, Link, Step}

abbrev pub second : ℕ
second = 1_000_000_000

-- What `Run` finds behind a connection: its context is done, or it becomes so while it waits, or it
-- waits to the end.
pub data After : Type 0 where
  cancelled cancelled_waiting waited : After

-- What the request for the URL, the dial and the read of the hello lead to, and the steps from there.
pub record Meeting : Type 0 where
  pub http : Request → Asked
  pub dial : Bytes → Option Bytes
  pub hello : Result GatewayEnvelope
  pub steps : List Step
  pub after : After

-- `connectAndServe` returns an error, or it has not returned when the steps end.
pub data Served : Type 0 where
  fails : Bytes → Gateway → Served
  stays : Link → Served

-- `Run` has returned, or it has not; and how long it waited, or began to, behind its connections.
pub data Outcome : Type 0 where
  stopped : Gateway → List ℕ → Outcome
  serving : Link → List ℕ → Outcome

unfoldable pub open_link : Bool → ℤ → Gateway → Link
open_link resuming interval g = record {
  gateway = g;
  reader = greeting_next resuming;
  heart = starting;
  interval = interval;
  heartbeat_ack = true;
  heartbeat_failure = none;
  heartbeat_err = none;
  closed = false;
  heard = [];
  sent = [];
}

abbrev pub served : Link → Served
served l = elim l.reader [ returned text ↦ fails text l.gateway | _ ↦ stays l ]

unfoldable pub next_backoff : ℕ → ℕ
next_backoff backoff =
    if ltb backoff (30 * second)
    then (if ltb (30 * second) (backoff * 2) then 30 * second else backoff * 2)
    else backoff

abbrev pub disconnected : Gateway → Gateway
disconnected g = record g { connected = false }

module _ (lib : Outside) where
  -- The interval in the hello.
  unfoldable pub heartbeat_interval : Result GatewayEnvelope → Result ℤ
  unfolding int_eq itoa
  heartbeat_interval (error text) = error (str "read Discord Gateway hello: " ++ text)
  heartbeat_interval (ok e) =
      if not (int_eq e.op (pos 10))
      then error (str "expected Discord Gateway hello opcode 10, got " ++ itoa e.op)
      else elim (lib.decode_hello e.d) [
        | none ↦ error (str "invalid Discord Gateway heartbeat interval")
        | some hello ↦
            if hello.positive
            then ok hello.interval
            else error (str "invalid Discord Gateway heartbeat interval")
      ]

  unfoldable pub dialled : Bytes → Option Bytes → Result Bytes
  dialled endpoint none = ok endpoint
  dialled endpoint (some text) = error (str "connect to Discord Gateway: " ++ text)

  -- The connection up to its hello.
  unfoldable pub connect : Meeting → Gateway → Result Link
  unfolding connection_url heartbeat_interval dialled open_link
  connect m g = ok_then (connection_url lib m.http g) (λ (endpoint, resuming).
      ok_then (dialled endpoint (m.dial endpoint)) (λ conn.
        ok_then (heartbeat_interval m.hello) (λ interval. ok (open_link resuming interval g))))

  unfoldable pub connect_and_serve : Meeting → Gateway → Served
  unfolding connect serve
  connect_and_serve m g = elim (connect m g) [
    | error text ↦ fails text g
    | ok l ↦ served (serve lib m.steps l)
  ]

  -- The loop; `waits` are those of the connections before.
  unfoldable pub run_from : ℕ → List ℕ → Gateway → List Meeting → Outcome
  unfolding connect_and_serve next_backoff
  run_from backoff waits g [] = stopped (disconnected g) waits
  run_from backoff waits g (m ∷ ms) = elim (connect_and_serve m g) [
    | stays l ↦ serving l waits
    | fails text g1 ↦ elim m.after [
      | cancelled ↦ stopped (disconnected g1) waits
      | cancelled_waiting ↦ stopped (disconnected g1) (waits ++ (backoff ∷ []))
      | waited ↦ run_from (next_backoff backoff) (waits ++ (backoff ∷ [])) (disconnected g1) ms
    ]
  ]

  unfoldable pub run : Gateway → List Meeting → Outcome
  unfolding run_from
  run g ms = run_from second [] g ms

pub fails_injective : {s t : Bytes} {g h : Gateway} → fails s g ≡ fails t h → g ≡ h
fails_injective e = cc

pub fails_stays : {s : Bytes} {g : Gateway} {l : Link} → fails s g ≡ stays l → ⊥
fails_stays e = cc

-- What holds of the outcome of a round of `run_from`, whatever the connection leads to.
module _ {ℓ} (lib : Outside) (P : Outcome → Type ℓ) (backoff : ℕ) (waits : List ℕ) where
  after_round :
      (g : Gateway) (a : After) (rest : Outcome)
      → P (stopped (disconnected g) waits)
      → P (stopped (disconnected g) (waits ++ (backoff ∷ [])))
      → P rest
      → P (elim a [
        | cancelled ↦ stopped (disconnected g) waits
        | cancelled_waiting ↦ stopped (disconnected g) (waits ++ (backoff ∷ []))
        | waited ↦ rest
      ])
  after_round g cancelled rest p q r = p
  after_round g cancelled_waiting rest p q r = q
  after_round g waited rest p q r = r

  served_round :
      (m : Meeting) (ms : List Meeting) (s : Served)
      → ((l : Link) → s ≡ stays l → P (serving l waits))
      → ((text : Bytes) (g1 : Gateway) → s ≡ fails text g1 → P (stopped (disconnected g1) waits))
      → ((text : Bytes) (g1 : Gateway)
          → s ≡ fails text g1
          → P (stopped (disconnected g1) (waits ++ (backoff ∷ []))))
      → ((text : Bytes) (g1 : Gateway)
          → s ≡ fails text g1
          → P (run_from lib (next_backoff backoff) (waits ++ (backoff ∷ [])) (disconnected g1) ms))
      → P (elim s [
        | stays l ↦ serving l waits
        | fails text g1 ↦ elim m.after [
          | cancelled ↦ stopped (disconnected g1) waits
          | cancelled_waiting ↦ stopped (disconnected g1) (waits ++ (backoff ∷ []))
          | waited ↦
              run_from lib (next_backoff backoff) (waits ++ (backoff ∷ [])) (disconnected g1) ms
        ]
      ])
  served_round m ms (stays l) p q r s = p l refl
  served_round m ms (fails text g1) p q r s =
      after_round g1 m.after
        (run_from lib (next_backoff backoff) (waits ++ (backoff ∷ [])) (disconnected g1) ms)
        (q text g1 refl) (r text g1 refl) (s text g1 refl)

  pub run_from-round :
      (g : Gateway) (m : Meeting) (ms : List Meeting)
      → let s = connect_and_serve lib m g in
        ((l : Link) → s ≡ stays l → P (serving l waits))
        → ((text : Bytes) (g1 : Gateway) → s ≡ fails text g1 → P (stopped (disconnected g1) waits))
        → ((text : Bytes) (g1 : Gateway)
            → s ≡ fails text g1
            → P (stopped (disconnected g1) (waits ++ (backoff ∷ []))))
        → ((text : Bytes) (g1 : Gateway)
            → s ≡ fails text g1
            → P (
                run_from lib (next_backoff backoff) (waits ++ (backoff ∷ [])) (disconnected g1) ms))
        → P (run_from lib backoff waits g (m ∷ ms))
  unfolding run_from
  run_from-round g m ms = served_round m ms (connect_and_serve lib m g)
