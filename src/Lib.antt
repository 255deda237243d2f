-- ===== src/Lib.antt =====
-- wrapping-bot: a command-line wrapper runs a command and streams its output to a daemon, which
-- relays it to a Discord channel. The wrapper posts one JSON event per line; the daemon checks the
-- start event, hands the outputs to a batcher, and answers when the run has ended.
--
-- The parts, with the files that model them:
-- - Base and its children hold what the models share: bytes as numbers, Go's string functions that
--   the program calls, decimal numbers, integers, `strings.TrimSpace` and `strconv.ParseUint`.
-- - Protocol models the records of internal/protocol/event.go.
-- - Text models internal/textutil/text.go: Text.Split is `SplitUTF8`, Text.Fence is
--   `EscapeCodeFence`, Text.Ansi is `StripANSI` with a matcher for its regular expression, and
--   Text.Utf8 is what the split uses of `unicode/utf8`.
-- - Shell models `formatCommand` and `shellQuote` of internal/daemon/server.go, and Shell.Words is
--   a reader of shell words to check them against.
-- - Daemon.Batcher models internal/daemon/batcher.go. Its state is a record with the queue, the
--   buffer and the messages sent; `step` is one action of the handler (`Add`, `Close`) or of the
--   goroutine (a receive, a tick), and a list of actions is one interleaving.
-- - Daemon.Channel and Daemon.Format model `isDiscordChannelID` and the messages of
--   internal/daemon/server.go, and Daemon.Config the `LoadConfigFromEnv` of
--   internal/daemon/config.go.
-- - Daemon.Server models the handler: `body_events` is what its decoder gives of a body under the
--   limit of `http.MaxBytesReader`, `admit` is `handleStream` up to the start message,
--   `read_stream` is its loop, and Daemon.Server.Handle puts these and the batcher together as
--   `handle_stream`.
-- - WebSocket models the frames of internal/wsclient/wsclient.go: `read_frame` and `write_frame`
--   with their masks and lengths, the server's frames and `ReadClientFrame`; WebSocket.Message is
--   `readMessage`, WebSocket.Json is `ReadJSON`, `WriteJSON` and `Close`, and WebSocket.Handshake
--   is `DialContext`, `handshake` and `UpgradeForTest`.
-- - Discord.Sender models `NewSender` and `Send` of internal/discord/sender.go: its retries, its
--   back-off and its rate window; Discord.Sender.Spacing says how the replies space the requests.
-- - Discord.Gateway models internal/discord/gateway.go. Discord.Gateway.State,
--   Discord.Gateway.Heartbeat and Discord.Gateway.Connection are one connection: a `Step` is what
--   a goroutine does up to where another can come between, `step` does it, and a list of steps is
--   one interleaving of the loop with the heartbeats. Discord.Gateway.Run puts connections
--   together as `Run` does. Discord.Presence holds what it shares with the configuration and the
--   sender.
-- - Daemon.Process models cmd/wrapping-botd/main.go: `start` is what `serve` makes of the
--   environment, and `healthcheck` what asks `handleHealth`.
-- - Client.Session models internal/clientstream/session.go: the queue of events, the pieces of
--   `Write` and `Close`, with the upload as one more actor; Client.Session.Upload is the upload
--   itself and the waits of `Close`, Client.Session.Accepted puts the session together with the
--   daemon's reader, and Client.Session.Relayed with the whole handler up to the result of the
--   upload.
-- - Client.Environment models `collectEnvironment` of cmd/wrapping-bot/main.go and what it calls,
--   Client.EnvFile its environment file, Client.Start its run ID and events, Client.Flags the
--   rules of package `flag` with its options, Client.Options its `parseOptions` and
--   `resolveClientEnvPath`, Client.Command how it runs the command, and Client.Run its `run`.
-- - Tests holds concrete inputs.
--
-- Fuel and bounds: the loop of `SplitUTF8` runs on the length of the text plus one, which
-- Text.Split.Laws shows to be enough. Lengths and the count of dropped bytes are natural numbers;
-- Go's int and int64 would need texts of 2^63 bytes to differ. `readMessage` runs on the length of
-- the stream plus one, since every frame takes two bytes. `Send` makes at most seven attempts.
-- `Write` cuts its bytes into pieces on the length of the bytes. A gateway runs over lists of
-- steps and of connections, and `flag` over the arguments, so they need no fuel. The batcher of a
-- handler receives once more than records wait after the close.
--
-- Outside of the model: SHA-256, the print of a duration and of a quoted text are parameters of
-- the handler. What Discord answers to the n-th message is an arbitrary function, and so is what
-- the batcher's goroutine does between two operations of the handler. A request's body is a list
-- of JSON values, each with its size and the event or the error that the decoder makes of it; what
-- becomes of an event between the client's encoder and the daemon's decoder is an argument of
-- Client.Session.Accepted, as is the size of its JSON, the first a function that keeps the version
-- and what is valid UTF-8 of the run ID and the type. What Discord's HTTP interface replies is an
-- arbitrary function as well. HTTP, URLs, TLS, SHA-1 and base64 are parameters of
-- WebSocket.Handshake and Discord.Gateway. Logging and deadlines are left out. The environment and
-- the readers of durations and of lower case are parameters of Daemon.Config. `strings.ToUpper` is
-- a parameter of Client.Environment, and `strconv.Unquote` one of Client.EnvFile.
mod Base
pub mod Protocol
pub mod Text
pub mod Shell
pub mod Daemon
pub mod WebSocket
pub mod Discord
pub mod Client
mod Tests
