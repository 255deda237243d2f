-- ===== src/Client/Session/Waits.antt =====
-- `Close` of internal/clientstream/session.go returns in time.
use wrapping_bot.Base.{ℕ, ◌*◌, ◌≤◌, ◌<◌, max, Option, some, none, ◌≡◌, ◌⊎◌, arith}
use wrapping_bot.Base.Bytes.{Bytes}
use wrapping_bot.Base.Int.{ℤ}
use wrapping_bot.Client.Session.Upload.{
  millisecond, default_timeout, or_default, Uploaded, failed, final_send_timeout, close_result,
}

-- The result of the upload, where that was there before the timeout.
abbrev pub InTime : ℕ → Option (ℕ × Uploaded) → Uploaded → Type 0
InTime timeout none r = ⊥
InTime timeout (some (time, result)) r = (time < timeout) × (r ≡ result)

-- `Close` returns by its timeout, of which 250 milliseconds are granted in any case, however long the
-- queue stays full and the upload goes on; and what it returns is the error that names the timeout, or
-- the result of an upload that ended before it.
pub close_result-InTime :
    (late : ℕ → Bytes) (given : ℤ) (room : ℕ) (done : Option (ℕ × Uploaded))
    → let timeout = or_default default_timeout given in
      let c = close_result late given room done in
      (c.at ≤ max timeout (250 * millisecond))
      × ((c.result ≡ failed (late timeout)) ⊎ InTime timeout done c.result)
unfolding close_result final_send_timeout
close_result-InTime late given room none = ground arith
close_result-InTime late given room (some (time, result)) = ground arith
