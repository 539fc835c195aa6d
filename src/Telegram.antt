-- ===== src/Telegram.antt =====
-- The receiver's pace in internal/telegram: RetryDelay and ErrorCode of client.go, the cursor of
-- state.go (Offset, Advance). Durations are in nanoseconds.
pub mod Backoff
pub mod Send
pub mod Health
use agent_chun_su.Base.{
  ℕ, zero, suc, ◌+◌, ◌-◌, ◌*◌, ◌/◌, Bool, true, false, String, Option, none, some, ◌==◌, ◌||◌, ltb,
  not, if◌then◌else◌,
}
use agent_chun_su.Store.Model.{Result, ok, err, message}
use agent_chun_su.Store.Txn.{◌>>=◌, ◌>>◌, refuse_if}

-- APIError: the fields that the functions below read; the status and the text are left aside.
pub record ApiError : Type 0 where
  pub code : ℕ
  pub retry_after : ℕ

-- The limits of the configuration, in seconds.
pub record Pace : Type 0 where
  pub poll_seconds : ℕ
  pub retry_delay_seconds : ℕ

abbrev pub second : ℕ
second = 1000000000

unfoldable pub error_code : Option ApiError → String
error_code none = "poll_failed"
error_code (some e) =
    if e.code == 401 || e.code == 403
    then "authentication_failed"
    else (if e.code == 409 then "poll_conflict" else "poll_failed")

abbrev pub poll_delay : Pace → ℕ
poll_delay p = p.poll_seconds * second

abbrev pub ceiling : Pace → ℕ
ceiling p =
    if ltb (p.retry_delay_seconds * second) (poll_delay p)
    then poll_delay p
    else p.retry_delay_seconds * second

-- The loop's step.
abbrev pub step_delay : ℕ → ℕ → ℕ
step_delay top delay = if ltb (top / 2) delay then top else delay * 2

-- The loop, with the rounds that are left.
unfoldable pub back_off : ℕ → ℕ → ℕ → ℕ
back_off zero top delay = delay
back_off (suc n) top delay =
    let more = back_off n top (step_delay top delay) in if ltb delay top then more else delay

abbrev pub flood_delay : Option ApiError → ℕ → ℕ
flood_delay none delay = delay
flood_delay (some e) delay = if ltb delay e.retry_after then e.retry_after else delay

unfoldable pub retry_delay : Option ApiError → ℕ → Pace → ℕ
unfolding back_off
retry_delay e failures p = flood_delay e (back_off (failures - 1) (ceiling p) (poll_delay p))

-- math.MaxInt64.
abbrev pub max_int64 : ℕ
max_int64 = 9223372036854775807

-- The next update that the file of the cursor names, if there is one.
abbrev pub Cursor : Type 0
Cursor = Option ℕ

unfoldable pub offset : Cursor → ℕ
offset none = 0
offset (some next) = next

unfoldable pub advance_cursor : ℕ → Cursor → Result Cursor
advance_cursor id cursor =
    if id == max_int64 then err (message "invalid update ID") else ok (some (id + 1))
