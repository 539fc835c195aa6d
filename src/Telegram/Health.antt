-- ===== src/Telegram/Health.antt =====
-- The heartbeat of the receiver in internal/telegram/health.go, with the time after which it counts as
-- stalled. Durations are in nanoseconds.
pub mod Alive
use agent_chun_su.Base.{
  ℕ, false, ◌+◌, ◌-◌, ◌*◌, ◌/◌, Bool, String, Option, none, some, ◌==◌, ◌&&◌, ◌||◌, ltb, leb, not,
  str_eq, if◌then◌else◌,
}
use agent_chun_su.Store.Model.{Result, ok, err, message}
use agent_chun_su.Telegram.{second}
use agent_chun_su.Telegram.Send.{message_units, max_reply_units}

-- platform.ProcessIdentity: a process and when it was started.
pub record Identity : Type 0 where
  pub pid : ℕ
  pub start : String

pub record Health : Type 0 where
  pub version : ℕ
  pub identity : Identity
  pub at : ℕ
  pub started_at : ℕ
  pub state : String
  pub poll : String
  pub last_poll_at : ℕ
  pub last_message_at : ℕ
  pub last_reply_at : ℕ
  pub active_update : ℕ
  pub session_id : String
  pub ai_blocked : Bool
  pub unpersisted_errors : ℕ

-- The limits of the configuration, in seconds.
pub record Patience : Type 0 where
  pub poll_seconds : ℕ
  pub lock_wait_seconds : ℕ

-- PollSeconds and HTTPGraceSeconds of client.go; a request has their sum.
abbrev pub poll_timeout : ℕ
poll_timeout = 20

abbrev pub http_grace : ℕ
http_grace = 10

abbrev pub missed_intervals : ℕ
missed_intervals = 3

abbrev pub larger : ℕ → ℕ → ℕ
larger a b = if ltb a b then b else a

abbrev pub health_interval : Patience → ℕ
health_interval p = larger p.poll_seconds http_grace * second

-- How long the client waits for the answer to a request, in nanoseconds.
abbrev pub request_timeout : ℕ
request_timeout = (poll_timeout + http_grace) * second

-- The requests that the lease has time for.
abbrev pub leased_requests : ℕ
leased_requests = max_reply_units / message_units + 1

abbrev pub io_budget : Patience → ℕ
io_budget p = ((poll_timeout + http_grace) * leased_requests + p.lock_wait_seconds * 4) * second

unfoldable pub stall_timeout : Patience → ℕ
stall_timeout p = larger (io_budget p) (health_interval p * missed_intervals)

unfoldable lifecycle_budget : Patience → ℕ
unfolding stall_timeout
lifecycle_budget p = larger ((p.lock_wait_seconds + http_grace) * second) (stall_timeout p)

abbrev pub stamped : ℕ → Health → Health
stamped now h = record h { version = 1; at = now }

-- WriteHealth, where the file can be written.
unfoldable pub write_health : ℕ → Health → Option Health → Option Health
write_health now h file = some (stamped now h)

abbrev pub same_identity : Identity → Option Identity → Bool
same_identity i none = false
same_identity i (some j) = i.pid == j.pid && str_eq i.start j.start

abbrev pub is_alive : (ℕ → Option Identity) → ℕ → Patience → Health → Bool
is_alive identify now p h =
    same_identity h.identity (identify h.identity.pid)
    && leb h.at now
    && ltb (now - h.at) (stall_timeout p)
    && not (str_eq h.state "stopped")

-- ReadHealth, where the file that is there decodes; platform.Identify is an argument.
unfoldable pub read_health :
    (ℕ → Option Identity) → ℕ → Patience → Option Health → Result (Option Health × Bool)
unfolding stall_timeout
read_health identify now p none = ok (none, false)
read_health identify now p (some h) =
    if not (h.version == 1) || leb h.identity.pid 1 || str_eq h.identity.start ""
    then err (message "invalid chat health identity")
    else ok (some h, is_alive identify now p h)
