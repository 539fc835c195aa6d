-- ===== src/Telegram/Health/Alive.antt =====
-- A receiver that is at work is seen as alive.
use agent_chun_su.Base.{
  ℕ, ◌+◌, ◌*◌, ◌≤◌, ◌≡◌, refl, Option, some, true, false, List, arith, str_eq, eq_iff,
}
use agent_chun_su.Table.{length}
use agent_chun_su.Store.Model.{ok}
use agent_chun_su.Telegram.{second}
use agent_chun_su.Telegram.Send.Whole.{messages, length-messages}
use agent_chun_su.Telegram.Health.{
  Identity, Health, Patience, request_timeout, stall_timeout, stamped, write_health, read_health,
}

send-fits :
    (p : Patience) (us : List ℕ)
    → length (messages us) * request_timeout + p.lock_wait_seconds * 4 * second ≤ stall_timeout p
unfolding stall_timeout
send-fits p us = ground (arith, length-messages us)

-- From a heartbeat on, for as long as the requests of a Send of any reply and four waits for a lock may
-- take, ReadHealth finds the heartbeat and counts the receiver as alive, where its process is the
-- recorded one and it has not stopped.
read_health-write_health :
    (identify : ℕ → Option Identity) (now spent : ℕ) (p : Patience) (h : Health)
    (file : Option Health) (us : List ℕ)
    → identify h.identity.pid ≡ some h.identity
    → 2 ≤ h.identity.pid
    → str_eq h.identity.start "" ≡ false
    → str_eq h.state "stopped" ≡ false
    → spent + 1 ≤ length (messages us) * request_timeout + p.lock_wait_seconds * 4 * second
    → read_health identify (now + spent) p (write_health now h file)
      ≡ ok (some (stamped now h), true)
unfolding read_health write_health
read_health-write_health identify now spent p h file us same real started runs soon =
    rw (same, started, runs, (eq_iff h.identity.start h.identity.start).1 refl)
      (ground (arith, send-fits p us))
