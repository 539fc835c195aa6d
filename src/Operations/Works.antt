-- ===== src/Operations/Works.antt =====
-- The branches of apply in internal/ops/commands.go for work items.
pub mod Kept
use agent_chun_su.Base.{
  ℕ, Bool, true, false, List, [], ◌∷◌, ◌++◌, String, Option, none, some, ◌&&◌, ◌||◌, str_eq, not,
  if◌then◌else◌,
}
use agent_chun_su.Table.{exists}
use agent_chun_su.Store.Model.{Result, ok, message}
use agent_chun_su.Store.Txn.{◌>>=◌, ◌>>◌, refuse_if}
use agent_chun_su.Incidents.{Tools, Evidence, Observation, empty, next_revision}
use agent_chun_su.Incidents.Evidenced.{one_of, nonempty, validate_evidence}
use agent_chun_su.Ledger.{Command, identifier}
use agent_chun_su.Operations.{WaitDetail, WorkItem, is_timestamp, has_key, store, work_key}

pub record WorkCreate : Type 0 where
  pub title : String
  pub owner : String
  pub completion_criteria : String
  pub due : String
  pub evidence : List Evidence

pub record WorkTransition : Type 0 where
  pub state : String
  pub wait : Option WaitDetail
  pub evidence : List Evidence

pub record Reschedule : Type 0 where
  pub due : String

abbrev pub new_work : String → WorkCreate → String → WorkItem
new_work id c at = record {
  id = id;
  title = c.title;
  owner = c.owner;
  completion_criteria = c.completion_criteria;
  state = "ready";
  original_due = c.due;
  current_due = c.due;
  schedule_revisions = [];
  wait = none;
  evidence = c.evidence;
  completed_at = "";
  created_at = at;
  updated_at = at;
}

unfoldable pub check_create : Tools → String → WorkCreate → List WorkItem → Result (Unit {0})
unfolding identifier nonempty is_timestamp exists
check_create t id c items = do
  refuse_if
      (not (identifier id)
        || not (nonempty t c.title)
        || not (nonempty t c.owner)
        || not (nonempty t c.completion_criteria)
        || (not (empty c.due) && not (is_timestamp t c.due)))
      (message
        "work creation needs ID, title, owner, completion criteria and an optional RFC3339 due time")
  refuse_if (exists (has_key work_key id) items) (message "work item already exists")

unfoldable pub create_work :
    Tools → List Observation → String → String → WorkCreate → List WorkItem → Result (List WorkItem)
unfolding check_create validate_evidence store
create_work t observations id at c items = do
  check_create t id c items
  validate_evidence t observations c.evidence false
  ok (store work_key (new_work id c at) items)

unfoldable pub wait_ok : Tools → Option WaitDetail → Bool
unfolding nonempty is_timestamp
wait_ok t none = false
wait_ok t (some w) =
    nonempty t w.reason && nonempty t w.responsible && is_timestamp t w.next_check_at

abbrev pub is_there {ℓ} : {A : Type ℓ} → Option A → Bool
is_there none = false
is_there (some a) = true

abbrev pub moved_work : WorkTransition → String → WorkItem → WorkItem
moved_work c at w = record w {
  state = c.state;
  wait = c.wait;
  updated_at = at;
  evidence = w.evidence ++ c.evidence;
  completed_at = if str_eq c.state "completed" then at else "";
}

-- The checks on the states, before those on the evidence.
unfoldable pub check_transition : Tools → WorkTransition → WorkItem → Result (Unit {0})
unfolding one_of wait_ok
check_transition t c w = do
  refuse_if
      (not (one_of c.state ("ready" ∷ "inprogress" ∷ "waiting" ∷ "completed" ∷ "cancelled" ∷ []))
        || str_eq c.state w.state)
      (message "invalid or unchanged work state")
  refuse_if
      (one_of w.state ("completed" ∷ "cancelled" ∷ [])
        && not (one_of c.state ("ready" ∷ "inprogress" ∷ [])))
      (message "closed work can only be explicitly reopened to ready or inprogress")
  refuse_if (str_eq c.state "waiting" && not (wait_ok t c.wait))
      (message "waiting needs a reason, responsible person and RFC3339 next check")
  refuse_if (not (str_eq c.state "waiting") && is_there c.wait)
      (message "wait details belong only to waiting work")

unfoldable pub transition :
    Tools → List Observation → WorkTransition → String → WorkItem → Result WorkItem
unfolding check_transition validate_evidence
transition t observations c at w = do
  check_transition t c w
  validate_evidence t observations c.evidence (str_eq c.state "completed")
  ok (moved_work c at w)

abbrev pub postponed : String → String → String → ℕ → String → WorkItem → WorkItem
unfolding next_revision
postponed due reason actor revision at w = record w {
  schedule_revisions =
      w.schedule_revisions
      ++ (record {
        previous_due = w.current_due;
        due = due;
        reason = reason;
        actor = actor;
        at = at;
        ledger_revision = next_revision revision;
      }
          ∷ []);
  current_due = due;
  updated_at = at;
}

unfoldable pub reschedule : Tools → Reschedule → Command → ℕ → String → WorkItem → Result WorkItem
unfolding is_timestamp postponed
reschedule t c x revision at w = do
  refuse_if (not (is_timestamp t c.due) || str_eq c.due w.current_due)
      (message "reschedule needs a changed RFC3339 due time")
  ok (postponed c.due x.reason x.actor revision at w)
