-- ===== src/Incidents/Changes.antt =====
-- applyIncidentChange of internal/ops/incidents.go, Policy.Validate, and the branches of apply in
-- internal/ops/commands.go that reach incidents and notifications, as execute of ledger.go runs them: an
-- error leaves the state as it is, and a command that succeeds takes the next revision.

use agent_chun_su.Base.{
  ℕ, Bool, true, false, List, [], ◌∷◌, ◌++◌, String, none, some, ◌+◌, ◌==◌, ◌&&◌, ◌||◌, leb, ltb,
  str_eq, not, if◌then◌else◌,
}
use agent_chun_su.Table.{exists, find_where, length}
use agent_chun_su.Store.Model.{Result, ok, err, message}
use agent_chun_su.Store.Txn.{◌>>=◌, ◌>>◌, refuse_if, or_fail}
use agent_chun_su.Incidents.{
  Tools, Json, Policy, SeverityRule, Incident, instant, empty, next_revision, is_resolved, has_id,
  Observation, Assessment, IncidentChange, State, put,
}
use agent_chun_su.Incidents.Notices.{plan_notification, review_notifications}
use agent_chun_su.Incidents.Evidenced.{one_of, nonempty, validate_evidence}
use agent_chun_su.Incidents.Assessed.{apply_assessment}

abbrev not_snooze : String → Bool
not_snooze s = not (str_eq s "snoozed")

unfoldable pub check_action : IncidentChange → Incident → Result (Unit {0})
unfolding one_of
check_action c i = do
  refuse_if
      (not (one_of c.state ("acknowledged" ∷ "responding" ∷ "resolved" ∷ "open" ∷ "snoozed" ∷ [])))
      (message "incident action must acknowledge, respond, resolve, reopen or snooze")
  refuse_if (str_eq c.state "open" && not (is_resolved i))
      (message "only a resolved incident can be explicitly reopened")
  refuse_if (is_resolved i && not (str_eq c.state "open"))
      (message "resolved incident must be explicitly reopened before another action")

-- The branch of the snooze.
unfoldable pub snooze : Tools → IncidentChange → String → Incident → Result Incident
unfolding instant
snooze t c at i = do
  until ← or_fail (t.parse c.snoozed_until) (message "snooze needs a bounded RFC3339 expiry")
  refuse_if (not (ltb (instant t at) until)) (message "snooze expiry must be in the future")
  ok (record i { snoozed_until = c.snoozed_until })

abbrev acknowledge : IncidentChange → String → String → Incident → Incident
acknowledge c actor at i =
    if str_eq c.state "acknowledged" || str_eq c.state "responding"
    then record i { acknowledged_by = actor; acknowledged_at = at }
    else i

abbrev resolve : IncidentChange → Incident → Incident
resolve c i =
    if str_eq c.state "resolved"
    then record i { resolution_evidence = i.resolution_evidence ++ c.evidence }
    else i

abbrev clear : IncidentChange → Incident → Incident
clear c i =
    if str_eq c.state "open"
    then record i { acknowledged_at = ""; acknowledged_by = ""; snoozed_until = "" }
    else i

abbrev pub moved : IncidentChange → String → String → Incident → Incident
moved c actor at i = clear c (resolve c (acknowledge c actor at (record i { state = c.state })))

-- The branch of the other actions.
unfoldable pub move :
    Tools → List Observation → IncidentChange → String → String → Incident → Result Incident
unfolding validate_evidence
move t observations c actor at i = do
  refuse_if (not (empty c.snoozed_until)) (message "snooze expiry belongs only to snooze action")
  validate_evidence t observations c.evidence (str_eq c.state "resolved")
  ok (moved c actor at i)

abbrev pub stamp : String → Incident → Incident
unfolding next_revision
stamp at i = record i { revision = next_revision i.revision; updated_at = at }

unfoldable pub changed :
    Tools → List Observation → IncidentChange → String → String → Incident → Result Incident
unfolding check_action snooze move next_revision
changed t observations c actor at i =
    (check_action c i
      >> (if str_eq c.state "snoozed" then snooze t c at i else move t observations c actor at i))
    >>= λ (i : Incident). ok (stamp at i)

-- The changed incident is kept, with a preview where it was reopened.
unfoldable pub reported : Tools → IncidentChange → String → Incident → State → State
unfolding put plan_notification
reported t c at i st = record st {
  incidents = put i st.incidents;
  notifications =
      if str_eq c.state "open"
      then plan_notification t st.policy i "" at none st.notifications
      else st.notifications;
}

unfoldable pub apply_incident_change :
    Tools → String → String → IncidentChange → String → State → Result State
unfolding find_where changed reported
apply_incident_change t id actor c at st = do
  i ← or_fail (find_where (has_id id) st.incidents) (message "incident does not exist")
  new ← changed t st.observations c actor at i
  ok (reported t c at new st)

-- validDuration, of a number that is not below 0: config.MaxDurationSeconds.
abbrev valid_duration : ℕ → Bool
valid_duration n = leb n 9223372036

unfoldable distinct_labels : Tools → List String → List String → Bool
unfolding nonempty one_of
distinct_labels t seen [] = true
distinct_labels t seen (r ∷ rs) =
    nonempty t r && not (one_of r seen) && distinct_labels t (r ∷ seen) rs

unfoldable valid_rule : Tools → SeverityRule → Bool
unfolding one_of distinct_labels
valid_rule t r =
    one_of r.mode ("immediate" ∷ "digest" ∷ "none" ∷ [])
    && valid_duration r.cooldown_seconds
    && valid_duration r.acknowledgment_seconds
    && distinct_labels t [] r.recipients

-- The rule of the severity is there and valid. Which of its two errors an invalid rule gives is left
-- out.
unfoldable has_rule : Tools → List (String × SeverityRule) → String → Bool
unfolding exists find_where valid_rule
has_rule t rules severity =
    elim (find_where (λ (r : String × SeverityRule). str_eq r.0 severity) rules) [
      | none ↦ false
      | some r ↦ valid_rule t r.1
    ]

unfoldable pub check_policy : Tools → Policy → Result (Unit {0})
unfolding has_rule
check_policy t p = do
  refuse_if
      (not (p.version == 1)
        || not (length p.rules == 4)
        || not (valid_duration p.source_freshness_seconds))
      (message "OPS policy needs version 1, P0..P3 rules and bounded explicit durations")
  refuse_if
      (not (
        has_rule t p.rules "P0"
        && has_rule t p.rules "P1"
        && has_rule t p.rules "P2"
        && has_rule t p.rules "P3"))
      (message "the rule of a severity is missing or invalid")

-- The actions of a command, decoded.
pub data Action : Type 0 where
  policy_set : Policy → Action
  assessment_apply : Assessment → Action
  incident_change : String → String → IncidentChange → Action
  notification_review : Action

unfoldable pub act : Tools → Json → Action → String → State → Result State
unfolding check_policy apply_assessment apply_incident_change review_notifications
act t j (policy_set p) at st = check_policy t p >> ok (record st { policy = p })
act t j (assessment_apply a) at st = apply_assessment t j a at st
act t j (incident_change id actor c) at st = apply_incident_change t id actor c at st
act t j notification_review at st = ok (record st {
  notifications = review_notifications t j st.policy st.revision at st.incidents st.notifications;
})

-- math.MaxInt64.
abbrev max_revision : ℕ
max_revision = 9223372036854775807

unfoldable pub checked_act : Tools → Json → Action → String → State → Result State
unfolding act
checked_act t j a at st = do
  refuse_if (st.revision == max_revision) (message "OPS revision capacity exhausted")
  refuse_if (st.revision == 0) (message "OPS scope is not initialized")
  act t j a at st

unfoldable pub perform : Tools → Json → Action → String → State → State
unfolding checked_act
perform t j a at st = elim (checked_act t j a at st) [
  | ok next ↦ record next { revision = next.revision + 1 }
  | err e ↦ st
]

unfoldable pub perform_all : Tools → Json → List (Action × String) → State → State
unfolding perform
perform_all t j [] st = st
perform_all t j ((a, at) ∷ actions) st = perform_all t j actions (perform t j a at st)
