-- ===== src/Incidents/Assessed.antt =====
-- applyAssessment of internal/ops/incidents.go. The code changes the state in place and its caller drops
-- it on an error; here an operation returns the new state or the error.

use Prim.Native.String.{◌++◌ as join}
use agent_chun_su.Base.{
  List, [], ◌∷◌, ◌++◌, String, none, some, ◌==◌, ◌||◌, str_eq, not, if◌then◌else◌,
}
use agent_chun_su.Table.{exists, find_where}
use agent_chun_su.Store.Model.{Result, ok, message}
use agent_chun_su.Store.Txn.{◌>>=◌, ◌>>◌, refuse_if, or_fail}
use agent_chun_su.Incidents.{
  Tools, Json, Risk, Incident, empty, next_revision, incident_key, risk_fingerprint, is_resolved,
  has_id, Assessment, State, put,
}
use agent_chun_su.Incidents.Notices.{plan_notification}
use agent_chun_su.Incidents.Evidenced.{valid_id, valid_digest, one_of}

-- The fields that a judgment of an assessment sets.
unfoldable pub judged : Assessment → String → Risk → Incident → Incident
unfolding next_revision
judged a at r i = record i {
  revision = next_revision i.revision;
  risk = r;
  assessment_job_id = a.job_id;
  assessment_artifact = a.artifact;
  updated_at = at;
}

unfoldable pub new_incident : String → String → String → Risk → Incident
new_incident id key at r = record {
  id = id;
  key = key;
  revision = 0;
  state = "open";
  risk = r;
  fingerprint = "";
  assessment_job_id = "";
  assessment_artifact = record { id = ""; digest = "" };
  acknowledged_by = "";
  acknowledged_at = "";
  snoozed_until = "";
  resolution_evidence = [];
  created_at = at;
  updated_at = "";
}

unfoldable pub reopened : Incident → Incident
reopened i =
    if is_resolved i
    then record i { state = "open"; acknowledged_at = ""; acknowledged_by = "" }
    else i

-- The incident with its new judgment.
unfoldable pub renewed : Tools → Json → Assessment → String → Risk → Incident → Incident
unfolding reopened judged risk_fingerprint
renewed t j a at r i = record (judged a at r (reopened i)) { fingerprint = risk_fingerprint t j r }

-- The renewed incident is kept, with the preview of its notification.
unfoldable pub raise : Tools → Json → Assessment → String → Risk → String → Incident → State → State
unfolding renewed put plan_notification
raise t j a at r previous i st =
    let new = renewed t j a at r i in
    record st {
      incidents = put new st.incidents;
      notifications = plan_notification t st.policy new previous at none st.notifications;
    }

-- The incident that a risk names, or the one that its key stands for.
unfoldable pub target : Tools → Risk → State → Result (String × String)
unfolding incident_key find_where
target t r st =
    if empty r.incident_id
    then ok (t.digest (join st.scope (join "|" (incident_key t r))), incident_key t r)
    else (or_fail (find_where (has_id r.incident_id) st.incidents)
          (message "incident linking proposal conflicts with the existing incident target")
        >>= λ (prior : Incident).
            refuse_if
              (not (str_eq prior.risk.kind r.kind)
                || not (str_eq prior.risk.work_id r.work_id)
                || not (str_eq prior.risk.release_id r.release_id))
              (message "incident linking proposal conflicts with the existing incident target")
            >> ok (prior.id, prior.key))

-- The incident under the id, changed or made.
unfoldable pub settle : Tools → Json → Assessment → String → Risk → String × String → State → State
unfolding find_where risk_fingerprint judged put raise new_incident
settle t j a at r found st = elim (find_where (has_id found.0) st.incidents) [
  | none ↦ raise t j a at r "" (new_incident found.0 found.1 at r) st
  | some i ↦
      if str_eq i.fingerprint (risk_fingerprint t j r)
      then (if str_eq (j.json_risk i.risk) (j.json_risk r)
          then st
          else record st { incidents = put (judged a at r i) st.incidents })
      else raise t j a at r i.risk.severity i st
]

-- The loop over the risks, with the ids that it has seen.
unfoldable pub apply_risks :
    Tools → Json → Assessment → String → List String → List Risk → State → Result State
unfolding target settle one_of
apply_risks t j a at seen [] st = ok st
apply_risks t j a at seen (r ∷ rs) st = target t r st >>= λ found.
    refuse_if (one_of found.0 seen)
      (message "assessment contains duplicate risks for the same effective incident identity")
    >> apply_risks t j a at (found.0 ∷ seen) rs (settle t j a at r found st)

unfoldable pub check_assessment : Assessment → State → Result (Unit {0})
unfolding valid_id valid_digest exists
check_assessment a st = do
  refuse_if
      (not (valid_id a.job_id)
        || not (valid_id a.artifact.id)
        || not (valid_digest a.artifact.digest)
        || not (valid_digest a.input_digest)
        || not (valid_digest a.bundle_digest)
        || not (a.ledger_revision == st.revision)
        || not (a.report.ledger_revision == st.revision)
        || not (str_eq a.report.scope st.scope))
      (message "assessment is stale or lacks pinned job, input, artifact and Skill provenance")
  refuse_if (exists (λ (b : Assessment). str_eq b.job_id a.job_id) st.assessments)
      (message "this assessment job was already reconciled; inspect its receipt")

unfoldable pub apply_assessment : Tools → Json → Assessment → String → State → Result State
unfolding check_assessment apply_risks
apply_assessment t j a at st = do
  check_assessment a st
  next ← apply_risks t j a at [] a.report.risks st
  ok (record next { assessments = next.assessments ++ (a ∷ []) })
