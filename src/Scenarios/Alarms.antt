-- ===== src/Scenarios/Alarms.antt =====
-- Incidents and previews at concrete inputs: an assessment raises an incident, and its owner resolves it.
use agent_chun_su.Base.{ℕ, ◌≡◌, ◌↔◌, refl, true, List, [], ◌∷◌, ◌++◌, map, String, none, some}
use agent_chun_su.Table.{All}
use agent_chun_su.Incidents.{
  Tools, Json, Risk, Policy, SeverityRule, Evidence, Incident, Notification, NoticeStatus,
  Assessment, State,
}
use agent_chun_su.Incidents.Notices.{is_planned, new_plan}
use agent_chun_su.Incidents.Notices.Planned.{Entitled, OwnKeys}
use agent_chun_su.Incidents.Notices.Decided.{IsDue, new_plan-planned_iff}
use agent_chun_su.Incidents.Changes.{
  Action, assessment_apply, incident_change, notification_review, perform_all,
}
use agent_chun_su.Incidents.Previews.{perform_all-Entitled}
use Prim.Native.String.{len}

abbrev pub tools : Tools
tools = record {
  parse = λ s. some (len s);
  format = λ n. "later";
  digest = λ s. s;
  trim_space = λ s. s;
  decimal = λ n. if_one n;
  json_texts = λ ss. "[]";
}
  where
    if_one : ℕ → String
    if_one n = "n"

abbrev pub json : Json
json = record {
  json_risk = λ r. r.title;
  json_policy = λ p. "policy";
  json_source = λ s. s.id;
  json_basis = λ b. b.0;
}

abbrev rule : List String → SeverityRule
rule people = record {
  mode = "immediate";
  recipients = people;
  cooldown_seconds = 60;
  acknowledgment_seconds = 0;
}

abbrev policy : Policy
policy = record {
  version = 1;
  rules =
      ("P0", rule ("ann" ∷ []))
      ∷ ("P1", rule ("bob" ∷ []))
      ∷ ("P2", rule [])
      ∷ ("P3", rule [])
      ∷ [];
  source_freshness_seconds = 0;
  p0_bypasses_snooze = true;
}

abbrev late_release : Risk
late_release = record {
  key = "late";
  kind = "delay";
  work_id = "";
  release_id = "r1";
  incident_id = "";
  severity = "P1";
  confidence = "high";
  title = "The release is late";
  impact = "";
  rationale = "";
  recommended_action = "";
  owner = "bob";
  citations = [];
  uncertainties = [];
}

abbrev sha : String
sha = "0123456789abcdef0123456789abcdef0123456789abcdef0123456789abcdef"

abbrev assessment : Assessment
assessment = record {
  job_id = "job-0000000000001";
  artifact = record { id = "artifact-0000000001"; digest = sha };
  input_digest = sha;
  ledger_revision = 1;
  bundle_digest = sha;
  report = record { scope = "ops:team"; ledger_revision = 1; risks = late_release ∷ [] };
}

abbrev start : State
start = record {
  scope = "ops:team";
  revision = 1;
  policy = policy;
  observations = [];
  incidents = [];
  notifications = [];
  assessments = [];
}

abbrev confirmation : Evidence
confirmation = record {
  observation_id = "";
  source_id = "";
  span_ids = [];
  statement = "shipped";
  uri = "";
}

abbrev actions : List (Action × String)
actions =
    (assessment_apply assessment, "09:00")
    ∷ (
      incident_change "ops:team|delay||r1" "bob"
          (record { state = "resolved"; snoozed_until = ""; evidence = confirmation ∷ [] }),
      "10:00",
    )
    ∷ (notification_review, "11:00")
    ∷ []

abbrev after : State
unfolding perform_all
after = perform_all tools json actions start

-- The incident is resolved, and its one preview was planned.
after-states :
    (map (λ (i : Incident). i.state) after.incidents ≡ ("resolved" ∷ []))
    × (map (λ (n : Notification). n.status) after.notifications
        ≡ (NoticeStatus.shadow_planned ∷ []))
unfolding after
after-states = (refl, refl)

perform_all-Entitled_example :
    OwnKeys (perform_all tools json actions start).notifications
    × ((more : List Notification) × ((perform_all tools json actions start).notifications
          ≡ [] ++ more)
        × All Entitled more)
unfolding OwnKeys
perform_all-Entitled_example = perform_all-Entitled tools json actions start tt

abbrev delayed : Incident
delayed = record {
  id = "i1";
  key = "delay||r1";
  revision = 1;
  state = "open";
  risk = late_release;
  fingerprint = "f";
  assessment_job_id = "job-0000000000001";
  assessment_artifact = assessment.artifact;
  acknowledged_by = "";
  acknowledged_at = "";
  snoozed_until = "";
  resolution_evidence = [];
  created_at = "09:00";
  updated_at = "09:00";
}

new_plan-planned_iff_example :
    (is_planned (new_plan tools policy delayed "" "10:00" none after.notifications).status ≡ true)
    ↔ IsDue tools policy delayed "" "10:00" after.notifications
new_plan-planned_iff_example =
    new_plan-planned_iff tools policy delayed "" "10:00" none after.notifications
