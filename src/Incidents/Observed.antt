-- ===== src/Incidents/Observed.antt =====
-- The operations on incidents leave the observations as they are.

use agent_chun_su.Base.{
  ◌≡◌, ◌∙◌, refl, ap, inl, inr, List, [], ◌∷◌, ◌++◌, String, arith, str_eq, Bool-cases,
  Option-cases,
}
use agent_chun_su.Table.{find_where}
use agent_chun_su.Store.Model.{ok}
use agent_chun_su.Store.Txn.{Result-cases}
use agent_chun_su.Incidents.{
  Tools, Json, Risk, Observation, Assessment, IncidentChange, State, has_id, risk_fingerprint,
}
use agent_chun_su.Incidents.Evidenced.{one_of}
use agent_chun_su.Incidents.Notices.{review_notifications}
use agent_chun_su.Incidents.Assessed.{
  target, raise, settle, apply_risks, apply_assessment, check_assessment,
}
use agent_chun_su.Incidents.Changes.{
  check_policy, changed, reported, apply_incident_change, Action, policy_set, assessment_apply,
  incident_change, notification_review, act,
}

abbrev seen_by : State → List Observation
seen_by st = st.observations

settle-observations :
    (t : Tools) (j : Json) (a : Assessment) (at : String) (r : Risk) (found : String × String)
    (st : State)
    → (settle t j a at r found st).observations ≡ st.observations
unfolding settle raise
settle-observations t j a at r found st =
    elim (Option-cases (find_where (has_id found.0) st.incidents)) [
      | inl gone ↦ rw (gone, settle) refl
      | inr (i, there) ↦ elim (Bool-cases (str_eq i.fingerprint (risk_fingerprint t j r))) [
        | inr other ↦ rw (there, settle, other) refl
        | inl same ↦ elim (Bool-cases (str_eq (j.json_risk i.risk) (j.json_risk r))) [
          | inl e ↦ rw (there, settle, same, e) refl
          | inr e ↦ rw (there, settle, same, e) refl
        ]
      ]
    ]

apply_risks-observations :
    (t : Tools) (j : Json) (a : Assessment) (at : String) (seen : List String) (rs : List Risk)
    (st st' : State)
    → apply_risks t j a at seen rs st ≡ ok st'
    → st'.observations ≡ st.observations
unfolding apply_risks
apply_risks-observations t j a at seen [] st st' h =
    let same : st' ≡ st = ground arith in ap seen_by same
apply_risks-observations t j a at seen (r ∷ rs) st st' h = elim (Result-cases (target t r st)) [
  | inr (e, bad) ↦ absurd (ground arith)
  | inl (found, good) ↦ elim (Bool-cases (one_of found.0 seen)) [
    | inl twice ↦ absurd (ground arith)
    | inr once ↦
        apply_risks-observations t j a at (found.0 ∷ seen) rs (settle t j a at r found st) st'
          (ground arith)
        ∙ settle-observations t j a at r found st
  ]
]

apply_assessment-observations :
    (t : Tools) (j : Json) (a : Assessment) (at : String) (st st' : State)
    → apply_assessment t j a at st ≡ ok st'
    → st'.observations ≡ st.observations
unfolding apply_assessment
apply_assessment-observations t j a at st st' h = elim (Result-cases (check_assessment a st)) [
  | inr (e, bad) ↦ absurd (ground arith)
  | inl (u, good) ↦ elim (Result-cases (apply_risks t j a at [] a.report.risks st)) [
    | inr (e, bad) ↦ absurd (ground arith)
    | inl (next, done) ↦
        let same : st' ≡ record next { assessments = next.assessments ++ (a ∷ []) } =
          ground arith in
        ap seen_by same ∙ apply_risks-observations t j a at [] a.report.risks st next done
  ]
]

apply_incident_change-observations :
    (t : Tools) (id actor : String) (c : IncidentChange) (at : String) (st st' : State)
    → apply_incident_change t id actor c at st ≡ ok st'
    → st'.observations ≡ st.observations
unfolding apply_incident_change reported
apply_incident_change-observations t id actor c at st st' h =
    elim (Option-cases (find_where (has_id id) st.incidents)) [
      | inl gone ↦ absurd (ground arith)
      | inr (i, there) ↦ elim (Result-cases (changed t st.observations c actor at i)) [
        | inr (e, bad) ↦ absurd (ground arith)
        | inl (new, good) ↦
            let same : st' ≡ reported t c at new st = ground arith in ap seen_by same
      ]
    ]

pub act-observations :
    (t : Tools) (j : Json) (a : Action) (at : String) (st st' : State)
    → act t j a at st ≡ ok st'
    → st'.observations ≡ st.observations
unfolding act
act-observations t j (policy_set p) at st st' h = elim (Result-cases (check_policy t p)) [
  | inr (e, bad) ↦ absurd (ground arith)
  | inl (u, good) ↦ (let same : st' ≡ record st { policy = p } = ground arith in ap seen_by same)
]
act-observations t j (assessment_apply a) at st st' h =
    apply_assessment-observations t j a at st st' h
act-observations t j (incident_change id actor c) at st st' h =
    apply_incident_change-observations t id actor c at st st' h
act-observations t j notification_review at st st' h =
    let same : st' ≡ record st {
      notifications =
          review_notifications t j st.policy st.revision at st.incidents st.notifications;
    } =
      ground arith in
    ap seen_by same
