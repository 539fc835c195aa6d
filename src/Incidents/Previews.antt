-- ===== src/Incidents/Previews.antt =====
-- What the previews of notifications are after any commands.

use agent_chun_su.Base.{
  ◌≡◌, subst, inl, inr, List, [], ◌∷◌, ◌++◌, String, none, arith, str_eq, Option-cases, Bool-cases,
}
use agent_chun_su.Table.{All, find_where}
use agent_chun_su.Store.Model.{ok}
use agent_chun_su.Store.Txn.{Result-cases}
use agent_chun_su.Incidents.{
  Tools, Json, Risk, Incident, Notification, Assessment, IncidentChange, State, has_id,
  risk_fingerprint,
}
use agent_chun_su.Incidents.Notices.{review_notifications}
use agent_chun_su.Incidents.Notices.Planned.{
  Entitled, Grows, kept, Grows-trans, OwnKeys, Grows-OwnKeys, Grows-more, Grows-if,
  plan_notification-Grows, review_notifications-Grows,
}
use agent_chun_su.Incidents.Assessed.{
  target, renewed, raise, new_incident, settle, apply_risks, apply_assessment, check_assessment,
}
use agent_chun_su.Incidents.Evidenced.{one_of}
use agent_chun_su.Incidents.Changes.{
  check_policy, changed, reported, apply_incident_change, Action, policy_set, assessment_apply,
  incident_change, notification_review, act, checked_act, perform, perform_all,
}

raise-Grows :
    (t : Tools) (j : Json) (a : Assessment) (at : String) (r : Risk) (previous : String)
    (i : Incident) (st : State)
    → Grows st.notifications (raise t j a at r previous i st).notifications
unfolding raise
raise-Grows t j a at r previous i st =
    plan_notification-Grows t st.policy (renewed t j a at r i) previous at none st.notifications

settle-Grows :
    (t : Tools) (j : Json) (a : Assessment) (at : String) (r : Risk) (found : String × String)
    (st : State)
    → Grows st.notifications (settle t j a at r found st).notifications
unfolding settle
settle-Grows t j a at r found st = elim (Option-cases (find_where (has_id found.0) st.incidents)) [
  | inl gone ↦ rw (gone, settle) (raise-Grows t j a at r "" (new_incident found.0 found.1 at r) st)
  | inr (i, there) ↦ elim (Bool-cases (str_eq i.fingerprint (risk_fingerprint t j r))) [
    | inr other ↦ rw (there, settle, other) (raise-Grows t j a at r i.risk.severity i st)
    | inl same ↦ elim (Bool-cases (str_eq (j.json_risk i.risk) (j.json_risk r))) [
      | inl e ↦ rw (there, settle, same, e) kept
      | inr e ↦ rw (there, settle, same, e) kept
    ]
  ]
]

apply_risks-Grows :
    (t : Tools) (j : Json) (a : Assessment) (at : String) (seen : List String) (rs : List Risk)
    (st st' : State)
    → apply_risks t j a at seen rs st ≡ ok st'
    → Grows st.notifications st'.notifications
unfolding apply_risks
apply_risks-Grows t j a at seen [] st st' h =
    let same : st ≡ st' = ground arith in
    subst (λ (s : State). Grows st.notifications s.notifications) same kept
apply_risks-Grows t j a at seen (r ∷ rs) st st' h = elim (Result-cases (target t r st)) [
  | inr (e, bad) ↦ absurd (ground arith)
  | inl (found, good) ↦ elim (Bool-cases (one_of found.0 seen)) [
    | inl twice ↦ absurd (ground arith)
    | inr once ↦
        Grows-trans st.notifications (settle t j a at r found st).notifications st'.notifications
          (settle-Grows t j a at r found st)
          (apply_risks-Grows t j a at (found.0 ∷ seen) rs (settle t j a at r found st) st'
            (ground arith))
  ]
]

apply_assessment-Grows :
    (t : Tools) (j : Json) (a : Assessment) (at : String) (st st' : State)
    → apply_assessment t j a at st ≡ ok st'
    → Grows st.notifications st'.notifications
unfolding apply_assessment
apply_assessment-Grows t j a at st st' h = elim (Result-cases (check_assessment a st)) [
  | inr (e, bad) ↦ absurd (ground arith)
  | inl (u, good) ↦ elim (Result-cases (apply_risks t j a at [] a.report.risks st)) [
    | inr (e, bad) ↦ absurd (ground arith)
    | inl (next, done) ↦
        let same : record next { assessments = next.assessments ++ (a ∷ []) } ≡ st' =
          ground arith in
        subst (λ (s : State). Grows st.notifications s.notifications) same
          (apply_risks-Grows t j a at [] a.report.risks st next done)
  ]
]

apply_incident_change-Grows :
    (t : Tools) (id actor : String) (c : IncidentChange) (at : String) (st st' : State)
    → apply_incident_change t id actor c at st ≡ ok st'
    → Grows st.notifications st'.notifications
unfolding apply_incident_change reported
apply_incident_change-Grows t id actor c at st st' h =
    elim (Option-cases (find_where (has_id id) st.incidents)) [
      | inl gone ↦ absurd (ground arith)
      | inr (i, there) ↦ elim (Result-cases (changed t st.observations c actor at i)) [
        | inr (e, bad) ↦ absurd (ground arith)
        | inl (new, good) ↦
            let same : reported t c at new st ≡ st' = ground arith in
            subst (λ (s : State). Grows st.notifications s.notifications) same
              (Grows-if (str_eq c.state "open") st.notifications _ st.notifications
                (plan_notification-Grows t st.policy new "" at none st.notifications) kept)
      ]
    ]

pub act-Grows :
    (t : Tools) (j : Json) (a : Action) (at : String) (st st' : State)
    → act t j a at st ≡ ok st'
    → Grows st.notifications st'.notifications
unfolding act
act-Grows t j (policy_set p) at st st' h = elim (Result-cases (check_policy t p)) [
  | inr (e, bad) ↦ absurd (ground arith)
  | inl (u, good) ↦
      let same : record st { policy = p } ≡ st' = ground arith in
      subst (λ (s : State). Grows st.notifications s.notifications) same kept
]
act-Grows t j (assessment_apply a) at st st' h = apply_assessment-Grows t j a at st st' h
act-Grows t j (incident_change id actor c) at st st' h =
    apply_incident_change-Grows t id actor c at st st' h
act-Grows t j notification_review at st st' h =
    let same : record st {
      notifications =
          review_notifications t j st.policy st.revision at st.incidents st.notifications;
    }
        ≡ st' =
      ground arith in
    subst (λ (s : State). Grows st.notifications s.notifications) same
      (review_notifications-Grows t j st.policy st.revision at st.incidents st.notifications)

perform-Grows :
    (t : Tools) (j : Json) (a : Action) (at : String) (st : State)
    → Grows st.notifications (perform t j a at st).notifications
unfolding perform checked_act
perform-Grows t j a at st = elim (Result-cases (checked_act t j a at st)) [
  | inr (e, bad) ↦ rw (bad, perform) kept
  | inl (next, good) ↦ rw (good, perform) (act-Grows t j a at st next (ground arith))
]

perform_all-Grows :
    (t : Tools) (j : Json) (actions : List (Action × String)) (st : State)
    → Grows st.notifications (perform_all t j actions st).notifications
unfolding perform_all
perform_all-Grows t j [] st = kept
perform_all-Grows t j ((a, at) ∷ actions) st =
    Grows-trans st.notifications (perform t j a at st).notifications _ (perform-Grows t j a at st)
      (perform_all-Grows t j actions (perform t j a at st))

-- Under any assessments, changes of incidents, changes of the policy and reviews, also those that
-- fail, the previews are only added to, after the former ones; each new one that is planned has the
-- mode and the recipients that the policy it records gives to its severity, where the mode is not
-- `none` and there is a recipient; and where no two previews had the same key, no two have.
pub perform_all-Entitled :
    (t : Tools) (j : Json) (actions : List (Action × String)) (st : State)
    → OwnKeys st.notifications
    → OwnKeys (perform_all t j actions st).notifications
      × ((more : List Notification) × ((perform_all t j actions st).notifications
            ≡ st.notifications ++ more)
          × All Entitled more)
perform_all-Entitled t j actions st own =
    let grown = perform_all-Grows t j actions st in
    (
      Grows-OwnKeys st.notifications (perform_all t j actions st).notifications grown own,
      Grows-more st.notifications (perform_all t j actions st).notifications grown,
    )
