-- ===== src/Incidents/Backed/Kept.antt =====
-- The evidence of the incidents that their owners change, and of all incidents after any commands.

use agent_chun_su.Base.{
  ◌≡◌, ◌⊎◌, refl, inl, inr, subst, false, List, [], ◌∷◌, ◌++◌, String, arith, ◌==◌, str_eq,
  Bool-cases, Option-cases, if◌then◌else◌,
}
use agent_chun_su.Table.{All, find_where, length}
use agent_chun_su.Table.Laws.{All-append}
use agent_chun_su.Table.Apart.{length-append}
use agent_chun_su.Store.Model.{ok}
use agent_chun_su.Store.Txn.{Result-cases}
use agent_chun_su.Incidents.{
  Tools, Json, Incident, Observation, Assessment, IncidentChange, State, has_id,
}
use agent_chun_su.Incidents.Evidenced.{validate_evidence}
use agent_chun_su.Incidents.Evidenced.Cited.{Cited, validate_evidence-Cited}
use agent_chun_su.Incidents.Notices.{review_notifications}
use agent_chun_su.Incidents.Assessed.{apply_risks, apply_assessment, check_assessment}
use agent_chun_su.Incidents.Changes.{
  check_policy, check_action, snooze, move, moved, stamp, changed, reported, apply_incident_change,
  Action, policy_set, assessment_apply, incident_change, notification_review, act, checked_act,
  perform, perform_all,
}
use agent_chun_su.Incidents.Backed.{
  Backed, find_where-All, put-All, AllBacked, apply_risks-AllBacked,
}

moved-state :
    (c : IncidentChange) (actor at : String) (i : Incident) → (moved c actor at i).state ≡ c.state
moved-state c actor at i = ground arith

moved-evidence :
    (c : IncidentChange) (actor at : String) (i : Incident)
    → (moved c actor at i).resolution_evidence ≡ (
        if str_eq c.state "resolved"
        then i.resolution_evidence ++ c.evidence
        else i.resolution_evidence)
moved-evidence c actor at i = ground arith

moved-Backed :
    (t : Tools) (os : List Observation) (c : IncidentChange) (actor at : String) (i : Incident)
    → All (Cited t os) c.evidence
    → (str_eq c.state "resolved" ≡ false) ⊎ ((length c.evidence == 0) ≡ false)
    → Backed t os i
    → Backed t os (moved c actor at i)
unfolding Backed
moved-Backed t os c actor at i cited enough old = elim (Bool-cases (str_eq c.state "resolved")) [
  | inl final ↦
      let more : (moved c actor at i).resolution_evidence ≡ i.resolution_evidence ++ c.evidence =
        rw (moved-evidence c actor at i, final) refl in
      (
        inr (rw more (ground (arith, enough, length-append i.resolution_evidence c.evidence))),
        rw more (All-append (Cited t os) i.resolution_evidence c.evidence old.1 cited),
      )
  | inr moving ↦
      let same : (moved c actor at i).resolution_evidence ≡ i.resolution_evidence =
        rw (moved-evidence c actor at i, moving) refl in
      (inl (rw (moved-state c actor at i) moving), rw same old.1)
]

changed-Backed :
    (t : Tools) (os : List Observation) (c : IncidentChange) (actor at : String) (i i' : Incident)
    → changed t os c actor at i ≡ ok i'
    → Backed t os i
    → Backed t os i'
unfolding changed snooze move Backed
changed-Backed t os c actor at i i' h old = elim (Result-cases (check_action c i)) [
  | inr (e, bad) ↦ absurd (ground arith)
  | inl (u, good) ↦ elim (Bool-cases (str_eq c.state "snoozed")) [
    | inl sleeps ↦ elim (Result-cases (snooze t c at i)) [
      | inr (e, bad) ↦ absurd (ground arith)
      | inl (new, done) ↦
          let same : stamp at (record i { snoozed_until = c.snoozed_until }) ≡ i' = ground arith in
          subst (Backed t os) same old
    ]
    | inr acts ↦
        elim (Result-cases (validate_evidence t os c.evidence (str_eq c.state "resolved"))) [
          | inr (e, bad) ↦ absurd (ground arith)
          | inl (v, valid) ↦
              let same : stamp at (moved c actor at i) ≡ i' = ground arith in
              let (cited, enough) =
                validate_evidence-Cited t os c.evidence (str_eq c.state "resolved") v valid in
              subst (Backed t os) same (moved-Backed t os c actor at i cited enough old)
        ]
  ]
]

apply_incident_change-AllBacked :
    (t : Tools) (id actor : String) (c : IncidentChange) (at : String) (st st' : State)
    → apply_incident_change t id actor c at st ≡ ok st'
    → AllBacked t st
    → AllBacked t st'
unfolding apply_incident_change reported AllBacked
apply_incident_change-AllBacked t id actor c at st st' h all =
    elim (Option-cases (find_where (has_id id) st.incidents)) [
      | inl gone ↦ absurd (ground arith)
      | inr (i, there) ↦ elim (Result-cases (changed t st.observations c actor at i)) [
        | inr (e, bad) ↦ absurd (ground arith)
        | inl (new, good) ↦
            let same : reported t c at new st ≡ st' = ground arith in
            subst (AllBacked t) same (
              put-All (Backed t st.observations) new st.incidents
                (changed-Backed t st.observations c actor at i new good
                  (find_where-All (Backed t st.observations) (has_id id) st.incidents i there all))
                all)
      ]
    ]

apply_assessment-AllBacked :
    (t : Tools) (j : Json) (a : Assessment) (at : String) (st st' : State)
    → apply_assessment t j a at st ≡ ok st'
    → AllBacked t st
    → AllBacked t st'
unfolding apply_assessment AllBacked
apply_assessment-AllBacked t j a at st st' h all = elim (Result-cases (check_assessment a st)) [
  | inr (e, bad) ↦ absurd (ground arith)
  | inl (u, good) ↦ elim (Result-cases (apply_risks t j a at [] a.report.risks st)) [
    | inr (e, bad) ↦ absurd (ground arith)
    | inl (next, done) ↦
        let same : record next { assessments = next.assessments ++ (a ∷ []) } ≡ st' =
          ground arith in
        subst (AllBacked t) same (apply_risks-AllBacked t j a at [] a.report.risks st next done all)
  ]
]

pub act-AllBacked :
    (t : Tools) (j : Json) (a : Action) (at : String) (st st' : State)
    → act t j a at st ≡ ok st'
    → AllBacked t st
    → AllBacked t st'
unfolding act AllBacked
act-AllBacked t j (policy_set p) at st st' h all = elim (Result-cases (check_policy t p)) [
  | inr (e, bad) ↦ absurd (ground arith)
  | inl (u, good) ↦
      let same : record st { policy = p } ≡ st' = ground arith in subst (AllBacked t) same all
]
act-AllBacked t j (assessment_apply a) at st st' h all =
    apply_assessment-AllBacked t j a at st st' h all
act-AllBacked t j (incident_change id actor c) at st st' h all =
    apply_incident_change-AllBacked t id actor c at st st' h all
act-AllBacked t j notification_review at st st' h all =
    let same : record st {
      notifications =
          review_notifications t j st.policy st.revision at st.incidents st.notifications;
    }
        ≡ st' =
      ground arith in
    subst (AllBacked t) same all

-- Under any assessments, changes of incidents, changes of the policy and reviews, also those that
-- fail, every incident that is resolved has evidence of its resolution, and every piece of evidence
-- of an incident has a statement and either names no source or names one that an observation has, with
-- all its spans.
perform_all-AllBacked :
    (t : Tools) (j : Json) (actions : List (Action × String)) (st : State)
    → AllBacked t st
    → AllBacked t (perform_all t j actions st)
unfolding perform_all perform checked_act AllBacked
perform_all-AllBacked t j [] st all = all
perform_all-AllBacked t j ((a, at) ∷ actions) st all =
    perform_all-AllBacked t j actions (perform t j a at st)
      (elim (Result-cases (checked_act t j a at st)) [
        | inr (e, bad) ↦ rw (bad, perform) all
        | inl (next, good) ↦ rw (good, perform) (act-AllBacked t j a at st next (ground arith) all)
      ])
