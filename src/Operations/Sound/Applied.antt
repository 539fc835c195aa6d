-- ===== src/Operations/Sound/Applied.antt =====
-- Each command that succeeds keeps what holds of every state of a scope.

use agent_chun_su.Base.{
  ◌≡◌, ◌∙◌, ap, subst, inl, inr, ℕ, List, String, some, arith, ◌==◌, ◌&&◌, not, str_eq, Bool-cases,
  Option-cases,
}
use agent_chun_su.Table.{find_where}
use agent_chun_su.Store.Model.{ok}
use agent_chun_su.Store.Txn.{Result-cases}
use agent_chun_su.Incidents.{Tools, Json, State, has_id}
use agent_chun_su.Incidents.Backed.{AllBacked}
use agent_chun_su.Incidents.Changes.{
  policy_set, assessment_apply, incident_change, notification_review,
}
use agent_chun_su.Ledger.{Command}
use agent_chun_su.Operations.{Book, ReleaseCycle, has_key, store, cycle_key}
use agent_chun_su.Operations.Apply.{
  Payloads, set_cycles, init, cycle_of, apply_ops, apply_release, is_work, is_release, apply,
}
use agent_chun_su.Operations.Releases.{create_release, change_target, deploy}
use agent_chun_su.Operations.Releases.Lasting.{AllCycles}
use agent_chun_su.Operations.Releases.Carried.{
  found-own, change_target-AllCycles, deploy-AllCycles, create_release-AllCycles,
}
use agent_chun_su.Operations.Sound.{apply_work-Sound, Sound, act-Sound, import_observation-Sound}

with_cycles-Sound :
    (t : Tools) (b : Book) (cycles : List ReleaseCycle)
    → AllCycles t cycles
    → Sound t b
    → Sound t (set_cycles b cycles)
with_cycles-Sound t b cycles all s = record {
  works = s.works;
  cycles = all;
  incidents = s.incidents;
  own_keys = s.own_keys;
  entitled = s.entitled;
}

cycle_of-own :
    (b : Book) (x : Command) (c : ReleaseCycle)
    → cycle_of b x ≡ ok c
    → find_where (has_key cycle_key c.id) b.release_cycles ≡ some c
unfolding cycle_of
cycle_of-own b x c h =
    elim (Option-cases (find_where (has_key cycle_key x.entity_id) b.release_cycles)) [
      | inl gone ↦ absurd (ground arith)
      | inr (d, there) ↦
          let same : d ≡ c = ground arith in
          found-own x.entity_id c b.release_cycles (there ∙ ap some same)
    ]

apply_release-Sound :
    (t : Tools) (p : Payloads) (x : Command) (at : String) (b b' : Book)
    → apply_release t p x at b ≡ ok b'
    → Sound t b
    → Sound t b'
unfolding apply_release
apply_release-Sound t p x at b b' h s = elim (Bool-cases (str_eq x.action "release.create")) [
  | inl creates ↦ elim (Result-cases (p.release_create x.payload)) [
    | inr (e, bad) ↦ absurd (ground arith)
    | inl (c, read) ↦ elim (Result-cases (create_release t x.entity_id c b.release_cycles)) [
      | inr (e, bad) ↦ absurd (ground arith)
      | inl (cs, good) ↦
          let same : set_cycles b cs ≡ b' = ground arith in
          subst (Sound t) same (
            with_cycles-Sound t b cs
              (create_release-AllCycles t x.entity_id c b.release_cycles cs good s.cycles) s)
    ]
  ]
  | inr other ↦ elim (Result-cases (cycle_of b x)) [
    | inr (e, bad) ↦ absurd (ground arith)
    | inl (cycle, found) ↦
        let own = cycle_of-own b x cycle found in
        elim (Bool-cases (str_eq x.action "release.target")) [
          | inl targets ↦ elim (Result-cases (p.target_change x.payload)) [
            | inr (e, bad) ↦ absurd (ground arith)
            | inl (c, read) ↦
                elim (Result-cases (change_target t c x at b.work_items cycle b.release_cycles)) [
                  | inr (e, bad) ↦ absurd (ground arith)
                  | inl (cs, good) ↦
                      let same : set_cycles b cs ≡ b' = ground arith in
                      subst (Sound t) same (
                        with_cycles-Sound t b cs
                          (change_target-AllCycles t c x at b.work_items cycle b.release_cycles cs
                            good own s.cycles)
                          s)
                ]
          ]
          | inr deploys ↦ elim (Result-cases (p.deployment x.payload)) [
            | inr (e, bad) ↦ absurd (ground arith)
            | inl (d, read) ↦
                elim (Result-cases (deploy t b.ops.observations d x at b.work_items cycle)) [
                  | inr (e, bad) ↦ absurd (ground arith)
                  | inl (c, good) ↦
                      let same : set_cycles b (store cycle_key c b.release_cycles) ≡ b' =
                        ground arith in
                      subst (Sound t) same (
                        with_cycles-Sound t b (store cycle_key c b.release_cycles)
                          (deploy-AllCycles t b.ops.observations d x at b.work_items cycle c
                            b.release_cycles good own s.cycles)
                          s)
                ]
          ]
        ]
  ]
]

-- An action on the state of the incidents, once its payload is read.
apply_ops-Sound :
    (t : Tools) (j : Json) (p : Payloads) (x : Command) (at : String) (b : Book) (st : State)
    → apply_ops t j p x at b.ops ≡ ok st
    → Sound t b
    → Sound t (record b { ops = st })
unfolding apply_ops
apply_ops-Sound t j p x at b st h s = elim (Bool-cases (str_eq x.action "observation.import")) [
  | inl imports ↦ elim (Result-cases (p.observation x.payload)) [
    | inr (e, bad) ↦ absurd (ground arith)
    | inl (o, read) ↦ import_observation-Sound t j p o x b st (ground arith) s
  ]
  | inr k1 ↦ elim (Bool-cases (str_eq x.action "policy.set")) [
    | inl sets ↦ elim (Result-cases (p.policy x.payload)) [
      | inr (e, bad) ↦ absurd (ground arith)
      | inl (q, read) ↦ act-Sound t j (policy_set q) at b st (ground arith) s
    ]
    | inr k2 ↦ elim (Bool-cases (str_eq x.action "assessment.apply")) [
      | inl assesses ↦ elim (Result-cases (p.assessment x.payload)) [
        | inr (e, bad) ↦ absurd (ground arith)
        | inl (a, read) ↦ act-Sound t j (assessment_apply a) at b st (ground arith) s
      ]
      | inr k3 ↦ elim (Bool-cases (str_eq x.action "incident.change")) [
        | inl changes ↦ elim (Option-cases (find_where (has_id x.entity_id) b.ops.incidents)) [
          | inl gone ↦ absurd (ground arith)
          | inr (i, there) ↦ elim (Result-cases (p.incident_change x.payload)) [
            | inr (e, bad) ↦ absurd (ground arith)
            | inl (c, read) ↦
                act-Sound t j (incident_change x.entity_id x.actor c) at b st (ground arith) s
          ]
        ]
        | inr k4 ↦ elim (Bool-cases (str_eq x.action "notification.review")) [
          | inr none_ ↦ absurd (ground arith)
          | inl reviews ↦ elim (Result-cases (p.nothing x.payload)) [
            | inr (e, bad) ↦ absurd (ground arith)
            | inl (u, read) ↦ act-Sound t j notification_review at b st (ground arith) s
          ]
        ]
      ]
    ]
  ]
]

-- Each command that succeeds keeps a sound state sound.
pub apply-Sound :
    (t : Tools) (j : Json) (p : Payloads) (revision : ℕ) (x : Command) (at : String) (b b' : Book)
    → apply t j p revision x at b ≡ ok b'
    → Sound t b
    → Sound t b'
unfolding apply AllBacked
apply-Sound t j p revision x at b b' h s =
    elim (Bool-cases (revision == 0 && not (str_eq x.action "scope.init"))) [
      | inl early ↦ absurd (ground arith)
      | inr open_ ↦ elim (Bool-cases (str_eq x.action "scope.init")) [
        | inl begins ↦ elim (Result-cases (init p revision x.payload)) [
          | inr (e, bad) ↦ absurd (ground arith)
          | inl (c, good) ↦
              let same : record b { settings = c } ≡ b' = ground arith in
              subst (Sound t) same (record {
                works = s.works;
                cycles = s.cycles;
                incidents = s.incidents;
                own_keys = s.own_keys;
                entitled = s.entitled;
              })
        ]
        | inr goes ↦ elim (Bool-cases (is_work x.action)) [
          | inl works ↦ apply_work-Sound t p revision x at b b' (ground arith) s
          | inr k1 ↦ elim (Bool-cases (is_release x.action)) [
            | inl releases ↦ apply_release-Sound t p x at b b' (ground arith) s
            | inr k2 ↦
                elim (Result-cases (apply_ops t j p x at (record b.ops { revision = revision }))) [
                  | inr (e, bad) ↦ absurd (ground arith)
                  | inl (st, good) ↦
                      let same : record b { ops = st } ≡ b' = ground arith in
                      subst (Sound t) same (
                        apply_ops-Sound t j p x at
                          (record b { ops = record b.ops { revision = revision } }) st good
                          (record {
                            works = s.works;
                            cycles = s.cycles;
                            incidents = s.incidents;
                            own_keys = s.own_keys;
                            entitled = s.entitled;
                          }))
                ]
          ]
        ]
      ]
    ]
