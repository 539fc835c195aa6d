-- ===== src/Operations/Sound.antt =====
-- What holds of every state of a scope.
pub mod Applied
pub mod Loaded
use agent_chun_su.Base.{
  ◌≡◌, sym, subst, inl, inr, List, [], ◌∷◌, ◌++◌, String, arith, Option-cases, ℕ, str_eq,
  Bool-cases,
}
use agent_chun_su.Table.{All, find_where}
use agent_chun_su.Table.Laws.{All-append, All-map}
use agent_chun_su.Store.Model.{Result, ok}
use agent_chun_su.Store.Txn.{Result-cases}
use agent_chun_su.Incidents.{Tools, Json, Observation, Incident, State}
use agent_chun_su.Incidents.Evidenced.Cited.{Cited}
use agent_chun_su.Incidents.Backed.{Backed, AllBacked, find_where-All}
use agent_chun_su.Incidents.Backed.Kept.{act-AllBacked}
use agent_chun_su.Incidents.Changes.{Action, act}
use agent_chun_su.Incidents.Notices.Planned.{Entitled, OwnKeys, Grows-OwnKeys, Grows-more}
use agent_chun_su.Incidents.Observed.{act-observations}
use agent_chun_su.Incidents.Previews.{act-Grows}
use agent_chun_su.Ledger.{Command}
use agent_chun_su.Operations.{Book, WorkItem, has_key, store, work_key}
use agent_chun_su.Operations.Apply.{
  Payloads, set_works, change_work, check_import, import_observation, read_transition,
  read_reschedule, apply_work,
}
use agent_chun_su.Operations.Stored.{store-All}
use agent_chun_su.Operations.Works.Kept.{
  WorkSound, WorkSound-more, Cited-more, create_work-Sound, transition-Sound, reschedule-Sound,
}
use agent_chun_su.Operations.Releases.Lasting.{AllCycles}
use agent_chun_su.Operations.Works.{create_work}

-- The work items, the release cycles and the incidents are sound, no two previews of notifications have
-- the same key, and those that are planned are entitled to it.
pub record Sound (t : Tools) (b : Book) : Type 0 where
  pub works : All (WorkSound t b.ops.observations) b.work_items
  pub cycles : AllCycles t b.release_cycles
  pub incidents : AllBacked t b.ops
  pub own_keys : OwnKeys b.ops.notifications
  pub entitled : All Entitled b.ops.notifications

pub act-Sound :
    (t : Tools) (j : Json) (a : Action) (at : String) (b : Book) (st : State)
    → act t j a at b.ops ≡ ok st
    → Sound t b
    → Sound t (record b { ops = st })
act-Sound t j a at b st h s =
    let grown = act-Grows t j a at b.ops st h in
    let (more, same, new) = Grows-more b.ops.notifications st.notifications grown in
    record {
      works =
          subst (λ os. All (WorkSound t os) b.work_items)
            (sym (act-observations t j a at b.ops st h)) s.works;
      cycles = s.cycles;
      incidents = act-AllBacked t j a at b.ops st h s.incidents;
      own_keys = Grows-OwnKeys b.ops.notifications st.notifications grown s.own_keys;
      entitled =
          subst (All Entitled) (sym same)
            (All-append Entitled b.ops.notifications more s.entitled new);
    }

Backed-more :
    (t : Tools) (os : List Observation) (o : Observation) (i : Incident)
    → Backed t os i
    → Backed t (os ++ (o ∷ [])) i
unfolding Backed
Backed-more t os o i h = (
  h.0,
  All-map (Cited t os) (Cited t (os ++ (o ∷ []))) (Cited-more t os o) i.resolution_evidence h.1,
)

pub import_observation-Sound :
    (t : Tools) (j : Json) (p : Payloads) (o : Observation) (x : Command) (b : Book) (st : State)
    → import_observation j p o x b.ops ≡ ok st
    → Sound t b
    → Sound t (record b { ops = st })
unfolding import_observation AllBacked
import_observation-Sound t j p o x b st h s = elim (Result-cases (check_import j p o x b.ops)) [
  | inr (e, bad) ↦ absurd (ground arith)
  | inl (u, fine) ↦
      let os = b.ops.observations in
      let same : record b.ops { observations = os ++ (o ∷ []) } ≡ st = ground arith in
      subst (λ st. Sound t (record b { ops = st })) same
        (record {
          works = All-map (WorkSound t os) _ (WorkSound-more t os o) b.work_items s.works;
          cycles = s.cycles;
          incidents = All-map (Backed t os) _ (Backed-more t os o) b.ops.incidents s.incidents;
          own_keys = s.own_keys;
          entitled = s.entitled;
        })
]

pub change_work-Sound :
    (t : Tools) (b b' : Book) (x : Command) (f : WorkItem → Result WorkItem)
    → change_work b x f ≡ ok b'
    → ((w w' : WorkItem)
        → f w ≡ ok w'
        → WorkSound t b.ops.observations w
        → WorkSound t b.ops.observations w')
    → Sound t b
    → Sound t b'
unfolding change_work
change_work-Sound t b b' x f h step s =
    elim (Option-cases (find_where (has_key work_key x.entity_id) b.work_items)) [
      | inl gone ↦ absurd (ground arith)
      | inr (w, there) ↦ elim (Result-cases (f w)) [
        | inr (e, bad) ↦ absurd (ground arith)
        | inl (w', good) ↦
            let os = b.ops.observations in
            let same : set_works b (store work_key w' b.work_items) ≡ b' = ground arith in
            let old =
              find_where-All (WorkSound t os) (has_key work_key x.entity_id) b.work_items w there
                s.works in
            subst (Sound t) same (record {
              works =
                  store-All (WorkSound t os) work_key w' b.work_items (step w w' good old) s.works;
              cycles = s.cycles;
              incidents = s.incidents;
              own_keys = s.own_keys;
              entitled = s.entitled;
            })
      ]
    ]

pub with_works-Sound :
    (t : Tools) (b : Book) (items : List WorkItem)
    → All (WorkSound t b.ops.observations) items
    → Sound t b
    → Sound t (set_works b items)
with_works-Sound t b items all s = record {
  works = all;
  cycles = s.cycles;
  incidents = s.incidents;
  own_keys = s.own_keys;
  entitled = s.entitled;
}

read_transition-Sound :
    (t : Tools) (p : Payloads) (os : List Observation) (x : Command) (at : String) (w w' : WorkItem)
    → read_transition t p os x at w ≡ ok w'
    → WorkSound t os w
    → WorkSound t os w'
unfolding read_transition
read_transition-Sound t p os x at w w' h old = elim (Result-cases (p.work_transition x.payload)) [
  | inr (e, bad) ↦ absurd (ground arith)
  | inl (c, read) ↦ transition-Sound t os c at w w' (ground arith) old
]

read_reschedule-Sound :
    (t : Tools) (p : Payloads) (os : List Observation) (revision : ℕ) (x : Command) (at : String)
    (w w' : WorkItem)
    → read_reschedule t p revision x at w ≡ ok w'
    → WorkSound t os w
    → WorkSound t os w'
unfolding read_reschedule
read_reschedule-Sound t p os revision x at w w' h old =
    elim (Result-cases (p.reschedule x.payload)) [
      | inr (e, bad) ↦ absurd (ground arith)
      | inl (c, read) ↦ reschedule-Sound t os c x revision at w w' (ground arith) old
    ]

pub apply_work-Sound :
    (t : Tools) (p : Payloads) (revision : ℕ) (x : Command) (at : String) (b b' : Book)
    → apply_work t p revision x at b ≡ ok b'
    → Sound t b
    → Sound t b'
unfolding apply_work
apply_work-Sound t p revision x at b b' h s =
    let os = b.ops.observations in
    elim (Bool-cases (str_eq x.action "work.create")) [
      | inl creates ↦ elim (Result-cases (p.work_create x.payload)) [
        | inr (e, bad) ↦ absurd (ground arith)
        | inl (c, read) ↦ elim (Result-cases (create_work t os x.entity_id at c b.work_items)) [
          | inr (e, bad) ↦ absurd (ground arith)
          | inl (ws, good) ↦
              let same : set_works b ws ≡ b' = ground arith in
              subst (Sound t) same (
                with_works-Sound t b ws
                  (create_work-Sound t os x.entity_id at c b.work_items ws good s.works) s)
        ]
      ]
      | inr other ↦ elim (Bool-cases (str_eq x.action "work.transition")) [
        | inl moves ↦
            change_work-Sound t b b' x (read_transition t p os x at) (ground arith)
              (read_transition-Sound t p os x at) s
        | inr delays ↦
            change_work-Sound t b b' x (read_reschedule t p revision x at) (ground arith)
              (read_reschedule-Sound t p os revision x at) s
      ]
    ]
