-- ===== src/Operations/Works/Kept.antt =====
-- What holds of every work item.

use agent_chun_su.Base.{
  ◌≡◌, ◌⊎◌, refl, subst, inl, inr, ℕ, true, false, not, ◌&&◌, ◌||◌, Bool, List, [], ◌∷◌, ◌++◌,
  String, Option, none, some, arith, ◌==◌, str_eq, Bool-cases,
}
use agent_chun_su.Table.{All, exists, length}
use agent_chun_su.Table.Laws.{All-append, All-map, find_where-append}
use agent_chun_su.Table.Apart.{length-append}
use agent_chun_su.Store.Model.{ok}
use agent_chun_su.Store.Txn.{Result-cases, refuse_if-passed, refuse_if-last}
use agent_chun_su.Incidents.{Tools, Evidence, Observation}
use agent_chun_su.Incidents.Evidenced.{one_of, validate_evidence}
use agent_chun_su.Incidents.Evidenced.Cited.{Cited, validate_evidence-Cited}
use agent_chun_su.Ledger.{Command}
use agent_chun_su.Operations.{WaitDetail, ScheduleRevision, WorkItem, store, work_key}
use agent_chun_su.Operations.Stored.{store-All}
use agent_chun_su.Operations.Works.{
  WorkCreate, WorkTransition, Reschedule, new_work, check_create, create_work, wait_ok, is_there,
  moved_work, check_transition, transition, postponed, reschedule,
}

-- Each revision of the due time takes up where the one before left off, and changes it.
pub data Chain : String → List ScheduleRevision → String → Type 0 where
  original : {due : String} → Chain due [] due
  revised :
      {first last : String} {rs rs' : List ScheduleRevision} (r : ScheduleRevision)
      → Chain first rs last
      → r.previous_due ≡ last
      → str_eq r.due last ≡ false
      → rs' ≡ rs ++ (r ∷ [])
      → Chain first rs' r.due

abbrev five : List String
five = "ready" ∷ "inprogress" ∷ "waiting" ∷ "completed" ∷ "cancelled" ∷ []

-- The state is one of the five, there are wait details exactly while the item waits, a completed item
-- has evidence, all evidence is borne out, and the revisions lead from the original due time to the
-- current one.
pub record WorkSound (t : Tools) (observations : List Observation) (w : WorkItem) : Type 0 where
  pub states : one_of w.state five ≡ true
  pub waits : is_there w.wait ≡ str_eq w.state "waiting"
  pub completed : (str_eq w.state "completed" ≡ false) ⊎ ((length w.evidence == 0) ≡ false)
  pub cited : All (Cited t observations) w.evidence
  pub dues : Chain w.original_due w.schedule_revisions w.current_due

pub create_work-Sound :
    (t : Tools) (os : List Observation) (id at : String) (c : WorkCreate) (ws ws' : List WorkItem)
    → create_work t os id at c ws ≡ ok ws'
    → All (WorkSound t os) ws
    → All (WorkSound t os) ws'
unfolding create_work one_of exists
create_work-Sound t os id at c ws ws' h all = elim (Result-cases (check_create t id c ws)) [
  | inr (e, bad) ↦ absurd (ground arith)
  | inl (v, fine) ↦ elim (Result-cases (validate_evidence t os c.evidence false)) [
    | inr (e, bad) ↦ absurd (ground arith)
    | inl (u, valid) ↦
        let same : store work_key (new_work id c at) ws ≡ ws' = ground arith in
        let (cited, any) = validate_evidence-Cited t os c.evidence false u valid in
        subst (All (WorkSound t os)) same (
          store-All (WorkSound t os) work_key (new_work id c at) ws
            (record {
              states = refl;
              waits = refl;
              completed = inl refl;
              cited = cited;
              dues = original;
            })
            all)
  ]
]

known_state : (known same : Bool) → (not known || same) ≡ false → known ≡ true
known_state known same h = ground arith

wait_state :
    (t : Tools) (w : Option WaitDetail) (waiting : Bool)
    → (waiting && not (wait_ok t w)) ≡ false
    → (not waiting && is_there w) ≡ false
    → is_there w ≡ waiting
unfolding wait_ok
wait_state t none waiting h k = ground arith
wait_state t (some w) waiting h k = ground arith

check_transition-fits :
    (t : Tools) (c : WorkTransition) (w : WorkItem) (u : Unit {0})
    → check_transition t c w ≡ ok u
    → (one_of c.state five ≡ true) × (is_there c.wait ≡ str_eq c.state "waiting")
unfolding check_transition wait_ok
check_transition-fits t c w u h =
    let (known, h1) = refuse_if-passed _ _ _ u h in
    let (closed, h2) = refuse_if-passed _ _ _ u h1 in
    let (waits, h3) = refuse_if-passed _ _ _ u h2 in
    let extra = refuse_if-last _ _ u h3 in
    (
      known_state (one_of c.state five) (str_eq c.state w.state) known,
      wait_state t c.wait (str_eq c.state "waiting") waits extra,
    )

pub transition-Sound :
    (t : Tools) (os : List Observation) (c : WorkTransition) (at : String) (w w' : WorkItem)
    → transition t os c at w ≡ ok w'
    → WorkSound t os w
    → WorkSound t os w'
unfolding transition
transition-Sound t os c at w w' h old = elim (Result-cases (check_transition t c w)) [
  | inr (e, bad) ↦ absurd (ground arith)
  | inl (u, fits) ↦
      elim (Result-cases (validate_evidence t os c.evidence (str_eq c.state "completed"))) [
        | inr (e, bad) ↦ absurd (ground arith)
        | inl (v, valid) ↦
            let same : moved_work c at w ≡ w' = ground arith in
            let (states, waits) = check_transition-fits t c w u fits in
            let (cited, enough) =
              validate_evidence-Cited t os c.evidence (str_eq c.state "completed") v valid in
            subst (WorkSound t os) same (record {
              states = states;
              waits = waits;
              completed = ground (arith, enough, length-append w.evidence c.evidence);
              cited = All-append (Cited t os) w.evidence c.evidence old.cited cited;
              dues = old.dues;
            })
      ]
]

pub reschedule-Sound :
    (t : Tools) (os : List Observation) (c : Reschedule) (x : Command) (revision : ℕ) (at : String)
    (w w' : WorkItem)
    → reschedule t c x revision at w ≡ ok w'
    → WorkSound t os w
    → WorkSound t os w'
unfolding reschedule
reschedule-Sound t os c x revision at w w' h old = elim (Bool-cases (str_eq c.due w.current_due)) [
  | inl same ↦ absurd (ground arith)
  | inr other ↦
      let same : postponed c.due x.reason x.actor revision at w ≡ w' = ground arith in
      subst (WorkSound t os) same (record {
        states = old.states;
        waits = old.waits;
        completed = old.completed;
        cited = old.cited;
        dues = revised _ old.dues refl other refl;
      })
]

-- Evidence stays borne out when an observation is added.
pub Cited-more :
    (t : Tools) (os : List Observation) (o : Observation) (e : Evidence)
    → Cited t os e
    → Cited t (os ++ (o ∷ [])) e
unfolding Cited
Cited-more t os o e h = (
  h.0,
  elim h.1 [
    | inl own ↦ inl own
    | inr (b, there, has) ↦ inr (
      b,
      ground (
        arith,
        there,
        find_where-append (λ (o : Observation). str_eq o.id e.observation_id) os o,
      ),
      has,
    )
  ],
)

pub WorkSound-more :
    (t : Tools) (os : List Observation) (o : Observation) (w : WorkItem)
    → WorkSound t os w
    → WorkSound t (os ++ (o ∷ [])) w
WorkSound-more t os o w h = record {
  states = h.states;
  waits = h.waits;
  completed = h.completed;
  cited = All-map (Cited t os) (Cited t (os ++ (o ∷ []))) (Cited-more t os o) w.evidence h.cited;
  dues = h.dues;
}
