-- ===== src/Operations.antt =====
-- The business ledger of internal/ops: the whole state of a scope, with the work items and the release
-- cycles of model.go, and what the children share.
pub mod Works
pub mod Releases
pub mod Apply
pub mod Stored
pub mod Sound
use agent_chun_su.Base.{
  ℕ, Bool, true, false, List, [], ◌∷◌, ◌++◌, String, Option, none, some, str_eq, if◌then◌else◌,
}
use agent_chun_su.Table.{exists, update_where}
use agent_chun_su.Incidents.{Tools, Evidence, State}

pub record Settings : Type 0 where
  pub timezone : String
  pub synthetic : Bool

pub record WaitDetail : Type 0 where
  pub reason : String
  pub responsible : String
  pub next_check_at : String

pub record ScheduleRevision : Type 0 where
  pub previous_due : String
  pub due : String
  pub reason : String
  pub actor : String
  pub at : String
  pub ledger_revision : ℕ

pub record WorkItem : Type 0 where
  pub id : String
  pub title : String
  pub owner : String
  pub completion_criteria : String
  pub state : String
  pub original_due : String
  pub current_due : String
  pub schedule_revisions : List ScheduleRevision
  pub wait : Option WaitDetail
  pub evidence : List Evidence
  pub completed_at : String
  pub created_at : String
  pub updated_at : String

pub record Commitment : Type 0 where
  pub work_id : String
  pub status : String
  pub reason : String
  pub actor : String
  pub at : String
  pub revision : ℕ
  pub carried_to : String

pub record Deployment : Type 0 where
  pub status : String
  pub environment : String
  pub work_ids : List String
  pub effective_at : String
  pub evidence : List Evidence
  pub actor : String
  pub recorded_at : String

pub record ReleaseCycle : Type 0 where
  pub id : String
  pub service : String
  pub environment : String
  pub ready_by : String
  pub deploy_by : String
  pub commitment_revision : ℕ
  pub commitments : List Commitment
  pub deployments : List Deployment

-- The state of a scope; `ops` is the part that Incidents.antt has.
pub record Book : Type 0 where
  pub settings : Settings
  pub ops : State
  pub work_items : List WorkItem
  pub release_cycles : List ReleaseCycle

-- timestamp.
unfoldable pub is_timestamp : Tools → String → Bool
is_timestamp t s = elim (t.parse s) [ none ↦ false | some n ↦ true ]

abbrev pub has_key {ℓ} : {A : Type ℓ} → (A → String) → String → A → Bool
has_key key id a = str_eq (key a) id

-- An assignment to a map under the row's own key.
unfoldable pub store {ℓ} : {A : Type ℓ} → (A → String) → A → List A → List A
unfolding exists update_where
store key a rows =
    if exists (has_key key (key a)) rows
    then update_where (has_key key (key a)) (λ r. a) rows
    else rows ++ (a ∷ [])

abbrev pub work_key : WorkItem → String
work_key w = w.id

abbrev pub cycle_key : ReleaseCycle → String
cycle_key c = c.id
