-- ===== src/Incidents.antt =====
-- internal/ops: the incidents that assessments raise and owners change, with the previews of their
-- notifications. Here are the data of model.go, and what the children share. The work items,
-- the release cycles and the settings of State are in Operations.antt; a map is a list of rows.
pub mod Notices
pub mod Evidenced
pub mod Assessed
pub mod Changes
pub mod Previews
pub mod Backed
pub mod Observed
use Prim.Native.String.{◌++◌ as join, compare}
use Prim.Native.Nat.{Ordering}
use agent_chun_su.Base.{
  ℕ, Bool, true, false, List, [], ◌∷◌, ◌++◌, String, Option, none, some, map, ◌&&◌, str_eq,
  if◌then◌else◌, ◌+◌, ◌%◌,
}
use agent_chun_su.Table.{exists, update_where}
use agent_chun_su.Store.Queries.{sort_by}

-- What the code takes from packages: time.Parse and Format of RFC 3339 texts, in nanoseconds;
-- SHA-256; strings.TrimSpace; strconv.FormatInt; and encoding/json.
pub record Tools : Type 0 where
  pub parse : String → Option ℕ
  pub format : ℕ → String
  pub digest : String → String
  pub trim_space : String → String
  pub decimal : ℕ → String
  pub json_texts : List String → String

pub record Citation : Type 0 where
  pub source_id : String
  pub span_ids : List String

pub record Risk : Type 0 where
  pub key : String
  pub kind : String
  pub work_id : String
  pub release_id : String
  pub incident_id : String
  pub severity : String
  pub confidence : String
  pub title : String
  pub impact : String
  pub rationale : String
  pub recommended_action : String
  pub owner : String
  pub citations : List Citation
  pub uncertainties : List String

pub record SeverityRule : Type 0 where
  pub mode : String
  pub recipients : List String
  pub cooldown_seconds : ℕ
  pub acknowledgment_seconds : ℕ

pub record Policy : Type 0 where
  pub version : ℕ
  pub rules : List (String × SeverityRule)
  pub source_freshness_seconds : ℕ
  pub p0_bypasses_snooze : Bool

pub record Evidence : Type 0 where
  pub observation_id : String
  pub source_id : String
  pub span_ids : List String
  pub statement : String
  pub uri : String

pub record RecordRef : Type 0 where
  pub id : String
  pub digest : String

pub record Incident : Type 0 where
  pub id : String
  pub key : String
  pub revision : ℕ
  pub state : String
  pub risk : Risk
  pub fingerprint : String
  pub assessment_job_id : String
  pub assessment_artifact : RecordRef
  pub acknowledged_by : String
  pub acknowledged_at : String
  pub snoozed_until : String
  pub resolution_evidence : List Evidence
  pub created_at : String
  pub updated_at : String

pub data NoticeStatus : Type 0 where
  shadow_planned suppressed shadow_blocked : NoticeStatus

pub record Notification : Type 0 where
  pub id : String
  pub incident_id : String
  pub incident_revision : ℕ
  pub key : String
  pub severity : String
  pub mode : String
  pub recipients : List String
  pub status : NoticeStatus
  pub reason : String
  pub created_at : String
  pub acknowledgment_due : String
  pub policy : Policy

pub record Span : Type 0 where
  pub id : String
  pub text : String

pub record Source : Type 0 where
  pub id : String
  pub logical_id : String
  pub kind : String
  pub change_kind : String
  pub external_id : String
  pub event_id : String
  pub version : String
  pub thread_id : String
  pub channel_id : String
  pub uri : String
  pub source_at : String
  pub captured_at : String
  pub content_status : String
  pub spans : List Span

-- encoding/json of a risk, of a policy, of a source, and of what riskFingerprint takes of a risk.
pub record Json : Type 0 where
  pub json_risk : Risk → String
  pub json_policy : Policy → String
  pub json_source : Source → String
  pub json_basis : String × String × String × String × List Citation → String

abbrev pub empty : String → Bool
empty s = str_eq s ""

-- `t, _ := time.Parse(...)`: the zero time where the text is none.
unfoldable pub instant : Tools → String → ℕ
instant t s = elim (t.parse s) [ none ↦ 0 | some n ↦ n ]

-- An int64 counter, by its 64 bits.
unfoldable pub next_revision : ℕ → ℕ
next_revision r = (r + 1) % 18446744073709551616

-- sort.Strings.
abbrev pub text_before : String → String → Bool
text_before a b = elim (compare a b) [ Ordering.gt ↦ false | _ ↦ true ]

abbrev source_of : Citation → String
source_of c = c.source_id

unfoldable pub incident_key : Tools → Risk → String
unfolding sort_by
incident_key t r =
    let key = join r.kind (join "|" (join r.work_id (join "|" r.release_id))) in
    if empty r.work_id && empty r.release_id
    then join key (join "|" (t.json_texts (sort_by text_before (map source_of r.citations))))
    else key

abbrev sort_spans : Citation → Citation
unfolding sort_by
sort_spans c = record c { span_ids = sort_by text_before c.span_ids }

unfoldable pub risk_fingerprint : Tools → Json → Risk → String
unfolding sort_by
risk_fingerprint t j r =
    let refs = sort_by (λ a b. text_before a.source_id b.source_id) (map sort_spans r.citations) in
    t.digest (j.json_basis (r.kind, r.work_id, r.release_id, r.severity, refs))

abbrev pub is_resolved : Incident → Bool
is_resolved i = str_eq i.state "resolved"

abbrev pub has_id : String → Incident → Bool
has_id id i = str_eq i.id id

-- Here and below the key of a scope stands for it.
pub record Observation : Type 0 where
  pub id : String
  pub version : ℕ
  pub scope : String
  pub provider : String
  pub synthetic : Bool
  pub captured_from : String
  pub captured_through : String
  pub coverage : String
  pub gaps : List String
  pub sources : List Source
  pub input_digest : String
  pub raw : String

abbrev pub span_id : Span → String
span_id s = s.id

pub record AssessedReport : Type 0 where
  pub scope : String
  pub ledger_revision : ℕ
  pub risks : List Risk

pub record Assessment : Type 0 where
  pub job_id : String
  pub artifact : RecordRef
  pub input_digest : String
  pub ledger_revision : ℕ
  pub bundle_digest : String
  pub report : AssessedReport

pub record IncidentChange : Type 0 where
  pub state : String
  pub snoozed_until : String
  pub evidence : List Evidence

pub record State : Type 0 where
  pub scope : String
  pub revision : ℕ
  pub policy : Policy
  pub observations : List Observation
  pub incidents : List Incident
  pub notifications : List Notification
  pub assessments : List Assessment

-- state.Incidents[incident.ID] = incident.
unfoldable pub put : Incident → List Incident → List Incident
unfolding exists update_where
put i rows =
    if exists (has_id i.id) rows then update_where (has_id i.id) (λ r. i) rows else rows ++ (i ∷ [])
