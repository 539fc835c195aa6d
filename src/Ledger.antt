-- ===== src/Ledger.antt =====
-- internal/ops/ledger.go: the events of a scope, kept as records (internal/store/records.go), and the
-- state that they replay to. What apply does to the state behind the revision is a parameter here;
-- Operations/Apply.antt has it.
pub mod Records
pub mod Execution
pub mod Appended
pub mod Replayed
pub mod Stored
pub mod Fresh
pub mod Loading
pub mod Durable
use Prim.Native.String.{len, ◌++◌ as join}
use agent_chun_su.Base.{
  ℕ, Bool, List, [], ◌∷◌, String, Option, ◌+◌, ◌-◌, ◌==◌, ◌&&◌, ◌||◌, leb, ltb, str_eq, not,
}
use agent_chun_su.Table.{select, exists}
use agent_chun_su.Store.Model.{Result, ok, message}
use agent_chun_su.Store.Txn.{◌>>=◌, ◌>>◌, refuse_if, or_fail}
use agent_chun_su.Store.Queries.{sort_by}
use agent_chun_su.Incidents.Evidenced.{id_char, all_chars, valid_id}
use agent_chun_su.Ledger.Records.{Record, RecordStore, Outside, read_record}

pub record Scope : Type 0 where
  pub team : String
  pub project : String

pub record RecordRef : Type 0 where
  pub id : String
  pub digest : String

pub record Command : Type 0 where
  pub version : ℕ
  pub scope : Scope
  pub operation_id : String
  pub expected_revision : ℕ
  pub actor : String
  pub reason : String
  pub action : String
  pub entity_id : String
  pub payload : String

pub record Event : Type 0 where
  pub version : ℕ
  pub scope : Scope
  pub revision : ℕ
  pub previous : RecordRef
  pub at : String
  pub command_digest : String
  pub command : Command

pub record HistoryEntry : Type 0 where
  pub row : Record
  pub event : Event

pub record Receipt : Type 0 where
  pub row : Record
  pub revision : ℕ
  pub operation_id : String
  pub replayed : Bool

-- config.Limits.
pub record Limits : Type 0 where
  pub max_evidence_bytes : ℕ
  pub max_artifact_bytes : ℕ

-- encoding/json of events, commands and scopes, with Decode of internal/mail; what MarshalIndent makes of
-- the payload of a command, a RawMessage, in the text of an event; and the texts of times.
pub record Codec : Type 0 where
  pub encode : Event → String
  pub decode : String → Option Event
  pub encode_command : Command → String
  pub encode_scope : Scope → String
  pub indented : String → String
  pub json_valid : String → Bool
  pub trim_space : String → String
  pub is_timestamp : String → Bool
  pub format : ℕ → String

abbrev pub record_kind : String
record_kind = "ops_event"

-- The characters of identifiers, and the dot.
abbrev name_char : ℕ → Bool
name_char n = id_char n || n == 46

unfoldable pub identifier : String → Bool
unfolding all_chars
identifier s =
    not (len s == 0)
    && leb (len s) 64
    && all_chars name_char s
    && not (str_eq s ".")
    && not (str_eq s "..")

unfoldable pub scope_ok : Scope → Bool
unfolding identifier
scope_ok s = identifier s.team && identifier s.project

abbrev pub same_scope : Scope → Scope → Bool
same_scope a b = str_eq a.team b.team && str_eq a.project b.project

abbrev pub same_ref : RecordRef → RecordRef → Bool
same_ref a b = str_eq a.id b.id && str_eq a.digest b.digest

unfoldable pub scope_key : Outside → Codec → Scope → String
scope_key o c s = join "ops:" (o.digest (c.encode_scope s))

abbrev empty_text : Codec → String → Bool
empty_text c s = str_eq (c.trim_space s) ""

unfoldable pub validate_command : Codec → Limits → Command → Result (Unit {0})
unfolding scope_ok valid_id
validate_command c lim x = do
  refuse_if
      (not (x.version == 1)
        || not (scope_ok x.scope)
        || not (valid_id x.operation_id)
        || empty_text c x.actor
        || empty_text c x.reason
        || not (c.json_valid x.payload))
      (message
        "OPS command requires version, scope, operation ID, revision, owner actor, reason and JSON data")
  refuse_if (ltb lim.max_artifact_bytes (len (c.encode_command x)))
      (message "OPS command exceeds the configured artifact budget")

abbrev pub of_scope : Outside → Codec → Scope → Record → Bool
of_scope o c s r = str_eq r.kind record_kind && str_eq r.subject_id (scope_key o c s)

-- The budget, and the bytes of the records.
unfoldable pub checked_total : ℕ → ℕ → List Record → Result ℕ
checked_total most total [] = ok total
checked_total most total (r ∷ rs) =
    refuse_if (r.bytes == 0 || ltb (most - total) r.bytes)
      (message "OPS complete ledger replay exceeds max_evidence_bytes")
    >> checked_total most (total + r.bytes) rs

unfoldable pub read_entry : Outside → Codec → Limits → RecordStore → Record → Result HistoryEntry
unfolding read_record
read_entry o c lim rs r = do
  content ← read_record o lim.max_artifact_bytes r rs
  event ← or_fail (c.decode content) (message "invalid JSON document")
  ok (record { row = r; event = event })

unfoldable pub read_entries :
    Outside → Codec → Limits → RecordStore → List Record → Result (List HistoryEntry)
unfolding read_entry
read_entries o c lim rs [] = ok []
read_entries o c lim rs (r ∷ rows) = do
  e ← read_entry o c lim rs r
  es ← read_entries o c lim rs rows
  ok (e ∷ es)

abbrev pub by_revision : HistoryEntry → HistoryEntry → Bool
by_revision a b = leb a.event.revision b.event.revision

abbrev pub has_operation : String → HistoryEntry → Bool
has_operation id e = str_eq e.event.command.operation_id id

-- The state of a scope: the revision, the record of the last event, and what apply works on.
pub record Held (S : Type 0) : Type 0 where
  pub revision : ℕ
  pub head : RecordRef
  pub contents : S

-- The event belongs to the scope and to the state and the operations before it.
unfoldable pub placed : {S : Type 0} → Outside → Codec → Scope → List String → Held S → Event → Bool
unfolding exists
placed o c scope seen h e =
    e.version == 1
    && same_scope e.scope scope
    && same_scope e.command.scope scope
    && same_ref e.previous h.head
    && str_eq e.command_digest (o.digest (c.encode_command e.command))
    && e.command.expected_revision == h.revision
    && not (exists (λ id. str_eq id e.command.operation_id) seen)
    && c.is_timestamp e.at

-- The event is the next one.
unfoldable pub follows :
    {S : Type 0} → Outside → Codec → Scope → List String → Held S → Event → Bool
unfolding placed
follows o c scope seen h e = e.revision == h.revision + 1 && placed o c scope seen h e

abbrev pub ref_of : Record → RecordRef
ref_of r = record { id = r.id; digest = r.digest }

module _ {S : Type 0} (apply : ℕ → Command → String → S → Result S) where
  unfoldable pub replay_one :
      Outside → Codec → Limits → Scope → List String → Held S → HistoryEntry → Result (Held S)
  unfolding follows validate_command
  replay_one o c lim scope seen h x = do
    refuse_if (not (follows o c scope seen h x.event))
        (message "OPS ledger integrity failed: scope, revision, parent or operation mismatch")
    validate_command c lim x.event.command
    contents ← apply h.revision x.event.command x.event.at h.contents
    ok (record { revision = x.event.revision; head = ref_of x.row; contents = contents })

  -- The loop over the history, with the operations that it has seen.
  unfoldable pub replay :
      Outside → Codec → Limits → Scope → List String → Held S → List HistoryEntry → Result (Held S)
  unfolding replay_one
  replay o c lim scope seen h [] = ok h
  replay o c lim scope seen h (x ∷ xs) = replay_one o c lim scope seen h x >>= λ next.
      replay o c lim scope (x.event.command.operation_id ∷ seen) next xs

  abbrev pub empty_state : S → Held S
  empty_state start = record {
    revision = 0;
    head = record { id = ""; digest = "" };
    contents = start;
  }

  unfoldable pub load :
      Outside → Codec → Limits → S → Scope → RecordStore → Result (Held S × List HistoryEntry)
  unfolding scope_ok select checked_total read_entries replay sort_by
  load o c lim start scope rs = do
    refuse_if (not (scope_ok scope)) (message "OPS requires explicit team and project identifiers")
    total ← checked_total lim.max_evidence_bytes 0 (select (of_scope o c scope) rs.rows)
    entries ← read_entries o c lim rs (select (of_scope o c scope) rs.rows)
    h ← replay o c lim scope [] (empty_state start) (sort_by by_revision entries)
    ok (h, sort_by by_revision entries)
