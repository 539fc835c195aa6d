-- ===== src/Scenarios/Ledgers.antt =====
-- A ledger at concrete inputs: the scope is set up, and then a work item is created.
use agent_chun_su.Base.{refl, true, false, [], ◌∷◌, String, some, List, ◌==◌, str_eq, if◌then◌else◌}
use agent_chun_su.Store.Model.{ok, err, no_rows}
use agent_chun_su.Ledger.Records.{Record, RecordFile, RecordStore, Outside}
use agent_chun_su.Ledger.{
  Scope, Command, Event, HistoryEntry, Receipt, Limits, Codec, Held, load, scope_key,
}
use agent_chun_su.Ledger.Execution.{execute}
use agent_chun_su.Ledger.Durable.{Extended, execute-Extended}
use agent_chun_su.Operations.{Book, WorkItem}
use agent_chun_su.Operations.Works.{WorkCreate, new_work}
use agent_chun_su.Operations.Apply.{Payloads, apply}
use agent_chun_su.Operations.Sound.{Sound}
use agent_chun_su.Operations.Sound.Loaded.{empty_book, load-Sound}
use agent_chun_su.Scenarios.Alarms.{tools, json}

abbrev work : WorkCreate
work = record {
  title = "Write the notes";
  owner = "ann";
  completion_criteria = "published";
  due = "17:00";
  evidence = [];
}

abbrev payloads : Payloads
payloads = record {
  settings = λ s. ok (record { timezone = "Europe/Berlin"; synthetic = false });
  work_create = λ s. ok work;
  work_transition = λ s. err no_rows;
  reschedule = λ s. err no_rows;
  release_create = λ s. err no_rows;
  target_change = λ s. err no_rows;
  deployment = λ s. err no_rows;
  observation = λ s. err no_rows;
  policy = λ s. err no_rows;
  assessment = λ s. err no_rows;
  incident_change = λ s. err no_rows;
  nothing = λ s. err no_rows;
  is_location = λ s. true;
  normalized = λ o. ok o;
  json_observation = λ o. o.id;
}

abbrev outside : Outside
outside = record { now = 5; fresh = "record-2"; digest = λ s. s; audited = true }

abbrev team : Scope
team = record { team = "ops"; project = "web" }

abbrev command : String → String → String → Command
command id action entity = record {
  version = 1;
  scope = team;
  operation_id = id;
  expected_revision = if str_eq action "scope.init" then 0 else 1;
  actor = "ann";
  reason = "start";
  action = action;
  entity_id = entity;
  payload = if str_eq action "scope.init" then "{}" else "{\"title\":\"notes\"}";
}

abbrev set_up : Command
set_up = command "operation-0000001" "scope.init" ""

abbrev create : Command
create = command "operation-0000002" "work.create" "notes"

abbrev first_event : Event
first_event = record {
  version = 1;
  scope = team;
  revision = 1;
  previous = record { id = ""; digest = "" };
  at = "noon";
  command_digest = "operation-0000001";
  command = set_up;
}

abbrev second_event : Event
second_event = record {
  version = 1;
  scope = team;
  revision = 2;
  previous = record { id = "record-1"; digest = "first event" };
  at = "noon";
  command_digest = "operation-0000002";
  command = create;
}

-- With the payload indented, as it is read back.
abbrev read_second : Event
read_second = record second_event {
  command = record create { payload = "{ \"title\": \"notes\" }" };
}

abbrev codec : Codec
codec = record {
  encode = λ e. if e.revision == 1 then "first event" else "second event";
  decode = λ s. if str_eq s "first event" then some first_event else some read_second;
  encode_command = λ x. x.operation_id;
  encode_scope = λ s. "scope";
  indented = λ s. if str_eq s "{}" then s else "{ \"title\": \"notes\" }";
  json_valid = λ s. true;
  trim_space = λ s. s;
  is_timestamp = λ s. true;
  format = λ n. "noon";
}

abbrev limits : Limits
limits = record { max_evidence_bytes = 100; max_artifact_bytes = 100 }

abbrev row_of : String → String → String → Record
row_of id path digest = record {
  id = id;
  kind = "ops_event";
  subject_id = "ops:scope";
  path = path;
  digest = digest;
  bytes = if str_eq digest "first event" then 11 else 12;
  created_at = 5;
}

abbrev first_row : Record
first_row = row_of "record-1" "evaluations/record-1.json" "first event"

abbrev second_row : Record
second_row = row_of "record-2" "evaluations/record-2.json" "second event"

abbrev first_file : RecordFile
first_file = record { path = "evaluations/record-1.json"; content = "first event" }

abbrev second_file : RecordFile
second_file = record { path = "evaluations/record-2.json"; content = "second event" }

abbrev one_record : RecordStore
one_record = record { rows = first_row ∷ []; files = first_file ∷ [] }

abbrev two_records : RecordStore
two_records = record { rows = first_row ∷ second_row ∷ []; files = first_file ∷ second_file ∷ [] }

abbrev receipt : Receipt
receipt = record {
  row = second_row;
  revision = 2;
  operation_id = "operation-0000002";
  replayed = false;
}

abbrev book : List WorkItem → Book
book items = record (empty_book "ops:scope") {
  settings = record { timezone = "Europe/Berlin"; synthetic = false };
  work_items = items;
}

abbrev held : Held Book
held = record {
  revision = 1;
  head = record { id = "record-1"; digest = "first event" };
  contents = book [];
}

abbrev first_entries : List HistoryEntry
first_entries = record { row = first_row; event = first_event } ∷ []

execute-Extended_example :
    Extended
      (apply tools json payloads)
      outside
      codec
      limits
      (empty_book "ops:scope")
      create
      held
      first_entries
      two_records
      receipt
unfolding load execute apply
execute-Extended_example =
    execute-Extended (apply tools json payloads) outside codec limits (empty_book "ops:scope")
      create one_record two_records receipt held first_entries refl
      (record {
        reads_back = refl;
        same_text = refl;
        stays_valid = refl;
        same_effect = refl;
        is_text = refl;
        is_time = refl;
      })
      refl refl

load-Sound_example : Sound tools (book (new_work "notes" work "noon" ∷ []))
unfolding load apply scope_key
load-Sound_example =
    load-Sound tools json payloads outside codec limits team "ops:scope" two_records
      (record {
        revision = 2;
        head = record { id = "record-2"; digest = "second event" };
        contents = book (new_work "notes" work "noon" ∷ []);
      })
      (record { row = first_row; event = first_event }
        ∷ record { row = second_row; event = read_second }
        ∷ [])
      refl
