-- ===== src/Ledger/Execution.antt =====
-- Execute of internal/ops/ledger.go: a command is appended to the ledger as an event.

use Prim.Native.String.{len}
use agent_chun_su.Base.{
  ℕ, Bool, true, false, List, [], ◌∷◌, String, none, some, ◌+◌, ◌-◌, ◌==◌, ltb, str_eq, not,
}
use agent_chun_su.Table.{find_where}
use agent_chun_su.Store.Model.{Result, ok, err, message}
use agent_chun_su.Store.Txn.{◌>>=◌, ◌>>◌, refuse_if}
use agent_chun_su.Ledger.Records.{Record, RecordStore, Outside, put_record}
use agent_chun_su.Ledger.{
  Command, Event, HistoryEntry, Receipt, Limits, Codec, record_kind, scope_key, validate_command,
  has_operation, Held, load,
}

abbrev pub max_revision : ℕ
max_revision = 9223372036854775807

unfoldable pub existing_bytes : List HistoryEntry → ℕ
existing_bytes [] = 0
existing_bytes (x ∷ xs) = x.row.bytes + existing_bytes xs

abbrev pub new_event : Outside → Codec → {S : Type 0} → Held S → Command → Event
new_event o c h x = record {
  version = 1;
  scope = x.scope;
  revision = h.revision + 1;
  previous = h.head;
  at = c.format o.now;
  command_digest = o.digest (c.encode_command x);
  command = x;
}

abbrev pub receipt_of : Command → ℕ → Bool → Record → Receipt
receipt_of x revision replayed r = record {
  row = r;
  revision = revision;
  operation_id = x.operation_id;
  replayed = replayed;
}

-- The answer to an operation that is in the history.
abbrev pub repeated : Outside → Codec → Command → HistoryEntry → Result Receipt
repeated o c x e = do
  refuse_if (not (str_eq e.event.command_digest (o.digest (c.encode_command x))))
      (message "OPS operation ID was already used with a different command")
  ok (receipt_of x e.event.revision true e.row)

module _ {S : Type 0} (apply : ℕ → Command → String → S → Result S) where
  -- The checks of a new operation; the command is tried on the state.
  unfoldable pub tried : Outside → Codec → Limits → Command → Held S → List HistoryEntry → Result S
  unfolding existing_bytes
  tried o c lim x h history = do
    refuse_if (not (h.revision == x.expected_revision)) (message "OPS revision conflict")
    refuse_if (h.revision == max_revision) (message "OPS revision capacity exhausted")
    contents ← apply h.revision x (c.format o.now) h.contents
    refuse_if
        (ltb (lim.max_evidence_bytes - existing_bytes history) (len (c.encode (new_event o c h x))))
        (message "OPS append would exceed the complete ledger replay byte budget")
    ok contents

  unfoldable pub appended :
      Outside → Codec → Limits → Command → Held S → RecordStore → RecordStore × Result Receipt
  unfolding put_record scope_key
  appended o c lim x h rs =
      let (rs', r) =
        put_record o record_kind (scope_key o c x.scope) (c.encode (new_event o c h x))
          lim.max_artifact_bytes rs in
      (rs', r >>= λ row. ok (receipt_of x (h.revision + 1) false row))

  unfoldable pub checked_load :
      Outside → Codec → Limits → S → Command → RecordStore → Result (Held S × List HistoryEntry)
  unfolding validate_command load
  checked_load o c lim start x rs = validate_command c lim x >> load apply o c lim start x.scope rs

  unfoldable pub execute :
      Outside → Codec → Limits → S → Command → RecordStore → RecordStore × Result Receipt
  unfolding checked_load find_where tried appended
  execute o c lim start x rs = elim (checked_load o c lim start x rs) [
    | err e ↦ (rs, err e)
    | ok (h, history) ↦ elim (find_where (has_operation x.operation_id) history) [
      | some e ↦ (rs, repeated o c x e)
      | none ↦ elim (tried o c lim x h history) [
        | err e ↦ (rs, err e)
        | ok contents ↦ appended o c lim x h rs
      ]
    ]
  ]
