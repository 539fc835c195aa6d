-- ===== src/Ledger/Fresh.antt =====
-- The event of a new command: its place in the history, and its record.

use Prim.Native.String.{len}
use agent_chun_su.Base.{
  ◌≡◌, ◌∙◌, refl, ap, inl, inr, ℕ, true, false, List, String, some, arith, ◌+◌, ◌-◌, ◌==◌, ltb,
  str_eq, Bool-cases,
}
use agent_chun_su.Table.{exists}
use agent_chun_su.Store.Model.{Result, ok}
use agent_chun_su.Store.Txn.{Result-cases}
use agent_chun_su.Ledger.Records.{Record, RecordStore, Outside, at_record_path, new_record}
use agent_chun_su.Ledger.{
  Command, Event, HistoryEntry, Limits, Codec, record_kind, scope_key, of_scope, validate_command,
  read_entry, Held, placed, follows, ref_of, replay_one,
}
use agent_chun_su.Ledger.Execution.{max_revision, existing_bytes, new_event, tried}
use agent_chun_su.Ledger.Stored.{str_eq-same, with_record, read_record-new}

-- The command as it stands in the event's text, with its payload indented.
abbrev pub indented_command : Codec → Command → Command
indented_command c x = record x { payload = c.indented x.payload }

-- The event of a command as it is read back.
abbrev pub read_event : Outside → Codec → {S : Type 0} → Held S → Command → Event
read_event o c h x = record (new_event o c h x) { command = indented_command c x }

-- encoding/json reads back the event that it writes, with the payload of its command indented; the
-- text is not empty, and the time that is written is a timestamp. The indented payload is JSON, json.Marshal
-- drops the white space in it, and the decoder of payloads passes over it, so that the command has the
-- same effect on the present state.
pub record IsFaithful {S : Type 0} (apply : ℕ → Command → String → S → Result S) (o : Outside)
    (c : Codec) (h : Held S) (x : Command) : Type 0 where
  pub reads_back : c.decode (c.encode (new_event o c h x)) ≡ some (read_event o c h x)
  pub same_text : c.encode_command (indented_command c x) ≡ c.encode_command x
  pub stays_valid : c.json_valid (c.indented x.payload) ≡ c.json_valid x.payload
  pub same_effect :
      apply h.revision (indented_command c x) (c.format o.now) h.contents
      ≡ apply h.revision x (c.format o.now) h.contents
  pub is_text : (len (c.encode (new_event o c h x)) == 0) ≡ false
  pub is_time : c.is_timestamp (c.format o.now) ≡ true

module _ {S : Type 0} (apply : ℕ → Command → String → S → Result S) (o : Outside) (c : Codec)
    (lim : Limits) where
  pub new_event-placed :
      (seen : List String) (h : Held S) (x : Command)
      → IsFaithful apply o c h x
      → exists (λ k. str_eq k x.operation_id) seen ≡ false
      → (h.revision == x.expected_revision) ≡ true
      → follows o c x.scope seen h (read_event o c h x) ≡ true
  unfolding follows placed
  new_event-placed seen h x ok_ new current =
      let same : (x.expected_revision == h.revision) ≡ true = ground arith in
      let next : (h.revision + 1 == h.revision + 1) ≡ true = ground arith in
      rw
        (
          next,
          str_eq-same x.scope.team,
          str_eq-same x.scope.project,
          str_eq-same h.head.id,
          str_eq-same h.head.digest,
          ok_.same_text,
          str_eq-same (o.digest (c.encode_command x)),
          same,
          new,
          ok_.is_time,
        )
        refl

  pub tried-accepted :
      (x : Command) (h : Held S) (history : List HistoryEntry) (contents : S)
      → tried apply o c lim x h history ≡ ok contents
      → ((h.revision == x.expected_revision) ≡ true)
        × (apply h.revision x (c.format o.now) h.contents ≡ ok contents)
        × (ltb
              (lim.max_evidence_bytes - existing_bytes history)
              (len (c.encode (new_event o c h x)))
            ≡ false)
  unfolding tried
  tried-accepted x h history contents good = elim (Bool-cases (h.revision == x.expected_revision)) [
    | inr bad ↦ absurd (ground arith)
    | inl current ↦ elim (Bool-cases (h.revision == max_revision)) [
      | inl full ↦ absurd (ground arith)
      | inr room ↦ elim (Result-cases (apply h.revision x (c.format o.now) h.contents)) [
        | inr (e, bad) ↦ absurd (ground arith)
        | inl (k, done) ↦
            elim (Bool-cases (
              ltb (lim.max_evidence_bytes - existing_bytes history)
                (len (c.encode (new_event o c h x))))) [
                  | inl large ↦ absurd (ground arith)
                  | inr fits ↦
                      let same : k ≡ contents = ground arith in (current, done ∙ ap ok same, fits)
                ]
      ]
    ]
  ]

  -- The record of the event.
  abbrev pub row_of : Held S → Command → Record
  row_of h x = new_record o record_kind (scope_key o c x.scope) (c.encode (new_event o c h x))

  pub row_of-of_scope : (h : Held S) (x : Command) → of_scope o c x.scope (row_of h x) ≡ true
  unfolding new_record
  row_of-of_scope h x = rw (str_eq-same (scope_key o c x.scope)) refl

  pub row_of-bytes :
      (h : Held S) (x : Command) → (row_of h x).bytes ≡ len (c.encode (new_event o c h x))
  unfolding new_record
  row_of-bytes h x = refl

  indented_command-valid :
      (h : Held S) (x : Command)
      → IsFaithful apply o c h x
      → validate_command c lim (indented_command c x) ≡ validate_command c lim x
  unfolding validate_command
  indented_command-valid h x faithful = rw (faithful.same_text, faithful.stays_valid) refl

  pub replay_one-new :
      (x : Command) (h : Held S) (contents : S) (seen : List String) (n : Record)
      → IsFaithful apply o c h x
      → validate_command c lim x ≡ ok tt
      → (h.revision == x.expected_revision) ≡ true
      → apply h.revision x (c.format o.now) h.contents ≡ ok contents
      → exists (λ k. str_eq k x.operation_id) seen ≡ false
      → replay_one apply o c lim x.scope seen h (record { row = n; event = read_event o c h x })
        ≡ ok (record { revision = h.revision + 1; head = ref_of n; contents = contents })
  unfolding replay_one
  replay_one-new x h contents seen n faithful valid current done new =
      rw
        (
          new_event-placed seen h x faithful new current,
          indented_command-valid h x faithful,
          valid,
          faithful.same_effect,
          done,
        )
        refl

  pub read_entry-new :
      (x : Command) (h : Held S) (rs : RecordStore)
      → IsFaithful apply o c h x
      → exists (at_record_path (row_of h x).path) rs.files ≡ false
      → ltb lim.max_artifact_bytes (len (c.encode (new_event o c h x))) ≡ false
      → read_entry o c lim (with_record (row_of h x) (c.encode (new_event o c h x)) rs) (row_of h x)
        ≡ ok (record { row = row_of h x; event = read_event o c h x })
  unfolding read_entry
  read_entry-new x h rs faithful free fits =
      rw
        (
          read_record-new o record_kind (scope_key o c x.scope) (c.encode (new_event o c h x))
              lim.max_artifact_bytes rs free fits (faithful.is_text),
          faithful.reads_back,
        )
        refl
