-- ===== src/Ledger/Durable.antt =====
-- What the next Load finds after Execute.

use agent_chun_su.Base.{
  ◌≡◌, ◌∙◌, refl, sym, ap, subst, inl, inr, ℕ, true, false, List, [], ◌∷◌, ◌++◌, String, none,
  arith, ◌+◌, str_eq, Bool-cases, Option-cases, ==_iff,
}
use agent_chun_su.Table.{find_where}
use agent_chun_su.Table.Laws.{find_where-append_none}
use agent_chun_su.Store.Model.{Result, ok}
use agent_chun_su.Store.Txn.{Result-cases}
use agent_chun_su.Ledger.Records.{Record, RecordStore, Outside, put_record}
use agent_chun_su.Ledger.{
  Command, HistoryEntry, Receipt, Limits, Codec, record_kind, scope_key, validate_command,
  has_operation, Held, ref_of, load,
}
use agent_chun_su.Ledger.Execution.{
  new_event, receipt_of, repeated, tried, appended, checked_load, execute,
}
use agent_chun_su.Ledger.Stored.{str_eq-same, with_record, put_record-stored}
use agent_chun_su.Ledger.Loading.{load-Loaded, Loaded-load, Loaded-append}
use agent_chun_su.Ledger.Fresh.{IsFaithful, read_event, row_of, tried-accepted}

module _ {S : Type 0} (apply : ℕ → Command → String → S → Result S) (o : Outside) (c : Codec)
    (lim : Limits) where
  -- What a command makes of the state and the history, as Load finds them afterwards.
  pub record Extended (start : S) (x : Command) (h : Held S) (history : List HistoryEntry)
      (rs' : RecordStore) (r : Receipt) : Type 0 where
    pub contents : S
    pub current : h.revision ≡ x.expected_revision
    pub done : apply h.revision x (c.format o.now) h.contents ≡ ok contents
    pub after :
        load apply o c lim start x.scope rs'
        ≡ ok (
          record { revision = h.revision + 1; head = ref_of r.row; contents = contents },
          history ++ (record { row = r.row; event = read_event o c h x } ∷ []),
        )
    pub again : execute apply o c lim start x rs' ≡ (rs', ok (record r { replayed = true }))

  repeated-again :
      (start : S) (x : Command) (rs : RecordStore) (h h' : Held S) (history : List HistoryEntry)
      (n : Record)
      → validate_command c lim x ≡ ok tt
      → find_where (has_operation x.operation_id) history ≡ none
      → load apply o c lim start x.scope rs
        ≡ ok (h', history ++ (record { row = n; event = read_event o c h x } ∷ []))
      → execute apply o c lim start x rs ≡ (rs, ok (receipt_of x (h.revision + 1) true n))
  unfolding execute checked_load
  repeated-again start x rs h h' history n valid unused loaded =
      let entry : HistoryEntry = record { row = n; event = read_event o c h x } in
      let found =
        find_where-append_none (has_operation x.operation_id) history entry unused
          (str_eq-same x.operation_id) in
      rw (execute, checked_load, valid, loaded, found, str_eq-same (o.digest (c.encode_command x)))
        refl

  repeated-replayed :
      (x : Command) (e : HistoryEntry) (r : Receipt) → repeated o c x e ≡ ok r → r.replayed ≡ true
  repeated-replayed x e r h =
      elim (Bool-cases (str_eq e.event.command_digest (o.digest (c.encode_command x)))) [
        | inr other ↦ absurd (ground arith)
        | inl same ↦
            let is_it : receipt_of x e.event.revision true e.row ≡ r = ground arith in
            subst (λ (r : Receipt). r.replayed ≡ true) is_it refl
      ]

  next_store :
      (x : Command) (rs rs' : RecordStore) (r : Receipt) (h : Held S)
      → appended apply o c lim x h rs ≡ (rs', ok r)
      → (put_record o record_kind
            (scope_key o c x.scope)
            (c.encode (new_event o c h x))
            lim.max_artifact_bytes
            rs
          ≡ (rs', ok r.row))
        × (r ≡ receipt_of x (h.revision + 1) false r.row)
  unfolding appended
  next_store x rs rs' r h good =
      let p =
        put_record o record_kind (scope_key o c x.scope) (c.encode (new_event o c h x))
          lim.max_artifact_bytes rs in
      elim (Result-cases p.1) [
        | inr (e, bad) ↦ absurd (ground arith)
        | inl (row, made) ↦
            let is_it : receipt_of x (h.revision + 1) false row ≡ r = ground arith in
            let its_row : row ≡ r.row = ap (λ (q : Receipt). q.row) is_it in
            let stored : p.0 ≡ rs' = ap (λ q. q.0) good in
            (
              ap (λ q. (p.0, q)) (made ∙ ap ok its_row) ∙ ap (λ q. (q, ok r.row)) stored,
              sym is_it ∙ ap (receipt_of x (h.revision + 1) false) its_row,
            )
      ]

  appended-Extended :
      (start : S) (x : Command) (rs rs' : RecordStore) (r : Receipt) (h : Held S)
      (history : List HistoryEntry) (contents : S)
      → IsFaithful apply o c h x
      → validate_command c lim x ≡ ok tt
      → load apply o c lim start x.scope rs ≡ ok (h, history)
      → find_where (has_operation x.operation_id) history ≡ none
      → tried apply o c lim x h history ≡ ok contents
      → appended apply o c lim x h rs ≡ (rs', ok r)
      → Extended start x h history rs' r
  appended-Extended start x rs rs' r h history contents faithful valid loaded unused accepted good =
      let (put, is_it) = next_store x rs rs' r h good in
      let n : Record = row_of apply o c lim h x in
      let content = c.encode (new_event o c h x) in
      let (its_row, stored, free, fits) =
        put_record-stored o record_kind (scope_key o c x.scope) content lim.max_artifact_bytes rs
          rs' r.row put in
      let now : load apply o c lim start x.scope (with_record n content rs)
          ≡ ok (
            record { revision = h.revision + 1; head = ref_of n; contents = contents },
            history ++ (record { row = n; event = read_event o c h x } ∷ []),
          ) =
        Loaded-load apply o c lim start x.scope (with_record n content rs) _ _ (
          Loaded-append apply o c lim start x rs h history contents faithful
            (load-Loaded apply o c lim start x.scope rs h history loaded) valid unused accepted free
            fits) in
      let after : load apply o c lim start x.scope rs'
          ≡ ok (
            record { revision = h.revision + 1; head = ref_of r.row; contents = contents },
            history ++ (record { row = r.row; event = read_event o c h x } ∷ []),
          ) =
        subst
          (λ (q : Record).
            load apply o c lim start x.scope rs'
            ≡ ok (
              record { revision = h.revision + 1; head = ref_of q; contents = contents },
              history ++ (record { row = q; event = read_event o c h x } ∷ []),
            ))
          (sym its_row) (ap (load apply o c lim start x.scope) stored ∙ now) in
      let (current, done, room) = tried-accepted apply o c lim x h history contents accepted in
      record {
        contents = contents;
        current = (==_iff h.revision x.expected_revision).0 current;
        done = done;
        after = after;
        again =
            repeated-again start x rs' h _ history r.row valid unused after
            ∙ ap (λ (q : Receipt). (rs', ok (record q { replayed = true }))) (sym is_it);
      }

  -- When Execute appends a command and reports success, the state and the history that the next Load
  -- finds are those that Load found before, with the event of this command at the end, its
  -- payload indented, the next revision, and the contents that the command made of the former ones; and
  -- the same command, given again, is answered with the same receipt, marked as replayed, and changes
  -- nothing. The text of the event is taken to be read back with the payload indented, which is the same
  -- to json.Marshal and to the command's effect.
  pub execute-Extended :
      (start : S) (x : Command) (rs rs' : RecordStore) (r : Receipt) (h : Held S)
      (history : List HistoryEntry)
      → load apply o c lim start x.scope rs ≡ ok (h, history)
      → IsFaithful apply o c h x
      → execute apply o c lim start x rs ≡ (rs', ok r)
      → r.replayed ≡ false
      → Extended start x h history rs' r
  unfolding execute checked_load
  execute-Extended start x rs rs' r h history loaded faithful good fresh =
      elim (Result-cases (validate_command c lim x)) [
        | inr (e, bad) ↦ absurd (ground arith)
        | inl (tt, valid) ↦
            elim (Option-cases (find_where (has_operation x.operation_id) history)) [
              | inr (e, there) ↦
                  (let replayed = repeated-replayed x e r (ground arith) in absurd (ground arith))
              | inl unused ↦ elim (Result-cases (tried apply o c lim x h history)) [
                | inr (e, bad) ↦ absurd (ground arith)
                | inl (contents, accepted) ↦
                    appended-Extended start x rs rs' r h history contents faithful valid loaded
                      unused accepted (ground arith)
              ]
            ]
      ]
