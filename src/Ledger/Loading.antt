-- ===== src/Ledger/Loading.antt =====
-- Load of a ledger that has one more record.

use Prim.Native.String.{len}
use agent_chun_su.Base.{
  ◌≡◌, ◌∙◌, refl, ap, inl, inr, ℕ, true, false, List, [], ◌∷◌, ◌++◌, String, none, arith, ◌+◌, ◌≤◌,
  ltb, Bool-cases,
}
use agent_chun_su.Table.{select, exists, find_where, All}
use agent_chun_su.Table.Laws.{All-map}
use agent_chun_su.Store.Model.{Result, ok}
use agent_chun_su.Store.Txn.{Result-cases}
use agent_chun_su.Store.Queries.{sort_by}
use agent_chun_su.Ledger.Records.{Record, RecordStore, Outside, at_record_path}
use agent_chun_su.Ledger.{
  Scope, Command, Event, HistoryEntry, Limits, Codec, scope_ok, of_scope, validate_command,
  checked_total, read_entries, by_revision, has_operation, Held, ref_of, replay, empty_state, load,
}
use agent_chun_su.Ledger.Execution.{existing_bytes, new_event, tried}
use agent_chun_su.Ledger.Appended.{
  select-append, sort_by-append, sort_by-All, read_entries-append, checked_total-sorted,
  checked_total-append,
}
use agent_chun_su.Ledger.Replayed.{
  replay-keeps, seen_after, seen_after-exists, replay-append, replay-bounded,
}
use agent_chun_su.Ledger.Stored.{with_record}
use agent_chun_su.Ledger.Fresh.{
  IsFaithful, read_event, row_of, row_of-of_scope, row_of-bytes, tried-accepted, replay_one-new,
  read_entry-new,
}

module _ {S : Type 0} (apply : ℕ → Command → String → S → Result S) (o : Outside) (c : Codec)
    (lim : Limits) where
  -- What Load goes through.
  pub record Loaded (start : S) (scope : Scope) (rs : RecordStore) (h : Held S)
      (history : List HistoryEntry) : Type 0 where
    total : ℕ
    entries : List HistoryEntry
    in_scope : scope_ok scope ≡ true
    in_budget :
        checked_total lim.max_evidence_bytes 0 (select (of_scope o c scope) rs.rows) ≡ ok total
    are_read : read_entries o c lim rs (select (of_scope o c scope) rs.rows) ≡ ok entries
    replays :
        replay apply o c lim scope [] (empty_state apply start) (sort_by by_revision entries) ≡ ok h
    in_order : sort_by by_revision entries ≡ history

  pub load-Loaded :
      (start : S) (scope : Scope) (rs : RecordStore) (h : Held S) (history : List HistoryEntry)
      → load apply o c lim start scope rs ≡ ok (h, history)
      → Loaded start scope rs h history
  unfolding load
  load-Loaded start scope rs h history g = elim (Bool-cases (scope_ok scope)) [
    | inr bad ↦ absurd (ground arith)
    | inl fine ↦
        elim (Result-cases
          (checked_total lim.max_evidence_bytes 0 (select (of_scope o c scope) rs.rows))) [
            | inr (e, bad) ↦ absurd (ground arith)
            | inl (total, fits) ↦
                elim (Result-cases
                  (read_entries o c lim rs (select (of_scope o c scope) rs.rows))) [
                    | inr (e, bad) ↦ absurd (ground arith)
                    | inl (entries, read) ↦
                        elim (Result-cases (
                          replay apply o c lim scope [] (empty_state apply start)
                            (sort_by by_revision entries))) [
                              | inr (e, bad) ↦ absurd (ground arith)
                              | inl (k, done) ↦
                                  let same : k ≡ h = ground arith in
                                  record {
                                    total = total;
                                    entries = entries;
                                    in_scope = fine;
                                    in_budget = fits;
                                    are_read = read;
                                    replays = done ∙ ap ok same;
                                    in_order = ground arith;
                                  }
                            ]
                  ]
          ]
  ]

  -- What holds at first, and of what each command makes, holds of every state that Load returns.
  pub load-keeps {κ} :
      (P : S → Type κ)
      → ((revision : ℕ) (x : Command) (at : String) (s s' : S)
          → apply revision x at s ≡ ok s'
          → P s
          → P s')
      → (start : S) (scope : Scope) (rs : RecordStore) (h : Held S) (history : List HistoryEntry)
      → load apply o c lim start scope rs ≡ ok (h, history)
      → P start
      → P h.contents
  load-keeps P step start scope rs h history g p =
      let l = load-Loaded start scope rs h history g in
      replay-keeps apply o c lim scope P step [] (empty_state apply start) h
        (sort_by by_revision l.entries) l.replays p

  pub Loaded-load :
      (start : S) (scope : Scope) (rs : RecordStore) (h : Held S) (history : List HistoryEntry)
      → Loaded start scope rs h history
      → load apply o c lim start scope rs ≡ ok (h, history)
  unfolding load
  Loaded-load start scope rs h history l =
      rw (l.in_scope, l.in_budget, l.are_read, l.replays, l.in_order) refl

  -- One more record of the scope, whose event is the next one.
  pub Loaded-append :
      (start : S) (x : Command) (rs : RecordStore) (h : Held S) (history : List HistoryEntry)
      (contents : S)
      → IsFaithful apply o c h x
      → Loaded start x.scope rs h history
      → validate_command c lim x ≡ ok tt
      → find_where (has_operation x.operation_id) history ≡ none
      → tried apply o c lim x h history ≡ ok contents
      → exists (at_record_path (row_of apply o c lim h x).path) rs.files ≡ false
      → ltb lim.max_artifact_bytes (len (c.encode (new_event o c h x))) ≡ false
      → Loaded start x.scope
          (with_record (row_of apply o c lim h x) (c.encode (new_event o c h x)) rs)
          (record {
            revision = h.revision + 1;
            head = ref_of (row_of apply o c lim h x);
            contents = contents;
          })
          (history ++ (record { row = row_of apply o c lim h x; event = read_event o c h x } ∷ []))
  unfolding exists
  Loaded-append start x rs h history contents faithful l valid unused accepted free fits =
      let e : Event = read_event o c h x in
      let content = c.encode (new_event o c h x) in
      let n : Record = row_of apply o c lim h x in
      let entry : HistoryEntry = record { row = n; event = e } in
      let sorted : List HistoryEntry = sort_by by_revision l.entries in
      let of_it = of_scope o c x.scope in
      let rows = select-append of_it rs.rows n (row_of-of_scope apply o c lim h x) in
      let (current, done, room) = tried-accepted apply o c lim x h history contents accepted in
      let total : l.total ≡ existing_bytes history =
        checked_total-sorted o c lim rs by_revision lim.max_evidence_bytes l.total
          (select of_it rs.rows) l.entries l.in_budget l.are_read
        ∙ ap existing_bytes l.in_order in
      let bounded =
        replay-bounded apply o c lim x.scope [] (empty_state apply start) h sorted l.replays in
      let last : All (λ (y : HistoryEntry). by_revision y entry ≡ true) l.entries =
        All-map (λ (y : HistoryEntry). y.event.revision ≤ h.revision) _ (λ y b. ground arith)
          l.entries (sort_by-All by_revision _ l.entries bounded.1) in
      let in_place = sort_by-append by_revision l.entries entry last in
      let new =
        seen_after-exists x.operation_id [] sorted refl
          (ap (find_where (has_operation x.operation_id)) l.in_order ∙ unused) in
      record {
        total = l.total + n.bytes;
        entries = l.entries ++ (entry ∷ []);
        in_scope = l.in_scope;
        in_budget = rw rows (
            checked_total-append lim.max_evidence_bytes 0 l.total (select of_it rs.rows) n
              l.in_budget (rw (row_of-bytes apply o c lim h x) faithful.is_text)
              (rw (row_of-bytes apply o c lim h x, total) room));
        are_read = rw rows (
            read_entries-append o c lim rs n content (rs.rows ++ (n ∷ [])) entry
              (read_entry-new apply o c lim x h rs faithful free fits) (select of_it rs.rows)
              l.entries l.are_read);
        replays = rw in_place (
            replay-append apply o c lim x.scope [] (empty_state apply start) h _ sorted entry
              l.replays
              (replay_one-new apply o c lim x h contents (seen_after [] sorted) n faithful valid
                current done new));
        in_order = in_place ∙ ap (λ es. es ++ (entry ∷ [])) l.in_order;
      }
