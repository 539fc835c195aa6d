-- ===== src/Ledger/Stored.antt =====
-- What PutRecord leaves, and what ReadRecord reads of it.

use Prim.Native.String.{len}
use agent_chun_su.Base.{
  ◌≡◌, sym, subst, inl, inr, ℕ, true, false, [], ◌∷◌, ◌++◌, String, arith, ◌==◌, ltb, str_eq,
  eq_iff, Bool-cases,
}
use agent_chun_su.Table.{exists}
use agent_chun_su.Table.Laws.{exists-find_where, find_where-append_none}
use agent_chun_su.Store.Model.{ok}
use agent_chun_su.Store.Txn.{Result-cases}
use agent_chun_su.Ledger.Records.{
  Record, RecordFile, RecordStore, Outside, at_record_path, new_record, known_kind, check_record,
  with_file, insert_record, put_record, read_record,
}

pub str_eq-same : (s : String) → str_eq s s ≡ true
str_eq-same s = ground (arith, eq_iff s s)

-- The store that a successful PutRecord leaves.
abbrev pub with_record : Record → String → RecordStore → RecordStore
with_record r content rs = record (with_file r content rs) { rows = rs.rows ++ (r ∷ []) }

check_record-new :
    (kind content : String) (limit : ℕ) (r : Record) (rs : RecordStore) (u : Unit {0})
    → check_record kind content limit r rs ≡ ok u
    → (exists (at_record_path r.path) rs.files ≡ false) × (ltb limit (len content) ≡ false)
unfolding check_record
check_record-new kind content limit r rs u h = elim (Bool-cases (known_kind kind)) [
  | inr bad ↦ absurd (ground arith)
  | inl fine ↦ elim (Bool-cases (ltb limit (len content))) [
    | inl large ↦ absurd (ground arith)
    | inr fits ↦ elim (Bool-cases (exists (at_record_path r.path) rs.files)) [
      | inl there ↦ absurd (ground arith)
      | inr free ↦ (free, fits)
    ]
  ]
]

pub put_record-stored :
    (o : Outside) (kind subject content : String) (limit : ℕ) (rs rs' : RecordStore) (r : Record)
    → put_record o kind subject content limit rs ≡ (rs', ok r)
    → (r ≡ new_record o kind subject content)
      × (rs' ≡ with_record (new_record o kind subject content) content rs)
      × (exists (at_record_path (new_record o kind subject content).path) rs.files ≡ false)
      × (ltb limit (len content) ≡ false)
unfolding put_record check_record insert_record
put_record-stored o kind subject content limit rs rs' r h =
    let n = new_record o kind subject content in
    elim (Result-cases (check_record kind content limit n rs)) [
      | inr (e, bad) ↦ absurd (ground arith)
      | inl (u, good) ↦ elim (Result-cases (insert_record o n rs.rows)) [
        | inr (e, bad) ↦ absurd (ground arith)
        | inl (rows, kept) ↦
            let same : rs.rows ++ (n ∷ []) ≡ rows = ground arith in
            let stored : rs' ≡ record (with_file n content rs) { rows = rows } = ground arith in
            (
              ground arith,
              subst (λ rows. rs' ≡ record (with_file n content rs) { rows = rows }) (sym same)
                  stored,
              (check_record-new kind content limit n rs u good).0,
              (check_record-new kind content limit n rs u good).1,
            )
      ]
    ]

pub read_record-new :
    (o : Outside) (kind subject content : String) (limit : ℕ) (rs : RecordStore)
    → exists (at_record_path (new_record o kind subject content).path) rs.files ≡ false
    → ltb limit (len content) ≡ false
    → (len content == 0) ≡ false
    → read_record o limit
        (new_record o kind subject content)
        (with_record (new_record o kind subject content) content rs)
      ≡ ok content
unfolding read_record new_record
read_record-new o kind subject content limit rs new fits some_ =
    let n = new_record o kind subject content in
    let f : RecordFile = record { path = n.path; content = content } in
    let none_ = exists-find_where (at_record_path n.path) rs.files new in
    let found =
      find_where-append_none (at_record_path n.path) rs.files f none_ (str_eq-same n.path) in
    let positive : (limit == 0) ≡ false = ground arith in
    rw (positive, found, fits, str_eq-same (o.digest content)) (ground arith)
