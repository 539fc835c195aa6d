-- ===== src/Ledger/Records.antt =====
-- PutRecord and ReadRecord of internal/store/records.go: a record is a row of the table `records` and the
-- file of its payload, whose text is given.

use Prim.Native.String.{len, ◌++◌ as join}
use agent_chun_su.Base.{
  ℕ, Bool, List, [], ◌∷◌, ◌++◌, String, ◌==◌, ◌||◌, ltb, str_eq, not, if◌then◌else◌,
}
use agent_chun_su.Table.{exists, find_where}
use agent_chun_su.Store.Model.{Result, ok, err, constraint, message}
use agent_chun_su.Store.Txn.{◌>>=◌, ◌>>◌, refuse_if, or_fail}

pub record Record : Type 0 where
  pub id : String
  pub kind : String
  pub subject_id : String
  pub path : String
  pub digest : String
  pub bytes : ℕ
  pub created_at : ℕ

pub record RecordFile : Type 0 where
  pub path : String
  pub content : String

pub record RecordStore : Type 0 where
  pub rows : List Record
  pub files : List RecordFile

-- What an operation takes from outside: the clock, a fresh identifier, SHA-256, and whether the audit log
-- takes the entry.
pub record Outside : Type 0 where
  pub now : ℕ
  pub fresh : String
  pub digest : String → String
  pub audited : Bool

unfoldable pub known_kind : String → Bool
unfolding exists
known_kind kind = exists (str_eq kind) (
    "case" ∷ "rubric" ∷ "evaluation" ∷ "evaluator_skill" ∷ "feedback" ∷ "finding" ∷ "proposal"
    ∷ "comparison" ∷ "decision" ∷ "release_policy" ∷ "check" ∷ "release_assessment"
    ∷ "review_request" ∷ "review_execution" ∷ "review_criteria" ∷ "skill_registration"
    ∷ "skill_feedback" ∷ "ops_event" ∷ [])

abbrev pub at_record_path : String → RecordFile → Bool
at_record_path path f = str_eq f.path path

unfoldable pub new_record : Outside → String → String → String → Record
new_record o kind subject content = record {
  id = o.fresh;
  kind = kind;
  subject_id = subject;
  path =
      join
        (if str_eq kind "proposal" || str_eq kind "decision" then "proposals/" else "evaluations/")
        (join o.fresh ".json");
  digest = o.digest content;
  bytes = len content;
  created_at = o.now;
}

abbrev pub with_file : Record → String → RecordStore → RecordStore
with_file r content rs = record rs {
  files = rs.files ++ (record { path = r.path; content = content } ∷ []);
}

abbrev pub has_record_id : String → Record → Bool
has_record_id id r = str_eq r.id id

-- The audit entry and the INSERT, once the file is written.
unfoldable pub insert_record : Outside → Record → List Record → Result (List Record)
unfolding exists
insert_record o r rows = do
  refuse_if (not o.audited) (message "audit entry was not written")
  refuse_if (exists (has_record_id r.id) rows) constraint
  ok (rows ++ (r ∷ []))

unfoldable pub check_record : String → String → ℕ → Record → RecordStore → Result (Unit {0})
unfolding known_kind exists
check_record kind content limit r rs = do
  refuse_if (not (known_kind kind)) (message "unsupported record kind")
  refuse_if (ltb limit (len content)) (message "record exceeds byte limit")
  refuse_if (exists (at_record_path r.path) rs.files) (message "file exists")

-- The file stays where the audit entry or the INSERT fails.
unfoldable pub put_record :
    Outside → String → String → String → ℕ → RecordStore → RecordStore × Result Record
unfolding new_record check_record insert_record
put_record o kind subject content limit rs =
    let r = new_record o kind subject content in
    elim (check_record kind content limit r rs) [
      | err e ↦ (rs, err e)
      | ok u ↦ elim (insert_record o r rs.rows) [
        | err e ↦ (with_file r content rs, err e)
        | ok rows ↦ (record (with_file r content rs) { rows = rows }, ok r)
      ]
    ]

unfoldable pub read_record : Outside → ℕ → Record → RecordStore → Result String
unfolding find_where
read_record o limit r rs = do
  refuse_if (limit == 0) (message "read limit must be positive")
  f ← or_fail (find_where (at_record_path r.path) rs.files) (message "file does not exist")
  refuse_if (ltb limit (len f.content)) (message "file exceeds configured byte limit")
  refuse_if (not (str_eq (o.digest f.content) r.digest) || not (len f.content == r.bytes))
      (message "record integrity mismatch")
  ok f.content
