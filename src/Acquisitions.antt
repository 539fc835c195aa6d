-- ===== src/Acquisitions.antt =====
-- internal/store/acquisition.go: the checkpoints of the collections from a connection, and which
-- sources the reports have covered.
pub mod Saved
pub mod Continuations
pub mod Reports
pub mod Overlay
use agent_chun_su.Base.{
  ℕ, Bool, List, [], ◌∷◌, ◌++◌, String, ◌==◌, ◌&&◌, ◌||◌, ltb, leb, str_eq, not, if◌then◌else◌,
}
use agent_chun_su.Table.{find_by, find_where, select, exists, update_where, length}
use agent_chun_su.Store.Model.{Job, Db, Env, Result, ok, err, no_rows, constraint, message}
use agent_chun_su.Store.Txn.{◌>>=◌, ◌>>◌, refuse_if, or_fail}
use agent_chun_su.Store.Queries.{sort_by}

-- The path state/acquisitions/<id>/<file>.json.
pub record StatePath : Type 0 where
  pub owner : ℕ
  pub file : ℕ

pub record Acquisition : Type 0 where
  pub id : ℕ
  pub connection_id : ℕ
  pub parent_id : ℕ
  pub status : String
  pub as_of : String
  pub not_before : ℕ
  pub path : StatePath
  pub digest : String
  pub bytes : ℕ
  pub job_id : ℕ
  pub created_at : ℕ
  pub updated_at : ℕ

-- A row of the table `source_coverage`.
pub record Coverage : Type 0 where
  pub connection_id : ℕ
  pub source_id : String
  pub fingerprint : String
  pub job_id : ℕ
  pub reported_at : ℕ

pub record StateFile : Type 0 where
  pub path : StatePath
  pub content : List ℕ

pub record Intake : Type 0 where
  pub acquisitions : List Acquisition
  pub coverage : List Coverage
  pub state_files : List StateFile

abbrev pub acquisition_key : Acquisition → ℕ
acquisition_key a = a.id

abbrev pub same_state_path : StatePath → StatePath → Bool
same_state_path p q = p.owner == q.owner && p.file == q.file

abbrev pub at_path : StatePath → StateFile → Bool
at_path p f = same_state_path f.path p

-- Acquisition and Continuation.
unfoldable find_acquisition : ℕ → Intake → Result Acquisition
find_acquisition id i = or_fail (find_by acquisition_key id i.acquisitions) no_rows

abbrev is_continuation : ℕ → Acquisition → Bool
is_continuation parent a = a.parent_id == parent

unfoldable continuation_of : ℕ → Intake → Result Acquisition
continuation_of parent i = or_fail (find_where (is_continuation parent) i.acquisitions) no_rows

-- `ORDER BY created_at DESC,id`.
abbrev later_first : Acquisition → Acquisition → Bool
later_first a b = ltb b.created_at a.created_at || (a.created_at == b.created_at && leb a.id b.id)

unfoldable acquisitions_of : ℕ → Intake → List Acquisition
unfolding sort_by
acquisitions_of connection i =
    sort_by later_first
      (select (λ a. connection == 0 || a.connection_id == connection) i.acquisitions)

-- The row that is inserted, with its file.
abbrev pub saved_row : Env → List ℕ → Acquisition → Acquisition
saved_row env content a = record a {
  created_at = if a.created_at == 0 then env.now else a.created_at;
  updated_at = env.now;
  digest = env.digest content;
  bytes = length content;
  path = record { owner = a.id; file = env.fresh 0 };
}

-- DO UPDATE SET.
abbrev pub set_checkpoint : Acquisition → Acquisition → Acquisition
set_checkpoint n r = record r {
  status = n.status;
  not_before = n.not_before;
  path = n.path;
  digest = n.digest;
  bytes = n.bytes;
  job_id = n.job_id;
  updated_at = n.updated_at;
}

abbrev pub has_acquisition_id : ℕ → Acquisition → Bool
has_acquisition_id id r = r.id == id

abbrev pub clashes : Acquisition → Acquisition → Bool
clashes a r = not (a.parent_id == 0) && r.parent_id == a.parent_id

-- INSERT ... ON CONFLICT(id) DO UPDATE, under the unique index on the parents that are not empty. The
-- conflict target is tested first.
unfoldable pub upsert_acquisition : Acquisition → List Acquisition → Result (List Acquisition)
upsert_acquisition a rows =
    if exists (has_acquisition_id a.id) rows
    then ok (update_where (has_acquisition_id a.id) (set_checkpoint a) rows)
    else (if exists (clashes a) rows then err constraint else ok (rows ++ (a ∷ [])))

unfoldable pub write_state : StatePath → List ℕ → List StateFile → Result (List StateFile)
write_state path content files =
    if exists (at_path path) files
    then err (message "file exists")
    else ok (files ++ (record { path = path; content = content } ∷ []))

unfoldable pub read_state : StatePath → ℕ → List StateFile → Result (List ℕ)
read_state path limit files = do
  refuse_if (limit == 0) (message "read limit must be positive")
  f ← or_fail (find_where (at_path path) files) (message "file does not exist")
  refuse_if (ltb limit (length f.content)) (message "file exceeds configured byte limit")
  ok f.content

-- What is refused before anything is written. The content is what encoding/json prints of the
-- payload.
unfoldable pub checked_save : List ℕ → ℕ → Acquisition → Result (Unit {0})
checked_save content limit a = do
  refuse_if (a.id == 0 || a.connection_id == 0) (message "invalid acquisition identity")
  refuse_if (ltb limit (length content)) (message "acquisition state exceeds configured byte limit")
  ok tt

-- SaveAcquisition: the file stays where the INSERT fails.
unfoldable pub save_acquisition :
    Env → List ℕ → ℕ → Acquisition → Intake → Intake × Result Acquisition
unfolding checked_save write_state upsert_acquisition
save_acquisition env content limit a i = elim (checked_save content limit a) [
  | err e ↦ (i, err e)
  | ok u ↦ elim (write_state (saved_row env content a).path content i.state_files) [
    | err e ↦ (i, err e)
    | ok files ↦ elim (upsert_acquisition (saved_row env content a) i.acquisitions) [
      | err e ↦ (record i { state_files = files }, err e)
      | ok rows ↦
          (record i { state_files = files; acquisitions = rows }, ok (saved_row env content a))
    ]
  ]
]

unfoldable pub read_acquisition : Env → Acquisition → ℕ → Intake → Result (List ℕ)
unfolding read_state
read_acquisition env a limit i = do
  b ← read_state a.path limit i.state_files
  refuse_if (not (length b == a.bytes) || not (str_eq (env.digest b) a.digest))
      (message "acquisition state integrity mismatch")
  ok b

-- JobForAcquisition.
unfoldable job_for_acquisition : Env → ℕ → Db → Result Job
job_for_acquisition env id db =
    or_fail (find_where (λ j. not (id == 0) && env.acquisition_of j.request == id) db.jobs) no_rows
