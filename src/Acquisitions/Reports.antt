-- ===== src/Acquisitions/Reports.antt =====
-- Which sources are covered: Covered and RecordCoverage of internal/store/acquisition.go, with
-- IsExperiment and CanAdvanceCoverage of store.go.
use agent_chun_su.Base.{
  ℕ, Bool, true, false, List, [], ◌∷◌, ◌++◌, String, Option, none, some, ◌==◌, ◌&&◌, str_eq, not,
  if◌then◌else◌,
}
use agent_chun_su.Table.{find_by, find_where, exists, update_where}
use agent_chun_su.Store.Status.{JobStatus}
use agent_chun_su.Store.Model.{Db, Result, ok, err, no_rows, message, job_key}
use agent_chun_su.Store.Txn.{◌>>=◌, ◌>>◌, refuse_if, or_fail}
use agent_chun_su.Store.Resume.{Json, Codec, get, null, text, id_text, object}
use agent_chun_su.Acquisitions.{Coverage, Intake}

-- json.Unmarshal gives a string field no text.
abbrev pub has_no_text : Option Json → Bool
has_no_text none = true
has_no_text (some null) = true
has_no_text (some (text s)) = str_eq s ""
has_no_text (some (id_text n)) = n == 0
has_no_text (some _) = false

-- json.Unmarshal into a struct of one string field succeeds and gives no text.
abbrev pub has_blank : String → Option Json → Bool
has_blank k (some (object fs)) = has_no_text (get k fs)
has_blank k (some null) = true
has_blank k _ = false

unfoldable pub is_experiment : Codec → String → Bool
unfolding get
is_experiment c request = not (has_blank "experiment_of" (c.unmarshal request))

unfoldable can_advance_coverage : Codec → String → Bool
unfolding is_experiment
can_advance_coverage c request =
    not (is_experiment c request) && has_blank "delegated_from" (c.unmarshal request)

abbrev pub covers : ℕ → String → Coverage → Bool
covers connection source r = r.connection_id == connection && str_eq r.source_id source

abbrev pub has_fingerprint : String → Option Coverage → Bool
has_fingerprint f none = false
has_fingerprint f (some r) = str_eq r.fingerprint f

unfoldable pub covered : ℕ → String → String → Intake → Bool
covered connection source fingerprint i =
    has_fingerprint fingerprint (find_where (covers connection source) i.coverage)

abbrev pub set_coverage : Coverage → Coverage → Coverage
set_coverage n r = record r {
  fingerprint = n.fingerprint;
  job_id = n.job_id;
  reported_at = n.reported_at;
}

-- INSERT ... ON CONFLICT(connection_id,source_id) DO UPDATE.
unfoldable pub upsert_coverage : Coverage → List Coverage → List Coverage
upsert_coverage n rows =
    if exists (covers n.connection_id n.source_id) rows
    then update_where (covers n.connection_id n.source_id) (set_coverage n) rows
    else rows ++ (n ∷ [])

abbrev pub coverage_row : ℕ → ℕ → ℕ → String × String → Coverage
coverage_row connection job now (source, fingerprint) = record {
  connection_id = connection;
  source_id = source;
  fingerprint = fingerprint;
  job_id = job;
  reported_at = now;
}

-- The loop over the fingerprints, a map given as a list in the order of the range.
unfoldable pub record_all : ℕ → ℕ → ℕ → List (String × String) → List Coverage → List Coverage
unfolding upsert_coverage
record_all connection job now [] rows = rows
record_all connection job now (x ∷ xs) rows =
    record_all connection job now xs (upsert_coverage (coverage_row connection job now x) rows)

abbrev pub is_reported : JobStatus → Bool
is_reported JobStatus.completed = true
is_reported JobStatus.partial = true
is_reported _ = false

abbrev pub may_report : Codec → ℕ → Db → Result (Unit {0})
may_report c job db = do
  j ← or_fail (find_by job_key job db.jobs) no_rows
  refuse_if (is_experiment c j.request)
      (message "candidate experiments cannot advance production source coverage")
  refuse_if (not (is_reported j.status))
      (message "only an available validated report can advance source coverage")
  ok tt

unfoldable pub record_coverage :
    Codec → ℕ → ℕ → ℕ → List (String × String) → Db → Intake → Intake × Result (Unit {0})
unfolding is_experiment record_all
record_coverage c now connection job fingerprints db i = elim (may_report c job db) [
  | err e ↦ (i, err e)
  | ok u ↦ (record i { coverage = record_all connection job now fingerprints i.coverage }, ok tt)
]
