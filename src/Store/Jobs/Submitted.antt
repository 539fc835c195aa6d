-- ===== src/Store/Jobs/Submitted.antt =====
-- What Submit leaves behind.
use text.Mathlib.TextPositions.{eq_refl}
use agent_chun_su.Base.{
  ℕ, ◌≡◌, subst, refl, true, List, [], ◌∷◌, ◌++◌, String, Option, none, some, arith, Option-cases,
  inl, inr, sym, ◌∙◌, ◌≤◌, ◌<◌,
}
use agent_chun_su.Table.{find_by, find_where, length}
use agent_chun_su.Table.Laws.{find_by-append_none, find_where-append_none}
use agent_chun_su.Store.Status.{JobStatus}
use agent_chun_su.Store.Model.{Job, Artifact, File, Db, Home, Env, ok, job_key, available}
use agent_chun_su.Store.Txn.{Result-cases}
use agent_chun_su.Store.Rows.{insert_job, insert_artifact, same_path}
use agent_chun_su.Store.Disk.{write_file, read_file, read_artifact}
use agent_chun_su.Store.Jobs.{
  new_job, input_artifact, submitted_job, submit_rows, with_file, submit,
}
use agent_chun_su.Store.Jobs.Keys.{insert_job-new}

-- A file that was written is read back, under a limit that it keeps.
pub read_artifact-write_file :
    (env : Env) (a : Artifact) (input : List ℕ) (limit : ℕ) (disk disk' : List File)
    → write_file a.path input disk ≡ ok disk'
    → same_path a.path a.path ≡ true
    → a.content_state ≡ available
    → a.digest ≡ env.digest input
    → a.bytes ≡ length input
    → 0 < limit
    → length input ≤ limit
    → read_artifact env a limit disk' ≡ ok input
unfolding write_file read_artifact read_file
read_artifact-write_file env a input limit disk disk' w self here d b pos fits =
    elim (Option-cases (find_where (λ (f : File). same_path f.path a.path) disk)) [
      | inr (f, e) ↦ absurd (ground arith)
      | inl e ↦ ground (
        arith,
        eq_refl (env.digest input),
        find_where-append_none (λ (f : File). same_path f.path a.path) disk
            (record { path = a.path; content = input }) e self,
      )
    ]

insert_job-artifacts :
    (env : Env) (j : Job) (db db' : Db)
    → insert_job env j db ≡ ok db'
    → db'.artifacts ≡ db.artifacts
unfolding insert_job
insert_job-artifacts env j db db' h = ground arith

submitted_job-made :
    (env : Env) (group : String) (input : List ℕ) (request : Option String) (limit : ℕ) (j : Job)
    → submitted_job env group input request limit ≡ ok j
    → (j.status ≡ JobStatus.queued)
      × (same_path j.input_ref j.input_ref ≡ true)
      × (0 < limit)
      × (length input ≤ limit)
unfolding submitted_job
submitted_job-made env group input none limit j h = absurd (ground arith)
submitted_job-made env group input (some text) limit j h = (
  ground arith,
  subst (λ (k : Job). same_path k.input_ref k.input_ref ≡ true) made (ground arith),
  ground arith,
  ground arith,
)
  where
    made : new_job env group JobStatus.queued text ≡ j
    made = ground arith

submit_rows-added :
    (env : Env) (j k : Job) (input : List ℕ) (db db' : Db)
    → submit_rows env j input db ≡ ok (db', k)
    → (k ≡ j)
      × (find_by job_key j.id db'.jobs ≡ some j)
      × (db'.artifacts ≡ db.artifacts ++ (input_artifact env j input ∷ []))
unfolding submit_rows insert_artifact find_by
submit_rows-added env j k input db db' h = elim (Result-cases (insert_job env j db)) [
  | inr (e, bad) ↦ absurd (ground arith)
  | inl (db1, good) ↦
      (let new = insert_job-new env j db db1 good in
        (
          ground arith,
          ground (arith, find_by-append_none job_key j.id db.jobs (j ∷ []) new.0, new.1),
          ground (arith, insert_job-artifacts env j db db1 good),
        ))
]

-- What a submission that succeeds leaves.
pub record Submitted (env : Env) (input : List ℕ) (limit : ℕ) (h h' : Home) (j : Job) : Type 0 where
  queued : j.status ≡ JobStatus.queued
  found : find_by job_key j.id h'.db.jobs ≡ some j
  recorded : h'.db.artifacts ≡ h.db.artifacts ++ (input_artifact env j input ∷ [])
  readable : read_artifact env (input_artifact env j input) limit h'.disk ≡ ok input

-- A submission that succeeds queues a job that is found by its id, records its input, and the input
-- is read back intact.
pub submit-Submitted :
    (env : Env) (group : String) (input : List ℕ) (request : Option String) (limit : ℕ)
    (h h' : Home) (j : Job)
    → submit env group input request limit h ≡ (h', ok j)
    → Submitted env input limit h h' j
unfolding submit with_file
submit-Submitted env group input request limit h h' j done =
    elim (Result-cases (submitted_job env group input request limit)) [
      | inr (e, bad) ↦ absurd (ground arith)
      | inl (k, good) ↦ elim (Result-cases (write_file k.input_ref input h.disk)) [
        | inr (e, bad) ↦ absurd (ground arith)
        | inl (disk, there) ↦ elim (Result-cases (submit_rows env k input h.db)) [
          | inr (e, bad) ↦ absurd (ground arith)
          | inl ((db', m), rows) ↦
              (let made = submitted_job-made env group input request limit k good in
                let kept = submit_rows-added env k m input h.db db' rows in
                let back : m ≡ j = ground arith in
                let base : db' ≡ h'.db = ground arith in
                let disk_is : disk ≡ h'.disk = ground arith in
                let same : k ≡ j = sym kept.0 ∙ back in
                rw (← same, ← base, ← disk_is)
                  (record {
                    queued = made.0;
                    found = kept.1;
                    recorded = kept.2;
                    readable =
                        read_artifact-write_file env (input_artifact env k input) input limit h.disk
                          disk there (made.1) refl refl refl made.2 made.3;
                  }))
        ]
      ]
    ]
