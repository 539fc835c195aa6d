-- ===== src/Store/Workflow/Claim/Held.antt =====
-- Only the holder of a step registers outputs for it.
use agent_chun_su.Base.{
  ℕ, ◌≡◌, Bool, true, List, [], ◌∷◌, ◌++◌, String, some, arith, Option-cases, inl, inr,
}
use agent_chun_su.Table.{find_by}
use agent_chun_su.Store.Disk.{write_file}
use agent_chun_su.Store.Model.{Step, Artifact, Db, Home, Env, ok, step_key}
use agent_chun_su.Store.Txn.{Result-cases}
use agent_chun_su.Store.Rows.{insert_artifact}
use agent_chun_su.Store.Workflow.Claim.{
  step_is_held, held_job, register_artifact, prepared_artifact, save_step_artifact,
}

-- The row of an output, in the database that another writer may have changed.
pub record Registered (id attempt : ℕ) (db db' : Db) (a : Artifact) (s : Step) : Type 0 where
  step : find_by step_key id db.steps ≡ some s
  held : step_is_held s attempt db ≡ true
  of_job : a.job_id ≡ s.job_id
  added : db'.artifacts ≡ db.artifacts ++ (a ∷ [])
  steps_same : db'.steps ≡ db.steps

register_artifact-Registered :
    (id attempt : ℕ) (a b : Artifact) (db db' : Db)
    → register_artifact id attempt a db ≡ ok (db', b)
    → (s : Step) × Registered id attempt db db' b s
unfolding register_artifact held_job insert_artifact
register_artifact-Registered id attempt a b db db' h =
    elim (Option-cases (find_by step_key id db.steps)) [
      | inl e ↦ absurd (ground arith)
      | inr (s, e) ↦ (
        s,
        record {
          step = e;
          held = ground arith;
          of_job = ground arith;
          added = ground arith;
          steps_same = ground arith;
        },
      )
    ]

register_artifact-same :
    (id attempt : ℕ) (a b : Artifact) (db db' : Db)
    → register_artifact id attempt a db ≡ ok (db', b)
    → b ≡ a
unfolding register_artifact
register_artifact-same id attempt a b db db' h = elim (Result-cases (held_job id attempt db)) [
  | inr (e, bad) ↦ absurd (ground arith)
  | inl (job, e) ↦ elim (Result-cases (insert_artifact a db)) [
    | inr (x, bad) ↦ absurd (ground arith)
    | inl (db1, e') ↦ ground arith
  ]
]

prepared_artifact-made :
    (env : Env) (id attempt : ℕ) (kind : String) (markdown : Bool) (content : List ℕ) (limit : ℕ)
    (db : Db) (a : Artifact)
    → prepared_artifact env id attempt kind markdown content limit db ≡ ok a
    → (a.attempt_id ≡ attempt) × (a.digest ≡ env.digest content)
unfolding prepared_artifact
prepared_artifact-made env id attempt kind markdown content limit db a h =
    elim (Result-cases (held_job id attempt db)) [
      | inr (e, bad) ↦ absurd (ground arith)
      | inl (job, e) ↦ (ground arith, ground arith)
    ]

-- Whatever other writers do to the database while the file is written, the row of an output is added
-- only if, at that moment, the step runs under this attempt and the attempt runs too, in a staged job.
pub save_step_artifact-Registered :
    (env : Env) (meanwhile : Db → Db) (id attempt : ℕ) (kind : String) (markdown : Bool)
    (content : List ℕ) (limit : ℕ) (h h' : Home) (a : Artifact)
    → save_step_artifact env meanwhile id attempt kind markdown content limit h ≡ (h', ok a)
    → (a.attempt_id ≡ attempt)
      × (a.digest ≡ env.digest content)
      × (s : Step) × Registered id attempt (meanwhile h.db) h'.db a s
unfolding save_step_artifact
save_step_artifact-Registered env meanwhile id attempt kind markdown content limit h h' a done =
    elim (Result-cases (prepared_artifact env id attempt kind markdown content limit h.db)) [
      | inr (e, bad) ↦ absurd (ground arith)
      | inl (b, good) ↦ elim (Result-cases (write_file b.path content h.disk)) [
        | inr (e, bad) ↦ absurd (ground arith)
        | inl (disk, there) ↦
            elim (Result-cases (register_artifact id attempt b (meanwhile h.db))) [
              | inr (e, bad) ↦ absurd (ground arith)
              | inl ((db', c), reg) ↦
                  (let made =
                      prepared_artifact-made env id attempt kind markdown content limit h.db b
                        good in
                    let kept : c ≡ b =
                      register_artifact-same id attempt b c (meanwhile h.db) db' reg in
                    let back : c ≡ a = ground arith in
                    let base : db' ≡ h'.db = ground arith in
                    let r = register_artifact-Registered id attempt b c (meanwhile h.db) db' reg in
                    (ground (arith, made.0), ground (arith, made.1), r.0, rw (← back, ← base) r.1))
            ]
      ]
    ]
