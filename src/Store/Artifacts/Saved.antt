-- ===== src/Store/Artifacts/Saved.antt =====
-- What is saved is read back.
use agent_chun_su.Base.{
  ℕ, ◌≡◌, subst, ◌≤◌, ◌<◌, refl, Bool, List, [], ◌∷◌, ◌++◌, String, arith, inl, inr, sym, ◌∙◌, true,
  false,
}
use agent_chun_su.Table.{length}
use agent_chun_su.Store.Model.{Artifact, Db, Home, Env, ok, artifact_file}
use agent_chun_su.Store.Txn.{Result-cases}
use agent_chun_su.Store.Rows.{insert_artifact, same_path}
use agent_chun_su.Store.Disk.{write_file, read_artifact}
use agent_chun_su.Store.Jobs.Submitted.{read_artifact-write_file}
use agent_chun_su.Store.Artifacts.{new_artifact, checked_artifact, save_row, save_artifact}

path_self :
    (job id : ℕ) (markdown : Bool)
    → same_path (artifact_file job id markdown) (artifact_file job id markdown) ≡ true
path_self job id true = ground arith
path_self job id false = ground arith

checked_artifact-made :
    (env : Env) (job attempt : ℕ) (kind : String) (markdown : Bool) (content : List ℕ) (limit : ℕ)
    (a : Artifact)
    → checked_artifact env job attempt kind markdown content limit ≡ ok a
    → (new_artifact env job attempt kind markdown content ≡ a) × (length content ≤ limit)
unfolding checked_artifact
checked_artifact-made env job attempt kind markdown content limit a h = (ground arith, ground arith)

save_row-added :
    (a b : Artifact) (db db' : Db)
    → save_row a db ≡ ok (db', b)
    → (a ≡ b) × (db'.artifacts ≡ db.artifacts ++ (a ∷ []))
unfolding save_row insert_artifact
save_row-added a b db db' h = (ground arith, ground arith)

-- What SaveArtifact has saved is recorded for the job, and is read back intact under any positive
-- limit that it fits.
save_artifact-read :
    (env : Env) (job attempt : ℕ) (kind : String) (markdown : Bool) (content : List ℕ)
    (limit within : ℕ) (h h' : Home) (a : Artifact)
    → save_artifact env job attempt kind markdown content limit h ≡ (h', ok a)
    → 0 < within
    → length content ≤ within
    → (a.job_id ≡ job)
      × (length content ≤ limit)
      × (h'.db.artifacts ≡ h.db.artifacts ++ (a ∷ []))
      × (read_artifact env a within h'.disk ≡ ok content)
unfolding save_artifact
save_artifact-read env job attempt kind markdown content limit within h h' a done pos fits =
    elim (Result-cases (checked_artifact env job attempt kind markdown content limit)) [
      | inr (e, bad) ↦ absurd (ground arith)
      | inl (b, good) ↦ elim (Result-cases (write_file b.path content h.disk)) [
        | inr (e, bad) ↦ absurd (ground arith)
        | inl (disk, there) ↦ elim (Result-cases (save_row b h.db)) [
          | inr (e, bad) ↦ absurd (ground arith)
          | inl ((db', c), row) ↦
              (let made =
                  checked_artifact-made env job attempt kind markdown content limit b good in
                let kept = save_row-added b c h.db db' row in
                let new = new_artifact env job attempt kind markdown content in
                let back : c ≡ a = ground arith in
                let same : new ≡ a = made.0 ∙ (kept.0 ∙ back) in
                let base : db' ≡ h'.db = ground arith in
                let disk_is : disk ≡ h'.disk = ground arith in
                let old : b ≡ a = kept.0 ∙ back in
                (
                  rw (← same) refl,
                  made.1,
                  rw (← base, ← old) kept.1,
                  rw (← same, ← disk_is)
                      (read_artifact-write_file env new content within h.disk disk
                        (subst (λ (x : Artifact). write_file x.path content h.disk ≡ ok disk)
                          (sym made.0) there)
                        (path_self job (env.fresh 0) markdown) refl refl refl pos fits),
                ))
        ]
      ]
    ]
