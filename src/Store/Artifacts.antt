-- ===== src/Store/Artifacts.antt =====
-- SaveArtifact of internal/store/store.go: a file that the host keeps for a job, and its row.
pub mod Saved
use agent_chun_su.Base.{ℕ, ◌+◌, Bool, List, String, ◌==◌, ltb}
use agent_chun_su.Table.{length}
use agent_chun_su.Store.Model.{
  Artifact, Content, Db, Home, Env, Result, ok, err, message, artifact_file,
}
use agent_chun_su.Store.Txn.{◌>>=◌, ◌>>◌, refuse_if, exec}
use agent_chun_su.Store.Rows.{insert_artifact}
use agent_chun_su.Store.Disk.{write_file}

-- `strings.HasSuffix(kind, "_markdown")` is an argument, `markdown`.
abbrev pub new_artifact : Env → ℕ → ℕ → String → Bool → List ℕ → Artifact
new_artifact env job attempt kind markdown content = record {
  id = env.fresh 0;
  job_id = job;
  attempt_id = attempt;
  kind = kind;
  path = artifact_file job (env.fresh 0) markdown;
  digest = env.digest content;
  bytes = length content;
  created_at = env.now;
  content_state = Content.available;
}

-- The checks of SaveArtifact. An attempt may be left out.
checked_artifact : Env → ℕ → ℕ → String → Bool → List ℕ → ℕ → Result Artifact
checked_artifact env job attempt kind markdown content limit = do
  refuse_if (job == 0) (message "invalid host identifier")
  refuse_if (ltb limit (length content)) (message "artifact exceeds configured limit")
  ok (new_artifact env job attempt kind markdown content)

save_row : Artifact → Db → Result (Db × Artifact)
save_row a db = do db' ← insert_artifact a db; ok (db', a)

unfoldable pub save_artifact :
    Env → ℕ → ℕ → String → Bool → List ℕ → ℕ → Home → Home × Result Artifact
unfolding checked_artifact save_row
save_artifact env job attempt kind markdown content limit h =
    elim (checked_artifact env job attempt kind markdown content limit) [
      | err e ↦ (h, err e)
      | ok a ↦ elim (write_file a.path content h.disk) [
        | err e ↦ (h, err e)
        | ok disk ↦
            let done = exec h.db (save_row a h.db) in (record { db = done.0; disk = disk }, done.1)
      ]
    ]
