-- ===== src/Store/Disk.antt =====
-- The files of a data home: internal/files (Read and Write below the root, without the checks on
-- links, owners and modes, which the operating system answers) and ReadArtifact of
-- internal/store/store.go.
use agent_chun_su.Base.{
  ℕ, Bool, true, false, List, [], ◌∷◌, ◌++◌, none, some, ◌==◌, ◌||◌, ltb, str_eq, not,
}
use agent_chun_su.Table.{find_where, length}
use agent_chun_su.Store.Model.{
  Artifact, Content, FilePath, File, Env, Result, ok, err, message, available, retiring, purged,
}
use agent_chun_su.Store.Txn.{◌>>=◌, ◌>>◌, refuse_if, or_fail}
use agent_chun_su.Store.Rows.{same_path}

unfoldable pub read_file : FilePath → ℕ → List File → Result (List ℕ)
read_file path limit disk = do
  refuse_if (limit == 0) (message "read limit must be positive")
  f ←
      or_fail (find_where (λ (f : File). same_path f.path path) disk)
        (message "file does not exist")
  refuse_if (ltb limit (length f.content)) (message "file exceeds configured byte limit")
  ok f.content

-- With `replace` false: a file that is there is never overwritten.
unfoldable pub write_file : FilePath → List ℕ → List File → Result (List File)
write_file path content disk = elim (find_where (λ (f : File). same_path f.path path) disk) [
  | some f ↦ err (message "file exists")
  | none ↦ ok (disk ++ (record { path = path; content = content } ∷ []))
]

abbrev pub is_available : Content → Bool
is_available available = true
is_available retiring = false
is_available purged = false

unfoldable pub read_artifact : Env → Artifact → ℕ → List File → Result (List ℕ)
read_artifact env a limit disk = do
  refuse_if (not (is_available a.content_state))
      (message "artifact content was explicitly retired and is no longer available")
  b ← read_file a.path limit disk
  refuse_if (not (str_eq (env.digest b) a.digest) || not (length b == a.bytes))
      (message "artifact integrity check failed")
  ok b
