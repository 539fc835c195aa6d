-- ===== src/Retention/Inventory.antt =====
-- The content of a job's run directory: inventory of internal/retention/retention.go, HashFile and
-- RemoveTree of internal/files/copy.go. A directory is there when a file is in it.
use agent_chun_su.Base.{
  ℕ, ◌+◌, ◌-◌, Bool, true, false, List, [], ◌∷◌, String, none, some, ◌==◌, ◌&&◌, ltb, str_eq, not,
}
use agent_chun_su.Table.{find_where, select, length, exists}
use agent_chun_su.Store.Model.{FilePath, File, Env, Result, ok, message, input_file, artifact_file}
use agent_chun_su.Store.Txn.{◌>>=◌, ◌>>◌, refuse_if}
use agent_chun_su.Store.Rows.{same_path}

pub record Entry : Type 0 where
  pub digest : String
  pub bytes : ℕ

-- The file is below runs/<job>.
abbrev pub in_run : ℕ → FilePath → Bool
in_run job (input_file j) = j == job
in_run job (artifact_file j a markdown) = j == job

unfoldable pub hash_file : Env → File → ℕ → Result Entry
hash_file env f limit = do
  refuse_if (ltb limit (length f.content)) (message "invalid or oversized regular file")
  ok (record { digest = env.digest f.content; bytes = length f.content })

-- The walk over the files, with the bytes so far.
unfoldable pub walk : Env → ℕ → ℕ → List File → Result (List (FilePath × Entry) × ℕ)
unfolding hash_file
walk env limit total [] = ok ([], total)
walk env limit total (f ∷ fs) = do
  e ← hash_file env f (limit - total)
  rest ← walk env limit (total + e.bytes) fs
  ok ((f.path, e) ∷ rest.0, rest.1)

abbrev pub run_files : ℕ → List File → List File
run_files job disk = select (λ f. in_run job f.path) disk

unfoldable pub inventory : Env → ℕ → ℕ → List File → Result (List (FilePath × Entry) × ℕ)
unfolding walk
inventory env job limit disk = do
  refuse_if (job == 0) (message "invalid job identity")
  refuse_if (not (exists (λ f. in_run job f.path) disk)) (message "no such directory")
  walk env limit 0 (run_files job disk)

abbrev pub same_entry : Entry → Entry → Bool
same_entry a b = str_eq a.digest b.digest && a.bytes == b.bytes

abbrev pub found_in : List (FilePath × Entry) → FilePath × Entry → Bool
found_in es (path, e) = elim (find_where (λ (r : FilePath × Entry). same_path r.0 path) es) [
  | none ↦ false
  | some r ↦ same_entry e r.1
]

unfoldable pub all_in : List (FilePath × Entry) → List (FilePath × Entry) → Bool
all_in es [] = true
all_in es (x ∷ xs) = found_in es x && all_in es xs

-- reflect.DeepEqual of two maps from paths to entries.
abbrev pub same_entries : List (FilePath × Entry) → List (FilePath × Entry) → Bool
same_entries xs ys = length xs == length ys && all_in ys xs

-- RemoveTree of a run directory.
abbrev pub removed : ℕ → List File → List File
removed job disk = select (λ f. not (in_run job f.path)) disk
