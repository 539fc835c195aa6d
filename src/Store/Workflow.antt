-- ===== src/Store/Workflow.antt =====
-- internal/store/workflow.go: jobs that run as an ordered list of steps with dependencies, gates and
-- pinned inputs. The operations on the steps stand in the children, after what they share here.
pub mod Settled
pub mod Spec
pub mod Ready
pub mod Claim
pub mod Complete
pub mod Control
pub mod Inputs
pub mod Calls
use agent_chun_su.Base.{
  ℕ, Bool, true, false, List, [], ◌∷◌, ◌++◌, String, Option, none, some, ◌==◌, ◌&&◌, ◌||◌, leb,
  str_eq, not, if◌then◌else◌,
}
use agent_chun_su.Table.{find_by, find_where, select}
use agent_chun_su.Store.Status.{StepState, is_completed_step}
use agent_chun_su.Store.Model.{
  Artifact, PinnedArtifactRef, Job, WorkflowJob, Step, Db, Result, ok, err, no_rows, message,
  job_key, workflow_key,
}
use agent_chun_su.Store.Txn.{◌>>=◌, ◌>>◌, refuse_if, or_fail}
use agent_chun_su.Store.Disk.{is_available}

-- `workflow_jobs w JOIN jobs j ON j.id=w.job_id WHERE w.job_id=?`.
unfoldable pub workflow_of : ℕ → Db → Result (WorkflowJob × Job)
workflow_of job db = do
  w ← or_fail (find_by workflow_key job db.workflows) no_rows
  j ← or_fail (find_by job_key job db.jobs) no_rows
  ok (w, j)

-- `WHERE job_id=? ORDER BY ordinal`.
unfoldable pub insert_ordered : Step → List Step → List Step
insert_ordered s [] = s ∷ []
insert_ordered s (t ∷ ts) =
    let rest = insert_ordered s ts in if leb s.ordinal t.ordinal then s ∷ t ∷ ts else t ∷ rest

unfoldable pub order : List Step → List Step
unfolding insert_ordered
order [] = []
order (s ∷ ss) = insert_ordered s (order ss)

unfoldable pub step_list : ℕ → List Step → List Step
unfolding order
step_list job steps = order (select (λ s. s.job_id == job) steps)

-- The map `byKey`: the last step with the key.
unfoldable pub by_key : String → List Step → Option Step
by_key k [] = none
by_key k (s ∷ ss) = elim (by_key k ss) [
  | some t ↦ some t
  | none ↦ if str_eq s.key k then some s else none
]

-- The outputs of the dependencies, `none` unless each is completed.
unfoldable pub dependency_refs : List Step → List String → Option (List PinnedArtifactRef)
unfolding by_key
dependency_refs steps [] = some []
dependency_refs steps (k ∷ ks) = elim (by_key k steps) [
  | none ↦ none
  | some dep ↦
      if not (is_completed_step dep.state) || dep.output_artifact_id == 0
      then none
      else elim (dependency_refs steps ks) [
        | none ↦ none
        | some refs ↦ some (record { artifact_id = dep.output_artifact_id; digest = "" } ∷ refs)
      ]
]

unfoldable pub resolved_inputs : List Step → Step → Option (List PinnedArtifactRef)
unfolding dependency_refs
resolved_inputs steps step = elim (dependency_refs steps step.depends_on) [
  | none ↦ none
  | some refs ↦ some (step.input_artifacts ++ refs)
]

unfoldable pub seen_id : ℕ → List ℕ → Bool
seen_id x [] = false
seen_id x (y ∷ ys) = x == y || seen_id x ys

-- `SELECT digest,content_state FROM artifacts WHERE id=? AND job_id=?` and the check of one pin.
pin_one : Db → ℕ → PinnedArtifactRef → Result PinnedArtifactRef
pin_one db job ref = do
  a ←
      or_fail
        (find_where (λ (a : Artifact). a.id == ref.artifact_id && a.job_id == job) db.artifacts)
        no_rows
  refuse_if
      (not (is_available a.content_state)
        || (not (str_eq ref.digest "") && not (str_eq ref.digest a.digest)))
      (message "pinned artifact is unavailable or digest changed")
  ok (record { artifact_id = ref.artifact_id; digest = a.digest })

-- The loop of pinInputsTx; `seen` are the ids in the output so far.
pin_loop : Db → ℕ → List ℕ → List PinnedArtifactRef → Result (List PinnedArtifactRef)
unfolding seen_id pin_one
pin_loop db job seen [] = ok []
pin_loop db job seen (ref ∷ refs) = elim (seen_id ref.artifact_id seen) [
  | true ↦ pin_loop db job seen refs
  | false ↦ do
    pin ← pin_one db job ref
    rest ← pin_loop db job (ref.artifact_id ∷ seen) refs
    ok (pin ∷ rest)
]

unfoldable pub pin_inputs : Db → ℕ → List PinnedArtifactRef → Result (List PinnedArtifactRef)
unfolding pin_loop
pin_inputs db job refs = pin_loop db job [] refs
