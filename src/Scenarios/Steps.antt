-- ===== src/Scenarios/Steps.antt =====
-- The steps of the job: claimed, completed, promoted, superseded, cancelled.
use agent_chun_su.Store.Disk.{read_artifact, read_file, write_file}
use agent_chun_su.Store.Rows.{insert_step_attempt, insert_artifact, insert_step_row}
use agent_chun_su.Table.{count_where, exists, find_by, find_where, select, length, All}
use agent_chun_su.Store.Workflow.{pin_inputs, resolved_inputs, workflow_of}
use agent_chun_su.Base.{ℕ, ◌≡◌, refl, true, false, List, [], ◌∷◌, some, ◌+◌, ◌++◌}
use agent_chun_su.Table.{find_by, find_where, exists, count_where, All, Apart}
use agent_chun_su.Store.Status.{StepState, is_staged, is_running_step}
use agent_chun_su.Store.Model.{
  Job, WorkflowJob, PinnedArtifactRef, StepAttempt, Step, Artifact, Db, Home, Env, ok, err,
  stale_step, step_key,
}
use agent_chun_su.Store.Rows.{insert_step_attempt}
use agent_chun_su.Store.Workflow.{workflow_of, step_list, resolved_inputs, pin_inputs}
use agent_chun_su.Store.Workflow.Inputs.{IsMet, IsPinned, OtherId}
use agent_chun_su.Store.Workflow.Spec.{append_steps, keys}
use agent_chun_su.Store.Workflow.Spec.Appended.{Appended, spec_keys, append_steps-Appended}
use agent_chun_su.Store.Workflow.Claim.{
  claim_step, save_step_artifact, new_step_attempt, step_artifact,
}
use agent_chun_su.Store.Workflow.Claim.Exclusive.{
  run_claims, claim_step-exclusive, claim_step-inputs,
}
use agent_chun_su.Store.Workflow.Claim.Held.{Registered, save_step_artifact-Registered}
use agent_chun_su.Store.Workflow.Complete.{complete_step, set_finished}
use agent_chun_su.Store.Workflow.Complete.Once.{IsVerified, complete_step-IsVerified}
use agent_chun_su.Store.Workflow.Calls.{
  StepCall, completes, claims, retries, readies, step_calls, complete_step-once,
}
use agent_chun_su.Store.Workflow.Ready.{ready_step}
use agent_chun_su.Store.Workflow.Ready.Promotion.{Promotion}
use agent_chun_su.Store.Workflow.Control.{pause_job, cancel, supersede_job_revision}
use agent_chun_su.Store.Workflow.Control.Quiet.{
  IsQuiet, IsRevised, cancel-IsQuiet, supersede_job_revision-IsRevised,
}
use agent_chun_su.Scenarios.{
  clock, pin, step, step_attempt, staged_db, first_step, second_step, output_of, output_file, spec,
}

abbrev before_claim : Db
before_claim =
    staged_db (first_step StepState.ready 0 0 ∷ second_step StepState.pending 0 0 ∷ []) [] [] []

abbrev claimed : StepAttempt
claimed = new_step_attempt (clock 5 40) (first_step StepState.ready 0 0) 0 (pin 30 ∷ [])

-- Another executor tries both steps.
abbrev other_claims : List (Env × ℕ × ℕ)
other_claims = (clock 6 41, 11, 0) ∷ (clock 7 42, 12, 0) ∷ []

claim_step-exclusive_example :
    claim_step
      (clock 9 50)
      11
      40
      (run_claims other_claims (claim_step (clock 5 40) 11 0 before_claim).0)
    ≡ (run_claims other_claims (claim_step (clock 5 40) 11 0 before_claim).0, err stale_step)
unfolding claim_step find_by workflow_of resolved_inputs pin_inputs find_where insert_step_attempt
    exists count_where
claim_step-exclusive_example =
    claim_step-exclusive (clock 5 40) (clock 9 50) 11 0 40 before_claim
      (claim_step (clock 5 40) 11 0 before_claim).0 claimed other_claims refl

-- The second step, once the first is completed with the output 31.
abbrev second_inputs : List PinnedArtifactRef
second_inputs = pin 31 ∷ []

abbrev before_second : Db
before_second =
    staged_db (first_step StepState.completed 40 31 ∷ second_step StepState.ready 0 0 ∷ [])
      (step_attempt 40 11 StepState.completed ∷ []) (output_of 31 1 40 ∷ []) []

abbrev second_attempt : StepAttempt
second_attempt = new_step_attempt (clock 7 60) (second_step StepState.ready 0 0) 0 second_inputs

claim_step-inputs_example :
    (s : Step) × (find_by step_key 12 before_second.steps ≡ some s)
    × ((w : WorkflowJob) × (j : Job) × (workflow_of s.job_id before_second ≡ ok (w, j))
        × (w.paused ≡ false)
        × (is_staged j.status ≡ true))
    × All (IsMet (step_list s.job_id before_second.steps)) s.depends_on
    × All (IsPinned before_second s.job_id) second_attempt.inputs
    × Apart OtherId second_attempt.inputs
unfolding claim_step find_by workflow_of resolved_inputs step_list select pin_inputs find_where
    insert_step_attempt exists count_where
claim_step-inputs_example =
    claim_step-inputs (clock 7 60) 12 0 before_second (claim_step (clock 7 60) 12 0 before_second).0
      second_attempt refl

-- The first step at work.
abbrev at_work : List Artifact → Db
at_work artifacts =
    staged_db (first_step StepState.running 40 0 ∷ second_step StepState.pending 0 0 ∷ [])
      (step_attempt 40 11 StepState.running ∷ []) artifacts []

abbrev with_output : Db
with_output = at_work (output_of 31 1 40 ∷ [])

-- The step is claimed and tried again, and the next one promoted.
abbrev later_calls : List (Env × StepCall)
later_calls =
    (clock 8 0, retries 11 40)
    ∷ (clock 8 0, readies 1)
    ∷ (clock 9 60, claims 11 40)
    ∷ (clock 9 0, completes [] 11 60 0 StepState.failed)
    ∷ []

complete_step-once_example :
    (complete_step (clock 8 0) [] 11 40 0 StepState.failed (
      step_calls later_calls
        (complete_step
          (clock 7 0)
          (output_file ∷ [])
          11
          40
          31
          StepState.completed
          with_output).0)).0
    ≡ step_calls later_calls
        (complete_step (clock 7 0) (output_file ∷ []) 11 40 31 StepState.completed with_output).0
unfolding complete_step find_by find_where read_artifact read_file count_where
complete_step-once_example =
    complete_step-once (clock 7 0) (clock 8 0) (output_file ∷ []) [] 11 40 40 31 0 StepState.failed
      with_output
      (complete_step (clock 7 0) (output_file ∷ []) 11 40 31 StepState.completed with_output).0
      (set_finished (clock 7 0) StepState.completed 31 (first_step StepState.running 40 0))
      later_calls refl

complete_step-IsVerified_example :
    (s : Step) × (find_by step_key 11 with_output.steps ≡ some s)
    × (is_running_step s.state ≡ true)
    × (s.current_attempt_id ≡ 40)
    × ((set_finished
          (clock 7 0)
          StepState.completed
          31
          (first_step StepState.running 40 0)).output_artifact_id
        ≡ 31)
    × IsVerified (clock 7 0) (output_file ∷ []) 31 s.job_id 40 with_output
unfolding complete_step find_by find_where read_artifact read_file count_where
complete_step-IsVerified_example =
    complete_step-IsVerified (clock 7 0) (output_file ∷ []) 11 40 31 with_output
      (complete_step (clock 7 0) (output_file ∷ []) 11 40 31 StepState.completed with_output).0
      (set_finished (clock 7 0) StepState.completed 31 (first_step StepState.running 40 0)) refl

-- Another writer pauses the workflow while the file is written.
abbrev paused_by_other : Db → Db
paused_by_other db = (pause_job (clock 6 0) 1 db).0

abbrev home_at_work : Home
home_at_work = record { db = at_work []; disk = [] }

save_step_artifact-Registered_example :
    ((step_artifact (clock 6 31) 1 40 "draft" false (7 ∷ [])).attempt_id ≡ 40)
    × ((step_artifact (clock 6 31) 1 40 "draft" false (7 ∷ [])).digest ≡ "full")
    × (s : Step) × Registered 11 40
        (paused_by_other (at_work []))
        (save_step_artifact
          (clock 6 31)
          paused_by_other
          11
          40
          "draft"
          false
          (7 ∷ [])
          100
          home_at_work).0.db
        (step_artifact (clock 6 31) 1 40 "draft" false (7 ∷ []))
        s
unfolding save_step_artifact find_by write_file find_where pause_job count_where exists
    insert_artifact
save_step_artifact-Registered_example =
    save_step_artifact-Registered (clock 6 31) paused_by_other 11 40 "draft" false (7 ∷ []) 100
      home_at_work
      (save_step_artifact (clock 6 31) paused_by_other 11 40 "draft" false (7 ∷ []) 100
        home_at_work).0
      (step_artifact (clock 6 31) 1 40 "draft" false (7 ∷ [])) refl

abbrev before_promotion : Db
before_promotion =
    staged_db (first_step StepState.completed 40 31 ∷ second_step StepState.pending 0 0 ∷ [])
      (step_attempt 40 11 StepState.completed ∷ []) (output_of 31 1 40 ∷ []) []

abbrev promoted : Db
promoted = (ready_step (clock 6 0) 1 before_promotion).0

abbrev promoted_step : Step
promoted_step = step 12 1 "write" 2 ("read" ∷ []) second_inputs StepState.ready 0 0

cancel-IsQuiet_example : IsQuiet 1 with_output (cancel (clock 9 0) 1 with_output).0
unfolding cancel find_by
cancel-IsQuiet_example =
    cancel-IsQuiet (clock 9 0) 1 with_output (cancel (clock 9 0) 1 with_output).0 refl

supersede_job_revision-IsRevised_example :
    IsRevised 1 1 2 before_second (supersede_job_revision (clock 9 0) 1 1 2 before_second).0
unfolding supersede_job_revision count_where exists
supersede_job_revision-IsRevised_example =
    supersede_job_revision-IsRevised (clock 9 0) 1 1 2 before_second
      (supersede_job_revision (clock 9 0) 1 1 2 before_second).0 refl

append_steps-Appended_example :
    ((w : WorkflowJob) × (j : Job) × (workflow_of 1 before_second ≡ ok (w, j))
      × (w.request_revision ≡ 1)
      × (is_staged j.status ≡ true))
    × (new : List Step) × ((append_steps
          (clock 9 80)
          1
          1
          (spec "check" ("write" ∷ []) ∷ [])
          before_second).0.steps
        ≡ before_second.steps ++ new)
    × (keys new ≡ spec_keys (spec "check" ("write" ∷ []) ∷ []))
    × All (Appended 1 (length (step_list 1 before_second.steps) + 1)) new
unfolding append_steps workflow_of find_by exists step_list select insert_step_row
append_steps-Appended_example =
    append_steps-Appended (clock 9 80) 1 1 (spec "check" ("write" ∷ []) ∷ []) before_second
      (append_steps (clock 9 80) 1 1 (spec "check" ("write" ∷ []) ∷ []) before_second).0 refl
