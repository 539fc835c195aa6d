-- ===== src/Store/Workflow/Calls.antt =====
-- Any use of a workflow after one of its steps was completed.
use agent_chun_su.Base.{ℕ, ◌≡◌, List, [], ◌∷◌, true, false, arith}
use agent_chun_su.Store.Status.{StepState, is_running_step}
use agent_chun_su.Store.Model.{Step, File, Db, Env, ok}
use agent_chun_su.Store.Workflow.Settled.{Lasts, IsSettled, is_settled, Lasts-IsSettled}
use agent_chun_su.Store.Workflow.Ready.{ready_step, approve_step}
use agent_chun_su.Store.Workflow.Ready.Promotion.{ready_step-Lasts, approve_step-Lasts}
use agent_chun_su.Store.Workflow.Claim.{claim_step}
use agent_chun_su.Store.Workflow.Claim.Found.{claim_step-Lasts}
use agent_chun_su.Store.Workflow.Complete.{complete_step, retry_step}
use agent_chun_su.Store.Workflow.Complete.Once.{
  not_running, complete_step-Lasts, retry_step-Lasts, complete_step-completes,
}
use agent_chun_su.Store.Workflow.Control.{supersede_job_revision, cancel}
use agent_chun_su.Store.Workflow.Control.Quiet.{cancel-Lasts, supersede_job_revision-Lasts}

-- A call of an operation on steps, with its arguments; the attempts and outputs are ids.
pub data StepCall : Type 0 where
  readies : ℕ → StepCall
  approves : ℕ → StepCall
  claims : ℕ → ℕ → StepCall
  completes : List File → ℕ → ℕ → ℕ → StepState → StepCall
  retries : ℕ → ℕ → StepCall
  supersedes : ℕ → ℕ → ℕ → StepCall
  cancels : ℕ → StepCall

unfoldable pub step_call : Env → StepCall → Db → Db
unfolding ready_step approve_step claim_step complete_step retry_step supersede_job_revision cancel
step_call env (readies job) db = (ready_step env job db).0
step_call env (approves id) db = (approve_step env id db).0
step_call env (claims id expected) db = (claim_step env id expected db).0
step_call env (completes disk id attempt output status) db =
    (complete_step env disk id attempt output status db).0
step_call env (retries id expected) db = (retry_step env id expected db).0
step_call env (supersedes job expected next) db =
    (supersede_job_revision env job expected next db).0
step_call env (cancels job) db = (cancel env job db).0

unfoldable pub step_calls : List (Env × StepCall) → Db → Db
unfolding step_call
step_calls [] db = db
step_calls ((env, c) ∷ calls) db = step_calls calls (step_call env c db)

step_call-Lasts : (env : Env) (c : StepCall) (db : Db) → Lasts db (step_call env c db)
unfolding step_call
step_call-Lasts env (readies job) db = ready_step-Lasts env job db
step_call-Lasts env (approves id) db = approve_step-Lasts env id db
step_call-Lasts env (claims id expected) db = claim_step-Lasts env id expected db
step_call-Lasts env (completes disk id attempt output status) db =
    complete_step-Lasts env disk id attempt output status db
step_call-Lasts env (retries id expected) db = retry_step-Lasts env id expected db
step_call-Lasts env (supersedes job expected next) db =
    supersede_job_revision-Lasts env job expected next db
step_call-Lasts env (cancels job) db = cancel-Lasts env job db

step_calls-IsSettled :
    (calls : List (Env × StepCall)) (id : ℕ) (db : Db)
    → IsSettled id db
    → IsSettled id (step_calls calls db)
unfolding step_calls
step_calls-IsSettled [] id db h = h
step_calls-IsSettled ((env, c) ∷ calls) id db h =
    step_calls-IsSettled calls id (step_call env c db)
      (Lasts-IsSettled id db (step_call env c db) (step_call-Lasts env c db) h)

settled-stopped : (st : StepState) → is_settled st ≡ true → is_running_step st ≡ false
settled-stopped st h = ground arith

-- Once CompleteStep has completed a step, and after any calls of ReadyStep, ApproveStep, ClaimStep,
-- CompleteStep, RetryStep, SupersedeJobRevision and Cancel, of this job or others, a further
-- CompleteStep of the step, under any attempt, output and status, changes nothing.
pub complete_step-once :
    (env env' : Env) (disk disk' : List File) (id attempt attempt' output output' : ℕ)
    (status' : StepState) (db db' : Db) (t : Step) (calls : List (Env × StepCall))
    → complete_step env disk id attempt output StepState.completed db ≡ (db', ok t)
    → (complete_step env' disk' id attempt' output' status' (step_calls calls db')).0
      ≡ step_calls calls db'
complete_step-once env env' disk disk' id attempt attempt' output output' status' db db' t calls h =
    let (s, found, settled) =
      step_calls-IsSettled calls id db'
        (complete_step-completes env disk id attempt output db db' t h) in
    not_running env' disk' id attempt' output' status' (step_calls calls db') s found
      (settled-stopped s.state settled)
