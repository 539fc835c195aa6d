-- ===== src/Store/Workflow/Ready.antt =====
-- ReadyStep and ApproveStep of internal/store/workflow.go.
pub mod Promotion
use agent_chun_su.Base.{
  ℕ, Bool, true, false, List, [], ◌∷◌, String, none, some, ◌==◌, ◌&&◌, ◌||◌, ltb, str_eq, not,
  if◌then◌else◌,
}
use agent_chun_su.Table.{find_by, count_where, update_where}
use agent_chun_su.Store.Status.{StepState, is_staged, is_ready, can_promote, same_state}
use agent_chun_su.Store.Model.{
  Step, PinnedArtifactRef, Db, Env, Result, ok, err, no_rows, stale_step, step_blocked, no_data,
  step_key,
}
use agent_chun_su.Store.Txn.{◌>>=◌, ◌>>◌, refuse_if, or_fail, exec, exec_result}
use agent_chun_su.Store.Rows.{add_event}
use agent_chun_su.Store.Workflow.{workflow_of, step_list, resolved_inputs, pin_inputs}

-- `id=? AND state=?`.
abbrev pub step_in : ℕ → StepState → Step → Bool
step_in id state r = r.id == id && same_state r.state state

abbrev pub is_gated : Bool → Step → Bool
is_gated manual s = str_eq s.gate_policy "manual" || (manual && ltb 1 s.ordinal)

abbrev pub gate_state : Bool → Step → StepState
gate_state manual s = if is_gated manual s then StepState.waiting_input else StepState.ready

abbrev gate_event : Bool → Step → String
gate_event manual s = if is_gated manual s then "step.waiting_input" else "step.ready"

abbrev pub set_promoted : Env → StepState → List PinnedArtifactRef → Step → Step
set_promoted env state refs r = record r {
  state = state;
  input_artifacts = refs;
  updated_at = env.now;
}

-- The statements that promote one step. At a gate the change is committed, and no step is returned.
promote : Env → Bool → Step → List PinnedArtifactRef → Db → Result (Db × Result Step)
promote env manual s refs db = do
  refuse_if (not (count_where (step_in s.id s.state) db.steps == 1)) stale_step
  let state = gate_state manual s
  let db1 = record db {
    steps = update_where (step_in s.id s.state) (set_promoted env state refs) db.steps;
  }
  ok (
    add_event env.now s.job_id 0 (gate_event manual s) no_data db1,
    if is_gated manual s
        then err no_rows
        else ok (record s { state = state; input_artifacts = refs }),
  )

-- The loop of ReadyStep over the steps of the job; `all` is the whole list.
ready_loop : Env → ℕ → Bool → List Step → List Step → Db → Result (Db × Result Step)
unfolding promote
ready_loop env job manual all [] db = err no_rows
ready_loop env job manual all (s ∷ ss) db =
    let rest = ready_loop env job manual all ss db in
    if is_ready s.state
    then ok (db, ok s)
    else if not (can_promote s.state) || ltb env.now s.not_before
    then rest
    else elim (resolved_inputs all s) [
      | none ↦ rest
      | some inputs ↦ pin_inputs db job inputs >>= λ refs. promote env manual s refs db
    ]

ready_step_txn : Env → ℕ → Db → Result (Db × Result Step)
unfolding ready_loop
ready_step_txn env job db = do
  wj ← workflow_of job db
  refuse_if (wj.0.paused || not (is_staged wj.1.status)) no_rows
  let steps = step_list job db.steps
  ready_loop env job wj.0.manual_checkpoint steps steps db

unfoldable pub ready_step : Env → ℕ → Db → Db × Result Step
unfolding ready_step_txn
ready_step env job db = exec_result db (ready_step_txn env job db)

approve_step_txn : Env → ℕ → Db → Result (Db × Unit {0})
approve_step_txn env id db = do
  s ← or_fail (find_by step_key id db.steps) no_rows
  wj ← workflow_of s.job_id db
  refuse_if (wj.0.paused || not (is_staged wj.1.status)) step_blocked
  or_fail (resolved_inputs (step_list s.job_id db.steps) s) step_blocked >>= λ _.
      refuse_if (not (count_where (step_in id StepState.waiting_input) db.steps == 1)) stale_step
  ok (
    record db {
      steps =
          update_where (step_in id StepState.waiting_input)
            (λ r. record r { state = StepState.ready; updated_at = env.now }) db.steps;
    },
    tt,
  )

unfoldable pub approve_step : Env → ℕ → Db → Db × Result (Unit {0})
unfolding approve_step_txn
approve_step env id db = exec db (approve_step_txn env id db)
