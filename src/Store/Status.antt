-- ===== src/Store/Status.antt =====
-- The status words of internal/store/lifecycle.go, workflow.go and result_events.go, and the tests
-- that the package makes on them. A status column holds one of the declared constants.
use agent_chun_su.Base.{ℕ, Bool, true, false, ◌≡◌, arith, ◌==◌}

-- Of a job, and of an attempt at a job.
pub data JobStatus : Type 0 where
  staged queued running retry_wait waiting_input waiting_auth completed partial failed : JobStatus
  cancelled interrupted purged retiring : JobStatus

-- Of a step of a staged job, and of an attempt at a step.
pub data StepState : Type 0 where
  pending ready running waiting_input waiting_auth retry_wait completed failed : StepState
  cancelled superseded interrupted : StepState

-- Of the delivery of a result.
pub data Delivery : Type 0 where
  available sending delivered unconfirmed failed : Delivery

abbrev pub is_running : JobStatus → Bool
is_running JobStatus.running = true
is_running _ = false

abbrev pub is_staged : JobStatus → Bool
is_staged JobStatus.staged = true
is_staged _ = false

-- The states from which StartAttempt runs a job.
abbrev pub can_start : JobStatus → Bool
can_start JobStatus.queued = true
can_start JobStatus.retry_wait = true
can_start _ = false

-- The map `allowed` of FinishAttempt.
abbrev pub can_finish : JobStatus → Bool
can_finish JobStatus.completed = true
can_finish JobStatus.partial = true
can_finish JobStatus.failed = true
can_finish JobStatus.cancelled = true
can_finish JobStatus.waiting_input = true
can_finish JobStatus.waiting_auth = true
can_finish JobStatus.retry_wait = true
can_finish _ = false

-- The states that Cancel refuses.
abbrev pub is_final : JobStatus → Bool
is_final JobStatus.completed = true
is_final JobStatus.partial = true
is_final JobStatus.cancelled = true
is_final JobStatus.purged = true
is_final JobStatus.retiring = true
is_final _ = false

-- What FinishAttempt writes in the attempt's row.
abbrev pub attempt_status : JobStatus → JobStatus
attempt_status JobStatus.completed = JobStatus.completed
attempt_status JobStatus.partial = JobStatus.completed
attempt_status JobStatus.cancelled = JobStatus.cancelled
attempt_status _ = JobStatus.failed

abbrev pub is_waiting_input : JobStatus → Bool
is_waiting_input JobStatus.waiting_input = true
is_waiting_input _ = false

-- The states of a job whose content may be removed.
abbrev pub can_retire : JobStatus → Bool
can_retire JobStatus.completed = true
can_retire JobStatus.partial = true
can_retire JobStatus.failed = true
can_retire JobStatus.cancelled = true
can_retire _ = false

abbrev pub is_retiring : JobStatus → Bool
is_retiring JobStatus.retiring = true
is_retiring _ = false

abbrev status_code : JobStatus → ℕ
status_code JobStatus.staged = 0
status_code JobStatus.queued = 1
status_code JobStatus.running = 2
status_code JobStatus.retry_wait = 3
status_code JobStatus.waiting_input = 4
status_code JobStatus.waiting_auth = 5
status_code JobStatus.completed = 6
status_code JobStatus.partial = 7
status_code JobStatus.failed = 8
status_code JobStatus.cancelled = 9
status_code JobStatus.interrupted = 10
status_code JobStatus.purged = 11
status_code JobStatus.retiring = 12

abbrev pub same_status : JobStatus → JobStatus → Bool
same_status a b = status_code a == status_code b

-- `state=?` against a state that another query returned.
abbrev state_code : StepState → ℕ
state_code StepState.pending = 0
state_code StepState.ready = 1
state_code StepState.running = 2
state_code StepState.waiting_input = 3
state_code StepState.waiting_auth = 4
state_code StepState.retry_wait = 5
state_code StepState.completed = 6
state_code StepState.failed = 7
state_code StepState.cancelled = 8
state_code StepState.superseded = 9
state_code StepState.interrupted = 10

abbrev pub same_state : StepState → StepState → Bool
same_state a b = state_code a == state_code b

abbrev pub is_running_step : StepState → Bool
is_running_step StepState.running = true
is_running_step _ = false

abbrev pub is_ready : StepState → Bool
is_ready StepState.ready = true
is_ready _ = false

abbrev pub is_completed_step : StepState → Bool
is_completed_step StepState.completed = true
is_completed_step _ = false

-- The states that ReadyStep promotes.
abbrev pub can_promote : StepState → Bool
can_promote StepState.pending = true
can_promote StepState.retry_wait = true
can_promote _ = false

-- The `switch` of CompleteStep.
abbrev pub can_complete : StepState → Bool
can_complete StepState.completed = true
can_complete StepState.failed = true
can_complete StepState.waiting_input = true
can_complete StepState.waiting_auth = true
can_complete StepState.retry_wait = true
can_complete StepState.cancelled = true
can_complete _ = false

-- The states from which RetryStep starts.
abbrev pub can_retry : StepState → Bool
can_retry StepState.failed = true
can_retry StepState.waiting_auth = true
can_retry StepState.waiting_input = true
can_retry StepState.retry_wait = true
can_retry _ = false

-- `state NOT IN (cancelled, superseded)`.
abbrev pub can_supersede : StepState → Bool
can_supersede StepState.cancelled = false
can_supersede StepState.superseded = false
can_supersede _ = true

-- `state NOT IN (completed, superseded, cancelled)`.
abbrev pub can_cancel : StepState → Bool
can_cancel StepState.completed = false
can_cancel StepState.superseded = false
can_cancel StepState.cancelled = false
can_cancel _ = true

abbrev delivery_code : Delivery → ℕ
delivery_code Delivery.available = 0
delivery_code Delivery.sending = 1
delivery_code Delivery.delivered = 2
delivery_code Delivery.unconfirmed = 3
delivery_code Delivery.failed = 4

abbrev pub same_delivery : Delivery → Delivery → Bool
same_delivery a b = delivery_code a == delivery_code b

same_state-true : (a b : StepState) → same_state a b ≡ true → a ≡ b
same_state-true a b h = ground arith

pub same_delivery-true : (a b : Delivery) → same_delivery a b ≡ true → a ≡ b
same_delivery-true a b h = ground arith
