-- ===== src/Operations/Releases.antt =====
-- The branches of apply in internal/ops/commands.go for release cycles, with currentCommitments.
pub mod Lasting
pub mod Carried
use agent_chun_su.Base.{
  Bool, true, false, List, [], ◌∷◌, ◌++◌, String, Option, none, some, ◌&&◌, ◌||◌, ltb, str_eq, not,
  ◌==◌, if◌then◌else◌,
}
use agent_chun_su.Table.{exists, find_where, length}
use agent_chun_su.Store.Model.{Result, ok, message}
use agent_chun_su.Store.Txn.{◌>>=◌, ◌>>◌, refuse_if, or_fail}
use agent_chun_su.Incidents.{Tools, Observation, empty, instant, next_revision}
use agent_chun_su.Incidents.Evidenced.{one_of, nonempty, validate_evidence}
use agent_chun_su.Incidents.Notices.{last_where}
use agent_chun_su.Ledger.{Command, identifier}
use agent_chun_su.Operations.{
  WorkItem, Commitment, Deployment, ReleaseCycle, is_timestamp, has_key, store, work_key, cycle_key,
}

pub record ReleaseCreate : Type 0 where
  pub service : String
  pub environment : String
  pub ready_by : String
  pub deploy_by : String

pub record TargetChange : Type 0 where
  pub work_id : String
  pub status : String
  pub carried_to : String

abbrev pub new_cycle : String → ReleaseCreate → ReleaseCycle
new_cycle id c = record {
  id = id;
  service = c.service;
  environment = c.environment;
  ready_by = c.ready_by;
  deploy_by = c.deploy_by;
  commitment_revision = 0;
  commitments = [];
  deployments = [];
}

unfoldable pub check_release :
    Tools → String → ReleaseCreate → List ReleaseCycle → Result (Unit {0})
unfolding identifier nonempty is_timestamp instant exists
check_release t id c cycles = do
  refuse_if
      (not (identifier id)
        || not (nonempty t c.service)
        || not (nonempty t c.environment)
        || not (is_timestamp t c.ready_by)
        || not (is_timestamp t c.deploy_by))
      (message "release needs ID, service, environment and RFC3339 readiness/deployment deadlines")
  refuse_if (ltb (instant t c.deploy_by) (instant t c.ready_by))
      (message "release readiness deadline is after deployment deadline")
  refuse_if (exists (has_key cycle_key id) cycles) (message "release cycle already exists")

unfoldable pub create_release :
    Tools → String → ReleaseCreate → List ReleaseCycle → Result (List ReleaseCycle)
unfolding check_release store
create_release t id c cycles = do
  check_release t id c cycles
  ok (store cycle_key (new_cycle id c) cycles)

-- currentCommitments(cycle)[id]: the latest one of the work item.
unfoldable pub current_commitment : String → ReleaseCycle → Option Commitment
unfolding last_where
current_commitment id c = last_where (λ (m : Commitment). str_eq m.work_id id) c.commitments

abbrev pub is_included : Option Commitment → Bool
is_included none = false
is_included (some m) = str_eq m.status "included"

abbrev has_status : String → Option Commitment → Bool
has_status s none = false
has_status s (some m) = str_eq m.status s

abbrev pub commitment : String → String → String → Command → String → ReleaseCycle → Commitment
unfolding next_revision
commitment work_id status carried_to x at c = record {
  work_id = work_id;
  status = status;
  reason = x.reason;
  actor = x.actor;
  at = at;
  revision = next_revision c.commitment_revision;
  carried_to = carried_to;
}

abbrev pub commit : String → String → String → Command → String → ReleaseCycle → ReleaseCycle
unfolding next_revision commitment
commit work_id status carried_to x at c = record c {
  commitment_revision = next_revision c.commitment_revision;
  commitments = c.commitments ++ (commitment work_id status carried_to x at c ∷ []);
}

unfoldable pub check_target : TargetChange → List WorkItem → ReleaseCycle → Result (Unit {0})
unfolding exists one_of current_commitment
check_target c items cycle = do
  refuse_if
      (not (exists (has_key work_key c.work_id) items)
        || not (one_of c.status ("included" ∷ "excluded" ∷ "carried" ∷ [])))
      (message
        "release target needs an existing work item and included, excluded or carried status")
  refuse_if
      ((not (is_included (current_commitment c.work_id cycle)) && not (str_eq c.status "included"))
        || has_status c.status (current_commitment c.work_id cycle))
      (message "release target change is inconsistent with the current commitment")
  refuse_if (not (str_eq c.status "carried") && not (empty c.carried_to))
      (message "carried_to belongs only to a carried target")

unfoldable pub check_destination :
    Tools → TargetChange → ReleaseCycle → ReleaseCycle → Result (Unit {0})
unfolding instant current_commitment
check_destination t c cycle next = do
  refuse_if
      (str_eq next.id cycle.id
        || not (str_eq next.service cycle.service)
        || not (str_eq next.environment cycle.environment))
      (message "carry requires a different existing cycle for the same service and environment")
  refuse_if (not (ltb (instant t cycle.deploy_by) (instant t next.deploy_by)))
      (message "carry requires a later deployment cycle")
  refuse_if (is_included (current_commitment c.work_id next))
      (message "target is already included in the destination cycle")

-- The cycle that takes the work item over.
unfoldable pub destination :
    Tools → TargetChange → ReleaseCycle → List ReleaseCycle → Result ReleaseCycle
unfolding find_where check_destination
destination t c cycle cycles = do
  next ←
      or_fail (find_where (has_key cycle_key c.carried_to) cycles)
        (message "carry requires a different existing cycle for the same service and environment")
  check_destination t c cycle next
  ok next

-- The carried target is included in its destination, before the cycle itself is written.
unfoldable pub carry :
    Tools
    → TargetChange
    → Command
    → String
    → ReleaseCycle
    → List ReleaseCycle
    → Result (List ReleaseCycle)
unfolding destination store
carry t c x at cycle cycles =
    if str_eq c.status "carried"
    then (destination t c cycle cycles >>= λ next.
        ok (store cycle_key (commit c.work_id "included" "" x at next) cycles))
    else ok cycles

unfoldable pub change_target :
    Tools
    → TargetChange
    → Command
    → String
    → List WorkItem
    → ReleaseCycle
    → List ReleaseCycle
    → Result (List ReleaseCycle)
unfolding check_target carry store
change_target t c x at items cycle cycles = do
  check_target c items cycle
  rest ← carry t c x at cycle cycles
  ok (store cycle_key (commit c.work_id c.status c.carried_to x at cycle) rest)

-- The work items of a deployment are there, each once.
unfoldable pub known_works : List WorkItem → List String → List String → Bool
unfolding exists one_of
known_works items seen [] = true
known_works items seen (id ∷ ids) =
    exists (has_key work_key id) items && not (one_of id seen) && known_works items (id ∷ seen) ids

unfoldable pub check_deploy : Tools → Deployment → List WorkItem → ReleaseCycle → Result (Unit {0})
unfolding one_of is_timestamp known_works
check_deploy t d items cycle = do
  refuse_if
      (not (one_of d.status ("deployed" ∷ "not_deployed" ∷ "unknown" ∷ []))
        || not (str_eq d.environment cycle.environment)
        || not (is_timestamp t d.effective_at)
        || length d.work_ids == 0)
      (message
        "deployment evidence needs status, exact release environment, item IDs and effective time")
  refuse_if (not (empty d.actor) || not (empty d.recorded_at))
      (message "deployment actor and recorded_at are host-owned")
  refuse_if (not (known_works items [] d.work_ids))
      (message "deployment evidence references unknown or duplicate work")

abbrev pub deployed : Deployment → Command → String → ReleaseCycle → ReleaseCycle
deployed d x at c = record c {
  deployments = c.deployments ++ (record d { actor = x.actor; recorded_at = at } ∷ []);
}

unfoldable pub deploy :
    Tools
    → List Observation
    → Deployment
    → Command
    → String
    → List WorkItem
    → ReleaseCycle
    → Result ReleaseCycle
unfolding check_deploy validate_evidence
deploy t observations d x at items cycle = do
  check_deploy t d items cycle
  validate_evidence t observations d.evidence (not (str_eq d.status "unknown"))
  ok (deployed d x at cycle)
