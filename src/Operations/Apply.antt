-- ===== src/Operations/Apply.antt =====
-- apply of internal/ops/commands.go: what a command does to the state of its scope. An error leaves a
-- state that the caller drops. NormalizeObservation of input.go is not modelled: what it makes of the raw
-- input of an observation is an argument.

use agent_chun_su.Base.{
  ℕ, Bool, List, [], ◌∷◌, ◌++◌, String, ◌==◌, ◌&&◌, ◌||◌, str_eq, not, if◌then◌else◌,
}
use agent_chun_su.Table.{exists, find_where}
use agent_chun_su.Store.Model.{Result, ok, err, message}
use agent_chun_su.Store.Txn.{◌>>=◌, ◌>>◌, refuse_if, or_fail}
use agent_chun_su.Incidents.{
  Tools, Json, Source, Observation, Policy, Assessment, IncidentChange, State, has_id, empty,
}
use agent_chun_su.Incidents.Changes.{
  policy_set, assessment_apply, incident_change, notification_review, act,
}
use agent_chun_su.Ledger.{Command, identifier}
use agent_chun_su.Operations.{
  Settings, Deployment, WorkItem, ReleaseCycle, Book, has_key, store, work_key, cycle_key,
}
use agent_chun_su.Operations.Works.{
  WorkCreate, WorkTransition, Reschedule, create_work, transition, reschedule,
}
use agent_chun_su.Operations.Releases.{
  ReleaseCreate, TargetChange, create_release, change_target, deploy,
}

-- The decoder of internal/mail for the payloads of commands, time.LoadLocation, NormalizeObservation and
-- the text that encoding/json makes of an observation.
pub record Payloads : Type 0 where
  pub settings : String → Result Settings
  pub work_create : String → Result WorkCreate
  pub work_transition : String → Result WorkTransition
  pub reschedule : String → Result Reschedule
  pub release_create : String → Result ReleaseCreate
  pub target_change : String → Result TargetChange
  pub deployment : String → Result Deployment
  pub observation : String → Result Observation
  pub policy : String → Result Policy
  pub assessment : String → Result Assessment
  pub incident_change : String → Result IncidentChange
  pub nothing : String → Result (Unit {0})
  pub is_location : String → Bool
  pub normalized : Observation → Result Observation
  pub json_observation : Observation → String

abbrev pub set_works : Book → List WorkItem → Book
set_works b items = record b { work_items = items }

abbrev pub set_cycles : Book → List ReleaseCycle → Book
set_cycles b cycles = record b { release_cycles = cycles }

-- scope.init.
unfoldable pub init : Payloads → ℕ → String → Result Settings
init p revision payload = do
  refuse_if (not (revision == 0)) (message "OPS scope already exists")
  s ← p.settings payload
  refuse_if (empty s.timezone || str_eq s.timezone "Local")
      (message "OPS scope needs an explicit IANA timezone")
  refuse_if (not (p.is_location s.timezone)) (message "OPS timezone is invalid")
  ok s

unfoldable pub change_work : Book → Command → (WorkItem → Result WorkItem) → Result Book
unfolding find_where store
change_work b x f = do
  w ←
      or_fail (find_where (has_key work_key x.entity_id) b.work_items)
        (message "work item does not exist")
  w' ← f w
  ok (set_works b (store work_key w' b.work_items))

unfoldable pub cycle_of : Book → Command → Result ReleaseCycle
unfolding find_where
cycle_of b x =
    or_fail (find_where (has_key cycle_key x.entity_id) b.release_cycles)
      (message "release cycle does not exist")

-- sameSourceVersion.
abbrev same_source_version : Json → Source → Source → Bool
same_source_version j a b =
    str_eq (j.json_source (record a { captured_at = ""; event_id = "" }))
      (j.json_source (record b { captured_at = ""; event_id = "" }))

abbrev conflicts : Json → Source → Source → Bool
conflicts j s old = str_eq s.id old.id && not (same_source_version j s old)

-- Some source of the one has another version in the other.
unfoldable disagree : Json → Observation → Observation → Bool
unfolding exists
disagree j o old = exists (λ s. exists (conflicts j s) old.sources) o.sources

-- The observations are visited in no fixed order, and each has two tests with an error of its own; here
-- the first test is made of all of them, and then the second.
unfoldable pub check_import : Json → Payloads → Observation → Command → State → Result (Unit {0})
unfolding identifier exists disagree
check_import j p o x st = do
  refuse_if
      (not (identifier x.entity_id)
        || not (str_eq o.id x.entity_id)
        || not (str_eq o.scope st.scope))
      (message "observation identity or scope mismatch")
  normal ← p.normalized o
  refuse_if (not (str_eq (p.json_observation normal) (p.json_observation o))) (
      message
        "saved observation projection, synthetic declaration or provenance differs from its exact raw input")
  refuse_if (exists (λ (old : Observation). str_eq old.id o.id) st.observations)
      (message "observation ID already exists; new versions need another preserved import")
  refuse_if
      (exists
        (λ (old : Observation).
          str_eq old.input_digest o.input_digest && str_eq old.provider o.provider)
        st.observations)
      (message "this exact saved observation was already imported")
  refuse_if (exists (disagree j o) st.observations)
      (message "same source identity/version has conflicting evidence; preserve a new version")

unfoldable pub import_observation : Json → Payloads → Observation → Command → State → Result State
unfolding check_import
import_observation j p o x st =
    check_import j p o x st >> ok (record st { observations = st.observations ++ (o ∷ []) })

-- The actions on incidents, notifications and the policy, and observations.
unfoldable pub apply_ops : Tools → Json → Payloads → Command → String → State → Result State
unfolding act import_observation find_where
apply_ops t j p x at st =
    if str_eq x.action "observation.import"
    then (p.observation x.payload >>= λ o. import_observation j p o x st)
    else if str_eq x.action "policy.set"
    then (p.policy x.payload >>= λ q. act t j (policy_set q) at st)
    else if str_eq x.action "assessment.apply"
    then (p.assessment x.payload >>= λ a. act t j (assessment_apply a) at st)
    else if str_eq x.action "incident.change"
    then (or_fail (find_where (has_id x.entity_id) st.incidents) (message "incident does not exist")
        >>= λ i. p.incident_change x.payload >>= λ c.
            act t j (incident_change x.entity_id x.actor c) at st)
    else if str_eq x.action "notification.review"
    then (p.nothing x.payload >>= λ u. act t j notification_review at st)
    else err (message "unsupported OPS action")

unfoldable pub apply_release : Tools → Payloads → Command → String → Book → Result Book
unfolding cycle_of create_release change_target deploy store
apply_release t p x at b =
    if str_eq x.action "release.create"
    then (p.release_create x.payload >>= λ c.
        create_release t x.entity_id c b.release_cycles >>= λ cs. ok (set_cycles b cs))
    else if str_eq x.action "release.target"
    then (cycle_of b x >>= λ cycle. p.target_change x.payload >>= λ c.
        change_target t c x at b.work_items cycle b.release_cycles >>= λ cs. ok (set_cycles b cs))
    else (cycle_of b x >>= λ cycle. p.deployment x.payload >>= λ d.
        deploy t b.ops.observations d x at b.work_items cycle >>= λ c.
        ok (set_cycles b (store cycle_key c b.release_cycles)))

unfoldable pub read_transition :
    Tools → Payloads → List Observation → Command → String → WorkItem → Result WorkItem
unfolding transition
read_transition t p observations x at w =
    p.work_transition x.payload >>= λ c. transition t observations c at w

unfoldable pub read_reschedule :
    Tools → Payloads → ℕ → Command → String → WorkItem → Result WorkItem
unfolding reschedule
read_reschedule t p revision x at w = p.reschedule x.payload >>= λ c. reschedule t c x revision at w

unfoldable pub apply_work : Tools → Payloads → ℕ → Command → String → Book → Result Book
unfolding create_work change_work read_transition read_reschedule
apply_work t p revision x at b =
    if str_eq x.action "work.create"
    then (p.work_create x.payload >>= λ c.
        create_work t b.ops.observations x.entity_id at c b.work_items >>= λ ws.
        ok (set_works b ws))
    else if str_eq x.action "work.transition"
    then change_work b x (read_transition t p b.ops.observations x at)
    else change_work b x (read_reschedule t p revision x at)

unfoldable pub is_work : String → Bool
is_work a = str_eq a "work.create" || str_eq a "work.transition" || str_eq a "work.reschedule"

unfoldable pub is_release : String → Bool
is_release a =
    str_eq a "release.create" || str_eq a "release.target" || str_eq a "release.deployment"

-- The revision of the ledger stands in the state too.
unfoldable pub apply : Tools → Json → Payloads → ℕ → Command → String → Book → Result Book
unfolding init is_work is_release apply_work apply_release apply_ops
apply t j p revision x at b =
    if revision == 0 && not (str_eq x.action "scope.init")
    then err (message "OPS scope is not initialized")
    else if str_eq x.action "scope.init"
    then (init p revision x.payload >>= λ s. ok (record b { settings = s }))
    else if is_work x.action
    then apply_work t p revision x at b
    else if is_release x.action
    then apply_release t p x at b
    else (apply_ops t j p x at (record b.ops { revision = revision }) >>= λ st.
        ok (record b { ops = st }))
