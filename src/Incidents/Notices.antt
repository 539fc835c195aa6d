-- ===== src/Incidents/Notices.antt =====
-- planNotification and ReviewNotifications of internal/ops/incidents.go. They append to the previews,
-- and of the state they read the policy, the incidents and the revision.
pub mod Planned
pub mod Decided
use Prim.Native.String.{◌++◌ as join}
use agent_chun_su.Base.{
  ℕ, Bool, true, false, List, [], ◌∷◌, ◌++◌, String, Option, none, some, ◌==◌, ◌&&◌, ◌||◌, ltb,
  str_eq, not, if◌then◌else◌, ◌+◌, ◌*◌,
}
use agent_chun_su.Table.{exists, length}
use agent_chun_su.Store.Queries.{sort_by}
use agent_chun_su.Telegram.{second}
use agent_chun_su.Incidents.{
  Tools, Json, Policy, SeverityRule, Incident, Notification, NoticeStatus, instant, empty,
  text_before, next_revision, is_resolved,
}

-- state.Policy.Rules[severity], the zero value where there is none.
unfoldable pub rule_of : String → List (String × SeverityRule) → SeverityRule
rule_of severity [] = record {
  mode = "";
  recipients = [];
  cooldown_seconds = 0;
  acknowledgment_seconds = 0;
}
rule_of severity (r ∷ rs) =
    let rest = rule_of severity rs in if str_eq r.0 severity then r.1 else rest

unfoldable pub severity_rank : String → ℕ
severity_rank s =
    if str_eq s "P0"
    then 0
    else if str_eq s "P1"
    then 1
    else if str_eq s "P2"
    then 2
    else if str_eq s "P3"
    then 3
    else 4

unfoldable pub escalated : String → String → Bool
unfolding severity_rank
escalated severity previous =
    not (empty previous) && ltb (severity_rank severity) (severity_rank previous)

unfoldable pub notification_snoozed : Tools → Incident → Policy → ℕ → Bool
unfolding instant
notification_snoozed t i p now =
    if empty i.snoozed_until || (str_eq i.risk.severity "P0" && p.p0_bypasses_snooze)
    then false
    else ltb now (instant t i.snoozed_until)

-- The search from the end of the slice.
unfoldable pub last_where {ℓ} : {A : Type ℓ} → (A → Bool) → List A → Option A
last_where p [] = none
last_where p (x ∷ xs) = elim (last_where p xs) [
  | none ↦ if p x then some x else none
  | some y ↦ some y
]

abbrev pub is_planned : NoticeStatus → Bool
is_planned NoticeStatus.shadow_planned = true
is_planned NoticeStatus.suppressed = false
is_planned NoticeStatus.shadow_blocked = false

abbrev pub planned_for : String → Notification → Bool
planned_for id n = str_eq n.incident_id id && is_planned n.status

unfoldable pub plan_key : Tools → SeverityRule → Incident → Option String → String
plan_key t rule i suffix =
    let key =
      join i.id
        (join "|" (join (t.decimal i.revision) (join "|" (t.json_texts rule.recipients)))) in
    elim suffix [ none ↦ key | some s ↦ join key (join "|" s) ]

-- The switch.
unfoldable pub first_status :
    Tools → Policy → SeverityRule → Incident → Bool → ℕ → NoticeStatus × String
unfolding notification_snoozed
first_status t p rule i rising now =
    if str_eq rule.mode "none"
    then (NoticeStatus.suppressed, "policy keeps this severity in the local report")
    else if length rule.recipients == 0
    then (NoticeStatus.shadow_blocked, "recipient mapping is unset; no delivery was attempted")
    else if notification_snoozed t i p now && not rising
    then (NoticeStatus.suppressed, join "owner snooze remains active until " i.snoozed_until)
    else (NoticeStatus.shadow_planned, "local preview only; no sender is installed")

-- The loop over the former previews.
unfoldable pub cooling : Tools → SeverityRule → Incident → ℕ → List Notification → Bool
unfolding last_where instant
cooling t rule i now plans = elim (last_where (planned_for i.id) plans) [
  | none ↦ false
  | some n ↦ ltb now (instant t n.created_at + rule.cooldown_seconds * second)
]

unfoldable pub cooled :
    Tools
    → SeverityRule
    → Incident
    → Bool
    → ℕ
    → List Notification
    → NoticeStatus × String
    → NoticeStatus × String
unfolding cooling
cooled t rule i rising now plans first =
    if is_planned first.0 && ltb 0 rule.cooldown_seconds && not rising && cooling t rule i now plans
    then (NoticeStatus.suppressed, "configured incident cooldown")
    else first

unfoldable pub new_plan :
    Tools → Policy → Incident → String → String → Option String → List Notification → Notification
unfolding rule_of plan_key first_status cooled escalated instant
new_plan t p i previous at suffix plans =
    let rule = rule_of i.risk.severity p.rules in
    let rising = escalated i.risk.severity previous in
    let now = instant t at in
    let decided = cooled t rule i rising now plans (first_status t p rule i rising now) in
    record {
      id = t.digest (plan_key t rule i suffix);
      incident_id = i.id;
      incident_revision = i.revision;
      key = plan_key t rule i suffix;
      severity = i.risk.severity;
      mode = rule.mode;
      recipients = rule.recipients;
      status = decided.0;
      reason = decided.1;
      created_at = at;
      acknowledgment_due =
          if is_planned decided.0 && ltb 0 rule.acknowledgment_seconds
          then t.format (now + rule.acknowledgment_seconds * second)
          else "";
      policy = p;
    }

abbrev pub has_key : String → Notification → Bool
has_key key n = str_eq n.key key

unfoldable pub plan_notification :
    Tools
    → Policy
    → Incident
    → String
    → String
    → Option String
    → List Notification
    → List Notification
unfolding new_plan
plan_notification t p i previous at suffix plans =
    let plan = new_plan t p i previous at suffix plans in
    if exists (has_key plan.key) plans then plans else plans ++ (plan ∷ [])

abbrev same_status : NoticeStatus → NoticeStatus → Bool
same_status NoticeStatus.shadow_planned b = is_planned b
same_status NoticeStatus.suppressed NoticeStatus.suppressed = true
same_status NoticeStatus.suppressed b = false
same_status NoticeStatus.shadow_blocked NoticeStatus.shadow_blocked = true
same_status NoticeStatus.shadow_blocked b = false

abbrev same_policy : Json → Policy → Policy → Bool
same_policy j p q = str_eq (j.json_policy p) (j.json_policy q)

-- The incident's latest preview still stands.
unfoldable settled : Tools → Json → Policy → Incident → ℕ → Option Notification → Bool
unfolding notification_snoozed
settled t j p i now none = false
settled t j p i now (some n) =
    is_planned n.status && same_policy j n.policy p && not (notification_snoozed t i p now)

-- The candidate says what the latest preview does.
unfoldable repeats : Json → Option Notification → Notification → Bool
repeats j none c = false
repeats j (some n) c =
    same_status c.status n.status && str_eq c.reason n.reason && same_policy j c.policy n.policy

-- The last of the previews, where there is one more of them than before.
unfoldable added : List Notification → List Notification → Option Notification
unfolding last_where
added before plans = if length plans == length before then none else last_where (λ n. true) plans

-- One round of the loop of ReviewNotifications; the suffix is that of the next revision.
unfoldable pub review_one :
    Tools → Json → Policy → String → String → Incident → List Notification → List Notification
unfolding last_where settled repeats plan_notification added instant
review_one t j p at suffix i plans =
    let latest = last_where (λ (n : Notification). str_eq n.incident_id i.id) plans in
    if is_resolved i
    then plans
    else if settled t j p i (instant t at) latest
    then plans
    else elim (added plans (plan_notification t p i "" at (some suffix) plans)) [
      | none ↦ plans
      | some c ↦ if repeats j latest c then plans else plans ++ (c ∷ [])
    ]

unfoldable pub review_all :
    Tools → Json → Policy → String → String → List Incident → List Notification → List Notification
unfolding review_one
review_all t j p at suffix [] plans = plans
review_all t j p at suffix (i ∷ is) plans =
    review_all t j p at suffix is (review_one t j p at suffix i plans)

unfoldable pub review_notifications :
    Tools → Json → Policy → ℕ → String → List Incident → List Notification → List Notification
unfolding review_all next_revision sort_by
review_notifications t j p revision at incidents plans =
    review_all t j p at (join "review:" (t.decimal (next_revision revision)))
      (sort_by (λ (a b : Incident). text_before a.id b.id) incidents) plans
