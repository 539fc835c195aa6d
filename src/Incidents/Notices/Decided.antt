-- ===== src/Incidents/Notices/Decided.antt =====
-- When a preview of a notification is planned.

use agent_chun_su.Base.{
  ◌≡◌, ◌⊎◌, ◌↔◌, ◌∙◌, refl, ap, subst, inl, inr, ℕ, ◌+◌, ◌*◌, ◌<◌, true, false, List, [], ◌∷◌, ◌++◌,
  String, Option, none, some, arith, Bool, ltb, ◌==◌, ◌&&◌, str_eq, Option-cases, Bool-cases,
}
use agent_chun_su.Telegram.{second}
use agent_chun_su.Table.{length, All}
use agent_chun_su.Incidents.{
  Tools, Policy, SeverityRule, Incident, Notification, NoticeStatus, instant, empty,
}
use agent_chun_su.Incidents.Notices.{
  rule_of, escalated, notification_snoozed, is_planned, first_status, cooling, cooled, new_plan,
  severity_rank, last_where, planned_for,
}

first_status-planned :
    (t : Tools) (p : Policy) (rule : SeverityRule) (i : Incident) (rising : Bool) (now : ℕ)
    → (is_planned (first_status t p rule i rising now).0 ≡ true) ↔ (
        (str_eq rule.mode "none" ≡ false)
        × ((length rule.recipients == 0) ≡ false)
        × ((rising ≡ true) ⊎ (notification_snoozed t i p now ≡ false)))
unfolding first_status
first_status-planned t p rule i rising now = ground arith

cooled-planned :
    (t : Tools) (rule : SeverityRule) (i : Incident) (rising : Bool) (now : ℕ)
    (plans : List Notification) (first : NoticeStatus × String)
    → (is_planned (cooled t rule i rising now plans first).0 ≡ true) ↔ (
        (is_planned first.0 ≡ true)
        × ((rising ≡ true)
            ⊎ ((ltb 0 rule.cooldown_seconds ≡ false) ⊎ (cooling t rule i now plans ≡ false))))
unfolding cooled
cooled-planned t rule i rising now plans first = ground arith

-- Both conditions, together.
both_iff :
    {A B C D E F G : Type 0}
    → A ↔ (B × (F ⊎ G))
    → B ↔ (C × D × (F ⊎ E))
    → A ↔ (C × D × (F ⊎ (E × G)))
both_iff f g = (
  λ a.
      let (b, x) = f.0 a in
      let (c, d, y) = g.0 b in
      (c, d, elim x [ inl r ↦ inl r | inr k ↦ elim y [ inl r ↦ inl r | inr e ↦ inr (e, k) ] ]),
  λ z.
      let (c, d, w) = z in
      elim w [
        | inl r ↦ f.1 (g.1 (c, d, inl r), inl r)
        | inr (e, k) ↦ f.1 (g.1 (c, d, inr e), inr k)
      ],
)

-- The severities from the most severe on, P0 to P3, before any other text: the first is ahead of the
-- second, which is given.
unfoldable pub MoreSevere : String → String → Type 0
MoreSevere s previous =
    (empty previous ≡ false)
    × (((str_eq s "P0" ≡ true) × (str_eq previous "P0" ≡ false))
        ⊎ ((str_eq s "P1" ≡ true) × (str_eq previous "P0" ≡ false) × (str_eq previous "P1" ≡ false))
        ⊎ ((str_eq s "P2" ≡ true)
            × (str_eq previous "P0" ≡ false)
            × (str_eq previous "P1" ≡ false)
            × (str_eq previous "P2" ≡ false))
        ⊎ ((str_eq s "P3" ≡ true)
            × (str_eq previous "P0" ≡ false)
            × (str_eq previous "P1" ≡ false)
            × (str_eq previous "P2" ≡ false)
            × (str_eq previous "P3" ≡ false)))

escalated_lem : (s previous : String) → (escalated s previous ≡ true) ↔ MoreSevere s previous
unfolding escalated severity_rank MoreSevere
escalated_lem s previous = ground arith

-- The owner has snoozed the incident until a later time, and the policy does not let it pass as P0.
unfoldable pub IsSnoozed : Tools → Incident → Policy → ℕ → Type 0
IsSnoozed t i p now =
    (empty i.snoozed_until ≡ false)
    × ((str_eq i.risk.severity "P0" ≡ false) ⊎ (p.p0_bypasses_snooze ≡ false))
    × (now < instant t i.snoozed_until)

notification_snoozed_lem :
    (t : Tools) (i : Incident) (p : Policy) (now : ℕ)
    → (notification_snoozed t i p now ≡ true) ↔ IsSnoozed t i p now
unfolding notification_snoozed IsSnoozed
notification_snoozed_lem t i p now = ground arith

-- A planned preview of the incident after which there is none.
pub record IsLatest (id : String) (plans : List Notification) (n : Notification) : Type 0 where
  pub before : List Notification
  pub after : List Notification
  pub split : plans ≡ before ++ (n ∷ after)
  pub is_planned_for : planned_for id n ≡ true
  pub none_after : All (λ (m : Notification). planned_for id m ≡ false) after

last_where-none :
    {A : Type 0} (q : A → Bool) (xs : List A) → last_where q xs ≡ none → All (λ x. q x ≡ false) xs
unfolding last_where
last_where-none q [] h = tt
last_where-none q (x ∷ xs) h = elim (Option-cases (last_where q xs)) [
  | inl e ↦ (ground arith, last_where-none q xs e)
  | inr (y, e) ↦ absurd (ground arith)
]

last_where-IsLatest :
    (id : String) (plans : List Notification) (n : Notification)
    → last_where (planned_for id) plans ≡ some n
    → IsLatest id plans n
unfolding last_where
last_where-IsLatest id [] n h = absurd (ground arith)
last_where-IsLatest id (m ∷ plans) n h = elim (Option-cases (last_where (planned_for id) plans)) [
  | inr (y, e) ↦
      let same : some y ≡ some n = ground arith in
      let l = last_where-IsLatest id plans n (e ∙ same) in
      record {
        before = m ∷ l.before;
        after = l.after;
        split = ap (λ ms. m ∷ ms) l.split;
        is_planned_for = l.is_planned_for;
        none_after = l.none_after;
      }
  | inl e ↦ elim (Bool-cases (planned_for id m)) [
    | inr other ↦ absurd (ground arith)
    | inl own ↦
        let same : m ≡ n = ground arith in
        record {
          before = [];
          after = plans;
          split = ap (λ k. k ∷ plans) same;
          is_planned_for = subst (λ k. planned_for id k ≡ true) same own;
          none_after = last_where-none (planned_for id) plans e;
        }
  ]
]

none-last_where :
    {A : Type 0} (q : A → Bool) (xs : List A) → All (λ x. q x ≡ false) xs → last_where q xs ≡ none
unfolding last_where
none-last_where q [] h = refl
none-last_where q (x ∷ xs) h = rw (none-last_where q xs h.1, h.0) refl

append-last_where :
    {A : Type 0} (q : A → Bool) (xs ys : List A) (a : A)
    → q a ≡ true
    → All (λ x. q x ≡ false) ys
    → last_where q (xs ++ (a ∷ ys)) ≡ some a
unfolding last_where
append-last_where q [] ys a h none_later = rw (none-last_where q ys none_later, h) refl
append-last_where q (x ∷ xs) ys a h none_later = rw (append-last_where q xs ys a h none_later) refl

-- The latest planned preview of the incident is younger than the cooldown of the policy, in seconds.
unfoldable pub InCooldown : Tools → SeverityRule → Incident → ℕ → List Notification → Type 0
InCooldown t rule i now plans =
    (n : Notification) × IsLatest i.id plans n
    × (0 < rule.cooldown_seconds)
    × (now < instant t n.created_at + rule.cooldown_seconds * second)

cooling_lem :
    (t : Tools) (rule : SeverityRule) (i : Incident) (now : ℕ) (plans : List Notification)
    → ((ltb 0 rule.cooldown_seconds && cooling t rule i now plans) ≡ true)
      ↔ InCooldown t rule i now plans
unfolding cooling InCooldown
cooling_lem t rule i now plans = (
  λ h. elim (Option-cases (last_where (planned_for i.id) plans)) [
    | inl e ↦ absurd (ground arith)
    | inr (n, e) ↦ (n, last_where-IsLatest i.id plans n e, ground arith, ground arith)
  ],
  λ (n, l, some_time, young).
      let found : last_where (planned_for i.id) plans ≡ some n =
        ap (last_where (planned_for i.id)) l.split
        ∙ append-last_where (planned_for i.id) l.before l.after n l.is_planned_for l.none_after in
      ground arith,
)

-- A test that fails where the condition does not hold.
false_iff : {A : Type 0} (b : Bool) → (b ≡ true) ↔ A → (b ≡ false) ↔ (¬ A)
false_iff true f = (λ h. absurd (ground arith), λ h. absurd (h (f.0 refl)))
false_iff false f = (λ h a. absurd (ground (arith, f.1 a)), λ h. refl)

either_false : (a b : Bool) → ((a ≡ false) ⊎ (b ≡ false)) ↔ ((a && b) ≡ false)
either_false a b = ground arith

-- When a preview may be planned: the policy sends this severity, there are recipients, no snooze
-- holds it back, and no cooldown does; an incident that has become more severe passes the last two.
unfoldable pub IsDue : Tools → Policy → Incident → String → String → List Notification → Type 0
IsDue t p i previous at plans =
    let rule = rule_of i.risk.severity p.rules in
    (str_eq rule.mode "none" ≡ false)
    × ((length rule.recipients == 0) ≡ false)
    × (MoreSevere i.risk.severity previous
        ⊎ ((¬ IsSnoozed t i p (instant t at)) × (¬ InCooldown t rule i (instant t at) plans)))

-- The same conditions, in other words.
reworded :
    {A C D F F' G G' H H' : Type 0}
    → A ↔ (C × D × (F ⊎ (G × H)))
    → F ↔ F'
    → G ↔ G'
    → H ↔ H'
    → A ↔ (C × D × (F' ⊎ (G' × H')))
reworded f e g h = (
  λ a.
      let (c, d, w) = f.0 a in
      (c, d, elim w [ inl r ↦ inl (e.0 r) | inr q ↦ inr (g.0 q.0, h.0 q.1) ]),
  λ z.
      let (c, d, w) = z in
      f.1 (c, d, elim w [ inl r ↦ inl (e.1 r) | inr q ↦ inr (g.1 q.0, h.1 q.1) ]),
)

through : {A B C : Type 0} → A ↔ B → B ↔ C → A ↔ C
through f g = (λ a. g.0 (f.0 a), λ c. f.1 (g.1 c))

-- The preview that planNotification decides on is planned exactly when the policy sends the
-- incident's severity, there are recipients, and either the severity is ahead of the previous one in the
-- order P0, P1, P2, P3, or no snooze of the incident reaches beyond the present (one of a P0 incident that
-- the policy lets pass apart), and its latest planned preview is at least as old as the policy's cooldown.
pub new_plan-planned_iff :
    (t : Tools) (p : Policy) (i : Incident) (previous at : String) (suffix : Option String)
    (plans : List Notification)
    → (is_planned (new_plan t p i previous at suffix plans).status ≡ true)
      ↔ IsDue t p i previous at plans
unfolding new_plan IsDue
new_plan-planned_iff t p i previous at suffix plans =
    let rule = rule_of i.risk.severity p.rules in
    let rising = escalated i.risk.severity previous in
    let now = instant t at in
    reworded
      (both_iff (cooled-planned t rule i rising now plans (first_status t p rule i rising now))
        (first_status-planned t p rule i rising now))
      (escalated_lem i.risk.severity previous)
      (false_iff (notification_snoozed t i p now) (notification_snoozed_lem t i p now))
      (through (either_false (ltb 0 rule.cooldown_seconds) (cooling t rule i now plans)) (
        false_iff (ltb 0 rule.cooldown_seconds && cooling t rule i now plans)
          (cooling_lem t rule i now plans)))
