-- ===== src/Incidents/Notices/Planned.antt =====
-- How the previews of notifications grow.

use Prim.Native.String.{◌++◌ as join}
use agent_chun_su.Base.{
  ◌≡◌, ◌⊎◌, ◌∙◌, refl, ap, inl, inr, subst, sym, ℕ, true, false, List, [], ◌∷◌, ◌++◌, String,
  Option, none, some, arith, Bool, ◌==◌, str_eq, if◌then◌else◌, Bool-cases,
}
use agent_chun_su.Table.{exists, All, Apart, length}
use agent_chun_su.Table.Laws.{All-append, exists-All}
use agent_chun_su.Table.Apart.{Apart-append, length-append}
use agent_chun_su.Incidents.{
  Tools, Json, Policy, Incident, Notification, instant, is_resolved, next_revision, text_before,
}
use agent_chun_su.Store.Queries.{sort_by}
use agent_chun_su.Incidents.Notices.{
  rule_of, is_planned, first_status, cooled, new_plan, has_key, plan_notification, added,
  last_where, settled, review_one, review_all, review_notifications,
}

-- A planned preview has the recipients and the mode that its policy gives to its severity, and
-- there is someone to notify.
pub record Addressed (n : Notification) : Type 0 where
  pub by_mode : n.mode ≡ (rule_of n.severity n.policy.rules).mode
  pub by_recipients : n.recipients ≡ (rule_of n.severity n.policy.rules).recipients
  pub is_sent : str_eq n.mode "none" ≡ false
  pub has_recipients : (length n.recipients == 0) ≡ false

unfoldable pub Entitled : Notification → Type 0
Entitled n = (is_planned n.status ≡ false) ⊎ Addressed n

-- The previews of the left grow to those of the right, by one with a key of its own at a time.
pub data Grows : List Notification → List Notification → Type 0 where
  kept : {xs : List Notification} → Grows xs xs
  one_more :
      {xs ys zs : List Notification} (n : Notification)
      → Grows xs ys
      → exists (has_key n.key) ys ≡ false
      → Entitled n
      → zs ≡ ys ++ (n ∷ [])
      → Grows xs zs

pub Grows-trans : (xs ys zs : List Notification) → Grows xs ys → Grows ys zs → Grows xs zs
Grows-trans xs ys zs g kept = g
Grows-trans xs ys zs g (one_more {ys = ys'} n h new due e) =
    one_more n (Grows-trans xs ys ys' g h) new due e

-- No two previews have the same key.
unfoldable pub OwnKeys : List Notification → Type 0
OwnKeys plans = Apart (λ (m n : Notification). has_key n.key m ≡ false) plans

pub Grows-OwnKeys : (xs ys : List Notification) → Grows xs ys → OwnKeys xs → OwnKeys ys
unfolding OwnKeys
Grows-OwnKeys xs ys kept own = own
Grows-OwnKeys xs zs (one_more {ys = ys} n g new due e) own = subst OwnKeys (sym e) (
    Apart-append (λ (m n : Notification). has_key n.key m ≡ false) ys n (Grows-OwnKeys xs ys g own)
      (exists-All (has_key n.key) ys new))

append_assoc {ℓ} : {A : Type ℓ} (xs ys zs : List A) → (xs ++ ys) ++ zs ≡ xs ++ (ys ++ zs)
append_assoc [] ys zs = refl
append_assoc (x ∷ xs) ys zs = ap (λ ws. x ∷ ws) (append_assoc xs ys zs)

append_nil {ℓ} : {A : Type ℓ} (xs : List A) → xs ++ [] ≡ xs
append_nil [] = refl
append_nil (x ∷ xs) = ap (λ ws. x ∷ ws) (append_nil xs)

pub Grows-more :
    (xs ys : List Notification)
    → Grows xs ys
    → (more : List Notification) × (ys ≡ xs ++ more) × All Entitled more
Grows-more xs ys kept = ([], sym (append_nil xs), tt)
Grows-more xs zs (one_more {ys = ys} n g new due e) =
    let (more, same, all) = Grows-more xs ys g in
    (
      more ++ (n ∷ []),
      e ∙ ap (λ ws. ws ++ (n ∷ [])) same ∙ append_assoc xs more (n ∷ []),
      All-append Entitled more (n ∷ []) all (due, tt),
    )

-- What the switch and the cooldown leave planned.
new_plan-Entitled :
    (t : Tools) (p : Policy) (i : Incident) (previous at : String) (suffix : Option String)
    (plans : List Notification)
    → Entitled (new_plan t p i previous at suffix plans)
unfolding Entitled new_plan cooled first_status
new_plan-Entitled t p i previous at suffix plans =
    elim (Bool-cases (is_planned (new_plan t p i previous at suffix plans).status)) [
      | inr idle ↦ inl idle
      | inl planned ↦ inr (record {
        by_mode = refl;
        by_recipients = refl;
        is_sent = ground (arith, planned);
        has_recipients = ground (arith, planned);
      })
    ]

pub plan_notification-Grows :
    (t : Tools) (p : Policy) (i : Incident) (previous at : String) (suffix : Option String)
    (plans : List Notification)
    → Grows plans (plan_notification t p i previous at suffix plans)
unfolding plan_notification
plan_notification-Grows t p i previous at suffix plans =
    elim (Bool-cases (exists (has_key (new_plan t p i previous at suffix plans).key) plans)) [
      | inl known ↦ rw (known, plan_notification) kept
      | inr new ↦
          one_more (new_plan t p i previous at suffix plans) kept new
            (new_plan-Entitled t p i previous at suffix plans) (ground arith)
    ]

last_where-append {ℓ} :
    {A : Type ℓ} (q : A → Bool) (xs : List A) (a : A)
    → q a ≡ true
    → last_where q (xs ++ (a ∷ [])) ≡ some a
unfolding last_where
last_where-append q [] a h = ground arith
last_where-append q (x ∷ xs) a h = rw (last_where-append q xs a h) refl

added-append :
    (plans : List Notification) (n : Notification) → added plans (plans ++ (n ∷ [])) ≡ some n
unfolding added
added-append plans n =
    let longer : (length (plans ++ (n ∷ [])) == length plans) ≡ false =
      ground (arith, length-append plans (n ∷ [])) in
    rw (longer, added) (last_where-append (λ (m : Notification). true) plans n refl)

added-same : (plans : List Notification) → added plans plans ≡ none
unfolding added
added-same plans = ground arith

added-cases :
    (t : Tools) (p : Policy) (i : Incident) (previous at : String) (suffix : Option String)
    (plans : List Notification)
    → (added plans (plan_notification t p i previous at suffix plans) ≡ none)
      ⊎ ((added plans (plan_notification t p i previous at suffix plans)
            ≡ some (new_plan t p i previous at suffix plans))
          × (exists (has_key (new_plan t p i previous at suffix plans).key) plans ≡ false))
unfolding plan_notification
added-cases t p i previous at suffix plans =
    elim (Bool-cases (exists (has_key (new_plan t p i previous at suffix plans).key) plans)) [
      | inl known ↦ inl (rw (known, plan_notification) (added-same plans))
      | inr new ↦ inr (
        rw (new, plan_notification) (added-append plans (new_plan t p i previous at suffix plans)),
        new,
      )
    ]

pub Grows-if :
    (b : Bool) (xs ys zs : List Notification)
    → Grows xs ys
    → Grows xs zs
    → Grows xs (if b then ys else zs)
Grows-if true xs ys zs g h = g
Grows-if false xs ys zs g h = h

review_one-Grows :
    (t : Tools) (j : Json) (p : Policy) (at suffix : String) (i : Incident)
    (plans : List Notification)
    → Grows plans (review_one t j p at suffix i plans)
unfolding review_one
review_one-Grows t j p at suffix i plans = Grows-if (is_resolved i) plans plans _ kept (
    Grows-if
      (settled t j p i (instant t at)
        (last_where (λ (n : Notification). str_eq n.incident_id i.id) plans))
      plans plans _ kept
      (elim (added-cases t p i "" at (some suffix) plans) [
        | inl none_ ↦ rw none_ kept
        | inr (one, new) ↦ rw one (
            Grows-if _ plans plans _ kept (
              one_more (new_plan t p i "" at (some suffix) plans) kept new
                (new_plan-Entitled t p i "" at (some suffix) plans) refl))
      ]))

review_all-Grows :
    (t : Tools) (j : Json) (p : Policy) (at suffix : String) (is : List Incident)
    (plans : List Notification)
    → Grows plans (review_all t j p at suffix is plans)
unfolding review_all
review_all-Grows t j p at suffix [] plans = kept
review_all-Grows t j p at suffix (i ∷ is) plans =
    Grows-trans plans (review_one t j p at suffix i plans) _
      (review_one-Grows t j p at suffix i plans)
      (review_all-Grows t j p at suffix is (review_one t j p at suffix i plans))

pub review_notifications-Grows :
    (t : Tools) (j : Json) (p : Policy) (revision : ℕ) (at : String) (is : List Incident)
    (plans : List Notification)
    → Grows plans (review_notifications t j p revision at is plans)
unfolding review_notifications
review_notifications-Grows t j p revision at is plans =
    review_all-Grows t j p at (join "review:" (t.decimal (next_revision revision)))
      (sort_by (λ (a b : Incident). text_before a.id b.id) is) plans
