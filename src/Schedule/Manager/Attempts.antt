-- ===== src/Schedule/Manager/Attempts.antt =====
-- The budget of collections of an occurrence, over a step of the manager.
use agent_chun_su.Base.{
  ℕ, ◌≤◌, inl, inr, Bool, true, false, arith, leb, str_eq, Bool-cases, Option-cases,
}
use agent_chun_su.Table.{find_by, All}
use agent_chun_su.Table.Laws.{All-update_where}
use agent_chun_su.Store.Model.{Job, Result, ok, err}
use agent_chun_su.Schedule.{TickStatus, Schedule, Tick, Agenda, save_tick}
use agent_chun_su.Schedule.Manager.{
  World, Manager, Holdings, Collected, acquisition_key, queue_tick, queue_result,
  collection_attempt, one_more, after_collection, collect_from_mail, collect_from_jira, collect,
  is_collected, exhausted, mail_unavailable, mail_rezoned, jira_unavailable, jira_rezoned,
  mail_status, jira_failure,
}

-- Within the budget.
abbrev pub InBudget : ℕ → Tick → Type 0
InBudget limit t = t.collection_attempts ≤ limit

abbrev pub AllInBudget : ℕ → World → Type 0
AllInBudget limit w = All (InBudget limit) w.agenda.ticks

pub save_tick-InBudget :
    (limit : ℕ) (t : Tick) (g : Agenda)
    → InBudget limit t
    → All (InBudget limit) g.ticks
    → All (InBudget limit) (save_tick t g).ticks
unfolding save_tick
save_tick-InBudget limit t g h all =
    All-update_where (InBudget limit) (InBudget limit) _ _ (λ r k. ground arith) g.ticks all

queue_tick-InBudget :
    (m : Manager) (jira : Bool) (a : ℕ) (t : Tick) (w : World)
    → InBudget m.max_attempts t
    → AllInBudget m.max_attempts w
    → AllInBudget m.max_attempts (queue_tick m jira a t w).0
unfolding queue_tick
queue_tick-InBudget m jira a t w h all = of_result (m.collectors.queue jira a w.holdings)
  where
    of_result : (r : Holdings × Result Job) → AllInBudget m.max_attempts (queue_result a t w r).0
    of_result (holdings, ok j) = save_tick-InBudget m.max_attempts _ w.agenda h all
    of_result (holdings, err e) = save_tick-InBudget m.max_attempts _ w.agenda h all

after_collection-InBudget :
    (m : Manager) (jira : Bool) (status : Collected → TickStatus) (t : Tick) (w : World)
    (c : Collected)
    → InBudget m.max_attempts t
    → AllInBudget m.max_attempts w
    → AllInBudget m.max_attempts (after_collection m jira status t w c).0
unfolding after_collection
after_collection-InBudget m jira status t w c h all = elim (Option-cases c.failure) [
  | inl none_failed ↦
      rw (none_failed, after_collection) (queue_tick-InBudget m jira c.acquisition.id t w h all)
  | inr (text, failed) ↦
      rw (failed, after_collection) (save_tick-InBudget m.max_attempts _ w.agenda h all)
]

collection_attempt-InBudget :
    (m : Manager) (jira : Bool) (status : Collected → TickStatus)
    (run : Tick → Holdings → Holdings × Collected) (t : Tick) (w : World)
    → InBudget m.max_attempts t
    → AllInBudget m.max_attempts w
    → AllInBudget m.max_attempts (collection_attempt m jira status run t w).0
unfolding collection_attempt
collection_attempt-InBudget m jira status run t w h all =
    elim (Bool-cases (leb m.max_attempts t.collection_attempts)) [
      | inl spent ↦
          rw (spent, collection_attempt)
            (save_tick-InBudget m.max_attempts (exhausted t) w.agenda h all)
      | inr left ↦
          rw (left, collection_attempt)
            (after_collection-InBudget m jira status (one_more t) _ _ (ground arith)
              (save_tick-InBudget m.max_attempts (one_more t) w.agenda (ground arith) all))
    ]

collect_from_mail-InBudget :
    (m : Manager) (s : Schedule) (t : Tick) (w : World)
    → InBudget m.max_attempts t
    → AllInBudget m.max_attempts w
    → AllInBudget m.max_attempts (collect_from_mail m s t w).0
unfolding collect_from_mail
collect_from_mail-InBudget m s t w h all =
    elim (Option-cases (m.collectors.mail_zone s.connection_id)) [
      | inl absent ↦
          rw (absent, collect_from_mail)
            (save_tick-InBudget m.max_attempts (mail_unavailable t) w.agenda h all)
      | inr (zone, e) ↦ elim (Bool-cases (str_eq zone s.timezone)) [
        | inr other ↦
            rw (e, other, collect_from_mail)
              (save_tick-InBudget m.max_attempts (mail_rezoned t) w.agenda h all)
        | inl same ↦
            elim (Option-cases (find_by acquisition_key t.acquisition_id w.holdings.acquisitions)) [
              | inl new ↦
                  rw (e, same, new, collect_from_mail)
                    (collection_attempt-InBudget m false (mail_status m t) m.collectors.collect_mail
                      t w h all)
              | inr (a, found) ↦ elim (Bool-cases (is_collected a)) [
                | inl done ↦
                    rw (e, same, found, done, collect_from_mail)
                      (queue_tick-InBudget m false a.id t w h all)
                | inr more ↦
                    rw (e, same, found, more, collect_from_mail)
                      (collection_attempt-InBudget m false (mail_status m t)
                        m.collectors.collect_mail t w h all)
              ]
            ]
      ]
    ]

collect_from_jira-InBudget :
    (m : Manager) (s : Schedule) (t : Tick) (w : World)
    → InBudget m.max_attempts t
    → AllInBudget m.max_attempts w
    → AllInBudget m.max_attempts (collect_from_jira m s t w).0
unfolding collect_from_jira
collect_from_jira-InBudget m s t w h all =
    elim (Option-cases (m.collectors.jira_zone s.connection_id)) [
      | inl absent ↦
          rw (absent, collect_from_jira)
            (save_tick-InBudget m.max_attempts (jira_unavailable t) w.agenda h all)
      | inr (zone, e) ↦ elim (Bool-cases (str_eq zone s.timezone)) [
        | inr other ↦
            rw (e, other, collect_from_jira)
              (save_tick-InBudget m.max_attempts (jira_rezoned t) w.agenda h all)
        | inl same ↦
            elim (Option-cases (find_by acquisition_key t.acquisition_id w.holdings.acquisitions)) [
              | inl new ↦
                  rw (e, same, new, collect_from_jira)
                    (collection_attempt-InBudget m true jira_failure m.collectors.collect_live t w h
                      all)
              | inr (a, found) ↦ elim (Bool-cases (is_collected a)) [
                | inl done ↦
                    rw (e, same, found, done, collect_from_jira)
                      (queue_tick-InBudget m true a.id t w h all)
                | inr more ↦
                    rw (e, same, found, more, collect_from_jira)
                      (collection_attempt-InBudget m true jira_failure m.collectors.resume_live t w
                        h all)
              ]
            ]
      ]
    ]

pub collect-InBudget :
    (m : Manager) (s : Schedule) (t : Tick) (w : World)
    → InBudget m.max_attempts t
    → AllInBudget m.max_attempts w
    → AllInBudget m.max_attempts (collect m s t w).0
unfolding collect
collect-InBudget m s t w h all = elim (Bool-cases (m.collectors.is_jira s.connection_id)) [
  | inl jira ↦ rw (jira, collect) (collect_from_jira-InBudget m s t w h all)
  | inr mail ↦ rw (mail, collect) (collect_from_mail-InBudget m s t w h all)
]
