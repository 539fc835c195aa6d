-- ===== src/Schedule/Manager/Budget.antt =====
-- No occurrence is collected more often than configured.
use agent_chun_su.Schedule.Manager.Round.{schedule_before}
use agent_chun_su.Base.{
  ℕ, ◌≡◌, sym, subst, ◌++◌, inl, inr, List, [], ◌∷◌, Option, none, some, arith, ltb, ◌==◌, ◌||◌,
  Bool-cases, Option-cases,
}
use agent_chun_su.Table.{find_by, All}
use agent_chun_su.Table.Laws.{All-append}
use agent_chun_su.Table.Apart.{All-found}
use agent_chun_su.Store.Model.{Env, ok, job_key}
use agent_chun_su.Store.Txn.{Result-cases}
use agent_chun_su.Store.Queries.{sort_by}
use agent_chun_su.Store.Settings.{queue_paused}
use agent_chun_su.Schedule.{Schedule, Tick, Agenda, tick_key, begin_tick, save_tick, is_over}
use agent_chun_su.Schedule.Manager.{World, Manager, StepOutcome}
use agent_chun_su.Schedule.Manager.Round.{
  Visit, next, return, settle_tick, settled, begin, begun, with_agenda, continuation,
  after_settling, visit, rounds, go_on_with, manager_step, may_collect,
}
use agent_chun_su.Schedule.{begin_tick_txn, tick_rows, insert_tick, schedule_key}
use agent_chun_su.Schedule.Manager.Attempts.{
  InBudget, AllInBudget, save_tick-InBudget, collect-InBudget,
}

begin_tick_txn-new :
    (env : Env) (id continuation : ℕ) (g g' : Agenda) (t : Tick)
    → begin_tick_txn env id continuation g ≡ ok (g', t)
    → (g'.ticks ≡ g.ticks ++ (t ∷ [])) × (t.collection_attempts ≡ 0)
unfolding begin_tick_txn tick_rows insert_tick
begin_tick_txn-new env id c g g' t h = elim (Option-cases (find_by schedule_key id g.schedules)) [
  | inl absent ↦ absurd (ground arith)
  | inr (s, found) ↦ (ground arith, ground arith)
]

begun-InBudget :
    (env : Env) (m : Manager) (s : Schedule) (c : ℕ) (w : World)
    → AllInBudget m.max_attempts w
    → AllInBudget m.max_attempts (begun m s w (begin_tick env s.id c w.agenda)).0
unfolding begin_tick
begun-InBudget env m s c w all = elim (Result-cases (begin_tick_txn env s.id c w.agenda)) [
  | inr (x, e) ↦ rw e all
  | inl ((g, t), e) ↦
      (let new = begin_tick_txn-new env s.id c w.agenda g t e in
        rw e (
          collect-InBudget m s t (with_agenda w g) (omega (arith, new.1)) (
            subst (λ ts. All (InBudget m.max_attempts) ts) (sym new.0)
              (All-append (InBudget m.max_attempts) w.agenda.ticks (t ∷ []) all
                (omega (arith, new.1), tt)))))
]

-- What a visit leaves.
abbrev visited : Visit → World
visited (next w) = w
visited (return r) = r.0

begin-InBudget :
    (env : Env) (m : Manager) (s : Schedule) (previous : Option Tick) (w : World)
    → AllInBudget m.max_attempts w
    → AllInBudget m.max_attempts (visited (begin env m s previous w))
unfolding begin
begin-InBudget env m s previous w all = elim (Bool-cases (ltb env.now s.next_run_at)) [
  | inl early ↦ rw (early, begin) all
  | inr due ↦ elim (Result-cases (continuation m s previous w)) [
    | inr (x, e) ↦ rw (due, e, begin) all
    | inl (c, e) ↦ rw (due, e, begin) (begun-InBudget env m s c w all)
  ]
]

ok-injective : (r r' : World × Tick) → ok r ≡ ok r' → r ≡ r'
ok-injective r r' h = ground arith

settle_tick-InBudget :
    (limit : ℕ) (t t' : Tick) (w w' : World)
    → settle_tick t w ≡ ok (w', t')
    → InBudget limit t
    → AllInBudget limit w
    → InBudget limit t' × AllInBudget limit w'
unfolding settle_tick
settle_tick-InBudget limit t t' w w' h budget all =
    elim (Bool-cases (t.job_id == 0 || is_over t.status)) [
      | inl still ↦
          subst (λ r. InBudget limit (r.1) × AllInBudget limit r.0)
            (ok-injective (w, t) (w', t') (ground arith)) (budget, all)
      | inr linked ↦ elim (Option-cases (find_by job_key t.job_id w.holdings.db.jobs)) [
        | inl absent ↦ absurd (ground arith)
        | inr (j, found) ↦
            subst (λ r. InBudget limit (r.1) × AllInBudget limit r.0)
              (ok-injective (with_agenda w (save_tick (settled j t) w.agenda), settled j t) (w', t')
                (ground arith))
              (budget, save_tick-InBudget limit (settled j t) w.agenda budget all)
      ]
    ]

after_settling-InBudget :
    (env : Env) (m : Manager) (s : Schedule) (w : World) (t : Tick)
    → InBudget m.max_attempts t
    → AllInBudget m.max_attempts w
    → AllInBudget m.max_attempts (visited (after_settling env m s w t))
unfolding after_settling
after_settling-InBudget env m s w t budget all = elim (Bool-cases (is_over t.status)) [
  | inl over ↦ rw (over, after_settling) (begin-InBudget env m s (some t) w all)
  | inr unfinished ↦ elim (Bool-cases (may_collect env t)) [
    | inl may ↦ rw (unfinished, may, after_settling) (collect-InBudget m s t w budget all)
    | inr wait ↦ rw (unfinished, wait, after_settling) all
  ]
]

visit-InBudget :
    (env : Env) (m : Manager) (s : Schedule) (w : World)
    → AllInBudget m.max_attempts w
    → AllInBudget m.max_attempts (visited (visit env m s w))
unfolding visit
visit-InBudget env m s w all = elim (Bool-cases s.enabled) [
  | inr disabled ↦ rw (disabled, visit) all
  | inl enabled ↦ elim (Bool-cases (s.last_tick_id == 0)) [
    | inl first ↦ rw (enabled, first, visit) (begin-InBudget env m s none w all)
    | inr later ↦ elim (Option-cases (find_by tick_key s.last_tick_id w.agenda.ticks)) [
      | inl absent ↦ rw (enabled, later, absent, visit) all
      | inr (t, found) ↦ elim (Result-cases (settle_tick t w)) [
        | inr (x, e) ↦ rw (enabled, later, found, e, visit) all
        | inl ((w', t'), e) ↦
            (let kept =
                settle_tick-InBudget m.max_attempts t t' w w' e
                  (All-found tick_key s.last_tick_id (InBudget m.max_attempts) w.agenda.ticks t
                    found all)
                  all in
              rw (enabled, later, found, e, visit)
                (after_settling-InBudget env m s w' t' kept.0 kept.1))
      ]
    ]
  ]
]

go_on_with-InBudget :
    (m : Manager) (rest : World → StepOutcome) (v : Visit)
    → ((w : World) → AllInBudget m.max_attempts w → AllInBudget m.max_attempts (rest w).0)
    → AllInBudget m.max_attempts (visited v)
    → AllInBudget m.max_attempts (go_on_with rest v).0
go_on_with-InBudget m rest (next w) more h = more w h
go_on_with-InBudget m rest (return r) more h = h

rounds-InBudget :
    (env : Env) (m : Manager) (ss : List Schedule) (w : World)
    → AllInBudget m.max_attempts w
    → AllInBudget m.max_attempts (rounds env m ss w).0
unfolding rounds
rounds-InBudget env m [] w all = all
rounds-InBudget env m (s ∷ ss) w all =
    go_on_with-InBudget m (rounds env m ss) (visit env m s w) (rounds-InBudget env m ss)
      (visit-InBudget env m s w all)

-- However the collectors answer, a step of the manager leaves each occurrence with at most the
-- configured number of collection attempts, if each had at most as many before.
pub manager_step-InBudget :
    (env : Env) (m : Manager) (w : World)
    → AllInBudget m.max_attempts w
    → AllInBudget m.max_attempts (manager_step env m w).0
unfolding manager_step
manager_step-InBudget env m w all = elim (Result-cases (queue_paused w.settings)) [
  | inr (x, e) ↦ rw (e, manager_step) all
  | inl (paused, e) ↦ elim (Bool-cases paused) [
    | inl yes_paused ↦ rw (e, yes_paused, manager_step) all
    | inr active ↦
        rw (e, active, manager_step)
          (rounds-InBudget env m (sort_by schedule_before w.agenda.schedules) w all)
  ]
]
