-- ===== src/Schedule/Occurrences.antt =====
-- BeginTick, and the occurrences that it makes.
use agent_chun_su.Base.{
  ℕ, ◌+◌, ◌*◌, ◌≡◌, ◌≢◌, ◌<◌, ◌≤◌, refl, true, false, List, [], ◌∷◌, ◌++◌, none, some, arith, ◌==◌,
  ◌&&◌, ◌||◌, Option-cases, Bool-cases, ◌⊎◌, inl, inr,
}
use agent_chun_su.Table.{find_by, update_where, exists, when, All}
use agent_chun_su.Table.Laws.{
  find_by-key, find_by-update_where, find_by-append_none, find_by-absent,
}
use agent_chun_su.Store.Model.{Env, ok}
use agent_chun_su.Schedule.{
  Schedule, Tick, TickStatus, Agenda, schedule_key, tick_key, is_over, next_interval, begin_tick,
  begin_tick_txn, previous_over, tick_rows, insert_tick, schedule_is, advance, save_tick,
}
use agent_chun_su.Schedule.Intervals.{next_interval_lem}

-- What a new occurrence finds and leaves, for the row of its schedule.
record Begun (env : Env) (id : ℕ) (g g' : Agenda) (t : Tick) (s : Schedule) : Type 0 where
  enabled : s.enabled ≡ true
  due : s.next_run_at ≤ env.now
  over : previous_over s g ≡ ok tt
  scheduled : t.scheduled_for ≡ s.next_run_at
  missed : t.missed_intervals ≡ (next_interval s env.now).1
  is_pending : t.status ≡ TickStatus.pending
  fresh :
      exists
        (λ r.
          r.id == t.id || (r.schedule_id == t.schedule_id && r.scheduled_for == t.scheduled_for))
        g.ticks
      ≡ false
  ticks_after : g'.ticks ≡ g.ticks ++ (t ∷ [])
  schedules_after : g'.schedules ≡ update_where (schedule_is id) (advance env s t.id) g.schedules

begin_tick-found :
    (env : Env) (id continuation : ℕ) (g g' : Agenda) (t : Tick) (s : Schedule)
    → find_by schedule_key id g.schedules ≡ some s
    → s.id ≡ id
    → begin_tick env id continuation g ≡ (g', ok t)
    → Begun env id g g' t s
unfolding begin_tick begin_tick_txn tick_rows insert_tick
begin_tick-found env id continuation g g' t s found same h = ground arith

absent :
    (env : Env) (id continuation : ℕ) (g g' : Agenda) (t : Tick)
    → find_by schedule_key id g.schedules ≡ none
    → begin_tick env id continuation g ≡ (g', ok t)
    → ⊥
unfolding begin_tick begin_tick_txn
absent env id continuation g g' t e h = ground arith

advanced :
    (env : Env) (id : ℕ) (g g' : Agenda) (t : Tick) (s : Schedule)
    → find_by schedule_key id g.schedules ≡ some s
    → s.id ≡ id
    → Begun env id g g' t s
    → find_by schedule_key id g'.schedules ≡ some (advance env s t.id s)
advanced env id g g' t s found same b =
    rw
      (
        b.schedules_after,
        find_by-update_where schedule_key (schedule_is id) (advance env s t.id) (λ r. refl) id
            g.schedules,
        found,
      )
      (ground arith)

recorded :
    (env : Env) (id : ℕ) (g g' : Agenda) (t : Tick) (s : Schedule)
    → Begun env id g g' t s
    → find_by tick_key t.id g'.ticks ≡ some t
unfolding find_by
recorded env id g g' t s b =
    rw
      (
        b.ticks_after,
        find_by-append_none tick_key t.id g.ticks (t ∷ [])
            (find_by-absent tick_key t.id _ (λ r e. ground arith) g.ticks b.fresh),
      )
      (ground arith)

blocked :
    (env : Env) (id continuation : ℕ) (g : Agenda) (s : Schedule) (t : Tick)
    → find_by schedule_key id g.schedules ≡ some s
    → find_by tick_key s.last_tick_id g.ticks ≡ some t
    → s.last_tick_id ≢ 0
    → is_over t.status ≡ false
    → (begin_tick env id continuation g).0 ≡ g
unfolding begin_tick begin_tick_txn previous_over
blocked env id continuation g s t found last there busy = ground arith

-- An occurrence that is still to be collected, retried or worked off.
abbrev pub IsUnsettled : TickStatus → Type 0
IsUnsettled TickStatus.pending = Unit
IsUnsettled TickStatus.retry_wait = Unit
IsUnsettled TickStatus.waiting_auth = Unit
IsUnsettled TickStatus.blocked = Unit
IsUnsettled TickStatus.linked = Unit
IsUnsettled TickStatus.done = ⊥
IsUnsettled TickStatus.skipped = ⊥

IsUnsettled-open : (st : TickStatus) → IsUnsettled st → is_over st ≡ false
IsUnsettled-open TickStatus.pending u = refl
IsUnsettled-open TickStatus.retry_wait u = refl
IsUnsettled-open TickStatus.waiting_auth u = refl
IsUnsettled-open TickStatus.blocked u = refl
IsUnsettled-open TickStatus.linked u = refl
IsUnsettled-open TickStatus.done u = absurd u
IsUnsettled-open TickStatus.skipped u = absurd u

-- The occurrence is the schedule's last one, and unsettled.
record Unsettled (id tick : ℕ) (g : Agenda) : Type 0 where
  row : Schedule
  last : Tick
  found : find_by schedule_key id g.schedules ≡ some row
  its_last : row.last_tick_id ≡ tick
  there : find_by tick_key tick g.ticks ≡ some last
  unsettled : IsUnsettled last.status

-- SaveTick, of any occurrences, one after the other.
unfoldable pub save_ticks : List Tick → Agenda → Agenda
unfolding save_tick
save_ticks [] g = g
save_ticks (u ∷ us) g = save_ticks us (save_tick u g)

abbrev saved : Tick → Tick → Tick
saved u r = record r {
  acquisition_id = u.acquisition_id;
  job_id = u.job_id;
  status = u.status;
  not_before = u.not_before;
  diagnostic = u.diagnostic;
  collection_attempts = u.collection_attempts;
}

save_tick-Unsettled :
    (id tick : ℕ) (u : Tick) (g : Agenda)
    → (u.id ≢ tick) ⊎ IsUnsettled u.status
    → Unsettled id tick g
    → Unsettled id tick (save_tick u g)
unfolding save_tick
save_tick-Unsettled id tick u g keeps h = record {
  row = h.row;
  last = when (λ r. r.id == u.id) (saved u) h.last;
  found = h.found;
  its_last = h.its_last;
  there =
      rw
        (
          find_by-update_where tick_key (λ r. r.id == u.id) (saved u) (λ r. refl) tick g.ticks,
          h.there,
        )
        refl;
  unsettled = after (find_by-key tick_key tick g.ticks h.last h.there);
}
  where
    after :
        h.last.id ≡ tick → IsUnsettled (when (λ (r : Tick). r.id == u.id) (saved u) h.last).status
    after own = elim (Bool-cases (h.last.id == u.id)) [
      | inr other ↦ rw other h.unsettled
      | inl same ↦ elim keeps [
        | inl apart ↦ absurd (apart (ground arith))
        | inr stays ↦ rw same stays
      ]
    ]

save_ticks-Unsettled :
    (id tick : ℕ) (us : List Tick) (g : Agenda)
    → All (λ (u : Tick). (u.id ≢ tick) ⊎ IsUnsettled u.status) us
    → Unsettled id tick g
    → Unsettled id tick (save_ticks us g)
unfolding save_ticks
save_ticks-Unsettled id tick [] g keeps h = h
save_ticks-Unsettled id tick (u ∷ us) g keeps h =
    save_ticks-Unsettled id tick us (save_tick u g) keeps.1
      (save_tick-Unsettled id tick u g keeps.0 h)

-- After BeginTick has made an occurrence, and any calls of SaveTick that leave that occurrence
-- pending, linked to a job, blocked or waiting, a further BeginTick of the schedule, at any time,
-- changes nothing.
pub begin_tick-once :
    (env env' : Env) (id continuation continuation' : ℕ) (g g' : Agenda) (t : Tick) (us : List Tick)
    → t.id ≢ 0
    → All (λ (u : Tick). (u.id ≢ t.id) ⊎ IsUnsettled u.status) us
    → begin_tick env id continuation g ≡ (g', ok t)
    → (begin_tick env' id continuation' (save_ticks us g')).0 ≡ save_ticks us g'
begin_tick-once env env' id continuation continuation' g g' t us real keeps h =
    elim (Option-cases (find_by schedule_key id g.schedules)) [
      | inl e ↦ absurd (absent env id continuation g g' t e h)
      | inr (s, e) ↦
          let same = find_by-key schedule_key id g.schedules s e in
          let b = begin_tick-found env id continuation g g' t s e same h in
          let first : Unsettled id t.id g' = record {
            row = advance env s t.id s;
            last = t;
            found = advanced env id g g' t s e same b;
            its_last = refl;
            there = recorded env id g g' t s b;
            unsettled = rw (b.is_pending) tt;
          } in
          let u = save_ticks-Unsettled id t.id us g' keeps first in
          blocked env' id continuation' (save_ticks us g') u.row u.last u.found
            (rw (u.its_last) u.there) (rw (u.its_last) real)
            (IsUnsettled-open u.last.status u.unsettled)
    ]

-- An occurrence is made only for an enabled schedule that is due. It is recorded as pending, for the
-- time that was due, and a schedule with a positive interval is then due again at the first later
-- point of its grid, past the intervals that the occurrence counts as missed.
pub begin_tick-grid :
    (env : Env) (id continuation : ℕ) (g g' : Agenda) (t : Tick) (s : Schedule)
    → find_by schedule_key id g.schedules ≡ some s
    → 0 < s.interval_ms
    → begin_tick env id continuation g ≡ (g', ok t)
    → (s.enabled ≡ true)
      × (s.next_run_at ≤ env.now)
      × (t.scheduled_for ≡ s.next_run_at)
      × (t.status ≡ TickStatus.pending)
      × (find_by tick_key t.id g'.ticks ≡ some t)
      × (s' : Schedule) × (find_by schedule_key id g'.schedules ≡ some s')
      × (env.now < s'.next_run_at)
      × (s'.next_run_at ≤ env.now + s.interval_ms)
      × (s'.next_run_at ≡ t.scheduled_for + (t.missed_intervals + 1) * s.interval_ms)
begin_tick-grid env id continuation g g' t s e positive h =
    let same = find_by-key schedule_key id g.schedules s e in
    let b = begin_tick-found env id continuation g g' t s e same h in
    let grid = next_interval_lem s env.now positive b.due in
    (
      b.enabled,
      b.due,
      b.scheduled,
      b.is_pending,
      recorded env id g g' t s b,
      advance env s t.id s,
      advanced env id g g' t s e same b,
      grid.0,
      grid.1,
      rw (b.scheduled, b.missed) grid.2,
    )
