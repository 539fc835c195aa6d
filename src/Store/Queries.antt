-- ===== src/Store/Queries.antt =====
-- The listings of internal/store: Attempts (lifecycle.go), StepAttempts (workflow.go), Artifacts
-- (store.go), ResultEvents (result_events.go), Schedules and Ticks (schedule.go), with the order of
-- their queries.
pub mod Listed
use agent_chun_su.Base.{ℕ, Bool, List, [], ◌∷◌, ◌==◌, ◌&&◌, ◌||◌, ltb, leb, if◌then◌else◌}
use agent_chun_su.Table.{select}
use agent_chun_su.Store.Model.{Attempt, StepAttempt, Artifact, ResultEvent, Db}

-- ORDER BY, with `before` where the first row may stand before the second.
module _ {ℓ} {A : Type ℓ} (before : A → A → Bool) where
  unfoldable pub insert_sorted : A → List A → List A
  insert_sorted x [] = x ∷ []
  insert_sorted x (y ∷ ys) =
      let rest = insert_sorted x ys in if before x y then x ∷ y ∷ ys else y ∷ rest

  unfoldable pub sort_by : List A → List A
  unfolding insert_sorted
  sort_by [] = []
  sort_by (x ∷ xs) = insert_sorted x (sort_by xs)

-- `ORDER BY ordinal`.
abbrev pub by_ordinal : Attempt → Attempt → Bool
by_ordinal a b = leb a.ordinal b.ordinal

abbrev pub step_by_ordinal : StepAttempt → StepAttempt → Bool
step_by_ordinal a b = leb a.ordinal b.ordinal

-- `ORDER BY created_at,id`.
abbrev pub by_creation : Artifact → Artifact → Bool
by_creation a b = ltb a.created_at b.created_at || (a.created_at == b.created_at && leb a.id b.id)

unfoldable pub attempts : ℕ → Db → List Attempt
unfolding sort_by
attempts job db = sort_by by_ordinal (select (λ (a : Attempt). a.job_id == job) db.attempts)

unfoldable pub step_attempts : ℕ → Db → List StepAttempt
unfolding sort_by
step_attempts step db =
    sort_by step_by_ordinal (select (λ (a : StepAttempt). a.step_id == step) db.step_attempts)

unfoldable pub artifacts : ℕ → Db → List Artifact
unfolding sort_by
artifacts job db = sort_by by_creation (select (λ (a : Artifact). a.job_id == job) db.artifacts)
