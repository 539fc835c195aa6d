-- ===== src/Store/Results/Publication.antt =====
-- PublishResultEvent, given the same input twice.
use agent_chun_su.Base.{ℕ, ◌≡◌}
use agent_chun_su.Store.Model.{Db, Env}

-- The same home and validator, at another time and with other ids.
abbrev pub later : Env → ℕ → (ℕ → ℕ) → Env
later env now fresh = record env { now = now; fresh = fresh }

abbrev OnlyResults : Db → Db → Type 0
OnlyResults db db' =
    (db'.jobs ≡ db.jobs)
    × (db'.workflows ≡ db.workflows)
    × (db'.steps ≡ db.steps)
    × (db'.artifacts ≡ db.artifacts)
