-- ===== src/Store/Workflow/Settled.antt =====
-- The steps that internal/store/workflow.go never runs again, and the writes that keep them so.
use agent_chun_su.Base.{ℕ, ◌≡◌, refl, Bool, true, false, some}
use agent_chun_su.Table.{find_by, update_where, when}
use agent_chun_su.Table.Laws.{find_by-update_where}
use agent_chun_su.Store.Status.{StepState}
use agent_chun_su.Store.Model.{Step, Db, step_key}

-- The step is completed, or superseded after that.
abbrev pub is_settled : StepState → Bool
is_settled StepState.completed = true
is_settled StepState.superseded = true
is_settled _ = false

-- The change of the steps is one UPDATE at most, which leaves settled steps settled.
pub data Lasts (db db' : Db) : Type 0 where
  untouched : db'.steps ≡ db.steps → Lasts db db'
  written :
      (p : Step → Bool) (f : Step → Step)
      → db'.steps ≡ update_where p f db.steps
      → ((r : Step) → (f r).id ≡ r.id)
      → ((r : Step) → is_settled r.state ≡ true → is_settled (when p f r).state ≡ true)
      → Lasts db db'

-- The step is there, and settled.
abbrev pub IsSettled : ℕ → Db → Type 0
IsSettled id db = (s : Step) × (find_by step_key id db.steps ≡ some s) × (is_settled s.state ≡ true)

pub Lasts-IsSettled : (id : ℕ) (db db' : Db) → Lasts db db' → IsSettled id db → IsSettled id db'
Lasts-IsSettled id db db' (untouched same) (s, found, settled) = (s, rw same found, settled)
Lasts-IsSettled id db db' (written p f steps keeps stays) (s, found, settled) = (
  when p f s,
  rw (steps, find_by-update_where step_key p f keeps id db.steps, found) refl,
  stays s settled,
)
