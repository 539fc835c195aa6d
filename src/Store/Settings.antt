-- ===== src/Store/Settings.antt =====
-- SetPaused and Paused of internal/store/schedule.go: the owner's pause of the whole queue, one row
-- of the table `local_settings`.
use agent_chun_su.Base.{
  Bool, true, false, List, [], ◌∷◌, ◌≡◌, String, some, arith, str_eq, Bool-cases, Option-cases, inl,
  inr, ap, refl,
}
use agent_chun_su.Table.{find_where, update_where}
use agent_chun_su.Store.Model.{Result, ok, no_rows}
use agent_chun_su.Store.Txn.{◌>>=◌, or_fail}

pub record Setting : Type 0 where
  pub key : String
  pub value : String

abbrev queue_paused_setting : String
queue_paused_setting = "queue_paused"

abbrev is_queue_paused : Setting → Bool
is_queue_paused r = str_eq r.key queue_paused_setting

abbrev paused_text : Bool → String
paused_text true = "true"
paused_text false = "false"

abbrev set_value : String → Setting → Setting
set_value v r = record r { value = v }

pub set_queue_paused : Bool → List Setting → List Setting
set_queue_paused paused settings =
    update_where is_queue_paused (set_value (paused_text paused)) settings

unfoldable pub queue_paused : List Setting → Result Bool
queue_paused settings = or_fail (find_where is_queue_paused settings) no_rows >>= λ (r : Setting).
    ok (str_eq r.value "true")

find_where-set_value :
    (v : String) (settings : List Setting) (r : Setting)
    → find_where is_queue_paused settings ≡ some r
    → find_where is_queue_paused (update_where is_queue_paused (set_value v) settings)
      ≡ some (set_value v r)
unfolding find_where update_where
find_where-set_value v [] r h = absurd (ground arith)
find_where-set_value v (s ∷ ss) r h = elim (Bool-cases (is_queue_paused s)) [
  | inl hit ↦ (let same : s ≡ r = ground arith in rw (← same, hit, hit) refl)
  | inr miss ↦ rw (miss, miss) (find_where-set_value v ss r (ground arith))
]

paused_text-read : (paused : Bool) → str_eq (paused_text paused) "true" ≡ paused
paused_text-read true = refl
paused_text-read false = refl

-- Where the row is there, the pause reads back as it was set.
pub queue_paused-set_queue_paused :
    (paused b : Bool) (settings : List Setting)
    → queue_paused settings ≡ ok b
    → queue_paused (set_queue_paused paused settings) ≡ ok paused
unfolding queue_paused set_queue_paused
queue_paused-set_queue_paused paused b settings h =
    elim (Option-cases (find_where is_queue_paused settings)) [
      | inl e ↦ absurd (ground arith)
      | inr (r, e) ↦
          rw (find_where-set_value (paused_text paused) settings r e)
            (ap ok (paused_text-read paused))
    ]
