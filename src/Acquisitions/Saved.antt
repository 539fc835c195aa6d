-- ===== src/Acquisitions/Saved.antt =====
-- What SaveAcquisition leaves.
use agent_chun_su.Base.{ℕ, ◌≡◌, ◌⊎◌, Option, List, some, none}
use agent_chun_su.Table.{find_by}
use agent_chun_su.Store.Model.{Env, ok}
use agent_chun_su.Acquisitions.{
  Acquisition, Intake, acquisition_key, saved_row, set_checkpoint, read_acquisition,
}

-- A row that is new, or an earlier one with the new checkpoint.
abbrev pub kept_row : Acquisition → Option Acquisition → Acquisition
kept_row n none = n
kept_row n (some r) = set_checkpoint n r

-- What a SaveAcquisition that succeeds leaves.
pub record Saved (env : Env) (content : List ℕ) (limit : ℕ) (a b : Acquisition) (i i' : Intake)
    : Type 0 where
  pub returned : b ≡ saved_row env content a
  pub row :
      find_by acquisition_key a.id i'.acquisitions
      ≡ some (kept_row b (find_by acquisition_key a.id i.acquisitions))
  pub readable :
      read_acquisition env (kept_row b (find_by acquisition_key a.id i.acquisitions)) limit i'
      ≡ ok content
  pub others :
      (id : ℕ)
      → (id ≡ a.id)
        ⊎ (find_by acquisition_key id i'.acquisitions ≡ find_by acquisition_key id i.acquisitions)
