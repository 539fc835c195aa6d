-- ===== src/Acquisitions/Continuations.antt =====
-- Which acquisitions continue another.

use agent_chun_su.Base.{ℕ, ◌≡◌, subst, inl, inr, false, List, [], ◌∷◌, arith, Bool-cases}
use agent_chun_su.Table.{exists, Apart}
use agent_chun_su.Table.Laws.{exists-All}
use agent_chun_su.Table.Apart.{Apart-append, Apart-update_where}
use agent_chun_su.Store.Model.{Env, ok}
use agent_chun_su.Store.Txn.{Result-cases}
use agent_chun_su.Acquisitions.{
  Acquisition, Intake, saved_row, set_checkpoint, has_acquisition_id, clashes, upsert_acquisition,
  write_state, checked_save, save_acquisition,
}

-- No two rows continue the same acquisition.
unfoldable pub OneContinuation : List Acquisition → Type 0
OneContinuation rows = Apart (λ (a b : Acquisition). clashes b a ≡ false) rows

upsert-OneContinuation :
    (a : Acquisition) (rows rows' : List Acquisition)
    → upsert_acquisition a rows ≡ ok rows'
    → OneContinuation rows
    → OneContinuation rows'
unfolding upsert_acquisition OneContinuation
upsert-OneContinuation a rows rows' h one =
    elim (Bool-cases (exists (has_acquisition_id a.id) rows)) [
      | inl known ↦ subst OneContinuation (ground arith) (
          Apart-update_where (λ (a b : Acquisition). clashes b a ≡ false) (has_acquisition_id a.id)
            (set_checkpoint a) (λ x y e. ground arith) rows one)
      | inr new ↦ elim (Bool-cases (exists (clashes a) rows)) [
        | inl taken ↦ absurd (ground arith)
        | inr free ↦ subst OneContinuation (ground arith) (
            Apart-append (λ (x y : Acquisition). clashes y x ≡ false) rows a one
              (exists-All (clashes a) rows free))
      ]
    ]

-- Calls of SaveAcquisition, each with what it takes from outside, its content and its limit.
unfoldable pub save_all : List (Env × List ℕ × ℕ × Acquisition) → Intake → Intake
save_all [] i = i
save_all ((env, content, limit, a) ∷ calls) i =
    save_all calls (save_acquisition env content limit a i).0

save_acquisition-OneContinuation :
    (env : Env) (content : List ℕ) (limit : ℕ) (a : Acquisition) (i : Intake)
    → OneContinuation i.acquisitions
    → OneContinuation (save_acquisition env content limit a i).0.acquisitions
unfolding save_acquisition
save_acquisition-OneContinuation env content limit a i one =
    elim (Result-cases (checked_save content limit a)) [
      | inr (e, bad) ↦ rw (bad, save_acquisition) one
      | inl (u, good) ↦
          elim (Result-cases (write_state (saved_row env content a).path content i.state_files)) [
            | inr (e, bad) ↦ rw (good, save_acquisition, bad) one
            | inl (files, written) ↦
                elim (Result-cases (upsert_acquisition (saved_row env content a) i.acquisitions)) [
                  | inr (e, bad) ↦ rw (good, save_acquisition, written, bad) one
                  | inl (rows, kept) ↦
                      rw (good, save_acquisition, written, kept)
                        (upsert-OneContinuation (saved_row env content a) i.acquisitions rows kept
                          one)
                ]
          ]
    ]

-- Under any calls of SaveAcquisition, also those that fail, an acquisition has one continuation at
-- most.
pub save_all-OneContinuation :
    (calls : List (Env × List ℕ × ℕ × Acquisition)) (i : Intake)
    → OneContinuation i.acquisitions
    → OneContinuation (save_all calls i).acquisitions
unfolding save_all
save_all-OneContinuation [] i one = one
save_all-OneContinuation ((env, content, limit, a) ∷ calls) i one =
    save_all-OneContinuation calls (save_acquisition env content limit a i).0
      (save_acquisition-OneContinuation env content limit a i one)
