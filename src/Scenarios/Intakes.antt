-- ===== src/Scenarios/Intakes.antt =====
-- Checkpoints of a collection, and the sources that a report covers.
use agent_chun_su.Base.{ℕ, ◌≡◌, refl, true, String, List, [], ◌∷◌, some}
use agent_chun_su.Table.{find_by, find_where, exists, update_where}
use agent_chun_su.Store.Status.{JobStatus}
use agent_chun_su.Store.Model.{Db, Env}
use agent_chun_su.Store.Resume.{Codec, get, end, object}
use agent_chun_su.Acquisitions.{Acquisition, Intake, save_acquisition}
use agent_chun_su.Acquisitions.Saved.{Saved}
use agent_chun_su.Acquisitions.Continuations.{OneContinuation, save_all, save_all-OneContinuation}
use agent_chun_su.Acquisitions.Reports.{
  covered, is_experiment, record_all, record_coverage, upsert_coverage,
}
use agent_chun_su.Acquisitions.Overlay.{OncePerSource, overlay, Reportable, record_coverage-overlay}
use agent_chun_su.Scenarios.{clock, job, staged_db}

abbrev checkpoint : ℕ → ℕ → Acquisition
checkpoint id parent = record {
  id = id;
  connection_id = 4;
  parent_id = parent;
  status = "collecting";
  as_of = "today";
  not_before = 0;
  path = record { owner = 0; file = 0 };
  digest = "";
  bytes = 0;
  job_id = 0;
  created_at = 0;
  updated_at = 0;
}

abbrev nothing_taken : Intake
nothing_taken = record { acquisitions = []; coverage = []; state_files = [] }

-- The second save is a checkpoint of the acquisition of the first.
abbrev first_save : Intake
first_save = (save_acquisition (clock 5 70) (1 ∷ []) 10 (checkpoint 21 0) nothing_taken).0

abbrev second_save : Intake
second_save = (save_acquisition (clock 6 71) (1 ∷ 2 ∷ []) 10 (checkpoint 21 0) first_save).0

-- The third save would continue the first acquisition once more.
abbrev saves : List (Env × List ℕ × ℕ × Acquisition)
saves =
    (clock 5 70, 1 ∷ [], 10, checkpoint 21 0)
    ∷ (clock 6 71, 2 ∷ [], 10, checkpoint 22 21)
    ∷ (clock 7 72, 3 ∷ [], 10, checkpoint 23 21)
    ∷ []

save_all-OneContinuation_example : OneContinuation (save_all saves nothing_taken).acquisitions
unfolding OneContinuation
save_all-OneContinuation_example = save_all-OneContinuation saves nothing_taken tt

abbrev no_fields : Codec
no_fields = record { unmarshal = λ t. some (object end); marshal = λ fs. "{}" }

abbrev finished_db : Db
finished_db = record (staged_db [] [] [] []) { jobs = job 1 JobStatus.partial 0 ∷ [] }

abbrev taken_before : Intake
taken_before = record nothing_taken {
  coverage =
      record {
        connection_id = 4;
        source_id = "a";
        fingerprint = "old";
        job_id = 9;
        reported_at = 1;
      }
      ∷ [];
}

abbrev fingerprints : List (String × String)
fingerprints = ("b", "new") ∷ ("a", "newer") ∷ []

abbrev reported_now : Intake
reported_now = (record_coverage no_fields 8 4 1 fingerprints finished_db taken_before).0

record_coverage-overlay_example :
    Reportable no_fields 1 finished_db
    × (covered 4 "a" "newer" reported_now
        ≡ overlay fingerprints "a" "newer" (covered 4 "a" "newer" taken_before))
unfolding record_coverage is_experiment get find_by OncePerSource
record_coverage-overlay_example =
    record_coverage-overlay no_fields 8 4 1 fingerprints finished_db taken_before reported_now 4 "a"
      "newer" ((refl, tt), (tt, tt)) refl

accepted_now : covered 4 "a" "newer" reported_now ≡ true
unfolding record_coverage is_experiment get find_by covered find_where record_all upsert_coverage
    exists update_where
accepted_now = refl
