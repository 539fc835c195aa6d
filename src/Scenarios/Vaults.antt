-- ===== src/Scenarios/Vaults.antt =====
-- The content of a job is removed, by a plan, and after an interruption.
use agent_chun_su.Base.{
  ℕ, ◌≡◌, ◌⊎◌, refl, subst, Bool, true, false, List, [], ◌∷◌, Option, some, arith, ◌==◌, str_eq,
  if◌then◌else◌,
}
use agent_chun_su.Table.{find_by, find_where, select, exists, update_where}
use agent_chun_su.Store.Status.{JobStatus}
use agent_chun_su.Store.Model.{
  Job, Home, File, Env, Result, ok, err, constraint, input_file, artifact_file,
}
use agent_chun_su.Store.Rows.{insert_job}
use agent_chun_su.Store.Resume.{
  Codec, Json, Fields, get, end, field, object, text, id_text, request_map,
}
use agent_chun_su.Retention.Inventory.{inventory, walk, hash_file, all_in}
use agent_chun_su.Retention.Plans.{
  Plan, Progress, Operation, Vault, Limits, PlanCodec, planned_operation, prepared_plan, create,
  read_plan_file, checked_plan, read,
}
use agent_chun_su.Retention.{start_rows, started, finish_removal, apply_plan, apply}
use agent_chun_su.Retention.Steps.{Reviewed}
use agent_chun_su.Retention.Resumed.{Ready, applied, with_disk, apply-resumed}
use agent_chun_su.Retention.Purged.{Purged}
use agent_chun_su.Retention.Admission.{Extracts, apply-refuses_again}
use agent_chun_su.Retention.Applied.{DistinctPaths}
use agent_chun_su.Retention.Created.{create-applies}
use agent_chun_su.Retention.Guarded.{Allowed, apply-guarded, apply-once}
use agent_chun_su.Scenarios.{clock, job, attempt, output_of}

-- A world with one acquisition, and requests that name it or are empty.
abbrev is_five : Option Json → Bool
is_five (some (id_text n)) = n == 5
is_five _ = false

abbrev five_or_none : Option Json → ℕ
five_or_none v = if is_five v then 5 else 0

abbrev named_request : Fields
named_request = field "acquisition_id" (id_text 5) (field "question" (text "who?") end)

abbrev requests : Codec
requests = record {
  unmarshal = λ t. if str_eq t "" then some (object end) else some (object named_request);
  marshal = λ fs. if is_five (get "acquisition_id" fs) then "five" else "";
}

abbrev at_clock : ℕ → Env
at_clock now = record (clock now 60) { acquisition_of = λ t. if str_eq t "" then 0 else 5 }

requests-text :
    (empty : Bool) (fs : Fields)
    → request_map (if empty then some (object end) else some (object named_request)) ≡ ok fs
    → ◌≡◌ {A = ℕ} (if empty then 0 else 5) (five_or_none (get "acquisition_id" fs))
unfolding get
requests-text true fs h =
    (let same : end ≡ fs = ground arith in
      subst (λ (f : Fields). ◌≡◌ {A = ℕ} 0 (five_or_none (get "acquisition_id" f))) same refl)
requests-text false fs h =
    (let same : named_request ≡ fs = ground arith in
      subst (λ (f : Fields). ◌≡◌ {A = ℕ} 5 (five_or_none (get "acquisition_id" f))) same refl)

requests-fields :
    (five : Bool)
    → ◌≡◌ {A = ℕ} (if str_eq (if five then "five" else "") "" then 0 else 5) (if five then 5 else 0)
requests-fields true = refl
requests-fields false = refl

requests-extracted : Extracts (at_clock 9) requests five_or_none
unfolding get
requests-extracted = record {
  of_text = λ t fs h. requests-text (str_eq t "") fs h;
  of_fields = λ fs. requests-fields (is_five (get "acquisition_id" fs));
}

abbrev old_job : Job
old_job = record (job 1 JobStatus.failed 40) { request = "five" }

abbrev old_home : Home
old_home = record {
  db = record {
    jobs = old_job ∷ job 2 JobStatus.queued 0 ∷ [];
    attempts = attempt 40 1 JobStatus.failed ∷ [];
    artifacts = output_of 31 1 40 ∷ [];
    events = [];
    workflows = [];
    steps = [];
    step_attempts = [];
    results = [];
  };
  disk =
      record { path = input_file 1; content = 7 ∷ 8 ∷ [] }
      ∷ record { path = input_file 2; content = 9 ∷ [] }
      ∷ record { path = artifact_file 1 31 false; content = 7 ∷ [] }
      ∷ [];
}

abbrev limits : Limits
limits = record { max_backup_bytes = 100; max_evidence_bytes = 50 }

abbrev reviewed_plan : Plan
reviewed_plan = record {
  version = 1;
  id = 60;
  job_id = 1;
  job_status = JobStatus.failed;
  job_updated_at = 1;
  created_at = 8;
  files =
      (input_file 1, record { digest = "full"; bytes = 2 })
      ∷ (artifact_file 1 31 false, record { digest = "full"; bytes = 1 })
      ∷ [];
  total_bytes = 3;
}

abbrev one_plan : PlanCodec
one_plan = record { encode = λ p. 1 ∷ 2 ∷ []; decode = λ b. some reviewed_plan }

abbrev empty_vault : Vault
empty_vault = record { home = old_home; operations = []; plans = [] }

abbrev planned_vault : Vault
planned_vault = record {
  home = old_home;
  operations = planned_operation (at_clock 8) one_plan reviewed_plan ∷ [];
  plans = record { id = 60; content = 1 ∷ 2 ∷ [] } ∷ [];
}

created : create (at_clock 8) one_plan limits 1 empty_vault ≡ (planned_vault, ok reviewed_plan)
unfolding create prepared_plan find_by inventory walk hash_file select exists
created = refl

abbrev operation : Operation
operation = (planned_operation (at_clock 8) one_plan reviewed_plan).operation

-- Before Apply is interrupted it removes one file.
abbrev half_removed : List File
half_removed =
    record { path = input_file 2; content = 9 ∷ [] }
    ∷ record { path = artifact_file 1 31 false; content = 7 ∷ [] }
    ∷ []

reviewed : Reviewed (at_clock 9) limits planned_vault reviewed_plan old_job
unfolding inventory walk hash_file select exists find_where all_in update_where
reviewed = record {
  status_kept = refl;
  time_kept = refl;
  listed = reviewed_plan.files;
  walked = refl;
  content_kept = refl;
}

ready :
    Ready
      (at_clock 9)
      requests
      one_plan
      limits
      60
      planned_vault
      operation
      reviewed_plan
      old_job
      named_request
unfolding read checked_plan read_plan_file find_by
ready = record {
  opened = refl;
  is_planned = refl;
  found = refl;
  reviewed = reviewed;
  decoded = refl;
}

apply-resumed_example :
    apply
      (at_clock 9)
      requests
      one_plan
      limits
      60
      (with_disk half_removed (start_rows 8 operation old_job planned_vault))
    ≡ apply (at_clock 9) requests one_plan limits 60 planned_vault
unfolding started inventory walk hash_file select exists find_where all_in update_where
apply-resumed_example =
    apply-resumed (at_clock 9) 8 requests one_plan limits 60 planned_vault
      (start_rows 8 operation old_job planned_vault) half_removed operation reviewed_plan old_job
      named_request ready refl refl

abbrev applied_once : Vault × Result Operation
applied_once =
    applied (at_clock 9) requests operation reviewed_plan old_job named_request planned_vault

apply-once_example :
    Purged operation reviewed_plan planned_vault applied_once.0
    × (apply (at_clock 12) requests one_plan limits 60 applied_once.0 ≡ applied_once)
unfolding read checked_plan read_plan_file find_by apply apply_plan started finish_removal inventory
    walk hash_file select exists find_where all_in update_where
apply-once_example =
    apply-once (at_clock 9) 12 requests one_plan limits 60 planned_vault applied_once.0 operation
      (record operation { status = Progress.completed }) reviewed_plan refl refl refl

apply-refuses_again_example :
    insert_job
      (at_clock 9)
      (record (job 7 JobStatus.queued 0) { request = "five" })
      applied_once.0.home.db
    ≡ err constraint
unfolding read checked_plan read_plan_file find_by apply apply_plan started finish_removal inventory
    walk hash_file select exists find_where all_in update_where
apply-refuses_again_example =
    apply-refuses_again (at_clock 9) requests five_or_none one_plan limits 60 planned_vault
      applied_once.0 operation (record operation { status = Progress.completed }) reviewed_plan
      old_job (record (job 7 JobStatus.queued 0) { request = "five" }) requests-extracted refl refl
      refl refl (omega arith) refl

create-applies_example : apply (at_clock 9) requests one_plan limits 60 planned_vault ≡ applied_once
unfolding create prepared_plan find_by inventory walk hash_file select exists DistinctPaths
    find_where
create-applies_example =
    create-applies (at_clock 8) 9 requests one_plan limits 1 empty_vault planned_vault reviewed_plan
      old_job named_request (refl, (refl, (refl, tt))) (omega arith) refl refl refl refl

apply-guarded_example :
    ((apply (at_clock 9) requests one_plan limits 61 planned_vault).0 ≡ planned_vault)
    ⊎ Allowed (at_clock 9) one_plan limits 61 planned_vault
apply-guarded_example = apply-guarded (at_clock 9) requests one_plan limits 61 planned_vault
