-- ===== src/Retention/Created.antt =====
-- From Create to Apply.
use text.Mathlib.TextPositions.{eq_refl}
use agent_chun_su.Base.{
  ℕ, ◌≤◌, ◌≢◌, ◌≡◌, refl, sym, subst, ◌∙◌, ap, inl, inr, true, false, List, [], ◌∷◌, ◌++◌, some,
  none, arith, ◌==◌, Option-cases, Bool-cases,
}
use agent_chun_su.Table.{find_by, exists, length}
use agent_chun_su.Table.Laws.{find_by-key, find_by-append_none, find_by-absent}
use agent_chun_su.Store.Status.{JobStatus, same_status}
use agent_chun_su.Store.Model.{Job, FilePath, Env, ok, job_key}
use agent_chun_su.Store.Txn.{Result-cases}
use agent_chun_su.Store.Resume.{Codec, Fields, request_map}
use agent_chun_su.Retention.Inventory.{Entry, inventory}
use agent_chun_su.Retention.Plans.{
  Plan, Vault, Limits, PlanCodec, operation_key, plan_key, new_plan, prepared_plan, create,
  planned_operation, with_plan_file, read_plan_file, checked_plan, read,
}
use agent_chun_su.Retention.{apply}
use agent_chun_su.Retention.Steps.{at_time, Reviewed, inventory-at_time}
use agent_chun_su.Retention.Resumed.{applied, apply-Ready}
use agent_chun_su.Retention.Applied.{DistinctPaths, inventory-same, inventory-named}

same_status-itself : (s : JobStatus) → same_status s s ≡ true
same_status-itself s = ground arith

-- What Create found when it made a plan.
record Prepared (env : Env) (pc : PlanCodec) (lim : Limits) (job : ℕ) (v : Vault) (p : Plan)
    : Type 0 where
  owner : Job
  seen : List (FilePath × Entry) × ℕ
  there : find_by job_key job v.home.db.jobs ≡ some owner
  walked : inventory env owner.id lim.max_backup_bytes v.home.disk ≡ ok seen
  named : owner.id ≢ 0
  made : p ≡ new_plan env owner seen
  small : length (pc.encode p) ≤ lim.max_evidence_bytes

prepared_plan-Prepared :
    (env : Env) (pc : PlanCodec) (lim : Limits) (job : ℕ) (v : Vault) (p : Plan)
    → prepared_plan env pc lim job v.home ≡ ok p
    → Prepared env pc lim job v p
unfolding prepared_plan
prepared_plan-Prepared env pc lim job v p h =
    elim (Option-cases (find_by job_key job v.home.db.jobs)) [
      | inl gone ↦ absurd (ground arith)
      | inr (j, found) ↦ elim (Result-cases (inventory env j.id lim.max_backup_bytes v.home.disk)) [
        | inr (e, bad) ↦ absurd (ground arith)
        | inl (seen, good) ↦
            (let made : p ≡ new_plan env j seen = ground arith in
              record {
                owner = j;
                seen = seen;
                there = found;
                walked = good;
                named = inventory-named env j.id lim.max_backup_bytes v.home.disk seen good;
                made = made;
                small = rw made (ground arith);
              })
      ]
    ]

abbrev created_vault : Env → PlanCodec → Plan → Vault → Vault
created_vault env pc p v = record (with_plan_file pc p v) {
  operations = v.operations ++ (planned_operation env pc p ∷ []);
}

-- What Create leaves, where it succeeds.
create-made :
    (env : Env) (pc : PlanCodec) (lim : Limits) (job : ℕ) (v v1 : Vault) (p : Plan)
    → create env pc lim job v ≡ (v1, ok p)
    → (prepared_plan env pc lim job v.home ≡ ok p)
      × (exists (λ f. plan_key f == p.id) v.plans ≡ false)
      × (exists (λ r. operation_key r == p.id) v.operations ≡ false)
      × (v1 ≡ created_vault env pc p v)
unfolding create
create-made env pc lim job v v1 p h = elim (Result-cases (prepared_plan env pc lim job v.home)) [
  | inr (e, bad) ↦ absurd (ground arith)
  | inl (q, good) ↦ elim (Bool-cases (exists (λ f. plan_key f == q.id) v.plans)) [
    | inl taken ↦ absurd (ground arith)
    | inr free ↦ elim (Bool-cases (exists (λ r. operation_key r == q.id) v.operations)) [
      | inl taken ↦ absurd (ground arith)
      | inr new ↦ (let same : q ≡ p = ground arith in rw (← same) (good, free, new, ground arith))
    ]
  ]
]

-- The new operation and its plan are read back.
read-created :
    (env : Env) (pc : PlanCodec) (lim : Limits) (v : Vault) (p : Plan)
    → exists (λ f. plan_key f == p.id) v.plans ≡ false
    → exists (λ r. operation_key r == p.id) v.operations ≡ false
    → 1 ≤ lim.max_evidence_bytes
    → length (pc.encode p) ≤ lim.max_evidence_bytes
    → pc.decode (pc.encode p) ≡ some p
    → p.version ≡ 1
    → p.job_id ≢ 0
    → read env pc lim p.id (created_vault env pc p v)
      ≡ ok ((planned_operation env pc p).operation, p)
unfolding read checked_plan read_plan_file find_by
read-created env pc lim v p free new positive small decoded one named =
    let no_row : find_by operation_key p.id v.operations ≡ none =
      find_by-absent operation_key p.id (λ r. operation_key r == p.id) (λ r e. ground arith)
        v.operations new in
    let no_file : find_by plan_key p.id v.plans ≡ none =
      find_by-absent plan_key p.id (λ f. plan_key f == p.id) (λ f e. ground arith) v.plans free in
    ground (
      arith,
      find_by-append_none operation_key p.id v.operations (planned_operation env pc p ∷ []) no_row,
      find_by-append_none plan_key p.id v.plans (record { id = p.id; content = pc.encode p } ∷ [])
          no_file,
      eq_refl (env.digest (pc.encode p)),
    )

-- Reading takes nothing from the clock.
read-at_time :
    (env : Env) (t : ℕ) (pc : PlanCodec) (lim : Limits) (id : ℕ) (v : Vault)
    → read (at_time t env) pc lim id v ≡ read env pc lim id v
unfolding read checked_plan
read-at_time env t pc lim id v = refl

-- What the plan says of its job.
made-names :
    (env : Env) (j : Job) (seen : List (FilePath × Entry) × ℕ) (p : Plan)
    → p ≡ new_plan env j seen
    → (p.version ≡ 1)
      × (p.job_id ≡ j.id)
      × (p.files ≡ seen.0)
      × (p.total_bytes ≡ seen.1)
      × (p.job_status ≡ j.status)
      × (p.job_updated_at ≡ j.updated_at)
made-names env j seen p made = (
  ap (λ q. q.version) made,
  ap (λ q. q.job_id) made,
  ap (λ q. q.files) made,
  ap (λ q. q.total_bytes) made,
  ap (λ q. q.job_status) made,
  ap (λ q. q.job_updated_at) made,
)

plan-Reviewed :
    (env : Env) (t : ℕ) (pc : PlanCodec) (lim : Limits) (job : ℕ) (v w : Vault) (p : Plan)
    (h : Prepared env pc lim job v p)
    → DistinctPaths v.home.disk
    → w.home.disk ≡ v.home.disk
    → Reviewed (at_time t env) lim w p h.owner
plan-Reviewed env t pc lim job v w p h apart kept =
    let (one, named, listed, total, status, time) = made-names env h.owner h.seen p h.made in
    record {
      status_kept = rw status (same_status-itself h.owner.status);
      time_kept = sym time;
      listed = h.seen.0;
      walked =
          rw (kept, total)
            (inventory-at_time env t h.owner.id lim.max_backup_bytes v.home.disk ∙ h.walked);
      content_kept = rw listed (
          inventory-same env h.owner.id lim.max_backup_bytes v.home.disk h.seen.0 h.seen.1 apart
            h.walked);
    }

-- What Create returns can be applied at any later time, where nothing else happened in between: Apply
-- completes the operation. The files of the home have different paths, the limit of a plan is
-- positive, encoding/json decodes what it printed of this plan, and the job's request decodes.
pub create-applies :
    (env : Env) (t : ℕ) (c : Codec) (pc : PlanCodec) (lim : Limits) (job : ℕ) (v v1 : Vault)
    (p : Plan) (j : Job) (fs : Fields)
    → DistinctPaths v.home.disk
    → 1 ≤ lim.max_evidence_bytes
    → pc.decode (pc.encode p) ≡ some p
    → find_by job_key job v.home.db.jobs ≡ some j
    → request_map (c.unmarshal j.request) ≡ ok fs
    → create env pc lim job v ≡ (v1, ok p)
    → apply (at_time t env) c pc lim p.id v1
      ≡ applied (at_time t env) c (planned_operation env pc p).operation p j fs v1
create-applies env t c pc lim job v v1 p j fs apart positive decoded found request done =
    let (prepared, free, new, left) = create-made env pc lim job v v1 p done in
    let h = prepared_plan-Prepared env pc lim job v p prepared in
    let same : h.owner ≡ j = ground (arith, h.there, found) in
    let names = made-names env h.owner h.seen p h.made in
    let id_is : p.job_id ≡ job = names.1 ∙ find_by-key job_key job v.home.db.jobs h.owner h.there in
    let w = created_vault env pc p v in
    subst
      (λ (x : Vault).
        apply (at_time t env) c pc lim p.id x
        ≡ applied (at_time t env) c (planned_operation env pc p).operation p j fs x)
      (sym left)
      (apply-Ready (at_time t env) c pc lim p.id w (planned_operation env pc p).operation p j fs
        (record {
          opened =
              read-at_time env t pc lim p.id w
              ∙ read-created env pc lim v p free new positive h.small decoded names.0
                  (λ none_is. h.named (sym names.1 ∙ none_is));
          is_planned = refl;
          found = subst (λ k. find_by job_key k v.home.db.jobs ≡ some j) (sym id_is) found;
          reviewed =
              subst (Reviewed (at_time t env) lim w p) same
                (plan-Reviewed env t pc lim job v w p h apart refl);
          decoded = request;
        }))
