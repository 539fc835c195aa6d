-- ===== src/Retention/Steps.antt =====
-- The steps of Apply: what they read, and what the two transactions make of the rows.
use agent_chun_su.Base.{
  ℕ, ◌+◌, ◌-◌, fun_ext, ◌≡◌, refl, ap, inl, inr, true, List, [], ◌∷◌, some, arith, Option-cases,
}
use agent_chun_su.Table.{find_by}
use agent_chun_su.Table.Laws.{find_by-key}
use agent_chun_su.Store.Status.{same_status}
use agent_chun_su.Store.Model.{Job, File, FilePath, Env, Result, ok}
use agent_chun_su.Store.Txn.{◌>>=◌, Result-cases}
use agent_chun_su.Retention.Inventory.{Entry, run_files, same_entries, walk, hash_file, inventory}
use agent_chun_su.Retention.Plans.{
  Plan, Progress, Operation, OperationRow, Vault, Limits, PlanCodec, operation_key, checked_plan,
  read,
}
use agent_chun_su.Retention.{start_rows, started}

-- The same home at another time.
abbrev pub at_time : ℕ → Env → Env
at_time t env = record env { now = t }

walk-at_time :
    (env : Env) (t limit total : ℕ) (fs : List File)
    → walk (at_time t env) limit total fs ≡ walk env limit total fs
unfolding walk hash_file
walk-at_time env t limit total [] = refl
walk-at_time env t limit total (f ∷ fs) =
    ap
      (λ (g : Entry → Result (List (FilePath × Entry) × ℕ)).
        hash_file env f (limit - total) >>= λ e. g e >>= λ rest. ok ((f.path, e) ∷ rest.0, rest.1))
      (fun_ext (λ (e : Entry). walk-at_time env t limit (total + e.bytes) fs))

pub inventory-at_time :
    (env : Env) (t job limit : ℕ) (disk : List File)
    → inventory (at_time t env) job limit disk ≡ inventory env job limit disk
unfolding inventory
inventory-at_time env t job limit disk =
    ground (arith, walk-at_time env t limit 0 (run_files job disk))

-- An operation that is read has a row, and its plan has been checked.
pub read-row :
    (env : Env) (pc : PlanCodec) (lim : Limits) (id : ℕ) (v : Vault) (op : Operation) (p : Plan)
    → read env pc lim id v ≡ ok (op, p)
    → (r : OperationRow) × (find_by operation_key id v.operations ≡ some r)
      × (r.operation ≡ op)
      × (op.id ≡ id)
      × (checked_plan env pc lim op v.plans ≡ ok p)
unfolding read
read-row env pc lim id v op p h = elim (Option-cases (find_by operation_key id v.operations)) [
  | inl gone ↦ absurd (ground arith)
  | inr (r, e) ↦ elim (Result-cases (checked_plan env pc lim r.operation v.plans)) [
    | inr (x, bad) ↦ absurd (ground arith)
    | inl (q, good) ↦ (
      r,
      e,
      ground arith,
      ground (arith, find_by-key operation_key id v.operations r e),
      ground arith,
    )
  ]
]

-- What the first transaction commits, where a planned operation passes the comparison.
pub started-rows :
    (env : Env) (lim : Limits) (op : Operation) (p : Plan) (j : Job) (v v1 : Vault)
    → op.status ≡ Progress.planned
    → started env lim op p j v ≡ ok v1
    → v1 ≡ start_rows env.now op j v
unfolding started
started-rows env lim op p j v v1 s h =
    elim (Result-cases (inventory env j.id lim.max_backup_bytes v.home.disk)) [
      | inr (e, bad) ↦ absurd (ground arith)
      | inl (current, good) ↦ ground arith
    ]

-- The job and its content are as the plan has them.
pub record Reviewed (env : Env) (lim : Limits) (v : Vault) (p : Plan) (j : Job) : Type 0 where
  pub status_kept : same_status j.status p.job_status ≡ true
  pub time_kept : j.updated_at ≡ p.job_updated_at
  pub listed : List (FilePath × Entry)
  pub walked : inventory env j.id lim.max_backup_bytes v.home.disk ≡ ok (listed, p.total_bytes)
  pub content_kept : same_entries listed p.files ≡ true

pub started-Reviewed :
    (env : Env) (lim : Limits) (op : Operation) (p : Plan) (j : Job) (v : Vault)
    → op.status ≡ Progress.planned
    → Reviewed env lim v p j
    → started env lim op p j v ≡ ok (start_rows env.now op j v)
unfolding started
started-Reviewed env lim op p j v s h =
    let walked = h.walked in
    let kept = h.content_kept in let same = h.status_kept in let time = h.time_kept in ground arith

pub Reviewed-started :
    (env : Env) (lim : Limits) (op : Operation) (p : Plan) (j : Job) (v v1 : Vault)
    → op.status ≡ Progress.planned
    → started env lim op p j v ≡ ok v1
    → Reviewed env lim v p j
unfolding started
Reviewed-started env lim op p j v v1 s h =
    elim (Result-cases (inventory env j.id lim.max_backup_bytes v.home.disk)) [
      | inr (e, bad) ↦ absurd (ground arith)
      | inl ((listed, total), good) ↦ record {
        status_kept = ground arith;
        time_kept = ground arith;
        listed = listed;
        walked = ground arith;
        content_kept = ground arith;
      }
    ]
