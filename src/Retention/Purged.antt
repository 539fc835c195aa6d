-- ===== src/Retention/Purged.antt =====
-- What an Apply that succeeds leaves behind.
use agent_chun_su.Base.{
  ℕ, ◌≢◌, ◌≡◌, ◌⊎◌, refl, sym, subst, ◌∙◌, ap, inl, inr, true, false, String, ◌++◌, List, [], ◌∷◌,
  some, arith, ◌==◌, Option-cases, ℕ_discrete, not,
}
use agent_chun_su.Table.{find_by, update_where, select, All}
use agent_chun_su.Table.Laws.{
  find_by-key, find_by-update_where, All-append, All-select, All-updated,
}
use agent_chun_su.Store.Status.{JobStatus}
use agent_chun_su.Store.Model.{
  Job, Artifact, Attempt, Event, Content, File, Env, ok, job_key, no_data, FilePath, input_file,
  artifact_file, purge,
}
use agent_chun_su.Store.Txn.{Result-cases}
use agent_chun_su.Store.Resume.{Codec, Fields, request_map}
use agent_chun_su.Retention.Inventory.{in_run, run_files, removed}
use agent_chun_su.Retention.Plans.{Plan, Progress, Operation, Vault, Limits, PlanCodec, read}
use agent_chun_su.Retention.{
  is_completed, set_purged, set_content, set_retiring, set_silent, set_no_data, minimal,
  without_run, completed_rows, start_rows, started, finish_removal, apply_plan, apply,
}
use agent_chun_su.Retention.Resumed.{find-started}
use agent_chun_su.Retention.Steps.{started-rows}

-- The run of an Apply that removes something and succeeds.
pub record Finished (env : Env) (c : Codec) (lim : Limits) (op : Operation) (p : Plan)
    (v v' : Vault) (o : Operation) : Type 0 where
  pub job : Job
  pub fields : Fields
  pub begun : Vault
  pub found : find_by job_key p.job_id v.home.db.jobs ≡ some job
  pub passed : started env lim op p job v ≡ ok begun
  pub decoded : request_map (c.unmarshal job.request) ≡ ok fields
  pub left :
      v'
      ≡ completed_rows env.now
          (c.marshal (minimal fields))
          op
          job.current_attempt
          p
          (without_run p.job_id begun)
  pub result : o ≡ record op { status = Progress.completed }

pub apply-Finished :
    (env : Env) (c : Codec) (pc : PlanCodec) (lim : Limits) (id : ℕ) (v v' : Vault)
    (op o : Operation) (p : Plan)
    → read env pc lim id v ≡ ok (op, p)
    → is_completed op.status ≡ false
    → apply env c pc lim id v ≡ (v', ok o)
    → Finished env c lim op p v v' o
unfolding apply apply_plan finish_removal
apply-Finished env c pc lim id v v' op o p opened open_still done =
    elim (Option-cases (find_by job_key p.job_id v.home.db.jobs)) [
      | inl gone ↦ absurd (ground arith)
      | inr (j, found) ↦ elim (Result-cases (started env lim op p j v)) [
        | inr (e, bad) ↦ absurd (ground arith)
        | inl (v1, good) ↦ elim (Result-cases (request_map (c.unmarshal j.request))) [
          | inr (e, bad) ↦ absurd (ground arith)
          | inl (fs, decoded) ↦ record {
            job = j;
            fields = fs;
            begun = v1;
            found = found;
            passed = good;
            decoded = decoded;
            left = ground arith;
            result = ground arith;
          }
        ]
      ]
    ]

-- No file is in the runs of two jobs.
in_run-apart :
    (job other : ℕ) (path : FilePath)
    → other ≢ job
    → in_run other path ≡ true
    → in_run job path ≡ false
in_run-apart job other (input_file j) apart there = ground arith
in_run-apart job other (artifact_file j a m) apart there = ground arith

run_files-removed :
    (job other : ℕ) (disk : List File)
    → other ≢ job
    → run_files other (removed job disk) ≡ run_files other disk
unfolding select
run_files-removed job other [] apart = refl
run_files-removed job other (f ∷ fs) apart =
    ground (arith, in_run-apart job other f.path apart, run_files-removed job other fs apart)

-- What the first transaction leaves alone.
abbrev Untouched : Vault → Vault → Type 0
Untouched v v1 =
    (v1.home.disk ≡ v.home.disk)
    × (v1.plans ≡ v.plans)
    × (v1.home.db.workflows ≡ v.home.db.workflows)
    × (v1.home.db.steps ≡ v.home.db.steps)
    × (v1.home.db.results ≡ v.home.db.results)

pub started-by :
    (s : Progress) (env : Env) (lim : Limits) (op : Operation) (p : Plan) (j : Job) (v v1 : Vault)
    → op.status ≡ s
    → started env lim op p j v ≡ ok v1
    → (v1 ≡ v) ⊎ (v1 ≡ start_rows env.now op j v)
unfolding started
started-by Progress.planned env lim op p j v v1 e h = inr (started-rows env lim op p j v v1 e h)
started-by Progress.applying env lim op p j v v1 e h = inl (ground arith)
started-by Progress.completed env lim op p j v v1 e h = absurd (ground arith)

pub started-Untouched :
    (env : Env) (lim : Limits) (op : Operation) (p : Plan) (j : Job) (v v1 : Vault)
    → started env lim op p j v ≡ ok v1
    → Untouched v v1
started-Untouched env lim op p j v v1 h = elim (started-by op.status env lim op p j v v1 refl h) [
  | inl e ↦ subst (Untouched v) (sym e) (refl, refl, refl, refl, refl)
  | inr e ↦ subst (Untouched v) (sym e) (refl, refl, refl, refl, refl)
]

-- The job's row after the first transaction.
pub started-found :
    (env : Env) (lim : Limits) (op : Operation) (p : Plan) (j : Job) (v v1 : Vault)
    → find_by job_key p.job_id v.home.db.jobs ≡ some j
    → started env lim op p j v ≡ ok v1
    → (k : Job) × (find_by job_key p.job_id v1.home.db.jobs ≡ some k)
started-found env lim op p j v v1 found h = elim (started-by op.status env lim op p j v v1 refl h) [
  | inl e ↦ (j, subst (λ w. find_by job_key p.job_id w.home.db.jobs ≡ some j) (sym e) found)
  | inr e ↦ (
    set_retiring env.now j,
    subst (λ w. find_by job_key p.job_id w.home.db.jobs ≡ some (set_retiring env.now j)) (sym e)
        (find-started env.now v op j p.job_id found
          (find_by-key job_key p.job_id v.home.db.jobs j found)),
  )
]

-- What an Apply that removes something and succeeds leaves.
pub record Purged (op : Operation) (p : Plan) (v v' : Vault) : Type 0 where
  pub gone : All (λ (f : File). not (in_run p.job_id f.path) ≡ true) v'.home.disk
  pub others :
      (job : ℕ) → (job ≡ p.job_id) ⊎ (run_files job v'.home.disk ≡ run_files job v.home.disk)
  pub marked :
      (k : Job) × (find_by job_key p.job_id v'.home.db.jobs ≡ some k)
      × (k.status ≡ JobStatus.purged)
  pub unreadable :
      All
        (λ (a : Artifact). (a.job_id ≢ p.job_id) ⊎ (a.content_state ≡ Content.purged))
        v'.home.db.artifacts
  pub silent :
      All (λ (a : Attempt). (a.job_id ≢ p.job_id) ⊎ (a.diagnostic ≡ "")) v'.home.db.attempts
  pub no_events :
      All
        (λ (e : Event).
          (e.job_id ≢ p.job_id)
          ⊎ ((e.payload ≡ no_data) ⊎ (e.payload ≡ purge op.id op.plan_digest)))
        v'.home.db.events
  pub left_alone : Untouched (without_run p.job_id v) v'

pub find-purged :
    (now : ℕ) (request : String) (job : ℕ) (jobs : List Job) (k : Job)
    → find_by job_key job jobs ≡ some k
    → find_by job_key job (update_where (λ r. r.id == job) (set_purged now request) jobs)
      ≡ some (set_purged now request k)
find-purged now request job jobs k found =
    find_by-update_where job_key (λ r. r.id == job) (set_purged now request) (λ a. refl) job jobs
    ∙ ground (arith, found, find_by-key job_key job jobs k found)

purged-events :
    (op : Operation) (p : Plan) (now attempt : ℕ) (events : List Event)
    → All
        (λ (e : Event).
          (e.job_id ≢ p.job_id)
          ⊎ ((e.payload ≡ no_data) ⊎ (e.payload ≡ purge op.id op.plan_digest)))
        (update_where (λ (r : Event). r.job_id == p.job_id) set_no_data events
          ++ (record {
            job_id = p.job_id;
            attempt_id = attempt;
            kind = "content.purged";
            created_at = now;
            payload = purge op.id op.plan_digest;
          }
              ∷ []))
purged-events op p now attempt events =
    All-append _ (update_where (λ (r : Event). r.job_id == p.job_id) set_no_data events) _
      (All-updated (λ (r : Event). r.job_id) p.job_id set_no_data
        (λ e. (e.payload ≡ no_data) ⊎ (e.payload ≡ purge op.id op.plan_digest)) (λ e. inl refl)
        events)
      (inr (inr refl), tt)

pub apply-Purged :
    (env : Env) (c : Codec) (pc : PlanCodec) (lim : Limits) (id : ℕ) (v v' : Vault)
    (op o : Operation) (p : Plan)
    → read env pc lim id v ≡ ok (op, p)
    → is_completed op.status ≡ false
    → apply env c pc lim id v ≡ (v', ok o)
    → Purged op p v v'
apply-Purged env c pc lim id v v' op o p opened still done =
    let h = apply-Finished env c pc lim id v v' op o p opened still done in
    let w = h.begun in
    let request = c.marshal (minimal h.fields) in
    let u = started-Untouched env lim op p h.job v w h.passed in
    let (k, found) = started-found env lim op p h.job v w h.found h.passed in
    subst (Purged op p v) (sym h.left) (record {
      gone = All-select (λ (f : File). not (in_run p.job_id f.path)) w.home.disk;
      others = λ job. elim (ℕ_discrete job p.job_id) [
        | Dec.yes same ↦ inl same
        | Dec.no apart ↦
            inr (run_files-removed p.job_id job w.home.disk apart ∙ ap (run_files job) u.0)
      ];
      marked = (
        set_purged env.now request k,
        find-purged env.now request p.job_id w.home.db.jobs k found,
        refl,
      );
      unreadable =
          All-updated (λ (r : Artifact). r.job_id) p.job_id (set_content Content.purged)
            (λ a. a.content_state ≡ Content.purged) (λ a. refl) w.home.db.artifacts;
      silent =
          All-updated (λ (r : Attempt). r.job_id) p.job_id set_silent (λ a. a.diagnostic ≡ "")
            (λ a. refl) w.home.db.attempts;
      no_events = purged-events op p env.now h.job.current_attempt w.home.db.events;
      left_alone = (ap (removed p.job_id) u.0, u.1, u.2, u.3, u.4);
    })
