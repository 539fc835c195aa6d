-- ===== src/Store/Workflow/Ready/Promotion.antt =====
-- The outcomes of ReadyStep, and what it promotes.
use agent_chun_su.Base.{
  ℕ, ◌≡◌, refl, Bool, true, false, List, [], ◌∷◌, some, arith, ◌||◌, Bool-cases, Option-cases,
  if◌then◌else◌, inl, inr, not, ltb, leb, subst, ◌⊎◌, ◌==◌, ◌&&◌,
}
use agent_chun_su.Table.{update_where, when, exists, select, All, Apart}
use agent_chun_su.Store.Status.{StepState, is_ready, is_staged, can_promote}
use agent_chun_su.Store.Model.{
  Job, WorkflowJob, Step, PinnedArtifactRef, Db, Env, Result, ok, err, no_rows,
}
use agent_chun_su.Store.Txn.{Result-cases}
use agent_chun_su.Store.Workflow.{
  workflow_of, resolved_inputs, step_list, pin_inputs, insert_ordered, order,
}
use agent_chun_su.Store.Workflow.Inputs.{
  IsMet, IsPinned, OtherId, resolved_inputs-IsMet, pin_inputs-IsPinned,
}
use agent_chun_su.Store.Workflow.Ready.{
  step_in, is_gated, gate_state, set_promoted, promote, ready_loop, ready_step_txn, ready_step,
  approve_step_txn, approve_step,
}
use agent_chun_su.Store.Workflow.Settled.{Lasts, untouched, written, is_settled}

-- The job is staged, and its workflow is not paused.
abbrev pub IsOpen : Db → ℕ → WorkflowJob → Job → Type 0
IsOpen db job w j =
    (workflow_of job db ≡ ok (w, j)) × (w.paused ≡ false) × (is_staged j.status ≡ true)

-- A step that is due goes to the state of its gate, with its inputs.
pub record Promotion (env : Env) (manual : Bool) (all : List Step) (job : ℕ) (db db' : Db)
    (r : Result Step) (t : Step) (refs : List PinnedArtifactRef) : Type 0 where
  of_job : t.job_id ≡ job
  in_table : exists (λ (s : Step). s.id == t.id && s.job_id == job) db.steps ≡ true
  waiting : can_promote t.state ≡ true
  due : ltb env.now t.not_before ≡ false
  met : All (IsMet all) t.depends_on
  pinned : All (IsPinned db job) refs
  apart : Apart OtherId refs
  steps_after :
      db'.steps
      ≡ update_where (step_in t.id t.state) (set_promoted env (gate_state manual t) refs) db.steps
  returned : r ≡ (
      if is_gated manual t
      then err no_rows
      else ok (record t { state = StepState.ready; input_artifacts = refs }))

-- No step, or one that is ready.
abbrev pub NoneUnready : Result Step → Type 0
NoneUnready (ok s) = is_ready s.state ≡ true
NoneUnready (err e) = Unit

abbrev Outcome : Env → Bool → List Step → ℕ → Db → Db → Result Step → Type 0
Outcome env manual all job db db' r =
    ((db' ≡ db) × NoneUnready r)
    ⊎ ((t : Step) × (refs : List PinnedArtifactRef) × Promotion env manual all job db db' r t refs)

-- The step is in the table, and of the job.
Belongs : ℕ → List Step → Step → Type 0
Belongs job table t =
    (t.job_id ≡ job) × (exists (λ (s : Step). s.id == t.id && s.job_id == job) table ≡ true)

select-Belongs :
    (job : ℕ) (rows table : List Step)
    → ((t : Step)
        → exists (λ (s : Step). s.id == t.id && s.job_id == job) rows ≡ true
        → exists (λ (s : Step). s.id == t.id && s.job_id == job) table ≡ true)
    → All (Belongs job table) (select (λ (s : Step). s.job_id == job) rows)
unfolding select exists Belongs
select-Belongs job [] table sub = tt
select-Belongs job (x ∷ xs) table sub = elim (Bool-cases (x.job_id == job)) [
  | inl own ↦
      rw (own, select)
        (
          (ground arith, sub x (ground arith)),
          select-Belongs job xs table (λ t h. sub t (ground arith)),
        )
  | inr other ↦ rw (other, select) (select-Belongs job xs table (λ t h. sub t (ground arith)))
]

insert_ordered-All :
    (P : Step → Type 0) (s : Step) (ts : List Step) → P s → All P ts → All P (insert_ordered s ts)
unfolding insert_ordered
insert_ordered-All P s [] p h = (p, tt)
insert_ordered-All P s (t ∷ ts) p h = elim (Bool-cases (leb s.ordinal t.ordinal)) [
  | inl e ↦ rw (e, insert_ordered) (p, h)
  | inr e ↦ rw (e, insert_ordered) (h.0, insert_ordered-All P s ts p h.1)
]

order-All : (P : Step → Type 0) (ts : List Step) → All P ts → All P (order ts)
unfolding order
order-All P [] h = tt
order-All P (t ∷ ts) h = insert_ordered-All P t (order ts) h.0 (order-All P ts h.1)

step_list-Belongs : (job : ℕ) (table : List Step) → All (Belongs job table) (step_list job table)
unfolding step_list
step_list-Belongs job table =
    order-All (Belongs job table) _ (select-Belongs job table table (λ t h. h))

promote-Promotion :
    (env : Env) (manual : Bool) (all : List Step) (job : ℕ) (db db' : Db) (r : Result Step)
    (t : Step) (inputs refs : List PinnedArtifactRef)
    → Belongs job db.steps t
    → can_promote t.state ≡ true
    → ltb env.now t.not_before ≡ false
    → resolved_inputs all t ≡ some inputs
    → pin_inputs db job inputs ≡ ok refs
    → promote env manual t refs db ≡ ok (db', r)
    → Promotion env manual all job db db' r t refs
unfolding promote Belongs
promote-Promotion env manual all job db db' r t inputs refs mine wait due res pin h =
    elim (Bool-cases (is_gated manual t)) [
      | inl g ↦ record {
        of_job = mine.0;
        in_table = mine.1;
        waiting = wait;
        due = due;
        met = resolved_inputs-IsMet all t inputs res;
        pinned = (pin_inputs-IsPinned db job inputs refs pin).0;
        apart = (pin_inputs-IsPinned db job inputs refs pin).1;
        steps_after = ground arith;
        returned = ground arith;
      }
      | inr g ↦ record {
        of_job = mine.0;
        in_table = mine.1;
        waiting = wait;
        due = due;
        met = resolved_inputs-IsMet all t inputs res;
        pinned = (pin_inputs-IsPinned db job inputs refs pin).0;
        apart = (pin_inputs-IsPinned db job inputs refs pin).1;
        steps_after = ground arith;
        returned = ground arith;
      }
    ]

ready_loop-Outcome :
    (env : Env) (manual : Bool) (all rows : List Step) (job : ℕ) (db db' : Db) (r : Result Step)
    → All (Belongs job db.steps) rows
    → ready_loop env job manual all rows db ≡ ok (db', r)
    → Outcome env manual all job db db' r
unfolding ready_loop
ready_loop-Outcome env manual all [] job db db' r mine h = absurd (ground arith)
ready_loop-Outcome env manual all (s ∷ ss) job db db' r mine h =
    elim (Bool-cases (is_ready s.state)) [
      | inl a ↦ inl (ground arith, subst NoneUnready (shape a) a)
      | inr a ↦ elim (Bool-cases (not (can_promote s.state) || ltb env.now s.not_before)) [
        | inl b ↦ ready_loop-Outcome env manual all ss job db db' r mine.1 (ground arith)
        | inr b ↦ elim (Option-cases (resolved_inputs all s)) [
          | inl c ↦ ready_loop-Outcome env manual all ss job db db' r mine.1 (ground arith)
          | inr (inputs, c) ↦ elim (Result-cases (pin_inputs db job inputs)) [
            | inr (x, d) ↦ absurd (ground arith)
            | inl (refs, d) ↦ inr (
              s,
              refs,
              promote-Promotion env manual all job db db' r s inputs refs mine.0 (ground arith)
                  (ground arith) c d (ground arith),
            )
          ]
        ]
      ]
    ]
  where
    shape : is_ready s.state ≡ true → ok s ≡ r
    shape a = ground arith

pub ready_step-Outcome :
    (env : Env) (job : ℕ) (db db' : Db) (r : Result Step)
    → ready_step env job db ≡ (db', r)
    → ((db' ≡ db) × NoneUnready r)
      ⊎ ((w : WorkflowJob) × (j : Job) × IsOpen db job w j
          × ((t : Step) × (refs : List PinnedArtifactRef) × Promotion env w.manual_checkpoint
                (step_list job db.steps)
                job
                db
                db'
                r
                t
                refs))
unfolding ready_step ready_step_txn
ready_step-Outcome env job db db' r h = elim (Result-cases (workflow_of job db)) [
  | inr (e, bad) ↦ inl (ground arith, subst NoneUnready {x = err e} (ground arith) tt)
  | inl ((w, j), e) ↦ elim (Bool-cases (w.paused || not (is_staged j.status))) [
    | inl b ↦ inl (ground arith, subst NoneUnready {x = err no_rows} (ground arith) tt)
    | inr b ↦
        elim (Result-cases (
          ready_loop env job w.manual_checkpoint (step_list job db.steps) (step_list job db.steps)
            db)) [
              | inr (x, c) ↦ inl (ground arith, subst NoneUnready {x = err x} (ground arith) tt)
              | inl ((db1, r1), c) ↦
                  (let out =
                      ready_loop-Outcome env w.manual_checkpoint (step_list job db.steps)
                        (step_list job db.steps) job db db' r (step_list-Belongs job db.steps)
                        (rw c (ground arith)) in
                    elim out [
                      | inl o ↦ inl o
                      | inr o ↦ inr (w, j, (e, ground arith, ground arith), o)
                    ])
            ]
  ]
]

-- ReadyStep and ApproveStep leave settled steps settled.
pub ready_step-Lasts : (env : Env) (job : ℕ) (db : Db) → Lasts db (ready_step env job db).0
ready_step-Lasts env job db =
    elim (ready_step-Outcome env job db (ready_step env job db).0 (ready_step env job db).1 refl) [
      | inl (same, none) ↦ untouched (rw same refl)
      | inr (w, j, is_open, p) ↦
          let (t, refs, o) = p in
          written (step_in t.id t.state) (set_promoted env (gate_state w.manual_checkpoint t) refs)
            o.steps_after (λ r. refl)
            (λ r h.
              spares (set_promoted env (gate_state w.manual_checkpoint t) refs) t.id t.state r
                o.waiting h)
    ]
  where
    spares :
        (f : Step → Step) (id : ℕ) (state : StepState) (r : Step)
        → can_promote state ≡ true
        → is_settled r.state ≡ true
        → is_settled (when (step_in id state) f r).state ≡ true
    spares f id state r may h = ground arith

pub approve_step-Lasts : (env : Env) (id : ℕ) (db : Db) → Lasts db (approve_step env id db).0
unfolding approve_step approve_step_txn
approve_step-Lasts env id db = elim (Result-cases (approve_step_txn env id db)) [
  | inr (e, bad) ↦ untouched (ground arith)
  | inl ((db', u), good) ↦
      written (step_in id StepState.waiting_input)
        (λ r. record r { state = StepState.ready; updated_at = env.now }) (ground arith) (λ r. refl)
        (λ r h. ground arith)
]
