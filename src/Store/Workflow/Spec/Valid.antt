-- ===== src/Store/Workflow/Spec/Valid.antt =====
-- What validateSteps accepts.
use agent_chun_su.Base.{
  ℕ, ◌≡◌, true, false, List, [], ◌∷◌, ◌++◌, String, arith, str_eq, inl, inr, ◌≤◌,
}
use agent_chun_su.Table.{All}
use agent_chun_su.Store.Model.{StepSpec, ok}
use agent_chun_su.Store.Txn.{Result-cases}
use agent_chun_su.Store.Workflow.Spec.{
  valid_step_key, has_key, all_prior, gate_ok, check_step, check_steps, validate_steps,
}

-- A specification that may stand after the given keys.
record Accepted (s : StepSpec) (prior : List String) : Type 0 where
  key_ok : valid_step_key s.key ≡ true
  stage_given : str_eq s.stage "" ≡ false
  schema_given : str_eq s.expected_output_schema "" ≡ false
  executor_given : str_eq s.executor_identity "" ≡ false
  instruction_given : str_eq s.instruction_version "" ≡ false
  key_new : has_key s.key prior ≡ false
  dependencies_prior : All (λ d. has_key d prior ≡ true) s.depends_on
  gate_known : gate_ok s.gate_policy ≡ true

-- The keys, the last one first.
abbrev keys_before : List StepSpec → List String → List String
keys_before [] prior = prior
keys_before (s ∷ ss) prior = keys_before ss (s.key ∷ prior)

all_prior-All :
    (prior ds : List String) → all_prior prior ds ≡ true → All (λ d. has_key d prior ≡ true) ds
unfolding all_prior
all_prior-All prior [] h = tt
all_prior-All prior (d ∷ ds) h = (ground arith, all_prior-All prior ds (ground arith))

check_step-Accepted :
    (s : StepSpec) (prior : List String) → check_step s prior ≡ ok tt → Accepted s prior
unfolding check_step
check_step-Accepted s prior h = record {
  key_ok = ground arith;
  stage_given = ground arith;
  schema_given = ground arith;
  executor_given = ground arith;
  instruction_given = ground arith;
  key_new = ground arith;
  dependencies_prior = all_prior-All prior s.depends_on (ground arith);
  gate_known = ground arith;
}

check_steps-Accepted :
    (pre : List StepSpec) (s : StepSpec) (post : List StepSpec) (prior : List String)
    → check_steps (pre ++ s ∷ post) prior ≡ ok tt
    → Accepted s (keys_before pre prior)
unfolding check_steps
check_steps-Accepted [] s post prior h = elim (Result-cases (check_step s prior)) [
  | inl (u, e) ↦ check_step-Accepted s prior e
  | inr (x, e) ↦ absurd (ground arith)
]
check_steps-Accepted (p ∷ pre) s post prior h = elim (Result-cases (check_step p prior)) [
  | inl (u, e) ↦ check_steps-Accepted pre s post (p.key ∷ prior) (ground arith)
  | inr (x, e) ↦ absurd (ground arith)
]

-- A list of specifications that is accepted is not empty, makes at most 32 steps in all, and each
-- specification in it, after those before it and the keys the job has, has all that a step needs, a
-- key that is new, a known gate policy and dependencies on earlier steps only.
validate_steps-Accepted :
    (pre : List StepSpec) (s : StepSpec) (post : List StepSpec) (prior : List String) (total : ℕ)
    → validate_steps (pre ++ s ∷ post) prior total ≡ ok tt
    → (total ≤ 32) × Accepted s (keys_before pre prior)
unfolding validate_steps
validate_steps-Accepted pre s post prior total h =
    (ground arith, check_steps-Accepted pre s post prior (ground arith))
