-- ===== src/Store/Queries/Listed.antt =====
-- A listing has the rows that are asked for, and has them in order.
use agent_chun_su.Base.{
  ℕ, ◌≡◌, ◌≤◌, refl, Bool, true, false, List, [], ◌∷◌, ◌==◌, ◌&&◌, ◌∙◌, arith, Bool-cases, inl, inr,
}
use agent_chun_su.Table.{select, count_where, All, Apart}
use agent_chun_su.Table.Laws.{All-map}
use agent_chun_su.Store.Model.{Attempt, StepAttempt, Artifact, Db}
use agent_chun_su.Store.Queries.{
  insert_sorted, sort_by, by_ordinal, step_by_ordinal, by_creation, attempts, step_attempts,
  artifacts,
}

module _ {ℓ} {A : Type ℓ} (before : A → A → Bool) where
  count_where-insert_sorted :
      (q : A → Bool) (x : A) (xs : List A)
      → count_where q (insert_sorted before x xs) ≡ count_where q (x ∷ xs)
  unfolding insert_sorted count_where
  count_where-insert_sorted q x [] = refl
  count_where-insert_sorted q x (y ∷ ys) = ground (arith, count_where-insert_sorted q x ys)

  count_where-sort_by :
      (q : A → Bool) (xs : List A) → count_where q (sort_by before xs) ≡ count_where q xs
  unfolding sort_by count_where
  count_where-sort_by q [] = refl
  count_where-sort_by q (x ∷ xs) =
      count_where-insert_sorted q x (sort_by before xs) ∙ (omega (arith, count_where-sort_by q xs))

  -- The order is total and transitive.
  module _ (R : A → A → Type 0) (yes_ : (a b : A) → before a b ≡ true → R a b)
      (no_ : (a b : A) → before a b ≡ false → R b a)
      (trans : (a b c : A) → R a b → R b c → R a c) where
    All-insert_sorted :
        (P : A → Type 0) (x : A) (xs : List A) → P x → All P xs → All P (insert_sorted before x xs)
    unfolding insert_sorted
    All-insert_sorted P x [] h k = (h, tt)
    All-insert_sorted P x (y ∷ ys) h k = elim (Bool-cases (before x y)) [
      | inl e ↦ rw e (h, k)
      | inr e ↦ rw e (k.0, All-insert_sorted P x ys h k.1)
    ]

    Apart-insert_sorted : (x : A) (xs : List A) → Apart R xs → Apart R (insert_sorted before x xs)
    unfolding insert_sorted
    Apart-insert_sorted x [] h = (tt, tt)
    Apart-insert_sorted x (y ∷ ys) h = elim (Bool-cases (before x y)) [
      | inl e ↦ rw e ((yes_ x y e, All-map _ _ (λ z r. trans x y z (yes_ x y e) r) ys h.0), h)
      | inr e ↦ rw e (All-insert_sorted (R y) x ys (no_ x y e) h.0, Apart-insert_sorted x ys h.1)
    ]

    Apart-sort_by : (xs : List A) → Apart R (sort_by before xs)
    unfolding sort_by
    Apart-sort_by [] = tt
    Apart-sort_by (x ∷ xs) = Apart-insert_sorted x (sort_by before xs) (Apart-sort_by xs)

count_where-select {ℓ} :
    {A : Type ℓ} (p q : A → Bool) (xs : List A)
    → count_where q (select p xs) ≡ count_where (λ a. p a && q a) xs
unfolding count_where select
count_where-select p q [] = refl
count_where-select p q (x ∷ xs) = ground (arith, count_where-select p q xs)

-- The attempts at a job are listed by their ordinals, and the listing has each row of the job as
-- often as the table has it: for any test, as many rows pass it in both.
attempts-listed :
    (q : Attempt → Bool) (job : ℕ) (db : Db)
    → Apart (λ a b. a.ordinal ≤ b.ordinal) (attempts job db)
      × (count_where q (attempts job db) ≡ count_where (λ a. a.job_id == job && q a) db.attempts)
unfolding attempts
attempts-listed q job db = (
  Apart-sort_by by_ordinal (λ a b. a.ordinal ≤ b.ordinal) (λ a b h. ground arith)
      (λ a b h. ground arith) (λ a b c h k. ground arith)
      (select (λ (a : Attempt). a.job_id == job) db.attempts),
  count_where-sort_by by_ordinal q (select (λ (a : Attempt). a.job_id == job) db.attempts)
      ∙ count_where-select (λ (a : Attempt). a.job_id == job) q db.attempts,
)

-- So are the attempts at a step.
step_attempts-listed :
    (q : StepAttempt → Bool) (step : ℕ) (db : Db)
    → Apart (λ a b. a.ordinal ≤ b.ordinal) (step_attempts step db)
      × (count_where q (step_attempts step db)
          ≡ count_where (λ a. a.step_id == step && q a) db.step_attempts)
unfolding step_attempts
step_attempts-listed q step db = (
  Apart-sort_by step_by_ordinal (λ a b. a.ordinal ≤ b.ordinal) (λ a b h. ground arith)
      (λ a b h. ground arith) (λ a b c h k. ground arith)
      (select (λ (a : StepAttempt). a.step_id == step) db.step_attempts),
  count_where-sort_by step_by_ordinal q
        (select (λ (a : StepAttempt). a.step_id == step) db.step_attempts)
      ∙ count_where-select (λ (a : StepAttempt). a.step_id == step) q db.step_attempts,
)

-- The artifacts of a job are listed by their time, and the listing has each row of the job as often
-- as the table has it.
artifacts-listed :
    (q : Artifact → Bool) (job : ℕ) (db : Db)
    → Apart (λ a b. a.created_at ≤ b.created_at) (artifacts job db)
      × (count_where q (artifacts job db) ≡ count_where (λ a. a.job_id == job && q a) db.artifacts)
unfolding artifacts
artifacts-listed q job db = (
  Apart-sort_by by_creation (λ a b. a.created_at ≤ b.created_at) (λ a b h. ground arith)
      (λ a b h. ground arith) (λ a b c h k. ground arith)
      (select (λ (a : Artifact). a.job_id == job) db.artifacts),
  count_where-sort_by by_creation q (select (λ (a : Artifact). a.job_id == job) db.artifacts)
      ∙ count_where-select (λ (a : Artifact). a.job_id == job) q db.artifacts,
)
