-- ===== src/Store/Workflow/Inputs.antt =====
-- The inputs of a step: resolvedInputs and pinInputsTx of internal/store/workflow.go.
use agent_chun_su.Base.{
  ℕ, ◌≡◌, ◌≢◌, refl, true, false, List, [], ◌∷◌, String, some, arith, ◌==◌, ◌&&◌, Bool-cases,
  Option-cases, inl, inr,
}
use agent_chun_su.Table.{find_where, All, Apart}
use agent_chun_su.Table.Laws.{All-map}
use agent_chun_su.Store.Status.{is_completed_step}
use agent_chun_su.Store.Model.{Artifact, PinnedArtifactRef, Step, Db, ok}
use agent_chun_su.Store.Txn.{Result-cases}
use agent_chun_su.Store.Disk.{is_available}
use agent_chun_su.Store.Workflow.{
  by_key, dependency_refs, resolved_inputs, seen_id, pin_one, pin_loop, pin_inputs,
}

-- The key names a completed step of the list, with an output.
abbrev pub IsMet : List Step → String → Type 0
IsMet steps k =
    (dep : Step) × (by_key k steps ≡ some dep)
    × (is_completed_step dep.state ≡ true)
    × (dep.output_artifact_id ≢ 0)

dependency_refs-IsMet :
    (steps : List Step) (ks : List String) (refs : List PinnedArtifactRef)
    → dependency_refs steps ks ≡ some refs
    → All (IsMet steps) ks
unfolding dependency_refs
dependency_refs-IsMet steps [] refs h = tt
dependency_refs-IsMet steps (k ∷ ks) refs h = elim (Option-cases (by_key k steps)) [
  | inl e ↦ absurd (ground arith)
  | inr (dep, e) ↦ elim (Option-cases (dependency_refs steps ks)) [
    | inl e' ↦ absurd (ground arith)
    | inr (rest, e') ↦
        ((dep, e, ground arith, ground arith), dependency_refs-IsMet steps ks rest e')
  ]
]

-- A step resolves only if each of its dependencies is met.
pub resolved_inputs-IsMet :
    (steps : List Step) (s : Step) (refs : List PinnedArtifactRef)
    → resolved_inputs steps s ≡ some refs
    → All (IsMet steps) s.depends_on
unfolding resolved_inputs
resolved_inputs-IsMet steps s refs h = elim (Option-cases (dependency_refs steps s.depends_on)) [
  | inl e ↦ absurd (ground arith)
  | inr (r, e) ↦ dependency_refs-IsMet steps s.depends_on r e
]

-- The pin is of an artifact of the job whose content is there, with its digest.
abbrev pub IsPinned : Db → ℕ → PinnedArtifactRef → Type 0
IsPinned db job p =
    (a : Artifact) × (find_where (λ (r : Artifact). r.id == p.artifact_id && r.job_id == job)
        db.artifacts
      ≡ some a)
    × (is_available a.content_state ≡ true)
    × (p.digest ≡ a.digest)

pin_one-IsPinned :
    (db : Db) (job : ℕ) (ref pin : PinnedArtifactRef)
    → pin_one db job ref ≡ ok pin
    → (pin.artifact_id ≡ ref.artifact_id) × IsPinned db job pin
unfolding pin_one
pin_one-IsPinned db job ref pin h =
    elim (Option-cases
      (find_where (λ (r : Artifact). r.id == ref.artifact_id && r.job_id == job) db.artifacts)) [
        | inl e ↦ absurd (ground arith)
        | inr (a, e) ↦
            (let same : pin.artifact_id ≡ ref.artifact_id = ground arith in
              (same, (a, rw (same, e) refl, ground arith, ground arith)))
      ]

abbrev IsNew : List ℕ → PinnedArtifactRef → Type 0
IsNew seen p = seen_id p.artifact_id seen ≡ false

abbrev pub OtherId : PinnedArtifactRef → PinnedArtifactRef → Type 0
OtherId p q = q.artifact_id ≢ p.artifact_id

pin_loop-IsPinned :
    (db : Db) (job : ℕ) (seen : List ℕ) (refs pins : List PinnedArtifactRef)
    → pin_loop db job seen refs ≡ ok pins
    → All (IsPinned db job) pins × (All (IsNew seen) pins × Apart OtherId pins)
unfolding pin_loop seen_id
pin_loop-IsPinned db job seen [] [] h = (tt, (tt, tt))
pin_loop-IsPinned db job seen [] (p ∷ pins) h = absurd (ground arith)
pin_loop-IsPinned db job seen (ref ∷ refs) pins h =
    elim (Bool-cases (seen_id ref.artifact_id seen)) [
      | inl old ↦ pin_loop-IsPinned db job seen refs pins (ground arith)
      | inr new ↦ elim (Result-cases (pin_one db job ref)) [
        | inr (e, bad) ↦ absurd (ground arith)
        | inl (pin, one) ↦ elim (Result-cases (pin_loop db job (ref.artifact_id ∷ seen) refs)) [
          | inr (e, bad) ↦ absurd (ground arith)
          | inl (rest, more) ↦
              (let shape : pins ≡ pin ∷ rest = ground arith in
                let ih = pin_loop-IsPinned db job (ref.artifact_id ∷ seen) refs rest more in
                let first = pin_one-IsPinned db job ref pin one in
                rw shape (
                  (first.1, ih.0),
                  (
                    (rw first.0 new, All-map _ _ (λ p k. ground arith) rest ih.1.0),
                    (All-map _ _ (λ p k. ground arith) rest ih.1.0, ih.1.1),
                  ),
                ))
        ]
      ]
    ]

pub pin_inputs-IsPinned :
    (db : Db) (job : ℕ) (refs pins : List PinnedArtifactRef)
    → pin_inputs db job refs ≡ ok pins
    → All (IsPinned db job) pins × Apart OtherId pins
unfolding pin_inputs
pin_inputs-IsPinned db job refs pins h =
    let all = pin_loop-IsPinned db job [] refs pins h in (all.0, all.1.1)
