-- ===== src/Acquisitions/Overlay.antt =====
-- What RecordCoverage makes Covered answer.
use text.Mathlib.TextPositions.{eq_refl}
use agent_chun_su.Base.{
  ℕ, ◌≡◌, refl, sym, subst, ◌∙◌, ap, inl, inr, Bool, true, false, String, List, [], ◌∷◌, some, none,
  arith, ◌==◌, ◌&&◌, str_eq, eq_iff, Option-cases, Bool-cases, if◌then◌else◌,
}
use agent_chun_su.Table.{find_by, find_where, exists, All, Apart}
use agent_chun_su.Table.Laws.{
  find_where-update_where, find_where-holds, find_where-exists, find_where-append,
  exists-find_where,
}
use agent_chun_su.Store.Model.{Job, Db, ok, job_key}
use agent_chun_su.Store.Txn.{Result-cases}
use agent_chun_su.Store.Resume.{Codec}
use agent_chun_su.Acquisitions.{Coverage, Intake}
use agent_chun_su.Acquisitions.Reports.{
  covers, has_fingerprint, covered, is_experiment, is_reported, set_coverage, upsert_coverage,
  coverage_row, record_all, may_report, record_coverage,
}

abbrev covered_in : ℕ → String → String → List Coverage → Bool
covered_in connection source f rows = has_fingerprint f (find_where (covers connection source) rows)

covers-other :
    (c d : ℕ) (s t : String) (r : Coverage)
    → (c == d && str_eq s t) ≡ false
    → covers d t r ≡ true
    → covers c s r ≡ false
covers-other c d s t r apart h =
    ground (arith, eq_iff r.source_id s, eq_iff r.source_id t, eq_iff s t)

upsert-covered :
    (c job now : ℕ) (s g f : String) (rows : List Coverage)
    → covered_in c s f (upsert_coverage (coverage_row c job now (s, g)) rows) ≡ str_eq g f
unfolding upsert_coverage
upsert-covered c job now s g f rows = elim (Option-cases (find_where (covers c s) rows)) [
  | inl gone ↦ ground (
    arith,
    eq_refl s,
    find_where-exists (covers c s) rows gone,
    find_where-append (covers c s) rows (coverage_row c job now (s, g)),
  )
  | inr (r, there) ↦ elim (Bool-cases (exists (covers c s) rows)) [
    | inr new ↦ absurd (ground (arith, exists-find_where (covers c s) rows new))
    | inl known ↦ ground (
      arith,
      find_where-holds (covers c s) rows r there,
      find_where-update_where (covers c s) (covers c s)
          (set_coverage (coverage_row c job now (s, g))) (λ a. refl) rows,
    )
  ]
]

upsert-covered_other :
    (c d job now : ℕ) (s t g f : String) (rows : List Coverage)
    → (c == d && str_eq s t) ≡ false
    → covered_in d t f (upsert_coverage (coverage_row c job now (s, g)) rows)
      ≡ covered_in d t f rows
unfolding upsert_coverage
upsert-covered_other c d job now s t g f rows apart =
    elim (Option-cases (find_where (covers d t) rows)) [
      | inl gone ↦ ground (
        arith,
        find_where-append (covers d t) rows (coverage_row c job now (s, g)),
        find_where-update_where (covers d t) (covers c s)
            (set_coverage (coverage_row c job now (s, g))) (λ a. refl) rows,
      )
      | inr (r, there) ↦ ground (
        arith,
        covers-other c d s t r apart (find_where-holds (covers d t) rows r there),
        find_where-append (covers d t) rows (coverage_row c job now (s, g)),
        find_where-update_where (covers d t) (covers c s)
            (set_coverage (coverage_row c job now (s, g))) (λ a. refl) rows,
      )
    ]

-- The fingerprint that a map has for a source.
abbrev pub is_for : String → String × String → Bool
is_for s x = str_eq x.0 s

-- The map answers for its sources, and the table for the others.
abbrev pub overlay : List (String × String) → String → String → Bool → Bool
overlay fingerprints s f before = elim (find_where (is_for s) fingerprints) [
  | none ↦ before
  | some x ↦ str_eq x.1 f
]

-- A map has each source once.
unfoldable pub OncePerSource : List (String × String) → Type 0
OncePerSource fingerprints = Apart (λ (x y : String × String). str_eq y.0 x.0 ≡ false) fingerprints

record_all-other :
    (c d job now : ℕ) (t f : String) (xs : List (String × String)) (rows : List Coverage)
    → (c == d) ≡ false
    → covered_in d t f (record_all c job now xs rows) ≡ covered_in d t f rows
unfolding record_all
record_all-other c d job now t f [] rows apart = refl
record_all-other c d job now t f ((s, g) ∷ xs) rows apart =
    record_all-other c d job now t f xs (upsert_coverage (coverage_row c job now (s, g)) rows) apart
    ∙ upsert-covered_other c d job now s t g f rows (ground arith)

record_all-absent :
    (c job now : ℕ) (t f : String) (xs : List (String × String)) (rows : List Coverage)
    → All (λ (x : String × String). str_eq x.0 t ≡ false) xs
    → covered_in c t f (record_all c job now xs rows) ≡ covered_in c t f rows
unfolding record_all
record_all-absent c job now t f [] rows h = refl
record_all-absent c job now t f ((s, g) ∷ xs) rows h =
    record_all-absent c job now t f xs (upsert_coverage (coverage_row c job now (s, g)) rows) h.1
    ∙ upsert-covered_other c c job now s t g f rows (ground (arith, h.0))

overlay-hit :
    (s t g f : String) (xs : List (String × String)) (before : Bool)
    → str_eq s t ≡ true
    → overlay ((s, g) ∷ xs) t f before ≡ str_eq g f
unfolding find_where
overlay-hit s t g f xs before hit = ground arith

overlay-miss :
    (s t g f : String) (xs : List (String × String)) (before : Bool)
    → str_eq s t ≡ false
    → overlay ((s, g) ∷ xs) t f before ≡ overlay xs t f before
unfolding find_where
overlay-miss s t g f xs before miss = ground arith

record_all-overlay :
    (c job now : ℕ) (t f : String) (xs : List (String × String)) (rows : List Coverage)
    → OncePerSource xs
    → covered_in c t f (record_all c job now xs rows) ≡ overlay xs t f (covered_in c t f rows)
unfolding record_all find_where OncePerSource
record_all-overlay c job now t f [] rows once = refl
record_all-overlay c job now t f ((s, g) ∷ xs) rows once = elim (Bool-cases (str_eq s t)) [
  | inl hit ↦
      subst
        (λ u.
          covered_in c u f
            (record_all c job now xs (upsert_coverage (coverage_row c job now (s, g)) rows))
          ≡ str_eq g f)
        ((eq_iff s t).0 hit)
        (record_all-absent c job now s f xs (upsert_coverage (coverage_row c job now (s, g)) rows)
            once.0
          ∙ upsert-covered c job now s g f rows)
      ∙ sym (overlay-hit s t g f xs (covered_in c t f rows) hit)
  | inr miss ↦
      record_all-overlay c job now t f xs (upsert_coverage (coverage_row c job now (s, g)) rows)
        once.1
      ∙ ap (overlay xs t f) (upsert-covered_other c c job now s t g f rows (ground (arith, miss)))
      ∙ sym (overlay-miss s t g f xs (covered_in c t f rows) miss)
]

-- A job whose report may be recorded.
pub Reportable : Codec → ℕ → Db → Type 0
Reportable c job db =
    (j : Job) × (find_by job_key job db.jobs ≡ some j)
    × (is_experiment c j.request ≡ false)
    × (is_reported j.status ≡ true)

may_report-Reportable :
    (c : Codec) (job : ℕ) (db : Db) → may_report c job db ≡ ok tt → Reportable c job db
unfolding Reportable
may_report-Reportable c job db h = elim (Option-cases (find_by job_key job db.jobs)) [
  | inl gone ↦ absurd (ground arith)
  | inr (j, found) ↦ (j, found, ground arith, ground arith)
]

-- A RecordCoverage that succeeds was for a completed or partial job that is no experiment. Of the sources of the
-- connection that it was given, Covered then accepts just the given fingerprint, and of all others, also
-- those of other connections, what it did before; the given map has each source once.
pub record_coverage-overlay :
    (c : Codec) (now connection job : ℕ) (fingerprints : List (String × String)) (db : Db)
    (i i' : Intake) (d : ℕ) (t f : String)
    → OncePerSource fingerprints
    → record_coverage c now connection job fingerprints db i ≡ (i', ok tt)
    → Reportable c job db
      × (covered d t f i' ≡ (
          if connection == d then overlay fingerprints t f (covered d t f i) else covered d t f i))
unfolding record_coverage covered
record_coverage-overlay c now connection job fingerprints db i i' d t f once done =
    elim (Result-cases (may_report c job db)) [
      | inr (e, bad) ↦ absurd (ground arith)
      | inl (u, good) ↦
          (let left : record i { coverage = record_all connection job now fingerprints i.coverage }
                ≡ i' =
              ground arith in
            (
              may_report-Reportable c job db good,
              subst
                  (λ (x : Intake). covered_in d t f x.coverage ≡ (
                    if connection == d
                    then overlay fingerprints t f (covered_in d t f i.coverage)
                    else covered_in d t f i.coverage))
                  left
                  (elim (Bool-cases (connection == d)) [
                    | inl e ↦ rw e (
                        subst
                          (λ k.
                            covered_in k t f (record_all connection job now fingerprints i.coverage)
                            ≡ overlay fingerprints t f (covered_in k t f i.coverage))
                          (ground arith)
                          (record_all-overlay connection job now t f fingerprints i.coverage once))
                    | inr e ↦
                        rw e (record_all-other connection d job now t f fingerprints i.coverage e)
                  ]),
            ))
    ]
