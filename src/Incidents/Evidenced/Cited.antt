-- ===== src/Incidents/Evidenced/Cited.antt =====
-- What evidence is that validateEvidence accepts.

use agent_chun_su.Base.{
  ◌≡◌, ◌⊎◌, inl, inr, Bool, true, false, List, [], ◌∷◌, map, some, arith, ◌==◌, ◌&&◌, ◌||◌, str_eq,
  Bool-cases, Option-cases,
}
use agent_chun_su.Table.{All, exists, find_where, length}
use agent_chun_su.Store.Model.{ok}
use agent_chun_su.Store.Txn.{Result-cases}
use agent_chun_su.Incidents.{Tools, Evidence, Source, Observation, span_id, empty}
use agent_chun_su.Incidents.Evidenced.{
  nonempty, all_known, check_sources, check_observed, check_item, check_items, validate_evidence,
}

-- The source is one of the observation's, with all spans in it.
abbrev pub holds_spans : Evidence → Source → Bool
holds_spans e s = str_eq s.id e.source_id && all_known (map span_id s.spans) e.span_ids

-- A statement of the owner, or a citation that an observation bears out.
unfoldable pub Cited : Tools → List Observation → Evidence → Type 0
Cited t observations e =
    (nonempty t e.statement ≡ true)
    × (((empty e.observation_id ≡ true)
          × (empty e.source_id ≡ true)
          × ((length e.span_ids == 0) ≡ true))
        ⊎ ((o : Observation) × (find_where (λ (o : Observation). str_eq o.id e.observation_id)
                observations
              ≡ some o)
            × (exists (holds_spans e) o.sources ≡ true)))

check_sources-found :
    (e : Evidence) (found : Bool) (ss : List Source)
    → check_sources e found ss ≡ ok true
    → (found ≡ true) ⊎ (exists (holds_spans e) ss ≡ true)
unfolding check_sources exists
check_sources-found e found [] h = inl (ground arith)
check_sources-found e found (s ∷ ss) h =
    ground (arith, check_sources-found e (found || str_eq s.id e.source_id) ss)

check_observed-found :
    (e : Evidence) (o : Observation) (u : Unit {0})
    → check_observed e o ≡ ok u
    → exists (holds_spans e) o.sources ≡ true
unfolding check_observed
check_observed-found e o u h = elim (Result-cases (check_sources e false o.sources)) [
  | inr (x, bad) ↦ absurd (ground arith)
  | inl (true, good) ↦ ground (arith, check_sources-found e false o.sources good)
  | inl (false, good) ↦ absurd (ground arith)
]

check_item-Cited :
    (t : Tools) (observations : List Observation) (e : Evidence) (u : Unit {0})
    → check_item t observations e ≡ ok u
    → Cited t observations e
unfolding Cited check_item
check_item-Cited t observations e u h = elim (Bool-cases (empty e.observation_id)) [
  | inl own ↦ (ground arith, inl (own, ground arith, ground arith))
  | inr cites ↦
      elim (Option-cases
        (find_where (λ (o : Observation). str_eq o.id e.observation_id) observations)) [
          | inl gone ↦ absurd (ground arith)
          | inr (o, there) ↦
              (ground arith, inr (o, there, check_observed-found e o u (ground arith)))
        ]
]

check_items-Cited :
    (t : Tools) (observations : List Observation) (es : List Evidence) (u : Unit {0})
    → check_items t observations es ≡ ok u
    → All (Cited t observations) es
unfolding check_items
check_items-Cited t observations [] u h = tt
check_items-Cited t observations (e ∷ es) u h = elim (Result-cases (check_item t observations e)) [
  | inr (x, bad) ↦ absurd (ground arith)
  | inl (v, good) ↦ (
    check_item-Cited t observations e v good,
    check_items-Cited t observations es u (ground arith),
  )
]

pub validate_evidence-Cited :
    (t : Tools) (observations : List Observation) (es : List Evidence) (required : Bool)
    (u : Unit {0})
    → validate_evidence t observations es required ≡ ok u
    → All (Cited t observations) es × ((required ≡ false) ⊎ ((length es == 0) ≡ false))
unfolding validate_evidence
validate_evidence-Cited t observations es required u h =
    (check_items-Cited t observations es u (ground arith), ground arith)
