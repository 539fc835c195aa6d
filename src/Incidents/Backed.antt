-- ===== src/Incidents/Backed.antt =====
-- The evidence of the incidents, after any commands: the incidents of assessments.
pub mod Kept
use agent_chun_su.Base.{
  ◌≡◌, ◌⊎◌, refl, inl, inr, subst, false, List, [], ◌∷◌, String, some, arith, ◌==◌, str_eq, Bool,
  Bool-cases, Option-cases, if◌then◌else◌,
}
use agent_chun_su.Table.{All, exists, find_where, length}
use agent_chun_su.Table.Laws.{All-append, All-update_where}
use agent_chun_su.Store.Model.{ok}
use agent_chun_su.Store.Txn.{Result-cases}
use agent_chun_su.Incidents.{
  Tools, Json, Risk, Incident, Observation, Assessment, State, has_id, is_resolved,
  risk_fingerprint, put,
}
use agent_chun_su.Incidents.Evidenced.{one_of}
use agent_chun_su.Incidents.Evidenced.Cited.{Cited}
use agent_chun_su.Incidents.Assessed.{
  judged, reopened, renewed, target, raise, new_incident, settle, apply_risks,
}

-- An incident that is resolved has evidence of it, and all its evidence is borne out.
unfoldable pub Backed : Tools → List Observation → Incident → Type 0
Backed t observations i =
    ((is_resolved i ≡ false) ⊎ ((length i.resolution_evidence == 0) ≡ false))
    × All (Cited t observations) i.resolution_evidence

pub find_where-All {ℓ κ} :
    {A : Type ℓ} (P : A → Type κ) (p : A → Bool) (xs : List A) (a : A)
    → find_where p xs ≡ some a
    → All P xs
    → P a
unfolding find_where
find_where-All P p [] a h all = absurd (ground arith)
find_where-All P p (x ∷ xs) a h all = elim (Bool-cases (p x)) [
  | inl hit ↦ (let same : x ≡ a = ground arith in subst P same all.0)
  | inr miss ↦ find_where-All P p xs a (ground arith) all.1
]

pub put-All {κ} :
    (P : Incident → Type κ) (i : Incident) (rows : List Incident)
    → P i
    → All P rows
    → All P (put i rows)
unfolding put
put-All P i rows h all = elim (Bool-cases (exists (has_id i.id) rows)) [
  | inl there ↦
      rw (there, put) (All-update_where P P (has_id i.id) (λ r. i) (λ r k. kept r k) rows all)
  | inr new ↦ rw (new, put) (All-append P rows (i ∷ []) all (h, tt))
]
  where
    kept : (r : Incident) → P r → P (if has_id i.id r then i else r)
    kept r k = elim (Bool-cases (has_id i.id r)) [ inl e ↦ rw e h | inr e ↦ rw e k ]

reopened-Backed :
    (t : Tools) (os : List Observation) (i : Incident) → Backed t os i → Backed t os (reopened i)
unfolding reopened Backed
reopened-Backed t os i h = elim (Bool-cases (is_resolved i)) [
  | inl e ↦ rw (e, reopened) (inl refl, h.1)
  | inr e ↦ rw (e, reopened) h
]

renewed-Backed :
    (t : Tools) (j : Json) (a : Assessment) (at : String) (r : Risk) (os : List Observation)
    (i : Incident)
    → Backed t os i
    → Backed t os (renewed t j a at r i)
unfolding renewed judged Backed
renewed-Backed t j a at r os i h = reopened-Backed t os i h

-- All incidents of a state.
unfoldable pub AllBacked : Tools → State → Type 0
AllBacked t st = All (Backed t st.observations) st.incidents

settle-AllBacked :
    (t : Tools) (j : Json) (a : Assessment) (at : String) (r : Risk) (found : String × String)
    (st : State)
    → AllBacked t st
    → AllBacked t (settle t j a at r found st)
unfolding settle raise AllBacked new_incident judged Backed
settle-AllBacked t j a at r found st all =
    elim (Option-cases (find_where (has_id found.0) st.incidents)) [
      | inl gone ↦
          rw (gone, settle)
            (put-All (Backed t st.observations)
              (renewed t j a at r (new_incident found.0 found.1 at r)) st.incidents
              (renewed-Backed t j a at r st.observations (new_incident found.0 found.1 at r)
                (inl refl, tt))
              all)
      | inr (i, there) ↦
          let old =
            find_where-All (Backed t st.observations) (has_id found.0) st.incidents i there all in
          elim (Bool-cases (str_eq i.fingerprint (risk_fingerprint t j r))) [
            | inr other ↦
                rw (there, settle, other)
                  (put-All (Backed t st.observations) (renewed t j a at r i) st.incidents
                    (renewed-Backed t j a at r st.observations i old) all)
            | inl same ↦ elim (Bool-cases (str_eq (j.json_risk i.risk) (j.json_risk r))) [
              | inl e ↦ rw (there, settle, same, e) all
              | inr e ↦
                  rw (there, settle, same, e)
                    (put-All (Backed t st.observations) (judged a at r i) st.incidents old all)
            ]
          ]
    ]

pub apply_risks-AllBacked :
    (t : Tools) (j : Json) (a : Assessment) (at : String) (seen : List String) (rs : List Risk)
    (st st' : State)
    → apply_risks t j a at seen rs st ≡ ok st'
    → AllBacked t st
    → AllBacked t st'
unfolding apply_risks
apply_risks-AllBacked t j a at seen [] st st' h all =
    let same : st ≡ st' = ground arith in subst (AllBacked t) same all
apply_risks-AllBacked t j a at seen (r ∷ rs) st st' h all = elim (Result-cases (target t r st)) [
  | inr (e, bad) ↦ absurd (ground arith)
  | inl (found, good) ↦ elim (Bool-cases (one_of found.0 seen)) [
    | inl twice ↦ absurd (ground arith)
    | inr once ↦
        apply_risks-AllBacked t j a at (found.0 ∷ seen) rs (settle t j a at r found st) st'
          (ground arith) (settle-AllBacked t j a at r found st all)
  ]
]
