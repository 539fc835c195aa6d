-- ===== src/Operations/Releases/Lasting.antt =====
-- What holds of every release cycle, and lasts when cycles are written.

use agent_chun_su.Base.{
  ◌≡◌, ◌⊎◌, ◌∙◌, refl, sym, ap, subst, inl, inr, true, false, List, [], ◌∷◌, ◌++◌, String, none,
  some, arith, ltb, str_eq, eq_iff, Bool-cases,
}
use agent_chun_su.Table.{All, exists, find_where}
use agent_chun_su.Table.Laws.{All-append, All-map}
use agent_chun_su.Incidents.{Tools, instant}
use agent_chun_su.Incidents.Backed.{find_where-All}
use agent_chun_su.Ledger.{Command}
use agent_chun_su.Operations.{Commitment, ReleaseCycle, has_key, store, cycle_key}
use agent_chun_su.Operations.Stored.{store-All, store-own, store-other}
use agent_chun_su.Operations.Releases.{commitment, commit}

-- The cycle `n` has taken the work item over from one of this service and environment.
pub record TakenOver (t : Tools) (service environment deploy_by work_id : String) (n : ReleaseCycle)
    : Type 0 where
  pub same_service : str_eq n.service service ≡ true
  pub same_environment : str_eq n.environment environment ≡ true
  pub later : ltb (instant t deploy_by) (instant t n.deploy_by) ≡ true
  pub takes : exists (λ (k : Commitment). str_eq k.work_id work_id) n.commitments ≡ true

abbrev pub Settled : Tools → List ReleaseCycle → ReleaseCycle → Commitment → Type 0
Settled t cycles c m =
    (str_eq m.status "carried" ≡ false)
    ⊎ ((n : ReleaseCycle) × (find_where (has_key cycle_key m.carried_to) cycles ≡ some n)
        × TakenOver t c.service c.environment c.deploy_by m.work_id n)

-- The cycle is ready before it is deployed, and each target that it carried is a commitment of the
-- cycle that it names, a later one of the same service and environment.
pub record CycleSound (t : Tools) (cycles : List ReleaseCycle) (c : ReleaseCycle) : Type 0 where
  pub in_time : ltb (instant t c.deploy_by) (instant t c.ready_by) ≡ false
  pub carried : All (Settled t cycles c) c.commitments

unfoldable pub AllCycles : Tools → List ReleaseCycle → Type 0
AllCycles t cycles = All (CycleSound t cycles) cycles

-- A cycle keeps what it is for, and its commitments.
pub record Succeeds (n n' : ReleaseCycle) : Type 0 where
  pub service : n'.service ≡ n.service
  pub environment : n'.environment ≡ n.environment
  pub deploy_by : n'.deploy_by ≡ n.deploy_by
  pub commitments :
      (id : String)
      → exists (λ (k : Commitment). str_eq k.work_id id) n.commitments ≡ true
      → exists (λ (k : Commitment). str_eq k.work_id id) n'.commitments ≡ true

abbrev pub Lasting : List ReleaseCycle → List ReleaseCycle → Type 0
Lasting cycles cycles' =
    (id : String) (n : ReleaseCycle)
    → find_where (has_key cycle_key id) cycles ≡ some n
    → (n' : ReleaseCycle) × (find_where (has_key cycle_key id) cycles' ≡ some n') × Succeeds n n'

pub CycleSound-later :
    (t : Tools) (cycles cycles' : List ReleaseCycle) (c : ReleaseCycle)
    → Lasting cycles cycles'
    → CycleSound t cycles c
    → CycleSound t cycles' c
CycleSound-later t cycles cycles' c lasting h = record {
  in_time = h.in_time;
  carried = All-map (Settled t cycles c) (Settled t cycles' c) step c.commitments h.carried;
}
  where
    step : (m : Commitment) → Settled t cycles c m → Settled t cycles' c m
    step m settled = elim settled [
      | inl other ↦ inl other
      | inr (n, found, over) ↦
          let (n', there, s) = lasting m.carried_to n found in
          inr (
            n',
            there,
            record {
              same_service = ap (λ x. str_eq x c.service) s.service ∙ over.same_service;
              same_environment =
                  ap (λ x. str_eq x c.environment) s.environment ∙ over.same_environment;
              later = ap (λ x. ltb (instant t c.deploy_by) (instant t x)) s.deploy_by ∙ over.later;
              takes = s.commitments m.work_id over.takes;
            },
          )
    ]

-- A cycle that is written over an earlier state of it.
pub store-Lasting :
    (old new : ReleaseCycle) (cycles : List ReleaseCycle)
    → find_where (has_key cycle_key new.id) cycles ≡ some old
    → Succeeds old new
    → Lasting cycles (store cycle_key new cycles)
store-Lasting old new cycles own s id n found = elim (Bool-cases (str_eq new.id id)) [
  | inl mine ↦
      let same : new.id ≡ id = ground (arith, mine, eq_iff new.id id) in
      let is_old : n ≡ old = ground (arith, same, own, found) in
      (
        new,
        subst (λ k. find_where (has_key cycle_key k) (store cycle_key new cycles) ≡ some new) same
            (store-own cycle_key new cycles),
        subst (λ o. Succeeds o new) (sym is_old) s,
      )
  | inr other ↦ (
    n,
    store-other cycle_key new id cycles other ∙ found,
    record { service = refl; environment = refl; deploy_by = refl; commitments = λ k h. h },
  )
]

-- A cycle that is written for the first time.
pub store-Lasting_new :
    (new : ReleaseCycle) (cycles : List ReleaseCycle)
    → find_where (has_key cycle_key new.id) cycles ≡ none
    → Lasting cycles (store cycle_key new cycles)
store-Lasting_new new cycles free id n found = elim (Bool-cases (str_eq new.id id)) [
  | inl mine ↦
      let same : new.id ≡ id = ground (arith, mine, eq_iff new.id id) in
      absurd (ground (arith, same, free, found))
  | inr other ↦ (
    n,
    store-other cycle_key new id cycles other ∙ found,
    record { service = refl; environment = refl; deploy_by = refl; commitments = λ k h. h },
  )
]

exists-append :
    (id : String) (ms : List Commitment) (m : Commitment)
    → exists (λ (k : Commitment). str_eq k.work_id id) ms ≡ true
    → exists (λ (k : Commitment). str_eq k.work_id id) (ms ++ (m ∷ [])) ≡ true
unfolding exists
exists-append id [] m h = absurd (ground arith)
exists-append id (k ∷ ks) m h = ground (arith, exists-append id ks m)

pub exists-last :
    (id : String) (ms : List Commitment) (m : Commitment)
    → str_eq m.work_id id ≡ true
    → exists (λ (k : Commitment). str_eq k.work_id id) (ms ++ (m ∷ [])) ≡ true
unfolding exists
exists-last id [] m h = ground arith
exists-last id (k ∷ ks) m h = ground (arith, exists-last id ks m h)

commit-Succeeds :
    (work_id status carried_to : String) (x : Command) (at : String) (c : ReleaseCycle)
    → Succeeds c (commit work_id status carried_to x at c)
unfolding commit
commit-Succeeds work_id status carried_to x at c = record {
  service = refl;
  environment = refl;
  deploy_by = refl;
  commitments = λ id h. exists-append id c.commitments _ h;
}

-- All cycles, when one is written over an earlier state of it.
pub store-AllCycles :
    (t : Tools) (old new : ReleaseCycle) (cycles : List ReleaseCycle)
    → find_where (has_key cycle_key new.id) cycles ≡ some old
    → Succeeds old new
    → CycleSound t (store cycle_key new cycles) new
    → AllCycles t cycles
    → AllCycles t (store cycle_key new cycles)
unfolding AllCycles
store-AllCycles t old new cycles own s sound all =
    store-All (CycleSound t (store cycle_key new cycles)) cycle_key new cycles sound (
      All-map (CycleSound t cycles) (CycleSound t (store cycle_key new cycles))
        (λ c h.
          CycleSound-later t cycles (store cycle_key new cycles) c
            (store-Lasting old new cycles own s) h)
        cycles all)

commit-Sound :
    (t : Tools) (work_id status carried_to : String) (x : Command) (at : String) (c : ReleaseCycle)
    (cycles cycles' : List ReleaseCycle)
    → CycleSound t cycles c
    → Lasting cycles cycles'
    → Settled t cycles' c (commitment work_id status carried_to x at c)
    → CycleSound t cycles' (commit work_id status carried_to x at c)
unfolding commit
commit-Sound t work_id status carried_to x at c cycles cycles' h lasting settled =
    let old = CycleSound-later t cycles cycles' c lasting h in
    record {
      in_time = old.in_time;
      carried = All-append (Settled t cycles' c) c.commitments _ old.carried (settled, tt);
    }

-- A commitment of a cycle that is found under its own key.
pub commit-AllCycles :
    (t : Tools) (work_id status carried_to : String) (x : Command) (at : String) (c : ReleaseCycle)
    (cycles : List ReleaseCycle)
    → find_where (has_key cycle_key c.id) cycles ≡ some c
    → Settled t
        (store cycle_key (commit work_id status carried_to x at c) cycles)
        c
        (commitment work_id status carried_to x at c)
    → AllCycles t cycles
    → AllCycles t (store cycle_key (commit work_id status carried_to x at c) cycles)
unfolding commit AllCycles
commit-AllCycles t work_id status carried_to x at c cycles own settled all =
    let new = commit work_id status carried_to x at c in
    let s = commit-Succeeds work_id status carried_to x at c in
    store-AllCycles t c new cycles own s
      (commit-Sound t work_id status carried_to x at c cycles (store cycle_key new cycles)
        (find_where-All (CycleSound t cycles) (has_key cycle_key c.id) cycles c own all)
        (store-Lasting c new cycles own s) settled)
      all
