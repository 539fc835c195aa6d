-- ===== src/Operations/Releases/Carried.antt =====
-- The operations on release cycles keep what holds of every cycle.

use agent_chun_su.Base.{
  ◌≡◌, ◌∙◌, refl, ap, subst, inl, inr, Bool, true, false, not, ◌||◌, List, String, some, arith, ltb,
  str_eq, eq_iff, Bool-cases, Option-cases,
}
use agent_chun_su.Table.{exists, find_where}
use agent_chun_su.Table.Laws.{All-map, find_where-holds, exists-find_where}
use agent_chun_su.Store.Model.{ok}
use agent_chun_su.Store.Txn.{Result-cases, refuse_if-passed, refuse_if-last}
use agent_chun_su.Incidents.{Tools, Observation, instant}
use agent_chun_su.Incidents.Evidenced.{validate_evidence}
use agent_chun_su.Incidents.Backed.{find_where-All}
use agent_chun_su.Ledger.{Command}
use agent_chun_su.Operations.{WorkItem, Deployment, ReleaseCycle, has_key, store, cycle_key}
use agent_chun_su.Operations.Stored.{store-All, store-own, store-other, text_same}
use agent_chun_su.Operations.Releases.{
  ReleaseCreate, TargetChange, new_cycle, check_release, create_release, commitment, commit,
  check_target, check_destination, destination, carry, change_target, check_deploy, deployed,
  deploy,
}
use agent_chun_su.Operations.Releases.Lasting.{
  CycleSound, AllCycles, Succeeds, store-Lasting, store-Lasting_new, store-AllCycles,
  commit-AllCycles, CycleSound-later, exists-last,
}

-- What is found under a key has it.
pub found-own :
    (id : String) (c : ReleaseCycle) (cycles : List ReleaseCycle)
    → find_where (has_key cycle_key id) cycles ≡ some c
    → find_where (has_key cycle_key c.id) cycles ≡ some c
found-own id c cycles found =
    let hit = find_where-holds (has_key cycle_key id) cycles c found in
    let same : c.id ≡ id = ground (arith, hit, eq_iff c.id id) in
    ap (λ k. find_where (has_key cycle_key k) cycles) same ∙ found

-- What `destination` answers.
record Receives (t : Tools) (c : TargetChange) (cycle : ReleaseCycle) (cycles : List ReleaseCycle)
    (n : ReleaseCycle) : Type 0 where
  found : find_where (has_key cycle_key c.carried_to) cycles ≡ some n
  other : str_eq n.id cycle.id ≡ false
  same_service : str_eq n.service cycle.service ≡ true
  same_environment : str_eq n.environment cycle.environment ≡ true
  later : ltb (instant t cycle.deploy_by) (instant t n.deploy_by) ≡ true

three_false : (a b c : Bool) → (a || not b || not c) ≡ false → (a ≡ false) × (b ≡ true) × (c ≡ true)
three_false a b c h = ground arith

denied : (b : Bool) → not b ≡ false → b ≡ true
denied b h = ground arith

check_destination-Receives :
    (t : Tools) (c : TargetChange) (cycle n : ReleaseCycle) (cycles : List ReleaseCycle)
    (u : Unit {0})
    → find_where (has_key cycle_key c.carried_to) cycles ≡ some n
    → check_destination t c cycle n ≡ ok u
    → Receives t c cycle cycles n
unfolding check_destination
check_destination-Receives t c cycle n cycles u found h =
    let (fits, h1) = refuse_if-passed _ _ _ u h in
    let (after, h2) = refuse_if-passed _ _ _ u h1 in
    let (other, service, environment) = three_false _ _ _ fits in
    record {
      found = found;
      other = other;
      same_service = service;
      same_environment = environment;
      later = denied _ after;
    }

destination-Receives :
    (t : Tools) (c : TargetChange) (cycle n : ReleaseCycle) (cycles : List ReleaseCycle)
    → destination t c cycle cycles ≡ ok n
    → Receives t c cycle cycles n
unfolding destination
destination-Receives t c cycle n cycles h =
    elim (Option-cases (find_where (has_key cycle_key c.carried_to) cycles)) [
      | inl gone ↦ absurd (ground arith)
      | inr (next, found) ↦ elim (Result-cases (check_destination t c cycle next)) [
        | inr (e, bad) ↦ absurd (ground arith)
        | inl (u, fits) ↦
            let same : next ≡ n = ground arith in
            subst (Receives t c cycle cycles) same
              (check_destination-Receives t c cycle next cycles u found fits)
      ]
    ]

pub change_target-AllCycles :
    (t : Tools) (c : TargetChange) (x : Command) (at : String) (items : List WorkItem)
    (cycle : ReleaseCycle) (cycles cycles' : List ReleaseCycle)
    → change_target t c x at items cycle cycles ≡ ok cycles'
    → find_where (has_key cycle_key cycle.id) cycles ≡ some cycle
    → AllCycles t cycles
    → AllCycles t cycles'
unfolding change_target carry commitment
change_target-AllCycles t c x at items cycle cycles cycles' h own all =
    elim (Result-cases (check_target c items cycle)) [
      | inr (e, bad) ↦ absurd (ground arith)
      | inl (u, fine) ↦ elim (Bool-cases (str_eq c.status "carried")) [
        | inr stays ↦
            let same : store cycle_key (commit c.work_id c.status c.carried_to x at cycle) cycles
                ≡ cycles' =
              ground arith in
            subst (AllCycles t) same (
              commit-AllCycles t c.work_id c.status c.carried_to x at cycle cycles own (inl stays)
                all)
        | inl goes ↦ elim (Result-cases (destination t c cycle cycles)) [
          | inr (e, bad) ↦ absurd (ground arith)
          | inl (next, good) ↦
              let r = destination-Receives t c cycle next cycles good in
              let next' : ReleaseCycle = commit c.work_id "included" "" x at next in
              let rest : List ReleaseCycle = store cycle_key next' cycles in
              let new : ReleaseCycle = commit c.work_id c.status c.carried_to x at cycle in
              let same : store cycle_key new rest ≡ cycles' = ground arith in
              let rest_all =
                commit-AllCycles t c.work_id "included" "" x at next cycles
                  (found-own c.carried_to next cycles r.found) (inl refl) all in
              let named : next.id ≡ c.carried_to = ground (
                arith,
                eq_iff next.id c.carried_to,
                find_where-holds (has_key cycle_key c.carried_to) cycles next r.found,
              ) in
              let apart : str_eq cycle.id c.carried_to ≡ false =
                ground
                  (arith, named, r.other, eq_iff next.id cycle.id, eq_iff cycle.id c.carried_to) in
              let there : find_where (has_key cycle_key c.carried_to) rest ≡ some next' =
                subst (λ k. find_where (has_key cycle_key k) rest ≡ some next') named
                  (store-own cycle_key next' cycles) in
              let still = store-other cycle_key next' cycle.id cycles r.other ∙ own in
              subst (AllCycles t) same (
                commit-AllCycles t c.work_id c.status c.carried_to x at cycle rest still
                  (inr (
                    next',
                    store-other cycle_key new c.carried_to rest apart ∙ there,
                    record {
                      same_service = r.same_service;
                      same_environment = r.same_environment;
                      later = r.later;
                      takes = exists-last c.work_id next.commitments _ (text_same c.work_id);
                    },
                  ))
                  rest_all)
        ]
      ]
    ]

deployed-Succeeds :
    (d : Deployment) (x : Command) (at : String) (c : ReleaseCycle) → Succeeds c (deployed d x at c)
deployed-Succeeds d x at c = record {
  service = refl;
  environment = refl;
  deploy_by = refl;
  commitments = λ id h. h;
}

pub deploy-AllCycles :
    (t : Tools) (os : List Observation) (d : Deployment) (x : Command) (at : String)
    (items : List WorkItem) (c c' : ReleaseCycle) (cycles : List ReleaseCycle)
    → deploy t os d x at items c ≡ ok c'
    → find_where (has_key cycle_key c.id) cycles ≡ some c
    → AllCycles t cycles
    → AllCycles t (store cycle_key c' cycles)
unfolding deploy AllCycles
deploy-AllCycles t os d x at items c c' cycles h own all =
    elim (Result-cases (check_deploy t d items c)) [
      | inr (e, bad) ↦ absurd (ground arith)
      | inl (u, fine) ↦
          elim (Result-cases
            (validate_evidence t os d.evidence (not (str_eq d.status "unknown")))) [
              | inr (e, bad) ↦ absurd (ground arith)
              | inl (v, valid) ↦
                  let new : ReleaseCycle = deployed d x at c in
                  let same : new ≡ c' = ground arith in
                  let old =
                    find_where-All (CycleSound t cycles) (has_key cycle_key c.id) cycles c own
                      all in
                  let s = deployed-Succeeds d x at c in
                  let later =
                    CycleSound-later t cycles (store cycle_key new cycles) c
                      (store-Lasting c new cycles own s) old in
                  subst (λ k. AllCycles t (store cycle_key k cycles)) same
                    (store-AllCycles t c new cycles own s
                      (record { in_time = later.in_time; carried = later.carried }) all)
            ]
    ]

check_release-new :
    (t : Tools) (id : String) (c : ReleaseCreate) (cycles : List ReleaseCycle) (u : Unit {0})
    → check_release t id c cycles ≡ ok u
    → (ltb (instant t c.deploy_by) (instant t c.ready_by) ≡ false)
      × (exists (has_key cycle_key id) cycles ≡ false)
unfolding check_release
check_release-new t id c cycles u h =
    let (named, h1) = refuse_if-passed _ _ _ u h in
    let (in_time, h2) = refuse_if-passed _ _ _ u h1 in (in_time, refuse_if-last _ _ u h2)

pub create_release-AllCycles :
    (t : Tools) (id : String) (c : ReleaseCreate) (cycles cycles' : List ReleaseCycle)
    → create_release t id c cycles ≡ ok cycles'
    → AllCycles t cycles
    → AllCycles t cycles'
unfolding create_release AllCycles
create_release-AllCycles t id c cycles cycles' h all =
    elim (Result-cases (check_release t id c cycles)) [
      | inr (e, bad) ↦ absurd (ground arith)
      | inl (u, fine) ↦
          let (in_time, new) = check_release-new t id c cycles u fine in
          let same : store cycle_key (new_cycle id c) cycles ≡ cycles' = ground arith in
          let lasting =
            store-Lasting_new (new_cycle id c) cycles
              (exists-find_where (has_key cycle_key id) cycles new) in
          subst (AllCycles t) same (
            store-All (CycleSound t (store cycle_key (new_cycle id c) cycles)) cycle_key
              (new_cycle id c) cycles (record { in_time = in_time; carried = tt })
              (All-map (CycleSound t cycles) _
                (λ k s.
                  CycleSound-later t cycles (store cycle_key (new_cycle id c) cycles) k lasting s)
                cycles all))
    ]
