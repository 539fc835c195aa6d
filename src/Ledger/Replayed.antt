-- ===== src/Ledger/Replayed.antt =====
-- The replay of a history that has one more event.

use agent_chun_su.Base.{
  ◌≡◌, refl, ℕ, true, false, List, [], ◌∷◌, ◌++◌, String, none, arith, ◌+◌, ◌==◌, ◌≤◌, str_eq,
  subst, inl, inr, &&-eq-true, ==_iff, Bool-cases,
}
use agent_chun_su.Table.{exists, find_where, All}
use agent_chun_su.Store.Model.{Result, ok}
use agent_chun_su.Store.Txn.{Result-cases}
use agent_chun_su.Ledger.Records.{Outside}
use agent_chun_su.Ledger.{
  Scope, Command, Event, HistoryEntry, Limits, Codec, Held, has_operation, placed, follows,
  validate_command, ref_of, replay_one, replay,
}

-- The operations that the loop has seen at its end.
unfoldable pub seen_after : List String → List HistoryEntry → List String
seen_after seen [] = seen
seen_after seen (x ∷ xs) = seen_after (x.event.command.operation_id ∷ seen) xs

pub seen_after-exists :
    (id : String) (seen : List String) (xs : List HistoryEntry)
    → exists (λ k. str_eq k id) seen ≡ false
    → find_where (has_operation id) xs ≡ none
    → exists (λ k. str_eq k id) (seen_after seen xs) ≡ false
unfolding seen_after exists find_where
seen_after-exists id seen [] h k = h
seen_after-exists id seen (x ∷ xs) h k =
    seen_after-exists id (x.event.command.operation_id ∷ seen) xs (ground arith) (ground arith)

module _ {S : Type 0} (apply : ℕ → Command → String → S → Result S) (o : Outside) (c : Codec)
    (lim : Limits) (scope : Scope) where
  pub replay-append :
      (seen : List String) (h h' h'' : Held S) (xs : List HistoryEntry) (n : HistoryEntry)
      → replay apply o c lim scope seen h xs ≡ ok h'
      → replay_one apply o c lim scope (seen_after seen xs) h' n ≡ ok h''
      → replay apply o c lim scope seen h (xs ++ (n ∷ [])) ≡ ok h''
  unfolding replay seen_after
  replay-append seen h h' h'' [] n done one =
      let same : h ≡ h' = ground arith in rw (same, one) refl
  replay-append seen h h' h'' (x ∷ xs) n done one =
      elim (Result-cases (replay_one apply o c lim scope seen h x)) [
        | inr (e, bad) ↦ absurd (ground arith)
        | inl (next, good) ↦ rw good (
            replay-append (x.event.command.operation_id ∷ seen) next h' h'' xs n (ground arith) one)
      ]

  follows-revision :
      (seen : List String) (h : Held S) (e : Event)
      → follows o c scope seen h e ≡ true
      → e.revision ≡ h.revision + 1
  unfolding follows
  follows-revision seen h e good =
      (==_iff e.revision (h.revision + 1)).0
        (&&-eq-true (e.revision == h.revision + 1) (placed o c scope seen h e) good).0

  replay_one-follows :
      (seen : List String) (h h' : Held S) (x : HistoryEntry)
      → replay_one apply o c lim scope seen h x ≡ ok h'
      → (follows o c scope seen h x.event ≡ true) × (h'.revision ≡ x.event.revision)
  unfolding replay_one
  replay_one-follows seen h h' x good = elim (Bool-cases (follows o c scope seen h x.event)) [
    | inr bad ↦ absurd (ground arith)
    | inl fits ↦ elim (Result-cases (validate_command c lim x.event.command)) [
      | inr (e, bad) ↦ absurd (ground arith)
      | inl (u, valid) ↦
          elim (Result-cases (apply h.revision x.event.command x.event.at h.contents)) [
            | inr (e, bad) ↦ absurd (ground arith)
            | inl (contents, done) ↦
                let same : record {
                  revision = x.event.revision;
                  head = ref_of x.row;
                  contents = contents;
                }
                    ≡ h' =
                  ground arith in
                (fits, subst (λ (k : Held S). k.revision ≡ x.event.revision) same refl)
          ]
    ]
  ]

  -- All events of a history that replays have revisions up to that of the state.
  pub replay-bounded :
      (seen : List String) (h h' : Held S) (xs : List HistoryEntry)
      → replay apply o c lim scope seen h xs ≡ ok h'
      → (h.revision ≤ h'.revision) × All (λ (x : HistoryEntry). x.event.revision ≤ h'.revision) xs
  unfolding replay
  replay-bounded seen h h' [] done =
      let same : h ≡ h' = ground arith in
      (subst (λ (k : Held S). h.revision ≤ k.revision) same (omega arith), tt)
  replay-bounded seen h h' (x ∷ xs) done =
      elim (Result-cases (replay_one apply o c lim scope seen h x)) [
        | inr (e, bad) ↦ absurd (ground arith)
        | inl (next, good) ↦
            let (fits, its) = replay_one-follows seen h next x good in
            let follow = follows-revision seen h x.event fits in
            let (later, rest) =
              replay-bounded (x.event.command.operation_id ∷ seen) next h' xs (ground arith) in
            (omega arith, (omega arith, rest))
      ]

  -- What holds of the contents at first, and of what each command makes of them, holds at the end.
  module _ {κ} (P : S → Type κ)
      (step : (revision : ℕ) (x : Command) (at : String) (s s' : S)
        → apply revision x at s ≡ ok s'
        → P s
        → P s') where
    replay_one-keeps :
        (seen : List String) (h h' : Held S) (x : HistoryEntry)
        → replay_one apply o c lim scope seen h x ≡ ok h'
        → P h.contents
        → P h'.contents
    unfolding replay_one
    replay_one-keeps seen h h' x good p = elim (Bool-cases (follows o c scope seen h x.event)) [
      | inr bad ↦ absurd (ground arith)
      | inl fits ↦ elim (Result-cases (validate_command c lim x.event.command)) [
        | inr (e, bad) ↦ absurd (ground arith)
        | inl (u, valid) ↦
            elim (Result-cases (apply h.revision x.event.command x.event.at h.contents)) [
              | inr (e, bad) ↦ absurd (ground arith)
              | inl (contents, done) ↦
                  let same : record {
                    revision = x.event.revision;
                    head = ref_of x.row;
                    contents = contents;
                  }
                      ≡ h' =
                    ground arith in
                  subst (λ (k : Held S). P k.contents) same
                    (step h.revision x.event.command x.event.at h.contents contents done p)
            ]
      ]
    ]

    pub replay-keeps :
        (seen : List String) (h h' : Held S) (xs : List HistoryEntry)
        → replay apply o c lim scope seen h xs ≡ ok h'
        → P h.contents
        → P h'.contents
    unfolding replay
    replay-keeps seen h h' [] done p =
        let same : h ≡ h' = ground arith in subst (λ (k : Held S). P k.contents) same p
    replay-keeps seen h h' (x ∷ xs) done p =
        elim (Result-cases (replay_one apply o c lim scope seen h x)) [
          | inr (e, bad) ↦ absurd (ground arith)
          | inl (next, good) ↦
              replay-keeps (x.event.command.operation_id ∷ seen) next h' xs (ground arith)
                (replay_one-keeps seen h next x good p)
        ]
