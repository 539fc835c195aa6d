-- ===== src/Ledger/Appended.antt =====
-- What a further record does to the reading of a ledger's records.

use agent_chun_su.Base.{
  ◌≡◌, ◌∙◌, refl, ap, subst, inl, inr, ℕ, Bool, true, false, List, [], ◌∷◌, ◌++◌, String, arith,
  ◌+◌, ◌-◌, ◌==◌, ltb, Bool-cases, Option-cases,
}
use agent_chun_su.Table.{select, find_where, All}
use agent_chun_su.Table.Laws.{find_where-append}
use agent_chun_su.Store.Model.{ok}
use agent_chun_su.Store.Txn.{Result-cases}
use agent_chun_su.Store.Queries.{insert_sorted, sort_by}
use agent_chun_su.Ledger.Records.{
  Record, RecordStore, Outside, at_record_path, with_file, read_record,
}
use agent_chun_su.Ledger.{HistoryEntry, Limits, Codec, checked_total, read_entry, read_entries}
use agent_chun_su.Ledger.Execution.{existing_bytes}

module _ {ℓ} {A : Type ℓ} where
  pub select-append :
      (p : A → Bool) (xs : List A) (a : A)
      → p a ≡ true
      → select p (xs ++ (a ∷ [])) ≡ select p xs ++ (a ∷ [])
  unfolding select
  select-append p [] a h = ground arith
  select-append p (x ∷ xs) a h = ground (arith, select-append p xs a h)

  module _ (before : A → A → Bool) where
    insert_sorted-append :
        (x : A) (xs : List A) (a : A)
        → before x a ≡ true
        → insert_sorted before x (xs ++ (a ∷ [])) ≡ insert_sorted before x xs ++ (a ∷ [])
    unfolding insert_sorted
    insert_sorted-append x [] a h = ground arith
    insert_sorted-append x (y ∷ ys) a h = ground (arith, insert_sorted-append x ys a h)

    -- A row that comes after all others.
    pub sort_by-append :
        (xs : List A) (a : A)
        → All (λ x. before x a ≡ true) xs
        → sort_by before (xs ++ (a ∷ [])) ≡ sort_by before xs ++ (a ∷ [])
    unfolding sort_by insert_sorted
    sort_by-append [] a h = refl
    sort_by-append (x ∷ xs) a h =
        ap (insert_sorted before x) (sort_by-append xs a h.1)
        ∙ insert_sorted-append x (sort_by before xs) a h.0

    insert_sorted-All {κ} :
        (P : A → Type κ) (x : A) (xs : List A) → All P (insert_sorted before x xs) → P x × All P xs
    unfolding insert_sorted
    insert_sorted-All P x [] h = h
    insert_sorted-All P x (y ∷ ys) h = elim (Bool-cases (before x y)) [
      | inl e ↦
          let same : insert_sorted before x (y ∷ ys) ≡ x ∷ y ∷ ys = ground arith in
          subst (All P) same h
      | inr e ↦
          let same : insert_sorted before x (y ∷ ys) ≡ y ∷ insert_sorted before x ys =
            ground arith in
          let k = subst (All P) same h in
          let (one, rest) = insert_sorted-All P x ys k.1 in (one, (k.0, rest))
    ]

    pub sort_by-All {κ} : (P : A → Type κ) (xs : List A) → All P (sort_by before xs) → All P xs
    unfolding sort_by
    sort_by-All P [] h = tt
    sort_by-All P (x ∷ xs) h =
        let (one, rest) = insert_sorted-All P x (sort_by before xs) h in
        (one, sort_by-All P xs rest)

insert_sorted-bytes :
    (before : HistoryEntry → HistoryEntry → Bool) (x : HistoryEntry) (xs : List HistoryEntry)
    → existing_bytes (insert_sorted before x xs) ≡ x.row.bytes + existing_bytes xs
unfolding insert_sorted existing_bytes
insert_sorted-bytes before x [] = refl
insert_sorted-bytes before x (y ∷ ys) = ground (arith, insert_sorted-bytes before x ys)

sort_by-bytes :
    (before : HistoryEntry → HistoryEntry → Bool) (xs : List HistoryEntry)
    → existing_bytes (sort_by before xs) ≡ existing_bytes xs
unfolding sort_by existing_bytes
sort_by-bytes before [] = refl
sort_by-bytes before (x ∷ xs) =
    omega (arith, insert_sorted-bytes before x (sort_by before xs), sort_by-bytes before xs)

-- A file that is there is read as before, whatever is added.
read_record-with_file :
    (o : Outside) (limit : ℕ) (r new : Record) (content s : String) (rows : List Record)
    (rs : RecordStore)
    → read_record o limit r rs ≡ ok s
    → read_record o limit r (record (with_file new content rs) { rows = rows }) ≡ ok s
unfolding read_record
read_record-with_file o limit r new content s rows rs h =
    elim (Option-cases (find_where (at_record_path r.path) rs.files)) [
      | inl gone ↦ absurd (ground arith)
      | inr (f, there) ↦ ground (
        arith,
        find_where-append (at_record_path r.path) rs.files
            (record { path = new.path; content = content }),
      )
    ]

module _ (o : Outside) (c : Codec) (lim : Limits) (rs : RecordStore) where
  read_entry-with_file :
      (r new : Record) (content : String) (rows : List Record) (e : HistoryEntry)
      → read_entry o c lim rs r ≡ ok e
      → read_entry o c lim (record (with_file new content rs) { rows = rows }) r ≡ ok e
  unfolding read_entry
  read_entry-with_file r new content rows e h =
      elim (Result-cases (read_record o lim.max_artifact_bytes r rs)) [
        | inr (x, bad) ↦ absurd (ground arith)
        | inl (s, good) ↦ ground (
          arith,
          good,
          read_record-with_file o lim.max_artifact_bytes r new content s rows rs good,
        )
      ]

  -- The entries of the former records, and that of the new one.
  pub read_entries-append :
      (new : Record) (content : String) (rows : List Record) (e : HistoryEntry)
      → read_entry o c lim (record (with_file new content rs) { rows = rows }) new ≡ ok e
      → (xs : List Record) (es : List HistoryEntry) → read_entries o c lim rs xs ≡ ok es
      → read_entries o c lim (record (with_file new content rs) { rows = rows }) (xs ++ (new ∷ []))
        ≡ ok (es ++ (e ∷ []))
  unfolding read_entries
  read_entries-append new content rows e one [] es h = ground arith
  read_entries-append new content rows e one (x ∷ xs) es h =
      elim (Result-cases (read_entry o c lim rs x)) [
        | inr (y, bad) ↦ absurd (ground arith)
        | inl (d, good) ↦ elim (Result-cases (read_entries o c lim rs xs)) [
          | inr (y, bad) ↦ absurd (ground arith)
          | inl (ds, rest) ↦ ground (
            arith,
            read_entry-with_file x new content rows d good,
            read_entries-append new content rows e one xs ds rest,
          )
        ]
      ]

  read_entry-row :
      (r : Record) (e : HistoryEntry) → read_entry o c lim rs r ≡ ok e → e.row.bytes ≡ r.bytes
  unfolding read_entry
  read_entry-row r e h = elim (Result-cases (read_record o lim.max_artifact_bytes r rs)) [
    | inr (x, bad) ↦ absurd (ground arith)
    | inl (s, good) ↦ elim (Option-cases (c.decode s)) [
      | inl none_ ↦ absurd (ground arith)
      | inr (v, read) ↦
          let same : record { row = r; event = v } ≡ e = ground arith in
          subst (λ (e : HistoryEntry). e.row.bytes ≡ r.bytes) same refl
    ]
  ]

  -- The total that Load checks is that of the entries.
  checked_total-read :
      (most total t : ℕ) (xs : List Record) (es : List HistoryEntry)
      → checked_total most total xs ≡ ok t
      → read_entries o c lim rs xs ≡ ok es
      → t ≡ total + existing_bytes es
  unfolding checked_total read_entries existing_bytes
  checked_total-read most total t [] es h k =
      let same : [] ≡ es = ground arith in
      subst (λ es. t ≡ total + existing_bytes es) same (ground arith)
  checked_total-read most total t (x ∷ xs) es h k = elim (Result-cases (read_entry o c lim rs x)) [
    | inr (y, bad) ↦ absurd (ground arith)
    | inl (d, good) ↦ elim (Result-cases (read_entries o c lim rs xs)) [
      | inr (y, bad) ↦ absurd (ground arith)
      | inl (ds, rest) ↦
          let same : d ∷ ds ≡ es = ground arith in
          subst (λ es. t ≡ total + existing_bytes es) same
            (ground (
              arith,
              read_entry-row x d good,
              checked_total-read most (total + x.bytes) t xs ds (ground arith) rest,
            ))
    ]
  ]

  pub checked_total-sorted :
      (before : HistoryEntry → HistoryEntry → Bool) (most t : ℕ) (xs : List Record)
      (es : List HistoryEntry)
      → checked_total most 0 xs ≡ ok t
      → read_entries o c lim rs xs ≡ ok es
      → t ≡ existing_bytes (sort_by before es)
  checked_total-sorted before most t xs es h k =
      omega (arith, checked_total-read most 0 t xs es h k, sort_by-bytes before es)

pub checked_total-append :
    (most total t : ℕ) (xs : List Record) (r : Record)
    → checked_total most total xs ≡ ok t
    → (r.bytes == 0) ≡ false
    → ltb (most - t) r.bytes ≡ false
    → checked_total most total (xs ++ (r ∷ [])) ≡ ok (t + r.bytes)
unfolding checked_total
checked_total-append most total t [] r h some_ fits = ground arith
checked_total-append most total t (x ∷ xs) r h some_ fits =
    ground (arith, checked_total-append most (total + x.bytes) t xs r)
