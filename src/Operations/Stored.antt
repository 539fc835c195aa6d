-- ===== src/Operations/Stored.antt =====
-- Rows of a map that are written and found again.

use agent_chun_su.Base.{
  ◌≡◌, refl, inl, inr, true, false, List, [], ◌∷◌, String, some, arith, str_eq, eq_iff,
  if◌then◌else◌, Bool-cases,
}
use agent_chun_su.Table.{All, exists, find_where, update_where}
use agent_chun_su.Table.Laws.{
  All-append, All-update_where, find_where-append, find_where-append_none, exists-find_where,
}
use agent_chun_su.Operations.{has_key, store}

pub store-All {ℓ κ} :
    {A : Type ℓ} (P : A → Type κ) (key : A → String) (a : A) (rows : List A)
    → P a
    → All P rows
    → All P (store key a rows)
unfolding store
store-All P key a rows h all = elim (Bool-cases (exists (has_key key (key a)) rows)) [
  | inl there ↦
      rw (there, store)
        (All-update_where P P (has_key key (key a)) (λ r. a) (λ r k. kept r k) rows all)
  | inr new ↦ rw (new, store) (All-append P rows (a ∷ []) all (h, tt))
]
  where
    kept : (r : _) → P r → P (if has_key key (key a) r then a else r)
    kept r k = elim (Bool-cases (has_key key (key a) r)) [ inl e ↦ rw e h | inr e ↦ rw e k ]

pub text_same : (s : String) → str_eq s s ≡ true
text_same s = ground (arith, eq_iff s s)

module _ {ℓ} {A : Type ℓ} (key : A → String) (a : A) where
  update_where-own :
      (rows : List A)
      → exists (has_key key (key a)) rows ≡ true
      → find_where (has_key key (key a)) (update_where (has_key key (key a)) (λ r. a) rows) ≡ some a
  unfolding update_where find_where exists
  update_where-own [] there = absurd (ground arith)
  update_where-own (x ∷ xs) there = elim (Bool-cases (has_key key (key a) x)) [
    | inl hit ↦ rw (hit, update_where, find_where, text_same (key a)) refl
    | inr miss ↦ ground (arith, miss, update_where-own xs (ground arith))
  ]

  other_key :
      (id : String) (x : A)
      → str_eq (key a) id ≡ false
      → has_key key (key a) x ≡ true
      → has_key key id x ≡ false
  other_key id x other hit =
      ground (arith, eq_iff (key x) (key a), eq_iff (key x) id, eq_iff (key a) id)

  update_where-other :
      (id : String)
      → str_eq (key a) id ≡ false
      → (rows : List A)
      → find_where (has_key key id) (update_where (has_key key (key a)) (λ r. a) rows)
        ≡ find_where (has_key key id) rows
  unfolding update_where find_where
  update_where-other id other [] = refl
  update_where-other id other (x ∷ xs) = elim (Bool-cases (has_key key (key a) x)) [
    | inl hit ↦
        rw (hit, update_where, find_where, other, other_key id x other hit)
          (update_where-other id other xs)
    | inr miss ↦ ground (arith, miss, update_where-other id other xs)
  ]

  pub store-own : (rows : List A) → find_where (has_key key (key a)) (store key a rows) ≡ some a
  unfolding store
  store-own rows = elim (Bool-cases (exists (has_key key (key a)) rows)) [
    | inl there ↦ rw (there, store) (update_where-own rows there)
    | inr new ↦
        rw (new, store)
          (find_where-append_none (has_key key (key a)) rows a
            (exists-find_where (has_key key (key a)) rows new) (text_same (key a)))
  ]

  pub store-other :
      (id : String) (rows : List A)
      → str_eq (key a) id ≡ false
      → find_where (has_key key id) (store key a rows) ≡ find_where (has_key key id) rows
  unfolding store
  store-other id rows other = elim (Bool-cases (exists (has_key key (key a)) rows)) [
    | inl there ↦ rw (there, store) (update_where-other id other rows)
    | inr new ↦ rw (new, store) (ground (arith, other, find_where-append (has_key key id) rows a))
  ]
