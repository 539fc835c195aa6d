-- ===== src/Table/Apart.antt =====
-- Rows that are apart, and lists that are in order: what an INSERT keeps of both.
use agent_chun_su.Base.{
  ℕ, ◌+◌, ◌≡◌, ◌≢◌, refl, ap, Bool, false, List, [], ◌∷◌, ◌++◌, map, some, arith, ◌==◌, Bool-cases,
  inl, inr, subst,
}
use agent_chun_su.Table.{find_by, exists, when, update_where, All, Apart, length}
use agent_chun_su.Table.Laws.{All-append, All-update_where}

module _ {ℓ} {A : Type ℓ} where
  pub length-append : (xs ys : List A) → length (xs ++ ys) ≡ length xs + length ys
  length-append [] ys = omega arith
  length-append (x ∷ xs) ys = ground (arith, length-append xs ys)

  pub All-found {κ} :
      (key : A → ℕ) (k : ℕ) (P : A → Type κ) (xs : List A) (a : A)
      → find_by key k xs ≡ some a
      → All P xs
      → P a
  unfolding find_by
  All-found key k P [] a h all = absurd (ground arith)
  All-found key k P (x ∷ xs) a h all = elim (Bool-cases (key x == k)) [
    | inl hit ↦ subst P (ground arith) all.0
    | inr miss ↦ All-found key k P xs a (ground arith) all.1
  ]

  -- A row after all those that it is apart from.
  pub Apart-append {κ} :
      (R : A → A → Type κ) (xs : List A) (a : A)
      → Apart R xs
      → All (λ x. R x a) xs
      → Apart R (xs ++ (a ∷ []))
  Apart-append R [] a h all = (tt, tt)
  Apart-append R (x ∷ xs) a h all =
      (All-append (R x) xs (a ∷ []) h.0 (all.0, tt), Apart-append R xs a h.1 all.1)

  -- An update that keeps rows apart.
  pub Apart-update_where {κ} :
      (R : A → A → Type κ) (p : A → Bool) (f : A → A)
      → ((a b : A) → R a b → R (when p f a) (when p f b))
      → (xs : List A) → Apart R xs
      → Apart R (update_where p f xs)
  unfolding update_where
  Apart-update_where R p f keeps [] h = tt
  Apart-update_where R p f keeps (x ∷ xs) h = (
    All-update_where (R x) (R (when p f x)) p f (keeps x) xs h.0,
    Apart-update_where R p f keeps xs h.1,
  )

  pub map-append {κ} :
      {B : Type κ} (f : A → B) (xs ys : List A) → map f (xs ++ ys) ≡ map f xs ++ map f ys
  map-append f [] ys = refl
  map-append f (x ∷ xs) ys = ap (λ zs. f x ∷ zs) (map-append f xs ys)

pub absent-All : (k : ℕ) (xs : List ℕ) → exists (λ j. j == k) xs ≡ false → All (λ j. j ≢ k) xs
unfolding exists
absent-All k [] h = tt
absent-All k (x ∷ xs) h = (ground arith, absent-All k xs (ground arith))
