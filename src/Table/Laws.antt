-- ===== src/Table/Laws.antt =====
-- What an UPDATE and an INSERT do to a later SELECT, a count and to what holds of all rows.
use mathlib.Core.Option
use agent_chun_su.Base.{
  ◌≢◌, true, ℕ, ◌≡◌, refl, inl, inr, Bool, false, List, [], ◌∷◌, ◌++◌, none, some, arith, ◌⊎◌,
  ℕ_discrete, subst, if◌then◌else◌, Bool-cases, ◌==◌,
}
use agent_chun_su.Table.{
  find_by, find_where, select, count_where, exists, when, update_where, All, Keyed, length,
}

module _ {ℓ} {A : Type ℓ} where
  pub find_by-key :
      (key : A → ℕ) (k : ℕ) (xs : List A) (a : A) → find_by key k xs ≡ some a → key a ≡ k
  unfolding find_by
  find_by-key key k [] a h = cc
  find_by-key key k (x ∷ xs) a h = ground (arith, find_by-key key k xs a)

  -- An update that keeps the key is seen by a lookup of the same key.
  pub find_by-update_where :
      (key : A → ℕ) (p : A → Bool) (f : A → A)
      → ((a : A) → key (f a) ≡ key a)
      → (k : ℕ) (xs : List A)
      → find_by key k (update_where p f xs) ≡ Option.map (when p f) (find_by key k xs)
  unfolding find_by update_where
  find_by-update_where key p f keeps k [] = refl
  find_by-update_where key p f keeps k (x ∷ xs) =
      ground (arith, keeps x, find_by-update_where key p f keeps k xs)

  pub find_by-append :
      (key : A → ℕ) (k : ℕ) (xs ys : List A) (a : A)
      → find_by key k xs ≡ some a
      → find_by key k (xs ++ ys) ≡ some a
  unfolding find_by
  find_by-append key k [] ys a h = cc
  find_by-append key k (x ∷ xs) ys a h = ground (arith, find_by-append key k xs ys a)

  pub find_by-append_none :
      (key : A → ℕ) (k : ℕ) (xs ys : List A)
      → find_by key k xs ≡ none
      → find_by key k (xs ++ ys) ≡ find_by key k ys
  unfolding find_by
  find_by-append_none key k [] ys h = refl
  find_by-append_none key k (x ∷ xs) ys h = ground (arith, find_by-append_none key k xs ys)

  pub All-update_where {κ μ} :
      (P : A → Type κ) (Q : A → Type μ) (p : A → Bool) (f : A → A)
      → ((a : A) → P a → Q (when p f a))
      → (xs : List A) → All P xs
      → All Q (update_where p f xs)
  unfolding update_where
  All-update_where P Q p f step [] h = tt
  All-update_where P Q p f step (x ∷ xs) h = (step x h.0, All-update_where P Q p f step xs h.1)

  pub All-map {κ μ} :
      (P : A → Type κ) (Q : A → Type μ)
      → ((a : A) → P a → Q a)
      → (xs : List A) → All P xs
      → All Q xs
  All-map P Q step [] h = tt
  All-map P Q step (x ∷ xs) h = (step x h.0, All-map P Q step xs h.1)

  pub All-append {κ} : (P : A → Type κ) (xs ys : List A) → All P xs → All P ys → All P (xs ++ ys)
  All-append P [] ys h k = k
  All-append P (x ∷ xs) ys h k = (h.0, All-append P xs ys h.1 k)

  pub All-pure {κ} : (P : A → Type κ) → ((a : A) → P a) → (xs : List A) → All P xs
  All-pure P h [] = tt
  All-pure P h (x ∷ xs) = (h x, All-pure P h xs)

  -- What holds of the rows with a key, of all rows.
  pub All-or {κ} :
      (key : A → ℕ) (k : ℕ) (P : A → Type κ) (xs : List A)
      → All (λ a. key a ≡ k → P a) xs
      → All (λ a. (key a ≢ k) ⊎ P a) xs
  All-or key k P =
      All-map _ _
        (λ a h. elim (ℕ_discrete (key a) k) [ Dec.yes hit ↦ inr (h hit) | Dec.no miss ↦ inl miss ])

  pub count_where-zero {κ} :
      (P : A → Type κ) (p : A → Bool)
      → ((a : A) → p a ≡ false → P a)
      → (xs : List A) → count_where p xs ≡ 0
      → All P xs
  unfolding count_where
  count_where-zero P p step [] h = tt
  count_where-zero P p step (x ∷ xs) h =
      (step x (ground arith), count_where-zero P p step xs (ground arith))

  pub Keyed-update_where :
      (key : A → ℕ) (p : A → Bool) (f : A → A)
      → ((a : A) → key (f a) ≡ key a)
      → (xs : List A) → Keyed key xs
      → Keyed key (update_where p f xs)
  Keyed-update_where key p f keeps xs =
      All-update_where _ _ p f
        (λ a h. rw (same a, find_by-update_where key p f keeps (key a) xs, h) refl) xs
    where
      same : (a : A) → key (when p f a) ≡ key a
      same a = ground (arith, keeps a)

  -- An INSERT that the primary key lets pass.
  pub Keyed-append :
      (key : A → ℕ) (xs : List A) (a : A)
      → find_by key (key a) xs ≡ none
      → Keyed key xs
      → Keyed key (xs ++ (a ∷ []))
  unfolding find_by
  Keyed-append key xs a new h =
      All-append _ xs (a ∷ [])
        (All-map _ _ (λ b e. find_by-append key (key b) xs (a ∷ []) b e) xs h)
        (rw (find_by-append_none key (key a) xs (a ∷ []) new) (ground arith), tt)

  pub find_by-absent :
      (key : A → ℕ) (k : ℕ) (p : A → Bool)
      → ((a : A) → p a ≡ false → key a ≢ k)
      → (xs : List A) → exists p xs ≡ false
      → find_by key k xs ≡ none
  unfolding find_by exists
  find_by-absent key k p other [] h = refl
  find_by-absent key k p other (x ∷ xs) h = ground (arith, other x, find_by-absent key k p other xs)

  pub count_where-none :
      (p : A → Bool) → ((a : A) → p a ≡ false) → (xs : List A) → count_where p xs ≡ 0
  unfolding count_where
  count_where-none p h [] = refl
  count_where-none p h (x ∷ xs) = ground (arith, h x, count_where-none p h xs)

  pub select-update_where :
      (q p : A → Bool) (f : A → A)
      → ((a : A) → q (f a) ≡ q a)
      → ((a : A) → q a ≡ true → p a ≡ false)
      → (xs : List A) → select q (update_where p f xs) ≡ select q xs
  unfolding select update_where
  select-update_where q p f keeps apart [] = refl
  select-update_where q p f keeps apart (x ∷ xs) =
      ground (arith, keeps x, apart x, select-update_where q p f keeps apart xs)

  pub length-select : (p : A → Bool) (xs : List A) → length (select p xs) ≡ count_where p xs
  unfolding select count_where
  length-select p [] = refl
  length-select p (x ∷ xs) = ground (arith, length-select p xs)

  pub find_where-append_none :
      (p : A → Bool) (xs : List A) (a : A)
      → find_where p xs ≡ none
      → p a ≡ true
      → find_where p (xs ++ (a ∷ [])) ≡ some a
  unfolding find_where
  find_where-append_none p [] a h k = ground arith
  find_where-append_none p (x ∷ xs) a h k = ground (arith, find_where-append_none p xs a)

-- Each row of one table against the row in its place in another.
abbrev pub Along {ℓ κ} : {A : Type ℓ} → (A → A → Type κ) → List A → List A → Type κ
Along R [] [] = Unit
Along R [] (y ∷ ys) = Unit → ⊥
Along R (x ∷ xs) [] = Unit → ⊥
Along R (x ∷ xs) (y ∷ ys) = R x y × Along R xs ys

pub exists-update_where {ℓ} :
    {A : Type ℓ} (q p : A → Bool) (f : A → A)
    → ((a : A) → p a ≡ true → q (f a) ≡ true)
    → (xs : List A) → count_where p xs ≡ 1
    → exists q (update_where p f xs) ≡ true
unfolding update_where count_where exists
exists-update_where q p f step [] h = absurd (ground arith)
exists-update_where q p f step (x ∷ xs) h = elim (Bool-cases (p x)) [
  | inl e ↦ ground (arith, step x e)
  | inr e ↦ ground (arith, exists-update_where q p f step xs)
]

pub Along-update_where {ℓ κ} :
    {A : Type ℓ} (R : A → A → Type κ) (p : A → Bool) (f : A → A)
    → ((a : A) → R a (when p f a))
    → (xs : List A) → Along R xs (update_where p f xs)
unfolding update_where
Along-update_where R p f step [] = tt
Along-update_where R p f step (x ∷ xs) = (step x, Along-update_where R p f step xs)

pub Along-refl {ℓ κ} :
    {A : Type ℓ} (R : A → A → Type κ) → ((a : A) → R a a) → (xs : List A) → Along R xs xs
Along-refl R stay [] = tt
Along-refl R stay (x ∷ xs) = (stay x, Along-refl R stay xs)

pub Along-map {ℓ κ μ} :
    {A : Type ℓ} (R : A → A → Type κ) (S : A → A → Type μ)
    → ((a b : A) → R a b → S a b)
    → (xs ys : List A) → Along R xs ys
    → Along S xs ys
Along-map R S step [] [] h = tt
Along-map R S step [] (y ∷ ys) h = λ u. h tt
Along-map R S step (x ∷ xs) [] h = λ u. h tt
Along-map R S step (x ∷ xs) (y ∷ ys) h = (step x y h.0, Along-map R S step xs ys h.1)

-- Of two updates of the same rows, the second may hide the first.
pub update_where-twice {ℓ} :
    {A : Type ℓ} (p : A → Bool) (f g : A → A)
    → ((a : A) → p (g a) ≡ p a)
    → ((a : A) → f (g a) ≡ f a)
    → (xs : List A) → update_where p f (update_where p g xs) ≡ update_where p f xs
unfolding update_where
update_where-twice p f g keeps hides [] = refl
update_where-twice p f g keeps hides (x ∷ xs) =
    ground (arith, keeps x, hides x, update_where-twice p f g keeps hides xs)

pub All-select {ℓ} : {A : Type ℓ} (p : A → Bool) (xs : List A) → All (λ x. p x ≡ true) (select p xs)
unfolding select
All-select p [] = tt
All-select p (x ∷ xs) = elim (Bool-cases (p x)) [
  | inl e ↦ rw (e, select) (e, All-select p xs)
  | inr e ↦ rw (e, select) (All-select p xs)
]

-- An update of the rows with a key makes what it sets hold of them.
pub All-updated {ℓ κ} :
    {A : Type ℓ} (key : A → ℕ) (k : ℕ) (f : A → A) (Q : A → Type κ)
    → ((a : A) → Q (f a))
    → (xs : List A) → All (λ a. (key a ≢ k) ⊎ Q a) (update_where (λ a. key a == k) f xs)
unfolding update_where
All-updated key k f Q sets [] = tt
All-updated key k f Q sets (x ∷ xs) = elim (Bool-cases (key x == k)) [
  | inl e ↦ rw (e, update_where) (inr (sets x), All-updated key k f Q sets xs)
  | inr e ↦ rw (e, update_where) (inl (λ h. ground arith), All-updated key k f Q sets xs)
]

-- A row that a query finds is there.
pub exists-find_by {ℓ} :
    {A : Type ℓ} (key : A → ℕ) (k : ℕ) (p : A → Bool) (xs : List A) (a : A)
    → find_by key k xs ≡ some a
    → p a ≡ true
    → exists p xs ≡ true
unfolding find_by exists
exists-find_by key k p [] a found holds = absurd (ground arith)
exists-find_by key k p (x ∷ xs) a found holds = ground (arith, exists-find_by key k p xs a)

-- What EXISTS denies of a table.
pub exists-All {ℓ} :
    {A : Type ℓ} (p : A → Bool) (xs : List A) → exists p xs ≡ false → All (λ x. p x ≡ false) xs
unfolding exists
exists-All p [] h = tt
exists-All p (x ∷ xs) h = (ground arith, exists-All p xs (ground arith))

pub exists-find_where {ℓ} :
    {A : Type ℓ} (p : A → Bool) (xs : List A) → exists p xs ≡ false → find_where p xs ≡ none
unfolding exists find_where
exists-find_where p [] h = refl
exists-find_where p (x ∷ xs) h = ground (arith, exists-find_where p xs)

pub find_where-update_where {ℓ} :
    {A : Type ℓ} (q p : A → Bool) (f : A → A)
    → ((a : A) → q (f a) ≡ q a)
    → (xs : List A) → find_where q (update_where p f xs) ≡ Option.map (when p f) (find_where q xs)
unfolding find_where update_where
find_where-update_where q p f keeps [] = refl
find_where-update_where q p f keeps (x ∷ xs) =
    ground (arith, keeps x, find_where-update_where q p f keeps xs)

pub find_where-holds {ℓ} :
    {A : Type ℓ} (q : A → Bool) (xs : List A) (a : A) → find_where q xs ≡ some a → q a ≡ true
unfolding find_where
find_where-holds q [] a h = absurd (ground arith)
find_where-holds q (x ∷ xs) a h = elim (Bool-cases (q x)) [
  | inl e ↦ (let same : x ≡ a = ground arith in subst (λ y. q y ≡ true) same e)
  | inr e ↦ find_where-holds q xs a (ground arith)
]

pub find_where-exists {ℓ} :
    {A : Type ℓ} (q : A → Bool) (xs : List A) → find_where q xs ≡ none → exists q xs ≡ false
unfolding find_where exists
find_where-exists q [] h = refl
find_where-exists q (x ∷ xs) h = ground (arith, find_where-exists q xs)

pub find_where-append {ℓ} :
    {A : Type ℓ} (q : A → Bool) (xs : List A) (a : A)
    → find_where q (xs ++ (a ∷ []))
      ≡ (elim (find_where q xs) [ none ↦ (if q a then some a else none) | some x ↦ some x ])
unfolding find_where
find_where-append q [] a = refl
find_where-append q (x ∷ xs) a = ground (arith, find_where-append q xs a)
