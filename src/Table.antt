-- ===== src/Table.antt =====
-- The tables of internal/store as lists of rows, and the SQL statements that the package runs on
-- them: SELECT by a key and by a condition, count(*), EXISTS, UPDATE ... WHERE with the number of
-- affected rows, and INSERT under a UNIQUE constraint.
pub mod Apart
pub mod Laws
pub mod Slices
use agent_chun_su.Base.{
  ℕ, zero, suc, ◌+◌, Bool, true, false, ◌&&◌, ◌||◌, List, [], ◌∷◌, ◌++◌, ◌≡◌, Option, none, some,
  ◌==◌, not, if◌then◌else◌,
}

module _ {ℓ} {A : Type ℓ} where
  -- SELECT ... WHERE key=?: the row, if there is one.
  unfoldable pub find_by : (A → ℕ) → ℕ → List A → Option A
  find_by key k [] = none
  find_by key k (x ∷ xs) = if key x == k then some x else find_by key k xs

  -- SELECT ... WHERE p, in the order of the table.
  unfoldable pub select : (A → Bool) → List A → List A
  select p [] = []
  select p (x ∷ xs) = let rest = select p xs in if p x then x ∷ rest else rest

  -- The first row with p.
  unfoldable pub find_where : (A → Bool) → List A → Option A
  find_where p [] = none
  find_where p (x ∷ xs) = if p x then some x else find_where p xs

  -- SELECT count(*) ... WHERE p; the rows that an UPDATE ... WHERE p affects.
  unfoldable pub count_where : (A → Bool) → List A → ℕ
  count_where p [] = 0
  count_where p (x ∷ xs) = (if p x then 1 else 0) + count_where p xs

  -- EXISTS(SELECT 1 ... WHERE p).
  unfoldable pub exists : (A → Bool) → List A → Bool
  exists p [] = false
  exists p (x ∷ xs) = p x || exists p xs

  abbrev pub when : (A → Bool) → (A → A) → A → A
  when p f x = if p x then f x else x

  -- UPDATE ... SET f WHERE p.
  unfoldable pub update_where : (A → Bool) → (A → A) → List A → List A
  update_where p f [] = []
  update_where p f (x ∷ xs) = when p f x ∷ update_where p f xs

  -- The table has all its rows with p.
  abbrev pub All {κ} : (A → Type κ) → List A → Type κ
  All P [] = Unit
  All P (x ∷ xs) = P x × All P xs

  -- Rows that are out of line with one another are not in one table: UNIQUE constraints and keys.
  abbrev pub Apart {κ} : (A → A → Type κ) → List A → Type κ
  Apart R [] = Unit
  Apart R (x ∷ xs) = All (R x) xs × Apart R xs

-- The primary key finds each row: no two rows share a key.
abbrev pub Keyed {ℓ} : {A : Type ℓ} → (A → ℕ) → List A → Type ℓ
Keyed key xs = All (λ x. find_by key (key x) xs ≡ some x) xs

abbrev pub length {ℓ} : {A : Type ℓ} → List A → ℕ
length [] = 0
length (x ∷ xs) = suc (length xs)

-- xs[:n] and xs[n:], up to the end.
unfoldable pub take {ℓ} : {A : Type ℓ} → ℕ → List A → List A
take zero xs = []
take (suc n) [] = []
take (suc n) (x ∷ xs) = x ∷ take n xs

unfoldable pub drop {ℓ} : {A : Type ℓ} → ℕ → List A → List A
drop zero xs = xs
drop (suc n) [] = []
drop (suc n) (x ∷ xs) = drop n xs
