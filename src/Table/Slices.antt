-- ===== src/Table/Slices.antt =====
-- Slices of a list.
use agent_chun_su.Base.{ℕ, zero, suc, ◌-◌, ◌≤◌, ◌≡◌, refl, ap, List, [], ◌∷◌, ◌++◌, arith}
use agent_chun_su.Table.{length, take, drop}

pub length-drop {ℓ} : {A : Type ℓ} (n : ℕ) (xs : List A) → length (drop n xs) ≡ length xs - n
unfolding drop
length-drop zero xs = omega arith
length-drop (suc n) [] = omega arith
length-drop (suc n) (x ∷ xs) = ground (arith, length-drop n xs)

pub length-take {ℓ} : {A : Type ℓ} (n : ℕ) (xs : List A) → n ≤ length xs → length (take n xs) ≡ n
unfolding take
length-take zero xs h = omega arith
length-take (suc n) [] h = absurd (omega arith)
length-take (suc n) (x ∷ xs) h = ground (arith, length-take n xs)

pub take-append-drop {ℓ} : {A : Type ℓ} (n : ℕ) (xs : List A) → take n xs ++ drop n xs ≡ xs
unfolding take drop
take-append-drop zero xs = refl
take-append-drop (suc n) [] = refl
take-append-drop (suc n) (x ∷ xs) = ap (λ l. x ∷ l) (take-append-drop n xs)

pub take-all {ℓ} : {A : Type ℓ} (xs : List A) → take (length xs) xs ≡ xs
unfolding take
take-all [] = refl
take-all (x ∷ xs) = ap (λ l. x ∷ l) (take-all xs)

pub drop-all {ℓ} : {A : Type ℓ} (xs : List A) → drop (length xs) xs ≡ []
unfolding drop
drop-all [] = refl
drop-all (x ∷ xs) = drop-all xs
