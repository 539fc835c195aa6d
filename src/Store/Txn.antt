-- ===== src/Store/Txn.antt =====
-- Errors as values, and transactions: `defer tx.Rollback()` with a `tx.Commit()` at the end.
use agent_chun_su.Base.{Bool, true, false, ◌≡◌, ◌⊎◌, inl, inr, refl, Option, none, some, arith}
use agent_chun_su.Store.Model.{Db, Error, Result, ok, err}

-- The code goes on with the value, and returns at the first error.
infixl 5 ◌>>=◌
abbrev pub ◌>>=◌ {ℓ κ} : {X : Type ℓ} {Y : Type κ} → Result X → (X → Result Y) → Result Y
err e >>= next = err e
ok x >>= next = next x

infixl 5 ◌>>◌
abbrev pub ◌>>◌ {ℓ} : {Y : Type ℓ} → Result (Unit {0}) → Result Y → Result Y
check >> next = check >>= λ _. next

-- `if bad { return err }`.
abbrev pub refuse_if : Bool → Error → Result (Unit {0})
refuse_if true e = err e
refuse_if false e = ok tt

-- QueryRow(...).Scan: sql.ErrNoRows where there is no row.
abbrev pub or_fail {ℓ} : {A : Type ℓ} → Option A → Error → Result A
or_fail none e = err e
or_fail (some a) e = ok a

-- A transaction reads the database and hands on the one to commit; on an error it is rolled back.
abbrev pub Txn {ℓ} : Type ℓ → Type ℓ
Txn A = Db → Result (Db × A)

abbrev pub after {ℓ} : {A : Type ℓ} → Db → Result (Db × A) → Db
after db (ok (db', a)) = db'
after db (err e) = db

abbrev outcome {ℓ} : {A : Type ℓ} → Result (Db × A) → Result A
outcome (ok (db', a)) = ok a
outcome (err e) = err e

-- The database and the result that the caller sees.
abbrev pub exec {ℓ} : {A : Type ℓ} → Db → Result (Db × A) → Db × Result A
exec db r = (after db r, outcome r)

-- A transaction that commits and then may return an error of its own.
abbrev pub exec_result {ℓ} : {A : Type ℓ} → Db → Result (Db × Result A) → Db × Result A
exec_result db r = (after db r, outcome r >>= λ a. a)

pub Result-cases {ℓ} :
    {A : Type ℓ} (r : Result A) → ((a : A) × (r ≡ ok a)) ⊎ ((e : Error) × (r ≡ err e))
Result-cases (ok a) = inl (a, refl)
Result-cases (err e) = inr (e, refl)

-- What a chain of checks that passes has passed.
pub refuse_if-passed {ℓ} :
    {Y : Type ℓ} (bad : Bool) (e : Error) (rest : Result Y) (y : Y)
    → (refuse_if bad e >> rest) ≡ ok y
    → (bad ≡ false) × (rest ≡ ok y)
refuse_if-passed false e rest y h = (refl, h)
refuse_if-passed true e rest y h = absurd (ground arith)

pub refuse_if-last : (bad : Bool) (e : Error) (u : Unit {0}) → refuse_if bad e ≡ ok u → bad ≡ false
refuse_if-last false e u h = refl
refuse_if-last true e u h = absurd (ground arith)
