-- ===== src/Errors/Counts.antt =====
-- What a flush does to the counts of a code.
use agent_chun_su.Base.{
  Bool, true, false, Bool-cases, ℕ, ◌≤◌, ◌≡◌, ◌⊎◌, refl, sym, ◌∙◌, ap, inl, inr, String, Option,
  none, some, arith,
}
use agent_chun_su.Store.Model.{Result, ok, err}
use agent_chun_su.Store.Txn.{Result-cases}
use agent_chun_su.Errors.Reports.{
  Report, Recorder, ErrorEnv, max_uint64, add, checked_report, as_read,
}
use agent_chun_su.Errors.{count_of, to_write, persisted, flush_code, flush, flushed}

-- The occurrences of a code that the file and the memory have.
abbrev pub tally : Recorder → String → ℕ
tally r code = add (count_of (r.disk code)) (count_of (r.pending code))

-- Both counts are numbers of a uint64.
abbrev pub InRange : Recorder → String → Type 0
InRange r code = (count_of (r.disk code) ≤ max_uint64) × (count_of (r.pending code) ≤ max_uint64)

pub checked_report-as_read :
    (env : ErrorEnv) (code : String) (p q : Report)
    → checked_report env code p ≡ ok q
    → q ≡ as_read env code p
unfolding checked_report
checked_report-as_read env code p q h = ground arith

pub add-InRange : (a b : ℕ) → a ≤ max_uint64 → add a b ≤ max_uint64
unfolding add
add-InRange a b h = ground arith

add-zero : (a : ℕ) → a ≤ max_uint64 → add a 0 ≡ a
unfolding add
add-zero a h = ground arith

zero-add : (a : ℕ) → a ≤ max_uint64 → add 0 a ≡ a
unfolding add
zero-add a h = ground arith

pub add-suc : (a b : ℕ) → a ≤ max_uint64 → b ≤ max_uint64 → add a (add b 1) ≡ add (add a b) 1
unfolding add
add-suc a b h k = ground arith

abbrev result_count : Result Report → ℕ
result_count (ok p) = p.count
result_count (err e) = 0

pub to_write-count :
    (env : ErrorEnv) (code : String) (p q : Report) (old : Option Report)
    → p.count ≤ max_uint64
    → to_write env code p old ≡ ok q
    → q.count ≡ add (count_of old) p.count
unfolding to_write
to_write-count env code p q none h e = ground (arith, zero-add p.count h)
to_write-count env code p q (some old) h e = elim (Result-cases (checked_report env code old)) [
  | inr (x, f) ↦ absurd (ground arith)
  | inl (o, f) ↦
      sym (ap result_count (rw f at e))
      ∙ ap (λ n. add n p.count) (ap (λ r. r.count) (checked_report-as_read env code old o f))
]

persisted-count :
    (env : ErrorEnv) (code : String) (p q : Report) (old : Option Report)
    → p.count ≤ max_uint64
    → persisted env code p old ≡ ok q
    → q.count ≡ add (count_of old) p.count
unfolding persisted
persisted-count env code p q old h e = elim (Result-cases (to_write env code p old)) [
  | inr (x, f) ↦ absurd (ground arith)
  | inl (o, f) ↦ ground (arith, to_write-count env code p o old h f)
]

-- The second number is the first one, or, where a write failed that had replaced the file, no less.
abbrev pub Agrees : Bool → ℕ → ℕ → Type 0
Agrees true n m = m ≡ n
Agrees false n m = n ≤ m

pub Agrees-same : (synced : Bool) (n m : ℕ) → m ≡ n → Agrees synced n m
Agrees-same true n m h = h
Agrees-same false n m h = omega arith

pub Agrees-least : (synced : Bool) (n m : ℕ) → Agrees synced n m → n ≤ m
Agrees-least true n m h = omega arith
Agrees-least false n m h = h

add-least : (a b : ℕ) → a ≤ max_uint64 → a ≤ add a b
unfolding add
add-least a b h = ground arith

flush_code-tally :
    (env : ErrorEnv) (code : String) (p old : Option Report)
    → count_of old ≤ max_uint64
    → count_of p ≤ max_uint64
    → Agrees
        (env.synced code)
        (add (count_of old) (count_of p))
        (add (count_of (flush_code env code p old).1) (count_of (flush_code env code p old).0))
unfolding flush_code
flush_code-tally env code none old h k = Agrees-same (env.synced code) _ _ refl
flush_code-tally env code (some p) old h k = elim (Result-cases (persisted env code p old)) [
  | inr (x, e) ↦ rw (e, flush_code) (Agrees-same (env.synced code) _ _ refl)
  | inl (q, e) ↦ elim (Bool-cases (env.synced code)) [
    | inl fine ↦
        rw (e, fine, flush_code, persisted-count env code p q old k e)
          (add-zero _ (add-InRange (count_of old) p.count h))
    | inr half ↦
        rw (e, half, flush_code, persisted-count env code p q old k e)
          (add-least _ p.count (add-InRange (count_of old) p.count h))
  ]
]

flush_code-InRange :
    (env : ErrorEnv) (code : String) (p old : Option Report)
    → count_of old ≤ max_uint64
    → count_of p ≤ max_uint64
    → (count_of (flush_code env code p old).1 ≤ max_uint64)
      × (count_of (flush_code env code p old).0 ≤ max_uint64)
unfolding flush_code
flush_code-InRange env code none old h k = (h, k)
flush_code-InRange env code (some p) old h k = elim (Result-cases (persisted env code p old)) [
  | inr (x, e) ↦ rw (e, flush_code) (h, k)
  | inl (q, e) ↦ (
    rw (e, flush_code, persisted-count env code p q old k e) (add-InRange (count_of old) p.count h),
    elim (Bool-cases (env.synced code)) [
      | inl fine ↦ rw (e, fine, flush_code) (omega arith)
      | inr half ↦ rw (e, half, flush_code) k
    ],
  )
]

pub flush-cases :
    (env : ErrorEnv) (r : Recorder) → (flush env r ≡ flushed env r) ⊎ (flush env r ≡ r)
unfolding flush
flush-cases env r = ground arith

pub flush-tally :
    (env : ErrorEnv) (r : Recorder) (code : String)
    → InRange r code
    → Agrees (env.synced code) (tally r code) (tally (flush env r) code)
      × InRange (flush env r) code
flush-tally env r code h = elim (flush-cases env r) [
  | inr held ↦ rw held (Agrees-same (env.synced code) _ _ refl, h)
  | inl free ↦ rw free (
    flush_code-tally env code (r.pending code) (r.disk code) h.0 h.1,
    flush_code-InRange env code (r.pending code) (r.disk code) h.0 h.1,
  )
]
