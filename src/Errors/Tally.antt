-- ===== src/Errors/Tally.antt =====
-- Occurrences of an error are counted, up to the largest number of a uint64.
use agent_chun_su.Base.{
  eq_iff, ◌==◌, ℕ, ◌≡◌, ◌⊎◌, refl, ◌∙◌, ap, subst, ◌≤◌, inl, inr, Bool, true, false, List, [], ◌∷◌,
  ◌&&◌, String, Option, none, some, arith, str_eq, Bool-cases, Option-cases, if◌then◌else◌,
}
use agent_chun_su.Table.{find_where, All}
use agent_chun_su.Store.Model.{ok}
use agent_chun_su.Store.Txn.{Result-cases}
use agent_chun_su.Errors.Catalog.{Diagnostic, catalog, has_code}
use agent_chun_su.Errors.Reports.{
  Report, Recorder, ErrorEnv, Correlation, add, valid_correlation, checked_report,
}
use agent_chun_su.Errors.{
  count_of, flush, put_at, counted, pending_or_new, with_pending, record_error, acknowledge,
  acknowledged_report, has_id,
}
use agent_chun_su.Errors.Counts.{
  tally, InRange, Agrees, Agrees-same, Agrees-least, add-InRange, add-suc, flush-tally,
  checked_report-as_read,
}

-- A use of the recorder.
pub data ErrorCall : Type 0 where
  call_record : String → Correlation → ErrorCall
  call_flush : ErrorCall
  call_acknowledge : String → ErrorCall

unfoldable pub report_call : ErrorEnv → ErrorCall → Recorder → Recorder
unfolding record_error flush acknowledge
report_call env (call_record code c) r = (record_error env code c r).0
report_call env call_flush r = flush env r
report_call env (call_acknowledge id) r = (acknowledge env id r).0

unfoldable pub report_calls : List (ErrorEnv × ErrorCall) → Recorder → Recorder
unfolding report_call
report_calls [] r = r
report_calls ((env, call) ∷ calls) r = report_calls calls (report_call env call r)

-- Record takes the code and the correlation.
unfoldable pub accepted : String → Correlation → Bool
accepted code c =
    valid_correlation c
    && (elim (find_where (has_code code) catalog) [ none ↦ false | some d ↦ true ])

-- The call reports an error with the code, and is not refused.
unfoldable pub reports : String → ErrorCall → Bool
reports code (call_record c correlation) = accepted c correlation && str_eq code c
reports code call_flush = false
reports code (call_acknowledge id) = false

-- How often the calls report the code, on top of a number, up to the largest.
unfoldable pub reported : String → List (ErrorEnv × ErrorCall) → ℕ → ℕ
unfolding reports add
reported code [] n = n
reported code ((env, call) ∷ calls) n =
    reported code calls (if reports code call then add n 1 else n)

-- The catalogue has the code, and the correlation is valid; or the call is refused.
pub record_error-cases :
    (env : ErrorEnv) (code : String) (c : Correlation) (r : Recorder)
    → ((d : Diagnostic) × (accepted code c ≡ true)
        × ((record_error env code c r).0 ≡ flush env (with_pending env code c d r)))
      ⊎ ((accepted code c ≡ false) × ((record_error env code c r).0 ≡ r))
unfolding record_error accepted
record_error-cases env code c r = elim (Option-cases (find_where (has_code code) catalog)) [
  | inl absent ↦ inr (ground arith, rw (absent, record_error) refl)
  | inr (d, found) ↦ elim (Bool-cases (valid_correlation c)) [
    | inl valid ↦
        inl (d.diagnostic, rw (valid, found, accepted) refl, rw (found, valid, record_error) refl)
    | inr bad ↦ inr (rw (bad, accepted) refl, rw (found, bad, record_error) refl)
  ]
]

counted-count :
    (env : ErrorEnv) (code : String) (c : Correlation) (d : Diagnostic) (p : Option Report)
    → (counted env c (pending_or_new env code d p)).count ≡ add (count_of p) 1
counted-count env code c d none = refl
counted-count env code c d (some p) = elim (Bool-cases (p.count == 0)) [
  | inl zero_count ↦ rw zero_count (ap (λ n. add n 1) (ground arith))
  | inr more ↦ rw more refl
]

with_pending-tally :
    (env : ErrorEnv) (code c : String) (correlation : Correlation) (d : Diagnostic) (r : Recorder)
    → InRange r code
    → (tally (with_pending env c correlation d r) code
        ≡ (if str_eq code c then add (tally r code) 1 else tally r code))
      × InRange (with_pending env c correlation d r) code
with_pending-tally env code c correlation d r h = elim (Bool-cases (str_eq code c)) [
  | inr other ↦ rw other (refl, h)
  | inl same ↦
      (let is : code ≡ c = (eq_iff code c).0 same in
        rw (same, counted-count env c correlation d (r.pending c), ← is)
          (
            add-suc (count_of (r.disk code)) (count_of (r.pending code)) h.0 h.1,
            (h.0, add-InRange (count_of (r.pending code)) 1 h.1),
          ))
]

acknowledged_report-count :
    (env : ErrorEnv) (code : String) (old : Option Report) (p : Report)
    → acknowledged_report env code old ≡ ok p
    → p.count ≡ count_of old
unfolding acknowledged_report
acknowledged_report-count env code none p h = absurd (ground arith)
acknowledged_report-count env code (some f) p h = elim (Result-cases (checked_report env code f)) [
  | inr (x, e) ↦ absurd (ground arith)
  | inl (q, e) ↦ ground (arith, ap (λ r. r.count) (checked_report-as_read env code f q e))
]

pub acknowledge-cases :
    (env : ErrorEnv) (id : String) (r : Recorder)
    → ((acknowledge env id r).0 ≡ r)
      ⊎ ((k : String) × (p : Report) × (acknowledged_report env k (r.disk k) ≡ ok p)
          × ((acknowledge env id r).0 ≡ record r { disk = put_at k (some p) r.disk }))
unfolding acknowledge
acknowledge-cases env id r = elim (Bool-cases env.lock_free) [
  | inr held ↦ inl (ground arith)
  | inl free ↦ elim (Option-cases (find_where (has_id env id) catalog)) [
    | inl absent ↦ inl (ground arith)
    | inr (c, found) ↦ elim (Result-cases (acknowledged_report env c.code (r.disk c.code))) [
      | inr (x, e) ↦ inl (ground arith)
      | inl (p, e) ↦ inr (c.code, p, e, ground arith)
    ]
  ]
]

put_at-count :
    (k code : String) (p : Report) (disk : String → Option Report)
    → p.count ≡ count_of (disk k)
    → count_of (put_at k (some p) disk code) ≡ count_of (disk code)
put_at-count k code p disk h = elim (Bool-cases (str_eq code k)) [
  | inr other ↦ rw other refl
  | inl same ↦ (let is : code ≡ k = (eq_iff code k).0 same in rw (same, h, is) refl)
]

acknowledge-tally :
    (env : ErrorEnv) (id : String) (r : Recorder) (code : String)
    → InRange r code
    → (tally (acknowledge env id r).0 code ≡ tally r code) × InRange (acknowledge env id r).0 code
acknowledge-tally env id r code h = elim (acknowledge-cases env id r) [
  | inl same ↦ rw same (refl, h)
  | inr (k, p, e, after) ↦
      rw (after, put_at-count k code p r.disk (acknowledged_report-count env k (r.disk k) p e))
        (refl, h)
]

record_error-tally :
    (env : ErrorEnv) (c : String) (correlation : Correlation) (r : Recorder) (code : String)
    → InRange r code
    → Agrees
        (env.synced code)
        (if accepted c correlation && str_eq code c then add (tally r code) 1 else tally r code)
        (tally (record_error env c correlation r).0 code)
      × InRange (record_error env c correlation r).0 code
record_error-tally env c correlation r code h = elim (record_error-cases env c correlation r) [
  | inr (refused, same) ↦ rw (refused, same) (Agrees-same (env.synced code) _ _ refl, h)
  | inl (d, taken, after) ↦
      let added = with_pending-tally env code c correlation d r h in
      let flushed = flush-tally env (with_pending env c correlation d r) code added.1 in
      rw (taken, after)
        (
          subst
              (λ n.
                Agrees (env.synced code) n
                  (tally (flush env (with_pending env c correlation d r)) code))
              added.0 flushed.0,
          flushed.1,
        )
]

-- What one call adds to the count.
call-tally :
    (env : ErrorEnv) (call : ErrorCall) (r : Recorder) (code : String)
    → InRange r code
    → Agrees
        (env.synced code)
        (if reports code call then add (tally r code) 1 else tally r code)
        (tally (report_call env call r) code)
      × InRange (report_call env call r) code
unfolding report_call reports
call-tally env (call_record c correlation) r code h = record_error-tally env c correlation r code h
call-tally env call_flush r code h = flush-tally env r code h
call-tally env (call_acknowledge id) r code h =
    let (same, in_range) = acknowledge-tally env id r code h in
    (Agrees-same (env.synced code) _ _ same, in_range)

-- Under any sequence of Record, Flush and Acknowledge, whatever the system answers to locks, reads
-- and writes, where no write of the code's file fails after it has replaced the file, the file and the
-- pending report of a code together count each accepted report of it just once, up to the largest
-- number of a uint64, if both counts start in its range.
pub report_calls-tally :
    (calls : List (ErrorEnv × ErrorCall)) (r : Recorder) (code : String)
    → All (λ c. c.0.synced code ≡ true) calls
    → InRange r code
    → tally (report_calls calls r) code ≡ reported code calls (tally r code)
unfolding report_calls reported
report_calls-tally [] r code whole h = refl
report_calls-tally ((env, call) ∷ calls) r code whole h =
    let (counts, in_range) = call-tally env call r code h in
    let exact =
      subst
        (λ s.
          Agrees s (if reports code call then add (tally r code) 1 else tally r code)
            (tally (report_call env call r) code))
        whole.0 counts in
    report_calls-tally calls (report_call env call r) code whole.1 in_range
    ∙ ap (λ n. reported code calls n) exact

reported_mono :
    (code : String) (calls : List (ErrorEnv × ErrorCall)) (n m : ℕ)
    → n ≤ m
    → reported code calls n ≤ reported code calls m
unfolding reported add
reported_mono code [] n m h = h
reported_mono code ((env, call) ∷ calls) n m h =
    reported_mono code calls _ _ (one (reports code call))
  where
    one : (b : Bool) → (if b then add n 1 else n) ≤ (if b then add m 1 else m)
    one true = ground arith
    one false = h

-- Under any sequence of Record, Flush and Acknowledge, whatever the system answers to locks, reads
-- and writes, also where a write fails after it has replaced the file, no accepted report of a code is
-- lost: its file and its pending report together count at least all of them, up to the largest number
-- of a uint64, if both counts start in its range.
pub report_calls-kept :
    (calls : List (ErrorEnv × ErrorCall)) (r : Recorder) (code : String)
    → InRange r code
    → reported code calls (tally r code) ≤ tally (report_calls calls r) code
unfolding report_calls reported
report_calls-kept [] r code h = omega arith
report_calls-kept ((env, call) ∷ calls) r code h =
    let (counts, in_range) = call-tally env call r code h in
    let least = Agrees-least (env.synced code) _ _ counts in
    let once = reported_mono code calls _ _ least in
    let rest = report_calls-kept calls (report_call env call r) code in_range in omega arith
