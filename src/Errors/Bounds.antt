-- ===== src/Errors/Bounds.antt =====
-- The bounds of a report: its acknowledged count, and the number of its latest occurrences.
use agent_chun_su.Base.{
  ◌==◌, ℕ, ◌-◌, ◌≤◌, ◌≡◌, sym, subst, inl, inr, List, [], ◌∷◌, ◌++◌, String, Option, none, some,
  arith, str_eq, Bool-cases,
}
use agent_chun_su.Table.Slices.{length-drop}
use agent_chun_su.Table.{length, All}
use agent_chun_su.Store.Model.{ok}
use agent_chun_su.Store.Txn.{Result-cases}
use agent_chun_su.Errors.Catalog.{Diagnostic}
use agent_chun_su.Errors.Reports.{
  Occurrence, Report, Recorder, ErrorEnv, Correlation, max_uint64, add, at_least_one, recent,
  checked_report,
}
use agent_chun_su.Errors.{
  merged, to_write, persisted, flush_code, flush, put_at, counted, pending_or_new, with_pending,
  record_error, acknowledge, acknowledged_report,
}
use agent_chun_su.Errors.Counts.{add-InRange, flush-cases, checked_report-as_read}
use agent_chun_su.Errors.Tally.{
  ErrorCall, call_record, call_flush, call_acknowledge, report_call, report_calls,
  record_error-cases, acknowledge-cases,
}

le-add : (n a b : ℕ) → n ≤ a → a ≤ max_uint64 → n ≤ add a b
unfolding add
le-add n a b h k = ground arith

length-recent :
    (items : List Occurrence) (limit : ℕ) → length (recent items limit) ≤ at_least_one limit
unfolding recent
length-recent items limit = ground (arith, length-drop (length items - at_least_one limit) items)

-- The owner acknowledged no more than there was, the count is a number of a uint64, and at most as
-- many occurrences are kept as the limit allows.
pub record IsSound (limit : ℕ) (p : Report) : Type 0 where
  pub acknowledged_below : p.acknowledged ≤ p.count
  pub count_in_range : p.count ≤ max_uint64
  pub recent_bounded : length p.recent ≤ at_least_one limit

abbrev pub IsSoundIfAny : ℕ → Option Report → Type 0
IsSoundIfAny limit none = Unit
IsSoundIfAny limit (some p) = IsSound limit p

checked-IsSound :
    (env : ErrorEnv) (code : String) (p q : Report)
    → checked_report env code p ≡ ok q
    → IsSound env.max_messages p
    → IsSound env.max_messages q
checked-IsSound env code p q h s = rw (checked_report-as_read env code p q h) (record {
  acknowledged_below = s.acknowledged_below;
  count_in_range = s.count_in_range;
  recent_bounded = length-recent p.recent env.max_messages;
})

merged-IsSound :
    (env : ErrorEnv) (old p : Report)
    → IsSound env.max_messages old
    → IsSound env.max_messages (merged env old p)
unfolding add
merged-IsSound env old p s = record {
  acknowledged_below = ground (arith, s.acknowledged_below, s.count_in_range);
  count_in_range = ground (arith, s.count_in_range);
  recent_bounded = length-recent (old.recent ++ p.recent) env.max_messages;
}

ok-injective : (p q : Report) → ok p ≡ ok q → p ≡ q
ok-injective p q h = ground arith

to_write-IsSound :
    (env : ErrorEnv) (code : String) (p q : Report) (old : Option Report)
    → IsSound env.max_messages p
    → IsSoundIfAny env.max_messages old
    → to_write env code p old ≡ ok q
    → IsSound env.max_messages q
unfolding to_write
to_write-IsSound env code p q none s t h =
    subst (λ r. IsSound env.max_messages r) (ok-injective p q h) s
to_write-IsSound env code p q (some old) s t h = elim (Result-cases (checked_report env code old)) [
  | inr (x, f) ↦ absurd (ground arith)
  | inl (o, f) ↦
      subst (λ r. IsSound env.max_messages r) (ok-injective (merged env o p) q (rw f at h))
        (merged-IsSound env o p (checked-IsSound env code old o f t))
]

persisted-IsSound :
    (env : ErrorEnv) (code : String) (p q : Report) (old : Option Report)
    → IsSound env.max_messages p
    → IsSoundIfAny env.max_messages old
    → persisted env code p old ≡ ok q
    → IsSound env.max_messages q
unfolding persisted
persisted-IsSound env code p q old s t h = elim (Result-cases (to_write env code p old)) [
  | inr (x, f) ↦ absurd (ground arith)
  | inl (o, f) ↦ to_write-IsSound env code p q old s t (ground arith)
]

-- The pending report and the file of a code.
abbrev pub BothSound : ℕ → Recorder → String → Type 0
BothSound limit r code = IsSoundIfAny limit (r.pending code) × IsSoundIfAny limit (r.disk code)

flush_code-IsSound :
    (env : ErrorEnv) (code : String) (p old : Option Report)
    → IsSoundIfAny env.max_messages p
    → IsSoundIfAny env.max_messages old
    → IsSoundIfAny env.max_messages (flush_code env code p old).0
      × IsSoundIfAny env.max_messages (flush_code env code p old).1
unfolding flush_code
flush_code-IsSound env code none old s t = (tt, t)
flush_code-IsSound env code (some p) old s t = elim (Result-cases (persisted env code p old)) [
  | inr (x, e) ↦ rw (e, flush_code) (s, t)
  | inl (q, e) ↦ elim (Bool-cases (env.synced code)) [
    | inl fine ↦ rw (e, fine, flush_code) (tt, persisted-IsSound env code p q old s t e)
    | inr half ↦ rw (e, half, flush_code) (s, persisted-IsSound env code p q old s t e)
  ]
]

flush-BothSound :
    (env : ErrorEnv) (r : Recorder) (code : String)
    → BothSound env.max_messages r code
    → BothSound env.max_messages (flush env r) code
flush-BothSound env r code h = elim (flush-cases env r) [
  | inr held ↦ rw held h
  | inl free ↦ rw free (flush_code-IsSound env code (r.pending code) (r.disk code) h.0 h.1)
]

counted-IsSound :
    (env : ErrorEnv) (code : String) (c : Correlation) (d : Diagnostic) (p : Option Report)
    → IsSoundIfAny env.max_messages p
    → IsSound env.max_messages (counted env c (pending_or_new env code d p))
counted-IsSound env code c d p s = from (pending_or_new env code d p) (begun p s)
  where
    fresh_IsSound : IsSound env.max_messages (pending_or_new env code d none)
    fresh_IsSound = record {
      acknowledged_below = omega arith;
      count_in_range = omega arith;
      recent_bounded = ground arith;
    }

    begun :
        (p : Option Report)
        → IsSoundIfAny env.max_messages p
        → IsSound env.max_messages (pending_or_new env code d p)
    begun none s = fresh_IsSound
    begun (some p) s = elim (Bool-cases (p.count == 0)) [
      | inl none_yet ↦ rw none_yet fresh_IsSound
      | inr more ↦ rw more s
    ]

    from : (p : Report) → IsSound env.max_messages p → IsSound env.max_messages (counted env c p)
    from p s = record {
      acknowledged_below = le-add p.acknowledged p.count 1 s.acknowledged_below s.count_in_range;
      count_in_range = add-InRange p.count 1 s.count_in_range;
      recent_bounded = length-recent _ env.max_messages;
    }

put_at-IsSound :
    (limit : ℕ) (c code : String) (p : Report) (f : String → Option Report)
    → IsSound limit p
    → IsSoundIfAny limit (f code)
    → IsSoundIfAny limit (put_at c (some p) f code)
put_at-IsSound limit c code p f s t = elim (Bool-cases (str_eq code c)) [
  | inl same ↦ rw same s
  | inr other ↦ rw other t
]

record_error-BothSound :
    (env : ErrorEnv) (c : String) (correlation : Correlation) (r : Recorder)
    → ((code : String) → BothSound env.max_messages r code)
    → (code : String) → BothSound env.max_messages (record_error env c correlation r).0 code
record_error-BothSound env c correlation r h code = elim (record_error-cases env c correlation r) [
  | inr (refused, same) ↦ rw same (h code)
  | inl (d, taken, after) ↦ rw after (
      flush-BothSound env (with_pending env c correlation d r) code (
        put_at-IsSound env.max_messages c code _ r.pending
            (counted-IsSound env c correlation d (r.pending c) (h c).0) (h code).0,
        (h code).1,
      ))
]

acknowledged_report-IsSound :
    (env : ErrorEnv) (code : String) (old : Option Report) (p : Report)
    → acknowledged_report env code old ≡ ok p
    → IsSoundIfAny env.max_messages old
    → IsSound env.max_messages p
unfolding acknowledged_report
acknowledged_report-IsSound env code none p h s = absurd (ground arith)
acknowledged_report-IsSound env code (some f) p h s =
    elim (Result-cases (checked_report env code f)) [
      | inr (x, e) ↦ absurd (ground arith)
      | inl (q, e) ↦
          subst (λ r. IsSound env.max_messages r)
            (ok-injective (record q { acknowledged = q.count }) p (ground arith))
            (all_acknowledged q (checked-IsSound env code f q e s))
    ]
  where
    all_acknowledged :
        (q : Report)
        → IsSound env.max_messages q
        → IsSound env.max_messages (record q { acknowledged = q.count })
    all_acknowledged q s = record {
      acknowledged_below = omega arith;
      count_in_range = s.count_in_range;
      recent_bounded = s.recent_bounded;
    }

acknowledge-BothSound :
    (env : ErrorEnv) (id : String) (r : Recorder)
    → ((code : String) → BothSound env.max_messages r code)
    → (code : String) → BothSound env.max_messages (acknowledge env id r).0 code
acknowledge-BothSound env id r h code = elim (acknowledge-cases env id r) [
  | inl same ↦ rw same (h code)
  | inr (k, p, e, after) ↦ rw after (
    (h code).0,
    put_at-IsSound env.max_messages k code p r.disk
        (acknowledged_report-IsSound env k (r.disk k) p e (h k).1) (h code).1,
  )
]

report_call-BothSound :
    (env : ErrorEnv) (call : ErrorCall) (r : Recorder)
    → ((code : String) → BothSound env.max_messages r code)
    → (code : String) → BothSound env.max_messages (report_call env call r) code
unfolding report_call
report_call-BothSound env (call_record c correlation) r h code =
    record_error-BothSound env c correlation r h code
report_call-BothSound env call_flush r h code = flush-BothSound env r code (h code)
report_call-BothSound env (call_acknowledge id) r h code = acknowledge-BothSound env id r h code

-- Under any sequence of Record, Flush and Acknowledge with one limit of messages, whatever the system
-- answers, the reports in memory and in the files stay sound, if all are at the start: no more is
-- acknowledged than was counted, counts are numbers of a uint64, and no more than the limit of
-- occurrences are kept, or one where the limit is 0.
pub report_calls-BothSound :
    (limit : ℕ) (calls : List (ErrorEnv × ErrorCall)) (r : Recorder)
    → All (λ c. c.0.max_messages ≡ limit) calls
    → ((code : String) → BothSound limit r code)
    → (code : String) → BothSound limit (report_calls calls r) code
unfolding report_calls
report_calls-BothSound limit [] r one h code = h code
report_calls-BothSound limit ((env, call) ∷ calls) r one h code =
    report_calls-BothSound limit calls (report_call env call r) one.1
      (λ c.
        subst (λ n. BothSound n (report_call env call r) c) one.0
          (report_call-BothSound env call r (λ d. subst (λ n. BothSound n r d) (sym one.0) (h d))
            c))
      code
