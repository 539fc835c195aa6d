-- ===== src/Errors.antt =====
-- The recorder of internal/errorreport/report.go: a report for each code of a catalogue, kept in
-- memory until its file takes it.
pub mod Reports
pub mod Catalog
pub mod Counts
pub mod Tally
pub mod Bounds
use agent_chun_su.Errors.Reports.{
  Correlation, ErrorEnv, Recorder, Report, add, checked_report, recent, valid_correlation,
}
use Prim.Native.String.{len}
use Prim.Native.Char.{code as char_code}
use agent_chun_su.Base.{
  ℕ, zero, suc, ◌+◌, ◌-◌, Bool, true, false, List, [], ◌∷◌, ◌++◌, String, Option, none, some, ◌==◌,
  ◌&&◌, ◌||◌, ltb, leb, str_eq, not, if◌then◌else◌,
}
use agent_chun_su.Table.{find_where, exists, length, drop}
use agent_chun_su.Store.Model.{Error, Result, ok, err, message}
use agent_chun_su.Store.Txn.{◌>>=◌, ◌>>◌, refuse_if, or_fail}
use agent_chun_su.Errors.Catalog.{Diagnostic, Catalogued, catalog, has_code}

-- A pending report, on top of the one that was read.
abbrev pub merged : ErrorEnv → Report → Report → Report
merged env old p = record p {
  first_at = old.first_at;
  count = add old.count p.count;
  acknowledged = old.acknowledged;
  recent = recent (old.recent ++ p.recent) env.max_messages;
}

-- What is to be written for a code, from its file.
unfoldable pub to_write : ErrorEnv → String → Report → Option Report → Result Report
unfolding checked_report
to_write env code p none = ok p
to_write env code p (some old) = checked_report env code old >>= λ o. ok (merged env o p)

-- What the file has after a write that replaces it.
unfoldable pub persisted : ErrorEnv → String → Report → Option Report → Result Report
unfolding to_write
persisted env code p old = do
  q ← to_write env code p old
  refuse_if (ltb env.max_artifact_bytes (env.encoded_bytes q))
      (message "error report exceeds configured artifact limit")
  refuse_if (not (env.writable code)) (message "the file cannot be written")
  ok q

-- What flush does for one code: the pending report and the file after it. A write that fails after it
-- has replaced the file leaves the report pending.
unfoldable pub flush_code :
    ErrorEnv → String → Option Report → Option Report → Option Report × Option Report
unfolding persisted
flush_code env code none old = (none, old)
flush_code env code (some p) old = elim (persisted env code p old) [
  | ok q ↦ (if env.synced code then none else some p, some q)
  | err e ↦ (some p, old)
]

-- The codes are independent of one another, so that their order is of no account.
abbrev pub flushed : ErrorEnv → Recorder → Recorder
flushed env r = record {
  pending = λ code. (flush_code env code (r.pending code) (r.disk code)).0;
  disk = λ code. (flush_code env code (r.pending code) (r.disk code)).1;
}

unfoldable pub flush : ErrorEnv → Recorder → Recorder
flush env r = if env.lock_free then flushed env r else r

abbrev has_pending : Recorder → Catalogued → Bool
has_pending r c = elim (r.pending c.code) [ none ↦ false | some p ↦ true ]

abbrev stays_pending : ErrorEnv → Recorder → Catalogued → Bool
stays_pending env r c = elim (flush_code env c.code (r.pending c.code) (r.disk c.code)).0 [
  | none ↦ false
  | some p ↦ true
]

-- flush returns an error.
unfoldable pub flush_fails : ErrorEnv → Recorder → Bool
unfolding flush_code catalog
flush_fails env r =
    exists (has_pending r) catalog && (not env.lock_free || exists (stays_pending env r) catalog)

abbrev pub put_at : {A : Type 0} → String → A → (String → A) → String → A
put_at code a f c = if str_eq c code then a else f c

abbrev pub count_of : Option Report → ℕ
count_of none = 0
count_of (some p) = p.count

abbrev new_report : ErrorEnv → String → Diagnostic → Report
new_report env code d = record {
  version = 1;
  id = env.id_of code;
  code = code;
  diagnostic = d;
  count = 0;
  acknowledged = 0;
  first_at = env.now;
  last_at = 0;
  recent = [];
  storage = "";
}

-- The pending report of a code, or a new one.
abbrev pub pending_or_new : ErrorEnv → String → Diagnostic → Option Report → Report
pending_or_new env code d none = new_report env code d
pending_or_new env code d (some p) = if p.count == 0 then new_report env code d else p

abbrev pub counted : ErrorEnv → Correlation → Report → Report
counted env c p = record p {
  count = add p.count 1;
  last_at = env.now;
  recent = recent (p.recent ++ (record { at = env.now; correlation = c } ∷ [])) env.max_messages;
}

abbrev pub with_pending : ErrorEnv → String → Correlation → Diagnostic → Recorder → Recorder
with_pending env code c d r = record r {
  pending =
      put_at code (some (counted env c (pending_or_new env code d (r.pending code)))) r.pending;
}

-- Recorder.Record: the recorder, the id of the report, and whether its flush failed.
unfoldable pub record_error :
    ErrorEnv → String → Correlation → Recorder → Recorder × Result (String × Bool)
unfolding valid_correlation flush flush_fails catalog
record_error env code c r = elim (find_where (has_code code) catalog) [
  | none ↦ (r, err (message "invalid error report classification or correlation"))
  | some d ↦
      if valid_correlation c
      then (
        flush env (with_pending env code c d.diagnostic r),
        ok (
          (counted env c (pending_or_new env code d.diagnostic (r.pending code))).id,
          flush_fails env (with_pending env code c d.diagnostic r),
        ),
      )
      else (r, err (message "invalid error report classification or correlation"))
]

-- Recorder.Unpersisted.
unfoldable pub sum_pending : List Catalogued → (String → Option Report) → ℕ
unfolding add
sum_pending [] pending = 0
sum_pending (r ∷ rs) pending = add (sum_pending rs pending) (count_of (pending r.code))

unfoldable pub unpersisted : Recorder → ℕ
unfolding sum_pending catalog
unpersisted r = sum_pending catalog r.pending

-- Acknowledge: the report whose id it is, among the codes of the catalogue.
abbrev pub has_id : ErrorEnv → String → Catalogued → Bool
has_id env id r = str_eq id (env.id_of r.code)

unfoldable pub acknowledged_report : ErrorEnv → String → Option Report → Result Report
unfolding checked_report
acknowledged_report env code old = do
  f ← or_fail old (message "file does not exist")
  p ← checked_report env code f
  refuse_if (not (env.writable code)) (message "the file cannot be written")
  ok (record p { acknowledged = p.count })

unfoldable pub acknowledge : ErrorEnv → String → Recorder → Recorder × Result (Unit {0})
unfolding acknowledged_report catalog
acknowledge env id r =
    if env.lock_free
    then (elim (find_where (has_id env id) catalog) [
      | none ↦ (r, err (message "unknown error report ID"))
      | some c ↦ (elim (acknowledged_report env c.code (r.disk c.code)) [
        | err e ↦ (r, err e)
        | ok p ↦ (
          record r { disk = put_at c.code (some p) r.disk },
          refuse_if (not (env.synced c.code)) (message "the directories cannot be synced"),
        )
      ])
    ])
    else (r, err (message "the lock is held"))
