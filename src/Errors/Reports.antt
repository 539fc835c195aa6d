-- ===== src/Errors/Reports.antt =====
-- The reports of internal/errorreport/report.go, and what makes a file of one acceptable.
use Prim.Native.String.{len}
use Prim.Native.Char.{code as char_code}
use agent_chun_su.Base.{
  ℕ, ◌+◌, ◌-◌, Bool, true, List, String, Option, none, some, ◌==◌, ◌&&◌, ◌||◌, ltb, leb, str_eq,
  not, if◌then◌else◌,
}
use agent_chun_su.Table.{find_where, exists, length, drop}
use agent_chun_su.Store.Model.{Result, ok, message}
use agent_chun_su.Store.Txn.{◌>>◌, refuse_if}
use agent_chun_su.Errors.Catalog.{Diagnostic, catalog, has_code}

-- math.MaxUint64.
abbrev pub max_uint64 : ℕ
max_uint64 = 18446744073709551615

-- Addition on uint64 that stops at the largest.
unfoldable pub add : ℕ → ℕ → ℕ
add a b = if ltb (max_uint64 - a) b then max_uint64 else a + b

-- files.ValidID.
abbrev id_char : ℕ → Bool
id_char c =
    (leb 97 c && leb c 122)
    || (leb 65 c && leb c 90)
    || (leb 48 c && leb c 57)
    || c == 45
    || c == 95

unfoldable id_chars : String → Bool
id_chars String.[] = true
id_chars (String.◌∷◌ c s) = id_char (char_code c) && id_chars s

unfoldable pub valid_text_id : String → Bool
unfolding id_chars
valid_text_id id = not (ltb (len id) 16 || ltb 64 (len id)) && id_chars id

pub record Correlation : Type 0 where
  pub update_id : ℕ
  pub session_id : String
  pub job_id : String

unfoldable pub valid_correlation : Correlation → Bool
unfolding valid_text_id
valid_correlation c =
    (str_eq c.session_id "" || valid_text_id c.session_id)
    && (str_eq c.job_id "" || valid_text_id c.job_id)

pub record Occurrence : Type 0 where
  pub at : ℕ
  pub correlation : Correlation

pub record Report : Type 0 where
  pub version : ℕ
  pub id : String
  pub code : String
  pub diagnostic : Diagnostic
  pub count : ℕ
  pub acknowledged : ℕ
  pub first_at : ℕ
  pub last_at : ℕ
  pub recent : List Occurrence
  pub storage : String

-- The pending reports and the files, by code.
pub record Recorder : Type 0 where
  pub pending : String → Option Report
  pub disk : String → Option Report

-- The limits, the id that files.Digest gives a code, the bytes of the JSON that encoding/json prints
-- for a report, and what the system answers: the clock, the lock, and for each code whether its file
-- can be read and decoded, whether a write replaces it, and whether the write then succeeds, which takes
-- that the directories are synced.
pub record ErrorEnv : Type 0 where
  pub max_messages : ℕ
  pub max_artifact_bytes : ℕ
  pub id_of : String → String
  pub encoded_bytes : Report → ℕ
  pub now : ℕ
  pub lock_free : Bool
  pub readable : String → Bool
  pub writable : String → Bool
  pub synced : String → Bool

abbrev pub at_least_one : ℕ → ℕ
at_least_one limit = if ltb limit 1 then 1 else limit

-- The latest occurrences, as many as the limit allows.
unfoldable pub recent : List Occurrence → ℕ → List Occurrence
unfolding drop
recent items limit =
    if ltb (at_least_one limit) (length items)
    then drop (length items - at_least_one limit) items
    else items

abbrev is_damaged : ErrorEnv → String → Report → Bool
is_damaged env code p =
    not (p.version == 1)
    || not (str_eq p.id (env.id_of code))
    || not (str_eq p.code code)
    || ltb p.count p.acknowledged
    || p.first_at == 0
    || ltb p.last_at p.first_at

abbrev has_bad_correlation : Occurrence → Bool
has_bad_correlation o = not (valid_correlation o.correlation)

abbrev pub diagnostic_of : String → Diagnostic
diagnostic_of code = elim (find_where (has_code code) catalog) [
  | none ↦ record { component = ""; summary = ""; recovery = "" }
  | some r ↦ r.diagnostic
]

-- What read makes of a file that it accepts: the text is that of the catalogue.
abbrev pub as_read : ErrorEnv → String → Report → Report
as_read env code p = record p {
  diagnostic = diagnostic_of code;
  storage = "retained";
  recent = recent p.recent env.max_messages;
}

-- The report in a file; its JSON is followed by a newline.
unfoldable pub checked_report : ErrorEnv → String → Report → Result Report
unfolding valid_correlation recent
checked_report env code p = do
  refuse_if (env.max_artifact_bytes == 0) (message "read limit must be positive")
  refuse_if (ltb env.max_artifact_bytes (env.encoded_bytes p + 1))
      (message "file exceeds configured byte limit")
  refuse_if (not (env.readable code)) (message "invalid error report")
  refuse_if (is_damaged env code p) (message "invalid error report metadata")
  refuse_if (exists has_bad_correlation p.recent) (message "invalid error correlation")
  ok (as_read env code p)
