-- ===== src/Incidents/Evidenced.antt =====
-- ValidID and ValidDigest of internal/files/files.go, and validateEvidence of internal/ops/commands.go.
pub mod Cited
use Prim.Native.String.{len, ◌∷◌ as char_cons, [] as no_text}
use Prim.Native.Char.{code}
use agent_chun_su.Base.{
  ℕ, Bool, true, false, List, [], ◌∷◌, map, String, ◌==◌, ◌&&◌, ◌||◌, leb, str_eq, not,
  if◌then◌else◌,
}
use agent_chun_su.Table.{exists, find_where, length}
use agent_chun_su.Store.Model.{Result, ok, err, message}
use agent_chun_su.Store.Txn.{◌>>=◌, ◌>>◌, refuse_if, or_fail}
use agent_chun_su.Incidents.{Tools, Evidence, empty, Source, Observation, span_id}

abbrev pub between : ℕ → ℕ → ℕ → Bool
between low high n = leb low n && leb n high

-- a-z, A-Z, 0-9, - and _.
abbrev pub id_char : ℕ → Bool
id_char n = between 97 122 n || between 65 90 n || between 48 57 n || n == 45 || n == 95

-- The digits that encoding/hex reads.
abbrev pub hex_char : ℕ → Bool
hex_char n = between 48 57 n || between 97 102 n || between 65 70 n

unfoldable pub all_chars : (ℕ → Bool) → String → Bool
all_chars p no_text = true
all_chars p (char_cons c s) = p (code c) && all_chars p s

unfoldable pub valid_id : String → Bool
unfolding all_chars
valid_id id = between 16 64 (len id) && all_chars id_char id

unfoldable pub valid_digest : String → Bool
unfolding all_chars
valid_digest s = len s == 64 && all_chars hex_char s

unfoldable pub one_of : String → List String → Bool
unfolding exists
one_of s allowed = exists (str_eq s) allowed

unfoldable pub nonempty : Tools → String → Bool
nonempty t s = not (empty (t.trim_space s))

unfoldable pub all_known : List String → List String → Bool
unfolding one_of
all_known known [] = true
all_known known (id ∷ ids) = one_of id known && all_known known ids

-- The loop over the sources of the observation: whether the source is one of them.
unfoldable pub check_sources : Evidence → Bool → List Source → Result Bool
unfolding all_known
check_sources e found [] = ok found
check_sources e found (s ∷ ss) =
    let hit = str_eq s.id e.source_id in
    let rest = check_sources e (found || hit) ss in
    if hit && not (all_known (map span_id s.spans) e.span_ids)
    then err (message "evidence span is absent from the selected observation")
    else rest

unfoldable pub check_observed : Evidence → Observation → Result (Unit {0})
unfolding check_sources
check_observed e o = do
  refuse_if (empty e.source_id) (message "observation evidence needs an exact source ID")
  found ← check_sources e false o.sources
  refuse_if (not found) (message "evidence source is absent from the selected observation")

unfoldable pub check_item : Tools → List Observation → Evidence → Result (Unit {0})
unfolding nonempty find_where check_observed
check_item t observations e = do
  refuse_if (not (nonempty t e.statement))
      (message "evidence needs a verifiable statement or owner confirmation")
  if empty e.observation_id
      then refuse_if (not (empty e.source_id) || not (length e.span_ids == 0))
          (message "source/span evidence needs an observation ID")
      else (or_fail (find_where (λ (o : Observation). str_eq o.id e.observation_id) observations)
            (message "evidence observation does not exist in this scope")
          >>= check_observed e)

unfoldable pub check_items : Tools → List Observation → List Evidence → Result (Unit {0})
unfolding check_item
check_items t observations [] = ok tt
check_items t observations (e ∷ es) =
    let rest = check_items t observations es in check_item t observations e >>= λ u. rest

unfoldable pub validate_evidence :
    Tools → List Observation → List Evidence → Bool → Result (Unit {0})
unfolding check_items
validate_evidence t observations es required = do
  refuse_if (required && length es == 0) (
      message
        "this state change needs completion/deployment/resolution evidence or an explicit owner confirmation")
  check_items t observations es
