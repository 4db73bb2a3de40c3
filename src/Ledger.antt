-- ===== src/Ledger.antt =====
-- qa/audit_ledger_check.py: the rollback audit ledger.
pub mod Laws
use exasphere.Base.{
  ℕ, ◌+◌, Bool, true, false, ◌&&◌, ◌||◌, not, Option, none, some, List, [], ◌∷◌, ◌++◌, String,
  str_eq, ◌==◌, leb, if◌then◌else◌, Result, ok, err, raise, guard, drop_value, for_each, ◌>>=◌,
  ◌>>◌, ◌<>◌, audit_ledger_error, os_error, map, value_error, recursion_error,
}
use exasphere.Text.{codes, contains_any, in_table, is_blank, is_hex}
use exasphere.Text.Digits.{show}
use exasphere.Text.Regex.{
  Re, eps, seq, alt, char, literal, times, up_to, one_of, is_digit, fullmatch,
}
use exasphere.Json.{JsonValue, str, obj, JsonObject, get}
use exasphere.World.{
  World, FilePath, path_of, path_text, Reading, found, missing, fault, Decoded, decoded,
  undecodable, too_long, too_deep,
}
use exasphere.Checks.{load_object_as}

abbrev pub fail {ℓ} : {A : Type ℓ} → String → Result A
fail = raise audit_ledger_error

-- `if not condition: raise AuditLedgerError(message)`
abbrev pub ensure : Bool → String → Result (Unit {0})
ensure = guard audit_ledger_error

abbrev pub ledger_schema : String
ledger_schema = "zig-scheduler/audit-ledger/v1"

abbrev pub snapshot_schema : String
snapshot_schema = "zig-scheduler/rollback-snapshot/v1"

-- AUDIT_RE, `^AUD-[0-9]{8}T[0-9]{6}Z-[0-9a-f]{7,12}-[0-9a-f]{6}$`
abbrev pub audit_re : Re
audit_re = seq (literal (65 ∷ 85 ∷ 68 ∷ 45 ∷ [])) (
    seq (times 8 (one_of is_digit)) (
      seq (literal (84 ∷ [])) (
        seq (times 6 (one_of is_digit)) (
          seq (literal (90 ∷ 45 ∷ [])) (
            seq (times 7 (one_of is_hex)) (
              seq (up_to 5 (one_of is_hex))
                (seq (literal (45 ∷ [])) (times 6 (one_of is_hex)))))))))

-- `AUDIT_RE.match(text)`: `$` matches at the end, and before a line feed at the end.
unfoldable pub audit_match : String → Bool
unfolding fullmatch codes
audit_match s = fullmatch (seq audit_re (alt eps (char (λ c. c == 10)))) (codes s)

-- A character as `re.IGNORECASE` compares it with the letters of a pattern.
abbrev fold_char : ℕ → ℕ
fold_char c =
    if leb b'A' c && leb c b'Z'
    then c + 32
    else if c == 304 || c == 305
    then b'i'
    else if c == 383
    then b's'
    else if c == 8490
    then b'k'
    else c

unfoldable pub ignore_case : List ℕ → List ℕ
ignore_case s = map fold_char s

-- `SECRET_RE.search(value)`; the three spellings of `api[_-]?key` are written out.
unfoldable pub is_secret : String → Bool
unfolding ignore_case contains_any codes
is_secret value =
    contains_any
      ("secret" ∷ "password" ∷ "token" ∷ "authorization" ∷ "apikey" ∷ "api_key" ∷ "api-key" ∷ [])
      (ignore_case (codes value))

unfoldable pub load_object : World → FilePath → Result JsonObject
load_object w path = load_object_as audit_ledger_error w path

unfoldable pub load_lines : World → ℕ → List String → List JsonObject → Result (List JsonObject)
load_lines w index [] rows = ok rows
load_lines w index (line ∷ lines) rows =
    let skip = load_lines w (index + 1) lines rows in
    let keep = λ (row : JsonObject). load_lines w (index + 1) lines (rows ++ (row ∷ [])) in
    if is_blank line then skip else elim (w.loads line) [
      | undecodable exc ↦ fail ("invalid JSONL line " <> show index <> ": " <> exc)
      | too_long exc ↦ raise value_error exc
      | too_deep exc ↦ raise recursion_error exc
      | decoded (obj row) ↦ keep row
      | decoded other ↦ fail ("line " <> show index <> " must be a JSON object")
    ]

not_empty : List JsonObject → Result (List JsonObject)
not_empty [] = fail "ledger is empty"
not_empty (row ∷ rows) = ok (row ∷ rows)

unfoldable pub load_jsonl : World → FilePath → Result (List JsonObject)
unfolding load_lines not_empty
load_jsonl w path = elim (w.read_lines path) [
  | missing ↦ fail ("missing ledger: " <> path_text path)
  | fault exc ↦ raise os_error exc
  | found lines ↦ (load_lines w 1 lines [] >>= not_empty)
]

text_or : JsonValue → String → String → Result String
text_or (str s) name context = do
  ensure (not (str_eq s "")) (context <> " missing non-empty string field: " <> name)
  ensure (not (is_secret s)) (context <> " contains secret-like field: " <> name)
  ok s
text_or _ name context = fail (context <> " missing non-empty string field: " <> name)

unfoldable pub require_string : JsonObject → String → String → Result String
unfolding text_or
require_string data_ name context = text_or (get data_ name) name context

-- The digest of a file that is there; any failure to read it is not caught.
unfoldable pub sha256_file : World → FilePath → Result String
sha256_file w path = elim (w.sha256 path) [
  | missing ↦ raise os_error (path_text path)
  | fault exc ↦ raise os_error exc
  | found digest ↦ ok digest
]

abbrev pub snapshot_fields : List String
snapshot_fields =
    "state_before" ∷ "state_after" ∷ "ops_before" ∷ "ops_after" ∷ "enable_seq_before"
    ∷ "enable_seq_after" ∷ []

-- The snapshot that a record points to.
unfoldable pub validate_snapshot : World → FilePath → String → String → Result (Unit {0})
validate_snapshot w snapshot_path audit_id rollback_id = do
  snapshot ← load_object w snapshot_path
  schema ← require_string snapshot "schema" "snapshot"
  ensure (str_eq schema snapshot_schema) "snapshot unsupported schema"
  snapshot_audit_id ← require_string snapshot "audit_id" "snapshot"
  ensure (str_eq snapshot_audit_id audit_id) "snapshot audit_id mismatch"
  snapshot_rollback_id ← require_string snapshot "rollback_id" "snapshot"
  ensure (str_eq snapshot_rollback_id rollback_id) "snapshot rollback_id mismatch"
  for_each snapshot_fields λ name. drop_value (require_string snapshot name "snapshot")

-- The set of ids that were seen is passed on; the new id is added before the artifacts are read.
unfoldable pub validate_record : World → JsonObject → List String → ℕ → Result (List String)
validate_record w row seen index = do
  let context = "ledger[" <> show index <> "]"
  schema ← require_string row "schema" context
  ensure (str_eq schema ledger_schema) (context <> " unsupported schema")
  audit_id ← require_string row "audit_id" context
  ensure (audit_match audit_id) (context <> " invalid audit_id")
  ensure (not (in_table audit_id seen)) (context <> " duplicate audit_id: " <> audit_id)
  rollback_id ← require_string row "rollback_id" context
  snapshot_raw ← require_string row "rollback_snapshot" context
  transcript_raw ← require_string row "transcript" context
  snapshot_sha ← require_string row "rollback_snapshot_sha256" context
  transcript_sha ← require_string row "transcript_sha256" context
  let snapshot_path = path_of snapshot_raw
  let transcript_path = path_of transcript_raw
  ensure (w.is_file snapshot_path && w.is_file transcript_path)
      (context <> " transcript/snapshot artifact missing")
  snapshot_digest ← sha256_file w snapshot_path
  ensure (str_eq snapshot_digest snapshot_sha) (context <> " rollback snapshot hash mismatch")
  transcript_digest ← sha256_file w transcript_path
  ensure (str_eq transcript_digest transcript_sha) (context <> " transcript hash mismatch")
  validate_snapshot w snapshot_path audit_id rollback_id
  ok (audit_id ∷ seen)

unfoldable pub validate_records : World → List JsonObject → List String → ℕ → Result (List String)
validate_records w [] seen index = ok seen
validate_records w (row ∷ rows) seen index = do
  seen' ← validate_record w row seen index
  validate_records w rows seen' (index + 1)

unfoldable pub validate_ledger : World → FilePath → Result (Unit {0})
validate_ledger w path = do rows ← load_jsonl w path; drop_value (validate_records w rows [] 0)
