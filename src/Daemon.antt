-- ===== src/Daemon.antt =====
-- qa/daemon_event_contract_check.py, and `parse_json_value` of qa/frontend_contract_pack_types.py: the
-- stream of the daemon's events.
pub mod Task9
pub mod Privacy
pub mod Laws
pub mod Errors
pub mod Refusals
use exasphere.Base.{
  ℕ, zero, suc, ◌+◌, Bool, true, false, ◌&&◌, ◌||◌, not, List, [], ◌∷◌, String, str_eq, ◌==◌, ltb,
  leb, if◌then◌else◌, length, all, any, map, Result, ok, err, raise, guard, ◌>>=◌, ◌>>◌, ◌<>◌,
  for_each, os_error, contract_error, contract_pack_error, Error, ErrorKind, value_error,
  recursion_error,
}
use exasphere.Text.{codes, in_table, contains_any, is_hex, is_prefix}
use exasphere.Text.Digits.{show}
use exasphere.Text.Regex.{seq, literal, plus, times, up_to, one_of, is_digit, is_id_char, fullmatch}
use exasphere.Json.{
  ℤ, pos, negsuc, JsonValue, null, bool, int, float, nonfinite, str, arr, obj, Items, nil, cons,
  JsonObject, end, field, get, is_null, is_text,
}
use exasphere.World.{
  World, FilePath, path_text, Reading, found, missing, fault, Decoded, decoded, undecodable,
  too_long, too_deep, Strict, constant, parsed,
}
use exasphere.Checks.{
  text_or, int_or, bool_as, object_as, read_rows, sorted, without, is_empty, comma_join,
}

abbrev pub fail {ℓ} : {A : Type ℓ} → String → Result A
fail = raise contract_error

abbrev pub ensure : Bool → String → Result (Unit {0})
ensure = guard contract_error

abbrev pub schema : String
schema = "zig-scheduler/daemon-event/v1"

abbrev pub required_lifecycle : List String
required_lifecycle =
    "boot" ∷ "marker" ∷ "verifier" ∷ "attach" ∷ "runtime_sample" ∷ "rollback" ∷ "cleanup"
    ∷ "validation" ∷ "incident" ∷ []

abbrev pub private_needles : List String
private_needles =
    "cmdline" ∷ "command_line" ∷ "argv" ∷ "environment" ∷ "\"env\"" ∷ "secret" ∷ "api_key"
    ∷ "--token" ∷ "password=" ∷ []

-- IDENTIFIER, `^[A-Za-z0-9_.-]{1,96}$` under `fullmatch`
unfoldable pub identifier : String → Bool
unfolding codes
identifier s = ltb 0 (length (codes s)) && leb (length (codes s)) 96 && all is_id_char (codes s)

-- AUDIT_ID, `^AUD-[0-9]{8}T[0-9]{6}Z-[0-9a-f]{7,12}-[0-9a-f]{6}$` under `fullmatch`
unfoldable pub audit_id_re : String → Bool
unfolding codes fullmatch
audit_id_re s =
    fullmatch
      (seq (literal (codes "AUD-")) (
        seq (times 8 (one_of is_digit)) (
          seq (literal (codes "T")) (
            seq (times 6 (one_of is_digit)) (
              seq (literal (codes "Z-")) (
                seq (times 7 (one_of is_hex)) (
                  seq (up_to 5 (one_of is_hex))
                    (seq (literal (codes "-")) (times 6 (one_of is_hex))))))))))
      (codes s)

-- `max(text.find(value), 0)`
find_from : ℕ → List ℕ → List ℕ → ℕ
find_from index value [] = 0
find_from index value (c ∷ cs) =
    let rest = find_from (index + 1) value cs in if is_prefix value (c ∷ cs) then index else rest

-- What `parse_json_value` makes of the outcomes of `json.loads`.
unfoldable pub json_value : String → String → Strict → Result JsonValue
unfolding find_from
json_value line context (constant value) = raise contract_pack_error (
    "invalid JSON in "
    <> context
    <> " at byte "
    <> show (find_from 0 (codes value) (codes line))
    <> ": invalid constant "
    <> value)
json_value line context (parsed (undecodable exc)) =
    raise contract_pack_error ("invalid JSON in " <> context <> " at byte " <> exc)
json_value line context (parsed (too_long exc)) = raise value_error exc
json_value line context (parsed (too_deep exc)) = raise recursion_error exc
json_value line context (parsed (decoded value)) = ok value

-- `parse_json_value(line, context)`
unfoldable pub parse_json_value : World → String → String → Result JsonValue
unfolding json_value
parse_json_value w line context = json_value line context (w.loads_strict line)

-- `except ContractPackError as exc: raise ContractError(...)`
abbrev pack_error : String → ErrorKind → String → Error
pack_error context contract_pack_error message = record {
  kind = contract_error;
  message = context <> ": invalid JSON: " <> message;
}
pack_error context k message = record { kind = k; message = message }

unfoldable pub convert_pack_error {ℓ} : {A : Type ℓ} → String → Result A → Result A
convert_pack_error context (ok a) = ok a
convert_pack_error context (err e) = err (pack_error context e.kind e.message)

unfoldable pub parse_object : World → ℕ → String → Result JsonObject
unfolding convert_pack_error
parse_object w line_number line = do
  let context = "line " <> show line_number
  loaded ← convert_pack_error context (parse_json_value w line context)
  object_as contract_error loaded (context <> ": JSONL row is not an object")

unfoldable pub require_int : JsonObject → String → String → Result ℤ
require_int row name context =
    int_or contract_error (get row name) (context <> ": missing int field " <> name)

unfoldable pub require_string : JsonObject → String → String → Result String
require_string row name context =
    text_or contract_error (get row name) (context <> ": missing string field " <> name)

unfoldable pub require_bool : JsonObject → String → String → Result Bool
require_bool row name context =
    bool_as contract_error (get row name) (context <> ": missing bool field " <> name)

unfoldable pub require_object : JsonObject → String → String → Result JsonObject
require_object row name context =
    object_as contract_error (get row name) (context <> ": missing object field " <> name)

pub record EventRow : Type 0 where
  pub seq_number : ℤ
  pub event : String
  pub host_mutation : Bool
  pub raw : JsonObject

-- A round of the loop of `load_rows`.
unfoldable pub event_row : World → ℕ → String → Result EventRow
event_row w line_number line = do
  let context = "line " <> show line_number
  raw ← parse_object w line_number line
  seq_number ← require_int raw "seq" context
  event ← require_string raw "event" context
  host_mutation ← require_bool raw "host_mutation" context
  ok (record { seq_number = seq_number; event = event; host_mutation = host_mutation; raw = raw })

unfoldable pub not_empty {ℓ} : {A : Type ℓ} → String → List A → Result (List A)
not_empty message [] = fail message
not_empty message (row ∷ rows) = ok (row ∷ rows)

unfoldable pub load_rows : World → FilePath → Result (List EventRow)
unfolding not_empty
load_rows w path = elim (w.read_lines path) [
  | missing ↦ raise os_error (path_text path)
  | fault exc ↦ raise os_error exc
  | found lines ↦ (read_rows (event_row w) 1 lines >>= not_empty "event stream is empty")
]

unfoldable pub load_jsonl_objects : World → FilePath → String → Result (List JsonObject)
unfolding not_empty
load_jsonl_objects w path context = elim (w.read_lines path) [
  | missing ↦ fail (context <> " artifact missing: " <> path_text path)
  | fault exc ↦ raise os_error exc
  | found lines ↦
      (read_rows (parse_object w) 1 lines
        >>= not_empty (context <> " artifact is empty: " <> path_text path))
]

-- `value is None or value == "" or isinstance(value, str) and pattern.fullmatch(value)`
abbrev pub blank_or : (String → Bool) → JsonValue → Bool
blank_or pattern null = true
blank_or pattern (str s) = str_eq s "" || pattern s
blank_or pattern _ = false

unfoldable pub show_int : ℤ → String
show_int (pos n) = show n
show_int (negsuc n) = "-" <> show (suc n)

unfoldable pub validate_identifier : EventRow → String → Result (Unit {0})
validate_identifier row name =
    ensure (blank_or identifier (get row.raw name))
      ("event " <> show_int row.seq_number <> ": invalid " <> name)

-- `any(needle in text for needle in PRIVATE_NEEDLES)`
unfoldable pub has_needle : String → Bool
unfolding codes contains_any
has_needle s = contains_any private_needles (codes s)

unfoldable mutual
  pub contains_private_field : JsonValue → Bool
  contains_private_field (str s) = has_needle s
  contains_private_field (arr vs) = private_items vs
  contains_private_field (obj fs) = private_fields fs
  contains_private_field _ = false

  pub private_items : Items → Bool
  private_items nil = false
  private_items (cons v vs) = contains_private_field v || private_items vs

  pub private_fields : JsonObject → Bool
  private_fields end = false
  private_fields (field key v fs) =
      (not (str_eq key "command_argv_hash") && (has_needle key || contains_private_field v))
      || private_fields fs

-- `row.seq == expected_seq`
abbrev pub is_seq : ℤ → ℕ → Bool
is_seq (pos m) n = m == n
is_seq (negsuc m) n = false

abbrev pub identifier_fields : List String
identifier_fields = "action_id" ∷ "run_id" ∷ "target_id" ∷ "rollback_id" ∷ "target_action_id" ∷ []

unfoldable pub validate_row : EventRow → ℕ → Result (Unit {0})
validate_row row expected_seq = do
  let context = "event " <> show expected_seq
  ensure (is_text schema (get row.raw "schema")) (context <> ": unsupported schema")
  ensure (is_seq row.seq_number expected_seq) (
      "event sequence is not incremental: expected "
      <> show expected_seq
      <> ", got "
      <> show_int row.seq_number)
  ensure (not row.host_mutation) (context <> ": host_mutation must be false")
  for_each identifier_fields (validate_identifier row)
  ensure (blank_or audit_id_re (get row.raw "audit_id")) (context <> ": invalid audit_id")
  ensure (not (contains_private_field (obj row.raw))) (context <> ": private field leaked")

unfoldable pub validate_rows : ℕ → List EventRow → Result (Unit {0})
validate_rows expected_seq [] = ok tt
validate_rows expected_seq (row ∷ rows) = do
  validate_row row expected_seq
  validate_rows (suc expected_seq) rows

-- `{row.event for row in rows}`, and the lifecycle events that it lacks.
abbrev pub events_of : List EventRow → List String
events_of [] = []
events_of (row ∷ rows) = row.event ∷ events_of rows

unfoldable pub lifecycle_complete : List EventRow → Result (Unit {0})
lifecycle_complete rows =
    let missing_events = sorted (without required_lifecycle (events_of rows)) in
    ensure (is_empty missing_events) ("missing lifecycle events: " <> comma_join missing_events)

unfoldable pub validate : World → FilePath → Bool → Result (Unit {0})
validate w path require_lifecycle = do
  rows ← load_rows w path
  validate_rows 1 rows
  if require_lifecycle then lifecycle_complete rows else ok tt
