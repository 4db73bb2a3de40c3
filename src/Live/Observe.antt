-- ===== src/Live/Observe.antt =====
-- qa/lab_summary_observe.py: the summary of an observation.
pub mod Named
pub mod Laws
use exasphere.Base.{
  ℕ, Bool, true, false, ◌&&◌, ◌||◌, not, List, [], ◌∷◌, String, str_eq, ◌==◌, ltb, if◌then◌else◌,
  length, all, any, Error, ErrorKind, Result, ok, err, raise, guard, ◌>>=◌, ◌>>◌, ◌<>◌, drop_value,
  os_error, json_decode_error, observe_summary_error, runtime_sample_error, audit_ledger_error,
  value_error, recursion_error,
}
use exasphere.Text.{codes, in_table, contains}
use exasphere.Json.{
  ℤ, pos, JsonValue, str, obj, JsonObject, end, field, get, is_true, is_false, is_text,
}
use exasphere.Json.Equality.{value_eq}
use exasphere.World.{
  World, FilePath, path_of, path_text, parts, is_absolute, parent, same_path, found, missing, fault,
  Decoded, decoded, undecodable, too_long, too_deep,
}
use exasphere.Checks.{text_or, int_or, bool_as, object_as, read_rows, is_empty}
use exasphere.Sample.Core
use exasphere.Ledger

abbrev pub fail {ℓ} : {A : Type ℓ} → String → Result A
fail = raise observe_summary_error

abbrev pub ensure : Bool → String → Result (Unit {0})
ensure = guard observe_summary_error

abbrev pub summary_schema : String
summary_schema = "zig-scheduler/observe-partial-summary/v1"

decoded_object : FilePath → Decoded → Result JsonObject
decoded_object path (undecodable exc) = fail ("invalid JSON in " <> path_text path <> ": " <> exc)
decoded_object path (too_long exc) = raise value_error exc
decoded_object path (too_deep exc) = raise recursion_error exc
decoded_object path (decoded raw) =
    object_as observe_summary_error raw (path_text path <> " must contain a JSON object")

unfoldable pub load_object : World → FilePath → Result JsonObject
unfolding decoded_object
load_object w path = elim (w.read_text path) [
  | missing ↦ fail ("missing JSON file: " <> path_text path)
  | fault exc ↦ raise os_error exc
  | found content ↦ decoded_object path (w.loads content)
]

decoded_row : FilePath → ℕ → Decoded → Result JsonObject
decoded_row path index (undecodable exc) = raise json_decode_error exc
decoded_row path index (too_long exc) = raise value_error exc
decoded_row path index (too_deep exc) = raise recursion_error exc
decoded_row path index (decoded raw) =
    object_as observe_summary_error raw (path_text path <> " contains non-object JSONL row")

json_row : World → FilePath → ℕ → String → Result JsonObject
unfolding decoded_row
json_row w path index line = decoded_row path index (w.loads line)

unfoldable pub load_jsonl : World → FilePath → Result (List JsonObject)
unfolding decoded_row json_row
load_jsonl w path = elim (w.read_lines path) [
  | missing ↦ raise os_error (path_text path)
  | fault exc ↦ raise os_error exc
  | found lines ↦ read_rows (json_row w path) 1 lines
]

unfoldable pub require_string : JsonObject → String → String → Result String
require_string data_ name context =
    text_or observe_summary_error (get data_ name)
      (context <> " missing non-empty string field: " <> name)

unfoldable pub require_bool : JsonObject → String → String → Result Bool
require_bool data_ name context =
    bool_as observe_summary_error (get data_ name) (context <> " missing bool field: " <> name)

unfoldable pub require_int : JsonObject → String → String → Result ℤ
require_int data_ name context =
    int_or observe_summary_error (get data_ name) (context <> " missing int field: " <> name)

unfoldable pub safe_path : World → JsonObject → String → Result FilePath
safe_path w summary name = do
  raw ← require_string summary name "observe"
  let path = path_of raw
  ensure (not (is_absolute path) && not (in_table ".." (parts path)) && w.exists path)
      ("observe path is unsafe or missing: " <> name)
  ok path

unfoldable pub sibling_path : World → FilePath → JsonObject → String → Result FilePath
sibling_path w summary_path summary name = do
  path ← safe_path w summary name
  ensure (same_path (parent path) (parent summary_path))
      ("observe path is not colocated with summary: " <> name)
  ok path

-- `except (RuntimeSampleError, AuditLedgerError) as exc: raise ObserveSummaryError(str(exc))`
abbrev link_error : ErrorKind → String → Error
link_error runtime_sample_error message = record { kind = observe_summary_error; message = message }
link_error audit_ledger_error message = record { kind = observe_summary_error; message = message }
link_error k message = record { kind = k; message = message }

unfoldable pub convert_link_error : Result (Unit {0}) → Result (Unit {0})
convert_link_error (ok tt) = ok tt
convert_link_error (err e) = err (link_error e.kind e.message)

unfoldable pub validate_links : World → FilePath → FilePath → Result (Unit {0})
unfolding convert_link_error
validate_links w samples ledger =
    convert_link_error (Core.validate_file w samples >> Ledger.validate_ledger w ledger)

execution_passed : JsonValue → Bool
execution_passed (obj value) =
    is_text "PASS" (get value "status")
    && is_false (get value "host_mutation")
    && not (is_text "live-backend" (get value "scenario"))
execution_passed _ = false

unfoldable pub workload_execution_passed : JsonObject → Bool
unfolding execution_passed
workload_execution_passed summary = execution_passed (get summary "workload_execution")

-- `{"status": "present", "value": value}`
abbrev pub present_fact : String → JsonValue
present_fact value = obj (field "status" (str "present") (field "value" (str value) end))

abbrev pub same_bool : Bool → Bool → Bool
same_bool true b = b
same_bool false b = not b

-- `len(rows) != expected_count`, where the count may be any `int`.
abbrev pub counts : ℤ → ℕ → Bool
counts (pos m) n = m == n
counts _ n = false

abbrev pub all_alive : List JsonObject → Bool
all_alive rows = all (λ row. is_true (get row "workload_alive")) rows

unfoldable pub validate_sample_series : World → JsonObject → FilePath → ℤ → Result (Unit {0})
validate_sample_series w summary samples expected_count = do
  rows ← load_jsonl w samples
  ensure (not (ltb (length rows) 3) && counts expected_count (length rows))
      "observe samples must include before/during/after rows"
  ensure (any (λ row. value_eq (get row "ops") (present_fact "zigsched_minimal")) rows)
      "observe samples never show zigsched_minimal during attach"
  ensure (all (λ row. is_false (get row "private_command_lines_sampled")) rows)
      "observe samples include private command-line sampling"
  alive ← require_bool summary "workload_alive_all_samples" "observe"
  ensure (same_bool alive (all_alive rows))
      "observe workload_alive_all_samples conflicts with sample rows"
  ensure (all_alive rows || workload_execution_passed summary)
      "observe workload was not alive for every sample"

abbrev pub runtime_events : List JsonObject → List JsonObject
runtime_events [] = []
runtime_events (row ∷ rows) =
    let rest = runtime_events rows in
    if is_text "runtime_sample" (get row "event") then row ∷ rest else rest

abbrev pub shows_minimal : JsonObject → Bool
shows_minimal row = is_text "zigsched_minimal" (get row "ops")

leaks_process : World → JsonObject → Bool
leaks_process w row =
    contains (codes "cmdline") (codes (w.dumps row))
    || contains (codes "environment") (codes (w.dumps row))

unfoldable pub validate_daemon_events : World → FilePath → Result (Unit {0})
unfolding leaks_process
validate_daemon_events w path = do
  rows ← load_jsonl w path
  ensure (not (is_empty (runtime_events rows))) "daemon stream emitted no runtime_sample events"
  ensure (any shows_minimal (runtime_events rows)) "daemon stream never emitted zigsched_minimal"
  ensure (not (any (leaks_process w) rows)) "daemon stream leaked private process fields"

unfoldable pub validate_snapshot : JsonObject → Result (Unit {0})
validate_snapshot summary = do
  snapshot ←
      object_as observe_summary_error (get summary "scheduler_snapshot")
        "observe missing scheduler_snapshot"
  final_state ← require_string summary "final_state" "observe"
  final_ops ← require_string summary "final_ops" "observe"
  restored ← require_bool summary "final_state_disabled_or_rolled_back" "observe"
  ensure restored "observe final state is not disabled or rolled back"
  ensure (value_eq (get snapshot "state") (present_fact final_state))
      "observe scheduler_snapshot state conflicts with final_state"
  ensure (value_eq (get snapshot "root_ops") (present_fact final_ops))
      "observe scheduler_snapshot root_ops conflicts with final_ops"

abbrev pub evidence_modes : List String
evidence_modes = "fixture" ∷ "vm-configured-fixture" ∷ "vm-live" ∷ "host-refusal" ∷ []

-- `validate_observe` in three parts. What the summary claims:
unfoldable pub validate_claims : JsonObject → Result (Unit {0})
validate_claims summary = do
  schema ← require_string summary "schema" "observe"
  ensure (str_eq schema summary_schema) "observe summary has unsupported schema"
  mode ← require_string summary "evidence_mode" "observe"
  ensure (in_table mode evidence_modes) ("observe evidence_mode is invalid: " <> mode)
  release_proof ← require_bool summary "release_eligible_live_proof" "observe"
  ensure (not (not (str_eq mode "vm-live") && release_proof))
      "non-VM-live observe evidence cannot be release eligible"
  ensure (not release_proof)
      "observe release proof is disabled until signed VM-live transport is implemented"

pub record Paths : Type 0 where
  pub samples : FilePath
  pub ledger : FilePath
  pub daemon_events : FilePath

-- the files that it names:
unfoldable pub observe_paths : World → FilePath → JsonObject → Result Paths
observe_paths w path summary = do
  samples ← sibling_path w path summary "runtime_samples"
  ledger ← safe_path w summary "audit_ledger"
  drop_value (sibling_path w path summary "transcript")
  daemon_events ← sibling_path w path summary "daemon_runtime_events"
  ok (record { samples = samples; ledger = ledger; daemon_events = daemon_events })

-- and their checks.
unfoldable pub validate_observe : World → FilePath → Result (Unit {0})
validate_observe w path = do
  summary ← load_object w path
  validate_claims summary
  paths ← observe_paths w path summary
  validate_links w paths.samples paths.ledger
  sample_count ← require_int summary "sample_count" "observe"
  validate_sample_series w summary paths.samples sample_count
  validate_daemon_events w paths.daemon_events
  validate_snapshot summary
