-- ===== src/Live/Bundle.antt =====
-- qa/live_behavior_check.py: the bundle of a live run, with all the artifacts that it refers to.
pub mod Counters
pub mod CounterLaws
pub mod Series
pub mod Named
pub mod Laws
use exasphere.Base.{
  ℕ, suc, ◌+◌, Bool, true, false, ◌&&◌, ◌||◌, not, Option, none, some, List, [], ◌∷◌, String,
  str_eq, ◌==◌, ltb, if◌then◌else◌, length, all, any, Result, ok, err, raise, guard, ◌>>=◌, ◌>>◌,
  ◌<>◌, for_each, drop_value, os_error, json_decode_error, live_behavior_error, value_error,
  recursion_error,
}
use exasphere.Text.{codes, in_table, contains, starts_with}
use exasphere.Text.Digits.{show}
use exasphere.Json.{
  JsonValue, str, arr, obj, Items, nil, cons, JsonObject, get, is_true, is_false, is_text,
}
use exasphere.World.{
  World, FilePath, path_of, path_text, parts, is_absolute, Reading, found, missing, fault, Decoded,
  decoded, undecodable, too_long, too_deep,
}
use exasphere.Checks.{text_or, bool_as, object_as, read_rows, is_empty}
use exasphere.Sample.Core
use exasphere.Ledger
use exasphere.Live.Partial
use exasphere.Live.Partial.{target_prefix, zero_hash}
use exasphere.Live.Observe
use exasphere.Live.Observe.{
  workload_execution_passed, same_bool, all_alive, runtime_events, shows_minimal,
}
use exasphere.Live.Bundle.Counters.{
  fail, ensure, observed_digest, sha256_match, validate_counter_growth,
}

abbrev pub summary_schema : String
summary_schema = "zig-scheduler/run-all-lab/v1"

abbrev pub vm_marker : String
vm_marker = "/run/zig-scheduler-vm-lab.marker"

decoded_object : FilePath → Decoded → Result JsonObject
decoded_object path (undecodable exc) = fail ("invalid JSON in " <> path_text path <> ": " <> exc)
decoded_object path (too_long exc) = raise value_error exc
decoded_object path (too_deep exc) = raise recursion_error exc
decoded_object path (decoded raw) =
    object_as live_behavior_error raw (path_text path <> " must contain a JSON object")

unfoldable pub load_object : World → FilePath → Result JsonObject
unfolding decoded_object
load_object w path = elim (w.read_text path) [
  | missing ↦ fail ("missing JSON file: " <> path_text path)
  | fault exc ↦ raise os_error exc
  | found content ↦ decoded_object path (w.loads content)
]

decoded_row : FilePath → ℕ → Decoded → Result JsonObject
decoded_row path index (undecodable exc) = raise json_decode_error exc
decoded_row path index (too_long exc) = raise value_error exc
decoded_row path index (too_deep exc) = raise recursion_error exc
decoded_row path index (decoded raw) =
    object_as live_behavior_error raw
      (path_text path <> ":" <> show index <> " must contain a JSON object")

json_row : World → FilePath → ℕ → String → Result JsonObject
unfolding decoded_row
json_row w path index line = decoded_row path index (w.loads line)

not_empty : FilePath → List JsonObject → Result (List JsonObject)
not_empty path [] = fail ("JSONL is empty: " <> path_text path)
not_empty path (row ∷ rows) = ok (row ∷ rows)

unfoldable pub load_jsonl : World → FilePath → Result (List JsonObject)
unfolding decoded_row json_row not_empty
load_jsonl w path = elim (w.read_lines path) [
  | missing ↦ raise os_error (path_text path)
  | fault exc ↦ raise os_error exc
  | found lines ↦ (read_rows (json_row w path) 1 lines >>= not_empty path)
]

unfoldable pub require_text : JsonObject → String → String → Result String
require_text data_ name context =
    text_or live_behavior_error (get data_ name)
      (context <> " missing non-empty text field: " <> name)

unfoldable pub require_bool : JsonObject → String → String → Result Bool
require_bool data_ name context =
    bool_as live_behavior_error (get data_ name) (context <> " missing bool field: " <> name)

unfoldable pub list_or : JsonValue → String → Result Items
list_or (arr (cons v vs)) message = ok (cons v vs)
list_or _ message = fail message

unfoldable pub require_list : JsonObject → String → String → Result Items
unfolding list_or
require_list data_ name context =
    list_or (get data_ name) (context <> " missing non-empty list field: " <> name)

unfoldable pub validate_vm_live_gate : JsonObject → Result (Unit {0})
validate_vm_live_gate summary = do
  mode ← require_text summary "evidence_mode" "bundle"
  ensure (str_eq mode "vm-live") "bundle is not VM-live evidence"
  vm_kind ← require_text summary "vm_kind" "bundle"
  ensure (str_eq vm_kind "qemu-vm") "bundle must be from qemu-vm"
  present ← require_bool summary "vm_marker_present" "bundle"
  ensure present "bundle missing VM marker"
  path ← require_text summary "vm_marker_path" "bundle"
  ensure (str_eq path vm_marker) "bundle VM marker path is invalid"
  rollback ← require_text summary "rollback_result" "bundle"
  ensure (str_eq rollback "PASS") "bundle rollback_result must be PASS"

unfoldable pub artifact_path : World → ℕ → JsonValue → Result FilePath
artifact_path w index value = do
  raw ←
      text_or live_behavior_error value
        ("bundle.artifact_paths[" <> show index <> "] must be path text")
  let path = path_of raw
  ensure (not (is_absolute path) && not (in_table ".." (parts path)) && w.exists path)
      ("bundle artifact path is unsafe or missing: " <> raw)
  ok path

unfoldable pub artifact_items : World → ℕ → Items → Result (List FilePath)
artifact_items w index nil = ok []
artifact_items w index (cons value values) = do
  path ← artifact_path w index value
  paths ← artifact_items w (suc index) values
  ok (path ∷ paths)

unfoldable pub artifact_paths : World → JsonObject → Result (List FilePath)
artifact_paths w summary = do
  values ← require_list summary "artifact_paths" "bundle"
  artifact_items w 0 values

unfoldable pub ends_here : List ℕ → List ℕ → Bool
ends_here [] [] = true
ends_here (c ∷ s) (d ∷ t) = c == d && ends_here s t
ends_here _ _ = false

-- `text.endswith(suffix)`
unfoldable pub is_suffix : List ℕ → List ℕ → Bool
unfolding ends_here
is_suffix suffix [] = ends_here suffix []
is_suffix suffix (c ∷ s) = ends_here suffix (c ∷ s) || is_suffix suffix s

unfoldable pub require_artifact : List FilePath → String → Result FilePath
require_artifact [] suffix = fail ("bundle missing artifact: " <> suffix)
require_artifact (path ∷ paths) suffix =
    if is_suffix (codes suffix) (codes (path_text path))
    then ok path
    else require_artifact paths suffix

unfoldable pub validate_partial_behavior : JsonObject → Result (Unit {0})
validate_partial_behavior partial = do
  ops ← require_text partial "ops_during_attach" "partial"
  ensure (str_eq ops "zigsched_minimal") "partial attach did not run zigsched_minimal"
  mode ← require_text partial "switch_mode" "partial"
  ensure (str_eq mode "SCX_OPS_SWITCH_PARTIAL") "partial attach was not partial-switch"
  target ← require_text partial "target_cgroup" "partial"
  ensure (starts_with target target_prefix) "partial attach target is not allowlisted"
  object_sha ← require_text partial "object_sha256" "partial"
  ensure (sha256_match object_sha && not (str_eq object_sha zero_hash))
      "partial attach object hash is malformed"

unfoldable pub validate_observe_behavior : JsonObject → Result (Unit {0})
validate_observe_behavior observe = do
  mode ← require_text observe "evidence_mode" "observe"
  ensure (str_eq mode "vm-live") "observe summary is not VM-live"
  alive ← require_bool observe "workload_alive_all_samples" "observe"
  ensure (alive || workload_execution_passed observe) "workload was not alive across samples"
  restored ← require_bool observe "final_state_disabled_or_rolled_back" "observe"
  ensure restored "rollback did not restore scheduler state"

-- `sample_ops`, `sample_state`: the value of a fact, or "".
text_value : JsonValue → String
text_value (str s) = s
text_value _ = ""

fact_value : JsonValue → String
unfolding text_value
fact_value (obj fact) = text_value (get fact "value")
fact_value _ = ""

unfoldable pub sample_ops : JsonObject → String
unfolding fact_value
sample_ops row = fact_value (get row "ops")

unfoldable pub sample_state : JsonObject → String
unfolding fact_value
sample_state row = fact_value (get row "state")

abbrev pub runs_minimal : JsonObject → Bool
runs_minimal row = str_eq (sample_ops row) "zigsched_minimal"

present_status : JsonValue → Bool
present_status (obj status) =
    is_text "present" (get status "status") && is_text "present" (get status "value")
present_status _ = false

unfoldable pub validate_cgroup_membership : ℕ → JsonObject → Result (Unit {0})
unfolding present_status
validate_cgroup_membership index row = do
  let context = "sample " <> show index
  ensure (observed_digest (get row "cgroup_membership_digest"))
      (context <> " cgroup membership digest is not an observed sha256")
  ensure (present_status (get row "cgroup_membership_status"))
      (context <> " cgroup membership status is not observed present")

unfoldable pub validate_memberships : ℕ → List JsonObject → Result (Unit {0})
validate_memberships index [] = ok tt
validate_memberships index (row ∷ rows) = do
  validate_cgroup_membership index row
  validate_memberships (suc index) rows

-- `rows[1:-1]` and `rows[-1]`, behind the first row.
abbrev pub middle_rows : List JsonObject → List JsonObject
middle_rows [] = []
middle_rows (row ∷ []) = []
middle_rows (row ∷ rows) = row ∷ middle_rows rows

abbrev pub last_row : JsonObject → List JsonObject → JsonObject
last_row first [] = first
last_row first (row ∷ rows) = last_row row rows

-- The checks of `validate_samples` behind that of the length.
unfoldable pub sample_series : JsonObject → List JsonObject → JsonObject → Result (Unit {0})
sample_series first rest observe = do
  ensure (not (runs_minimal first)) "first sample must be before attach"
  ensure (any runs_minimal (middle_rows rest))
      "middle samples never show zigsched_minimal during attach"
  ensure (not (runs_minimal (last_row first rest))) "last sample must be after rollback"
  ensure (in_table (sample_state (last_row first rest)) ("disabled" ∷ "previous" ∷ []))
      "last sample does not prove rollback-restored state"
  alive ← require_bool observe "workload_alive_all_samples" "observe"
  ensure (same_bool alive (all_alive (first ∷ rest)))
      "observe workload_alive_all_samples conflicts with samples"
  ensure (all_alive (first ∷ rest) || workload_execution_passed observe)
      "workload is not alive in every sample"
  validate_memberships 0 (first ∷ rest)
  validate_counter_growth first (last_row first rest) (first ∷ rest)

unfoldable pub validate_samples : List JsonObject → JsonObject → Result (Unit {0})
validate_samples [] observe = fail "behavior proof requires before/during/after samples"
validate_samples (first ∷ rest) observe = do
  ensure (not (ltb (length (first ∷ rest)) 3)) "behavior proof requires before/during/after samples"
  sample_series first rest observe

unfoldable pub validate_daemon_events : List JsonObject → Result (Unit {0})
validate_daemon_events rows = do
  for_each rows (λ row.
      ensure (is_false (get row "host_mutation"))
        "daemon events must explicitly report host_mutation=false")
  ensure (not (is_empty (runtime_events rows))) "daemon emitted no runtime_sample events"
  ensure (any shows_minimal (runtime_events rows)) "daemon events never show zigsched_minimal"

-- `validate_bundle` in four parts. What the bundle says of itself:
unfoldable pub validate_claims : JsonObject → Result (Unit {0})
validate_claims summary = do
  schema ← require_text summary "schema" "bundle"
  ensure (str_eq schema summary_schema) "bundle has unsupported schema"
  status ← require_text summary "status" "bundle"
  ensure (str_eq status "PASS") "bundle status must be PASS"
  host_mutation ← require_bool summary "host_mutation" "bundle"
  ensure (not host_mutation) "bundle host_mutation must be false"
  validate_vm_live_gate summary

pub record Artifacts : Type 0 where
  pub partial : FilePath
  pub observe : FilePath
  pub samples : FilePath
  pub daemon_events : FilePath
  pub ledger : FilePath

-- the artifacts that it names:
unfoldable pub bundle_artifacts : List FilePath → Result Artifacts
bundle_artifacts artifacts = do
  partial ← require_artifact artifacts "partial-attach-evidence.json"
  observe ← require_artifact artifacts "observe-partial/summary.json"
  samples ← require_artifact artifacts "runtime-samples.jsonl"
  daemon_events ← require_artifact artifacts "daemon-runtime-events.jsonl"
  ledger ← require_artifact artifacts "audit-ledger.jsonl"
  ok (record {
    partial = partial;
    observe = observe;
    samples = samples;
    daemon_events = daemon_events;
    ledger = ledger;
  })

-- their own checkers:
unfoldable pub validate_artifacts : World → Artifacts → Result (Unit {0})
validate_artifacts w a = do
  Partial.validate_evidence w a.partial
  Observe.validate_observe w a.observe
  Core.validate_file w a.samples
  Ledger.validate_ledger w a.ledger

-- and what they show together.
unfoldable pub validate_behavior : World → Artifacts → Result (Unit {0})
validate_behavior w a = do
  partial_data ← load_object w a.partial
  validate_partial_behavior partial_data
  observe_summary ← load_object w a.observe
  validate_observe_behavior observe_summary
  sample_rows ← load_jsonl w a.samples
  validate_samples sample_rows observe_summary
  daemon_rows ← load_jsonl w a.daemon_events
  validate_daemon_events daemon_rows

unfoldable pub validate_bundle : World → FilePath → Result (Unit {0})
validate_bundle w path = do
  summary ← load_object w path
  validate_claims summary
  paths ← artifact_paths w summary
  artifacts ← bundle_artifacts paths
  validate_artifacts w artifacts
  validate_behavior w artifacts
