-- ===== src/Matrix/Workload.antt =====
-- qa/matrix_run_workload.py: the workload of a row, its thresholds, semantics and capability, and the
-- privacy report; the specification is in Specification.
use exasphere.Base.{
  Bool, true, ◌&&◌, ◌||◌, not, Option, none, some, List, [], ◌∷◌, String, str_eq, if◌then◌else◌,
  Result, ok, raise, ◌>>=◌, ◌>>◌, ◌<>◌, drop_value, for_each, all, matrix_run_contract_error,
}
use exasphere.Text.{in_table, starts_with}
use exasphere.Json.{
  JsonValue, str, JsonObject, end, field, keys, get, has_key, is_true, is_false, is_text,
}
use exasphere.Json.Equality.{value_eq}
use exasphere.Checks.{comma_join, sorted, is_empty, has_keys}
use exasphere.Matrix.Model.{
  WorkloadScenarioMetadata, workload_scenario_metadata, workload_fields, workload_threshold_fields,
  workload_tool_names, workload_threshold_sources, workload_capability_fields,
  workload_capability_modes, workload_capability_schema, cgroup_workload_semantics,
  cpu_hotplug_semantics, outcomes, privacy_scan_schema, privacy_report_fields,
}
use exasphere.Matrix.Values.{
  require, object, text, require_only_fields, require_safe_path, require_sha, text_list,
}

metadata_in : List WorkloadScenarioMetadata → String → Option WorkloadScenarioMetadata
metadata_in [] scenario_id = none
metadata_in (m ∷ ms) scenario_id =
    if str_eq m.scenario_id scenario_id then some m else metadata_in ms scenario_id

unfoldable pub expected_workload_metadata : String → Option WorkloadScenarioMetadata
unfolding metadata_in
expected_workload_metadata scenario_id = metadata_in workload_scenario_metadata scenario_id

unfoldable pub require_expected_workload_metadata :
    String → String → Result WorkloadScenarioMetadata
require_expected_workload_metadata scenario_id context =
    elim (expected_workload_metadata scenario_id) [
      | none ↦
          raise matrix_run_contract_error
            (context <> ".scenario_id has no canonical workload metadata: " <> scenario_id)
      | some expected ↦ ok expected
    ]

-- `len(set(tools)) == len(tools)`
abbrev pub distinct : List String → Bool
distinct [] = true
distinct (s ∷ ss) = not (in_table s ss) && distinct ss

-- `set(names) == set(table)`
abbrev pub same_set : List String → List String → Bool
same_set names table =
    all (λ name. in_table name table) names && all (λ name. in_table name names) table

unfoldable pub require_expected_tools :
    List String → WorkloadScenarioMetadata → String → Result (Unit {0})
require_expected_tools tools expected context = do
  require (distinct tools) (context <> " must not contain duplicate tools")
  require (same_set tools expected.required_tools) (
      context
      <> " must match scenario "
      <> expected.scenario_id
      <> " required tools: "
      <> comma_join expected.required_tools)

unfoldable pub require_expected_threshold_source :
    String → WorkloadScenarioMetadata → String → Result (Unit {0})
require_expected_threshold_source source expected context =
    require (in_table source expected.threshold_sources) (
      context
      <> " must match scenario "
      <> expected.scenario_id
      <> " threshold_source: "
      <> comma_join (sorted expected.threshold_sources))

unfoldable pub require_expected_missing_prereq :
    String → WorkloadScenarioMetadata → String → Result (Unit {0})
require_expected_missing_prereq missing expected context =
    require (str_eq missing "" || in_table missing expected.required_tools) (
      context
      <> " must be empty or one of scenario "
      <> expected.scenario_id
      <> " required tools: "
      <> comma_join expected.required_tools)

-- `require_expected_workload_metadata(...) if scenario_id.startswith("workload-") else
-- expected_workload_metadata(scenario_id)`
unfoldable pub scenario_metadata : String → String → Result (Option WorkloadScenarioMetadata)
scenario_metadata scenario_id context =
    if starts_with scenario_id "workload-"
    then (require_expected_workload_metadata scenario_id context >>= λ expected. ok (some expected))
    else ok (expected_workload_metadata scenario_id)

unfoldable pub class_matches :
    Option WorkloadScenarioMetadata → String → String → String → Result (Unit {0})
class_matches none name scenario_id context = ok tt
class_matches (some expected) name scenario_id context =
    require (str_eq name expected.workload_class) (
      context <> ".workload.name must match scenario " <> scenario_id <> " workload class "
      <> expected.workload_class)

unfoldable pub validate_workload : JsonObject → String → String → Result (Unit {0})
unfolding scenario_metadata class_matches
validate_workload workload scenario_id context = do
  require_only_fields workload workload_fields (context <> ".workload")
  workload_name ← text (get workload "name") (context <> ".workload.name")
  drop_value (require_safe_path (get workload "spec_path") (context <> ".workload.spec_path"))
  require_sha workload "spec_sha256" (context <> ".workload")
  expected ← scenario_metadata scenario_id context
  class_matches expected workload_name scenario_id context

unfoldable pub require_workload_tools : JsonValue → String → Result (List String)
require_workload_tools value context = do
  tools ← text_list value context
  require (not (is_empty tools)) (context <> " must not be empty")
  for_each tools (λ tool.
      require (in_table tool workload_tool_names) (context <> " has unsafe tool name: " <> tool))
  ok tools

unfoldable pub validate_workload_thresholds : JsonObject → String → String → Result (Unit {0})
validate_workload_thresholds thresholds source context = do
  require_only_fields thresholds workload_threshold_fields context
  require (is_text source (get thresholds "source"))
      (context <> ".source must match threshold_source")
  drop_value (text (get thresholds "fixture_status") (context <> ".fixture_status"))
  drop_value (text (get thresholds "calibration_status") (context <> ".calibration_status"))
  require (is_false (get thresholds "production_capacity_claim"))
      (context <> ".production_capacity_claim must be false")

-- The labels of the expected tables are texts.
label_text : JsonValue → String
label_text (str s) = s
label_text _ = ""

-- The `for` loop.
unfoldable pub labels_match : JsonObject → JsonObject → String → Result (Unit {0})
unfolding label_text
labels_match semantics end context = ok tt
labels_match semantics (field knob expected_label rest) context =
    require (value_eq (get semantics knob) expected_label)
      (context <> "." <> knob <> " must be " <> label_text expected_label)
    >> labels_match semantics rest context

unfoldable pub validate_semantics_exact : JsonValue → JsonObject → String → Result (Unit {0})
validate_semantics_exact value expected context = do
  semantics ← object value context
  require (same_set (keys semantics) (keys expected))
      (context <> " keys must match Todo 7 VM-only semantics")
  labels_match semantics expected context

no_cgroup_semantics : JsonObject → String → Result (Unit {0})
no_cgroup_semantics spec context =
    require (not (has_key spec "cgroup_semantics"))
      (context <> ".cgroup_semantics is only allowed for workload-cgroup-weight-quota")

no_cpu_hotplug_semantics : JsonObject → String → Result (Unit {0})
no_cpu_hotplug_semantics spec context =
    require (not (has_key spec "cpu_hotplug_semantics"))
      (context <> ".cpu_hotplug_semantics is only allowed for workload-cpu-hotplug")

unfoldable pub validate_workload_semantics : JsonObject → String → String → Result (Unit {0})
unfolding no_cgroup_semantics no_cpu_hotplug_semantics
validate_workload_semantics spec scenario_id context =
    if str_eq scenario_id "workload-cgroup-weight-quota"
    then (validate_semantics_exact (get spec "cgroup_semantics") cgroup_workload_semantics
          (context <> ".cgroup_semantics")
        >> no_cpu_hotplug_semantics spec context)
    else if str_eq scenario_id "workload-cpu-hotplug"
    then (validate_semantics_exact (get spec "cpu_hotplug_semantics") cpu_hotplug_semantics
          (context <> ".cpu_hotplug_semantics")
        >> no_cgroup_semantics spec context)
    else (no_cgroup_semantics spec context >> no_cpu_hotplug_semantics spec context)

-- The keyword arguments that `validate_workload_spec` of a scenario adds to a fixture.
unfoldable pub workload_semantic_fields : String → JsonObject
workload_semantic_fields scenario_id =
    if str_eq scenario_id "workload-cgroup-weight-quota"
    then field "cgroup_semantics" (JsonValue.obj cgroup_workload_semantics) end
    else if str_eq scenario_id "workload-cpu-hotplug"
    then field "cpu_hotplug_semantics" (JsonValue.obj cpu_hotplug_semantics) end
    else end

-- What `if expected is not None:` requires of the tools, of the source and of the missing tool.
unfoldable pub tools_expected :
    Option WorkloadScenarioMetadata → List String → String → Result (Unit {0})
tools_expected none tools context = ok tt
tools_expected (some expected) tools context = require_expected_tools tools expected context

unfoldable pub source_expected :
    Option WorkloadScenarioMetadata → String → String → Result (Unit {0})
source_expected none source context = ok tt
source_expected (some expected) source context =
    require_expected_threshold_source source expected context

missing_expected : Option WorkloadScenarioMetadata → String → String → String → Result (Unit {0})
missing_expected none missing row_outcome context = ok tt
missing_expected (some expected) missing row_outcome context = do
  require_expected_missing_prereq missing expected (context <> ".missing_prereq")
  if str_eq row_outcome "PASS"
      then require (str_eq missing "") (context <> ".missing_prereq must be empty for PASS")
      else if str_eq row_outcome "SKIP"
      then require (not (str_eq missing ""))
          (context <> ".missing_prereq must name the missing scenario tool for SKIP")
      else if str_eq row_outcome "REFUSE"
      then ok tt
      else require (str_eq missing "")
          (context <> ".missing_prereq must be empty unless outcome is SKIP or REFUSE")

missing_prereq_of : JsonValue → String → Result String
missing_prereq_of value context = if is_text "" value then ok "" else text value context

unfoldable pub validate_workload_capability :
    JsonObject
    → String
    → String
    → Option WorkloadScenarioMetadata
    → String
    → String
    → Result (Unit {0})
unfolding tools_expected source_expected missing_expected missing_prereq_of
validate_workload_capability capability scenario_id workload_class expected row_outcome context = do
  require_only_fields capability workload_capability_fields context
  require
      (has_keys capability (
        "schema" ∷ "scenario_id" ∷ "workload_class" ∷ "required_tools" ∷ "threshold_source" ∷ "mode"
        ∷ "status" ∷ "typed_outcome" ∷ "missing_prereq" ∷ "vm_marker_required_for_live_run"
        ∷ "host_mutation" ∷ "release_eligible" ∷ []))
      (context <> " missing required workload capability fields")
  require (is_text workload_capability_schema (get capability "schema"))
      (context <> ".schema unsupported")
  require (is_text scenario_id (get capability "scenario_id"))
      (context <> ".scenario_id must match row scenario")
  require (is_text workload_class (get capability "workload_class"))
      (context <> ".workload_class must match row workload name")
  tools ← require_workload_tools (get capability "required_tools") (context <> ".required_tools")
  tools_expected expected tools (context <> ".required_tools")
  threshold_source ← text (get capability "threshold_source") (context <> ".threshold_source")
  require (in_table threshold_source workload_threshold_sources)
      (context <> ".threshold_source invalid")
  source_expected expected threshold_source (context <> ".threshold_source")
  mode ← text (get capability "mode") (context <> ".mode")
  require (in_table mode workload_capability_modes) (context <> ".mode invalid")
  status ← text (get capability "status") (context <> ".status")
  require (in_table status outcomes) (context <> ".status invalid")
  require (str_eq status row_outcome) (context <> ".status must match row outcome")
  typed_outcome ← text (get capability "typed_outcome") (context <> ".typed_outcome")
  require (in_table typed_outcome outcomes) (context <> ".typed_outcome invalid")
  require (str_eq typed_outcome row_outcome) (context <> ".typed_outcome must match row outcome")
  missing ← missing_prereq_of (get capability "missing_prereq") (context <> ".missing_prereq")
  require (str_eq missing "" || in_table missing workload_tool_names)
      (context <> ".missing_prereq has unsafe tool name")
  missing_expected expected missing row_outcome context
  require (is_true (get capability "vm_marker_required_for_live_run"))
      (context <> ".vm_marker_required_for_live_run must be true")
  require (is_false (get capability "host_mutation")) (context <> ".host_mutation must be false")
  require (is_false (get capability "release_eligible"))
      (context <> ".release_eligible must be false")

unfoldable pub validate_privacy_report : JsonObject → String → Result (Unit {0})
validate_privacy_report report context = do
  require_only_fields report privacy_report_fields context
  require (is_text privacy_scan_schema (get report "schema")) (context <> ".schema unsupported")
  require (is_text "PASS" (get report "status")) (context <> ".status must be PASS")
  require (is_false (get report "private_fields_found"))
      (context <> ".private_fields_found must be false")
  require (is_false (get report "host_mutation")) (context <> ".host_mutation must be false")
