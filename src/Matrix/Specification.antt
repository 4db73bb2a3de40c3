-- ===== src/Matrix/Specification.antt =====
-- qa/matrix_run_workload.py: `validate_workload_spec`.
use exasphere.Base.{
  ◌&&◌, ◌||◌, not, Option, none, some, List, [], ◌∷◌, String, str_eq, if◌then◌else◌, Error,
  ErrorKind, Result, ok, err, raise, ◌>>=◌, ◌>>◌, ◌<>◌, matrix_run_contract_error,
  benchmark_provenance_error,
}
use exasphere.Text.{in_table}
use exasphere.Json.{JsonValue, str, JsonObject, get, has_key, is_null, is_true, is_false, is_text}
use exasphere.World.{World, FilePath}
use exasphere.Checks.{has_keys}
use exasphere.Matrix.Model.{
  WorkloadScenarioMetadata, workload_spec_fields, workload_spec_schema, workload_threshold_sources,
  workload_tool_names,
}
use exasphere.Matrix.Values.{require, object, text, require_only_fields, require_safe_path}
use exasphere.Matrix.Workload.{
  require_workload_tools, validate_workload_thresholds, validate_workload_semantics, tools_expected,
  source_expected, require_expected_missing_prereq,
}
use exasphere.Matrix.Provenance.{validate_entries}

-- `except MatrixBenchmarkProvenanceError as exc: raise MatrixRunContractError(str(exc))`
abbrev provenance_error : ErrorKind → String → Error
provenance_error benchmark_provenance_error message = record {
  kind = matrix_run_contract_error;
  message = message;
}
provenance_error k message = record { kind = k; message = message }

convert_provenance_error : Result (Unit {0}) → Result (Unit {0})
convert_provenance_error (ok tt) = ok tt
convert_provenance_error (err e) = err (provenance_error e.kind e.message)

unfoldable pub validate_workload_benchmark_provenance :
    World → JsonValue → Option FilePath → String → Result (Unit {0})
unfolding convert_provenance_error
validate_workload_benchmark_provenance w value manifest_root context =
    convert_provenance_error (validate_entries w value manifest_root context)

missing_tool : Option WorkloadScenarioMetadata → JsonValue → String → Result (Unit {0})
missing_tool expected (str missing) context = do
  require (str_eq missing "" || in_table missing workload_tool_names)
      (context <> " has unsafe tool name")
  elim expected [ none ↦ ok tt | some e ↦ require_expected_missing_prereq missing e context ]
missing_tool expected _ context = raise matrix_run_contract_error (context <> " must be text")

-- `if "capability_artifact_path" in spec: return require_safe_path(...)`, and `None`.
capability_path : JsonObject → String → Result (Option String)
capability_path spec context =
    if has_key spec "capability_artifact_path"
    then (require_safe_path (get spec "capability_artifact_path")
          (context <> ".capability_artifact_path")
        >>= λ raw. ok (some raw))
    else ok none

abbrev pub required_spec_fields : List String
required_spec_fields =
    "schema" ∷ "workload_class" ∷ "scenario_id" ∷ "required_tools" ∷ "threshold_source"
    ∷ "thresholds" ∷ "vm_marker_required_for_live_run" ∷ "host_mutation" ∷ "release_eligible" ∷ []

unfoldable pub validate_workload_spec :
    World
    → JsonObject
    → String
    → String
    → Option WorkloadScenarioMetadata
    → String
    → Option FilePath
    → Result (Option String)
unfolding missing_tool capability_path
validate_workload_spec w spec scenario_id workload_class expected context manifest_root = do
  require_only_fields spec workload_spec_fields context
  require (has_keys spec required_spec_fields) (context <> " missing required workload spec fields")
  require (is_text workload_spec_schema (get spec "schema")) (context <> ".schema unsupported")
  require (is_text scenario_id (get spec "scenario_id"))
      (context <> ".scenario_id must match row scenario")
  require (is_text workload_class (get spec "workload_class"))
      (context <> ".workload_class must match row workload name")
  require (not (has_key spec "name") || is_text workload_class (get spec "name"))
      (context <> ".name must match workload_class")
  tools ← require_workload_tools (get spec "required_tools") (context <> ".required_tools")
  tools_expected expected tools (context <> ".required_tools")
  threshold_source ← text (get spec "threshold_source") (context <> ".threshold_source")
  require (in_table threshold_source workload_threshold_sources)
      (context <> ".threshold_source invalid")
  source_expected expected threshold_source (context <> ".threshold_source")
  thresholds ← object (get spec "thresholds") (context <> ".thresholds")
  validate_workload_thresholds thresholds threshold_source (context <> ".thresholds")
  validate_workload_semantics spec scenario_id context
  require (not (str_eq threshold_source "calibrated" && is_null (get spec "benchmark_provenance")))
      (context <> ".benchmark_provenance required when threshold_source is calibrated")
  validate_workload_benchmark_provenance w (get spec "benchmark_provenance") manifest_root
      (context <> ".benchmark_provenance")
  require (is_true (get spec "vm_marker_required_for_live_run"))
      (context <> ".vm_marker_required_for_live_run must be true")
  require (is_false (get spec "host_mutation")) (context <> ".host_mutation must be false")
  require (is_false (get spec "release_eligible")) (context <> ".release_eligible must be false")
  if has_key spec "missing_prereq"
      then missing_tool expected (get spec "missing_prereq") (context <> ".missing_prereq")
      else ok tt
  capability_path spec context
