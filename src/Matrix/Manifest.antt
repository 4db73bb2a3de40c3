-- ===== src/Matrix/Manifest.antt =====
-- qa/matrix_run_manifest_validate.py: the manifest of a matrix run, its rows, and what they refer to.
pub mod Rows
pub mod Laws
use exasphere.Base.{
  ℕ, suc, ◌+◌, Bool, true, false, ◌&&◌, ◌||◌, not, Option, none, some, List, [], ◌∷◌, String,
  str_eq, ◌==◌, if◌then◌else◌, Error, ErrorKind, Result, ok, err, raise, ◌>>=◌, ◌>>◌, ◌<>◌,
  for_each, contract_error, matrix_run_contract_error,
}
use exasphere.Text.{in_table}
use exasphere.Text.Digits.{show}
use exasphere.Json.{
  ℤ, pos, JsonValue, int, Items, nil, cons, JsonObject, get, is_false, is_text, as_int,
}
use exasphere.Json.Equality.{value_eq}
use exasphere.World.{World, FilePath, path_of, path_text, name_of, same_path}
use exasphere.Checks.{list_as}
use exasphere.Daemon
use exasphere.Matrix.Model.{
  WorkloadScenarioMetadata, manifest_fields, manifest_row_fields, path_fields, run_id_re, id_re,
}
use exasphere.Matrix.Values.{
  require, object, text, bool_field, load_json, require_only_fields, require_safe_path,
  require_manifest_root, require_descendant, file_sha256, reject_workload_artifact_private,
}
use exasphere.Matrix.Workload.{
  scenario_metadata, class_matches, validate_workload_capability, validate_privacy_report,
}
use exasphere.Matrix.Specification.{validate_workload_spec}
use exasphere.Matrix.Row.{validate_row}
use exasphere.Matrix.Artifacts.{validate_manifest_vm_claim, validate_manifest_proof_artifacts}
use exasphere.Matrix.Backend.{validate_live_backend_summary_consistency}

-- `except DaemonEventContractError as exc: raise MatrixRunContractError(...)`
abbrev stream_error : String → ErrorKind → String → Error
stream_error context contract_error message = record {
  kind = matrix_run_contract_error;
  message = context <> " invalid daemon event stream: " <> message;
}
stream_error context k message = record { kind = k; message = message }

unfoldable pub convert_stream_error : String → Result (Unit {0}) → Result (Unit {0})
convert_stream_error context (ok tt) = ok tt
convert_stream_error context (err e) = err (stream_error context e.kind e.message)

unfoldable pub validate_manifest_daemon_events :
    World → FilePath → FilePath → String → Result (Unit {0})
unfolding convert_stream_error
validate_manifest_daemon_events w path manifest_root context = do
  require_descendant path manifest_root context
  convert_stream_error context (Daemon.validate w path false)

-- `require_descendant(Path(require_safe_path(value, context)), manifest_root, context)`, and the path.
unfoldable pub descendant_path : JsonValue → FilePath → String → Result FilePath
descendant_path value manifest_root context = do
  raw ← require_safe_path value context
  require_descendant (path_of raw) manifest_root context
  ok (path_of raw)

capability_or : Option String → String → Result String
capability_or none context =
    raise matrix_run_contract_error (context <> " is required in manifest mode")
capability_or (some raw) context = ok raw

unfoldable pub validate_manifest_workload_artifacts :
    World → JsonObject → FilePath → FilePath → FilePath → String → Result (Unit {0})
unfolding capability_or
validate_manifest_workload_artifacts w row manifest_root spec_path privacy_path context = do
  workload ← object (get row "workload") (context <> ".workload")
  scenario_id ← text (get row "scenario_id") (context <> ".scenario_id")
  expected ← scenario_metadata scenario_id context
  workload_class ← text (get workload "name") (context <> ".workload.name")
  class_matches expected workload_class scenario_id context
  expected_sha ← text (get workload "spec_sha256") (context <> ".workload.spec_sha256")
  actual ← file_sha256 w spec_path
  require (str_eq actual expected_sha)
      (context <> ".workload.spec_sha256 does not match referenced workload spec")
  spec ← load_json w spec_path
  reject_workload_artifact_private w (JsonValue.obj spec) (context <> ".workload.spec")
  found ←
      validate_workload_spec w spec scenario_id workload_class expected
        (context <> ".workload.spec") (some manifest_root)
  raw ← capability_or found (context <> ".workload.spec.capability_artifact_path")
  require_descendant (path_of raw) manifest_root
      (context <> ".workload.spec.capability_artifact_path")
  capability ← load_json w (path_of raw)
  reject_workload_artifact_private w (JsonValue.obj capability) (context <> ".workload.capability")
  outcome ← text (get row "outcome") (context <> ".outcome")
  validate_workload_capability capability scenario_id workload_class expected outcome
      (context <> ".workload.capability")
  privacy_report ← load_json w privacy_path
  reject_workload_artifact_private w (JsonValue.obj privacy_report)
      (context <> ".privacy_scan.report")
  validate_privacy_report privacy_report (context <> ".privacy_scan.report")

unfoldable pub path_below : JsonObject → FilePath → String → String → Result (Unit {0})
path_below row manifest_root context name =
    descendant_path (get row name) manifest_root (context <> "." <> name) >>= λ path. ok tt

unfoldable pub validate_manifest_row_paths :
    World → JsonObject → FilePath → String → Result (Unit {0})
validate_manifest_row_paths w row manifest_root context = do
  daemon_event_path ←
      descendant_path (get row "daemon_event_path") manifest_root (context <> ".daemon_event_path")
  validate_manifest_daemon_events w daemon_event_path manifest_root
      (context <> ".daemon_event_path")
  for_each path_fields (path_below row manifest_root context)
  policy ← object (get row "policy") (context <> ".policy")
  path_below policy manifest_root (context <> ".policy") "object_path"
  workload ← object (get row "workload") (context <> ".workload")
  spec_path ←
      descendant_path (get workload "spec_path") manifest_root (context <> ".workload.spec_path")
  privacy ← object (get row "privacy_scan") (context <> ".privacy_scan")
  privacy_path ←
      descendant_path (get privacy "report_path") manifest_root
        (context <> ".privacy_scan.report_path")
  validate_manifest_workload_artifacts w row manifest_root spec_path privacy_path context
  validate_manifest_proof_artifacts w row context

-- What the manifest says of all rows.
pub record Manifest : Type 0 where
  pub path : FilePath
  pub root : FilePath
  pub run_id : String
  pub mode : String
  pub fixture_mode : Bool

-- What the loop has seen: the scenarios, and the artifacts' paths.
pub record Seen : Type 0 where
  pub scenarios : List String
  pub artifacts : List String

-- The row's file and its checks, which the loop makes after those of the manifest's entry.
unfoldable pub validate_artifact :
    World → Manifest → JsonObject → FilePath → String → Result (Unit {0})
validate_artifact w m manifest_row artifact_path context = do
  row ← load_json w artifact_path
  let name = path_text artifact_path
  validate_row w row name
  validate_manifest_row_paths w row m.root name
  validate_manifest_vm_claim w row m.mode m.fixture_mode m.root name
  validate_live_backend_summary_consistency w row artifact_path name
  require (is_text m.run_id (get row "matrix_run_id"))
      (name <> ".matrix_run_id must match manifest")
  require (value_eq (get manifest_row "scenario_id") (get row "scenario_id"))
      (context <> ".scenario_id mismatch")
  require (value_eq (get manifest_row "outcome") (get row "outcome"))
      (context <> ".outcome mismatch")

unfoldable pub validate_manifest_row : World → Manifest → ℕ → JsonValue → Seen → Result Seen
validate_manifest_row w m index raw_row seen = do
  let context = path_text m.path <> ".rows[" <> show index <> "]"
  manifest_row ← object raw_row context
  require_only_fields manifest_row manifest_row_fields context
  scenario_id ← text (get manifest_row "scenario_id") (context <> ".scenario_id")
  require (id_re scenario_id) (context <> ".scenario_id is not a stable identifier")
  require (not (in_table scenario_id seen.scenarios))
      (context <> ".scenario_id duplicates an earlier row")
  raw ← require_safe_path (get manifest_row "artifact_path") (context <> ".artifact_path")
  let artifact_path = path_of raw
  require (not (in_table (path_text artifact_path) seen.artifacts))
      (context <> ".artifact_path duplicates an earlier row")
  require_descendant artifact_path m.root (context <> ".artifact_path")
  require (str_eq (name_of artifact_path) "matrix-run.json")
      (context <> ".artifact_path must point to matrix-run.json")
  validate_artifact w m manifest_row artifact_path context
  ok (record {
    scenarios = scenario_id ∷ seen.scenarios;
    artifacts = path_text artifact_path ∷ seen.artifacts;
  })

unfoldable pub validate_manifest_rows : World → Manifest → ℕ → Items → Seen → Result Seen
validate_manifest_rows w m index nil seen = ok seen
validate_manifest_rows w m index (cons raw_row rows) seen = do
  seen' ← validate_manifest_row w m index raw_row seen
  validate_manifest_rows w m (suc index) rows seen'

abbrev pub count : Items → ℕ
count nil = 0
count (cons v vs) = suc (count vs)

-- The checks of the manifest itself: what it is, with the run id,
unfoldable pub validate_manifest_identity : FilePath → FilePath → JsonObject → Result String
validate_manifest_identity manifest_path manifest_root manifest = do
  let context = path_text manifest_path
  require_only_fields manifest manifest_fields context
  require (is_text "zig-scheduler/vm-harness-matrix-index/v1" (get manifest "schema"))
      (context <> ".schema unsupported")
  require (is_false (get manifest "host_mutation")) (context <> ".host_mutation must be false")
  require (is_false (get manifest "release_eligible"))
      (context <> ".release_eligible must be false")
  run_id ← text (get manifest "matrix_run_id") (context <> ".matrix_run_id")
  require (run_id_re run_id) (context <> ".matrix_run_id must be 1-64 safe characters")
  require (str_eq run_id (name_of manifest_root))
      (context <> ".matrix_run_id must equal out_dir basename " <> name_of manifest_root)
  out_dir ← require_safe_path (get manifest "out_dir") (context <> ".out_dir")
  require (same_path (path_of out_dir) manifest_root)
      (context <> ".out_dir must match manifest directory")
  ok run_id

-- and the rest of them, up to its rows.
unfoldable pub validate_manifest_head :
    World → FilePath → FilePath → JsonObject → Result (Manifest × Items)
validate_manifest_head w manifest_path manifest_root manifest = do
  let context = path_text manifest_path
  run_id ← validate_manifest_identity manifest_path manifest_root manifest
  daemon_events_path ←
      descendant_path (get manifest "daemon_events_path") manifest_root
        (context <> ".daemon_events_path")
  mode ← text (get manifest "mode") (context <> ".mode")
  fixture_mode ← bool_field (get manifest "fixture_mode") (context <> ".fixture_mode")
  started_at ← text (get manifest "started_at") (context <> ".started_at")
  ended_at ← text (get manifest "ended_at") (context <> ".ended_at")
  rows ← list_as matrix_run_contract_error (get manifest "rows") (context <> ".rows must be a list")
  require (value_eq (get manifest "row_count") (int (pos (count rows))))
      (context <> ".row_count must match rows length")
  validate_manifest_daemon_events w daemon_events_path manifest_root
      (context <> ".daemon_events_path")
  ok (
    (record {
      path = manifest_path;
      root = manifest_root;
      run_id = run_id;
      mode = mode;
      fixture_mode = fixture_mode;
    }),
    rows,
  )

-- The number of rows that were validated.
unfoldable pub validate_manifest : World → FilePath → Result ℕ
validate_manifest w manifest_path = do
  manifest_root ← require_manifest_root manifest_path
  manifest ← load_json w manifest_path
  (m, rows) ← validate_manifest_head w manifest_path manifest_root manifest
  seen ← validate_manifest_rows w m 0 rows (record { scenarios = []; artifacts = [] })
  ok (count rows)
