-- ===== src/Matrix/Artifacts.antt =====
-- qa/matrix_run_manifest_validate.py: the claim of a VM and the artifacts that a row of a manifest
-- refers to.
pub mod Laws
use exasphere.Base.{
  Bool, true, false, ◌&&◌, ◌||◌, not, List, [], ◌∷◌, String, str_eq, if◌then◌else◌, ErrorKind,
  Error, Result, ok, err, raise, ◌>>=◌, ◌>>◌, ◌<>◌, drop_value, for_each, matrix_run_contract_error,
  runtime_sample_error,
}
use exasphere.Text.{in_table}
use exasphere.Json.{JsonValue, bool, str, obj, JsonObject, get, is_true, is_false, is_text}
use exasphere.Json.Equality.{value_eq}
use exasphere.World.{World, FilePath, path_of}
use exasphere.Sample.Core.{validate_file}
use exasphere.Matrix.Model.{
  vm_marker, incident_fields, rollback_proof_fields, cleanup_proof_fields, host_refusal_fields,
  vm_marker_proof_fields,
}
use exasphere.Matrix.Values.{
  require, object, text, bool_field, load_json, require_only_fields, require_safe_path,
  require_descendant, reject_private,
}

unfoldable pub validate_vm_marker_proof :
    JsonObject → Bool → Bool → String → String → Result (Unit {0})
validate_vm_marker_proof data_ marker_required marker_present evidence_mode context = do
  require_only_fields data_ vm_marker_proof_fields context
  require (is_text "zig-scheduler/vm-marker-proof/v1" (get data_ "schema"))
      (context <> ".schema unsupported")
  require (is_text vm_marker (get data_ "path")) (context <> ".path mismatch")
  require (value_eq (get data_ "required") (bool marker_required))
      (context <> ".required must match row marker")
  require (value_eq (get data_ "present") (bool marker_present))
      (context <> ".present must match row marker")
  require (is_text evidence_mode (get data_ "evidence_mode"))
      (context <> ".evidence_mode must match row evidence_mode")
  require (marker_required && marker_present && str_eq evidence_mode "vm-live")
      (context <> " must prove a real vm-live marker")
  require (is_false (get data_ "host_mutation")) (context <> ".host_mutation must be false")

-- What a manifest that authorises fixtures requires of a row.
fixture_claim : Bool → String → String → String → Result (Unit {0})
fixture_claim marker_present evidence_mode outcome context = do
  require (not marker_present) (context <> " fixture manifest must not claim VM marker presence")
  require (not (str_eq evidence_mode "vm-live"))
      (context <> " fixture manifest must not claim vm-live evidence")
  if str_eq outcome "PASS"
      then require (str_eq evidence_mode "fixture")
          (context <> " fixture PASS must use fixture evidence")
      else ok tt

-- The proof of the marker, in the file that the row names.
marker_file : World → JsonObject → Bool → Bool → String → FilePath → String → Result (Unit {0})
marker_file w marker marker_required marker_present evidence_mode manifest_root context = do
  raw ← require_safe_path (get marker "checked_by") (context <> ".vm_marker.checked_by")
  require_descendant (path_of raw) manifest_root (context <> ".vm_marker.checked_by")
  data_ ← load_json w (path_of raw)
  validate_vm_marker_proof data_ marker_required marker_present evidence_mode
      (context <> ".vm_marker.proof")

unfoldable pub validate_manifest_vm_claim :
    World → JsonObject → String → Bool → FilePath → String → Result (Unit {0})
unfolding fixture_claim marker_file
validate_manifest_vm_claim w row mode fixture_mode manifest_root context = do
  marker ← object (get row "vm_marker") (context <> ".vm_marker")
  marker_required ← bool_field (get marker "required") (context <> ".vm_marker.required")
  marker_present ← bool_field (get marker "present") (context <> ".vm_marker.present")
  evidence_mode ← text (get row "evidence_mode") (context <> ".evidence_mode")
  outcome ← text (get row "outcome") (context <> ".outcome")
  let fixture_authorized = fixture_mode && in_table mode ("host-safe" ∷ "auto" ∷ [])
  if str_eq evidence_mode "fixture"
      then require fixture_authorized (
          context
          <> " fixture evidence requires explicit fixture_mode=true on a host-safe/auto manifest")
      else ok tt
  if str_eq outcome "PASS" && not fixture_authorized
      then require (str_eq evidence_mode "vm-live")
          (context <> " non-fixture PASS requires vm-live evidence")
      else ok tt
  if fixture_authorized then fixture_claim marker_present evidence_mode outcome context else ok tt
  if str_eq evidence_mode "vm-live" || marker_present
      then marker_file w marker marker_required marker_present evidence_mode manifest_root context
      else ok tt

-- `RuntimeSampleError` becomes the matrix checker's error; the others pass.
convert_sample_error : {A : Type 0} → String → Result A → Result A
convert_sample_error context (ok a) = ok a
convert_sample_error context (err e) = elim e.kind [
  | runtime_sample_error ↦
      raise matrix_run_contract_error (context <> " invalid runtime sample artifact: " <> e.message)
  | _ ↦ err e
]

unfoldable pub validate_manifest_runtime_sample : World → FilePath → String → Result (Unit {0})
unfolding convert_sample_error
validate_manifest_runtime_sample w path context =
    drop_value (convert_sample_error context (validate_file w path))

unfoldable pub validate_incident_artifact :
    World → JsonObject → String → String → String → Result (Unit {0})
validate_incident_artifact w data_ scenario_id outcome context = do
  require_only_fields data_ incident_fields context
  require (is_text "zig-scheduler/matrix-incident/v1" (get data_ "schema"))
      (context <> ".schema unsupported")
  require (is_text scenario_id (get data_ "scenario_id")) (context <> ".scenario_id must match row")
  require (is_text outcome (get data_ "outcome")) (context <> ".outcome must match row")
  drop_value (text (get data_ "reason") (context <> ".reason"))
  require (is_false (get data_ "host_mutation")) (context <> ".host_mutation must be false")
  require (is_false (get data_ "release_eligible")) (context <> ".release_eligible must be false")
  reject_private w (obj data_) context

unfoldable pub validate_rollback_artifact : World → JsonObject → String → String → Result (Unit {0})
validate_rollback_artifact w data_ scenario_id context = do
  require_only_fields data_ rollback_proof_fields context
  require (is_text "zig-scheduler/rollback-proof/v1" (get data_ "schema"))
      (context <> ".schema unsupported")
  require (is_text scenario_id (get data_ "scenario_id")) (context <> ".scenario_id must match row")
  drop_value (text (get data_ "status") (context <> ".status"))
  drop_value (text (get data_ "scheduler_state") (context <> ".scheduler_state"))
  drop_value (text (get data_ "ops") (context <> ".ops"))
  require (is_false (get data_ "host_mutation")) (context <> ".host_mutation must be false")
  reject_private w (obj data_) context

unfoldable pub validate_cleanup_artifact :
    World → JsonObject → String → String → String → Result (Unit {0})
validate_cleanup_artifact w data_ scenario_id outcome context = do
  require_only_fields data_ cleanup_proof_fields context
  require (is_text "zig-scheduler/cleanup-proof/v1" (get data_ "schema"))
      (context <> ".schema unsupported")
  require (is_text scenario_id (get data_ "scenario_id")) (context <> ".scenario_id must match row")
  drop_value (text (get data_ "status") (context <> ".status"))
  for_each ("owned_qemu_leftovers" ∷ "owned_temp_leftovers" ∷ "host_mutation" ∷ [])
      (λ name. require (is_false (get data_ name)) (context <> "." <> name <> " must be false"))
  for_each ("qemu_scan_before" ∷ "qemu_scan_after" ∷ "temp_scan_before" ∷ "temp_scan_after" ∷ [])
      (λ name. drop_value (require_safe_path (get data_ name) (context <> "." <> name)))
  if str_eq outcome "FAIL"
      then ok tt
      else require (is_text "PASS" (get data_ "status"))
          (context <> ".status must be PASS unless row outcome is FAIL")
  reject_private w (obj data_) context

unfoldable pub validate_host_refusal_artifact :
    World → JsonObject → String → String → Result (Unit {0})
validate_host_refusal_artifact w data_ scenario_id context = do
  require_only_fields data_ host_refusal_fields context
  require (is_text "zig-scheduler/host-refusal-proof/v1" (get data_ "schema"))
      (context <> ".schema unsupported")
  require (is_text scenario_id (get data_ "scenario_id")) (context <> ".scenario_id must match row")
  require (is_text "REFUSE" (get data_ "status")) (context <> ".status must be REFUSE")
  drop_value (text (get data_ "reason") (context <> ".reason"))
  for_each ("no_bpf_load_attach" ∷ "no_cgroup_write" ∷ "no_sys_write" ∷ "no_proc_write" ∷ [])
      (λ name. require (is_true (get data_ name)) (context <> "." <> name <> " must be true"))
  require (is_false (get data_ "host_mutation")) (context <> ".host_mutation must be false")
  reject_private w (obj data_) context

-- `load_json(Path(text(row.get(name), ...)))`
named_artifact : World → JsonObject → String → String → Result JsonObject
named_artifact w row name context = do
  raw ← text (get row name) (context <> "." <> name)
  load_json w (path_of raw)

unfoldable pub validate_manifest_proof_artifacts : World → JsonObject → String → Result (Unit {0})
unfolding named_artifact
validate_manifest_proof_artifacts w row context = do
  scenario_id ← text (get row "scenario_id") (context <> ".scenario_id")
  outcome ← text (get row "outcome") (context <> ".outcome")
  sample_path ← text (get row "runtime_sample_path") (context <> ".runtime_sample_path")
  validate_manifest_runtime_sample w (path_of sample_path) (context <> ".runtime_sample_path")
  incident ← named_artifact w row "incident_path" context
  validate_incident_artifact w incident scenario_id outcome (context <> ".incident")
  rollback ← named_artifact w row "rollback_proof_path" context
  validate_rollback_artifact w rollback scenario_id (context <> ".rollback_proof")
  cleanup ← named_artifact w row "cleanup_proof_path" context
  validate_cleanup_artifact w cleanup scenario_id outcome (context <> ".cleanup_proof")
  refusal ← named_artifact w row "host_refusal_proof_path" context
  validate_host_refusal_artifact w refusal scenario_id (context <> ".host_refusal_proof")
