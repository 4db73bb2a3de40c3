-- ===== src/Matrix/Row.antt =====
-- qa/matrix_run_validate.py: `validate_row` and the checks of a row's parts.
pub mod Parts
pub mod Laws
use exasphere.Base.{
  ℕ, Bool, true, false, ◌&&◌, ◌||◌, not, Option, none, some, List, [], ◌∷◌, String, str_eq, leb,
  if◌then◌else◌, Result, ok, raise, ◌>>=◌, ◌>>◌, ◌<>◌, drop_value, for_each,
  matrix_run_contract_error,
}
use exasphere.Text.{in_table}
use exasphere.Json.{JsonValue, obj, JsonObject, get, is_false, is_text}
use exasphere.World.{World}
use exasphere.Checks.{has_keys}
use exasphere.Matrix.Model.{
  schema, matrix_bpf_abi_version, vm_marker, outcomes, evidence_modes, tuple_status, path_fields,
  row_fields, kernel_tuple_fields, vm_marker_fields, policy_fields, privacy_scan_fields, git_fields,
  run_id_re, id_re, audit_re,
}
use exasphere.Matrix.Values.{
  require, object, text, bool_field, require_only_fields, reject_private, validate_scheduler_state,
  require_safe_path, require_identifier, require_sha,
}
use exasphere.Matrix.Workload.{validate_workload}

-- What the evidence mode requires of the marker's two flags.
unfoldable pub marker_matches : String → Bool → Bool → String → Result (Unit {0})
marker_matches mode required present context =
    if str_eq mode "vm-live"
    then require (required && present) (context <> " VM-live row requires present VM marker")
    else if in_table mode ("host-refusal-only" ∷ "fixture" ∷ [])
    then require (not required && not present)
        (context <> " " <> mode <> " row must not claim VM marker")
    else raise matrix_run_contract_error (context <> ".evidence_mode invalid")

unfoldable pub validate_vm_marker : JsonObject → String → String → Result (Unit {0})
validate_vm_marker marker mode context = do
  require_only_fields marker vm_marker_fields (context <> ".vm_marker")
  required ← bool_field (get marker "required") (context <> ".vm_marker.required")
  present ← bool_field (get marker "present") (context <> ".vm_marker.present")
  path ← text (get marker "path") (context <> ".vm_marker.path")
  require (str_eq path vm_marker) (context <> ".vm_marker.path mismatch")
  drop_value (text (get marker "checked_by") (context <> ".vm_marker.checked_by"))
  marker_matches mode required present context

unfoldable pub validate_pass_evidence_mode : String → String → String → Result (Unit {0})
validate_pass_evidence_mode outcome mode context =
    if str_eq outcome "PASS"
    then require (in_table mode ("vm-live" ∷ "fixture" ∷ []))
        (context <> " PASS requires vm-live proof or explicit fixture evidence")
    else ok tt

unfoldable pub validate_policy : JsonObject → String → Result (Unit {0})
validate_policy policy context = do
  require_only_fields policy policy_fields (context <> ".policy")
  for_each ("name" ∷ "object_path" ∷ "source_path" ∷ [])
      (λ name. drop_value (text (get policy name) (context <> ".policy." <> name)))
  drop_value (require_safe_path (get policy "object_path") (context <> ".policy.object_path"))
  drop_value (require_safe_path (get policy "source_path") (context <> ".policy.source_path"))
  require_sha policy "object_sha256" (context <> ".policy")
  require_sha policy "source_sha256" (context <> ".policy")

unfoldable pub validate_privacy : JsonObject → String → Result (Unit {0})
validate_privacy scan context = do
  require_only_fields scan privacy_scan_fields (context <> ".privacy_scan")
  require (is_text "PASS" (get scan "status")) (context <> ".privacy_scan.status must be PASS")
  require (is_false (get scan "private_fields_found"))
      (context <> ".privacy_scan.private_fields_found must be false")
  drop_value (require_safe_path (get scan "report_path") (context <> ".privacy_scan.report_path"))

unfoldable pub validate_git : JsonObject → String → Result (Unit {0})
validate_git git context = do
  require_only_fields git git_fields (context <> ".git")
  expected ← text (get git "expected_sha") (context <> ".git.expected_sha")
  actual ← text (get git "actual_sha") (context <> ".git.actual_sha")
  require (is_text "current" (get git "status")) (context <> ".git.status must be current")
  require (is_false (get git "dirty")) (context <> ".git.dirty must be false")
  require (str_eq expected actual) (context <> ".git expected_sha must match actual_sha")

-- Both sequence numbers are there, and the later one is lower.
abbrev pub is_stale : Option ℕ → Option ℕ → Bool
is_stale (some pre) (some post) = not (leb pre post)
is_stale _ _ = false

-- The scheduler's states before and after the run.
unfoldable pub validate_states : World → JsonObject → String → Result (Unit {0})
validate_states w row context = do
  pre_state ← object (get row "pre_scheduler_state") (context <> ".pre_scheduler_state")
  pre_enable_seq ← validate_scheduler_state w pre_state (context <> ".pre_scheduler_state")
  post_state ← object (get row "post_scheduler_state") (context <> ".post_scheduler_state")
  post_enable_seq ← validate_scheduler_state w post_state (context <> ".post_scheduler_state")
  require (not (is_stale pre_enable_seq post_enable_seq))
      (context <> ".post_scheduler_state.enable_seq is stale")

-- The checks of `validate_row` up to the scheduler's states; `required_fields` is ROW_FIELDS sorted.
unfoldable pub validate_header : JsonObject → String → Result (String × String)
validate_header row context = do
  require_only_fields row row_fields context
  require (has_keys row row_fields) (context <> " missing required fields")
  require (is_text schema (get row "schema")) (context <> " bad schema")
  outcome ← text (get row "outcome") (context <> ".outcome")
  require (in_table outcome outcomes) (context <> ".outcome invalid")
  mode ← text (get row "evidence_mode") (context <> ".evidence_mode")
  require (in_table mode evidence_modes) (context <> ".evidence_mode invalid")
  status ← text (get row "supported_tuple_status") (context <> ".supported_tuple_status")
  require (in_table status tuple_status) (context <> ".supported_tuple_status invalid")
  require (is_false (get row "host_mutation")) (context <> ".host_mutation must be false")
  require (is_false (get row "release_eligible")) (context <> ".release_eligible must be false")
  require (is_text matrix_bpf_abi_version (get row "bpf_abi_version"))
      (context <> ".bpf_abi_version must be " <> matrix_bpf_abi_version)
  require_identifier row "matrix_run_id" run_id_re context
  for_each ("scenario_id" ∷ "action_id" ∷ "rollback_id" ∷ [])
      (λ name. require_identifier row name id_re context)
  ok (outcome, mode)

-- The checks of `validate_row` that follow the scheduler's states.
unfoldable pub validate_parts : JsonObject → String → String → String → Result (Unit {0})
validate_parts row scenario_id mode context = do
  for_each ("pre_cgroup_state" ∷ "post_cgroup_state" ∷ [])
      (λ name. drop_value (object (get row name) (context <> "." <> name)))
  kernel_tuple ← object (get row "kernel_tuple") (context <> ".kernel_tuple")
  require_only_fields kernel_tuple kernel_tuple_fields (context <> ".kernel_tuple")
  marker ← object (get row "vm_marker") (context <> ".vm_marker")
  validate_vm_marker marker mode context
  policy ← object (get row "policy") (context <> ".policy")
  validate_policy policy context
  workload ← object (get row "workload") (context <> ".workload")
  validate_workload workload scenario_id context
  scan ← object (get row "privacy_scan") (context <> ".privacy_scan")
  validate_privacy scan context
  git ← object (get row "git") (context <> ".git")
  validate_git git context

unfoldable pub validate_row : World → JsonObject → String → Result (Unit {0})
validate_row w row context = validate_header row context >>= λ head. do
  scenario_id ← text (get row "scenario_id") (context <> ".scenario_id")
  require_identifier row "audit_id" audit_re context
  for_each path_fields
      (λ name. drop_value (require_safe_path (get row name) (context <> "." <> name)))
  validate_states w row context
  validate_parts row scenario_id head.1 context
  validate_pass_evidence_mode head.0 head.1 context
  reject_private w (obj row) context
