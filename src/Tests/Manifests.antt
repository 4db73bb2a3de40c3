-- ===== src/Tests/Manifests.antt =====
-- A manifest of one fixture row, with the files that the row refers to.
use exasphere.Matrix.Backend
use exasphere.Sample.SchedExt.Sequence
use exasphere.Sample.PolicyAbi
use exasphere.Sample.Tokens
use exasphere.Sample.SchedExt
use exasphere.Matrix.Provenance
use exasphere.Matrix.Artifacts
use exasphere.Sample.Core
use exasphere.Sample.Common
use exasphere.Matrix.Specification
use exasphere.Text.Digits
use exasphere.Matrix.Workload
use exasphere.Matrix.Row
use exasphere.Json
use exasphere.Json.Equality
use exasphere.Daemon
use exasphere.Text
use exasphere.Matrix.Values
use exasphere.Matrix.Model
use exasphere.Checks
use exasphere.Matrix.Manifest
use exasphere.Base.{
  ◌≡◌, refl, true, false, [], ◌∷◌, String, str_eq, if◌then◌else◌, ok, guard, for_each,
}
use exasphere.Json.{
  pos, JsonValue, bool, int, str, arr, cons, nil, obj, JsonObject, end, field, get,
}
use exasphere.World.{parsed, World, path_of, name_of, found, decoded}
use exasphere.Matrix.Manifest.{validate_manifest}
use exasphere.Matrix.Manifest.Laws.{AcceptedManifest, validate_manifest-AcceptedManifest}
use exasphere.Tests.Samples.{whole_sample}
use exasphere.Tests.Matrices.{sha, state_at, marker, git}

abbrev policy : JsonObject
policy = field "name" (str "p") (
    field "object_path" (str "evidence/lab/matrix/run-1/o") (
      field "object_sha256" (str sha)
        (field "source_path" (str "s") (field "source_sha256" (str sha) end))))

abbrev workload : JsonObject
workload = field "name" (str "idle") (
    field "spec_path" (str "evidence/lab/matrix/run-1/spec.json")
      (field "spec_sha256" (str sha) end))

abbrev privacy : JsonObject
privacy = field "status" (str "PASS") (
    field "private_fields_found" (bool false)
      (field "report_path" (str "evidence/lab/matrix/run-1/privacy.json") end))

abbrev paths : JsonObject → JsonObject
paths rest = field "runtime_sample_path" (str "evidence/lab/matrix/run-1/samples.jsonl") (
    field "daemon_event_path" (str "evidence/lab/matrix/run-1/events.jsonl") (
      field "incident_path" (str "evidence/lab/matrix/run-1/incident.json") (
        field "rollback_proof_path" (str "evidence/lab/matrix/run-1/rollback.json") (
          field "cleanup_proof_path" (str "evidence/lab/matrix/run-1/cleanup.json") (
            field "host_refusal_proof_path" (str "evidence/lab/matrix/run-1/refusal.json") rest)))))

abbrev row : JsonObject
row = field "schema" (str "zig-scheduler/matrix-run/v1") (
    field "matrix_run_id" (str "run-1") (
      field "scenario_id" (str "s-1") (
        field "outcome" (str "PASS") (
          field "evidence_mode" (str "fixture") (
            field "kernel_tuple" (obj end) (
              field "supported_tuple_status" (str "supported") (
                field "vm_marker" (obj marker) (
                  field "bpf_abi_version" (str "zigsched-bpf-abi-v1") (
                    field "policy" (obj policy) (
                      field "workload" (obj workload) (
                        field "action_id" (str "a-1") (
                          field "audit_id" (str "AUD-20990101T000000Z-x") (
                            field "rollback_id" (str "r-1") (
                              field "pre_scheduler_state" (obj (state_at "1")) (
                                field "post_scheduler_state" (obj (state_at "2")) (
                                  field "pre_cgroup_state" (obj end) (
                                    field "post_cgroup_state" (obj end) (
                                      paths (
                                        field "privacy_scan" (obj privacy) (
                                          field "git" (obj git) (
                                            field "release_eligible" (bool false) (
                                              field "host_mutation" (bool false)
                                                end))))))))))))))))))))))

abbrev spec : JsonObject
spec = field "schema" (str "zig-scheduler/workload-fixture/v1") (
    field "workload_class" (str "idle") (
      field "scenario_id" (str "s-1") (
        field "required_tools" (arr (cons (str "perf") nil)) (
          field "threshold_source" (str "fixture") (
            field "thresholds"
              (obj (
                field "source" (str "fixture") (
                  field "fixture_status" (str "x") (
                    field "calibration_status" (str "x")
                      (field "production_capacity_claim" (bool false) end)))))
              (field "capability_artifact_path" (str "evidence/lab/matrix/run-1/capability.json") (
                field "vm_marker_required_for_live_run" (bool true) (
                  field "host_mutation" (bool false)
                    (field "release_eligible" (bool false) end)))))))))

abbrev capability : JsonObject
capability = field "schema" (str "zig-scheduler/workload-capability/v1") (
    field "workload_class" (str "idle") (
      field "scenario_id" (str "s-1") (
        field "required_tools" (arr (cons (str "perf") nil)) (
          field "threshold_source" (str "fixture") (
            field "mode" (str "auto") (
              field "status" (str "PASS") (
                field "typed_outcome" (str "PASS") (
                  field "missing_prereq" (str "") (
                    field "vm_marker_required_for_live_run" (bool true) (
                      field "host_mutation" (bool false)
                        (field "release_eligible" (bool false) end)))))))))))

abbrev report : JsonObject
report = field "schema" (str "zig-scheduler/privacy-scan/v1") (
    field "status" (str "PASS")
      (field "private_fields_found" (bool false) (field "host_mutation" (bool false) end)))

abbrev incident : JsonObject
incident = field "schema" (str "zig-scheduler/matrix-incident/v1") (
    field "scenario_id" (str "s-1") (
      field "outcome" (str "PASS") (
        field "reason" (str "none")
          (field "host_mutation" (bool false) (field "release_eligible" (bool false) end)))))

abbrev rollback : JsonObject
rollback = field "schema" (str "zig-scheduler/rollback-proof/v1") (
    field "scenario_id" (str "s-1") (
      field "status" (str "PASS") (
        field "scheduler_state" (str "disabled")
          (field "ops" (str "none") (field "host_mutation" (bool false) end)))))

abbrev cleanup : JsonObject
cleanup = field "schema" (str "zig-scheduler/cleanup-proof/v1") (
    field "scenario_id" (str "s-1") (
      field "status" (str "PASS") (
        field "owned_qemu_leftovers" (bool false) (
          field "owned_temp_leftovers" (bool false) (
            field "host_mutation" (bool false) (
              field "qemu_scan_before" (str "a") (
                field "qemu_scan_after" (str "b") (
                  field "temp_scan_before" (str "c") (field "temp_scan_after" (str "d") end)))))))))

abbrev refusal : JsonObject
refusal = field "schema" (str "zig-scheduler/host-refusal-proof/v1") (
    field "scenario_id" (str "s-1") (
      field "status" (str "REFUSE") (
        field "reason" (str "host") (
          field "no_bpf_load_attach" (bool true) (
            field "no_cgroup_write" (bool true) (
              field "no_sys_write" (bool true)
                (field "no_proc_write" (bool true) (field "host_mutation" (bool false) end))))))))

abbrev event : JsonObject
event = field "schema" (str "zig-scheduler/daemon-event/v1") (
    field "seq" (int (pos 1)) (field "event" (str "boot") (field "host_mutation" (bool false) end)))

abbrev entry : JsonObject
entry = field "scenario_id" (str "s-1") (
    field "outcome" (str "PASS")
      (field "artifact_path" (str "evidence/lab/matrix/run-1/s-1/matrix-run.json") end))

abbrev manifest : JsonObject
manifest = field "schema" (str "zig-scheduler/vm-harness-matrix-index/v1") (
    field "matrix_run_id" (str "run-1") (
      field "mode" (str "auto") (
        field "fixture_mode" (bool true) (
          field "started_at" (str "t0") (
            field "ended_at" (str "t1") (
              field "out_dir" (str "evidence/lab/matrix/run-1") (
                field "daemon_events_path" (str "evidence/lab/matrix/run-1/events.jsonl") (
                  field "row_count" (int (pos 1)) (
                    field "rows" (arr (cons (obj entry) nil)) (
                      field "host_mutation" (bool false)
                        (field "release_eligible" (bool false) end)))))))))))

-- The files by their names.
abbrev value_of : String → JsonObject
value_of name =
    if str_eq name "manifest.json"
    then manifest
    else if str_eq name "matrix-run.json"
    then row
    else if str_eq name "spec.json"
    then spec
    else if str_eq name "capability.json"
    then capability
    else if str_eq name "privacy.json"
    then report
    else if str_eq name "incident.json"
    then incident
    else if str_eq name "rollback.json"
    then rollback
    else if str_eq name "cleanup.json"
    then cleanup
    else if str_eq name "refusal.json"
    then refusal
    else if str_eq name "samples.jsonl"
    then whole_sample
    else event

abbrev one_row : World
one_row = record {
  read_text = λ p. found (name_of p);
  read_replaced = λ p. found (name_of p);
  read_lines = λ p. found (name_of p ∷ []);
  sha256 = λ p. found sha;
  is_file = λ p. true;
  exists = λ p. true;
  resolve = λ p. p;
  dumps = λ fs. "";
  loads = λ s. decoded (obj (value_of s));
  loads_strict = λ s. parsed (decoded (obj (value_of s)));
  is_word = λ c. true;
}

manifest_runs : validate_manifest one_row (path_of "evidence/lab/matrix/run-1/manifest.json") ≡ ok 1
unfolding validate_manifest Values.require_manifest_root guard path_of Model.run_id_re
    Values.load_json Checks.object_as Manifest.validate_manifest_head
    Manifest.validate_manifest_identity Checks.only_fields_as Checks.sorted Checks.without get
    Checks.text_as Values.require_safe_path Manifest.descendant_path Values.require_descendant
    Values.is_descendant Checks.bool_as Checks.list_as Equality.value_eq
    Manifest.validate_manifest_daemon_events Daemon.validate Daemon.load_rows Checks.read_rows
    Text.is_blank Daemon.event_row Daemon.parse_object Daemon.parse_json_value Daemon.require_int
    Checks.int_or Daemon.require_string Checks.text_or Daemon.require_bool Daemon.validate_rows
    Daemon.validate_row for_each Daemon.validate_identifier Daemon.contains_private_field
    Daemon.has_needle Manifest.validate_manifest_rows Manifest.validate_manifest_row Model.id_re
    Manifest.validate_artifact Row.validate_row Row.validate_header Json.has_key
    Values.require_identifier Model.audit_re Row.validate_states Values.validate_scheduler_state
    Values.reject_private Values.private_text Values.has_needle Model.private_path_re
    Model.claim_text_re Values.require_sched_enable_seq Digits.decimal Row.validate_parts
    Row.validate_vm_marker Row.marker_matches Row.validate_policy Values.require_sha Model.sha256_re
    Workload.validate_workload Workload.expected_workload_metadata Row.validate_privacy
    Row.validate_git Row.validate_pass_evidence_mode Manifest.validate_manifest_row_paths
    Manifest.path_below Manifest.validate_manifest_workload_artifacts Values.file_sha256
    Checks.digest_as Values.reject_workload_artifact_private Specification.validate_workload_spec
    Workload.require_workload_tools Values.text_list Checks.texts_as Workload.tools_expected
    Workload.source_expected Workload.validate_workload_thresholds
    Workload.validate_workload_semantics Specification.validate_workload_benchmark_provenance
    Provenance.validate_entries Workload.validate_workload_capability
    Workload.validate_privacy_report Artifacts.validate_manifest_proof_artifacts
    Artifacts.validate_manifest_runtime_sample Core.validate_file Common.load_jsonl
    Core.validate_samples Core.validate_sample Common.reject_private_leaks Tokens.private_key
    Common.claim_key Common.private_text_contains Core.validate_root_fields Common.require_string
    Common.require_int SchedExt.validate_sched_ext_facts Common.validate_fact Common.require_object
    Text.strip SchedExt.validate_nonnegative_fact_value SchedExt.validate_sched_ext_phase
    Core.validate_digest Core.status_facts Common.require_bool Core.validate_optional_counter_sets
    Common.optional_object SchedExt.validate_task_ext_enabled
    SchedExt.validate_cgroup_semantic_labels SchedExt.validate_teardown_rollback
    Core.validate_scheduler_telemetry Core.validate_benchmark_refs Core.validate_policy_abi
    PolicyAbi.validate_policy_abi_contract PolicyAbi.require_string PolicyAbi.require_bool
    Sequence.validate_sched_ext_sequence Sequence.sequence_row Sequence.next_sequence
    SchedExt.numeric_fact_value Sequence.next_enable_seq Sequence.phase_ok
    Artifacts.validate_incident_artifact Artifacts.validate_rollback_artifact
    Artifacts.validate_cleanup_artifact Artifacts.validate_host_refusal_artifact
    Artifacts.validate_manifest_vm_claim Backend.validate_live_backend_summary_consistency
manifest_runs = refl

validate_manifest-AcceptedManifest_example :
    AcceptedManifest one_row (path_of "evidence/lab/matrix/run-1/manifest.json") 1
validate_manifest-AcceptedManifest_example =
    validate_manifest-AcceptedManifest one_row (path_of "evidence/lab/matrix/run-1/manifest.json") 1
      manifest_runs
