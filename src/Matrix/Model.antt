-- ===== src/Matrix/Model.antt =====
-- qa/matrix_run_model.py: the tables of the matrix-run contract, and its patterns.
use exasphere.Base.{
  ℕ, Bool, ◌&&◌, ◌||◌, not, List, [], ◌∷◌, ◌++◌, String, ◌==◌, leb, ltb, if◌then◌else◌, length, all,
}
use exasphere.Text.{codes, is_hex, is_space}
use exasphere.Text.Regex.{
  Re, eps, seq, alt, literal, plus, times, one_of, is_digit, is_id_char, anything, fullmatch,
}
use exasphere.Json.{str, JsonObject, end, field}
use exasphere.World.{World, FilePath, path_of}
use exasphere.Ledger.{ignore_case}

abbrev pub schema : String
schema = "zig-scheduler/matrix-run/v1"

abbrev pub matrix_bpf_abi_version : String
matrix_bpf_abi_version = "zigsched-bpf-abi-v1"

abbrev pub vm_marker : String
vm_marker = "/run/zig-scheduler-vm-lab.marker"

abbrev pub outcomes : List String
outcomes = "PASS" ∷ "SKIP" ∷ "REFUSE" ∷ "INCIDENT" ∷ "FAIL" ∷ []

abbrev pub evidence_modes : List String
evidence_modes = "vm-live" ∷ "host-refusal-only" ∷ "fixture" ∷ []

abbrev pub tuple_status : List String
tuple_status = "supported" ∷ "unsupported" ∷ "unknown" ∷ []

abbrev pub path_fields : List String
path_fields =
    "runtime_sample_path" ∷ "daemon_event_path" ∷ "incident_path" ∷ "rollback_proof_path"
    ∷ "cleanup_proof_path" ∷ "host_refusal_proof_path" ∷ []

abbrev pub row_fields : List String
row_fields =
    "schema" ∷ "matrix_run_id" ∷ "scenario_id" ∷ "outcome" ∷ "evidence_mode" ∷ "kernel_tuple"
    ∷ "supported_tuple_status" ∷ "vm_marker" ∷ "bpf_abi_version" ∷ "policy" ∷ "workload"
    ∷ "action_id" ∷ "audit_id" ∷ "rollback_id" ∷ "pre_scheduler_state" ∷ "post_scheduler_state"
    ∷ "pre_cgroup_state" ∷ "post_cgroup_state" ∷ "runtime_sample_path" ∷ "daemon_event_path"
    ∷ "incident_path" ∷ "rollback_proof_path" ∷ "cleanup_proof_path" ∷ "host_refusal_proof_path"
    ∷ "privacy_scan" ∷ "git" ∷ "release_eligible" ∷ "host_mutation" ∷ []

abbrev pub kernel_tuple_fields : List String
kernel_tuple_fields = "kernel_release" ∷ "arch" ∷ "btf" ∷ "kvm" ∷ "sched_ext" ∷ []

abbrev pub vm_marker_fields : List String
vm_marker_fields = "required" ∷ "present" ∷ "path" ∷ "checked_by" ∷ []

abbrev pub policy_fields : List String
policy_fields = "name" ∷ "object_path" ∷ "object_sha256" ∷ "source_path" ∷ "source_sha256" ∷ []

abbrev pub workload_fields : List String
workload_fields = "name" ∷ "spec_path" ∷ "spec_sha256" ∷ []

abbrev pub privacy_scan_fields : List String
privacy_scan_fields = "status" ∷ "private_fields_found" ∷ "report_path" ∷ []

abbrev pub git_fields : List String
git_fields = "expected_sha" ∷ "actual_sha" ∷ "status" ∷ "dirty" ∷ []

abbrev pub matrix_base : FilePath
matrix_base = path_of "evidence/lab/matrix"

abbrev pub manifest_file : String
manifest_file = "manifest.json"

abbrev pub private_needles : List String
private_needles =
    "cmdline" ∷ "command_line" ∷ "argv" ∷ "environment" ∷ "secret" ∷ "api_key" ∷ "token"
    ∷ "password" ∷ "authorization" ∷ "bearer" ∷ []

abbrev pub workload_private_needles : List String
workload_private_needles = private_needles ++ ("command" ∷ "env" ∷ "cwd" ∷ "pid" ∷ "ppid" ∷ [])

abbrev pub sched_states : List String
sched_states = "disabled" ∷ "enabled" ∷ "enabling" ∷ "disabling" ∷ "unknown" ∷ "unavailable" ∷ []

abbrev pub sched_disable_reasons : List String
sched_disable_reasons =
    "normal_unregister" ∷ "scheduler_exit" ∷ "watchdog_stall" ∷ "watchdog_error"
    ∷ "sysrq_forced_disable" ∷ "not_applicable" ∷ "unavailable" ∷ []

abbrev pub sched_state_fields : List String
sched_state_fields =
    "sched_ext" ∷ "ops" ∷ "enable_seq" ∷ "root_ops" ∷ "task_ext_enabled" ∷ "disable_reason"
    ∷ "teardown_state" ∷ "rollback_state" ∷ []

abbrev pub workload_capability_schema : String
workload_capability_schema = "zig-scheduler/workload-capability/v1"

abbrev pub privacy_scan_schema : String
privacy_scan_schema = "zig-scheduler/privacy-scan/v1"

abbrev pub privacy_report_fields : List String
privacy_report_fields = "schema" ∷ "status" ∷ "private_fields_found" ∷ "host_mutation" ∷ []

abbrev pub incident_fields : List String
incident_fields =
    "schema" ∷ "scenario_id" ∷ "outcome" ∷ "reason" ∷ "host_mutation" ∷ "release_eligible" ∷ []

abbrev pub rollback_proof_fields : List String
rollback_proof_fields =
    "schema" ∷ "scenario_id" ∷ "status" ∷ "scheduler_state" ∷ "ops" ∷ "host_mutation" ∷ []

abbrev pub cleanup_proof_fields : List String
cleanup_proof_fields =
    "schema" ∷ "scenario_id" ∷ "status" ∷ "owned_qemu_leftovers" ∷ "owned_temp_leftovers"
    ∷ "qemu_scan_before" ∷ "qemu_scan_after" ∷ "temp_scan_before" ∷ "temp_scan_after"
    ∷ "host_mutation" ∷ []

abbrev pub host_refusal_fields : List String
host_refusal_fields =
    "schema" ∷ "scenario_id" ∷ "status" ∷ "reason" ∷ "no_bpf_load_attach" ∷ "no_cgroup_write"
    ∷ "no_sys_write" ∷ "no_proc_write" ∷ "host_mutation" ∷ []

abbrev pub vm_marker_proof_fields : List String
vm_marker_proof_fields =
    "schema" ∷ "path" ∷ "required" ∷ "present" ∷ "evidence_mode" ∷ "host_mutation" ∷ []

abbrev pub workload_threshold_fields : List String
workload_threshold_fields =
    "source" ∷ "fixture_status" ∷ "calibration_status" ∷ "production_capacity_claim" ∷ []

abbrev pub workload_capability_fields : List String
workload_capability_fields =
    "schema" ∷ "scenario_id" ∷ "workload_class" ∷ "required_tools" ∷ "threshold_source" ∷ "mode"
    ∷ "status" ∷ "typed_outcome" ∷ "missing_prereq" ∷ "vm_marker_required_for_live_run"
    ∷ "fixture_mode" ∷ "runner" ∷ "host_mutation" ∷ "release_eligible" ∷ []

abbrev pub workload_tool_names : List String
workload_tool_names =
    "stress-ng" ∷ "cyclictest" ∷ "perf" ∷ "taskset" ∷ "chrt" ∷ "hackbench-like" ∷ "fio"
    ∷ "cpu-hotplug-online-control" ∷ "builtin-churn" ∷ []

abbrev pub workload_threshold_sources : List String
workload_threshold_sources =
    "fixture" ∷ "calibrated" ∷ "deferred" ∷ "record-only" ∷ "uncalibrated" ∷ []

abbrev pub workload_capability_modes : List String
workload_capability_modes = "host-safe" ∷ "auto" ∷ "vm-required" ∷ []

abbrev pub cgroup_workload_semantics : JsonObject
cgroup_workload_semantics = field "cpu.weight" (str "callback-observed") (
    field "cpu.max" (str "deferred") (
      field "cpu.max.burst" (str "deferred") (
        field "cpuset.cpus" (str "observed-constraints") (
          field "cpuset.cpus.effective" (str "observed-constraints") (
            field "cpu.pressure" (str "observed-or-deferred") (
              field "uclamp" (str "observed-or-deferred") (
                field "cgroup.type.domain" (str "observed") (
                  field "cgroup.type.threaded" (str "observed")
                    (field "allowed-mask" (str "rejected") end)))))))))

abbrev pub cpu_hotplug_semantics : JsonObject
cpu_hotplug_semantics = field "cpu.hotplug.offline" (str "fallback-observed") (
    field "cpu.hotplug.online" (str "fallback-observed") (
      field "cpuset.cpus" (str "observed-constraints") (
        field "cpuset.cpus.effective" (str "observed-constraints")
          (field "allowed-mask" (str "rejected") end))))

abbrev pub manifest_row_fields : List String
manifest_row_fields = "scenario_id" ∷ "outcome" ∷ "artifact_path" ∷ "reason" ∷ []

abbrev pub manifest_fields : List String
manifest_fields =
    "schema" ∷ "matrix_run_id" ∷ "mode" ∷ "fixture_mode" ∷ "started_at" ∷ "ended_at" ∷ "out_dir"
    ∷ "daemon_events_path" ∷ "row_count" ∷ "rows" ∷ "host_mutation" ∷ "release_eligible" ∷ []

abbrev pub workload_spec_schema : String
workload_spec_schema = "zig-scheduler/workload-fixture/v1"

abbrev pub workload_spec_fields : List String
workload_spec_fields =
    "schema" ∷ "name" ∷ "workload_class" ∷ "scenario_id" ∷ "required_tools" ∷ "threshold_source"
    ∷ "thresholds" ∷ "benchmark_provenance" ∷ "capability_artifact_path" ∷ "runner"
    ∷ "vm_marker_required_for_live_run" ∷ "host_safe_fixture_only" ∷ "missing_prereq"
    ∷ "cgroup_semantics" ∷ "cpu_hotplug_semantics" ∷ "host_mutation" ∷ "release_eligible" ∷ []

pub record WorkloadScenarioMetadata : Type 0 where
  pub scenario_id : String
  pub workload_class : String
  pub required_tools : List String
  pub threshold_sources : List String

-- Each row's key is its `scenario_id`.
abbrev pub workload_scenario_metadata : List WorkloadScenarioMetadata
workload_scenario_metadata =
    record {
      scenario_id = "workload-cpu-saturation";
      workload_class = "cpu-saturation";
      required_tools = "stress-ng" ∷ [];
      threshold_sources = "record-only" ∷ [];
    }
    ∷ record {
      scenario_id = "workload-interactive-latency";
      workload_class = "interactive-latency";
      required_tools = "cyclictest" ∷ "perf" ∷ [];
      threshold_sources = "record-only" ∷ [];
    }
    ∷ record {
      scenario_id = "workload-scheduler-affinity-churn";
      workload_class = "scheduler-affinity-churn";
      required_tools = "stress-ng" ∷ "taskset" ∷ "chrt" ∷ [];
      threshold_sources = "record-only" ∷ [];
    }
    ∷ record {
      scenario_id = "workload-fork-ipc-pressure";
      workload_class = "bounded-fork-ipc-pressure";
      required_tools = "hackbench-like" ∷ [];
      threshold_sources = "record-only" ∷ [];
    }
    ∷ record {
      scenario_id = "workload-mixed-io";
      workload_class = "mixed-io";
      required_tools = "fio" ∷ [];
      threshold_sources = "record-only" ∷ [];
    }
    ∷ record {
      scenario_id = "workload-cgroup-weight-quota";
      workload_class = "cgroup-weight-quota-pressure";
      required_tools = "stress-ng" ∷ [];
      threshold_sources = "record-only" ∷ [];
    }
    ∷ record {
      scenario_id = "workload-cpu-hotplug";
      workload_class = "cpu-hotplug-offline";
      required_tools = "cpu-hotplug-online-control" ∷ [];
      threshold_sources = "record-only" ∷ [];
    }
    ∷ []

-- `^[A-Za-z0-9_.-]{1,n}$` under `fullmatch`: RUN_ID_RE with RUN_ID_MAX = 64, ID_RE with 96.
identifier : ℕ → String → Bool
unfolding codes
identifier n s = ltb 0 (length (codes s)) && leb (length (codes s)) n && all is_id_char (codes s)

unfoldable pub run_id_re : String → Bool
unfolding identifier
run_id_re s = identifier 64 s

unfoldable pub id_re : String → Bool
unfolding identifier
id_re s = identifier 96 s

-- AUDIT_RE, `^AUD-[0-9]{8}T[0-9]{6}Z-[A-Za-z0-9_.-]+$` under `fullmatch`
unfoldable pub audit_re : String → Bool
unfolding codes fullmatch
audit_re s =
    fullmatch
      (seq (literal (codes "AUD-")) (
        seq (times 8 (one_of is_digit)) (
          seq (literal (codes "T")) (
            seq (times 6 (one_of is_digit))
              (seq (literal (codes "Z-")) (plus (one_of is_id_char)))))))
      (codes s)

-- SHA256_RE, `^[0-9a-f]{64}$` under `fullmatch`
unfoldable pub sha256_re : String → Bool
unfolding codes
sha256_re s = length (codes s) == 64 && all is_hex (codes s)

-- `(?:a|b|...)` of words.
unfoldable pub words : List String → Re
unfolding codes
words [] = Re.empty
words (s ∷ ss) = alt (literal (codes s)) (words ss)

-- PRIVATE_PATH_RE, `(^|[\s=:])/(?:home|root|etc|proc|sys|var|tmp)/`, under `search`: what stands before
-- the slash is the text's start, or ends in a space, "=" or ":".
unfoldable pub private_path_re : String → Bool
unfolding codes fullmatch words
private_path_re s =
    fullmatch
      (seq (alt eps (seq anything (one_of (λ c. is_space c || c == b'=' || c == b':')))) (
        seq (literal (codes "/")) (
          seq (words ("home" ∷ "root" ∷ "etc" ∷ "proc" ∷ "sys" ∷ "var" ∷ "tmp" ∷ []))
            (seq (literal (codes "/")) anything))))
      (codes s)

-- A word character of `re`, with the case ignored: ASCII's own, and the library's table beyond it.
unfoldable pub is_word_char : World → ℕ → Bool
is_word_char w c =
    if ltb c 128
    then (leb b'A' c && leb c b'Z') || (leb b'a' c && leb c b'z') || is_digit c || c == b'_'
    else w.is_word c

-- CLAIM_TEXT_RE under `search`. Both ends of the claim are letters, so `\b` says that no word
-- character stands next to it.
unfoldable pub claim_text_re : World → String → Bool
unfolding codes fullmatch words is_word_char ignore_case
claim_text_re w s =
    let gap = one_of (λ c. not (is_word_char w c)) in
    fullmatch
      (seq (alt eps (seq anything gap)) (
        seq (words ("production" ∷ "release" ∷ "performance" ∷ [])) (
          seq (plus (one_of (λ c. is_space c || c == b'_' || c == b'-'))) (
            seq
              (words (
                "ready" ∷ "eligible" ∷ "approved" ∷ "claim" ∷ "slo" ∷ "sla" ∷ "guarantee"
                ∷ "baseline" ∷ "capacity" ∷ []))
              (alt eps (seq gap anything))))))
      (ignore_case (codes s))
