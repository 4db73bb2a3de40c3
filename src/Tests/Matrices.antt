-- ===== src/Tests/Matrices.antt =====
-- An accepted row of a matrix run, and the claims of a VM that stand in it.
use exasphere.Base.{◌≡◌, refl, true, false, String, ok, guard, for_each}
use exasphere.Text.{codes, contains_any, contains, is_prefix, lower}
use exasphere.Text.Regex.{fullmatch, deriv, nullable, join, either}
use exasphere.Text.Digits.{int_or_none, decimal, digits_from, digit}
use exasphere.Json.{bool, str, obj, JsonObject, end, field, get, lookup, has_key}
use exasphere.World.{parsed, World, path_of, split_slash, kept_names, missing, undecodable}
use exasphere.Ledger.{ignore_case}
use exasphere.Checks.{only_fields_as, sorted, without, text_as, bool_as, object_as}
use exasphere.Matrix.Model.{
  run_id_re, id_re, audit_re, sha256_re, private_path_re, claim_text_re, is_word_char,
}
use exasphere.Matrix.Values.{
  has_needle, private_text, reject_private, require_sched_enable_seq, validate_scheduler_state,
  require_safe_path, require_identifier, require_sha,
}
use exasphere.Matrix.Workload.{validate_workload, expected_workload_metadata}
use exasphere.Matrix.Row.{
  marker_matches, validate_vm_marker, validate_pass_evidence_mode, validate_policy,
  validate_privacy, validate_git, validate_states, validate_header, validate_parts, validate_row,
}
use exasphere.Matrix.Row.Laws.{AcceptedRow, validate_row-AcceptedRow}

abbrev no_files : World
no_files = record {
  read_text = λ p. missing;
  read_replaced = λ p. missing;
  read_lines = λ p. missing;
  sha256 = λ p. missing;
  is_file = λ p. false;
  exists = λ p. false;
  resolve = λ p. p;
  dumps = λ fs. "";
  loads = λ s. undecodable "empty";
  loads_strict = λ s. parsed (undecodable "empty");
  is_word = λ c. true;
}

abbrev pub sha : String
sha = "0123456789abcdef0123456789abcdef0123456789abcdef0123456789abcdef"

abbrev pub state_at : String → JsonObject
state_at seq =
    field "sched_ext" (str "disabled") (field "ops" (str "none") (field "enable_seq" (str seq) end))

abbrev pub marker : JsonObject
marker = field "required" (bool false) (
    field "present" (bool false)
      (field "path" (str "/run/zig-scheduler-vm-lab.marker") (field "checked_by" (str "lab") end)))

abbrev policy : JsonObject
policy = field "name" (str "p") (
    field "object_path" (str "o") (
      field "object_sha256" (str sha)
        (field "source_path" (str "s") (field "source_sha256" (str sha) end))))

abbrev workload : JsonObject
workload =
    field "name" (str "idle") (field "spec_path" (str "spec") (field "spec_sha256" (str sha) end))

abbrev privacy : JsonObject
privacy =
    field "status" (str "PASS")
      (field "private_fields_found" (bool false) (field "report_path" (str "report") end))

abbrev pub git : JsonObject
git = field "expected_sha" (str "c0") (
    field "actual_sha" (str "c0") (field "status" (str "current") (field "dirty" (bool false) end)))

abbrev paths : JsonObject → JsonObject
paths rest = field "runtime_sample_path" (str "a") (
    field "daemon_event_path" (str "b") (
      field "incident_path" (str "c") (
        field "rollback_proof_path" (str "d")
          (field "cleanup_proof_path" (str "e") (field "host_refusal_proof_path" (str "f") rest)))))

abbrev fixture_row : JsonObject
fixture_row = field "schema" (str "zig-scheduler/matrix-run/v1") (
    field "matrix_run_id" (str "run-1") (
      field "scenario_id" (str "s-1") (
        field "outcome" (str "PASS") (
          field "evidence_mode" (str "fixture") (
            field "kernel_tuple" (obj end) (
              field "supported_tuple_status" (str "supported") (
                field "vm_marker" (obj marker) (
                  field "bpf_abi_version" (str "zigsched-bpf-abi-v1") (
                    field "policy" (obj policy) (
                      field "workload" (obj workload) (
                        field "action_id" (str "a-1") (
                          field "audit_id" (str "AUD-20990101T000000Z-x") (
                            field "rollback_id" (str "r-1") (
                              field "pre_scheduler_state" (obj (state_at "1")) (
                                field "post_scheduler_state" (obj (state_at "2")) (
                                  field "pre_cgroup_state" (obj end) (
                                    field "post_cgroup_state" (obj end) (
                                      paths (
                                        field "privacy_scan" (obj privacy) (
                                          field "git" (obj git) (
                                            field "release_eligible" (bool false) (
                                              field "host_mutation" (bool false)
                                                end))))))))))))))))))))))

row_runs : validate_row no_files fixture_row "row" ≡ ok tt
unfolding validate_row validate_header validate_states validate_parts validate_git validate_privacy
    validate_policy validate_pass_evidence_mode validate_vm_marker marker_matches validate_workload
    expected_workload_metadata require_sha require_identifier require_safe_path
    validate_scheduler_state require_sched_enable_seq reject_private private_text has_needle
    private_path_re claim_text_re is_word_char sha256_re audit_re id_re run_id_re object_as bool_as
    text_as only_fields_as without sorted ignore_case path_of split_slash kept_names get has_key
    lookup int_or_none decimal digits_from digit fullmatch deriv nullable join either lower
    is_prefix contains contains_any codes guard for_each
row_runs = refl

validate_row-AcceptedRow_example : AcceptedRow no_files fixture_row "row"
validate_row-AcceptedRow_example = validate_row-AcceptedRow no_files fixture_row "row" row_runs
