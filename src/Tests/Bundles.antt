-- ===== src/Tests/Bundles.antt =====
-- A bundle of a live run with all its artifacts.
use exasphere.Sample.Digest
use exasphere.Text.Regex
use exasphere.World
use exasphere.Json.Equality
use exasphere.Live.Bundle.Counters
use exasphere.Sample.SchedExt.Sequence
use exasphere.Sample.Tokens
use exasphere.Sample.SchedExt
use exasphere.Text.Digits
use exasphere.Json
use exasphere.Sample.Common
use exasphere.Text
use exasphere.Checks
use exasphere.Base.{
  ◌≡◌, refl, ℕ, true, false, List, [], ◌∷◌, String, str_eq, if◌then◌else◌, ok, guard, for_each,
  ◌<>◌,
}
use exasphere.Json.{
  pos, JsonValue, bool, int, str, arr, cons, nil, obj, JsonObject, end, field, get, has_key,
}
use exasphere.World.{parsed, World, FilePath, path_of, path_text, Reading, found, missing, decoded}
use exasphere.Live.Partial
use exasphere.Live.Observe
use exasphere.Live.Bundle
use exasphere.Sample.PolicyAbi
use exasphere.Sample.Core
use exasphere.Ledger
use exasphere.Matrix.Values
use exasphere.Matrix.Backend.{
  convert_bundle_error, is_stale, backend_summary, validate_live_backend_summary_consistency,
}
use exasphere.Matrix.Backend.Laws.{BackendOk, validate_live_backend-BackendOk}
use exasphere.Live.Bundle.{validate_bundle, artifact_items}
use exasphere.Live.Observe.{validate_observe}
use exasphere.Live.Observe.Laws.{AcceptedObservation, validate_observe-AcceptedObservation}
use exasphere.Live.Bundle.Laws.{AcceptedBundle, validate_bundle-AcceptedBundle}
use exasphere.Tests.Samples.{fact, plain_abi}
use exasphere.Tests.Ledgers.{record_row, snapshot}
use exasphere.Tests.Lives.{evidence}

abbrev sample : ℕ → String → JsonObject
sample n ops = field "schema" (str "zig-scheduler/runtime-sample/v1") (
    field "sequence" (int (pos n)) (
      field "state" (obj (fact "disabled")) (
        field "ops" (obj (fact ops)) (
          field "enable_seq" (obj (fact "7")) (
            field "events" (obj (fact "0")) (
              field "nr_rejected" (obj (fact "0")) (
                field "debug_dump"
                  (obj (field "status" (str "missing") (field "value" (str "") end)))
                  (field "events_hash" (str "ab") (
                    field "cgroup_membership_digest"
                      (str "0123456789abcdef0123456789abcdef0123456789abcdef0123456789abcdef")
                      (field "cgroup_membership_status" (obj (fact "present")) (
                        field "workload_alive" (bool true) (
                          field "private_command_lines_sampled" (bool false)
                            (field "policy_abi" (obj plain_abi) end)))))))))))))

abbrev daemon_event : JsonObject
daemon_event =
    field "event" (str "runtime_sample")
      (field "ops" (str "zigsched_minimal") (field "host_mutation" (bool false) end))

abbrev observation : JsonObject
observation = field "schema" (str "zig-scheduler/observe-partial-summary/v1") (
    field "evidence_mode" (str "vm-live") (
      field "release_eligible_live_proof" (bool false) (
        field "runtime_samples" (str "b/observe-partial/runtime-samples.jsonl") (
          field "audit_ledger" (str "b/audit-ledger.jsonl") (
            field "transcript" (str "b/observe-partial/t.log") (
              field "daemon_runtime_events" (str "b/observe-partial/daemon-runtime-events.jsonl") (
                field "sample_count" (int (pos 3)) (
                  field "workload_alive_all_samples" (bool true) (
                    field "scheduler_snapshot"
                      (obj (
                        field "state" (obj (fact "disabled"))
                          (field "root_ops" (obj (fact "none")) end)))
                      (field "final_state" (str "disabled") (
                        field "final_ops" (str "none")
                          (field "final_state_disabled_or_rolled_back" (bool true) end))))))))))))

abbrev bundle : JsonObject
bundle = field "schema" (str "zig-scheduler/run-all-lab/v1") (
    field "status" (str "PASS") (
      field "host_mutation" (bool false) (
        field "evidence_mode" (str "vm-live") (
          field "vm_kind" (str "qemu-vm") (
            field "vm_marker_present" (bool true) (
              field "vm_marker_path" (str "/run/zig-scheduler-vm-lab.marker") (
                field "rollback_result" (str "PASS") (
                  field "artifact_paths"
                    (arr (
                      cons (str "b/partial-attach-evidence.json") (
                        cons (str "b/observe-partial/summary.json") (
                          cons (str "b/observe-partial/runtime-samples.jsonl") (
                            cons (str "b/observe-partial/daemon-runtime-events.jsonl")
                              (cons (str "b/audit-ledger.jsonl") nil))))))
                    end))))))))

-- The summary of the backend, beside the file of a row.
abbrev backend : JsonObject
backend = field "schema" (str "zig-scheduler/vm-backend-run/v1") (
    field "status" (str "PASS") (
      field "host_mutation" (bool false)
        (field "live_summary" (str "b/backend/live/summary.json") end)))

abbrev backend_row : JsonObject
backend_row = field "scenario_id" (str "live-backend") (
    field "outcome" (str "PASS") (
      field "evidence_mode" (str "vm-live")
        (field "git" (obj (field "actual_sha" (str "c0") end)) end)))

-- The files by their paths.
abbrev content_of : String → String
content_of path =
    if str_eq path "t.log"
    then "bpftool struct_ops register ops=zigsched_minimal rollback_status=PASS"
    else path

abbrev lines_of : String → List String
lines_of path =
    if str_eq path "b/observe-partial/runtime-samples.jsonl"
    then "S1" ∷ "S2" ∷ "S3" ∷ []
    else if str_eq path "b/observe-partial/daemon-runtime-events.jsonl"
    then "D" ∷ []
    else "R" ∷ []

abbrev value_of : String → JsonObject
value_of content =
    if str_eq content "S1"
    then sample 1 "none"
    else if str_eq content "S2"
    then sample 2 "zigsched_minimal"
    else if str_eq content "S3"
    then sample 3 "none"
    else if str_eq content "D"
    then daemon_event
    else if str_eq content "R"
    then record_row
    else if str_eq content "s"
    then snapshot
    else if str_eq content "b/partial-attach-evidence.json"
    then evidence
    else if str_eq content "b/observe-partial/summary.json"
    then observation
    else if str_eq content "b/backend/summary.json"
    then backend
    else bundle

abbrev live_run : World
live_run = record {
  read_text = λ p. found (content_of (path_text p));
  read_replaced = λ p. found (content_of (path_text p));
  read_lines = λ p. found (lines_of (path_text p));
  sha256 = λ p. found "ab";
  is_file = λ p. true;
  exists = λ p. true;
  resolve = λ p. p;
  dumps = λ fs. "";
  loads = λ s. decoded (obj (value_of s));
  loads_strict = λ s. parsed (decoded (obj (value_of s)));
  is_word = λ c. true;
}

bundle_runs : validate_bundle live_run (path_of "b/summary.json") ≡ ok tt
unfolding validate_bundle Bundle.load_object Checks.object_as Bundle.validate_claims
    Bundle.require_text Checks.text_or get path_of guard Bundle.require_bool Checks.bool_as
    Bundle.validate_vm_live_gate Bundle.artifact_paths Bundle.require_list Bundle.artifact_items
    Bundle.artifact_path Bundle.bundle_artifacts Bundle.require_artifact Bundle.is_suffix Text.codes
    Bundle.validate_artifacts Partial.validate_evidence Partial.load_object Partial.validate_loaded
    Partial.validate_claims Partial.require_text Partial.reject_contradictions for_each
    Partial.require_bool Partial.validate_attach Text.is_prefix Partial.validate_rollback
    Partial.validate_transcript Text.contains Observe.validate_observe Observe.validate_claims
    Observe.observe_paths Observe.load_object Observe.require_string Observe.require_bool
    Observe.sibling_path Observe.safe_path Observe.validate_links Core.validate_file
    Common.load_jsonl Text.is_blank Core.validate_samples Core.validate_sample
    Common.reject_private_leaks Tokens.private_key Common.claim_key Common.private_text_contains
    Core.validate_root_fields Common.require_string Common.require_int
    SchedExt.validate_sched_ext_facts Common.validate_fact Common.require_object Text.strip
    SchedExt.validate_nonnegative_fact_value Digits.decimal Json.has_key
    SchedExt.validate_sched_ext_phase Core.validate_digest Core.status_facts Common.require_bool
    Core.validate_optional_counter_sets Common.optional_object SchedExt.validate_task_ext_enabled
    SchedExt.validate_cgroup_semantic_labels SchedExt.validate_teardown_rollback
    Core.validate_scheduler_telemetry Core.validate_benchmark_refs Core.validate_policy_abi
    PolicyAbi.validate_policy_abi_contract PolicyAbi.require_string PolicyAbi.require_bool
    Sequence.validate_sched_ext_sequence Sequence.sequence_row Sequence.next_sequence
    SchedExt.numeric_fact_value Digits.int_or_none Sequence.next_enable_seq Sequence.phase_ok
    Ledger.validate_ledger Ledger.load_jsonl Ledger.validate_records Ledger.validate_record
    Ledger.require_string Ledger.is_secret Ledger.audit_match Ledger.sha256_file path_text ◌<>◌
    Ledger.validate_snapshot Ledger.load_object Checks.load_object_as Observe.require_int
    Checks.int_or Observe.validate_sample_series Observe.load_jsonl Checks.read_rows
    Equality.value_eq Observe.validate_daemon_events Observe.validate_snapshot
    Bundle.validate_behavior Bundle.validate_partial_behavior Counters.sha256_match
    Bundle.validate_observe_behavior Bundle.load_jsonl Bundle.validate_samples Bundle.sample_series
    Bundle.sample_ops Bundle.sample_state Bundle.validate_memberships
    Bundle.validate_cgroup_membership Counters.observed_digest Counters.validate_counter_growth
    Counters.counter_facts Counters.validate_required_counter_fact Digits.is_digits
    Counters.sample_events_known Counters.is_unavailable Digits.int_of_digits
    Counters.parse_counters Json.lookup Ledger.ignore_case Ledger.load_lines Counters.after_prefix
    Counters.counter_at Counters.counter_of Counters.counter_values Counters.digits_of
    Counters.drop_spaces Counters.find_counters Bundle.validate_daemon_events
    Observe.workload_execution_passed Common.load_lines Core.is_sha256_digest
    Core.is_unavailable_object Core.nonnegative Core.validate_counter_map
    Core.validate_metric_object Core.validate_nonnegative_fields Digest.is_digest_codes
    Digest.is_digest_summary PolicyAbi.require_int PolicyAbi.require_object PolicyAbi.require_status
    PolicyAbi.require_string_list PolicyAbi.same_list PolicyAbi.semantics_match
    PolicyAbi.validate_cgroup_callback_stats PolicyAbi.validate_cgroup_policy_map
    PolicyAbi.validate_dsq_counter_coherence PolicyAbi.validate_v3_cgroup_evidence
    PolicyAbi.validate_v3_policy_abi Sequence.sequence_from SchedExt.fact_text Tokens.chunks
    Tokens.contains_pattern Tokens.next_token Tokens.private_key_tokens Tokens.same_text
    Tokens.same_texts Tokens.span Tokens.tokens_fuel Tokens.window_match Digits.digit
    Digits.digits_from Digits.int_of_number Regex.deriv Regex.either Regex.fullmatch Regex.join
    Regex.nullable Text.casefold Text.contains_any Text.lower Text.strip_left Text.strip_right
    World.kept_names World.split_slash
bundle_runs = refl

validate_bundle-AcceptedBundle_example : AcceptedBundle live_run (path_of "b/summary.json")
validate_bundle-AcceptedBundle_example =
    validate_bundle-AcceptedBundle live_run (path_of "b/summary.json") bundle_runs

backend_runs :
    validate_live_backend_summary_consistency live_run backend_row
      (path_of "b/matrix-run.json")
      "row"
    ≡ ok tt
unfolding validate_live_backend_summary_consistency backend_summary convert_bundle_error is_stale
    Checks.text_as Values.load_json validate_bundle Bundle.load_object Checks.object_as
    Bundle.validate_claims Bundle.require_text Checks.text_or get path_of guard Bundle.require_bool
    Checks.bool_as Bundle.validate_vm_live_gate Bundle.artifact_paths Bundle.require_list
    Bundle.artifact_items Bundle.artifact_path Bundle.bundle_artifacts Bundle.require_artifact
    Bundle.is_suffix Text.codes Bundle.validate_artifacts Partial.validate_evidence
    Partial.load_object Partial.validate_loaded Partial.validate_claims Partial.require_text
    Partial.reject_contradictions for_each Partial.require_bool Partial.validate_attach
    Text.is_prefix Partial.validate_rollback Partial.validate_transcript Text.contains
    Observe.validate_observe Observe.validate_claims Observe.observe_paths Observe.load_object
    Observe.require_string Observe.require_bool Observe.sibling_path Observe.safe_path
    Observe.validate_links Core.validate_file Common.load_jsonl Text.is_blank Core.validate_samples
    Core.validate_sample Common.reject_private_leaks Tokens.private_key Common.claim_key
    Common.private_text_contains Core.validate_root_fields Common.require_string Common.require_int
    SchedExt.validate_sched_ext_facts Common.validate_fact Common.require_object Text.strip
    SchedExt.validate_nonnegative_fact_value Digits.decimal Json.has_key
    SchedExt.validate_sched_ext_phase Core.validate_digest Core.status_facts Common.require_bool
    Core.validate_optional_counter_sets Common.optional_object SchedExt.validate_task_ext_enabled
    SchedExt.validate_cgroup_semantic_labels SchedExt.validate_teardown_rollback
    Core.validate_scheduler_telemetry Core.validate_benchmark_refs Core.validate_policy_abi
    PolicyAbi.validate_policy_abi_contract PolicyAbi.require_string PolicyAbi.require_bool
    Sequence.validate_sched_ext_sequence Sequence.sequence_row Sequence.next_sequence
    SchedExt.numeric_fact_value Digits.int_or_none Sequence.next_enable_seq Sequence.phase_ok
    Ledger.validate_ledger Ledger.load_jsonl Ledger.validate_records Ledger.validate_record
    Ledger.require_string Ledger.is_secret Ledger.audit_match Ledger.sha256_file path_text ◌<>◌
    Ledger.validate_snapshot Ledger.load_object Checks.load_object_as Observe.require_int
    Checks.int_or Observe.validate_sample_series Observe.load_jsonl Checks.read_rows
    Equality.value_eq Observe.validate_daemon_events Observe.validate_snapshot
    Bundle.validate_behavior Bundle.validate_partial_behavior Counters.sha256_match
    Bundle.validate_observe_behavior Bundle.load_jsonl Bundle.validate_samples Bundle.sample_series
    Bundle.sample_ops Bundle.sample_state Bundle.validate_memberships
    Bundle.validate_cgroup_membership Counters.observed_digest Counters.validate_counter_growth
    Counters.counter_facts Counters.validate_required_counter_fact Digits.is_digits
    Counters.sample_events_known Counters.is_unavailable Digits.int_of_digits
    Counters.parse_counters Json.lookup Ledger.ignore_case Ledger.load_lines Counters.after_prefix
    Counters.counter_at Counters.counter_of Counters.counter_values Counters.digits_of
    Counters.drop_spaces Counters.find_counters Bundle.validate_daemon_events
    Observe.workload_execution_passed Common.load_lines Core.is_sha256_digest
    Core.is_unavailable_object Core.nonnegative Core.validate_counter_map
    Core.validate_metric_object Core.validate_nonnegative_fields Digest.is_digest_codes
    Digest.is_digest_summary PolicyAbi.require_int PolicyAbi.require_object PolicyAbi.require_status
    PolicyAbi.require_string_list PolicyAbi.same_list PolicyAbi.semantics_match
    PolicyAbi.validate_cgroup_callback_stats PolicyAbi.validate_cgroup_policy_map
    PolicyAbi.validate_dsq_counter_coherence PolicyAbi.validate_v3_cgroup_evidence
    PolicyAbi.validate_v3_policy_abi Sequence.sequence_from SchedExt.fact_text Tokens.chunks
    Tokens.contains_pattern Tokens.next_token Tokens.private_key_tokens Tokens.same_text
    Tokens.same_texts Tokens.span Tokens.tokens_fuel Tokens.window_match Digits.digit
    Digits.digits_from Digits.int_of_number Regex.deriv Regex.either Regex.fullmatch Regex.join
    Regex.nullable Text.casefold Text.contains_any Text.lower Text.strip_left Text.strip_right
    World.kept_names World.split_slash
backend_runs = refl

scenario_stands : get backend_row "scenario_id" ≡ str "live-backend"
unfolding get
scenario_stands = refl

outcome_stands : get backend_row "outcome" ≡ str "PASS"
unfolding get
outcome_stands = refl

mode_stands : get backend_row "evidence_mode" ≡ str "vm-live"
unfolding get
mode_stands = refl

validate_live_backend-BackendOk_example :
    BackendOk live_run backend_row (path_of "b/matrix-run.json")
validate_live_backend-BackendOk_example =
    validate_live_backend-BackendOk live_run backend_row (path_of "b/matrix-run.json") "row"
      scenario_stands outcome_stands mode_stands backend_runs

observation_runs : validate_observe live_run (path_of "b/observe-partial/summary.json") ≡ ok tt
unfolding validate_observe Bundle.load_object Checks.object_as Bundle.validate_claims
    Bundle.require_text Checks.text_or get path_of guard Bundle.require_bool Checks.bool_as
    Bundle.validate_vm_live_gate Bundle.artifact_paths Bundle.require_list Bundle.artifact_items
    Bundle.artifact_path Bundle.bundle_artifacts Bundle.require_artifact Bundle.is_suffix Text.codes
    Bundle.validate_artifacts Partial.validate_evidence Partial.load_object Partial.validate_loaded
    Partial.validate_claims Partial.require_text Partial.reject_contradictions for_each
    Partial.require_bool Partial.validate_attach Text.is_prefix Partial.validate_rollback
    Partial.validate_transcript Text.contains Observe.validate_claims Observe.observe_paths
    Observe.load_object Observe.require_string Observe.require_bool Observe.sibling_path
    Observe.safe_path Observe.validate_links Core.validate_file Common.load_jsonl Text.is_blank
    Core.validate_samples Core.validate_sample Common.reject_private_leaks Tokens.private_key
    Common.claim_key Common.private_text_contains Core.validate_root_fields Common.require_string
    Common.require_int SchedExt.validate_sched_ext_facts Common.validate_fact Common.require_object
    Text.strip SchedExt.validate_nonnegative_fact_value Digits.decimal Json.has_key
    SchedExt.validate_sched_ext_phase Core.validate_digest Core.status_facts Common.require_bool
    Core.validate_optional_counter_sets Common.optional_object SchedExt.validate_task_ext_enabled
    SchedExt.validate_cgroup_semantic_labels SchedExt.validate_teardown_rollback
    Core.validate_scheduler_telemetry Core.validate_benchmark_refs Core.validate_policy_abi
    PolicyAbi.validate_policy_abi_contract PolicyAbi.require_string PolicyAbi.require_bool
    Sequence.validate_sched_ext_sequence Sequence.sequence_row Sequence.next_sequence
    SchedExt.numeric_fact_value Digits.int_or_none Sequence.next_enable_seq Sequence.phase_ok
    Ledger.validate_ledger Ledger.load_jsonl Ledger.validate_records Ledger.validate_record
    Ledger.require_string Ledger.is_secret Ledger.audit_match Ledger.sha256_file path_text ◌<>◌
    Ledger.validate_snapshot Ledger.load_object Checks.load_object_as Observe.require_int
    Checks.int_or Observe.validate_sample_series Observe.load_jsonl Checks.read_rows
    Equality.value_eq Observe.validate_daemon_events Observe.validate_snapshot
    Bundle.validate_behavior Bundle.validate_partial_behavior Counters.sha256_match
    Bundle.validate_observe_behavior Bundle.load_jsonl Bundle.validate_samples Bundle.sample_series
    Bundle.sample_ops Bundle.sample_state Bundle.validate_memberships
    Bundle.validate_cgroup_membership Counters.observed_digest Counters.validate_counter_growth
    Counters.counter_facts Counters.validate_required_counter_fact Digits.is_digits
    Counters.sample_events_known Counters.is_unavailable Digits.int_of_digits
    Counters.parse_counters Json.lookup Ledger.ignore_case Ledger.load_lines Counters.after_prefix
    Counters.counter_at Counters.counter_of Counters.counter_values Counters.digits_of
    Counters.drop_spaces Counters.find_counters Bundle.validate_daemon_events
    Observe.workload_execution_passed Common.load_lines Core.is_sha256_digest
    Core.is_unavailable_object Core.nonnegative Core.validate_counter_map
    Core.validate_metric_object Core.validate_nonnegative_fields Digest.is_digest_codes
    Digest.is_digest_summary PolicyAbi.require_int PolicyAbi.require_object PolicyAbi.require_status
    PolicyAbi.require_string_list PolicyAbi.same_list PolicyAbi.semantics_match
    PolicyAbi.validate_cgroup_callback_stats PolicyAbi.validate_cgroup_policy_map
    PolicyAbi.validate_dsq_counter_coherence PolicyAbi.validate_v3_cgroup_evidence
    PolicyAbi.validate_v3_policy_abi Sequence.sequence_from SchedExt.fact_text Tokens.chunks
    Tokens.contains_pattern Tokens.next_token Tokens.private_key_tokens Tokens.same_text
    Tokens.same_texts Tokens.span Tokens.tokens_fuel Tokens.window_match Digits.digit
    Digits.digits_from Digits.int_of_number Regex.deriv Regex.either Regex.fullmatch Regex.join
    Regex.nullable Text.casefold Text.contains_any Text.lower Text.strip_left Text.strip_right
    World.kept_names World.split_slash
observation_runs = refl

validate_observe-AcceptedObservation_example :
    AcceptedObservation live_run (path_of "b/observe-partial/summary.json")
validate_observe-AcceptedObservation_example =
    validate_observe-AcceptedObservation live_run (path_of "b/observe-partial/summary.json")
      observation_runs
