-- ===== src/Tests/Lives.antt =====
-- The evidence of a partial attach, and the samples of a bundle.
use exasphere.Live.Bundle.Counters.{
  observed_digest, sha256_match, validate_counter_growth, counter_facts,
  validate_required_counter_fact, sample_events_known, after_prefix, counter_at, counter_of,
  counter_values, digits_of, drop_spaces, find_counters, is_unavailable, parse_counters,
}
use exasphere.Text.Digits.{
  is_digits, decimal, digit, digits_from, int_of_digits, int_of_number, int_or_none,
}
use exasphere.Live.Observe.{workload_execution_passed}
use exasphere.Base.{◌≡◌, refl, true, false, List, [], ◌∷◌, String, ok, guard, for_each}
use exasphere.Text.{codes, contains, is_prefix, lower}
use exasphere.Json.{JsonValue, bool, str, obj, JsonObject, end, field, get, lookup}
use exasphere.World.{parsed, World, path_of, found, missing, decoded, kept_names, split_slash}
use exasphere.Checks.{text_or, bool_as, object_as}
use exasphere.Live.Partial
use exasphere.Live.Partial.{validate_evidence, validate_rollback}
use exasphere.Live.Partial.Laws.{AcceptedPartial, validate_evidence-AcceptedPartial}
use exasphere.Live.Bundle.Counters.{validate_counter_growth}
use exasphere.Live.Bundle.{
  validate_samples, sample_series, sample_ops, sample_state, require_bool, validate_memberships,
  validate_cgroup_membership,
}
use exasphere.Live.Bundle.Series.{SamplesOk, validate_samples-SamplesOk}

abbrev pub evidence : JsonObject
evidence = field "schema" (str "zig-scheduler/partial-attach-evidence/v1") (
    field "host_mutation" (bool false) (
      field "release_eligible_live_proof" (bool false) (
        field "ops_during_attach" (str "zigsched_minimal") (
          field "switch_mode" (str "SCX_OPS_SWITCH_PARTIAL") (
            field "attach_command" (str "bpftool struct_ops register") (
              field "target_cgroup" (str "/sys/fs/cgroup/zig-scheduler-lab.slice/demo") (
                field "rollback_id" (str "RB-demo") (
                  field "rollback_status" (str "PASS") (
                    field "post_state" (str "disabled") (
                      field "object_sha256"
                        (str "0123456789abcdef0123456789abcdef0123456789abcdef0123456789abcdef")
                        (field "transcript_path" (str "t.log") end)))))))))))

abbrev attached : World
attached = record {
  read_text = λ p. found "bpftool struct_ops register ops=zigsched_minimal rollback_status=PASS";
  read_replaced =
      λ p. found "bpftool struct_ops register ops=zigsched_minimal rollback_status=PASS";
  read_lines = λ p. missing;
  sha256 = λ p. missing;
  is_file = λ p. true;
  exists = λ p. true;
  resolve = λ p. p;
  dumps = λ fs. "";
  loads = λ s. decoded (obj evidence);
  loads_strict = λ s. parsed (decoded (obj evidence));
  is_word = λ c. true;
}

attach_runs : validate_evidence attached (path_of "evidence.json") ≡ ok tt
unfolding validate_evidence Partial.load_object object_as Partial.validate_loaded
    Partial.validate_claims Partial.require_text text_or get guard Partial.reject_contradictions
    for_each Partial.require_bool bool_as Partial.validate_attach is_prefix codes
    Partial.validate_rollback lookup Partial.validate_transcript contains kept_names path_of
    split_slash
attach_runs = refl

validate_evidence-AcceptedPartial_example : AcceptedPartial attached (path_of "evidence.json")
validate_evidence-AcceptedPartial_example =
    validate_evidence-AcceptedPartial attached (path_of "evidence.json") attach_runs

abbrev fact : String → JsonValue
fact value = obj (field "status" (str "present") (field "value" (str value) end))

abbrev sample : String → String → JsonObject
sample ops rejected = field "ops" (fact ops) (
    field "state" (fact "disabled") (
      field "events" (fact ("fatal=0")) (
        field "nr_rejected" (fact rejected) (
          field "workload_alive" (bool true) (
            field "cgroup_membership_digest"
              (str "0123456789abcdef0123456789abcdef0123456789abcdef0123456789abcdef")
              (field "cgroup_membership_status" (fact "present") end))))))

abbrev three_samples : List JsonObject
three_samples = sample "none" "2" ∷ sample "zigsched_minimal" "2" ∷ sample "none" "2" ∷ []

abbrev observe : JsonObject
observe = field "workload_alive_all_samples" (bool true) end

samples_run : validate_samples three_samples observe ≡ ok tt
unfolding validate_samples guard sample_series sample_ops get sample_state require_bool bool_as
    validate_memberships validate_cgroup_membership observed_digest sha256_match
    validate_counter_growth counter_facts validate_required_counter_fact is_digits
    sample_events_known for_each lookup after_prefix counter_at counter_of counter_values digits_of
    drop_spaces find_counters is_unavailable parse_counters workload_execution_passed decimal digit
    digits_from int_of_digits int_of_number int_or_none codes lower
samples_run = refl

validate_samples-SamplesOk_example : SamplesOk three_samples observe
validate_samples-SamplesOk_example = validate_samples-SamplesOk three_samples observe samples_run
