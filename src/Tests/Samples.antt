-- ===== src/Tests/Samples.antt =====
-- Samples: the privacy scan, the token patterns, digests, policy metadata, sequences and alerts.
use exasphere.Base.{
  ◌≡◌, refl, ◌↔◌, true, false, List, [], ◌∷◌, String, ok, guard, length, ℕ, ◌≤◌, arith,
}
use exasphere.Text.{codes, strip}
use exasphere.Text.Digits.{int_or_none, decimal, digits_from, digit}
use exasphere.Json.{
  pos, JsonValue, bool, int, str, obj, JsonObject, end, field, get, lookup, is_null, is_text,
}
use exasphere.World.{parsed, World, found, missing, decoded}
use exasphere.Sample.Common.{reject_private_leaks, require_object}
use exasphere.Sample.Common.Privacy.{Within, Safe, reject_private_leaks_iff}
use exasphere.Sample.Digest.{is_digest_codes}
use exasphere.Sample.Digest.Laws.{Summary, is_digest_codes_iff}
use exasphere.Sample.Tokens.{contains_pattern, tokens_fuel}
use exasphere.Sample.Tokens.Laws.{Stands, contains_pattern_iff, concat, tokens_fuel-concat}
use exasphere.Sample.SchedExt.{numeric_fact_value, fact_text}
use exasphere.Sample.SchedExt.Sequence.{
  next_sequence, next_enable_seq, phase_ok, sequence_row, sequence_from,
  validate_sched_ext_sequence,
}
use exasphere.Sample.SchedExt.Sequence.Laws.{
  sequences, enable_seqs, Rising, NonDecreasing, PhaseRule, validate_sched_ext_sequence_sound,
}
use exasphere.Sample.Order.{is_rejection, alert_row, alert_rows, validate_alert_order}
use exasphere.Sample.Order.Laws.{
  Some, up_to, ShowsRejection, ShowsDeath, validate_alert_order_sound,
}
use exasphere.Sample.PolicyAbi
use exasphere.Sample.PolicyAbi.{
  validate_cgroup_policy_map, validate_cgroup_callback_stats, validate_dsq_counter_coherence,
}
use exasphere.Sample.PolicyAbi.Laws.{SafeFlags, validate_policy_abi_contract-SafeFlags}
use exasphere.Sample.PolicyAbi.Good.{good_policy_abi, validate-good_policy_abi}
use exasphere.Base.{All}

abbrev leaking : JsonValue
leaking = obj (field "inner" (obj (field "authToken" (str "x") end)) end)

reject_private_leaks_iff_example :
    (reject_private_leaks leaking "sample" ≡ ok tt) ↔ ((w : JsonValue) → Within w leaking → Safe w)
reject_private_leaks_iff_example = reject_private_leaks_iff leaking "sample"

is_digest_codes_iff_example : (is_digest_codes (b's' ∷ []) ≡ true) ↔ Summary (b's' ∷ [])
is_digest_codes_iff_example = is_digest_codes_iff (b's' ∷ [])

abbrev auth_token : List (List ℕ)
auth_token = codes "auth" ∷ codes "token" ∷ []

contains_pattern_iff_example :
    (contains_pattern auth_token (codes "token" ∷ []) ≡ true)
    ↔ Stands (codes "token" ∷ []) auth_token
contains_pattern_iff_example = contains_pattern_iff auth_token (codes "token" ∷ [])

three_letters : length {A = ℕ} (b'a' ∷ b'B' ∷ b'1' ∷ []) ≤ 3
three_letters = omega arith

tokens_fuel-concat_example :
    concat (tokens_fuel 3 (b'a' ∷ b'B' ∷ b'1' ∷ [])) ≡ b'a' ∷ b'B' ∷ b'1' ∷ []
tokens_fuel-concat_example = tokens_fuel-concat 3 (b'a' ∷ b'B' ∷ b'1' ∷ []) three_letters refl

abi_version_stands : is_null (get (good_policy_abi "ab") "abi_version") ≡ false
unfolding good_policy_abi get
abi_version_stands = refl

validate_policy_abi_contract-SafeFlags_example : SafeFlags (good_policy_abi "ab")
validate_policy_abi_contract-SafeFlags_example =
    validate_policy_abi_contract-SafeFlags (good_policy_abi "ab") "sample" abi_version_stands
      (validate-good_policy_abi "ab" "sample" refl)

abbrev pub fact : String → JsonObject
fact value = field "status" (str "present") (field "value" (str value) end)

abbrev sample_at : String → JsonObject
sample_at phase = field "sequence" (int (pos 1)) (
    field "sched_ext_phase" (str phase) (
      field "enable_seq" (obj (fact "7"))
        (field "state" (obj (fact "disabled")) (field "ops" (obj (fact "none")) end))))

abbrev two_samples : List JsonObject
two_samples =
    sample_at "before_attach"
    ∷ field "sequence" (int (pos 2)) (field "enable_seq" (obj (fact "8")) end)
    ∷ []

sequence_runs : validate_sched_ext_sequence two_samples ≡ ok tt
unfolding validate_sched_ext_sequence sequence_from sequence_row next_sequence next_enable_seq
    phase_ok numeric_fact_value fact_text int_or_none decimal digits_from digit get lookup codes
    guard require_object strip
sequence_runs = refl

validate_sched_ext_sequence_sound_example :
    Rising (sequences two_samples)
    × NonDecreasing (enable_seqs two_samples)
    × All PhaseRule two_samples
validate_sched_ext_sequence_sound_example =
    validate_sched_ext_sequence_sound two_samples sequence_runs

abbrev rejecting : JsonObject
rejecting = field "event" (str "runtime_sample") (field "nr_rejected" (str "2") end)

abbrev incident : JsonObject
incident = field "event" (str "incident") (field "reason" (str "runtime_nr_rejected_nonzero") end)

alerts_run : validate_alert_order (rejecting ∷ incident ∷ []) "daemon" ≡ ok tt
unfolding validate_alert_order alert_rows alert_row is_rejection int_or_none decimal digits_from
    digit get lookup codes guard
alerts_run = refl

validate_alert_order_sound_example :
    (is_text "runtime_nr_rejected_nonzero" (get incident "reason") ≡ true
      → Some ShowsRejection (up_to (rejecting ∷ []) incident))
    × (is_text "runtime_workload_dead" (get incident "reason") ≡ true
        → Some ShowsDeath (up_to (rejecting ∷ []) incident))
validate_alert_order_sound_example =
    validate_alert_order_sound (rejecting ∷ []) incident [] "daemon" alerts_run

abbrev pub plain_abi : JsonObject
plain_abi = field "policy_name" (str "p") (
    field "policy_version" (str "1") (
      field "struct_ops" (str "o")
        (field "object_sha256" (str "ab") (field "btf_required" (bool true) end))))

abbrev pub whole_sample : JsonObject
whole_sample = field "schema" (str "zig-scheduler/runtime-sample/v1") (
    field "sequence" (int (pos 1)) (
      field "state" (obj (fact "disabled")) (
        field "ops" (obj (fact "none")) (
          field "enable_seq" (obj (fact "7")) (
            field "events" (obj (fact "0")) (
              field "nr_rejected" (obj (fact "0")) (
                field "debug_dump"
                  (obj (field "status" (str "missing") (field "value" (str "") end)))
                  (field "events_hash" (str "ab") (
                    field "cgroup_membership_digest"
                      (str "0123456789abcdef0123456789abcdef0123456789abcdef0123456789abcdef")
                      (field "workload_alive" (bool true) (
                        field "private_command_lines_sampled" (bool false)
                          (field "policy_abi" (obj plain_abi) end))))))))))))

abbrev one_sample : World
one_sample = record {
  read_text = λ p. missing;
  read_replaced = λ p. missing;
  read_lines = λ p. found ("row" ∷ []);
  sha256 = λ p. missing;
  is_file = λ p. true;
  exists = λ p. true;
  resolve = λ p. p;
  dumps = λ fs. "";
  loads = λ s. decoded (obj whole_sample);
  loads_strict = λ s. parsed (decoded (obj whole_sample));
  is_word = λ c. true;
}
