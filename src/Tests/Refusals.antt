-- ===== src/Tests/Refusals.antt =====
-- A stream with a stale and a duplicate refusal, its ledger and its samples.
use exasphere.Daemon
use exasphere.Checks
use exasphere.Daemon.Task9
use exasphere.Json.Equality
use exasphere.Json
use exasphere.Text.Digits
use exasphere.Text
use exasphere.World
use exasphere.Base.{true, false, List, [], ◌∷◌, String, str_eq, if◌then◌else◌}
use exasphere.Json.{pos, bool, int, str, obj, JsonObject, end, field}
use exasphere.World.{parsed, World, name_of, found, missing, decoded}
use exasphere.Daemon.{required_lifecycle}

abbrev state_of : String → String
state_of name =
    if str_eq name "validation"
    then "stale_target_refused"
    else if str_eq name "incident"
    then "duplicate_rollback_refused"
    else "vm_live_validated"

abbrev artifact_of : String → String
artifact_of name =
    if str_eq name "rollback"
    then "ledger.jsonl"
    else if str_eq name "runtime_sample"
    then "samples.jsonl"
    else "refusals.jsonl"

abbrev event : String → JsonObject
event name = field "seq" (int (pos 1)) (
    field "event" (str name) (
      field "host_mutation" (bool false) (
        field "state" (str (state_of name)) (
          field "status" (str "REFUSE") (
            field "rollback_id" (str "r-1") (
              field "audit_id" (str "a-1") (
                field "artifact" (str (artifact_of name))
                  (field "ops" (str "zigsched_minimal") end))))))))

abbrev refusal : String → JsonObject
refusal state = field "state" (str state) (
    field "rollback_id" (str "r-1") (
      field "audit_id" (str "a-1") (
        field "refusal_path" (str "refuse_stale_rollback_target")
          (field "bpftool_rc" (int (pos 1)) end))))

abbrev present : String → JsonObject
present value = field "status" (str "present") (field "value" (str value) end)

abbrev sample : JsonObject
sample = field "observation_source" (str "vm_serial_sched_ext") (
    field "sample_source_event" (str "register") (
      field "ops" (obj (present "zigsched_minimal")) (
        field "cgroup_membership_digest"
          (str "0123456789abcdef0123456789abcdef0123456789abcdef0123456789abcdef")
          (field "cgroup_membership_status" (obj (present "present"))
            (field "workload_alive" (bool true) end)))))

abbrev ledger : JsonObject
ledger = field "rollback_id" (str "r-1") (field "audit_id" (str "a-1") end)

abbrev lines_of : String → List String
lines_of name =
    if str_eq name "refusals.jsonl"
    then "stale_target_refused" ∷ "duplicate_rollback_refused" ∷ []
    else if str_eq name "samples.jsonl"
    then "sample" ∷ []
    else if str_eq name "ledger.jsonl"
    then "ledger" ∷ []
    else required_lifecycle

abbrev value_of : String → JsonObject
value_of line =
    if str_eq line "sample"
    then sample
    else if str_eq line "ledger"
    then ledger
    else if str_eq line "stale_target_refused"
    then refusal line
    else if str_eq line "duplicate_rollback_refused"
    then refusal line
    else event line

abbrev refusing : World
refusing = record {
  read_text = λ p. missing;
  read_replaced = λ p. missing;
  read_lines = λ p. found (lines_of (name_of p));
  sha256 = λ p. missing;
  is_file = λ p. true;
  exists = λ p. true;
  resolve = λ p. p;
  dumps = λ fs. "";
  loads = λ s. decoded (obj (value_of s));
  loads_strict = λ s. parsed (decoded (obj (value_of s)));
  is_word = λ c. true;
}
