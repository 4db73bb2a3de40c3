-- ===== src/Sample/Core.antt =====
-- qa/runtime_sample_core.py: one sample, a file of samples, and the order of alerts.
pub mod Laws
use exasphere.Base.{
  ℕ, Bool, true, false, ◌&&◌, ◌||◌, not, Option, none, some, List, [], ◌∷◌, ◌+◌, String, str_eq,
  leb, ltb, ◌==◌, if◌then◌else◌, Error, ErrorKind, policy_abi_error, runtime_sample_error, Result,
  ok, err, raise, guard, drop_value, for_each, ◌>>=◌, ◌>>◌, ◌<>◌, length, all, any,
}
use exasphere.Text.{codes, in_table, casefold, contains, is_hex, starts_with}
use exasphere.Text.Digits.{show}
use exasphere.Json.{
  ℤ, pos, negsuc, JsonValue, null, bool, int, str, arr, obj, Items, nil, cons, JsonObject, end,
  field, get, has_key, as_int, is_negative,
}
use exasphere.World.{World, FilePath, path_of, parts}
use exasphere.Sample.Tokens.{same_text}
use exasphere.Sample.Digest.{is_digest_summary}
use exasphere.Sample.Fields.{root_fields}
use exasphere.Sample.PolicyAbi.{validate_policy_abi_contract}
use exasphere.Sample.SchedExt.{
  validate_cgroup_semantic_labels, validate_sched_ext_facts, validate_sched_ext_phase,
  validate_task_ext_enabled, validate_teardown_rollback,
}
use exasphere.Sample.SchedExt.Sequence.{validate_sched_ext_sequence}
use exasphere.Sample.Common.{
  Fact, fail, ensure, optional_object, reject_private_leaks, require_bool, require_int,
  require_object, require_string, load_jsonl, validate_fact,
}

abbrev pub sample_schema : String
sample_schema = "zig-scheduler/runtime-sample/v1"

abbrev counters : List String
counters = "nr_rejected" ∷ "dispatch_failed" ∷ "fallback" ∷ "fatal" ∷ []

abbrev dsq_depth_fields : List String
dsq_depth_fields = "global" ∷ "local" ∷ "shared" ∷ []

abbrev latency_fields : List String
latency_fields = "p50_us" ∷ "p95_us" ∷ "p99_us" ∷ "max_us" ∷ []

abbrev scheduler_counter_fields : List String
scheduler_counter_fields = "context_switches" ∷ "wakeups" ∷ "migrations" ∷ []

abbrev fairness_states : List String
fairness_states = "ok" ∷ "watch" ∷ "starved" ∷ "unknown" ∷ []

abbrev unavailable_statuses : List String
unavailable_statuses = "missing" ∷ "unreadable" ∷ "unknown" ∷ []

abbrev unavailable_values : List String
unavailable_values = "" ∷ "missing" ∷ "none" ∷ "null" ∷ "unavailable" ∷ "unknown" ∷ []

-- `require_int(data, field, context) < 0` raises.
unfoldable pub nonnegative : JsonObject → String → String → Result (Unit {0})
nonnegative data_ name context = do
  n ← require_int data_ name context
  ensure (not (is_negative n)) (context <> "." <> name <> " must be nonnegative")

unfoldable pub validate_nonnegative_fields : JsonObject → List String → String → Result (Unit {0})
validate_nonnegative_fields data_ fields context =
    for_each fields λ name. nonnegative data_ name context

-- `isinstance(value, str) and value.casefold() in UNAVAILABLE_VALUES`
folded_among : List ℕ → List String → Bool
folded_among s [] = false
folded_among s (t ∷ ts) = same_text s (codes t) || folded_among s ts

status_unavailable : JsonValue → Bool
status_unavailable (str s) = in_table s unavailable_statuses
status_unavailable _ = false

value_unavailable : JsonValue → Bool
unfolding folded_among
value_unavailable (str s) = folded_among (casefold (codes s)) unavailable_values
value_unavailable _ = false

unfoldable pub is_unavailable_object : JsonObject → Bool
unfolding status_unavailable value_unavailable
is_unavailable_object data_ =
    status_unavailable (get data_ "status") && value_unavailable (get data_ "value")

unfoldable pub validate_metric_object : JsonObject → List String → String → Result (Unit {0})
validate_metric_object data_ fields context =
    if is_unavailable_object data_ then ok tt else validate_nonnegative_fields data_ fields context

-- The fields of "sample_loss" that may be left out.
loss_fields : JsonObject → String → Result (Unit {0})
loss_fields loss context = do
  validate_nonnegative_fields loss ("lost_samples" ∷ "backpressure_dropped" ∷ [])
      (context <> ".sample_loss")
  for_each ("ring_buffer_overruns" ∷ "reader_lag_events" ∷ [])
      λ name. if has_key loss name then nonnegative loss name (context <> ".sample_loss") else ok tt

-- `if x is not None: check(x)`
abbrev when_present : Option JsonObject → (JsonObject → Result (Unit {0})) → Result (Unit {0})
when_present none check = ok tt
when_present (some data_) check = check data_

unfoldable pub validate_optional_counter_sets : JsonObject → String → Result (Unit {0})
unfolding loss_fields
validate_optional_counter_sets row context = do
  found ← optional_object row "policy_counters" context
  when_present found λ data_. validate_metric_object data_ counters (context <> ".policy_counters")
  loss ← optional_object row "sample_loss" context
  when_present loss
      λ data_. if is_unavailable_object data_ then ok tt else loss_fields data_ context

-- `not isinstance(value, int) or value < 0`
abbrev is_count : Option ℤ → Bool
is_count none = false
is_count (some n) = not (is_negative n)

counter_entries : JsonObject → String → Result (Unit {0})
counter_entries end context = ok tt
counter_entries (field key value rest) context = do
  ensure (not (starts_with key "/" || contains (codes "..") (codes key) || str_eq key ""))
      (context <> "." <> key <> " is not a stable redacted key")
  reject_private_leaks (str key) (context <> "." <> key)
  ensure (is_count (as_int value)) (context <> "." <> key <> " must be a nonnegative integer")
  counter_entries rest context

abbrev is_end : JsonObject → Bool
is_end end = true
is_end (field k v fs) = false

unfoldable pub validate_counter_map : JsonObject → String → Result (Unit {0})
unfolding counter_entries
validate_counter_map data_ context = do
  ensure (not (is_end data_)) (context <> " must not be empty")
  counter_entries data_ context

-- `len(value) != 64 or value == SHA256_ZERO or any(char not in hex)`
unfoldable pub is_sha256_digest : String → Bool
is_sha256_digest value =
    length (codes value) == 64
    && not (all (λ c. c == b'0') (codes value))
    && all is_hex (codes value)

unfoldable pub validate_digest : String → String → Result (Unit {0})
unfolding is_sha256_digest
validate_digest value context =
    ensure (is_sha256_digest value) (context <> " must be a lowercase nonzero sha256 digest")

benchmark_ref : JsonObject → String → Result (Unit {0})
benchmark_ref item context = do
  path ← require_string item "record_path" context
  ensure (not (starts_with path "/" || in_table ".." (parts (path_of path))))
      (context <> ".record_path must be repo-relative")
  sha ← require_string item "record_sha256" context
  validate_digest sha (context <> ".record_sha256")
  drop_value (require_string item "histogram_id" context)
  record_only ← require_bool item "record_only" context
  ensure record_only (context <> ".record_only must be true")

benchmark_item : JsonValue → String → Result (Unit {0})
unfolding benchmark_ref
benchmark_item (obj item) context = benchmark_ref item context
benchmark_item _ context = fail (context <> " must be an object")

benchmark_items : ℕ → Items → String → Result (Unit {0})
unfolding benchmark_item
benchmark_items index nil context = ok tt
benchmark_items index (cons item rest) context = do
  benchmark_item item (context <> ".benchmark_histograms[" <> show index <> "]")
  benchmark_items (index + 1) rest context

benchmark_value : JsonValue → String → Result (Unit {0})
unfolding benchmark_items
benchmark_value null context = ok tt
benchmark_value (arr refs) context = benchmark_items 0 refs context
benchmark_value _ context = fail (context <> ".benchmark_histograms must be a list")

unfoldable pub validate_benchmark_refs : JsonObject → String → Result (Unit {0})
unfolding benchmark_value
validate_benchmark_refs row context = benchmark_value (get row "benchmark_histograms") context

unfoldable pub validate_root_fields : JsonObject → String → Result (Unit {0})
validate_root_fields end context = ok tt
validate_root_fields (field name v rest) context = do
  ensure (in_table name root_fields) (context <> " has unsupported runtime sample field: " <> name)
  validate_root_fields rest context

fairness_object : JsonObject → String → Result (Unit {0})
fairness_object fairness context = if is_unavailable_object fairness then ok tt else do
  state ← require_string fairness "state" (context <> ".fairness")
  ensure (in_table state fairness_states) (context <> ".fairness.state has unsupported value")
  validate_nonnegative_fields fairness ("starved_tasks" ∷ "max_wait_us" ∷ [])
      (context <> ".fairness")

task_counts_object : JsonObject → String → Result (Unit {0})
task_counts_object task_counts context = do
  by_cgroup ← require_object task_counts "by_cgroup_digest" (context <> ".task_counts")
  validate_counter_map by_cgroup (context <> ".task_counts.by_cgroup_digest")
  by_class ← require_object task_counts "by_class" (context <> ".task_counts")
  validate_counter_map by_class (context <> ".task_counts.by_class")

observation_object : JsonObject → String → Result (Unit {0})
observation_object sched_ext context = do
  dump ← validate_fact sched_ext "dump" (context <> ".sched_ext_observation")
  ensure (not (str_eq dump.status "present" && not (is_digest_summary dump.value)))
      (context <> ".sched_ext_observation.dump must be a redacted digest summary")
  tracepoints ← require_object sched_ext "tracepoints" (context <> ".sched_ext_observation")
  validate_counter_map tracepoints (context <> ".sched_ext_observation.tracepoints")

unfoldable pub validate_scheduler_telemetry : JsonObject → String → Result (Unit {0})
unfolding fairness_object task_counts_object observation_object
validate_scheduler_telemetry row context = do
  for_each
      (("dsq_depth", dsq_depth_fields)
        ∷ ("queue_latency", latency_fields)
        ∷ ("scheduler_counters", scheduler_counter_fields)
        ∷ [])
      λ (name, fields). do
        found ← optional_object row name context
        when_present found λ data_. validate_metric_object data_ fields (context <> "." <> name)
  fairness ← optional_object row "fairness" context
  when_present fairness λ data_. fairness_object data_ context
  task_counts ← optional_object row "task_counts" context
  when_present task_counts λ data_. task_counts_object data_ context
  sched_ext ← optional_object row "sched_ext_observation" context
  when_present sched_ext λ data_. observation_object data_ context
  validate_benchmark_refs row context

-- `except PolicyAbiError as exc: raise RuntimeSampleError(str(exc))`
abbrev converted : ErrorKind → String → Error
converted policy_abi_error message = record { kind = runtime_sample_error; message = message }
converted k message = record { kind = k; message = message }

convert_policy_abi_error : Result (Unit {0}) → Result (Unit {0})
convert_policy_abi_error (ok tt) = ok tt
convert_policy_abi_error (err e) = err (converted e.kind e.message)

unfoldable pub validate_policy_abi : JsonObject → String → Result (Unit {0})
unfolding convert_policy_abi_error
validate_policy_abi row context = do
  abi ← require_object row "policy_abi" context
  convert_policy_abi_error (validate_policy_abi_contract abi (context <> ".policy_abi"))
  reject_private_leaks (obj abi) (context <> ".policy_abi")

-- The facts that a sample may leave out.
unfoldable pub status_facts : JsonObject → String → Result (Unit {0})
status_facts row context =
    for_each ("cgroup_membership_status" ∷ "workload" ∷ [])
      λ name. if has_key row name then drop_value (validate_fact row name context) else ok tt

unfoldable pub validate_sample : JsonObject → ℕ → Result (Unit {0})
validate_sample row index = do
  let context = "sample[" <> show index <> "]"
  reject_private_leaks (obj row) context
  validate_root_fields row context
  schema ← require_string row "schema" context
  ensure (str_eq schema sample_schema) (context <> " has unsupported schema")
  drop_value (require_int row "sequence" context)
  validate_sched_ext_facts row context
  validate_sched_ext_phase row context
  drop_value (require_string row "events_hash" context)
  digest ← require_string row "cgroup_membership_digest" context
  validate_digest digest (context <> ".cgroup_membership_digest")
  status_facts row context
  drop_value (require_bool row "workload_alive" context)
  sampled ← require_bool row "private_command_lines_sampled" context
  ensure (not sampled) (context <> " sampled private command lines")
  validate_optional_counter_sets row context
  validate_task_ext_enabled row context
  validate_cgroup_semantic_labels row context
  validate_teardown_rollback row context
  validate_scheduler_telemetry row context
  validate_policy_abi row context

unfoldable pub validate_samples : ℕ → List JsonObject → Result (Unit {0})
validate_samples index [] = ok tt
validate_samples index (row ∷ rows) = do
  validate_sample row index
  validate_samples (index + 1) rows

unfoldable pub validate_file : World → FilePath → Result (Unit {0})
validate_file w path = do
  rows ← load_jsonl w path
  validate_samples 0 rows
  validate_sched_ext_sequence rows
