-- ===== src/Benchmark/Records.antt =====
-- qa/benchmark_output_model.py, `tool_for` of qa/benchmark_output_parse.py, and `validate_record` of
-- qa/benchmark_output_validate.py.
use exasphere.Base.{
  ℕ, Bool, true, false, ◌&&◌, not, Option, none, some, List, [], ◌∷◌, String, str_eq, ◌==◌,
  if◌then◌else◌, length, all, Result, ok, raise, guard, ◌>>=◌, ◌>>◌, ◌<>◌, drop_value,
  benchmark_output_error, type_error, overflow_error,
}
use exasphere.Text.{codes, in_table, is_hex}
use exasphere.Json.{
  ℤ, pos, negsuc, JsonValue, int, float, str, arr, obj, JsonObject, end, field, keys, get, is_true,
  is_false, is_text, as_int, is_negative, lt_ℤ,
}
use exasphere.World.{World}
use exasphere.Checks.{object_as, sorted, without, is_empty, comma_join}
use exasphere.Benchmark.Privacy.{fail, ensure, reject_private_leaks, overflows, safe_relative}

abbrev pub schema : String
schema = "zig-scheduler/benchmark-output/v1"

abbrev pub supported : List String
supported = "cyclictest" ∷ "fio" ∷ "perf_bench_sched_messaging" ∷ "stress_ng" ∷ []

abbrev pub unsupported : List String
unsupported = "rtla" ∷ "perf_sched" ∷ []

abbrev pub required : List String
required =
    "schema" ∷ "status" ∷ "tool" ∷ "command_family" ∷ "record_only" ∷ "output_path"
    ∷ "output_sha256" ∷ "vm_evidence" ∷ "parser_provenance" ∷ "metrics" ∷ "units" ∷ "sample_count"
    ∷ "run_count" ∷ "host_mutation" ∷ "release_eligible" ∷ "production_capacity_claim"
    ∷ "hard_thresholds_enforced" ∷ "threshold_status" ∷ "privacy_sanitized" ∷ []

abbrev pub parser_provenance_fields : List String
parser_provenance_fields = "parser" ∷ "parser_version" ∷ "parser_status" ∷ []

abbrev pub parser_name : String
parser_name = "qa/benchmark_output_parse.py"

abbrev pub parser_version : String
parser_version = "benchmark-output/v1"

pub data CommandFamily : Type 0 where
  cyclictest fio perf_bench_sched_messaging rtla perf_sched stress_ng : CommandFamily

family_in : String → Option CommandFamily
family_in value =
    if str_eq value "cyclictest"
    then some cyclictest
    else if str_eq value "fio"
    then some fio
    else if str_eq value "perf_bench_sched_messaging"
    then some perf_bench_sched_messaging
    else if str_eq value "rtla"
    then some rtla
    else if str_eq value "perf_sched"
    then some perf_sched
    else if str_eq value "stress_ng"
    then some stress_ng
    else none

family_or : Option CommandFamily → String → Result CommandFamily
family_or none value = fail ("unsupported command family: " <> value)
family_or (some f) value = ok f

-- `family(str(value))`: the text of a value that is no text is no family.
unfoldable pub family : JsonValue → Result CommandFamily
unfolding family_in family_or
family (str value) = family_or (family_in value) value
family _ = fail "unsupported command family"

unfoldable pub tool_for : CommandFamily → String
tool_for cyclictest = "cyclictest"
tool_for fio = "fio"
tool_for perf_bench_sched_messaging = "perf"
tool_for perf_sched = "perf"
tool_for rtla = "rtla"
tool_for stress_ng = "stress-ng"

-- `str(record["command_family"]) in table`, for a value that `family` has accepted.
abbrev pub family_name : JsonValue → String
family_name (str s) = s
family_name _ = ""

abbrev without_line_feed : List ℕ → List ℕ
without_line_feed [] = []
without_line_feed (c ∷ []) = if c == 10 then [] else c ∷ []
without_line_feed (c ∷ s) = c ∷ without_line_feed s

-- `isinstance(value, str) and SHA256_RE.match(value)`: a line feed may follow the digits.
unfoldable pub sha256_value : JsonValue → Bool
unfolding codes
sha256_value (str s) =
    let digits = without_line_feed (codes s) in length digits == 64 && all is_hex digits
sha256_value _ = false

pub data Status : Type 0 where
  recorded unsupported_deferred : Status

-- `status_value in {...}`: a list or a dictionary is not hashable.
unfoldable pub status_of : JsonValue → Result Status
status_of (str s) =
    if str_eq s "RECORDED"
    then ok recorded
    else if str_eq s "UNSUPPORTED_DEFERRED"
    then ok unsupported_deferred
    else fail "bad status"
status_of (arr vs) = raise type_error "unhashable type: 'list'"
status_of (obj fs) = raise type_error "unhashable type: 'dict'"
status_of _ = fail "bad status"

abbrev pub parser_status : Status → String
parser_status recorded = "PARSED"
parser_status unsupported_deferred = "UNSUPPORTED_DEFERRED"

-- `isinstance(value, int | float) and not isinstance(value, bool) and math.isfinite(value) and value >= 0`
unfoldable pub metric_value : JsonValue → String → Result (Unit {0})
metric_value (int z) name =
    guard overflow_error (not (overflows z)) "int too large to convert to float"
    >> ensure (not (is_negative z)) ("invalid metric: " <> name)
metric_value (float z exponent) name = ensure (not (is_negative z)) ("invalid metric: " <> name)
metric_value _ name = fail ("invalid metric: " <> name)

abbrev is_full_text : JsonValue → Bool
is_full_text (str s) = not (str_eq s "")
is_full_text _ = false

unfoldable pub validate_metrics : JsonObject → JsonObject → Result (Unit {0})
validate_metrics end units = ok tt
validate_metrics (field name value metrics) units = do
  metric_value value name
  ensure (is_full_text (get units name)) ("missing metric unit: " <> name)
  validate_metrics metrics units

abbrev pub is_empty_object : JsonObject → Bool
is_empty_object end = true
is_empty_object (field name value rest) = false

-- `samples > 0`, `samples == 0`, for what `isinstance(value, int)` accepts.
abbrev pub is_positive : ℤ → Bool
is_positive z = lt_ℤ (pos 0) z

abbrev pub is_zero : ℤ → Bool
is_zero (pos n) = n == 0
is_zero (negsuc n) = false

count_or : Option ℤ → Result ℤ
count_or none = fail "counts must be integers"
count_or (some z) = ok z

-- What the status requires of the family, the metrics and the counts.
unfoldable pub status_matches :
    Status → String → JsonObject → JsonObject → ℤ → ℤ → Result (Unit {0})
status_matches recorded name metrics units samples runs = do
  ensure (in_table name supported) "recorded family must be supported"
  ensure (not (is_empty_object metrics)) "recorded artifacts require metrics"
  ensure (is_positive samples && is_positive runs) "recorded counts must be positive"
status_matches unsupported_deferred name metrics units samples runs = do
  ensure (in_table name unsupported) "deferred family must be unsupported"
  ensure (is_empty_object metrics && is_empty_object units)
      "deferred artifacts must not include metrics"
  ensure (is_zero samples && is_zero runs) "deferred counts must be zero"

unfoldable pub validate_parser : JsonValue → Status → Result (Unit {0})
validate_parser value status = do
  parser ← object_as benchmark_output_error value "parser_provenance must be an object"
  let extra = sorted (without (keys parser) parser_provenance_fields)
  let missing = sorted (without parser_provenance_fields (keys parser))
  ensure (is_empty extra) ("parser_provenance unexpected fields: " <> comma_join extra)
  ensure (is_empty missing) ("parser_provenance missing fields: " <> comma_join missing)
  ensure (is_text parser_name (get parser "parser")) "parser_provenance.parser unsupported"
  ensure (is_text parser_version (get parser "parser_version"))
      "parser_provenance.parser_version unsupported"
  ensure (is_text (parser_status status) (get parser "parser_status"))
      "parser_provenance.parser_status must match record status"

-- The flags of a record.
unfoldable pub validate_flags : JsonObject → Result (Unit {0})
validate_flags record_ = do
  ensure (is_false (get record_ "host_mutation")) "host_mutation must be false"
  ensure (is_false (get record_ "release_eligible")) "release_eligible must be false"
  ensure (is_false (get record_ "production_capacity_claim"))
      "production capacity claims are forbidden"
  ensure (is_false (get record_ "hard_thresholds_enforced")) "hard thresholds are forbidden"
  ensure (is_text "record_only" (get record_ "threshold_status"))
      "threshold status must be record_only"
  ensure (is_true (get record_ "privacy_sanitized")) "privacy_sanitized must be true"

unfoldable pub validate_record : World → JsonObject → Result (Unit {0})
unfolding count_or
validate_record w record_ = do
  reject_private_leaks w (obj record_) "record"
  let extra = sorted (without (keys record_) required)
  let missing = sorted (without required (keys record_))
  ensure (is_empty extra) ("unexpected fields: " <> comma_join extra)
  ensure (is_empty missing) ("missing fields: " <> comma_join missing)
  ensure (is_text schema (get record_ "schema")) "schema mismatch"
  status ← status_of (get record_ "status")
  command_family ← family (get record_ "command_family")
  ensure (is_true (get record_ "record_only")) "record_only must be true"
  ensure (is_text (tool_for command_family) (get record_ "tool")) "tool/family mismatch"
  drop_value (safe_relative w (get record_ "output_path") "output_path")
  drop_value (safe_relative w (get record_ "vm_evidence") "vm_evidence")
  ensure (sha256_value (get record_ "output_sha256")) "output_sha256 must be lowercase sha256"
  validate_flags record_
  validate_parser (get record_ "parser_provenance") status
  metrics ←
      object_as benchmark_output_error (get record_ "metrics") "metrics and units must be objects"
  units ← object_as benchmark_output_error (get record_ "units") "metrics and units must be objects"
  validate_metrics metrics units
  samples ← count_or (as_int (get record_ "sample_count"))
  runs ← count_or (as_int (get record_ "run_count"))
  status_matches status (family_name (get record_ "command_family")) metrics units samples runs
