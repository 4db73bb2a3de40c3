-- ===== src/Tests/Records.antt =====
-- The provenance of one benchmark record, and the counters of two samples.
use exasphere.Matrix.Provenance
use exasphere.Checks
use exasphere.Json
use exasphere.Benchmark.Privacy
use exasphere.Benchmark.Records
use exasphere.Ledger
use exasphere.Matrix.Model
use exasphere.Text.Digits
use exasphere.Text.Regex
use exasphere.Text
use exasphere.World
use exasphere.Base.{◌≡◌, refl, true, false, some, str_eq, if◌then◌else◌, ok, guard, ◌<>◌}
use exasphere.Json.{pos, Items, bool, int, str, arr, cons, nil, obj, JsonObject, end, field}
use exasphere.World.{
  parsed, World, FilePath, path_of, name_of, found, missing, decoded, undecodable,
}
use exasphere.Matrix.Provenance.{validate_entries}
use exasphere.Matrix.Provenance.Laws.{ProvenanceOk, validate_entries-ProvenanceOk}
use exasphere.Tests.Matrices.{sha}

abbrev parser : JsonObject
parser =
    field "parser" (str "qa/benchmark_output_parse.py") (
      field "parser_version" (str "benchmark-output/v1") (field "parser_status" (str "PARSED") end))

abbrev benchmark : JsonObject
benchmark = field "schema" (str "zig-scheduler/benchmark-output/v1") (
    field "status" (str "RECORDED") (
      field "tool" (str "fio") (
        field "command_family" (str "fio") (
          field "record_only" (bool true) (
            field "output_path" (str "m/output.txt") (
              field "output_sha256" (str sha) (
                field "vm_evidence" (str "m/vm.json") (
                  field "parser_provenance" (obj parser) (
                    field "metrics" (obj (field "iops" (int (pos 5)) end)) (
                      field "units" (obj (field "iops" (str "op/s") end)) (
                        field "sample_count" (int (pos 1)) (
                          field "run_count" (int (pos 1)) (
                            field "host_mutation" (bool false) (
                              field "release_eligible" (bool false) (
                                field "production_capacity_claim" (bool false) (
                                  field "hard_thresholds_enforced" (bool false) (
                                    field "threshold_status" (str "record_only")
                                      (field "privacy_sanitized" (bool true) end))))))))))))))))))

abbrev entries : Items
entries =
    cons
      (obj (
        field "record_path" (str "m/record.json")
          (field "record_sha256" (str sha) (field "record_only" (bool true) end))))
      nil

abbrev one_record : World
one_record = record {
  read_text = λ p. found (name_of p);
  read_replaced = λ p. found (name_of p);
  read_lines = λ p. missing;
  sha256 = λ p. found sha;
  is_file = λ p. true;
  exists = λ p. true;
  resolve = λ p. p;
  dumps = λ fs. "";
  loads = λ s. if str_eq s "record.json" then decoded (obj benchmark) else undecodable "0";
  loads_strict =
      λ s. parsed (if str_eq s "record.json" then decoded (obj benchmark) else undecodable "0");
  is_word = λ c. true;
}

provenance_runs : validate_entries one_record (arr entries) (some (path_of "m")) "spec" ≡ ok tt
unfolding validate_entries Provenance.validate_items Provenance.validate_entry Checks.object_as
    Checks.only_fields_as guard Checks.sorted Checks.without Json.get Provenance.require_safe_path
    Checks.text_as path_of Provenance.require_descendant Provenance.is_descendant
    Provenance.require_sha256 Provenance.file_sha256 Checks.digest_as ◌<>◌ Privacy.claims
    Privacy.compact_key Privacy.contains_sequence Privacy.forbidden_key Privacy.key_parts
    Privacy.normalized_key_tokens Privacy.overflows Privacy.private_key Privacy.private_text
    Privacy.reject_private_leaks Privacy.safe_relative Privacy.split_camel Records.family
    Records.metric_value Records.sha256_value Records.status_matches Records.status_of
    Records.tool_for Records.validate_flags Records.validate_metrics Records.validate_parser
    Records.validate_record Checks.text_or Json.lookup Ledger.ignore_case Model.is_word_char
    Provenance.convert_output_error Provenance.load_json Provenance.references_under
    Provenance.under_root Provenance.validate_raw_output_privacy
    Provenance.validate_record_references Digits.show Regex.deriv Regex.either Regex.fullmatch
    Regex.join Regex.nullable Text.codes Text.contains Text.contains_any Text.is_prefix Text.lower
    World.kept_names World.path_text World.split_slash
provenance_runs = refl

validate_entries-ProvenanceOk_example : ProvenanceOk one_record (some (path_of "m")) entries
validate_entries-ProvenanceOk_example =
    validate_entries-ProvenanceOk one_record entries (some (path_of "m")) "spec" provenance_runs
