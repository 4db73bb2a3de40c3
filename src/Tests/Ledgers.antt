-- ===== src/Tests/Ledgers.antt =====
-- An accepted ledger of one record, with its snapshot and its transcript.
use exasphere.Base.{◌≡◌, refl, true, [], ◌∷◌, str_eq, if◌then◌else◌, ok, guard, for_each}
use exasphere.Text.{codes, contains_any, contains, is_prefix, is_blank}
use exasphere.Json.{str, obj, JsonObject, end, field, get}
use exasphere.World.{parsed, World, path_of, found, decoded}
use exasphere.Checks.{load_object_as}
use exasphere.Ledger.{
  audit_match, is_secret, ignore_case, load_object, load_lines, load_jsonl, require_string,
  sha256_file, validate_snapshot, validate_record, validate_records, validate_ledger,
}
use exasphere.Ledger.Laws.{AcceptedLedger, validate_ledger-AcceptedLedger}

abbrev pub record_row : JsonObject
record_row = field "schema" (str "zig-scheduler/audit-ledger/v1") (
    field "audit_id" (str "AUD-20990101T000000Z-deadbee-abc123") (
      field "rollback_id" (str "RB-demo") (
        field "rollback_snapshot" (str "s") (
          field "transcript" (str "t") (
            field "rollback_snapshot_sha256" (str "ab")
              (field "transcript_sha256" (str "ab") end))))))

abbrev pub snapshot : JsonObject
snapshot = field "schema" (str "zig-scheduler/rollback-snapshot/v1") (
    field "audit_id" (str "AUD-20990101T000000Z-deadbee-abc123") (
      field "rollback_id" (str "RB-demo") (
        field "state_before" (str "disabled") (
          field "state_after" (str "disabled") (
            field "ops_before" (str "none") (
              field "ops_after" (str "none")
                (field "enable_seq_before" (str "1") (field "enable_seq_after" (str "2") end))))))))

abbrev one_record : World
one_record = record {
  read_text = λ p. found "S";
  read_replaced = λ p. found "S";
  read_lines = λ p. found ("R" ∷ []);
  sha256 = λ p. found "ab";
  is_file = λ p. true;
  exists = λ p. true;
  resolve = λ p. p;
  dumps = λ fs. "";
  loads = λ s. decoded (if str_eq s "R" then obj record_row else obj snapshot);
  loads_strict = λ s. parsed (decoded (if str_eq s "R" then obj record_row else obj snapshot));
  is_word = λ c. true;
}

ledger_runs : validate_ledger one_record (path_of "ledger.jsonl") ≡ ok tt
unfolding validate_ledger validate_records validate_record validate_snapshot sha256_file
    require_string load_jsonl load_lines load_object load_object_as audit_match is_secret
    ignore_case contains_any contains is_prefix codes is_blank get guard for_each path_of
ledger_runs = refl

validate_ledger-AcceptedLedger_example : AcceptedLedger one_record (path_of "ledger.jsonl")
validate_ledger-AcceptedLedger_example =
    validate_ledger-AcceptedLedger one_record (path_of "ledger.jsonl") ledger_runs
