-- ===== src/Tests/Daemons.antt =====
-- A stream of the nine events of the lifecycle, and an event that leaks a command line.
use exasphere.Text.Digits
use exasphere.Checks
use exasphere.Daemon
use exasphere.World
use exasphere.Text.Regex.{deriv, either, fullmatch, join, nullable}
use exasphere.Base.{
  ℕ, suc, ◌≡◌, refl, ◌↔◌, true, false, List, [], ◌∷◌, String, str_eq, if◌then◌else◌, ok, guard,
  for_each, Error, contract_error,
}
use exasphere.Text.{codes, contains_any, contains, is_prefix, is_blank}
use exasphere.Json.{pos, JsonValue, bool, int, str, obj, JsonObject, end, field, get, lookup}
use exasphere.World.{parsed, World, path_of, found, missing, decoded}
use exasphere.Checks.{int_or, text_or, bool_as, object_as, read_rows, sorted, without}
use exasphere.Daemon.{
  EventRow, schema, required_lifecycle, parse_json_value, parse_object, require_int, require_string,
  require_bool, event_row, load_rows, validate_identifier, has_needle, contains_private_field,
  validate_row, validate_rows, lifecycle_complete, validate, convert_pack_error, audit_id_re,
  identifier,
}
use exasphere.Daemon.Privacy.{Exposed, contains_private_field_iff}
use exasphere.Daemon.Laws.{AcceptedStream, validate_iff}

abbrev place_of : String → List String → ℕ
place_of name [] = 1
place_of name (s ∷ ss) = if str_eq name s then 1 else suc (place_of name ss)

abbrev event : String → JsonObject
event name = field "schema" (str schema) (
    field "seq" (int (pos (place_of name required_lifecycle))) (
      field "event" (str name)
        (field "host_mutation" (bool false) (field "run_id" (str "run-1") end))))

abbrev nine_events : World
nine_events = record {
  read_text = λ p. missing;
  read_replaced = λ p. missing;
  read_lines = λ p. found required_lifecycle;
  sha256 = λ p. missing;
  is_file = λ p. true;
  exists = λ p. true;
  resolve = λ p. p;
  dumps = λ fs. "";
  loads = λ s. decoded (obj (event s));
  loads_strict = λ s. parsed (decoded (obj (event s)));
  is_word = λ c. true;
}

stream_runs : validate nine_events (path_of "events.jsonl") true ≡ ok tt
unfolding validate load_rows read_rows is_blank event_row parse_object parse_json_value guard
    object_as require_int int_or get require_string text_or require_bool bool_as for_each sorted
    without audit_id_re contains_private_field convert_pack_error has_needle identifier
    lifecycle_complete validate_identifier validate_row validate_rows lookup deriv either fullmatch
    join nullable codes contains contains_any is_prefix
stream_runs = refl

validate_iff_example : AcceptedStream nine_events (path_of "events.jsonl") true
validate_iff_example = (validate_iff nine_events (path_of "events.jsonl") true).0 stream_runs

abbrev leaking_event : JsonValue
leaking_event = obj (field "payload" (obj (field "argv" (str "x") end)) end)

contains_private_field_iff_example :
    (contains_private_field leaking_event ≡ true) ↔ Exposed leaking_event
contains_private_field_iff_example = contains_private_field_iff leaking_event

-- A stream whose events are numbered from two.
abbrev late_event : JsonObject
late_event = field "schema" (str schema) (
    field "seq" (int (pos 2)) (field "event" (str "boot") (field "host_mutation" (bool false) end)))

abbrev gap : World
gap = record nine_events {
  read_lines = λ p. found ("boot" ∷ []);
  loads = λ s. decoded (obj late_event);
  loads_strict = λ s. parsed (decoded (obj late_event));
}

abbrev refusal : Error
refusal = record {
  kind = contract_error;
  message = "event sequence is not incremental: expected 1, got 2";
}

abbrev boot_row : EventRow
boot_row = record { seq_number = pos 1; event = "boot"; host_mutation = false; raw = event "boot" }
