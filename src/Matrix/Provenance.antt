-- ===== src/Matrix/Provenance.antt =====
-- qa/matrix_benchmark_provenance.py: the benchmark records that a workload refers to.
pub mod Laws
use exasphere.Base.{
  ℕ, suc, ◌+◌, Bool, true, false, ◌&&◌, ◌||◌, not, Option, none, some, List, [], ◌∷◌, String,
  str_eq, ◌==◌, if◌then◌else◌, length, all, take, Error, ErrorKind, Result, ok, err, raise, guard,
  ◌>>=◌, ◌>>◌, ◌<>◌, drop_value, os_error, benchmark_output_error, benchmark_provenance_error,
  value_error, recursion_error,
}
use exasphere.Text.{codes, in_table, is_hex}
use exasphere.Text.Digits.{show}
use exasphere.Json.{JsonValue, null, str, arr, obj, Items, nil, cons, JsonObject, get, is_true}
use exasphere.World.{
  World, FilePath, path_of, path_text, parts, is_absolute, same_names, Reading, found, missing,
  fault, Decoded, decoded, undecodable, too_long, too_deep, Strict, constant, parsed,
}
use exasphere.Checks.{only_fields_as, text_as, object_as, digest_as}
use exasphere.Benchmark.Privacy.{reject_private_leaks}
use exasphere.Benchmark.Records.{validate_record}

abbrev pub fail {ℓ} : {A : Type ℓ} → String → Result A
fail = raise benchmark_provenance_error

abbrev pub require : Bool → String → Result (Unit {0})
require = guard benchmark_provenance_error

abbrev pub benchmark_provenance_fields : List String
benchmark_provenance_fields = "record_path" ∷ "record_sha256" ∷ "record_only" ∷ []

abbrev pub object : JsonValue → String → Result JsonObject
object value context = object_as benchmark_provenance_error value (context <> " must be an object")

abbrev pub text : JsonValue → String → Result String
text = text_as benchmark_provenance_error

abbrev pub require_only_fields : JsonObject → List String → String → Result (Unit {0})
require_only_fields = only_fields_as benchmark_provenance_error " has unexpected fields: "

decoded_object : FilePath → Decoded → Result JsonObject
decoded_object path (undecodable exc) =
    fail ("invalid JSON in " <> path_text path <> " at byte " <> exc)
decoded_object path (decoded raw) = object raw (path_text path)
decoded_object path (too_long exc) = raise value_error exc
decoded_object path (too_deep exc) = raise recursion_error exc

strict_object : FilePath → Strict → Result JsonObject
unfolding decoded_object
strict_object path (constant value) = fail ("invalid JSON constant: " <> value)
strict_object path (parsed raw) = decoded_object path raw

unfoldable pub load_json : World → FilePath → Result JsonObject
unfolding decoded_object strict_object
load_json w path = elim (w.read_text path) [
  | missing ↦ fail ("missing JSON file: " <> path_text path)
  | fault exc ↦ raise os_error exc
  | found content ↦ strict_object path (w.loads_strict content)
]

unfoldable pub require_safe_path : JsonValue → String → Result String
require_safe_path value context = do
  raw ← text value context
  require (not (is_absolute (path_of raw))) (context <> " must be relative")
  require (not (in_table ".." (parts (path_of raw)))) (context <> " must not traverse")
  ok raw

-- `path.resolve().relative_to(root.resolve())` raises no `ValueError`.
unfoldable pub is_descendant : World → FilePath → FilePath → Bool
is_descendant w path root =
    let below = parts (w.resolve root) in
    same_names (take (length below) (parts (w.resolve path))) below

unfoldable pub require_descendant : World → FilePath → FilePath → String → Result (Unit {0})
require_descendant w path root context =
    require (is_descendant w path root)
      (context <> " must stay under matrix run root: " <> path_text root)

unfoldable pub file_sha256 : World → FilePath → Result String
file_sha256 w path = digest_as benchmark_provenance_error "missing referenced artifact: " w path

unfoldable pub require_sha256 : String → String → Result (Unit {0})
unfolding codes
require_sha256 value context =
    require (length (codes value) == 64 && all is_hex (codes value))
      (context <> " must be sha256 hex")

-- `except BenchmarkOutputError as exc: raise MatrixBenchmarkProvenanceError(...)`
abbrev output_error : String → ErrorKind → String → Error
output_error words benchmark_output_error message = record {
  kind = benchmark_provenance_error;
  message = words <> message;
}
output_error words k message = record { kind = k; message = message }

unfoldable pub convert_output_error : String → Result (Unit {0}) → Result (Unit {0})
convert_output_error words (ok tt) = ok tt
convert_output_error words (err e) = err (output_error words e.kind e.message)

-- The parsed output, where it is JSON.
parsed_privacy : World → String → Strict → Result (Unit {0})
parsed_privacy w context (constant value) = fail ("invalid JSON constant: " <> value)
parsed_privacy w context (parsed (undecodable exc)) = ok tt
parsed_privacy w context (parsed (too_long exc)) = raise value_error exc
parsed_privacy w context (parsed (too_deep exc)) = raise recursion_error exc
parsed_privacy w context (parsed (decoded raw)) = reject_private_leaks w raw context

raw_output : World → FilePath → Result String
raw_output w path = elim (w.read_text path) [
  | missing ↦ fail ("missing referenced artifact: " <> path_text path)
  | fault exc ↦ raise os_error exc
  | found content ↦ ok content
]

unfoldable pub validate_raw_output_privacy : World → FilePath → String → Result (Unit {0})
unfolding convert_output_error parsed_privacy raw_output
validate_raw_output_privacy w path context = do
  raw_text ← raw_output w path
  convert_output_error (context <> " privacy/claim unsafe raw benchmark output: ") (
      reject_private_leaks w (str raw_text) context
      >> parsed_privacy w context (w.loads_strict raw_text))

unfoldable pub validate_record_references :
    World → JsonObject → FilePath → String → Result (Unit {0})
validate_record_references w record_ manifest_root context = do
  raw_output_path ← require_safe_path (get record_ "output_path") (context <> ".output_path")
  require_descendant w (path_of raw_output_path) manifest_root (context <> ".output_path")
  actual ← file_sha256 w (path_of raw_output_path)
  output_sha ← text (get record_ "output_sha256") (context <> ".output_sha256")
  require (str_eq actual output_sha)
      (context <> ".output_sha256 does not match referenced raw benchmark output")
  validate_raw_output_privacy w (path_of raw_output_path) (context <> ".output_path")
  vm_evidence ← require_safe_path (get record_ "vm_evidence") (context <> ".vm_evidence")
  require_descendant w (path_of vm_evidence) manifest_root (context <> ".vm_evidence")

-- What `if manifest_root is not None:` asks of a path, and of a record.
unfoldable pub under_root : World → Option FilePath → FilePath → String → Result (Unit {0})
under_root w none path context = ok tt
under_root w (some root) path context = require_descendant w path root context

unfoldable pub references_under : World → Option FilePath → JsonObject → String → Result (Unit {0})
references_under w none record_ context = ok tt
references_under w (some root) record_ context = validate_record_references w record_ root context

-- One round of the loop: the keys seen, this record's included.
unfoldable pub validate_entry :
    World → Option FilePath → String → ℕ → JsonValue → List String → Result (List String)
unfolding under_root references_under convert_output_error
validate_entry w manifest_root outer index item seen = do
  let context = outer <> "[" <> show index <> "]"
  entry ← object item context
  require_only_fields entry benchmark_provenance_fields context
  require (is_true (get entry "record_only")) (context <> ".record_only must be true")
  raw ← require_safe_path (get entry "record_path") (context <> ".record_path")
  let record_path = path_of raw
  require (not (in_table (path_text record_path) seen))
      (context <> ".record_path duplicates an earlier benchmark record")
  under_root w manifest_root record_path (context <> ".record_path")
  record_sha ← text (get entry "record_sha256") (context <> ".record_sha256")
  require_sha256 record_sha (context <> ".record_sha256")
  actual ← file_sha256 w record_path
  require (str_eq actual record_sha)
      (context <> ".record_sha256 does not match referenced benchmark record")
  record_ ← load_json w record_path
  convert_output_error (context <> ".record_path invalid benchmark provenance: ")
      (validate_record w record_)
  references_under w manifest_root record_ (context <> ".record")
  ok (path_text record_path ∷ seen)

unfoldable pub validate_items :
    World → Option FilePath → String → ℕ → Items → List String → Result (Unit {0})
validate_items w manifest_root context index nil seen = ok tt
validate_items w manifest_root context index (cons item rest) seen = do
  seen' ← validate_entry w manifest_root context index item seen
  validate_items w manifest_root context (suc index) rest seen'

unfoldable pub validate_entries : World → JsonValue → Option FilePath → String → Result (Unit {0})
validate_entries w null manifest_root context = ok tt
validate_entries w (arr nil) manifest_root context =
    fail (context <> " must not be empty when present")
validate_entries w (arr (cons item rest)) manifest_root context =
    validate_items w manifest_root context 0 (cons item rest) []
validate_entries w _ manifest_root context = fail (context <> " must be a list")
