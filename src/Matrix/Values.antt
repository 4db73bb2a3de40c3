-- ===== src/Matrix/Values.antt =====
-- qa/matrix_run_json.py: JSON reads, privacy, paths and scheduler states of the matrix-run checker.
use exasphere.Base.{
  ℕ, ◌+◌, Bool, ◌&&◌, ◌||◌, not, Option, none, some, List, [], ◌∷◌, String, str_eq, if◌then◌else◌,
  Result, ok, raise, guard, ◌>>=◌, ◌>>◌, ◌<>◌, length, take, os_error, matrix_run_contract_error,
  value_error, recursion_error,
}
use exasphere.Text.{codes, in_table, contains_any, lower}
use exasphere.Text.Digits.{show, int_or_none}
use exasphere.Json.{
  JsonValue, str, arr, obj, Items, nil, cons, JsonObject, end, field, get, has_key,
}
use exasphere.World.{
  same_names, World, FilePath, path_of, path_text, parts, is_absolute, found, missing, fault,
  Decoded, decoded, undecodable, too_long, too_deep, Strict, constant, parsed,
}
use exasphere.Checks.{
  only_fields_as, text_as, bool_as, object_as, list_as, texts_as, has_keys, digest_as,
}
use exasphere.Matrix.Model.{
  private_needles, workload_private_needles, private_path_re, claim_text_re, sched_states,
  sched_disable_reasons, sched_state_fields, matrix_base, manifest_file, run_id_re, sha256_re,
}

abbrev pub require : Bool → String → Result (Unit {0})
require = guard matrix_run_contract_error

abbrev pub object : JsonValue → String → Result JsonObject
object value context = object_as matrix_run_contract_error value (context <> " must be an object")

abbrev pub text : JsonValue → String → Result String
text = text_as matrix_run_contract_error

abbrev pub bool_field : JsonValue → String → Result Bool
bool_field value context = bool_as matrix_run_contract_error value (context <> " must be a boolean")

decoded_object : FilePath → Decoded → Result JsonObject
decoded_object path (undecodable exc) =
    raise matrix_run_contract_error ("invalid JSON in " <> path_text path <> " at byte " <> exc)
decoded_object path (decoded raw) = object raw (path_text path)
decoded_object path (too_long exc) = raise value_error exc
decoded_object path (too_deep exc) = raise recursion_error exc

strict_object : FilePath → Strict → Result JsonObject
unfolding decoded_object
strict_object path (constant value) =
    raise matrix_run_contract_error ("invalid JSON constant: " <> value)
strict_object path (parsed raw) = decoded_object path raw

unfoldable pub load_json : World → FilePath → Result JsonObject
unfolding decoded_object strict_object
load_json w path = elim (w.read_text path) [
  | missing ↦ raise matrix_run_contract_error ("missing JSON file: " <> path_text path)
  | fault exc ↦ raise os_error exc
  | found content ↦ strict_object path (w.loads_strict content)
]

abbrev pub require_only_fields : JsonObject → List String → String → Result (Unit {0})
require_only_fields = only_fields_as matrix_run_contract_error " has unexpected field(s): "

-- `any(needle in value.lower() for needle in needles)`
unfoldable pub has_needle : List String → String → Bool
unfolding codes lower contains_any
has_needle needles value = contains_any needles (lower (codes value))

-- The text case of `reject_private`.
unfoldable pub private_text : World → String → String → Result (Unit {0})
private_text w value context = do
  require (not (has_needle private_needles value)) ("privacy-unsafe text in " <> context)
  require (not (private_path_re value)) ("privacy-unsafe path in " <> context)
  require (not (claim_text_re w value)) ("claim-unsafe text in " <> context)

unfoldable mutual
  pub reject_private : World → JsonValue → String → Result (Unit {0})
  reject_private w (obj fs) context = private_fields w fs context
  reject_private w (arr vs) context = private_items w 0 vs context
  reject_private w (str value) context = private_text w value context
  reject_private w _ context = ok tt

  pub private_fields : World → JsonObject → String → Result (Unit {0})
  private_fields w end context = ok tt
  private_fields w (field key v fs) context = do
    require (not (has_needle private_needles key))
        ("privacy-unsafe key in " <> context <> "." <> key)
    reject_private w v (context <> "." <> key)
    private_fields w fs context

  pub private_items : World → ℕ → Items → String → Result (Unit {0})
  private_items w index nil context = ok tt
  private_items w index (cons v vs) context = do
    reject_private w v (context <> "[" <> show index <> "]")
    private_items w (index + 1) vs context

-- The text case of `reject_workload_artifact_private`.
workload_text : World → String → String → Result (Unit {0})
workload_text w value context = do
  require (not (has_needle workload_private_needles value))
      ("privacy-unsafe workload text in " <> context)
  require (not (claim_text_re w value)) ("claim-unsafe workload text in " <> context)
  require (not (private_path_re value)) ("privacy-unsafe workload path in " <> context)

unfoldable mutual
  unfolding workload_text

  pub reject_workload_artifact_private : World → JsonValue → String → Result (Unit {0})
  reject_workload_artifact_private w (obj fs) context = workload_private_fields w fs context
  reject_workload_artifact_private w (arr vs) context = workload_private_items w 0 vs context
  reject_workload_artifact_private w (str value) context = workload_text w value context
  reject_workload_artifact_private w _ context = ok tt

  workload_private_fields : World → JsonObject → String → Result (Unit {0})
  workload_private_fields w end context = ok tt
  workload_private_fields w (field key v fs) context = do
    require (not (has_needle workload_private_needles key))
        ("privacy-unsafe workload key in " <> context <> "." <> key)
    reject_workload_artifact_private w v (context <> "." <> key)
    workload_private_fields w fs context

  workload_private_items : World → ℕ → Items → String → Result (Unit {0})
  workload_private_items w index nil context = ok tt
  workload_private_items w index (cons v vs) context = do
    reject_workload_artifact_private w v (context <> "[" <> show index <> "]")
    workload_private_items w (index + 1) vs context

-- A text that `isdecimal` refuses is an error here.
decimal_or : Option ℕ → String → Result (Option ℕ)
decimal_or none context =
    raise matrix_run_contract_error
      (context <> " must be a nonnegative integer string or unavailable")
decimal_or (some n) context = ok (some n)

enable_seq_text : String → String → Result (Option ℕ)
unfolding codes int_or_none decimal_or
enable_seq_text raw context =
    if str_eq raw "unavailable"
    then ok none
    else int_or_none (codes raw) >>= λ number. decimal_or number context

unfoldable pub require_sched_enable_seq : JsonValue → String → Result (Option ℕ)
unfolding enable_seq_text
require_sched_enable_seq value context = do raw ← text value context; enable_seq_text raw context

-- `state.get("enable_seq", "unavailable")`
abbrev pub enable_seq_of : JsonObject → JsonValue
enable_seq_of state =
    if has_key state "enable_seq" then get state "enable_seq" else str "unavailable"

-- `if name in state: require(text(state.get(name), ...) in table, ...)`
optional_among : JsonObject → String → List String → String → Result (Unit {0})
optional_among state name table context =
    if has_key state name
    then (text (get state name) (context <> "." <> name) >>= λ value.
        require (in_table value table) (context <> "." <> name <> " invalid"))
    else ok tt

unfoldable pub validate_scheduler_state : World → JsonObject → String → Result (Option ℕ)
unfolding optional_among
validate_scheduler_state w state context = do
  require_only_fields state sched_state_fields context
  require (has_keys state ("sched_ext" ∷ "ops" ∷ [])) (context <> " missing sched_ext/ops state")
  sched_ext ← text (get state "sched_ext") (context <> ".sched_ext")
  require (in_table sched_ext sched_states) (context <> ".sched_ext invalid")
  ops ← text (get state "ops") (context <> ".ops")
  reject_private w (str ops) (context <> ".ops")
  enable_seq ← require_sched_enable_seq (enable_seq_of state) (context <> ".enable_seq")
  optional_among state "task_ext_enabled" ("true" ∷ "false" ∷ "unknown" ∷ "unavailable" ∷ [])
      context
  optional_among state "disable_reason" sched_disable_reasons context
  reject_private w (obj state) context
  ok enable_seq

-- `not path.is_absolute() and ".." not in path.parts`
abbrev pub stays_inside : FilePath → Bool
stays_inside path = not (is_absolute path) && not (in_table ".." (parts path))

unfoldable pub require_safe_path : JsonValue → String → Result String
require_safe_path value context = do
  raw ← text value context
  require (stays_inside (path_of raw)) (context <> " must be relative and non-traversing: " <> raw)
  ok raw

run_id_part : List String → Option String
run_id_part (a ∷ b ∷ c ∷ run_id ∷ name ∷ []) =
    if same_names (a ∷ b ∷ c ∷ []) (parts matrix_base) && str_eq name manifest_file
    then some run_id
    else none
run_id_part _ = none

-- `Path(*parts[:4])` of a path that has no root.
unfoldable pub require_manifest_root : FilePath → Result FilePath
unfolding run_id_part
require_manifest_root manifest_path = do
  require (stays_inside manifest_path) "--manifest must be relative and non-traversing"
  elim (run_id_part (parts manifest_path)) [
    | none ↦ raise matrix_run_contract_error (
        "--manifest must be evidence/lab/matrix/<run-id>/manifest.json: "
        <> path_text manifest_path)
    | some run_id ↦
        require (run_id_re run_id) ("--manifest run id must be 1-64 safe characters: " <> run_id)
        >> ok (record { root = ""; names = take 4 (parts manifest_path) })
  ]

-- `path == root or path.parts[:len(root.parts)] == root.parts`
unfoldable pub is_descendant : FilePath → FilePath → Bool
is_descendant path root =
    same_names (parts path) (parts root)
    || same_names (take (length (parts root)) (parts path)) (parts root)

unfoldable pub require_descendant : FilePath → FilePath → String → Result (Unit {0})
require_descendant path root context =
    require (is_descendant path root)
      (context <> " must stay under " <> path_text root <> ": " <> path_text path)

unfoldable pub require_identifier :
    JsonObject → String → (String → Bool) → String → Result (Unit {0})
require_identifier row name pattern context = do
  raw ← text (get row name) (context <> "." <> name)
  require (pattern raw) (context <> "." <> name <> " is not a stable identifier")

unfoldable pub require_sha : JsonObject → String → String → Result (Unit {0})
require_sha row name context = do
  raw ← text (get row name) (context <> "." <> name)
  require (sha256_re raw) (context <> "." <> name <> " must be sha256 hex")

unfoldable pub file_sha256 : World → FilePath → Result String
file_sha256 w path = digest_as matrix_run_contract_error "missing referenced artifact: " w path

unfoldable pub text_list : JsonValue → String → Result (List String)
text_list value context = do
  rows ← list_as matrix_run_contract_error value (context <> " must be a list")
  texts_as matrix_run_contract_error 0 rows context
