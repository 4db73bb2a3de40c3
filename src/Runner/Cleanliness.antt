-- ===== src/Runner/Cleanliness.antt =====
-- qa/runner_cleanliness_proof_check.py: the proof that a protected runner was clean.
use exasphere.Base.{
  Bool, true, false, ◌&&◌, ◌||◌, not, Option, some, List, [], ◌∷◌, String, str_eq, leb, ltb,
  if◌then◌else◌, runner_cleanliness_error, Result, ok, raise, guard, drop_value, ◌>>=◌, ◌>>◌, ◌<>◌,
}
use exasphere.Text.{in_table}
use exasphere.Json.{
  ℤ, pos, JsonValue, arr, obj, cons, JsonObject, get, as_int, is_null, is_true, is_false, is_text,
}
use exasphere.Json.Equality.{value_eq}
use exasphere.World.{World, FilePath, path_of, path_text}
use exasphere.Checks.{only_fields_as, text_as, object_as, texts_as, digest_as}
use exasphere.Runner.Common.{load_json_object, sha_re, run_url_re, safe_path_as}

abbrev pub require : Bool → String → Result (Unit {0})
require = guard runner_cleanliness_error

abbrev pub text : JsonValue → String → Result String
text = text_as runner_cleanliness_error

abbrev pub obj_field : JsonValue → String → Result JsonObject
obj_field value context = object_as runner_cleanliness_error value (context <> " must be an object")

abbrev pub only_fields : JsonObject → List String → String → Result (Unit {0})
only_fields = only_fields_as runner_cleanliness_error " has unexpected fields: "

abbrev pub safe_path : JsonValue → String → Result String
safe_path = safe_path_as runner_cleanliness_error

unfoldable pub sha_file : World → FilePath → Result String
sha_file w path = digest_as runner_cleanliness_error "missing referenced file: " w path

abbrev pub schema_id : String
schema_id = "zig-scheduler/runner-cleanliness-proof/v1"

abbrev pub root_fields : List String
root_fields =
    "schema" ∷ "proof_outcome" ∷ "run_url" ∷ "runner_identity" ∷ "cleanliness_mode"
    ∷ "no_reuse_evidence" ∷ "removal_receipt" ∷ "ephemeral_registration" ∷ "protected_review"
    ∷ "runner_substrate" ∷ "host_mutation" ∷ "release_eligible" ∷ "production_capacity_claim" ∷ []

abbrev identity_fields : List String
identity_fields = "name" ∷ "group" ∷ "labels" ∷ []

abbrev mode_fields : List String
mode_fields = "kind" ∷ "jit_config_sha256" ∷ "clean_machine_boot_id" ∷ "ephemeral_instance_id" ∷ []

abbrev no_reuse_fields : List String
no_reuse_fields = "status" ∷ "previous_runner_id" ∷ "current_runner_id" ∷ "evidence" ∷ []

abbrev removal_fields : List String
removal_fields = "status" ∷ "removed_at" ∷ "receipt_path" ∷ "sha256" ∷ []

abbrev ref_fields : List String
ref_fields = "path" ∷ "sha256" ∷ "schema_role" ∷ []

abbrev ephemeral_registration_fields : List String
ephemeral_registration_fields =
    "schema" ∷ "runner_id" ∷ "runner_name" ∷ "runner_labels" ∷ "ephemeral_instance_id"
    ∷ "ephemeral_runner_configured" ∷ "no_reuse_evidence" ∷ "run_url" ∷ "source_basename"
    ∷ "source_sha256" ∷ "source_size_bytes" ∷ "host_mutation" ∷ "release_eligible"
    ∷ "production_capacity_claim" ∷ []

abbrev schema_path : FilePath
schema_path = path_of "schemas/control/runner-cleanliness-proof.v1.schema.json"

unfoldable pub validate_schema_file : World → Result (Unit {0})
validate_schema_file w = do
  schema ← load_json_object w schema_path
  require (is_text schema_id (get schema "$id")) "runner cleanliness schema $id mismatch"

unfoldable pub validate_ref : World → JsonValue → String → String → Result FilePath
validate_ref w value role context = do
  ref ← obj_field value context
  only_fields ref ref_fields context
  raw ← safe_path (get ref "path") (context <> ".path")
  digest ← text (get ref "sha256") (context <> ".sha256")
  require (sha_re digest) (context <> ".sha256 must be sha256 hex")
  actual ← sha_file w (path_of raw)
  require (str_eq actual digest) (context <> ".sha256 does not match " <> path_text (path_of raw))
  require (is_text role (get ref "schema_role")) (context <> ".schema_role must be " <> role)
  ok (path_of raw)

-- What a kind of cleanliness shows for a PASS.
pass_mode : JsonObject → String → Result (Unit {0})
pass_mode mode kind =
    if str_eq kind "jit"
    then (text (get mode "jit_config_sha256") "cleanliness_mode.jit_config_sha256" >>= λ sha.
        require (sha_re sha) "JIT PASS requires config hash")
    else if str_eq kind "ephemeral"
    then drop_value
        (text (get mode "ephemeral_instance_id") "cleanliness_mode.ephemeral_instance_id")
    else if str_eq kind "clean_machine"
    then drop_value
        (text (get mode "clean_machine_boot_id") "cleanliness_mode.clean_machine_boot_id")
    else ok tt

unfoldable pub validate_mode : JsonValue → String → Result (Unit {0})
unfolding pass_mode
validate_mode value outcome = do
  mode ← obj_field value "cleanliness_mode"
  only_fields mode mode_fields "cleanliness_mode"
  kind ← text (get mode "kind") "cleanliness_mode.kind"
  require (in_table kind ("jit" ∷ "ephemeral" ∷ "clean_machine" ∷ []))
      "cleanliness_mode.kind unsupported"
  if str_eq outcome "PASS" then pass_mode mode kind else ok tt

labels_ok : JsonValue → Result (Unit {0})
labels_ok (arr (cons v vs)) =
    drop_value (texts_as runner_cleanliness_error 0 (cons v vs) "runner_identity.labels")
labels_ok _ = raise runner_cleanliness_error "runner_identity.labels must be a non-empty list"

unfoldable pub validate_identity : JsonValue → Result (Unit {0})
unfolding labels_ok
validate_identity value = do
  identity ← obj_field value "runner_identity"
  only_fields identity identity_fields "runner_identity"
  drop_value (text (get identity "name") "runner_identity.name")
  drop_value (text (get identity "group") "runner_identity.group")
  labels_ok (get identity "labels")

unfoldable pub pass_no_reuse : JsonObject → String → Result (Unit {0})
pass_no_reuse evidence status = do
  require (str_eq status "PASS") "PASS proof requires no-reuse evidence PASS"
  previous_id ← text (get evidence "previous_runner_id") "no_reuse_evidence.previous_runner_id"
  current_id ← text (get evidence "current_runner_id") "no_reuse_evidence.current_runner_id"
  require (not (str_eq previous_id current_id)) "PASS proof requires a non-reused runner identity"

unfoldable pub validate_no_reuse : JsonValue → String → Result (Unit {0})
validate_no_reuse value outcome = do
  evidence ← obj_field value "no_reuse_evidence"
  only_fields evidence no_reuse_fields "no_reuse_evidence"
  status ← text (get evidence "status") "no_reuse_evidence.status"
  require (in_table status ("PASS" ∷ "SKIP" ∷ "REFUSE" ∷ [])) "no_reuse_evidence.status unsupported"
  if str_eq outcome "PASS" then pass_no_reuse evidence status else ok tt
  drop_value (text (get evidence "evidence") "no_reuse_evidence.evidence")

-- The receipt of a runner that was removed.
unfoldable pub removed_receipt : World → JsonObject → Result (Unit {0})
removed_receipt w receipt = do
  drop_value (text (get receipt "removed_at") "removal_receipt.removed_at")
  raw ← safe_path (get receipt "receipt_path") "removal_receipt.receipt_path"
  digest ← text (get receipt "sha256") "removal_receipt.sha256"
  require (sha_re digest) "removal_receipt.sha256 must be sha256 hex"
  actual ← sha_file w (path_of raw)
  require (str_eq actual digest)
      ("removal_receipt.sha256 does not match " <> path_text (path_of raw))

unfoldable pub validate_removal : World → JsonValue → String → Bool → Result String
validate_removal w value outcome ephemeral_mode = do
  receipt ← obj_field value "removal_receipt"
  only_fields receipt removal_fields "removal_receipt"
  status ← text (get receipt "status") "removal_receipt.status"
  require (in_table status ("removed" ∷ "not_applicable" ∷ "unavailable" ∷ []))
      "removal_receipt.status unsupported"
  if str_eq outcome "PASS"
      then require (str_eq status "removed" || (ephemeral_mode && str_eq status "not_applicable"))
          "PASS proof requires runner removal receipt or validator-enforced ephemeral registration proof"
      else ok tt
  if str_eq status "removed" then removed_receipt w receipt else ok tt
  ok status

-- `isinstance(size, int) and 0 < size <= 8192`
abbrev pub is_receipt_size : Option ℤ → Bool
is_receipt_size (some (pos n)) = ltb 0 n && leb n 8192
is_receipt_size _ = false

abbrev is_list : JsonValue → Bool
is_list (arr vs) = true
is_list _ = false

unfoldable pub registration_receipt :
    World → JsonValue → JsonObject → JsonObject → Result (Unit {0})
registration_receipt w value data_ mode = do
  path ← validate_ref w value "ephemeral-runner-registration-receipt" "ephemeral_registration"
  receipt ← load_json_object w path
  only_fields receipt ephemeral_registration_fields "ephemeral_registration receipt"
  require (is_text "zig-scheduler/ephemeral-runner-registration-receipt/v1" (get receipt "schema"))
      "ephemeral_registration receipt schema mismatch"
  identity ← obj_field (get data_ "runner_identity") "runner_identity"
  no_reuse ← obj_field (get data_ "no_reuse_evidence") "no_reuse_evidence"
  require (value_eq (get receipt "runner_id") (get no_reuse "current_runner_id"))
      "ephemeral_registration runner_id must match current runner id"
  require (value_eq (get receipt "runner_name") (get identity "name"))
      "ephemeral_registration runner_name must match runner identity"
  require (value_eq (get receipt "ephemeral_instance_id") (get mode "ephemeral_instance_id"))
      "ephemeral_registration instance id must match cleanliness mode"
  require (is_true (get receipt "ephemeral_runner_configured"))
      "ephemeral_registration must prove ephemeral runner configuration"
  require (value_eq (get receipt "run_url") (get data_ "run_url"))
      "ephemeral_registration run_url must match proof run_url"
  require
      (is_list (get receipt "runner_labels")
        && value_eq (get receipt "runner_labels") (get identity "labels"))
      "ephemeral_registration labels must match runner identity"
  require (value_eq (get receipt "no_reuse_evidence") (get no_reuse "evidence"))
      "ephemeral_registration no-reuse evidence must match proof"
  basename ← text (get receipt "source_basename") "ephemeral_registration.source_basename"
  require (str_eq basename "zigsched-runner-registration-receipt.txt")
      "ephemeral_registration source basename unsupported"
  source_sha ← text (get receipt "source_sha256") "ephemeral_registration.source_sha256"
  require (sha_re source_sha) "ephemeral_registration.source_sha256 must be sha256 hex"
  require (is_receipt_size (as_int (get receipt "source_size_bytes")))
      "ephemeral_registration source size must be 1..8192 bytes"
  require (is_false (get receipt "host_mutation"))
      "ephemeral_registration host_mutation must be false"
  require (is_false (get receipt "release_eligible"))
      "ephemeral_registration release_eligible must be false"
  require (is_false (get receipt "production_capacity_claim"))
      "ephemeral_registration production_capacity_claim must be false"

unfoldable pub validate_ephemeral_registration :
    World → JsonValue → JsonObject → String → Result (Unit {0})
validate_ephemeral_registration w value data_ removal_status = do
  mode ← obj_field (get data_ "cleanliness_mode") "cleanliness_mode"
  if is_text "PASS" (get data_ "proof_outcome")
        && is_text "ephemeral" (get mode "kind")
        && str_eq removal_status "not_applicable"
      then registration_receipt w value data_ mode
      else require (is_null value)
          "ephemeral_registration is only allowed for PASS ephemeral cleanup without an in-job removal receipt"

-- The body of `validate_proof` from the loaded data on.
unfoldable pub validate_data : World → JsonObject → String → Result (Unit {0})
validate_data w data_ context = do
  only_fields data_ root_fields context
  require (is_text schema_id (get data_ "schema")) "unsupported runner cleanliness schema"
  outcome ← text (get data_ "proof_outcome") "proof_outcome"
  require (in_table outcome ("PASS" ∷ "SKIP" ∷ "REFUSE" ∷ [])) "proof_outcome unsupported"
  require (is_false (get data_ "host_mutation")) "host_mutation must be false"
  require (is_false (get data_ "release_eligible")) "release_eligible must be false"
  require (is_false (get data_ "production_capacity_claim"))
      "production_capacity_claim must be false"
  run_url ← text (get data_ "run_url") "run_url"
  require (not (str_eq outcome "PASS") || run_url_re run_url)
      "PASS proof requires GitHub Actions run URL"
  validate_identity (get data_ "runner_identity")
  mode ← obj_field (get data_ "cleanliness_mode") "cleanliness_mode"
  validate_mode (obj mode) outcome
  validate_no_reuse (get data_ "no_reuse_evidence") outcome
  removal_status ←
      validate_removal w (get data_ "removal_receipt") outcome
        (is_text "ephemeral" (get mode "kind"))
  validate_ephemeral_registration w (get data_ "ephemeral_registration") data_ removal_status
  drop_value (
      validate_ref w (get data_ "protected_review") "protected-environment-review"
        "protected_review")
  drop_value
      (validate_ref w (get data_ "runner_substrate") "runner-substrate-proof" "runner_substrate")

unfoldable pub validate_proof : World → FilePath → Result (Unit {0})
validate_proof w path = do
  validate_schema_file w
  data_ ← load_json_object w path
  validate_data w data_ (path_text path)
