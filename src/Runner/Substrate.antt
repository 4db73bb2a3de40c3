-- ===== src/Runner/Substrate.antt =====
-- qa/runner_substrate_proof_check.py: the substrate of a protected runner.
pub mod Tuple
pub mod Laws
use exasphere.Base.{
  ℕ, ◌+◌, Bool, true, false, ◌&&◌, ◌||◌, not, Option, none, some, List, [], ◌∷◌, ◌++◌, String,
  str_eq, leb, ◌==◌, if◌then◌else◌, Error, ErrorKind, protected_review_error, runner_proof_error,
  Result, ok, err, raise, guard, drop_value, for_each, ◌>>=◌, ◌>>◌, ◌<>◌, length, all, drop, take,
  ◌-◌,
}
use exasphere.Text.{codes, in_table, starts_with, contains, is_prefix}
use exasphere.Text.Digits.{show, digit}
use exasphere.Text.Regex.{Re, eps, seq, alt, char, literal, plus, one_of, is_digit, fullmatch}
use exasphere.Json.{
  JsonValue, null, bool, str, arr, obj, Items, nil, cons, JsonObject, get, is_true, is_false,
  is_text,
}
use exasphere.Json.Equality.{value_eq}
use exasphere.World.{World, FilePath, path_of, path_text}
use exasphere.Checks.{
  only_fields_as, text_as, bool_as, object_as, list_as, texts_as, digest_as, without, sorted,
  comma_join, is_empty,
}
use exasphere.Runner.Common.{load_json_object, sha_re, run_url_re, safe_path_as}
use exasphere.Runner.Review

pub data Outcome : Type 0 where
  pass skip refuse : Outcome

abbrev pub is_pass : Outcome → Bool
is_pass pass = true
is_pass _ = false

abbrev pub require : Bool → String → Result (Unit {0})
require = guard runner_proof_error

abbrev pub text : JsonValue → String → Result String
text = text_as runner_proof_error

abbrev pub only_fields : JsonObject → List String → String → Result (Unit {0})
only_fields = only_fields_as runner_proof_error " has unexpected fields: "

abbrev pub bool_field : JsonValue → String → Result Bool
bool_field value context = bool_as runner_proof_error value (context <> " must be bool")

abbrev pub safe_path : JsonValue → String → Result String
safe_path = safe_path_as runner_proof_error

abbrev pub object_field : JsonObject → String → String → Result JsonObject
object_field data_ name context =
    object_as runner_proof_error (get data_ name) (context <> "." <> name <> " must be an object")

unfoldable pub enum_text : JsonValue → List String → String → Result String
enum_text value allowed context = do
  raw ← text value context
  require (in_table raw allowed) (context <> " has unsupported value: " <> raw)
  ok raw

items_or : JsonValue → String → Result (List String)
items_or (arr (cons v vs)) context = texts_as runner_proof_error 0 (cons v vs) context
items_or _ context = raise runner_proof_error (context <> " must be a non-empty list")

unfoldable pub strings : JsonValue → String → Result (List String)
unfolding items_or
strings value context = items_or value context

unfoldable pub digest : World → FilePath → Result String
digest w path = digest_as runner_proof_error "missing referenced file: " w path

abbrev pub schema_id : String
schema_id = "zig-scheduler/runner-substrate-proof/v1"

abbrev pub required_labels : List String
required_labels = "self-hosted" ∷ "zig-scheduler-vm-proof" ∷ "disposable-vm" ∷ []

abbrev pub root_fields : List String
root_fields =
    "schema" ∷ "proof_outcome" ∷ "runner" ∷ "protected_environment" ∷ "protected_review" ∷ "qemu"
    ∷ "dev_kvm" ∷ "accel_mode" ∷ "kernel_tuple" ∷ "bpf_metadata" ∷ "attestation"
    ∷ "unavailable_reasons" ∷ "host_mutation" ∷ "release_eligible" ∷ "production_capacity_claim"
    ∷ []

abbrev runner_fields : List String
runner_fields = "class" ∷ "group" ∷ "labels" ∷ "name" ∷ "os" ∷ "arch" ∷ []

abbrev env_fields : List String
env_fields =
    "name" ∷ "protected" ∷ "required_reviewers" ∷ "reviewer_status" ∷ "reviewer_identity"
    ∷ "unavailable_reason" ∷ "run_url" ∷ []

abbrev status_path_fields : List String
status_path_fields = "path" ∷ "version" ∷ "status" ∷ "unavailable_reason" ∷ []

abbrev kernel_fields : List String
kernel_fields =
    "supported_tuple" ∷ "release" ∷ "arch" ∷ "config_sha256" ∷ "btf_available"
    ∷ "sched_ext_available" ∷ []

abbrev ref_fields : List String
ref_fields = "path" ∷ "sha256" ∷ "schema_role" ∷ "unavailable_reason" ∷ []

abbrev attest_fields : List String
attest_fields =
    "capability" ∷ "status" ∷ "workflow_uses" ∷ "verify_command" ∷ "unavailable_reason" ∷ []

unfoldable pub validate_schema_file : World → FilePath → Result (Unit {0})
validate_schema_file w path = do
  schema ← load_json_object w path
  require (is_text schema_id (get schema "$id")) "runner substrate schema $id mismatch"

unfoldable pub validate_runner : JsonObject → Outcome → Result (Unit {0})
validate_runner data_ outcome = do
  runner ← object_field data_ "runner" "proof"
  only_fields runner runner_fields "runner"
  class ← enum_text (get runner "class") ("self-hosted" ∷ "unknown" ∷ []) "runner.class"
  require (str_eq class "self-hosted") "runner.class must be self-hosted for protected proof"
  labels ← strings (get runner "labels") "runner.labels"
  let missing = sorted (without required_labels labels)
  require (is_empty missing) ("runner.labels missing protected labels: " <> comma_join missing)
  if is_pass outcome
      then (drop_value (text (get runner "group") "runner.group")
          >> drop_value (text (get runner "name") "runner.name"))
      else ok tt
  drop_value (text (get runner "os") "runner.os")
  drop_value (text (get runner "arch") "runner.arch")

-- The URL of the run, and what its absence excludes.
run_url_ok : String → String → Outcome → Result (Unit {0})
run_url_ok run_url status outcome =
    if str_eq run_url "unavailable"
    then (require (not (is_pass outcome)) "PASS proof requires a GitHub Actions run URL"
        >> require (not (str_eq status "approved"))
            "approved reviewer proof requires a GitHub Actions run URL")
    else require (run_url_re run_url)
        "protected_environment.run_url must be a GitHub Actions run URL or unavailable for SKIP/REFUSE"

reviewer_ok : JsonObject → String → Outcome → Result (Unit {0})
reviewer_ok env status outcome =
    if str_eq status "approved"
    then drop_value (text (get env "reviewer_identity") "protected_environment.reviewer_identity")
    else (drop_value
          (text (get env "unavailable_reason") "protected_environment.unavailable_reason")
        >> require (not (is_pass outcome))
            "PASS proof requires explicit protected environment reviewer approval")

unfoldable pub validate_environment : JsonObject → Outcome → Result (Unit {0})
unfolding run_url_ok reviewer_ok
validate_environment data_ outcome = do
  env ← object_field data_ "protected_environment" "proof"
  only_fields env env_fields "protected_environment"
  require (is_text "vm-proof-manual" (get env "name"))
      "protected_environment.name must be vm-proof-manual"
  require (is_true (get env "protected")) "protected_environment.protected must be true"
  drop_value (text (get env "required_reviewers") "protected_environment.required_reviewers")
  status ←
      enum_text (get env "reviewer_status")
        ("approved" ∷ "not_exposed_by_github_actions_runtime" ∷ "unavailable" ∷ [])
        "protected_environment.reviewer_status"
  run_url ← text (get env "run_url") "protected_environment.run_url"
  run_url_ok run_url status outcome
  reviewer_ok env status outcome

-- A referenced file: its path, and its digest where the reference and the file agree.
unfoldable pub validate_reference : World → JsonObject → String → Result FilePath
validate_reference w ref context = do
  raw ← safe_path (get ref "path") (context <> ".path")
  sha ← text (get ref "sha256") (context <> ".sha256")
  require (sha_re sha) (context <> ".sha256 must be sha256 hex")
  actual ← digest w (path_of raw)
  require (str_eq actual sha) (context <> ".sha256 does not match " <> path_text (path_of raw))
  ok (path_of raw)

-- `except ProtectedReviewError as exc: raise RunnerProofError(...)`
abbrev review_error : ErrorKind → String → Error
review_error protected_review_error message = record {
  kind = runner_proof_error;
  message = "protected_review artifact is not normalized proof: " <> message;
}
review_error k message = record { kind = k; message = message }

convert_review_error : Result (Unit {0}) → Result (Unit {0})
convert_review_error (ok tt) = ok tt
convert_review_error (err e) = err (review_error e.kind e.message)

abbrev protected_review_schema : FilePath
protected_review_schema = path_of "schemas/control/protected-environment-review.v1.schema.json"

unfoldable pub validate_protected_review : World → JsonObject → Outcome → Result (Unit {0})
unfolding convert_review_error
validate_protected_review w data_ outcome = do
  ref ← object_field data_ "protected_review" "proof"
  only_fields ref ref_fields "protected_review"
  path ← validate_reference w ref "protected_review"
  role ←
      enum_text (get ref "schema_role") ("protected-environment-review" ∷ [])
        "protected_review.schema_role"
  require (str_eq role "protected-environment-review")
      "protected_review.schema_role must be protected-environment-review"
  convert_review_error (Review.validate_proof w path protected_review_schema)
  review ← load_json_object w path
  env ← object_field data_ "protected_environment" "proof"
  if not (value_eq (get review "run_url") (get env "run_url"))
        || not (value_eq (get review "reviewer_identity") (get env "reviewer_identity"))
      then (drop_value (text (get ref "unavailable_reason") "protected_review.unavailable_reason")
          >> require (not (is_pass outcome))
              "PASS proof requires protected review artifact to match runner proof")
      else ok tt

unfoldable pub validate_status_path : JsonObject → String → Result String
validate_status_path data_ name = do
  value ← object_field data_ name "proof"
  only_fields value status_path_fields name
  drop_value (safe_path (get value "path") (name <> ".path"))
  status ← enum_text (get value "status") ("available" ∷ "unavailable" ∷ []) (name <> ".status")
  if str_eq status "available" && str_eq name "qemu"
      then drop_value (text (get value "version") "qemu.version")
      else ok tt
  if str_eq status "unavailable"
      then drop_value (text (get value "unavailable_reason") (name <> ".unavailable_reason"))
      else ok tt
  ok status

-- The group `release` of TUPLE_RE:
-- `6\.(1[2-9]|[2-9][0-9])([.]\d+)?|7\.1\.(1-2|2-3)-cachyos`; `\d` is any decimal digit.
abbrev is_decimal_digit : Option ℕ → Bool
is_decimal_digit none = false
is_decimal_digit (some d) = true

unfoldable pub release_pattern : Re
unfolding codes
release_pattern =
    alt
      (seq (literal (codes "6.")) (
        seq
          (alt (seq (literal (codes "1")) (one_of (λ c. leb b'2' c && leb c b'9')))
            (seq (one_of (λ c. leb b'2' c && leb c b'9')) (one_of is_digit)))
          (alt eps (seq (literal (codes ".")) (plus (one_of (λ c. is_decimal_digit (digit c))))))))
      (seq (literal (codes "7.1."))
        (seq (alt (literal (codes "1-2")) (literal (codes "2-3"))) (literal (codes "-cachyos"))))

abbrev pub tuple_prefix : String
tuple_prefix = "linux-"

abbrev pub tuple_suffix : String
tuple_suffix = "-x86_64-sched_ext-bpf-bpf_jit-btf-vm_lab_only"

-- TUPLE_RE under `fullmatch`: the release, between the fixed beginning and the fixed end.
unfoldable pub tuple_release : String → Option (List ℕ)
unfolding codes fullmatch release_pattern is_prefix
tuple_release s =
    let middle = drop (length (codes tuple_prefix)) (codes s) in
    let size = length middle - length (codes tuple_suffix) in
    if is_prefix (codes tuple_prefix) (codes s)
      && is_prefix (codes tuple_suffix) (drop size middle)
      && length (drop size middle) == length (codes tuple_suffix)
      && fullmatch release_pattern (take size middle)
    then some (take size middle)
    else none

abbrev pub placeholder_sha : String → Bool
placeholder_sha s =
    length (codes s) == 64 && (all (λ c. c == b'0') (codes s) || all (λ c. c == b'1') (codes s))

release_or : Option (List ℕ) → Result (List ℕ)
release_or none = raise runner_proof_error "kernel_tuple.supported_tuple is unsupported"
release_or (some release) = ok release

unfoldable pub validate_kernel : JsonObject → Outcome → List String → Result (Unit {0})
unfolding release_or
validate_kernel data_ outcome reasons = do
  kernel ← object_field data_ "kernel_tuple" "proof"
  only_fields kernel kernel_fields "kernel_tuple"
  supported ← text (get kernel "supported_tuple") "kernel_tuple.supported_tuple"
  expected_release ← release_or (tuple_release supported)
  release ← text (get kernel "release") "kernel_tuple.release"
  require (is_text "x86_64" (get kernel "arch")) "kernel_tuple.arch must be x86_64"
  config_sha ← text (get kernel "config_sha256") "kernel_tuple.config_sha256"
  require (sha_re config_sha) "kernel_tuple.config_sha256 must be sha256 hex"
  let config_unavailable = in_table "kernel config metadata unavailable or placeholder" reasons
  require (not (placeholder_sha config_sha) || (not (is_pass outcome) && config_unavailable))
      "kernel_tuple.config_sha256 placeholder metadata requires SKIP/REFUSE unavailable reason"
  btf_available ← bool_field (get kernel "btf_available") "kernel_tuple.btf_available"
  sched_ext_available ←
      bool_field (get kernel "sched_ext_available") "kernel_tuple.sched_ext_available"
  if is_pass outcome
      then (require (is_prefix expected_release (codes release))
            "PASS proof kernel release must match supported_tuple"
          >> (require btf_available "PASS proof requires kernel BTF availability"
              >> require sched_ext_available "PASS proof requires sched_ext availability"))
      else ok tt

unfoldable pub validate_bpf : World → JsonObject → Outcome → Result (Unit {0})
validate_bpf w data_ outcome = do
  bpf ← object_field data_ "bpf_metadata" "proof"
  only_fields bpf ref_fields "bpf_metadata"
  drop_value (validate_reference w bpf "bpf_metadata")
  role ←
      enum_text (get bpf "schema_role") ("bpf-metadata" ∷ "bpf-skip-json" ∷ [])
        "bpf_metadata.schema_role"
  if str_eq role "bpf-skip-json"
      then (drop_value (text (get bpf "unavailable_reason") "bpf_metadata.unavailable_reason")
          >> require (not (is_pass outcome)) "PASS proof requires BPF object metadata")
      else ok tt

unfoldable pub validate_attestation : JsonObject → Outcome → Result (Unit {0})
validate_attestation data_ outcome = do
  att ← object_field data_ "attestation" "proof"
  only_fields att attest_fields "attestation"
  capability ←
      enum_text (get att "capability") ("available" ∷ "unavailable" ∷ []) "attestation.capability"
  status ←
      enum_text (get att "status")
        ("pending-post-run-github-attestation" ∷ "verified-by-operator" ∷ "unavailable" ∷ [])
        "attestation.status"
  uses ← text (get att "workflow_uses") "attestation.workflow_uses"
  require (starts_with uses "actions/attest-build-provenance")
      "attestation.workflow_uses must use actions/attest-build-provenance"
  command ← text (get att "verify_command") "attestation.verify_command"
  require (contains (codes "gh attestation verify") (codes command))
      "attestation.verify_command must document gh attestation verify"
  if str_eq capability "unavailable" || str_eq status "unavailable"
      then (drop_value (text (get att "unavailable_reason") "attestation.unavailable_reason")
          >> require (not (is_pass outcome)) "attestation unavailable cannot accompany PASS proof")
      else ok tt

abbrev pub is_no_items : Items → Bool
is_no_items nil = true
is_no_items (cons v vs) = false

abbrev pub outcome_of : String → Outcome
outcome_of raw = if str_eq raw "PASS" then pass else if str_eq raw "SKIP" then skip else refuse

-- The body of `validate_proof` from the loaded data on.
unfoldable pub validate_data : World → JsonObject → String → Result (Unit {0})
validate_data w data_ context = do
  only_fields data_ root_fields context
  require (is_text schema_id (get data_ "schema")) "unsupported runner substrate schema"
  require (is_false (get data_ "host_mutation")) "proof.host_mutation must be false"
  require (is_false (get data_ "release_eligible")) "proof.release_eligible must be false"
  require (is_false (get data_ "production_capacity_claim"))
      "proof.production_capacity_claim must be false"
  raw ← enum_text (get data_ "proof_outcome") ("PASS" ∷ "SKIP" ∷ "REFUSE" ∷ []) "proof_outcome"
  let outcome = outcome_of raw
  validate_runner data_ outcome
  validate_environment data_ outcome
  validate_protected_review w data_ outcome
  qemu_status ← validate_status_path data_ "qemu"
  kvm_status ← validate_status_path data_ "dev_kvm"
  accel ← enum_text (get data_ "accel_mode") ("kvm" ∷ "tcg" ∷ "unavailable" ∷ []) "accel_mode"
  let both = str_eq qemu_status "available" && str_eq kvm_status "available"
  require (not (str_eq accel "kvm") || both) "accel_mode=kvm requires available qemu and /dev/kvm"
  require (not (is_pass outcome) || both) "PASS proof requires qemu and /dev/kvm availability"
  require (not (is_pass outcome) || str_eq accel "kvm") "PASS proof requires accel_mode=kvm"
  reasons_list ←
      list_as runner_proof_error (get data_ "unavailable_reasons")
        "unavailable_reasons must be a list"
  reasons ← (if is_pass outcome then ok [] else strings (arr reasons_list) "unavailable_reasons")
  require (not (is_pass outcome) || is_no_items reasons_list)
      "PASS proof must not carry unavailable reasons"
  require (is_pass outcome || not (is_empty reasons))
      "SKIP/REFUSE proof must explain unavailable reasons"
  validate_kernel data_ outcome reasons
  validate_bpf w data_ outcome
  validate_attestation data_ outcome

unfoldable pub validate_proof : World → FilePath → FilePath → Result (Unit {0})
validate_proof w path schema_path = do
  validate_schema_file w schema_path
  data_ ← load_json_object w path
  validate_data w data_ (path_text path)
