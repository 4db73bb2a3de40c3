-- ===== src/Live/Partial.antt =====
-- qa/partial_attach_check.py: the evidence of a partial attach; and qa/evidence_safety_check.py.
pub mod Laws
use exasphere.Base.{
  Bool, true, false, ◌&&◌, ◌||◌, not, List, [], ◌∷◌, String, str_eq, if◌then◌else◌, Result, ok, err,
  raise, guard, ◌>>=◌, ◌>>◌, ◌<>◌, for_each, drop_value, os_error, json_decode_error,
  partial_attach_error, evidence_safety_error, value_error, recursion_error,
}
use exasphere.Text.{codes, in_table, contains, starts_with}
use exasphere.Json.{JsonValue, obj, JsonObject, get, is_true, is_text}
use exasphere.World.{
  World, FilePath, path_of, path_text, parts, is_absolute, Reading, found, missing, fault, Decoded,
  decoded, undecodable, too_long, too_deep,
}
use exasphere.Checks.{text_or, bool_as, object_as}

-- qa/evidence_safety_check.py, `reject_contradictions`
cleanup_contradictions : JsonValue → String → Result (Unit {0})
cleanup_contradictions (obj cleanup) context =
    for_each ("qemu_leftovers" ∷ "tmux_leftovers" ∷ []) (λ name.
      guard evidence_safety_error (not (is_true (get cleanup name)))
        (context <> ": cleanup." <> name <> " is true"))
cleanup_contradictions _ context = ok tt

unfoldable pub reject_contradictions : JsonObject → String → Result (Unit {0})
unfolding cleanup_contradictions
reject_contradictions data_ context = do
  for_each ("dirty_worktree" ∷ "stale_state" ∷ "misleading_success_output" ∷ []) (λ name.
      guard evidence_safety_error (not (is_true (get data_ name)))
        (context <> ": " <> name <> " is true"))
  cleanup_contradictions (get data_ "cleanup") context

abbrev pub schema : String
schema = "zig-scheduler/partial-attach-evidence/v1"

abbrev pub refusal_schema : String
refusal_schema = "zig-scheduler/partial-attach-refusal/v1"

abbrev pub target_prefix : String
target_prefix = "/sys/fs/cgroup/zig-scheduler-lab.slice/"

abbrev pub fail {ℓ} : {A : Type ℓ} → String → Result A
fail = raise partial_attach_error

abbrev pub ensure : Bool → String → Result (Unit {0})
ensure = guard partial_attach_error

-- No exception of the read or of the decoder is caught.
decoded_object : FilePath → Decoded → Result JsonObject
decoded_object path (undecodable exc) = raise json_decode_error exc
decoded_object path (too_long exc) = raise value_error exc
decoded_object path (too_deep exc) = raise recursion_error exc
decoded_object path (decoded raw) =
    object_as partial_attach_error raw (path_text path <> " must contain a JSON object")

unfoldable pub load_object : World → FilePath → Result JsonObject
unfolding decoded_object
load_object w path = elim (w.read_text path) [
  | missing ↦ raise os_error (path_text path)
  | fault exc ↦ raise os_error exc
  | found content ↦ decoded_object path (w.loads content)
]

unfoldable pub require_text : JsonObject → String → Result String
require_text data_ name =
    text_or partial_attach_error (get data_ name)
      ("partial attach evidence missing text field: " <> name)

unfoldable pub require_bool : JsonObject → String → Result Bool
require_bool data_ name =
    bool_as partial_attach_error (get data_ name)
      ("partial attach evidence missing bool field: " <> name)

-- The transcript's content; a file that vanished is not caught.
transcript_text : World → FilePath → Result String
transcript_text w path = elim (w.read_text path) [
  | missing ↦ raise os_error (path_text path)
  | fault exc ↦ raise os_error exc
  | found content ↦ ok content
]

unfoldable pub validate_transcript : World → FilePath → Result (Unit {0})
unfolding transcript_text
validate_transcript w transcript = do
  ensure
      (not (is_absolute transcript)
        && not (in_table ".." (parts transcript))
        && w.exists transcript)
      "partial attach transcript path is missing or unsafe"
  content ← transcript_text w transcript
  for_each ("bpftool struct_ops register" ∷ "ops=zigsched_minimal" ∷ "rollback_status=PASS" ∷ [])
      (λ needle.
        ensure (contains (codes needle) (codes content))
          ("partial attach transcript missing " <> needle))

-- The 64 zeros that stand for no hash.
abbrev pub zero_hash : String
zero_hash = "0000000000000000000000000000000000000000000000000000000000000000"

-- `validate_evidence` behind the load, in three parts. What the evidence claims of itself:
unfoldable pub validate_claims : JsonObject → Result (Unit {0})
validate_claims evidence = do
  found_schema ← require_text evidence "schema"
  ensure (str_eq found_schema schema) (
      if is_text refusal_schema (get evidence "schema")
      then "host refusal is not partial attach evidence"
      else "unsupported partial attach evidence schema")
  reject_contradictions evidence "partial attach evidence"
  host_mutation ← require_bool evidence "host_mutation"
  ensure (not host_mutation) "partial attach evidence host_mutation must be false"
  release ← require_bool evidence "release_eligible_live_proof"
  ensure (not release) "fixture partial attach evidence must not be release eligible"

-- the attachment:
unfoldable pub validate_attach : JsonObject → Result (Unit {0})
validate_attach evidence = do
  ops ← require_text evidence "ops_during_attach"
  ensure (str_eq ops "zigsched_minimal") "partial attach evidence missing zigsched_minimal ops"
  mode ← require_text evidence "switch_mode"
  ensure (str_eq mode "SCX_OPS_SWITCH_PARTIAL") "partial attach evidence is not partial-switch mode"
  command ← require_text evidence "attach_command"
  ensure (str_eq command "bpftool struct_ops register")
      "partial attach evidence missing bpftool struct_ops register"
  target ← require_text evidence "target_cgroup"
  ensure (starts_with target target_prefix && not (str_eq target target_prefix))
      "partial attach target is outside allowlisted lab cgroup"

-- and the rollback with its artifacts. The source's test that the rollback id is not empty follows the
-- read that refuses an empty text.
unfoldable pub validate_rollback : World → JsonObject → Result (Unit {0})
validate_rollback w evidence = do
  drop_value (require_text evidence "rollback_id")
  rollback_status ← require_text evidence "rollback_status"
  ensure (str_eq rollback_status "PASS") "partial attach rollback did not pass"
  post_state ← require_text evidence "post_state"
  ensure (in_table post_state ("disabled" ∷ "previous" ∷ []))
      ("partial attach post state is unsafe: " <> post_state)
  object_sha ← require_text evidence "object_sha256"
  ensure (not (str_eq object_sha zero_hash)) "partial attach evidence missing real object hash"
  transcript ← require_text evidence "transcript_path"
  validate_transcript w (path_of transcript)

unfoldable pub validate_loaded : World → JsonObject → Result (Unit {0})
validate_loaded w evidence = do
  validate_claims evidence
  validate_attach evidence
  validate_rollback w evidence

unfoldable pub validate_evidence : World → FilePath → Result (Unit {0})
validate_evidence w path = do evidence ← load_object w path; validate_loaded w evidence
