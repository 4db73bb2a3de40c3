-- ===== src/Live/Partial/Laws.antt =====
-- What accepted evidence of a partial attach promises.
use exasphere.Base.{
  ◌≡◌, ap, ◌∙◌, Bool, true, false, ◌&&◌, not, [], ◌∷◌, String, str_eq, eq_iff, ok, guard-eq-ok,
  >>-eq-ok, >>=-eq-ok, drop_value, partial_attach_error, arith,
}
use exasphere.Text.{in_table, starts_with}
use exasphere.Json.{str, bool, JsonObject, get}
use exasphere.World.{World, FilePath, path_of}
use exasphere.Checks.Laws.{text_or-eq-ok, bool_as-eq-ok, refuted_by}
use exasphere.Live.Partial.{
  schema, target_prefix, zero_hash, ensure, load_object, require_text, require_bool,
  reject_contradictions, validate_transcript, validate_claims, validate_attach, validate_rollback,
  validate_loaded, validate_evidence,
}

same : (s t m : String) → ensure (str_eq s t) m ≡ ok tt → s ≡ t
same s t m h = (eq_iff s t).0 (guard-eq-ok partial_attach_error (str_eq s t) m h)

require_text-eq-ok :
    (data_ : JsonObject) (name : String) {s : String}
    → require_text data_ name ≡ ok s
    → get data_ name ≡ str s
unfolding require_text
require_text-eq-ok data_ name h = text_or-eq-ok partial_attach_error (get data_ name) _ h

require_bool-eq-ok :
    (data_ : JsonObject) (name : String) {b : Bool}
    → require_bool data_ name ≡ ok b
    → get data_ name ≡ bool b
unfolding require_bool
require_bool-eq-ok data_ name h = bool_as-eq-ok partial_attach_error (get data_ name) _ h

-- A field that is read and compared with a text.
text_is :
    (data_ : JsonObject) (name t m : String) {s : String}
    → require_text data_ name ≡ ok s
    → ensure (str_eq s t) m ≡ ok tt
    → get data_ name ≡ str t
text_is data_ name t m {s} read compared =
    require_text-eq-ok data_ name read ∙ ap str (same s t m compared)

-- A flag that is read and must not be set.
flag_is_off :
    (data_ : JsonObject) (name m : String) {b : Bool}
    → require_bool data_ name ≡ ok b
    → ensure (not b) m ≡ ok tt
    → get data_ name ≡ bool false
flag_is_off data_ name m {b} read off =
    require_bool-eq-ok data_ name read ∙ ap bool (refuted_by partial_attach_error b m off)

-- What the evidence claims of itself.
pub record ClaimsOk (evidence : JsonObject) : Type 0 where
  pub schema_stands : get evidence "schema" ≡ str schema
  pub consistent : reject_contradictions evidence "partial attach evidence" ≡ ok tt
  pub no_mutation : get evidence "host_mutation" ≡ bool false
  pub no_release : get evidence "release_eligible_live_proof" ≡ bool false

validate_claims-ClaimsOk : (e : JsonObject) → validate_claims e ≡ ok tt → ClaimsOk e
unfolding validate_claims
validate_claims-ClaimsOk e h =
    let (s, s_ok, h1) = >>=-eq-ok (require_text e "schema") _ h in
    let (s_same, h2) = >>-eq-ok (ensure (str_eq s schema) _) _ h1 in
    let (consistent, h3) = >>-eq-ok (reject_contradictions e "partial attach evidence") _ h2 in
    let (mutation, mutation_ok, h4) = >>=-eq-ok (require_bool e "host_mutation") _ h3 in
    let (mutation_off, h5) = >>-eq-ok (ensure (not mutation) _) _ h4 in
    let (release, release_ok, release_off) =
      >>=-eq-ok (require_bool e "release_eligible_live_proof") _ h5 in
    record {
      schema_stands = text_is e "schema" schema _ s_ok s_same;
      consistent = consistent;
      no_mutation = flag_is_off e "host_mutation" _ mutation_ok mutation_off;
      no_release = flag_is_off e "release_eligible_live_proof" _ release_ok release_off;
    }

-- The policy that was attached, how, and where.
pub record AttachOk (evidence : JsonObject) : Type 0 where
  pub target : String
  pub ops_stand : get evidence "ops_during_attach" ≡ str "zigsched_minimal"
  pub mode_stands : get evidence "switch_mode" ≡ str "SCX_OPS_SWITCH_PARTIAL"
  pub command_stands : get evidence "attach_command" ≡ str "bpftool struct_ops register"
  pub target_stands : get evidence "target_cgroup" ≡ str target
  pub target_is_lab : starts_with target target_prefix ≡ true
  pub target_is_below : str_eq target target_prefix ≡ false

both : (a b : Bool) → (a && not b) ≡ true → (a ≡ true) × (b ≡ false)
both a b h = ground arith

validate_attach-AttachOk : (e : JsonObject) → validate_attach e ≡ ok tt → AttachOk e
unfolding validate_attach
validate_attach-AttachOk e h =
    let (ops, ops_ok, h1) = >>=-eq-ok (require_text e "ops_during_attach") _ h in
    let (ops_same, h2) = >>-eq-ok (ensure (str_eq ops "zigsched_minimal") _) _ h1 in
    let (mode, mode_ok, h3) = >>=-eq-ok (require_text e "switch_mode") _ h2 in
    let (mode_same, h4) = >>-eq-ok (ensure (str_eq mode "SCX_OPS_SWITCH_PARTIAL") _) _ h3 in
    let (command, command_ok, h5) = >>=-eq-ok (require_text e "attach_command") _ h4 in
    let (command_same, h6) =
      >>-eq-ok (ensure (str_eq command "bpftool struct_ops register") _) _ h5 in
    let (target, target_ok, lab) = >>=-eq-ok (require_text e "target_cgroup") _ h6 in
    let (is_lab, is_below) =
      both (starts_with target target_prefix) (str_eq target target_prefix)
        (guard-eq-ok partial_attach_error _ _ lab) in
    record {
      target = target;
      ops_stand = text_is e "ops_during_attach" _ _ ops_ok ops_same;
      mode_stands = text_is e "switch_mode" _ _ mode_ok mode_same;
      command_stands = text_is e "attach_command" _ _ command_ok command_same;
      target_stands = require_text-eq-ok e "target_cgroup" target_ok;
      target_is_lab = is_lab;
      target_is_below = is_below;
    }

-- The rollback, the object and the transcript.
pub record RollbackOk (w : World) (evidence : JsonObject) : Type 0 where
  pub post_state : String
  pub object_sha : String
  pub transcript : String
  pub rollback_passed : get evidence "rollback_status" ≡ str "PASS"
  pub post_state_stands : get evidence "post_state" ≡ str post_state
  pub post_state_is_safe : in_table post_state ("disabled" ∷ "previous" ∷ []) ≡ true
  pub object_stands : get evidence "object_sha256" ≡ str object_sha
  pub object_is_real : str_eq object_sha zero_hash ≡ false
  pub transcript_stands : get evidence "transcript_path" ≡ str transcript
  pub transcript_ok : validate_transcript w (path_of transcript) ≡ ok tt

validate_rollback-RollbackOk :
    (w : World) (e : JsonObject) → validate_rollback w e ≡ ok tt → RollbackOk w e
unfolding validate_rollback
validate_rollback-RollbackOk w e h =
    let k = partial_attach_error in
    let (_, h1) = >>-eq-ok (drop_value (require_text e "rollback_id")) _ h in
    let (status, status_ok, h2) = >>=-eq-ok (require_text e "rollback_status") _ h1 in
    let (status_same, h3) = >>-eq-ok (ensure (str_eq status "PASS") _) _ h2 in
    let (post, post_ok, h4) = >>=-eq-ok (require_text e "post_state") _ h3 in
    let (post_safe, h5) = >>-eq-ok (ensure (in_table post ("disabled" ∷ "previous" ∷ [])) _) _ h4 in
    let (sha, sha_ok, h6) = >>=-eq-ok (require_text e "object_sha256") _ h5 in
    let (sha_real, h7) = >>-eq-ok (ensure (not (str_eq sha zero_hash)) _) _ h6 in
    let (transcript, transcript_ok, h8) = >>=-eq-ok (require_text e "transcript_path") _ h7 in
    record {
      post_state = post;
      object_sha = sha;
      transcript = transcript;
      rollback_passed = text_is e "rollback_status" _ _ status_ok status_same;
      post_state_stands = require_text-eq-ok e "post_state" post_ok;
      post_state_is_safe = guard-eq-ok k _ _ post_safe;
      object_stands = require_text-eq-ok e "object_sha256" sha_ok;
      object_is_real = refuted_by k _ _ sha_real;
      transcript_stands = require_text-eq-ok e "transcript_path" transcript_ok;
      transcript_ok = h8;
    }

-- Evidence of a partial attach, seen from outside.
pub record AcceptedPartial (w : World) (path : FilePath) : Type 0 where
  pub evidence : JsonObject
  pub loaded : load_object w path ≡ ok evidence
  pub claims : ClaimsOk evidence
  pub attach : AttachOk evidence
  pub rollback : RollbackOk w evidence

-- Accepted evidence of a partial attach loads as an object with the schema, that mutates no host and is
-- no release, ran the minimal policy in partial mode on a cgroup below the lab's slice, passed its
-- rollback into a safe state, and names an object hash that is not all zeros and a transcript that
-- passes.
pub validate_evidence-AcceptedPartial :
    (w : World) (path : FilePath) → validate_evidence w path ≡ ok tt → AcceptedPartial w path
unfolding validate_evidence validate_loaded
validate_evidence-AcceptedPartial w path h =
    let (evidence, loaded, h1) = >>=-eq-ok (load_object w path) _ h in
    let (claims, h2) = >>-eq-ok (validate_claims evidence) _ h1 in
    let (attach, rollback) = >>-eq-ok (validate_attach evidence) _ h2 in
    record {
      evidence = evidence;
      loaded = loaded;
      claims = validate_claims-ClaimsOk evidence claims;
      attach = validate_attach-AttachOk evidence attach;
      rollback = validate_rollback-RollbackOk w evidence rollback;
    }
