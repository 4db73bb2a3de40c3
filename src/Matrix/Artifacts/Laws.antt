-- ===== src/Matrix/Artifacts/Laws.antt =====
-- What an accepted claim of a VM promises.
use exasphere.Base.{
  ◌≡◌, subst, Bool, true, ◌&&◌, ◌||◌, not, [], ◌∷◌, String, str_eq, eq_iff, arith, if◌then◌else◌,
  guard-eq-ok, ok, ◌<>◌, >>-eq-ok, >>=-eq-ok, matrix_run_contract_error,
}
use exasphere.Text.{in_table}
use exasphere.Json.{bool, str, obj, JsonObject, get, is_text}
use exasphere.Json.Equality.{value_eq}
use exasphere.World.{World, FilePath, path_of}
use exasphere.Checks.Laws.{text_as-eq-ok, bool_as-eq-ok, object_as-eq-ok, when-eq-ok}
use exasphere.Matrix.Values.{
  require, object, text, bool_field, load_json, is_descendant, require_descendant,
  require_safe_path, require_only_fields,
}
use exasphere.Matrix.Row.Parts.{require_safe_path-safe}
use exasphere.Matrix.Model.{vm_marker, vm_marker_proof_fields}
use exasphere.Matrix.Artifacts.{
  validate_vm_marker_proof, validate_manifest_vm_claim, fixture_claim, marker_file,
}

-- The file of the marker's proof, and that it proves a live run.
pub record LiveProof (w : World) (marker : JsonObject) (manifest_root : FilePath) : Type 0 where
  pub raw : String
  pub raw_stands : get marker "checked_by" ≡ str raw
  pub data_ : JsonObject
  pub context : String
  pub inside : is_descendant (path_of raw) manifest_root ≡ true
  pub loaded : load_json w (path_of raw) ≡ ok data_
  pub proves : validate_vm_marker_proof data_ true true "vm-live" context ≡ ok tt

all_three : (r p l : Bool) → (r && p && l) ≡ true → (r ≡ true) × (p ≡ true) × (l ≡ true)
all_three r p l h = ground arith

marker_proof-live :
    (data_ : JsonObject) (r p : Bool) (mode context : String)
    → validate_vm_marker_proof data_ r p mode context ≡ ok tt
    → (r ≡ true) × (p ≡ true) × (mode ≡ "vm-live")
unfolding validate_vm_marker_proof
marker_proof-live data_ r p mode context h =
    let (_, h1) = >>-eq-ok (require_only_fields data_ vm_marker_proof_fields context) _ h in
    let (_, h2) =
      >>-eq-ok (require (is_text "zig-scheduler/vm-marker-proof/v1" (get data_ "schema")) _) _ h1 in
    let (_, h3) = >>-eq-ok (require (is_text vm_marker (get data_ "path")) _) _ h2 in
    let (_, h4) = >>-eq-ok (require (value_eq (get data_ "required") (bool r)) _) _ h3 in
    let (_, h5) = >>-eq-ok (require (value_eq (get data_ "present") (bool p)) _) _ h4 in
    let (_, h6) = >>-eq-ok (require (is_text mode (get data_ "evidence_mode")) _) _ h5 in
    let (real, _) = >>-eq-ok (require (r && p && str_eq mode "vm-live") _) _ h6 in
    let both = guard-eq-ok matrix_run_contract_error (r && p && str_eq mode "vm-live") _ real in
    let (required, present, live) = all_three r p (str_eq mode "vm-live") both in
    (required, present, (eq_iff mode "vm-live").0 live)

-- The same proof, read for the flags and the mode that it established.
proof_at :
    (data_ : JsonObject) (r p : Bool) (mode context : String)
    → r ≡ true
    → p ≡ true
    → mode ≡ "vm-live"
    → validate_vm_marker_proof data_ r p mode context ≡ ok tt
    → validate_vm_marker_proof data_ true true "vm-live" context ≡ ok tt
proof_at data_ r p mode context required present live h =
    subst (λ b. validate_vm_marker_proof data_ b true "vm-live" context ≡ ok tt) required
      (subst (λ b. validate_vm_marker_proof data_ r b "vm-live" context ≡ ok tt) present
        (subst (λ m. validate_vm_marker_proof data_ r p m context ≡ ok tt) live h))

-- Both flags are set in the mode `vm-live`, and the file of the proof says so.
abbrev pub LiveMarker : World → JsonObject → Bool → Bool → String → FilePath → Type 0
LiveMarker w marker r p mode manifest_root =
    (r ≡ true) × (p ≡ true) × (mode ≡ "vm-live") × LiveProof w marker manifest_root

marker_file-LiveMarker :
    (w : World) (marker : JsonObject) (r p : Bool) (mode : String) (root : FilePath)
    (context : String)
    → marker_file w marker r p mode root context ≡ ok tt
    → LiveMarker w marker r p mode root
unfolding marker_file require_descendant
marker_file-LiveMarker w marker r p mode root context h =
    let (raw, raw_ok, h1) = >>=-eq-ok (require_safe_path (get marker "checked_by") _) _ h in
    let (inside, h2) = >>-eq-ok (require_descendant (path_of raw) root _) _ h1 in
    let (data_, loaded, h3) = >>=-eq-ok (load_json w (path_of raw)) _ h2 in
    let (required, present, live) = marker_proof-live data_ r p mode _ h3 in
    (
      required,
      present,
      live,
      record {
        raw = raw;
        raw_stands = (require_safe_path-safe _ _ raw_ok).0;
        data_ = data_;
        context = context <> ".vm_marker.proof";
        inside = guard-eq-ok _ _ _ inside;
        loaded = loaded;
        proves = proof_at data_ r p mode _ required present live h3;
      },
    )

-- A claim of a VM that was accepted, in a manifest with the given mode and `fixture_mode`.
pub record VmClaim (w : World) (row : JsonObject) (mode : String) (fixture_mode : Bool)
    (manifest_root : FilePath) : Type 0 where
  pub marker : JsonObject
  pub required : Bool
  pub present : Bool
  pub evidence_mode : String
  pub outcome : String
  pub marker_stands : get row "vm_marker" ≡ obj marker
  pub required_stands : get marker "required" ≡ bool required
  pub present_stands : get marker "present" ≡ bool present
  pub mode_stands : get row "evidence_mode" ≡ str evidence_mode
  pub outcome_stands : get row "outcome" ≡ str outcome
  pub fixture_is_authorized :
      str_eq evidence_mode "fixture" ≡ true
      → (fixture_mode && in_table mode ("host-safe" ∷ "auto" ∷ [])) ≡ true
  pub pass_is_live :
      (str_eq outcome "PASS" && not (fixture_mode && in_table mode ("host-safe" ∷ "auto" ∷ [])))
        ≡ true
      → evidence_mode ≡ "vm-live"
  pub live_is_proved :
      (str_eq evidence_mode "vm-live" || present) ≡ true
      → LiveMarker w marker required present evidence_mode manifest_root

pub validate_manifest_vm_claim-VmClaim :
    (w : World) (row : JsonObject) (mode : String) (fixture_mode : Bool) (root : FilePath)
    (context : String)
    → validate_manifest_vm_claim w row mode fixture_mode root context ≡ ok tt
    → VmClaim w row mode fixture_mode root
unfolding validate_manifest_vm_claim
validate_manifest_vm_claim-VmClaim w row mode fixture_mode root context h =
    let (marker, marker_ok, h1) = >>=-eq-ok (object (get row "vm_marker") _) _ h in
    let (r, r_ok, h2) = >>=-eq-ok (bool_field (get marker "required") _) _ h1 in
    let (p, p_ok, h3) = >>=-eq-ok (bool_field (get marker "present") _) _ h2 in
    let (evidence, evidence_ok, h4) = >>=-eq-ok (text (get row "evidence_mode") _) _ h3 in
    let (outcome, outcome_ok, h5) = >>=-eq-ok (text (get row "outcome") _) _ h4 in
    let authorized = fixture_mode && in_table mode ("host-safe" ∷ "auto" ∷ []) in
    let (fixture, h6) =
      >>-eq-ok (if str_eq evidence "fixture" then require authorized _ else ok tt) _ h5 in
    let (pass, h7) =
      >>-eq-ok
        (if str_eq outcome "PASS" && not authorized
          then require (str_eq evidence "vm-live") _
          else ok tt)
        _ h6 in
    let (_, live) =
      >>-eq-ok (if authorized then fixture_claim p evidence outcome context else ok tt) _ h7 in
    record {
      marker = marker;
      required = r;
      present = p;
      evidence_mode = evidence;
      outcome = outcome;
      marker_stands = object_as-eq-ok _ _ _ marker_ok;
      required_stands = bool_as-eq-ok _ _ _ r_ok;
      present_stands = bool_as-eq-ok _ _ _ p_ok;
      mode_stands = (text_as-eq-ok _ _ _ evidence_ok).0;
      outcome_stands = (text_as-eq-ok _ _ _ outcome_ok).0;
      fixture_is_authorized = λ is_fixture.
          guard-eq-ok _ _ _ (when-eq-ok (str_eq evidence "fixture") _ fixture is_fixture);
      pass_is_live =
          λ passed. (eq_iff evidence "vm-live").0 (guard-eq-ok _ _ _ (when-eq-ok _ _ pass passed));
      live_is_proved = λ claims.
          marker_file-LiveMarker w marker r p evidence root context (when-eq-ok _ _ live claims);
    }
