-- ===== src/Matrix/Row/Laws.antt =====
-- What an accepted row of a matrix run promises.
use exasphere.Base.{
  ◌≡◌, true, List, [], ◌∷◌, String, str_eq, ok, ◌<>◌, drop_value, drop_value-eq-ok, for_each,
  >>-eq-ok, >>=-eq-ok, All,
}
use exasphere.Text.{in_table}
use exasphere.Json.{obj, JsonObject, get}
use exasphere.World.{World}
use exasphere.Checks.Laws.{object_as-eq-ok, for_each-eq-ok}
use exasphere.Matrix.Model.{path_fields}
use exasphere.Matrix.Values.{
  object, text, require_safe_path, require_identifier, require_only_fields,
}
use exasphere.Matrix.Row.{
  validate_vm_marker, validate_pass_evidence_mode, validate_states, validate_header, validate_parts,
  validate_row, validate_policy, validate_privacy,
}
use exasphere.Matrix.Workload.{validate_workload}
use exasphere.Matrix.Row.Parts.{
  MarkerOf, CleanGit, States, Header, SafePathAt, validate_vm_marker-MarkerOf,
  validate_git-CleanGit, validate_states-States, validate_header-Header, require_safe_path-safe,
  pass_mode,
}

-- The marker and the commit that the row holds.
record Parts (row : JsonObject) (mode : String) : Type 0 where
  marker : JsonObject
  marker_stands : get row "vm_marker" ≡ obj marker
  marker_of : MarkerOf mode marker
  git : JsonObject
  git_stands : get row "git" ≡ obj git
  clean_git : CleanGit git

validate_parts-Parts :
    (row : JsonObject) (scenario_id mode context : String)
    → validate_parts row scenario_id mode context ≡ ok tt
    → Parts row mode
unfolding validate_parts
validate_parts-Parts row scenario_id mode context h =
    let (_, h1) = >>-eq-ok (for_each _ _) _ h in
    let (tuple, _, h2) = >>=-eq-ok (object (get row "kernel_tuple") _) _ h1 in
    let (_, h3) = >>-eq-ok (require_only_fields tuple _ _) _ h2 in
    let (marker, marker_ok, h4) = >>=-eq-ok (object (get row "vm_marker") _) _ h3 in
    let (marker_valid, h5) = >>-eq-ok (validate_vm_marker marker mode context) _ h4 in
    let (policy, _, h6) = >>=-eq-ok (object (get row "policy") _) _ h5 in
    let (_, h7) = >>-eq-ok (validate_policy policy context) _ h6 in
    let (workload, _, h8) = >>=-eq-ok (object (get row "workload") _) _ h7 in
    let (_, h9) = >>-eq-ok (validate_workload workload scenario_id context) _ h8 in
    let (scan, _, h10) = >>=-eq-ok (object (get row "privacy_scan") _) _ h9 in
    let (_, h11) = >>-eq-ok (validate_privacy scan context) _ h10 in
    let (git, git_ok, h12) = >>=-eq-ok (object (get row "git") _) _ h11 in
    record {
      marker = marker;
      marker_stands = object_as-eq-ok _ _ _ marker_ok;
      marker_of = validate_vm_marker-MarkerOf marker mode context marker_valid;
      git = git;
      git_stands = object_as-eq-ok _ _ _ git_ok;
      clean_git = validate_git-CleanGit git context h12;
    }

-- An accepted row, seen from outside.
pub record AcceptedRow (w : World) (row : JsonObject) (context : String) : Type 0 where
  pub outcome : String
  pub mode : String
  pub header : Header row outcome mode
  pub pass_is_proved :
      str_eq outcome "PASS" ≡ true → in_table mode ("vm-live" ∷ "fixture" ∷ []) ≡ true
  pub marker : JsonObject
  pub marker_stands : get row "vm_marker" ≡ obj marker
  pub marker_of : MarkerOf mode marker
  pub git : JsonObject
  pub git_stands : get row "git" ≡ obj git
  pub clean_git : CleanGit git
  pub states : States w row context
  pub safe_paths : All (SafePathAt row) path_fields

safe_each :
    (names : List String) (row : JsonObject) (context : String)
    → All
        (λ name. drop_value (require_safe_path (get row name) (context <> "." <> name)) ≡ ok tt)
        names
    → All (SafePathAt row) names
safe_each [] row context h = tt
safe_each (name ∷ names) row context h =
    let (raw, raw_ok) = drop_value-eq-ok _ h.0 in
    let (stands, inside) = require_safe_path-safe _ _ raw_ok in
    ((raw, stands, inside), safe_each names row context h.1)

-- An accepted row names the schema and the ABI, mutates no host and is not eligible for release; its
-- marker is required and present exactly in the mode `vm-live`, and a PASS is `vm-live` or a fixture;
-- its commit is the expected one, on a clean tree; its enable sequence did not fall; its paths are
-- relative and do not climb.
pub validate_row-AcceptedRow :
    (w : World) (row : JsonObject) (context : String)
    → validate_row w row context ≡ ok tt
    → AcceptedRow w row context
unfolding validate_row validate_pass_evidence_mode
validate_row-AcceptedRow w row context h =
    let (head, head_ok, h1) = >>=-eq-ok (validate_header row context) _ h in
    let (scenario_id, _, h2) = >>=-eq-ok (text (get row "scenario_id") _) _ h1 in
    let (_, h3) = >>-eq-ok (require_identifier row "audit_id" _ context) _ h2 in
    let (paths, h4) =
      >>-eq-ok
        (for_each path_fields
          (λ name. drop_value (require_safe_path (get row name) (context <> "." <> name))))
        _ h3 in
    let (states, h5) = >>-eq-ok (validate_states w row context) _ h4 in
    let (parts_ok, h6) = >>-eq-ok (validate_parts row scenario_id head.1 context) _ h5 in
    let (pass, _) = >>-eq-ok (validate_pass_evidence_mode head.0 head.1 context) _ h6 in
    let parts = validate_parts-Parts row scenario_id head.1 context parts_ok in
    record {
      outcome = head.0;
      mode = head.1;
      header = validate_header-Header row context head_ok;
      pass_is_proved = pass_mode (str_eq head.0 "PASS") _ _ pass;
      marker = parts.marker;
      marker_stands = parts.marker_stands;
      marker_of = parts.marker_of;
      git = parts.git;
      git_stands = parts.git_stands;
      clean_git = parts.clean_git;
      states = validate_states-States w row context states;
      safe_paths = safe_each path_fields row context (for_each-eq-ok path_fields _ paths);
    }
