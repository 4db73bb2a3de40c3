-- ===== src/Matrix/Manifest/Rows.antt =====
-- What the loop over the rows of an accepted manifest promises.
use exasphere.Base.{
  ℕ, suc, ◌≡◌, refl, sym, ap, subst, true, false, not, List, [], ◌∷◌, String, str_eq, eq_iff, ok,
  guard-eq-ok, >>-eq-ok, >>=-eq-ok, ok_injective, ◌<>◌, matrix_run_contract_error,
}
use exasphere.Text.{in_table}
use exasphere.Text.Digits.{show}
use exasphere.Json.{JsonValue, str, obj, Items, nil, cons, JsonObject, get, is_text}
use exasphere.Json.Equality.{value_eq, value_eq-str}
use exasphere.World.{World, FilePath, path_of, path_text, name_of}
use exasphere.Checks.Laws.{refuted_by, required_text, text_as-eq-ok, object_as-eq-ok}
use exasphere.Checks.Distinct.{Distinct, Unseen, Unseen-tail}
use exasphere.Matrix.Model.{id_re, manifest_row_fields}
use exasphere.Matrix.Values.{
  require, object, text, load_json, is_descendant, require_descendant, require_safe_path,
  require_only_fields,
}
use exasphere.Matrix.Row.{validate_row}
use exasphere.Matrix.Row.Laws.{AcceptedRow, validate_row-AcceptedRow}
use exasphere.Matrix.Row.Parts.{require_safe_path-safe}
use exasphere.Matrix.Artifacts.{validate_manifest_vm_claim}
use exasphere.Matrix.Artifacts.Laws.{VmClaim, validate_manifest_vm_claim-VmClaim}
use exasphere.Matrix.Backend.{validate_live_backend_summary_consistency}
use exasphere.Matrix.Backend.Laws.{BackendOk, validate_live_backend-BackendOk}
use exasphere.Matrix.Manifest.{
  Manifest, Seen, validate_manifest_row_paths, validate_artifact, validate_manifest_row,
  validate_manifest_rows,
}

-- The row's file that an entry of the manifest points to.
pub record ArtifactOk (w : World) (m : Manifest) (entry : JsonObject) (artifact_path : FilePath)
    : Type 0 where
  pub row : JsonObject
  pub loaded : load_json w artifact_path ≡ ok row
  pub accepted : AcceptedRow w row (path_text artifact_path)
  pub paths : validate_manifest_row_paths w row m.root (path_text artifact_path) ≡ ok tt
  pub claim : VmClaim w row m.mode m.fixture_mode m.root
  pub backend :
      get row "scenario_id" ≡ str "live-backend"
      → get row "outcome" ≡ str "PASS"
      → get row "evidence_mode" ≡ str "vm-live"
      → BackendOk w row artifact_path
  pub run_id_stands : get row "matrix_run_id" ≡ str m.run_id
  pub same_scenario : value_eq (get entry "scenario_id") (get row "scenario_id") ≡ true
  pub same_outcome : value_eq (get entry "outcome") (get row "outcome") ≡ true

validate_artifact-ArtifactOk :
    (w : World) (m : Manifest) (entry : JsonObject) (artifact_path : FilePath) (context : String)
    → validate_artifact w m entry artifact_path context ≡ ok tt
    → ArtifactOk w m entry artifact_path
unfolding validate_artifact
validate_artifact-ArtifactOk w m entry artifact_path context h =
    let name = path_text artifact_path in
    let (row, loaded, h1) = >>=-eq-ok (load_json w artifact_path) _ h in
    let (row_ok, h2) = >>-eq-ok (validate_row w row name) _ h1 in
    let (paths_ok, h3) = >>-eq-ok (validate_manifest_row_paths w row m.root name) _ h2 in
    let (claim_ok, h4) =
      >>-eq-ok (validate_manifest_vm_claim w row m.mode m.fixture_mode m.root name) _ h3 in
    let (backend_ok, h5) =
      >>-eq-ok (validate_live_backend_summary_consistency w row artifact_path name) _ h4 in
    let (run_ok, h6) = >>-eq-ok (require (is_text m.run_id (get row "matrix_run_id")) _) _ h5 in
    let (scenario_ok, outcome_ok) =
      >>-eq-ok (require (value_eq (get entry "scenario_id") (get row "scenario_id")) _) _ h6 in
    record {
      row = row;
      loaded = loaded;
      accepted = validate_row-AcceptedRow w row name row_ok;
      paths = paths_ok;
      claim = validate_manifest_vm_claim-VmClaim w row m.mode m.fixture_mode m.root name claim_ok;
      backend = λ is_backend is_pass is_live.
          validate_live_backend-BackendOk w row artifact_path name is_backend is_pass is_live
            backend_ok;
      run_id_stands = required_text matrix_run_contract_error m.run_id _ _ run_ok;
      same_scenario = guard-eq-ok matrix_run_contract_error _ _ scenario_ok;
      same_outcome = guard-eq-ok matrix_run_contract_error _ _ outcome_ok;
    }

-- An entry of the manifest, with its scenario and its artifact's path.
pub record EntryOk (w : World) (m : Manifest) (raw_row : JsonValue) (scenario_id artifact : String)
    : Type 0 where
  pub entry : JsonObject
  pub raw : String
  pub is_entry : raw_row ≡ obj entry
  pub scenario_stands : get entry "scenario_id" ≡ str scenario_id
  pub scenario_is_stable : id_re scenario_id ≡ true
  pub path_stands : get entry "artifact_path" ≡ str raw
  pub is_its_text : artifact ≡ path_text (path_of raw)
  pub inside : is_descendant (path_of raw) m.root ≡ true
  pub its_name : name_of (path_of raw) ≡ "matrix-run.json"
  pub artifact_ok : ArtifactOk w m entry (path_of raw)
  pub row_scenario : get artifact_ok.row "scenario_id" ≡ str scenario_id

row_scenario_of :
    (entry row : JsonObject) (scenario_id : String)
    → get entry "scenario_id" ≡ str scenario_id
    → value_eq (get entry "scenario_id") (get row "scenario_id") ≡ true
    → get row "scenario_id" ≡ str scenario_id
row_scenario_of entry row scenario_id stands same =
    value_eq-str scenario_id (get row "scenario_id")
      (subst (λ v. value_eq v (get row "scenario_id") ≡ true) stands same)

-- What one round adds: a scenario and a path that were not seen.
record Step (w : World) (m : Manifest) (raw_row : JsonValue) (seen seen' : Seen) : Type 0 where
  scenario_id : String
  artifact : String
  passed : EntryOk w m raw_row scenario_id artifact
  new_scenario : in_table scenario_id seen.scenarios ≡ false
  new_artifact : in_table artifact seen.artifacts ≡ false
  more_scenarios : seen'.scenarios ≡ scenario_id ∷ seen.scenarios
  more_artifacts : seen'.artifacts ≡ artifact ∷ seen.artifacts

validate_manifest_row-Step :
    (w : World) (m : Manifest) (index : ℕ) (raw_row : JsonValue) (seen : Seen) {seen' : Seen}
    → validate_manifest_row w m index raw_row seen ≡ ok seen'
    → Step w m raw_row seen seen'
unfolding validate_manifest_row require_descendant
validate_manifest_row-Step w m index raw_row seen h =
    let k = matrix_run_contract_error in
    let context = path_text m.path <> ".rows[" <> show index <> "]" in
    let (entry, entry_ok, h1) = >>=-eq-ok (object raw_row context) _ h in
    let (_, h2) = >>-eq-ok (require_only_fields entry manifest_row_fields context) _ h1 in
    let (scenario_id, scenario_ok, h3) = >>=-eq-ok (text (get entry "scenario_id") _) _ h2 in
    let (stable, h4) = >>-eq-ok (require (id_re scenario_id) _) _ h3 in
    let (new_scenario, h5) =
      >>-eq-ok (require (not (in_table scenario_id seen.scenarios)) _) _ h4 in
    let (raw, raw_ok, h6) = >>=-eq-ok (require_safe_path (get entry "artifact_path") _) _ h5 in
    let artifact_path = path_of raw in
    let (new_artifact, h7) =
      >>-eq-ok (require (not (in_table (path_text artifact_path) seen.artifacts)) _) _ h6 in
    let (inside, h8) = >>-eq-ok (require_descendant artifact_path m.root _) _ h7 in
    let (its_name, h9) =
      >>-eq-ok (require (str_eq (name_of artifact_path) "matrix-run.json") _) _ h8 in
    let (valid, h10) = >>-eq-ok (validate_artifact w m entry artifact_path context) _ h9 in
    let artifact_ok = validate_artifact-ArtifactOk w m entry artifact_path context valid in
    let stands = (text_as-eq-ok k _ _ scenario_ok).0 in
    record {
      scenario_id = scenario_id;
      artifact = path_text artifact_path;
      passed = record {
        entry = entry;
        raw = raw;
        is_entry = object_as-eq-ok k _ _ entry_ok;
        scenario_stands = stands;
        scenario_is_stable = guard-eq-ok k _ _ stable;
        path_stands = (require_safe_path-safe _ _ raw_ok).0;
        is_its_text = refl;
        inside = guard-eq-ok k _ _ inside;
        its_name =
            (eq_iff (name_of artifact_path) "matrix-run.json").0 (guard-eq-ok k _ _ its_name);
        artifact_ok = artifact_ok;
        row_scenario =
            row_scenario_of entry artifact_ok.row scenario_id stands artifact_ok.same_scenario;
      };
      new_scenario = refuted_by k _ _ new_scenario;
      new_artifact = refuted_by k _ _ new_artifact;
      more_scenarios = ap (λ s. s.scenarios) (sym (ok_injective h10));
      more_artifacts = ap (λ s. s.artifacts) (sym (ok_injective h10));
    }

-- The entries in order, with their scenarios and their paths.
abbrev pub EntriesOk : World → Manifest → Items → List String → List String → Type 0
EntriesOk w m nil [] [] = Unit
EntriesOk w m (cons raw_row rows) (s ∷ ss) (a ∷ paths) =
    EntryOk w m raw_row s a × EntriesOk w m rows ss paths
EntriesOk w m _ _ _ = ⊥

pub record RowsOk (w : World) (m : Manifest) (rows : Items) (seen : Seen) : Type 0 where
  pub scenarios : List String
  pub artifacts : List String
  pub entries : EntriesOk w m rows scenarios artifacts
  pub distinct_scenarios : Distinct scenarios
  pub distinct_artifacts : Distinct artifacts
  pub unseen_scenarios : Unseen seen.scenarios scenarios
  pub unseen_artifacts : Unseen seen.artifacts artifacts

add_row :
    (w : World) (m : Manifest) (raw_row : JsonValue) (rows : Items) (seen next : Seen)
    → Step w m raw_row seen next
    → RowsOk w m rows next
    → RowsOk w m (cons raw_row rows) seen
add_row w m raw_row rows seen next step later =
    let (scenario_new, scenarios_unseen) =
      Unseen-tail step.scenario_id seen.scenarios later.scenarios
        (subst (λ t. Unseen t later.scenarios) step.more_scenarios later.unseen_scenarios) in
    let (artifact_new, artifacts_unseen) =
      Unseen-tail step.artifact seen.artifacts later.artifacts
        (subst (λ t. Unseen t later.artifacts) step.more_artifacts later.unseen_artifacts) in
    record {
      scenarios = step.scenario_id ∷ later.scenarios;
      artifacts = step.artifact ∷ later.artifacts;
      entries = (step.passed, later.entries);
      distinct_scenarios = (scenario_new, later.distinct_scenarios);
      distinct_artifacts = (artifact_new, later.distinct_artifacts);
      unseen_scenarios = (step.new_scenario, scenarios_unseen);
      unseen_artifacts = (step.new_artifact, artifacts_unseen);
    }

-- In an accepted list of rows no scenario and no artifact stands twice, and each entry points to an
-- accepted row under the manifest's root.
pub validate_manifest_rows-RowsOk :
    (w : World) (m : Manifest) (index : ℕ) (rows : Items) (seen : Seen) {seen' : Seen}
    → validate_manifest_rows w m index rows seen ≡ ok seen'
    → RowsOk w m rows seen
unfolding validate_manifest_rows
validate_manifest_rows-RowsOk w m index nil seen h = record {
  scenarios = [];
  artifacts = [];
  entries = tt;
  distinct_scenarios = tt;
  distinct_artifacts = tt;
  unseen_scenarios = tt;
  unseen_artifacts = tt;
}
validate_manifest_rows-RowsOk w m index (cons raw_row rows) seen h =
    let (next, row_ok, rest_ok) = >>=-eq-ok (validate_manifest_row w m index raw_row seen) _ h in
    add_row w m raw_row rows seen next (validate_manifest_row-Step w m index raw_row seen row_ok)
      (validate_manifest_rows-RowsOk w m (suc index) rows next rest_ok)
