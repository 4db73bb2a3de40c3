-- ===== src/Matrix/Backend/Laws.antt =====
-- What a row that passes in a live run of the live backend rests on.
use exasphere.Base.{
  ◌≡◌, refl, sym, ap, subst, ◌&&◌, ◌∙◌, Bool, true, false, ◌||◌, not, String, str_eq, eq_iff, ok,
  err, guard-eq-ok, >>-eq-ok, >>=-eq-ok, matrix_run_contract_error, Result, if◌then◌else◌, arith,
}
use exasphere.Text.{codes, is_prefix}
use exasphere.Json.{JsonValue, str, bool, obj, JsonObject, get, is_true, is_false}
use exasphere.World.{World, FilePath, path_of, parent, child, same_path}
use exasphere.Checks.{text_or}
use exasphere.Checks.Laws.{
  text_or-eq-ok, text_as-eq-ok, object_as-eq-ok, required_false, refuted_by,
}
use exasphere.Live.Bundle.{validate_bundle}
use exasphere.Live.Bundle.Laws.{AcceptedBundle, validate_bundle-AcceptedBundle}
use exasphere.Matrix.Values.{require, object, text, load_json}
use exasphere.Matrix.Backend.{
  convert_bundle_error, is_stale, backend_summary, validate_live_backend_summary_consistency,
}

convert_bundle_error-eq-ok :
    (context : String) (m : Result (Unit {0})) → convert_bundle_error context m ≡ ok tt → m ≡ ok tt
unfolding convert_bundle_error
convert_bundle_error-eq-ok context (ok tt) h = refl
convert_bundle_error-eq-ok context (err e) h = cc

-- The backend's summary beside the row's file, and the live bundle that it names.
pub record BackendOk (w : World) (row : JsonObject) (artifact_path : FilePath) : Type 0 where
  pub summary : JsonObject
  pub live_path : String
  pub live_summary : JsonObject
  pub git : JsonObject
  pub actual_sha : String
  pub loaded :
      load_json w (child (child (parent artifact_path) "backend") "summary.json") ≡ ok summary
  pub status_stands : get summary "status" ≡ str "PASS"
  pub no_mutation : get summary "host_mutation" ≡ bool false
  pub live_path_stands : get summary "live_summary" ≡ str live_path
  pub live_path_is_canonical :
      same_path
        (path_of live_path)
        (child (child (child (parent artifact_path) "backend") "live") "summary.json")
      ≡ true
  pub live_loaded : load_json w (path_of live_path) ≡ ok live_summary
  pub not_dirty : ¬ (get live_summary "git_dirty" ≡ bool true)
  pub git_stands : get row "git" ≡ obj git
  pub sha_stands : get git "actual_sha" ≡ str actual_sha
  pub same_commit :
      (sha : String)
      → get live_summary "git_sha" ≡ str sha
      → str_eq sha "" ≡ false
      → is_prefix (codes actual_sha) (codes sha) ≡ true
  pub bundle : AcceptedBundle w (path_of live_path)

status_text :
    (v : JsonValue) (context t m : String) {s : String}
    → text v context ≡ ok s
    → require (str_eq s t) m ≡ ok tt
    → v ≡ str t
status_text v context t m {s} read compared =
    (text_as-eq-ok matrix_run_contract_error v context read).0
    ∙ ap str ((eq_iff s t).0 (guard-eq-ok matrix_run_contract_error _ m compared))

not_true : (v : JsonValue) → is_true v ≡ false → ¬ (v ≡ bool true)
not_true v h e = cc (h, ap is_true e)

prefixed : (full starts : Bool) → (not full && not starts) ≡ false → full ≡ false → starts ≡ true
prefixed full starts h p = ground arith

begins :
    (v : JsonValue) (actual_sha : String)
    → is_stale v actual_sha ≡ false
    → (sha : String) → v ≡ str sha
    → str_eq sha "" ≡ false
    → is_prefix (codes actual_sha) (codes sha) ≡ true
unfolding is_stale
begins v actual_sha h sha e full =
    prefixed (str_eq sha "") _ (subst (λ u. is_stale u actual_sha ≡ false) e h) full

backend_summary-BackendOk :
    (w : World) (row : JsonObject) (artifact_path : FilePath) (context : String)
    → backend_summary w row artifact_path context ≡ ok tt
    → BackendOk w row artifact_path
unfolding backend_summary
backend_summary-BackendOk w row artifact_path context h =
    let k = matrix_run_contract_error in
    let backend = child (parent artifact_path) "backend" in
    let (_, h1) = >>-eq-ok (require (w.is_file (child backend "summary.json")) _) _ h in
    let (summary, loaded, h2) = >>=-eq-ok (load_json w (child backend "summary.json")) _ h1 in
    let (schema, _, h3) = >>=-eq-ok (text (get summary "schema") _) _ h2 in
    let (_, h4) = >>-eq-ok (require (str_eq schema "zig-scheduler/vm-backend-run/v1") _) _ h3 in
    let (status, status_ok, h5) = >>=-eq-ok (text (get summary "status") _) _ h4 in
    let (status_same, h6) = >>-eq-ok (require (str_eq status "PASS") _) _ h5 in
    let (mutation_ok, h7) = >>-eq-ok (require (is_false (get summary "host_mutation")) _) _ h6 in
    let (live, live_ok, h8) = >>=-eq-ok (text_or k (get summary "live_summary") _) _ h7 in
    let (canonical, h9) = >>-eq-ok (require (same_path (path_of live) _) _) _ h8 in
    let (_, h10) = >>-eq-ok (require (w.is_file (path_of live)) _) _ h9 in
    let (live_summary, live_loaded, h11) = >>=-eq-ok (load_json w (path_of live)) _ h10 in
    let (clean, h12) = >>-eq-ok (require (not (is_true (get live_summary "git_dirty"))) _) _ h11 in
    let (git, git_ok, h13) = >>=-eq-ok (object (get row "git") _) _ h12 in
    let (sha, sha_ok, h14) = >>=-eq-ok (text (get git "actual_sha") _) _ h13 in
    let (current, bundle) =
      >>-eq-ok (require (not (is_stale (get live_summary "git_sha") sha)) _) _ h14 in
    record {
      summary = summary;
      live_path = live;
      live_summary = live_summary;
      git = git;
      actual_sha = sha;
      loaded = loaded;
      status_stands = status_text _ _ _ _ status_ok status_same;
      no_mutation = required_false k _ _ mutation_ok;
      live_path_stands = text_or-eq-ok k _ _ live_ok;
      live_path_is_canonical = guard-eq-ok k _ _ canonical;
      live_loaded = live_loaded;
      not_dirty = not_true _ (refuted_by k _ _ clean);
      git_stands = object_as-eq-ok k _ _ git_ok;
      sha_stands = (text_as-eq-ok k _ _ sha_ok).0;
      same_commit = begins _ sha (refuted_by k _ _ current);
      bundle =
          validate_bundle-AcceptedBundle w (path_of live)
            (convert_bundle_error-eq-ok context (validate_bundle w (path_of live)) bundle);
    }

not_skipped :
    (b : Bool) (m : Result (Unit {0})) → b ≡ false → (if b then ok tt else m) ≡ ok tt → m ≡ ok tt
not_skipped true m p h = cc
not_skipped false m p h = h

neither : (a b : Bool) → a ≡ true → b ≡ true → (not a || not b) ≡ false
neither a b p q = ground arith

-- A row of the scenario `live-backend` that passes in the mode `vm-live` is accepted only if a backend
-- summary beside its file is a PASS without a mutation of the host, and names the canonical live bundle,
-- which is accepted, does not say `git_dirty: true`, and, where it has a `git_sha` that is a text and not
-- empty, has one that begins with the row's `actual_sha`.
pub validate_live_backend-BackendOk :
    (w : World) (row : JsonObject) (artifact_path : FilePath) (context : String)
    → get row "scenario_id" ≡ str "live-backend"
    → get row "outcome" ≡ str "PASS"
    → get row "evidence_mode" ≡ str "vm-live"
    → validate_live_backend_summary_consistency w row artifact_path context ≡ ok tt
    → BackendOk w row artifact_path
unfolding validate_live_backend_summary_consistency
validate_live_backend-BackendOk w row artifact_path context is_backend is_pass is_live h =
    let (scenario, scenario_ok, h1) = >>=-eq-ok (text (get row "scenario_id") _) _ h in
    let h2 =
      not_skipped (not (str_eq scenario "live-backend")) _
        (same_text _ _ _ _ scenario_ok is_backend) h1 in
    let (outcome, outcome_ok, h3) = >>=-eq-ok (text (get row "outcome") _) _ h2 in
    let (mode, mode_ok, h4) = >>=-eq-ok (text (get row "evidence_mode") _) _ h3 in
    backend_summary-BackendOk w row artifact_path context (
      not_skipped (not (str_eq outcome "PASS") || not (str_eq mode "vm-live")) _
        (neither _ _ (equal_text _ _ _ _ outcome_ok is_pass) (equal_text _ _ _ _ mode_ok is_live))
        h4)
  where
    equal_text :
        (v : JsonValue) (context s t : String)
        → text v context ≡ ok s
        → v ≡ str t
        → str_eq s t ≡ true
    equal_text v context s t read stands =
        (eq_iff s t).1
          (str_inj (sym (text_as-eq-ok matrix_run_contract_error v context read).0 ∙ stands))
      where
        str_inj : {s t : String} → str s ≡ str t → s ≡ t
        str_inj e = cc

    same_text :
        (v : JsonValue) (context s t : String)
        → text v context ≡ ok s
        → v ≡ str t
        → not (str_eq s t) ≡ false
    same_text v context s t read stands = is_not (str_eq s t) (equal_text v context s t read stands)
      where
        is_not : (b : Bool) → b ≡ true → not b ≡ false
        is_not b h = ground arith
