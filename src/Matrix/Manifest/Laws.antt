-- ===== src/Matrix/Manifest/Laws.antt =====
-- What an accepted manifest promises.
use exasphere.Base.{
  ℕ, ◌≡◌, refl, sym, subst, true, false, [], String, str_eq, eq_iff, ok, err, guard-eq-ok, >>-eq-ok,
  >>=-eq-ok, ok_injective, matrix_run_contract_error, Result,
}
use exasphere.Json.{JsonValue, str, bool, int, arr, pos, Items, JsonObject, get, is_false, is_text}
use exasphere.Json.Equality.{value_eq}
use exasphere.World.{World, FilePath, path_of, name_of, same_path}
use exasphere.Checks.{list_as}
use exasphere.Checks.Laws.{
  required_text, required_false, text_as-eq-ok, bool_as-eq-ok, list_as-eq-ok,
}
use exasphere.Daemon
use exasphere.Daemon.Laws.{AcceptedStream, validate_iff}
use exasphere.Matrix.Model.{run_id_re, manifest_fields}
use exasphere.Matrix.Values.{
  require, text, bool_field, load_json, require_only_fields, require_safe_path,
  require_manifest_root, is_descendant, require_descendant,
}
use exasphere.Matrix.Manifest.{
  Manifest, convert_stream_error, validate_manifest_daemon_events, descendant_path,
  validate_manifest_rows, validate_manifest_identity, validate_manifest_head, count,
  validate_manifest,
}
use exasphere.Matrix.Row.Parts.{require_safe_path-safe}
use exasphere.Matrix.Manifest.Rows.{RowsOk, validate_manifest_rows-RowsOk}

convert_stream_error-eq-ok :
    (context : String) (m : Result (Unit {0})) → convert_stream_error context m ≡ ok tt → m ≡ ok tt
unfolding convert_stream_error
convert_stream_error-eq-ok context (ok tt) h = refl
convert_stream_error-eq-ok context (err e) h = cc

-- A stream of events under the root that was accepted.
abbrev pub StreamUnder : World → FilePath → FilePath → Type 0
StreamUnder w root path = (is_descendant path root ≡ true) × AcceptedStream w path false

descendant_path-eq-ok :
    (v : JsonValue) (root : FilePath) (context : String) {path : FilePath}
    → descendant_path v root context ≡ ok path
    → (raw : String) × (v ≡ str raw) × (path ≡ path_of raw)
unfolding descendant_path
descendant_path-eq-ok v root context h =
    let (raw, raw_ok, h1) = >>=-eq-ok (require_safe_path v context) _ h in
    let (_, same) = >>-eq-ok (require_descendant (path_of raw) root context) _ h1 in
    (raw, (require_safe_path-safe v context raw_ok).0, sym (ok_injective same))

validate_manifest_daemon_events-StreamUnder :
    (w : World) (path root : FilePath) (context : String)
    → validate_manifest_daemon_events w path root context ≡ ok tt
    → StreamUnder w root path
unfolding validate_manifest_daemon_events require_descendant
validate_manifest_daemon_events-StreamUnder w path root context h =
    let (inside, stream) = >>-eq-ok (require_descendant path root context) _ h in
    (
      guard-eq-ok matrix_run_contract_error _ _ inside,
      (validate_iff w path false).0
          (convert_stream_error-eq-ok context (Daemon.validate w path false) stream),
    )

-- What the manifest is.
pub record IdentityOk (manifest : JsonObject) (root : FilePath) (run_id : String) : Type 0 where
  pub schema_stands : get manifest "schema" ≡ str "zig-scheduler/vm-harness-matrix-index/v1"
  pub no_mutation : get manifest "host_mutation" ≡ bool false
  pub no_release : get manifest "release_eligible" ≡ bool false
  pub run_id_stands : get manifest "matrix_run_id" ≡ str run_id
  pub run_id_is_safe : run_id_re run_id ≡ true
  pub run_id_names_root : run_id ≡ name_of root

validate_manifest_identity-IdentityOk :
    (path root : FilePath) (manifest : JsonObject) {run_id : String}
    → validate_manifest_identity path root manifest ≡ ok run_id
    → IdentityOk manifest root run_id
unfolding validate_manifest_identity
validate_manifest_identity-IdentityOk path root manifest h =
    let k = matrix_run_contract_error in
    let (_, h1) = >>-eq-ok (require_only_fields manifest manifest_fields _) _ h in
    let (schema_ok, h2) = >>-eq-ok (require (is_text _ (get manifest "schema")) _) _ h1 in
    let (mutation_ok, h3) = >>-eq-ok (require (is_false (get manifest "host_mutation")) _) _ h2 in
    let (release_ok, h4) = >>-eq-ok (require (is_false (get manifest "release_eligible")) _) _ h3 in
    let (id, id_ok, h5) = >>=-eq-ok (text (get manifest "matrix_run_id") _) _ h4 in
    let (id_safe, h6) = >>-eq-ok (require (run_id_re id) _) _ h5 in
    let (names_root, h7) = >>-eq-ok (require (str_eq id (name_of root)) _) _ h6 in
    let (out_dir, _, h8) = >>=-eq-ok (require_safe_path (get manifest "out_dir") _) _ h7 in
    let (_, h9) = >>-eq-ok (require (same_path (path_of out_dir) root) _) _ h8 in
    subst (λ s. IdentityOk manifest root s) (ok_injective h9)
      (record {
        schema_stands = required_text k _ _ _ schema_ok;
        no_mutation = required_false k _ _ mutation_ok;
        no_release = required_false k _ _ release_ok;
        run_id_stands = (text_as-eq-ok k _ _ id_ok).0;
        run_id_is_safe = guard-eq-ok k _ _ id_safe;
        run_id_names_root = (eq_iff id (name_of root)).0 (guard-eq-ok k _ _ names_root);
      })

-- The manifest's own entries.
pub record HeadOk (w : World) (manifest : JsonObject) (root : FilePath) (m : Manifest)
    (rows : Items) : Type 0 where
  pub events_raw : String
  pub events_stand : get manifest "daemon_events_path" ≡ str events_raw
  pub same_root : m.root ≡ root
  pub identity : IdentityOk manifest root m.run_id
  pub mode_stands : get manifest "mode" ≡ str m.mode
  pub fixture_mode_stands : get manifest "fixture_mode" ≡ bool m.fixture_mode
  pub rows_stand : get manifest "rows" ≡ arr rows
  pub count_stands : value_eq (get manifest "row_count") (int (pos (count rows))) ≡ true
  pub stream : StreamUnder w root (path_of events_raw)

validate_manifest_head-HeadOk :
    (w : World) (path root : FilePath) (manifest : JsonObject) {head : Manifest × Items}
    → validate_manifest_head w path root manifest ≡ ok head
    → HeadOk w manifest root head.0 head.1
unfolding validate_manifest_head
validate_manifest_head-HeadOk w path root manifest h =
    let k = matrix_run_contract_error in
    let (run_id, identity_ok, h1) = >>=-eq-ok (validate_manifest_identity path root manifest) _ h in
    let (events_path, events_ok, h2) =
      >>=-eq-ok (descendant_path (get manifest "daemon_events_path") root _) _ h1 in
    let (mode, mode_ok, h3) = >>=-eq-ok (text (get manifest "mode") _) _ h2 in
    let (fixture, fixture_ok, h4) = >>=-eq-ok (bool_field (get manifest "fixture_mode") _) _ h3 in
    let (_, _, h5) = >>=-eq-ok (text (get manifest "started_at") _) _ h4 in
    let (_, _, h6) = >>=-eq-ok (text (get manifest "ended_at") _) _ h5 in
    let (items, items_ok, h7) = >>=-eq-ok (list_as k (get manifest "rows") _) _ h6 in
    let (count_ok, h8) =
      >>-eq-ok (require (value_eq (get manifest "row_count") (int (pos (count items)))) _) _ h7 in
    let (raw, raw_stands, is_raw) = descendant_path-eq-ok _ root _ events_ok in
    let (stream_ok, h9) = >>-eq-ok (validate_manifest_daemon_events w events_path root _) _ h8 in
    subst (λ head. HeadOk w manifest root head.0 head.1) (ok_injective h9)
      (record {
        events_raw = raw;
        events_stand = raw_stands;
        same_root = refl;
        identity = validate_manifest_identity-IdentityOk path root manifest identity_ok;
        mode_stands = (text_as-eq-ok k _ _ mode_ok).0;
        fixture_mode_stands = bool_as-eq-ok k _ _ fixture_ok;
        rows_stand = list_as-eq-ok k _ _ items_ok;
        count_stands = guard-eq-ok k _ _ count_ok;
        stream =
            subst (λ path. StreamUnder w root path) is_raw
              (validate_manifest_daemon_events-StreamUnder w events_path root _ stream_ok);
      })

-- A manifest that was accepted, with its rows.
pub record AcceptedManifest (w : World) (path : FilePath) (n : ℕ) : Type 0 where
  pub manifest : JsonObject
  pub m : Manifest
  pub rows : Items
  pub loaded : load_json w path ≡ ok manifest
  pub root_of_path : require_manifest_root path ≡ ok m.root
  pub head : HeadOk w manifest m.root m rows
  pub rows_ok : RowsOk w m rows (record { scenarios = []; artifacts = [] })
  pub counted : n ≡ count rows

-- An accepted manifest names the schema, mutates no host and is no release; its run id is safe and is
-- the name of its directory; the stream of events that its field `daemon_events_path` names is accepted
-- and lies under that directory; no
-- scenario and no artifact stands twice in it; and each of its entries points to a file `matrix-run.json`
-- under that directory with an accepted row of the entry's scenario and outcome, the manifest's run id,
-- and an accepted claim of a VM (`VmClaim`), which rests on an accepted live backend (`BackendOk`) if it
-- is a PASS of the scenario `live-backend` in the mode `vm-live`. The result is the number of entries.
pub validate_manifest-AcceptedManifest :
    (w : World) (path : FilePath) (n : ℕ)
    → validate_manifest w path ≡ ok n
    → AcceptedManifest w path n
unfolding validate_manifest
validate_manifest-AcceptedManifest w path n h =
    let (root, root_ok, h1) = >>=-eq-ok (require_manifest_root path) _ h in
    let (manifest, loaded, h2) = >>=-eq-ok (load_json w path) _ h1 in
    let (head, head_ok, h3) = >>=-eq-ok (validate_manifest_head w path root manifest) _ h2 in
    let (seen, rows_ok, h4) =
      >>=-eq-ok
        (validate_manifest_rows w head.0 0 head.1 (record { scenarios = []; artifacts = [] })) _
        h3 in
    let stands = validate_manifest_head-HeadOk w path root manifest head_ok in
    record {
      manifest = manifest;
      m = head.0;
      rows = head.1;
      loaded = loaded;
      root_of_path = rw stands.same_root root_ok;
      head = rw stands.same_root stands;
      rows_ok = validate_manifest_rows-RowsOk w head.0 0 head.1 _ rows_ok;
      counted = sym (ok_injective h4);
    }
