-- ===== src/Live/Bundle/Laws.antt =====
-- What an accepted bundle of a live run promises.
use exasphere.Base.{
  ◌≡◌, ap, ◌∙◌, Bool, true, false, not, List, [], ◌∷◌, String, str_eq, eq_iff, ok, guard-eq-ok,
  >>-eq-ok, >>=-eq-ok, All, for_each, live_behavior_error,
}
use exasphere.Json.{str, bool, JsonObject, get, is_false}
use exasphere.World.{World, FilePath}
use exasphere.Checks.Laws.{text_or-eq-ok, bool_as-eq-ok, for_each-eq-ok, refuted_by, required_false}
use exasphere.Ledger.Laws.{AcceptedLedger, validate_ledger-AcceptedLedger}
use exasphere.Sample.Core
use exasphere.Sample.Core.Laws.{AcceptedFile, validate_file-AcceptedFile}
use exasphere.Live.Partial
use exasphere.Live.Partial.Laws.{AcceptedPartial, validate_evidence-AcceptedPartial}
use exasphere.Live.Observe
use exasphere.Live.Observe.Laws.{AcceptedObservation, validate_observe-AcceptedObservation}
use exasphere.Live.Observe.{same_bool, all_alive, workload_execution_passed, runtime_events}
use exasphere.Live.Bundle.Counters.{ensure}
use exasphere.Live.Bundle.Named.{ArtifactsNamed, bundle_artifacts-ArtifactsNamed}
use exasphere.Live.Bundle.Series.{SamplesOk, validate_samples-SamplesOk}
use exasphere.Live.Bundle.{
  summary_schema, vm_marker, load_object, load_jsonl, require_text, require_bool,
  validate_vm_live_gate, artifact_paths, validate_samples, validate_daemon_events, validate_claims,
  Artifacts, bundle_artifacts, validate_artifacts, validate_behavior, validate_partial_behavior,
  validate_observe_behavior, validate_bundle,
}

require_text-eq-ok :
    (data_ : JsonObject) (name context : String) {s : String}
    → require_text data_ name context ≡ ok s
    → get data_ name ≡ str s
unfolding require_text
require_text-eq-ok data_ name context h = text_or-eq-ok live_behavior_error (get data_ name) _ h

require_bool-eq-ok :
    (data_ : JsonObject) (name context : String) {b : Bool}
    → require_bool data_ name context ≡ ok b
    → get data_ name ≡ bool b
unfolding require_bool
require_bool-eq-ok data_ name context h = bool_as-eq-ok live_behavior_error (get data_ name) _ h

text_is :
    (data_ : JsonObject) (name context t m : String) {s : String}
    → require_text data_ name context ≡ ok s
    → ensure (str_eq s t) m ≡ ok tt
    → get data_ name ≡ str t
text_is data_ name context t m {s} read compared =
    require_text-eq-ok data_ name context read
    ∙ ap str ((eq_iff s t).0 (guard-eq-ok live_behavior_error _ m compared))

flag_is_on :
    (data_ : JsonObject) (name context m : String) {b : Bool}
    → require_bool data_ name context ≡ ok b
    → ensure b m ≡ ok tt
    → get data_ name ≡ bool true
flag_is_on data_ name context m {b} read on =
    require_bool-eq-ok data_ name context read ∙ ap bool (guard-eq-ok live_behavior_error b m on)

-- The gate of a live run.
pub record LiveGate (summary : JsonObject) : Type 0 where
  pub mode_stands : get summary "evidence_mode" ≡ str "vm-live"
  pub vm_kind_stands : get summary "vm_kind" ≡ str "qemu-vm"
  pub marker_is_present : get summary "vm_marker_present" ≡ bool true
  pub marker_path_stands : get summary "vm_marker_path" ≡ str vm_marker
  pub rollback_passed : get summary "rollback_result" ≡ str "PASS"

validate_vm_live_gate-LiveGate :
    (summary : JsonObject) → validate_vm_live_gate summary ≡ ok tt → LiveGate summary
unfolding validate_vm_live_gate
validate_vm_live_gate-LiveGate s h =
    let (mode, mode_ok, h1) = >>=-eq-ok (require_text s "evidence_mode" "bundle") _ h in
    let (mode_same, h2) = >>-eq-ok (ensure (str_eq mode "vm-live") _) _ h1 in
    let (vm, vm_ok, h3) = >>=-eq-ok (require_text s "vm_kind" "bundle") _ h2 in
    let (vm_same, h4) = >>-eq-ok (ensure (str_eq vm "qemu-vm") _) _ h3 in
    let (present, present_ok, h5) = >>=-eq-ok (require_bool s "vm_marker_present" "bundle") _ h4 in
    let (present_on, h6) = >>-eq-ok (ensure present _) _ h5 in
    let (path, path_ok, h7) = >>=-eq-ok (require_text s "vm_marker_path" "bundle") _ h6 in
    let (path_same, h8) = >>-eq-ok (ensure (str_eq path vm_marker) _) _ h7 in
    let (rollback, rollback_ok, h9) = >>=-eq-ok (require_text s "rollback_result" "bundle") _ h8 in
    record {
      mode_stands = text_is s "evidence_mode" _ _ _ mode_ok mode_same;
      vm_kind_stands = text_is s "vm_kind" _ _ _ vm_ok vm_same;
      marker_is_present = flag_is_on s "vm_marker_present" _ _ present_ok present_on;
      marker_path_stands = text_is s "vm_marker_path" _ _ _ path_ok path_same;
      rollback_passed = text_is s "rollback_result" _ _ _ rollback_ok h9;
    }

pub record ClaimsOk (summary : JsonObject) : Type 0 where
  pub schema_stands : get summary "schema" ≡ str summary_schema
  pub status_stands : get summary "status" ≡ str "PASS"
  pub no_mutation : get summary "host_mutation" ≡ bool false
  pub gate : LiveGate summary

validate_claims-ClaimsOk : (s : JsonObject) → validate_claims s ≡ ok tt → ClaimsOk s
unfolding validate_claims
validate_claims-ClaimsOk s h =
    let (schema, schema_ok, h1) = >>=-eq-ok (require_text s "schema" "bundle") _ h in
    let (schema_same, h2) = >>-eq-ok (ensure (str_eq schema summary_schema) _) _ h1 in
    let (status, status_ok, h3) = >>=-eq-ok (require_text s "status" "bundle") _ h2 in
    let (status_same, h4) = >>-eq-ok (ensure (str_eq status "PASS") _) _ h3 in
    let (mutation, mutation_ok, h5) = >>=-eq-ok (require_bool s "host_mutation" "bundle") _ h4 in
    let (mutation_off, gate) = >>-eq-ok (ensure (not mutation) _) _ h5 in
    record {
      schema_stands = text_is s "schema" _ _ _ schema_ok schema_same;
      status_stands = text_is s "status" _ _ _ status_ok status_same;
      no_mutation =
          require_bool-eq-ok s "host_mutation" _ mutation_ok
          ∙ ap bool (refuted_by live_behavior_error mutation _ mutation_off);
      gate = validate_vm_live_gate-LiveGate s gate;
    }

-- The artifacts of an accepted bundle, each accepted by its own checker.
pub record NestedOk (w : World) (a : Artifacts) : Type 0 where
  pub partial_ok : AcceptedPartial w a.partial
  pub observe_ok : AcceptedObservation w a.observe
  pub samples_ok : AcceptedFile w a.samples
  pub ledger_ok : AcceptedLedger w a.ledger

validate_artifacts-NestedOk :
    (w : World) (a : Artifacts) → validate_artifacts w a ≡ ok tt → NestedOk w a
unfolding validate_artifacts
validate_artifacts-NestedOk w a h =
    let (partial, h1) = >>-eq-ok (Partial.validate_evidence w a.partial) _ h in
    let (observe, h2) = >>-eq-ok (Observe.validate_observe w a.observe) _ h1 in
    let (samples, ledger) = >>-eq-ok (Core.validate_file w a.samples) _ h2 in
    record {
      partial_ok = validate_evidence-AcceptedPartial w a.partial partial;
      observe_ok = validate_observe-AcceptedObservation w a.observe observe;
      samples_ok = validate_file-AcceptedFile w a.samples samples;
      ledger_ok = validate_ledger-AcceptedLedger w a.ledger ledger;
    }

-- What the artifacts show together.
pub record BehaviorOk (w : World) (a : Artifacts) : Type 0 where
  pub observe_summary : JsonObject
  pub rows : List JsonObject
  pub daemon_rows : List JsonObject
  pub observe_loaded : load_object w a.observe ≡ ok observe_summary
  pub rows_loaded : load_jsonl w a.samples ≡ ok rows
  pub samples_ok : SamplesOk rows observe_summary
  pub daemon_loaded : load_jsonl w a.daemon_events ≡ ok daemon_rows
  pub no_mutation : All (λ row. get row "host_mutation" ≡ bool false) daemon_rows

each_false :
    (rows : List JsonObject) (m : String)
    → All (λ row. ensure (is_false (get row "host_mutation")) m ≡ ok tt) rows
    → All (λ row. get row "host_mutation" ≡ bool false) rows
each_false [] m h = tt
each_false (row ∷ rows) m h = (required_false live_behavior_error _ m h.0, each_false rows m h.1)

daemon_no_mutation :
    (rows : List JsonObject)
    → validate_daemon_events rows ≡ ok tt
    → All (λ row. get row "host_mutation" ≡ bool false) rows
unfolding validate_daemon_events
daemon_no_mutation rows h =
    each_false rows _ (for_each-eq-ok rows _ (>>-eq-ok (for_each rows _) _ h).0)

validate_behavior-BehaviorOk :
    (w : World) (a : Artifacts) → validate_behavior w a ≡ ok tt → BehaviorOk w a
unfolding validate_behavior
validate_behavior-BehaviorOk w a h =
    let (partial, _, h1) = >>=-eq-ok (load_object w a.partial) _ h in
    let (_, h2) = >>-eq-ok (validate_partial_behavior partial) _ h1 in
    let (observe, observe_ok, h3) = >>=-eq-ok (load_object w a.observe) _ h2 in
    let (_, h4) = >>-eq-ok (validate_observe_behavior observe) _ h3 in
    let (rows, rows_ok, h5) = >>=-eq-ok (load_jsonl w a.samples) _ h4 in
    let (samples, h6) = >>-eq-ok (validate_samples rows observe) _ h5 in
    let (daemon_rows, daemon_ok, h7) = >>=-eq-ok (load_jsonl w a.daemon_events) _ h6 in
    record {
      observe_summary = observe;
      rows = rows;
      daemon_rows = daemon_rows;
      observe_loaded = observe_ok;
      rows_loaded = rows_ok;
      samples_ok = validate_samples-SamplesOk rows observe samples;
      daemon_loaded = daemon_ok;
      no_mutation = daemon_no_mutation daemon_rows h7;
    }

pub record AcceptedBundle (w : World) (path : FilePath) : Type 0 where
  pub summary : JsonObject
  pub artifacts : Artifacts
  pub loaded : load_object w path ≡ ok summary
  pub claims : ClaimsOk summary
  pub named : ArtifactsNamed summary artifacts
  pub nested : NestedOk w artifacts
  pub behavior : BehaviorOk w artifacts

-- An accepted bundle is a PASS of a live run in a QEMU VM with its marker, that mutated no host and
-- rolled back; its `artifact_paths` name its artifacts by the ends of their paths, and four of them are
-- accepted by their own checkers: the partial attach, the
-- observation, the samples and the ledger, in the senses of `AcceptedPartial`, `AcceptedObservation`,
-- `AcceptedFile` and `AcceptedLedger`; its samples are as `SamplesOk` says: the minimal policy runs in
-- some sample between the first and the last, and neither in the first nor in the last, and from the
-- first to the last the fact `nr_rejected` and the counters nr_rejected, dispatch_failed, fallback and
-- fatal of the events did not grow where both show them; and its daemon events mutate no host.
pub validate_bundle-AcceptedBundle :
    (w : World) (path : FilePath) → validate_bundle w path ≡ ok tt → AcceptedBundle w path
unfolding validate_bundle
validate_bundle-AcceptedBundle w path h =
    let (summary, loaded, h1) = >>=-eq-ok (load_object w path) _ h in
    let (claims, h2) = >>-eq-ok (validate_claims summary) _ h1 in
    let (paths, paths_read, h3) = >>=-eq-ok (artifact_paths w summary) _ h2 in
    let (artifacts, found, h4) = >>=-eq-ok (bundle_artifacts paths) _ h3 in
    let (nested, behavior) = >>-eq-ok (validate_artifacts w artifacts) _ h4 in
    record {
      summary = summary;
      artifacts = artifacts;
      loaded = loaded;
      claims = validate_claims-ClaimsOk summary claims;
      named = bundle_artifacts-ArtifactsNamed w summary paths paths_read found;
      nested = validate_artifacts-NestedOk w artifacts nested;
      behavior = validate_behavior-BehaviorOk w artifacts behavior;
    }
