-- ===== src/Live/Observe/Named.antt =====
-- qa/lab_summary_observe.py, `safe_path` and `sibling_path`: the files that a summary names.
use exasphere.Base.{
  ◌≡◌, sym, subst, ok_injective, drop_value, true, String, ok, guard-eq-ok, >>-eq-ok, >>=-eq-ok,
  observe_summary_error,
}
use exasphere.Json.{str, JsonObject, get}
use exasphere.World.{World, FilePath, path_of, parent, same_path}
use exasphere.Checks.Laws.{text_or-eq-ok}
use exasphere.Live.Observe.{ensure, require_string, safe_path, sibling_path, observe_paths, Paths}

pub require_string-eq-ok :
    (data_ : JsonObject) (name context : String) {s : String}
    → require_string data_ name context ≡ ok s
    → get data_ name ≡ str s
unfolding require_string
require_string-eq-ok data_ name context h = text_or-eq-ok observe_summary_error (get data_ name) _ h

-- The file that a field of the summary names.
pub record Names (summary : JsonObject) (name : String) (path : FilePath) : Type 0 where
  pub raw : String
  pub stands : get summary name ≡ str raw
  pub is_its_path : path ≡ path_of raw

safe_path-Names :
    (w : World) (summary : JsonObject) (name : String) {path : FilePath}
    → safe_path w summary name ≡ ok path
    → Names summary name path
unfolding safe_path
safe_path-Names w summary name h =
    let (raw, raw_ok, h1) = >>=-eq-ok (require_string summary name "observe") _ h in
    let (_, same) = >>-eq-ok (ensure _ _) _ h1 in
    record {
      raw = raw;
      stands = require_string-eq-ok summary name _ raw_ok;
      is_its_path = sym (ok_injective same);
    }

-- The file lies beside the summary.
pub record Beside (summary : JsonObject) (name : String) (summary_path path : FilePath)
    : Type 0 where
  pub named : Names summary name path
  pub same_directory : same_path (parent path) (parent summary_path) ≡ true

sibling_path-Beside :
    (w : World) (summary_path : FilePath) (summary : JsonObject) (name : String) {path : FilePath}
    → sibling_path w summary_path summary name ≡ ok path
    → Beside summary name summary_path path
unfolding sibling_path
sibling_path-Beside w summary_path summary name h =
    let (path, path_ok, h1) = >>=-eq-ok (safe_path w summary name) _ h in
    let (beside, same) = >>-eq-ok (ensure (same_path (parent path) (parent summary_path)) _) _ h1 in
    subst (λ found. Beside summary name summary_path found) (ok_injective same)
      (record {
        named = safe_path-Names w summary name path_ok;
        same_directory = guard-eq-ok observe_summary_error _ _ beside;
      })

-- The files of an observation are those that its fields name.
pub record PathsOk (summary : JsonObject) (path : FilePath) (paths : Paths) : Type 0 where
  pub samples : Beside summary "runtime_samples" path paths.samples
  pub ledger : Names summary "audit_ledger" paths.ledger
  pub daemon_events : Beside summary "daemon_runtime_events" path paths.daemon_events

pub observe_paths-PathsOk :
    (w : World) (path : FilePath) (summary : JsonObject) {paths : Paths}
    → observe_paths w path summary ≡ ok paths
    → PathsOk summary path paths
unfolding observe_paths
observe_paths-PathsOk w path summary h =
    let (samples, samples_ok, h1) = >>=-eq-ok (sibling_path w path summary "runtime_samples") _ h in
    let (ledger, ledger_ok, h2) = >>=-eq-ok (safe_path w summary "audit_ledger") _ h1 in
    let (_, h3) = >>-eq-ok (drop_value (sibling_path w path summary "transcript")) _ h2 in
    let (events, events_ok, h4) =
      >>=-eq-ok (sibling_path w path summary "daemon_runtime_events") _ h3 in
    subst (λ paths. PathsOk summary path paths) (ok_injective h4)
      (record {
        samples = sibling_path-Beside w path summary _ samples_ok;
        ledger = safe_path-Names w summary _ ledger_ok;
        daemon_events = sibling_path-Beside w path summary _ events_ok;
      })
