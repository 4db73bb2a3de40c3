-- ===== src/Matrix/Backend.antt =====
-- qa/matrix_run_live_backend.py: the summary of the live backend that a PASS row rests on.
pub mod Laws
use exasphere.Base.{
  Bool, true, false, ◌&&◌, ◌||◌, not, List, [], ◌∷◌, String, str_eq, if◌then◌else◌, Error,
  ErrorKind, Result, ok, err, raise, ◌>>=◌, ◌>>◌, ◌<>◌, matrix_run_contract_error,
  live_behavior_error,
}
use exasphere.Text.{codes, is_prefix}
use exasphere.Json.{JsonValue, str, JsonObject, get, is_true, is_false}
use exasphere.World.{World, FilePath, path_of, path_text, parent, child, same_path}
use exasphere.Checks.{text_or}
use exasphere.Live.Bundle.{validate_bundle}
use exasphere.Matrix.Values.{require, object, text, load_json}

-- `except LiveBehaviorError as exc: raise MatrixRunContractError(...)`. The errors of the checkers that
-- `validate_bundle` calls are of other classes, and pass.
abbrev bundle_error : String → ErrorKind → String → Error
bundle_error context live_behavior_error message = record {
  kind = matrix_run_contract_error;
  message = context <> " live backend summary failed nested live behavior validation: " <> message;
}
bundle_error context k message = record { kind = k; message = message }

unfoldable pub convert_bundle_error : String → Result (Unit {0}) → Result (Unit {0})
convert_bundle_error context (ok tt) = ok tt
convert_bundle_error context (err e) = err (bundle_error context e.kind e.message)

-- `isinstance(live_git_sha, str) and live_git_sha and not live_git_sha.startswith(actual_sha)`
unfoldable pub is_stale : JsonValue → String → Bool
unfolding codes
is_stale (str sha) actual_sha =
    not (str_eq sha "") && not (is_prefix (codes actual_sha) (codes sha))
is_stale _ actual_sha = false

-- The checks of a row that passes in a live run.
unfoldable pub backend_summary : World → JsonObject → FilePath → String → Result (Unit {0})
unfolding is_stale
backend_summary w row artifact_path context = do
  let backend = child (parent artifact_path) "backend"
  let backend_summary_path = child backend "summary.json"
  require (w.is_file backend_summary_path)
      (context <> " live-backend PASS row is missing backend summary artifact")
  summary ← load_json w backend_summary_path
  schema ← text (get summary "schema") (context <> ".backend_summary.schema")
  require (str_eq schema "zig-scheduler/vm-backend-run/v1")
      (context <> " backend summary schema must be vm-backend-run/v1")
  status ← text (get summary "status") (context <> ".backend_summary.status")
  require (str_eq status "PASS") (context <> " backend summary must be PASS")
  require (is_false (get summary "host_mutation"))
      (context <> " backend summary host_mutation must be false")
  live_summary_value ←
      text_or matrix_run_contract_error (get summary "live_summary")
        (context <> " live-backend PASS row requires backend/live/summary.json live summary path")
  let live_summary_path = path_of live_summary_value
  require (same_path live_summary_path (child (child backend "live") "summary.json"))
      (context <> " live summary must point to the canonical backend/live/summary.json bundle")
  require (w.is_file live_summary_path)
      (context <> " live summary bundle is missing: " <> path_text live_summary_path)
  live_summary ← load_json w live_summary_path
  require (not (is_true (get live_summary "git_dirty")))
      (context <> " dirty live backend summary cannot back a PASS vm-live matrix row")
  git ← object (get row "git") (context <> ".git")
  actual_sha ← text (get git "actual_sha") (context <> ".git.actual_sha")
  require (not (is_stale (get live_summary "git_sha") actual_sha))
      (context <> " stale live backend summary cannot back a PASS vm-live matrix row")
  convert_bundle_error context (validate_bundle w live_summary_path)

unfoldable pub validate_live_backend_summary_consistency :
    World → JsonObject → FilePath → String → Result (Unit {0})
validate_live_backend_summary_consistency w row artifact_path context = do
  scenario_id ← text (get row "scenario_id") (context <> ".scenario_id")
  if not (str_eq scenario_id "live-backend") then ok tt else do
    outcome ← text (get row "outcome") (context <> ".outcome")
    evidence_mode ← text (get row "evidence_mode") (context <> ".evidence_mode")
    if not (str_eq outcome "PASS") || not (str_eq evidence_mode "vm-live")
        then ok tt
        else backend_summary w row artifact_path context
