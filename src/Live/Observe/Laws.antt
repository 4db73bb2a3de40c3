-- ===== src/Live/Observe/Laws.antt =====
-- What an accepted summary of an observation promises.
use exasphere.Base.{
  ◌≡◌, refl, ap, ◌∙◌, Bool, true, false, ◌&&◌, ◌||◌, not, List, String, str_eq, ok, err,
  guard-eq-ok, >>-eq-ok, >>=-eq-ok, all, any, length, ltb, arith, observe_summary_error, Result,
}
use exasphere.Text.{in_table}
use exasphere.Json.{ℤ, str, bool, obj, JsonObject, get, is_false}
use exasphere.Json.Equality.{value_eq}
use exasphere.World.{World, FilePath}
use exasphere.Checks.{object_as}
use exasphere.Checks.Laws.{bool_as-eq-ok, object_as-eq-ok, refuted_by}
use exasphere.Sample.Core
use exasphere.Sample.Core.Laws.{AcceptedFile, validate_file-AcceptedFile}
use exasphere.Ledger.Laws.{AcceptedLedger, validate_ledger-AcceptedLedger}
use exasphere.Live.Observe.Named.{PathsOk, require_string-eq-ok, observe_paths-PathsOk}
use exasphere.Live.Observe.{
  ensure, summary_schema, load_object, load_jsonl, require_string, require_bool, require_int,
  observe_paths, validate_links, convert_link_error, workload_execution_passed, present_fact,
  same_bool, counts, all_alive, validate_sample_series, validate_daemon_events, validate_snapshot,
  evidence_modes, validate_claims, Paths, validate_observe,
}

require_bool-eq-ok :
    (data_ : JsonObject) (name context : String) {b : Bool}
    → require_bool data_ name context ≡ ok b
    → get data_ name ≡ bool b
unfolding require_bool
require_bool-eq-ok data_ name context h = bool_as-eq-ok observe_summary_error (get data_ name) _ h

-- No observation proves a release, whatever its mode.
no_release :
    (summary : JsonObject)
    → validate_claims summary ≡ ok tt
    → get summary "release_eligible_live_proof" ≡ bool false
unfolding validate_claims
no_release s h =
    let (schema, _, h1) = >>=-eq-ok (require_string s "schema" "observe") _ h in
    let (_, h2) = >>-eq-ok (ensure (str_eq schema summary_schema) _) _ h1 in
    let (mode, _, h3) = >>=-eq-ok (require_string s "evidence_mode" "observe") _ h2 in
    let (_, h4) = >>-eq-ok (ensure (in_table mode evidence_modes) _) _ h3 in
    let (release, release_ok, h5) =
      >>=-eq-ok (require_bool s "release_eligible_live_proof" "observe") _ h4 in
    let (_, off) = >>-eq-ok (ensure (not (not (str_eq mode "vm-live") && release)) _) _ h5 in
    require_bool-eq-ok s "release_eligible_live_proof" _ release_ok
    ∙ ap bool (refuted_by observe_summary_error release _ off)

convert_link_error-eq-ok : (m : Result (Unit {0})) → convert_link_error m ≡ ok tt → m ≡ ok tt
unfolding convert_link_error
convert_link_error-eq-ok (ok tt) h = refl
convert_link_error-eq-ok (err e) h = cc

links :
    (w : World) (samples ledger : FilePath)
    → validate_links w samples ledger ≡ ok tt
    → AcceptedFile w samples × AcceptedLedger w ledger
unfolding validate_links
links w samples ledger h =
    let both = convert_link_error-eq-ok _ h in
    let (samples_ok, ledger_ok) = >>-eq-ok (Core.validate_file w samples) _ both in
    (
      validate_file-AcceptedFile w samples samples_ok,
      validate_ledger-AcceptedLedger w ledger ledger_ok,
    )

-- The samples of an observation.
pub record ObservedSeries (w : World) (summary : JsonObject) (samples : FilePath) (count : ℤ)
    : Type 0 where
  pub rows : List JsonObject
  pub claimed : Bool
  pub loaded : load_jsonl w samples ≡ ok rows
  pub enough : ltb (length rows) 3 ≡ false
  pub counted : counts count (length rows) ≡ true
  pub shows_policy :
      any (λ row. value_eq (get row "ops") (present_fact "zigsched_minimal")) rows ≡ true
  pub nothing_private : all (λ row. is_false (get row "private_command_lines_sampled")) rows ≡ true
  pub alive_stands : get summary "workload_alive_all_samples" ≡ bool claimed
  pub alive_is_true : same_bool claimed (all_alive rows) ≡ true
  pub alive : (all_alive rows || workload_execution_passed summary) ≡ true

enough_and_counted : (a b : Bool) → (not a && b) ≡ true → (a ≡ false) × (b ≡ true)
enough_and_counted a b h = ground arith

series-ObservedSeries :
    (w : World) (summary : JsonObject) (samples : FilePath) (count : ℤ)
    → validate_sample_series w summary samples count ≡ ok tt
    → ObservedSeries w summary samples count
unfolding validate_sample_series
series-ObservedSeries w summary samples count h =
    let k = observe_summary_error in
    let (rows, loaded, h1) = >>=-eq-ok (load_jsonl w samples) _ h in
    let (size, h2) =
      >>-eq-ok (ensure (not (ltb (length rows) 3) && counts count (length rows)) _) _ h1 in
    let (shows, h3) =
      >>-eq-ok
        (ensure (any (λ row. value_eq (get row "ops") (present_fact "zigsched_minimal")) rows) _) _
        h2 in
    let (private_, h4) =
      >>-eq-ok (ensure (all (λ row. is_false (get row "private_command_lines_sampled")) rows) _) _
        h3 in
    let (claimed, claimed_ok, h5) =
      >>=-eq-ok (require_bool summary "workload_alive_all_samples" "observe") _ h4 in
    let (same, alive) = >>-eq-ok (ensure (same_bool claimed (all_alive rows)) _) _ h5 in
    let (enough, counted) = enough_and_counted (ltb (length rows) 3) _ (guard-eq-ok k _ _ size) in
    record {
      rows = rows;
      claimed = claimed;
      loaded = loaded;
      enough = enough;
      counted = counted;
      shows_policy = guard-eq-ok k _ _ shows;
      nothing_private = guard-eq-ok k _ _ private_;
      alive_stands = require_bool-eq-ok summary "workload_alive_all_samples" _ claimed_ok;
      alive_is_true = guard-eq-ok k _ _ same;
      alive = guard-eq-ok k _ _ alive;
    }

-- The snapshot of the scheduler agrees with the final state and the final policy.
pub record SnapshotOk (summary : JsonObject) : Type 0 where
  pub snapshot : JsonObject
  pub final_state : String
  pub final_ops : String
  pub snapshot_stands : get summary "scheduler_snapshot" ≡ obj snapshot
  pub state_stands : get summary "final_state" ≡ str final_state
  pub ops_stand : get summary "final_ops" ≡ str final_ops
  pub restored : get summary "final_state_disabled_or_rolled_back" ≡ bool true
  pub same_state : value_eq (get snapshot "state") (present_fact final_state) ≡ true
  pub same_ops : value_eq (get snapshot "root_ops") (present_fact final_ops) ≡ true

validate_snapshot-SnapshotOk : (s : JsonObject) → validate_snapshot s ≡ ok tt → SnapshotOk s
unfolding validate_snapshot
validate_snapshot-SnapshotOk s h =
    let k = observe_summary_error in
    let (snapshot, snapshot_ok, h1) = >>=-eq-ok (object_as k (get s "scheduler_snapshot") _) _ h in
    let (state, state_ok, h2) = >>=-eq-ok (require_string s "final_state" "observe") _ h1 in
    let (ops, ops_ok, h3) = >>=-eq-ok (require_string s "final_ops" "observe") _ h2 in
    let (restored, restored_ok, h4) =
      >>=-eq-ok (require_bool s "final_state_disabled_or_rolled_back" "observe") _ h3 in
    let (on, h5) = >>-eq-ok (ensure restored _) _ h4 in
    let (same_state, same_ops) =
      >>-eq-ok (ensure (value_eq (get snapshot "state") (present_fact state)) _) _ h5 in
    record {
      snapshot = snapshot;
      final_state = state;
      final_ops = ops;
      snapshot_stands = object_as-eq-ok k _ _ snapshot_ok;
      state_stands = require_string-eq-ok s "final_state" _ state_ok;
      ops_stand = require_string-eq-ok s "final_ops" _ ops_ok;
      restored =
          require_bool-eq-ok s "final_state_disabled_or_rolled_back" _ restored_ok
          ∙ ap bool (guard-eq-ok k restored _ on);
      same_state = guard-eq-ok k _ _ same_state;
      same_ops = guard-eq-ok k _ _ same_ops;
    }

pub record AcceptedObservation (w : World) (path : FilePath) : Type 0 where
  pub summary : JsonObject
  pub paths : Paths
  pub count : ℤ
  pub loaded : load_object w path ≡ ok summary
  pub no_release_proof : get summary "release_eligible_live_proof" ≡ bool false
  pub paths_ok : PathsOk summary path paths
  pub samples_ok : AcceptedFile w paths.samples
  pub ledger_ok : AcceptedLedger w paths.ledger
  pub count_read : require_int summary "sample_count" "observe" ≡ ok count
  pub series : ObservedSeries w summary paths.samples count
  pub snapshot_ok : SnapshotOk summary

-- An accepted observation is no proof of a release; the file that `runtime_samples` names, beside the
-- summary, is an accepted file of samples, and the one that `audit_ledger` names an accepted ledger, in
-- the senses of `AcceptedFile` and `AcceptedLedger`; the samples are three at least and as many as it counts, one of them shows the policy,
-- none sampled a command line, and it tells truly whether the workload was alive in all of them; and
-- the scheduler's snapshot agrees with the restored final state.
pub validate_observe-AcceptedObservation :
    (w : World) (path : FilePath) → validate_observe w path ≡ ok tt → AcceptedObservation w path
unfolding validate_observe
validate_observe-AcceptedObservation w path h =
    let (summary, loaded, h1) = >>=-eq-ok (load_object w path) _ h in
    let (claims, h2) = >>-eq-ok (validate_claims summary) _ h1 in
    let (paths, found, h3) = >>=-eq-ok (observe_paths w path summary) _ h2 in
    let (linked, h4) = >>-eq-ok (validate_links w paths.samples paths.ledger) _ h3 in
    let (count, count_ok, h5) = >>=-eq-ok (require_int summary "sample_count" "observe") _ h4 in
    let (series, h6) = >>-eq-ok (validate_sample_series w summary paths.samples count) _ h5 in
    let (_, snapshot) = >>-eq-ok (validate_daemon_events w paths.daemon_events) _ h6 in
    let (samples_ok, ledger_ok) = links w paths.samples paths.ledger linked in
    record {
      summary = summary;
      paths = paths;
      count = count;
      loaded = loaded;
      no_release_proof = no_release summary claims;
      paths_ok = observe_paths-PathsOk w path summary found;
      samples_ok = samples_ok;
      ledger_ok = ledger_ok;
      count_read = count_ok;
      series = series-ObservedSeries w summary paths.samples count series;
      snapshot_ok = validate_snapshot-SnapshotOk summary snapshot;
    }
