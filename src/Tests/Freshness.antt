-- ===== src/Tests/Freshness.antt =====
-- A fresh bundle of a dirty tree, with the provenance of its snapshot.
use exasphere.Text
use exasphere.Live.Freshness
use exasphere.Checks
use exasphere.Base.{◌≡◌, refl, true, false, some, str_eq, if◌then◌else◌, ok, guard}
use exasphere.Json.{pos, bool, int, str, arr, nil, obj, JsonObject, end, field, get}
use exasphere.World.{parsed, World, path_of, name_of, found, missing, decoded}
use exasphere.Live.Freshness.{validate_fresh_bundle}
use exasphere.Live.Freshness.Laws.{FreshBundle, validate_fresh_bundle-FreshBundle}

abbrev cleanup : JsonObject
cleanup = field "qemu_process_scan_before" (str "r/x/before.txt") (
    field "qemu_process_scan_after" (str "r/x/after.txt") (
      field "tmux_sessions_after" (arr nil) (
        field "timeout_pid" (str "foreground") (
          field "timeout_rc" (int (pos 0)) (
            field "process_group_reaped" (bool true)
              (field "temp_dirs_removed" (bool true) end))))))

abbrev summary : JsonObject
summary = field "schema" (str "zig-scheduler/run-all-lab/v1") (
    field "status" (str "PASS") (
      field "evidence_mode" (str "vm-live") (
        field "git_dirty" (bool true) (
          field "git_sha" (str "f0") (
            field "bpf_object_sha256" (str "a0") (
              field "dirty_tree_snapshot_sha256" (str "d0") (
                field "output_dir" (str "r/x") (
                  field "output_dir_created_fresh" (bool true)
                    (field "cleanup" (obj cleanup) (field "host_mutation" (bool false) end))))))))))

abbrev provenance : JsonObject
provenance = field "schema" (str "zig-scheduler/task-09-provenance/v1") (
    field "status" (str "PASS") (
      field "repo_head" (str "f0") (
        field "git_dirty" (bool true) (
          field "dirty_tree_snapshot_sha256" (str "d0")
            (field "copied_bundle_summary" (str "r/x/summary.json") end)))))

abbrev fresh_run : World
fresh_run = record {
  read_text = λ p. found (name_of p);
  read_replaced = λ p. found "no process";
  read_lines = λ p. missing;
  sha256 = λ p. missing;
  is_file = λ p. true;
  exists = λ p. true;
  resolve = λ p. p;
  dumps = λ fs. "";
  loads = λ s. decoded (obj (if str_eq s "summary.json" then summary else provenance));
  loads_strict =
      λ s. parsed (decoded (obj (if str_eq s "summary.json" then summary else provenance)));
  is_word = λ c. true;
}

fresh_runs :
    validate_fresh_bundle fresh_run (path_of "r/x/summary.json") "f0" "a0" (some "d0") ≡ ok tt
unfolding validate_fresh_bundle Freshness.load_object Checks.object_as Freshness.text_equals
    Freshness.require_text Checks.text_or get path_of Freshness.require_equal guard
    Freshness.require_bool Checks.bool_as Freshness.validate_dirty_snapshot
    Freshness.snapshot_provenance Freshness.load_manifest_provenance Freshness.require_object
    Freshness.validate_cleanup Freshness.validate_qemu_scan Freshness.scan_text Text.contains
    Text.codes
fresh_runs = refl

validate_fresh_bundle-FreshBundle_example :
    FreshBundle fresh_run (path_of "r/x/summary.json") "f0" "a0" (some "d0")
validate_fresh_bundle-FreshBundle_example =
    validate_fresh_bundle-FreshBundle fresh_run (path_of "r/x/summary.json") "f0" "a0" (some "d0")
      fresh_runs
