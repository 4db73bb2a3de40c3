-- ===== src/Live/Freshness.antt =====
-- qa/live_bundle_freshness_check.py: a bundle is of the current commit, object and run. The current
-- commit, object digest and snapshot, which the program asks git and the build for, are arguments.
pub mod Laws
use exasphere.Base.{
  Bool, true, false, ◌&&◌, not, Option, none, some, List, [], ◌∷◌, String, str_eq, if◌then◌else◌,
  Result, ok, raise, guard, ◌>>=◌, ◌>>◌, ◌<>◌, os_error, freshness_error, value_error,
  recursion_error,
}
use exasphere.Text.{codes, in_table, contains}
use exasphere.Json.{ℤ, JsonValue, str, arr, JsonObject, get, is_true, as_int}
use exasphere.World.{
  World, FilePath, path_of, path_text, parts, is_absolute, parent, child, same_path, Reading, found,
  missing, fault, Decoded, decoded, undecodable, too_long, too_deep,
}
use exasphere.Checks.{text_or, bool_as, object_as}

abbrev pub fail {ℓ} : {A : Type ℓ} → String → Result A
fail = raise freshness_error

abbrev pub ensure : Bool → String → Result (Unit {0})
ensure = guard freshness_error

decoded_object : FilePath → Decoded → Result JsonObject
decoded_object path (undecodable exc) =
    fail ("invalid JSON file: " <> path_text path <> ": " <> exc)
decoded_object path (too_long exc) = raise value_error exc
decoded_object path (too_deep exc) = raise recursion_error exc
decoded_object path (decoded raw) =
    object_as freshness_error raw ("JSON root must be object: " <> path_text path)

unfoldable pub load_object : World → FilePath → Result JsonObject
unfolding decoded_object
load_object w path = elim (w.read_text path) [
  | missing ↦ fail ("missing JSON file: " <> path_text path)
  | fault exc ↦ raise os_error exc
  | found content ↦ decoded_object path (w.loads content)
]

unfoldable pub require_text : JsonObject → String → Result String
require_text data_ name = text_or freshness_error (get data_ name) ("missing text field: " <> name)

unfoldable pub require_bool : JsonObject → String → Result Bool
require_bool data_ name = bool_as freshness_error (get data_ name) ("missing bool field: " <> name)

unfoldable pub require_object : JsonObject → String → Result JsonObject
require_object data_ name =
    object_as freshness_error (get data_ name) ("missing object field: " <> name)

unfoldable pub require_equal : String → String → String → Result (Unit {0})
require_equal value expected name = ensure (str_eq value expected) (name <> " mismatch")

-- `require_equal(require_text(data, field), expected, name)`
unfoldable pub text_equals : JsonObject → String → String → String → Result (Unit {0})
text_equals data_ name expected words = do
  value ← require_text data_ name
  require_equal value expected words

unfoldable pub load_manifest_provenance : World → FilePath → Result JsonObject
load_manifest_provenance w bundle_path = do
  manifest ← load_object w (child (parent (parent bundle_path)) "manifest-provenance.json")
  text_equals manifest "schema" "zig-scheduler/task-09-provenance/v1" "manifest schema"
  ok manifest

-- What the provenance beside the bundle says of the snapshot.
unfoldable pub snapshot_provenance :
    World → JsonObject → FilePath → String → String → Result (Unit {0})
snapshot_provenance w summary bundle_path current_git_sha snapshot_sha = do
  text_equals summary "dirty_tree_snapshot_sha256" snapshot_sha "dirty_tree_snapshot_sha256"
  provenance ← load_manifest_provenance w bundle_path
  text_equals provenance "dirty_tree_snapshot_sha256" snapshot_sha
      "manifest dirty_tree_snapshot_sha256"
  text_equals provenance "repo_head" current_git_sha "manifest repo_head"
  text_equals provenance "status" "PASS" "manifest status"
  dirty ← require_bool provenance "git_dirty"
  ensure dirty "manifest git_dirty must be true for dirty bundle"
  copied ← require_text provenance "copied_bundle_summary"
  ensure (same_path (path_of copied) bundle_path) "manifest copied_bundle_summary mismatch"

unfoldable pub validate_dirty_snapshot :
    World → JsonObject → FilePath → String → Option String → Result (Unit {0})
validate_dirty_snapshot w summary bundle_path current_git_sha none =
    fail "bundle was generated from a dirty worktree"
validate_dirty_snapshot w summary bundle_path current_git_sha (some snapshot_sha) =
    snapshot_provenance w summary bundle_path current_git_sha snapshot_sha

abbrev pub begins : List String → List String → Bool
begins [] names = true
begins (s ∷ ss) [] = false
begins (s ∷ ss) (t ∷ ts) = str_eq s t && begins ss ts

-- `bundle_root in (path, *path.parents)`
abbrev pub is_inside : FilePath → FilePath → Bool
is_inside bundle_root path =
    str_eq bundle_root.root path.root && begins bundle_root.names path.names

unfoldable pub scan_text : World → FilePath → Result String
scan_text w path = elim (w.read_replaced path) [
  | missing ↦ raise os_error (path_text path)
  | fault exc ↦ raise os_error exc
  | found content ↦ ok content
]

unfoldable pub validate_qemu_scan : World → JsonValue → FilePath → String → Result (Unit {0})
validate_qemu_scan w value bundle_root name = do
  raw ← text_or freshness_error value ("cleanup missing process scan: " <> name)
  let path = path_of raw
  ensure (not (is_absolute path) && not (in_table ".." (parts path)) && w.exists path)
      ("cleanup process scan path is unsafe or missing: " <> name)
  ensure (is_inside bundle_root path) ("cleanup process scan must be inside bundle: " <> name)
  content ← scan_text w path
  ensure (not (contains (codes "zig-scheduler-microvm-live-lab") (codes content)))
      ("cleanup process scan still contains lab qemu process: " <> name)

abbrev is_full_text : JsonValue → Bool
is_full_text (str s) = not (str_eq s "")
is_full_text _ = false

abbrev is_some : Option ℤ → Bool
is_some none = false
is_some (some z) = true

abbrev is_list : JsonValue → Bool
is_list (arr vs) = true
is_list _ = false

unfoldable pub validate_cleanup : World → JsonObject → FilePath → Result (Unit {0})
validate_cleanup w cleanup bundle_root = do
  ensure (is_true (get cleanup "temp_dirs_removed")) "cleanup missing temp dir removal receipt"
  ensure (is_true (get cleanup "process_group_reaped")) "cleanup missing process group receipt"
  ensure (is_full_text (get cleanup "timeout_pid")) "cleanup missing timeout pid receipt"
  ensure (is_some (as_int (get cleanup "timeout_rc"))) "cleanup missing timeout rc receipt"
  validate_qemu_scan w (get cleanup "qemu_process_scan_before") bundle_root
      "qemu_process_scan_before"
  validate_qemu_scan w (get cleanup "qemu_process_scan_after") bundle_root "qemu_process_scan_after"
  ensure (is_list (get cleanup "tmux_sessions_after")) "cleanup missing tmux session scan"

unfoldable pub validate_fresh_bundle :
    World → FilePath → String → String → Option String → Result (Unit {0})
validate_fresh_bundle w path current_git_sha current_bpf_sha current_dirty_snapshot_sha = do
  summary ← load_object w path
  text_equals summary "schema" "zig-scheduler/run-all-lab/v1" "schema"
  text_equals summary "status" "PASS" "status"
  text_equals summary "evidence_mode" "vm-live" "evidence_mode"
  text_equals summary "git_sha" current_git_sha "git_sha"
  text_equals summary "bpf_object_sha256" current_bpf_sha "bpf_object_sha256"
  dirty ← require_bool summary "git_dirty"
  if dirty
      then validate_dirty_snapshot w summary path current_git_sha current_dirty_snapshot_sha
      else ok tt
  host_mutation ← require_bool summary "host_mutation"
  ensure (not host_mutation) "host_mutation must be false"
  fresh ← require_bool summary "output_dir_created_fresh"
  ensure fresh "output directory was reused"
  output_dir ← require_text summary "output_dir"
  ensure (same_path (path_of output_dir) (parent path)) "output_dir must match summary parent"
  cleanup ← require_object summary "cleanup"
  validate_cleanup w cleanup (parent path)
