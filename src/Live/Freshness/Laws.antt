-- ===== src/Live/Freshness/Laws.antt =====
-- What a fresh bundle promises.
use exasphere.Base.{
  ◌≡◌, refl, arith, str_eq, sym, ap, ◌∙◌, Bool, true, false, not, Option, none, some, String,
  eq_iff, ok, guard-eq-ok, >>-eq-ok, >>=-eq-ok, freshness_error, if◌then◌else◌,
}
use exasphere.Text.{codes, contains}
use exasphere.Json.{ℤ, Items, arr, as_int, JsonValue, str, bool, obj, JsonObject, get, is_true}
use exasphere.World.{World, FilePath, path_of, parent, same_path}
use exasphere.Checks.{text_or}
use exasphere.Checks.Laws.{
  text_or-eq-ok, bool_as-eq-ok, object_as-eq-ok, refuted_by, required_true, when-eq-ok,
}
use exasphere.Live.Freshness.{
  ensure, load_object, require_text, require_bool, require_object, require_equal, text_equals,
  load_manifest_provenance, snapshot_provenance, validate_dirty_snapshot, is_inside, scan_text,
  validate_qemu_scan, is_full_text, is_some, is_list, validate_cleanup, validate_fresh_bundle,
}

require_text-eq-ok :
    (data_ : JsonObject) (name : String) {s : String}
    → require_text data_ name ≡ ok s
    → get data_ name ≡ str s
unfolding require_text
require_text-eq-ok data_ name h = text_or-eq-ok freshness_error (get data_ name) _ h

require_bool-eq-ok :
    (data_ : JsonObject) (name : String) {b : Bool}
    → require_bool data_ name ≡ ok b
    → get data_ name ≡ bool b
unfolding require_bool
require_bool-eq-ok data_ name h = bool_as-eq-ok freshness_error (get data_ name) _ h

text_equals-eq-ok :
    (data_ : JsonObject) (name expected words : String)
    → text_equals data_ name expected words ≡ ok tt
    → get data_ name ≡ str expected
unfolding text_equals require_equal
text_equals-eq-ok data_ name expected words h =
    let (value, read, same) = >>=-eq-ok (require_text data_ name) _ h in
    require_text-eq-ok data_ name read
    ∙ ap str ((eq_iff value expected).0 (guard-eq-ok freshness_error _ _ same))

-- The snapshot of a dirty tree: it is the current one, and the provenance beside the bundle names it,
-- the current commit and this bundle.
pub record SnapshotOk (w : World) (summary : JsonObject) (path : FilePath) (git_sha sha : String)
    : Type 0 where
  pub provenance : JsonObject
  pub copied : String
  pub snapshot_stands : get summary "dirty_tree_snapshot_sha256" ≡ str sha
  pub loaded : load_manifest_provenance w path ≡ ok provenance
  pub provenance_snapshot : get provenance "dirty_tree_snapshot_sha256" ≡ str sha
  pub provenance_head : get provenance "repo_head" ≡ str git_sha
  pub provenance_status : get provenance "status" ≡ str "PASS"
  pub provenance_dirty : get provenance "git_dirty" ≡ bool true
  pub copied_stands : get provenance "copied_bundle_summary" ≡ str copied
  pub copied_is_this : same_path (path_of copied) path ≡ true

snapshot_provenance-SnapshotOk :
    (w : World) (summary : JsonObject) (path : FilePath) (git_sha sha : String)
    → snapshot_provenance w summary path git_sha sha ≡ ok tt
    → SnapshotOk w summary path git_sha sha
unfolding snapshot_provenance
snapshot_provenance-SnapshotOk w summary path git_sha sha h =
    let (own, h1) = >>-eq-ok (text_equals summary "dirty_tree_snapshot_sha256" sha _) _ h in
    let (p, loaded, h2) = >>=-eq-ok (load_manifest_provenance w path) _ h1 in
    let (snapshot, h3) = >>-eq-ok (text_equals p "dirty_tree_snapshot_sha256" sha _) _ h2 in
    let (head, h4) = >>-eq-ok (text_equals p "repo_head" git_sha _) _ h3 in
    let (status, h5) = >>-eq-ok (text_equals p "status" "PASS" _) _ h4 in
    let (dirty, dirty_ok, h6) = >>=-eq-ok (require_bool p "git_dirty") _ h5 in
    let (is_dirty, h7) = >>-eq-ok (ensure dirty _) _ h6 in
    let (copied, copied_ok, same) = >>=-eq-ok (require_text p "copied_bundle_summary") _ h7 in
    record {
      provenance = p;
      copied = copied;
      snapshot_stands = text_equals-eq-ok _ _ _ _ own;
      loaded = loaded;
      provenance_snapshot = text_equals-eq-ok _ _ _ _ snapshot;
      provenance_head = text_equals-eq-ok _ _ _ _ head;
      provenance_status = text_equals-eq-ok _ _ _ _ status;
      provenance_dirty =
          require_bool-eq-ok p "git_dirty" dirty_ok
          ∙ ap bool (guard-eq-ok freshness_error dirty _ is_dirty);
      copied_stands = require_text-eq-ok p "copied_bundle_summary" copied_ok;
      copied_is_this = guard-eq-ok freshness_error _ _ same;
    }

-- A snapshot is known, and it is the bundle's.
abbrev pub KnownSnapshot : World → JsonObject → FilePath → String → Option String → Type 0
KnownSnapshot w summary path git_sha none = ⊥
KnownSnapshot w summary path git_sha (some sha) = SnapshotOk w summary path git_sha sha

validate_dirty_snapshot-KnownSnapshot :
    (w : World) (summary : JsonObject) (path : FilePath) (git_sha : String)
    (snapshot : Option String)
    → validate_dirty_snapshot w summary path git_sha snapshot ≡ ok tt
    → KnownSnapshot w summary path git_sha snapshot
unfolding validate_dirty_snapshot
validate_dirty_snapshot-KnownSnapshot w summary path git_sha none h = cc
validate_dirty_snapshot-KnownSnapshot w summary path git_sha (some sha) h =
    snapshot_provenance-SnapshotOk w summary path git_sha sha h

-- A process scan inside the bundle that shows no process of the lab.
pub record ScanOk (w : World) (value : JsonValue) (root : FilePath) : Type 0 where
  pub raw : String
  pub content : String
  pub stands : value ≡ str raw
  pub inside : is_inside root (path_of raw) ≡ true
  pub read : scan_text w (path_of raw) ≡ ok content
  pub no_process : contains (codes "zig-scheduler-microvm-live-lab") (codes content) ≡ false

validate_qemu_scan-ScanOk :
    (w : World) (value : JsonValue) (root : FilePath) (name : String)
    → validate_qemu_scan w value root name ≡ ok tt
    → ScanOk w value root
unfolding validate_qemu_scan
validate_qemu_scan-ScanOk w value root name h =
    let (raw, raw_ok, h1) = >>=-eq-ok (text_or freshness_error value _) _ h in
    let (_, h2) = >>-eq-ok (ensure _ _) _ h1 in
    let (inside, h3) = >>-eq-ok (ensure (is_inside root (path_of raw)) _) _ h2 in
    let (content, read, none_left) = >>=-eq-ok (scan_text w (path_of raw)) _ h3 in
    record {
      raw = raw;
      content = content;
      stands = text_or-eq-ok freshness_error value _ raw_ok;
      inside = guard-eq-ok freshness_error _ _ inside;
      read = read;
      no_process = refuted_by freshness_error _ _ none_left;
    }

pub record CleanupOk (w : World) (cleanup : JsonObject) (root : FilePath) : Type 0 where
  pub temp_removed : get cleanup "temp_dirs_removed" ≡ bool true
  pub group_reaped : get cleanup "process_group_reaped" ≡ bool true
  pub timeout_pid : String
  pub timeout_rc : ℤ
  pub sessions : Items
  pub pid_stands : get cleanup "timeout_pid" ≡ str timeout_pid
  pub pid_is_full : str_eq timeout_pid "" ≡ false
  pub rc_stands : as_int (get cleanup "timeout_rc") ≡ some timeout_rc
  pub sessions_stand : get cleanup "tmux_sessions_after" ≡ arr sessions
  pub before : ScanOk w (get cleanup "qemu_process_scan_before") root
  pub after : ScanOk w (get cleanup "qemu_process_scan_after") root

flipped : (b : Bool) → not b ≡ true → b ≡ false
flipped b h = ground arith

full_text :
    (v : JsonValue) → is_full_text v ≡ true → (s : String) × (v ≡ str s) × (str_eq s "" ≡ false)
full_text (str s) h = (s, refl, flipped _ h)
full_text _ h = cc

some_int : (o : Option ℤ) → is_some o ≡ true → (z : ℤ) × (o ≡ some z)
some_int none h = cc
some_int (some z) h = (z, refl)

listed : (v : JsonValue) → is_list v ≡ true → (vs : Items) × (v ≡ arr vs)
listed (arr vs) h = (vs, refl)
listed _ h = cc

validate_cleanup-CleanupOk :
    (w : World) (cleanup : JsonObject) (root : FilePath)
    → validate_cleanup w cleanup root ≡ ok tt
    → CleanupOk w cleanup root
unfolding validate_cleanup
validate_cleanup-CleanupOk w c root h =
    let (temp, h1) = >>-eq-ok (ensure (is_true (get c "temp_dirs_removed")) _) _ h in
    let (group, h2) = >>-eq-ok (ensure (is_true (get c "process_group_reaped")) _) _ h1 in
    let (pid, h3) = >>-eq-ok (ensure _ _) _ h2 in
    let (rc, h4) = >>-eq-ok (ensure _ _) _ h3 in
    let (before, h5) =
      >>-eq-ok (validate_qemu_scan w (get c "qemu_process_scan_before") root _) _ h4 in
    let (after, tmux) =
      >>-eq-ok (validate_qemu_scan w (get c "qemu_process_scan_after") root _) _ h5 in
    let k = freshness_error in
    let (pid_value, pid_stands, pid_is_full) = full_text _ (guard-eq-ok k _ _ pid) in
    let (rc_value, rc_stands) = some_int _ (guard-eq-ok k _ _ rc) in
    let (sessions, sessions_stand) = listed _ (guard-eq-ok k _ _ tmux) in
    record {
      temp_removed = required_true freshness_error _ _ temp;
      group_reaped = required_true freshness_error _ _ group;
      timeout_pid = pid_value;
      timeout_rc = rc_value;
      sessions = sessions;
      pid_stands = pid_stands;
      pid_is_full = pid_is_full;
      rc_stands = rc_stands;
      sessions_stand = sessions_stand;
      before = validate_qemu_scan-ScanOk w _ root _ before;
      after = validate_qemu_scan-ScanOk w _ root _ after;
    }

pub record FreshBundle (w : World) (path : FilePath) (git_sha bpf_sha : String)
    (snapshot : Option String) : Type 0 where
  pub summary : JsonObject
  pub cleanup : JsonObject
  pub output_dir : String
  pub loaded : load_object w path ≡ ok summary
  pub status_stands : get summary "status" ≡ str "PASS"
  pub mode_stands : get summary "evidence_mode" ≡ str "vm-live"
  pub git_sha_is_current : get summary "git_sha" ≡ str git_sha
  pub bpf_sha_is_current : get summary "bpf_object_sha256" ≡ str bpf_sha
  pub dirty_is_known :
      get summary "git_dirty" ≡ bool true → KnownSnapshot w summary path git_sha snapshot
  pub no_mutation : get summary "host_mutation" ≡ bool false
  pub created_fresh : get summary "output_dir_created_fresh" ≡ bool true
  pub output_dir_stands : get summary "output_dir" ≡ str output_dir
  pub output_dir_is_its_own : same_path (path_of output_dir) (parent path) ≡ true
  pub cleanup_stands : get summary "cleanup" ≡ obj cleanup
  pub cleanup_ok : CleanupOk w cleanup (parent path)

-- A bundle is accepted as fresh only if it is a PASS of a live run of the current commit and object,
-- mutated no host, has a fresh output directory that is its own, and a cleanup that says that the
-- temporary directories are removed and the process group reaped, has a timeout pid that is not empty,
-- an integer return code of the timeout and a list of tmux sessions, and names two scans inside the
-- bundle, before and after, that show no process of the lab; a bundle of a dirty tree
-- besides has the current snapshot, which the provenance beside it names with the commit and the bundle.
pub validate_fresh_bundle-FreshBundle :
    (w : World) (path : FilePath) (git_sha bpf_sha : String) (snapshot : Option String)
    → validate_fresh_bundle w path git_sha bpf_sha snapshot ≡ ok tt
    → FreshBundle w path git_sha bpf_sha snapshot
unfolding validate_fresh_bundle require_object
validate_fresh_bundle-FreshBundle w path git_sha bpf_sha snapshot h =
    let k = freshness_error in
    let (s, loaded, h1) = >>=-eq-ok (load_object w path) _ h in
    let (_, h2) = >>-eq-ok (text_equals s "schema" _ _) _ h1 in
    let (status, h3) = >>-eq-ok (text_equals s "status" "PASS" _) _ h2 in
    let (mode, h4) = >>-eq-ok (text_equals s "evidence_mode" "vm-live" _) _ h3 in
    let (git, h5) = >>-eq-ok (text_equals s "git_sha" git_sha _) _ h4 in
    let (bpf, h6) = >>-eq-ok (text_equals s "bpf_object_sha256" bpf_sha _) _ h5 in
    let (dirty, dirty_ok, h7) = >>=-eq-ok (require_bool s "git_dirty") _ h6 in
    let (known, h8) =
      >>-eq-ok (if dirty then validate_dirty_snapshot w s path git_sha snapshot else ok tt) _ h7 in
    let (mutation, mutation_ok, h9) = >>=-eq-ok (require_bool s "host_mutation") _ h8 in
    let (off, h10) = >>-eq-ok (ensure (not mutation) _) _ h9 in
    let (fresh, fresh_ok, h11) = >>=-eq-ok (require_bool s "output_dir_created_fresh") _ h10 in
    let (on, h12) = >>-eq-ok (ensure fresh _) _ h11 in
    let (dir, dir_ok, h13) = >>=-eq-ok (require_text s "output_dir") _ h12 in
    let (own, h14) = >>-eq-ok (ensure (same_path (path_of dir) (parent path)) _) _ h13 in
    let (cleanup, cleanup_ok, clean) = >>=-eq-ok (require_object s "cleanup") _ h14 in
    record {
      summary = s;
      cleanup = cleanup;
      output_dir = dir;
      loaded = loaded;
      status_stands = text_equals-eq-ok _ _ _ _ status;
      mode_stands = text_equals-eq-ok _ _ _ _ mode;
      git_sha_is_current = text_equals-eq-ok _ _ _ _ git;
      bpf_sha_is_current = text_equals-eq-ok _ _ _ _ bpf;
      dirty_is_known = λ is_dirty. validate_dirty_snapshot-KnownSnapshot w s path git_sha snapshot (
          when-eq-ok dirty _ known
            (bool_inj (sym (require_bool-eq-ok s "git_dirty" dirty_ok) ∙ is_dirty)));
      no_mutation =
          require_bool-eq-ok s "host_mutation" mutation_ok ∙ ap bool (refuted_by k mutation _ off);
      created_fresh =
          require_bool-eq-ok s "output_dir_created_fresh" fresh_ok
          ∙ ap bool (guard-eq-ok k fresh _ on);
      output_dir_stands = require_text-eq-ok s "output_dir" dir_ok;
      output_dir_is_its_own = guard-eq-ok k _ _ own;
      cleanup_stands = object_as-eq-ok k _ _ cleanup_ok;
      cleanup_ok = validate_cleanup-CleanupOk w cleanup (parent path) clean;
    }
  where
    bool_inj : {a b : Bool} → bool a ≡ bool b → a ≡ b
    bool_inj e = cc
