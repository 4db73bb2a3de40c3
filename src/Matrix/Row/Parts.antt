-- ===== src/Matrix/Row/Parts.antt =====
-- What the checks of a row's parts establish: the header, the marker, the commit, the scheduler's
-- states and the paths.
use exasphere.Base.{
  ℕ, ◌≤◌, ◌≡◌, refl, ap, subst, ◌∙◌, Bool, true, false, ◌&&◌, not, Option, none, some, String,
  str_eq, eq_iff, arith, if◌then◌else◌, guard, guard-eq-ok, ok, raise, ◌<>◌, drop_value, for_each,
  >>-eq-ok, >>=-eq-ok, ok_injective, matrix_run_contract_error,
}
use exasphere.Text.{in_table}
use exasphere.Json.{JsonValue, bool, str, obj, JsonObject, get, is_false, is_text}
use exasphere.World.{World, path_of}
use exasphere.Checks.Laws.{
  text_as-eq-ok, bool_as-eq-ok, object_as-eq-ok, required_text, required_false, refuted_by,
}
use exasphere.Matrix.Model.{schema, matrix_bpf_abi_version, evidence_modes, outcomes, vm_marker}
use exasphere.Matrix.Values.{
  require, object, text, bool_field, stays_inside, require_safe_path, require_identifier,
  validate_scheduler_state,
}
use exasphere.Matrix.Row.{
  marker_matches, validate_vm_marker, validate_git, is_stale, validate_states, validate_header,
}

pub ensured : (b : Bool) (m : String) → require b m ≡ ok tt → b ≡ true
ensured b m h = guard-eq-ok matrix_run_contract_error b m h

-- The marker of a row is required and present exactly in the mode `vm-live`.
pub record MarkerOf (mode : String) (marker : JsonObject) : Type 0 where
  pub required : get marker "required" ≡ bool (str_eq mode "vm-live")
  pub present : get marker "present" ≡ bool (str_eq mode "vm-live")
  pub path : get marker "path" ≡ str vm_marker

-- The row's commit is the one that was expected, and the tree is clean.
pub record CleanGit (git : JsonObject) : Type 0 where
  pub sha : String
  pub expected : get git "expected_sha" ≡ str sha
  pub actual : get git "actual_sha" ≡ str sha
  pub clean : get git "dirty" ≡ bool false

flags :
    (live other r p : Bool) (m m' m'' : String)
    → (if live
        then require (r && p) m
        else if other
        then require (not r && not p) m'
        else raise matrix_run_contract_error m'')
      ≡ ok tt
    → (r ≡ live) × (p ≡ live)
unfolding guard
flags true other true true m m' m'' h = (refl, refl)
flags true other true false m m' m'' h = cc
flags true other false p m m' m'' h = cc
flags false true false false m m' m'' h = (refl, refl)
flags false true false true m m' m'' h = cc
flags false true true p m m' m'' h = cc
flags false false r p m m' m'' h = cc

marker_matches-eq-ok :
    (mode : String) (r p : Bool) (context : String)
    → marker_matches mode r p context ≡ ok tt
    → (r ≡ str_eq mode "vm-live") × (p ≡ str_eq mode "vm-live")
unfolding marker_matches
marker_matches-eq-ok mode r p context h = flags (str_eq mode "vm-live") _ r p _ _ _ h

pub validate_vm_marker-MarkerOf :
    (marker : JsonObject) (mode context : String)
    → validate_vm_marker marker mode context ≡ ok tt
    → MarkerOf mode marker
unfolding validate_vm_marker
validate_vm_marker-MarkerOf marker mode context h =
    let (_, h1) = >>-eq-ok _ _ h in
    let (required, required_ok, h2) = >>=-eq-ok (bool_field (get marker "required") _) _ h1 in
    let (present, present_ok, h3) = >>=-eq-ok (bool_field (get marker "present") _) _ h2 in
    let (path, path_ok, h4) = >>=-eq-ok (text (get marker "path") _) _ h3 in
    let (path_same, h5) = >>-eq-ok _ _ h4 in
    let (_, h6) = >>-eq-ok (drop_value (text (get marker "checked_by") _)) _ h5 in
    let (r, p) = marker_matches-eq-ok mode required present context h6 in
    record {
      required = bool_as-eq-ok _ _ _ required_ok ∙ ap bool r;
      present = bool_as-eq-ok _ _ _ present_ok ∙ ap bool p;
      path =
          (text_as-eq-ok _ _ _ path_ok).0
          ∙ ap str ((eq_iff path vm_marker).0 (ensured _ _ path_same));
    }

pub validate_git-CleanGit :
    (git : JsonObject) (context : String) → validate_git git context ≡ ok tt → CleanGit git
unfolding validate_git
validate_git-CleanGit git context h =
    let (_, h1) = >>-eq-ok _ _ h in
    let (expected, expected_ok, h2) = >>=-eq-ok (text (get git "expected_sha") _) _ h1 in
    let (actual, actual_ok, h3) = >>=-eq-ok (text (get git "actual_sha") _) _ h2 in
    let (_, h4) = >>-eq-ok (require (is_text "current" (get git "status")) _) _ h3 in
    let (clean, same) = >>-eq-ok (require (is_false (get git "dirty")) _) _ h4 in
    record {
      sha = actual;
      expected =
          (text_as-eq-ok _ _ _ expected_ok).0
          ∙ ap str ((eq_iff expected actual).0 (ensured _ _ same));
      actual = (text_as-eq-ok _ _ _ actual_ok).0;
      clean = required_false _ _ _ clean;
    }

-- The later of two sequence numbers is not the lower one.
abbrev pub NotStale : Option ℕ → Option ℕ → Type 0
NotStale (some pre) (some post) = pre ≤ post
NotStale _ _ = Unit

is_stale-NotStale : (pre post : Option ℕ) → is_stale pre post ≡ false → NotStale pre post
is_stale-NotStale none post h = tt
is_stale-NotStale (some a) none h = tt
is_stale-NotStale (some a) (some b) h = ground arith

-- The scheduler's states before and after: both valid, and the sequence number did not fall.
pub record States (w : World) (row : JsonObject) (context : String) : Type 0 where
  pub pre_state : JsonObject
  pub post_state : JsonObject
  pub pre_seq : Option ℕ
  pub post_seq : Option ℕ
  pub pre_stands : get row "pre_scheduler_state" ≡ obj pre_state
  pub post_stands : get row "post_scheduler_state" ≡ obj post_state
  pub pre_valid :
      validate_scheduler_state w pre_state (context <> ".pre_scheduler_state") ≡ ok pre_seq
  pub post_valid :
      validate_scheduler_state w post_state (context <> ".post_scheduler_state") ≡ ok post_seq
  pub not_stale : NotStale pre_seq post_seq

pub validate_states-States :
    (w : World) (row : JsonObject) (context : String)
    → validate_states w row context ≡ ok tt
    → States w row context
unfolding validate_states
validate_states-States w row context h =
    let (pre, pre_ok, h1) = >>=-eq-ok (object (get row "pre_scheduler_state") _) _ h in
    let (pre_seq, pre_valid, h2) =
      >>=-eq-ok (validate_scheduler_state w pre (context <> ".pre_scheduler_state")) _ h1 in
    let (post, post_ok, h3) = >>=-eq-ok (object (get row "post_scheduler_state") _) _ h2 in
    let (post_seq, post_valid, h4) =
      >>=-eq-ok (validate_scheduler_state w post (context <> ".post_scheduler_state")) _ h3 in
    record {
      pre_state = pre;
      post_state = post;
      pre_seq = pre_seq;
      post_seq = post_seq;
      pre_stands = object_as-eq-ok _ _ _ pre_ok;
      post_stands = object_as-eq-ok _ _ _ post_ok;
      pre_valid = pre_valid;
      post_valid = post_valid;
      not_stale = is_stale-NotStale pre_seq post_seq (refuted_by _ _ _ h4);
    }

-- What the first checks of a row establish.
pub record Header (row : JsonObject) (outcome mode : String) : Type 0 where
  pub names_schema : get row "schema" ≡ str schema
  pub names_outcome : get row "outcome" ≡ str outcome
  pub known_outcome : in_table outcome outcomes ≡ true
  pub names_mode : get row "evidence_mode" ≡ str mode
  pub known_mode : in_table mode evidence_modes ≡ true
  pub no_host_mutation : get row "host_mutation" ≡ bool false
  pub not_release_eligible : get row "release_eligible" ≡ bool false
  pub abi_version : get row "bpf_abi_version" ≡ str matrix_bpf_abi_version

pub validate_header-Header :
    (row : JsonObject) (context : String) {head : String × String}
    → validate_header row context ≡ ok head
    → Header row head.0 head.1
unfolding validate_header
validate_header-Header row context h =
    let (_, h1) = >>-eq-ok _ _ h in
    let (_, h2) = >>-eq-ok _ _ h1 in
    let (schema_ok, h3) = >>-eq-ok (require (is_text schema (get row "schema")) _) _ h2 in
    let (outcome, outcome_ok, h4) = >>=-eq-ok (text (get row "outcome") _) _ h3 in
    let (outcome_known, h5) = >>-eq-ok (require (in_table outcome outcomes) _) _ h4 in
    let (mode, mode_ok, h6) = >>=-eq-ok (text (get row "evidence_mode") _) _ h5 in
    let (mode_known, h7) = >>-eq-ok (require (in_table mode evidence_modes) _) _ h6 in
    let (_, _, h8) = >>=-eq-ok (text (get row "supported_tuple_status") _) _ h7 in
    let (_, h9) = >>-eq-ok _ _ h8 in
    let (mutation, h10) = >>-eq-ok (require (is_false (get row "host_mutation")) _) _ h9 in
    let (release, h11) = >>-eq-ok (require (is_false (get row "release_eligible")) _) _ h10 in
    let (abi, h12) =
      >>-eq-ok (require (is_text matrix_bpf_abi_version (get row "bpf_abi_version")) _) _ h11 in
    let (_, h13) = >>-eq-ok (require_identifier row "matrix_run_id" _ context) _ h12 in
    let (_, h14) = >>-eq-ok (for_each _ _) _ h13 in
    subst (λ (x : String × String). Header row x.0 x.1) (ok_injective h14)
      (record {
        names_schema = required_text _ _ _ _ schema_ok;
        names_outcome = (text_as-eq-ok _ _ _ outcome_ok).0;
        known_outcome = ensured _ _ outcome_known;
        names_mode = (text_as-eq-ok _ _ _ mode_ok).0;
        known_mode = ensured _ _ mode_known;
        no_host_mutation = required_false _ _ _ mutation;
        not_release_eligible = required_false _ _ _ release;
        abi_version = required_text _ _ _ _ abi;
      })

-- A path of the row: a text that is relative and does not climb.
abbrev pub SafePathAt : JsonObject → String → Type 0
SafePathAt row name =
    (raw : String) × (get row name ≡ str raw) × (stays_inside (path_of raw) ≡ true)

pub require_safe_path-safe :
    (v : JsonValue) (context : String) {raw : String}
    → require_safe_path v context ≡ ok raw
    → (v ≡ str raw) × (stays_inside (path_of raw) ≡ true)
unfolding require_safe_path
require_safe_path-safe v context h =
    let (s, s_ok, h1) = >>=-eq-ok (text v context) _ h in
    let (inside, same) = >>-eq-ok (require (stays_inside (path_of s)) _) _ h1 in
    subst (λ t. (v ≡ str t) × (stays_inside (path_of t) ≡ true)) (ok_injective same)
      ((text_as-eq-ok _ _ _ s_ok).0, ensured _ _ inside)

pub pass_mode :
    (o m : Bool) (t : String) → (if o then require m t else ok tt) ≡ ok tt → o ≡ true → m ≡ true
pass_mode true m t h p = guard-eq-ok matrix_run_contract_error m t h
pass_mode false m t h p = cc
