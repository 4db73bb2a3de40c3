-- ===== src/Matrix/Provenance/Laws.antt =====
-- What accepted benchmark provenance promises.
use exasphere.Base.{
  ℕ, suc, ◌≡◌, refl, sym, ap, subst, ◌∙◌, true, false, not, Option, none, some, List, [], ◌∷◌,
  String, str_eq, eq_iff, ok, err, guard-eq-ok, >>-eq-ok, >>=-eq-ok, ok_injective, Result, ◌<>◌,
  benchmark_provenance_error,
}
use exasphere.Text.{in_table}
use exasphere.Text.Digits.{show}
use exasphere.Json.{JsonValue, str, bool, arr, obj, Items, nil, cons, JsonObject, get, is_true}
use exasphere.World.{World, FilePath, path_of, path_text, found}
use exasphere.Checks.Laws.{
  text_as-eq-ok, object_as-eq-ok, required_true, refuted_by, digest_as-eq-ok,
}
use exasphere.Checks.Distinct.{Distinct, Unseen, Unseen-tail}
use exasphere.Benchmark.Records.{validate_record}
use exasphere.Matrix.Provenance.{
  require, object, text, require_only_fields, benchmark_provenance_fields, load_json,
  require_safe_path, is_descendant, require_descendant, file_sha256, require_sha256,
  convert_output_error, under_root, references_under, validate_record_references, validate_entry,
  validate_items, validate_entries,
}

convert_output_error-eq-ok :
    (words : String) (m : Result (Unit {0})) → convert_output_error words m ≡ ok tt → m ≡ ok tt
unfolding convert_output_error
convert_output_error-eq-ok words (ok tt) h = refl
convert_output_error-eq-ok words (err e) h = cc

require_safe_path-eq-ok :
    (v : JsonValue) (context : String) {raw : String}
    → require_safe_path v context ≡ ok raw
    → v ≡ str raw
unfolding require_safe_path
require_safe_path-eq-ok v context h =
    let (s, s_ok, h1) = >>=-eq-ok (text v context) _ h in
    let (_, h2) = >>-eq-ok (require _ _) _ h1 in
    let (_, same) = >>-eq-ok (require _ _) _ h2 in
    (text_as-eq-ok benchmark_provenance_error v context s_ok).0 ∙ ap str (ok_injective same)

file_sha256-found :
    (w : World) (path : FilePath) {digest : String}
    → file_sha256 w path ≡ ok digest
    → w.sha256 path ≡ found digest
unfolding file_sha256
file_sha256-found w path h = digest_as-eq-ok benchmark_provenance_error _ w path h

-- What a root, where there is one, asks of a record.
abbrev pub UnderRoot : World → Option FilePath → FilePath → Type 0
UnderRoot w none path = Unit
UnderRoot w (some root) path = is_descendant w path root ≡ true

under_root-UnderRoot :
    (w : World) (root : Option FilePath) (path : FilePath) (context : String)
    → under_root w root path context ≡ ok tt
    → UnderRoot w root path
unfolding under_root require_descendant
under_root-UnderRoot w none path context h = tt
under_root-UnderRoot w (some root) path context h = guard-eq-ok benchmark_provenance_error _ _ h

-- The raw output of a record: its digest is the one that the record names, and it stays under the root.
pub record OutputOk (w : World) (root : FilePath) (record_ : JsonObject) : Type 0 where
  pub output_path : String
  pub output_sha : String
  pub vm_evidence : String
  pub output_stands : get record_ "output_path" ≡ str output_path
  pub output_inside : is_descendant w (path_of output_path) root ≡ true
  pub sha_stands : get record_ "output_sha256" ≡ str output_sha
  pub output_digest : w.sha256 (path_of output_path) ≡ found output_sha
  pub vm_stands : get record_ "vm_evidence" ≡ str vm_evidence
  pub vm_inside : is_descendant w (path_of vm_evidence) root ≡ true

validate_record_references-OutputOk :
    (w : World) (record_ : JsonObject) (root : FilePath) (context : String)
    → validate_record_references w record_ root context ≡ ok tt
    → OutputOk w root record_
unfolding validate_record_references require_descendant
validate_record_references-OutputOk w record_ root context h =
    let k = benchmark_provenance_error in
    let (output, output_ok, h1) = >>=-eq-ok (require_safe_path (get record_ "output_path") _) _ h in
    let (output_inside, h2) = >>-eq-ok (require_descendant w (path_of output) root _) _ h1 in
    let (actual, actual_ok, h3) = >>=-eq-ok (file_sha256 w (path_of output)) _ h2 in
    let (sha, sha_ok, h4) = >>=-eq-ok (text (get record_ "output_sha256") _) _ h3 in
    let (same, h5) = >>-eq-ok (require (str_eq actual sha) _) _ h4 in
    let (_, h6) = >>-eq-ok _ _ h5 in
    let (vm, vm_ok, inside) = >>=-eq-ok (require_safe_path (get record_ "vm_evidence") _) _ h6 in
    record {
      output_path = output;
      output_sha = sha;
      vm_evidence = vm;
      output_stands = require_safe_path-eq-ok _ _ output_ok;
      output_inside = guard-eq-ok k _ _ output_inside;
      sha_stands = (text_as-eq-ok k _ _ sha_ok).0;
      output_digest =
          file_sha256-found w _ actual_ok
          ∙ ap found ((eq_iff actual sha).0 (guard-eq-ok k _ _ same));
      vm_stands = require_safe_path-eq-ok _ _ vm_ok;
      vm_inside = guard-eq-ok k _ _ inside;
    }

abbrev pub OutputUnder : World → Option FilePath → JsonObject → Type 0
OutputUnder w none record_ = Unit
OutputUnder w (some root) record_ = OutputOk w root record_

references_under-OutputUnder :
    (w : World) (root : Option FilePath) (record_ : JsonObject) (context : String)
    → references_under w root record_ context ≡ ok tt
    → OutputUnder w root record_
unfolding references_under
references_under-OutputUnder w none record_ context h = tt
references_under-OutputUnder w (some root) record_ context h =
    validate_record_references-OutputOk w record_ root context h

-- An accepted entry, with the path of its record.
pub record EntryOk (w : World) (root : Option FilePath) (item : JsonValue) (path : String)
    : Type 0 where
  pub entry : JsonObject
  pub raw : String
  pub record_sha : String
  pub record_ : JsonObject
  pub is_entry : item ≡ obj entry
  pub only_recorded : get entry "record_only" ≡ bool true
  pub path_stands : get entry "record_path" ≡ str raw
  pub is_its_text : path ≡ path_text (path_of raw)
  pub inside : UnderRoot w root (path_of raw)
  pub sha_stands : get entry "record_sha256" ≡ str record_sha
  pub record_digest : w.sha256 (path_of raw) ≡ found record_sha
  pub loaded : load_json w (path_of raw) ≡ ok record_
  pub record_ok : validate_record w record_ ≡ ok tt
  pub output : OutputUnder w root record_

record Step (w : World) (root : Option FilePath) (item : JsonValue) (seen seen' : List String)
    : Type 0 where
  path : String
  passed : EntryOk w root item path
  is_new : in_table path seen ≡ false
  grows : seen' ≡ path ∷ seen

validate_entry-Step :
    (w : World) (root : Option FilePath) (outer : String) (index : ℕ) (item : JsonValue)
    (seen : List String) {seen' : List String}
    → validate_entry w root outer index item seen ≡ ok seen'
    → Step w root item seen seen'
unfolding validate_entry
validate_entry-Step w root outer index item seen h =
    let k = benchmark_provenance_error in
    let context = outer <> "[" <> show index <> "]" in
    let (entry, entry_ok, h1) = >>=-eq-ok (object item context) _ h in
    let (_, h2) = >>-eq-ok (require_only_fields entry benchmark_provenance_fields context) _ h1 in
    let (only, h3) = >>-eq-ok (require (is_true (get entry "record_only")) _) _ h2 in
    let (raw, raw_ok, h4) = >>=-eq-ok (require_safe_path (get entry "record_path") _) _ h3 in
    let path = path_of raw in
    let (new, h5) = >>-eq-ok (require (not (in_table (path_text path) seen)) _) _ h4 in
    let (inside, h6) = >>-eq-ok (under_root w root path _) _ h5 in
    let (sha, sha_ok, h7) = >>=-eq-ok (text (get entry "record_sha256") _) _ h6 in
    let (_, h8) = >>-eq-ok (require_sha256 sha _) _ h7 in
    let (actual, actual_ok, h9) = >>=-eq-ok (file_sha256 w path) _ h8 in
    let (same, h10) = >>-eq-ok (require (str_eq actual sha) _) _ h9 in
    let (record_, loaded, h11) = >>=-eq-ok (load_json w path) _ h10 in
    let (valid, h12) = >>-eq-ok (convert_output_error _ (validate_record w record_)) _ h11 in
    let (output, h13) = >>-eq-ok (references_under w root record_ _) _ h12 in
    record {
      path = path_text path;
      passed = record {
        entry = entry;
        raw = raw;
        record_sha = sha;
        record_ = record_;
        is_entry = object_as-eq-ok k _ _ entry_ok;
        only_recorded = required_true k _ _ only;
        path_stands = require_safe_path-eq-ok _ _ raw_ok;
        is_its_text = refl;
        inside = under_root-UnderRoot w root path _ inside;
        sha_stands = (text_as-eq-ok k _ _ sha_ok).0;
        record_digest =
            file_sha256-found w path actual_ok
            ∙ ap found ((eq_iff actual sha).0 (guard-eq-ok k _ _ same));
        loaded = loaded;
        record_ok = convert_output_error-eq-ok _ _ valid;
        output = references_under-OutputUnder w root record_ _ output;
      };
      is_new = refuted_by k _ _ new;
      grows = sym (ok_injective h13);
    }

-- The entries in order, with the paths of their records.
abbrev pub EntriesOk : World → Option FilePath → Items → List String → Type 0
EntriesOk w root nil [] = Unit
EntriesOk w root (cons item rest) (path ∷ paths) =
    EntryOk w root item path × EntriesOk w root rest paths
EntriesOk w root _ _ = ⊥

record ItemsOk (w : World) (root : Option FilePath) (items : Items) (seen : List String)
    : Type 0 where
  paths : List String
  entries : EntriesOk w root items paths
  distinct : Distinct paths
  unseen : Unseen seen paths

validate_items-ItemsOk :
    (w : World) (root : Option FilePath) (context : String) (index : ℕ) (items : Items)
    (seen : List String)
    → validate_items w root context index items seen ≡ ok tt
    → ItemsOk w root items seen
unfolding validate_items
validate_items-ItemsOk w root context index nil seen h = record {
  paths = [];
  entries = tt;
  distinct = tt;
  unseen = tt;
}
validate_items-ItemsOk w root context index (cons item rest) seen h =
    let (next, entry_ok, rest_ok) = >>=-eq-ok (validate_entry w root context index item seen) _ h in
    let step = validate_entry-Step w root context index item seen entry_ok in
    let later = validate_items-ItemsOk w root context (suc index) rest next rest_ok in
    let (head_new, tail_unseen) =
      Unseen-tail step.path seen later.paths
        (subst (λ t. Unseen t later.paths) step.grows later.unseen) in
    record {
      paths = step.path ∷ later.paths;
      entries = (step.passed, later.entries);
      distinct = (head_new, later.distinct);
      unseen = (step.is_new, tail_unseen);
    }

-- Accepted provenance: absent, or a list that is not empty.
pub record ProvenanceOk (w : World) (root : Option FilePath) (items : Items) : Type 0 where
  pub paths : List String
  pub entries : EntriesOk w root items paths
  pub distinct : Distinct paths

-- Accepted provenance that is a list refers to benchmark records at different paths, each of which has
-- the digest that the entry names and is an accepted record; under a root, the record, its raw output
-- and its VM evidence stay under it, and the output has the digest that the record names.
pub validate_entries-ProvenanceOk :
    (w : World) (items : Items) (root : Option FilePath) (context : String)
    → validate_entries w (arr items) root context ≡ ok tt
    → ProvenanceOk w root items
unfolding validate_entries
validate_entries-ProvenanceOk w nil root context h = cc
validate_entries-ProvenanceOk w (cons item rest) root context h =
    let r = validate_items-ItemsOk w root context 0 (cons item rest) [] h in
    record { paths = r.paths; entries = r.entries; distinct = r.distinct }
