-- ===== src/Ledger/Laws.antt =====
-- What an accepted ledger promises.
use exasphere.Base.{
  ℕ, ◌+◌, ◌≡◌, sym, ap, subst, ◌∙◌, Bool, true, false, not, Option, none, some, List, [], ◌∷◌,
  String, str_eq, eq_iff, arith, ok, guard-eq-ok, >>-eq-ok, >>=-eq-ok, ok_injective,
  drop_value-eq-ok, ◌<>◌, All, audit_ledger_error,
}
use exasphere.Text.{in_table}
use exasphere.Text.Digits.{show}
use exasphere.Json.{JsonValue, str, JsonObject, get, as_text}
use exasphere.World.{World, FilePath, path_of, found}
use exasphere.Checks.Laws.{refuted_by}
use exasphere.Checks.Distinct.{Distinct, Unseen, Unseen-tail}
use exasphere.Ledger.{
  ensure, audit_match, is_secret, load_object, load_jsonl, text_or, require_string, sha256_file,
  validate_snapshot, validate_record, validate_records, validate_ledger,
}

ensured : (b : Bool) (m : String) → ensure b m ≡ ok tt → b ≡ true
ensured b m h = guard-eq-ok audit_ledger_error b m h

refuted : (b : Bool) (m : String) → ensure (not b) m ≡ ok tt → b ≡ false
refuted b m h = refuted_by audit_ledger_error b m h

same : (s t m : String) → ensure (str_eq s t) m ≡ ok tt → s ≡ t
same s t m h = (eq_iff s t).0 (ensured (str_eq s t) m h)

-- A field that is read is a text, and tells no secret.
pub require_string-eq-ok :
    (data_ : JsonObject) (name context : String) {s : String}
    → require_string data_ name context ≡ ok s
    → (get data_ name ≡ str s) × (is_secret s ≡ false)
unfolding require_string
require_string-eq-ok data_ name context h = of_value (get data_ name) h
  where
    of_value :
        (v : JsonValue) {s : String}
        → text_or v name context ≡ ok s
        → (v ≡ str s) × (is_secret s ≡ false)
    of_value (str t) h =
        let (full, h1) = >>-eq-ok _ _ h in
        let (public_, h2) = >>-eq-ok _ _ h1 in
        (
          ap str (ok_injective h2),
          ap is_secret (sym (ok_injective h2)) ∙ refuted (is_secret t) _ public_,
        )
    of_value _ h = cc

sha256_file-found :
    (w : World) (path : FilePath) {digest : String}
    → sha256_file w path ≡ ok digest
    → w.sha256 path ≡ found digest
unfolding sha256_file
sha256_file-found w path h = ground arith

-- The artifacts of a record: the digests that it names are those of the files, and the snapshot
-- names the record's own ids.
pub record RecordOk (w : World) (row : JsonObject) : Type 0 where
  pub audit_id : String
  pub rollback_id : String
  pub snapshot_path : String
  pub transcript_path : String
  pub snapshot_sha : String
  pub transcript_sha : String
  pub snapshot : JsonObject
  pub row_audit_id : get row "audit_id" ≡ str audit_id
  pub well_formed : audit_match audit_id ≡ true
  pub no_secret : is_secret audit_id ≡ false
  pub row_rollback_id : get row "rollback_id" ≡ str rollback_id
  pub row_snapshot : get row "rollback_snapshot" ≡ str snapshot_path
  pub row_transcript : get row "transcript" ≡ str transcript_path
  pub row_snapshot_sha : get row "rollback_snapshot_sha256" ≡ str snapshot_sha
  pub row_transcript_sha : get row "transcript_sha256" ≡ str transcript_sha
  pub snapshot_digest : w.sha256 (path_of snapshot_path) ≡ found snapshot_sha
  pub transcript_digest : w.sha256 (path_of transcript_path) ≡ found transcript_sha
  pub snapshot_loaded : load_object w (path_of snapshot_path) ≡ ok snapshot
  pub snapshot_audit_id : get snapshot "audit_id" ≡ str audit_id
  pub snapshot_rollback_id : get snapshot "rollback_id" ≡ str rollback_id

record SnapshotOk (w : World) (path : FilePath) (audit_id rollback_id : String) : Type 0 where
  snapshot : JsonObject
  loaded : load_object w path ≡ ok snapshot
  its_audit_id : get snapshot "audit_id" ≡ str audit_id
  its_rollback_id : get snapshot "rollback_id" ≡ str rollback_id

validate_snapshot-SnapshotOk :
    (w : World) (path : FilePath) (audit_id rollback_id : String)
    → validate_snapshot w path audit_id rollback_id ≡ ok tt
    → SnapshotOk w path audit_id rollback_id
unfolding validate_snapshot
validate_snapshot-SnapshotOk w path audit_id rollback_id h =
    let (snapshot, loaded, h1) = >>=-eq-ok (load_object w path) _ h in
    let (schema, _, h2) = >>=-eq-ok (require_string snapshot "schema" "snapshot") _ h1 in
    let (_, h3) = >>-eq-ok _ _ h2 in
    let (a, a_ok, h4) = >>=-eq-ok (require_string snapshot "audit_id" "snapshot") _ h3 in
    let (a_same, h5) = >>-eq-ok _ _ h4 in
    let (r, r_ok, h6) = >>=-eq-ok (require_string snapshot "rollback_id" "snapshot") _ h5 in
    let (r_same, _) = >>-eq-ok _ _ h6 in
    record {
      snapshot = snapshot;
      loaded = loaded;
      its_audit_id = (require_string-eq-ok snapshot _ _ a_ok).0 ∙ ap str (same a audit_id _ a_same);
      its_rollback_id =
          (require_string-eq-ok snapshot _ _ r_ok).0 ∙ ap str (same r rollback_id _ r_same);
    }

-- What one record adds: its id is new, and it is seen from then on.
record Step (w : World) (row : JsonObject) (seen seen' : List String) : Type 0 where
  passed : RecordOk w row
  is_new : in_table (passed.audit_id) seen ≡ false
  grows : seen' ≡ passed.audit_id ∷ seen

validate_record-Step :
    (w : World) (row : JsonObject) (seen : List String) (index : ℕ) {seen' : List String}
    → validate_record w row seen index ≡ ok seen'
    → Step w row seen seen'
unfolding validate_record
validate_record-Step w row seen index h =
    let context = "ledger[" <> show index <> "]" in
    let (schema, _, h1) = >>=-eq-ok (require_string row "schema" context) _ h in
    let (_, h2) = >>-eq-ok _ _ h1 in
    let (audit_id, a_ok, h3) = >>=-eq-ok (require_string row "audit_id" context) _ h2 in
    let (matches, h4) = >>-eq-ok _ _ h3 in
    let (unseen, h5) = >>-eq-ok _ _ h4 in
    let (rollback_id, r_ok, h6) = >>=-eq-ok (require_string row "rollback_id" context) _ h5 in
    let (snapshot, p_ok, h7) = >>=-eq-ok (require_string row "rollback_snapshot" context) _ h6 in
    let (transcript, q_ok, h8) = >>=-eq-ok (require_string row "transcript" context) _ h7 in
    let (s_sha, s_ok, h9) =
      >>=-eq-ok (require_string row "rollback_snapshot_sha256" context) _ h8 in
    let (t_sha, t_ok, h10) = >>=-eq-ok (require_string row "transcript_sha256" context) _ h9 in
    let (_, h11) = >>-eq-ok _ _ h10 in
    let (s_digest, s_read, h12) = >>=-eq-ok (sha256_file w (path_of snapshot)) _ h11 in
    let (s_same, h13) = >>-eq-ok _ _ h12 in
    let (t_digest, t_read, h14) = >>=-eq-ok (sha256_file w (path_of transcript)) _ h13 in
    let (t_same, h15) = >>-eq-ok _ _ h14 in
    let (snapshot_passed, h16) =
      >>-eq-ok (validate_snapshot w (path_of snapshot) audit_id rollback_id) _ h15 in
    let inner =
      validate_snapshot-SnapshotOk w (path_of snapshot) audit_id rollback_id snapshot_passed in
    record {
      passed = record {
        audit_id = audit_id;
        rollback_id = rollback_id;
        snapshot_path = snapshot;
        transcript_path = transcript;
        snapshot_sha = s_sha;
        transcript_sha = t_sha;
        snapshot = inner.snapshot;
        row_audit_id = (require_string-eq-ok row _ _ a_ok).0;
        well_formed = ensured (audit_match audit_id) _ matches;
        no_secret = (require_string-eq-ok row _ _ a_ok).1;
        row_rollback_id = (require_string-eq-ok row _ _ r_ok).0;
        row_snapshot = (require_string-eq-ok row _ _ p_ok).0;
        row_transcript = (require_string-eq-ok row _ _ q_ok).0;
        row_snapshot_sha = (require_string-eq-ok row _ _ s_ok).0;
        row_transcript_sha = (require_string-eq-ok row _ _ t_ok).0;
        snapshot_digest = sha256_file-found w _ s_read ∙ ap found (same s_digest s_sha _ s_same);
        transcript_digest = sha256_file-found w _ t_read ∙ ap found (same t_digest t_sha _ t_same);
        snapshot_loaded = inner.loaded;
        snapshot_audit_id = inner.its_audit_id;
        snapshot_rollback_id = inner.its_rollback_id;
      };
      is_new = refuted (in_table audit_id seen) _ unseen;
      grows = sym (ok_injective h16);
    }

abbrev cons_some : Option String → List String → List String
cons_some none ss = ss
cons_some (some s) ss = s ∷ ss

-- The audit ids of the records.
abbrev pub audit_ids : List JsonObject → List String
audit_ids [] = []
audit_ids (row ∷ rows) = cons_some (as_text (get row "audit_id")) (audit_ids rows)

record Records (w : World) (rows : List JsonObject) (seen : List String) : Type 0 where
  passed : All (RecordOk w) rows
  distinct : Distinct (audit_ids rows)
  unseen : Unseen seen (audit_ids rows)

add_record :
    (w : World) (row : JsonObject) (rows : List JsonObject) (seen : List String)
    (r : RecordOk w row)
    → in_table (r.audit_id) seen ≡ false
    → Records w rows (r.audit_id ∷ seen)
    → Records w (row ∷ rows) seen
add_record w row rows seen r new later =
    let (head_new, tail_unseen) = Unseen-tail r.audit_id seen (audit_ids rows) later.unseen in
    record {
      passed = (r, later.passed);
      distinct = rw r.row_audit_id (head_new, later.distinct);
      unseen = rw r.row_audit_id (new, tail_unseen);
    }

validate_records-Records :
    (w : World) (rows : List JsonObject) (seen : List String) (index : ℕ) {seen' : List String}
    → validate_records w rows seen index ≡ ok seen'
    → Records w rows seen
unfolding validate_records
validate_records-Records w [] seen index h = record { passed = tt; distinct = tt; unseen = tt }
validate_records-Records w (row ∷ rows) seen index h =
    let (next, row_ok, rest_ok) = >>=-eq-ok (validate_record w row seen index) _ h in
    let step = validate_record-Step w row seen index row_ok in
    let later = validate_records-Records w rows next (index + 1) rest_ok in
    add_record w row rows seen step.passed step.is_new
      (subst (λ s. Records w rows s) step.grows later)

-- An accepted ledger: its rows are read, each of them has intact artifacts and a snapshot of the
-- same audit and rollback, and no audit id stands twice.
pub record AcceptedLedger (w : World) (path : FilePath) : Type 0 where
  pub rows : List JsonObject
  pub loaded : load_jsonl w path ≡ ok rows
  pub passed : All (RecordOk w) rows
  pub distinct : Distinct (audit_ids rows)

-- In an accepted ledger every record has a well-formed audit id that tells no secret; the files that
-- its fields `rollback_snapshot` and `transcript` name have the digests that its two digest fields give;
-- that snapshot has the record's audit id and rollback id; and the audit ids of the records differ.
pub validate_ledger-AcceptedLedger :
    (w : World) (path : FilePath) → validate_ledger w path ≡ ok tt → AcceptedLedger w path
unfolding validate_ledger
validate_ledger-AcceptedLedger w path h =
    let (rows, loaded, h1) = >>=-eq-ok (load_jsonl w path) _ h in
    let (seen, all_ok) = drop_value-eq-ok (validate_records w rows [] 0) h1 in
    let r = validate_records-Records w rows [] 0 all_ok in
    record { rows = rows; loaded = loaded; passed = r.passed; distinct = r.distinct }
