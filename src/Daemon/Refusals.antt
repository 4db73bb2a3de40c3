-- ===== src/Daemon/Refusals.antt =====
-- qa/daemon_event_contract_check.py, `require_task9_lifecycle`: the refusals of a stream are linked to
-- the audit ledger.
use exasphere.Checks.{is_one_of}
use exasphere.Base.{◌≡◌, Bool, true, false, some, List, [], ◌∷◌, String, ok, All}
use exasphere.Json.{str, JsonObject, get, is_text, as_int}
use exasphere.World.{World, FilePath, path_of}
use exasphere.Daemon.{EventRow, load_rows, load_jsonl_objects}
use exasphere.Daemon.Laws.{Complete}
use exasphere.Daemon.Task9.{find_event, first_row, in_state, is_failing}

-- The refusal that stands for an event in a refusal artifact: it has the ids of the ledger, a stale one
-- took the refusal path of the VM, and for a duplicate the tool failed.
pub record RefusalOk (refusal : JsonObject) (row : EventRow) (rollback_id audit_id : String)
    : Type 0 where
  pub rollback_stands : get refusal "rollback_id" ≡ str rollback_id
  pub audit_stands : get refusal "audit_id" ≡ str audit_id
  pub stale_path :
      is_text "stale_target_refused" (get row.raw "state") ≡ true
      → get refusal "refusal_path" ≡ str "refuse_stale_rollback_target"
  pub duplicate_fails :
      is_text "duplicate_rollback_refused" (get row.raw "state") ≡ true
      → is_failing (as_int (get refusal "bpftool_rc")) ≡ true

-- The file that an event names in its field `artifact`.
pub record ArtifactOf (row : EventRow) (path : FilePath) : Type 0 where
  pub raw : String
  pub stands : get row.raw "artifact" ≡ str raw
  pub is_its_path : path ≡ path_of raw

-- An event in a refusal's state, and the refusal of its artifact: the first of the artifact's rows that
-- is in the event's state.
pub record LinkOk (w : World) (row : EventRow) (rollback_id audit_id : String) : Type 0 where
  pub artifact : FilePath
  pub label : String
  pub refusals : List JsonObject
  pub refusal : JsonObject
  pub is_artifact : ArtifactOf row artifact
  pub loaded : load_jsonl_objects w artifact label ≡ ok refusals
  pub row_rollback : get row.raw "rollback_id" ≡ str rollback_id
  pub row_audit : get row.raw "audit_id" ≡ str audit_id
  pub in_artifact : in_state (get row.raw "state") refusals ≡ some refusal
  pub refusal_ok : RefusalOk refusal row rollback_id audit_id

-- Whether an event is in the state of a refusal.
abbrev pub is_refusal : EventRow → Bool
is_refusal row =
    is_one_of ("stale_target_refused" ∷ "duplicate_rollback_refused" ∷ []) (get row.raw "state")

-- What is asked of an event in the state of a refusal.
pub record RefusedOk (w : World) (row : EventRow) (rollback_id audit_id : String) : Type 0 where
  pub refused_status : is_one_of ("REFUSE" ∷ "refused" ∷ []) (get row.raw "status") ≡ true
  pub no_mutation : row.host_mutation ≡ false
  pub link : LinkOk w row rollback_id audit_id

-- The ids of the audit ledger that the rollback event refers to: the event has them too.
pub record RollbackIds (w : World) (rollback : EventRow) (path : FilePath) (ids : String × String)
    : Type 0 where
  pub rows : List JsonObject
  pub ledger : JsonObject
  pub loaded : load_jsonl_objects w path "rollback" ≡ ok rows
  pub is_first : first_row rows ≡ ok ledger
  pub ledger_rollback : get ledger "rollback_id" ≡ str ids.0
  pub ledger_audit : get ledger "audit_id" ≡ str ids.1
  pub event_rollback : get rollback.raw "rollback_id" ≡ str ids.0
  pub event_audit : get rollback.raw "audit_id" ≡ str ids.1

pub record Task9Ok (w : World) (path : FilePath) : Type 0 where
  pub rows : List EventRow
  pub rollback : EventRow
  pub ledger_path : FilePath
  pub ledger_is_artifact : ArtifactOf rollback ledger_path
  pub ids : String × String
  pub loaded : load_rows w path ≡ ok rows
  pub complete : Complete rows
  pub found : find_event rows "rollback" ≡ ok rollback
  pub ledger_ids : RollbackIds w rollback ledger_path ids
  pub refusals : All (λ row. is_refusal row ≡ true → RefusedOk w row ids.0 ids.1) rows
