-- ===== src/Daemon/Task9.antt =====
-- qa/daemon_event_contract_check.py: `require_task9_lifecycle`, which links the events of a rollback to
-- the audit ledger and to the refusals.
use exasphere.Checks.{member_of}
use exasphere.Base.{
  ℕ, suc, Bool, true, false, ◌&&◌, ◌||◌, not, Option, none, some, List, [], ◌∷◌, String, str_eq,
  ◌==◌, if◌then◌else◌, length, all, Result, ok, ◌>>=◌, ◌>>◌, ◌<>◌, for_each, drop_value,
}
use exasphere.Text.{codes, in_table, is_hex}
use exasphere.Text.Digits.{show}
use exasphere.Json.{ℤ, pos, JsonValue, bool, str, JsonObject, get, is_text, as_int}
use exasphere.Json.Equality.{value_eq}
use exasphere.World.{World, FilePath, path_of, path_text, parts, is_absolute}
use exasphere.Daemon.{
  fail, ensure, require_string, require_object, EventRow, load_rows, load_jsonl_objects,
  lifecycle_complete, show_int,
}

unfoldable pub require_artifact : World → EventRow → String → Result FilePath
require_artifact w row label = do
  raw ← require_string row.raw "artifact" label
  let artifact = path_of raw
  ensure (not (is_absolute artifact) && not (in_table ".." (parts artifact)) && w.exists artifact)
      (label <> " artifact is unsafe or missing: " <> path_text artifact)
  ok artifact

unfoldable pub find_event : List EventRow → String → Result EventRow
find_event [] event = fail ("missing event: " <> event)
find_event (row ∷ rows) event = if str_eq row.event event then ok row else find_event rows event

-- SHA256_RE under `match`: a line feed may follow the digits.
unfoldable pub sha256_match : List ℕ → Bool
sha256_match s = all is_hex s && length s == 64

abbrev without_line_feed : List ℕ → List ℕ
without_line_feed [] = []
without_line_feed (c ∷ []) = if c == 10 then [] else c ∷ []
without_line_feed (c ∷ s) = c ∷ without_line_feed s

-- The digest's test: a text of 64 hexadecimal digits, not all of them zero. The table of unavailable
-- words holds no text of that length.
unfoldable pub observed_digest : JsonValue → Bool
unfolding codes sha256_match
observed_digest (str s) =
    sha256_match (without_line_feed (codes s))
    && not (length (codes s) == 64 && all (λ c. c == b'0') (codes s))
observed_digest _ = false

abbrev is_bool : JsonValue → Bool
is_bool (bool b) = true
is_bool _ = false

-- One sample; whether it shows the live policy.
unfoldable pub task9_sample : ℕ → JsonObject → Result Bool
task9_sample index row = do
  let context = "runtime sample " <> show index
  ensure (is_text "vm_serial_sched_ext" (get row "observation_source"))
      (context <> ": missing VM observation source")
  known_event ←
      member_of ("before" ∷ "register" ∷ "unregister" ∷ []) (get row "sample_source_event")
  ensure known_event (context <> ": unsupported sample source event")
  ops ← require_object row "ops" context
  ensure (observed_digest (get row "cgroup_membership_digest"))
      (context <> ": missing observed sha256 cgroup digest")
  cgroup_status ← require_object row "cgroup_membership_status" context
  ensure
      (is_text "present" (get cgroup_status "status")
        && is_text "present" (get cgroup_status "value"))
      (context <> ": cgroup membership was not observed present")
  ensure (is_bool (get row "workload_alive")) (context <> ": missing observed workload state")
  ok (is_text "zigsched_minimal" (get ops "value"))

unfoldable pub task9_samples : ℕ → Bool → List JsonObject → Result (Unit {0})
task9_samples index saw_live_ops [] =
    ensure saw_live_ops "runtime samples never observed zigsched_minimal"
task9_samples index saw_live_ops (row ∷ rows) = do
  live ← task9_sample index row
  task9_samples (suc index) (saw_live_ops || live) rows

unfoldable pub validate_task9_runtime_samples : World → FilePath → Result (Unit {0})
validate_task9_runtime_samples w path = do
  rows ← load_jsonl_objects w path "runtime_sample"
  task9_samples 0 false rows

-- `load_jsonl_objects(...)[0]`: the list is not empty.
unfoldable pub first_row : List JsonObject → Result JsonObject
first_row [] = fail "artifact is empty"
first_row (row ∷ rows) = ok row

unfoldable pub validate_task9_rollback_link : World → EventRow → FilePath → Result (String × String)
unfolding first_row
validate_task9_rollback_link w rollback ledger_path = do
  rows ← load_jsonl_objects w ledger_path "rollback"
  ledger ← first_row rows
  ledger_rollback_id ← require_string ledger "rollback_id" "rollback ledger"
  ledger_audit_id ← require_string ledger "audit_id" "rollback ledger"
  let context = "event " <> show_int rollback.seq_number
  daemon_rollback_id ← require_string rollback.raw "rollback_id" context
  daemon_audit_id ← require_string rollback.raw "audit_id" context
  ensure (str_eq daemon_rollback_id ledger_rollback_id && str_eq daemon_audit_id ledger_audit_id)
      "daemon rollback event IDs do not match audit ledger"
  ok (ledger_rollback_id, ledger_audit_id)

-- The first refusal in the given state.
unfoldable pub in_state : JsonValue → List JsonObject → Option JsonObject
in_state state [] = none
in_state state (item ∷ refusals) =
    if value_eq (get item "state") state then some item else in_state state refusals

-- `isinstance(bpftool_rc, int) and bpftool_rc != 0`
abbrev pub is_failing : Option ℤ → Bool
is_failing (some (pos n)) = not (n == 0)
is_failing (some z) = true
is_failing none = false

unfoldable pub refusal_ids : EventRow → String → String → Option JsonObject → Result (Unit {0})
refusal_ids row rollback_id audit_id none =
    fail ("event " <> show_int row.seq_number <> ": refusal artifact missing state")
refusal_ids row rollback_id audit_id (some refusal) = do
  let context = "event " <> show_int row.seq_number
  ensure
      (is_text rollback_id (get refusal "rollback_id") && is_text audit_id (get refusal "audit_id"))
      (context <> ": refusal artifact IDs do not match ledger")
  ensure
      (not (is_text "stale_target_refused" (get row.raw "state"))
        || is_text "refuse_stale_rollback_target" (get refusal "refusal_path"))
      (context <> ": stale refusal was not produced by VM refusal path")
  ensure
      (not (is_text "duplicate_rollback_refused" (get row.raw "state"))
        || is_failing (as_int (get refusal "bpftool_rc")))
      (context <> ": duplicate refusal lacks failing bpftool rc")

unfoldable pub validate_task9_refusal_link : World → EventRow → String × String → Result (Unit {0})
unfolding refusal_ids
validate_task9_refusal_link w row (rollback_id, audit_id) = do
  let context = "event " <> show_int row.seq_number
  row_rollback_id ← require_string row.raw "rollback_id" context
  ensure (str_eq row_rollback_id rollback_id)
      (context <> ": refusal rollback_id does not match ledger")
  row_audit_id ← require_string row.raw "audit_id" context
  ensure (str_eq row_audit_id audit_id) (context <> ": refusal audit_id does not match ledger")
  artifact ← require_artifact w row context
  refusals ← load_jsonl_objects w artifact (context <> " refusal")
  refusal_ids row rollback_id audit_id (in_state (get row.raw "state") refusals)

-- A row in a refusal's state.
unfoldable pub refused_row : World → String × String → EventRow → Result (Unit {0})
refused_row w ids row = do
  refused ← member_of ("REFUSE" ∷ "refused" ∷ []) (get row.raw "status")
  ensure refused ("event " <> show_int row.seq_number <> ": refusal state must use refused status")
  ensure (not row.host_mutation)
      ("event " <> show_int row.seq_number <> ": refusal must be host_mutation=false")
  validate_task9_refusal_link w row ids

unfoldable pub validate_refusal : World → String × String → EventRow → Result (Unit {0})
validate_refusal w ids row = do
  in_refusal ←
      member_of ("stale_target_refused" ∷ "duplicate_rollback_refused" ∷ []) (get row.raw "state")
  if in_refusal then refused_row w ids row else ok tt

-- `{require_string(row.raw, "state", ...) for row in rows}`
unfoldable pub states_of : List EventRow → Result (List String)
states_of [] = ok []
states_of (row ∷ rows) = do
  state ← require_string row.raw "state" ("event " <> show_int row.seq_number)
  states ← states_of rows
  ok (state ∷ states)

abbrev pub task9_states : List String
task9_states = "vm_live_validated" ∷ "stale_target_refused" ∷ "duplicate_rollback_refused" ∷ []

unfoldable pub require_task9_lifecycle : World → FilePath → Result (Unit {0})
require_task9_lifecycle w path = do
  rows ← load_rows w path
  lifecycle_complete rows
  states ← states_of rows
  for_each task9_states
      (λ state. ensure (in_table state states) ("missing Task 9 state: " <> state))
  verifier ← find_event rows "verifier"
  attach ← find_event rows "attach"
  runtime ← find_event rows "runtime_sample"
  rollback ← find_event rows "rollback"
  runtime_artifact ← require_artifact w runtime "runtime_sample"
  rollback_artifact ← require_artifact w rollback "rollback"
  drop_value (require_artifact w verifier "verifier")
  drop_value (require_artifact w attach "attach")
  ensure (is_text "zigsched_minimal" (get runtime.raw "ops"))
      "runtime_sample does not show zigsched_minimal"
  validate_task9_runtime_samples w runtime_artifact
  rollback_ids ← validate_task9_rollback_link w rollback rollback_artifact
  for_each rows (validate_refusal w rollback_ids)
