-- ===== src/Sample/Core/Laws.antt =====
-- What an accepted sample, and an accepted file of samples, promise.
use exasphere.Base.{
  ℕ, ◌+◌, Bool, drop_value-eq-ok, ◌≡◌, refl, ap, ◌∙◌, true, false, List, [], ◌∷◌, String, eq_iff,
  Result, ok, err, >>-eq-ok, >>=-eq-ok, drop_value, ◌<>◌, All, all, and_join,
}
use exasphere.Text.{in_table}
use exasphere.Text.Digits.{show}
use exasphere.Json.{JsonValue, bool, str, obj, JsonObject, end, field, get, keys, is_null}
use exasphere.World.{World, FilePath}
use exasphere.Sample.Fields.{root_fields}
use exasphere.Sample.PolicyAbi.{validate_policy_abi_contract}
use exasphere.Sample.PolicyAbi.Laws.{SafeFlags, validate_policy_abi_contract-SafeFlags}
use exasphere.Sample.Common.{
  reject_private_leaks, require_string, require_bool, require_int, require_object, load_jsonl,
}
use exasphere.Sample.Common.Typed.{
  require_string-eq-ok, require_bool-eq-ok, require_object-eq-ok, ensured, refuted,
}
use exasphere.Sample.Common.Privacy.{Within, Safe, reject_private_leaks_iff}
use exasphere.Sample.SchedExt.{
  validate_sched_ext_facts, validate_sched_ext_phase, validate_task_ext_enabled,
  validate_cgroup_semantic_labels, validate_teardown_rollback,
}
use exasphere.Sample.SchedExt.Laws.{
  FactsOk, KnownPhase, FactsWherePresent, optional_facts, validate_sched_ext_facts-FactsOk,
  validate_sched_ext_phase-KnownPhase,
}
use exasphere.Sample.SchedExt.Sequence.Laws.{
  sequences, enable_seqs, Rising, NonDecreasing, PhaseRule, validate_sched_ext_sequence_sound,
}
use exasphere.Sample.Core.{
  sample_schema, is_sha256_digest, validate_digest, validate_root_fields, convert_policy_abi_error,
  status_facts, validate_optional_counter_sets, validate_scheduler_telemetry, validate_policy_abi,
  validate_sample, validate_samples, validate_file,
}

-- The policy metadata of a sample.
pub record SafePolicy (row : JsonObject) : Type 0 where
  pub abi : JsonObject
  pub stands : get row "policy_abi" ≡ obj abi
  pub flags : is_null (get abi "abi_version") ≡ false → SafeFlags abi

pub record Accepted (row : JsonObject) : Type 0 where
  pub no_leak : (w : JsonValue) → Within w (obj row) → Safe w
  pub known_fields : all (λ name. in_table name root_fields) (keys row) ≡ true
  pub schema : get row "schema" ≡ str sample_schema
  pub membership :
      (d : String) × (get row "cgroup_membership_digest" ≡ str d) × (is_sha256_digest d ≡ true)
  pub facts : FactsOk row
  pub phase : KnownPhase row
  pub statuses : FactsWherePresent row ("cgroup_membership_status" ∷ "workload" ∷ [])
  pub alive : (b : Bool) × (get row "workload_alive" ≡ bool b)
  pub teardown : FactsWherePresent row ("teardown_state" ∷ "rollback_state" ∷ [])
  pub no_command_lines : get row "private_command_lines_sampled" ≡ bool false
  pub policy : SafePolicy row

validate_root_fields-known :
    (row : JsonObject) (context : String)
    → validate_root_fields row context ≡ ok tt
    → all (λ name. in_table name root_fields) (keys row) ≡ true
unfolding validate_root_fields
validate_root_fields-known end context h = refl
validate_root_fields-known (field name v rest) context h =
    let (known, rest_ok) = >>-eq-ok _ _ h in
    and_join (in_table name root_fields) _ (ensured _ _ known)
      (validate_root_fields-known rest context rest_ok)

converted-eq-ok : (r : Result (Unit {0})) → convert_policy_abi_error r ≡ ok tt → r ≡ ok tt
unfolding convert_policy_abi_error
converted-eq-ok (ok tt) h = refl
converted-eq-ok (err e) h = cc

validate_policy_abi-SafePolicy :
    (row : JsonObject) (context : String) → validate_policy_abi row context ≡ ok tt → SafePolicy row
unfolding validate_policy_abi
validate_policy_abi-SafePolicy row context h =
    let (abi, found, h1) = >>=-eq-ok (require_object row "policy_abi" context) _ h in
    let (contract, _) =
      >>-eq-ok
        (convert_policy_abi_error (validate_policy_abi_contract abi (context <> ".policy_abi")))
        (reject_private_leaks (obj abi) (context <> ".policy_abi")) h1 in
    record {
      abi = abi;
      stands = require_object-eq-ok row _ _ found;
      flags = λ named.
          validate_policy_abi_contract-SafeFlags abi (context <> ".policy_abi") named
            (converted-eq-ok _ contract);
    }

validate_digest-eq-ok :
    (d context : String) → validate_digest d context ≡ ok tt → is_sha256_digest d ≡ true
unfolding validate_digest
validate_digest-eq-ok d context h = ensured (is_sha256_digest d) _ h

-- Whatever a sample's index, acceptance means all of `Accepted`.
pub validate_sample-Accepted :
    (row : JsonObject) (index : ℕ) → validate_sample row index ≡ ok tt → Accepted row
unfolding validate_sample status_facts validate_teardown_rollback
validate_sample-Accepted row index h =
    let context = "sample[" <> show index <> "]" in
    let (leaks, h1) = >>-eq-ok _ _ h in
    let (roots, h2) = >>-eq-ok _ _ h1 in
    let (schema, schema_ok, h3) = >>=-eq-ok (require_string row "schema" context) _ h2 in
    let (schema_same, h4) = >>-eq-ok _ _ h3 in
    let (_, h5) = >>-eq-ok (drop_value (require_int row "sequence" context)) _ h4 in
    let (facts, h6) = >>-eq-ok (validate_sched_ext_facts row context) _ h5 in
    let (phase, h7) = >>-eq-ok (validate_sched_ext_phase row context) _ h6 in
    let (_, h8) = >>-eq-ok (drop_value (require_string row "events_hash" context)) _ h7 in
    let (d, d_ok, h9) = >>=-eq-ok (require_string row "cgroup_membership_digest" context) _ h8 in
    let (d_sha, h10) = >>-eq-ok _ _ h9 in
    let (statuses, h11) = >>-eq-ok (status_facts row context) _ h10 in
    let (alive, h12) = >>-eq-ok (drop_value (require_bool row "workload_alive" context)) _ h11 in
    let (alive_value, alive_ok) = drop_value-eq-ok _ alive in
    let (sampled, sampled_ok, h13) =
      >>=-eq-ok (require_bool row "private_command_lines_sampled" context) _ h12 in
    let (unsampled, h14) = >>-eq-ok _ _ h13 in
    let (_, h15) = >>-eq-ok (validate_optional_counter_sets row context) _ h14 in
    let (_, h16) = >>-eq-ok (validate_task_ext_enabled row context) _ h15 in
    let (_, h17) = >>-eq-ok (validate_cgroup_semantic_labels row context) _ h16 in
    let (teardown, h18) = >>-eq-ok (validate_teardown_rollback row context) _ h17 in
    let (_, policy_ok) = >>-eq-ok (validate_scheduler_telemetry row context) _ h18 in
    record {
      no_leak = (reject_private_leaks_iff (obj row) context).0 leaks;
      known_fields = validate_root_fields-known row context roots;
      schema =
          (require_string-eq-ok row _ _ schema_ok).0
          ∙ ap str ((eq_iff schema sample_schema).0 (ensured _ _ schema_same));
      membership = (d, (require_string-eq-ok row _ _ d_ok).0, validate_digest-eq-ok d _ d_sha);
      facts = validate_sched_ext_facts-FactsOk row context facts;
      phase = validate_sched_ext_phase-KnownPhase row context phase;
      statuses = optional_facts row context _ statuses;
      alive = (alive_value, require_bool-eq-ok row _ _ alive_ok);
      teardown = optional_facts row context _ teardown;
      no_command_lines =
          require_bool-eq-ok row _ _ sampled_ok ∙ ap bool (refuted sampled _ unsampled);
      policy = validate_policy_abi-SafePolicy row context policy_ok;
    }

validate_samples-Accepted :
    (rows : List JsonObject) (index : ℕ) → validate_samples index rows ≡ ok tt → All Accepted rows
unfolding validate_samples
validate_samples-Accepted [] index h = tt
validate_samples-Accepted (row ∷ rows) index h =
    let (here, later) = >>-eq-ok (validate_sample row index) _ h in
    (validate_sample-Accepted row index here, validate_samples-Accepted rows (index + 1) later)

-- The rows of an accepted file.
pub record AcceptedFile (w : World) (path : FilePath) : Type 0 where
  pub rows : List JsonObject
  pub loaded : load_jsonl w path ≡ ok rows
  pub samples : All Accepted rows
  pub rising : Rising (sequences rows)
  pub non_decreasing : NonDecreasing (enable_seqs rows)
  pub phases : All PhaseRule rows

pub validate_file-AcceptedFile :
    (w : World) (path : FilePath) → validate_file w path ≡ ok tt → AcceptedFile w path
unfolding validate_file
validate_file-AcceptedFile w path h =
    let (rows, loaded, h1) = >>=-eq-ok (load_jsonl w path) _ h in
    let (samples, sequence) = >>-eq-ok _ _ h1 in
    let (rising, non_decreasing, phases) = validate_sched_ext_sequence_sound rows sequence in
    record {
      rows = rows;
      loaded = loaded;
      samples = validate_samples-Accepted rows 0 samples;
      rising = rising;
      non_decreasing = non_decreasing;
      phases = phases;
    }
