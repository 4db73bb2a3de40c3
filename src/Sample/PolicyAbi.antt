-- ===== src/Sample/PolicyAbi.antt =====
-- qa/runtime_sample_policy_abi.py: the policy ABI contract of a sample, and the well-formed evidence
-- that the checkers' own samples carry.
pub mod Good
pub mod Laws
use exasphere.Base.{
  ℕ, Bool, true, false, ◌&&◌, ◌||◌, not, Option, none, some, List, [], ◌∷◌, String, str_eq, ◌==◌,
  if◌then◌else◌, Result, ok, raise, guard, drop_value, for_each, policy_abi_error, ◌>>=◌, ◌>>◌,
  ◌<>◌, all,
}
use exasphere.Text.{in_table}
use exasphere.Json.{
  ℤ, pos, negsuc, JsonValue, null, bool, int, str, arr, obj, Items, nil, cons, items, JsonObject,
  get, keys, has_key, as_int, is_text, is_null, is_negative, lt_ℤ,
}

abbrev pub fail {ℓ} : {A : Type ℓ} → String → Result A
fail = raise policy_abi_error

-- `if not condition: raise PolicyAbiError(message)`
abbrev pub ensure : Bool → String → Result (Unit {0})
ensure = guard policy_abi_error

abbrev pub policy_version : String
policy_version = "sched_ext_cgroup_abi_v3"

abbrev pub abi_label : String
abi_label = "zigsched-bpf-abi-v3"

abbrev pub semantics : List (String × String)
semantics =
    ("cpu.weight", "callback-observed")
    ∷ ("cgroup.lifecycle", "observed")
    ∷ ("cgroup.move", "observed")
    ∷ ("cpuset.cpus", "observed-only")
    ∷ ("cpuset.cpus.effective", "observed-only")
    ∷ ("cpu.pressure", "observed-only")
    ∷ ("cpu.max", "deferred")
    ∷ ("uclamp", "deferred")
    ∷ ("cgroup_set_idle", "refused")
    ∷ []

abbrev pub cgroup_policy_fields : List String
cgroup_policy_fields =
    "last_weight" ∷ "weight_generation" ∷ "move_generation" ∷ "callback_observed_knobs"
    ∷ "observed_knobs" ∷ "deferred_knobs" ∷ []

abbrev pub cgroup_callback_stats : List String
cgroup_callback_stats =
    "cgroup_init_calls" ∷ "cgroup_exit_calls" ∷ "cgroup_move_calls" ∷ "cgroup_set_weight_calls"
    ∷ "cgroup_weight_observed" ∷ []

abbrev pub dsq_coherence_fields : List String
dsq_coherence_fields =
    "fifo_insert_dispatch_coherent" ∷ "vtime_insert_dispatch_coherent" ∷ "dispatch_empty_accounted"
    ∷ []

abbrev first_texts : List (String × String) → List String
first_texts [] = []
first_texts ((k, v) ∷ rest) = k ∷ first_texts rest

-- `set(data) == set(table)`
abbrev pub same_keys : JsonObject → List (String × String) → Bool
same_keys data_ table =
    all (λ k. in_table k (first_texts table)) (keys data_)
    && all (has_key data_) (first_texts table)

text_or : JsonValue → String → Result String
text_or (str s) message = if str_eq s "" then fail message else ok s
text_or _ message = fail message

unfoldable pub require_string : JsonObject → String → String → Result String
unfolding text_or
require_string data_ name context =
    text_or (get data_ name) (context <> " missing non-empty string field: " <> name)

bool_or : JsonValue → String → Result Bool
bool_or (bool b) message = ok b
bool_or _ message = fail message

unfoldable pub require_bool : JsonObject → String → String → Result Bool
unfolding bool_or
require_bool data_ name context =
    bool_or (get data_ name) (context <> " missing bool field: " <> name)

int_or : Option ℤ → String → Result ℤ
int_or (some z) message = ok z
int_or none message = fail message

unfoldable pub require_int : JsonObject → String → String → Result ℤ
unfolding int_or
require_int data_ name context =
    int_or (as_int (get data_ name)) (context <> " missing int field: " <> name)

object_or : JsonValue → String → Result JsonObject
object_or (obj fs) message = ok fs
object_or _ message = fail message

unfoldable pub require_object : JsonObject → String → String → Result JsonObject
unfolding object_or
require_object data_ name context =
    object_or (get data_ name) (context <> " missing object field: " <> name)

-- The items as texts, if each of them is a text that is not empty.
texts : List JsonValue → Option (List String)
texts [] = some []
texts (str s ∷ vs) =
    let rest = texts vs in
    if str_eq s "" then none else elim rest [ none ↦ none | some ss ↦ some (s ∷ ss) ]
texts (v ∷ vs) = none

list_or : Option (List String) → String → Result (List String)
list_or none message = fail message
list_or (some ss) message = ok ss

as_texts : JsonValue → Option (List String)
unfolding texts
as_texts (arr vs) = texts (items vs)
as_texts _ = none

unfoldable pub require_string_list : JsonObject → String → String → Result (List String)
unfolding list_or as_texts
require_string_list data_ name context =
    list_or (as_texts (get data_ name)) (context <> " missing string list field: " <> name)

-- `==` of two tuples of texts.
unfoldable pub same_list : List String → List String → Bool
same_list [] [] = true
same_list (s ∷ ss) (t ∷ ts) = str_eq s t && same_list ss ts
same_list _ _ = false

unfoldable pub require_status : JsonObject → String → Result String
require_status data_ context = do
  status ← require_string data_ "status" context
  ensure (in_table status ("present" ∷ "unavailable" ∷ []))
      (context <> ".status must be present or unavailable")
  if str_eq status "unavailable" then drop_value (require_string data_ "reason" context) else ok tt
  ok status

abbrev is_number : ℕ → ℤ → Bool
is_number m (pos n) = n == m
is_number m (negsuc n) = false

policy_map_present : JsonObject → String → Result (Unit {0})
unfolding same_list
policy_map_present evidence context = do
  map_name ← require_string evidence "map_name" context
  ensure (str_eq map_name "zigsched_cgroup_policy")
      (context <> ".map_name must be zigsched_cgroup_policy")
  max_entries ← require_int evidence "max_entries" context
  ensure (is_number 1 max_entries) (context <> ".max_entries must be 1")
  key ← require_string evidence "key" context
  ensure (str_eq key "0") (context <> ".key must be 0")
  fields ← require_string_list evidence "fields" context
  ensure (same_list fields cgroup_policy_fields)
      (context <> ".fields must match ABI-v3 cgroup policy layout")
  for_each ("last_weight" ∷ "weight_generation" ∷ "move_generation" ∷ []) λ name. do
    n ← require_int evidence name context
    ensure (not (is_negative n)) (context <> "." <> name <> " must be nonnegative")
  callback ← require_string_list evidence "callback_observed_knobs" context
  ensure (in_table "cpu.weight" callback)
      (context <> ".callback_observed_knobs must include cpu.weight")
  observed ← require_string_list evidence "observed_knobs" context
  ensure
      (all (λ knob. in_table knob observed)
        ("cpuset.cpus" ∷ "cpuset.cpus.effective" ∷ "cpu.pressure" ∷ []))
      (context <> ".observed_knobs must include observed-only cgroup knobs")
  deferred ← require_string_list evidence "deferred_knobs" context
  ensure (all (λ knob. in_table knob deferred) ("cpu.max" ∷ "uclamp" ∷ []))
      (context <> ".deferred_knobs must keep cpu.max and uclamp deferred")

-- `if require_status(evidence, context) == "unavailable": return`
unless_unavailable : String → Result (Unit {0}) → Result (Unit {0})
unless_unavailable status rest = if str_eq status "unavailable" then ok tt else rest

unfoldable pub validate_cgroup_policy_map : JsonObject → String → Result (Unit {0})
unfolding unless_unavailable policy_map_present
validate_cgroup_policy_map evidence context = do
  status ← require_status evidence context
  unless_unavailable status (policy_map_present evidence context)

callback_stats_present : JsonObject → String → Result (Unit {0})
callback_stats_present evidence context = do
  for_each cgroup_callback_stats λ name. do
    n ← require_int evidence name context
    ensure (not (is_negative n)) (context <> "." <> name <> " must be nonnegative")
  set_weight_calls ← require_int evidence "cgroup_set_weight_calls" context
  if lt_ℤ (pos 0) set_weight_calls
      then (require_bool evidence "cpu_weight_callback_observed" context >>= λ seen.
          ensure seen (
            context
            <> ".cpu_weight_callback_observed must be true when set-weight callbacks fired"))
      else ok tt
  weight_observed ← require_int evidence "cgroup_weight_observed" context
  set_weight_calls' ← require_int evidence "cgroup_set_weight_calls" context
  ensure (not (lt_ℤ set_weight_calls' weight_observed))
      (context <> ".cgroup_weight_observed cannot exceed cgroup_set_weight_calls")

unfoldable pub validate_cgroup_callback_stats : JsonObject → String → Result (Unit {0})
unfolding unless_unavailable callback_stats_present
validate_cgroup_callback_stats evidence context = do
  status ← require_status evidence context
  unless_unavailable status (callback_stats_present evidence context)

dsq_counters_present : JsonObject → String → Result (Unit {0})
dsq_counters_present evidence context = do
  source ← require_string evidence "counter_source" context
  ensure (str_eq source "zigsched_stats+zigsched_events")
      (context <> ".counter_source must be zigsched_stats+zigsched_events")
  for_each dsq_coherence_fields λ name. do
    coherent ← require_bool evidence name context
    ensure coherent (context <> "." <> name <> " must be true")

unfoldable pub validate_dsq_counter_coherence : JsonObject → String → Result (Unit {0})
unfolding unless_unavailable dsq_counters_present
validate_dsq_counter_coherence evidence context = do
  status ← require_status evidence context
  unless_unavailable status (dsq_counters_present evidence context)

unfoldable pub validate_v3_cgroup_evidence : JsonObject → String → Result (Unit {0})
validate_v3_cgroup_evidence abi context = do
  policy_map ← require_object abi "cgroup_policy_map" context
  validate_cgroup_policy_map policy_map (context <> ".cgroup_policy_map")
  stats ← require_object abi "cgroup_callback_stats" context
  validate_cgroup_callback_stats stats (context <> ".cgroup_callback_stats")
  coherence ← require_object abi "dsq_counter_coherence" context
  validate_dsq_counter_coherence coherence (context <> ".dsq_counter_coherence")

-- `set(semantics) != set(SEMANTICS)`, and the loop over SEMANTICS.
unfoldable pub semantics_match : JsonObject → String → Result (Unit {0})
semantics_match labels context = do
  ensure (same_keys labels semantics) (context <> " keys do not match ABI-v3 contract")
  for_each semantics λ (knob, expected).
      ensure (is_text expected (get labels knob))
        (context <> "." <> knob <> " must be " <> expected)

unfoldable pub validate_v3_policy_abi : JsonObject → String → Result (Unit {0})
validate_v3_policy_abi abi context = do
  version ← require_string abi "policy_version" context
  ensure (str_eq version policy_version) (context <> ".policy_version must be " <> policy_version)
  abi_version ← require_int abi "abi_version" context
  ensure (is_number 3 abi_version) (context <> ".abi_version must be 3")
  label ← require_string abi "abi_label" context
  ensure (str_eq label abi_label) (context <> ".abi_label must be " <> abi_label)
  vm_only ← require_bool abi "vm_only" context
  ensure vm_only (context <> ".vm_only must be true")
  host_mutation ← require_bool abi "host_mutation" context
  ensure (not host_mutation) (context <> ".host_mutation must be false")
  production_claim ← require_bool abi "production_claim" context
  ensure (not production_claim) (context <> ".production_claim must be false")
  release_eligible ← require_bool abi "release_eligible" context
  ensure (not release_eligible) (context <> ".release_eligible must be false")
  labels ← require_object abi "cgroup_semantics" context
  semantics_match labels (context <> ".cgroup_semantics")
  validate_v3_cgroup_evidence abi context

unfoldable pub validate_policy_abi_contract : JsonObject → String → Result (Unit {0})
validate_policy_abi_contract abi context = do
  for_each ("policy_name" ∷ "policy_version" ∷ "struct_ops" ∷ "object_sha256" ∷ [])
      λ name. drop_value (require_string abi name context)
  drop_value (require_bool abi "btf_required" context)
  if is_null (get abi "abi_version") then ok tt else validate_v3_policy_abi abi context
