-- ===== src/Sample/PolicyAbi/Good.antt =====
-- qa/runtime_sample_policy_abi.py, `good_*`: the builders of well-formed evidence.
use exasphere.Base.{
  true, false, List, [], ◌∷◌, String, str_eq, if◌then◌else◌, ok, guard, for_each, ◌≡◌, refl,
  Bool-cases, inl, inr,
}
use exasphere.Json.{
  pos, bool, int, str, arr, obj, Items, nil, cons, JsonObject, end, field, get, has_key,
}
use exasphere.Sample.PolicyAbi.{
  semantics, cgroup_policy_fields, policy_version, abi_label, require_string, require_bool,
  require_int, require_object, require_string_list, require_status, semantics_match,
  validate_cgroup_policy_map, validate_cgroup_callback_stats, validate_dsq_counter_coherence,
  validate_v3_cgroup_evidence, validate_v3_policy_abi, validate_policy_abi_contract,
}

abbrev text_items : List String → Items
text_items [] = nil
text_items (s ∷ ss) = cons (str s) (text_items ss)

abbrev text_fields : List (String × String) → JsonObject
text_fields [] = end
text_fields ((k, v) ∷ rest) = field k (str v) (text_fields rest)

abbrev unavailable_evidence : String → JsonObject
unavailable_evidence reason = field "status" (str "unavailable") (field "reason" (str reason) end)

unfoldable pub good_cgroup_policy_map : String → JsonObject
good_cgroup_policy_map status =
    if str_eq status "unavailable"
    then unavailable_evidence "map unavailable before VM attach"
    else field "status" (str "present") (
        field "map_name" (str "zigsched_cgroup_policy") (
          field "max_entries" (int (pos 1)) (
            field "key" (str "0") (
              field "fields" (arr (text_items cgroup_policy_fields)) (
                field "last_weight" (int (pos 200)) (
                  field "weight_generation" (int (pos 1)) (
                    field "move_generation" (int (pos 1)) (
                      field "callback_observed_knobs" (arr (text_items ("cpu.weight" ∷ []))) (
                        field "observed_knobs"
                          (arr (
                            text_items
                              ("cpuset.cpus" ∷ "cpuset.cpus.effective" ∷ "cpu.pressure" ∷ [])))
                          (field "deferred_knobs" (arr (text_items ("cpu.max" ∷ "uclamp" ∷ [])))
                            end))))))))))

unfoldable pub good_cgroup_callback_stats : String → JsonObject
good_cgroup_callback_stats status =
    if str_eq status "unavailable"
    then unavailable_evidence "callback counters unavailable before VM attach"
    else field "status" (str "present") (
        field "cgroup_init_calls" (int (pos 1)) (
          field "cgroup_exit_calls" (int (pos 1)) (
            field "cgroup_move_calls" (int (pos 1)) (
              field "cgroup_set_weight_calls" (int (pos 1)) (
                field "cgroup_weight_observed" (int (pos 1))
                  (field "cpu_weight_callback_observed" (bool true) end))))))

unfoldable pub good_dsq_counter_coherence : String → JsonObject
good_dsq_counter_coherence status =
    if str_eq status "unavailable"
    then unavailable_evidence "DSQ counters unavailable before VM attach"
    else field "status" (str "present") (
        field "counter_source" (str "zigsched_stats+zigsched_events") (
          field "fifo_insert_dispatch_coherent" (bool true) (
            field "vtime_insert_dispatch_coherent" (bool true)
              (field "dispatch_empty_accounted" (bool true) end))))

unfoldable pub good_policy_abi : String → JsonObject
good_policy_abi object_sha256 = field "policy_name" (str "zigsched_minimal") (
    field "policy_version" (str policy_version) (
      field "struct_ops" (str "zigsched_minimal_ops") (
        field "object_sha256" (str object_sha256) (
          field "btf_required" (bool true) (
            field "abi_version" (int (pos 3)) (
              field "abi_label" (str abi_label) (
                field "cgroup_semantics" (obj (text_fields semantics)) (
                  field "vm_only" (bool true) (
                    field "host_mutation" (bool false) (
                      field "production_claim" (bool false) (
                        field "release_eligible" (bool false) (
                          field "cgroup_policy_map" (obj (good_cgroup_policy_map "present")) (
                            field "cgroup_callback_stats"
                              (obj (good_cgroup_callback_stats "present"))
                              (field "dsq_counter_coherence"
                                (obj (good_dsq_counter_coherence "present")) end))))))))))))))

-- Whatever status the builders are asked for, the contract accepts the evidence that they build.
pub validate-good_evidence :
    (status context : String)
    → (validate_cgroup_policy_map (good_cgroup_policy_map status) context ≡ ok tt)
      × (validate_cgroup_callback_stats (good_cgroup_callback_stats status) context ≡ ok tt)
      × (validate_dsq_counter_coherence (good_dsq_counter_coherence status) context ≡ ok tt)
unfolding validate_cgroup_policy_map good_cgroup_policy_map validate_cgroup_callback_stats
    good_cgroup_callback_stats validate_dsq_counter_coherence good_dsq_counter_coherence
    require_status require_string require_bool require_int require_string_list guard for_each get
    has_key
validate-good_evidence status context = elim (Bool-cases (str_eq status "unavailable")) [
  | inl e ↦ rw e (refl, refl, refl)
  | inr e ↦ rw e (refl, refl, refl)
]

-- The policy ABI that the builder makes is accepted for every object digest that is not empty.
pub validate-good_policy_abi :
    (object_sha256 context : String)
    → str_eq object_sha256 "" ≡ false
    → validate_policy_abi_contract (good_policy_abi object_sha256) context ≡ ok tt
unfolding validate_policy_abi_contract validate_v3_policy_abi validate_v3_cgroup_evidence
    semantics_match validate_cgroup_policy_map good_cgroup_policy_map validate_cgroup_callback_stats
    good_policy_abi good_cgroup_callback_stats validate_dsq_counter_coherence
    good_dsq_counter_coherence require_status require_string require_bool require_int require_object
    require_string_list guard for_each get has_key
validate-good_policy_abi object_sha256 context h = rw h refl
