-- ===== src/Sample/SchedExt.antt =====
-- qa/runtime_sample_sched_ext.py: the sched_ext facts of a sample and of a sequence of samples.
pub mod Laws
pub mod Sequence
use exasphere.Base.{
  ℕ, Bool, true, false, ◌&&◌, ◌||◌, not, Option, none, some, List, [], ◌∷◌, ◌+◌, String, str_eq,
  leb, ltb, if◌then◌else◌, Result, ok, raise, guard, drop_value, for_each, key_error, ◌>>=◌, ◌>>◌,
  ◌<>◌,
}
use exasphere.Text.{codes, in_table, strip}
use exasphere.Text.Digits.{show, is_decimal, int_or_none}
use exasphere.Json.{
  ℤ, pos, negsuc, JsonValue, null, bool, int, str, arr, obj, JsonObject, get, lookup, has_key,
  as_int, is_text, as_text, keys,
}
use exasphere.Sample.Digest.{is_digest_summary}
use exasphere.Sample.PolicyAbi.{semantics_match}
use exasphere.Sample.Common.{
  Fact, fail, ensure, optional_object, reject_private_leaks, require_object, require_string,
  validate_fact,
}

abbrev pub sched_states : List String
sched_states = "disabled" ∷ "enabled" ∷ "enabling" ∷ "disabling" ∷ "unknown" ∷ "unavailable" ∷ []

abbrev pub sched_ext_phases : List String
sched_ext_phases =
    "before_attach" ∷ "during_attach" ∷ "after_attach" ∷ "after_rollback" ∷ "after_scheduler_exit"
    ∷ "after_watchdog_disable" ∷ "after_forced_disable" ∷ []

abbrev pub task_ext_unavailable_values : List String
task_ext_unavailable_values = "" ∷ "unknown" ∷ "unavailable" ∷ []

-- `str(value)`. `none` stands for the text of a float, a list or a dictionary, or a negative number:
-- it holds a point, a sign, a bracket or the letters of "nan" and "inf", so it is no decimal and no
-- word that the checks name.
abbrev text_of : JsonValue → Option String
text_of (str s) = some s
text_of null = some "None"
text_of (bool true) = some "True"
text_of (bool false) = some "False"
text_of (int (pos n)) = some (show n)
text_of _ = none

abbrev text_or_empty : Option String → String
text_or_empty none = "?"
text_or_empty (some s) = s

unfoldable pub validate_nonnegative_fact_value : Fact → String → String → Result (Unit {0})
validate_nonnegative_fact_value fact name context =
    let value = strip fact.value in
    if str_eq value "unavailable"
    then ok tt
    else ensure (is_decimal (codes value))
        (context <> "." <> name <> " must be a nonnegative integer or unavailable")

-- `row[...]["value"]`: a `KeyError` where the key is missing.
abbrev value_text : Option JsonValue → Result String
value_text none = raise key_error "value"
value_text (some v) = ok (text_or_empty (text_of v))

unfoldable pub numeric_fact_value : JsonObject → String → Result (Option ℕ)
numeric_fact_value row name = do
  fact ← require_object row name "runtime sample"
  value ← value_text (lookup fact "value")
  int_or_none (codes (strip value))

unfoldable pub validate_sched_ext_facts : JsonObject → String → Result (Unit {0})
validate_sched_ext_facts row context = do
  state ← validate_fact row "state" context
  let state_value = strip state.value
  ensure (not (str_eq state.status "present" && not (in_table state_value sched_states)))
      (context <> ".state has unsupported sched_ext state: " <> state_value)
  drop_value (validate_fact row "ops" context)
  enable_seq ← validate_fact row "enable_seq" context
  validate_nonnegative_fact_value enable_seq "enable_seq" context
  drop_value (validate_fact row "events" context)
  nr_rejected ← validate_fact row "nr_rejected" context
  validate_nonnegative_fact_value nr_rejected "nr_rejected" context
  debug_dump ← validate_fact row "debug_dump" context
  ensure (not (str_eq debug_dump.status "present" && not (is_digest_summary debug_dump.value)))
      (context <> ".debug_dump must be a redacted digest summary")
  for_each ("root_ops" ∷ "scheduler_events" ∷ [])
      λ name. if has_key row name then drop_value (validate_fact row name context) else ok tt

task_ext_fact : Fact → String → Result (Unit {0})
task_ext_fact fact context =
    if str_eq fact.status "present"
    then ensure (in_table fact.value ("true" ∷ "false" ∷ []))
        (context <> ".task_ext_enabled present evidence must be true or false")
    else ensure (in_table fact.value task_ext_unavailable_values)
        (context <> ".task_ext_enabled unavailable evidence must be explicit")

unfoldable pub validate_task_ext_enabled : JsonObject → String → Result (Unit {0})
unfolding task_ext_fact
validate_task_ext_enabled row context = do
  task_ext ← optional_object row "task_ext_enabled" context
  elim task_ext [
    | none ↦ ok tt
    | some _ ↦ (validate_fact row "task_ext_enabled" context >>= λ fact. task_ext_fact fact context)
  ]

unfoldable pub validate_cgroup_semantic_labels : JsonObject → String → Result (Unit {0})
validate_cgroup_semantic_labels row context = do
  found ← optional_object row "cgroup_semantic_labels" context
  elim found [
    | none ↦ ok tt
    | some labels ↦ semantics_match labels (context <> ".cgroup_semantic_labels")
  ]

unfoldable pub validate_teardown_rollback : JsonObject → String → Result (Unit {0})
validate_teardown_rollback row context =
    for_each ("teardown_state" ∷ "rollback_state" ∷ [])
      λ name. if has_key row name then drop_value (validate_fact row name context) else ok tt

unfoldable pub validate_sched_ext_phase : JsonObject → String → Result (Unit {0})
validate_sched_ext_phase row context = if not (has_key row "sched_ext_phase") then ok tt else do
  phase ← require_string row "sched_ext_phase" context
  reject_private_leaks (str phase) (context <> ".sched_ext_phase")
  ensure (in_table phase sched_ext_phases) (context <> ".sched_ext_phase has unsupported value")

-- `str(x.get("value", "")) if isinstance(x, dict) else ""`
abbrev default_text : Option JsonValue → String
default_text none = ""
default_text (some v) = text_or_empty (text_of v)

unfoldable pub fact_text : JsonValue → String
fact_text (obj fact) = default_text (lookup fact "value")
fact_text _ = ""
