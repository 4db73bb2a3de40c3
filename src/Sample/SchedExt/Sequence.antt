-- ===== src/Sample/SchedExt/Sequence.antt =====
-- qa/runtime_sample_sched_ext.py, `validate_sched_ext_sequence`: the loop over the samples of a file
-- with the last sequence number and the last enable_seq that it carries.
pub mod Laws
use exasphere.Checks.{member_of}
use exasphere.Base.{
  ℕ, Bool, true, false, ◌&&◌, ◌||◌, not, Option, none, some, List, [], ◌∷◌, ◌+◌, String, str_eq,
  leb, if◌then◌else◌, Result, ok, raise, type_error, ◌>>=◌, ◌>>◌, ◌<>◌,
}
use exasphere.Text.{in_table}
use exasphere.Text.Digits.{show}
use exasphere.Json.{ℤ, JsonValue, str, arr, obj, JsonObject, get, lookup, as_int, is_text, lt_ℤ}
use exasphere.Sample.Common.{ensure}
use exasphere.Sample.SchedExt.{numeric_fact_value, fact_text}

-- `isinstance(sequence, int)` and the check against the last number: the number to carry on.
unfoldable pub next_sequence : Option ℤ → Option ℤ → String → Result (Option ℤ)
next_sequence last none context = ok last
next_sequence none (some n) context = ok (some n)
next_sequence (some m) (some n) context = do
  ensure (lt_ℤ m n) (context <> ".sequence must increase monotonically")
  ok (some n)

unfoldable pub next_enable_seq : Option ℕ → Option ℕ → String → Result (Option ℕ)
next_enable_seq last none context = ok last
next_enable_seq none (some n) context = ok (some n)
next_enable_seq (some m) (some n) context = do
  ensure (leb m n) (context <> ".enable_seq is stale relative to earlier sched_ext state")
  ok (some n)

abbrev pub ended_phases : List String
ended_phases =
    "after_rollback" ∷ "after_scheduler_exit" ∷ "after_watchdog_disable" ∷ "after_forced_disable"
    ∷ []

-- The conditions of a phase after the scheduler has ended.
abbrev phase_name : JsonValue → String
phase_name (str s) = s
phase_name _ = ""

ended_phase_ok : JsonValue → String → String → String → Result (Unit {0})
ended_phase_ok phase state_value ops_value context = do
  ensure (in_table state_value ("disabled" ∷ "unknown" ∷ "unavailable" ∷ []))
      (context <> "." <> phase_name phase <> " must report disabled/unknown/unavailable state")
  ensure
      (not (
        str_eq state_value "disabled"
        && not (in_table ops_value ("none" ∷ "unavailable" ∷ "unknown" ∷ []))))
      (context <> "." <> phase_name phase <> " disabled state must not report live root ops")

-- The conditions between a sample's phase, its state and its root ops.
unfoldable pub phase_ok : JsonValue → String → String → String → Result (Unit {0})
unfolding ended_phase_ok
phase_ok phase state_value ops_value context = do
  ensure (not (is_text "before_attach" phase && str_eq state_value "enabled"))
      (context <> ".sched_ext_phase before_attach cannot report enabled state")
  ended ← member_of ended_phases phase
  if ended then ended_phase_ok phase state_value ops_value context else ok tt

-- One round of the loop: the two numbers to carry on.
unfoldable pub sequence_row :
    Option ℤ → Option ℕ → JsonObject → String → Result (Option ℤ × Option ℕ)
sequence_row last_sequence last_enable_seq row context = do
  sequence ← next_sequence last_sequence (as_int (get row "sequence")) context
  found ← numeric_fact_value row "enable_seq"
  enable_seq ← next_enable_seq last_enable_seq found context
  phase_ok (get row "sched_ext_phase") (fact_text (get row "state")) (fact_text (get row "ops"))
      context
  ok (sequence, enable_seq)

unfoldable pub sequence_from : ℕ → Option ℤ → Option ℕ → List JsonObject → Result (Unit {0})
sequence_from index last_sequence last_enable_seq [] = ok tt
sequence_from index last_sequence last_enable_seq (row ∷ rows) = do
  (sequence, enable_seq) ←
      sequence_row last_sequence last_enable_seq row ("sample[" <> show index <> "]")
  sequence_from (index + 1) sequence enable_seq rows

unfoldable pub validate_sched_ext_sequence : List JsonObject → Result (Unit {0})
unfolding sequence_from
validate_sched_ext_sequence rows = sequence_from 0 none none rows
