-- ===== src/Sample/Order.antt =====
-- qa/runtime_sample_core.py, `validate_alert_order`: an incident stands after the sample that shows it.
pub mod Laws
use exasphere.Base.{
  ℕ, Bool, true, false, ◌&&◌, ◌||◌, not, Option, none, some, List, [], ◌∷◌, ◌+◌, String, leb, ltb,
  if◌then◌else◌, Result, ok, ◌>>=◌, ◌>>◌, ◌<>◌,
}
use exasphere.Text.{codes}
use exasphere.Text.Digits.{show, int_or_none}
use exasphere.Json.{ℤ, pos, JsonValue, str, JsonObject, get, as_int, is_text, is_false, lt_ℤ}
use exasphere.Sample.Common.{ensure}

abbrev is_positive : Option ℕ → Bool
is_positive none = false
is_positive (some n) = ltb 0 n

-- `isinstance(rejected, int) and rejected > 0 or isinstance(rejected, str) and rejected.isdecimal()
-- and int(rejected) > 0`
unfoldable pub is_rejection : JsonValue → Result Bool
is_rejection (str s) = do n ← int_or_none (codes s); ok (is_positive n)
is_rejection value = elim (as_int value) [ none ↦ ok false | some n ↦ ok (lt_ℤ (pos 0) n) ]

-- The two flags: a sample with rejections was seen, a sample of a dead workload was seen.
unfoldable pub alert_row : String → ℕ → Bool × Bool → JsonObject → Result (Bool × Bool)
alert_row label index (rejected_seen, dead_seen) row = do
  let is_sample = is_text "runtime_sample" (get row "event")
  rejected ← (if is_sample then is_rejection (get row "nr_rejected") else ok false)
  let rejected_seen' = rejected_seen || rejected
  let dead_seen' = dead_seen || (is_sample && is_false (get row "workload_alive"))
  ensure (not (is_text "runtime_nr_rejected_nonzero" (get row "reason") && not rejected_seen'))
      (label <> " incident precedes nonzero nr_rejected sample at row " <> show index)
  ensure (not (is_text "runtime_workload_dead" (get row "reason") && not dead_seen'))
      (label <> " incident precedes workload-dead sample at row " <> show index)
  ok (rejected_seen', dead_seen')

unfoldable pub alert_rows : String → ℕ → Bool × Bool → List JsonObject → Result (Unit {0})
alert_rows label index seen [] = ok tt
alert_rows label index seen (row ∷ rows) = do
  seen' ← alert_row label index seen row
  alert_rows label (index + 1) seen' rows

unfoldable pub validate_alert_order : List JsonObject → String → Result (Unit {0})
unfolding alert_rows
validate_alert_order rows label = alert_rows label 0 (false, false) rows
