-- ===== src/Verifier.antt =====
-- qa/verifier_log_check.py: the log of a BPF verifier run, read line by line and classified. Texts are
-- code points.
pub mod Kept
pub mod Laws
use exasphere.Base.{
  ℕ, zero, suc, Bool, true, false, ◌&&◌, ◌||◌, not, Option, none, some, List, [], ◌∷◌, ◌++◌, String,
  ◌==◌, if◌then◌else◌, length, all, any, Result, ok, raise, guard, ◌>>=◌, ◌>>◌, ◌<>◌,
  verifier_log_error,
}
use exasphere.Text.{codes, contains, is_prefix, is_space, lower}
use exasphere.Text.Digits.{is_digits, int_of_digits}

abbrev pub Codes : Type 0
Codes = List ℕ

abbrev pub ensure : Bool → String → Result (Unit {0})
ensure = guard verifier_log_error

-- The line boundaries of `str.splitlines`.
abbrev is_break : ℕ → Bool
is_break c =
    c == 10
    || c == 11
    || c == 12
    || c == 13
    || c == 28
    || c == 29
    || c == 30
    || c == 133
    || c == 8232
    || c == 8233

add_char : ℕ → List Codes → List Codes
add_char c [] = (c ∷ []) ∷ []
add_char c (line ∷ lines) = (c ∷ line) ∷ lines

-- `after_return`: the character before was a carriage return, which a line feed completes.
unfoldable pub lines_from : Bool → Codes → List Codes
unfolding add_char
lines_from after_return [] = []
lines_from after_return (c ∷ s) =
    let rest = lines_from (c == 13) s in
    if after_return && c == 10 then rest else if is_break c then [] ∷ rest else add_char c rest

-- `text.splitlines()`
unfoldable pub splitlines : Codes → List Codes
splitlines s = lines_from false s

-- `line.split(separator, 1)`, where the separator stands in the line.
unfoldable pub split_once : ℕ → Codes → Option (Codes × Codes)
split_once separator [] = none
split_once separator (c ∷ s) =
    let rest = split_once separator s in
    if c == separator
    then some ([], s)
    else elim rest [ none ↦ none | some (key, value) ↦ some (c ∷ key, value) ]

drop_spaces : Codes → Codes
drop_spaces [] = []
drop_spaces (c ∷ s) = let rest = drop_spaces s in if is_space c then rest else c ∷ s

-- The spaces before the end go, where nothing else follows them.
drop_last_spaces : Codes → Codes
drop_last_spaces [] = []
drop_last_spaces (c ∷ s) =
    let rest = drop_last_spaces s in if is_space c && all is_space s then [] else c ∷ rest

-- `line.strip()`
unfoldable pub strip : Codes → Codes
unfolding drop_spaces drop_last_spaces
strip line = drop_last_spaces (drop_spaces line)

unfoldable pub same : Codes → Codes → Bool
same [] [] = true
same (c ∷ s) (d ∷ t) = c == d && same s t
same _ _ = false

-- A dictionary: the latest entry of a key stands first.
abbrev pub Values : Type 0
Values = List (Codes × Codes)

unfoldable pub value_or : Codes → Values → Codes → Codes
unfolding same
value_or name [] default_ = default_
value_or name ((key, value) ∷ values) default_ =
    let rest = value_or name values default_ in if same key name then value else rest

-- `values.get(name, default)`
unfoldable pub get_value : Values → String → Codes → Codes
unfolding value_or codes
get_value values name default_ = value_or (codes name) values default_

pub record ParsedLog : Type 0 where
  pub values : Values
  pub errors : List Codes
  pub skip_reason : Codes
  pub bpftool_rc : Option ℕ

-- `needle in text`
unfoldable pub has : String → Codes → Bool
unfolding codes contains
has needle s = contains (codes needle) s

unfoldable pub is_verifier_error : Codes → Bool
is_verifier_error lowered =
    any (λ needle. has needle lowered)
      ("invalid mem access" ∷ "unknown func" ∷ "invalid func" ∷ "relocation" ∷ "program rejected"
        ∷ "permission denied" ∷ [])

second : Option (Codes × Codes) → Codes → Codes
second none line = line
second (some (key, value)) line = value

rc_of : Codes → Result (Option ℕ)
rc_of value = do ensure (is_digits value) "invalid bpftool_rc"; n ← int_of_digits value; ok (some n)

add_value : Option (Codes × Codes) → Values → Values
add_value none values = values
add_value (some entry) values = entry ∷ values

-- A round of the loop of `parse_lines`, for a line that is stripped.
unfoldable pub parse_line : Codes → ParsedLog → Result ParsedLog
unfolding second rc_of add_value
parse_line line parsed = do
  let lowered = lower line
  let skip =
      if has "skip:" lowered then strip (second (split_once b':' line) line) else parsed.skip_reason
  let errors = if is_verifier_error lowered then parsed.errors ++ (line ∷ []) else parsed.errors
  bpftool_rc ←
      (if is_prefix (codes "bpftool_rc=") line
        then rc_of (second (split_once b'=' line) line)
        else ok parsed.bpftool_rc)
  let values =
      if is_prefix (codes "COMMAND:") line
      then parsed.values
      else add_value (split_once b'=' line) parsed.values
  ok (record { values = values; errors = errors; skip_reason = skip; bpftool_rc = bpftool_rc })

unfoldable pub parse_from : List Codes → ParsedLog → Result ParsedLog
parse_from [] parsed = ok parsed
parse_from (raw ∷ lines) parsed = do next ← parse_line (strip raw) parsed; parse_from lines next

unfoldable pub parse_lines : Codes → Result ParsedLog
parse_lines content =
    parse_from (splitlines content)
      (record { values = []; errors = []; skip_reason = []; bpftool_rc = none })

-- The texts of `reason_from` and of `status_from`, as constructors.
pub data Reason : Type 0 where
  bpftool_unavailable bpf_fs_unavailable unknown_skipped invalid_mem_access : Reason
  helper_or_relocation_failure sched_ext_state_changed cgroup_membership_changed : Reason
  verifier_rejected missing_state_evidence_reason verifier_accepted : Reason

pub data Status : Type 0 where
  pass skip fail : Status

unfoldable pub state_changed : Values → Bool
unfolding same
state_changed values =
    let state_before = get_value values "sched_ext_state_before" [] in
    let state_after = get_value values "sched_ext_state_after" state_before in
    let seq_before = get_value values "sched_ext_enable_seq_before" [] in
    let seq_after = get_value values "sched_ext_enable_seq_after" seq_before in
    not (same state_before state_after) || not (same seq_before seq_after)

unfoldable pub cgroup_changed : Values → Bool
unfolding same
cgroup_changed values =
    let before = get_value values "cgroup_membership_before" [] in
    not (same before (get_value values "cgroup_membership_after" before))

abbrev pub no_codes : Codes → Bool
no_codes [] = true
no_codes (c ∷ s) = false

unfoldable pub missing_state_evidence : Values → Bool
missing_state_evidence values =
    any (λ name. no_codes (get_value values name []))
      ("sched_ext_state_before" ∷ "sched_ext_state_after" ∷ "sched_ext_enable_seq_before"
        ∷ "sched_ext_enable_seq_after" ∷ "cgroup_membership_before" ∷ "cgroup_membership_after"
        ∷ [])

join_lines : List Codes → Codes
join_lines [] = []
join_lines (line ∷ []) = line
join_lines (line ∷ lines) = line ++ (10 ∷ join_lines lines)

-- `"\n".join(parsed.errors).lower()`
unfoldable pub joined_errors : ParsedLog → Codes
unfolding join_lines
joined_errors parsed = lower (join_lines parsed.errors)

unfoldable pub skipped_reason : Codes → Reason
skipped_reason lowered =
    if has "bpftool" lowered
    then bpftool_unavailable
    else if has "/sys/fs/bpf" lowered
    then bpf_fs_unavailable
    else unknown_skipped

abbrev pub names_relocation : Codes → Bool
names_relocation joined =
    has "relocation" joined || has "unknown func" joined || has "invalid func" joined

-- What the return code says, behind the tests of the errors and of the states.
unfoldable pub code_reason : Option ℕ → Bool → Reason
code_reason none missing = unknown_skipped
code_reason (some zero) missing =
    if missing then missing_state_evidence_reason else verifier_accepted
code_reason (some (suc n)) missing = verifier_rejected

unfoldable pub reason_from : ParsedLog → Reason
reason_from parsed =
    if not (no_codes parsed.skip_reason)
    then skipped_reason (lower parsed.skip_reason)
    else if has "invalid mem access" (joined_errors parsed)
    then invalid_mem_access
    else if names_relocation (joined_errors parsed)
    then helper_or_relocation_failure
    else if state_changed parsed.values
    then sched_ext_state_changed
    else if cgroup_changed parsed.values
    then cgroup_membership_changed
    else code_reason parsed.bpftool_rc (missing_state_evidence parsed.values)

unfoldable pub status_from : Reason → Status
status_from verifier_accepted = pass
status_from bpftool_unavailable = skip
status_from bpf_fs_unavailable = skip
status_from unknown_skipped = skip
status_from _ = fail

abbrev pub is_pass : Status → Bool
is_pass pass = true
is_pass _ = false

abbrev pub is_digest_length : Values → String → Bool
is_digest_length values name = length (get_value values name []) == 64

-- `parse_log` behind `parse_vm_live_log`: the status and the reason of the result.
unfoldable pub classify : ParsedLog → Result (Status × Reason)
classify parsed = do
  let reason = reason_from parsed
  let status = status_from reason
  ensure (not (is_pass status && (state_changed parsed.values || cgroup_changed parsed.values)))
      "clean verifier logs must preserve sched_ext and cgroup state"
  ensure
      (not (
        is_pass status
        && (not (is_digest_length parsed.values "object_sha256")
            || not (is_digest_length parsed.values "bpf_metadata_object_sha256"))))
      "clean verifier logs require object and metadata sha"
  ok (status, reason)

-- qa/verifier_vm_check.py, the two returns at the head of `parse_vm_live_log`: which logs it takes.
unfoldable pub has_name : Codes → Values → Bool
unfolding same
has_name name [] = false
has_name name ((key, value) ∷ values) = same key name || has_name name values

unfoldable pub is_vm_log : Values → Bool
unfolding same has_name codes
is_vm_log values =
    same (get_value values "schema" []) (codes "zig-scheduler/bpf-verifier-log/v1")
    && has_name (codes "evidence_mode") values

-- `parse_log` on the text of a log: the status and the reason, or `none` for the logs of a VM, whose
-- result is that of `parse_vm_live_log`.
unfoldable pub parse_log : Codes → Result (Option (Status × Reason))
parse_log text = do
  parsed ← parse_lines text
  if is_vm_log parsed.values then ok none else (classify parsed >>= λ result. ok (some result))
