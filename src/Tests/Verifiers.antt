-- ===== src/Tests/Verifiers.antt =====
-- The log of a clean verifier run.
use exasphere.Verifier
use exasphere.Text
use exasphere.Text.Digits
use exasphere.Base.{◌≡◌, refl, List, [], ◌∷◌, ◌++◌, String, some, ok, guard}
use exasphere.Text.{codes}
use exasphere.Verifier.{ParsedLog, Codes, pass, verifier_accepted, parse_lines, parse_log}
use exasphere.Verifier.Laws.{CleanLog, parse_log_iff}

abbrev entry : String → String → Codes × Codes
entry key value = (codes key, codes value)

abbrev two_lines : Codes
two_lines = codes "bpftool_rc=0" ++ (13 ∷ 10 ∷ codes " object=o ")

abbrev read_log : ParsedLog
read_log = record {
  values = entry "object" "o" ∷ entry "bpftool_rc" "0" ∷ [];
  errors = [];
  skip_reason = [];
  bpftool_rc = some 0;
}

lines_read : parse_lines two_lines ≡ ok read_log
unfolding parse_lines Verifier.parse_from Verifier.splitlines Verifier.lines_from codes
    Verifier.parse_line Text.is_prefix Verifier.strip guard Digits.is_digits Verifier.split_once
    Digits.int_of_digits Digits.int_or_none Digits.decimal Verifier.is_verifier_error Verifier.has
    Text.lower
lines_read = refl

abbrev with_line_feeds : List String → Codes
with_line_feeds [] = []
with_line_feeds (line ∷ lines) = codes line ++ (10 ∷ with_line_feeds lines)

abbrev clean_text : Codes
clean_text = with_line_feeds (
    "bpftool_rc=0"
    ∷ "object_sha256=0123456789abcdef0123456789abcdef0123456789abcdef0123456789abcdef"
    ∷ "bpf_metadata_object_sha256=0123456789abcdef0123456789abcdef0123456789abcdef0123456789abcdef"
    ∷ "sched_ext_state_before=disabled" ∷ "sched_ext_state_after=disabled"
    ∷ "sched_ext_enable_seq_before=3" ∷ "sched_ext_enable_seq_after=3"
    ∷ "cgroup_membership_before=a" ∷ "cgroup_membership_after=a" ∷ [])

log_runs : parse_log clean_text ≡ ok (some (pass, verifier_accepted))
unfolding parse_log parse_lines Verifier.parse_from Verifier.splitlines Verifier.lines_from codes
    Verifier.parse_line Text.is_prefix Verifier.strip guard Digits.is_digits Verifier.split_once
    Digits.int_of_digits Digits.int_or_none Digits.decimal Verifier.is_verifier_error Verifier.has
    Text.lower Verifier.is_vm_log Verifier.has_name Verifier.classify Verifier.status_from
    Verifier.reason_from Verifier.joined_errors Verifier.state_changed Verifier.get_value
    Verifier.cgroup_changed Verifier.code_reason Verifier.missing_state_evidence
log_runs = refl

parse_log_iff_example : CleanLog clean_text
parse_log_iff_example = (parse_log_iff clean_text).0 log_runs
