-- ===== src/Verifier/Laws.antt =====
-- qa/verifier_log_check.py: which logs pass.
use exasphere.Base.{
  ℕ, zero, suc, ◌∙◌, Result, >>=-eq-ok, ◌≡◌, refl, ap, subst, guard, String, ◌↔◌, Bool, true, false,
  ◌&&◌, ◌||◌, not, Option, none, some, ok, guard-eq-ok, >>-eq-ok, ok_injective, arith,
  if◌then◌else◌, verifier_log_error,
}
use exasphere.Text.{lower}
use exasphere.Verifier.Kept.{Kept, Kept-full, Kept-same, three_entries}
use exasphere.Verifier.{
  ensure, Status, parse_lines, is_vm_log, parse_log, ParsedLog, Codes, Reason, pass,
  verifier_accepted, has, no_codes, joined_errors, names_relocation, skipped_reason, code_reason,
  state_changed, cgroup_changed, missing_state_evidence, reason_from, status_from, is_pass,
  is_digest_length, classify,
}

-- A log without a skip, without an error of memory, helper or relocation, with the state of sched_ext,
-- its enable_seq and the membership of the cgroup given before and after, and the same, and with the
-- return code 0.
pub record Clean (p : ParsedLog) : Type 0 where
  pub not_skipped : no_codes p.skip_reason ≡ true
  pub no_mem_error : has "invalid mem access" (joined_errors p) ≡ false
  pub no_relocation : names_relocation (joined_errors p) ≡ false
  pub state : Kept p.values "sched_ext_state_before" "sched_ext_state_after"
  pub enable_seq : Kept p.values "sched_ext_enable_seq_before" "sched_ext_enable_seq_after"
  pub cgroup : Kept p.values "cgroup_membership_before" "cgroup_membership_after"
  pub rc_is_zero : p.bpftool_rc ≡ some 0

unchanged : (p : ParsedLog) → Clean p → state_changed p.values ≡ false
unfolding state_changed
unchanged p c = rw (Kept-same p.values _ _ c.state, Kept-same p.values _ _ c.enable_seq) refl

same_group : (p : ParsedLog) → Clean p → cgroup_changed p.values ≡ false
unfolding cgroup_changed
same_group p c = rw (Kept-same p.values _ _ c.cgroup) refl

evident : (p : ParsedLog) → Clean p → missing_state_evidence p.values ≡ false
unfolding missing_state_evidence
evident p c =
    let (a, b) = Kept-full p.values _ _ c.state in
    let (d, e) = Kept-full p.values _ _ c.enable_seq in
    let (f, g) = Kept-full p.values _ _ c.cgroup in rw (a, b, d, e, f, g) refl

skipped-ne_accepted : (s : Codes) → skipped_reason s ≡ verifier_accepted → ⊥
unfolding skipped_reason
skipped-ne_accepted s h = ground arith

code_accepted :
    (rc : Option ℕ) (missing : Bool)
    → code_reason rc missing ≡ verifier_accepted
    → (rc ≡ some 0) × (missing ≡ false)
unfolding code_reason
code_accepted none missing h = cc
code_accepted (some zero) true h = cc
code_accepted (some zero) false h = (refl, refl)
code_accepted (some (suc n)) missing h = cc

-- A branch that gives another reason was not taken.
not_taken :
    (b : Bool) (other rest : Reason)
    → (other ≡ verifier_accepted → ⊥)
    → (if b then other else rest) ≡ verifier_accepted
    → (b ≡ false) × (rest ≡ verifier_accepted)
not_taken true other rest differs h = absurd (differs h)
not_taken false other rest differs h = (refl, h)

is_true : (b : Bool) → not b ≡ false → b ≡ true
is_true b h = ground arith

accepted-Clean : (p : ParsedLog) → reason_from p ≡ verifier_accepted → Clean p
unfolding reason_from
accepted-Clean p h =
    let (full, h1) =
      not_taken (not (no_codes p.skip_reason)) (skipped_reason (lower p.skip_reason)) _
        (skipped-ne_accepted (lower p.skip_reason)) h in
    let (mem, h2) = not_taken (has "invalid mem access" (joined_errors p)) _ _ (λ e. cc) h1 in
    let (relocation, h3) = not_taken (names_relocation (joined_errors p)) _ _ (λ e. cc) h2 in
    let (state, h4) = not_taken (state_changed p.values) _ _ (λ e. cc) h3 in
    let (cgroup, h5) = not_taken (cgroup_changed p.values) _ _ (λ e. cc) h4 in
    let (rc, evidence) = code_accepted p.bpftool_rc (missing_state_evidence p.values) h5 in
    let kept_state = three_entries p.values state cgroup evidence in
    record {
      not_skipped = is_true (no_codes p.skip_reason) full;
      no_mem_error = mem;
      no_relocation = relocation;
      state = kept_state.0;
      enable_seq = kept_state.1;
      cgroup = kept_state.2;
      rc_is_zero = rc;
    }

Clean-accepted : (p : ParsedLog) → Clean p → reason_from p ≡ verifier_accepted
unfolding reason_from code_reason
Clean-accepted p c =
    rw
      (
        c.not_skipped,
        c.no_mem_error,
        c.no_relocation,
        unchanged p c,
        same_group p c,
        c.rc_is_zero,
        evident p c,
      )
      refl

-- The log is accepted by the classification exactly if it is clean.
pub reason_from_iff : (p : ParsedLog) → (reason_from p ≡ verifier_accepted) ↔ Clean p
reason_from_iff p = (accepted-Clean p, Clean-accepted p)

-- Clean, and with digests of the right length.
pub record CleanResult (p : ParsedLog) : Type 0 where
  pub clean : Clean p
  pub object_digest : is_digest_length p.values "object_sha256" ≡ true
  pub metadata_digest : is_digest_length p.values "bpf_metadata_object_sha256" ≡ true

both_long : (a b : Bool) → not (true && (not a || not b)) ≡ true → (a ≡ true) × (b ≡ true)
both_long a b h = ground arith

digests_of :
    (r : Reason) (a b : Bool) (m : String)
    → r ≡ verifier_accepted
    → ensure (not (is_pass (status_from r) && (not a || not b))) m ≡ ok tt
    → (a ≡ true) × (b ≡ true)
unfolding status_from
digests_of r a b m accepted h = both_long a b (
    subst (λ r. not (is_pass (status_from r) && (not a || not b)) ≡ true) accepted
      (guard-eq-ok verifier_log_error _ m h))

classify-CleanResult : (p : ParsedLog) → classify p ≡ ok (pass, verifier_accepted) → CleanResult p
unfolding classify status_from
classify-CleanResult p h =
    let (_, h1) =
      >>-eq-ok
        (ensure
          (not (
            is_pass (status_from (reason_from p))
            && (state_changed p.values || cgroup_changed p.values)))
          _)
        _ h in
    let (digests, h2) =
      >>-eq-ok
        (ensure
          (not (
            is_pass (status_from (reason_from p))
            && (not (is_digest_length p.values "object_sha256")
                || not (is_digest_length p.values "bpf_metadata_object_sha256"))))
          _)
        _ h1 in
    let accepted = ap (λ result. result.1) (ok_injective h2) in
    let (object_digest, metadata_digest) =
      digests_of (reason_from p) (is_digest_length p.values "object_sha256")
        (is_digest_length p.values "bpf_metadata_object_sha256") _ accepted digests in
    record {
      clean = accepted-Clean p accepted;
      object_digest = object_digest;
      metadata_digest = metadata_digest;
    }

CleanResult-classify : (p : ParsedLog) → CleanResult p → classify p ≡ ok (pass, verifier_accepted)
unfolding classify status_from guard
CleanResult-classify p c =
    rw
      (
        Clean-accepted p c.clean,
        unchanged p c.clean,
        same_group p c.clean,
        c.object_digest,
        c.metadata_digest,
      )
      refl

-- What is read from a log passes exactly if it is clean and has the two digests.
classify_iff : (p : ParsedLog) → (classify p ≡ ok (pass, verifier_accepted)) ↔ CleanResult p
classify_iff p = (classify-CleanResult p, CleanResult-classify p)

-- A log that is no log of a VM and whose lines read as such a result.
pub record CleanLog (text : Codes) : Type 0 where
  pub parsed : ParsedLog
  pub lines_read : parse_lines text ≡ ok parsed
  pub is_local : is_vm_log parsed.values ≡ false
  pub result : CleanResult parsed

left_to_vm :
    (b : Bool) (m : Result (Option (Status × Reason))) (r : Status × Reason)
    → (if b then ok none else m) ≡ ok (some r)
    → (b ≡ false) × (m ≡ ok (some r))
left_to_vm true m r h = cc
left_to_vm false m r h = (refl, h)

some_result :
    (r s : Status × Reason)
    → ◌≡◌ {A = Result (Option (Status × Reason))} (ok (some r)) (ok (some s))
    → r ≡ s
some_result r s h = cc

parse_log-CleanLog :
    (text : Codes) → parse_log text ≡ ok (some (pass, verifier_accepted)) → CleanLog text
unfolding parse_log
parse_log-CleanLog text h =
    let (p, read, h1) = >>=-eq-ok (parse_lines text) _ h in
    let (is_local, h2) = left_to_vm (is_vm_log p.values) _ (pass, verifier_accepted) h1 in
    let (r, classified, h3) = >>=-eq-ok (classify p) _ h2 in
    record {
      parsed = p;
      lines_read = read;
      is_local = is_local;
      result = (classify_iff p).0 (classified ∙ ap ok (some_result _ _ h3));
    }

CleanLog-parse_log :
    (text : Codes) → CleanLog text → parse_log text ≡ ok (some (pass, verifier_accepted))
unfolding parse_log
CleanLog-parse_log text c = rw (c.lines_read, c.is_local, (classify_iff c.parsed).1 c.result) refl

-- A log that is not left to the checker of VM logs passes, as accepted by the verifier, exactly if its
-- lines read as a log without a skip and without an error of memory, helper or relocation, with the
-- return code 0, with the state of sched_ext, its enable_seq and the membership of the cgroup given
-- before and after and the same, and with an object digest and a metadata digest of 64 characters.
pub parse_log_iff :
    (text : Codes) → (parse_log text ≡ ok (some (pass, verifier_accepted))) ↔ CleanLog text
parse_log_iff text = (parse_log-CleanLog text, CleanLog-parse_log text)
