-- ===== src/Verifier/Kept.antt =====
-- qa/verifier_log_check.py: entries of a log that are given before and after, and are the same.
use exasphere.Base.{
  sym, ◌∙◌, [], ◌∷◌, ◌==◌, ==_iff, and_split, and_join, Bool-cases, inl, inr, ◌≡◌, refl, ap, subst,
  String, Bool, true, false, ◌||◌, not, arith, if◌then◌else◌,
}
use exasphere.Text.{codes}
use exasphere.Verifier.{
  same, value_or, get_value, Values, Codes, no_codes, state_changed, cgroup_changed,
  missing_state_evidence,
}

-- Two entries are there, are not empty, and are the same.
pub record Kept (values : Values) (before after : String) : Type 0 where
  pub value : Codes
  pub is_full : no_codes value ≡ false
  pub was : get_value values before [] ≡ value
  pub is_still : get_value values after [] ≡ value

same-eq : (s t : Codes) → same s t ≡ true → s ≡ t
unfolding same
same-eq [] [] h = refl
same-eq [] (d ∷ t) h = cc
same-eq (c ∷ s) [] h = cc
same-eq (c ∷ s) (d ∷ t) h =
    let (e, rest) = and_split (c == d) (same s t) h in cc ((==_iff c d).0 e, same-eq s t rest)

same_refl : (s : Codes) → same s s ≡ true
unfolding same
same_refl [] = refl
same_refl (c ∷ s) = and_join (c == c) (same s s) ((==_iff c c).1 refl) (same_refl s)

-- Where an entry is there, the default does not matter.
value_or-full :
    (name : Codes) (values : Values) (default_ : Codes)
    → no_codes (value_or name values []) ≡ false
    → value_or name values default_ ≡ value_or name values []
unfolding value_or
value_or-full name [] default_ h = cc
value_or-full name ((key, value) ∷ values) default_ h = elim (Bool-cases (same key name)) [
  | inl e ↦ rw e refl
  | inr e ↦
      let later : no_codes (value_or name values []) ≡ false =
        subst (λ b. no_codes (if b then value else value_or name values []) ≡ false) e h in
      rw e (value_or-full name values default_ later)
]

get_value-full :
    (values : Values) (name : String) (default_ : Codes)
    → no_codes (get_value values name []) ≡ false
    → get_value values name default_ ≡ get_value values name []
unfolding get_value
get_value-full values name default_ h = value_or-full (codes name) values default_ h

kept :
    (values : Values) (before after : String)
    → no_codes (get_value values before []) ≡ false
    → no_codes (get_value values after []) ≡ false
    → same (get_value values before []) (get_value values after (get_value values before [])) ≡ true
    → Kept values before after
kept values before after full_before full_after same_ = record {
  value = get_value values before [];
  is_full = full_before;
  was = refl;
  is_still =
      sym (get_value-full values after (get_value values before []) full_after)
      ∙ sym (same-eq _ _ same_);
}

-- And back.
pub Kept-full :
    (values : Values) (before after : String)
    → Kept values before after
    → (no_codes (get_value values before []) ≡ false)
      × (no_codes (get_value values after []) ≡ false)
Kept-full values before after k =
    (ap no_codes k.was ∙ k.is_full, ap no_codes k.is_still ∙ k.is_full)

pub Kept-same :
    (values : Values) (before after : String)
    → Kept values before after
    → same (get_value values before []) (get_value values after (get_value values before [])) ≡ true
Kept-same values before after k =
    let full = (Kept-full values before after k).1 in
    rw (get_value-full values after (get_value values before []) full, k.was, k.is_still)
      (same_refl k.value)

none_of_two : (a b : Bool) → (not a || not b) ≡ false → (a ≡ true) × (b ≡ true)
none_of_two a b h = ground arith

none_of_six :
    (a b c d e f : Bool)
    → (a || (b || (c || (d || (e || (f || false)))))) ≡ false
    → (a ≡ false) × (b ≡ false) × (c ≡ false) × (d ≡ false) × (e ≡ false) × (f ≡ false)
none_of_six a b c d e f h = ground arith

negated : (b : Bool) → not b ≡ false → b ≡ true
negated b h = ground arith

pub three_entries :
    (values : Values)
    → state_changed values ≡ false
    → cgroup_changed values ≡ false
    → missing_state_evidence values ≡ false
    → Kept values "sched_ext_state_before" "sched_ext_state_after"
      × Kept values "sched_ext_enable_seq_before" "sched_ext_enable_seq_after"
      × Kept values "cgroup_membership_before" "cgroup_membership_after"
unfolding state_changed cgroup_changed missing_state_evidence
three_entries values state cgroup evidence =
    let full = λ (name : String). no_codes (get_value values name []) in
    let (a, b, c, d, e, f) =
      none_of_six (full "sched_ext_state_before") (full "sched_ext_state_after")
        (full "sched_ext_enable_seq_before") (full "sched_ext_enable_seq_after")
        (full "cgroup_membership_before") (full "cgroup_membership_after") evidence in
    let (same_state, same_seq) = none_of_two _ _ state in
    (
      kept values _ _ a b same_state,
      kept values _ _ c d same_seq,
      kept values _ _ e f (negated _ cgroup),
    )
