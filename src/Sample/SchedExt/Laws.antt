-- ===== src/Sample/SchedExt/Laws.antt =====
-- qa/runtime_sample_sched_ext.py: what the accepted facts and the accepted phase of a sample say.
use exasphere.Base.{
  ◌≡◌, refl, sym, ap, subst, ◌∙◌, Bool, true, false, ◌&&◌, not, List, [], ◌∷◌, String, str_eq,
  Result, ok, >>-eq-ok, >>=-eq-ok, ok_injective, drop_value, drop_value-eq-ok, for_each, All, arith,
  if◌then◌else◌,
}
use exasphere.Text.{codes, in_table, strip}
use exasphere.Text.Digits.{is_decimal}
use exasphere.Json.{JsonValue, str, obj, JsonObject, get, has_key}
use exasphere.Checks.Laws.{when-eq-ok}
use exasphere.Sample.Digest.{is_digest_summary}
use exasphere.Sample.Common.{
  Fact, fact_statuses, fact_value, reject_private_leaks, require_object, require_string,
  validate_fact,
}
use exasphere.Sample.Common.Typed.{require_string-eq-ok, require_object-eq-ok, ensured, refuted}
use exasphere.Sample.SchedExt.{
  sched_states, sched_ext_phases, validate_nonnegative_fact_value, validate_sched_ext_facts,
  validate_sched_ext_phase,
}

-- The fact that stands under a name: an object with a known status and a text, which is not empty
-- where the fact is present.
pub record FactOk (data_ : JsonObject) (name : String) (fact : Fact) : Type 0 where
  pub value : JsonObject
  pub stands : get data_ name ≡ obj value
  pub status_stands : get value "status" ≡ str fact.status
  pub known_status : in_table fact.status fact_statuses ≡ true
  pub value_stands : get value "value" ≡ str fact.value
  pub present_is_full : str_eq fact.status "present" ≡ true → str_eq fact.value "" ≡ false

not_both : (a b : Bool) → (a && b) ≡ false → a ≡ true → b ≡ false
not_both a b h p = ground arith

not_both_not : (a b : Bool) → (a && not b) ≡ false → a ≡ true → b ≡ true
not_both_not a b h p = ground arith

else_branch :
    (b : Bool) (other : Result String) (s t : String)
    → (if b then other else ok s) ≡ ok t
    → ((u : String) → other ≡ ok u → ⊥)
    → (b ≡ false) × (s ≡ t)
else_branch true other s t h never = absurd (never t h)
else_branch false other s t h never = (refl, ok_injective h)

fact_value-eq-ok :
    (v : JsonValue) (status message : String) {s : String}
    → fact_value v status message ≡ ok s
    → (v ≡ str s) × (str_eq status "present" ≡ true → str_eq s "" ≡ false)
unfolding fact_value
fact_value-eq-ok (str t) status message {s} h =
    let (full, same) = else_branch (str_eq status "present" && str_eq t "") _ t s h (λ u e. cc) in
    (
      ap str same,
      λ present.
          ap (λ x. str_eq x "") (sym same)
          ∙ not_both (str_eq status "present") (str_eq t "") full present,
    )
fact_value-eq-ok _ status message h = cc

pub validate_fact-FactOk :
    (data_ : JsonObject) (name context : String) {fact : Fact}
    → validate_fact data_ name context ≡ ok fact
    → FactOk data_ name fact
unfolding validate_fact
validate_fact-FactOk data_ name context h =
    let (value, value_ok, h1) = >>=-eq-ok (require_object data_ name context) _ h in
    let (status, status_ok, h2) = >>=-eq-ok (require_string value "status" _) _ h1 in
    let (known, h3) = >>-eq-ok _ _ h2 in
    let (text, text_ok, h4) = >>=-eq-ok (fact_value (get value "value") status _) _ h3 in
    let (_, same) = >>-eq-ok (reject_private_leaks (str text) _) _ h4 in
    let (text_stands, full) = fact_value-eq-ok (get value "value") status _ text_ok in
    subst (λ fact. FactOk data_ name fact) (ok_injective same)
      (record {
        value = value;
        stands = require_object-eq-ok data_ name _ value_ok;
        status_stands = (require_string-eq-ok value "status" _ status_ok).0;
        known_status = ensured (in_table status fact_statuses) _ known;
        value_stands = text_stands;
        present_is_full = full;
      })

-- Some fact stands under the name.
abbrev pub HasFact : JsonObject → String → Type 0
HasFact data_ name = (fact : Fact) × FactOk data_ name fact

dropped_fact :
    (data_ : JsonObject) (name context : String)
    → drop_value (validate_fact data_ name context) ≡ ok tt
    → HasFact data_ name
dropped_fact data_ name context h =
    let (fact, passed) = drop_value-eq-ok (validate_fact data_ name context) h in
    (fact, validate_fact-FactOk data_ name context passed)

-- Each of the names that the row has is a fact.
abbrev pub FactsWherePresent : JsonObject → List String → Type 0
FactsWherePresent row names = All (λ name. has_key row name ≡ true → HasFact row name) names

pub optional_facts :
    (row : JsonObject) (context : String) (names : List String)
    → for_each names
        (λ name. if has_key row name then drop_value (validate_fact row name context) else ok tt)
      ≡ ok tt
    → FactsWherePresent row names
unfolding for_each
optional_facts row context [] h = tt
optional_facts row context (name ∷ names) h =
    let (one, others) = >>-eq-ok _ _ h in
    (
      λ present. dropped_fact row name context (when-eq-ok (has_key row name) _ one present),
      optional_facts row context names others,
    )

-- The value of a fact is a decimal, or the word "unavailable".
abbrev pub Counted : Fact → Type 0
Counted fact =
    str_eq (strip fact.value) "unavailable" ≡ false → is_decimal (codes (strip fact.value)) ≡ true

not_taken :
    (b : Bool) (m : Result (Unit {0})) → (if b then ok tt else m) ≡ ok tt → b ≡ false → m ≡ ok tt
not_taken true m h p = cc
not_taken false m h p = h

counted :
    (fact : Fact) (name context : String)
    → validate_nonnegative_fact_value fact name context ≡ ok tt
    → Counted fact
unfolding validate_nonnegative_fact_value
counted fact name context h known =
    ensured (is_decimal (codes (strip fact.value))) _
      (not_taken (str_eq (strip fact.value) "unavailable") _ h known)

-- The facts of an accepted sample.
pub record FactsOk (row : JsonObject) : Type 0 where
  pub state : Fact
  pub enable_seq : Fact
  pub nr_rejected : Fact
  pub debug_dump : Fact
  pub state_ok : FactOk row "state" state
  pub known_state :
      str_eq state.status "present" ≡ true → in_table (strip state.value) sched_states ≡ true
  pub ops : HasFact row "ops"
  pub enable_seq_ok : FactOk row "enable_seq" enable_seq
  pub enable_seq_counted : Counted enable_seq
  pub events : HasFact row "events"
  pub nr_rejected_ok : FactOk row "nr_rejected" nr_rejected
  pub nr_rejected_counted : Counted nr_rejected
  pub debug_dump_ok : FactOk row "debug_dump" debug_dump
  pub dump_is_digest :
      str_eq debug_dump.status "present" ≡ true → is_digest_summary debug_dump.value ≡ true
  pub others : FactsWherePresent row ("root_ops" ∷ "scheduler_events" ∷ [])

pub validate_sched_ext_facts-FactsOk :
    (row : JsonObject) (context : String)
    → validate_sched_ext_facts row context ≡ ok tt
    → FactsOk row
unfolding validate_sched_ext_facts
validate_sched_ext_facts-FactsOk row context h =
    let (state, state_ok, h1) = >>=-eq-ok (validate_fact row "state" context) _ h in
    let (known, h2) = >>-eq-ok _ _ h1 in
    let (ops, h3) = >>-eq-ok (drop_value (validate_fact row "ops" context)) _ h2 in
    let (seq, seq_ok, h4) = >>=-eq-ok (validate_fact row "enable_seq" context) _ h3 in
    let (seq_counted, h5) = >>-eq-ok (validate_nonnegative_fact_value seq "enable_seq" _) _ h4 in
    let (events, h6) = >>-eq-ok (drop_value (validate_fact row "events" context)) _ h5 in
    let (nr, nr_ok, h7) = >>=-eq-ok (validate_fact row "nr_rejected" context) _ h6 in
    let (nr_counted, h8) = >>-eq-ok (validate_nonnegative_fact_value nr "nr_rejected" _) _ h7 in
    let (dump, dump_ok, h9) = >>=-eq-ok (validate_fact row "debug_dump" context) _ h8 in
    let (digest, others) = >>-eq-ok _ _ h9 in
    record {
      state = state;
      enable_seq = seq;
      nr_rejected = nr;
      debug_dump = dump;
      state_ok = validate_fact-FactOk row _ _ state_ok;
      known_state = not_both_not _ _ (refuted _ _ known);
      ops = dropped_fact row _ _ ops;
      enable_seq_ok = validate_fact-FactOk row _ _ seq_ok;
      enable_seq_counted = counted seq _ _ seq_counted;
      events = dropped_fact row _ _ events;
      nr_rejected_ok = validate_fact-FactOk row _ _ nr_ok;
      nr_rejected_counted = counted nr _ _ nr_counted;
      debug_dump_ok = validate_fact-FactOk row _ _ dump_ok;
      dump_is_digest = not_both_not _ _ (refuted _ _ digest);
      others = optional_facts row context _ others;
    }

-- The phase of a sample, where it has one, is one of the seven that are known.
abbrev pub KnownPhase : JsonObject → Type 0
KnownPhase row =
    has_key row "sched_ext_phase" ≡ true
    → (phase : String) × (get row "sched_ext_phase" ≡ str phase)
      × (in_table phase sched_ext_phases ≡ true)

negated : (b : Bool) → b ≡ true → not b ≡ false
negated b h = ground arith

pub validate_sched_ext_phase-KnownPhase :
    (row : JsonObject) (context : String)
    → validate_sched_ext_phase row context ≡ ok tt
    → KnownPhase row
unfolding validate_sched_ext_phase
validate_sched_ext_phase-KnownPhase row context h present =
    let body = not_taken (not (has_key row "sched_ext_phase")) _ h (negated _ present) in
    let (phase, phase_ok, h1) = >>=-eq-ok (require_string row "sched_ext_phase" context) _ body in
    let (_, known) = >>-eq-ok (reject_private_leaks (str phase) _) _ h1 in
    (
      phase,
      (require_string-eq-ok row "sched_ext_phase" _ phase_ok).0,
      ensured (in_table phase sched_ext_phases) _ known,
    )
