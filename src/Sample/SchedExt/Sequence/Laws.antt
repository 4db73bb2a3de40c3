-- ===== src/Sample/SchedExt/Sequence/Laws.antt =====
-- What an accepted sequence of samples promises.
use exasphere.Checks.Laws.{member_of-eq-ok}
use exasphere.Checks.{member_of, is_one_of}
use exasphere.Base.{
  ◌∙◌, ℕ, ◌+◌, ◌≤◌, ◌≡◌, sym, subst, Bool, true, false, ◌&&◌, not, Option, none, some, List, [],
  ◌∷◌, String, str_eq, arith, leb, Result, ok, err, guard, guard-eq-ok, >>-eq-ok, >>=-eq-ok,
  ok_injective, runtime_sample_error, All, if◌then◌else◌,
}
use exasphere.Text.{in_table}
use exasphere.Json.{ℤ, JsonObject, get, as_int, is_text, lt_ℤ}
use exasphere.Sample.SchedExt.{numeric_fact_value, fact_text}
use exasphere.Sample.SchedExt.Sequence.{
  next_sequence, next_enable_seq, phase_ok, ended_phases, sequence_row, sequence_from,
  validate_sched_ext_sequence,
}

abbrev cons_some {ℓ} : {A : Type ℓ} → Option A → List A → List A
cons_some none xs = xs
cons_some (some x) xs = x ∷ xs

abbrev ok_value : Result (Option ℕ) → Option ℕ
ok_value (ok n) = n
ok_value (err e) = none

-- The sequence numbers of the samples that have one.
abbrev pub sequences : List JsonObject → List ℤ
sequences [] = []
sequences (row ∷ rows) = cons_some (as_int (get row "sequence")) (sequences rows)

-- The enable_seq of the samples where it is a number.
abbrev pub enable_seqs : List JsonObject → List ℕ
enable_seqs [] = []
enable_seqs (row ∷ rows) =
    cons_some (ok_value (numeric_fact_value row "enable_seq")) (enable_seqs rows)

-- Each number is below, or not above, all that follow it.
abbrev pub Rising : List ℤ → Type 0
Rising [] = Unit
Rising (n ∷ ns) = All (λ m. lt_ℤ n m ≡ true) ns × Rising ns

abbrev pub NonDecreasing : List ℕ → Type 0
NonDecreasing [] = Unit
NonDecreasing (n ∷ ns) = All (λ m. n ≤ m) ns × NonDecreasing ns

-- The state and the ops that a phase allows.
pub record PhaseRule (row : JsonObject) : Type 0 where
  pub before_attach :
      is_text "before_attach" (get row "sched_ext_phase") ≡ true
      → str_eq (fact_text (get row "state")) "enabled" ≡ false
  pub ended_state :
      is_one_of ended_phases (get row "sched_ext_phase") ≡ true
      → in_table (fact_text (get row "state")) ("disabled" ∷ "unknown" ∷ "unavailable" ∷ []) ≡ true
  pub ended_ops :
      is_one_of ended_phases (get row "sched_ext_phase") ≡ true
      → str_eq (fact_text (get row "state")) "disabled" ≡ true
      → in_table (fact_text (get row "ops")) ("none" ∷ "unavailable" ∷ "unknown" ∷ []) ≡ true

lt_trans : (a b c : ℤ) → lt_ℤ a b ≡ true → lt_ℤ b c ≡ true → lt_ℤ a c ≡ true
lt_trans a b c p q = ground arith

All-lt_trans :
    (a b : ℤ) (ns : List ℤ)
    → lt_ℤ a b ≡ true
    → All (λ m. lt_ℤ b m ≡ true) ns
    → All (λ m. lt_ℤ a m ≡ true) ns
All-lt_trans a b [] p h = tt
All-lt_trans a b (n ∷ ns) p (q, h) = (lt_trans a b n p q, All-lt_trans a b ns p h)

All-le_trans : (a b : ℕ) (ns : List ℕ) → a ≤ b → All (λ m. b ≤ m) ns → All (λ m. a ≤ m) ns
All-le_trans a b [] p h = tt
All-le_trans a b (n ∷ ns) p (q, h) = (omega arith, All-le_trans a b ns p h)

-- The numbers after the one that the loop carries.
abbrev RisingAfter : Option ℤ → List ℤ → Type 0
RisingAfter none ns = Rising ns
RisingAfter (some m) ns = Rising (m ∷ ns)

abbrev NonDecreasingAfter : Option ℕ → List ℕ → Type 0
NonDecreasingAfter none ns = NonDecreasing ns
NonDecreasingAfter (some m) ns = NonDecreasing (m ∷ ns)

ensure-eq-ok : (b : Bool) (m : String) → guard runtime_sample_error b m ≡ ok tt → b ≡ true
ensure-eq-ok b m h = guard-eq-ok runtime_sample_error b m h

next_sequence-Rising :
    (last this : Option ℤ) (context : String) {next : Option ℤ} (ns : List ℤ)
    → next_sequence last this context ≡ ok next
    → RisingAfter next ns
    → RisingAfter last (cons_some this ns)
unfolding next_sequence
next_sequence-Rising last none context ns h r = rw (ok_injective h) r
next_sequence-Rising none (some n) context ns h r =
    subst (λ x. RisingAfter x ns) (sym (ok_injective h)) r
next_sequence-Rising (some m) (some n) context ns h r =
    let (below, h') = >>-eq-ok _ _ h in
    let lt = ensure-eq-ok (lt_ℤ m n) _ below in
    let carried = subst (λ x. RisingAfter x ns) (sym (ok_injective h')) r in
    ((lt, All-lt_trans m n ns lt carried.0), carried)

leb→le : (m n : ℕ) → leb m n ≡ true → m ≤ n
leb→le m n h = ground arith

next_enable_seq-NonDecreasing :
    (last this : Option ℕ) (context : String) {next : Option ℕ} (ns : List ℕ)
    → next_enable_seq last this context ≡ ok next
    → NonDecreasingAfter next ns
    → NonDecreasingAfter last (cons_some this ns)
unfolding next_enable_seq
next_enable_seq-NonDecreasing last none context ns h r = rw (ok_injective h) r
next_enable_seq-NonDecreasing none (some n) context ns h r =
    subst (λ x. NonDecreasingAfter x ns) (sym (ok_injective h)) r
next_enable_seq-NonDecreasing (some m) (some n) context ns h r =
    let (below, h') = >>-eq-ok _ _ h in
    let le = leb→le m n (ensure-eq-ok (leb m n) _ below) in
    let carried = subst (λ x. NonDecreasingAfter x ns) (sym (ok_injective h')) r in
    ((le, All-le_trans m n ns le carried.0), carried)

not_and : (a b : Bool) → not (a && b) ≡ true → a ≡ true → b ≡ false
not_and a b h p = ground arith

not_and_not : (a b : Bool) → not (a && not b) ≡ true → a ≡ true → b ≡ true
not_and_not a b h p = ground arith

then_branch :
    (b : Bool) (m : Result (Unit {0})) → (if b then m else ok tt) ≡ ok tt → b ≡ true → m ≡ ok tt
then_branch b m h p = ground arith

phase_ok-PhaseRule :
    (row : JsonObject) (context : String)
    → phase_ok
        (get row "sched_ext_phase")
        (fact_text (get row "state"))
        (fact_text (get row "ops"))
        context
      ≡ ok tt
    → PhaseRule row
unfolding phase_ok
phase_ok-PhaseRule row context h =
    let phase = get row "sched_ext_phase" in
    let (early, h0) = >>-eq-ok _ _ h in
    let (is_ended, tested, h1) = >>=-eq-ok (member_of ended_phases phase) _ h0 in
    let same = member_of-eq-ok ended_phases phase tested in
    let ended = λ (p : is_one_of ended_phases (get row "sched_ext_phase") ≡ true).
      >>-eq-ok _ _ (then_branch is_ended _ h1 (sym same ∙ p)) in
    record {
      before_attach = not_and _ _ (ensure-eq-ok _ _ early);
      ended_state = λ p. ensure-eq-ok _ _ (ended p).0;
      ended_ops = λ p. not_and_not _ _ (ensure-eq-ok _ _ (ended p).1);
    }

-- What an accepted sequence, from any point of the loop on, promises.
record Promise (last : Option ℤ) (last_enable_seq : Option ℕ) (rows : List JsonObject)
    : Type 0 where
  rising : RisingAfter last (sequences rows)
  non_decreasing : NonDecreasingAfter last_enable_seq (enable_seqs rows)
  phases : All PhaseRule rows

sequence_row-Promise :
    (last : Option ℤ) (last_enable_seq : Option ℕ) (row : JsonObject) (rows : List JsonObject)
    (context : String) {next : Option ℤ × Option ℕ}
    → sequence_row last last_enable_seq row context ≡ ok next
    → Promise next.0 next.1 rows
    → Promise last last_enable_seq (row ∷ rows)
unfolding sequence_row
sequence_row-Promise last last_enable_seq row rows context h promise =
    let (sequence, seq_ok, h1) =
      >>=-eq-ok (next_sequence last (as_int (get row "sequence")) context) _ h in
    let (number, number_ok, h2) = >>=-eq-ok (numeric_fact_value row "enable_seq") _ h1 in
    let (enable_seq, enable_ok, h3) =
      >>=-eq-ok (next_enable_seq last_enable_seq number context) _ h2 in
    let (phase_passed, h4) = >>-eq-ok _ _ h3 in
    let carried = subst (λ x. Promise x.0 x.1 rows) (sym (ok_injective h4)) promise in
    record {
      rising = next_sequence-Rising last _ context (sequences rows) seq_ok carried.rising;
      non_decreasing = rw number_ok (
          next_enable_seq-NonDecreasing last_enable_seq number context (enable_seqs rows) enable_ok
            carried.non_decreasing);
      phases = (phase_ok-PhaseRule row context phase_passed, carried.phases);
    }

nothing_carried : (last : Option ℤ) → RisingAfter last []
nothing_carried none = tt
nothing_carried (some m) = (tt, tt)

nothing_carried_enable : (last : Option ℕ) → NonDecreasingAfter last []
nothing_carried_enable none = tt
nothing_carried_enable (some m) = (tt, tt)

sequence_from-Promise :
    (rows : List JsonObject) (index : ℕ) (last : Option ℤ) (last_enable_seq : Option ℕ)
    → sequence_from index last last_enable_seq rows ≡ ok tt
    → Promise last last_enable_seq rows
unfolding sequence_from
sequence_from-Promise [] index last last_enable_seq h = record {
  rising = nothing_carried last;
  non_decreasing = nothing_carried_enable last_enable_seq;
  phases = tt;
}
sequence_from-Promise (row ∷ rows) index last last_enable_seq h =
    let (next, row_ok, rest_ok) = >>=-eq-ok _ _ h in
    sequence_row-Promise last last_enable_seq row rows _ row_ok
      (sequence_from-Promise rows (index + 1) next.0 next.1 rest_ok)

-- In an accepted list of samples the sequence numbers rise, no enable_seq is below an earlier one,
-- and every sample keeps the rule of its phase.
pub validate_sched_ext_sequence_sound :
    (rows : List JsonObject)
    → validate_sched_ext_sequence rows ≡ ok tt
    → Rising (sequences rows) × NonDecreasing (enable_seqs rows) × All PhaseRule rows
unfolding validate_sched_ext_sequence
validate_sched_ext_sequence_sound rows h =
    let p = sequence_from-Promise rows 0 none none h in (p.rising, p.non_decreasing, p.phases)
