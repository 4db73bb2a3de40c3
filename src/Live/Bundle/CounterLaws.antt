-- ===== src/Live/Bundle/CounterLaws.antt =====
-- qa/live_behavior_check.py: the counters of an accepted series of samples did not grow.
use exasphere.Base.{
  ℕ, ◌-◌, ◌≤◌, ◌≡◌, false, not, Option, none, some, List, [], ◌∷◌, String, ok, arith, ltb, length,
  All, >>-eq-ok, >>=-eq-ok, live_behavior_error, ◌<>◌,
}
use exasphere.Json.{JsonObject}
use exasphere.Checks.Laws.{refuted_by, for_each-eq-ok}
use exasphere.Live.Bundle.Counters.{
  ensure, validate_required_counter_fact, parse_counters, counter_of, grew, counter_names,
  counter_facts, validate_counter_growth,
}

-- The later counter is not greater than the earlier one, where both are known.
abbrev pub NotGrown : Option ℕ → Option ℕ → Type 0
NotGrown first last = (a b : ℕ) → first ≡ some a → last ≡ some b → b ≤ a

grew-NotGrown : (first last : Option ℕ) → grew first last ≡ false → NotGrown first last
grew-NotGrown none last h a b p q = cc
grew-NotGrown (some m) none h a b p q = cc
grew-NotGrown (some m) (some n) h a b p q = at_most m n a b h (some_inj p) (some_inj q)
  where
    some_inj : {x y : ℕ} → some x ≡ some y → x ≡ y
    some_inj e = cc

    at_most : (m n a b : ℕ) → ltb m n ≡ false → m ≡ a → n ≡ b → b ≤ a
    at_most m n a b h p q = ground arith

-- What the first and the last sample say of the counters.
pub record CountersOk (first last : JsonObject) (count : ℕ) : Type 0 where
  pub first_rejected : Option ℕ
  pub last_rejected : Option ℕ
  pub first_read : validate_required_counter_fact 0 first "nr_rejected" ≡ ok first_rejected
  pub last_read : validate_required_counter_fact (count - 1) last "nr_rejected" ≡ ok last_rejected
  pub rejected_not_grown : NotGrown first_rejected last_rejected
  pub first_events : List (String × ℕ)
  pub last_events : List (String × ℕ)
  pub first_parsed : parse_counters first ≡ ok first_events
  pub last_parsed : parse_counters last ≡ ok last_events
  pub events_not_grown :
      All
        (λ name. NotGrown (counter_of name first_events) (counter_of name last_events))
        counter_names

named-NotGrown :
    (names : List String) (first last : List (String × ℕ)) (words : String → String)
    → All
        (λ name.
          ensure (not (grew (counter_of name first) (counter_of name last))) (words name) ≡ ok tt)
        names
    → All (λ name. NotGrown (counter_of name first) (counter_of name last)) names
named-NotGrown [] first last words h = tt
named-NotGrown (name ∷ names) first last words h = (
  grew-NotGrown (counter_of name first) (counter_of name last)
      (refuted_by live_behavior_error (grew (counter_of name first) (counter_of name last)) _ h.0),
  named-NotGrown names first last words h.1,
)

pub validate_counter_growth-CountersOk :
    (first last : JsonObject) (rows : List JsonObject)
    → validate_counter_growth first last rows ≡ ok tt
    → CountersOk first last (length rows)
unfolding validate_counter_growth
validate_counter_growth-CountersOk first last rows h =
    let (_, h1) = >>-eq-ok (counter_facts 0 rows) _ h in
    let (m, m_ok, h2) = >>=-eq-ok (validate_required_counter_fact 0 first "nr_rejected") _ h1 in
    let (n, n_ok, h3) =
      >>=-eq-ok (validate_required_counter_fact (length rows - 1) last "nr_rejected") _ h2 in
    let (rejected, h4) = >>-eq-ok (ensure (not (grew m n)) _) _ h3 in
    let (first_events, first_ok, h5) = >>=-eq-ok (parse_counters first) _ h4 in
    let (last_events, last_ok, h6) = >>=-eq-ok (parse_counters last) _ h5 in
    record {
      first_rejected = m;
      last_rejected = n;
      first_read = m_ok;
      last_read = n_ok;
      rejected_not_grown = grew-NotGrown m n (refuted_by live_behavior_error (grew m n) _ rejected);
      first_events = first_events;
      last_events = last_events;
      first_parsed = first_ok;
      last_parsed = last_ok;
      events_not_grown =
          named-NotGrown counter_names first_events last_events
            (λ name. "fatal/reject/fallback counter grew: " <> name)
            (for_each-eq-ok counter_names _ h6);
    }
