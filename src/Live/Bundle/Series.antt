-- ===== src/Live/Bundle/Series.antt =====
-- What the samples of an accepted bundle show.
use exasphere.Base.{
  ℕ, suc, ◌≡◌, refl, true, false, ◌||◌, not, List, [], ◌∷◌, ok, guard-eq-ok, >>-eq-ok, >>=-eq-ok,
  All, length, any, ltb, live_behavior_error,
}
use exasphere.Text.{in_table}
use exasphere.Json.{JsonObject, get}
use exasphere.Checks.Laws.{refuted_by}
use exasphere.Live.Observe.{same_bool, all_alive, workload_execution_passed}
use exasphere.Live.Bundle.Counters.{ensure, observed_digest}
use exasphere.Live.Bundle.CounterLaws.{CountersOk, validate_counter_growth-CountersOk}
use exasphere.Live.Bundle.{
  require_bool, runs_minimal, middle_rows, last_row, sample_state, validate_cgroup_membership,
  validate_memberships, sample_series, validate_samples,
}

-- The samples before, during and after the attachment.
pub record SeriesOk (first : JsonObject) (rest : List JsonObject) (observe : JsonObject)
    : Type 0 where
  pub enough : ltb (length (first ∷ rest)) 3 ≡ false
  pub before : runs_minimal first ≡ false
  pub during : any runs_minimal (middle_rows rest) ≡ true
  pub after : runs_minimal (last_row first rest) ≡ false
  pub restored : in_table (sample_state (last_row first rest)) ("disabled" ∷ "previous" ∷ []) ≡ true
  pub alive : (all_alive (first ∷ rest) || workload_execution_passed observe) ≡ true
  pub digests :
      All (λ row. observed_digest (get row "cgroup_membership_digest") ≡ true) (first ∷ rest)
  pub counters : CountersOk first (last_row first rest) (length (first ∷ rest))

memberships-digests :
    (index : ℕ) (rows : List JsonObject)
    → validate_memberships index rows ≡ ok tt
    → All (λ row. observed_digest (get row "cgroup_membership_digest") ≡ true) rows
unfolding validate_memberships validate_cgroup_membership
memberships-digests index [] h = tt
memberships-digests index (row ∷ rows) h =
    let (one, others) = >>-eq-ok (validate_cgroup_membership index row) _ h in
    let (digest, _) =
      >>-eq-ok (ensure (observed_digest (get row "cgroup_membership_digest")) _) _ one in
    (guard-eq-ok live_behavior_error _ _ digest, memberships-digests (suc index) rows others)

series-SeriesOk :
    (first : JsonObject) (rest : List JsonObject) (observe : JsonObject)
    → ltb (length (first ∷ rest)) 3 ≡ false
    → sample_series first rest observe ≡ ok tt
    → SeriesOk first rest observe
unfolding sample_series
series-SeriesOk first rest observe enough h =
    let k = live_behavior_error in
    let (before, h1) = >>-eq-ok (ensure (not (runs_minimal first)) _) _ h in
    let (during, h2) = >>-eq-ok (ensure (any runs_minimal (middle_rows rest)) _) _ h1 in
    let (after, h3) = >>-eq-ok (ensure (not (runs_minimal (last_row first rest))) _) _ h2 in
    let (restored, h4) =
      >>-eq-ok
        (ensure (in_table (sample_state (last_row first rest)) ("disabled" ∷ "previous" ∷ [])) _) _
        h3 in
    let (claimed, _, h5) =
      >>=-eq-ok (require_bool observe "workload_alive_all_samples" "observe") _ h4 in
    let (_, h6) = >>-eq-ok (ensure (same_bool claimed (all_alive (first ∷ rest))) _) _ h5 in
    let (alive, h7) =
      >>-eq-ok (ensure (all_alive (first ∷ rest) || workload_execution_passed observe) _) _ h6 in
    let (members, counters) = >>-eq-ok (validate_memberships 0 (first ∷ rest)) _ h7 in
    record {
      enough = enough;
      before = refuted_by k _ _ before;
      during = guard-eq-ok k _ _ during;
      after = refuted_by k _ _ after;
      restored = guard-eq-ok k _ _ restored;
      alive = guard-eq-ok k _ _ alive;
      digests = memberships-digests 0 (first ∷ rest) members;
      counters =
          validate_counter_growth-CountersOk first (last_row first rest) (first ∷ rest) counters;
    }

-- A list of samples that is not empty and makes such a series.
pub record SamplesOk (rows : List JsonObject) (observe : JsonObject) : Type 0 where
  pub first : JsonObject
  pub rest : List JsonObject
  pub are_rows : rows ≡ first ∷ rest
  pub series : SeriesOk first rest observe

-- Accepted samples are three at least: the first does not run the minimal policy, one between the first
-- and the last does, the last does not and shows a restored state; every sample has an observed digest
-- of its cgroup; the workload was alive or its execution passed; and neither the fact `nr_rejected` nor
-- one of the counters nr_rejected, dispatch_failed, fallback and fatal of the events grew, where the
-- first and the last sample both show it.
pub validate_samples-SamplesOk :
    (rows : List JsonObject) (observe : JsonObject)
    → validate_samples rows observe ≡ ok tt
    → SamplesOk rows observe
unfolding validate_samples
validate_samples-SamplesOk [] observe h = cc
validate_samples-SamplesOk (first ∷ rest) observe h =
    let (enough, series) = >>-eq-ok (ensure (not (ltb (length (first ∷ rest)) 3)) _) _ h in
    record {
      first = first;
      rest = rest;
      are_rows = refl;
      series =
          series-SeriesOk first rest observe (refuted_by live_behavior_error _ _ enough) series;
    }
