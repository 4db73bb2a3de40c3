-- ===== src/Sample/Order/Laws.antt =====
-- Accepted rows show what an incident reports no later than the incident.
use exasphere.Base.{
  ℕ, ◌+◌, ◌≡◌, subst, ◌⊎◌, inl, inr, Bool, true, false, ◌&&◌, ◌||◌, not, List, [], ◌∷◌, ◌++◌,
  String, arith, Result, ok, guard, guard-eq-ok, >>-eq-ok, >>=-eq-ok, ok_injective, or_split,
  and_split, if◌then◌else◌,
}
use exasphere.Json.{JsonObject, get, is_text, is_false}
use exasphere.Sample.Order.{is_rejection, alert_row, alert_rows, validate_alert_order}

-- Some item of a list.
abbrev pub Some : (JsonObject → Type 0) → List JsonObject → Type 0
Some P [] = ⊥
Some P (x ∷ xs) = P x ⊎ Some P xs

-- A runtime sample with a positive count of rejections; one whose workload is not alive.
abbrev pub ShowsRejection : JsonObject → Type 0
ShowsRejection row =
    (is_text "runtime_sample" (get row "event") ≡ true)
    × (is_rejection (get row "nr_rejected") ≡ ok true)

abbrev pub ShowsDeath : JsonObject → Type 0
ShowsDeath row =
    (is_text "runtime_sample" (get row "event") ≡ true)
    × (is_false (get row "workload_alive") ≡ true)

-- The flags after a row, from the flags before it.
record RowOk (seen seen' : Bool × Bool) (row : JsonObject) : Type 0 where
  rejection : seen'.0 ≡ true → (seen.0 ≡ true) ⊎ ShowsRejection row
  death : seen'.1 ≡ true → (seen.1 ≡ true) ⊎ ShowsDeath row
  rejection_reported :
      is_text "runtime_nr_rejected_nonzero" (get row "reason") ≡ true → seen'.0 ≡ true
  death_reported : is_text "runtime_workload_dead" (get row "reason") ≡ true → seen'.1 ≡ true

flag_cause :
    (b r : Bool) {m : Result Bool}
    → (if b then m else ok false) ≡ ok r
    → r ≡ true
    → (b ≡ true) × (m ≡ ok true)
flag_cause b r h p = ground arith

reported : (a b : Bool) → not (a && not b) ≡ true → a ≡ true → b ≡ true
reported a b h p = ground arith

cause : {P : Type 0} (a b : Bool) → (b ≡ true → P) → (a || b) ≡ true → (a ≡ true) ⊎ P
cause a b f h = elim (or_split a b h) [ inl p ↦ inl p | inr q ↦ inr (f q) ]

alert_row-RowOk :
    (label : String) (index : ℕ) (r d : Bool) (row : JsonObject) {seen' : Bool × Bool}
    → alert_row label index (r, d) row ≡ ok seen'
    → RowOk (r, d) seen' row
unfolding alert_row guard
alert_row-RowOk label index r d row h =
    let sample = is_text "runtime_sample" (get row "event") in
    let (rejected, found, h1) =
      >>=-eq-ok (if sample then is_rejection (get row "nr_rejected") else ok false) _ h in
    let dead = sample && is_false (get row "workload_alive") in
    let (p, h2) = >>-eq-ok _ _ h1 in
    let (q, h3) = >>-eq-ok _ _ h2 in
    subst (λ s. RowOk (r, d) s row) (ok_injective h3)
      (record {
        rejection = cause r rejected (flag_cause sample rejected found);
        death = cause d dead (and_split sample (is_false (get row "workload_alive")));
        rejection_reported = reported _ _ (guard-eq-ok _ _ _ p);
        death_reported = reported _ _ (guard-eq-ok _ _ _ q);
      })

-- The rows before a row and the row itself.
abbrev pub up_to : List JsonObject → JsonObject → List JsonObject
up_to before row = before ++ (row ∷ [])

module _ (label : String) (row : JsonObject) (after : List JsonObject) where
  rejection_shown :
      (before : List JsonObject) (index : ℕ) (r d : Bool)
      → alert_rows label index (r, d) (before ++ (row ∷ after)) ≡ ok tt
      → is_text "runtime_nr_rejected_nonzero" (get row "reason") ≡ true
      → (r ≡ true) ⊎ Some ShowsRejection (up_to before row)
  unfolding alert_rows
  rejection_shown [] index r d h incident =
      let (next, row_ok, rest_ok) = >>=-eq-ok (alert_row label index (r, d) row) _ h in
      let passed = alert_row-RowOk label index r d row row_ok in
      elim (passed.rejection (passed.rejection_reported incident)) [
        | inl p ↦ inl p
        | inr s ↦ inr (inl s)
      ]
  rejection_shown (b ∷ before) index r d h incident =
      let (next, row_ok, rest_ok) = >>=-eq-ok (alert_row label index (r, d) b) _ h in
      let passed = alert_row-RowOk label index r d b row_ok in
      elim (rejection_shown before (index + 1) next.0 next.1 rest_ok incident) [
        | inl p ↦ elim (passed.rejection p) [ inl q ↦ inl q | inr s ↦ inr (inl s) ]
        | inr s ↦ inr (inr s)
      ]

  death_shown :
      (before : List JsonObject) (index : ℕ) (r d : Bool)
      → alert_rows label index (r, d) (before ++ (row ∷ after)) ≡ ok tt
      → is_text "runtime_workload_dead" (get row "reason") ≡ true
      → (d ≡ true) ⊎ Some ShowsDeath (up_to before row)
  unfolding alert_rows
  death_shown [] index r d h incident =
      let (next, row_ok, rest_ok) = >>=-eq-ok (alert_row label index (r, d) row) _ h in
      let passed = alert_row-RowOk label index r d row row_ok in
      elim (passed.death (passed.death_reported incident)) [ inl p ↦ inl p | inr s ↦ inr (inl s) ]
  death_shown (b ∷ before) index r d h incident =
      let (next, row_ok, rest_ok) = >>=-eq-ok (alert_row label index (r, d) b) _ h in
      let passed = alert_row-RowOk label index r d b row_ok in
      elim (death_shown before (index + 1) next.0 next.1 rest_ok incident) [
        | inl p ↦ elim (passed.death p) [ inl q ↦ inl q | inr s ↦ inr (inl s) ]
        | inr s ↦ inr (inr s)
      ]

not_yet : {P : Type 0} → (false ≡ true) ⊎ P → P
not_yet (inl h) = cc
not_yet (inr p) = p

-- In accepted rows, wherever an incident for rejections stands, that row or one before it is a runtime
-- sample with a positive nr_rejected; and wherever an incident for a dead workload stands, that row
-- or one before it is a runtime sample whose workload is not alive.
pub validate_alert_order_sound :
    (before : List JsonObject) (row : JsonObject) (after : List JsonObject) (label : String)
    → validate_alert_order (before ++ (row ∷ after)) label ≡ ok tt
    → (is_text "runtime_nr_rejected_nonzero" (get row "reason") ≡ true
        → Some ShowsRejection (up_to before row))
      × (is_text "runtime_workload_dead" (get row "reason") ≡ true
          → Some ShowsDeath (up_to before row))
unfolding validate_alert_order
validate_alert_order_sound before row after label h = (
  (λ p. not_yet (rejection_shown label row after before 0 false false h p)),
  (λ p. not_yet (death_shown label row after before 0 false false h p)),
)
