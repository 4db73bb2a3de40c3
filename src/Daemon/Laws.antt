-- ===== src/Daemon/Laws.antt =====
-- qa/daemon_event_contract_check.py: which streams of events are accepted.
use exasphere.Base.{
  ℕ, suc, ◌≡◌, refl, ap, ◌↔◌, Bool, true, false, not, List, [], ◌∷◌, String, ok, guard-eq-ok,
  guard_iff, >>-eq-ok, >>-ok, >>=-eq-ok, for_each, All, arith, Bool-cases, inl, inr, all, ==_iff,
  contract_error, if◌then◌else◌,
}
use exasphere.Text.{in_table}
use exasphere.Json.{ℤ, pos, negsuc, JsonValue, str, obj, get, is_text}
use exasphere.World.{World, FilePath}
use exasphere.Checks.{sorted, without, is_empty}
use exasphere.Checks.Laws.{refuted_by, required_text, is_text-str, for_each_iff, without_iff}
use exasphere.Daemon.{
  ensure, schema, required_lifecycle, identifier, audit_id_re, EventRow, blank_or, is_seq,
  identifier_fields, validate_identifier, contains_private_field, validate_row, validate_rows,
  events_of, lifecycle_complete, load_rows, validate,
}
use exasphere.Daemon.Privacy.{Exposed, contains_private_field_iff}

-- The event that stands at the place `n` of an accepted stream.
pub record EventOk (n : ℕ) (row : EventRow) : Type 0 where
  pub schema_stands : get row.raw "schema" ≡ str schema
  pub in_sequence : row.seq_number ≡ pos n
  pub no_mutation : row.host_mutation ≡ false
  pub identifiers : All (λ name. blank_or identifier (get row.raw name) ≡ true) identifier_fields
  pub audit : blank_or audit_id_re (get row.raw "audit_id") ≡ true
  pub private_is_absent : ¬ Exposed (obj row.raw)

is_seq-eq : (z : ℤ) (n : ℕ) → is_seq z n ≡ true → z ≡ pos n
is_seq-eq (pos m) n h = ap pos ((==_iff m n).0 h)
is_seq-eq (negsuc m) n h = cc

is_seq-pos : (z : ℤ) (n : ℕ) → z ≡ pos n → is_seq z n ≡ true
is_seq-pos z n h = rw h ((==_iff n n).1 refl)

not-Exposed : (v : JsonValue) → contains_private_field v ≡ false → ¬ Exposed v
not-Exposed v h m = cc (h, (contains_private_field_iff v).1 m)

unexposed : (v : JsonValue) → ¬ Exposed v → contains_private_field v ≡ false
unexposed v clean = elim (Bool-cases (contains_private_field v)) [
  | inl e ↦ absurd (clean ((contains_private_field_iff v).0 e))
  | inr e ↦ e
]

passed : (b : Bool) (m : String) → b ≡ true → ensure b m ≡ ok tt
passed b m h = (guard_iff contract_error b m).1 h

negated : (b : Bool) → b ≡ false → not b ≡ true
negated b h = ground arith

identifiers_iff :
    (row : EventRow) (names : List String)
    → All (λ name. validate_identifier row name ≡ ok tt) names
      ↔ All (λ name. blank_or identifier (get row.raw name) ≡ true) names
unfolding validate_identifier
identifiers_iff row [] = (λ h. tt, λ h. tt)
identifiers_iff row (name ∷ names) =
    let one = guard_iff contract_error (blank_or identifier (get row.raw name)) _ in
    let others = identifiers_iff row names in
    (λ h. (one.0 h.0, others.0 h.1), λ h. (one.1 h.0, others.1 h.1))

row-EventOk : (row : EventRow) (n : ℕ) → validate_row row n ≡ ok tt → EventOk n row
unfolding validate_row
row-EventOk row n h =
    let (schema_ok, h1) = >>-eq-ok (ensure (is_text schema (get row.raw "schema")) _) _ h in
    let (seq_ok, h2) = >>-eq-ok (ensure (is_seq row.seq_number n) _) _ h1 in
    let (mutation_ok, h3) = >>-eq-ok (ensure (not row.host_mutation) _) _ h2 in
    let (names_ok, h4) = >>-eq-ok (for_each identifier_fields (validate_identifier row)) _ h3 in
    let (audit_ok, private_ok) =
      >>-eq-ok (ensure (blank_or audit_id_re (get row.raw "audit_id")) _) _ h4 in
    record {
      schema_stands = required_text contract_error schema _ _ schema_ok;
      in_sequence = is_seq-eq row.seq_number n (guard-eq-ok contract_error _ _ seq_ok);
      no_mutation = refuted_by contract_error row.host_mutation _ mutation_ok;
      identifiers = (identifiers_iff row identifier_fields).0 ((for_each_iff _ _).0 names_ok);
      audit = guard-eq-ok contract_error _ _ audit_ok;
      private_is_absent = not-Exposed (obj row.raw) (refuted_by contract_error _ _ private_ok);
    }

EventOk-row : (row : EventRow) (n : ℕ) → EventOk n row → validate_row row n ≡ ok tt
unfolding validate_row
EventOk-row row n e =
    >>-ok (ensure (is_text schema (get row.raw "schema")) _) _
      (passed _ _ (is_text-str schema _ e.schema_stands))
      (>>-ok (ensure (is_seq row.seq_number n) _) _
        (passed _ _ (is_seq-pos row.seq_number n e.in_sequence))
        (>>-ok (ensure (not row.host_mutation) _) _ (passed _ _ (negated _ e.no_mutation)) (
          >>-ok (for_each identifier_fields (validate_identifier row)) _
            ((for_each_iff _ _).1 ((identifiers_iff row identifier_fields).1 e.identifiers))
            (>>-ok (ensure (blank_or audit_id_re (get row.raw "audit_id")) _) _ (passed _ _ e.audit)
              (passed _ _ (negated _ (unexposed (obj row.raw) e.private_is_absent)))))))

-- An event passes at its place exactly if it has the schema, that sequence number, no mutation of the
-- host, blank or well-formed identifiers, and nothing private within it.
pub validate_row_iff : (row : EventRow) (n : ℕ) → (validate_row row n ≡ ok tt) ↔ EventOk n row
validate_row_iff row n = (row-EventOk row n, EventOk-row row n)

-- The events, numbered on from `n`.
abbrev pub EventsOk : ℕ → List EventRow → Type 0
EventsOk n [] = Unit
EventsOk n (row ∷ rows) = EventOk n row × EventsOk (suc n) rows

rows_iff : (n : ℕ) (rows : List EventRow) → (validate_rows n rows ≡ ok tt) ↔ EventsOk n rows
unfolding validate_rows
rows_iff n [] = (λ h. tt, λ h. refl)
rows_iff n (row ∷ rows) = (
  λ h.
      let (one, others) = >>-eq-ok (validate_row row n) (validate_rows (suc n) rows) h in
      (row-EventOk row n one, (rows_iff (suc n) rows).0 others),
  λ h.
      >>-ok (validate_row row n) (validate_rows (suc n) rows) (EventOk-row row n h.0)
        ((rows_iff (suc n) rows).1 h.1),
)

-- Every event of the lifecycle occurs.
abbrev pub Complete : List EventRow → Type 0
Complete rows = all (λ event. in_table event (events_of rows)) required_lifecycle ≡ true

-- The lifecycle is complete exactly if each of its nine events occurs in the stream.
pub lifecycle_complete_iff :
    (rows : List EventRow) → (lifecycle_complete rows ≡ ok tt) ↔ Complete rows
unfolding lifecycle_complete
lifecycle_complete_iff rows =
    let found =
      guard_iff contract_error (is_empty (sorted (without required_lifecycle (events_of rows))))
        _ in
    let every = without_iff required_lifecycle (events_of rows) in
    (λ h. every.0 (found.0 h), λ h. found.1 (every.1 h))

-- An accepted stream.
pub record AcceptedStream (w : World) (path : FilePath) (require_lifecycle : Bool) : Type 0 where
  pub rows : List EventRow
  pub loaded : load_rows w path ≡ ok rows
  pub events : EventsOk 1 rows
  pub lifecycle : require_lifecycle ≡ true → Complete rows

lifecycle_when :
    (b : Bool) (rows : List EventRow)
    → ((if b then lifecycle_complete rows else ok tt) ≡ ok tt) ↔ (b ≡ true → Complete rows)
lifecycle_when true rows =
    (λ h p. (lifecycle_complete_iff rows).0 h, λ f. (lifecycle_complete_iff rows).1 (f refl))
lifecycle_when false rows = (λ h p. cc, λ f. refl)

validate-AcceptedStream :
    (w : World) (path : FilePath) (b : Bool) → validate w path b ≡ ok tt → AcceptedStream w path b
unfolding validate
validate-AcceptedStream w path b h =
    let (rows, loaded, h1) = >>=-eq-ok (load_rows w path) _ h in
    let (events_ok, life) = >>-eq-ok (validate_rows 1 rows) _ h1 in
    record {
      rows = rows;
      loaded = loaded;
      events = (rows_iff 1 rows).0 events_ok;
      lifecycle = (lifecycle_when b rows).0 life;
    }

AcceptedStream-validate :
    (w : World) (path : FilePath) (b : Bool) → AcceptedStream w path b → validate w path b ≡ ok tt
unfolding validate
AcceptedStream-validate w path b s = rw s.loaded (
    >>-ok (validate_rows 1 s.rows) _ ((rows_iff 1 s.rows).1 s.events)
      ((lifecycle_when b s.rows).1 s.lifecycle))

-- The stream at a path is accepted exactly if its rows can be read, the events are numbered 1, 2, …
-- without a gap and each of them is well formed, mutates no host and holds nothing private, and, where
-- the lifecycle is required, every event of the lifecycle occurs.
pub validate_iff :
    (w : World) (path : FilePath) (require_lifecycle : Bool)
    → (validate w path require_lifecycle ≡ ok tt) ↔ AcceptedStream w path require_lifecycle
validate_iff w path b = (validate-AcceptedStream w path b, AcceptedStream-validate w path b)
