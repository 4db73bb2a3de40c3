-- ===== src/Sample/Common/Privacy.antt =====
-- The privacy scan against a description by what a value holds: it accepts exactly the values in
-- which nothing unsafe is nested, at any depth.
use exasphere.Base.{
  ℕ, ◌+◌, ◌≡◌, refl, ◌↔◌, Bool, true, false, ◌&&◌, not, String, ok, guard-eq-ok, guard-true,
  >>-eq-ok, ◌<>◌, arith, runtime_sample_error,
}
use exasphere.Text.Digits.{show}
use exasphere.Json.{JsonValue, str, arr, obj, Items, nil, cons, JsonObject, end, field, is_true}
use exasphere.Sample.Tokens.{private_key}
use exasphere.Sample.Common.{
  ensure, private_text_contains, claim_key, reject_private_leaks, reject_fields, reject_items,
}

-- A value within a value, at any depth; an entry of a dictionary; an item of a list.
mutual
  pub data Within : JsonValue → JsonValue → Type 0 where
    here : {v : JsonValue} → Within v v
    in_list : {w : JsonValue} {vs : Items} → WithinItems w vs → Within w (arr vs)
    in_dict : {w : JsonValue} {fs : JsonObject} → WithinFields w fs → Within w (obj fs)

  pub data WithinItems : JsonValue → Items → Type 0 where
    first : {w v : JsonValue} {vs : Items} → Within w v → WithinItems w (cons v vs)
    later : {w v : JsonValue} {vs : Items} → WithinItems w vs → WithinItems w (cons v vs)

  pub data WithinFields : JsonValue → JsonObject → Type 0 where
    first_field :
        {w v : JsonValue} {k : String} {fs : JsonObject}
        → Within w v
        → WithinFields w (field k v fs)
    later_field :
        {w v : JsonValue} {k : String} {fs : JsonObject}
        → WithinFields w fs
        → WithinFields w (field k v fs)

-- What the scan asks of an entry: no private word in the key, and no claim that is `true`.
abbrev pub SafeEntry : String → JsonValue → Type 0
SafeEntry key child = (private_key key ≡ false) × ((claim_key key && is_true child) ≡ false)

abbrev pub SafeEntries : JsonObject → Type 0
SafeEntries end = Unit
SafeEntries (field key child fs) = SafeEntry key child × SafeEntries fs

-- What it asks of a value by itself: the values within are looked at one by one.
abbrev pub Safe : JsonValue → Type 0
Safe (str s) = private_text_contains s ≡ false
Safe (obj fs) = SafeEntries fs
Safe _ = Unit

not-false : (b : Bool) → not b ≡ true → b ≡ false
not-false b h = ground arith

ensure-not : (b : Bool) (m : String) → ensure (not b) m ≡ ok tt → b ≡ false
ensure-not b m h = not-false b (guard-eq-ok runtime_sample_error (not b) m h)

passes_when_false : (b : Bool) (m : String) → b ≡ false → ensure (not b) m ≡ ok tt
passes_when_false b m h = rw h (guard-true runtime_sample_error m)

-- What a field of an accepted dictionary passed.
record FieldOk (key : String) (child : JsonValue) (fs : JsonObject) (context : String)
    : Type 0 where
  entry : SafeEntry key child
  value : reject_private_leaks child (context <> "." <> key) ≡ ok tt
  rest : reject_fields fs context ≡ ok tt

reject_fields-FieldOk :
    (key : String) (child : JsonValue) (fs : JsonObject) (context : String)
    → reject_fields (field key child fs) context ≡ ok tt
    → FieldOk key child fs context
unfolding reject_private_leaks
reject_fields-FieldOk key child fs context h =
    let (safe_key, h1) = >>-eq-ok _ _ h in
    let (safe_claim, h2) = >>-eq-ok _ _ h1 in
    let (value_ok, rest_ok) = >>-eq-ok _ _ h2 in
    record {
      entry = (ensure-not (private_key key) _ safe_key, ensure-not _ _ safe_claim);
      value = value_ok;
      rest = rest_ok;
    }

ItemOk : JsonValue → Items → ℕ → String → Type 0
ItemOk v vs index context =
    (reject_private_leaks v (context <> "[" <> show index <> "]") ≡ ok tt)
    × (reject_items (index + 1) vs context ≡ ok tt)

reject_items-ItemOk :
    (v : JsonValue) (vs : Items) (index : ℕ) (context : String)
    → reject_items index (cons v vs) context ≡ ok tt
    → ItemOk v vs index context
unfolding reject_private_leaks ItemOk
reject_items-ItemOk v vs index context h = >>-eq-ok _ _ h

fields_safe :
    (fs : JsonObject) (context : String) → reject_fields fs context ≡ ok tt → SafeEntries fs
fields_safe end context h = tt
fields_safe (field k v fs) context h =
    let passed = reject_fields-FieldOk k v fs context h in
    (passed.entry, fields_safe fs context passed.rest)

value-Safe : (v : JsonValue) (context : String) → reject_private_leaks v context ≡ ok tt → Safe v
unfolding reject_private_leaks
value-Safe (str s) context h = ensure-not (private_text_contains s) _ h
value-Safe (obj fs) context h = fields_safe fs context h
value-Safe _ context h = tt

-- On a list and on a dictionary the scan is that of the parts.
reject-arr :
    (vs : Items) (context : String)
    → reject_private_leaks (arr vs) context ≡ reject_items 0 vs context
unfolding reject_private_leaks
reject-arr vs context = refl

reject-obj :
    (fs : JsonObject) (context : String)
    → reject_private_leaks (obj fs) context ≡ reject_fields fs context
unfolding reject_private_leaks
reject-obj fs context = refl

mutual
  unfolding ItemOk

  Within-Safe :
      {w v : JsonValue}
      → Within w v
      → (context : String) → reject_private_leaks v context ≡ ok tt
      → Safe w
  Within-Safe (here {v}) context h = value-Safe v context h
  Within-Safe (in_list {vs} m) context h = items_within m 0 context (rw (← reject-arr vs context) h)
  Within-Safe (in_dict {fs} m) context h = fields_within m context (rw (← reject-obj fs context) h)

  items_within :
      {w : JsonValue} {vs : Items}
      → WithinItems w vs
      → (index : ℕ) (context : String) → reject_items index vs context ≡ ok tt
      → Safe w
  items_within (first {v} {vs} m) index context h =
      Within-Safe m _ (reject_items-ItemOk v vs index context h).0
  items_within (later {v} {vs} m) index context h =
      items_within m (index + 1) context (reject_items-ItemOk v vs index context h).1

  fields_within :
      {w : JsonValue} {fs : JsonObject}
      → WithinFields w fs
      → (context : String) → reject_fields fs context ≡ ok tt
      → Safe w
  fields_within (first_field {v} {k} {fs} m) context h =
      Within-Safe m _ (reject_fields-FieldOk k v fs context h).value
  fields_within (later_field {v} {k} {fs} m) context h =
      fields_within m context (reject_fields-FieldOk k v fs context h).rest

mutual
  unfolding reject_private_leaks

  accepts :
      (v : JsonValue) (context : String)
      → ((w : JsonValue) → Within w v → Safe w)
      → reject_private_leaks v context ≡ ok tt
  accepts (obj fs) context h = accepts_fields fs context (λ w m. h w (in_dict m)) (h (obj fs) here)
  accepts (arr vs) context h = accepts_items vs 0 context (λ w m. h w (in_list m))
  accepts (str s) context h = passes_when_false (private_text_contains s) _ (h (str s) here)
  accepts _ context h = refl

  accepts_fields :
      (fs : JsonObject) (context : String)
      → ((w : JsonValue) → WithinFields w fs → Safe w)
      → SafeEntries fs
      → reject_fields fs context ≡ ok tt
  accepts_fields end context h safe = refl
  accepts_fields (field k v fs) context h safe =
      let value_ok = accepts v (context <> "." <> k) (λ w m. h w (first_field m)) in
      let rest_ok = accepts_fields fs context (λ w m. h w (later_field m)) safe.1 in
      rw (safe.0.0, safe.0.1, guard-true, guard-true, value_ok) rest_ok

  accepts_items :
      (vs : Items) (index : ℕ) (context : String)
      → ((w : JsonValue) → WithinItems w vs → Safe w)
      → reject_items index vs context ≡ ok tt
  accepts_items nil index context h = refl
  accepts_items (cons v vs) index context h =
      let value_ok = accepts v (context <> "[" <> show index <> "]") (λ w m. h w (first m)) in
      rw value_ok (accepts_items vs (index + 1) context (λ w m. h w (later m)))

-- `reject_private_leaks` accepts a value exactly if every value within it, itself included, is safe.
pub reject_private_leaks_iff :
    (v : JsonValue) (context : String)
    → (reject_private_leaks v context ≡ ok tt) ↔ ((w : JsonValue) → Within w v → Safe w)
reject_private_leaks_iff v context = (λ h w m. Within-Safe m context h, accepts v context)
