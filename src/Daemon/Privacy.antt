-- ===== src/Daemon/Privacy.antt =====
-- qa/daemon_event_contract_check.py: the privacy scan of an event, against a description by what the
-- event holds.
use exasphere.Base.{
  ◌≡◌, ◌↔◌, inl, inr, Bool, true, false, ◌&&◌, ◌||◌, not, String, str_eq, arith, and_split,
  and_join, or_split, or_join,
}
use exasphere.Json.{JsonValue, str, arr, obj, Items, nil, cons, JsonObject, end, field}
use exasphere.Daemon.{has_needle, contains_private_field, private_items, private_fields}

-- A text or a key with a private needle, at any depth, that does not stand at or under a key
-- `command_argv_hash`.
mutual
  pub data Exposed : JsonValue → Type 0 where
    in_text : {s : String} → has_needle s ≡ true → Exposed (str s)
    in_list : {vs : Items} → ExposedItems vs → Exposed (arr vs)
    in_dict : {fs : JsonObject} → ExposedFields fs → Exposed (obj fs)

  pub data ExposedItems : Items → Type 0 where
    first : {v : JsonValue} {vs : Items} → Exposed v → ExposedItems (cons v vs)
    later : {v : JsonValue} {vs : Items} → ExposedItems vs → ExposedItems (cons v vs)

  pub data ExposedFields : JsonObject → Type 0 where
    in_key :
        {key : String} {v : JsonValue} {fs : JsonObject}
        → str_eq key "command_argv_hash" ≡ false
        → has_needle key ≡ true
        → ExposedFields (field key v fs)
    in_value :
        {key : String} {v : JsonValue} {fs : JsonObject}
        → str_eq key "command_argv_hash" ≡ false
        → Exposed v
        → ExposedFields (field key v fs)
    later_field :
        {key : String} {v : JsonValue} {fs : JsonObject}
        → ExposedFields fs
        → ExposedFields (field key v fs)

is_false : (b : Bool) → not b ≡ true → b ≡ false
is_false b h = ground arith

is_not : (b : Bool) → b ≡ false → not b ≡ true
is_not b h = ground arith

entry_leaks :
    (key : String) (v : JsonValue) (fs : JsonObject)
    → (not (str_eq key "command_argv_hash") && (has_needle key || contains_private_field v)) ≡ true
    → (contains_private_field v ≡ true → Exposed v)
    → ExposedFields (field key v fs)
entry_leaks key v fs p within =
    let (other, leaks) = and_split (not (str_eq key "command_argv_hash")) _ p in
    elim (or_split (has_needle key) (contains_private_field v) leaks) [
      | inl q ↦ in_key (is_false _ other) q
      | inr q ↦ in_value (is_false _ other) (within q)
    ]

mutual
  unfolding contains_private_field

  finds : (v : JsonValue) → contains_private_field v ≡ true → Exposed v
  finds (str s) h = in_text h
  finds (arr vs) h = in_list (finds_item vs h)
  finds (obj fs) h = in_dict (finds_field fs h)
  finds _ h = cc

  finds_item : (vs : Items) → private_items vs ≡ true → ExposedItems vs
  finds_item nil h = cc
  finds_item (cons v vs) h = elim (or_split (contains_private_field v) (private_items vs) h) [
    | inl p ↦ first (finds v p)
    | inr p ↦ later (finds_item vs p)
  ]

  finds_field : (fs : JsonObject) → private_fields fs ≡ true → ExposedFields fs
  finds_field end h = cc
  finds_field (field key v fs) h =
      elim (or_split (not (str_eq key "command_argv_hash") && _) (private_fields fs) h) [
        | inr p ↦ later_field (finds_field fs p)
        | inl p ↦ entry_leaks key v fs p (finds v)
      ]

mutual
  unfolding contains_private_field

  reports : {v : JsonValue} → Exposed v → contains_private_field v ≡ true
  reports (in_text h) = h
  reports (in_list m) = reports_item m
  reports (in_dict m) = reports_field m

  reports_item : {vs : Items} → ExposedItems vs → private_items vs ≡ true
  reports_item (first {v} {vs} m) = or_join (contains_private_field v) _ (inl (reports m))
  reports_item (later {v} {vs} m) = or_join (contains_private_field v) _ (inr (reports_item m))

  reports_field : {fs : JsonObject} → ExposedFields fs → private_fields fs ≡ true
  reports_field (in_key {key} {v} {fs} other p) = or_join _ (private_fields fs) (
      inl (
        and_join _ _ (is_not _ other)
          (or_join (has_needle key) (contains_private_field v) (inl p))))
  reports_field (in_value {key} {v} {fs} other m) = or_join _ (private_fields fs) (
      inl (
        and_join _ _ (is_not _ other)
          (or_join (has_needle key) (contains_private_field v) (inr (reports m)))))
  reports_field (later_field {key} {v} {fs} m) =
      or_join (not (str_eq key "command_argv_hash") && _) _ (inr (reports_field m))

-- The scan reports an event exactly if a text or a key within it has a private needle, at any depth,
-- but for what stands at or under a key `command_argv_hash`.
pub contains_private_field_iff : (v : JsonValue) → (contains_private_field v ≡ true) ↔ Exposed v
contains_private_field_iff v = (finds v, reports)
