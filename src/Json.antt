-- ===== src/Json.antt =====
-- JSON values as `json.loads` builds them (`JsonValue`, `JsonObject` in every checker), and Python's
-- operations on them: `dict.get`, `in`, `isinstance`, `is True`, `==`.
pub mod Equality
use exasphere.Base.{
  ℕ, zero, suc, Bool, true, false, ◌||◌, Option, none, some, List, [], ◌∷◌, String, str_eq, ltb,
  if◌then◌else◌,
}

-- A Python `int`; `negsuc n` is -(n + 1).
pub data ℤ : Type 0 where
  pos : ℕ → ℤ
  negsuc : ℕ → ℤ

pub data NonFinite : Type 0 where
  nan infinity minus_infinity : NonFinite

-- A finite double is `mantissa / 2 ^ exponent`: `float m k`. The keys of a dictionary are those of
-- the text in order, each once, with its last value.
mutual
  pub data JsonValue : Type 0 where
    null : JsonValue
    bool : Bool → JsonValue
    int : ℤ → JsonValue
    float : ℤ → ℕ → JsonValue
    nonfinite : NonFinite → JsonValue
    str : String → JsonValue
    arr : Items → JsonValue
    obj : JsonObject → JsonValue

  pub data Items : Type 0 where
    nil : Items
    cons : JsonValue → Items → Items

  pub data JsonObject : Type 0 where
    end : JsonObject
    field : String → JsonValue → JsonObject → JsonObject

abbrev pub items : Items → List JsonValue
items nil = []
items (cons v vs) = v ∷ items vs

-- `data.items()`, `list(data)`
abbrev pub pairs : JsonObject → List (String × JsonValue)
pairs end = []
pairs (field k v fs) = (k, v) ∷ pairs fs

abbrev pub keys : JsonObject → List String
keys end = []
keys (field k v fs) = k ∷ keys fs

-- `data.get(key)`; `none` for a key that is not there.
unfoldable pub lookup : JsonObject → String → Option JsonValue
lookup end k = none
lookup (field j v fs) k = if str_eq j k then some v else lookup fs k

or_null : Option JsonValue → JsonValue
or_null none = null
or_null (some v) = v

-- `data.get(key)` as the checkers read it: `None` is also JSON's null.
unfoldable pub get : JsonObject → String → JsonValue
unfolding lookup or_null
get data_ k = or_null (lookup data_ k)

-- `key in data`
unfoldable pub has_key : JsonObject → String → Bool
has_key end k = false
has_key (field j v fs) k = str_eq j k || has_key fs k

abbrev pub is_null : JsonValue → Bool
is_null null = true
is_null _ = false

-- `value is True`, `value is False`
abbrev pub is_true : JsonValue → Bool
is_true (bool b) = b
is_true _ = false

abbrev pub is_false : JsonValue → Bool
is_false (bool true) = false
is_false (bool false) = true
is_false _ = false

-- `value == "text"`
abbrev pub is_text : String → JsonValue → Bool
is_text t (str s) = str_eq s t
is_text t _ = false

abbrev pub as_text : JsonValue → Option String
as_text (str s) = some s
as_text _ = none

-- `isinstance(value, int)` holds of `True` and `False` too, which count as 1 and 0.
abbrev pub as_int : JsonValue → Option ℤ
as_int (int z) = some z
as_int (bool true) = some (pos 1)
as_int (bool false) = some (pos 0)
as_int _ = none

abbrev pub is_negative : ℤ → Bool
is_negative (pos n) = false
is_negative (negsuc n) = true

abbrev pub lt_ℤ : ℤ → ℤ → Bool
lt_ℤ (pos m) (pos n) = ltb m n
lt_ℤ (pos m) (negsuc n) = false
lt_ℤ (negsuc m) (pos n) = true
lt_ℤ (negsuc m) (negsuc n) = ltb n m
