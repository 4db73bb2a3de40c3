-- ===== src/Json/Equality.antt =====
-- Python's `==` on JSON values: `True == 1 == 1.0`, dictionaries without regard to order, and no NaN
-- equal to itself.
use exasphere.Base.{
  ℕ, ◌-◌, ◌*◌, ◌+◌, ◌^◌, Bool, true, false, ◌&&◌, Option, none, some, str_eq, ◌==◌, length, ◌≡◌, ap,
  sym, eq_iff, String,
}
use exasphere.Json.{
  ℤ, pos, negsuc, infinity, minus_infinity, JsonValue, null, bool, int, float, nonfinite, str, arr,
  obj, Items, nil, cons, JsonObject, end, field, lookup, keys,
}

-- z * 2 ^ k
scale : ℤ → ℕ → ℤ
scale (pos n) k = pos (n * 2 ^ k)
scale (negsuc n) k = negsuc ((n + 1) * 2 ^ k - 1)

int_eq : ℤ → ℤ → Bool
int_eq (pos m) (pos n) = m == n
int_eq (negsuc m) (negsuc n) = m == n
int_eq _ _ = false

-- A number as mantissa and exponent; the Booleans are numbers.
number : JsonValue → Option (ℤ × ℕ)
number (bool true) = some (pos 1, 0)
number (bool false) = some (pos 0, 0)
number (int z) = some (z, 0)
number (float m k) = some (m, k)
number _ = none

same_number : Option (ℤ × ℕ) → Option (ℤ × ℕ) → Bool
unfolding int_eq scale
same_number (some (m, j)) (some (n, k)) = int_eq (scale m k) (scale n j)
same_number _ _ = false

abbrev with_value : (JsonValue → Bool) → Option JsonValue → Bool
with_value same none = false
with_value same (some v) = same v

unfoldable mutual
  unfolding number same_number

  pub value_eq : JsonValue → JsonValue → Bool
  value_eq null null = true
  value_eq (str s) (str t) = str_eq s t
  value_eq (arr xs) (arr ys) = items_eq xs ys
  value_eq (obj fs) (obj gs) = length (keys fs) == length (keys gs) && fields_eq fs gs
  value_eq (nonfinite infinity) (nonfinite infinity) = true
  value_eq (nonfinite minus_infinity) (nonfinite minus_infinity) = true
  value_eq v w = same_number (number v) (number w)

  pub items_eq : Items → Items → Bool
  items_eq nil nil = true
  items_eq (cons x xs) (cons y ys) = value_eq x y && items_eq xs ys
  items_eq _ _ = false

  pub fields_eq : JsonObject → JsonObject → Bool
  fields_eq end gs = true
  fields_eq (field k v fs) gs = with_value (value_eq v) (lookup gs k) && fields_eq fs gs

-- Nothing but the same text equals a text.
pub value_eq-str : (s : String) (v : JsonValue) → value_eq (str s) v ≡ true → v ≡ str s
unfolding value_eq same_number number
value_eq-str s (str t) h = ap str (sym ((eq_iff s t).0 h))
value_eq-str s _ h = cc
