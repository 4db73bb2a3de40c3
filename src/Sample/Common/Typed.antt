-- ===== src/Sample/Common/Typed.antt =====
-- What a typed read of a field tells of the field.
use exasphere.Base.{
  ◌≡◌, refl, sym, ap, ◌∙◌, Bool, true, false, not, String, str_eq, ok, guard-eq-ok, ok_injective,
  runtime_sample_error, if◌then◌else◌, arith,
}
use exasphere.Json.{JsonValue, bool, str, obj, JsonObject, get}
use exasphere.Sample.Common.{
  fail, ensure, text_or, bool_or, object_or, require_string, require_bool, require_object,
}

non_empty :
    (b : Bool) (t m : String) {s : String}
    → (if b then fail m else ok t) ≡ ok s
    → (t ≡ s) × (b ≡ false)
non_empty true t m h = cc
non_empty false t m h = (ok_injective h, refl)

pub require_string-eq-ok :
    (data_ : JsonObject) (name context : String) {s : String}
    → require_string data_ name context ≡ ok s
    → (get data_ name ≡ str s) × (str_eq s "" ≡ false)
unfolding require_string
require_string-eq-ok data_ name context h = of_value (get data_ name) _ h
  where
    of_value :
        (v : JsonValue) (m : String) {s : String}
        → text_or v m ≡ ok s
        → (v ≡ str s) × (str_eq s "" ≡ false)
    of_value (str t) m h =
        let (same, full) = non_empty (str_eq t "") t m h in
        (ap str same, ap (λ u. str_eq u "") (sym same) ∙ full)
    of_value _ m h = cc

pub require_bool-eq-ok :
    (data_ : JsonObject) (name context : String) {b : Bool}
    → require_bool data_ name context ≡ ok b
    → get data_ name ≡ bool b
unfolding require_bool
require_bool-eq-ok data_ name context h = of_value (get data_ name) _ h
  where
    of_value : (v : JsonValue) (m : String) {b : Bool} → bool_or v m ≡ ok b → v ≡ bool b
    of_value (bool b) m h = ap bool (ok_injective h)
    of_value _ m h = cc

pub require_object-eq-ok :
    (data_ : JsonObject) (name context : String) {fs : JsonObject}
    → require_object data_ name context ≡ ok fs
    → get data_ name ≡ obj fs
unfolding require_object
require_object-eq-ok data_ name context h = of_value (get data_ name) _ h
  where
    of_value : (v : JsonValue) (m : String) {fs : JsonObject} → object_or v m ≡ ok fs → v ≡ obj fs
    of_value (obj fs) m h = ap obj (ok_injective h)
    of_value _ m h = cc

pub ensured : (b : Bool) (m : String) → ensure b m ≡ ok tt → b ≡ true
ensured b m h = guard-eq-ok runtime_sample_error b m h

pub refuted : (b : Bool) (m : String) → ensure (not b) m ≡ ok tt → b ≡ false
refuted b m h = flip b (guard-eq-ok runtime_sample_error (not b) m h)
  where
    flip : (b : Bool) → not b ≡ true → b ≡ false
    flip b p = ground arith
