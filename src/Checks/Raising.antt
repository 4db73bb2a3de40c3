-- ===== src/Checks/Raising.antt =====
-- Which exceptions a checker raises: the kinds of the errors of a result.
use exasphere.Base.{
  ℕ, ◌+◌, ◌≡◌, refl, Bool, true, false, List, [], ◌∷◌, String, Error, ErrorKind, Result, ok, err,
  guard, ◌>>=◌, ◌>>◌, for_each, if◌then◌else◌, Option, none, some, raise, str_eq, All, String,
}
use exasphere.Text.{is_blank}
use exasphere.Json.{ℤ, JsonValue, as_int, obj, bool, str}
use exasphere.Checks.{read_rows, int_found, int_or, text_or, bool_as, object_as}

-- Only errors of the kind `k` are raised.
abbrev pub RaisesOnly {ℓ} : {A : Type ℓ} → ErrorKind → Result A → Type 0
RaisesOnly k (ok a) = Unit
RaisesOnly k (err e) = e.kind ≡ k

pub RaisesOnly-err {ℓ} :
    {A : Type ℓ} (k : ErrorKind) (m : Result A) (e : Error)
    → RaisesOnly k m
    → m ≡ err e
    → e.kind ≡ k
RaisesOnly-err k (ok a) e h p = cc
RaisesOnly-err k (err raised) e h p = cc

pub guard-RaisesOnly : (k : ErrorKind) (b : Bool) (m : String) → RaisesOnly k (guard k b m)
unfolding guard
guard-RaisesOnly k true m = tt
guard-RaisesOnly k false m = refl

pub bind-RaisesOnly {ℓ κ} :
    {A : Type ℓ} {B : Type κ} (k : ErrorKind) (step : Result A) (rest : A → Result B)
    → RaisesOnly k step
    → ((a : A) → RaisesOnly k (rest a))
    → RaisesOnly k (step >>= rest)
bind-RaisesOnly k (ok a) rest h others = others a
bind-RaisesOnly k (err e) rest h others = h

pub then-RaisesOnly {ℓ} :
    {B : Type ℓ} (k : ErrorKind) (step : Result (Unit {0})) (rest : Result B)
    → RaisesOnly k step
    → RaisesOnly k rest
    → RaisesOnly k (step >> rest)
then-RaisesOnly k step rest h others = bind-RaisesOnly k step (λ _. rest) h (λ _. others)

pub for_each-RaisesOnly {ℓ} :
    {A : Type ℓ} (k : ErrorKind) (xs : List A) (f : A → Result (Unit {0}))
    → ((x : A) → RaisesOnly k (f x))
    → RaisesOnly k (for_each xs f)
unfolding for_each
for_each-RaisesOnly k [] f h = tt
for_each-RaisesOnly k (x ∷ xs) f h =
    then-RaisesOnly k (f x) (for_each xs f) (h x) (for_each-RaisesOnly k xs f h)

pub if-RaisesOnly {ℓ} :
    {A : Type ℓ} (k : ErrorKind) (b : Bool) (x y : Result A)
    → RaisesOnly k x
    → RaisesOnly k y
    → RaisesOnly k (if b then x else y)
if-RaisesOnly k true x y p q = p
if-RaisesOnly k false x y p q = q

pub int_or-RaisesOnly : (k : ErrorKind) (v : JsonValue) (m : String) → RaisesOnly k (int_or k v m)
unfolding int_or int_found
int_or-RaisesOnly k v m = by_int (as_int v)
  where
    by_int : (o : Option ℤ) → RaisesOnly k (int_found k o m)
    by_int none = refl
    by_int (some z) = tt

pub text_or-RaisesOnly : (k : ErrorKind) (v : JsonValue) (m : String) → RaisesOnly k (text_or k v m)
unfolding text_or
text_or-RaisesOnly k (str s) m = if-RaisesOnly k (str_eq s "") (raise k m) (ok s) refl tt
text_or-RaisesOnly k _ m = refl

pub bool_as-RaisesOnly : (k : ErrorKind) (v : JsonValue) (m : String) → RaisesOnly k (bool_as k v m)
unfolding bool_as
bool_as-RaisesOnly k (bool b) m = tt
bool_as-RaisesOnly k _ m = refl

pub object_as-RaisesOnly :
    (k : ErrorKind) (v : JsonValue) (m : String) → RaisesOnly k (object_as k v m)
unfolding object_as
object_as-RaisesOnly k (obj fs) m = tt
object_as-RaisesOnly k _ m = refl

pub read_rows-RaisesOnly {ℓ} :
    {A : Type ℓ} (k : ErrorKind) (take : ℕ → String → Result A) (index : ℕ) (lines : List String)
    → All (λ line. (n : ℕ) → RaisesOnly k (take n line)) lines
    → RaisesOnly k (read_rows take index lines)
unfolding read_rows
read_rows-RaisesOnly k take index [] h = tt
read_rows-RaisesOnly k take index (line ∷ lines) h =
    let later = read_rows-RaisesOnly k take (index + 1) lines h.1 in
    if-RaisesOnly k (is_blank line) (read_rows take (index + 1) lines) _ later (
      bind-RaisesOnly k (take index line) _ (h.0 index)
        (λ row. bind-RaisesOnly k (read_rows take (index + 1) lines) _ later (λ rows. tt)))
