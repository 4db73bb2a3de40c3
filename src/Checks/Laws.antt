-- ===== src/Checks/Laws.antt =====
-- What the shared reads tell of the values that they accept.
use exasphere.Base.{
  ◌≡◌, refl, sym, ap, ◌∙◌, Bool, true, false, not, List, [], ◌∷◌, String, str_eq, arith, ErrorKind,
  Result, ok, raise, guard, guard-eq-ok, ok_injective, if◌then◌else◌, Bool-cases, inl, inr,
  and_join, and_split, all, eq_iff, ◌↔◌, >>-ok, for_each, All, >>-eq-ok,
}
use exasphere.Text.{in_table}
use exasphere.Json.{
  JsonValue, str, bool, obj, arr, Items, JsonObject, keys, is_text, is_true, is_false,
}
use exasphere.World.{World, FilePath, found}
use exasphere.Checks.{
  member_of, is_one_of, only_fields_as, digest_as, text_as, text_or, bool_as, object_as, list_as,
  without, sorted, insert_sorted, is_empty,
}

non_empty :
    (k : ErrorKind) (b : Bool) (t m : String) {s : String}
    → (if b then raise k m else ok t) ≡ ok s
    → (t ≡ s) × (b ≡ false)
non_empty k true t m h = cc
non_empty k false t m h = (ok_injective h, refl)

pub text_as-eq-ok :
    (k : ErrorKind) (v : JsonValue) (context : String) {s : String}
    → text_as k v context ≡ ok s
    → (v ≡ str s) × (str_eq s "" ≡ false)
unfolding text_as
text_as-eq-ok k (str t) context h =
    let (same, full) = non_empty k (str_eq t "") t _ h in
    (ap str same, ap (λ u. str_eq u "") (sym same) ∙ full)
text_as-eq-ok k _ context h = cc

pub bool_as-eq-ok :
    (k : ErrorKind) (v : JsonValue) (m : String) {b : Bool} → bool_as k v m ≡ ok b → v ≡ bool b
unfolding bool_as
bool_as-eq-ok k (bool b) m h = ap bool (ok_injective h)
bool_as-eq-ok k _ m h = cc

pub object_as-eq-ok :
    (k : ErrorKind) (v : JsonValue) (m : String) {fs : JsonObject}
    → object_as k v m ≡ ok fs
    → v ≡ obj fs
unfolding object_as
object_as-eq-ok k (obj fs) m h = ap obj (ok_injective h)
object_as-eq-ok k _ m h = cc

insert_sorted-ne_nil : (s : String) (ts : List String) → is_empty (insert_sorted s ts) ≡ true → ⊥
unfolding insert_sorted
insert_sorted-ne_nil s [] h = cc
insert_sorted-ne_nil s (t ∷ ts) h = ground arith

sorted-is_empty : (ss : List String) → is_empty (sorted ss) ≡ true → is_empty ss ≡ true
unfolding sorted
sorted-is_empty [] h = refl
sorted-is_empty (s ∷ ss) h = absurd (insert_sorted-ne_nil s (sorted ss) h)

dropped :
    (b : Bool) (x y : List String)
    → b ≡ true
    → is_empty (if b then x else y) ≡ true
    → is_empty x ≡ true
dropped b x y p q = ground arith

kept :
    (b : Bool) (s : String) (x y : List String)
    → b ≡ false
    → is_empty (if b then x else s ∷ y) ≡ true
    → ⊥
kept b s x y p q = ground arith

without-is_empty :
    (ss table : List String)
    → is_empty (without ss table) ≡ true
    → all (λ s. in_table s table) ss ≡ true
unfolding without
without-is_empty [] table h = refl
without-is_empty (s ∷ ss) table h = elim (Bool-cases (in_table s table)) [
  | inl e ↦ and_join (in_table s table) _ e (without-is_empty ss table (dropped _ _ _ e h))
  | inr e ↦ absurd (kept _ s _ _ e h)
]

without-all :
    (ss table : List String)
    → all (λ s. in_table s table) ss ≡ true
    → is_empty (sorted (without ss table)) ≡ true
unfolding without sorted
without-all [] table h = refl
without-all (s ∷ ss) table h =
    let (here, others) = and_split (in_table s table) _ h in rw here (without-all ss table others)

-- Nothing is missing exactly if all names stand in the table.
pub without_iff :
    (ss table : List String)
    → (is_empty (sorted (without ss table)) ≡ true) ↔ (all (λ s. in_table s table) ss ≡ true)
without_iff ss table =
    (λ h. without-is_empty ss table (sorted-is_empty (without ss table) h), without-all ss table)

-- No key outside the table.
pub only_fields_as-eq-ok :
    (k : ErrorKind) (words : String) (row : JsonObject) (allowed : List String) (context : String)
    → only_fields_as k words row allowed context ≡ ok tt
    → all (λ name. in_table name allowed) (keys row) ≡ true
unfolding only_fields_as
only_fields_as-eq-ok k words row allowed context h =
    without-is_empty (keys row) allowed
      (sorted-is_empty (without (keys row) allowed) (guard-eq-ok k _ _ h))

pub refuted_by : (k : ErrorKind) (b : Bool) (m : String) → guard k (not b) m ≡ ok tt → b ≡ false
refuted_by k b m h = flip b (guard-eq-ok k (not b) m h)
  where
    flip : (b : Bool) → not b ≡ true → b ≡ false
    flip b p = ground arith

-- `guard` on the tests for one value.
pub is_text-eq-true : (t : String) (v : JsonValue) → is_text t v ≡ true → v ≡ str t
is_text-eq-true t (str s) h = ap str ((eq_iff s t).0 h)
is_text-eq-true t _ h = cc

pub is_text-str : (t : String) (v : JsonValue) → v ≡ str t → is_text t v ≡ true
is_text-str t v h = rw h ((eq_iff t t).1 refl)

pub is_false-eq-true : (v : JsonValue) → is_false v ≡ true → v ≡ bool false
is_false-eq-true (bool false) h = refl
is_false-eq-true (bool true) h = cc
is_false-eq-true _ h = cc

pub is_true-eq-true : (v : JsonValue) → is_true v ≡ true → v ≡ bool true
is_true-eq-true (bool true) h = refl
is_true-eq-true (bool false) h = cc
is_true-eq-true _ h = cc

pub required_text :
    (k : ErrorKind) (t : String) (v : JsonValue) (m : String)
    → guard k (is_text t v) m ≡ ok tt
    → v ≡ str t
required_text k t v m h = is_text-eq-true t v (guard-eq-ok k (is_text t v) m h)

pub required_false :
    (k : ErrorKind) (v : JsonValue) (m : String) → guard k (is_false v) m ≡ ok tt → v ≡ bool false
required_false k v m h = is_false-eq-true v (guard-eq-ok k (is_false v) m h)

pub required_true :
    (k : ErrorKind) (v : JsonValue) (m : String) → guard k (is_true v) m ≡ ok tt → v ≡ bool true
required_true k v m h = is_true-eq-true v (guard-eq-ok k (is_true v) m h)

-- What holds of each round of an accepted loop.
pub for_each-eq-ok {ℓ} :
    {A : Type ℓ} (xs : List A) (f : A → Result (Unit {0}))
    → for_each xs f ≡ ok tt
    → All (λ x. f x ≡ ok tt) xs
unfolding for_each
for_each-eq-ok [] f h = tt
for_each-eq-ok (x ∷ xs) f h =
    let (first, others) = >>-eq-ok (f x) (for_each xs f) h in (first, for_each-eq-ok xs f others)

pub for_each_iff {ℓ} :
    {A : Type ℓ} (xs : List A) (f : A → Result (Unit {0}))
    → (for_each xs f ≡ ok tt) ↔ All (λ x. f x ≡ ok tt) xs
unfolding for_each
for_each_iff [] f = (λ h. tt, λ h. refl)
for_each_iff (x ∷ xs) f =
    (for_each-eq-ok (x ∷ xs) f, λ h. >>-ok (f x) (for_each xs f) h.0 ((for_each_iff xs f).1 h.1))

-- `if condition: ...`, where the condition holds.
pub when-eq-ok :
    (b : Bool) (m : Result (Unit {0})) → (if b then m else ok tt) ≡ ok tt → b ≡ true → m ≡ ok tt
when-eq-ok true m h p = h
when-eq-ok false m h p = cc

pub list_as-eq-ok :
    (k : ErrorKind) (v : JsonValue) (m : String) {vs : Items} → list_as k v m ≡ ok vs → v ≡ arr vs
unfolding list_as
list_as-eq-ok k (arr vs) m h = ap arr (ok_injective h)
list_as-eq-ok k _ m h = cc

pub text_or-eq-ok :
    (k : ErrorKind) (v : JsonValue) (m : String) {s : String} → text_or k v m ≡ ok s → v ≡ str s
unfolding text_or
text_or-eq-ok k (str t) m h = ap str (non_empty k (str_eq t "") t m h).0
text_or-eq-ok k _ m h = cc

pub digest_as-eq-ok :
    (k : ErrorKind) (words : String) (w : World) (path : FilePath) {digest : String}
    → digest_as k words w path ≡ ok digest
    → w.sha256 path ≡ found digest
unfolding digest_as
digest_as-eq-ok k words w path h = ground arith

pub member_of-eq-ok :
    (table : List String) (v : JsonValue) {b : Bool}
    → member_of table v ≡ ok b
    → is_one_of table v ≡ b
member_of-eq-ok table (arr vs) h = cc
member_of-eq-ok table (obj fs) h = cc
member_of-eq-ok table _ h = ok_injective h
