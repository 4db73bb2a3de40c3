-- ===== src/Checks.antt =====
-- The reads and requirements that the proof and matrix checkers share, each with its own exception
-- class: `require`, `text`, `obj`, `only_fields`, the loaders of JSON objects.
pub mod Laws
pub mod Distinct
pub mod Raising
use Prim.Native.String.{compare}
use text.Mathlib.Text.{is_lt}
use exasphere.Base.{
  type_error, ℕ, ◌+◌, Bool, true, false, ◌&&◌, ◌||◌, not, Option, none, some, List, [], ◌∷◌, String,
  str_eq, if◌then◌else◌, ErrorKind, Result, ok, err, raise, guard, ◌>>=◌, ◌>>◌, ◌<>◌, os_error, all,
  value_error, recursion_error,
}
use exasphere.Text.{in_table, is_blank}
use exasphere.Text.Digits.{show}
use exasphere.Json.{
  is_text, ℤ, as_int, JsonValue, null, bool, int, str, arr, obj, Items, nil, cons, JsonObject, end,
  field, keys, has_key,
}
use exasphere.World.{
  World, FilePath, path_text, Reading, found, missing, fault, Decoded, decoded, undecodable,
  too_long, too_deep,
}

-- `sorted(names)`, by code points.
insert_sorted : String → List String → List String
insert_sorted s [] = s ∷ []
insert_sorted s (t ∷ ts) = if is_lt (compare t s) then t ∷ insert_sorted s ts else s ∷ t ∷ ts

unfoldable pub sorted : List String → List String
unfolding insert_sorted
sorted [] = []
sorted (s ∷ ss) = insert_sorted s (sorted ss)

-- `", ".join(names)`
unfoldable pub comma_join : List String → String
comma_join [] = ""
comma_join (s ∷ []) = s
comma_join (s ∷ ss) = s <> ", " <> comma_join ss

-- The names that the table lacks: `set(names) - table`.
unfoldable pub without : List String → List String → List String
without [] table = []
without (s ∷ ss) table = let rest = without ss table in if in_table s table then rest else s ∷ rest

abbrev pub is_empty {ℓ} : {A : Type ℓ} → List A → Bool
is_empty [] = true
is_empty (x ∷ xs) = false

-- `extra = sorted(set(row) - allowed); require(not extra, ...)`; the words differ by checker.
unfoldable pub only_fields_as :
    ErrorKind → String → JsonObject → List String → String → Result (Unit {0})
only_fields_as k words row allowed context =
    let extra = sorted (without (keys row) allowed) in
    guard k (is_empty extra) (context <> words <> comma_join extra)

-- `not isinstance(value, str) or value == ""`
unfoldable pub text_as : ErrorKind → JsonValue → String → Result String
text_as k (str s) context =
    if str_eq s "" then raise k (context <> " must be non-empty text") else ok s
text_as k _ context = raise k (context <> " must be non-empty text")

unfoldable pub bool_as : ErrorKind → JsonValue → String → Result Bool
bool_as k (bool b) message = ok b
bool_as k _ message = raise k message

unfoldable pub object_as : ErrorKind → JsonValue → String → Result JsonObject
object_as k (obj fs) message = ok fs
object_as k _ message = raise k message

unfoldable pub list_as : ErrorKind → JsonValue → String → Result Items
list_as k (arr vs) message = ok vs
list_as k _ message = raise k message

-- `text(item, f"{context}[{index}]")` for every item.
unfoldable pub texts_as : ErrorKind → ℕ → Items → String → Result (List String)
texts_as k index nil context = ok []
texts_as k index (cons v vs) context = do
  s ← text_as k v (context <> "[" <> show index <> "]")
  ss ← texts_as k (index + 1) vs context
  ok (s ∷ ss)

-- `set(names).issubset(row)`
abbrev pub has_keys : JsonObject → List String → Bool
has_keys row names = all (has_key row) names

object_of : ErrorKind → FilePath → Decoded → Result JsonObject
object_of k path (decoded (obj data_)) = ok data_
object_of k path (decoded other) = raise k (path_text path <> " must contain a JSON object")
object_of k path (undecodable exc) = raise k ("invalid JSON in " <> path_text path <> ": " <> exc)
object_of k path (too_long exc) = raise value_error exc
object_of k path (too_deep exc) = raise recursion_error exc

-- `json.loads(path.read_text())` with its two exceptions converted, and the test for a dictionary.
unfoldable pub load_object_as : ErrorKind → World → FilePath → Result JsonObject
unfolding object_of
load_object_as k w path = elim (w.read_text path) [
  | missing ↦ raise k ("missing JSON file: " <> path_text path)
  | fault exc ↦ raise os_error exc
  | found content ↦ object_of k path (w.loads content)
]

-- `hashlib.sha256(path.read_bytes()).hexdigest()`, the missing file converted with its own words.
unfoldable pub digest_as : ErrorKind → String → World → FilePath → Result String
digest_as k words w path = elim (w.sha256 path) [
  | missing ↦ raise k (words <> path_text path)
  | fault exc ↦ raise os_error exc
  | found digest ↦ ok digest
]

-- The reads with a message of their own: a text that is not empty, and an `int`.
unfoldable pub text_or : ErrorKind → JsonValue → String → Result String
text_or k (str s) message = if str_eq s "" then raise k message else ok s
text_or k _ message = raise k message

unfoldable pub int_found : ErrorKind → Option ℤ → String → Result ℤ
int_found k none message = raise k message
int_found k (some z) message = ok z

unfoldable pub int_or : ErrorKind → JsonValue → String → Result ℤ
unfolding int_found
int_or k value message = int_found k (as_int value) message

-- The objects of a JSONL file, by the lines that are not blank; `take` is what the loop does with a
-- line's number and the line.
unfoldable pub read_rows {ℓ} :
    {A : Type ℓ} → (ℕ → String → Result A) → ℕ → List String → Result (List A)
read_rows take index [] = ok []
read_rows take index (line ∷ lines) =
    let rest = read_rows take (index + 1) lines in
    if is_blank line then rest else do row ← take index line; rows ← rest; ok (row ∷ rows)

-- `value in {...}` for texts: a list and a dictionary have no hash, and raise.
abbrev pub hashable : JsonValue → Result JsonValue
hashable (arr vs) = raise type_error "unhashable type: 'list'"
hashable (obj fs) = raise type_error "unhashable type: 'dict'"
hashable value = ok value

abbrev pub is_one_of : List String → JsonValue → Bool
is_one_of [] value = false
is_one_of (t ∷ ts) value = is_text t value || is_one_of ts value

abbrev pub member_of : List String → JsonValue → Result Bool
member_of table value = hashable value >>= λ hashed. ok (is_one_of table hashed)
