-- ===== src/Sample/Common.antt =====
-- qa/runtime_sample_common.py: loading, typed fields, and the privacy scan.
pub mod Privacy
pub mod Typed
use exasphere.Base.{
  ℕ, suc, ◌+◌, Bool, true, false, ◌&&◌, ◌||◌, not, Option, none, some, List, [], ◌∷◌, String,
  str_eq, if◌then◌else◌, Result, ok, err, raise, guard, ◌>>=◌, ◌>>◌, ◌<>◌, runtime_sample_error,
  value_error, recursion_error,
}
use exasphere.Text.{codes, casefold, contains_any, in_table, is_blank}
use exasphere.Text.Digits.{show}
use exasphere.Json.{
  ℤ, pos, JsonValue, null, bool, int, str, arr, obj, Items, nil, cons, JsonObject, end, field, get,
  as_int, is_true,
}
use exasphere.World.{
  World, FilePath, path_text, Reading, found, missing, fault, Decoded, decoded, undecodable,
  too_long, too_deep,
}
use exasphere.Base.{os_error, ◌++◌}
use exasphere.Sample.Tokens.{private_key, same_text}

abbrev pub fail {ℓ} : {A : Type ℓ} → String → Result A
fail = raise runtime_sample_error

-- `if not condition: raise RuntimeSampleError(message)`
abbrev pub ensure : Bool → String → Result (Unit {0})
ensure = guard runtime_sample_error

abbrev pub claim_keys : List String
claim_keys =
    "production_claim" ∷ "production_capacity_claim" ∷ "release_eligible"
    ∷ "release_eligible_live_proof" ∷ []

abbrev pub forbidden_text : List String
forbidden_text =
    "--token" ∷ "api_key=" ∷ "aws_secret" ∷ "begin private key" ∷ "password=" ∷ "/proc/" ∷ "/sys/"
    ∷ []

abbrev pub fact_statuses : List String
fact_statuses = "present" ∷ "missing" ∷ "unreadable" ∷ "unknown" ∷ []

-- The needles are written folded, as FORBIDDEN_TEXT_NEEDLES holds them.
unfoldable pub private_text_contains : String → Bool
unfolding contains_any casefold codes
private_text_contains value = contains_any forbidden_text (casefold (codes value))

-- `key.casefold() in CLAIM_KEYS`
abbrev folded_in : List ℕ → List String → Bool
folded_in s [] = false
folded_in s (t ∷ ts) = same_text s (codes t) || folded_in s ts

unfoldable pub claim_key : String → Bool
unfolding casefold codes same_text
claim_key key = folded_in (casefold (codes key)) claim_keys

unfoldable mutual
  pub reject_private_leaks : JsonValue → String → Result (Unit {0})
  reject_private_leaks (obj fs) context = reject_fields fs context
  reject_private_leaks (arr vs) context = reject_items 0 vs context
  reject_private_leaks (str s) context =
      ensure (not (private_text_contains s)) ("privacy-unsafe text in runtime sample: " <> context)
  reject_private_leaks _ context = ok tt

  pub reject_fields : JsonObject → String → Result (Unit {0})
  reject_fields end context = ok tt
  reject_fields (field key child fs) context = do
    ensure (not (private_key key))
        ("privacy-unsafe key in runtime sample: " <> context <> "." <> key)
    ensure (not (claim_key key && is_true child))
        ("claim-unsafe flag in runtime sample: " <> context <> "." <> key)
    reject_private_leaks child (context <> "." <> key)
    reject_fields fs context

  pub reject_items : ℕ → Items → String → Result (Unit {0})
  reject_items index nil context = ok tt
  reject_items index (cons child vs) context = do
    reject_private_leaks child (context <> "[" <> show index <> "]")
    reject_items (index + 1) vs context

-- The body of the loop over the lines; `rows` are those read before.
unfoldable pub load_lines : World → ℕ → List String → List JsonObject → Result (List JsonObject)
load_lines w index [] rows = ok rows
load_lines w index (line ∷ lines) rows =
    let skip = load_lines w (index + 1) lines rows in
    let keep = λ (row : JsonObject). load_lines w (index + 1) lines (rows ++ (row ∷ [])) in
    if is_blank line then skip else elim (w.loads line) [
      | undecodable exc ↦ fail ("invalid JSON on line " <> show index <> ": " <> exc)
      | too_long exc ↦ raise value_error exc
      | too_deep exc ↦ raise recursion_error exc
      | decoded (obj row) ↦ keep row
      | decoded other ↦ fail ("line " <> show index <> " must contain a JSON object")
    ]

not_empty : List JsonObject → Result (List JsonObject)
not_empty [] = fail "runtime sample JSONL is empty"
not_empty (row ∷ rows) = ok (row ∷ rows)

unfoldable pub load_jsonl : World → FilePath → Result (List JsonObject)
unfolding load_lines not_empty
load_jsonl w path = elim (w.read_lines path) [
  | missing ↦ fail ("missing JSONL file: " <> path_text path)
  | fault exc ↦ raise os_error exc
  | found lines ↦ (load_lines w 1 lines [] >>= not_empty)
]

text_or : JsonValue → String → Result String
text_or (str s) message = if str_eq s "" then fail message else ok s
text_or _ message = fail message

unfoldable pub require_string : JsonObject → String → String → Result String
unfolding text_or
require_string data_ name context =
    text_or (get data_ name) (context <> " missing non-empty string field: " <> name)

bool_or : JsonValue → String → Result Bool
bool_or (bool b) message = ok b
bool_or _ message = fail message

unfoldable pub require_bool : JsonObject → String → String → Result Bool
unfolding bool_or
require_bool data_ name context =
    bool_or (get data_ name) (context <> " missing bool field: " <> name)

int_or : Option ℤ → String → Result ℤ
int_or (some z) message = ok z
int_or none message = fail message

unfoldable pub require_int : JsonObject → String → String → Result ℤ
unfolding int_or
require_int data_ name context =
    int_or (as_int (get data_ name)) (context <> " missing int field: " <> name)

object_or : JsonValue → String → Result JsonObject
object_or (obj fs) message = ok fs
object_or _ message = fail message

unfoldable pub require_object : JsonObject → String → String → Result JsonObject
unfolding object_or
require_object data_ name context =
    object_or (get data_ name) (context <> " missing object field: " <> name)

optional_or : JsonValue → String → Result (Option JsonObject)
optional_or null message = ok none
optional_or (obj fs) message = ok (some fs)
optional_or _ message = fail message

unfoldable pub optional_object : JsonObject → String → String → Result (Option JsonObject)
unfolding optional_or
optional_object data_ name context =
    optional_or (get data_ name) (context <> " field must be an object when present: " <> name)

-- `isinstance(value, str)`, and not empty where the status is "present".
unfoldable pub fact_value : JsonValue → String → String → Result String
fact_value (str s) status message =
    if str_eq status "present" && str_eq s "" then fail message else ok s
fact_value _ status message = fail message

-- A validated fact: its status, and its value, which is a text.
pub record Fact : Type 0 where
  pub status : String
  pub value : String

unfoldable pub validate_fact : JsonObject → String → String → Result Fact
unfolding fact_value
validate_fact data_ name context = do
  fact ← require_object data_ name context
  status ← require_string fact "status" (context <> "." <> name)
  ensure (in_table status fact_statuses)
      (context <> "." <> name <> " has unsupported status: " <> status)
  value ← fact_value (get fact "value") status (context <> "." <> name <> " has invalid value")
  reject_private_leaks (str value) (context <> "." <> name <> ".value")
  ok (record { status = status; value = value })
