-- ===== src/Runner/Review.antt =====
-- qa/protected_environment_review_check.py: the normalised review of a protected environment.
use exasphere.Base.{
  ℕ, ◌+◌, Bool, true, false, ◌&&◌, ◌||◌, not, Option, none, some, List, [], ◌∷◌, String, str_eq,
  leb, ltb, ◌==◌, Result, ok, raise, guard, drop_value, ◌>>=◌, ◌>>◌, ◌<>◌, length, all,
  protected_review_error, value_error, recursion_error, os_error,
}
use exasphere.Text.{codes, contains_any, in_table, is_hex, is_space}
use exasphere.Text.Digits.{show}
use exasphere.Text.Regex.{Re, seq, alt, literal, plus, times, one_of, is_digit, anything, fullmatch}
use exasphere.Json.{
  pos, JsonValue, int, str, arr, obj, Items, nil, cons, JsonObject, end, field, get, is_false,
  is_text,
}
use exasphere.World.{
  World, FilePath, path_text, split_slash, missing, fault, found, Decoded, decoded, undecodable,
  too_long, too_deep, Strict, constant, parsed,
}
use exasphere.Ledger.{ignore_case}
use exasphere.Checks.{only_fields_as, text_as, list_as}

abbrev pub require : Bool → String → Result (Unit {0})
require = guard protected_review_error

abbrev pub text : JsonValue → String → Result String
text = text_as protected_review_error

abbrev pub only_fields : JsonObject → List String → String → Result (Unit {0})
only_fields = only_fields_as protected_review_error " has unexpected fields: "

abbrev pub schema_id : String
schema_id = "zig-scheduler/protected-environment-review/v1"

abbrev pub required_comment : String
required_comment = "manual protected VM proof only; not release approval"

abbrev pub environment_name : String
environment_name = "vm-proof-manual"

abbrev pub root_fields : List String
root_fields =
    "schema" ∷ "run_id" ∷ "run_url" ∷ "head_sha" ∷ "environment_name" ∷ "environment_id"
    ∷ "reviewer_status" ∷ "reviewer_identity" ∷ "reviewer_id" ∷ "comment" ∷ "review_history_api_url"
    ∷ "collected_at" ∷ "host_mutation" ∷ "release_eligible" ∷ "production_capacity_claim" ∷ []

abbrev pub schema_fields : List String
schema_fields = "$id" ∷ "$schema" ∷ "type" ∷ "additionalProperties" ∷ "required" ∷ "properties" ∷ []

decoded_object : FilePath → Decoded → Result JsonObject
decoded_object path (decoded (obj data_)) = ok data_
decoded_object path (decoded other) =
    raise protected_review_error (path_text path <> " must contain a JSON object")
decoded_object path (undecodable exc) =
    raise protected_review_error ("invalid JSON in " <> path_text path <> " at byte " <> exc)
decoded_object path (too_long exc) = raise value_error exc
decoded_object path (too_deep exc) = raise recursion_error exc

strict_object : FilePath → Strict → Result JsonObject
unfolding decoded_object
strict_object path (constant value) =
    raise protected_review_error ("invalid JSON constant: " <> value)
strict_object path (parsed raw) = decoded_object path raw

unfoldable pub load_json_object : World → FilePath → Result JsonObject
unfolding decoded_object strict_object
load_json_object w path = elim (w.read_text path) [
  | missing ↦ raise protected_review_error ("missing JSON file: " <> path_text path)
  | fault exc ↦ raise os_error exc
  | found content ↦ strict_object path (w.loads_strict content)
]

-- `not isinstance(value, int) or isinstance(value, bool) or value < 1`
unfoldable pub int_field : JsonValue → String → Result (Unit {0})
int_field (int (pos n)) context = require (ltb 0 n) (context <> " must be a positive integer")
int_field _ context = raise protected_review_error (context <> " must be a positive integer")

-- PRIVACY_KEY_RE under `search`; the spellings of `[_-]?` are written out.
unfoldable pub privacy_key : String → Bool
unfolding ignore_case contains_any codes
privacy_key key =
    contains_any
      ("authorization" ∷ "bearer" ∷ "token" ∷ "secret" ∷ "password" ∷ "apikey" ∷ "api_key"
        ∷ "api-key" ∷ "cookie" ∷ "session" ∷ "privatekey" ∷ "private_key" ∷ "private-key"
        ∷ "cmdline" ∷ "argv" ∷ [])
      (ignore_case (codes key))

abbrev is_lower_or_digit : ℕ → Bool
is_lower_or_digit c = (leb b'a' c && leb c b'z') || is_digit c

-- `[A-Za-z0-9._~+/=-]`, and `[A-Za-z0-9_]`, after the case is ignored.
abbrev is_bearer : ℕ → Bool
is_bearer c =
    is_lower_or_digit c
    || c == b'.'
    || c == b'_'
    || c == b'~'
    || c == b'+'
    || c == b'/'
    || c == b'='
    || c == b'-'

abbrev is_name : ℕ → Bool
is_name c = is_lower_or_digit c || c == b'_'

-- PRIVATE_VALUE_RE
private_value_pattern : Re
unfolding codes
private_value_pattern = alt (literal (codes "authorization:")) (
    alt (seq (literal (codes "bearer")) (seq (plus (one_of is_space)) (plus (one_of is_bearer)))) (
      alt (seq (literal (codes "ghp_")) (plus (one_of is_name)))
        (seq (literal (codes "github_pat_")) (plus (one_of is_name)))))

unfoldable pub private_value : String → Bool
unfolding ignore_case codes fullmatch private_value_pattern
private_value raw =
    fullmatch (seq anything (seq private_value_pattern anything)) (ignore_case (codes raw))

unfoldable mutual
  pub scan_privacy : JsonValue → String → Result (Unit {0})
  scan_privacy (str raw) context =
      require (not (private_value raw)) (context <> " contains privacy-unsafe value")
  scan_privacy (arr rows) context = scan_items 0 rows context
  scan_privacy (obj row) context = scan_fields row context
  scan_privacy _ context = ok tt

  pub scan_items : ℕ → Items → String → Result (Unit {0})
  scan_items index nil context = ok tt
  scan_items index (cons item rows) context = do
    scan_privacy item (context <> "[" <> show index <> "]")
    scan_items (index + 1) rows context

  pub scan_fields : JsonObject → String → Result (Unit {0})
  scan_fields end context = ok tt
  scan_fields (field key item row) context = do
    require (not (privacy_key key)) (context <> "." <> key <> " is a privacy-unsafe key")
    scan_privacy item (context <> "." <> key)
    scan_fields row context

-- `text(item, "schema.required[]")` for every item.
required_names : Items → Result (List String)
required_names nil = ok []
required_names (cons item rest) = do
  name ← text item "schema.required[]"
  names ← required_names rest
  ok (name ∷ names)

unfoldable pub validate_schema_file : World → FilePath → Result (Unit {0})
unfolding required_names
validate_schema_file w path = do
  schema ← load_json_object w path
  only_fields schema schema_fields "schema"
  require (is_text schema_id (get schema "$id")) "protected review schema $id mismatch"
  required ← list_as protected_review_error (get schema "required") "schema.required must be a list"
  names ← required_names required
  require
      (all (λ name. in_table name root_fields) names
        && all (λ name. in_table name names) root_fields)
      "schema.required must match protected review root fields"
  require (is_false (get schema "additionalProperties")) "schema must reject additional properties"

-- `[0-9]+` under `fullmatch`
abbrev pub is_run_id : String → Bool
is_run_id s = not (str_eq s "") && all is_digit (codes s)

-- The groups of a URL: owner, repository and run.
pub record UrlGroups : Type 0 where
  pub owner : String
  pub repository : String
  pub run : String

abbrev groups_if : Bool → String → String → String → Option UrlGroups
groups_if true o r n = some (record { owner = o; repository = r; run = n })
groups_if false o r n = none

run_url_pieces : List String → Option UrlGroups
run_url_pieces (scheme ∷ blank ∷ host ∷ o ∷ r ∷ actions ∷ runs ∷ n ∷ []) =
    groups_if
      (str_eq scheme "https:"
        && str_eq blank ""
        && str_eq host "github.com"
        && not (str_eq o "")
        && not (str_eq r "")
        && str_eq actions "actions"
        && str_eq runs "runs"
        && is_run_id n)
      o r n
run_url_pieces _ = none

-- RUN_URL_RE: the groups hold no slash, so the slashes cut the text into its parts.
unfoldable pub run_url_groups : String → Option UrlGroups
unfolding run_url_pieces split_slash codes
run_url_groups url = run_url_pieces (split_slash url)

api_url_pieces : List String → Option UrlGroups
api_url_pieces (scheme ∷ blank ∷ host ∷ repos ∷ o ∷ r ∷ actions ∷ runs ∷ n ∷ approvals ∷ []) =
    groups_if
      (str_eq scheme "https:"
        && str_eq blank ""
        && str_eq host "api.github.com"
        && str_eq repos "repos"
        && not (str_eq o "")
        && not (str_eq r "")
        && str_eq actions "actions"
        && str_eq runs "runs"
        && is_run_id n
        && str_eq approvals "approvals")
      o r n
api_url_pieces _ = none

-- API_URL_RE
unfoldable pub api_url_groups : String → Option UrlGroups
unfolding api_url_pieces split_slash codes
api_url_groups url = api_url_pieces (split_slash url)

-- HEAD_SHA_RE, `^[0-9a-f]{40}$`
unfoldable pub head_sha_re : String → Bool
unfolding codes
head_sha_re s = length (codes s) == 40 && all is_hex (codes s)

-- RFC3339_UTC_RE, `^[0-9]{4}-[0-9]{2}-[0-9]{2}T[0-9]{2}:[0-9]{2}:[0-9]{2}Z$`
unfoldable pub rfc3339_utc_re : String → Bool
unfolding fullmatch codes
rfc3339_utc_re s =
    let two = times 2 (one_of is_digit) in
    fullmatch
      (seq (times 4 (one_of is_digit)) (
        seq (literal (codes "-")) (
          seq two (
            seq (literal (codes "-")) (
              seq two (
                seq (literal (codes "T")) (
                  seq two (
                    seq (literal (codes ":"))
                      (seq two (seq (literal (codes ":")) (seq two (literal (codes "Z")))))))))))))
      (codes s)

groups_or : Option UrlGroups → String → Result UrlGroups
groups_or none message = raise protected_review_error message
groups_or (some g) message = ok g

unfoldable pub validate_proof : World → FilePath → FilePath → Result (Unit {0})
unfolding groups_or
validate_proof w path schema_path = do
  validate_schema_file w schema_path
  data_ ← load_json_object w path
  scan_privacy (obj data_) (path_text path)
  only_fields data_ root_fields (path_text path)
  require (is_text schema_id (get data_ "schema")) "unsupported protected review schema"
  run_id ← text (get data_ "run_id") "run_id"
  require (is_run_id run_id) "run_id must be decimal GitHub Actions run id text"
  run_url ← text (get data_ "run_url") "run_url"
  run_match ← groups_or (run_url_groups run_url) "run_url must be a GitHub Actions run URL"
  require (str_eq run_match.run run_id) "run_url run id must match run_id"
  head_sha ← text (get data_ "head_sha") "head_sha"
  require (head_sha_re head_sha) "head_sha must be 40 lowercase hex characters"
  require (is_text environment_name (get data_ "environment_name"))
      "environment_name must be vm-proof-manual"
  int_field (get data_ "environment_id") "environment_id"
  require (is_text "approved" (get data_ "reviewer_status")) "reviewer_status must be approved"
  drop_value (text (get data_ "reviewer_identity") "reviewer_identity")
  int_field (get data_ "reviewer_id") "reviewer_id"
  require (is_text required_comment (get data_ "comment"))
      "comment must exactly match protected VM proof acknowledgement"
  api_url ← text (get data_ "review_history_api_url") "review_history_api_url"
  api_match ←
      groups_or (api_url_groups api_url) "review_history_api_url must be GitHub approvals API URL"
  require
      (str_eq api_match.owner run_match.owner && str_eq api_match.repository run_match.repository)
      "review_history_api_url repository must match run_url"
  require (str_eq api_match.run run_id) "review_history_api_url run id must match run_id"
  collected_at ← text (get data_ "collected_at") "collected_at"
  require (rfc3339_utc_re collected_at) "collected_at must be UTC RFC3339 seconds"
  require (is_false (get data_ "host_mutation")) "host_mutation must be false"
  require (is_false (get data_ "release_eligible")) "release_eligible must be false"
  require (is_false (get data_ "production_capacity_claim"))
      "production_capacity_claim must be false"
