-- ===== src/Benchmark/Privacy.antt =====
-- qa/benchmark_output_privacy.py: private words and claims in benchmark records, and safe paths.
use exasphere.Base.{
  ℕ, suc, ◌-◌, ◌^◌, Bool, true, false, ◌&&◌, ◌||◌, not, List, [], ◌∷◌, ◌++◌, String, str_eq, ◌==◌,
  leb, if◌then◌else◌, any, map, Result, ok, raise, guard, ◌>>=◌, ◌>>◌, ◌<>◌, benchmark_output_error,
  overflow_error,
}
use exasphere.Text.{codes, in_table, contains_any, lower, is_space}
use exasphere.Text.Digits.{show}
use exasphere.Text.Regex.{eps, seq, alt, literal, plus, one_of, is_digit, anything, fullmatch}
use exasphere.Json.{
  ℤ, pos, negsuc, JsonValue, int, nonfinite, str, arr, obj, Items, nil, cons, JsonObject, end,
  field,
}
use exasphere.World.{World, path_of, parts, is_absolute}
use exasphere.Ledger.{ignore_case}
use exasphere.Matrix.Model.{is_word_char}
use exasphere.Checks.{text_or}

abbrev pub fail {ℓ} : {A : Type ℓ} → String → Result A
fail = raise benchmark_output_error

-- `require`
abbrev pub ensure : Bool → String → Result (Unit {0})
ensure = guard benchmark_output_error

abbrev pub forbidden_keys : List String
forbidden_keys =
    "access_token" ∷ "command_line" ∷ "cmdline" ∷ "argv" ∷ "args" ∷ "environment" ∷ "env" ∷ "secret"
    ∷ "token" ∷ "api_key" ∷ "password" ∷ "threshold" ∷ "thresholds" ∷ "pass" ∷ "fail" ∷ "passed"
    ∷ "failed" ∷ "production_claim" ∷ "production_ready" ∷ []

-- FORBIDDEN_TEXT, lowered as the loop lowers each needle.
abbrev pub forbidden_text : List String
forbidden_text =
    "--token" ∷ "api_key=" ∷ "aws_secret" ∷ "begin private key" ∷ "password=" ∷ "bearer " ∷ "/proc/"
    ∷ "/sys/" ∷ []

abbrev pub forbidden_key_tokens : List String
forbidden_key_tokens =
    "argv" ∷ "cmdline" ∷ "env" ∷ "environment" ∷ "password" ∷ "secret" ∷ "threshold" ∷ "thresholds"
    ∷ "token" ∷ []

abbrev pub forbidden_key_sequences : List (List String)
forbidden_key_sequences =
    ("access" ∷ "token" ∷ [])
    ∷ ("api" ∷ "key" ∷ [])
    ∷ ("command" ∷ "line" ∷ [])
    ∷ ("raw" ∷ "debug" ∷ [])
    ∷ ("production" ∷ "ready" ∷ [])
    ∷ ("production" ∷ "capacity" ∷ [])
    ∷ ("production" ∷ "claim" ∷ [])
    ∷ ("release" ∷ "eligible" ∷ [])
    ∷ ("release" ∷ "ready" ∷ [])
    ∷ ("hard" ∷ "threshold" ∷ [])
    ∷ ("threshold" ∷ "pass" ∷ [])
    ∷ ("threshold" ∷ "fail" ∷ [])
    ∷ []

abbrev pub forbidden_compact_key_concepts : List String
forbidden_compact_key_concepts =
    "accesstoken" ∷ "apikey" ∷ "commandline" ∷ "rawdebug" ∷ "productionready" ∷ "productioncapacity"
    ∷ "productionclaim" ∷ "releaseeligible" ∷ "releaseready" ∷ "hardthreshold" ∷ "thresholdpass"
    ∷ "thresholdfail" ∷ []

abbrev pub root_record_control_keys : List String
root_record_control_keys =
    "hard_thresholds_enforced" ∷ "production_capacity_claim" ∷ "release_eligible"
    ∷ "threshold_status" ∷ []

abbrev is_upper : ℕ → Bool
is_upper c = leb b'A' c && leb c b'Z'

abbrev is_lower_or_digit : ℕ → Bool
is_lower_or_digit c = (leb b'a' c && leb c b'z') || is_digit c

abbrev is_part : ℕ → Bool
is_part c = is_upper c || is_lower_or_digit c

-- `CAMEL_BOUNDARY_RE.sub("_", key)`: `after` tells that a small letter or a digit was read.
unfoldable pub split_camel : Bool → List ℕ → List ℕ
split_camel after [] = []
split_camel after (c ∷ s) =
    let rest = split_camel (is_lower_or_digit c) s in
    if after && is_upper c then b'_' ∷ c ∷ rest else c ∷ rest

add_to_first : ℕ → List (List ℕ) → List (List ℕ)
add_to_first c [] = (c ∷ []) ∷ []
add_to_first c (part ∷ parts) = (c ∷ part) ∷ parts

starts_part : List ℕ → Bool
starts_part [] = false
starts_part (c ∷ s) = is_part c

-- `KEY_PART_RE.findall(key)`: the runs of ASCII letters and digits.
unfoldable pub key_parts : List ℕ → List (List ℕ)
unfolding add_to_first starts_part
key_parts [] = []
key_parts (c ∷ s) =
    let rest = key_parts s in
    if is_part c then if starts_part s then add_to_first c rest else (c ∷ []) ∷ rest else rest

unfoldable pub normalized_key_tokens : String → List (List ℕ)
unfolding codes key_parts split_camel lower
normalized_key_tokens key = map lower (key_parts (split_camel false (codes key)))

concat : List (List ℕ) → List ℕ
concat [] = []
concat (part ∷ parts) = part ++ concat parts

unfoldable pub compact_key : String → List ℕ
unfolding codes key_parts lower concat
compact_key key = concat (map lower (key_parts (codes key)))

same_codes : List ℕ → List ℕ → Bool
same_codes [] [] = true
same_codes (c ∷ s) (d ∷ t) = c == d && same_codes s t
same_codes _ _ = false

codes_in : List ℕ → List String → Bool
unfolding codes same_codes
codes_in s [] = false
codes_in s (t ∷ ts) = same_codes s (codes t) || codes_in s ts

starts_sequence : List String → List (List ℕ) → Bool
unfolding codes same_codes
starts_sequence [] tokens = true
starts_sequence (word ∷ words) [] = false
starts_sequence (word ∷ words) (token ∷ tokens) =
    same_codes token (codes word) && starts_sequence words tokens

unfoldable pub contains_sequence : List (List ℕ) → List String → Bool
unfolding starts_sequence
contains_sequence [] sequence = starts_sequence sequence []
contains_sequence (token ∷ tokens) sequence =
    starts_sequence sequence (token ∷ tokens) || contains_sequence tokens sequence

abbrev underscores : List ℕ → List ℕ
underscores [] = []
underscores (c ∷ s) = (if c == b'-' then b'_' else c) ∷ underscores s

-- The four tests behind that of the root record's own keys.
unfoldable pub private_key : String → Bool
unfolding codes lower codes_in normalized_key_tokens compact_key contains_any contains_sequence
private_key key =
    codes_in (underscores (lower (codes key))) forbidden_keys
    || any (λ token. codes_in token forbidden_key_tokens) (normalized_key_tokens key)
    || contains_any forbidden_compact_key_concepts (compact_key key)
    || any (contains_sequence (normalized_key_tokens key)) forbidden_key_sequences

unfoldable pub forbidden_key : String → String → Bool
unfolding private_key
forbidden_key key context =
    if str_eq context "record" && in_table key root_record_control_keys
    then false
    else private_key key

-- `\bfirst[\s_-]+second\b` under `search`, for words of letters.
claim_pattern : World → String → String → List ℕ → Bool
unfolding codes fullmatch is_word_char
claim_pattern w first second s =
    let gap = one_of (λ c. not (is_word_char w c)) in
    fullmatch
      (seq (alt eps (seq anything gap)) (
        seq (literal (codes first)) (
          seq (plus (one_of (λ c. is_space c || c == b'_' || c == b'-')))
            (seq (literal (codes second)) (alt eps (seq gap anything))))))
      s

abbrev claim_pairs : List (String × String)
claim_pairs =
    ("production", "ready")
    ∷ ("production", "capacity")
    ∷ ("release", "eligible")
    ∷ ("threshold", "pass")
    ∷ ("threshold", "fail")
    ∷ []

-- FORBIDDEN_CLAIM_TEXT_PATTERNS
unfoldable pub claims : World → String → Bool
unfolding codes ignore_case claim_pattern
claims w value =
    any (λ (p : String × String). claim_pattern w p.0 p.1 (ignore_case (codes value))) claim_pairs

unfoldable pub private_text : World → String → Bool
unfolding codes lower contains_any claims
private_text w value = contains_any forbidden_text (lower (codes value)) || claims w value

magnitude : ℤ → ℕ
magnitude (pos n) = n
magnitude (negsuc n) = suc n

-- `math.isfinite` turns an `int` into a float: from this magnitude on it overflows.
unfoldable pub overflows : ℤ → Bool
unfolding magnitude
overflows z = leb (2 ^ 1024 - 2 ^ 970) (magnitude z)

unfoldable mutual
  pub reject_private_leaks : World → JsonValue → String → Result (Unit {0})
  reject_private_leaks w (int z) context =
      guard overflow_error (not (overflows z)) "int too large to convert to float"
  reject_private_leaks w (nonfinite n) context = fail ("non-finite numeric value at " <> context)
  reject_private_leaks w (obj fs) context = reject_fields w fs context
  reject_private_leaks w (arr vs) context = reject_items w 0 vs context
  reject_private_leaks w (str value) context =
      ensure (not (private_text w value)) ("forbidden private/claim text at " <> context)
  reject_private_leaks w _ context = ok tt

  pub reject_fields : World → JsonObject → String → Result (Unit {0})
  reject_fields w end context = ok tt
  reject_fields w (field key child fs) context = do
    ensure (not (forbidden_key key context))
        ("forbidden private/claim key at " <> context <> "." <> key)
    reject_private_leaks w child (context <> "." <> key)
    reject_fields w fs context

  pub reject_items : World → ℕ → Items → String → Result (Unit {0})
  reject_items w index nil context = ok tt
  reject_items w index (cons child vs) context = do
    reject_private_leaks w child (context <> "[" <> show index <> "]")
    reject_items w (suc index) vs context

unfoldable pub safe_relative : World → JsonValue → String → Result String
safe_relative w value name = do
  raw ← text_or benchmark_output_error value (name <> " must be non-empty relative path")
  ensure (not (is_absolute (path_of raw))) (name <> " must be relative")
  ensure (not (in_table ".." (parts (path_of raw)))) (name <> " must not traverse")
  reject_private_leaks w (str raw) name
  ok raw
