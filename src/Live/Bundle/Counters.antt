-- ===== src/Live/Bundle/Counters.antt =====
-- qa/live_behavior_check.py: the counters of the samples, and the digest of the cgroup membership.
use exasphere.Base.{
  ℕ, suc, ◌-◌, Bool, true, false, ◌&&◌, ◌||◌, not, Option, none, some, List, [], ◌∷◌, String,
  str_eq, ◌==◌, ltb, if◌then◌else◌, length, all, Result, ok, raise, guard, ◌>>=◌, ◌>>◌, ◌<>◌,
  for_each, drop_value, live_behavior_error,
}
use exasphere.Text.{codes, in_table, is_hex, is_space, lower}
use exasphere.Text.Digits.{show, is_digits, int_of_digits}
use exasphere.Text.Regex.{is_digit}
use exasphere.Json.{JsonValue, str, obj, JsonObject, get, is_text}

abbrev pub fail {ℓ} : {A : Type ℓ} → String → Result A
fail = raise live_behavior_error

abbrev pub ensure : Bool → String → Result (Unit {0})
ensure = guard live_behavior_error

abbrev without_line_feed : List ℕ → List ℕ
without_line_feed [] = []
without_line_feed (c ∷ []) = if c == 10 then [] else c ∷ []
without_line_feed (c ∷ s) = c ∷ without_line_feed s

-- `SHA256_RE.match(s)`: `$` also stands before a last line feed.
unfoldable pub sha256_match : String → Bool
unfolding codes
sha256_match s =
    let digits = without_line_feed (codes s) in length digits == 64 && all is_hex digits

-- A digest that is no sha256 text, or all zeros. The table of unavailable words holds no text that
-- passes the first test.
unfoldable pub observed_digest : JsonValue → Bool
unfolding codes
observed_digest (str s) =
    sha256_match s && not (length (codes s) == 64 && all (λ c. c == b'0') (codes s))
observed_digest _ = false

abbrev pub unavailable_values : List String
unavailable_values = "" ∷ "missing" ∷ "none" ∷ "null" ∷ "unavailable" ∷ "unknown" ∷ []

same_codes : List ℕ → List ℕ → Bool
same_codes [] [] = true
same_codes (c ∷ s) (d ∷ t) = c == d && same_codes s t
same_codes _ _ = false

lowered_in : List ℕ → List String → Bool
unfolding codes same_codes
lowered_in s [] = false
lowered_in s (t ∷ ts) = same_codes s (codes t) || lowered_in s ts

-- `value.lower() in UNAVAILABLE_VALUES`
unfoldable pub is_unavailable : String → Bool
unfolding lowered_in lower codes
is_unavailable s = lowered_in (lower (codes s)) unavailable_values

known_value : JsonValue → Bool
known_value (str s) = not (is_unavailable s)
known_value _ = false

known_events : JsonValue → Bool
unfolding known_value
known_events (obj events) =
    is_text "present" (get events "status") && known_value (get events "value")
known_events _ = false

unfoldable pub sample_events_known : JsonObject → Bool
unfolding known_events
sample_events_known row = known_events (get row "events")

-- A counter that is present: digits, and the events are known.
present_counter : String → Bool → String → Result (Option ℕ)
unfolding codes
present_counter value events_known context = do
  ensure (is_digits (codes value)) (context <> " present value must be numeric")
  ensure events_known (context <> " claims numeric value while events are unavailable")
  n ← int_of_digits (codes value)
  ok (some n)

counter_fact : JsonValue → JsonValue → Bool → String → Result (Option ℕ)
unfolding present_counter
counter_fact (str status) (str value) events_known context =
    if str_eq status "present" then present_counter value events_known context else do
      ensure (in_table status ("unknown" ∷ "missing" ∷ "unreadable" ∷ []))
          (context <> " has unsupported status: " <> status)
      ensure (is_unavailable value) (context <> " unavailable value is not explicit")
      ok none
counter_fact _ _ events_known context = fail (context <> " must have explicit status/value")

counter_object : JsonValue → Bool → ℕ → String → Result (Option ℕ)
unfolding counter_fact
counter_object (obj counter) events_known index name =
    counter_fact (get counter "status") (get counter "value") events_known
      ("sample " <> show index <> " counter " <> name)
counter_object _ events_known index name =
    fail ("sample " <> show index <> " must expose counter fact: " <> name)

unfoldable pub validate_required_counter_fact : ℕ → JsonObject → String → Result (Option ℕ)
unfolding counter_object
validate_required_counter_fact index row name =
    counter_object (get row name) (sample_events_known row) index name

unfoldable pub after_prefix : List ℕ → List ℕ → Option (List ℕ)
after_prefix [] s = some s
after_prefix (p ∷ prefix) [] = none
after_prefix (p ∷ prefix) (c ∷ s) = if p == c then after_prefix prefix s else none

unfoldable pub drop_spaces : List ℕ → List ℕ
drop_spaces [] = []
drop_spaces (c ∷ s) = let rest = drop_spaces s in if is_space c then rest else c ∷ s

unfoldable pub digits_of : List ℕ → List ℕ
digits_of [] = []
digits_of (c ∷ s) = let rest = digits_of s in if is_digit c then c ∷ rest else []

-- `[:=]\s*([0-9]+)`: the digits, and what is left after them.
separated_digits : List ℕ → List ℕ
unfolding drop_spaces digits_of
separated_digits [] = []
separated_digits (c ∷ s) = if c == b':' || c == b'=' then digits_of (drop_spaces s) else []

abbrev counter_words : List String
counter_words = "nr_rejected" ∷ "dispatch_failed" ∷ "fallbacks" ∷ "fallback" ∷ "fatal" ∷ []

-- COUNTER_RE at the beginning of a text: the first of the words that matches, and its digits.
abbrev pub Found : Type 0
Found = Option (String × List ℕ)

digits_after : Option (List ℕ) → List ℕ
unfolding separated_digits
digits_after none = []
digits_after (some s) = separated_digits s

named : String → List ℕ → Found → Found
named word [] other = other
named word (d ∷ digits) other = some (word, d ∷ digits)

counter_in : List String → List ℕ → Found
unfolding codes after_prefix digits_after named
counter_in [] s = none
counter_in (word ∷ words) s =
    named word (digits_after (after_prefix (codes word) s)) (counter_in words s)

unfoldable pub counter_at : List ℕ → Found
unfolding counter_in
counter_at s = counter_in counter_words s

-- `COUNTER_RE.finditer(raw)`. A match holds none of the words but its own at its beginning, so that the
-- search may go on at the next character.
unfoldable pub find_counters : List ℕ → List (String × List ℕ)
find_counters [] = []
find_counters (c ∷ s) =
    let rest = find_counters s in
    elim (counter_at (c ∷ s)) [ none ↦ rest | some pair ↦ pair ∷ rest ]

-- The dictionary's items in order; a later item of a name stands for the earlier ones.
unfoldable pub counter_values : List (String × List ℕ) → Result (List (String × ℕ))
counter_values [] = ok []
counter_values ((name, digits) ∷ found) = do
  n ← int_of_digits digits
  rest ← counter_values found
  ok ((name, n) ∷ rest)

events_value : JsonValue → JsonValue
events_value (obj events) = get events "value"
events_value _ = JsonValue.null

text_counters : JsonValue → Result (List (String × ℕ))
unfolding codes find_counters counter_values
text_counters (str raw) = counter_values (find_counters (codes raw))
text_counters _ = ok []

unfoldable pub parse_counters : JsonObject → Result (List (String × ℕ))
unfolding events_value text_counters
parse_counters row = text_counters (events_value (get row "events"))

or_else : Option ℕ → Option ℕ → Option ℕ
or_else (some n) other = some n
or_else none other = other

-- `counters.get(name)`: the last item of the name.
unfoldable pub counter_of : String → List (String × ℕ) → Option ℕ
unfolding or_else
counter_of name [] = none
counter_of name ((key, n) ∷ items) =
    or_else (counter_of name items) (if str_eq key name then some n else none)

-- Both counters are there, and the later one is greater.
abbrev pub grew : Option ℕ → Option ℕ → Bool
grew (some m) (some n) = ltb m n
grew _ _ = false

abbrev pub counter_names : List String
counter_names = "nr_rejected" ∷ "dispatch_failed" ∷ "fallback" ∷ "fatal" ∷ []

unfoldable pub counter_facts : ℕ → List JsonObject → Result (Unit {0})
counter_facts index [] = ok tt
counter_facts index (row ∷ rows) = do
  drop_value (validate_required_counter_fact index row "nr_rejected")
  counter_facts (suc index) rows

unfoldable pub validate_counter_growth :
    JsonObject → JsonObject → List JsonObject → Result (Unit {0})
validate_counter_growth first_row final_row rows = do
  counter_facts 0 rows
  first_fact ← validate_required_counter_fact 0 first_row "nr_rejected"
  last_fact ← validate_required_counter_fact (length rows - 1) final_row "nr_rejected"
  ensure (not (grew first_fact last_fact)) "fatal/reject/fallback counter grew: nr_rejected"
  first ← parse_counters first_row
  last ← parse_counters final_row
  for_each counter_names (λ name.
      ensure (not (grew (counter_of name first) (counter_of name last)))
        ("fatal/reject/fallback counter grew: " <> name))
