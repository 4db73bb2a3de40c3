-- ===== src/Sample/Tokens.antt =====
-- qa/runtime_sample_common.py, the words of a key: `private_key_tokens` and `_contains_pattern`.
pub mod Laws
use exasphere.Base.{
  ℕ, zero, suc, ◌+◌, ◌-◌, Bool, true, false, ◌&&◌, ◌||◌, not, Option, none, some, List, [], ◌∷◌,
  ◌++◌, String, leb, ltb, ◌==◌, if◌then◌else◌, length, take, drop, map,
}
use exasphere.Text.{codes, casefold}

abbrev pub is_upper : ℕ → Bool
is_upper c = leb b'A' c && leb c b'Z'

abbrev pub is_lower : ℕ → Bool
is_lower c = leb b'a' c && leb c b'z'

abbrev pub is_digit : ℕ → Bool
is_digit c = leb b'0' c && leb c b'9'

abbrev pub is_alnum : ℕ → Bool
is_alnum c = is_digit c || is_upper c || is_lower c

-- The longest run at the front whose characters pass the test, and the rest.
unfoldable pub span : (ℕ → Bool) → List ℕ → List ℕ × List ℕ
span p [] = ([], [])
span p (c ∷ s) = let (run, rest) = span p s in if p c then (c ∷ run, rest) else ([], c ∷ s)

-- `[A-Z]+(?=[A-Z][a-z]|\d|$)`: the whole run of capitals before a digit or the end; before a small
-- letter the run without its last capital, if that is not all of it.
last_capital : List ℕ → List ℕ → List ℕ × List ℕ
last_capital [] rest = ([], rest)
last_capital (c ∷ []) rest = ([], c ∷ rest)
last_capital (c ∷ cs) rest = let (run, rest') = last_capital cs rest in (c ∷ run, rest')

capitals : List ℕ → List ℕ → List ℕ × List ℕ
unfolding last_capital
capitals run [] = (run, [])
capitals run (c ∷ rest) = if is_digit c then (run, c ∷ rest) else last_capital run (c ∷ rest)

-- `[A-Z]?[a-z]+`, after its first character.
word_after : ℕ → List ℕ → List ℕ × List ℕ
unfolding span
word_after c s = let (run, rest) = span is_lower s in (c ∷ run, rest)

or_word : ℕ → List ℕ → List ℕ × List ℕ → List ℕ × List ℕ
unfolding word_after
or_word c s ([], rest) = word_after c s
or_word c s (d ∷ run, rest) = (d ∷ run, rest)

-- The match of PRIVATE_KEY_TOKEN_RE at the first character of a chunk.
unfoldable pub next_token : ℕ → List ℕ → List ℕ × List ℕ
unfolding span capitals or_word word_after
next_token c s =
    let (upper_run, after_upper) = span is_upper (c ∷ s) in
    let (digit_run, after_digits) = span is_digit (c ∷ s) in
    if is_upper c
    then or_word c s (capitals upper_run after_upper)
    else if is_lower c
    then word_after c s
    else (digit_run, after_digits)

-- `PRIVATE_KEY_TOKEN_RE.finditer(chunk)`; the chunk's length is fuel enough.
unfoldable pub tokens_fuel : ℕ → List ℕ → List (List ℕ)
unfolding next_token
tokens_fuel f [] = []
tokens_fuel zero (c ∷ s) = []
tokens_fuel (suc f) (c ∷ s) = let (token, rest) = next_token c s in token ∷ tokens_fuel f rest

-- `re.split(r"[^0-9A-Za-z]+", key)`, the empty chunks left out.
add_char : ℕ → Bool → List (List ℕ) → List (List ℕ)
add_char c true (w ∷ ws) = (c ∷ w) ∷ ws
add_char c _ ws = (c ∷ []) ∷ ws

next_is_alnum : List ℕ → Bool
next_is_alnum [] = false
next_is_alnum (c ∷ s) = is_alnum c

unfoldable pub chunks : List ℕ → List (List ℕ)
unfolding add_char next_is_alnum
chunks [] = []
chunks (c ∷ s) =
    let rest = chunks s in if is_alnum c then add_char c (next_is_alnum s) rest else rest

chunk_tokens : List (List ℕ) → List (List ℕ)
unfolding tokens_fuel casefold
chunk_tokens [] = []
chunk_tokens (w ∷ ws) = map casefold (tokens_fuel (length w) w) ++ chunk_tokens ws

unfoldable pub private_key_tokens : List ℕ → List (List ℕ)
unfolding chunk_tokens chunks
private_key_tokens key = chunk_tokens (chunks key)

-- `==` on texts and on tuples of texts.
unfoldable pub same_text : List ℕ → List ℕ → Bool
same_text [] [] = true
same_text (a ∷ s) (b ∷ t) = a == b && same_text s t
same_text _ _ = false

unfoldable pub same_texts : List (List ℕ) → List (List ℕ) → Bool
unfolding same_text
same_texts [] [] = true
same_texts (a ∷ s) (b ∷ t) = same_text a b && same_texts s t
same_texts _ _ = false

-- `for index in range(limit): if tokens[index : index + len(pattern)] == pattern: return True`
unfoldable pub window_match : ℕ → List (List ℕ) → List (List ℕ) → Bool
unfolding same_texts
window_match zero tokens pattern_ = false
window_match (suc limit) tokens pattern_ =
    same_texts (take (length pattern_) tokens) pattern_
    || window_match limit (drop 1 tokens) pattern_

unfoldable pub contains_pattern : List (List ℕ) → List (List ℕ) → Bool
unfolding window_match
contains_pattern tokens pattern_ =
    if ltb (length tokens) (length pattern_)
    then false
    else window_match (length tokens - length pattern_ + 1) tokens pattern_

any_pattern : List (List ℕ) → List String → Bool
unfolding contains_pattern private_key_tokens codes
any_pattern tokens [] = false
any_pattern tokens (key ∷ patterns) =
    contains_pattern tokens (private_key_tokens (codes key)) || any_pattern tokens patterns

abbrev pub forbidden_keys : List String
forbidden_keys =
    "command_line" ∷ "cmdline" ∷ "argv" ∷ "args" ∷ "environment" ∷ "env" ∷ "secret" ∷ "token"
    ∷ "api_key" ∷ []

-- `private_key_has_pattern(key, FORBIDDEN_KEY_PATTERNS)`
unfoldable pub private_key : String → Bool
unfolding any_pattern private_key_tokens codes
private_key key = any_pattern (private_key_tokens (codes key)) forbidden_keys
