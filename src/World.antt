-- ===== src/World.antt =====
-- What the checkers ask of the file system and of the interpreter's libraries, and `pathlib` paths.
use exasphere.Base.{
  ℕ, Bool, true, false, ◌&&◌, ◌||◌, not, List, [], ◌∷◌, String, code, str_eq, ◌==◌, ◌++◌,
  if◌then◌else◌, ◌<>◌,
}
use exasphere.Json.{JsonValue, JsonObject}

-- The pieces of a text between its slashes.
push_char : String → List String → List String
push_char one [] = one ∷ []
push_char String.[] (w ∷ ws) = w ∷ ws
push_char (String.◌∷◌ c _) (w ∷ ws) = String.◌∷◌ c w ∷ ws

unfoldable pub split_slash : String → List String
unfolding push_char
split_slash String.[] = String.[] ∷ []
split_slash (String.◌∷◌ c s) =
    let rest = split_slash s in
    if code c == b'/' then String.[] ∷ rest else push_char (String.◌∷◌ c String.[]) rest

-- `Path(raw)`: its root ("", "/" or "//") and its names.
pub record FilePath : Type 0 where
  pub root : String
  pub names : List String

-- Three slashes and more are one.
root_of : String → String
root_of (String.◌∷◌ a (String.◌∷◌ b (String.◌∷◌ c s))) =
    if code a == b'/' then if code b == b'/' && not (code c == b'/') then "//" else "/" else ""
root_of (String.◌∷◌ a (String.◌∷◌ b String.[])) =
    if code a == b'/' then if code b == b'/' then "//" else "/" else ""
root_of (String.◌∷◌ a String.[]) = if code a == b'/' then "/" else ""
root_of String.[] = ""

-- Empty pieces and "." are dropped.
unfoldable pub kept_names : List String → List String
kept_names [] = []
kept_names (w ∷ ws) =
    let rest = kept_names ws in if str_eq w "" || str_eq w "." then rest else w ∷ rest

unfoldable pub path_of : String → FilePath
unfolding root_of kept_names split_slash
path_of raw = record { root = root_of raw; names = kept_names (split_slash raw) }

abbrev no_names : List String → Bool
no_names [] = true
no_names _ = false

-- `path.parts`
abbrev pub parts : FilePath → List String
parts p = if str_eq p.root "" then p.names else p.root ∷ p.names

abbrev pub is_absolute : FilePath → Bool
is_absolute p = not (str_eq p.root "")

-- `root / name`, for a relative name of one piece.
abbrev pub child : FilePath → String → FilePath
child p name = record p { names = p.names ++ (name ∷ []) }

abbrev init : List String → List String
init [] = []
init (w ∷ []) = []
init (w ∷ ws) = w ∷ init ws

-- `path.parent`
abbrev pub parent : FilePath → FilePath
parent p = record p { names = init p.names }

-- `path.name`
abbrev last : List String → String
last [] = ""
last (w ∷ []) = w
last (w ∷ ws) = last ws

abbrev pub name_of : FilePath → String
name_of p = last p.names

abbrev pub same_names : List String → List String → Bool
same_names [] [] = true
same_names (s ∷ ss) (t ∷ ts) = str_eq s t && same_names ss ts
same_names _ _ = false

-- `p == q`
abbrev pub same_path : FilePath → FilePath → Bool
same_path p q = str_eq p.root q.root && same_names p.names q.names

join_names : List String → String
join_names [] = ""
join_names (w ∷ []) = w
join_names (w ∷ ws) = w <> "/" <> join_names ws

-- `str(path)`
unfoldable pub path_text : FilePath → String
unfolding join_names
path_text p = if str_eq p.root "" && no_names p.names then "." else p.root <> join_names p.names

-- SAFE_PATH_RE, `^(?!/)(?!.*(?:^|/)\.\.(?:/|$)).+$` under `fullmatch`: what stands at a name's start
-- is "..", up to a slash or the end.
dots_here : String → Bool
dots_here (String.◌∷◌ a (String.◌∷◌ b String.[])) = code a == b'.' && code b == b'.'
dots_here (String.◌∷◌ a (String.◌∷◌ b (String.◌∷◌ c s))) =
    code a == b'.' && code b == b'.' && code c == b'/'
dots_here _ = false

-- The second lookahead: `at_start` tells that a name starts here.
unfoldable pub finds_dots : Bool → String → Bool
unfolding dots_here
finds_dots at_start String.[] = false
finds_dots at_start (String.◌∷◌ c s) =
    (at_start && dots_here (String.◌∷◌ c s)) || finds_dots (code c == b'/') s

unfoldable pub has_line_feed : String → Bool
has_line_feed String.[] = false
has_line_feed (String.◌∷◌ c s) = code c == 10 || has_line_feed s

starts_with_slash : String → Bool
starts_with_slash String.[] = false
starts_with_slash (String.◌∷◌ c s) = code c == b'/'

unfoldable pub safe_path_re : String → Bool
unfolding finds_dots has_line_feed starts_with_slash
safe_path_re s =
    not (str_eq s "")
    && not (has_line_feed s)
    && not (starts_with_slash s)
    && not (finds_dots true s)

-- What reading a file gives: its content, `FileNotFoundError`, or any other `OSError` or
-- `UnicodeDecodeError`, which the checkers do not catch.
pub data Reading {ℓ} (A : Type ℓ) : Type ℓ where
  found : A → Reading A
  missing : Reading A
  fault : String → Reading A

-- `json.loads(text)`: a value, or the text of a `JSONDecodeError`, of the plain `ValueError` for an
-- integer of too many digits, or of the `RecursionError` for a text that nests too deep.
pub data Decoded : Type 0 where
  decoded : JsonValue → Decoded
  undecodable : String → Decoded
  too_long : String → Decoded
  too_deep : String → Decoded

-- `json.loads(text, parse_constant=reject)` where `reject` raises: the token (NaN, Infinity or
-- -Infinity) with which the parser calls it, if it comes to one, and else what it returns or raises
-- itself. A literal such as 1e999 is no such token.
pub data Strict : Type 0 where
  constant : String → Strict
  parsed : Decoded → Strict

-- The file system at the time of the run, and the libraries' `json.loads`, `json.dumps`,
-- `hashlib.sha256` and word characters beyond ASCII (`\w` of `re`). `read_replaced` reads with
-- `errors="replace"`, `resolve` is `Path.resolve`, which
-- follows the links of the file system.
pub record World : Type 0 where
  pub read_text : FilePath → Reading String
  pub read_replaced : FilePath → Reading String
  pub read_lines : FilePath → Reading (List String)
  pub sha256 : FilePath → Reading String
  pub is_file : FilePath → Bool
  pub exists : FilePath → Bool
  pub resolve : FilePath → FilePath
  pub loads : String → Decoded
  pub loads_strict : String → Strict
  pub dumps : JsonObject → String
  pub is_word : ℕ → Bool
