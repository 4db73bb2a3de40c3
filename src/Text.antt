-- ===== src/Text.antt =====
-- Text as the checkers use it: the methods of `str` (lower, casefold, strip, isdecimal, startswith,
-- `in`), `int()`, and membership in constant tables.
pub mod Digits
pub mod Regex
use exasphere.Base.{
  ℕ, suc, ◌+◌, ◌-◌, ◌≡◌, Bool, true, false, ◌&&◌, ◌||◌, not, List, [], ◌∷◌, ◌++◌, String, code,
  str_eq, leb, ◌==◌, if◌then◌else◌, all, any, length,
}

-- The code points of a text.
unfoldable pub codes : String → List ℕ
codes String.[] = []
codes (String.◌∷◌ c s) = code c ∷ codes s

-- `text in table`, for a constant table of texts.
abbrev pub in_table : String → List String → Bool
in_table s [] = false
in_table s (t ∷ ts) = str_eq s t || in_table s ts

-- `hay.startswith(needle)`, `needle in hay`, over code points.
unfoldable pub is_prefix : List ℕ → List ℕ → Bool
is_prefix [] hay = true
is_prefix (n ∷ needle) [] = false
is_prefix (n ∷ needle) (c ∷ hay) = n == c && is_prefix needle hay

unfoldable pub contains : List ℕ → List ℕ → Bool
unfolding is_prefix
contains needle [] = is_prefix needle []
contains needle (c ∷ hay) = is_prefix needle (c ∷ hay) || contains needle hay

-- `any(needle in hay for needle in needles)`
unfoldable pub contains_any : List String → List ℕ → Bool
unfolding contains codes
contains_any [] hay = false
contains_any (n ∷ needles) hay = contains (codes n) hay || contains_any needles hay

abbrev pub starts_with : String → String → Bool
starts_with s prefix = is_prefix (codes prefix) (codes s)

abbrev ascii_lower : ℕ → ℕ
ascii_lower c = if leb b'A' c && leb c b'Z' then c + 32 else c

-- `str.lower()`, as far as an ASCII needle can tell: U+0130 and U+212A are the only characters
-- beyond ASCII whose lower case holds an ASCII character.
unfoldable pub lower : List ℕ → List ℕ
lower [] = []
lower (c ∷ s) =
    let rest = lower s in
    if c == 0x130
    then b'i' ∷ 775 ∷ rest
    else if c == 0x212a
    then b'k' ∷ rest
    else ascii_lower c ∷ rest

-- `str.casefold()`, as far as an ASCII needle can tell: the characters beyond ASCII whose folding
-- holds an ASCII character, with their foldings (Unicode 14).
abbrev fold_table : List (ℕ × List ℕ)
fold_table =
    (223, b's' ∷ b's' ∷ [])
    ∷ (304, b'i' ∷ 775 ∷ [])
    ∷ (329, 700 ∷ b'n' ∷ [])
    ∷ (383, b's' ∷ [])
    ∷ (496, b'j' ∷ 780 ∷ [])
    ∷ (7830, b'h' ∷ 817 ∷ [])
    ∷ (7831, b't' ∷ 776 ∷ [])
    ∷ (7832, b'w' ∷ 778 ∷ [])
    ∷ (7833, b'y' ∷ 778 ∷ [])
    ∷ (7834, b'a' ∷ 702 ∷ [])
    ∷ (7838, b's' ∷ b's' ∷ [])
    ∷ (8490, b'k' ∷ [])
    ∷ (64256, b'f' ∷ b'f' ∷ [])
    ∷ (64257, b'f' ∷ b'i' ∷ [])
    ∷ (64258, b'f' ∷ b'l' ∷ [])
    ∷ (64259, b'f' ∷ b'f' ∷ b'i' ∷ [])
    ∷ (64260, b'f' ∷ b'f' ∷ b'l' ∷ [])
    ∷ (64261, b's' ∷ b't' ∷ [])
    ∷ (64262, b's' ∷ b't' ∷ [])
    ∷ []

folded : ℕ → List (ℕ × List ℕ) → List ℕ
folded c [] = ascii_lower c ∷ []
folded c ((d, f) ∷ table) = if c == d then f else folded c table

unfoldable pub casefold : List ℕ → List ℕ
unfolding folded
casefold [] = []
casefold (c ∷ s) = folded c fold_table ++ casefold s

-- `char in "0123456789abcdef"`
abbrev pub is_hex : ℕ → Bool
is_hex c = (leb b'0' c && leb c b'9') || (leb b'a' c && leb c b'f')

-- The characters that `str.strip()` removes.
abbrev pub is_space : ℕ → Bool
is_space c =
    (leb 9 c && leb c 13)
    || (leb 28 c && leb c 32)
    || c == 133
    || c == 160
    || c == 5760
    || (leb 8192 c && leb c 8202)
    || c == 8232
    || c == 8233
    || c == 8239
    || c == 8287
    || c == 12288

-- `s.strip() == ""`
unfoldable pub is_blank : String → Bool
unfolding codes
is_blank s = all is_space (codes s)

unfoldable pub strip_left : String → String
strip_left String.[] = String.[]
strip_left (String.◌∷◌ c s) =
    let rest = strip_left s in if is_space (code c) then rest else String.◌∷◌ c s

unfoldable pub strip_right : String → String
unfolding is_blank
strip_right String.[] = String.[]
strip_right (String.◌∷◌ c s) =
    let rest = strip_right s in
    if is_space (code c) && is_blank s then String.[] else String.◌∷◌ c rest

-- `s.strip()`
unfoldable pub strip : String → String
unfolding strip_left strip_right
strip s = strip_right (strip_left s)

-- `len(s)`
abbrev pub text_length : String → ℕ
text_length s = length (codes s)
