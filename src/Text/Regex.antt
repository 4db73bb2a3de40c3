-- ===== src/Text/Regex.antt =====
-- Regular expressions over code points, as the checkers' `re` patterns use them. A match is decided
-- by derivatives.
use exasphere.Base.{
  ℕ, zero, suc, Bool, true, false, ◌&&◌, ◌||◌, not, List, [], ◌∷◌, leb, ◌==◌, if◌then◌else◌,
}

pub data Re : Type 0 where
  empty : Re
  eps : Re
  char : (ℕ → Bool) → Re
  seq : Re → Re → Re
  alt : Re → Re → Re
  star : Re → Re

-- Sequence and choice, with the trivial cases taken out.
unfoldable pub join : Re → Re → Re
join empty q = empty
join eps q = q
join r q = seq r q

unfoldable pub either : Re → Re → Re
either empty q = q
either r empty = r
either r q = alt r q

unfoldable pub nullable : Re → Bool
nullable empty = false
nullable eps = true
nullable (char p) = false
nullable (seq r q) = nullable r && nullable q
nullable (alt r q) = nullable r || nullable q
nullable (star r) = true

-- What is left to match after the character `c`.
unfoldable pub deriv : ℕ → Re → Re
unfolding join either nullable
deriv c empty = empty
deriv c eps = empty
deriv c (char p) = if p c then eps else empty
deriv c (seq r q) =
    if nullable r then either (join (deriv c r) q) (deriv c q) else join (deriv c r) q
deriv c (alt r q) = either (deriv c r) (deriv c q)
deriv c (star r) = join (deriv c r) (star r)

-- `pattern.fullmatch(s) is not None`
unfoldable pub fullmatch : Re → List ℕ → Bool
unfolding deriv
fullmatch r [] = nullable r
fullmatch r (c ∷ s) = fullmatch (deriv c r) s

abbrev pub anything : Re
anything = star (char (λ _. true))

-- `pattern.search(s) is not None`
abbrev pub search_re : Re → List ℕ → Bool
search_re r = fullmatch (seq anything (seq r anything))

abbrev pub one_of : (ℕ → Bool) → Re
one_of = char

abbrev pub plus : Re → Re
plus r = seq r (star r)

-- `r{n}`
abbrev pub times : ℕ → Re → Re
times zero r = eps
times (suc n) r = seq r (times n r)

-- `r{0,n}`
abbrev pub up_to : ℕ → Re → Re
up_to zero r = eps
up_to (suc n) r = alt eps (seq r (up_to n r))

abbrev pub literal : List ℕ → Re
literal [] = eps
literal (c ∷ s) = seq (char (λ d. d == c)) (literal s)

abbrev pub is_digit : ℕ → Bool
is_digit c = leb b'0' c && leb c b'9'

-- `[A-Za-z0-9_.-]`
abbrev pub is_id_char : ℕ → Bool
is_id_char c =
    (leb b'A' c && leb c b'Z')
    || (leb b'a' c && leb c b'z')
    || is_digit c
    || c == b'_'
    || c == b'.'
    || c == b'-'

-- `.`: any character but a line feed.
abbrev pub is_dot : ℕ → Bool
is_dot c = not (c == 10)
