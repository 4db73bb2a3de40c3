-- ===== src/Text/Digits.antt =====
-- `str.isdecimal`, `int(text)` and decimal printing.
use exasphere.Base.{
  ℕ, zero, suc, ◌+◌, ◌-◌, ◌*◌, ◌/◌, ◌%◌, Bool, true, false, ◌&&◌, Option, none, some, List, [], ◌∷◌,
  String, leb, ltb, if◌then◌else◌, length, Result, ok, value_error, raise, ◌<>◌, ◌>>=◌, ◌||◌, all,
}

-- The decimal zeros of Unicode 14 (category Nd): the ten digits of each script follow its zero.
abbrev zeros : List ℕ
zeros =
    48 ∷ 1632 ∷ 1776 ∷ 1984 ∷ 2406 ∷ 2534 ∷ 2662 ∷ 2790 ∷ 2918 ∷ 3046 ∷ 3174 ∷ 3302 ∷ 3430 ∷ 3558
    ∷ 3664 ∷ 3792 ∷ 3872 ∷ 4160 ∷ 4240 ∷ 6112 ∷ 6160 ∷ 6470 ∷ 6608 ∷ 6784 ∷ 6800 ∷ 6992 ∷ 7088
    ∷ 7232 ∷ 7248 ∷ 42528 ∷ 43216 ∷ 43264 ∷ 43472 ∷ 43504 ∷ 43600 ∷ 44016 ∷ 65296 ∷ 66720 ∷ 68912
    ∷ 69734 ∷ 69872 ∷ 69942 ∷ 70096 ∷ 70384 ∷ 70736 ∷ 70864 ∷ 71248 ∷ 71360 ∷ 71472 ∷ 71904 ∷ 72016
    ∷ 72784 ∷ 73040 ∷ 73120 ∷ 92768 ∷ 92864 ∷ 93008 ∷ 120782 ∷ 120792 ∷ 120802 ∷ 120812 ∷ 120822
    ∷ 123200 ∷ 123632 ∷ 125264 ∷ 130032 ∷ []

digit_in : List ℕ → ℕ → Option ℕ
digit_in [] c = none
digit_in (z ∷ zs) c = if leb z c && leb c (z + 9) then some (c - z) else digit_in zs c

-- The value of a decimal digit.
unfoldable pub digit : ℕ → Option ℕ
unfolding digit_in
digit c = digit_in zeros c

-- The value of a run of digits, onto those read before; `none` at any other character.
unfoldable pub digits_from : ℕ → List ℕ → Option ℕ
digits_from acc [] = some acc
digits_from acc (c ∷ s) = elim (digit c) [ none ↦ none | some d ↦ digits_from (acc * 10 + d) s ]

-- `int(s)` where `s.isdecimal()`, and `none` where it is not: one digit at least.
unfoldable pub decimal : List ℕ → Option ℕ
unfolding digits_from digit
decimal [] = none
decimal (c ∷ s) = digits_from 0 (c ∷ s)

abbrev is_some {ℓ} : {A : Type ℓ} → Option A → Bool
is_some none = false
is_some (some a) = true

-- `s.isdecimal()`
abbrev pub is_decimal : List ℕ → Bool
is_decimal s = is_some (decimal s)

-- `int(s)` refuses more than 4300 digits (`sys.set_int_max_str_digits`).
abbrev pub int_max_str_digits : ℕ
int_max_str_digits = 4300

-- `int(s) if s.isdecimal() else None`
unfoldable pub int_or_none : List ℕ → Result (Option ℕ)
int_or_none s = elim (decimal s) [
  | none ↦ ok none
  | some n ↦
      if leb (length s) int_max_str_digits
      then ok (some n)
      else raise value_error "Exceeds the limit (4300 digits) for integer string conversion"
]

-- The characters of `str.isdigit` that are no decimal digits (superscripts, circled digits and the
-- like, Unicode 14), as ranges.
abbrev other_digits : List (ℕ × ℕ)
other_digits =
    (178, 179)
    ∷ (185, 185)
    ∷ (4969, 4977)
    ∷ (6618, 6618)
    ∷ (8304, 8304)
    ∷ (8308, 8313)
    ∷ (8320, 8329)
    ∷ (9312, 9320)
    ∷ (9332, 9340)
    ∷ (9352, 9360)
    ∷ (9450, 9450)
    ∷ (9461, 9469)
    ∷ (9471, 9471)
    ∷ (10102, 10110)
    ∷ (10112, 10120)
    ∷ (10122, 10130)
    ∷ (68160, 68163)
    ∷ (69216, 69224)
    ∷ (69714, 69722)
    ∷ (127232, 127242)
    ∷ []

in_ranges : List (ℕ × ℕ) → ℕ → Bool
in_ranges [] c = false
in_ranges ((low, high) ∷ ranges) c = (leb low c && leb c high) || in_ranges ranges c

digit_char : ℕ → Bool
unfolding digit in_ranges
digit_char c = is_some (digit c) || in_ranges other_digits c

-- `s.isdigit()`
unfoldable pub is_digits : List ℕ → Bool
unfolding digit_char
is_digits [] = false
is_digits (c ∷ s) = all digit_char (c ∷ s)

unfoldable pub int_of_number : Option ℕ → Result ℕ
int_of_number none = raise value_error "invalid literal for int() with base 10"
int_of_number (some n) = ok n

-- `int(s)` of a text of digits: a digit that is not decimal is a `ValueError`.
unfoldable pub int_of_digits : List ℕ → Result ℕ
unfolding int_of_number
int_of_digits s = int_or_none s >>= int_of_number

one_digit : ℕ → String
one_digit zero = "0"
one_digit (suc zero) = "1"
one_digit (suc (suc zero)) = "2"
one_digit (suc (suc (suc zero))) = "3"
one_digit (suc (suc (suc (suc zero)))) = "4"
one_digit (suc (suc (suc (suc (suc zero))))) = "5"
one_digit (suc (suc (suc (suc (suc (suc zero)))))) = "6"
one_digit (suc (suc (suc (suc (suc (suc (suc zero))))))) = "7"
one_digit (suc (suc (suc (suc (suc (suc (suc (suc zero)))))))) = "8"
one_digit _ = "9"

print_fuel : ℕ → ℕ → String
print_fuel zero n = ""
print_fuel (suc f) n =
    let rest = print_fuel f (n / 10) in if ltb n 10 then one_digit n else rest <> one_digit (n % 10)

-- `str(n)`; the number itself is fuel enough, for each round divides it by ten.
unfoldable pub show : ℕ → String
unfolding print_fuel one_digit ◌<>◌
show n = print_fuel (suc n) n
