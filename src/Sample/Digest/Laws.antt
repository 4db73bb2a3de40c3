-- ===== src/Sample/Digest/Laws.antt =====
-- The shape of a digest summary, in both directions.
use exasphere.Base.{
  ℕ, zero, suc, ◌+◌, ◌≤◌, ◌≡◌, refl, sym, ap, ap₂, subst, ◌∙◌, ◌↔◌, Bool, true, false, ◌&&◌, not,
  List, [], ◌∷◌, ◌++◌, arith, leb, ◌==◌, ==_iff, if◌then◌else◌, length, take, drop, all, and_split,
  and_join, length-append, take-append_drop, take-length_append, drop-length_append, length-take,
  length-take_drop,
}
use mathlib.Core.List.{append_assoc}
use native.Mathlib.Nat.{suc-add}
use exasphere.Text.{is_hex, is_prefix}
use exasphere.Text.Digits.{decimal, is_decimal}
use exasphere.Sample.Tokens.{same_text}
use exasphere.Sample.Tokens.Laws.{same_text_iff}
use exasphere.Sample.Digest.{is_digest_codes}

abbrev sha256_colon : List ℕ
sha256_colon = 115 ∷ 104 ∷ 97 ∷ 50 ∷ 53 ∷ 54 ∷ 58 ∷ []

abbrev bytes_colon : List ℕ
bytes_colon = 59 ∷ 98 ∷ 121 ∷ 116 ∷ 101 ∷ 115 ∷ 58 ∷ []

-- "sha256:", 64 hexadecimal digits, ";bytes:" and a decimal number.
pub record Summary (value : List ℕ) : Type 0 where
  pub digest : List ℕ
  pub byte_count : List ℕ
  pub shape : value ≡ sha256_colon ++ (digest ++ (bytes_colon ++ byte_count))
  pub digest_length : length digest ≡ 64
  pub digest_hex : all is_hex digest ≡ true
  pub count_decimal : is_decimal byte_count ≡ true

-- What the tests of the code say, taken apart.
record Tests (value : List ℕ) : Type 0 where
  long : 79 ≤ length value
  starts : is_prefix sha256_colon value ≡ true
  middle : drop 71 (take 78 value) ≡ bytes_colon
  hex : all is_hex (drop 7 (take 71 value)) ≡ true
  decimal_count : is_decimal (drop 78 value) ≡ true

pub is_prefix-eq : (p s : List ℕ) → is_prefix p s ≡ true → s ≡ p ++ drop (length p) s
unfolding is_prefix
is_prefix-eq [] s h = refl
is_prefix-eq (n ∷ p) [] h = cc
is_prefix-eq (n ∷ p) (c ∷ s) h =
    let (e, rest) = and_split (n == c) (is_prefix p s) h in
    cc ((==_iff n c).0 e, is_prefix-eq p s rest)

five_tests :
    (a b c d e : Bool)
    → (if a then false else if not b then false else if not c then false else d && e) ≡ true
    → (a ≡ false) × (b ≡ true) × (c ≡ true) × (d ≡ true) × (e ≡ true)
five_tests a b c d e h = ground arith

leb-false : (m n : ℕ) → leb m n ≡ false → suc n ≤ m
leb-false m n h = ground arith

tested : (value : List ℕ) → is_digest_codes value ≡ true → Tests value
unfolding is_digest_codes
tested value h =
    let (a, b, c, d, e) = five_tests _ _ _ _ _ h in
    record {
      long = leb-false (length value) 78 a;
      starts = b;
      middle = (same_text_iff (drop 71 (take 78 value)) bytes_colon).0 c;
      hex = d;
      decimal_count = e;
    }

-- A list of enough items, cut at 7, 71 and 78.
take-take : (n k : ℕ) (s : List ℕ) → take n s ≡ take n (take (n + k) s)
take-take zero k s = refl
take-take (suc n) k [] = rw (suc-add n k) refl
take-take (suc n) k (c ∷ s) = rw (suc-add n k) (ap (λ t. c ∷ t) (take-take n k s))

digest_length_lem : (s : List ℕ) → 79 ≤ length s → length (drop 7 (take 71 s)) ≡ 64
digest_length_lem s h = omega (
  arith,
  length-take 71 s (omega arith),
  length-take_drop 7 (take 71 s) (omega (arith, length-take 71 s (omega arith))),
)

take-prefix : (value : List ℕ) → is_prefix sha256_colon value ≡ true → take 7 value ≡ sha256_colon
take-prefix value h =
    ap (take 7) (is_prefix-eq sha256_colon value h) ∙ take-length_append sha256_colon (drop 7 value)

shape_lem :
    (value digest count : List ℕ)
    → take 71 value ≡ sha256_colon ++ digest
    → take 78 value ≡ take 71 value ++ bytes_colon
    → value ≡ take 78 value ++ count
    → value ≡ sha256_colon ++ (digest ++ (bytes_colon ++ count))
shape_lem value digest count p q r =
    r
    ∙ ap (λ u. u ++ count) (q ∙ ap (λ u. u ++ bytes_colon) p)
    ∙ ap (λ u. u ++ count) (append_assoc sha256_colon digest bytes_colon)
    ∙ append_assoc sha256_colon (digest ++ bytes_colon) count
    ∙ ap (λ u. sha256_colon ++ u) (append_assoc digest bytes_colon count)

is_digest_sound : (value : List ℕ) → is_digest_codes value ≡ true → Summary value
is_digest_sound value h =
    let t = tested value h in
    record {
      digest = drop 7 (take 71 value);
      byte_count = drop 78 value;
      shape =
          shape_lem value (drop 7 (take 71 value)) (drop 78 value)
            (sym (take-append_drop 7 (take 71 value))
              ∙ ap (λ u. u ++ drop 7 (take 71 value))
                  (sym (take-take 7 64 value) ∙ take-prefix value t.starts))
            (sym (take-append_drop 71 (take 78 value))
              ∙ ap₂ (λ u v. u ++ v) (sym (take-take 71 7 value)) t.middle)
            (sym (take-append_drop 78 value));
      digest_length = digest_length_lem value t.long;
      digest_hex = t.hex;
      count_decimal = t.decimal_count;
    }

five_passed :
    (a b c d e : Bool)
    → (a ≡ false) × (b ≡ true) × (c ≡ true) × (d ≡ true) × (e ≡ true)
    → (if a then false else if not b then false else if not c then false else d && e) ≡ true
five_passed a b c d e h = ground arith

take_of : (n : ℕ) (x y : List ℕ) → length x ≡ n → take n (x ++ y) ≡ x
take_of n x y h = subst (λ m. take m (x ++ y) ≡ x) h (take-length_append x y)

drop_of : (n : ℕ) (x y : List ℕ) → length x ≡ n → drop n (x ++ y) ≡ y
drop_of n x y h = subst (λ m. drop m (x ++ y) ≡ y) h (drop-length_append x y)

is_prefix-append : (p s : List ℕ) → is_prefix p (p ++ s) ≡ true
unfolding is_prefix
is_prefix-append [] s = refl
is_prefix-append (n ∷ p) s =
    and_join (n == n) (is_prefix p (p ++ s)) ((==_iff n n).1 refl) (is_prefix-append p s)

le_leb : (m n : ℕ) → suc n ≤ m → leb m n ≡ false
le_leb m n h = ground arith

not_empty : (s : List ℕ) → is_decimal s ≡ true → 1 ≤ length s
unfolding decimal
not_empty [] h = cc
not_empty (c ∷ s) h = omega arith

-- The code points of a summary, with its parts for variables.
abbrev summary : List ℕ → List ℕ → List ℕ
summary digest count = sha256_colon ++ (digest ++ (bytes_colon ++ count))

length-summary :
    (digest count : List ℕ) → length (summary digest count) ≡ 14 + length digest + length count
length-summary digest count = omega (arith, length-append digest (bytes_colon ++ count))

summary_accepted :
    (digest count : List ℕ)
    → length digest ≡ 64
    → all is_hex digest ≡ true
    → is_decimal count ≡ true
    → is_digest_codes (summary digest count) ≡ true
unfolding is_digest_codes
summary_accepted digest count len hex dec =
    let front : take 71 (summary digest count) ≡ sha256_colon ++ digest =
      ap (λ u. sha256_colon ++ u) (take_of 64 digest (bytes_colon ++ count) len) in
    let front78 : take 78 (summary digest count) ≡ sha256_colon ++ (digest ++ bytes_colon) =
      ap (λ u. sha256_colon ++ u)
        (ap (take 71) (sym (append_assoc digest bytes_colon count))
          ∙ take_of 71 (digest ++ bytes_colon) count
              (omega (arith, length-append digest bytes_colon))) in
    let value = summary digest count in
    let starts = is_prefix-append sha256_colon (digest ++ (bytes_colon ++ count)) in
    let hex' : all is_hex (drop 7 (take 71 value)) ≡ true =
      ap (λ u. all is_hex (drop 7 u)) front ∙ hex in
    let dec' : is_decimal (drop 78 value) ≡ true =
      ap is_decimal (
        ap (drop 71) (sym (append_assoc digest bytes_colon count))
        ∙ drop_of 71 (digest ++ bytes_colon) count
            (omega (arith, length-append digest bytes_colon)))
      ∙ dec in
    five_passed (leb (length value) 78) (is_prefix sha256_colon value)
      (same_text (drop 71 (take 78 value)) bytes_colon) (all is_hex (drop 7 (take 71 value)))
      (is_decimal (drop 78 value))
      (
        le_leb (length value) 78 (omega (arith, length-summary digest count, not_empty count dec)),
        starts,
        (same_text_iff _ bytes_colon).1 (ap (drop 71) front78 ∙ drop_of 64 digest bytes_colon len),
        hex',
        dec',
      )

-- `is_digest_summary` accepts exactly "sha256:", 64 lowercase hexadecimal digits, ";bytes:" and a
-- decimal number.
pub is_digest_codes_iff : (value : List ℕ) → (is_digest_codes value ≡ true) ↔ Summary value
is_digest_codes_iff value = (
  is_digest_sound value,
  λ s.
      rw s.shape
        (summary_accepted s.digest s.byte_count s.digest_length s.digest_hex s.count_decimal),
)
