-- ===== src/Runner/Substrate/Tuple.antt =====
-- qa/runner_substrate_proof_check.py, `TUPLE_RE` and `PLACEHOLDER_SHA_VALUES`: the tuple and the digest
-- of a kernel.
use exasphere.Base.{
  ℕ, ◌≡◌, refl, sym, ap, subst, ◌∷◌, ◌++◌, ◌-◌, ◌==◌, ==_iff, length, all, take, drop,
  take-append_drop, ◌∙◌, Bool, true, false, ◌&&◌, ◌||◌, Option, none, some, List, [], String, arith,
  if◌then◌else◌, and_split,
}
use exasphere.Text.{codes, is_prefix, is_hex}
use exasphere.Text.Regex.{fullmatch}
use exasphere.Sample.Digest.Laws.{is_prefix-eq}
use exasphere.Runner.Common.{sha_re}
use exasphere.Runner.Substrate.{
  placeholder_sha, release_pattern, tuple_prefix, tuple_suffix, tuple_release,
}

-- A supported tuple, taken apart: a release of the known pattern stands between its fixed ends.
pub record SupportedTuple (supported : String) (tuple : List ℕ) : Type 0 where
  pub shape : codes supported ≡ codes tuple_prefix ++ (tuple ++ codes tuple_suffix)
  pub known_release : fullmatch release_pattern tuple ≡ true

prefix-all : (p s : List ℕ) → is_prefix p s ≡ true → length s ≡ length p → s ≡ p
unfolding is_prefix
prefix-all [] [] h e = refl
prefix-all [] (c ∷ s) h e = absurd (omega (arith, e))
prefix-all (n ∷ p) [] h e = cc
prefix-all (n ∷ p) (c ∷ s) h e =
    let (same, rest) = and_split (n == c) (is_prefix p s) h in
    cc ((==_iff n c).0 same, prefix-all p s rest (omega (arith, e)))

then_some :
    (b : Bool) (found : List ℕ) {tuple : List ℕ}
    → ◌≡◌ {A = Option (List ℕ)} (if b then some found else none) (some tuple)
    → (b ≡ true) × (found ≡ tuple)
then_some true found h = (refl, cc)
then_some false found h = cc

four_tests :
    (a b c d : Bool) → (a && b && c && d) ≡ true → (a ≡ true) × (b ≡ true) × (c ≡ true) × (d ≡ true)
four_tests a b c d h = ground arith

-- What is found between the ends makes the text, put back between them.
pub tuple_release-SupportedTuple :
    (supported : String) {tuple : List ℕ}
    → tuple_release supported ≡ some tuple
    → SupportedTuple supported tuple
unfolding tuple_release
tuple_release-SupportedTuple supported {tuple} h =
    let middle = drop (length (codes tuple_prefix)) (codes supported) in
    let size = length middle - length (codes tuple_suffix) in
    let (tests, same) = then_some _ (take size middle) h in
    let (starts, ends, size_ok, known) = four_tests _ _ _ _ tests in
    let tail : drop size middle ≡ codes tuple_suffix =
      prefix-all (codes tuple_suffix) (drop size middle) ends ((==_iff _ _).0 size_ok) in
    record {
      shape =
          is_prefix-eq (codes tuple_prefix) (codes supported) starts
          ∙ ap (λ t. codes tuple_prefix ++ t)
              (sym (take-append_drop size middle)
                ∙ ap (λ t. take size middle ++ t) tail
                ∙ ap (λ t. t ++ codes tuple_suffix) same);
      known_release = subst (λ t. fullmatch release_pattern t ≡ true) same known;
    }

-- A lowercase SHA-256 that is neither all zeros nor all ones.
pub record RealDigest (s : String) : Type 0 where
  pub size : length (codes s) ≡ 64
  pub hexadecimal : all is_hex (codes s) ≡ true
  pub some_other_than_zero : all (λ c. c == b'0') (codes s) ≡ false
  pub some_other_than_one : all (λ c. c == b'1') (codes s) ≡ false

not_placeholder :
    (size zeros ones : Bool)
    → (size && (zeros || ones)) ≡ false
    → size ≡ true
    → (zeros ≡ false) × (ones ≡ false)
not_placeholder size zeros ones h p = ground arith

pub real_digest : (s : String) → sha_re s ≡ true → placeholder_sha s ≡ false → RealDigest s
unfolding sha_re
real_digest s digest real =
    let (size, hexadecimal) = and_split (length (codes s) == 64) _ digest in
    let (zeros, ones) = not_placeholder _ _ _ real size in
    record {
      size = (==_iff (length (codes s)) 64).0 size;
      hexadecimal = hexadecimal;
      some_other_than_zero = zeros;
      some_other_than_one = ones;
    }
