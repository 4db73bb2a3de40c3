-- ===== src/Sample/Tokens/Laws.antt =====
-- The words of a key: nothing of a chunk is lost between its words, and a pattern is found exactly
-- where it stands.
use exasphere.Base.{
  ℕ, zero, suc, ◌+◌, ◌-◌, ◌≤◌, ◌≡◌, refl, sym, ap, ◌∙◌, ◌↔◌, inl, inr, Bool, true, false, ◌||◌,
  List, [], ◌∷◌, ◌++◌, arith, ◌==◌, ==_iff, if_elim, length, take, drop, Bool-cases, and_split,
  and_join, or_split, or_join, all, length-append, take-append_drop, take-length_append,
}
use exasphere.Sample.Tokens.{
  is_upper, is_lower, is_digit, is_alnum, span, last_capital, capitals, word_after, or_word,
  next_token, tokens_fuel, same_text, same_texts, window_match, contains_pattern,
}

pub same_text_iff : (s t : List ℕ) → (same_text s t ≡ true) ↔ (s ≡ t)
unfolding same_text
same_text_iff s t = (to s t, λ p. rw p (self t))
  where
    to : (s t : List ℕ) → same_text s t ≡ true → s ≡ t
    to [] [] h = refl
    to [] (b ∷ t) h = cc
    to (a ∷ s) [] h = cc
    to (a ∷ s) (b ∷ t) h =
        let (p, q) = and_split (a == b) (same_text s t) h in ground (arith, to s t q)

    self : (s : List ℕ) → same_text s s ≡ true
    self [] = refl
    self (a ∷ s) = and_join (a == a) (same_text s s) ((==_iff a a).1 refl) (self s)

same_texts_iff : (s t : List (List ℕ)) → (same_texts s t ≡ true) ↔ (s ≡ t)
unfolding same_texts
same_texts_iff s t = (to s t, λ p. rw p (self t))
  where
    to : (s t : List (List ℕ)) → same_texts s t ≡ true → s ≡ t
    to [] [] h = refl
    to [] (b ∷ t) h = cc
    to (a ∷ s) [] h = cc
    to (a ∷ s) (b ∷ t) h =
        let (p, q) = and_split (same_text a b) (same_texts s t) h in
        cc ((same_text_iff a b).0 p, to s t q)

    self : (s : List (List ℕ)) → same_texts s s ≡ true
    self [] = refl
    self (a ∷ s) = and_join (same_text a a) (same_texts s s) ((same_text_iff a a).1 refl) (self s)

-- A window at some place is the pattern between what stands before and after.
abbrev pub Stands : List (List ℕ) → List (List ℕ) → Type 0
Stands pattern_ tokens =
    (before : List (List ℕ)) × (after : List (List ℕ)) × (tokens ≡ before ++ (pattern_ ++ after))

window_match_sound :
    (limit : ℕ) (tokens p : List (List ℕ)) → window_match limit tokens p ≡ true → Stands p tokens
unfolding window_match
window_match_sound zero tokens p h = cc
window_match_sound (suc k) tokens p h =
    elim (or_split (same_texts (take (length p) tokens) p) (window_match k (drop 1 tokens) p) h) [
      | inl here ↦ (
        [],
        drop (length p) tokens,
        (sym (take-append_drop (length p) tokens)
            ∙ ap (λ s. s ++ drop (length p) tokens)
                ((same_texts_iff (take (length p) tokens) p).0 here)),
      )
      | inr later ↦ shift tokens (window_match_sound k (drop 1 tokens) p later)
    ]
  where
    shift : (tokens : List (List ℕ)) → Stands p (drop 1 tokens) → Stands p tokens
    shift [] s = s
    shift (t ∷ ts) (before, after, e) = (t ∷ before, after, ap (λ r. t ∷ r) e)

window_match_complete :
    (limit : ℕ) (before p after : List (List ℕ))
    → suc (length before) ≤ limit
    → window_match limit (before ++ (p ++ after)) p ≡ true
unfolding window_match
window_match_complete zero before p after h = elim h [ ]
window_match_complete (suc k) [] p after h =
    or_join (same_texts (take (length p) (p ++ after)) p) (window_match k (drop 1 (p ++ after)) p)
      (inl ((same_texts_iff _ p).1 (take-length_append p after)))
window_match_complete (suc k) (t ∷ before) p after h =
    or_join (same_texts (take (length p) (t ∷ before ++ (p ++ after))) p)
      (window_match k (before ++ (p ++ after)) p)
      (inr (window_match_complete k before p after (omega arith)))

contains_pattern-open :
    (tokens p : List (List ℕ))
    → length p ≤ length tokens
    → contains_pattern tokens p ≡ window_match (length tokens - length p + 1) tokens p
unfolding contains_pattern
contains_pattern-open tokens p h = ground arith

contains_pattern-long :
    (tokens p : List (List ℕ)) → contains_pattern tokens p ≡ true → length p ≤ length tokens
unfolding contains_pattern
contains_pattern-long tokens p h = ground arith

contains_pattern_sound :
    (tokens p : List (List ℕ)) → contains_pattern tokens p ≡ true → Stands p tokens
contains_pattern_sound tokens p h =
    let opened = contains_pattern-open tokens p (contains_pattern-long tokens p h) in
    window_match_sound (length tokens - length p + 1) tokens p (sym opened ∙ h)

contains_pattern_complete :
    (before p after : List (List ℕ)) → contains_pattern (before ++ (p ++ after)) p ≡ true
contains_pattern_complete before p after =
    let outer = length-append before (p ++ after) in
    let inner = length-append p after in
    contains_pattern-open (before ++ (p ++ after)) p (omega (arith, outer, inner))
    ∙ window_match_complete (length (before ++ (p ++ after)) - length p + 1) before p after
        (omega (arith, outer, inner))

-- `_contains_pattern` finds the pattern exactly if it stands somewhere among the tokens.
pub contains_pattern_iff :
    (tokens p : List (List ℕ)) → (contains_pattern tokens p ≡ true) ↔ Stands p tokens
contains_pattern_iff tokens p = (
  contains_pattern_sound tokens p,
  λ (before, after, e). rw e (contains_pattern_complete before p after),
)

module _ (p : ℕ → Bool) where
  span-append : (s : List ℕ) → (span p s).0 ++ (span p s).1 ≡ s
  unfolding span
  span-append [] = refl
  span-append (c ∷ s) = elim (Bool-cases (p c)) [
    | inl e ↦ rw e (ap (λ t. c ∷ t) (span-append s))
    | inr e ↦ rw e refl
  ]

  span_head : (c : ℕ) (s : List ℕ) → p c ≡ true → (span p (c ∷ s)).0 ≡ c ∷ (span p s).0
  unfolding span
  span_head c s e = rw e refl

last_capital-append :
    (run rest : List ℕ) → (last_capital run rest).0 ++ (last_capital run rest).1 ≡ run ++ rest
unfolding last_capital
last_capital-append [] rest = refl
last_capital-append (c ∷ []) rest = refl
last_capital-append (c ∷ d ∷ cs) rest = ap (λ t. c ∷ t) (last_capital-append (d ∷ cs) rest)

capitals-append : (run rest : List ℕ) → (capitals run rest).0 ++ (capitals run rest).1 ≡ run ++ rest
unfolding capitals
capitals-append run [] = refl
capitals-append run (c ∷ rest) = elim (Bool-cases (is_digit c)) [
  | inl e ↦ rw e refl
  | inr e ↦ rw e (last_capital-append run (c ∷ rest))
]

-- A token at the front: it is not empty, and what follows it is the rest.
abbrev Front : List ℕ → List ℕ × List ℕ → Type 0
Front s r = (r.0 ++ r.1 ≡ s) × (suc zero ≤ length r.0)

word_after-Front : (c : ℕ) (s : List ℕ) → Front (c ∷ s) (word_after c s)
unfolding word_after
word_after-Front c s = (ap (λ t. c ∷ t) (span-append is_lower s), omega arith)

or_word-Front :
    (c : ℕ) (s : List ℕ) (r : List ℕ × List ℕ) → r.0 ++ r.1 ≡ c ∷ s → Front (c ∷ s) (or_word c s r)
unfolding or_word
or_word-Front c s ([], rest) h = word_after-Front c s
or_word-Front c s (d ∷ run, rest) h = (h, omega arith)

digits-Front : (c : ℕ) (s : List ℕ) → is_digit c ≡ true → Front (c ∷ s) (span is_digit (c ∷ s))
digits-Front c s e = (span-append is_digit (c ∷ s), rw (span_head is_digit c s e) (omega arith))

upper-Front :
    (c : ℕ) (s : List ℕ)
    → Front (c ∷ s) (or_word c s (capitals (span is_upper (c ∷ s)).0 (span is_upper (c ∷ s)).1))
upper-Front c s =
    let (run, rest) = span is_upper (c ∷ s) in
    or_word-Front c s (capitals run rest) (capitals-append run rest ∙ span-append is_upper (c ∷ s))

first_of_three : (a b c : Bool) → (a || b || c) ≡ true → b ≡ false → c ≡ false → a ≡ true
first_of_three a b c h p q = ground arith

next_token-Front : (c : ℕ) (s : List ℕ) → is_alnum c ≡ true → Front (c ∷ s) (next_token c s)
unfolding next_token
next_token-Front c s h =
    if_elim (Front (c ∷ s)) (is_upper c) _ _ (λ u. upper-Front c s)
      (λ u.
        if_elim (Front (c ∷ s)) (is_lower c) _ _ (λ l. word_after-Front c s)
          (λ l. digits-Front c s (first_of_three (is_digit c) (is_upper c) (is_lower c) h u l)))

abbrev pub concat : List (List ℕ) → List ℕ
concat [] = []
concat (w ∷ ws) = w ++ concat ws

Front-rest : (c : ℕ) (s : List ℕ) (r : List ℕ × List ℕ) → Front (c ∷ s) r → length r.1 ≤ length s
Front-rest c s r (e, n) = omega (arith, ap length e, length-append r.0 r.1)

all_after : (p : ℕ → Bool) (s t : List ℕ) → all p (s ++ t) ≡ true → all p t ≡ true
all_after p [] t h = h
all_after p (c ∷ s) t h = all_after p s t (and_split (p c) (all p (s ++ t)) h).1

-- The words of a chunk of letters and digits, put together, are the chunk: with the chunk's length
-- for fuel the scan reads all of it and drops nothing.
pub tokens_fuel-concat :
    (f : ℕ) (s : List ℕ) → length s ≤ f → all is_alnum s ≡ true → concat (tokens_fuel f s) ≡ s
unfolding tokens_fuel
tokens_fuel-concat zero [] h a = refl
tokens_fuel-concat (suc f) [] h a = refl
tokens_fuel-concat zero (c ∷ s) h a = elim h [ ]
tokens_fuel-concat (suc f) (c ∷ s) h a =
    let front = next_token-Front c s (and_split (is_alnum c) (all is_alnum s) a).0 in
    let short = Front-rest c s (next_token c s) front in
    let rest_alnum = all_after is_alnum (next_token c s).0 (next_token c s).1 (rw front.0 a) in
    ap (λ t. (next_token c s).0 ++ t)
      (tokens_fuel-concat f (next_token c s).1 (omega (arith, short)) rest_alnum)
    ∙ front.0
