-- ===== src/Checks/Distinct.antt =====
-- Loops that refuse what they have seen: `if x in seen: raise ...; seen.add(x)`.
use exasphere.Base.{
  ◌≡◌, refl, sym, Bool, false, ◌||◌, List, [], ◌∷◌, String, str_eq, eq_iff, arith, All, Bool-cases,
  inl, inr,
}
use exasphere.Text.{in_table}

-- No text stands twice.
abbrev pub Distinct : List String → Type 0
Distinct [] = Unit
Distinct (s ∷ ss) = (in_table s ss ≡ false) × Distinct ss

str_eq_sym : (s t : String) → str_eq s t ≡ false → str_eq t s ≡ false
str_eq_sym s t h = elim (Bool-cases (str_eq t s)) [
  | inl e ↦ absurd (differ ((eq_iff t s).0 e) h)
  | inr e ↦ e
]
  where
    differ : t ≡ s → str_eq s t ≡ false → ⊥
    differ p h = cc ((eq_iff s t).1 (sym p))

abbrev pub Unseen : List String → List String → Type 0
Unseen seen = All (λ s. in_table s seen ≡ false)

or_false : (a b : Bool) → (a || b) ≡ false → (a ≡ false) × (b ≡ false)
or_false a b h = ground arith

pub Unseen-tail :
    (a : String) (seen ids : List String)
    → Unseen (a ∷ seen) ids
    → (in_table a ids ≡ false) × Unseen seen ids
Unseen-tail a seen [] h = (refl, tt)
Unseen-tail a seen (s ∷ ids) (h, rest) =
    let (other, unseen) = or_false (str_eq s a) (in_table s seen) h in
    let (tail_new, tail_unseen) = Unseen-tail a seen ids rest in
    (rw (str_eq_sym s a other) tail_new, (unseen, tail_unseen))
