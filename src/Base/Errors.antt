-- ===== src/Base/Errors.antt =====
-- Python's exceptions as values. Each checker has one exception class of its own; `key_error`,
-- `value_error`, `os_error`, `json_decode_error`, `type_error`, `overflow_error` and
-- `recursion_error` are the interpreter's.
use Prim.Native.String.{String, ◌++◌ as ◌+s◌}
use mathlib.Core.Path.{◌≡◌, refl}
use mathlib.Core.Logic.{◌↔◌, ◌⊎◌, inl, inr}
use mathlib.Core.Bool.{Bool, true, false}
use mathlib.Core.List.{List, [], ◌∷◌}

pub data ErrorKind : Type 0 where
  runtime_sample_error policy_abi_error matrix_run_contract_error : ErrorKind
  audit_ledger_error runner_proof_error runner_cleanliness_error : ErrorKind
  protected_review_error contract_error contract_pack_error : ErrorKind
  live_behavior_error partial_attach_error observe_summary_error evidence_safety_error : ErrorKind
  benchmark_output_error benchmark_provenance_error freshness_error verifier_log_error : ErrorKind
  key_error value_error os_error json_decode_error type_error overflow_error : ErrorKind
  recursion_error : ErrorKind

pub record Error : Type 0 where
  pub kind : ErrorKind
  pub message : String

pub data Result {ℓ} (A : Type ℓ) : Type ℓ where
  ok : A → Result A
  err : Error → Result A

abbrev pub raise {ℓ} : {A : Type ℓ} → ErrorKind → String → Result A
raise k m = err (record { kind = k; message = m })

infixl 5 ◌>>=◌ ◌>>◌
abbrev pub ◌>>=◌ {ℓ κ} : {A : Type ℓ} {B : Type κ} → Result A → (A → Result B) → Result B
err raised >>= rest = err raised
ok value >>= rest = rest value

abbrev pub ◌>>◌ {ℓ} : {B : Type ℓ} → Result (Unit {0}) → Result B → Result B
step >> rest = step >>= λ _. rest

-- A call whose value the code drops (`_ = f(...)`).
abbrev pub drop_value {ℓ} : {A : Type ℓ} → Result A → Result (Unit {0})
drop_value (ok a) = ok tt
drop_value (err e) = err e

-- `if not condition: raise Kind(message)`
unfoldable pub guard : ErrorKind → Bool → String → Result (Unit {0})
guard k true m = ok tt
guard k false m = raise k m

-- The join of texts, shut: messages are opaque to the tactics.
infixr 66 ◌<>◌
unfoldable pub ◌<>◌ : String → String → String
s <> t = s +s t

-- `for x in xs: f(x)`
unfoldable pub for_each {ℓ} : {A : Type ℓ} → List A → (A → Result (Unit {0})) → Result (Unit {0})
for_each [] f = ok tt
for_each (x ∷ xs) f = f x >> for_each xs f

pub guard-eq-ok : (k : ErrorKind) (b : Bool) (m : String) → guard k b m ≡ ok tt → b ≡ true
unfolding guard
guard-eq-ok k true m h = refl
guard-eq-ok k false m h = cc

pub guard-true : (k : ErrorKind) (m : String) → guard k true m ≡ ok tt
unfolding guard
guard-true k m = refl

pub guard_iff : (k : ErrorKind) (b : Bool) (m : String) → (guard k b m ≡ ok tt) ↔ (b ≡ true)
guard_iff k b m = (guard-eq-ok k b m, λ p. rw p (guard-true k m))

-- A block that returns: what its first step returned, and that the rest of it returned.
pub >>=-eq-ok {ℓ κ} :
    {A : Type ℓ} {B : Type κ} (step : Result A) (rest : A → Result B) {returned : B}
    → (step >>= rest) ≡ ok returned
    → (value : A) × (step ≡ ok value) × (rest value ≡ ok returned)
>>=-eq-ok (err raised) rest stopped = cc
>>=-eq-ok (ok value) rest went_on = (value, refl, went_on)

pub >>-eq-ok {ℓ} :
    {B : Type ℓ} (step : Result (Unit {0})) (rest : Result B) {returned : B}
    → (step >> rest) ≡ ok returned
    → (step ≡ ok tt) × (rest ≡ ok returned)
>>-eq-ok (err raised) rest stopped = cc
>>-eq-ok (ok tt) rest went_on = (refl, went_on)

-- And back: steps that returned make a block that returns.
pub >>-ok {ℓ} :
    {B : Type ℓ} (step : Result (Unit {0})) (rest : Result B) {returned : Result B}
    → step ≡ ok tt
    → rest ≡ returned
    → (step >> rest) ≡ returned
>>-ok (err raised) rest stopped went_on = cc
>>-ok (ok tt) rest passed went_on = went_on

pub drop_value-eq-ok {ℓ} : {A : Type ℓ} (m : Result A) → drop_value m ≡ ok tt → (a : A) × (m ≡ ok a)
drop_value-eq-ok (ok a) h = (a, refl)
drop_value-eq-ok (err e) h = cc

module _ {ℓ} {A : Type ℓ} where
  pub Result-cases :
      (outcome : Result A)
      → ((value : A) × (outcome ≡ ok value)) ⊎ ((raised : Error) × (outcome ≡ err raised))
  Result-cases (err raised) = inr (raised, refl)
  Result-cases (ok value) = inl (value, refl)

pub ok_injective {ℓ} : {A : Type ℓ} {a b : A} → ok a ≡ ok b → a ≡ b
ok_injective h = cc
