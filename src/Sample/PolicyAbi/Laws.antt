-- ===== src/Sample/PolicyAbi/Laws.antt =====
-- What the policy ABI contract promises of the metadata that it accepts.
use exasphere.Base.{
  ◌≡◌, ap, ◌∙◌, Bool, true, false, not, String, arith, Result, ok, guard, guard-eq-ok, >>-eq-ok,
  >>=-eq-ok, policy_abi_error, if◌then◌else◌, ok_injective,
}
use exasphere.Json.{JsonValue, bool, JsonObject, get, is_null}
use exasphere.Sample.PolicyAbi.{
  require_string, require_bool, require_int, validate_v3_policy_abi, validate_policy_abi_contract,
  bool_or,
}

require_bool-eq-ok :
    (data_ : JsonObject) (name context : String) {b : Bool}
    → require_bool data_ name context ≡ ok b
    → get data_ name ≡ bool b
unfolding require_bool
require_bool-eq-ok data_ name context h = of_value (get data_ name) _ h
  where
    of_value : (v : JsonValue) (m : String) {b : Bool} → bool_or v m ≡ ok b → v ≡ bool b
    of_value (bool b) m h = ap bool (ok_injective h)
    of_value _ m h = cc

ensure_bool :
    (data_ : JsonObject) (name context m : String) {b : Bool} (want : Bool)
    → require_bool data_ name context ≡ ok b
    → b ≡ want
    → get data_ name ≡ bool want
ensure_bool data_ name context m want h e = require_bool-eq-ok data_ name context h ∙ ap bool e

ensured : (b : Bool) (m : String) → guard policy_abi_error b m ≡ ok tt → b ≡ true
ensured b m h = guard-eq-ok policy_abi_error b m h

refuted : (b : Bool) (m : String) → guard policy_abi_error (not b) m ≡ ok tt → b ≡ false
refuted b m h = flip b (guard-eq-ok policy_abi_error (not b) m h)
  where
    flip : (b : Bool) → not b ≡ true → b ≡ false
    flip b p = ground arith

-- The flags of metadata that names an ABI version.
pub record SafeFlags (abi : JsonObject) : Type 0 where
  pub vm_only : get abi "vm_only" ≡ bool true
  pub host_mutation : get abi "host_mutation" ≡ bool false
  pub production_claim : get abi "production_claim" ≡ bool false
  pub release_eligible : get abi "release_eligible" ≡ bool false

v3-SafeFlags :
    (abi : JsonObject) (context : String)
    → validate_v3_policy_abi abi context ≡ ok tt
    → SafeFlags abi
unfolding validate_v3_policy_abi
v3-SafeFlags abi context h =
    let (version, _, h1) = >>=-eq-ok (require_string abi "policy_version" context) _ h in
    let (_, h2) = >>-eq-ok _ _ h1 in
    let (number, _, h3) = >>=-eq-ok (require_int abi "abi_version" context) _ h2 in
    let (_, h4) = >>-eq-ok _ _ h3 in
    let (label, _, h5) = >>=-eq-ok (require_string abi "abi_label" context) _ h4 in
    let (_, h6) = >>-eq-ok _ _ h5 in
    let (vm, vm_ok, h7) = >>=-eq-ok (require_bool abi "vm_only" context) _ h6 in
    let (vm_true, h8) = >>-eq-ok _ _ h7 in
    let (host, host_ok, h9) = >>=-eq-ok (require_bool abi "host_mutation" context) _ h8 in
    let (host_false, h10) = >>-eq-ok _ _ h9 in
    let (claim, claim_ok, h11) = >>=-eq-ok (require_bool abi "production_claim" context) _ h10 in
    let (claim_false, h12) = >>-eq-ok _ _ h11 in
    let (release, release_ok, h13) =
      >>=-eq-ok (require_bool abi "release_eligible" context) _ h12 in
    let (release_false, _) = >>-eq-ok _ _ h13 in
    record {
      vm_only = require_bool-eq-ok abi _ _ vm_ok ∙ ap bool (ensured vm _ vm_true);
      host_mutation = require_bool-eq-ok abi _ _ host_ok ∙ ap bool (refuted host _ host_false);
      production_claim =
          require_bool-eq-ok abi _ _ claim_ok ∙ ap bool (refuted claim _ claim_false);
      release_eligible =
          require_bool-eq-ok abi _ _ release_ok ∙ ap bool (refuted release _ release_false);
    }

-- Accepted metadata that names an ABI version claims to run in the VM only, to change nothing on the
-- host, no production use and no release.
pub validate_policy_abi_contract-SafeFlags :
    (abi : JsonObject) (context : String)
    → is_null (get abi "abi_version") ≡ false
    → validate_policy_abi_contract abi context ≡ ok tt
    → SafeFlags abi
unfolding validate_policy_abi_contract
validate_policy_abi_contract-SafeFlags abi context named h =
    let (_, h1) = >>-eq-ok _ _ h in
    let (_, h2) = >>-eq-ok _ _ h1 in v3-SafeFlags abi context (taken named h2)
  where
    taken :
        {b : Bool} {m : Result (Unit {0})}
        → b ≡ false
        → (if b then ok tt else m) ≡ ok tt
        → m ≡ ok tt
    taken p q = ground arith
