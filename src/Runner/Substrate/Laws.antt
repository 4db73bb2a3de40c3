-- ===== src/Runner/Substrate/Laws.antt =====
-- What an accepted proof of a runner's substrate promises.
use exasphere.Base.{
  ℕ, ◌≡◌, refl, ap, subst, ◌++◌, length, drop, ◌∙◌, Bool, true, false, ◌&&◌, ◌||◌, not, Option,
  none, some, List, [], String, str_eq, eq_iff, arith, if◌then◌else◌, guard-eq-ok, ok, drop_value,
  >>-eq-ok, >>=-eq-ok, ok_injective, runner_proof_error, and_split,
}
use exasphere.Text.{codes, in_table, is_prefix}
use exasphere.Sample.Digest.Laws.{is_prefix-eq}
use exasphere.Json.{
  JsonValue, bool, str, arr, obj, Items, nil, cons, JsonObject, get, is_false, is_text,
}
use exasphere.World.{World}
use exasphere.Checks.{list_as, is_empty}
use exasphere.Checks.Laws.{
  text_as-eq-ok, bool_as-eq-ok, object_as-eq-ok, required_text, required_false, when-eq-ok,
  list_as-eq-ok,
}
use exasphere.Runner.Common.{sha_re}
use exasphere.Runner.Substrate.Tuple.{
  SupportedTuple, RealDigest, tuple_release-SupportedTuple, real_digest,
}
use exasphere.Runner.Substrate.{
  Outcome, is_pass, require, text, bool_field, object_field, enum_text, only_fields, safe_path,
  strings, status_path_fields, kernel_fields, root_fields, schema_id, validate_runner,
  validate_environment, validate_protected_review, validate_status_path, placeholder_sha,
  tuple_release, release_or, validate_kernel, is_no_items, outcome_of, validate_data,
}

ensured : (b : Bool) (m : String) → require b m ≡ ok tt → b ≡ true
ensured b m h = guard-eq-ok runner_proof_error b m h

enum_text-eq-ok :
    (v : JsonValue) (table : List String) (context : String) {s : String}
    → enum_text v table context ≡ ok s
    → v ≡ str s
unfolding enum_text
enum_text-eq-ok v table context h =
    let (t, t_ok, h1) = >>=-eq-ok (text v context) _ h in
    let (_, same) = >>-eq-ok (require (in_table t table) _) _ h1 in
    (text_as-eq-ok _ _ _ t_ok).0 ∙ ap str (ok_injective same)

-- The status of a path in the proof.
abbrev pub StatusAt : JsonObject → String → String → Type 0
StatusAt data_ name status =
    (value : JsonObject) × (get data_ name ≡ obj value) × (get value "status" ≡ str status)

validate_status_path-StatusAt :
    (data_ : JsonObject) (name : String) {status : String}
    → validate_status_path data_ name ≡ ok status
    → StatusAt data_ name status
unfolding validate_status_path
validate_status_path-StatusAt data_ name h =
    let (value, value_ok, h1) = >>=-eq-ok (object_field data_ name "proof") _ h in
    let (_, h2) = >>-eq-ok (only_fields value status_path_fields name) _ h1 in
    let (_, h3) = >>-eq-ok (drop_value (safe_path (get value "path") _)) _ h2 in
    let (status, status_ok, h4) = >>=-eq-ok (enum_text (get value "status") _ _) _ h3 in
    let (_, h5) =
      >>-eq-ok
        (if str_eq status "available" && str_eq name "qemu"
          then drop_value (text (get value "version") "qemu.version")
          else ok tt)
        _ h4 in
    let (_, h6) =
      >>-eq-ok
        (if str_eq status "unavailable"
          then drop_value (text (get value "unavailable_reason") _)
          else ok tt)
        _ h5 in
    (
      value,
      object_as-eq-ok _ _ _ value_ok,
      enum_text-eq-ok _ _ _ status_ok ∙ ap str (ok_injective h6),
    )

-- The kernel of a passing proof: its release begins with the one of its supported tuple, BTF and
-- sched_ext are there, and the digest of its configuration is a real one.
pub record PassingKernel (kernel : JsonObject) : Type 0 where
  pub supported : String
  pub tuple : List ℕ
  pub release : String
  pub config_sha : String
  pub supported_stands : get kernel "supported_tuple" ≡ str supported
  pub tuple_stands : SupportedTuple supported tuple
  pub release_stands : get kernel "release" ≡ str release
  pub rest : List ℕ
  pub release_begins : codes release ≡ tuple ++ rest
  pub config_stands : get kernel "config_sha256" ≡ str config_sha
  pub config_is_real : RealDigest config_sha
  pub btf_available : get kernel "btf_available" ≡ bool true
  pub sched_ext_available : get kernel "sched_ext_available" ≡ bool true

release_or-eq-ok : (o : Option (List ℕ)) {r : List ℕ} → release_or o ≡ ok r → o ≡ some r
unfolding release_or
release_or-eq-ok (some r) h = ap some (ok_injective h)
release_or-eq-ok none h = cc

real_config : (p o u : Bool) → (not p || (not o && u)) ≡ true → o ≡ true → p ≡ false
real_config p o u h e = ground arith

-- The kernel of an accepted proof that passes has a supported tuple that is a release of the known
-- pattern between the tuple's two fixed ends, and a release that begins with it; a configuration digest
-- of 64 lowercase hexadecimal digits that are neither all zeros nor all ones; BTF and sched_ext.
pub validate_kernel-PassingKernel :
    (data_ : JsonObject) (outcome : Outcome) (reasons : List String)
    → is_pass outcome ≡ true
    → validate_kernel data_ outcome reasons ≡ ok tt
    → (kernel : JsonObject) × (get data_ "kernel_tuple" ≡ obj kernel) × PassingKernel kernel
unfolding validate_kernel
validate_kernel-PassingKernel data_ outcome reasons passes h =
    let (kernel, kernel_ok, h1) = >>=-eq-ok (object_field data_ "kernel_tuple" "proof") _ h in
    let (_, h2) = >>-eq-ok (only_fields kernel kernel_fields "kernel_tuple") _ h1 in
    let (supported, supported_ok, h3) = >>=-eq-ok (text (get kernel "supported_tuple") _) _ h2 in
    let (tuple, tuple_ok, h4) = >>=-eq-ok (release_or (tuple_release supported)) _ h3 in
    let (release, release_ok, h5) = >>=-eq-ok (text (get kernel "release") _) _ h4 in
    let (_, h6) = >>-eq-ok (require (is_text "x86_64" (get kernel "arch")) _) _ h5 in
    let (config, config_ok, h7) = >>=-eq-ok (text (get kernel "config_sha256") _) _ h6 in
    let (digest_ok, h8) = >>-eq-ok (require (sha_re config) _) _ h7 in
    let unavailable = in_table "kernel config metadata unavailable or placeholder" reasons in
    let (real, h9) =
      >>-eq-ok (require (not (placeholder_sha config) || (not (is_pass outcome) && unavailable)) _)
        _ h8 in
    let (btf, btf_ok, h10) = >>=-eq-ok (bool_field (get kernel "btf_available") _) _ h9 in
    let (ext, ext_ok, h11) = >>=-eq-ok (bool_field (get kernel "sched_ext_available") _) _ h10 in
    let last = when-eq-ok (is_pass outcome) _ h11 passes in
    let (matches, last1) = >>-eq-ok (require (is_prefix tuple (codes release)) _) _ last in
    let (btf_true, ext_true) = >>-eq-ok (require btf _) _ last1 in
    (
      kernel,
      object_as-eq-ok _ _ _ kernel_ok,
      record {
        supported = supported;
        tuple = tuple;
        release = release;
        config_sha = config;
        supported_stands = (text_as-eq-ok _ _ _ supported_ok).0;
        tuple_stands = tuple_release-SupportedTuple supported (release_or-eq-ok _ tuple_ok);
        release_stands = (text_as-eq-ok _ _ _ release_ok).0;
        rest = drop (length tuple) (codes release);
        release_begins = is_prefix-eq tuple (codes release) (ensured _ _ matches);
        config_stands = (text_as-eq-ok _ _ _ config_ok).0;
        config_is_real =
            real_digest config (ensured _ _ digest_ok)
              (real_config (placeholder_sha config) _ unavailable (ensured _ _ real) passes);
        btf_available = bool_as-eq-ok _ _ _ btf_ok ∙ ap bool (ensured _ _ btf_true);
        sched_ext_available = bool_as-eq-ok _ _ _ ext_ok ∙ ap bool (ensured _ _ ext_true);
      },
    )

-- A proof of a substrate that passes.
pub record PassingSubstrate (data_ : JsonObject) : Type 0 where
  pub qemu : StatusAt data_ "qemu" "available"
  pub dev_kvm : StatusAt data_ "dev_kvm" "available"
  pub accel : get data_ "accel_mode" ≡ str "kvm"
  pub no_reasons : get data_ "unavailable_reasons" ≡ arr nil
  pub kernel : JsonObject
  pub kernel_stands : get data_ "kernel_tuple" ≡ obj kernel
  pub passing_kernel : PassingKernel kernel

-- A proof that was accepted, whatever its outcome.
pub record AcceptedSubstrate (data_ : JsonObject) : Type 0 where
  pub names_schema : get data_ "schema" ≡ str schema_id
  pub no_host_mutation : get data_ "host_mutation" ≡ bool false
  pub not_release_eligible : get data_ "release_eligible" ≡ bool false
  pub no_capacity_claim : get data_ "production_capacity_claim" ≡ bool false
  pub passing : get data_ "proof_outcome" ≡ str "PASS" → PassingSubstrate data_

implied : (p b : Bool) → (not p || b) ≡ true → p ≡ true → b ≡ true
implied p b h e = ground arith

no_items : (vs : Items) → is_no_items vs ≡ true → vs ≡ nil
no_items nil h = refl
no_items (cons v vs) h = cc

is_pass-outcome_of :
    (v : JsonValue) (raw : String) → v ≡ str raw → v ≡ str "PASS" → is_pass (outcome_of raw) ≡ true
is_pass-outcome_of v raw p q = subst (λ s. is_pass (outcome_of s) ≡ true) same refl
  where
    same : "PASS" ≡ raw
    same = cc

-- The checks that decide a PASS, from the outcome on.
pass_checks :
    (data_ : JsonObject) (outcome : Outcome) (qemu kvm accel : String) (reasons : Items)
    → is_pass outcome ≡ true
    → StatusAt data_ "qemu" qemu
    → StatusAt data_ "dev_kvm" kvm
    → get data_ "accel_mode" ≡ str accel
    → get data_ "unavailable_reasons" ≡ arr reasons
    → (not (is_pass outcome) || (str_eq qemu "available" && str_eq kvm "available")) ≡ true
    → (not (is_pass outcome) || str_eq accel "kvm") ≡ true
    → (not (is_pass outcome) || is_no_items reasons) ≡ true
    → (kernel : JsonObject) × (get data_ "kernel_tuple" ≡ obj kernel) × PassingKernel kernel
    → PassingSubstrate data_
pass_checks data_ outcome qemu kvm accel reasons passes q k a r both is_kvm none_left kernel =
    let (is_qemu, is_dev_kvm) = and_split _ _ (implied (is_pass outcome) _ both passes) in
    record {
      qemu = subst (StatusAt data_ "qemu") ((eq_iff qemu "available").0 is_qemu) q;
      dev_kvm = subst (StatusAt data_ "dev_kvm") ((eq_iff kvm "available").0 is_dev_kvm) k;
      accel = a ∙ ap str ((eq_iff accel "kvm").0 (implied (is_pass outcome) _ is_kvm passes));
      no_reasons = r ∙ ap arr (no_items reasons (implied (is_pass outcome) _ none_left passes));
      kernel = kernel.0;
      kernel_stands = kernel.1;
      passing_kernel = kernel.2;
    }

-- An accepted proof names the schema and mutates no host, is not eligible for release and claims no
-- capacity; where it passes, qemu and /dev/kvm are available, the acceleration is KVM, no reason for
-- unavailability is left, and the kernel is a `PassingKernel`.
pub validate_data-AcceptedSubstrate :
    (w : World) (data_ : JsonObject) (context : String)
    → validate_data w data_ context ≡ ok tt
    → AcceptedSubstrate data_
unfolding validate_data
validate_data-AcceptedSubstrate w data_ context h =
    let (_, h1) = >>-eq-ok (only_fields data_ root_fields context) _ h in
    let (schema_ok, h2) = >>-eq-ok (require (is_text schema_id (get data_ "schema")) _) _ h1 in
    let (mutation, h3) = >>-eq-ok (require (is_false (get data_ "host_mutation")) _) _ h2 in
    let (eligible, h4) = >>-eq-ok (require (is_false (get data_ "release_eligible")) _) _ h3 in
    let (capacity, h5) =
      >>-eq-ok (require (is_false (get data_ "production_capacity_claim")) _) _ h4 in
    let (raw, raw_ok, h6) = >>=-eq-ok (enum_text (get data_ "proof_outcome") _ _) _ h5 in
    let o = outcome_of raw in
    let (_, h7) = >>-eq-ok (validate_runner data_ o) _ h6 in
    let (_, h8) = >>-eq-ok (validate_environment data_ o) _ h7 in
    let (_, h9) = >>-eq-ok (validate_protected_review w data_ o) _ h8 in
    let (qemu, qemu_ok, h10) = >>=-eq-ok (validate_status_path data_ "qemu") _ h9 in
    let (kvm, kvm_ok, h11) = >>=-eq-ok (validate_status_path data_ "dev_kvm") _ h10 in
    let (accel, accel_ok, h12) = >>=-eq-ok (enum_text (get data_ "accel_mode") _ _) _ h11 in
    let both = str_eq qemu "available" && str_eq kvm "available" in
    let (_, h13) = >>-eq-ok (require (not (str_eq accel "kvm") || both) _) _ h12 in
    let (both_ok, h14) = >>-eq-ok (require (not (is_pass o) || both) _) _ h13 in
    let (is_kvm, h15) = >>-eq-ok (require (not (is_pass o) || str_eq accel "kvm") _) _ h14 in
    let (items_, items_ok, h16) =
      >>=-eq-ok (list_as runner_proof_error (get data_ "unavailable_reasons") _) _ h15 in
    let (reasons, _, h17) = >>=-eq-ok (if is_pass o then ok [] else strings (arr items_) _) _ h16 in
    let (none_left, h18) = >>-eq-ok (require (not (is_pass o) || is_no_items items_) _) _ h17 in
    let (_, h19) = >>-eq-ok (require (is_pass o || not (is_empty reasons)) _) _ h18 in
    let (kernel_ok, _) = >>-eq-ok (validate_kernel data_ o reasons) _ h19 in
    record {
      names_schema = required_text _ _ _ _ schema_ok;
      no_host_mutation = required_false _ _ _ mutation;
      not_release_eligible = required_false _ _ _ eligible;
      no_capacity_claim = required_false _ _ _ capacity;
      passing = λ outcome_pass.
          let passes = is_pass-outcome_of _ raw (enum_text-eq-ok _ _ _ raw_ok) outcome_pass in
          pass_checks data_ o qemu kvm accel items_ passes
            (validate_status_path-StatusAt _ _ qemu_ok) (validate_status_path-StatusAt _ _ kvm_ok)
            (enum_text-eq-ok _ _ _ accel_ok) (list_as-eq-ok _ _ _ items_ok) (ensured _ _ both_ok)
            (ensured _ _ is_kvm) (ensured _ _ none_left)
            (validate_kernel-PassingKernel data_ o reasons passes kernel_ok);
    }
