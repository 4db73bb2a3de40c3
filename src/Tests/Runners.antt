-- ===== src/Tests/Runners.antt =====
-- Command lines of the runner checkers, and a kernel that passes.
use exasphere.Base.{◌≡◌, refl, true, List, [], ◌∷◌, String, some, ok, guard}
use exasphere.Text.{codes, is_prefix}
use exasphere.Text.Digits.{digit}
use exasphere.Text.Regex.{fullmatch}
use exasphere.Json.{JsonObject, end, field, str, bool, obj, get}
use exasphere.Checks.{only_fields_as, sorted, without, text_as, bool_as, object_as}
use exasphere.Runner.Common.{sha_re}
use exasphere.Runner.Substrate.{pass, validate_kernel, tuple_release}
use exasphere.Runner.Substrate.Laws.{PassingKernel, validate_kernel-PassingKernel}
use exasphere.World.{path_of}
use exasphere.Runner.Args.{proof_mode, Args, parse_loop, parse_args, substrate, substrate_defaults}
use exasphere.Runner.Args.RoundTrip.{Setting, proof_at, schema_at, render, apply, parse_args-render}
use exasphere.Runner.Args.Laws.{Sound, parse_args-Sound}

abbrev line : List String
line = "--proof" ∷ "p.json" ∷ "--schema" ∷ "s.json" ∷ []

abbrev parsed : Args
parsed = record substrate_defaults {
  mode = proof_mode;
  proof = some (path_of "p.json");
  schema = path_of "s.json";
}

line_runs : parse_args substrate substrate_defaults line ≡ ok parsed
unfolding parse_args parse_loop
line_runs = refl

parse_args-Sound_example : Sound line parsed
parse_args-Sound_example = parse_args-Sound substrate substrate_defaults line refl line_runs

abbrev kernel : JsonObject
kernel = field "supported_tuple" (str "linux-6.12-x86_64-sched_ext-bpf-bpf_jit-btf-vm_lab_only") (
    field "release" (str "6.12.4") (
      field "arch" (str "x86_64") (
        field "config_sha256"
          (str "0123456789abcdef0123456789abcdef0123456789abcdef0123456789abcdef")
          (field "btf_available" (bool true) (field "sched_ext_available" (bool true) end)))))

abbrev proof_data : JsonObject
proof_data = field "kernel_tuple" (obj kernel) end

kernel_runs : validate_kernel proof_data pass [] ≡ ok tt
unfolding validate_kernel tuple_release sha_re only_fields_as without sorted text_as bool_as
    object_as get codes is_prefix fullmatch digit guard
kernel_runs = refl

validate_kernel-PassingKernel_example :
    (k : JsonObject) × (get proof_data "kernel_tuple" ≡ obj k) × PassingKernel k
validate_kernel-PassingKernel_example =
    validate_kernel-PassingKernel proof_data pass [] refl kernel_runs

abbrev settings : List Setting
settings = proof_at "p.json" ∷ schema_at "s.json" ∷ []

parse_args-render_example :
    parse_args substrate substrate_defaults (render settings)
    ≡ ok (apply settings substrate_defaults)
parse_args-render_example = parse_args-render substrate substrate_defaults settings refl
