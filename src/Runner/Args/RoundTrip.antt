-- ===== src/Runner/Args/RoundTrip.antt =====
-- The command lines of the runner checkers, printed and parsed back.
use exasphere.Base.{
  ◌≡◌, refl, Bool, true, false, ◌&&◌, some, List, [], ◌∷◌, String, ok, ErrorKind, ◌∙◌, and_split,
}
use exasphere.World.{path_of}
use exasphere.Runner.Args.{
  Args, proof_mode, fixtures_mode, Command, is_self_test, parse_loop, parse_args,
}

-- An option with its value.
pub data Setting : Type 0 where
  proof_at fixtures_at schema_at : String → Setting

-- The command line of the options, in order.
abbrev pub render : List Setting → List String
render [] = []
render (proof_at value ∷ settings) = "--proof" ∷ value ∷ render settings
render (fixtures_at value ∷ settings) = "--fixtures" ∷ value ∷ render settings
render (schema_at value ∷ settings) = "--schema" ∷ value ∷ render settings

-- What the options mean, later ones last.
abbrev pub apply : List Setting → Args → Args
apply [] args = args
apply (proof_at value ∷ settings) args =
    apply settings (record args { mode = proof_mode; proof = some (path_of value) })
apply (fixtures_at value ∷ settings) args =
    apply settings (record args { mode = fixtures_mode; fixtures = path_of value })
apply (schema_at value ∷ settings) args = apply settings (record args { schema = path_of value })

-- Whether a command knows the options.
abbrev pub is_known : Command → List Setting → Bool
is_known c [] = true
is_known c (schema_at value ∷ settings) = c.takes_schema && is_known c settings
is_known c (setting ∷ settings) = is_known c settings

schema_round :
    (k : ErrorKind) (takes : Bool) (usage value : String) (rest : List String) (args : Args)
    → takes ≡ true
    → parse_loop
        (record { kind = k; takes_schema = takes; usage = usage })
        ("--schema" ∷ value ∷ rest)
        args
      ≡ parse_loop
          (record { kind = k; takes_schema = takes; usage = usage })
          rest
          (record args { schema = path_of value })
unfolding parse_loop
schema_round k true usage value rest args h = refl
schema_round k false usage value rest args h = cc

loop-render :
    (c : Command) (settings : List Setting) (args : Args)
    → is_known c settings ≡ true
    → parse_loop c (render settings) args ≡ ok (apply settings args)
unfolding parse_loop
loop-render c [] args known = refl
loop-render c (proof_at value ∷ settings) args known = loop-render c settings _ known
loop-render c (fixtures_at value ∷ settings) args known = loop-render c settings _ known
loop-render c (schema_at value ∷ settings) args known =
    let (takes, others) = and_split c.takes_schema (is_known c settings) known in
    schema_round c.kind c.takes_schema c.usage value (render settings) args takes
    ∙ loop-render c settings (record args { schema = path_of value }) others

no_self_test : (settings : List Setting) → is_self_test (render settings) ≡ false
no_self_test [] = refl
no_self_test (proof_at value ∷ settings) = refl
no_self_test (fixtures_at value ∷ settings) = refl
no_self_test (schema_at value ∷ settings) = refl

-- Options that the command knows, printed as a command line, are parsed to what they mean, the later
-- ones over the earlier and the defaults.
pub parse_args-render :
    (c : Command) (defaults : Args) (settings : List Setting)
    → is_known c settings ≡ true
    → parse_args c defaults (render settings) ≡ ok (apply settings defaults)
unfolding parse_args
parse_args-render c defaults settings known =
    rw (no_self_test settings) (loop-render c settings defaults known)
