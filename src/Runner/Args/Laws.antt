-- ===== src/Runner/Args/Laws.antt =====
-- The modes that a command line gives.
use exasphere.Base.{
  ◌≡◌, refl, ap, subst, true, some, List, [], ◌∷◌, String, ok, raise, ok_injective, Bool-cases, inl,
  inr, eq_iff, if◌then◌else◌,
}
use exasphere.World.{FilePath, path_of}
use exasphere.Runner.Args.{
  proof_mode, fixtures_mode, self_test_mode, Args, Command, Flag, proof_flag, fixtures_flag,
  schema_flag, unknown_flag, flag_of, last_argument, parse_loop, is_self_test, parse_args,
}

-- A proof's path is there in proof mode, and the loop never asks for the self-test.
pub record Ready (args : Args) : Type 0 where
  pub has_proof : args.mode ≡ proof_mode → (path : FilePath) × (args.proof ≡ some path)
  pub not_self_test : args.mode ≡ self_test_mode → ⊥

last_argument-fails :
    (c : Command) (arg : String) (f : Flag) {r : Args} → last_argument c arg f ≡ ok r → ⊥
unfolding last_argument
last_argument-fails c arg unknown_flag h = cc
last_argument-fails c arg _ h = cc

-- A round sets a mode other than the self-test, and the path together with the proof mode.
proof_round :
    (args : Args) (value : String)
    → Ready (record args { mode = proof_mode; proof = some (path_of value) })
proof_round args value = record { has_proof = λ _. (path_of value, refl); not_self_test = λ e. cc }

fixtures_round :
    (args : Args) (value : String)
    → Ready (record args { mode = fixtures_mode; fixtures = path_of value })
fixtures_round args value = record { has_proof = λ e. absurd cc; not_self_test = λ e. cc }

schema_round :
    (args : Args) (value : String) → Ready args → Ready (record args { schema = path_of value })
schema_round args value ready = record {
  has_proof = ready.has_proof;
  not_self_test = ready.not_self_test;
}

-- One round, where the rest of the loop keeps `Ready`.
round-Ready :
    (c : Command) (value : String) (rest : List String) (args : Args) {result : Args}
    → ((args' : Args) → Ready args' → parse_loop c rest args' ≡ ok result → Ready result)
    → Ready args
    → (f : Flag)
    → elim f [
      | proof_flag ↦
          parse_loop c rest (record args { mode = proof_mode; proof = some (path_of value) })
      | fixtures_flag ↦
          parse_loop c rest (record args { mode = fixtures_mode; fixtures = path_of value })
      | schema_flag ↦ parse_loop c rest (record args { schema = path_of value })
      | unknown_flag ↦ raise c.kind c.usage
    ]
      ≡ ok result
    → Ready result
round-Ready c value rest args again ready proof_flag e = again _ (proof_round args value) e
round-Ready c value rest args again ready fixtures_flag e = again _ (fixtures_round args value) e
round-Ready c value rest args again ready schema_flag e = again _ (schema_round args value ready) e
round-Ready c value rest args again ready unknown_flag e = cc

parse_loop-Ready :
    (c : Command) (argv : List String) (args : Args) {result : Args}
    → Ready args
    → parse_loop c argv args ≡ ok result
    → Ready result
unfolding parse_loop
parse_loop-Ready c [] args ready h = subst Ready (ok_injective h) ready
parse_loop-Ready c (arg ∷ []) args ready h =
    absurd (last_argument-fails c arg (flag_of c.takes_schema arg) h)
parse_loop-Ready c (arg ∷ value ∷ rest) args ready h =
    round-Ready c value rest args (λ args' r e. parse_loop-Ready c rest args' r e) ready
      (flag_of c.takes_schema arg) h

-- What the run's three modes rest on: the proof's path is there in proof mode, and the self-test is
-- run on `--self-test` alone.
pub record Sound (argv : List String) (args : Args) : Type 0 where
  pub has_proof : args.mode ≡ proof_mode → (path : FilePath) × (args.proof ≡ some path)
  pub self_test_alone : args.mode ≡ self_test_mode → argv ≡ "--self-test" ∷ []

is_self_test-eq : (argv : List String) → is_self_test argv ≡ true → argv ≡ "--self-test" ∷ []
is_self_test-eq (arg ∷ []) h = ap (λ s. s ∷ []) ((eq_iff arg "--self-test").0 h)
is_self_test-eq [] h = cc
is_self_test-eq (a ∷ b ∷ rest) h = cc

-- A command line that is accepted gives the proof's path whenever the mode is the proof mode, and the
-- self-test mode only for `--self-test` alone; the defaults are those of a run over the fixtures.
pub parse_args-Sound :
    (c : Command) (defaults : Args) (argv : List String) {args : Args}
    → defaults.mode ≡ fixtures_mode
    → parse_args c defaults argv ≡ ok args
    → Sound argv args
unfolding parse_args
parse_args-Sound c defaults argv {args} fixtures h = elim (Bool-cases (is_self_test argv)) [
  | inl self ↦
      let result = ok_injective (
        subst
          (λ b.
            (if b
              then ok (record defaults { mode = self_test_mode })
              else parse_loop c argv defaults)
            ≡ ok args)
          self h) in
      subst (Sound argv) result
        (record { has_proof = λ e. absurd cc; self_test_alone = λ e. is_self_test-eq argv self })
  | inr loop ↦
      let result =
        subst
          (λ b.
            (if b
              then ok (record defaults { mode = self_test_mode })
              else parse_loop c argv defaults)
            ≡ ok args)
          loop h in
      let ready =
        parse_loop-Ready c argv defaults
          (record { has_proof = λ e. absurd cc; not_self_test = λ e. cc }) result in
      record { has_proof = ready.has_proof; self_test_alone = λ e. absurd (ready.not_self_test e) }
]
