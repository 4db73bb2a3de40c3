-- ===== src/Runner/Args.antt =====
-- The command lines of qa/runner_substrate_proof_check.py and qa/runner_cleanliness_proof_check.py:
-- `parse_args`. The cleanliness checker has no `--schema`.
pub mod Laws
pub mod RoundTrip
use exasphere.Base.{
  Bool, true, false, Option, none, some, List, [], ◌∷◌, String, str_eq, if◌then◌else◌, ErrorKind,
  Result, ok, raise, ◌<>◌, runner_proof_error, runner_cleanliness_error,
}
use exasphere.World.{FilePath, path_of}

pub data Mode : Type 0 where
  proof_mode fixtures_mode self_test_mode : Mode

pub record Args : Type 0 where
  pub mode : Mode
  pub proof : Option FilePath
  pub fixtures : FilePath
  pub schema : FilePath

-- What an argument asks for.
pub data Flag : Type 0 where
  proof_flag fixtures_flag schema_flag unknown_flag : Flag

abbrev pub flag_of : Bool → String → Flag
flag_of takes_schema arg =
    if str_eq arg "--proof"
    then proof_flag
    else if str_eq arg "--fixtures"
    then fixtures_flag
    else if str_eq arg "--schema"
    then if takes_schema then schema_flag else unknown_flag
    else unknown_flag

-- What distinguishes the two command lines: the exception, `--schema`, and the usage text.
pub record Command : Type 0 where
  pub kind : ErrorKind
  pub takes_schema : Bool
  pub usage : String

-- The last argument: a flag with no value after it, or an unknown argument.
last_argument : Command → String → Flag → Result Args
last_argument c arg unknown_flag = raise c.kind c.usage
last_argument c arg _ = raise c.kind (arg <> " requires a path")

-- The `while` loop, two arguments a round.
unfoldable pub parse_loop : Command → List String → Args → Result Args
unfolding last_argument
parse_loop c [] args = ok args
parse_loop c (arg ∷ []) args = last_argument c arg (flag_of c.takes_schema arg)
parse_loop c (arg ∷ value ∷ rest) args = elim (flag_of c.takes_schema arg) [
  | proof_flag ↦ parse_loop c rest (record args { mode = proof_mode; proof = some (path_of value) })
  | fixtures_flag ↦
      parse_loop c rest (record args { mode = fixtures_mode; fixtures = path_of value })
  | schema_flag ↦ parse_loop c rest (record args { schema = path_of value })
  | unknown_flag ↦ raise c.kind c.usage
]

abbrev pub is_self_test : List String → Bool
is_self_test (arg ∷ []) = str_eq arg "--self-test"
is_self_test _ = false

unfoldable pub parse_args : Command → Args → List String → Result Args
unfolding parse_loop
parse_args c defaults argv =
    if is_self_test argv
    then ok (record defaults { mode = self_test_mode })
    else parse_loop c argv defaults

abbrev pub substrate : Command
substrate = record {
  kind = runner_proof_error;
  takes_schema = true;
  usage =
      "usage: runner_substrate_proof_check.py --self-test | --proof <path> [--schema <path>] | [--fixtures <dir>] [--schema <path>]";
}

abbrev pub substrate_defaults : Args
substrate_defaults = record {
  mode = fixtures_mode;
  proof = none;
  fixtures = path_of "fixtures/runner-substrate-proof";
  schema = path_of "schemas/control/runner-substrate-proof.v1.schema.json";
}

unfoldable pub parse_substrate_args : List String → Result Args
parse_substrate_args argv = parse_args substrate substrate_defaults argv

abbrev cleanliness : Command
cleanliness = record {
  kind = runner_cleanliness_error;
  takes_schema = false;
  usage =
      "usage: runner_cleanliness_proof_check.py --self-test | --proof <path> | --fixtures <dir>";
}

-- The schema is the checker's constant SCHEMA_PATH.
abbrev cleanliness_defaults : Args
cleanliness_defaults = record {
  mode = fixtures_mode;
  proof = none;
  fixtures = path_of "fixtures/runner-cleanliness-proof";
  schema = path_of "schemas/control/runner-cleanliness-proof.v1.schema.json";
}

unfoldable pub parse_cleanliness_args : List String → Result Args
parse_cleanliness_args argv = parse_args cleanliness cleanliness_defaults argv
