-- ===== src/Runner/Common.antt =====
-- qa/runner_substrate_proof_common.py, and the patterns and reads that the substrate and the
-- cleanliness checker both have.
use exasphere.Base.{
  Bool, ◌&&◌, String, ◌==◌, Result, ok, ◌>>=◌, ◌>>◌, ◌<>◌, guard, ErrorKind, length, all,
  runner_proof_error,
}
use exasphere.Text.{codes, is_hex}
use exasphere.Text.Regex.{seq, literal, plus, one_of, is_digit, is_dot, fullmatch}
use exasphere.Json.{JsonValue, JsonObject}
use exasphere.World.{World, FilePath, safe_path_re}
use exasphere.Checks.{load_object_as, text_as}

unfoldable pub load_json_object : World → FilePath → Result JsonObject
load_json_object w path = load_object_as runner_proof_error w path

-- SHA_RE, `^[0-9a-f]{64}$`
unfoldable pub sha_re : String → Bool
unfolding codes
sha_re s = length (codes s) == 64 && all is_hex (codes s)

-- RUN_URL_RE, `^https://github\.com/.+/actions/runs/[0-9]+$`
unfoldable pub run_url_re : String → Bool
unfolding codes fullmatch
run_url_re s =
    fullmatch
      (seq (literal (codes "https://github.com/")) (
        seq (plus (one_of is_dot))
          (seq (literal (codes "/actions/runs/")) (plus (one_of is_digit)))))
      (codes s)

-- `safe_path` with its exception class: the text, which is the path's.
unfoldable pub safe_path_as : ErrorKind → JsonValue → String → Result String
safe_path_as k value context = do
  raw ← text_as k value context
  guard k (safe_path_re raw) (context <> " must be relative and non-traversing: " <> raw)
  ok raw
