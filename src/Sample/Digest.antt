-- ===== src/Sample/Digest.antt =====
-- qa/runtime_sample_digest.py: redacted digest summaries.
pub mod Laws
use exasphere.Base.{
  ℕ, ◌+◌, Bool, true, false, ◌&&◌, not, List, String, leb, if◌then◌else◌, length, take, drop, all,
}
use exasphere.Text.{codes, is_hex, is_prefix}
use exasphere.Text.Digits.{is_decimal}
use exasphere.Sample.Tokens.{same_text}

abbrev pub digest_prefix : String
digest_prefix = "sha256:"

abbrev pub bytes_prefix : String
bytes_prefix = ";bytes:"

abbrev pub sha256_hex_len : ℕ
sha256_hex_len = 64

-- Over code points.
unfoldable pub is_digest_codes : List ℕ → Bool
unfolding is_prefix same_text codes
is_digest_codes value =
    let digest_start = length (codes digest_prefix) in
    let digest_end = digest_start + sha256_hex_len in
    let bytes_end = digest_end + length (codes bytes_prefix) in
    let digest = drop digest_start (take digest_end value) in
    let byte_count = drop bytes_end value in
    if leb (length value) bytes_end
    then false
    else if not (is_prefix (codes digest_prefix) value)
    then false
    else if not (same_text (drop digest_end (take bytes_end value)) (codes bytes_prefix))
    then false
    else all is_hex digest && is_decimal byte_count

unfoldable pub is_digest_summary : String → Bool
unfolding is_digest_codes
is_digest_summary value = is_digest_codes (codes value)
