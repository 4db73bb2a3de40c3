-- ===== src/Runner.antt =====
-- The proofs of a protected runner: qa/runner_substrate_proof_common.py,
-- qa/protected_environment_review_check.py, qa/runner_substrate_proof_check.py and
-- qa/runner_cleanliness_proof_check.py, one module for each.
pub mod Common
pub mod Review
pub mod Args
pub mod Substrate
pub mod Cleanliness
