-- ===== src/Sample.antt =====
-- The runtime-sample contract: qa/runtime_sample_*.py, one module for each file.
pub mod Fields
pub mod Tokens
pub mod Common
pub mod Digest
pub mod PolicyAbi
pub mod SchedExt
pub mod Core
pub mod Order
