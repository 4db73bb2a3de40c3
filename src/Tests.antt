-- ===== src/Tests.antt =====
-- The theorems at concrete inputs: an accepted ledger, a row of a matrix run, samples of the checkers'
-- fields, command lines.
mod Ledgers
mod Matrices
mod Samples
mod Runners
mod Daemons
mod Lives
mod Bundles
mod Manifests
mod Records
mod Freshness
mod Verifiers
mod Refusals
