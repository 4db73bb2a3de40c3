-- ===== src/Lib.antt =====
-- Exasphere's evidence checkers. The scheduler's lab runs leave JSON artifacts, and the Python
-- programs of qa/ decide whether an artifact counts as evidence: each reads a file, refuses it with an
-- exception of its own, or accepts it silently. What stands in an accepted artifact is what these
-- checkers promise.
--
-- Base, Text, Json, World and Checks are what the checkers share. Base has Python's exceptions as
-- values: `raise` is an error of a kind, a `try` that converts an exception maps the errors of that
-- kind. Text has texts as code points, with `lower`, `casefold`, `strip`, `isdecimal` and the regular
-- expressions, which are decided by derivatives. Json has the values that `json.loads` builds, with
-- `dict.get`, `in`, `isinstance` (where a Boolean is an int) and `==`. World is what is not the
-- checkers' own: the files at the time of the run, `json.loads`, `hashlib.sha256` and the word
-- characters beyond ASCII are parameters. Checks has the reads that differ by exception class only.
--
-- Sample is qa/runtime_sample_*.py: Common the JSON reads and the privacy scan, Tokens the words of a
-- key, Digest the digest summaries, PolicyAbi the policy metadata and the builders of good evidence,
-- SchedExt the scheduler's facts, with the order of the samples in SchedExt/Sequence, Core the samples
-- and their files, Order the order of the alerts. Ledger is qa/audit_ledger_check.py.
--
-- Runner has the proofs of a protected runner: Review is qa/protected_environment_review_check.py,
-- Substrate is qa/runner_substrate_proof_check.py, Cleanliness is
-- qa/runner_cleanliness_proof_check.py, Args their command lines (RoundTrip prints them), Common what
-- they share. Substrate calls Review on the review that a proof refers to.
--
-- Daemon is qa/daemon_event_contract_check.py: the stream of the daemon's events, and in Task9 the
-- links of its rollback and refusals to the audit ledger. Refusals has what those links promise,
-- Privacy describes its privacy scan, Errors what it raises.
--
-- Live is the evidence of a live run: Partial is qa/partial_attach_check.py with
-- qa/evidence_safety_check.py, Observe is qa/lab_summary_observe.py, Bundle is
-- qa/live_behavior_check.py, which calls both of them, the samples' and the ledger's checkers on the
-- artifacts of one run, and compares the counters of the samples (Bundle/Counters). Named has which
-- files the artifacts are, Series what the samples show. Freshness is qa/live_bundle_freshness_check.py, to which the current commit,
-- object and snapshot are arguments.
--
-- Verifier is qa/verifier_log_check.py: the lines of a log and their classification, with the tests
-- by which qa/verifier_vm_check.py takes a log of a VM.
--
-- Benchmark is qa/benchmark_output_privacy.py (Privacy) and the records of
-- qa/benchmark_output_validate.py with the families of qa/benchmark_output_model.py (Records).
--
-- Matrix is qa/matrix_run_*.py: Model the tables and patterns, Values the JSON, privacy, path and
-- scheduler-state primitives, Workload and Specification the workload of a row, Row the row, Artifacts
-- the files that a row of a manifest refers to, among them a runtime sample, which Sample.Core
-- validates, Manifest the manifest with its rows and its daemon events, which Daemon validates.
-- Provenance is qa/matrix_benchmark_provenance.py, which a specification calls and which validates a
-- record by Benchmark; Backend is qa/matrix_run_live_backend.py, which calls Live.Bundle.
--
-- World also has `Path.resolve`, `json.dumps` and the reading that replaces undecodable bytes. Nothing
-- is assumed of them. `json.loads` is there twice, as the checkers call it: plain, and with a
-- `parse_constant` that raises, which the parser may call on a token before anything else fails. Both
-- may also raise the plain ValueError and the RecursionError of the interpreter's limits, which no
-- checker catches; Daemon.Errors assumes, for the lines of a file, that these two do not occur.
--
-- Numbers are unbounded, as Python's are; a text of more than 4300 digits raises ValueError. The word
-- scan of Sample/Tokens has fuel: the length of the chunk, of which every round takes a character at
-- least. Decimal printing has the number itself for fuel, which every round divides by ten. All other
-- loops recur on their list, their text or their JSON value.
--
-- Not modelled: the self-tests and the walks over fixture directories, which write and list files; the
-- command lines but for those of the runner checkers; in Matrix the fixture pack; the logs of a VM and
-- the evidence files of the verifier; the parsers of raw benchmark output, which read floating-point
-- texts; the other checkers of qa/; the C++, Zig, BPF and shell parts.
pub mod Base
pub mod Text
pub mod Json
pub mod World
pub mod Sample
pub mod Checks
pub mod Ledger
pub mod Runner
pub mod Daemon
pub mod Live
pub mod Matrix
pub mod Benchmark
pub mod Verifier
pub mod Tests
