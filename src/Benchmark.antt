-- ===== src/Benchmark.antt =====
-- Benchmark records: qa/benchmark_output_model.py, qa/benchmark_output_privacy.py (Privacy), and
-- `validate_record` of qa/benchmark_output_validate.py (Records).
pub mod Privacy
pub mod Records
