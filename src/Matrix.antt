-- ===== src/Matrix.antt =====
-- The checker of matrix runs: qa/matrix_run_model.py, qa/matrix_run_json.py, qa/matrix_run_workload.py,
-- qa/matrix_run_validate.py and qa/matrix_run_manifest_validate.py.
pub mod Model
pub mod Values
pub mod Workload
pub mod Row
pub mod Artifacts
pub mod Provenance
pub mod Specification
pub mod Backend
pub mod Manifest
