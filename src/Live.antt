-- ===== src/Live.antt =====
-- The evidence of a live run: qa/evidence_safety_check.py and qa/partial_attach_check.py (Partial),
-- qa/lab_summary_observe.py (Observe), qa/live_behavior_check.py (Bundle) and
-- qa/live_bundle_freshness_check.py (Freshness).
pub mod Partial
pub mod Observe
pub mod Bundle
pub mod Freshness
