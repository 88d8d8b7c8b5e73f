-- ===== src/LeadQualification/Scoring.antt =====
-- The scoring engine of lead_qualification/scoring.py (src/saas_platform/modules).
pub mod Signals
pub mod Criteria
pub mod Decision
pub mod Engine
pub mod Selection
pub mod Bounds
pub mod Total
pub mod Citations
pub mod Outcome
pub mod Points
pub mod Exclusive
pub mod Groups
pub mod Evidence
