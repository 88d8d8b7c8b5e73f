-- ===== src/LeadQualification.antt =====
-- The qualification of leads: src/saas_platform/modules/lead_qualification.
pub mod Vocabulary
pub mod Policy
pub mod Profile
pub mod Request
pub mod Scoring
pub mod DefaultPolicy
pub mod Samples
mod Tests
