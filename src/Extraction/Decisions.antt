-- ===== src/Extraction/Decisions.antt =====
-- `ExtractionDecisionService` of telecom_extraction/processing.py (src/saas_platform/modules).
pub mod Required
pub mod Question
pub mod Handoff
pub mod Accept
