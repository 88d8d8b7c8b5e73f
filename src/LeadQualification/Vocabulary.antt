-- ===== src/LeadQualification/Vocabulary.antt =====
-- The enumerations of lead_qualification/domain.py (src/saas_platform/modules).
mod General
mod Field
mod Signal
mod Scoring
unfoldable pub use General.*
unfoldable pub use Field.*
unfoldable pub use Signal.*
unfoldable pub use Scoring.*
