-- ===== src/Extraction.antt =====
-- What an extraction gives: src/saas_platform/modules/telecom_extraction.
pub mod Vocabulary
pub mod Domain
pub mod Confidence
pub mod Command
pub mod Decisions
pub mod Resolve
pub mod Reconcile
pub mod Mapper
pub mod Proposal
pub mod Kept
pub mod Agreement
pub mod AcceptedControls
pub mod StopSignal
pub mod Degraded
pub mod StopRequest
pub mod NoContact
pub mod Context
mod Tests
mod Runs
mod FieldRuns
mod Examples
