-- ===== src/Conversations.antt =====
-- Conversations: src/saas_platform/modules/telecom_conversations.
pub mod Vocabulary
pub mod Statuses
pub mod Records
pub mod Machine
pub mod Profile
pub mod Processing
pub mod Processed
pub mod Questions
mod Tests
