-- ===== src/Conversations/Profile.antt =====
-- The profile applier of telecom_conversations/profile.py (src/saas_platform/modules).
pub mod Action
pub mod Decision
pub mod Plan
pub mod Cases
pub mod Kept
pub mod Opportunities
pub mod Returns
pub mod Total
pub mod Reinforced
mod Tests
