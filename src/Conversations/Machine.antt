-- ===== src/Conversations/Machine.antt =====
-- The state machines of telecom_conversations/domain.py (src/saas_platform/modules), and sequences
-- of requests to them.
pub mod Conversation
pub mod Lead
pub mod Handoff
pub mod ConversationRuns
pub mod LeadRuns
pub mod HandoffRuns
