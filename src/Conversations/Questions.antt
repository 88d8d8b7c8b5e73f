-- ===== src/Conversations/Questions.antt =====
-- When the processing of a message may leave a question: `_conversation_target` and the transition of
-- `_finalize`, telecom_conversations/application.py (src/saas_platform/modules), along the messages of
-- a conversation that starts open.
use plataforma_saa_s_de_auto.Prelude.{
  Bool, true, false, not, ◌||◌, List, [], ◌∷◌, contains, decide, if◌then◌else◌,
}
use plataforma_saa_s_de_auto.Prelude.Text.{is_blank, codes}
use plataforma_saa_s_de_auto.Conversations.Vocabulary.{
  ConversationState, conversation_state_eq, ConversationState-discrete, TransitionActor-discrete,
}
use plataforma_saa_s_de_auto.Conversations.Machine.Conversation.{
  conversation_transition, conversation_allowed, is_terminal, required_cause,
}
use plataforma_saa_s_de_auto.Conversations.Processing.{
  advance_conversation, conversation_target, processing_cause, moved_to,
}
use plataforma_saa_s_de_auto.Conversations.Processed.{Message, is_live}

-- Whether the messages leave the conversation ready for a question, told from the messages alone: one
-- without a question makes it ready, a handoff makes it unready, and a no-contact request ends it.
unfoldable pub readied : Bool → List Message → Bool
readied ready [] = ready
readied ready (m ∷ ms) =
    let rest = readied (if m.handoff then false else ready || not m.question) ms in
    if m.no_contact then false else rest

-- The states of a conversation that is ready, and of one that is not.
unfoldable is_at : Bool → ConversationState → Bool
is_at true s = contains (ConversationState.qualifying ∷ ConversationState.waiting_customer ∷ []) s
is_at false s = contains (ConversationState.opened ∷ ConversationState.waiting_human ∷ []) s

computes : Unit {0}
unfolding advance_conversation conversation_target processing_cause conversation_transition
    conversation_allowed is_terminal required_cause is_at is_live moved_to contains decide is_blank
    codes ConversationState-discrete TransitionActor-discrete
computes = tt
