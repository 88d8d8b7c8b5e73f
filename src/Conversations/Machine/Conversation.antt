-- ===== src/Conversations/Machine/Conversation.antt =====
-- `ConversationStateMachine` of telecom_conversations/domain.py (src/saas_platform/modules).
use plataforma_saa_s_de_auto.Prelude.{
  Bool, not, ◌&&◌, String, List, [], ◌∷◌, contains, if◌then◌else◌, ◌==◌, string_eq,
}
use plataforma_saa_s_de_auto.Prelude.Text.{is_blank, text_concat}
use plataforma_saa_s_de_auto.Errors.{Result, ok, ◌>>◌, raise_if, invalid_state_transition_error}
use plataforma_saa_s_de_auto.Conversations.Vocabulary.{
  ConversationState, TransitionActor, conversation_state_eq, transition_actor_eq,
  conversation_state_value,
}

-- `_allowed`
unfoldable pub conversation_allowed : ConversationState → List ConversationState
conversation_allowed ConversationState.opened =
    ConversationState.qualifying ∷ ConversationState.waiting_human
    ∷ ConversationState.automated_paused ∷ ConversationState.do_not_contact
    ∷ ConversationState.closed ∷ []
conversation_allowed ConversationState.qualifying =
    ConversationState.waiting_customer ∷ ConversationState.waiting_human
    ∷ ConversationState.automated_paused ∷ ConversationState.do_not_contact
    ∷ ConversationState.closed ∷ []
conversation_allowed ConversationState.waiting_customer =
    ConversationState.qualifying ∷ ConversationState.waiting_human
    ∷ ConversationState.automated_paused ∷ ConversationState.do_not_contact
    ∷ ConversationState.closed ∷ []
conversation_allowed ConversationState.waiting_human =
    ConversationState.human_active ∷ ConversationState.qualifying
    ∷ ConversationState.automated_paused ∷ ConversationState.do_not_contact
    ∷ ConversationState.closed ∷ []
conversation_allowed ConversationState.human_active =
    ConversationState.waiting_customer ∷ ConversationState.qualifying
    ∷ ConversationState.automated_paused ∷ ConversationState.do_not_contact
    ∷ ConversationState.closed ∷ []
conversation_allowed ConversationState.automated_paused =
    ConversationState.waiting_human ∷ ConversationState.human_active ∷ ConversationState.qualifying
    ∷ ConversationState.do_not_contact ∷ ConversationState.closed ∷ []
conversation_allowed ConversationState.do_not_contact = ConversationState.opened ∷ []
conversation_allowed ConversationState.closed = ConversationState.opened ∷ []

-- `current in {DO_NOT_CONTACT, CLOSED}`
unfoldable pub is_terminal : ConversationState → Bool
is_terminal current =
    contains (ConversationState.do_not_contact ∷ ConversationState.closed ∷ []) current

unfoldable pub required_cause : ConversationState → String
required_cause current =
    if current == ConversationState.do_not_contact
    then "explicit_consent_restored"
    else "manual_reopen"

unfoldable pub conversation_transition :
    ConversationState → ConversationState → TransitionActor → String → Result ConversationState
conversation_transition current target actor cause = do
  raise_if (is_blank cause)
      (invalid_state_transition_error "conversation transition requires a cause")
  raise_if (not (contains (conversation_allowed current) target)) (
      invalid_state_transition_error (
        text_concat (
          "conversation cannot transition from "
          ∷ conversation_state_value current
          ∷ " to "
          ∷ conversation_state_value target
          ∷ [])))
  raise_if (is_terminal current && not (actor == TransitionActor.human))
      (invalid_state_transition_error "reopening a terminal conversation requires a human actor")
  raise_if (is_terminal current && not (cause == required_cause current)) (
      invalid_state_transition_error
        (text_concat ("reopening requires cause " ∷ required_cause current ∷ [])))
  raise_if (target == ConversationState.human_active && not (actor == TransitionActor.human))
      (invalid_state_transition_error "human_active requires a human actor")
  ok target
