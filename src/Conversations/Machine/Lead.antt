-- ===== src/Conversations/Machine/Lead.antt =====
-- `LeadStateMachine` of telecom_conversations/domain.py (src/saas_platform/modules).
use plataforma_saa_s_de_auto.Prelude.{
  Bool, not, ◌&&◌, ◌||◌, String, List, [], ◌∷◌, contains, if◌then◌else◌, ◌==◌, string_eq,
}
use plataforma_saa_s_de_auto.Prelude.Text.{is_blank, text_concat}
use plataforma_saa_s_de_auto.Errors.{Result, ok, ◌>>◌, raise_if, invalid_state_transition_error}
use plataforma_saa_s_de_auto.LeadQualification.Vocabulary.{
  LeadState, lead_state_eq, lead_state_value,
}
use plataforma_saa_s_de_auto.Conversations.Vocabulary.{TransitionActor, transition_actor_eq}

-- `_allowed.get(current, frozenset())`
unfoldable pub lead_allowed : LeadState → List LeadState
lead_allowed LeadState.new =
    LeadState.in_conversation ∷ LeadState.qualifying ∷ LeadState.incomplete_information
    ∷ LeadState.qualified ∷ LeadState.duplicate ∷ LeadState.do_not_contact ∷ []
lead_allowed LeadState.in_conversation =
    LeadState.qualifying ∷ LeadState.incomplete_information ∷ LeadState.qualified
    ∷ LeadState.transferred_to_advisor ∷ LeadState.lost ∷ LeadState.do_not_contact ∷ []
lead_allowed LeadState.qualifying =
    LeadState.incomplete_information ∷ LeadState.qualified ∷ LeadState.pending_validation
    ∷ LeadState.transferred_to_advisor ∷ LeadState.lost ∷ LeadState.do_not_contact ∷ []
lead_allowed LeadState.incomplete_information =
    LeadState.qualifying ∷ LeadState.qualified ∷ LeadState.transferred_to_advisor ∷ LeadState.lost
    ∷ LeadState.do_not_contact ∷ []
lead_allowed LeadState.qualified =
    LeadState.qualifying ∷ LeadState.incomplete_information ∷ LeadState.quote_requested
    ∷ LeadState.transferred_to_advisor ∷ LeadState.lost ∷ LeadState.do_not_contact ∷ []
lead_allowed LeadState.quote_requested =
    LeadState.quote_sent ∷ LeadState.transferred_to_advisor ∷ LeadState.lost
    ∷ LeadState.do_not_contact ∷ []
lead_allowed LeadState.transferred_to_advisor =
    LeadState.contacted_by_advisor ∷ LeadState.qualifying ∷ LeadState.qualified ∷ LeadState.lost
    ∷ LeadState.do_not_contact ∷ []
lead_allowed LeadState.contacted_by_advisor =
    LeadState.quote_requested ∷ LeadState.portability_started ∷ LeadState.contracting_started
    ∷ LeadState.lost ∷ LeadState.do_not_contact ∷ []
lead_allowed _ = []

-- `current in {SALE_COMPLETED, DUPLICATE}`
unfoldable pub is_settled : LeadState → Bool
is_settled current = contains (LeadState.sale_completed ∷ LeadState.duplicate ∷ []) current

-- What leaves do_not_contact.
unfoldable pub restore_consent : LeadState → TransitionActor → String → Result LeadState
restore_consent target actor cause = do
  raise_if (not (actor == TransitionActor.human) || not (cause == "explicit_consent_restored")) (
      invalid_state_transition_error
        "leaving do_not_contact requires explicit human consent restoration")
  raise_if (not (target == LeadState.in_conversation))
      (invalid_state_transition_error "restored consent returns the lead to in_conversation")
  ok target

unfoldable pub lead_by_table : LeadState → LeadState → Result LeadState
lead_by_table current target = do
  raise_if (not (contains (lead_allowed current) target)) (
      invalid_state_transition_error (
        text_concat (
          "lead cannot transition from "
          ∷ lead_state_value current
          ∷ " to "
          ∷ lead_state_value target
          ∷ [])))
  ok target

unfoldable pub lead_transition : LeadState → LeadState → TransitionActor → String → Result LeadState
unfolding restore_consent lead_by_table
lead_transition current target actor cause = do
  raise_if (is_blank cause) (invalid_state_transition_error "lead transition requires a cause")
  if current == target
      then ok current
      else if target == LeadState.do_not_contact && not (is_settled current)
      then ok target
      else if current == LeadState.do_not_contact
      then restore_consent target actor cause
      else lead_by_table current target
