-- ===== src/Conversations/Machine/Handoff.antt =====
-- `HandoffStateMachine` and `HandoffStatus.active` of telecom_conversations/domain.py
-- (src/saas_platform/modules).
use plataforma_saa_s_de_auto.Prelude.{Bool, not, List, [], ◌∷◌, contains, string_eq}
use plataforma_saa_s_de_auto.Prelude.Text.{text_concat}
use plataforma_saa_s_de_auto.Errors.{Result, ok, ◌>>◌, raise_if, invalid_state_transition_error}
use plataforma_saa_s_de_auto.Conversations.Vocabulary.{
  HandoffStatus, handoff_status_eq, handoff_status_value,
}

-- `_allowed`
unfoldable pub handoff_allowed : HandoffStatus → List HandoffStatus
handoff_allowed HandoffStatus.requested =
    HandoffStatus.queued ∷ HandoffStatus.cancelled ∷ HandoffStatus.expired ∷ []
handoff_allowed HandoffStatus.queued =
    HandoffStatus.assigned ∷ HandoffStatus.cancelled ∷ HandoffStatus.expired ∷ []
handoff_allowed HandoffStatus.assigned =
    HandoffStatus.accepted ∷ HandoffStatus.queued ∷ HandoffStatus.cancelled ∷ HandoffStatus.expired
    ∷ []
handoff_allowed HandoffStatus.accepted = HandoffStatus.resolved ∷ HandoffStatus.cancelled ∷ []
handoff_allowed HandoffStatus.resolved = []
handoff_allowed HandoffStatus.cancelled = []
handoff_allowed HandoffStatus.expired = []

-- `HandoffStatus.active`
unfoldable pub is_active : HandoffStatus → Bool
is_active status =
    contains
      (HandoffStatus.requested ∷ HandoffStatus.queued ∷ HandoffStatus.assigned
        ∷ HandoffStatus.accepted ∷ [])
      status

unfoldable pub handoff_transition : HandoffStatus → HandoffStatus → Result HandoffStatus
handoff_transition current target = do
  raise_if (not (contains (handoff_allowed current) target)) (
      invalid_state_transition_error (
        text_concat (
          "handoff cannot transition from "
          ∷ handoff_status_value current
          ∷ " to "
          ∷ handoff_status_value target
          ∷ [])))
  ok target
