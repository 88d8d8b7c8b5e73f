-- ===== src/Extraction/Command.antt =====
-- The command of an extraction, its messages, and the extraction as normalized, of
-- telecom_extraction/domain.py (src/saas_platform/modules), with the checks of each `__post_init__`.
use plataforma_saa_s_de_auto.Prelude.{
  ℕ, ltb, Bool, false, not, ◌||◌, String, Option, none, some, List, ℤ, length, any, has_duplicates,
  ◌==◌, nat_eq,
}
use plataforma_saa_s_de_auto.Prelude.Text.{is_blank, text_length}
use plataforma_saa_s_de_auto.Errors.{Result, ◌>>◌, raise_if, validation_error}
use plataforma_saa_s_de_auto.Foundation.{Uuid, TenantId, DateTime, Decimal, ensure_aware}
use plataforma_saa_s_de_auto.LeadQualification.Vocabulary.{
  ProfileField, profile_field_eq, EligibilityStatus,
}
use plataforma_saa_s_de_auto.LeadQualification.Profile.{LeadProfile}
use plataforma_saa_s_de_auto.LeadQualification.Request.{QualificationRequest}
use plataforma_saa_s_de_auto.Extraction.Vocabulary.{
  ConversationRole, CommercialIntent, CommercialUrgency, HandoffKind,
}
use plataforma_saa_s_de_auto.Extraction.Domain.{
  ensure_confidence, ExtractedOpportunity, NormalizedField, NormalizedSignal, SpecialControlFinding,
}

pub record ConversationMessage : Type 0 where
  pub id : Uuid
  pub tenant_id : TenantId
  pub role : ConversationRole
  pub content : String
  pub sent_at : DateTime

unfoldable pub conversation_message_post_init : ConversationMessage → Result (Unit {0})
conversation_message_post_init m = do
  raise_if (is_blank m.content) (validation_error "conversation message content cannot be empty")
  raise_if (ltb 50000 (text_length m.content))
      (validation_error "conversation message exceeds the absolute size limit")
  ensure_aware m.sent_at "message sent_at"

pub record TelecomExtractionCommand : Type 0 where
  pub profile : LeadProfile
  pub messages : List ConversationMessage
  pub correlation_id : Uuid
  pub expected_language : String
  pub previous_summary : Option String
  pub recently_asked_fields : List ProfileField
  pub eligibility : EligibilityStatus
  pub handoff_confirmed : Bool

unfoldable pub is_long_summary : Option String → Bool
is_long_summary none = false
is_long_summary (some s) = ltb 10000 (text_length s)

unfoldable pub telecom_extraction_command_post_init : TelecomExtractionCommand → Result (Unit {0})
unfolding is_long_summary
telecom_extraction_command_post_init c = do
  raise_if (length c.messages == 0)
      (validation_error "at least one conversation message is required")
  raise_if (is_blank c.expected_language || ltb 12 (text_length c.expected_language))
      (validation_error "expected language is invalid")
  raise_if (is_long_summary c.previous_summary)
      (validation_error "previous summary exceeds the absolute size limit")
  raise_if (has_duplicates c.recently_asked_fields)
      (validation_error "recently asked fields must be unique")
  raise_if (any (λ m. not (m.tenant_id == c.profile.tenant_id)) c.messages)
      (validation_error "conversation messages cannot cross tenant boundaries")

pub record ContextLimits : Type 0 where
  pub max_messages : ℕ
  pub max_characters : ℕ
  pub max_summary_characters : ℕ
  pub max_age_days : ℕ

-- Settings below zero are refused like zero.
unfoldable pub context_limits_post_init : ContextLimits → Result (Unit {0})
context_limits_post_init l =
    raise_if
      (l.max_messages == 0
        || l.max_characters == 0
        || l.max_summary_characters == 0
        || l.max_age_days == 0)
      (validation_error "context limits must be positive")

pub record NormalizedExtraction : Type 0 where
  pub language : String
  pub opportunity : ExtractedOpportunity
  pub fields : List NormalizedField
  pub signals : List NormalizedSignal
  pub intent : CommercialIntent
  pub intent_confidence : Decimal
  pub intent_evidence : String
  pub intent_source_message_id : Option Uuid
  pub urgency : CommercialUrgency
  pub urgency_confidence : Decimal
  pub urgency_evidence : String
  pub urgency_source_message_id : Option Uuid
  pub provider_missing_information : List ProfileField
  pub controls : List SpecialControlFinding
  pub provider_handoff : HandoffKind
  pub provider_handoff_reason : String
  pub provider_handoff_confidence : Decimal
  pub provider_question_target : Option ProfileField
  pub provider_question : Option String
  pub provider_question_reason : Option String
  pub provider_question_priority : Option ℤ
  pub provider_question_alternatives : List String
  pub provider_question_skippable : Bool
  pub summary : String
  pub declared_overall_confidence : Decimal
  pub warnings : List String
  pub recoverable_errors : List String

unfoldable pub normalized_extraction_post_init : NormalizedExtraction → Result (Unit {0})
normalized_extraction_post_init n = do
  ensure_confidence n.intent_confidence "intent confidence"
  ensure_confidence n.urgency_confidence "urgency confidence"
  ensure_confidence n.provider_handoff_confidence "provider handoff confidence"
  ensure_confidence n.declared_overall_confidence "declared overall confidence"

pub record ProfileUpdateProposal : Type 0 where
  pub previous_profile : LeadProfile
  pub updated_profile : LeadProfile
  pub facts_added : List ProfileField
  pub facts_preserved : List ProfileField
  pub conflicts_added : ℕ
  pub qualification_request : QualificationRequest
