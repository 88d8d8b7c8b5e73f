-- ===== src/Conversations/Records.antt =====
-- Contact, lead, conversation, message, processing and handoff of telecom_conversations/domain.py
-- (src/saas_platform/modules), with the checks of each `__post_init__`.
use plataforma_saa_s_de_auto.Prelude.{
  Bool, true, false, not, ◌&&◌, ◌||◌, String, Option, none, some, List, [], ◌∷◌, ℤ, pos, leb_ℤ,
  ltb_ℤ, ltb, contains, has_duplicates, if◌then◌else◌, ◌==◌, nat_eq,
}
use plataforma_saa_s_de_auto.Prelude.Text.{is_blank, text_length, text_concat}
use plataforma_saa_s_de_auto.Errors.{Result, ok, ◌>>◌, raise_if, validation_error}
use plataforma_saa_s_de_auto.Foundation.{Uuid, TenantId, DateTime, ensure_aware}
use plataforma_saa_s_de_auto.LeadQualification.Vocabulary.{
  OpportunityType, LeadState, LeadClassification, EligibilityStatus, opportunity_type_eq,
}
use plataforma_saa_s_de_auto.Conversations.Vocabulary.{
  ConversationChannel, ContactKind, ContactPreference, ConversationState, MessageDirection,
  MessageAuthor, HandoffType, HandoffStatus, contact_preference_eq, conversation_state_eq,
}
use plataforma_saa_s_de_auto.Conversations.Statuses.{MessageContentType, MessageProcessingStatus}

-- `_require_version`
unfoldable pub require_version : ℤ → String → Result (Unit {0})
require_version value name =
    raise_if (leb_ℤ value (pos 0))
      (validation_error (text_concat (name ∷ " must be positive" ∷ [])))

-- `if value is not None: _require_aware(value, name)`
unfoldable pub require_aware_if : Option DateTime → String → Result (Unit {0})
require_aware_if none name = ok tt
require_aware_if (some value) name = ensure_aware value name

-- `value is not None`
unfoldable pub is_present {ℓ} : {A : Type ℓ} → Option A → Bool
is_present none = false
is_present (some a) = true

pub record Contact : Type 0 where
  pub id : Uuid
  pub tenant_id : TenantId
  pub channel : ConversationChannel
  pub external_id : String
  pub normalized_phone : Option String
  pub name : Option String
  pub kind : ContactKind
  pub preference : ContactPreference
  pub do_not_contact : Bool
  pub created_at : DateTime
  pub updated_at : DateTime
  pub version : ℤ

unfoldable pub contact_post_init : Contact → Result (Unit {0})
contact_post_init c = do
  ensure_aware c.created_at "contact created_at"
  ensure_aware c.updated_at "contact updated_at"
  require_version c.version "version"
  raise_if
      (if c.do_not_contact
        then not (c.preference == ContactPreference.do_not_contact)
        else c.preference == ContactPreference.do_not_contact)
      (validation_error "contact DNC flag and preference must agree")

pub record Lead : Type 0 where
  pub id : Uuid
  pub tenant_id : TenantId
  pub contact_id : Uuid
  pub primary_opportunity : OpportunityType
  pub secondary_opportunities : List OpportunityType
  pub state : LeadState
  pub current_evaluation_id : Option Uuid
  pub current_score : Option ℤ
  pub current_classification : Option LeadClassification
  pub current_policy_id : Option Uuid
  pub current_policy_version : Option ℤ
  pub current_policy_fingerprint : Option String
  pub eligibility : EligibilityStatus
  pub created_at : DateTime
  pub updated_at : DateTime
  pub version : ℤ

unfoldable pub score_in_range : Option ℤ → Bool
score_in_range none = true
score_in_range (some n) = leb_ℤ (pos 0) n && leb_ℤ n (pos 100)

unfoldable pub lead_post_init : Lead → Result (Unit {0})
lead_post_init l = do
  ensure_aware l.created_at "lead created_at"
  ensure_aware l.updated_at "lead updated_at"
  require_version l.version "version"
  raise_if (contains l.secondary_opportunities l.primary_opportunity)
      (validation_error "primary opportunity cannot also be secondary")
  raise_if (has_duplicates l.secondary_opportunities)
      (validation_error "secondary opportunities must be unique")
  raise_if (not (score_in_range l.current_score))
      (validation_error "current lead score must be between 0 and 100")
  raise_if
      (not (is_present l.current_evaluation_id)
        && (is_present l.current_score
            || is_present l.current_classification
            || is_present l.current_policy_id
            || is_present l.current_policy_version
            || is_present l.current_policy_fingerprint))
      (validation_error "current evaluation fields require current_evaluation_id")

pub record Conversation : Type 0 where
  pub id : Uuid
  pub tenant_id : TenantId
  pub contact_id : Uuid
  pub lead_id : Uuid
  pub channel : ConversationChannel
  pub external_id : String
  pub state : ConversationState
  pub automation_active : Bool
  pub human_owner_id : Option String
  pub last_message_id : Option Uuid
  pub last_activity_at : DateTime
  pub opened_at : DateTime
  pub closed_at : Option DateTime
  pub commercial_summary : Option String
  pub processing_message_id : Option Uuid
  pub processing_lease_token : Option Uuid
  pub processing_lease_until : Option DateTime
  pub version : ℤ

-- The states that require the automation to be inactive.
abbrev pub manual_states : List ConversationState
manual_states =
    ConversationState.waiting_human ∷ ConversationState.human_active
    ∷ ConversationState.automated_paused ∷ ConversationState.do_not_contact
    ∷ ConversationState.closed ∷ []

unfoldable pub lease_is_partial : Conversation → Bool
lease_is_partial c =
    let message = is_present c.processing_message_id in
    let token = is_present c.processing_lease_token in
    let until = is_present c.processing_lease_until in
    (not message || not token || not until) && (message || token || until)

unfoldable pub conversation_post_init : Conversation → Result (Unit {0})
conversation_post_init c = do
  ensure_aware c.last_activity_at "conversation last_activity_at"
  ensure_aware c.opened_at "conversation opened_at"
  require_aware_if c.closed_at "conversation closed_at"
  require_aware_if c.processing_lease_until "conversation processing_lease_until"
  require_version c.version "version"
  raise_if (lease_is_partial c)
      (validation_error "conversation processing lease fields must be set together")
  raise_if (contains manual_states c.state && c.automation_active)
      (validation_error "conversation state requires automation to be inactive")
  raise_if (c.state == ConversationState.closed && not (is_present c.closed_at))
      (validation_error "closed conversation requires closed_at")

pub record StoredMessage : Type 0 where
  pub id : Uuid
  pub tenant_id : TenantId
  pub conversation_id : Uuid
  pub channel : ConversationChannel
  pub external_message_id : String
  pub event_type : String
  pub direction : MessageDirection
  pub author : MessageAuthor
  pub content : String
  pub content_type : MessageContentType
  pub external_timestamp : DateTime
  pub received_at : DateTime
  pub processing_status : MessageProcessingStatus
  pub fingerprint : String
  pub idempotency_key : String
  pub correlation_id : Uuid
  pub version : ℤ

unfoldable pub stored_message_post_init : StoredMessage → Result (Unit {0})
stored_message_post_init s = do
  ensure_aware s.external_timestamp "message external_timestamp"
  ensure_aware s.received_at "message received_at"
  require_version s.version "version"
  raise_if (not (text_length s.fingerprint == 64) || not (text_length s.idempotency_key == 64))
      (validation_error "message hashes must be SHA-256 values")

pub record MessageProcessing : Type 0 where
  pub id : Uuid
  pub tenant_id : TenantId
  pub conversation_id : Uuid
  pub message_id : Uuid
  pub processing_version : ℤ
  pub status : MessageProcessingStatus
  pub attempts : ℤ
  pub lease_token : Option Uuid
  pub lease_until : Option DateTime
  pub next_attempt_at : DateTime
  pub started_at : Option DateTime
  pub completed_at : Option DateTime
  pub extraction_execution_id : Option Uuid
  pub evaluation_id : Option Uuid
  pub last_error_code : Option String

unfoldable pub message_processing_post_init : MessageProcessing → Result (Unit {0})
message_processing_post_init p = do
  require_version p.processing_version "processing_version"
  raise_if (ltb_ℤ p.attempts (pos 0)) (validation_error "processing attempts cannot be negative")
  ensure_aware p.next_attempt_at "processing next_attempt_at"
  require_aware_if p.lease_until "processing lease_until"
  require_aware_if p.started_at "processing started_at"
  require_aware_if p.completed_at "processing completed_at"
  raise_if
      (if is_present p.lease_token
        then not (is_present p.lease_until)
        else is_present p.lease_until)
      (validation_error "processing lease token and expiry must be set together")

pub record HandoffRequest : Type 0 where
  pub id : Uuid
  pub tenant_id : TenantId
  pub conversation_id : Uuid
  pub lead_id : Uuid
  pub kind : HandoffType
  pub priority : ℤ
  pub reason : String
  pub status : HandoffStatus
  pub assigned_to : Option String
  pub created_at : DateTime
  pub updated_at : DateTime
  pub version : ℤ

unfoldable pub handoff_request_post_init : HandoffRequest → Result (Unit {0})
handoff_request_post_init h = do
  raise_if (not (leb_ℤ (pos 1) h.priority && leb_ℤ h.priority (pos 1000)))
      (validation_error "handoff priority must be between 1 and 1000")
  raise_if (is_blank h.reason || ltb 500 (text_length h.reason))
      (validation_error "handoff reason is invalid")
  ensure_aware h.created_at "handoff created_at"
  ensure_aware h.updated_at "handoff updated_at"
  require_version h.version "version"
