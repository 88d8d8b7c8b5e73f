-- ===== src/Extraction/Context/Request.antt =====
-- `prepare` of telecom_extraction/context.py (src/saas_platform/modules), with the request of
-- telecom_extraction/domain.py. The texts that `str` gives of a Decimal and of an id are parameters, and so
-- is `digest`, the SHA-256 of the JSON of the parts of an idempotency key.
use plataforma_saa_s_de_auto.Prelude.{
  ℕ, Bool, false, not, String, Option, none, some, List, [], ◌∷◌, map, filter, length, contains,
  eqb, if◌then◌else◌,
}
use plataforma_saa_s_de_auto.Prelude.Sort.{sort_by}
use plataforma_saa_s_de_auto.Prelude.Text.{text_lt, is_empty}
use plataforma_saa_s_de_auto.Errors.{Result, ok, ◌>>◌, ◌>>=◌, raise_if, index_error}
use plataforma_saa_s_de_auto.Foundation.{Uuid, TenantId, DateTime, Decimal}
use plataforma_saa_s_de_auto.LeadQualification.Vocabulary.{
  opportunity_type_value, ProfileField, profile_field_eq, profile_field_value,
  validation_status_value,
}
use plataforma_saa_s_de_auto.LeadQualification.Profile.{FactValue, ProfileFact, LeadProfile}
use plataforma_saa_s_de_auto.Extraction.Vocabulary.{ConversationRole}
use plataforma_saa_s_de_auto.Extraction.Domain.{SpecialControlFinding}
use plataforma_saa_s_de_auto.Extraction.Command.{
  ConversationMessage, TelecomExtractionCommand, ContextLimits,
}
use plataforma_saa_s_de_auto.Extraction.Context.Patterns.{Pattern, redact}
use plataforma_saa_s_de_auto.Extraction.Context.Selection.{selected_messages}
use plataforma_saa_s_de_auto.Prelude.Text.{take_text}
use plataforma_saa_s_de_auto.Extraction.Context.Controls.{controls}

unfoldable pub excluded_profile_context : List ProfileField
excluded_profile_context =
    ProfileField.coverage ∷ ProfileField.inventory ∷ ProfileField.customer_declared_financing_status
    ∷ []

pub record PreparedMessage : Type 0 where
  pub id : Uuid
  pub role : ConversationRole
  pub content : String
  pub sent_at : DateTime

pub record ContextFact : Type 0 where
  pub field : String
  pub value : FactValue
  pub status : String
  pub confidence : String
  pub source_message_id : Option String

pub record ProfileContext : Type 0 where
  pub current_opportunity : String
  pub secondary_opportunities : List String
  pub facts : List ContextFact
  pub open_conflict_fields : List String

-- What an idempotency key is made of.
pub record KeyParts : Type 0 where
  pub tenant_id : TenantId
  pub conversation_id : Uuid
  pub message_ids : List Uuid
  pub prompt_version : String
  pub schema_version : String
  pub operation : String

pub record ProviderExtractionRequest : Type 0 where
  pub tenant_id : TenantId
  pub conversation_id : Uuid
  pub messages : List PreparedMessage
  pub profile_context : ProfileContext
  pub previous_summary : Option String
  pub recently_asked_fields : List ProfileField
  pub expected_language : String
  pub prompt_version : String
  pub schema_version : String
  pub correlation_id : Uuid
  pub idempotency_key : String
  pub handoff_confirmed : Bool
  pub repair_schema : Bool

pub record PreparedExtractionContext : Type 0 where
  pub request : ProviderExtractionRequest
  pub deterministic_controls : List SpecialControlFinding
  pub original_messages : List ConversationMessage

unfoldable pub prepared_message : ConversationMessage × String → PreparedMessage
prepared_message (m, content) = record {
  id = m.id;
  role = m.role;
  content = content;
  sent_at = m.sent_at;
}

pub record Rendering : Type 0 where
  pub decimal_text : Decimal → String
  pub uuid_text : Uuid → String
  pub digest : KeyParts → String

module _ (render : Rendering) where
  unfoldable pub context_value : FactValue → FactValue
  context_value (FactValue.decimal d) = FactValue.text (render.decimal_text d)
  context_value value = value

  unfoldable pub optional_text : Option Uuid → Option String
  optional_text none = none
  optional_text (some id) = some (render.uuid_text id)

  unfoldable pub context_fact : ProfileFact → ContextFact
  unfolding context_value optional_text
  context_fact f = record {
    field = profile_field_value f.field;
    value = context_value f.value;
    status = validation_status_value f.validation_status;
    confidence = render.decimal_text f.confidence;
    source_message_id = optional_text f.source_message_id;
  }

  -- `_profile_context`
  unfoldable pub profile_context : LeadProfile → ProfileContext
  unfolding context_fact excluded_profile_context
  profile_context profile =
      let known = map (λ (x : ProfileField × ProfileFact). x.1) profile.facts in
      let shown = filter (λ f. not (contains excluded_profile_context f.field)) known in
      record {
        current_opportunity = opportunity_type_value profile.opportunity.primary;
        secondary_opportunities = map opportunity_type_value profile.opportunity.secondary;
        facts = sort_by (λ a b. text_lt a.field b.field) (map context_fact shown);
        open_conflict_fields = map (λ c. profile_field_value c.field) profile.conflicts;
      }

  -- `extraction_idempotency_key`
  unfoldable pub extraction_idempotency_key : TenantId → Uuid → List Uuid → String
  extraction_idempotency_key tenant_id conversation_id message_ids = render.digest (record {
    tenant_id = tenant_id;
    conversation_id = conversation_id;
    message_ids = message_ids;
    prompt_version = "telecom-extraction.v1";
    schema_version = "telecom-extraction-result.v1";
    operation = "extract_telecom_commercial_profile";
  })

  unfoldable pub context_summary :
      (Pattern → String → String → String) → ℕ → Option String → Option String
  context_summary sub limit none = none
  context_summary sub limit (some s) =
      if is_empty s then none else some (take_text limit (redact sub s))

  -- `prepare`
  unfoldable pub prepare :
      (Pattern → String → Option String)
      → (Pattern → String → String → String)
      → ContextLimits
      → TelecomExtractionCommand
      → DateTime
      → Result PreparedExtractionContext
  unfolding prepared_message profile_context extraction_idempotency_key context_summary
  prepare search sub limits command now = do
    raise_if (eqb (length command.messages) 0) (index_error "list index out of range")
    let selected = selected_messages (redact sub) limits now command.messages
    let original = map (λ (x : ConversationMessage × String). x.0) selected
    found ← controls search original
    ok (record {
      request = record {
        tenant_id = command.profile.tenant_id;
        conversation_id = command.profile.conversation_id;
        messages = map prepared_message selected;
        profile_context = profile_context command.profile;
        previous_summary =
            context_summary sub limits.max_summary_characters command.previous_summary;
        recently_asked_fields = command.recently_asked_fields;
        expected_language = command.expected_language;
        prompt_version = "telecom-extraction.v1";
        schema_version = "telecom-extraction-result.v1";
        correlation_id = command.correlation_id;
        idempotency_key =
            extraction_idempotency_key command.profile.tenant_id command.profile.conversation_id
              (map (λ (m : ConversationMessage). m.id) original);
        handoff_confirmed = command.handoff_confirmed;
        repair_schema = false;
      };
      deterministic_controls = found;
      original_messages = original;
    })
