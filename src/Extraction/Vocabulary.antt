-- ===== src/Extraction/Vocabulary.antt =====
-- Enumerations of telecom_extraction/domain.py (src/saas_platform/modules).
use plataforma_saa_s_de_auto.Prelude.{String, Eq, eq_of_discrete}

pub data Currency : Type 0 where
  mxn usd : Currency

unfoldable pub Currency-discrete : Discrete Currency
Currency-discrete = hlevel

instance abbrev pub currency_eq : Eq Currency
currency_eq = eq_of_discrete Currency-discrete

unfoldable pub currency_value : Currency → String
currency_value Currency.mxn = "MXN"
currency_value Currency.usd = "USD"

pub data ProviderFieldState : Type 0 where
  observed inferred unknown : ProviderFieldState

unfoldable pub ProviderFieldState-discrete : Discrete ProviderFieldState
ProviderFieldState-discrete = hlevel

instance abbrev pub provider_field_state_eq : Eq ProviderFieldState
provider_field_state_eq = eq_of_discrete ProviderFieldState-discrete

unfoldable pub provider_field_state_value : ProviderFieldState → String
provider_field_state_value ProviderFieldState.observed = "observed"
provider_field_state_value ProviderFieldState.inferred = "inferred"
provider_field_state_value ProviderFieldState.unknown = "unknown"

pub data ExtractionFieldStatus : Type 0 where
  observed inferred confirmed rejected contradicted unknown : ExtractionFieldStatus

unfoldable pub ExtractionFieldStatus-discrete : Discrete ExtractionFieldStatus
ExtractionFieldStatus-discrete = hlevel

instance abbrev pub extraction_field_status_eq : Eq ExtractionFieldStatus
extraction_field_status_eq = eq_of_discrete ExtractionFieldStatus-discrete

unfoldable pub extraction_field_status_value : ExtractionFieldStatus → String
extraction_field_status_value ExtractionFieldStatus.observed = "observed"
extraction_field_status_value ExtractionFieldStatus.inferred = "inferred"
extraction_field_status_value ExtractionFieldStatus.confirmed = "confirmed"
extraction_field_status_value ExtractionFieldStatus.rejected = "rejected"
extraction_field_status_value ExtractionFieldStatus.contradicted = "contradicted"
extraction_field_status_value ExtractionFieldStatus.unknown = "unknown"

pub data ConfidenceTreatment : Type 0 where
  auto_accept provisional confirmation_required rejected contradicted : ConfidenceTreatment

unfoldable pub ConfidenceTreatment-discrete : Discrete ConfidenceTreatment
ConfidenceTreatment-discrete = hlevel

instance abbrev pub confidence_treatment_eq : Eq ConfidenceTreatment
confidence_treatment_eq = eq_of_discrete ConfidenceTreatment-discrete

unfoldable pub confidence_treatment_value : ConfidenceTreatment → String
confidence_treatment_value ConfidenceTreatment.auto_accept = "auto_accept"
confidence_treatment_value ConfidenceTreatment.provisional = "provisional"
confidence_treatment_value ConfidenceTreatment.confirmation_required = "confirmation_required"
confidence_treatment_value ConfidenceTreatment.rejected = "rejected"
confidence_treatment_value ConfidenceTreatment.contradicted = "contradicted"

pub data CommercialIntent : Type 0 where
  exploration comparison price_inquiry monthly_payment_inquiry inventory_inquiry
        requirements_inquiry quote_request portability_request contract purchase call_request
        branch_request advisor_request unknown :
      CommercialIntent

unfoldable pub CommercialIntent-discrete : Discrete CommercialIntent
CommercialIntent-discrete = hlevel

instance abbrev pub commercial_intent_eq : Eq CommercialIntent
commercial_intent_eq = eq_of_discrete CommercialIntent-discrete

unfoldable pub commercial_intent_value : CommercialIntent → String
commercial_intent_value CommercialIntent.exploration = "exploration"
commercial_intent_value CommercialIntent.comparison = "comparison"
commercial_intent_value CommercialIntent.price_inquiry = "price_inquiry"
commercial_intent_value CommercialIntent.monthly_payment_inquiry = "monthly_payment_inquiry"
commercial_intent_value CommercialIntent.inventory_inquiry = "inventory_inquiry"
commercial_intent_value CommercialIntent.requirements_inquiry = "requirements_inquiry"
commercial_intent_value CommercialIntent.quote_request = "quote_request"
commercial_intent_value CommercialIntent.portability_request = "portability_request"
commercial_intent_value CommercialIntent.contract = "contract"
commercial_intent_value CommercialIntent.purchase = "purchase"
commercial_intent_value CommercialIntent.call_request = "call_request"
commercial_intent_value CommercialIntent.branch_request = "branch_request"
commercial_intent_value CommercialIntent.advisor_request = "advisor_request"
commercial_intent_value CommercialIntent.unknown = "unknown"

pub data CommercialUrgency : Type 0 where
  immediate this_week this_month future unspecified : CommercialUrgency

unfoldable pub CommercialUrgency-discrete : Discrete CommercialUrgency
CommercialUrgency-discrete = hlevel

instance abbrev pub commercial_urgency_eq : Eq CommercialUrgency
commercial_urgency_eq = eq_of_discrete CommercialUrgency-discrete

unfoldable pub commercial_urgency_value : CommercialUrgency → String
commercial_urgency_value CommercialUrgency.immediate = "immediate"
commercial_urgency_value CommercialUrgency.this_week = "this_week"
commercial_urgency_value CommercialUrgency.this_month = "this_month"
commercial_urgency_value CommercialUrgency.future = "future"
commercial_urgency_value CommercialUrgency.unspecified = "unspecified"

pub data SpecialControl : Type 0 where
  do_not_contact human_requested complaint offensive_language suspected_fraud sensitive_information
        unrelated_content low_comprehension contradiction insufficient_data prompt_injection
        unverified_coverage_claim unverified_inventory_claim customer_financing_claim :
      SpecialControl

unfoldable pub SpecialControl-discrete : Discrete SpecialControl
SpecialControl-discrete = hlevel

instance abbrev pub special_control_eq : Eq SpecialControl
special_control_eq = eq_of_discrete SpecialControl-discrete

unfoldable pub special_control_value : SpecialControl → String
special_control_value SpecialControl.do_not_contact = "do_not_contact"
special_control_value SpecialControl.human_requested = "human_requested"
special_control_value SpecialControl.complaint = "complaint"
special_control_value SpecialControl.offensive_language = "offensive_language"
special_control_value SpecialControl.suspected_fraud = "suspected_fraud"
special_control_value SpecialControl.sensitive_information = "sensitive_information"
special_control_value SpecialControl.unrelated_content = "unrelated_content"
special_control_value SpecialControl.low_comprehension = "low_comprehension"
special_control_value SpecialControl.contradiction = "contradiction"
special_control_value SpecialControl.insufficient_data = "insufficient_data"
special_control_value SpecialControl.prompt_injection = "prompt_injection"
special_control_value SpecialControl.unverified_coverage_claim = "unverified_coverage_claim"
special_control_value SpecialControl.unverified_inventory_claim = "unverified_inventory_claim"
special_control_value SpecialControl.customer_financing_claim = "customer_financing_claim"

pub data HandoffKind : Type 0 where
  none general specialized : HandoffKind

unfoldable pub HandoffKind-discrete : Discrete HandoffKind
HandoffKind-discrete = hlevel

instance abbrev pub handoff_kind_eq : Eq HandoffKind
handoff_kind_eq = eq_of_discrete HandoffKind-discrete

unfoldable pub handoff_kind_value : HandoffKind → String
handoff_kind_value HandoffKind.none = "none"
handoff_kind_value HandoffKind.general = "general"
handoff_kind_value HandoffKind.specialized = "specialized"

pub data ConversationRole : Type 0 where
  customer advisor : ConversationRole

unfoldable pub conversation_role_value : ConversationRole → String
conversation_role_value ConversationRole.customer = "customer"
conversation_role_value ConversationRole.advisor = "advisor"

pub data ExtractionOutcome : Type 0 where
  completed degraded : ExtractionOutcome

unfoldable pub extraction_outcome_value : ExtractionOutcome → String
extraction_outcome_value ExtractionOutcome.completed = "completed"
extraction_outcome_value ExtractionOutcome.degraded = "degraded"
