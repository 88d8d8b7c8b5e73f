-- ===== src/Extraction/Domain.antt =====
-- The normalized and the accepted extraction of telecom_extraction/domain.py
-- (src/saas_platform/modules), with the checks of each `__post_init__`.
use plataforma_saa_s_de_auto.Prelude.{Bool, ◌||◌, String, Option, List, [], ◌∷◌, ℤ, pos, ltb_ℤ}
use plataforma_saa_s_de_auto.Prelude.Text.{text_concat}
use plataforma_saa_s_de_auto.Errors.{Result, ◌>>◌, raise_if, validation_error}
use plataforma_saa_s_de_auto.Foundation.{Uuid, DateTime, Decimal, hundredths, ensure_aware}
use plataforma_saa_s_de_auto.LeadQualification.Vocabulary.{ProfileField, SignalCode}
use plataforma_saa_s_de_auto.LeadQualification.Profile.{Opportunity, FactValue}
use plataforma_saa_s_de_auto.Extraction.Vocabulary.{
  Currency, ProviderFieldState, ExtractionFieldStatus, ConfidenceTreatment, CommercialIntent,
  CommercialUrgency, SpecialControl, HandoffKind,
}

-- `_ensure_confidence`
unfoldable pub ensure_confidence : Decimal → String → Result (Unit {0})
ensure_confidence value name =
    raise_if (ltb_ℤ value (pos 0) || ltb_ℤ (hundredths 100) value)
      (validation_error (text_concat (name ∷ " must be between 0 and 1" ∷ [])))

pub record ExtractedOpportunity : Type 0 where
  pub opportunity : Opportunity
  pub confidence : Decimal
  pub evidence : String
  pub source_message_id : Option Uuid

unfoldable pub extracted_opportunity_post_init : ExtractedOpportunity → Result (Unit {0})
extracted_opportunity_post_init o = ensure_confidence o.confidence "opportunity confidence"

pub record NormalizedField : Type 0 where
  pub field : ProfileField
  pub value : FactValue
  pub original_text : String
  pub source_message_id : Uuid
  pub evidence : String
  pub provider_state : ProviderFieldState
  pub declared_confidence : Decimal
  pub currency : Option Currency
  pub observed_at : DateTime

unfoldable pub normalized_field_post_init : NormalizedField → Result (Unit {0})
normalized_field_post_init f = do
  ensure_confidence f.declared_confidence "field declared confidence"
  ensure_aware f.observed_at "field observed_at"

pub record NormalizedSignal : Type 0 where
  pub code : SignalCode
  pub source_message_id : Uuid
  pub evidence : String
  pub declared_confidence : Decimal
  pub observed_at : DateTime

unfoldable pub normalized_signal_post_init : NormalizedSignal → Result (Unit {0})
normalized_signal_post_init s = do
  ensure_confidence s.declared_confidence "signal declared confidence"
  ensure_aware s.observed_at "signal observed_at"

pub record SpecialControlFinding : Type 0 where
  pub control : SpecialControl
  pub confidence : Decimal
  pub evidence : String
  pub source_message_id : Uuid
  pub deterministic : Bool

unfoldable pub special_control_finding_post_init : SpecialControlFinding → Result (Unit {0})
special_control_finding_post_init f = ensure_confidence f.confidence "control confidence"

pub record ResolvedField : Type 0 where
  pub value : NormalizedField
  pub confidence : Decimal
  pub status : ExtractionFieldStatus
  pub treatment : ConfidenceTreatment
  pub reasons : List String

unfoldable pub resolved_field_post_init : ResolvedField → Result (Unit {0})
resolved_field_post_init f = ensure_confidence f.confidence "resolved field confidence"

pub record ResolvedSignal : Type 0 where
  pub value : NormalizedSignal
  pub confidence : Decimal
  pub treatment : ConfidenceTreatment

unfoldable pub resolved_signal_post_init : ResolvedSignal → Result (Unit {0})
resolved_signal_post_init s = ensure_confidence s.confidence "resolved signal confidence"

pub record ExtractionContradiction : Type 0 where
  pub field : ProfileField
  pub previous_value : FactValue
  pub new_value : FactValue
  pub previous_source_message_id : Option Uuid
  pub new_source_message_id : Uuid
  pub previous_evidence : Option String
  pub new_evidence : String
  pub confidence : Decimal
  pub resolution : String
  pub clarification_question : String

unfoldable pub extraction_contradiction_post_init : ExtractionContradiction → Result (Unit {0})
extraction_contradiction_post_init c = ensure_confidence c.confidence "contradiction confidence"

pub record SuggestedQuestion : Type 0 where
  pub target_field : ProfileField
  pub text : String
  pub reason : String
  pub priority : ℤ
  pub alternatives : List String
  pub skippable : Bool

pub record HandoffSuggestion : Type 0 where
  pub kind : HandoffKind
  pub reason_codes : List String

pub record AcceptedExtraction : Type 0 where
  pub opportunity : ExtractedOpportunity
  pub fields : List ResolvedField
  pub rejected_fields : List ResolvedField
  pub signals : List ResolvedSignal
  pub rejected_signals : List ResolvedSignal
  pub controls : List SpecialControlFinding
  pub contradictions : List ExtractionContradiction
  pub missing_information : List ProfileField
  pub next_question : Option SuggestedQuestion
  pub handoff : HandoffSuggestion
  pub intent : CommercialIntent
  pub intent_treatment : ConfidenceTreatment
  pub urgency : CommercialUrgency
  pub urgency_treatment : ConfidenceTreatment
  pub summary : String
  pub overall_confidence : Decimal

unfoldable pub accepted_extraction_post_init : AcceptedExtraction → Result (Unit {0})
accepted_extraction_post_init e =
    ensure_confidence e.overall_confidence "accepted overall confidence"
