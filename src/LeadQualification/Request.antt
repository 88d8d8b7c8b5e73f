-- ===== src/LeadQualification/Request.antt =====
-- Signals, requests and results of lead_qualification/domain.py (src/saas_platform/modules).
use plataforma_saa_s_de_auto.Prelude.{
  Bool, true, false, not, ◌&&◌, String, Option, none, some, List, ℤ, pos, leb_ℤ, ◌==◌,
  if◌then◌else◌,
}
use plataforma_saa_s_de_auto.Errors.{Result, ok, ◌>>◌, raise_if, validation_error}
use plataforma_saa_s_de_auto.Foundation.{
  Uuid, TenantId, DateTime, Decimal, ensure_aware, ensure_ratio,
}
use plataforma_saa_s_de_auto.LeadQualification.Vocabulary.{
  OpportunityType, ProfileField, ExtractionMethod, ValidationStatus, SignalCode, ScoreDimension,
  LeadClassification, RecommendedAction, LeadState, RuleEffect, EligibilityStatus,
  QualificationCause, validation_status_eq,
}
use plataforma_saa_s_de_auto.LeadQualification.Profile.{Opportunity, LeadProfile}

pub record CommercialSignal : Type 0 where
  pub code : SignalCode
  pub confidence : Decimal
  pub source_message_id : Option Uuid
  pub observed_at : DateTime
  pub extraction_method : ExtractionMethod
  pub validation_status : ValidationStatus

unfoldable pub commercial_signal_post_init : CommercialSignal → Result (Unit {0})
commercial_signal_post_init s = do
  ensure_ratio s.confidence "signal confidence"
  ensure_aware s.observed_at "signal observed_at"

-- `CommercialSignal.is_usable`
unfoldable pub is_usable : CommercialSignal → Decimal → Bool
is_usable s minimum_confidence =
    if s.validation_status == ValidationStatus.rejected
    then false
    else if s.validation_status == ValidationStatus.confirmed
    then true
    else leb_ℤ minimum_confidence s.confidence

pub record ExtractionMetadata : Type 0 where
  pub provider : Option String
  pub model : Option String
  pub prompt_version : Option String
  pub schema_version : Option String
  pub overall_confidence : Option Decimal

ensure_optional_ratio : Option Decimal → String → Result (Unit {0})
ensure_optional_ratio none field_name = ok tt
ensure_optional_ratio (some d) field_name = ensure_ratio d field_name

unfoldable pub extraction_metadata_post_init : ExtractionMetadata → Result (Unit {0})
unfolding ensure_optional_ratio
extraction_metadata_post_init m =
    ensure_optional_ratio m.overall_confidence "extraction overall confidence"

pub record QualificationRequest : Type 0 where
  pub profile : LeadProfile
  pub signals : List CommercialSignal
  pub cause : QualificationCause
  pub trigger_id : Uuid
  pub correlation_id : Uuid
  pub eligibility : EligibilityStatus
  pub extraction : ExtractionMetadata

pub record PolicyReference : Type 0 where
  pub id : Uuid
  pub tenant_id : TenantId
  pub version : ℤ
  pub opportunity_type : OpportunityType
  pub fingerprint : String

pub record ScoreContribution : Type 0 where
  pub rule_code : String
  pub dimension : ScoreDimension
  pub points : ℤ
  pub signal_codes : List SignalCode
  pub explanation : String

pub record DimensionScore : Type 0 where
  pub dimension : ScoreDimension
  pub raw_points : ℤ
  pub points : ℤ
  pub maximum : ℤ

pub record AppliedPenalty : Type 0 where
  pub rule_code : String
  pub adjustment : ℤ
  pub effect : RuleEffect
  pub signal_codes : List SignalCode
  pub explanation : String
  pub blocked_offer : Option String

pub record HandoffDecision : Type 0 where
  pub required : Bool
  pub specialized : Bool
  pub reason_codes : List String

pub record QualificationExplanation : Type 0 where
  pub summary : String
  pub positive_reasons : List String
  pub penalty_reasons : List String
  pub applied_rule_codes : List String
  pub missing_information : List ProfileField
  pub blocked_offers : List String

pub record QualificationResult : Type 0 where
  pub id : Uuid
  pub tenant_id : TenantId
  pub lead_id : Uuid
  pub conversation_id : Uuid
  pub opportunity : Opportunity
  pub score : ℤ
  pub subtotal : ℤ
  pub classification : LeadClassification
  pub dimensions : List DimensionScore
  pub contributions : List ScoreContribution
  pub penalties : List AppliedPenalty
  pub effects : List RuleEffect
  pub action : RecommendedAction
  pub handoff : HandoffDecision
  pub eligibility : EligibilityStatus
  pub state_recommendation : Option LeadState
  pub policy : PolicyReference
  pub engine_version : String
  pub evaluated_at : DateTime
  pub cause : QualificationCause
  pub trigger_id : Uuid
  pub correlation_id : Uuid
  pub extraction : ExtractionMetadata
  pub signals_used : List SignalCode
  pub explanation : QualificationExplanation

unfoldable pub qualification_result_post_init : QualificationResult → Result (Unit {0})
qualification_result_post_init r = do
  raise_if (not (leb_ℤ (pos 0) r.score && leb_ℤ r.score (pos 100)))
      (validation_error "qualification score must remain between 0 and 100")
  raise_if (not (leb_ℤ (pos 0) r.subtotal && leb_ℤ r.subtotal (pos 100)))
      (validation_error "qualification subtotal must remain between 0 and 100")
  ensure_aware r.evaluated_at "qualification evaluated_at"
