-- ===== src/LeadQualification/Vocabulary/General.antt =====
-- Enumerations of lead_qualification/domain.py (src/saas_platform/modules): opportunities, sources and statuses, each with its `value`.
use plataforma_saa_s_de_auto.Prelude.{String, Eq, eq_of_discrete}

pub data OpportunityType : Type 0 where
  device_purchase device_with_plan plan_subscription new_line portability renewal
        prepaid_to_postpaid accessory multiple_lines business_account unidentified :
      OpportunityType

unfoldable pub OpportunityType-discrete : Discrete OpportunityType
OpportunityType-discrete = hlevel

instance abbrev pub opportunity_type_eq : Eq OpportunityType
opportunity_type_eq = eq_of_discrete OpportunityType-discrete

unfoldable pub opportunity_type_value : OpportunityType → String
opportunity_type_value OpportunityType.device_purchase = "device_purchase"
opportunity_type_value OpportunityType.device_with_plan = "device_with_plan"
opportunity_type_value OpportunityType.plan_subscription = "plan_subscription"
opportunity_type_value OpportunityType.new_line = "new_line"
opportunity_type_value OpportunityType.portability = "portability"
opportunity_type_value OpportunityType.renewal = "renewal"
opportunity_type_value OpportunityType.prepaid_to_postpaid = "prepaid_to_postpaid"
opportunity_type_value OpportunityType.accessory = "accessory"
opportunity_type_value OpportunityType.multiple_lines = "multiple_lines"
opportunity_type_value OpportunityType.business_account = "business_account"
opportunity_type_value OpportunityType.unidentified = "unidentified"

pub data FactSource : Type 0 where
  customer system_lookup human_advisor import : FactSource

unfoldable pub FactSource-discrete : Discrete FactSource
FactSource-discrete = hlevel

instance abbrev pub fact_source_eq : Eq FactSource
fact_source_eq = eq_of_discrete FactSource-discrete

unfoldable pub fact_source_value : FactSource → String
fact_source_value FactSource.customer = "customer"
fact_source_value FactSource.system_lookup = "system_lookup"
fact_source_value FactSource.human_advisor = "human_advisor"
fact_source_value FactSource.import = "import"

pub data ExtractionMethod : Type 0 where
  explicit ai human system import : ExtractionMethod

unfoldable pub ExtractionMethod-discrete : Discrete ExtractionMethod
ExtractionMethod-discrete = hlevel

instance abbrev pub extraction_method_eq : Eq ExtractionMethod
extraction_method_eq = eq_of_discrete ExtractionMethod-discrete

unfoldable pub extraction_method_value : ExtractionMethod → String
extraction_method_value ExtractionMethod.explicit = "explicit"
extraction_method_value ExtractionMethod.ai = "ai"
extraction_method_value ExtractionMethod.human = "human"
extraction_method_value ExtractionMethod.system = "system"
extraction_method_value ExtractionMethod.import = "import"

pub data ValidationStatus : Type 0 where
  hypothesis accepted confirmed rejected : ValidationStatus

unfoldable pub ValidationStatus-discrete : Discrete ValidationStatus
ValidationStatus-discrete = hlevel

instance abbrev pub validation_status_eq : Eq ValidationStatus
validation_status_eq = eq_of_discrete ValidationStatus-discrete

unfoldable pub validation_status_value : ValidationStatus → String
validation_status_value ValidationStatus.hypothesis = "hypothesis"
validation_status_value ValidationStatus.accepted = "accepted"
validation_status_value ValidationStatus.confirmed = "confirmed"
validation_status_value ValidationStatus.rejected = "rejected"

pub data QualificationCause : Type 0 where
  message_received profile_updated manual_recalculation policy_published : QualificationCause

unfoldable pub QualificationCause-discrete : Discrete QualificationCause
QualificationCause-discrete = hlevel

instance abbrev pub qualification_cause_eq : Eq QualificationCause
qualification_cause_eq = eq_of_discrete QualificationCause-discrete

unfoldable pub qualification_cause_value : QualificationCause → String
qualification_cause_value QualificationCause.message_received = "message_received"
qualification_cause_value QualificationCause.profile_updated = "profile_updated"
qualification_cause_value QualificationCause.manual_recalculation = "manual_recalculation"
qualification_cause_value QualificationCause.policy_published = "policy_published"

pub data EligibilityStatus : Type 0 where
  pending_validation eligible eligible_with_conditions not_eligible manual_review_required
        not_applicable :
      EligibilityStatus

unfoldable pub EligibilityStatus-discrete : Discrete EligibilityStatus
EligibilityStatus-discrete = hlevel

instance abbrev pub eligibility_status_eq : Eq EligibilityStatus
eligibility_status_eq = eq_of_discrete EligibilityStatus-discrete

unfoldable pub eligibility_status_value : EligibilityStatus → String
eligibility_status_value EligibilityStatus.pending_validation = "pending_validation"
eligibility_status_value EligibilityStatus.eligible = "eligible"
eligibility_status_value EligibilityStatus.eligible_with_conditions = "eligible_with_conditions"
eligibility_status_value EligibilityStatus.not_eligible = "not_eligible"
eligibility_status_value EligibilityStatus.manual_review_required = "manual_review_required"
eligibility_status_value EligibilityStatus.not_applicable = "not_applicable"

pub data PolicyStatus : Type 0 where
  draft published retired : PolicyStatus

unfoldable pub PolicyStatus-discrete : Discrete PolicyStatus
PolicyStatus-discrete = hlevel

instance abbrev pub policy_status_eq : Eq PolicyStatus
policy_status_eq = eq_of_discrete PolicyStatus-discrete

unfoldable pub policy_status_value : PolicyStatus → String
policy_status_value PolicyStatus.draft = "draft"
policy_status_value PolicyStatus.published = "published"
policy_status_value PolicyStatus.retired = "retired"
