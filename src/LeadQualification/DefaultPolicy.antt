-- ===== src/LeadQualification/DefaultPolicy.antt =====
-- `build_default_telecom_policy` of lead_qualification/default_policy.py, and the provider of
-- telecom_conversations/policy.py (src/saas_platform/modules).
pub mod Criteria
pub mod Rules
pub mod Valid
pub mod NoContact
pub mod Execution
use plataforma_saa_s_de_auto.Prelude.{Bool, true, String, List, [], ◌∷◌, ℤ, pos, ◌*◌, ◌^◌}
use plataforma_saa_s_de_auto.Prelude.Text.{text_concat}
use plataforma_saa_s_de_auto.Foundation.{Uuid, TenantId, DateTime, hundredths}
use plataforma_saa_s_de_auto.LeadQualification.Vocabulary.{
  OpportunityType, PolicyStatus, opportunity_type_value,
}
use plataforma_saa_s_de_auto.LeadQualification.Policy.{ScoringPolicy}
use Criteria.{default_criteria}
use Rules.{default_dimensions, default_penalties, default_decisions, default_bands}

unfoldable pub build_default_telecom_policy :
    TenantId → Uuid → OpportunityType → DateTime → ℤ → ScoringPolicy
build_default_telecom_policy tenant_id policy_id opportunity_type published_at version = record {
  id = policy_id;
  tenant_id = tenant_id;
  name =
      text_concat (
        "Default telecommunications qualification: "
        ∷ opportunity_type_value opportunity_type
        ∷ []);
  version = version;
  opportunity_type = opportunity_type;
  status = PolicyStatus.published;
  dimensions = default_dimensions;
  criteria = default_criteria opportunity_type;
  penalties = default_penalties;
  decisions = default_decisions;
  classification_bands = default_bands;
  minimum_signal_confidence = hundredths 70;
  published_at = published_at;
}

-- 2026-07-31T00:00:00Z, in microseconds from the year 1.
abbrev pub base_policy_published_at : DateTime
base_policy_published_at = record { instant = 739827 * 86400 * 10 ^ 6; aware = true }

-- `CodeDefaultScoringPolicyProvider.get_published`: `uuid5` is that of the standard library in the
-- namespace NAMESPACE_URL, and `uuid_text` is `str` of a UUID.
unfoldable pub get_published :
    (String → Uuid) → (Uuid → String) → TenantId → OpportunityType → ScoringPolicy
get_published uuid5 uuid_text tenant_id opportunity_type =
    let name = text_concat (
      "saas-platform:telecom-policy:"
      ∷ uuid_text tenant_id
      ∷ ":"
      ∷ opportunity_type_value opportunity_type
      ∷ ":v1"
      ∷ []) in
    build_default_telecom_policy tenant_id (uuid5 name) opportunity_type base_policy_published_at
      (pos 1)
