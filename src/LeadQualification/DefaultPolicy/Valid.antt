-- ===== src/LeadQualification/DefaultPolicy/Valid.antt =====
-- The checks of the default policy of lead_qualification/default_policy.py.
use plataforma_saa_s_de_auto.Prelude.{
  ◌≡◌, refl, true, false, ℤ, pos, ◌≤ℤ◌, leb_ℤ, arith, contains, subset, intersects, has_duplicates,
  sum_ℤ, decide, ◌+ℤ◌,
}
use plataforma_saa_s_de_auto.Prelude.Sort.{sort_by}
use plataforma_saa_s_de_auto.Prelude.Text.{
  is_blank, is_empty, is_rule_code, text_length, text_concat, codes,
}
use plataforma_saa_s_de_auto.Errors.{ok, for_each, for_each-ok}
use plataforma_saa_s_de_auto.Foundation.{Uuid, TenantId, DateTime, ensure_aware, ensure_ratio}
use plataforma_saa_s_de_auto.LeadQualification.Vocabulary.{
  OpportunityType, opportunity_type_value, ScoreDimension-discrete, LeadClassification-discrete,
  SignalCode-discrete, RuleEffect-discrete, OpportunityType-discrete,
}
use plataforma_saa_s_de_auto.LeadQualification.Policy.{
  IsConstructed, scoring_policy_post_init, criterion_fits, covers, is_contiguous,
  scoring_criterion_post_init, penalty_rule_post_init, decision_rule_post_init,
  classification_band_post_init, dimension_definition_post_init,
}
use plataforma_saa_s_de_auto.LeadQualification.DefaultPolicy.Criteria.{default_criteria}
use plataforma_saa_s_de_auto.LeadQualification.DefaultPolicy.Rules.{
  default_penalties, default_decisions, default_bands, default_dimensions,
}
use plataforma_saa_s_de_auto.LeadQualification.DefaultPolicy.{build_default_telecom_policy}

-- What a run of the checks computes with.
unfoldable pub checks : Unit {0}
unfolding scoring_policy_post_init criterion_fits covers is_contiguous scoring_criterion_post_init
    penalty_rule_post_init decision_rule_post_init classification_band_post_init
    dimension_definition_post_init is_blank is_empty is_rule_code text_length text_concat codes
    ensure_aware ensure_ratio for_each contains subset intersects has_duplicates sum_ℤ ◌+ℤ◌ decide
    sort_by ScoreDimension-discrete LeadClassification-discrete SignalCode-discrete
    RuleEffect-discrete OpportunityType-discrete opportunity_type_value default_criteria
    default_penalties default_decisions default_bands default_dimensions
    build_default_telecom_policy
checks = tt

module _ (tenant_id : TenantId) (policy_id : Uuid) where
  policy_checked :
      (o : OpportunityType) (at : DateTime) (version : ℤ)
      → at.aware ≡ true
      → leb_ℤ version (pos 0) ≡ false
      → scoring_policy_post_init (build_default_telecom_policy tenant_id policy_id o at version)
        ≡ ok tt
  unfolding checks
  policy_checked OpportunityType.portability at version aware positive = rw (aware, positive)
  policy_checked _ at version aware positive = rw (aware, positive)

criteria_run :
    (o : OpportunityType) → for_each scoring_criterion_post_init (default_criteria o) ≡ ok tt
unfolding checks
criteria_run OpportunityType.portability = refl
criteria_run _ = refl

penalties_run : for_each penalty_rule_post_init default_penalties ≡ ok tt
unfolding checks
penalties_run = refl

decisions_run : for_each decision_rule_post_init default_decisions ≡ ok tt
unfolding checks
decisions_run = refl

bands_run : for_each classification_band_post_init default_bands ≡ ok tt
unfolding checks
bands_run = refl

dimensions_run : for_each dimension_definition_post_init default_dimensions ≡ ok tt
unfolding checks
dimensions_run = refl

-- The default policy of every opportunity type can be constructed, with any tenant and identifier,
-- from version 1 on and with a publication time that has a timezone.
pub default_policy-IsConstructed :
    (tenant_id : TenantId) (policy_id : Uuid) (o : OpportunityType) (at : DateTime) (version : ℤ)
    → at.aware ≡ true
    → pos 1 ≤ℤ version
    → IsConstructed (build_default_telecom_policy tenant_id policy_id o at version)
unfolding build_default_telecom_policy
default_policy-IsConstructed tenant_id policy_id o at version aware positive = record {
  dimensions_ok = for_each-ok dimension_definition_post_init default_dimensions dimensions_run;
  criteria_ok = for_each-ok scoring_criterion_post_init (default_criteria o) (criteria_run o);
  penalties_ok = for_each-ok penalty_rule_post_init default_penalties penalties_run;
  decisions_ok = for_each-ok decision_rule_post_init default_decisions decisions_run;
  bands_ok = for_each-ok classification_band_post_init default_bands bands_run;
  policy_ok = policy_checked tenant_id policy_id o at version aware (ground arith);
}
