-- ===== src/LeadQualification/Policy/Facts.antt =====
-- The checks of `ScoringPolicy.__post_init__` and its parts, as facts.
use plataforma_saa_s_de_auto.Prelude.{
  true, false, ◌≡◌, pos, ◌≤ℤ◌, beq_ℤ→eq, arith, map, sum_ℤ, has_duplicates, subset, string_eq,
}
use plataforma_saa_s_de_auto.Prelude.Sort.{sort_by}
use plataforma_saa_s_de_auto.Errors.{ok}
use plataforma_saa_s_de_auto.LeadQualification.Vocabulary.{score_dimension_eq}
use plataforma_saa_s_de_auto.LeadQualification.Policy.{
  ScoringPolicy, scoring_policy_post_init, covers, is_contiguous, band_lt, DimensionDefinition,
  dimension_definition_post_init, ClassificationBand, classification_band_post_init,
  ScoringCriterion, scoring_criterion_post_init, all_dimensions, rule_codes,
}

pub record PolicyFacts (p : ScoringPolicy) : Type 0 where
  pub distinct_dimensions : has_duplicates (map (λ d. d.dimension) p.dimensions) ≡ false
  pub all_present : subset all_dimensions (map (λ d. d.dimension) p.dimensions) ≡ true
  pub total : sum_ℤ (map (λ d. d.max_points) p.dimensions) ≡ pos 100
  pub distinct_codes : has_duplicates (rule_codes p) ≡ false
  pub bands_cover : covers (sort_by band_lt p.classification_bands) ≡ true
  pub bands_contiguous : is_contiguous (sort_by band_lt p.classification_bands) ≡ true

pub policy_facts : (p : ScoringPolicy) → scoring_policy_post_init p ≡ ok tt → PolicyFacts p
unfolding scoring_policy_post_init
policy_facts p h = ground (
  arith,
  beq_ℤ→eq (sum_ℤ (map (λ (d : DimensionDefinition). d.max_points) p.dimensions)) (pos 100),
)

pub dimension_bounds :
    (d : DimensionDefinition)
    → dimension_definition_post_init d ≡ ok tt
    → (pos 1 ≤ℤ d.max_points) × (d.max_points ≤ℤ pos 100)
unfolding dimension_definition_post_init
dimension_bounds d h = ground arith

pub band_bounds :
    (b : ClassificationBand)
    → classification_band_post_init b ≡ ok tt
    → (pos 0 ≤ℤ b.minimum) × (b.minimum ≤ℤ b.maximum) × (b.maximum ≤ℤ pos 100)
unfolding classification_band_post_init
band_bounds b h = ground arith

pub criterion_points :
    (c : ScoringCriterion) → scoring_criterion_post_init c ≡ ok tt → pos 1 ≤ℤ c.points
unfolding scoring_criterion_post_init
criterion_points c h = ground arith
