-- ===== src/LeadQualification/Policy.antt =====
-- The scoring policy of lead_qualification/domain.py (src/saas_platform/modules): its rules, and
-- the checks that each `__post_init__` makes. A dataclass value is a record; that it could be
-- constructed is that its `post_init` returns.

pub mod Facts
pub mod Bands
use plataforma_saa_s_de_auto.Prelude.{
  Bool, true, false, not, ◌&&◌, ◌||◌, String, Option, none, some, List, [], ◌∷◌, ◌++◌, map, ℤ, pos,
  negsuc, ltb, if◌then◌else◌, ◌+ℤ◌, ltb_ℤ, leb_ℤ, beq_ℤ, sum_ℤ, subset, intersects, has_duplicates,
  ◌==◌, ◌≡◌, All,
}
use plataforma_saa_s_de_auto.Prelude.Sort.{sort_by}
use plataforma_saa_s_de_auto.Prelude.Text.{
  is_blank, is_empty, is_rule_code, text_length, text_concat,
}
use plataforma_saa_s_de_auto.Errors.{Result, ok, ◌>>◌, raise_if, for_each, validation_error}
use plataforma_saa_s_de_auto.Foundation.{
  Uuid, TenantId, DateTime, Decimal, ensure_aware, ensure_ratio,
}
use plataforma_saa_s_de_auto.LeadQualification.Vocabulary.{
  OpportunityType, PolicyStatus, SignalCode, ScoreDimension, LeadClassification, RecommendedAction,
  LeadState, RuleEffect, signal_code_eq, score_dimension_eq, lead_classification_eq, rule_effect_eq,
}
use plataforma_saa_s_de_auto.Prelude.{string_eq}

-- `_ensure_rule_code`
unfoldable pub ensure_rule_code : String → String → Result (Unit {0})
ensure_rule_code value field_name =
    raise_if (not (is_rule_code value))
      (validation_error (text_concat (field_name ∷ " is invalid" ∷ [])))

pub record DimensionDefinition : Type 0 where
  pub dimension : ScoreDimension
  pub max_points : ℤ

unfoldable pub dimension_definition_post_init : DimensionDefinition → Result (Unit {0})
dimension_definition_post_init d =
    raise_if (not (leb_ℤ (pos 1) d.max_points && leb_ℤ d.max_points (pos 100)))
      (validation_error "dimension max points must be between 1 and 100")

pub record ScoringCriterion : Type 0 where
  pub code : String
  pub dimension : ScoreDimension
  pub points : ℤ
  pub required_signals : List SignalCode
  pub explanation : String
  pub excluded_signals : List SignalCode
  pub exclusive_group : Option String

is_nil : List SignalCode → Bool
is_nil [] = true
is_nil (x ∷ xs) = false

ensure_group : Option String → Result (Unit {0})
unfolding ensure_rule_code
ensure_group none = ok tt
ensure_group (some g) = ensure_rule_code g "exclusive group"

unfoldable pub scoring_criterion_post_init : ScoringCriterion → Result (Unit {0})
unfolding is_nil ensure_group
scoring_criterion_post_init c = do
  ensure_rule_code c.code "rule code"
  raise_if (leb_ℤ c.points (pos 0)) (validation_error "scoring criterion points must be positive")
  raise_if (is_nil c.required_signals)
      (validation_error "scoring criterion requires at least one signal")
  raise_if (intersects c.required_signals c.excluded_signals)
      (validation_error "criterion signals cannot be both required and excluded")
  raise_if (is_blank c.explanation) (validation_error "scoring criterion requires an explanation")
  ensure_group c.exclusive_group

pub record PenaltyRule : Type 0 where
  pub code : String
  pub adjustment : ℤ
  pub effect : RuleEffect
  pub required_signals : List SignalCode
  pub explanation : String
  pub recommended_action : Option RecommendedAction
  pub blocked_offer : Option String

-- `not value` of an optional text.
absent : Option String → Bool
absent none = true
absent (some s) = is_empty s

unfoldable pub penalty_rule_post_init : PenaltyRule → Result (Unit {0})
unfolding is_nil absent ensure_rule_code
penalty_rule_post_init r = do
  ensure_rule_code r.code "rule code"
  raise_if (not (leb_ℤ (negsuc 99) r.adjustment && leb_ℤ r.adjustment (pos 0)))
      (validation_error "penalty adjustment must be between -100 and 0")
  raise_if (r.effect == RuleEffect.penalty && beq_ℤ r.adjustment (pos 0))
      (validation_error "a point penalty must have a negative adjustment")
  raise_if (is_nil r.required_signals)
      (validation_error "penalty rule requires at least one signal")
  raise_if (is_blank r.explanation) (validation_error "penalty rule requires an explanation")
  raise_if (r.effect == RuleEffect.offer_block && absent r.blocked_offer)
      (validation_error "offer block rules must identify the blocked offer")

pub record DecisionRule : Type 0 where
  pub code : String
  pub priority : ℤ
  pub required_signals : List SignalCode
  pub action : RecommendedAction
  pub explanation : String
  pub handoff_required : Bool
  pub specialized_handoff : Bool
  pub handoff_reason : Option String
  pub state_recommendation : Option LeadState

unfoldable pub decision_rule_post_init : DecisionRule → Result (Unit {0})
unfolding is_nil absent ensure_rule_code
decision_rule_post_init r = do
  ensure_rule_code r.code "rule code"
  raise_if (ltb_ℤ r.priority (pos 0)) (validation_error "decision priority cannot be negative")
  raise_if (is_nil r.required_signals)
      (validation_error "decision rule requires at least one signal")
  raise_if (is_blank r.explanation) (validation_error "decision rule requires an explanation")
  raise_if (r.handoff_required && absent r.handoff_reason)
      (validation_error "handoff decisions require a reason")
  raise_if (r.specialized_handoff && not r.handoff_required)
      (validation_error "specialized handoff must require handoff")

pub record ClassificationBand : Type 0 where
  pub minimum : ℤ
  pub maximum : ℤ
  pub classification : LeadClassification
  pub action : RecommendedAction

unfoldable pub classification_band_post_init : ClassificationBand → Result (Unit {0})
classification_band_post_init b =
    raise_if
      (not (leb_ℤ (pos 0) b.minimum && leb_ℤ b.minimum b.maximum && leb_ℤ b.maximum (pos 100)))
      (validation_error "classification band must remain within 0 and 100")

pub record ScoringPolicy : Type 0 where
  pub id : Uuid
  pub tenant_id : TenantId
  pub name : String
  pub version : ℤ
  pub opportunity_type : OpportunityType
  pub status : PolicyStatus
  pub dimensions : List DimensionDefinition
  pub criteria : List ScoringCriterion
  pub penalties : List PenaltyRule
  pub decisions : List DecisionRule
  pub classification_bands : List ClassificationBand
  pub minimum_signal_confidence : Decimal
  pub published_at : DateTime

-- `set(ScoreDimension)`
abbrev pub all_dimensions : List ScoreDimension
all_dimensions =
    ScoreDimension.need_compatibility ∷ ScoreDimension.purchase_intent
    ∷ ScoreDimension.budget_payment ∷ ScoreDimension.urgency ∷ ScoreDimension.engagement
    ∷ ScoreDimension.commercial_potential ∷ []

-- `dimension_map[d].max_points`, and `none` for a missing key.
unfoldable pub dimension_maximum : ScoreDimension → List DimensionDefinition → Option ℤ
dimension_maximum d [] = none
dimension_maximum d (x ∷ xs) =
    if x.dimension == d then some x.max_points else dimension_maximum d xs

exceeds : ℤ → Option ℤ → Bool
exceeds points none = true
exceeds points (some maximum) = ltb_ℤ maximum points

unfoldable pub criterion_fits : List DimensionDefinition → ScoringCriterion → Result (Unit {0})
unfolding exceeds dimension_maximum
criterion_fits dims c =
    raise_if (exceeds c.points (dimension_maximum c.dimension dims))
      (validation_error "criterion points cannot exceed its dimension maximum")

abbrev pub band_lt : ClassificationBand → ClassificationBand → Bool
band_lt a b = ltb_ℤ a.minimum b.minimum

-- `bands[-1].maximum == 100`
unfoldable pub ends_at_100 : ClassificationBand → List ClassificationBand → Bool
ends_at_100 b [] = beq_ℤ b.maximum (pos 100)
ends_at_100 b (c ∷ cs) = ends_at_100 c cs

unfoldable pub covers : List ClassificationBand → Bool
unfolding ends_at_100
covers [] = false
covers (b ∷ bs) = beq_ℤ b.minimum (pos 0) && ends_at_100 b bs

-- The loop over `zip(bands, bands[1:])`.
unfoldable pub contiguous : ClassificationBand → List ClassificationBand → Bool
contiguous b [] = true
contiguous b (c ∷ cs) = beq_ℤ c.minimum (b.maximum +ℤ pos 1) && contiguous c cs

unfoldable pub is_contiguous : List ClassificationBand → Bool
unfolding contiguous
is_contiguous [] = true
is_contiguous (b ∷ bs) = contiguous b bs

abbrev pub rule_codes : ScoringPolicy → List String
rule_codes p =
    map (λ c. c.code) p.criteria ++ (map (λ r. r.code) p.penalties ++ map (λ d. d.code) p.decisions)

unfoldable pub scoring_policy_post_init : ScoringPolicy → Result (Unit {0})
scoring_policy_post_init p = do
  raise_if (is_blank p.name || ltb 120 (text_length p.name))
      (validation_error "scoring policy name must contain between 1 and 120 characters")
  raise_if (leb_ℤ p.version (pos 0)) (validation_error "scoring policy version must be positive")
  ensure_ratio p.minimum_signal_confidence "minimum signal confidence"
  ensure_aware p.published_at "policy published_at"
  let dims = map (λ d. d.dimension) p.dimensions
  raise_if (has_duplicates dims) (validation_error "scoring policy dimensions must be unique")
  raise_if (not (subset dims all_dimensions && subset all_dimensions dims))
      (validation_error "scoring policy must define all score dimensions")
  raise_if (not (beq_ℤ (sum_ℤ (map (λ d. d.max_points) p.dimensions)) (pos 100)))
      (validation_error "scoring policy dimension maxima must total 100")
  raise_if (has_duplicates (rule_codes p))
      (validation_error "scoring policy rule codes must be unique")
  for_each (criterion_fits p.dimensions) p.criteria
  let bands = sort_by band_lt p.classification_bands
  raise_if (not (covers bands)) (validation_error "classification bands must cover 0 through 100")
  raise_if (not (is_contiguous bands))
      (validation_error "classification bands cannot contain gaps or overlaps")
  raise_if (has_duplicates (map (λ b. b.classification) bands))
      (validation_error "classification bands must use unique classifications")

-- A policy that the program can hold: it and all its parts were constructed.
pub record IsConstructed (p : ScoringPolicy) : Type 0 where
  pub dimensions_ok : All (λ d. dimension_definition_post_init d ≡ ok tt) p.dimensions
  pub criteria_ok : All (λ c. scoring_criterion_post_init c ≡ ok tt) p.criteria
  pub penalties_ok : All (λ r. penalty_rule_post_init r ≡ ok tt) p.penalties
  pub decisions_ok : All (λ r. decision_rule_post_init r ≡ ok tt) p.decisions
  pub bands_ok : All (λ b. classification_band_post_init b ≡ ok tt) p.classification_bands
  pub policy_ok : scoring_policy_post_init p ≡ ok tt
