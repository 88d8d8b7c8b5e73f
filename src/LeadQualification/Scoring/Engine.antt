-- ===== src/LeadQualification/Scoring/Engine.antt =====
-- `LeadScoringEngine.evaluate`, `_ensure_policy_applies` and `_explanation` of
-- lead_qualification/scoring.py, and `EvaluateLeadQualification.execute` of
-- lead_qualification/application.py (src/saas_platform/modules).
use plataforma_saa_s_de_auto.Prelude.{
  Bool, not, String, none, some, List, [], ◌∷◌, ◌++◌, map, ℤ, pos, pos_part, ◌+ℤ◌, min_ℤ, lex_ℤ,
  max_ℤ, sum_ℤ, length, distinct, ◌==◌, string_eq, nat_eq,
}
use plataforma_saa_s_de_auto.Prelude.Sort.{sort_by}
use plataforma_saa_s_de_auto.Prelude.Dict.{keys}
use plataforma_saa_s_de_auto.Prelude.Text.{text_lt, text_concat, text_join, show_ℕ}
use plataforma_saa_s_de_auto.Errors.{
  Result, ok, ◌>>=◌, ◌>>◌, raise_if, validation_error, conflict_error, forbidden_error,
}
use plataforma_saa_s_de_auto.Foundation.{Uuid, TenantId, DateTime}
use plataforma_saa_s_de_auto.LeadQualification.Vocabulary.{
  OpportunityType, PolicyStatus, ProfileField, LeadClassification, RecommendedAction, RuleEffect,
  policy_status_eq, signal_code_eq, opportunity_type_eq, rule_effect_eq, rule_effect_value,
  lead_classification_value, recommended_action_value,
}
use plataforma_saa_s_de_auto.LeadQualification.Policy.{ScoringPolicy, DecisionRule}
use plataforma_saa_s_de_auto.LeadQualification.Request.{
  QualificationRequest, QualificationResult, qualification_result_post_init, ScoreContribution,
  AppliedPenalty, QualificationExplanation,
}
use plataforma_saa_s_de_auto.LeadQualification.Scoring.Signals.{usable_signals}
use plataforma_saa_s_de_auto.LeadQualification.Scoring.Criteria.{
  select_criteria, contribution_of, dimension_scores,
}
use plataforma_saa_s_de_auto.LeadQualification.Scoring.Decision.{
  matched_penalties, matched_decisions, applied_penalty, classification, recommended_action,
  handoff, state_recommendation, signals_used,
}

unfoldable pub ensure_policy_applies : QualificationRequest → ScoringPolicy → Result (Unit {0})
ensure_policy_applies request policy = do
  raise_if (not (policy.status == PolicyStatus.published))
      (conflict_error "only published scoring policies can evaluate leads")
  raise_if (not (policy.tenant_id == request.profile.tenant_id))
      (forbidden_error "scoring policy belongs to a different tenant")
  raise_if (not (policy.opportunity_type == request.profile.opportunity.primary))
      (validation_error "scoring policy does not match the primary opportunity")

-- `(-item.points, item.rule_code)`
contribution_lt : ScoreContribution → ScoreContribution → Bool
contribution_lt a b = lex_ℤ b.points a.points (text_lt a.rule_code b.rule_code)

strongest : List ScoreContribution → List String
strongest [] = []
strongest (c ∷ cs) = text_concat ("strongest evidence: " ∷ c.explanation ∷ []) ∷ []

first_penalty : List AppliedPenalty → List String
first_penalty [] = []
first_penalty (p ∷ ps) = text_concat ("penalty: " ∷ p.explanation ∷ []) ∷ []

missing_part : List ProfileField → List String
missing_part [] = []
missing_part (f ∷ fs) =
    text_concat ("missing information: " ∷ show_ℕ (length (f ∷ fs)) ∷ " field(s)" ∷ []) ∷ []

-- The score is clamped before it is shown, so its text has no sign.
unfoldable pub explanation :
    ℤ
    → LeadClassification
    → RecommendedAction
    → List ScoreContribution
    → List AppliedPenalty
    → List DecisionRule
    → List ProfileField
    → List String
    → QualificationExplanation
unfolding contribution_lt strongest first_penalty missing_part
explanation score class action contributions penalties decisions missing blocked = record {
  summary = text_concat (
      text_join "; " (
        text_concat
          (lead_classification_value class ∷ " lead with " ∷ show_ℕ (pos_part score) ∷ "/100" ∷ [])
        ∷ text_concat ("recommended action: " ∷ recommended_action_value action ∷ [])
        ∷ (strongest (sort_by contribution_lt contributions)
            ++ (first_penalty penalties ++ missing_part missing)))
      ∷ "."
      ∷ []);
  positive_reasons = map (λ c. c.explanation) contributions;
  penalty_reasons = map (λ p. p.explanation) penalties;
  applied_rule_codes =
      map (λ c. c.rule_code) contributions
      ++ (map (λ p. p.rule_code) penalties ++ map (λ d. d.code) decisions);
  missing_information = missing;
  blocked_offers = blocked;
}

unfoldable pub blocked_offers : List AppliedPenalty → List String
blocked_offers [] = []
blocked_offers (p ∷ ps) =
    let rest = blocked_offers ps in elim p.blocked_offer [ none ↦ rest | some o ↦ o ∷ rest ]

abbrev pub effect_lt : RuleEffect → RuleEffect → Bool
effect_lt a b = text_lt (rule_effect_value a) (rule_effect_value b)

-- `max(0, min(100, subtotal + sum(…)))`
unfoldable pub final_score : ℤ → List AppliedPenalty → ℤ
final_score subtotal penalties =
    max_ℤ (pos 0) (min_ℤ (pos 100) (subtotal +ℤ sum_ℤ (map (λ p. p.adjustment) penalties)))

abbrev pub engine_version : String
engine_version = "telecom-scoring.v1"

unfoldable pub contributions_of : QualificationRequest → ScoringPolicy → List ScoreContribution
contributions_of request policy =
    map contribution_of (select_criteria policy.criteria (keys (usable_signals request policy)))

unfoldable pub penalties_of : QualificationRequest → ScoringPolicy → List AppliedPenalty
penalties_of request policy =
    map applied_penalty (matched_penalties policy (keys (usable_signals request policy)))

unfoldable pub subtotal_of : QualificationRequest → ScoringPolicy → ℤ
subtotal_of request policy =
    sum_ℤ (map (λ d. d.points) (dimension_scores policy (contributions_of request policy)))

unfoldable pub score_of : QualificationRequest → ScoringPolicy → ℤ
score_of request policy = final_score (subtotal_of request policy) (penalties_of request policy)

-- `QualificationResult(…)`: the check of its `__post_init__`, then the value.
unfoldable pub construct_result : QualificationResult → Result QualificationResult
construct_result r = qualification_result_post_init r >> ok r

-- `fingerprint` is `ScoringPolicy.fingerprint`.
module _ (fingerprint : ScoringPolicy → String) where
  -- The result once the score is classified.
  unfoldable pub result_of :
      QualificationRequest
      → ScoringPolicy
      → Uuid
      → DateTime
      → LeadClassification × RecommendedAction
      → QualificationResult
  result_of request policy evaluation_id evaluated_at (class, by_class) =
      let signals = keys (usable_signals request policy) in
      let contributions = contributions_of request policy in
      let penalty_rules = matched_penalties policy signals in
      let penalties = penalties_of request policy in
      let decisions = matched_decisions policy signals in
      let score = score_of request policy in
      let chosen = recommended_action by_class penalty_rules decisions in
      let blocked = sort_by text_lt (distinct (blocked_offers penalties)) in
      record {
        id = evaluation_id;
        tenant_id = request.profile.tenant_id;
        lead_id = request.profile.lead_id;
        conversation_id = request.profile.conversation_id;
        opportunity = request.profile.opportunity;
        score = score;
        subtotal = subtotal_of request policy;
        classification = class;
        dimensions = dimension_scores policy contributions;
        contributions = contributions;
        penalties = penalties;
        effects = sort_by effect_lt (distinct (map (λ p. p.effect) penalties));
        action = chosen.0;
        handoff = handoff chosen.0 class chosen.1 decisions;
        eligibility = request.eligibility;
        state_recommendation = state_recommendation chosen.1 penalties;
        policy = record {
          id = policy.id;
          tenant_id = policy.tenant_id;
          version = policy.version;
          opportunity_type = policy.opportunity_type;
          fingerprint = fingerprint policy;
        };
        engine_version = engine_version;
        evaluated_at = evaluated_at;
        cause = request.cause;
        trigger_id = request.trigger_id;
        correlation_id = request.correlation_id;
        extraction = request.extraction;
        signals_used = signals_used contributions penalties decisions;
        explanation =
            explanation score class chosen.0 contributions penalties decisions
              request.profile.missing_information blocked;
      }

  unfoldable pub evaluate :
      QualificationRequest → ScoringPolicy → Uuid → DateTime → Result QualificationResult
  evaluate request policy evaluation_id evaluated_at = do
    ensure_policy_applies request policy
    classified ← classification policy (score_of request policy)
    construct_result (result_of request policy evaluation_id evaluated_at classified)

  -- `EvaluateLeadQualification.execute`: `get_published`, `new` and `now` are its collaborators.
  unfoldable pub execute :
      (TenantId → OpportunityType → ScoringPolicy)
      → Uuid
      → DateTime
      → QualificationRequest
      → Result QualificationResult
  execute get_published new now request =
      evaluate request (get_published request.profile.tenant_id request.profile.opportunity.primary)
        new now
