-- ===== src/LeadQualification/Samples.antt =====
-- Requests, policies and results of lead_qualification that the tests share.
use plataforma_saa_s_de_auto.Prelude.{
  ℕ, ◌≡◌, refl, true, String, none, List, [], ◌∷◌, pos, arith, option_beq, filter, subset, contains,
  intersects, find, any, min_ℤ, max_ℤ, sum_ℤ, ◌+ℤ◌, decide, distinct, lex_ℤ,
}
use plataforma_saa_s_de_auto.Prelude.Sort.{sort_by}
use plataforma_saa_s_de_auto.Prelude.Text.{text_lt, codes}
use plataforma_saa_s_de_auto.Prelude.Dict.{get, put, keys}
use plataforma_saa_s_de_auto.Errors.{ok}
use plataforma_saa_s_de_auto.Foundation.{DateTime, hundredths, ensure_aware}
use plataforma_saa_s_de_auto.LeadQualification.Vocabulary.{
  OpportunityType, ProfileField, ExtractionMethod, ValidationStatus, SignalCode, LeadClassification,
  RecommendedAction, EligibilityStatus, QualificationCause, signal_code_value,
  score_dimension_value, recommended_action_value, SignalCode-discrete, signal_code_eq,
  ScoreDimension-discrete, RecommendedAction-discrete, RuleEffect-discrete,
  ValidationStatus-discrete, OpportunityType-discrete, PolicyStatus-discrete,
}
use plataforma_saa_s_de_auto.LeadQualification.Policy.{ScoringPolicy, IsConstructed}
use plataforma_saa_s_de_auto.LeadQualification.Request.{
  CommercialSignal, is_usable, QualificationRequest, QualificationResult,
  qualification_result_post_init,
}
use plataforma_saa_s_de_auto.LeadQualification.DefaultPolicy.{build_default_telecom_policy}
use plataforma_saa_s_de_auto.LeadQualification.DefaultPolicy.Criteria.{default_criteria}
use plataforma_saa_s_de_auto.LeadQualification.DefaultPolicy.Rules.{
  default_penalties, default_decisions, default_bands, default_dimensions,
}
use plataforma_saa_s_de_auto.LeadQualification.DefaultPolicy.Valid.{default_policy-IsConstructed}
use plataforma_saa_s_de_auto.LeadQualification.Scoring.Signals.{usable_signals, rank_lt}
use plataforma_saa_s_de_auto.LeadQualification.Scoring.Criteria.{
  criterion_matches, select_criteria, dimension_scores, is_ungrouped, group_criteria,
  best_of_groups, points_lt, dimension_code_lt, contribution_of, add_points, dimension_score,
  value_or_zero,
}
use plataforma_saa_s_de_auto.LeadQualification.Scoring.Decision.{
  classification, in_band, matched_penalties, matched_decisions, applied_penalty, decision_lt,
  recommended_action, handoff, state_recommendation, signals_used,
}
use plataforma_saa_s_de_auto.LeadQualification.Scoring.Engine.{
  evaluate, result_of, construct_result, ensure_policy_applies, score_of, subtotal_of, final_score,
  contributions_of, penalties_of,
}
use plataforma_saa_s_de_auto.LeadQualification.Scoring.Total.{Applies}

abbrev pub noon : DateTime
noon = record { instant = 1000; aware = true }

abbrev pub said : SignalCode → ℕ → ValidationStatus → CommercialSignal
said code confidence status = record {
  code = code;
  confidence = hundredths confidence;
  source_message_id = none;
  observed_at = noon;
  extraction_method = ExtractionMethod.ai;
  validation_status = status;
}

abbrev pub request_with : List CommercialSignal → QualificationRequest
request_with signals = record {
  profile = record {
    tenant_id = 7;
    lead_id = 8;
    conversation_id = 9;
    opportunity = record { primary = OpportunityType.portability; secondary = [] };
    facts = [];
    conflicts = [];
    missing_information = ProfileField.plan ∷ [];
  };
  signals = signals;
  cause = QualificationCause.message_received;
  trigger_id = 10;
  correlation_id = 11;
  eligibility = EligibilityStatus.not_applicable;
  extraction = record {
    provider = none;
    model = none;
    prompt_version = none;
    schema_version = none;
    overall_confidence = none;
  };
}

abbrev pub policy : ScoringPolicy
policy = build_default_telecom_policy 7 1 OpportunityType.portability noon (pos 1)

abbrev pub no_print : ScoringPolicy → String
no_print p = "fingerprint"

abbrev pub quote : CommercialSignal
quote = said SignalCode.requests_quote 90 ValidationStatus.accepted

abbrev pub price : CommercialSignal
price = said SignalCode.asks_price 80 ValidationStatus.hypothesis

-- Below the minimum confidence, but confirmed.
abbrev pub stop : CommercialSignal
stop = said SignalCode.do_not_contact 10 ValidationStatus.confirmed

abbrev pub buyer : QualificationRequest
buyer = request_with (price ∷ quote ∷ said SignalCode.immediate 60 ValidationStatus.accepted ∷ [])

abbrev pub leaver : QualificationRequest
leaver = request_with (quote ∷ stop ∷ [])

pub policy-IsConstructed : IsConstructed policy
policy-IsConstructed =
    default_policy-IsConstructed 7 1 OpportunityType.portability noon (pos 1) refl (omega arith)

-- What a run of the engine computes with.
unfoldable pub engine : Unit {0}
unfolding build_default_telecom_policy default_criteria default_penalties default_decisions
    default_bands default_dimensions usable_signals rank_lt is_usable get put keys select_criteria
    criterion_matches subset contains intersects filter is_ungrouped group_criteria best_of_groups
    points_lt dimension_code_lt sort_by lex_ℤ text_lt codes decide contribution_of dimension_scores
    dimension_score add_points value_or_zero contributions_of penalties_of subtotal_of score_of
    final_score sum_ℤ ◌+ℤ◌ min_ℤ max_ℤ matched_penalties matched_decisions applied_penalty
    decision_lt recommended_action handoff state_recommendation classification in_band find any
    distinct ensure_policy_applies ensure_aware evaluate result_of construct_result
    qualification_result_post_init signals_used signal_code_value score_dimension_value
    recommended_action_value SignalCode-discrete ScoreDimension-discrete RecommendedAction-discrete
    RuleEffect-discrete ValidationStatus-discrete OpportunityType-discrete PolicyStatus-discrete
    option_beq
engine = tt

-- The quote outranks the price in their group; the unconfirmed urgency is below the minimum.
pub buyer_score : score_of buyer policy ≡ pos 20
unfolding engine
buyer_score = refl

pub buyer_class :
    classification policy (pos 20)
    ≡ ok (LeadClassification.exploration, RecommendedAction.resolve_and_present_options)
unfolding engine
buyer_class = refl

pub buyer-Applies : Applies buyer policy
unfolding build_default_telecom_policy
buyer-Applies = record { published = refl; same_tenant = refl; same_opportunity = refl }

pub leaver-Applies : Applies leaver policy
unfolding build_default_telecom_policy
leaver-Applies = record { published = refl; same_tenant = refl; same_opportunity = refl }

abbrev pub cold : LeadClassification × RecommendedAction
cold = (LeadClassification.exploration, RecommendedAction.resolve_and_present_options)

abbrev pub leaver_result : QualificationResult
leaver_result = result_of no_print leaver policy 12 noon cold

pub leaver_evaluates : evaluate no_print leaver policy 12 noon ≡ ok leaver_result
unfolding engine
leaver_evaluates = refl

abbrev pub buyer_result : QualificationResult
buyer_result = result_of no_print buyer policy 12 noon cold

pub buyer_evaluates : evaluate no_print buyer policy 12 noon ≡ ok buyer_result
unfolding engine
buyer_evaluates = refl
