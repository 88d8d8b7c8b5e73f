-- ===== src/LeadQualification/DefaultPolicy/Rules.antt =====
-- The penalties, decisions, dimensions and bands of lead_qualification/default_policy.py
-- (src/saas_platform/modules).
use plataforma_saa_s_de_auto.Prelude.{none, some, List, [], ◌∷◌, true, false, pos, negsuc, ℤ}
use plataforma_saa_s_de_auto.LeadQualification.Vocabulary.{
  ScoreDimension, SignalCode, RuleEffect, RecommendedAction, LeadState, LeadClassification,
}
use plataforma_saa_s_de_auto.LeadQualification.Policy.{
  DimensionDefinition, PenaltyRule, DecisionRule, ClassificationBand,
}

abbrev no_coverage_penalty : PenaltyRule
no_coverage_penalty = record {
  code = "penalty.no_coverage";
  adjustment = negsuc 19;
  effect = RuleEffect.offer_block;
  required_signals = SignalCode.no_coverage ∷ [];
  explanation = "The requested offer has no confirmed coverage";
  recommended_action = some RecommendedAction.search_alternatives;
  blocked_offer = some "requested_offer";
}

abbrev device_out_of_stock_penalty : PenaltyRule
device_out_of_stock_penalty = record {
  code = "penalty.device_out_of_stock";
  adjustment = negsuc 9;
  effect = RuleEffect.offer_block;
  required_signals = SignalCode.device_out_of_stock ∷ [];
  explanation = "The requested device is out of stock";
  recommended_action = some RecommendedAction.search_alternatives;
  blocked_offer = some "requested_device";
}

abbrev incompatible_budget_no_alternatives_penalty : PenaltyRule
incompatible_budget_no_alternatives_penalty = record {
  code = "penalty.incompatible_budget_no_alternatives";
  adjustment = negsuc 14;
  effect = RuleEffect.penalty;
  required_signals = SignalCode.budget_incompatible_no_alternatives ∷ [];
  explanation = "The budget is incompatible and alternatives were declined";
  recommended_action = none;
  blocked_offer = none;
}

abbrev purchase_over_six_months_penalty : PenaltyRule
purchase_over_six_months_penalty = record {
  code = "penalty.purchase_over_six_months";
  adjustment = negsuc 7;
  effect = RuleEffect.penalty;
  required_signals = SignalCode.purchase_over_six_months ∷ [];
  explanation = "The expected purchase is more than six months away";
  recommended_action = none;
  blocked_offer = none;
}

abbrev contradictory_information_penalty : PenaltyRule
contradictory_information_penalty = record {
  code = "penalty.contradictory_information";
  adjustment = negsuc 4;
  effect = RuleEffect.penalty;
  required_signals = SignalCode.contradictory_information ∷ [];
  explanation = "The available commercial information is contradictory";
  recommended_action = none;
  blocked_offer = none;
}

abbrev prolonged_inactivity_penalty : PenaltyRule
prolonged_inactivity_penalty = record {
  code = "penalty.prolonged_inactivity";
  adjustment = negsuc 4;
  effect = RuleEffect.temporary_exclusion;
  required_signals = SignalCode.prolonged_inactivity ∷ [];
  explanation = "The conversation has been inactive for the configured period";
  recommended_action = none;
  blocked_offer = none;
}

abbrev pub no_contact_penalty : PenaltyRule
no_contact_penalty = record {
  code = "control.do_not_contact";
  adjustment = pos 0;
  effect = RuleEffect.do_not_contact;
  required_signals = SignalCode.do_not_contact ∷ [];
  explanation = "The prospect requested no further contact";
  recommended_action = some RecommendedAction.stop_automation;
  blocked_offer = none;
}

abbrev pub no_contact_decision : DecisionRule
no_contact_decision = record {
  code = "decision.do_not_contact";
  priority = pos 1000;
  required_signals = SignalCode.do_not_contact ∷ [];
  action = RecommendedAction.stop_automation;
  explanation = "A no-contact request supersedes commercial prioritization";
  handoff_required = false;
  specialized_handoff = false;
  handoff_reason = none;
  state_recommendation = some LeadState.do_not_contact;
}

abbrev explicit_human_request_decision : DecisionRule
explicit_human_request_decision = record {
  code = "decision.explicit_human_request";
  priority = pos 950;
  required_signals = SignalCode.requests_human ∷ [];
  action = RecommendedAction.immediate_handoff;
  explanation = "The prospect explicitly requested a human advisor";
  handoff_required = true;
  specialized_handoff = false;
  handoff_reason = some "customer.requested_human";
  state_recommendation = some LeadState.transferred_to_advisor;
}

abbrev business_multiple_lines_decision : DecisionRule
business_multiple_lines_decision = record {
  code = "decision.business_multiple_lines";
  priority = pos 900;
  required_signals = SignalCode.business_account ∷ SignalCode.multiple_lines ∷ [];
  action = RecommendedAction.specialized_handoff;
  explanation = "A business opportunity with multiple lines needs specialist care";
  handoff_required = true;
  specialized_handoff = true;
  handoff_reason = some "business.multiple_lines";
  state_recommendation = some LeadState.transferred_to_advisor;
}

abbrev contract_now_decision : DecisionRule
contract_now_decision = record {
  code = "decision.contract_now";
  priority = pos 850;
  required_signals = SignalCode.wants_contract_now ∷ [];
  action = RecommendedAction.immediate_handoff;
  explanation = "The prospect wants to begin contracting immediately";
  handoff_required = true;
  specialized_handoff = false;
  handoff_reason = some "intent.contract_now";
  state_recommendation = some LeadState.contracting_started;
}

abbrev portability_decision : DecisionRule
portability_decision = record {
  code = "decision.portability";
  priority = pos 800;
  required_signals = SignalCode.requests_portability ∷ [];
  action = RecommendedAction.immediate_handoff;
  explanation = "A portability request needs commercial follow-through";
  handoff_required = true;
  specialized_handoff = false;
  handoff_reason = some "intent.portability";
  state_recommendation = some LeadState.transferred_to_advisor;
}

abbrev quote_decision : DecisionRule
quote_decision = record {
  code = "decision.quote";
  priority = pos 700;
  required_signals = SignalCode.requests_quote ∷ [];
  action = RecommendedAction.notify_advisor;
  explanation = "A quote request should be visible to an advisor";
  handoff_required = true;
  specialized_handoff = false;
  handoff_reason = some "intent.quote";
  state_recommendation = some LeadState.quote_requested;
}

abbrev out_of_stock_alternative_accepted_decision : DecisionRule
out_of_stock_alternative_accepted_decision = record {
  code = "decision.out_of_stock_alternative_accepted";
  priority = pos 690;
  required_signals = SignalCode.device_out_of_stock ∷ SignalCode.accepts_alternatives ∷ [];
  action = RecommendedAction.immediate_handoff;
  explanation = "The requested device is unavailable and an alternative was accepted";
  handoff_required = true;
  specialized_handoff = false;
  handoff_reason = some "inventory.alternative_accepted";
  state_recommendation = some LeadState.transferred_to_advisor;
}

abbrev human_review_decision : DecisionRule
human_review_decision = record {
  code = "decision.human_review";
  priority = pos 650;
  required_signals = SignalCode.requires_human_review ∷ [];
  action = RecommendedAction.notify_advisor;
  explanation = "The normalized evidence requires human review";
  handoff_required = true;
  specialized_handoff = false;
  handoff_reason = some "qualification.human_review";
  state_recommendation = none;
}

abbrev contradiction_decision : DecisionRule
contradiction_decision = record {
  code = "decision.contradiction";
  priority = pos 600;
  required_signals = SignalCode.contradictory_information ∷ [];
  action = RecommendedAction.notify_advisor;
  explanation = "Material contradictions require advisor review";
  handoff_required = true;
  specialized_handoff = false;
  handoff_reason = some "qualification.contradiction";
  state_recommendation = none;
}

-- `_penalties`
unfoldable pub default_penalties : List PenaltyRule
default_penalties =
    no_coverage_penalty ∷ device_out_of_stock_penalty ∷ incompatible_budget_no_alternatives_penalty
    ∷ purchase_over_six_months_penalty ∷ contradictory_information_penalty
    ∷ prolonged_inactivity_penalty ∷ no_contact_penalty ∷ []

-- `_decisions`
unfoldable pub default_decisions : List DecisionRule
default_decisions =
    no_contact_decision ∷ explicit_human_request_decision ∷ business_multiple_lines_decision
    ∷ contract_now_decision ∷ portability_decision ∷ quote_decision
    ∷ out_of_stock_alternative_accepted_decision ∷ human_review_decision ∷ contradiction_decision
    ∷ []

abbrev band : ℤ → ℤ → LeadClassification → RecommendedAction → ClassificationBand
band minimum maximum classification action = record {
  minimum = minimum;
  maximum = maximum;
  classification = classification;
  action = action;
}

-- `_classification_bands`
unfoldable pub default_bands : List ClassificationBand
default_bands =
    band (pos 0) (pos 29) LeadClassification.exploration
      RecommendedAction.resolve_and_present_options
    ∷ band (pos 30) (pos 49) LeadClassification.cold RecommendedAction.automated_follow_up
    ∷ band (pos 50) (pos 69) LeadClassification.warm RecommendedAction.collect_missing_information
    ∷ band (pos 70) (pos 84) LeadClassification.hot RecommendedAction.notify_advisor
    ∷ band (pos 85) (pos 100) LeadClassification.priority RecommendedAction.immediate_handoff
    ∷ []

abbrev dimension : ScoreDimension → ℤ → DimensionDefinition
dimension d maximum = record { dimension = d; max_points = maximum }

-- `_dimensions`
unfoldable pub default_dimensions : List DimensionDefinition
default_dimensions =
    dimension ScoreDimension.need_compatibility (pos 25)
    ∷ dimension ScoreDimension.purchase_intent (pos 25)
    ∷ dimension ScoreDimension.budget_payment (pos 20)
    ∷ dimension ScoreDimension.urgency (pos 15)
    ∷ dimension ScoreDimension.engagement (pos 10)
    ∷ dimension ScoreDimension.commercial_potential (pos 5)
    ∷ []
