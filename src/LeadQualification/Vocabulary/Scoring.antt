-- ===== src/LeadQualification/Vocabulary/Scoring.antt =====
-- Enumerations of lead_qualification/domain.py (src/saas_platform/modules) that scoring decides on.
use plataforma_saa_s_de_auto.Prelude.{String, Eq, eq_of_discrete}

pub data ScoreDimension : Type 0 where
  need_compatibility purchase_intent budget_payment urgency engagement commercial_potential :
      ScoreDimension

unfoldable pub ScoreDimension-discrete : Discrete ScoreDimension
ScoreDimension-discrete = hlevel

instance abbrev pub score_dimension_eq : Eq ScoreDimension
score_dimension_eq = eq_of_discrete ScoreDimension-discrete

unfoldable pub score_dimension_value : ScoreDimension → String
score_dimension_value ScoreDimension.need_compatibility = "need_compatibility"
score_dimension_value ScoreDimension.purchase_intent = "purchase_intent"
score_dimension_value ScoreDimension.budget_payment = "budget_payment"
score_dimension_value ScoreDimension.urgency = "urgency"
score_dimension_value ScoreDimension.engagement = "engagement"
score_dimension_value ScoreDimension.commercial_potential = "commercial_potential"

pub data LeadClassification : Type 0 where
  exploration cold warm hot priority : LeadClassification

unfoldable pub LeadClassification-discrete : Discrete LeadClassification
LeadClassification-discrete = hlevel

instance abbrev pub lead_classification_eq : Eq LeadClassification
lead_classification_eq = eq_of_discrete LeadClassification-discrete

unfoldable pub lead_classification_value : LeadClassification → String
lead_classification_value LeadClassification.exploration = "exploration"
lead_classification_value LeadClassification.cold = "cold"
lead_classification_value LeadClassification.warm = "warm"
lead_classification_value LeadClassification.hot = "hot"
lead_classification_value LeadClassification.priority = "priority"

pub data RecommendedAction : Type 0 where
  resolve_and_present_options automated_follow_up collect_missing_information notify_advisor
        immediate_handoff specialized_handoff search_alternatives stop_automation :
      RecommendedAction

unfoldable pub RecommendedAction-discrete : Discrete RecommendedAction
RecommendedAction-discrete = hlevel

instance abbrev pub recommended_action_eq : Eq RecommendedAction
recommended_action_eq = eq_of_discrete RecommendedAction-discrete

unfoldable pub recommended_action_value : RecommendedAction → String
recommended_action_value RecommendedAction.resolve_and_present_options =
    "resolve_and_present_options"
recommended_action_value RecommendedAction.automated_follow_up = "automated_follow_up"
recommended_action_value RecommendedAction.collect_missing_information =
    "collect_missing_information"
recommended_action_value RecommendedAction.notify_advisor = "notify_advisor"
recommended_action_value RecommendedAction.immediate_handoff = "immediate_handoff"
recommended_action_value RecommendedAction.specialized_handoff = "specialized_handoff"
recommended_action_value RecommendedAction.search_alternatives = "search_alternatives"
recommended_action_value RecommendedAction.stop_automation = "stop_automation"

pub data LeadState : Type 0 where
  new in_conversation qualifying incomplete_information qualified quote_requested quote_sent
        pending_documents pending_validation pending_inventory pending_coverage pending_financing
        transferred_to_advisor contacted_by_advisor portability_started contracting_started
        sale_completed lost not_eligible duplicate do_not_contact :
      LeadState

unfoldable pub LeadState-discrete : Discrete LeadState
LeadState-discrete = hlevel

instance abbrev pub lead_state_eq : Eq LeadState
lead_state_eq = eq_of_discrete LeadState-discrete

unfoldable pub lead_state_value : LeadState → String
lead_state_value LeadState.new = "new"
lead_state_value LeadState.in_conversation = "in_conversation"
lead_state_value LeadState.qualifying = "qualifying"
lead_state_value LeadState.incomplete_information = "incomplete_information"
lead_state_value LeadState.qualified = "qualified"
lead_state_value LeadState.quote_requested = "quote_requested"
lead_state_value LeadState.quote_sent = "quote_sent"
lead_state_value LeadState.pending_documents = "pending_documents"
lead_state_value LeadState.pending_validation = "pending_validation"
lead_state_value LeadState.pending_inventory = "pending_inventory"
lead_state_value LeadState.pending_coverage = "pending_coverage"
lead_state_value LeadState.pending_financing = "pending_financing"
lead_state_value LeadState.transferred_to_advisor = "transferred_to_advisor"
lead_state_value LeadState.contacted_by_advisor = "contacted_by_advisor"
lead_state_value LeadState.portability_started = "portability_started"
lead_state_value LeadState.contracting_started = "contracting_started"
lead_state_value LeadState.sale_completed = "sale_completed"
lead_state_value LeadState.lost = "lost"
lead_state_value LeadState.not_eligible = "not_eligible"
lead_state_value LeadState.duplicate = "duplicate"
lead_state_value LeadState.do_not_contact = "do_not_contact"

pub data RuleEffect : Type 0 where
  penalty offer_block disqualification temporary_exclusion do_not_contact : RuleEffect

unfoldable pub RuleEffect-discrete : Discrete RuleEffect
RuleEffect-discrete = hlevel

instance abbrev pub rule_effect_eq : Eq RuleEffect
rule_effect_eq = eq_of_discrete RuleEffect-discrete

unfoldable pub rule_effect_value : RuleEffect → String
rule_effect_value RuleEffect.penalty = "penalty"
rule_effect_value RuleEffect.offer_block = "offer_block"
rule_effect_value RuleEffect.disqualification = "disqualification"
rule_effect_value RuleEffect.temporary_exclusion = "temporary_exclusion"
rule_effect_value RuleEffect.do_not_contact = "do_not_contact"
