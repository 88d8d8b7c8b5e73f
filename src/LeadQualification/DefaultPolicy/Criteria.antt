-- ===== src/LeadQualification/DefaultPolicy/Criteria.antt =====
-- The scoring criteria of lead_qualification/default_policy.py (src/saas_platform/modules).
use plataforma_saa_s_de_auto.Prelude.{
  Option, none, some, List, [], ◌∷◌, ◌++◌, String, ℤ, pos, contains, if◌then◌else◌,
}
use plataforma_saa_s_de_auto.LeadQualification.Vocabulary.{
  OpportunityType, ScoreDimension, SignalCode, opportunity_type_eq,
}
use plataforma_saa_s_de_auto.LeadQualification.Policy.{ScoringCriterion}

-- `PLAN_OPPORTUNITIES`
abbrev pub plan_opportunities : List OpportunityType
plan_opportunities =
    OpportunityType.device_with_plan ∷ OpportunityType.plan_subscription ∷ OpportunityType.new_line
    ∷ OpportunityType.portability ∷ OpportunityType.renewal ∷ OpportunityType.prepaid_to_postpaid
    ∷ OpportunityType.multiple_lines ∷ OpportunityType.business_account ∷ []

-- `DEVICE_OPPORTUNITIES`
abbrev pub device_opportunities : List OpportunityType
device_opportunities =
    OpportunityType.device_purchase ∷ OpportunityType.device_with_plan ∷ OpportunityType.renewal
    ∷ OpportunityType.multiple_lines ∷ OpportunityType.business_account ∷ []

-- `_criterion`
unfoldable pub criterion :
    String → ScoreDimension → ℤ → SignalCode → String → Option String → ScoringCriterion
criterion code dimension points signal explanation exclusive_group = record {
  code = code;
  dimension = dimension;
  points = points;
  required_signals = signal ∷ [];
  explanation = explanation;
  excluded_signals = [];
  exclusive_group = exclusive_group;
}

unfoldable pub need_criteria : List ScoringCriterion
unfolding criterion
need_criteria =
    (criterion "need.defined" ScoreDimension.need_compatibility (pos 5) SignalCode.need_defined
      "The commercial need is clearly defined" none)
    ∷ (criterion "need.coverage_confirmed" ScoreDimension.need_compatibility (pos 5)
        SignalCode.coverage_confirmed "Coverage is confirmed for the requested offer" none)
    ∷ (criterion "need.requirements_compatible" ScoreDimension.need_compatibility (pos 5)
        SignalCode.commercial_requirements_compatible
        "Preliminary commercial requirements are compatible" none)
    ∷ []

unfoldable pub plan_criterion : ScoringCriterion
unfolding criterion
plan_criterion =
    criterion "need.plan_compatible" ScoreDimension.need_compatibility (pos 5)
      SignalCode.plan_compatible "A compatible plan exists" none

unfoldable pub device_criterion : ScoringCriterion
unfolding criterion
device_criterion =
    criterion "need.device_compatible" ScoreDimension.need_compatibility (pos 5)
      SignalCode.device_compatible "A compatible device exists" none

unfoldable pub intent_criteria : List ScoringCriterion
unfolding criterion
intent_criteria =
    (criterion "intent.general_information" ScoreDimension.purchase_intent (pos 3)
      SignalCode.general_information "The prospect requests general information"
      (some "purchase_intent_level"))
    ∷ (criterion "intent.asks_price" ScoreDimension.purchase_intent (pos 7) SignalCode.asks_price
        "The prospect asks for a price" (some "purchase_intent_level"))
    ∷ (criterion "intent.asks_monthly_payment" ScoreDimension.purchase_intent (pos 10)
        SignalCode.asks_monthly_payment "The prospect asks for a monthly payment"
        (some "purchase_intent_level"))
    ∷ (criterion "intent.asks_availability" ScoreDimension.purchase_intent (pos 12)
        SignalCode.asks_availability "The prospect asks about availability"
        (some "purchase_intent_level"))
    ∷ (criterion "intent.compares_products" ScoreDimension.purchase_intent (pos 15)
        SignalCode.compares_products "The prospect compares products"
        (some "purchase_intent_level"))
    ∷ (criterion "intent.asks_requirements" ScoreDimension.purchase_intent (pos 18)
        SignalCode.asks_requirements "The prospect asks for contracting requirements"
        (some "purchase_intent_level"))
    ∷ (criterion "intent.requests_quote" ScoreDimension.purchase_intent (pos 20)
        SignalCode.requests_quote "The prospect requests a quote" (some "purchase_intent_level"))
    ∷ (criterion "intent.requests_portability" ScoreDimension.purchase_intent (pos 22)
        SignalCode.requests_portability "The prospect requests portability"
        (some "purchase_intent_level"))
    ∷ (criterion "intent.wants_contract_now" ScoreDimension.purchase_intent (pos 25)
        SignalCode.wants_contract_now "The prospect wants to start contracting now"
        (some "purchase_intent_level"))
    ∷ []

unfoldable pub budget_criteria : List ScoringCriterion
unfolding criterion
budget_criteria =
    (criterion "budget.unspecified" ScoreDimension.budget_payment (pos 2)
      SignalCode.budget_unspecified "The prospect explicitly has not defined a budget"
      (some "budget_level"))
    ∷ (criterion "budget.incompatible" ScoreDimension.budget_payment (pos 5)
        SignalCode.budget_incompatible "The current budget is incompatible with the requested offer"
        (some "budget_level"))
    ∷ (criterion "budget.accepts_alternatives" ScoreDimension.budget_payment (pos 10)
        SignalCode.accepts_alternatives "The prospect accepts alternatives within budget"
        (some "budget_level"))
    ∷ (criterion "budget.compatible" ScoreDimension.budget_payment (pos 15)
        SignalCode.budget_compatible "The budget is compatible with an offer" (some "budget_level"))
    ∷ (criterion "budget.payment_defined" ScoreDimension.budget_payment (pos 20)
        SignalCode.budget_and_payment_defined "The budget and payment preference are defined"
        (some "budget_level"))
    ∷ []

unfoldable pub urgency_criteria : List ScoringCriterion
unfolding criterion
urgency_criteria =
    (criterion "urgency.research_only" ScoreDimension.urgency (pos 2) SignalCode.research_only
      "The prospect is only researching" (some "urgency_level"))
    ∷ (criterion "urgency.over_three_months" ScoreDimension.urgency (pos 5)
        SignalCode.purchase_over_three_months "The expected purchase is more than three months away"
        (some "urgency_level"))
    ∷ (criterion "urgency.next_month" ScoreDimension.urgency (pos 9) SignalCode.next_month
        "The expected purchase is during the next month" (some "urgency_level"))
    ∷ (criterion "urgency.this_week" ScoreDimension.urgency (pos 12) SignalCode.this_week
        "The expected purchase is during this week" (some "urgency_level"))
    ∷ (criterion "urgency.immediate" ScoreDimension.urgency (pos 15) SignalCode.immediate
        "The prospect needs the offer immediately" (some "urgency_level"))
    ∷ []

unfoldable pub engagement_criteria : List ScoringCriterion
unfolding criterion
engagement_criteria =
    (criterion "engagement.relevant_information" ScoreDimension.engagement (pos 3)
      SignalCode.provides_relevant_information
      "The prospect provides commercially relevant information" none)
    ∷ (criterion "engagement.answers_questions" ScoreDimension.engagement (pos 3)
        SignalCode.answers_qualification_questions "The prospect answers qualification questions"
        none)
    ∷ (criterion "engagement.sustained_progress" ScoreDimension.engagement (pos 2)
        SignalCode.sustained_progress "The conversation makes sustained commercial progress" none)
    ∷ (criterion "engagement.accepts_call_or_branch" ScoreDimension.engagement (pos 2)
        SignalCode.accepts_call_or_branch "The prospect accepts a call or branch visit" none)
    ∷ (criterion "potential.device_and_plan" ScoreDimension.commercial_potential (pos 2)
        SignalCode.device_and_plan "The opportunity combines a device and a plan" none)
    ∷ (criterion "potential.accessory" ScoreDimension.commercial_potential (pos 1)
        SignalCode.accessory_interest "The prospect is interested in accessories" none)
    ∷ (criterion "potential.multiple_lines" ScoreDimension.commercial_potential (pos 3)
        SignalCode.multiple_lines "The opportunity includes multiple lines" none)
    ∷ (criterion "potential.business_account" ScoreDimension.commercial_potential (pos 5)
        SignalCode.business_account "The opportunity is a business account" none)
    ∷ []

-- `_criteria`
unfoldable pub default_criteria : OpportunityType → List ScoringCriterion
unfolding need_criteria plan_criterion device_criterion intent_criteria budget_criteria
    urgency_criteria engagement_criteria contains
default_criteria opportunity_type =
    need_criteria
    ++ ((if contains plan_opportunities opportunity_type then plan_criterion ∷ [] else [])
        ++ ((if contains device_opportunities opportunity_type then device_criterion ∷ [] else [])
            ++ (intent_criteria ++ (budget_criteria ++ (urgency_criteria ++ engagement_criteria)))))
