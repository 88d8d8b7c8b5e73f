-- ===== src/LeadQualification/Vocabulary/Signal.antt =====
-- The signal codes of lead_qualification/domain.py (src/saas_platform/modules).
use plataforma_saa_s_de_auto.Prelude.{String, Eq, eq_of_discrete}

pub data SignalCode : Type 0 where
  need_defined plan_compatible device_compatible coverage_confirmed
        commercial_requirements_compatible general_information asks_price asks_monthly_payment
        asks_availability compares_products asks_requirements requests_quote requests_portability
        wants_contract_now budget_unspecified budget_incompatible accepts_alternatives
        budget_compatible budget_and_payment_defined budget_incompatible_no_alternatives
        research_only purchase_over_three_months purchase_over_six_months next_month this_week
        immediate provides_relevant_information answers_qualification_questions sustained_progress
        accepts_call_or_branch device_and_plan accessory_interest multiple_lines business_account
        no_coverage device_out_of_stock contradictory_information prolonged_inactivity
        requests_human requires_human_review do_not_contact :
      SignalCode

unfoldable pub SignalCode-discrete : Discrete SignalCode
SignalCode-discrete = hlevel

instance abbrev pub signal_code_eq : Eq SignalCode
signal_code_eq = eq_of_discrete SignalCode-discrete

unfoldable pub signal_code_value : SignalCode → String
signal_code_value SignalCode.need_defined = "need_defined"
signal_code_value SignalCode.plan_compatible = "plan_compatible"
signal_code_value SignalCode.device_compatible = "device_compatible"
signal_code_value SignalCode.coverage_confirmed = "coverage_confirmed"
signal_code_value SignalCode.commercial_requirements_compatible =
    "commercial_requirements_compatible"
signal_code_value SignalCode.general_information = "general_information"
signal_code_value SignalCode.asks_price = "asks_price"
signal_code_value SignalCode.asks_monthly_payment = "asks_monthly_payment"
signal_code_value SignalCode.asks_availability = "asks_availability"
signal_code_value SignalCode.compares_products = "compares_products"
signal_code_value SignalCode.asks_requirements = "asks_requirements"
signal_code_value SignalCode.requests_quote = "requests_quote"
signal_code_value SignalCode.requests_portability = "requests_portability"
signal_code_value SignalCode.wants_contract_now = "wants_contract_now"
signal_code_value SignalCode.budget_unspecified = "budget_unspecified"
signal_code_value SignalCode.budget_incompatible = "budget_incompatible"
signal_code_value SignalCode.accepts_alternatives = "accepts_alternatives"
signal_code_value SignalCode.budget_compatible = "budget_compatible"
signal_code_value SignalCode.budget_and_payment_defined = "budget_and_payment_defined"
signal_code_value SignalCode.budget_incompatible_no_alternatives =
    "budget_incompatible_no_alternatives"
signal_code_value SignalCode.research_only = "research_only"
signal_code_value SignalCode.purchase_over_three_months = "purchase_over_three_months"
signal_code_value SignalCode.purchase_over_six_months = "purchase_over_six_months"
signal_code_value SignalCode.next_month = "next_month"
signal_code_value SignalCode.this_week = "this_week"
signal_code_value SignalCode.immediate = "immediate"
signal_code_value SignalCode.provides_relevant_information = "provides_relevant_information"
signal_code_value SignalCode.answers_qualification_questions = "answers_qualification_questions"
signal_code_value SignalCode.sustained_progress = "sustained_progress"
signal_code_value SignalCode.accepts_call_or_branch = "accepts_call_or_branch"
signal_code_value SignalCode.device_and_plan = "device_and_plan"
signal_code_value SignalCode.accessory_interest = "accessory_interest"
signal_code_value SignalCode.multiple_lines = "multiple_lines"
signal_code_value SignalCode.business_account = "business_account"
signal_code_value SignalCode.no_coverage = "no_coverage"
signal_code_value SignalCode.device_out_of_stock = "device_out_of_stock"
signal_code_value SignalCode.contradictory_information = "contradictory_information"
signal_code_value SignalCode.prolonged_inactivity = "prolonged_inactivity"
signal_code_value SignalCode.requests_human = "requests_human"
signal_code_value SignalCode.requires_human_review = "requires_human_review"
signal_code_value SignalCode.do_not_contact = "do_not_contact"
