-- ===== src/Conversations/Profile/Tests.antt =====
-- The profile applier on a profile with a confirmed plan and an extraction that contradicts it.
use plataforma_saa_s_de_auto.Prelude.{
  ne_of_false, ℕ, Bool, true, false, decide, ◌≡◌, ◌≢◌, ◌⊎◌, refl, String, none, some, [], ◌∷◌, Memᴰ,
  contains, arith, filter, distinct, has_duplicates, option_beq, All, nat_eq, option_eq,
}
use plataforma_saa_s_de_auto.Prelude.Text.{is_blank, is_empty, codes}
use plataforma_saa_s_de_auto.Prelude.Dict.{get, put}
use plataforma_saa_s_de_auto.Errors.{ok, for_each}
use plataforma_saa_s_de_auto.Foundation.{DateTime, hundredths, ensure_aware, ensure_ratio}
use plataforma_saa_s_de_auto.LeadQualification.Vocabulary.{
  OpportunityType, ProfileField, FactSource, ExtractionMethod, ValidationStatus,
  ProfileField-discrete, profile_field_eq, OpportunityType-discrete, ValidationStatus-discrete,
}
use plataforma_saa_s_de_auto.LeadQualification.Profile.{
  Opportunity, opportunity_post_init, FactValue, ProfileFact, profile_fact_post_init, blank_text,
  absent, fact_conflict_post_init, LeadProfile, lead_profile_post_init, key_matches, fact,
  same_value,
}
use plataforma_saa_s_de_auto.Extraction.Vocabulary.{
  ProviderFieldState, ExtractionFieldStatus, ConfidenceTreatment, CommercialIntent,
  CommercialUrgency, HandoffKind, ConfidenceTreatment-discrete, ProviderFieldState-discrete,
}
use plataforma_saa_s_de_auto.Extraction.Domain.{
  ResolvedField, AcceptedExtraction, resolved_field_post_init, normalized_field_post_init,
  ensure_confidence,
}
use plataforma_saa_s_de_auto.Conversations.Profile.Action.{
  ProfileValueAction, ProfileValueAction-discrete,
}
use plataforma_saa_s_de_auto.Conversations.Profile.Decision.{
  ProfileValueDecision, candidates, fact_value, fact_status, fact_of, decide_value, is_stronger,
  makes_current, ai_forbidden_fields,
}
use plataforma_saa_s_de_auto.Conversations.Profile.Plan.{
  ProfileApplicationPlan, decide_all, apply_facts, apply_fact, conflict_of, new_conflicts,
  construct_all, construct_conflict, reason_text, merge_opportunity, construct_opportunity,
  updated_with, finish, construct_profile, plan,
}
use plataforma_saa_s_de_auto.Conversations.Profile.Kept.{
  confirmed_value_kept, forbidden_kept, fact_provenance, States,
}
use plataforma_saa_s_de_auto.Conversations.Profile.Opportunities.{IsProper, IsKept, merge-IsKept}
use plataforma_saa_s_de_auto.Conversations.Profile.Returns.{IsReady}
use plataforma_saa_s_de_auto.Conversations.Profile.Total.{plan_returns}
use plataforma_saa_s_de_auto.Conversations.Profile.Reinforced.{reinforcement_unconfirmed}

abbrev noon : DateTime
noon = record { instant = 1000; aware = true }

-- What a run of the applier computes with.
run : Unit {0}
unfolding plan decide_all decide_value fact_of fact_value fact_status profile_fact_post_init
    blank_text absent same_value is_stronger makes_current candidates fact get put apply_facts
    apply_fact new_conflicts conflict_of construct_all construct_conflict fact_conflict_post_init
    reason_text merge_opportunity construct_opportunity opportunity_post_init updated_with finish
    construct_profile lead_profile_post_init key_matches for_each contains filter distinct
    has_duplicates is_blank is_empty codes ensure_aware ensure_ratio ensure_confidence
    resolved_field_post_init normalized_field_post_init option_beq decide ProfileField-discrete
    OpportunityType-discrete ValidationStatus-discrete ConfidenceTreatment-discrete
    ProviderFieldState-discrete ProfileValueAction-discrete
run = tt

abbrev confirmed_plan : ProfileFact
confirmed_plan = record {
  field = ProfileField.plan;
  value = FactValue.text "basic";
  source = FactSource.customer;
  source_message_id = some 1;
  observed_at = noon;
  confidence = hundredths 90;
  extraction_method = ExtractionMethod.ai;
  validation_status = ValidationStatus.confirmed;
  confirmed_by = some "advisor";
}

abbrev interest : Opportunity
interest = record {
  primary = OpportunityType.portability;
  secondary = OpportunityType.accessory ∷ [];
}

abbrev renewing : Opportunity
renewing = record { primary = OpportunityType.renewal; secondary = [] }

abbrev known : LeadProfile
known = record {
  tenant_id = 7;
  lead_id = 8;
  conversation_id = 9;
  opportunity = interest;
  facts = (ProfileField.plan, confirmed_plan) ∷ [];
  conflicts = [];
  missing_information = [];
}

abbrev stated : ProfileField → String → ℕ → ResolvedField
stated field text confidence = record {
  value = record {
    field = field;
    value = FactValue.text text;
    original_text = text;
    source_message_id = 2;
    evidence = text;
    provider_state = ProviderFieldState.observed;
    declared_confidence = hundredths 90;
    currency = none;
    observed_at = noon;
  };
  confidence = hundredths confidence;
  status = ExtractionFieldStatus.observed;
  treatment = ConfidenceTreatment.auto_accept;
  reasons = [];
}

abbrev heard : AcceptedExtraction
heard = record {
  opportunity = record {
    opportunity = renewing;
    confidence = hundredths 80;
    evidence = "renew";
    source_message_id = none;
  };
  fields = stated ProfileField.plan "premium" 95 ∷ stated ProfileField.coverage "yes" 95 ∷ [];
  rejected_fields = [];
  signals = [];
  rejected_signals = [];
  controls = [];
  contradictions = [];
  missing_information = ProfileField.line_count ∷ [];
  next_question = none;
  handoff = record { kind = HandoffKind.none; reason_codes = [] };
  intent = CommercialIntent.exploration;
  intent_treatment = ConfidenceTreatment.provisional;
  urgency = CommercialUrgency.unspecified;
  urgency_treatment = ConfidenceTreatment.provisional;
  summary = "";
  overall_confidence = hundredths 80;
}

abbrev always : String → Bool
always s = true

known_checked : lead_profile_post_init known ≡ ok tt
unfolding run
known_checked = refl

interest-IsProper : IsProper interest
unfolding run
interest-IsProper = record { apart = refl; unique = refl }

renewing-IsProper : IsProper renewing
unfolding run
renewing-IsProper = record { apart = refl; unique = refl }

heard-IsReady : All IsReady (candidates heard)
unfolding run
heard-IsReady = (
  record { resolved = refl; normalized = refl; filled = refl },
  (record { resolved = refl; normalized = refl; filled = refl }, tt),
)

line_count_once : has_duplicates heard.missing_information ≡ false
unfolding run
line_count_once = refl

plan_returns_example :
    (r : ProfileApplicationPlan) × (plan always known heard "realmente" noon ≡ ok r)
plan_returns_example =
    plan_returns always known heard "realmente" noon known_checked interest-IsProper heard-IsReady
      renewing-IsProper line_count_once refl

merge-IsKept_example :
    (o : Opportunity) × (merge_opportunity interest renewing ≡ ok o)
    × IsProper o
    × (OpportunityType.portability ≢ OpportunityType.unidentified → IsKept interest o)
merge-IsKept_example = merge-IsKept interest renewing interest-IsProper renewing-IsProper

abbrev premium : ResolvedField
premium = stated ProfileField.plan "premium" 95

abbrev covered : ResolvedField
covered = stated ProfileField.coverage "yes" 95

abbrev premium_decision : ProfileValueDecision
premium_decision = record {
  candidate = fact_value false premium;
  action = ProfileValueAction.historical_only;
  previous = some confirmed_plan;
  conflict_reason = some "confirmed_value_preserved_human_review_required";
}

abbrev covered_decision : ProfileValueDecision
covered_decision = record {
  candidate = fact_value false covered;
  action = ProfileValueAction.forbidden;
  previous = none;
  conflict_reason = none;
}

abbrev merged : Opportunity
merged = record {
  primary = OpportunityType.portability;
  secondary = OpportunityType.accessory ∷ OpportunityType.renewal ∷ [];
}

abbrev planned : ProfileApplicationPlan
planned = record {
  decisions = premium_decision ∷ covered_decision ∷ [];
  opportunity = merged;
  missing_information = ProfileField.line_count ∷ [];
  updated_profile = record {
    tenant_id = 7;
    lead_id = 8;
    conversation_id = 9;
    opportunity = merged;
    facts = (ProfileField.plan, confirmed_plan) ∷ [];
    conflicts =
        (record {
          field = ProfileField.plan;
          previous = confirmed_plan;
          current = fact_value false premium;
          reason = "confirmed_value_preserved_human_review_required";
          detected_at = noon;
        })
        ∷ [];
    missing_information = ProfileField.line_count ∷ [];
  };
}

planned_by : plan always known heard "realmente" noon ≡ ok planned
unfolding run
planned_by = refl

known-plan : fact known ProfileField.plan ≡ some confirmed_plan
unfolding run
known-plan = refl

coverage_is_forbidden : contains ai_forbidden_fields ProfileField.coverage ≡ true
unfolding run
coverage_is_forbidden = refl

confirmed_value_kept_example :
    (new : ProfileFact) × (fact planned.updated_profile ProfileField.plan ≡ some new)
    × (same_value (FactValue.text "basic") new.value ≡ true)
confirmed_value_kept_example =
    confirmed_value_kept always known heard "realmente" noon planned ProfileField.plan
      confirmed_plan planned_by known-plan refl

forbidden_kept_example :
    fact planned.updated_profile ProfileField.coverage ≡ fact known ProfileField.coverage
forbidden_kept_example =
    forbidden_kept always known heard "realmente" noon planned ProfileField.coverage planned_by
      coverage_is_forbidden

fact_provenance_example :
    (fact planned.updated_profile ProfileField.plan ≡ fact known ProfileField.plan)
    ⊎ ((item : ResolvedField) × (new : ProfileFact) × Memᴰ item (candidates heard)
        × (item.value.field ≡ ProfileField.plan)
        × (fact planned.updated_profile ProfileField.plan ≡ some new)
        × States item new)
fact_provenance_example =
    fact_provenance always known heard "realmente" noon planned ProfileField.plan planned_by

abbrev basic_again : ResolvedField
basic_again = stated ProfileField.plan "basic" 95

abbrev basic_decision : ProfileValueDecision
basic_decision = record {
  candidate = fact_value false basic_again;
  action = ProfileValueAction.reinforce_current;
  previous = some confirmed_plan;
  conflict_reason = none;
}

plan_is_allowed : contains ai_forbidden_fields ProfileField.plan ≡ false
unfolding run
plan_is_allowed = refl

basic_is_same : same_value confirmed_plan.value basic_again.value.value ≡ true
unfolding run
basic_is_same = refl

-- The customer repeats the confirmed plan.
abbrev repeated : AcceptedExtraction
repeated = record heard { fields = basic_again ∷ [] }

abbrev reinforced : ProfileApplicationPlan
reinforced = record {
  decisions = basic_decision ∷ [];
  opportunity = merged;
  missing_information = ProfileField.line_count ∷ [];
  updated_profile = record {
    tenant_id = 7;
    lead_id = 8;
    conversation_id = 9;
    opportunity = merged;
    facts = (ProfileField.plan, fact_value false basic_again) ∷ [];
    conflicts = [];
    missing_information = ProfileField.line_count ∷ [];
  };
}

reinforced_by : plan always known repeated "otra vez" noon ≡ ok reinforced
unfolding run
reinforced_by = refl

repeated_there : Memᴰ basic_again (candidates repeated)
unfolding run
repeated_there = Memᴰ.head refl

other_message : confirmed_plan.source_message_id ≢ some basic_again.value.source_message_id
unfolding option_beq
other_message =
    ne_of_false confirmed_plan.source_message_id (some basic_again.value.source_message_id) refl

reinforcement_unconfirmed_example :
    (new : ProfileFact) × (fact reinforced.updated_profile ProfileField.plan ≡ some new)
    × (same_value (FactValue.text "basic") new.value ≡ true)
    × (new.validation_status ≢ ValidationStatus.confirmed)
    × (new.confirmed_by ≡ none)
reinforcement_unconfirmed_example =
    reinforcement_unconfirmed always known repeated "otra vez" noon reinforced confirmed_plan
      basic_again reinforced_by known-plan refl repeated_there plan_is_allowed basic_is_same
      other_message (omega arith)
