-- ===== src/Extraction/FieldRuns.antt =====
-- Extractions of telecom_extraction (src/saas_platform/modules) that state a plan.
use plataforma_saa_s_de_auto.Prelude.{
  true, ◌≡◌, string_eq, refl, String, none, some, [], ◌∷◌, Memᴰ, pos,
}
use plataforma_saa_s_de_auto.Errors.{ok}
use plataforma_saa_s_de_auto.Foundation.{hundredths}
use plataforma_saa_s_de_auto.LeadQualification.Samples.{noon}
use plataforma_saa_s_de_auto.LeadQualification.Vocabulary.{ExtractionMethod, ValidationStatus}
use plataforma_saa_s_de_auto.Extraction.Domain.{AcceptedExtraction}
use plataforma_saa_s_de_auto.Extraction.Confidence.{default_confidence_policy}
use plataforma_saa_s_de_auto.Extraction.Command.{TelecomExtractionCommand, ProfileUpdateProposal}
use plataforma_saa_s_de_auto.Extraction.Decisions.Accept.{accept, accepted_extraction}
use plataforma_saa_s_de_auto.Extraction.Proposal.{apply, updated_profile}
use plataforma_saa_s_de_auto.LeadQualification.Vocabulary.{
  opportunity_type_eq, signal_code_eq, profile_field_eq,
}
use plataforma_saa_s_de_auto.LeadQualification.Profile.{
  same_value, fact, ProfileFact, FactValue, profile_fact_post_init,
}
use plataforma_saa_s_de_auto.Extraction.Vocabulary.{special_control_eq}
use plataforma_saa_s_de_auto.Extraction.Decisions.Question.{question}
use plataforma_saa_s_de_auto.LeadQualification.Vocabulary.{ProfileField, FactSource}
use plataforma_saa_s_de_auto.Extraction.Vocabulary.{
  ProviderFieldState, ExtractionFieldStatus, ConfidenceTreatment, ProviderFieldState-discrete,
}
use plataforma_saa_s_de_auto.Extraction.Domain.{
  ResolvedField, NormalizedField, SuggestedQuestion, resolved_field_post_init,
}
use plataforma_saa_s_de_auto.LeadQualification.Profile.{blank_text, absent}
use plataforma_saa_s_de_auto.Extraction.Proposal.{add_field, added_status, fact_from}
use plataforma_saa_s_de_auto.Extraction.Reconcile.{
  reconcile, observed_before, group_field, group_fields, is_at_least, keep_value, by_value,
  unique_values, against_fact, judge, verdict, verdicts, check_contradiction, check_verdict, listed,
  contradictions_of, outputs,
}
use plataforma_saa_s_de_auto.Extraction.Runs.{
  command, calm, origin, fallback, silent, proposed, later,
}

abbrev pub wants_basic : ResolvedField
wants_basic = record {
  value = record {
    field = ProfileField.plan;
    value = FactValue.text "basic";
    original_text = "basic";
    source_message_id = 20;
    evidence = "basic";
    provider_state = ProviderFieldState.observed;
    declared_confidence = hundredths 95;
    currency = none;
    observed_at = noon;
  };
  confidence = hundredths 95;
  status = ExtractionFieldStatus.observed;
  treatment = ConfidenceTreatment.auto_accept;
  reasons = [];
}

abbrev pub basic : ProfileFact
basic = record {
  field = ProfileField.plan;
  value = FactValue.text "basic";
  source = FactSource.customer;
  source_message_id = some 20;
  observed_at = noon;
  confidence = hundredths 95;
  extraction_method = ExtractionMethod.ai;
  validation_status = ValidationStatus.accepted;
  confirmed_by = none;
}

-- An extraction that adds a plan.
abbrev pub with_plan : AcceptedExtraction
with_plan = record silent { fields = wants_basic ∷ [] }

abbrev pub proposed_plan : ProfileUpdateProposal
proposed_plan =
    let before = proposed silent in
    let updated =
      updated_profile command.profile command.profile.opportunity ((ProfileField.plan, basic) ∷ [])
        [] silent.missing_information in
    record before {
      updated_profile = updated;
      facts_added = ProfileField.plan ∷ [];
      qualification_request = record before.qualification_request { profile = updated };
    }

-- A customer whose plan is known.
abbrev pub known : TelecomExtractionCommand
known = record command {
  profile = record command.profile {
    facts = (ProfileField.plan, basic) ∷ [];
    missing_information = [];
  };
}

abbrev pub agreed : AcceptedExtraction
agreed = accepted_extraction calm default_confidence_policy fallback (wants_basic ∷ []) [] [] known

abbrev pub keep_number_question : SuggestedQuestion
keep_number_question = record {
  target_field = ProfileField.keep_number;
  text = "Would you like to keep your current number?";
  reason = "Resolve the highest-priority relevant missing or conflicting field.";
  priority = pos 2;
  alternatives = [];
  skippable = true;
}

-- What a run with a field computes with.
fields_too : Unit {0}
unfolding later add_field added_status fact_from profile_fact_post_init blank_text absent reconcile
    observed_before group_field group_fields is_at_least keep_value by_value unique_values
    against_fact judge verdict verdicts check_contradiction check_verdict listed contradictions_of
    outputs resolved_field_post_init ProviderFieldState-discrete same_value fact
fields_too = tt

pub plan_is_added : apply command with_plan origin noon ≡ ok proposed_plan
unfolding fields_too
plan_is_added = refl

abbrev pub always_basic : NormalizedField → String
always_basic f = "basic"

pub it_is_reconciled :
    reconcile always_basic (wants_basic ∷ []) known.profile ≡ ok (wants_basic ∷ [], [])
unfolding fields_too
it_is_reconciled = refl

pub it_is_agreed :
    accept calm default_confidence_policy fallback (wants_basic ∷ []) [] [] known ≡ ok agreed
unfolding fields_too
it_is_agreed = refl

pub plan_is_known : fact known.profile ProfileField.plan ≡ some basic
unfolding fields_too
plan_is_known = refl

pub plan_is_accepted : Memᴰ wants_basic agreed.fields
unfolding fields_too
plan_is_accepted = Memᴰ.head refl

pub it_asks :
    question calm fallback (ProfileField.keep_number ∷ []) [] [] command ≡ some keep_number_question
unfolding fields_too
it_asks = refl
