-- ===== src/Extraction/Runs.antt =====
-- Runs of telecom_extraction (src/saas_platform/modules) on a customer who asks for no more messages, and
-- the theorems about extraction at inputs where their hypotheses hold.
use plataforma_saa_s_de_auto.Prelude.{
  Bool, true, false, decide, ◌≡◌, ◌&&◌, ◌==◌, string_eq, if◌then◌else◌, filter, contains, any, refl,
  String, Option, none, some, [], ◌∷◌, Memᴰ,
}
use plataforma_saa_s_de_auto.Errors.{ok}
use plataforma_saa_s_de_auto.Foundation.{hundredths, ensure_ratio, ensure_aware}
use plataforma_saa_s_de_auto.LeadQualification.Samples.{
  noon, policy, no_print, leaver, cold, engine,
}
use plataforma_saa_s_de_auto.LeadQualification.Vocabulary.{
  SignalCode, ExtractionMethod, ValidationStatus, EligibilityStatus, QualificationCause,
}
use plataforma_saa_s_de_auto.LeadQualification.Request.{QualificationResult, QualificationRequest}
use plataforma_saa_s_de_auto.LeadQualification.Scoring.Engine.{evaluate, result_of}
use plataforma_saa_s_de_auto.Extraction.Vocabulary.{SpecialControl, ConversationRole}
use plataforma_saa_s_de_auto.Extraction.Domain.{AcceptedExtraction, SpecialControlFinding}
use plataforma_saa_s_de_auto.Extraction.Confidence.{default_confidence_policy}
use plataforma_saa_s_de_auto.Extraction.Command.{
  ConversationMessage, TelecomExtractionCommand, ContextLimits, NormalizedExtraction,
  ProfileUpdateProposal,
}
use plataforma_saa_s_de_auto.Extraction.Decisions.Accept.{accept, accepted_extraction}
use plataforma_saa_s_de_auto.Extraction.Proposal.{Origin, apply, metadata_of, updated_profile}
use plataforma_saa_s_de_auto.Extraction.Context.Patterns.{Pattern}
use plataforma_saa_s_de_auto.Extraction.Context.Request.{Rendering, PreparedExtractionContext}
use plataforma_saa_s_de_auto.Extraction.Degraded.{degraded, degraded_extraction}
use plataforma_saa_s_de_auto.Prelude.Sort.{insert_by, sort_by}
use plataforma_saa_s_de_auto.Prelude.Text.{
  codes, text_lt, lex_lt, is_blank, is_empty, text_length, strip, drop_text,
}
use plataforma_saa_s_de_auto.Prelude.Dict.{get, put, keys}
use plataforma_saa_s_de_auto.Errors.{for_each}
use plataforma_saa_s_de_auto.LeadQualification.Vocabulary.{
  ProfileField-discrete, OpportunityType-discrete, opportunity_type_value,
}
use plataforma_saa_s_de_auto.Extraction.Vocabulary.{
  SpecialControl-discrete, HandoffKind-discrete, ConfidenceTreatment-discrete,
  CommercialUrgency-discrete,
}
use plataforma_saa_s_de_auto.Extraction.Domain.{
  ensure_confidence, special_control_finding_post_init, accepted_extraction_post_init,
  extracted_opportunity_post_init,
}
use plataforma_saa_s_de_auto.Extraction.Context.Patterns.{
  email_pattern, phone_pattern, sensitive_id_pattern, dnc_patterns, human_patterns,
  injection_patterns, redact,
}
use plataforma_saa_s_de_auto.Extraction.Context.Selection.{
  drop, last_items, last_text, reversed, sent_before, cutoff, or_newest, eligible_messages,
  add_message, add_long, select_message, select_messages, selected_messages,
}
use plataforma_saa_s_de_auto.Prelude.Text.{take_text}
use plataforma_saa_s_de_auto.Extraction.Context.Controls.{
  control_patterns, first_match, finding_of, message_findings, findings_of, by_control, controls,
}
use plataforma_saa_s_de_auto.Extraction.Context.Request.{
  excluded_profile_context, prepared_message, context_value, optional_text, context_fact,
  profile_context, extraction_idempotency_key, context_summary, prepare,
}
use plataforma_saa_s_de_auto.LeadQualification.Vocabulary.{
  opportunity_type_eq, signal_code_eq, SignalCode-discrete, ValidationStatus-discrete,
  profile_field_eq,
}
use plataforma_saa_s_de_auto.LeadQualification.Profile.{
  lead_profile_post_init, opportunity_post_init, key_matches, same_value, fact,
  profile_fact_post_init,
}
use plataforma_saa_s_de_auto.LeadQualification.Request.{
  commercial_signal_post_init, extraction_metadata_post_init,
}
use plataforma_saa_s_de_auto.Extraction.Vocabulary.{special_control_eq}
use plataforma_saa_s_de_auto.Extraction.Confidence.{signal_treatment, field_treatment}
use plataforma_saa_s_de_auto.Extraction.Command.{
  normalized_extraction_post_init, context_limits_post_init,
}
use plataforma_saa_s_de_auto.Extraction.Decisions.Required.{missing, required_fields, question_text}
use plataforma_saa_s_de_auto.Extraction.Decisions.Question.{
  question, is_silenced, has_control, eligible_targets, first_text, ask, or_else, provider_question,
  default_question, offered_question, is_acceptable,
}
use plataforma_saa_s_de_auto.Extraction.Decisions.Handoff.{suggested_handoff, is_urgent_portability}
use plataforma_saa_s_de_auto.Extraction.Decisions.Accept.{
  is_accepted_field, is_accepted_signal, not_in, is_accepted_control, outweighs, keep_control,
  keep_controls, accepted_controls, overall, within_ratio, div_Decimal, accepted_opportunity,
}
use plataforma_saa_s_de_auto.Extraction.Mapper.{
  signal_candidates, put_signals, put_controls, put_control, control_candidate, control_signal,
  put_contradiction, set_default, set_if_absent, supported_code, base_candidate, when, is_some,
  intent_signal, urgency_signal, opportunity_signal, commercial_signal, signals_of,
}
use plataforma_saa_s_de_auto.Extraction.Proposal.{
  add_fields, add_conflicts, proposed_opportunity, checked_opportunity, latest, latest_id, propose,
}
use plataforma_saa_s_de_auto.Extraction.Degraded.{degraded_acceptance, last_id}
use plataforma_saa_s_de_auto.Prelude.{
  has_duplicates, distinct, intersects, min_ℤ, max_ℤ, sum_ℤ, ◌+ℤ◌, option_beq,
}
use plataforma_saa_s_de_auto.Extraction.Context.Found.{Matches}

abbrev pub leaving : ConversationMessage
leaving = record {
  id = 20;
  tenant_id = 7;
  role = ConversationRole.customer;
  content = "unsubscribe";
  sent_at = noon;
}

abbrev pub command : TelecomExtractionCommand
command = record {
  profile = leaver.profile;
  messages = leaving ∷ [];
  correlation_id = 11;
  expected_language = "es";
  previous_summary = none;
  recently_asked_fields = [];
  eligibility = EligibilityStatus.not_applicable;
  handoff_confirmed = false;
}

abbrev pub limits : ContextLimits
limits = record {
  max_messages = 20;
  max_characters = 12000;
  max_summary_characters = 2000;
  max_age_days = 30;
}

abbrev pub render : Rendering
render = record { decimal_text = λ d. ""; uuid_text = λ id. ""; digest = λ parts. "key" }

abbrev pub unsubscribing : Pattern
unsubscribing = record {
  expression = "\\b(?:stop messaging|do not contact|unsubscribe)\\b";
  ignore_case = true;
}

-- It finds what the last of the no-contact patterns does.
abbrev pub spot : Pattern → String → Option String
spot q content =
    if q.expression == unsubscribing.expression && content == "unsubscribe"
    then some "unsubscribe"
    else none

abbrev pub leave : Pattern → String → String → String
leave q replacement value = value

abbrev pub calm : String → Bool
calm s = false

abbrev pub asked_to_stop : SpecialControlFinding
asked_to_stop = record {
  control = SpecialControl.do_not_contact;
  confidence = hundredths 100;
  evidence = "unsubscribe";
  source_message_id = 20;
  deterministic = true;
}

abbrev pub prepared : PreparedExtractionContext
prepared = record {
  request = record {
    tenant_id = 7;
    conversation_id = 9;
    messages =
        record {
          id = 20;
          role = ConversationRole.customer;
          content = "unsubscribe";
          sent_at = noon;
        }
        ∷ [];
    profile_context = record {
      current_opportunity = "portability";
      secondary_opportunities = [];
      facts = [];
      open_conflict_fields = [];
    };
    previous_summary = none;
    recently_asked_fields = [];
    expected_language = "es";
    prompt_version = "telecom-extraction.v1";
    schema_version = "telecom-extraction-result.v1";
    correlation_id = 11;
    idempotency_key = "key";
    handoff_confirmed = false;
    repair_schema = false;
  };
  deterministic_controls = asked_to_stop ∷ [];
  original_messages = leaving ∷ [];
}

-- What a run computes with.
run : Unit {0}
unfolding filter contains any decide insert_by sort_by codes text_lt lex_lt is_blank is_empty
    text_length strip drop_text get put keys for_each ProfileField-discrete OpportunityType-discrete
    opportunity_type_value SpecialControl-discrete HandoffKind-discrete ConfidenceTreatment-discrete
    CommercialUrgency-discrete ensure_confidence special_control_finding_post_init
    accepted_extraction_post_init extracted_opportunity_post_init email_pattern phone_pattern
    sensitive_id_pattern dnc_patterns human_patterns injection_patterns redact take_text drop
    last_items last_text reversed sent_before cutoff or_newest eligible_messages add_message
    add_long select_message select_messages selected_messages control_patterns first_match
    finding_of message_findings findings_of by_control controls excluded_profile_context
    prepared_message context_value optional_text context_fact profile_context
    extraction_idempotency_key context_summary prepare
run = tt

pub it_is_prepared : prepare render spot leave limits command noon ≡ ok prepared
unfolding run
it_is_prepared = refl

abbrev pub origin : Origin
origin = record {
  provider = "gateway";
  model = "none";
  prompt_version = "telecom-extraction.v1";
  schema_version = "telecom-extraction-result.v1";
}

abbrev pub fallback : NormalizedExtraction
fallback = degraded_extraction command prepared 20 []

abbrev pub accepted : AcceptedExtraction
accepted = accepted_extraction calm default_confidence_policy fallback [] [] [] command

-- The degraded mode asks nothing.
abbrev pub silent : AcceptedExtraction
silent = record accepted { next_question = none }

abbrev pub proposed : AcceptedExtraction → ProfileUpdateProposal
proposed e =
    let updated =
      updated_profile command.profile command.profile.opportunity [] [] e.missing_information in
    record {
      previous_profile = command.profile;
      updated_profile = updated;
      facts_added = [];
      facts_preserved = [];
      conflicts_added = 0;
      qualification_request = record {
        profile = updated;
        signals =
            record {
              code = SignalCode.do_not_contact;
              confidence = hundredths 100;
              source_message_id = some 20;
              observed_at = noon;
              extraction_method = ExtractionMethod.explicit;
              validation_status = ValidationStatus.accepted;
            }
            ∷ [];
        cause = QualificationCause.profile_updated;
        trigger_id = 20;
        correlation_id = 11;
        eligibility = EligibilityStatus.not_applicable;
        extraction = metadata_of origin e.overall_confidence;
      };
    }

-- What accepting and proposing compute with.
unfoldable pub later : Unit {0}
unfolding run ensure_ratio ensure_aware accept accepted_extraction degraded degraded_extraction
    apply metadata_of updated_profile has_duplicates distinct intersects min_ℤ max_ℤ sum_ℤ ◌+ℤ◌
    option_beq SignalCode-discrete ValidationStatus-discrete lead_profile_post_init
    opportunity_post_init key_matches same_value fact profile_fact_post_init
    commercial_signal_post_init extraction_metadata_post_init signal_treatment field_treatment
    normalized_extraction_post_init context_limits_post_init missing required_fields question_text
    question is_silenced has_control eligible_targets first_text ask or_else provider_question
    default_question offered_question is_acceptable suggested_handoff is_urgent_portability
    is_accepted_field is_accepted_signal not_in is_accepted_control outweighs keep_control
    keep_controls accepted_controls overall within_ratio div_Decimal accepted_opportunity
    signal_candidates put_signals put_controls put_control control_candidate control_signal
    put_contradiction set_default set_if_absent supported_code base_candidate when is_some
    intent_signal urgency_signal opportunity_signal commercial_signal signals_of add_fields
    add_conflicts proposed_opportunity checked_opportunity latest latest_id propose
    degraded_acceptance last_id
later = tt

pub it_is_accepted : accept calm default_confidence_policy fallback [] [] [] command ≡ ok accepted
unfolding later
it_is_accepted = refl

pub it_is_applied : apply command accepted origin noon ≡ ok (proposed accepted)
unfolding later
it_is_applied = refl

pub it_degrades :
    degraded calm default_confidence_policy command prepared [] origin noon
    ≡ ok (silent, proposed silent)
unfolding later
it_degrades = refl

abbrev pub answer_to : QualificationRequest → QualificationResult
answer_to request = result_of no_print request policy 12 noon cold

pub it_is_evaluated :
    evaluate no_print (proposed accepted).qualification_request policy 12 noon
    ≡ ok (answer_to (proposed accepted).qualification_request)
unfolding later engine
it_is_evaluated = refl

pub it_is_evaluated_too :
    evaluate no_print (proposed silent).qualification_request policy 12 noon
    ≡ ok (answer_to (proposed silent).qualification_request)
unfolding later engine
it_is_evaluated_too = refl

pub limits_are_valid : context_limits_post_init limits ≡ ok tt
unfolding later
limits_are_valid = refl

pub controls_kept :
    (f : SpecialControlFinding) → Memᴰ f prepared.deterministic_controls → Memᴰ f fallback.controls
unfolding degraded_extraction
controls_kept f m = m

pub it-Matches : Matches spot SpecialControl.do_not_contact leaving
unfolding run
it-Matches = (
  dnc_patterns,
  unsubscribing,
  "unsubscribe",
  Memᴰ.head refl,
  Memᴰ.tail (Memᴰ.tail (Memᴰ.tail (Memᴰ.head refl))),
  refl,
)
