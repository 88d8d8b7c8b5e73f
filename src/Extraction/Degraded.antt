-- ===== src/Extraction/Degraded.antt =====
-- The degraded mode of telecom_extraction/application.py (src/saas_platform/modules): what stands for the
-- extraction when the provider gives none.
use plataforma_saa_s_de_auto.Prelude.{
  Bool, true, String, none, some, List, [], ◌∷◌, ◌==◌, pos, if◌then◌else◌,
}
use plataforma_saa_s_de_auto.Errors.{Result, ok, err, ◌>>◌, ◌>>=◌, index_error}
use plataforma_saa_s_de_auto.Foundation.{Uuid, DateTime, hundredths}
use plataforma_saa_s_de_auto.LeadQualification.Vocabulary.{OpportunityType, opportunity_type_eq}
use plataforma_saa_s_de_auto.Extraction.Vocabulary.{
  CommercialIntent, CommercialUrgency, HandoffKind,
}
use plataforma_saa_s_de_auto.Extraction.Domain.{
  AcceptedExtraction, extracted_opportunity_post_init, accepted_extraction_post_init,
}
use plataforma_saa_s_de_auto.Extraction.Confidence.{ConfidencePolicy}
use plataforma_saa_s_de_auto.Extraction.Command.{
  ConversationMessage, NormalizedExtraction, TelecomExtractionCommand, ProfileUpdateProposal,
  normalized_extraction_post_init,
}
use plataforma_saa_s_de_auto.Extraction.Decisions.Accept.{accept}
use plataforma_saa_s_de_auto.Extraction.Proposal.{Origin, apply}
use plataforma_saa_s_de_auto.Extraction.Context.Request.{PreparedExtractionContext}

unfoldable pub last_id : List ConversationMessage → Result Uuid
last_id [] = err (index_error "tuple index out of range")
last_id (m ∷ []) = ok m.id
last_id (m ∷ n ∷ ms) = last_id (n ∷ ms)

-- The extraction of the degraded mode has the deterministic controls and nothing of a provider.
unfoldable pub degraded_extraction :
    TelecomExtractionCommand → PreparedExtractionContext → Uuid → List String → NormalizedExtraction
degraded_extraction command prepared source codes = record {
  language = command.expected_language;
  opportunity = record {
    opportunity = command.profile.opportunity;
    confidence =
        if command.profile.opportunity.primary == OpportunityType.unidentified
        then pos 0
        else hundredths 100;
    evidence = "existing profile only";
    source_message_id = some source;
  };
  fields = [];
  signals = [];
  intent = CommercialIntent.unknown;
  intent_confidence = pos 0;
  intent_evidence = "";
  intent_source_message_id = none;
  urgency = CommercialUrgency.unspecified;
  urgency_confidence = pos 0;
  urgency_evidence = "";
  urgency_source_message_id = none;
  provider_missing_information = [];
  controls = prepared.deterministic_controls;
  provider_handoff = HandoffKind.none;
  provider_handoff_reason = "";
  provider_handoff_confidence = pos 0;
  provider_question_target = none;
  provider_question = none;
  provider_question_reason = none;
  provider_question_priority = none;
  provider_question_alternatives = [];
  provider_question_skippable = true;
  summary = "Structured extraction unavailable; the existing profile was preserved.";
  declared_overall_confidence = pos 0;
  warnings = "provider_degraded_mode" ∷ [];
  recoverable_errors = codes;
}

module _ (is_sensitive : String → Bool) (p : ConfidencePolicy) where
  -- What the degraded mode accepts: it asks no question.
  unfoldable pub degraded_acceptance :
      TelecomExtractionCommand → PreparedExtractionContext → List String → Result AcceptedExtraction
  unfolding last_id degraded_extraction
  degraded_acceptance command prepared codes = do
    source ← last_id prepared.original_messages
    let fallback = degraded_extraction command prepared source codes
    extracted_opportunity_post_init fallback.opportunity
    normalized_extraction_post_init fallback
    accepted ← accept is_sensitive p fallback [] [] [] command
    let silent = record accepted { next_question = none }
    accepted_extraction_post_init silent
    ok silent

  -- `_degraded`, up to the audit and the log.
  unfoldable pub degraded :
      TelecomExtractionCommand
      → PreparedExtractionContext
      → List String
      → Origin
      → DateTime
      → Result (AcceptedExtraction × ProfileUpdateProposal)
  unfolding degraded_acceptance
  degraded command prepared codes origin now = do
    accepted ← degraded_acceptance command prepared codes
    update ← apply command accepted origin now
    ok (accepted, update)
