-- ===== src/Extraction/Proposal.antt =====
-- `apply` of `ExtractionDomainMapper` in telecom_extraction/processing.py (src/saas_platform/modules).
use plataforma_saa_s_de_auto.Prelude.{
  ◌-◌, ltb, String, Option, none, some, List, [], ◌∷◌, ◌++◌, length, ◌==◌, distinct, if◌then◌else◌,
}
use plataforma_saa_s_de_auto.Prelude.Dict.{Dict, get, put}
use plataforma_saa_s_de_auto.Errors.{Result, ok, err, ◌>>◌, ◌>>=◌, key_error}
use plataforma_saa_s_de_auto.Foundation.{Uuid, DateTime, Decimal}
use plataforma_saa_s_de_auto.LeadQualification.Vocabulary.{
  OpportunityType, ProfileField, FactSource, ExtractionMethod, ValidationStatus, QualificationCause,
  opportunity_type_eq, profile_field_eq,
}
use plataforma_saa_s_de_auto.LeadQualification.Profile.{
  Opportunity, opportunity_post_init, FactValue, ProfileFact, profile_fact_post_init, FactConflict,
  fact_conflict_post_init, LeadProfile, lead_profile_post_init,
}
use plataforma_saa_s_de_auto.LeadQualification.Request.{
  ExtractionMetadata, extraction_metadata_post_init,
}
use plataforma_saa_s_de_auto.Extraction.Vocabulary.{ConfidenceTreatment, confidence_treatment_eq}
use plataforma_saa_s_de_auto.Extraction.Domain.{
  ResolvedField, ExtractionContradiction, AcceptedExtraction,
}
use plataforma_saa_s_de_auto.Extraction.Command.{
  ConversationMessage, TelecomExtractionCommand, ProfileUpdateProposal,
}
use plataforma_saa_s_de_auto.Extraction.Mapper.{signals_of}

abbrev pub Facts : Type 0
Facts = Dict ProfileField ProfileFact

-- The status of the fact of an accepted field.
unfoldable pub added_status : ConfidenceTreatment → ValidationStatus
added_status treatment =
    if treatment == ConfidenceTreatment.auto_accept
    then ValidationStatus.accepted
    else ValidationStatus.hypothesis

-- `_fact`
unfoldable pub fact_from : ResolvedField → ValidationStatus → ProfileFact
fact_from item status = record {
  field = item.value.field;
  value = item.value.value;
  source = FactSource.customer;
  source_message_id = some item.value.source_message_id;
  observed_at = item.value.observed_at;
  confidence = item.confidence;
  extraction_method = ExtractionMethod.ai;
  validation_status = status;
  confirmed_by = none;
}

pub record Added : Type 0 where
  pub facts : Facts
  pub facts_added : List ProfileField
  pub facts_preserved : List ProfileField

-- The body of the loop over the accepted fields, by the fact that is there.
unfoldable pub add_field : Option ProfileFact → ResolvedField → Added → Result Added
unfolding added_status fact_from
add_field (some existing) item a =
    ok (record a { facts_preserved = a.facts_preserved ++ (item.value.field ∷ []) })
add_field none item a =
    let f = fact_from item (added_status item.treatment) in
    profile_fact_post_init f
    >> ok (record a {
      facts = put item.value.field f a.facts;
      facts_added = a.facts_added ++ (item.value.field ∷ []);
    })

unfoldable pub add_fields : List ResolvedField → Added → Result Added
add_fields [] a = ok a
add_fields (item ∷ items) a = do
  b ← add_field (get item.value.field a.facts) item a
  add_fields items b

-- A fact that a contradiction states; it counts for nothing but the record of the conflict.
unfoldable pub stated_fact :
    ExtractionContradiction → FactValue → Option Uuid → ValidationStatus → DateTime → ProfileFact
stated_fact c value message_id status now = record {
  field = c.field;
  value = value;
  source = FactSource.customer;
  source_message_id = message_id;
  observed_at = now;
  confidence = c.confidence;
  extraction_method = ExtractionMethod.ai;
  validation_status = status;
  confirmed_by = none;
}

unfoldable pub construct_fact : ProfileFact → Result ProfileFact
construct_fact f = profile_fact_post_init f >> ok f

-- The fact that a contradiction is recorded against.
unfoldable pub previous_fact :
    Option ProfileFact → ExtractionContradiction → DateTime → Result ProfileFact
unfolding construct_fact stated_fact
previous_fact (some f) c now = ok f
previous_fact none c now =
    construct_fact
      (stated_fact c c.previous_value c.previous_source_message_id ValidationStatus.hypothesis now)

-- The body of the loop over the contradictions.
unfoldable pub conflict_from :
    Option ProfileFact → ExtractionContradiction → DateTime → Result FactConflict
unfolding previous_fact construct_fact stated_fact
conflict_from known c now = do
  previous ← previous_fact known c now
  current ←
      construct_fact
        (stated_fact c c.new_value (some c.new_source_message_id) ValidationStatus.rejected now)
  let conflict : FactConflict = record {
    field = c.field;
    previous = previous;
    current = current;
    reason = c.resolution;
    detected_at = now;
  }
  fact_conflict_post_init conflict
  ok conflict

unfoldable pub add_conflicts :
    Facts → List ExtractionContradiction → DateTime → List FactConflict → Result (List FactConflict)
add_conflicts facts [] now conflicts = ok conflicts
add_conflicts facts (c ∷ cs) now conflicts = do
  conflict ← conflict_from (get c.field facts) c now
  add_conflicts facts cs now (conflicts ++ (conflict ∷ []))

unfoldable pub checked_opportunity : Opportunity → Result Opportunity
checked_opportunity o = opportunity_post_init o >> ok o

unfoldable pub proposed_opportunity : Opportunity → Opportunity → Result Opportunity
unfolding checked_opportunity
proposed_opportunity current proposed =
    if current.primary == OpportunityType.unidentified
    then ok proposed
    else if current.primary == proposed.primary
    then checked_opportunity (record {
      primary = current.primary;
      secondary = distinct (current.secondary ++ proposed.secondary);
    })
    else ok current

-- `max(messages, key=sent_at)`: the first of the latest messages.
unfoldable pub latest : ConversationMessage → List ConversationMessage → ConversationMessage
latest m [] = m
latest m (n ∷ ns) = latest (if ltb m.sent_at.instant n.sent_at.instant then n else m) ns

unfoldable pub latest_id : List ConversationMessage → Result Uuid
unfolding latest
latest_id [] = err (key_error "max() arg is an empty sequence")
latest_id (m ∷ ms) = ok (latest m ms).id

-- What produced the extraction.
pub record Origin : Type 0 where
  pub provider : String
  pub model : String
  pub prompt_version : String
  pub schema_version : String

unfoldable pub updated_profile :
    LeadProfile → Opportunity → Facts → List FactConflict → List ProfileField → LeadProfile
updated_profile profile opportunity facts conflicts missing = record {
  tenant_id = profile.tenant_id;
  lead_id = profile.lead_id;
  conversation_id = profile.conversation_id;
  opportunity = opportunity;
  facts = facts;
  conflicts = conflicts;
  missing_information = missing;
}

unfoldable pub metadata_of : Origin → Decimal → ExtractionMetadata
metadata_of o confidence = record {
  provider = some o.provider;
  model = some o.model;
  prompt_version = some o.prompt_version;
  schema_version = some o.schema_version;
  overall_confidence = some confidence;
}

-- The last part of `apply`: the profile, the request and the proposal.
unfoldable pub propose :
    TelecomExtractionCommand
    → AcceptedExtraction
    → Origin
    → DateTime
    → Added
    → List FactConflict
    → Opportunity
    → Result ProfileUpdateProposal
unfolding updated_profile metadata_of
propose command e origin now a conflicts opportunity = do
  let updated = updated_profile command.profile opportunity a.facts conflicts e.missing_information
  lead_profile_post_init updated
  signals ← signals_of e now
  trigger_id ← latest_id command.messages
  extraction_metadata_post_init (metadata_of origin e.overall_confidence)
  ok (record {
    previous_profile = command.profile;
    updated_profile = updated;
    facts_added = a.facts_added;
    facts_preserved = distinct a.facts_preserved;
    conflicts_added = length conflicts - length command.profile.conflicts;
    qualification_request = record {
      profile = updated;
      signals = signals;
      cause = QualificationCause.profile_updated;
      trigger_id = trigger_id;
      correlation_id = command.correlation_id;
      eligibility = command.eligibility;
      extraction = metadata_of origin e.overall_confidence;
    };
  })

-- `apply`
unfoldable pub apply :
    TelecomExtractionCommand → AcceptedExtraction → Origin → DateTime → Result ProfileUpdateProposal
apply command e origin now = do
  a ←
      add_fields e.fields
        (record { facts = command.profile.facts; facts_added = []; facts_preserved = [] })
  conflicts ← add_conflicts a.facts e.contradictions now command.profile.conflicts
  opportunity ← proposed_opportunity command.profile.opportunity e.opportunity.opportunity
  propose command e origin now a conflicts opportunity
