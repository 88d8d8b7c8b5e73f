-- ===== src/Conversations/Profile/Decision.antt =====
-- `ProfileValueDecision` and the `_candidates`, `_fact` and `_decide` of
-- `IncrementalLeadProfileApplier`, telecom_conversations/profile.py (src/saas_platform/modules).
use plataforma_saa_s_de_auto.Prelude.{
  Bool, true, false, not, ◌&&◌, ◌||◌, String, Option, none, some, List, [], ◌∷◌, ◌++◌, ltb_ℤ,
  filter, contains, if◌then◌else◌, ◌==◌, option_eq, nat_eq,
}
use plataforma_saa_s_de_auto.Errors.{Result, ok, ◌>>=◌, ◌>>◌}
use plataforma_saa_s_de_auto.LeadQualification.Vocabulary.{
  ProfileField, FactSource, ExtractionMethod, ValidationStatus, profile_field_eq,
  validation_status_eq,
}
use plataforma_saa_s_de_auto.LeadQualification.Profile.{
  ProfileFact, profile_fact_post_init, same_value,
}
use plataforma_saa_s_de_auto.Extraction.Vocabulary.{
  ProviderFieldState, ConfidenceTreatment, provider_field_state_eq, confidence_treatment_eq,
}
use plataforma_saa_s_de_auto.Extraction.Domain.{ResolvedField, AcceptedExtraction}
use plataforma_saa_s_de_auto.Conversations.Profile.Action.{
  ProfileValueAction, profile_value_action_eq,
}

-- `AI_FORBIDDEN_FIELDS`
abbrev pub ai_forbidden_fields : List ProfileField
ai_forbidden_fields = ProfileField.coverage ∷ ProfileField.inventory ∷ []

pub record ProfileValueDecision : Type 0 where
  pub candidate : ProfileFact
  pub action : ProfileValueAction
  pub previous : Option ProfileFact
  pub conflict_reason : Option String

unfoldable pub makes_current : ProfileValueDecision → Bool
makes_current d =
    contains
      (ProfileValueAction.new_current ∷ ProfileValueAction.reinforce_current
        ∷ ProfileValueAction.supersede_current ∷ [])
      d.action

-- `_candidates`
unfoldable pub candidates : AcceptedExtraction → List ResolvedField
candidates extraction =
    extraction.fields
    ++ filter (λ f. f.treatment == ConfidenceTreatment.contradicted) extraction.rejected_fields

unfoldable pub fact_status : Bool → ConfidenceTreatment → ValidationStatus
fact_status corrected treatment =
    if corrected || treatment == ConfidenceTreatment.auto_accept
    then ValidationStatus.accepted
    else if treatment == ConfidenceTreatment.provisional
    then ValidationStatus.hypothesis
    else ValidationStatus.rejected

-- The value that `_fact` builds, before the check of its construction.
unfoldable pub fact_value : Bool → ResolvedField → ProfileFact
fact_value corrected item = record {
  field = item.value.field;
  value = item.value.value;
  source = FactSource.customer;
  source_message_id = some item.value.source_message_id;
  observed_at = item.value.observed_at;
  confidence = item.confidence;
  extraction_method = ExtractionMethod.ai;
  validation_status = fact_status corrected item.treatment;
  confirmed_by = none;
}

-- `_fact`
unfoldable pub fact_of : Bool → ResolvedField → Result ProfileFact
fact_of corrected item =
    profile_fact_post_init (fact_value corrected item) >> ok (fact_value corrected item)

unfoldable pub is_stronger : ProfileFact → ProfileFact → Bool
is_stronger existing candidate =
    ltb_ℤ existing.confidence candidate.confidence
    || (existing.validation_status == ValidationStatus.hypothesis
        && candidate.validation_status == ValidationStatus.accepted)

abbrev pub decision :
    ProfileFact → ProfileValueAction → Option ProfileFact → Option String → ProfileValueDecision
decision candidate action previous reason = record {
  candidate = candidate;
  action = action;
  previous = previous;
  conflict_reason = reason;
}

-- The candidate's value differs from the existing one.
unfoldable pub decide_differing :
    ProfileFact → ResolvedField → Bool → ProfileFact → Result ProfileValueDecision
unfolding fact_of
decide_differing existing item explicit_correction candidate =
    let observed = item.value.provider_state == ProviderFieldState.observed in
    let confirmed = existing.validation_status == ValidationStatus.confirmed in
    let corrected = fact_of true item in
    if explicit_correction && observed && not confirmed
    then corrected >>= (λ c. ok (
        decision c ProfileValueAction.supersede_current (some existing)
          (some "explicit_customer_correction_applied")))
    else if confirmed
    then ok (
        decision candidate ProfileValueAction.historical_only (some existing)
          (some "confirmed_value_preserved_human_review_required"))
    else if ltb_ℤ existing.confidence candidate.confidence
        && observed
        && candidate.validation_status == ValidationStatus.accepted
    then ok (
        decision candidate ProfileValueAction.supersede_current (some existing)
          (some "higher_confidence_observed_value_applied"))
    else ok (
        decision candidate ProfileValueAction.historical_only (some existing)
          (some "existing_value_preserved_clarification_required"))

-- There is a fact of the candidate's field.
unfoldable pub decide_existing :
    ProfileFact → ResolvedField → Bool → ProfileFact → Result ProfileValueDecision
unfolding decide_differing
decide_existing existing item explicit_correction candidate =
    if existing.source_message_id == candidate.source_message_id
      && same_value existing.value candidate.value
    then ok (decision candidate ProfileValueAction.duplicate (some existing) none)
    else if same_value existing.value candidate.value
    then ok (
        decision candidate
          (if is_stronger existing candidate
            then ProfileValueAction.reinforce_current
            else ProfileValueAction.historical_only)
          (some existing) none)
    else decide_differing existing item explicit_correction candidate

unfoldable pub decide_new : ResolvedField → ProfileFact → ProfileValueDecision
decide_new item candidate =
    if item.treatment == ConfidenceTreatment.auto_accept
      || item.treatment == ConfidenceTreatment.provisional
    then decision candidate ProfileValueAction.new_current none none
    else decision candidate ProfileValueAction.historical_only none none

unfoldable pub decide_allowed :
    Option ProfileFact → ResolvedField → Bool → ProfileFact → Result ProfileValueDecision
unfolding decide_new decide_existing
decide_allowed none item explicit_correction candidate = ok (decide_new item candidate)
decide_allowed (some existing) item explicit_correction candidate =
    decide_existing existing item explicit_correction candidate

unfoldable pub decide_candidate :
    Option ProfileFact → ResolvedField → Bool → ProfileFact → Result ProfileValueDecision
unfolding decide_allowed
decide_candidate existing item explicit_correction candidate =
    if contains ai_forbidden_fields candidate.field
    then ok (decision candidate ProfileValueAction.forbidden existing none)
    else decide_allowed existing item explicit_correction candidate

-- `_decide`
unfoldable pub decide_value :
    Option ProfileFact → ResolvedField → Bool → Result ProfileValueDecision
unfolding decide_candidate
decide_value existing item explicit_correction =
    fact_of false item >>= decide_candidate existing item explicit_correction
