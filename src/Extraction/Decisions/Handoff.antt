-- ===== src/Extraction/Decisions/Handoff.antt =====
-- `_handoff` of `ExtractionDecisionService` in telecom_extraction/processing.py
-- (src/saas_platform/modules).
use plataforma_saa_s_de_auto.Prelude.{
  Bool, true, false, not, ◌&&◌, ◌||◌, String, Option, none, some, List, [], ◌∷◌, ◌==◌, ℤ, pos,
  leb_ℤ, if◌then◌else◌,
}
use plataforma_saa_s_de_auto.LeadQualification.Vocabulary.{
  OpportunityType, ProfileField, opportunity_type_eq, profile_field_eq,
}
use plataforma_saa_s_de_auto.LeadQualification.Profile.{FactValue}
use plataforma_saa_s_de_auto.Extraction.Vocabulary.{
  CommercialUrgency, SpecialControl, HandoffKind, commercial_urgency_eq, handoff_kind_eq,
}
use plataforma_saa_s_de_auto.Extraction.Domain.{
  SpecialControlFinding, ResolvedField, HandoffSuggestion,
}
use plataforma_saa_s_de_auto.Extraction.Command.{NormalizedExtraction}
use plataforma_saa_s_de_auto.Extraction.Confidence.{ConfidencePolicy}
use plataforma_saa_s_de_auto.Extraction.Decisions.Question.{has_control}

-- `isinstance(value, int)`, which a bool is too.
unfoldable pub as_int : FactValue → Option ℤ
as_int (FactValue.text s) = none
as_int (FactValue.integer n) = some n
as_int (FactValue.flag true) = some (pos 1)
as_int (FactValue.flag false) = some (pos 0)
as_int (FactValue.decimal d) = none

unfoldable pub count_from : Bool → Option ℤ → ℤ → ℤ
count_from true (some n) rest = n
count_from _ _ rest = rest

-- The first whole number of lines, or 0.
unfoldable pub line_count : List ResolvedField → ℤ
unfolding count_from as_int
line_count [] = pos 0
line_count (f ∷ fs) =
    count_from (f.value.field == ProfileField.line_count) (as_int f.value.value) (line_count fs)

unfoldable pub is_urgent_portability : ConfidencePolicy → NormalizedExtraction → Bool
is_urgent_portability p n =
    n.opportunity.opportunity.primary == OpportunityType.portability
    && ((n.urgency == CommercialUrgency.immediate || n.urgency == CommercialUrgency.this_week)
        && leb_ℤ p.auto_accept n.urgency_confidence)

abbrev suggestion : HandoffKind → List String → HandoffSuggestion
suggestion kind reasons = record { kind = kind; reason_codes = reasons }

-- `_handoff`
unfoldable pub suggested_handoff :
    ConfidencePolicy
    → NormalizedExtraction
    → List SpecialControlFinding
    → List ResolvedField
    → Bool
    → HandoffSuggestion
suggested_handoff p n controls fields dnc =
    if dnc
    then suggestion HandoffKind.none ("do_not_contact" ∷ [])
    else if has_control SpecialControl.human_requested controls
    then suggestion HandoffKind.general ("customer_requested_human" ∷ [])
    else if has_control SpecialControl.suspected_fraud controls
        || has_control SpecialControl.complaint controls
    then suggestion HandoffKind.specialized ("special_control" ∷ [])
    else if n.opportunity.opportunity.primary == OpportunityType.business_account
        || leb_ℤ (pos 10) (line_count fields)
    then suggestion HandoffKind.specialized ("business_or_volume" ∷ [])
    else if is_urgent_portability p n
    then suggestion HandoffKind.general ("urgent_portability" ∷ [])
    else if not (n.provider_handoff == HandoffKind.none)
        && leb_ℤ p.auto_accept n.provider_handoff_confidence
    then suggestion n.provider_handoff ("validated_provider_suggestion" ∷ [])
    else suggestion HandoffKind.none []
