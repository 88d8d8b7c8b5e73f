-- ===== src/Extraction/Decisions/Accept.antt =====
-- `accept` of `ExtractionDecisionService` in telecom_extraction/processing.py
-- (src/saas_platform/modules): which fields, signals and controls of an extraction count.
use plataforma_saa_s_de_auto.Prelude.{
  ℕ, suc, ◌+◌, ◌-◌, ◌*◌, ◌/◌, ◌%◌, Bool, true, false, not, ◌&&◌, ◌||◌, String, Option, none, some,
  List, [], ◌∷◌, map, filter, any, length, ◌==◌, option_eq, string_eq, nat_eq, pos, negsuc, ◌+ℤ◌,
  leb_ℤ, ltb_ℤ, beq_ℤ, min_ℤ, max_ℤ, sum_ℤ, ltb, eqb, if◌then◌else◌,
}
use plataforma_saa_s_de_auto.Prelude.Dict.{Dict, get, put}
use plataforma_saa_s_de_auto.Errors.{Result, ok, ◌>>◌}
use plataforma_saa_s_de_auto.Foundation.{Decimal, DateTime, hundredths}
use plataforma_saa_s_de_auto.LeadQualification.Vocabulary.{OpportunityType, profile_field_eq}
use plataforma_saa_s_de_auto.LeadQualification.Profile.{same_value}
use plataforma_saa_s_de_auto.Extraction.Vocabulary.{
  ConfidenceTreatment, SpecialControl, confidence_treatment_eq, extraction_field_status_eq,
  special_control_eq, provider_field_state_eq, currency_eq,
}
use plataforma_saa_s_de_auto.LeadQualification.Vocabulary.{signal_code_eq}
use plataforma_saa_s_de_auto.Extraction.Domain.{
  ExtractedOpportunity, NormalizedField, SpecialControlFinding, ResolvedField, ResolvedSignal,
  ExtractionContradiction, AcceptedExtraction, accepted_extraction_post_init,
}
use plataforma_saa_s_de_auto.Extraction.Command.{NormalizedExtraction, TelecomExtractionCommand}
use plataforma_saa_s_de_auto.Extraction.Confidence.{ConfidencePolicy, signal_treatment}
use plataforma_saa_s_de_auto.Extraction.Decisions.Required.{missing}
use plataforma_saa_s_de_auto.Extraction.Decisions.Question.{has_control, question}
use plataforma_saa_s_de_auto.Extraction.Decisions.Handoff.{suggested_handoff}

unfoldable pub same_texts : List String → List String → Bool
same_texts [] [] = true
same_texts (s ∷ ss) (t ∷ ts) = s == t && same_texts ss ts
same_texts _ _ = false

-- `==` of two dataclasses compares their fields.
unfoldable pub same_instant : DateTime → DateTime → Bool
same_instant a b = a.instant == b.instant

unfoldable pub same_normalized_field : NormalizedField → NormalizedField → Bool
unfolding same_instant
same_normalized_field a b =
    a.field == b.field
    && same_value a.value b.value
    && a.original_text == b.original_text
    && a.source_message_id == b.source_message_id
    && a.evidence == b.evidence
    && a.provider_state == b.provider_state
    && beq_ℤ a.declared_confidence b.declared_confidence
    && a.currency == b.currency
    && same_instant a.observed_at b.observed_at

unfoldable pub same_resolved_field : ResolvedField → ResolvedField → Bool
unfolding same_normalized_field same_texts
same_resolved_field a b =
    same_normalized_field a.value b.value
    && beq_ℤ a.confidence b.confidence
    && a.status == b.status
    && a.treatment == b.treatment
    && same_texts a.reasons b.reasons

unfoldable pub same_resolved_signal : ResolvedSignal → ResolvedSignal → Bool
unfolding same_instant
same_resolved_signal a b =
    a.value.code == b.value.code
    && a.value.source_message_id == b.value.source_message_id
    && a.value.evidence == b.value.evidence
    && beq_ℤ a.value.declared_confidence b.value.declared_confidence
    && same_instant a.value.observed_at b.value.observed_at
    && beq_ℤ a.confidence b.confidence
    && a.treatment == b.treatment

unfoldable pub is_accepted_field : ResolvedField → Bool
is_accepted_field f =
    f.treatment == ConfidenceTreatment.auto_accept || f.treatment == ConfidenceTreatment.provisional

unfoldable pub is_accepted_signal : ResolvedSignal → Bool
is_accepted_signal s = s.treatment == ConfidenceTreatment.auto_accept

-- `tuple(item for item in items if item not in accepted)`
unfoldable pub not_in : {A : Type 0} → (A → A → Bool) → List A → List A → List A
not_in same accepted items = filter (λ item. not (any (λ other. same other item) accepted)) items

unfoldable pub is_accepted_control : ConfidencePolicy → SpecialControlFinding → Bool
is_accepted_control p f = f.deterministic || leb_ℤ p.auto_accept f.confidence

unfoldable pub outweighs : SpecialControlFinding → Option SpecialControlFinding → Bool
outweighs f none = true
outweighs f (some existing) = ltb_ℤ existing.confidence f.confidence

abbrev pub ByControl : Type 0
ByControl = Dict SpecialControl SpecialControlFinding

unfoldable pub keep_control : SpecialControlFinding → ByControl → ByControl
unfolding outweighs
keep_control f d = if outweighs f (get f.control d) then put f.control f d else d

unfoldable pub keep_controls : List SpecialControlFinding → ByControl → ByControl
unfolding keep_control
keep_controls [] d = d
keep_controls (f ∷ fs) d = keep_controls fs (keep_control f d)

-- `_accepted_controls`
unfoldable pub accepted_controls :
    ConfidencePolicy → List SpecialControlFinding → List SpecialControlFinding
unfolding keep_controls is_accepted_control
accepted_controls p controls =
    map (λ e. e.1) (keep_controls (filter (is_accepted_control p) controls) [])

-- A division of a Decimal by a whole number, rounded half to even.
half_even : ℕ → ℕ → ℕ
half_even a n =
    let quotient = a / n in
    let twice = a % n * 2 in
    if ltb twice n
    then quotient
    else if eqb twice n && eqb (quotient % 2) 0
    then quotient
    else quotient + 1

unfoldable pub div_Decimal : Decimal → ℕ → Decimal
unfolding half_even
div_Decimal (pos a) n = pos (half_even a n)
div_Decimal (negsuc a) n =
    if eqb (half_even (suc a) n) 0 then pos 0 else negsuc (half_even (suc a) n - 1)

unfoldable pub within_ratio : Decimal → Decimal
within_ratio d = min_ℤ (hundredths 100) (max_ℤ (pos 0) d)

-- `_overall`
unfoldable pub overall : Decimal → List ResolvedField → Decimal
unfolding within_ratio div_Decimal
overall declared [] = min_ℤ declared (hundredths 50)
overall declared (f ∷ fs) =
    let average = div_Decimal (sum_ℤ (map (λ item. item.confidence) (f ∷ fs))) (length (f ∷ fs)) in
    within_ratio (div_Decimal (declared +ℤ average) 2)

-- An opportunity of too little confidence counts as unidentified.
unfoldable pub accepted_opportunity : ConfidencePolicy → ExtractedOpportunity → ExtractedOpportunity
accepted_opportunity p o =
    if ltb_ℤ o.confidence p.provisional
    then record o {
      opportunity = record { primary = OpportunityType.unidentified; secondary = [] };
    }
    else o

module _ (is_sensitive : String → Bool) (p : ConfidencePolicy) where
  unfoldable pub accepted_extraction :
      NormalizedExtraction
      → List ResolvedField
      → List ExtractionContradiction
      → List ResolvedSignal
      → TelecomExtractionCommand
      → AcceptedExtraction
  accepted_extraction n fields contradictions signals command =
      let controls = accepted_controls p n.controls in
      let accepted_fields = filter is_accepted_field fields in
      let accepted_signals = filter is_accepted_signal signals in
      let opportunity = accepted_opportunity p n.opportunity in
      let still_missing = missing opportunity.opportunity.primary command.profile accepted_fields in
      record {
        opportunity = opportunity;
        fields = accepted_fields;
        rejected_fields = not_in same_resolved_field accepted_fields fields;
        signals = accepted_signals;
        rejected_signals = not_in same_resolved_signal accepted_signals signals;
        controls = controls;
        contradictions = contradictions;
        missing_information = still_missing;
        next_question = question is_sensitive n still_missing contradictions controls command;
        handoff =
            suggested_handoff p n controls accepted_fields
              (has_control SpecialControl.do_not_contact controls);
        intent = n.intent;
        intent_treatment = signal_treatment p n.intent_confidence;
        urgency = n.urgency;
        urgency_treatment = signal_treatment p n.urgency_confidence;
        summary = n.summary;
        overall_confidence = overall n.declared_overall_confidence accepted_fields;
      }

  -- `accept`
  unfoldable pub accept :
      NormalizedExtraction
      → List ResolvedField
      → List ExtractionContradiction
      → List ResolvedSignal
      → TelecomExtractionCommand
      → Result AcceptedExtraction
  accept n fields contradictions signals command =
      let e = accepted_extraction n fields contradictions signals command in
      accepted_extraction_post_init e >> ok e
