-- ===== src/Extraction/Mapper.antt =====
-- `ExtractionDomainMapper` of telecom_extraction/processing.py (src/saas_platform/modules): the profile
-- and the qualification request that an accepted extraction proposes.
use plataforma_saa_s_de_auto.Prelude.{
  Bool, true, false, Option, none, some, List, [], ◌∷◌, map, ◌==◌, min_ℤ, if◌then◌else◌,
}
use plataforma_saa_s_de_auto.Prelude.Dict.{Dict, get, put}
use plataforma_saa_s_de_auto.Errors.{Result, ok, ◌>>◌, for_each}
use plataforma_saa_s_de_auto.Foundation.{Uuid, DateTime, Decimal}
use plataforma_saa_s_de_auto.LeadQualification.Vocabulary.{
  OpportunityType, ExtractionMethod, ValidationStatus, SignalCode, opportunity_type_eq,
  profile_field_eq, signal_code_eq,
}
use plataforma_saa_s_de_auto.LeadQualification.Request.{
  CommercialSignal, commercial_signal_post_init,
}
use plataforma_saa_s_de_auto.Extraction.Vocabulary.{
  ConfidenceTreatment, CommercialIntent, CommercialUrgency, SpecialControl, confidence_treatment_eq,
}
use plataforma_saa_s_de_auto.Extraction.Domain.{
  ResolvedSignal, SpecialControlFinding, ExtractionContradiction, AcceptedExtraction,
}

-- `INTENT_SIGNALS`
unfoldable pub intent_signal : CommercialIntent → Option SignalCode
intent_signal CommercialIntent.exploration = some SignalCode.research_only
intent_signal CommercialIntent.comparison = some SignalCode.compares_products
intent_signal CommercialIntent.price_inquiry = some SignalCode.asks_price
intent_signal CommercialIntent.monthly_payment_inquiry = some SignalCode.asks_monthly_payment
intent_signal CommercialIntent.inventory_inquiry = some SignalCode.asks_availability
intent_signal CommercialIntent.requirements_inquiry = some SignalCode.asks_requirements
intent_signal CommercialIntent.quote_request = some SignalCode.requests_quote
intent_signal CommercialIntent.portability_request = some SignalCode.requests_portability
intent_signal CommercialIntent.contract = some SignalCode.wants_contract_now
intent_signal CommercialIntent.purchase = some SignalCode.wants_contract_now
intent_signal _ = none

-- `URGENCY_SIGNALS`
unfoldable pub urgency_signal : CommercialUrgency → Option SignalCode
urgency_signal CommercialUrgency.immediate = some SignalCode.immediate
urgency_signal CommercialUrgency.this_week = some SignalCode.this_week
urgency_signal CommercialUrgency.future = some SignalCode.purchase_over_three_months
urgency_signal _ = none

unfoldable pub opportunity_signal : OpportunityType → Option SignalCode
opportunity_signal OpportunityType.device_with_plan = some SignalCode.device_and_plan
opportunity_signal OpportunityType.accessory = some SignalCode.accessory_interest
opportunity_signal OpportunityType.multiple_lines = some SignalCode.multiple_lines
opportunity_signal OpportunityType.business_account = some SignalCode.business_account
opportunity_signal _ = none

-- `control_map`
unfoldable pub control_signal : SpecialControl → Option SignalCode
control_signal SpecialControl.do_not_contact = some SignalCode.do_not_contact
control_signal SpecialControl.human_requested = some SignalCode.requests_human
control_signal _ = none

abbrev pub Candidate : Type 0
Candidate = Decimal × Option Uuid × ExtractionMethod

abbrev pub Candidates : Type 0
Candidates = Dict SignalCode Candidate

unfoldable pub put_signals : List ResolvedSignal → Candidates → Candidates
put_signals [] d = d
put_signals (s ∷ ss) d =
    put_signals ss
      (put s.value.code (s.confidence, some s.value.source_message_id, ExtractionMethod.ai) d)

unfoldable pub control_candidate : SpecialControlFinding → Candidate
control_candidate f = (
  f.confidence,
  some f.source_message_id,
  if f.deterministic then ExtractionMethod.explicit else ExtractionMethod.ai,
)

unfoldable pub put_control : Option SignalCode → SpecialControlFinding → Candidates → Candidates
unfolding control_candidate
put_control none f d = d
put_control (some code) f d = put code (control_candidate f) d

unfoldable pub put_controls : List SpecialControlFinding → Candidates → Candidates
unfolding put_control
put_controls [] d = d
put_controls (f ∷ fs) d = put_controls fs (put_control (control_signal f.control) f d)

unfoldable pub least : Decimal → List ExtractionContradiction → Decimal
least c [] = c
least c (x ∷ xs) = least (min_ℤ c x.confidence) xs

unfoldable pub put_contradiction : List ExtractionContradiction → Candidates → Candidates
unfolding least
put_contradiction [] d = d
put_contradiction (x ∷ xs) d =
    put SignalCode.contradictory_information
      (least x.confidence xs, some x.new_source_message_id, ExtractionMethod.system) d

unfoldable pub set_if_absent : SignalCode → Candidate → Option Candidate → Candidates → Candidates
set_if_absent code c (some old) d = d
set_if_absent code c none d = put code c d

-- `candidates.setdefault(code, candidate)`, where there is a code.
unfoldable pub set_default : Option SignalCode → Candidate → Candidates → Candidates
unfolding set_if_absent
set_default none c d = d
set_default (some code) c d = set_if_absent code c (get code d) d

unfoldable pub when : {A : Type 0} → Bool → Option A → Option A
when true o = o
when false o = none

unfoldable pub is_some : {A : Type 0} → Option A → Bool
is_some none = false
is_some (some a) = true

-- The candidate of a signal that the intent, the urgency or the opportunity stands for.
unfoldable pub base_candidate : AcceptedExtraction → Candidate
base_candidate e = (e.opportunity.confidence, e.opportunity.source_message_id, ExtractionMethod.ai)

-- A signal of the intent or the urgency needs its treatment and a source message.
unfoldable pub supported_code :
    ConfidenceTreatment → AcceptedExtraction → Option SignalCode → Option SignalCode
unfolding when is_some
supported_code treatment e code =
    when (treatment == ConfidenceTreatment.auto_accept)
      (when (is_some e.opportunity.source_message_id) code)

unfoldable pub signal_candidates : AcceptedExtraction → Candidates
unfolding put_signals put_controls put_contradiction set_default base_candidate supported_code
    intent_signal urgency_signal opportunity_signal
signal_candidates e =
    set_default (opportunity_signal e.opportunity.opportunity.primary) (base_candidate e) (
      set_default (supported_code e.urgency_treatment e (urgency_signal e.urgency))
        (base_candidate e)
        (set_default (supported_code e.intent_treatment e (intent_signal e.intent))
          (base_candidate e)
          (put_contradiction e.contradictions
            (put_controls e.controls (put_signals e.signals [])))))

unfoldable pub commercial_signal : DateTime → SignalCode × Candidate → CommercialSignal
commercial_signal now (code, (confidence, source_message_id, method)) = record {
  code = code;
  confidence = confidence;
  source_message_id = source_message_id;
  observed_at = now;
  extraction_method = method;
  validation_status = ValidationStatus.accepted;
}

-- `_signals`
unfoldable pub signals_of : AcceptedExtraction → DateTime → Result (List CommercialSignal)
unfolding signal_candidates commercial_signal
signals_of e now =
    let signals = map (commercial_signal now) (signal_candidates e) in
    for_each commercial_signal_post_init signals >> ok signals
