-- ===== src/Extraction/Tests.antt =====
-- The treatments of the default confidence policy.
use plataforma_saa_s_de_auto.Prelude.{◌≡◌, refl, decide}
use plataforma_saa_s_de_auto.Foundation.{hundredths}
use plataforma_saa_s_de_auto.Extraction.Vocabulary.{
  ProviderFieldState, ExtractionFieldStatus, ConfidenceTreatment, ProviderFieldState-discrete,
}
use plataforma_saa_s_de_auto.Extraction.Confidence.{default_confidence_policy, field_treatment}

inferred_is_provisional :
    field_treatment default_confidence_policy (hundredths 90) ProviderFieldState.inferred
    ≡ (ConfidenceTreatment.provisional, ExtractionFieldStatus.inferred)
unfolding field_treatment decide ProviderFieldState-discrete
inferred_is_provisional = refl
