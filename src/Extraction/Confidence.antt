-- ===== src/Extraction/Confidence.antt =====
-- `ConfidencePolicy` of telecom_extraction/domain.py, and the treatments that `ConfidenceResolver` of
-- telecom_extraction/processing.py gives (src/saas_platform/modules).
use plataforma_saa_s_de_auto.Prelude.{
  Bool, true, false, not, ◌&&◌, ◌≡◌, refl, ℕ, ◌≤◌, leb_ℤ, ◌≤ℤ◌, arith, if◌then◌else◌, ◌==◌,
}
use plataforma_saa_s_de_auto.Errors.{Result, ◌>>◌, raise_if, validation_error}
use plataforma_saa_s_de_auto.Foundation.{Decimal, hundredths}
use plataforma_saa_s_de_auto.Extraction.Vocabulary.{
  ProviderFieldState, ExtractionFieldStatus, ConfidenceTreatment, provider_field_state_eq,
  confidence_treatment_eq,
}
use plataforma_saa_s_de_auto.Extraction.Domain.{ensure_confidence}

pub record ConfidencePolicy : Type 0 where
  pub auto_accept : Decimal
  pub provisional : Decimal
  pub confirmation_required : Decimal

unfoldable pub confidence_policy_post_init : ConfidencePolicy → Result (Unit {0})
confidence_policy_post_init p = do
  ensure_confidence p.auto_accept "auto_accept"
  ensure_confidence p.provisional "provisional"
  ensure_confidence p.confirmation_required "confirmation_required"
  raise_if (not (leb_ℤ p.confirmation_required p.provisional && leb_ℤ p.provisional p.auto_accept))
      (validation_error "confidence thresholds must be ordered")

-- `ConfidencePolicy()`
abbrev pub default_confidence_policy : ConfidencePolicy
default_confidence_policy = record {
  auto_accept = hundredths 85;
  provisional = hundredths 65;
  confirmation_required = hundredths 40;
}

-- `_field_treatment`
unfoldable pub field_treatment :
    ConfidencePolicy → Decimal → ProviderFieldState → ConfidenceTreatment × ExtractionFieldStatus
field_treatment p confidence state =
    if leb_ℤ p.auto_accept confidence && state == ProviderFieldState.observed
    then (ConfidenceTreatment.auto_accept, ExtractionFieldStatus.observed)
    else if leb_ℤ p.provisional confidence
    then (ConfidenceTreatment.provisional, ExtractionFieldStatus.inferred)
    else if leb_ℤ p.confirmation_required confidence
    then (ConfidenceTreatment.confirmation_required, ExtractionFieldStatus.unknown)
    else (ConfidenceTreatment.rejected, ExtractionFieldStatus.rejected)

-- The treatment of a signal in `resolve_signals`.
unfoldable pub signal_treatment : ConfidencePolicy → Decimal → ConfidenceTreatment
signal_treatment p confidence =
    if leb_ℤ p.auto_accept confidence
    then ConfidenceTreatment.auto_accept
    else if leb_ℤ p.provisional confidence
    then ConfidenceTreatment.provisional
    else if leb_ℤ p.confirmation_required confidence
    then ConfidenceTreatment.confirmation_required
    else ConfidenceTreatment.rejected

-- How far a treatment lets a value go.
unfoldable pub strength : ConfidenceTreatment → ℕ
strength ConfidenceTreatment.auto_accept = 3
strength ConfidenceTreatment.provisional = 2
strength ConfidenceTreatment.confirmation_required = 1
strength _ = 0

-- The strength that the three tests give, in order.
graded : Bool → Bool → Bool → ℕ
graded true y z = 3
graded false true z = 2
graded false false true = 1
graded false false false = 0

graded_monotone :
    (x y z x' y' z' : Bool)
    → (x ≡ true → x' ≡ true)
    → (y ≡ true → y' ≡ true)
    → (z ≡ true → z' ≡ true)
    → graded x y z ≤ graded x' y' z'
unfolding graded
graded_monotone true y z x' y' z' f g h = rw (f refl) (omega arith)
graded_monotone false true z true y' z' f g h = omega arith
graded_monotone false true z false y' z' f g h = rw (g refl) (omega arith)
graded_monotone false false true true y' z' f g h = omega arith
graded_monotone false false true false true z' f g h = omega arith
graded_monotone false false true false false z' f g h = rw (h refl) (omega arith)
graded_monotone false false false x' y' z' f g h = omega arith

reaches : (t a b : Decimal) → a ≤ℤ b → leb_ℤ t a ≡ true → leb_ℤ t b ≡ true
reaches t a b more h = ground arith

signal_grade :
    (p : ConfidencePolicy) (a : Decimal)
    → strength (signal_treatment p a)
      ≡ graded (leb_ℤ p.auto_accept a) (leb_ℤ p.provisional a) (leb_ℤ p.confirmation_required a)
unfolding signal_treatment strength graded
signal_grade p a =
    go (leb_ℤ p.auto_accept a) (leb_ℤ p.provisional a) (leb_ℤ p.confirmation_required a)
  where
    go :
        (x y z : Bool)
        → strength (
            if x
            then ConfidenceTreatment.auto_accept
            else if y
            then ConfidenceTreatment.provisional
            else if z
            then ConfidenceTreatment.confirmation_required
            else ConfidenceTreatment.rejected)
          ≡ graded x y z
    go true y z = refl
    go false true z = refl
    go false false true = refl
    go false false false = refl

field_grade :
    (p : ConfidencePolicy) (state : ProviderFieldState) (a : Decimal)
    → strength (field_treatment p a state).0
      ≡ graded
          (leb_ℤ p.auto_accept a && state == ProviderFieldState.observed)
          (leb_ℤ p.provisional a)
          (leb_ℤ p.confirmation_required a)
unfolding field_treatment strength graded
field_grade p state a =
    go (leb_ℤ p.auto_accept a && state == ProviderFieldState.observed) (leb_ℤ p.provisional a)
      (leb_ℤ p.confirmation_required a)
  where
    go :
        (x y z : Bool)
        → let r : ConfidenceTreatment × ExtractionFieldStatus =
            if x
            then (ConfidenceTreatment.auto_accept, ExtractionFieldStatus.observed)
            else if y
            then (ConfidenceTreatment.provisional, ExtractionFieldStatus.inferred)
            else if z
            then (ConfidenceTreatment.confirmation_required, ExtractionFieldStatus.unknown)
            else (ConfidenceTreatment.rejected, ExtractionFieldStatus.rejected) in
          strength r.0 ≡ graded x y z
    go true y z = refl
    go false true z = refl
    go false false true = refl
    go false false false = refl

both : (x x' o : Bool) → (x ≡ true → x' ≡ true) → (x && o) ≡ true → (x' && o) ≡ true
both true x' o f h = rw (f refl) h
both false x' o f h = cc

first_of : (x o : Bool) → (x && o) ≡ true → x ≡ true
first_of true o h = refl
first_of false o h = cc

-- More confidence never weakens the treatment of a field or of a signal, and a field is never
-- treated more strongly than a signal of the same confidence.
pub treatment_monotone :
    (p : ConfidencePolicy) (state : ProviderFieldState) (a b : Decimal)
    → a ≤ℤ b
    → (strength (field_treatment p a state).0 ≤ strength (field_treatment p b state).0)
      × (strength (signal_treatment p a) ≤ strength (signal_treatment p b))
      × (strength (field_treatment p a state).0 ≤ strength (signal_treatment p a))
treatment_monotone p state a b more =
    let observed = state == ProviderFieldState.observed in
    let f = reaches p.auto_accept a b more in
    let g = reaches p.provisional a b more in
    let h = reaches p.confirmation_required a b more in
    rw (field_grade p state a, field_grade p state b)
      (rw (signal_grade p a, signal_grade p b)
        (
          graded_monotone _ _ _ _ _ _
              (both (leb_ℤ p.auto_accept a) (leb_ℤ p.auto_accept b) observed f) g h,
          graded_monotone _ _ _ _ _ _ f g h,
          graded_monotone _ _ _ _ _ _ (first_of (leb_ℤ p.auto_accept a) observed) (λ e. e) (λ e. e),
        ))
