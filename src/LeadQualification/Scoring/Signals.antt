-- ===== src/LeadQualification/Scoring/Signals.antt =====
-- `_usable_signals` and `_signal_rank` of lead_qualification/scoring.py (src/saas_platform/modules).
use plataforma_saa_s_de_auto.Prelude.{
  Bool, true, not, Option, none, some, List, [], ◌∷◌, ℤ, pos, negsuc, ltb, lex_ℤ, if◌then◌else◌,
}
use plataforma_saa_s_de_auto.Prelude.Dict.{Dict, get, put}
use plataforma_saa_s_de_auto.Foundation.{Decimal}
use plataforma_saa_s_de_auto.LeadQualification.Vocabulary.{
  SignalCode, ValidationStatus, signal_code_eq,
}
use plataforma_saa_s_de_auto.LeadQualification.Request.{
  CommercialSignal, is_usable, QualificationRequest,
}
use plataforma_saa_s_de_auto.LeadQualification.Policy.{ScoringPolicy}

unfoldable pub validation_rank : ValidationStatus → ℤ
validation_rank ValidationStatus.hypothesis = pos 0
validation_rank ValidationStatus.accepted = pos 1
validation_rank ValidationStatus.confirmed = pos 2
validation_rank ValidationStatus.rejected = negsuc 0

-- `_signal_rank(a) < _signal_rank(b)`, an order of tuples. Signals carry aware datetimes, which are
-- ordered by their instants.
unfoldable pub rank_lt : CommercialSignal → CommercialSignal → Bool
unfolding validation_rank
rank_lt a b =
    lex_ℤ (validation_rank a.validation_status) (validation_rank b.validation_status)
      (lex_ℤ a.confidence b.confidence (ltb a.observed_at.instant b.observed_at.instant))

-- One round of the loop: a signal is kept if it is the first of its code or ranks above the kept one.
unfoldable pub replaces : CommercialSignal → Option CommercialSignal → Bool
unfolding rank_lt
replaces s none = true
replaces s (some current) = rank_lt current s

unfoldable pub select_signal :
    Decimal → CommercialSignal → Dict SignalCode CommercialSignal → Dict SignalCode CommercialSignal
unfolding replaces
select_signal minimum s selected =
    if not (is_usable s minimum)
    then selected
    else if replaces s (get s.code selected)
    then put s.code s selected
    else selected

unfoldable pub select_signals :
    Decimal
    → List CommercialSignal
    → Dict SignalCode CommercialSignal
    → Dict SignalCode CommercialSignal
unfolding select_signal
select_signals minimum [] selected = selected
select_signals minimum (s ∷ ss) selected =
    select_signals minimum ss (select_signal minimum s selected)

unfoldable pub usable_signals :
    QualificationRequest → ScoringPolicy → Dict SignalCode CommercialSignal
unfolding select_signals
usable_signals request policy = select_signals policy.minimum_signal_confidence request.signals []
