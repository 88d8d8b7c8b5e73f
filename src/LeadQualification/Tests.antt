-- ===== src/LeadQualification/Tests.antt =====
-- Criteria on small inputs, and the theorems about the engine at concrete requests.
use plataforma_saa_s_de_auto.Prelude.{
  ◌≡◌, ◌↔◌, refl, true, false, String, Option, none, some, List, [], ◌∷◌, map, Memᴰ, ℤ, pos, ◌≤ℤ◌,
  arith, subset, min_ℤ,
}
use plataforma_saa_s_de_auto.LeadQualification.Samples.{
  noon, policy, no_print, quote, stop, buyer, leaver, policy-IsConstructed, engine, leaver_result,
  leaver_evaluates, buyer_result, buyer_evaluates,
}
use plataforma_saa_s_de_auto.LeadQualification.DefaultPolicy.{get_published}
use plataforma_saa_s_de_auto.LeadQualification.DefaultPolicy.Execution.{execute_iff}
use plataforma_saa_s_de_auto.LeadQualification.Scoring.Engine.{execute}
use plataforma_saa_s_de_auto.Foundation.{Uuid}
use plataforma_saa_s_de_auto.Prelude.Dict.{get, keys}
use plataforma_saa_s_de_auto.Errors.{ok}
use plataforma_saa_s_de_auto.Foundation.{hundredths}
use plataforma_saa_s_de_auto.LeadQualification.Vocabulary.{
  OpportunityType, SignalCode, ScoreDimension, RecommendedAction, LeadState, signal_code_eq,
}
use plataforma_saa_s_de_auto.LeadQualification.Policy.{
  IsConstructed, ScoringCriterion, ClassificationBand,
}
use plataforma_saa_s_de_auto.LeadQualification.Policy.Bands.{InBand}
use plataforma_saa_s_de_auto.LeadQualification.Request.{
  CommercialSignal, is_usable, QualificationResult, ScoreContribution,
}
use plataforma_saa_s_de_auto.LeadQualification.DefaultPolicy.{build_default_telecom_policy}
use plataforma_saa_s_de_auto.LeadQualification.DefaultPolicy.Rules.{no_contact_penalty}
use plataforma_saa_s_de_auto.LeadQualification.DefaultPolicy.Valid.{default_policy-IsConstructed}
use plataforma_saa_s_de_auto.LeadQualification.DefaultPolicy.NoContact.{default_no_contact}
use plataforma_saa_s_de_auto.LeadQualification.Scoring.Signals.{usable_signals, rank_lt}
use plataforma_saa_s_de_auto.LeadQualification.Scoring.Criteria.{
  criterion_matches, select_criteria, dimension_scores,
}
use plataforma_saa_s_de_auto.LeadQualification.Scoring.Decision.{classification, no_handoff}
use plataforma_saa_s_de_auto.LeadQualification.Scoring.Engine.{
  evaluate, subtotal_of, contributions_of,
}
use plataforma_saa_s_de_auto.LeadQualification.Scoring.Total.{
  Applies, evaluate_iff, classification_exact,
}
use plataforma_saa_s_de_auto.LeadQualification.Scoring.Outcome.{
  do_not_contact_stops, evaluate-IsReasoned, IsReasoned,
}
use plataforma_saa_s_de_auto.LeadQualification.Scoring.Exclusive.{group_champion, ungrouped_iff}
use plataforma_saa_s_de_auto.LeadQualification.Scoring.Evidence.{
  usable_signals_best, usable_signals_complete,
}
use plataforma_saa_s_de_auto.LeadQualification.Scoring.Points.{points_in, dimension_scores_exact}
use plataforma_saa_s_de_auto.LeadQualification.Scoring.Bounds.{subtotal_bounds}
use plataforma_saa_s_de_auto.LeadQualification.Scoring.Citations.{signals_used_sound}

evaluate_iff_example :
    ((r : QualificationResult) × (evaluate no_print buyer policy 12 noon ≡ ok r))
    ↔ (Applies buyer policy × (noon.aware ≡ true))
evaluate_iff_example = evaluate_iff no_print buyer policy 12 noon policy-IsConstructed

no_contact_in_policy : Memᴰ no_contact_penalty policy.penalties
unfolding engine
no_contact_in_policy =
    Memᴰ.tail (Memᴰ.tail (Memᴰ.tail (Memᴰ.tail (Memᴰ.tail (Memᴰ.tail (Memᴰ.head refl))))))

leaver_triggers :
    subset no_contact_penalty.required_signals (keys (usable_signals leaver policy)) ≡ true
unfolding engine
leaver_triggers = refl

stop_usable : is_usable stop (hundredths 70) ≡ true
unfolding engine
stop_usable = refl

stop_usable_here : is_usable stop policy.minimum_signal_confidence ≡ true
unfolding engine
stop_usable_here = refl

quote_used : get SignalCode.requests_quote (usable_signals buyer policy) ≡ some quote
unfolding engine
quote_used = refl

leaver_codes :
    leaver_result.signals_used ≡ SignalCode.do_not_contact ∷ SignalCode.requests_quote ∷ []
unfolding engine
leaver_codes = refl

leaver_cites : Memᴰ SignalCode.do_not_contact leaver_result.signals_used
leaver_cites = rw leaver_codes (Memᴰ.head refl)

abbrev rule : String → ℤ → SignalCode → Option String → ScoringCriterion
rule code points signal group = record {
  code = code;
  dimension = ScoreDimension.purchase_intent;
  points = points;
  required_signals = signal ∷ [];
  explanation = code;
  excluded_signals = [];
  exclusive_group = group;
}

abbrev asks : ScoringCriterion
asks = rule "intent.asks_price" (pos 5) SignalCode.asks_price (some "intent_level")

abbrev alone : ScoringCriterion
alone = rule "intent.plan" (pos 5) SignalCode.asks_price none

abbrev rules : List ScoringCriterion
rules =
    asks
    ∷ rule "intent.requests_quote" (pos 20) SignalCode.requests_quote (some "intent_level")
    ∷ alone
    ∷ []

abbrev heard : List SignalCode
heard = SignalCode.asks_price ∷ SignalCode.requests_quote ∷ []

asks_matches : criterion_matches heard asks ≡ true
unfolding engine
asks_matches = refl

group_champion_example :
    (x : ScoringCriterion) × Memᴰ x (select_criteria rules heard)
    × (x.exclusive_group ≡ some "intent_level")
    × (x.dimension ≡ ScoreDimension.purchase_intent)
    × (pos 5 ≤ℤ x.points)
    × ((y : ScoringCriterion)
        → Memᴰ y (select_criteria rules heard)
        → y.exclusive_group ≡ some "intent_level"
        → y.dimension ≡ ScoreDimension.purchase_intent
        → y ≡ x)
group_champion_example =
    group_champion rules heard asks "intent_level" (Memᴰ.head refl) asks_matches refl

ungrouped_iff_example :
    Memᴰ alone (select_criteria rules heard)
    ↔ (Memᴰ alone rules × (criterion_matches heard alone ≡ true))
ungrouped_iff_example = ungrouped_iff rules heard alone refl

abbrev earned : List ScoreContribution
earned = contributions_of buyer policy

dimension_scores_exact_example :
    dimension_scores policy earned
    ≡ map
        (λ d. record {
          dimension = d.dimension;
          raw_points = points_in d.dimension earned;
          points = min_ℤ (points_in d.dimension earned) d.max_points;
          maximum = d.max_points;
        })
        policy.dimensions
dimension_scores_exact_example = dimension_scores_exact policy earned

do_not_contact_stops_example :
    (leaver_result.action ≡ RecommendedAction.stop_automation)
    × (leaver_result.handoff ≡ no_handoff)
do_not_contact_stops_example =
    do_not_contact_stops no_print leaver policy 12 noon leaver_result no_contact_penalty
      leaver_evaluates no_contact_in_policy refl leaver_triggers

default_no_contact_example :
    (leaver_result.action ≡ RecommendedAction.stop_automation)
    × (leaver_result.handoff ≡ no_handoff)
    × (leaver_result.state_recommendation ≡ some LeadState.do_not_contact)
default_no_contact_example =
    default_no_contact no_print 7 1 OpportunityType.portability noon (pos 1) leaver 12 noon
      leaver_result stop leaver_evaluates (Memᴰ.tail (Memᴰ.head refl)) stop_usable refl

classification_exact_example :
    (b : ClassificationBand) × Memᴰ b policy.classification_bands
    × InBand (pos 70) b
    × (classification policy (pos 70) ≡ ok (b.classification, b.action))
    × ((c : ClassificationBand) → Memᴰ c policy.classification_bands → InBand (pos 70) c → c ≡ b)
classification_exact_example =
    classification_exact policy (pos 70) policy-IsConstructed (omega arith) (omega arith)

usable_signals_best_example :
    Memᴰ quote buyer.signals
    × (is_usable quote policy.minimum_signal_confidence ≡ true)
    × (quote.code ≡ SignalCode.requests_quote)
    × ((t : CommercialSignal)
        → Memᴰ t buyer.signals
        → is_usable t policy.minimum_signal_confidence ≡ true
        → t.code ≡ SignalCode.requests_quote
        → rank_lt quote t ≡ false)
usable_signals_best_example =
    usable_signals_best buyer policy SignalCode.requests_quote quote quote_used

usable_signals_complete_example :
    (s : CommercialSignal) × (get SignalCode.do_not_contact (usable_signals leaver policy) ≡ some s)
usable_signals_complete_example =
    usable_signals_complete leaver policy stop (Memᴰ.tail (Memᴰ.head refl)) stop_usable_here

subtotal_bounds_example :
    (pos 0 ≤ℤ subtotal_of buyer policy) × (subtotal_of buyer policy ≤ℤ pos 100)
subtotal_bounds_example = subtotal_bounds buyer policy policy-IsConstructed

evaluate-IsReasoned_example : IsReasoned buyer_result.handoff
evaluate-IsReasoned_example =
    evaluate-IsReasoned no_print buyer policy 12 noon buyer_result policy-IsConstructed
      buyer_evaluates

default_policy-IsConstructed_example :
    IsConstructed (build_default_telecom_policy 7 1 OpportunityType.renewal noon (pos 3))
default_policy-IsConstructed_example =
    default_policy-IsConstructed 7 1 OpportunityType.renewal noon (pos 3) refl (omega arith)

signals_used_sound_example :
    (s : CommercialSignal) × Memᴰ s leaver.signals
    × (is_usable s policy.minimum_signal_confidence ≡ true)
    × (s.code ≡ SignalCode.do_not_contact)
signals_used_sound_example =
    signals_used_sound no_print leaver policy 12 noon leaver_result SignalCode.do_not_contact
      leaver_evaluates leaver_cites

abbrev any_uuid : String → Uuid
any_uuid name = 3

abbrev shown : Uuid → String
shown id = "id"

execute_iff_example :
    ((r : QualificationResult) × (execute no_print (get_published any_uuid shown) 12 noon buyer
        ≡ ok r))
    ↔ (noon.aware ≡ true)
execute_iff_example = execute_iff no_print any_uuid shown 12 noon buyer
