-- ===== src/LeadQualification/Scoring/Decision.antt =====
-- What follows from a score and the matched rules: `_applied_penalty`, `_classification`,
-- `_recommended_action`, `_handoff`, `_state_recommendation` and `_signals_used` of
-- lead_qualification/scoring.py (src/saas_platform/modules).
use plataforma_saa_s_de_auto.Prelude.{
  Bool, true, false, not, ◌&&◌, ◌||◌, String, Option, none, some, List, [], ◌∷◌, ◌++◌, map, ℤ,
  leb_ℤ, any, lex_ℤ, find, filter, subset, contains, distinct, if◌then◌else◌, ◌==◌, string_eq,
}
use plataforma_saa_s_de_auto.Prelude.Sort.{sort_by}
use plataforma_saa_s_de_auto.Prelude.Text.{text_lt, text_concat}
use plataforma_saa_s_de_auto.Errors.{Result, ok, err, validation_error}
use plataforma_saa_s_de_auto.LeadQualification.Vocabulary.{
  SignalCode, LeadClassification, RecommendedAction, LeadState, RuleEffect, signal_code_eq,
  recommended_action_eq, rule_effect_eq, recommended_action_value, lead_classification_value,
}
use plataforma_saa_s_de_auto.LeadQualification.Policy.{
  ScoringPolicy, PenaltyRule, DecisionRule, ClassificationBand,
}
use plataforma_saa_s_de_auto.LeadQualification.Request.{
  AppliedPenalty, HandoffDecision, ScoreContribution,
}
use plataforma_saa_s_de_auto.LeadQualification.Scoring.Criteria.{signal_lt}

-- `HANDOFF_ACTIONS`
abbrev pub handoff_actions : List RecommendedAction
handoff_actions =
    RecommendedAction.notify_advisor ∷ RecommendedAction.immediate_handoff
    ∷ RecommendedAction.specialized_handoff ∷ []

abbrev pub penalty_lt : PenaltyRule → PenaltyRule → Bool
penalty_lt a b = text_lt a.code b.code

unfoldable pub matched_penalties : ScoringPolicy → List SignalCode → List PenaltyRule
matched_penalties policy signals =
    filter (λ r. subset r.required_signals signals) (sort_by penalty_lt policy.penalties)

-- `(-value.priority, value.code)`
unfoldable pub decision_lt : DecisionRule → DecisionRule → Bool
decision_lt a b = lex_ℤ b.priority a.priority (text_lt a.code b.code)

unfoldable pub matched_decisions : ScoringPolicy → List SignalCode → List DecisionRule
matched_decisions policy signals =
    filter (λ r. subset r.required_signals signals) (sort_by decision_lt policy.decisions)

unfoldable pub applied_penalty : PenaltyRule → AppliedPenalty
applied_penalty rule = record {
  rule_code = rule.code;
  adjustment = rule.adjustment;
  effect = rule.effect;
  signal_codes = sort_by signal_lt rule.required_signals;
  explanation = rule.explanation;
  blocked_offer = rule.blocked_offer;
}

unfoldable pub in_band : ℤ → ClassificationBand → Bool
in_band score band = leb_ℤ band.minimum score && leb_ℤ score band.maximum

unfoldable pub band_result :
    Option ClassificationBand → Result (LeadClassification × RecommendedAction)
band_result none = err (validation_error "score did not match a classification band")
band_result (some band) = ok (band.classification, band.action)

unfoldable pub classification : ScoringPolicy → ℤ → Result (LeadClassification × RecommendedAction)
unfolding band_result
classification policy score = band_result (find (in_band score) policy.classification_bands)

-- The actions of the penalties that have one.
unfoldable pub penalty_actions : List PenaltyRule → List RecommendedAction
penalty_actions [] = []
penalty_actions (r ∷ rs) =
    let rest = penalty_actions rs in elim r.recommended_action [ none ↦ rest | some a ↦ a ∷ rest ]

abbrev pub action_lt : RecommendedAction → RecommendedAction → Bool
action_lt a b = text_lt (recommended_action_value a) (recommended_action_value b)

head_or : RecommendedAction → List RecommendedAction → RecommendedAction
head_or a [] = a
head_or a (b ∷ bs) = b

-- What is chosen when no decision rule matches.
unfoldable pub penalty_action : RecommendedAction → List PenaltyRule → RecommendedAction
unfolding head_or penalty_actions
penalty_action by_class penalties =
    if not (contains handoff_actions by_class)
    then head_or by_class (sort_by action_lt (distinct (penalty_actions penalties)))
    else by_class

unfoldable pub decided_action :
    RecommendedAction
    → List PenaltyRule
    → List DecisionRule
    → RecommendedAction × Option DecisionRule
unfolding penalty_action
decided_action by_class penalties [] = (penalty_action by_class penalties, none)
decided_action by_class penalties (d ∷ ds) = (d.action, some d)

unfoldable pub recommended_action :
    RecommendedAction
    → List PenaltyRule
    → List DecisionRule
    → RecommendedAction × Option DecisionRule
unfolding decided_action
recommended_action by_class penalties decisions =
    if any (λ r. r.effect == RuleEffect.do_not_contact) penalties
    then (
      RecommendedAction.stop_automation,
      find (λ d. contains d.required_signals SignalCode.do_not_contact) decisions,
    )
    else decided_action by_class penalties decisions

unfoldable pub decision_reasons : List DecisionRule → List String
decision_reasons [] = []
decision_reasons (d ∷ ds) =
    let rest = decision_reasons ds in
    elim d.handoff_reason [
      | none ↦ rest
      | some reason ↦ if d.handoff_required then reason ∷ rest else rest
    ]

abbrev pub no_handoff : HandoffDecision
no_handoff = record { required = false; specialized = false; reason_codes = [] }

unfoldable pub is_nil : List String → Bool
is_nil [] = true
is_nil (x ∷ xs) = false

unfoldable pub declines_handoff : Option DecisionRule → Bool
declines_handoff none = false
declines_handoff (some d) = not d.handoff_required

unfoldable pub wants_specialist : RecommendedAction → Option DecisionRule → Bool
wants_specialist action none = action == RecommendedAction.specialized_handoff
wants_specialist action (some d) = d.specialized_handoff

unfoldable pub handoff :
    RecommendedAction
    → LeadClassification
    → Option DecisionRule
    → List DecisionRule
    → HandoffDecision
unfolding is_nil declines_handoff wants_specialist
handoff action class selected matched =
    let reasons = decision_reasons matched in
    let required = contains handoff_actions action || not (is_nil reasons) in
    if action == RecommendedAction.stop_automation
    then no_handoff
    else if declines_handoff selected
    then no_handoff
    else record {
      required = required;
      specialized = wants_specialist action selected;
      reason_codes =
          if required && is_nil reasons
          then text_concat ("score." ∷ lead_classification_value class ∷ []) ∷ []
          else reasons;
    }

unfoldable pub decision_state : Option DecisionRule → Option LeadState
decision_state none = none
decision_state (some d) = d.state_recommendation

unfoldable pub state_recommendation : Option DecisionRule → List AppliedPenalty → Option LeadState
unfolding decision_state
state_recommendation selected penalties =
    let by_penalty =
      if any (λ p. p.effect == RuleEffect.do_not_contact) penalties
      then some LeadState.do_not_contact
      else if any (λ p. p.effect == RuleEffect.disqualification) penalties
      then some LeadState.not_eligible
      else none in
    elim (decision_state selected) [ none ↦ by_penalty | some s ↦ some s ]

unfoldable pub all_codes : List (List SignalCode) → List SignalCode
all_codes [] = []
all_codes (xs ∷ xss) = xs ++ all_codes xss

unfoldable pub signals_used :
    List ScoreContribution → List AppliedPenalty → List DecisionRule → List SignalCode
unfolding all_codes
signals_used contributions penalties decisions = sort_by signal_lt (
    distinct (
      all_codes (
        map (λ c. c.signal_codes) contributions
        ++ (map (λ p. p.signal_codes) penalties ++ map (λ d. d.required_signals) decisions))))
