-- ===== src/LeadQualification/DefaultPolicy/NoContact.antt =====
-- The default policy and a no-contact request.
use plataforma_saa_s_de_auto.Prelude.{
  true, ◌≡◌, refl, subst, some, List, [], ◌∷◌, Memᴰ, ◌==◌, eq_self, contains, subset, any, find,
  filter, ℤ, contains_of_mem, lex_ℤ, any_of_mem, String,
}
use plataforma_saa_s_de_auto.Prelude.Sort.{sort_by}
use plataforma_saa_s_de_auto.Prelude.Text.{text_lt}
use plataforma_saa_s_de_auto.Prelude.Dict.{keys, mem-keys}
use plataforma_saa_s_de_auto.Errors.{ok}
use plataforma_saa_s_de_auto.Foundation.{Uuid, TenantId, DateTime, hundredths}
use plataforma_saa_s_de_auto.LeadQualification.Vocabulary.{
  OpportunityType, SignalCode, RecommendedAction, LeadState, RuleEffect, signal_code_eq,
  rule_effect_eq,
}
use plataforma_saa_s_de_auto.LeadQualification.Policy.{ScoringPolicy, DecisionRule}
use plataforma_saa_s_de_auto.LeadQualification.Request.{
  QualificationRequest, QualificationResult, CommercialSignal, is_usable,
}
use plataforma_saa_s_de_auto.LeadQualification.Scoring.Signals.{usable_signals}
use plataforma_saa_s_de_auto.LeadQualification.Scoring.Evidence.{usable_signals_complete}
use plataforma_saa_s_de_auto.LeadQualification.Scoring.Decision.{
  matched_decisions, matched_penalties, recommended_action, no_handoff, state_recommendation,
  decision_lt,
}
use plataforma_saa_s_de_auto.LeadQualification.Scoring.Engine.{evaluate, result_of}
use plataforma_saa_s_de_auto.LeadQualification.Scoring.Total.{evaluate_ok}
use plataforma_saa_s_de_auto.LeadQualification.Scoring.Outcome.{
  do_not_contact_stops, penalty_matched,
}
use plataforma_saa_s_de_auto.LeadQualification.DefaultPolicy.Rules.{
  default_penalties, default_decisions, no_contact_penalty, no_contact_decision,
}
use plataforma_saa_s_de_auto.LeadQualification.DefaultPolicy.{build_default_telecom_policy}

-- The rules of a no-contact request come first: they have the highest priority.
sorted_decisions :
    (rest : List DecisionRule) × (sort_by decision_lt default_decisions
      ≡ no_contact_decision ∷ rest)
unfolding sort_by decision_lt lex_ℤ text_lt default_decisions
sorted_decisions = (_, refl)

penalty_mem : Memᴰ no_contact_penalty default_penalties
unfolding default_penalties
penalty_mem = Memᴰ.tail (Memᴰ.tail (Memᴰ.tail (Memᴰ.tail (Memᴰ.tail (Memᴰ.tail (Memᴰ.head refl))))))

module _ (p : ScoringPolicy) (signals : List SignalCode) where
  first_matched :
      (rest : List DecisionRule)
      → sort_by decision_lt p.decisions ≡ no_contact_decision ∷ rest
      → contains signals SignalCode.do_not_contact ≡ true
      → (find
          (λ d. contains d.required_signals SignalCode.do_not_contact)
          (matched_decisions p signals))
        ≡ some no_contact_decision
  unfolding matched_decisions filter subset find contains
  first_matched rest e h = rw e (rw h (rw (eq_self SignalCode.do_not_contact)))

-- With the default policy, a request that has a usable no-contact signal is answered by stopping the
-- automation, with no handoff, and the lead is to become do_not_contact, whatever else it says.
pub default_no_contact :
    (fingerprint : ScoringPolicy → String) (tenant_id : TenantId) (policy_id : Uuid)
    (o : OpportunityType) (published_at : DateTime) (version : ℤ) (request : QualificationRequest)
    (id : Uuid) (at : DateTime) (r : QualificationResult) (s : CommercialSignal)
    → let p = build_default_telecom_policy tenant_id policy_id o published_at version in
      evaluate fingerprint request p id at ≡ ok r
      → Memᴰ s request.signals
      → is_usable s (hundredths 70) ≡ true
      → s.code ≡ SignalCode.do_not_contact
      → (r.action ≡ RecommendedAction.stop_automation)
        × (r.handoff ≡ no_handoff)
        × (r.state_recommendation ≡ some LeadState.do_not_contact)
unfolding build_default_telecom_policy result_of recommended_action state_recommendation subset
default_no_contact fingerprint tenant_id policy_id o published_at version request id at r s e m u
      code =
    let p = build_default_telecom_policy tenant_id policy_id o published_at version in
    let signals = keys (usable_signals request p) in
    let (kept, g) = usable_signals_complete request p s m u in
    let there : contains signals SignalCode.do_not_contact ≡ true =
      contains_of_mem SignalCode.do_not_contact signals
        (subst (λ k. Memᴰ k signals) code (mem-keys s.code kept (usable_signals request p) g)) in
    let triggered : subset (SignalCode.do_not_contact ∷ []) signals ≡ true = rw there in
    let (stops, silent) =
      do_not_contact_stops fingerprint request p id at r no_contact_penalty e penalty_mem refl
        triggered in
    let found : any (λ q. q.effect == RuleEffect.do_not_contact) (matched_penalties p signals)
        ≡ true =
      any_of_mem (λ q. q.effect == RuleEffect.do_not_contact) no_contact_penalty
        (matched_penalties p signals)
        (penalty_matched p signals no_contact_penalty penalty_mem triggered)
        (eq_self RuleEffect.do_not_contact) in
    let (c, applies, k, same, aware) = evaluate_ok fingerprint request p id at r e in
    (
      stops,
      silent,
      subst (λ (q : QualificationResult). q.state_recommendation ≡ some LeadState.do_not_contact)
          same
          (rw found (rw (first_matched p signals sorted_decisions.0 sorted_decisions.1 there))),
    )
