-- ===== src/LeadQualification/Scoring/Outcome.antt =====
-- The action and the handoff of a result of lead_qualification/scoring.py.
use plataforma_saa_s_de_auto.Prelude.{
  Bool, true, false, not, ◌&&◌, ◌||◌, ◌≡◌, refl, subst, ◌≢◌, ◌↔◌, ◌⊎◌, inl, inr, String, Option,
  none, some, List, [], ◌∷◌, Memᴰ, All-mem, Bool-cases, Option-cases, arith, any, any_of_mem,
  contains, contains_of_mem, find_sound, mem_of_mem-filter, mem-filter_of_mem, subset, ◌==◌,
  eq_self, eq_of_true, if◌then◌else◌,
}
use plataforma_saa_s_de_auto.Prelude.Sort.{sort_by, mem-sort_by, mem_of_mem-sort_by}
use plataforma_saa_s_de_auto.Prelude.Dict.{keys}
use plataforma_saa_s_de_auto.Errors.{ok}
use plataforma_saa_s_de_auto.Foundation.{Uuid, DateTime}
use plataforma_saa_s_de_auto.LeadQualification.Vocabulary.{
  SignalCode, LeadClassification, RecommendedAction, RuleEffect, signal_code_eq,
  recommended_action_eq, rule_effect_eq,
}
use plataforma_saa_s_de_auto.LeadQualification.Policy.{
  ScoringPolicy, PenaltyRule, DecisionRule, decision_rule_post_init, IsConstructed,
}
use plataforma_saa_s_de_auto.LeadQualification.Request.{
  QualificationRequest, QualificationResult, HandoffDecision,
}
use plataforma_saa_s_de_auto.LeadQualification.Scoring.Signals.{usable_signals}
use plataforma_saa_s_de_auto.LeadQualification.Scoring.Decision.{
  handoff_actions, penalty_lt, matched_penalties, matched_decisions, recommended_action,
  decided_action, decision_reasons, handoff, declines_handoff, wants_specialist, no_handoff,
  decision_lt, is_nil,
}
use plataforma_saa_s_de_auto.LeadQualification.Scoring.Engine.{evaluate, result_of}
use plataforma_saa_s_de_auto.LeadQualification.Scoring.Total.{evaluate_ok}

-- The rule's signals are all among those used.
abbrev pub Triggers : QualificationRequest → ScoringPolicy → List SignalCode → Type 0
Triggers request p required = subset required (keys (usable_signals request p)) ≡ true

pub penalty_matched :
    (p : ScoringPolicy) (signals : List SignalCode) (rule : PenaltyRule)
    → Memᴰ rule p.penalties
    → subset rule.required_signals signals ≡ true
    → Memᴰ rule (matched_penalties p signals)
unfolding matched_penalties
penalty_matched p signals rule m h =
    mem-filter_of_mem (λ r. subset r.required_signals signals) rule (sort_by penalty_lt p.penalties)
      (mem-sort_by penalty_lt rule p.penalties m) h

module _ (fingerprint : ScoringPolicy → String) where
  -- When a rule of the policy with the do-not-contact effect is triggered, a returned result stops
  -- the automation and asks for no handoff, whatever the score and the other rules are.
  pub do_not_contact_stops :
      (request : QualificationRequest) (p : ScoringPolicy) (id : Uuid) (at : DateTime)
      (r : QualificationResult) (rule : PenaltyRule)
      → evaluate fingerprint request p id at ≡ ok r
      → Memᴰ rule p.penalties
      → rule.effect ≡ RuleEffect.do_not_contact
      → Triggers request p rule.required_signals
      → (r.action ≡ RecommendedAction.stop_automation) × (r.handoff ≡ no_handoff)
  unfolding result_of recommended_action handoff
  do_not_contact_stops request p id at r rule e m effect triggered =
      let signals = keys (usable_signals request p) in
      let (c, applies, k, same, aware) = evaluate_ok fingerprint request p id at r e in
      let found : any (λ q. q.effect == RuleEffect.do_not_contact) (matched_penalties p signals)
          ≡ true =
        any_of_mem (λ q. q.effect == RuleEffect.do_not_contact) rule (matched_penalties p signals)
          (penalty_matched p signals rule m triggered)
          (rw effect (eq_self RuleEffect.do_not_contact)) in
      subst
        (λ (q : QualificationResult).
          (q.action ≡ RecommendedAction.stop_automation) × (q.handoff ≡ no_handoff))
        same (rw found (refl, rw (eq_self RecommendedAction.stop_automation)))

-- A handoff is well reasoned: it is required exactly when it has a reason, and a specialist is asked
-- for only when it is required.
pub record IsReasoned (h : HandoffDecision) : Type 0 where
  pub reasoned : (h.required ≡ true) ↔ (h.reason_codes ≢ [])
  pub specialist : h.specialized ≡ true → h.required ≡ true

no_handoff-IsReasoned : IsReasoned no_handoff
no_handoff-IsReasoned = record {
  reasoned = ((λ h. cc), (λ n. absurd (n refl)));
  specialist = λ h. cc;
}

IsReasoned-by :
    (b s : Bool) (reason : String) (rs : List String)
    → (s ≡ true → (b ≡ true) ⊎ (rs ≢ []))
    → IsReasoned (record {
      required = b || not (is_nil rs);
      specialized = s;
      reason_codes = if (b || not (is_nil rs)) && is_nil rs then reason ∷ [] else rs;
    })
unfolding is_nil
IsReasoned-by true s reason [] f = record {
  reasoned = ((λ h. λ e. cc), (λ n. refl));
  specialist = λ h. refl;
}
IsReasoned-by false s reason [] f = record {
  reasoned = ((λ h. cc), (λ n. absurd (n refl)));
  specialist = λ h. elim (f h) [ inl e ↦ cc | inr n ↦ absurd (n refl) ];
}
IsReasoned-by true s reason (x ∷ xs) f = record {
  reasoned = ((λ h. λ e. cc), (λ n. refl));
  specialist = λ h. refl;
}
IsReasoned-by false s reason (x ∷ xs) f = record {
  reasoned = ((λ h. λ e. cc), (λ n. refl));
  specialist = λ h. refl;
}

handoff-IsReasoned :
    (action : RecommendedAction) (class : LeadClassification) (selected : Option DecisionRule)
    (ds : List DecisionRule)
    → (wants_specialist action selected ≡ true
        → declines_handoff selected ≡ false
        → (contains handoff_actions action ≡ true) ⊎ (decision_reasons ds ≢ []))
    → IsReasoned (handoff action class selected ds)
unfolding handoff
handoff-IsReasoned action class selected ds spec =
    elim (Bool-cases (action == RecommendedAction.stop_automation)) [
      | inl t ↦ rw t no_handoff-IsReasoned
      | inr f ↦ elim (Bool-cases (declines_handoff selected)) [
        | inl t ↦ rw (f, t) no_handoff-IsReasoned
        | inr g ↦
            rw (f, g)
              (IsReasoned-by (contains handoff_actions action) (wants_specialist action selected) _
                (decision_reasons ds) (λ h. spec h g))
      ]
    ]

selected_mem :
    (by_class : RecommendedAction) (ps : List PenaltyRule) (ds : List DecisionRule)
    (d : DecisionRule)
    → (recommended_action by_class ps ds).1 ≡ some d
    → Memᴰ d ds
unfolding recommended_action decided_action
selected_mem by_class ps ds d h =
    elim (Bool-cases (any (λ r. r.effect == RuleEffect.do_not_contact) ps)) [
      | inl t ↦
          (find_sound (λ x. contains x.required_signals SignalCode.do_not_contact) ds d
            (rw t at h)).0
      | inr f ↦ first ds (rw f at h)
    ]
  where
    first : (l : List DecisionRule) → (decided_action by_class ps l).1 ≡ some d → Memᴰ d l
    first [] k = cc
    first (x ∷ xs) k = Memᴰ.head (cc)

decision_reasons_mem :
    (ds : List DecisionRule) (d : DecisionRule) (reason : String)
    → Memᴰ d ds
    → d.handoff_required ≡ true
    → d.handoff_reason ≡ some reason
    → decision_reasons ds ≢ []
unfolding decision_reasons
decision_reasons_mem [] d reason m h k = elim m [ ]
decision_reasons_mem (x ∷ xs) d reason (Memᴰ.head e) h k =
    let k' : x.handoff_reason ≡ some reason =
      subst (λ (y : DecisionRule). y.handoff_reason ≡ some reason) e k in
    let h' : x.handoff_required ≡ true =
      subst (λ (y : DecisionRule). y.handoff_required ≡ true) e h in
    ground arith
decision_reasons_mem (x ∷ xs) d reason (Memᴰ.tail m) h k =
    let rest = decision_reasons_mem xs d reason m h k in ground arith

reason_of :
    (d : DecisionRule)
    → decision_rule_post_init d ≡ ok tt
    → d.handoff_required ≡ true
    → (reason : String) × (d.handoff_reason ≡ some reason)
unfolding decision_rule_post_init
reason_of d h k = elim (Option-cases d.handoff_reason) [
  | inl e ↦ absurd (ground arith)
  | inr (reason, e) ↦ (reason, e)
]

module _ (p : ScoringPolicy) (made : IsConstructed p) (signals : List SignalCode) where
  matched_decisions_mem :
      (d : DecisionRule) → Memᴰ d (matched_decisions p signals) → Memᴰ d p.decisions
  unfolding matched_decisions
  matched_decisions_mem d m = mem_of_mem-sort_by decision_lt d p.decisions (
      mem_of_mem-filter (λ r. subset r.required_signals signals) d (sort_by decision_lt p.decisions)
        m)

  specialist_has_reason :
      (action : RecommendedAction) (selected : Option DecisionRule)
      → ((d : DecisionRule) → selected ≡ some d → Memᴰ d (matched_decisions p signals))
      → wants_specialist action selected ≡ true
      → declines_handoff selected ≡ false
      → (contains handoff_actions action ≡ true)
        ⊎ (decision_reasons (matched_decisions p signals) ≢ [])
  unfolding wants_specialist declines_handoff contains
  specialist_has_reason action none f h n = inl (
      rw (eq_of_true action RecommendedAction.specialized_handoff h) (
        contains_of_mem RecommendedAction.specialized_handoff handoff_actions
          (Memᴰ.tail (Memᴰ.tail (Memᴰ.head refl)))))
  specialist_has_reason action (some d) f h n =
      let m = f d refl in
      let required : d.handoff_required ≡ true = ground arith in
      let (reason, e) =
        reason_of d (All-mem _ d p.decisions made.decisions_ok (matched_decisions_mem d m))
          required in
      inr (decision_reasons_mem (matched_decisions p signals) d reason m required e)

-- With a constructed policy, a returned result requires a handoff exactly when it lists a reason,
-- and asks for a specialist only in a required handoff.
pub evaluate-IsReasoned :
    (fingerprint : ScoringPolicy → String) (request : QualificationRequest) (p : ScoringPolicy)
    (id : Uuid) (at : DateTime) (r : QualificationResult)
    → IsConstructed p
    → evaluate fingerprint request p id at ≡ ok r
    → IsReasoned r.handoff
unfolding result_of
evaluate-IsReasoned fingerprint request p id at r made e =
    let signals = keys (usable_signals request p) in
    let ds = matched_decisions p signals in
    let (c, applies, k, same, aware) = evaluate_ok fingerprint request p id at r e in
    let chosen = recommended_action c.1 (matched_penalties p signals) ds in
    subst (λ (q : QualificationResult). IsReasoned q.handoff) same
      (handoff-IsReasoned chosen.0 c.0 chosen.1 ds (
        specialist_has_reason p made signals chosen.0 chosen.1
          (selected_mem c.1 (matched_penalties p signals) ds)))
