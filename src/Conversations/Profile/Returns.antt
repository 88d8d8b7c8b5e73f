-- ===== src/Conversations/Profile/Returns.antt =====
-- The branches of `_decide` that return, telecom_conversations/profile.py.
use plataforma_saa_s_de_auto.Prelude.{
  Bool, true, false, decide, not, ◌||◌, ltb_ℤ, if◌then◌else◌, ◌&&◌, ◌≡◌, refl, String, Option, none,
  some, Bool-cases, inl, inr, arith, contains, ◌==◌, eq_self, All, nat_eq, option_eq,
}
use plataforma_saa_s_de_auto.Prelude.Text.{is_blank, is_empty, codes}
use plataforma_saa_s_de_auto.Errors.{ok}
use plataforma_saa_s_de_auto.Foundation.{DateTime, ensure_aware, ensure_ratio}
use plataforma_saa_s_de_auto.LeadQualification.Vocabulary.{
  ValidationStatus, profile_field_eq, validation_status_eq, ValidationStatus-discrete,
}
use plataforma_saa_s_de_auto.LeadQualification.Profile.{
  ProfileFact, profile_fact_post_init, blank_text, fact_conflict_post_init, same_value,
}
use plataforma_saa_s_de_auto.Extraction.Vocabulary.{
  ConfidenceTreatment, confidence_treatment_eq, ProviderFieldState, provider_field_state_eq,
}
use plataforma_saa_s_de_auto.Extraction.Domain.{
  ResolvedField, resolved_field_post_init, normalized_field_post_init, ensure_confidence,
}
use plataforma_saa_s_de_auto.Conversations.Profile.Action.{ProfileValueAction}
use plataforma_saa_s_de_auto.Conversations.Profile.Decision.{
  ai_forbidden_fields, ProfileValueDecision, fact_value, fact_status, fact_of, decide_value,
  decide_candidate, decide_allowed, decide_new, decide_existing, decide_differing, decision,
  is_stronger,
}
use plataforma_saa_s_de_auto.Conversations.Profile.Plan.{conflict_of, reason_text}

-- The item and its field passed their checks, and a text that it carries is not blank.
pub record IsReady (item : ResolvedField) : Type 0 where
  pub resolved : resolved_field_post_init item ≡ ok tt
  pub normalized : normalized_field_post_init item.value ≡ ok tt
  pub filled : blank_text item.value.value ≡ false

pub not_confirmed :
    (b : Bool) (t : ConfidenceTreatment) → (fact_status b t == ValidationStatus.confirmed) ≡ false
unfolding fact_status ValidationStatus-discrete decide
not_confirmed true t = refl
not_confirmed false t = elim (Bool-cases (t == ConfidenceTreatment.auto_accept)) [
  | inl a ↦ rw a refl
  | inr f ↦ elim (Bool-cases (t == ConfidenceTreatment.provisional)) [
    | inl b ↦ rw f (rw b refl)
    | inr g ↦ rw f (rw g refl)
  ]
]

fact_checked :
    (b : Bool) (item : ResolvedField)
    → IsReady item
    → profile_fact_post_init (fact_value b item) ≡ ok tt
unfolding profile_fact_post_init fact_value resolved_field_post_init normalized_field_post_init
    ensure_confidence ensure_ratio ensure_aware
fact_checked b item ready =
    ground (arith, not_confirmed b item.treatment, ready.resolved, ready.normalized, ready.filled)

fact_of_ready :
    (b : Bool) (item : ResolvedField) → IsReady item → fact_of b item ≡ ok (fact_value b item)
unfolding fact_of
fact_of_ready b item ready = rw (fact_checked b item ready) refl

module _ (at : DateTime) where
  -- The conflict that the decision adds, if any, passes its check.
  abbrev pub IsSound : ProfileValueDecision → Type 0
  IsSound d =
      All (λ c. fact_conflict_post_init c ≡ ok tt) (conflict_of d at d.conflict_reason d.previous)

  -- The decision is made, and it is sound.
  abbrev pub Decides : Option ProfileFact → ResolvedField → Bool → Type 0
  Decides existing item corrected =
      (d : ProfileValueDecision) × (decide_value existing item corrected ≡ ok d) × IsSound d

  quiet :
      (c : ProfileFact) (a : ProfileValueAction) (previous : Option ProfileFact)
      → IsSound (decision c a previous none)
  unfolding conflict_of
  quiet c a previous = tt

  module _ (aware : at.aware ≡ true) where
    loud :
        (old c : ProfileFact) (a : ProfileValueAction) (reason : String)
        → old.field ≡ c.field
        → is_blank (reason_text reason) ≡ false
        → IsSound (decision c a (some old) (some reason))
    unfolding conflict_of fact_conflict_post_init ensure_aware
    loud old c a reason same text = rw (same, text) (rw (eq_self c.field, aware) (refl, tt))

    -- A branch that records a conflict with this reason.
    branch :
        (old : ProfileFact) (item : ResolvedField) (b : Bool) (a : ProfileValueAction)
        (reason : String)
        → old.field ≡ item.value.field
        → is_blank (reason_text reason) ≡ false
        → IsSound (decision (fact_value b item) a (some old) (some reason))
    unfolding fact_value
    branch old item b a reason same text = loud old (fact_value b item) a reason same text

    differing_returns :
        (old : ProfileFact) (item : ResolvedField) (corrected : Bool)
        → IsReady item
        → old.field ≡ item.value.field
        → (d : ProfileValueDecision) × (decide_differing old item corrected (fact_value false item)
            ≡ ok d)
          × IsSound d
    unfolding decide_differing reason_text is_empty is_blank codes
    differing_returns old item corrected ready same =
        elim (Bool-cases (
          corrected
          && item.value.provider_state == ProviderFieldState.observed
          && not (old.validation_status == ValidationStatus.confirmed))) [
            | inl t ↦ (
              decision (fact_value true item) ProfileValueAction.supersede_current (some old)
                  (some "explicit_customer_correction_applied"),
              rw t (rw (fact_of_ready true item ready) refl),
              branch old item true _ _ same refl,
            )
            | inr f ↦ elim (Bool-cases (old.validation_status == ValidationStatus.confirmed)) [
              | inl t ↦ (
                decision (fact_value false item) ProfileValueAction.historical_only (some old)
                    (some "confirmed_value_preserved_human_review_required"),
                rw f (rw t refl),
                branch old item false _ _ same refl,
              )
              | inr n ↦
                  elim (Bool-cases (
                    ltb_ℤ old.confidence (fact_value false item).confidence
                    && item.value.provider_state == ProviderFieldState.observed
                    && (fact_value false item).validation_status == ValidationStatus.accepted)) [
                      | inl t ↦ (
                        decision (fact_value false item) ProfileValueAction.supersede_current
                            (some old) (some "higher_confidence_observed_value_applied"),
                        rw f (rw n (rw t refl)),
                        branch old item false _ _ same refl,
                      )
                      | inr k ↦ (
                        decision (fact_value false item) ProfileValueAction.historical_only
                            (some old) (some "existing_value_preserved_clarification_required"),
                        rw f (rw n (rw k refl)),
                        branch old item false _ _ same refl,
                      )
                    ]
            ]
          ]

    existing_returns :
        (old : ProfileFact) (item : ResolvedField) (corrected : Bool)
        → IsReady item
        → old.field ≡ item.value.field
        → (d : ProfileValueDecision) × (decide_existing old item corrected (fact_value false item)
            ≡ ok d)
          × IsSound d
    unfolding decide_existing
    existing_returns old item corrected ready same =
        let c = fact_value false item in
        elim (Bool-cases
          (old.source_message_id == c.source_message_id && same_value old.value c.value)) [
            | inl t ↦ (
              decision c ProfileValueAction.duplicate (some old) none,
              rw t refl,
              quiet c _ (some old),
            )
            | inr f ↦ elim (Bool-cases (same_value old.value c.value)) [
              | inl t ↦
                  let a =
                    if is_stronger old c
                    then ProfileValueAction.reinforce_current
                    else ProfileValueAction.historical_only in
                  (decision c a (some old) none, rw f (rw t refl), quiet c a (some old))
              | inr n ↦
                  let (d, e, sound) = differing_returns old item corrected ready same in
                  (d, rw f (rw n e), sound)
            ]
          ]

    allowed_returns :
        (existing : Option ProfileFact) (item : ResolvedField) (corrected : Bool)
        → IsReady item
        → ((old : ProfileFact) → existing ≡ some old → old.field ≡ item.value.field)
        → (d : ProfileValueDecision) × (decide_allowed existing item corrected
              (fact_value false item)
            ≡ ok d)
          × IsSound d
    unfolding decide_allowed decide_new
    allowed_returns none item corrected ready same =
        let c = fact_value false item in
        elim (Bool-cases (
          item.treatment == ConfidenceTreatment.auto_accept
          || item.treatment == ConfidenceTreatment.provisional)) [
            | inl t ↦
                (decision c ProfileValueAction.new_current none none, rw t refl, quiet c _ none)
            | inr f ↦
                (decision c ProfileValueAction.historical_only none none, rw f refl, quiet c _ none)
          ]
    allowed_returns (some old) item corrected ready same =
        existing_returns old item corrected ready (same old refl)

    pub value_returns :
        (existing : Option ProfileFact) (item : ResolvedField) (corrected : Bool)
        → IsReady item
        → ((old : ProfileFact) → existing ≡ some old → old.field ≡ item.value.field)
        → Decides existing item corrected
    unfolding decide_value decide_candidate
    value_returns existing item corrected ready same =
        let c = fact_value false item in
        elim (Bool-cases (contains ai_forbidden_fields c.field)) [
          | inl t ↦ (
            decision c ProfileValueAction.forbidden existing none,
            rw (fact_of_ready false item ready) (rw t refl),
            quiet c _ existing,
          )
          | inr f ↦
              let (d, e, sound) = allowed_returns existing item corrected ready same in
              (d, rw (fact_of_ready false item ready) (rw f e), sound)
        ]
