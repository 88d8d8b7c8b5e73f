-- ===== src/Conversations/Profile/Cases.antt =====
-- The loop over the decisions and the branches of `_decide`, telecom_conversations/profile.py.
use mathlib.Core.List.Memᴰ
use plataforma_saa_s_de_auto.Prelude.{
  Bool, true, false, decide, ◌&&◌, not, ◌≡◌, refl, sym, ◌∙◌, ap, subst, inl, inr, String, Option,
  none, some, List, [], ◌∷◌, Memᴰ, Bool-cases, arith, contains, ◌==◌, eq_of_true, eq_self,
  string_eq, nat_eq, option_eq,
}
use plataforma_saa_s_de_auto.Prelude.Dict.{Dict, get, put, get-put_self, get-put_ne}
use plataforma_saa_s_de_auto.Errors.{ok, >>=-ok, >>-ok}
use plataforma_saa_s_de_auto.LeadQualification.Vocabulary.{
  ProfileField, ValidationStatus, profile_field_eq, validation_status_eq,
}
use plataforma_saa_s_de_auto.LeadQualification.Profile.{
  ProfileFact, LeadProfile, fact, same_value, profile_fact_post_init,
}
use plataforma_saa_s_de_auto.Extraction.Vocabulary.{
  confidence_treatment_eq, provider_field_state_eq, ProviderFieldState,
}
use plataforma_saa_s_de_auto.Extraction.Domain.{ResolvedField}
use plataforma_saa_s_de_auto.Conversations.Profile.Action.{
  ProfileValueAction, profile_value_action_eq, ProfileValueAction-discrete,
}
use plataforma_saa_s_de_auto.Conversations.Profile.Decision.{
  ai_forbidden_fields, ProfileValueDecision, makes_current, fact_value, fact_of, decide_value,
  decide_candidate, decide_allowed, decide_new, decide_existing, decide_differing, decision,
}
use plataforma_saa_s_de_auto.Conversations.Profile.Plan.{decide_all, apply_fact, apply_facts}

module _ (k : ProfileField) (Q : Option ProfileFact → Type 0) where
  apply_fact_get :
      (d : ProfileValueDecision) (facts : Dict ProfileField ProfileFact)
      → (makes_current d ≡ true → d.candidate.field ≡ k → Q (some d.candidate))
      → Q (get k facts)
      → Q (get k (apply_fact d facts))
  unfolding apply_fact
  apply_fact_get d facts f q = elim (Bool-cases (makes_current d)) [
    | inl current ↦ elim (Bool-cases (k == d.candidate.field)) [
      | inl same ↦
          let p = eq_of_true k d.candidate.field same in
          rw current (
            subst (λ j. Q (get j (put d.candidate.field d.candidate facts))) (sym p)
              (subst Q (sym (get-put_self d.candidate.field d.candidate facts))
                (f current (sym p))))
      | inr other ↦
          rw current (subst Q (sym (get-put_ne k d.candidate.field d.candidate facts other)) q)
    ]
    | inr kept ↦ rw kept q
  ]

  -- What holds of a field's fact and of every fact that the decisions make current for it, holds of
  -- the fact after the loop.
  pub apply_facts_get :
      (ds : List ProfileValueDecision) (facts : Dict ProfileField ProfileFact)
      → ((d : ProfileValueDecision)
          → Memᴰ d ds
          → makes_current d ≡ true
          → d.candidate.field ≡ k
          → Q (some d.candidate))
      → Q (get k facts)
      → Q (get k (apply_facts ds facts))
  unfolding apply_facts
  apply_facts_get [] facts f q = q
  apply_facts_get (d ∷ ds) facts f q =
      apply_facts_get ds (apply_fact d facts) (λ e m. f e (Memᴰ.tail m))
        (apply_fact_get d facts (f d (Memᴰ.head refl)) q)

-- Each decision of the tuple is that of a candidate, against the profile.
pub decided :
    (profile : LeadProfile) (corrected : Bool) (items : List ResolvedField)
    (ds : List ProfileValueDecision) (d : ProfileValueDecision)
    → decide_all profile corrected items ≡ ok ds
    → Memᴰ d ds
    → (item : ResolvedField) × Memᴰ item items
      × (decide_value (fact profile item.value.field) item corrected ≡ ok d)
unfolding decide_all
decided profile corrected [] ds d h m = elim (subst (λ l. Memᴰ d l) (sym (ok_nil ds h)) m) [ ]
  where
    ok_nil : (l : List ProfileValueDecision) → ok [] ≡ ok l → [] ≡ l
    ok_nil l e = cc e
decided profile corrected (item ∷ items) ds d h m =
    let (first, e, rest) =
      >>=-ok (decide_value (fact profile item.value.field) item corrected) _ h in
    let (others, f, last) = >>=-ok (decide_all profile corrected items) _ rest in
    let lists : first ∷ others ≡ ds = cc last in
    elim (Memᴰ.cases_cons (subst (λ l. Memᴰ d l) (sym lists) m)) [
      | inl p ↦ (item, Memᴰ.head refl, e ∙ ap ok (sym p))
      | inr n ↦
          let (x, there, g) = decided profile corrected items others d f n in
          (x, Memᴰ.tail there, g)
    ]

pub decide_value_candidate :
    (existing : Option ProfileFact) (item : ResolvedField) (corrected : Bool)
    (d : ProfileValueDecision)
    → decide_value existing item corrected ≡ ok d
    → decide_candidate existing item corrected (fact_value false item) ≡ ok d
unfolding decide_value fact_of
decide_value_candidate existing item corrected d h =
    let (c, e, rest) = >>=-ok (fact_of false item) _ h in
    let (checked, same) =
      >>-ok (profile_fact_post_init (fact_value false item)) (ok (fact_value false item)) e in
    let p : fact_value false item ≡ c = cc same in
    subst (λ x. decide_candidate existing item corrected x ≡ ok d) (sym p) rest

NotCurrent : ProfileValueAction → Type 0
NotCurrent a =
    (c : ProfileFact) (previous : Option ProfileFact) (reason : Option String)
    → makes_current (decision c a previous reason) ≡ false

forbidden_stays : NotCurrent ProfileValueAction.forbidden
unfolding NotCurrent makes_current contains decide ProfileValueAction-discrete
forbidden_stays c previous reason = refl

historical_stays : NotCurrent ProfileValueAction.historical_only
unfolding NotCurrent makes_current contains decide ProfileValueAction-discrete
historical_stays c previous reason = refl

duplicate_stays : NotCurrent ProfileValueAction.duplicate
unfolding NotCurrent makes_current contains decide ProfileValueAction-discrete
duplicate_stays c previous reason = refl

pub same_ok : {x y : ProfileValueDecision} → ok x ≡ ok y → x ≡ y
same_ok e = cc e

-- A value of a field that the extraction may not set is never made current.
pub forbidden_not_current :
    (existing : Option ProfileFact) (item : ResolvedField) (corrected : Bool)
    (d : ProfileValueDecision)
    → decide_value existing item corrected ≡ ok d
    → contains ai_forbidden_fields item.value.field ≡ true
    → makes_current d ≡ false
unfolding decide_candidate fact_value NotCurrent
forbidden_not_current existing item corrected d h f =
    let e = decide_value_candidate existing item corrected d h in
    let e' = rw f at e in subst (λ x. makes_current x ≡ false) (same_ok e') (forbidden_stays _ _ _)

module _ (old : ProfileFact) where
  -- If the decision makes its candidate current, the candidate has the old value.
  unfoldable pub Keeps : ProfileValueDecision → Type 0
  Keeps d = makes_current d ≡ true → same_value old.value d.candidate.value ≡ true

  stays :
      (a : ProfileValueAction) (c : ProfileFact) (previous : Option ProfileFact)
      (reason : Option String)
      → NotCurrent a
      → Keeps (decision c a previous reason)
  unfolding Keeps NotCurrent
  stays a c previous reason n h = cc (n c previous reason)

  differing_kept :
      (item : ResolvedField) (corrected : Bool) (c : ProfileFact) (d : ProfileValueDecision)
      → old.validation_status ≡ ValidationStatus.confirmed
      → decide_differing old item corrected c ≡ ok d
      → Keeps d
  unfolding decide_differing
  differing_kept item corrected c d confirmed h =
      let t : (old.validation_status == ValidationStatus.confirmed) ≡ true =
        subst (λ v. (v == ValidationStatus.confirmed) ≡ true) (sym confirmed)
          (eq_self ValidationStatus.confirmed) in
      let never : (corrected
            && item.value.provider_state == ProviderFieldState.observed
            && not true)
          ≡ false =
        ground arith in
      subst Keeps (same_ok (rw never at (rw t at h))) (stays _ _ _ _ historical_stays)

  existing_kept :
      (item : ResolvedField) (corrected : Bool) (c : ProfileFact) (d : ProfileValueDecision)
      → old.validation_status ≡ ValidationStatus.confirmed
      → decide_existing old item corrected c ≡ ok d
      → Keeps d
  unfolding decide_existing Keeps
  existing_kept item corrected c d confirmed h =
      elim (Bool-cases
        (old.source_message_id == c.source_message_id && same_value old.value c.value)) [
          | inl t ↦ subst Keeps (same_ok (rw t at h)) (stays _ _ _ _ duplicate_stays)
          | inr f ↦ elim (Bool-cases (same_value old.value c.value)) [
            | inl same ↦ subst Keeps (same_ok (rw same at (rw f at h))) (λ current. same)
            | inr differ ↦ differing_kept item corrected c d confirmed (rw differ at (rw f at h))
          ]
        ]

  pub candidate_kept :
      (item : ResolvedField) (corrected : Bool) (c : ProfileFact) (d : ProfileValueDecision)
      → old.validation_status ≡ ValidationStatus.confirmed
      → decide_candidate (some old) item corrected c ≡ ok d
      → Keeps d
  unfolding decide_candidate decide_allowed
  candidate_kept item corrected c d confirmed h =
      elim (Bool-cases (contains ai_forbidden_fields c.field)) [
        | inl t ↦ subst Keeps (same_ok (rw t at h)) (stays _ _ _ _ forbidden_stays)
        | inr f ↦ existing_kept item corrected c d confirmed (rw f at h)
      ]

-- The candidate of a decision is the fact built from the item, corrected or not.
abbrev pub Built : ResolvedField → ProfileValueDecision → Type 0
Built item d = (b : Bool) × (d.candidate ≡ fact_value b item)

differing-Built :
    (old : ProfileFact) (item : ResolvedField) (corrected : Bool) (d : ProfileValueDecision)
    → decide_differing old item corrected (fact_value false item) ≡ ok d
    → Built item d
unfolding decide_differing fact_of
differing-Built old item corrected d h =
    elim (Bool-cases (
      corrected
      && item.value.provider_state == ProviderFieldState.observed
      && not (old.validation_status == ValidationStatus.confirmed))) [
        | inl t ↦
            let (c, e, last) = >>=-ok (fact_of true item) _ (rw t at h) in
            let (checked, same) =
              >>-ok (profile_fact_post_init (fact_value true item)) (ok (fact_value true item)) e in
            (true, cc (same_ok last, same))
        | inr f ↦ let h' = rw f at h in (false, plain h')
      ]
  where
    plain :
        decide_differing old item false (fact_value false item) ≡ ok d
        → d.candidate ≡ fact_value false item
    plain k = ground arith

existing-Built :
    (old : ProfileFact) (item : ResolvedField) (corrected : Bool) (d : ProfileValueDecision)
    → decide_existing old item corrected (fact_value false item) ≡ ok d
    → Built item d
unfolding decide_existing
existing-Built old item corrected d h =
    elim (Bool-cases (
      old.source_message_id == (fact_value false item).source_message_id
      && same_value old.value (fact_value false item).value)) [
        | inl t ↦
            (false, sym (ap (λ (x : ProfileValueDecision). x.candidate) (same_ok (rw t at h))))
        | inr f ↦ elim (Bool-cases (same_value old.value (fact_value false item).value)) [
          | inl same ↦ (
            false,
            sym (ap (λ (x : ProfileValueDecision). x.candidate) (same_ok (rw same at (rw f at h)))),
          )
          | inr differ ↦ differing-Built old item corrected d (rw differ at (rw f at h))
        ]
      ]

allowed-Built :
    (existing : Option ProfileFact) (item : ResolvedField) (corrected : Bool)
    (d : ProfileValueDecision)
    → decide_allowed existing item corrected (fact_value false item) ≡ ok d
    → Built item d
unfolding decide_allowed decide_new
allowed-Built none item corrected d h = (false, plain h)
  where
    plain :
        ok (decide_new item (fact_value false item)) ≡ ok d → d.candidate ≡ fact_value false item
    plain k = ground arith
allowed-Built (some old) item corrected d h = existing-Built old item corrected d h

pub value-Built :
    (existing : Option ProfileFact) (item : ResolvedField) (corrected : Bool)
    (d : ProfileValueDecision)
    → decide_value existing item corrected ≡ ok d
    → Built item d
unfolding decide_candidate
value-Built existing item corrected d h =
    let e = decide_value_candidate existing item corrected d h in
    elim (Bool-cases (contains ai_forbidden_fields (fact_value false item).field)) [
      | inl t ↦ (false, sym (ap (λ (x : ProfileValueDecision). x.candidate) (same_ok (rw t at e))))
      | inr f ↦ allowed-Built existing item corrected d (rw f at e)
    ]
