-- ===== src/Conversations/Profile/Kept.antt =====
-- What `plan` keeps and changes of the profile's facts, telecom_conversations/profile.py.
use plataforma_saa_s_de_auto.Prelude.{
  Bool, true, false, ◌≡◌, refl, sym, ◌∙◌, ap, subst, inl, inr, ◌⊎◌, String, Option, some, List,
  Memᴰ, contains, string_eq,
}
use plataforma_saa_s_de_auto.Prelude.Dict.{get}
use plataforma_saa_s_de_auto.Errors.{ok, >>=-ok, >>-ok}
use plataforma_saa_s_de_auto.Foundation.{DateTime}
use plataforma_saa_s_de_auto.LeadQualification.Vocabulary.{
  ProfileField, ValidationStatus, profile_field_eq,
}
use plataforma_saa_s_de_auto.LeadQualification.Profile.{
  Opportunity, FactConflict, ProfileFact, LeadProfile, fact, same_value, same_value_self,
  lead_profile_post_init,
}
use plataforma_saa_s_de_auto.Extraction.Domain.{ResolvedField, AcceptedExtraction}
use plataforma_saa_s_de_auto.Conversations.Profile.Decision.{
  ai_forbidden_fields, ProfileValueDecision, candidates, fact_value,
}
use plataforma_saa_s_de_auto.Conversations.Profile.Plan.{
  ProfileApplicationPlan, decide_all, apply_facts, merge_opportunity, plan, construct_profile,
  finish, updated_with, construct_all, new_conflicts,
}
use plataforma_saa_s_de_auto.Conversations.Profile.Cases.{
  apply_facts_get, decided, Keeps, decide_value_candidate, candidate_kept, forbidden_not_current,
  value-Built,
}

construct_profile_ok :
    (p u : LeadProfile) → construct_profile p ≡ ok u → (p ≡ u) × (lead_profile_post_init p ≡ ok tt)
unfolding construct_profile
construct_profile_ok p u h =
    let (checked, same) = >>-ok (lead_profile_post_init p) (ok p) h in (cc same, checked)

-- What a returned plan is made of.
pub record Parts (corrected : Bool) (profile : LeadProfile) (extraction : AcceptedExtraction)
    (r : ProfileApplicationPlan) : Type 0 where
  pub decided_by : decide_all profile corrected (candidates extraction) ≡ ok r.decisions
  pub new_facts : r.updated_profile.facts ≡ apply_facts r.decisions profile.facts
  pub merged :
      merge_opportunity profile.opportunity extraction.opportunity.opportunity
      ≡ ok r.updated_profile.opportunity
  pub checked : lead_profile_post_init r.updated_profile ≡ ok tt

finished :
    (corrected : Bool) (profile : LeadProfile) (extraction : AcceptedExtraction)
    (r : ProfileApplicationPlan) (ds : List ProfileValueDecision) (cs : List FactConflict)
    (o : Opportunity)
    → decide_all profile corrected (candidates extraction) ≡ ok ds
    → merge_opportunity profile.opportunity extraction.opportunity.opportunity ≡ ok o
    → finish profile extraction ds cs o ≡ ok r
    → Parts corrected profile extraction r
unfolding finish updated_with
finished corrected profile extraction r ds cs o e g h =
    let (u, k, last) = >>=-ok (construct_profile (updated_with profile extraction ds cs o)) _ h in
    let (same, checked) = construct_profile_ok (updated_with profile extraction ds cs o) u k in
    subst (λ q. Parts corrected profile extraction q) (injective last)
      (record {
        decided_by = e;
        new_facts = ap (λ (p : LeadProfile). p.facts) (sym same);
        merged = g ∙ ap ok (ap (λ (p : LeadProfile). p.opportunity) same);
        checked = subst (λ p. lead_profile_post_init p ≡ ok tt) same checked;
      })
  where
    injective : {x y : ProfileApplicationPlan} → ok x ≡ ok y → x ≡ y
    injective q = cc q

pub Parts-of :
    (corrects : String → Bool) (profile : LeadProfile) (extraction : AcceptedExtraction)
    (content : String) (at : DateTime) (r : ProfileApplicationPlan)
    → plan corrects profile extraction content at ≡ ok r
    → Parts (corrects content) profile extraction r
unfolding plan
Parts-of corrects profile extraction content at r h =
    let (ds, e, rest) =
      >>=-ok (decide_all profile (corrects content) (candidates extraction)) _ h in
    let (cs, f, rest') = >>=-ok (construct_all (new_conflicts ds at)) _ rest in
    let (o, g, last) =
      >>=-ok (merge_opportunity profile.opportunity extraction.opportunity.opportunity) _ rest' in
    finished (corrects content) profile extraction r ds cs o e g last

pub field_of :
    (item : ResolvedField) (b : Bool) (c : ProfileFact) (f : ProfileField)
    → c ≡ fact_value b item
    → c.field ≡ f
    → item.value.field ≡ f
unfolding fact_value
field_of item b c f built here = sym (ap (λ (x : ProfileFact). x.field) built) ∙ here

-- After a returned plan a confirmed fact's field has a fact of the same value, whatever the
-- extraction says and even in an explicit correction.
pub confirmed_value_kept :
    (corrects : String → Bool) (profile : LeadProfile) (extraction : AcceptedExtraction)
    (content : String) (at : DateTime) (r : ProfileApplicationPlan) (f : ProfileField)
    (old : ProfileFact)
    → plan corrects profile extraction content at ≡ ok r
    → fact profile f ≡ some old
    → old.validation_status ≡ ValidationStatus.confirmed
    → (new : ProfileFact) × (fact r.updated_profile f ≡ some new)
      × (same_value old.value new.value ≡ true)
unfolding fact Keeps
confirmed_value_kept corrects profile extraction content at r f old h e confirmed =
    let p = Parts-of corrects profile extraction content at r h in
    let Q : Option ProfileFact → Type 0 =
      λ o. (new : ProfileFact) × (o ≡ some new) × (same_value old.value new.value ≡ true) in
    rw p.new_facts (
      apply_facts_get f Q r.decisions profile.facts
        (λ d m current here.
          let (item, there, by) =
            decided profile (corrects content) (candidates extraction) r.decisions d p.decided_by
              m in
          let (b, built) =
            value-Built (fact profile item.value.field) item (corrects content) d by in
          let at_f : item.value.field ≡ f = field_of item b d.candidate f built here in
          let known : fact profile item.value.field ≡ some old = rw at_f e in
          let by' =
            decide_value_candidate (fact profile item.value.field) item (corrects content) d by in
          (
            d.candidate,
            refl,
            candidate_kept old item (corrects content) (fact_value false item) d confirmed
                (rw known at by') current,
          ))
        (old, e, same_value_self old.value))

-- A returned plan leaves the facts of coverage and inventory as they were.
pub forbidden_kept :
    (corrects : String → Bool) (profile : LeadProfile) (extraction : AcceptedExtraction)
    (content : String) (at : DateTime) (r : ProfileApplicationPlan) (f : ProfileField)
    → plan corrects profile extraction content at ≡ ok r
    → contains ai_forbidden_fields f ≡ true
    → fact r.updated_profile f ≡ fact profile f
unfolding fact
forbidden_kept corrects profile extraction content at r f h forbidden =
    let p = Parts-of corrects profile extraction content at r h in
    rw p.new_facts (
      apply_facts_get f (λ o. o ≡ get f profile.facts) r.decisions profile.facts
        (λ d m current here.
          let (item, there, by) =
            decided profile (corrects content) (candidates extraction) r.decisions d p.decided_by
              m in
          let (b, built) =
            value-Built (fact profile item.value.field) item (corrects content) d by in
          let at_f : item.value.field ≡ f = field_of item b d.candidate f built here in
          cc (
            forbidden_not_current (fact profile item.value.field) item (corrects content) d by
              (rw at_f forbidden)))
        refl)

-- The fact is the one that a candidate of the extraction states: its value, source message, time and
-- confidence.
pub record States (item : ResolvedField) (f : ProfileFact) : Type 0 where
  pub of_field : f.field ≡ item.value.field
  pub of_value : f.value ≡ item.value.value
  pub of_message : f.source_message_id ≡ some item.value.source_message_id
  pub of_time : f.observed_at ≡ item.value.observed_at
  pub of_confidence : f.confidence ≡ item.confidence

States-built :
    (item : ResolvedField) (b : Bool) (f : ProfileFact) → f ≡ fact_value b item → States item f
unfolding fact_value
States-built item b f e =
    subst (λ x. States item x) (sym e)
      (record {
        of_field = refl;
        of_value = refl;
        of_message = refl;
        of_time = refl;
        of_confidence = refl;
      })

-- After a returned plan each field has the fact that it had, or one that states a candidate of the
-- extraction for the field.
pub fact_provenance :
    (corrects : String → Bool) (profile : LeadProfile) (extraction : AcceptedExtraction)
    (content : String) (at : DateTime) (r : ProfileApplicationPlan) (f : ProfileField)
    → plan corrects profile extraction content at ≡ ok r
    → (fact r.updated_profile f ≡ fact profile f)
      ⊎ ((item : ResolvedField) × (new : ProfileFact) × Memᴰ item (candidates extraction)
          × (item.value.field ≡ f)
          × (fact r.updated_profile f ≡ some new)
          × States item new)
unfolding fact
fact_provenance corrects profile extraction content at r f h =
    let p = Parts-of corrects profile extraction content at r h in
    let Q : Option ProfileFact → Type 0 = λ o.
      (o ≡ get f profile.facts)
      ⊎ ((item : ResolvedField) × (new : ProfileFact) × Memᴰ item (candidates extraction)
          × (item.value.field ≡ f)
          × (o ≡ some new)
          × States item new) in
    rw p.new_facts (
      apply_facts_get f Q r.decisions profile.facts
        (λ d m current here.
          let (item, there, by) =
            decided profile (corrects content) (candidates extraction) r.decisions d p.decided_by
              m in
          let (b, built) =
            value-Built (fact profile item.value.field) item (corrects content) d by in
          inr (
            item,
            d.candidate,
            there,
            field_of item b d.candidate f built here,
            refl,
            States-built item b d.candidate built,
          ))
        (inl refl))
