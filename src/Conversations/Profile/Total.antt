-- ===== src/Conversations/Profile/Total.antt =====
-- The branches of `plan` that return, telecom_conversations/profile.py.
use plataforma_saa_s_de_auto.Prelude.{
  Bool, true, false, ◌≡◌, refl, sym, String, some, List, [], ◌∷◌, Bool-cases, inl, inr, arith,
  has_duplicates, eq_self, eq_of_true, All, All-append, nat_eq, option_eq,
}
use plataforma_saa_s_de_auto.Prelude.Dict.{Dict, All-put}
use plataforma_saa_s_de_auto.Errors.{ok, for_each}
use plataforma_saa_s_de_auto.Foundation.{DateTime}
use plataforma_saa_s_de_auto.LeadQualification.Vocabulary.{
  ProfileField, profile_field_eq, validation_status_eq,
}
use plataforma_saa_s_de_auto.LeadQualification.Profile.{
  ProfileFact, FactConflict, fact_conflict_post_init, LeadProfile, fact, lead_profile_post_init,
  key_matches,
}
use plataforma_saa_s_de_auto.Extraction.Vocabulary.{
  confidence_treatment_eq, provider_field_state_eq,
}
use plataforma_saa_s_de_auto.Extraction.Domain.{ResolvedField, AcceptedExtraction}
use plataforma_saa_s_de_auto.Conversations.Profile.Returns.{IsReady, IsSound, value_returns}
use plataforma_saa_s_de_auto.Conversations.Profile.Opportunities.{IsProper, merge-IsKept}
use plataforma_saa_s_de_auto.Errors.{for_each-ok, ok-for_each, >>-ok}
use plataforma_saa_s_de_auto.Prelude.Dict.{All-get}
use plataforma_saa_s_de_auto.LeadQualification.Profile.{Opportunity}
use plataforma_saa_s_de_auto.Conversations.Profile.Decision.{
  ProfileValueDecision, candidates, makes_current,
}
use plataforma_saa_s_de_auto.Conversations.Profile.Plan.{
  ProfileApplicationPlan, decide_all, apply_fact, apply_facts, new_conflicts, construct_conflict,
  construct_all, construct_profile, updated_with, finish, plan,
}

conflicts_sound :
    (at : DateTime) (ds : List ProfileValueDecision)
    → All (IsSound at) ds
    → All (λ c. fact_conflict_post_init c ≡ ok tt) (new_conflicts ds at)
unfolding new_conflicts
conflicts_sound at [] h = tt
conflicts_sound at (d ∷ ds) h = All-append _ _ _ h.0 (conflicts_sound at ds h.1)

module _ (at : DateTime) (aware : at.aware ≡ true) (profile : LeadProfile)
    (keyed : (k : ProfileField) (old : ProfileFact)
      → fact profile k ≡ some old
      → old.field ≡ k) where
  All-decided :
      (corrected : Bool) (items : List ResolvedField)
      → All IsReady items
      → (ds : List ProfileValueDecision) × (decide_all profile corrected items ≡ ok ds)
        × All (IsSound at) ds
  unfolding decide_all
  All-decided corrected [] h = ([], refl, tt)
  All-decided corrected (item ∷ items) h =
      let (d, e, sound) =
        value_returns at aware (fact profile item.value.field) item corrected h.0
          (keyed item.value.field) in
      let (ds, f, rest) = All-decided corrected items h.1 in
      (d ∷ ds, rw e (rw f refl), (sound, rest))

All-constructed :
    (cs : List FactConflict)
    → All (λ c. fact_conflict_post_init c ≡ ok tt) cs
    → construct_all cs ≡ ok cs
unfolding construct_all construct_conflict
All-constructed [] h = refl
All-constructed (c ∷ cs) h = rw h.0 (rw (All-constructed cs h.1) refl)

abbrev IsKeyed : ProfileField × ProfileFact → Type 0
IsKeyed e = key_matches e ≡ ok tt

key_of : (k : ProfileField) (f : ProfileFact) → IsKeyed (k, f) → f.field ≡ k
unfolding key_matches
key_of k f h = sym (eq_of_true k f.field (ground arith))

apply_fact-IsKeyed :
    (d : ProfileValueDecision) (facts : Dict ProfileField ProfileFact)
    → All IsKeyed facts
    → All IsKeyed (apply_fact d facts)
unfolding apply_fact key_matches
apply_fact-IsKeyed d facts h = elim (Bool-cases (makes_current d)) [
  | inl t ↦
      rw t (
        All-put IsKeyed d.candidate.field d.candidate facts (rw (eq_self d.candidate.field) refl) h)
  | inr f ↦ rw f h
]

apply_facts-IsKeyed :
    (ds : List ProfileValueDecision) (facts : Dict ProfileField ProfileFact)
    → All IsKeyed facts
    → All IsKeyed (apply_facts ds facts)
unfolding apply_facts
apply_facts-IsKeyed [] facts h = h
apply_facts-IsKeyed (d ∷ ds) facts h =
    apply_facts-IsKeyed ds (apply_fact d facts) (apply_fact-IsKeyed d facts h)

All-IsKeyed : (p : LeadProfile) → lead_profile_post_init p ≡ ok tt → All IsKeyed p.facts
unfolding lead_profile_post_init
All-IsKeyed p h = for_each-ok key_matches p.facts (>>-ok (for_each key_matches p.facts) _ h).0

field_of_key :
    (profile : LeadProfile)
    → lead_profile_post_init profile ≡ ok tt
    → (k : ProfileField) (old : ProfileFact) → fact profile k ≡ some old
    → old.field ≡ k
unfolding fact
field_of_key profile checked k old e =
    key_of k old (All-get IsKeyed k old profile.facts (All-IsKeyed profile checked) e)

finishes :
    (profile : LeadProfile) (extraction : AcceptedExtraction) (ds : List ProfileValueDecision)
    (cs : List FactConflict) (o : Opportunity)
    → lead_profile_post_init profile ≡ ok tt
    → has_duplicates extraction.missing_information ≡ false
    → (r : ProfileApplicationPlan) × (finish profile extraction ds cs o ≡ ok r)
unfolding finish construct_profile updated_with lead_profile_post_init
finishes profile extraction ds cs o checked unique =
    let keyed =
      ok-for_each key_matches (apply_facts ds profile.facts)
        (apply_facts-IsKeyed ds profile.facts (All-IsKeyed profile checked)) in
    (
      record {
        decisions = ds;
        opportunity = o;
        missing_information = extraction.missing_information;
        updated_profile = updated_with profile extraction ds cs o;
      },
      rw keyed (rw unique refl),
    )

-- For a constructed profile and extraction with proper opportunities, candidates that passed their
-- checks and carry no blank text, distinct missing fields and a time with a timezone, `plan` returns.
pub plan_returns :
    (corrects : String → Bool) (profile : LeadProfile) (extraction : AcceptedExtraction)
    (content : String) (at : DateTime)
    → lead_profile_post_init profile ≡ ok tt
    → IsProper profile.opportunity
    → All IsReady (candidates extraction)
    → IsProper extraction.opportunity.opportunity
    → has_duplicates extraction.missing_information ≡ false
    → at.aware ≡ true
    → (r : ProfileApplicationPlan) × (plan corrects profile extraction content at ≡ ok r)
unfolding plan
plan_returns corrects profile extraction content at checked proper ready offered unique aware =
    let (ds, e, sound) =
      All-decided at aware profile (field_of_key profile checked) (corrects content)
        (candidates extraction) ready in
    let f = All-constructed (new_conflicts ds at) (conflicts_sound at ds sound) in
    let (o, g, o_proper, kept) =
      merge-IsKept profile.opportunity extraction.opportunity.opportunity proper offered in
    let (r, last) = finishes profile extraction ds (new_conflicts ds at) o checked unique in
    (r, rw e (rw f (rw g last)))
