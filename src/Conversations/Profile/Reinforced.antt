-- ===== src/Conversations/Profile/Reinforced.antt =====
-- The reinforcing branch of `_decide` and what it leaves of a confirmed fact, telecom_conversations/profile.py.
use mathlib.Core.List.Memᴰ
use plataforma_saa_s_de_auto.Prelude.{
  Bool, true, false, ◌≡◌, ◌≢◌, refl, sym, ap, subst, inl, inr, String, Option, some, none, List, [],
  ◌∷◌, Memᴰ, arith, contains, decide, ◌<ℤ◌, ◌==◌, nat_eq, option_eq, ne_of_false, false_of_ne,
}
use plataforma_saa_s_de_auto.Prelude.Dict.{Dict, get, put, get-put_self}
use plataforma_saa_s_de_auto.Errors.{ok, >>=-ok}
use plataforma_saa_s_de_auto.Foundation.{DateTime}
use plataforma_saa_s_de_auto.LeadQualification.Vocabulary.{
  ProfileField, ValidationStatus, validation_status_eq, profile_field_eq,
}
use plataforma_saa_s_de_auto.LeadQualification.Profile.{ProfileFact, LeadProfile, fact, same_value}
use plataforma_saa_s_de_auto.Extraction.Domain.{ResolvedField, AcceptedExtraction}
use plataforma_saa_s_de_auto.Conversations.Profile.Action.{
  ProfileValueAction, ProfileValueAction-discrete,
}
use plataforma_saa_s_de_auto.Conversations.Profile.Decision.{
  ai_forbidden_fields, ProfileValueDecision, makes_current, candidates, fact_value, decide_value,
  decide_candidate, decide_allowed, decide_existing, decision, is_stronger,
}
use plataforma_saa_s_de_auto.Conversations.Profile.Plan.{
  ProfileApplicationPlan, plan, decide_all, apply_fact, apply_facts,
}
use plataforma_saa_s_de_auto.Conversations.Profile.Cases.{
  decide_value_candidate, same_ok, apply_facts_get, decided, value-Built, candidate_kept, Keeps,
}
use plataforma_saa_s_de_auto.Conversations.Profile.Kept.{Parts-of, field_of}
use plataforma_saa_s_de_auto.Conversations.Profile.Returns.{not_confirmed}

stronger : (old new : ProfileFact) → old.confidence <ℤ new.confidence → is_stronger old new ≡ true
unfolding is_stronger
stronger old new h = ground arith

reinforces :
    (old : ProfileFact) (item : ResolvedField) (corrected : Bool) (d : ProfileValueDecision)
    → contains ai_forbidden_fields item.value.field ≡ false
    → same_value old.value item.value.value ≡ true
    → (old.source_message_id == some item.value.source_message_id) ≡ false
    → old.confidence <ℤ item.confidence
    → decide_candidate (some old) item corrected (fact_value false item) ≡ ok d
    → decision (fact_value false item) ProfileValueAction.reinforce_current (some old) none ≡ d
unfolding decide_candidate decide_allowed decide_existing fact_value
reinforces old item corrected d allowed same apart more h =
    let e = rw apart at (rw same at (rw allowed at h)) in
    same_ok (rw (stronger old (fact_value false item) more) at e)

reinforced :
    (old : ProfileFact) (item : ResolvedField) (corrected : Bool) (d : ProfileValueDecision)
    → contains ai_forbidden_fields item.value.field ≡ false
    → same_value old.value item.value.value ≡ true
    → old.source_message_id ≢ some item.value.source_message_id
    → old.confidence <ℤ item.confidence
    → decide_value (some old) item corrected ≡ ok d
    → (makes_current d ≡ true) × (d.candidate.field ≡ item.value.field)
unfolding makes_current contains decide ProfileValueAction-discrete fact_value
reinforced old item corrected d allowed same apart more h =
    let e = decide_value_candidate (some old) item corrected d h in
    let other = false_of_ne old.source_message_id (some item.value.source_message_id) apart in
    subst
      (λ (x : ProfileValueDecision).
        (makes_current x ≡ true) × (x.candidate.field ≡ item.value.field))
      (reinforces old item corrected d allowed same other more e) (refl, refl)

module _ (k : ProfileField) (Q : Option ProfileFact → Type 0) where
  apply_fact_made :
      (d : ProfileValueDecision) (facts : Dict ProfileField ProfileFact)
      → makes_current d ≡ true
      → d.candidate.field ≡ k
      → Q (some d.candidate)
      → Q (get k (apply_fact d facts))
  unfolding apply_fact
  apply_fact_made d facts current same q = rw current (
      subst (λ j. Q (get j (put d.candidate.field d.candidate facts))) same
        (subst Q (sym (get-put_self d.candidate.field d.candidate facts)) q))

  -- What holds of every fact that the decisions make current for the field, holds of the field's fact
  -- after the loop if one of them does make its candidate current.
  apply_facts_made :
      (ds : List ProfileValueDecision) (facts : Dict ProfileField ProfileFact)
      → ((d : ProfileValueDecision)
          → Memᴰ d ds
          → makes_current d ≡ true
          → d.candidate.field ≡ k
          → Q (some d.candidate))
      → (d : ProfileValueDecision) → Memᴰ d ds
      → makes_current d ≡ true
      → d.candidate.field ≡ k
      → Q (get k (apply_facts ds facts))
  unfolding apply_facts
  apply_facts_made [] facts f d m current same = elim m [ ]
  apply_facts_made (e ∷ ds) facts f d m current same = elim (Memᴰ.cases_cons m) [
    | inl p ↦
        let current' : makes_current e ≡ true = subst (λ x. makes_current x ≡ true) p current in
        let same' : e.candidate.field ≡ k = subst (λ x. x.candidate.field ≡ k) p same in
        apply_facts_get k Q ds (apply_fact e facts) (λ x n. f x (Memᴰ.tail n))
          (apply_fact_made e facts current' same' (f e (Memᴰ.head refl) current' same'))
    | inr n ↦ apply_facts_made ds (apply_fact e facts) (λ x o. f x (Memᴰ.tail o)) d n current same
  ]

-- Each candidate has its decision in the tuple.
decision_made :
    (profile : LeadProfile) (corrected : Bool) (items : List ResolvedField)
    (ds : List ProfileValueDecision) (item : ResolvedField)
    → decide_all profile corrected items ≡ ok ds
    → Memᴰ item items
    → (d : ProfileValueDecision) × Memᴰ d ds
      × (decide_value (fact profile item.value.field) item corrected ≡ ok d)
unfolding decide_all
decision_made profile corrected [] ds item h m = elim m [ ]
decision_made profile corrected (x ∷ items) ds item h m =
    let (first, e, rest) = >>=-ok (decide_value (fact profile x.value.field) x corrected) _ h in
    let (others, f, last) = >>=-ok (decide_all profile corrected items) _ rest in
    let lists : first ∷ others ≡ ds = cc last in
    elim (Memᴰ.cases_cons m) [
      | inl p ↦ (
        first,
        subst (λ l. Memᴰ first l) lists (Memᴰ.head refl),
        subst
            (λ (y : ResolvedField).
              decide_value (fact profile y.value.field) y corrected ≡ ok first)
            (sym p) e,
      )
      | inr n ↦
          let (d, there, g) = decision_made profile corrected items others item f n in
          (d, subst (λ l. Memᴰ d l) lists (Memᴰ.tail there), g)
    ]

-- A fact with the value of the old one that nobody confirmed.
abbrev IsUnconfirmed : ProfileFact → Option ProfileFact → Type 0
IsUnconfirmed old o =
    (new : ProfileFact) × (o ≡ some new)
    × (same_value old.value new.value ≡ true)
    × (new.validation_status ≢ ValidationStatus.confirmed)
    × (new.confirmed_by ≡ none)

Built-IsUnconfirmed :
    (old c : ProfileFact) (item : ResolvedField) (b : Bool)
    → c ≡ fact_value b item
    → same_value old.value c.value ≡ true
    → IsUnconfirmed old (some c)
unfolding fact_value
Built-IsUnconfirmed old c item b built same = (
  c,
  refl,
  same,
  subst (λ (x : ProfileFact). x.validation_status ≢ ValidationStatus.confirmed) (sym built)
      (ne_of_false _ ValidationStatus.confirmed (not_confirmed b item.treatment)),
  ap (λ (x : ProfileFact). x.confirmed_by) built,
)

-- Where the extraction has a candidate for a confirmed fact's field, not coverage or inventory, with
-- the same value, from another message and of more confidence, a returned plan replaces the fact:
-- the field's fact in the updated profile has the same value, but is not confirmed and names nobody
-- who confirmed it.
pub reinforcement_unconfirmed :
    (corrects : String → Bool) (profile : LeadProfile) (extraction : AcceptedExtraction)
    (content : String) (at : DateTime) (r : ProfileApplicationPlan) (old : ProfileFact)
    (item : ResolvedField)
    → plan corrects profile extraction content at ≡ ok r
    → fact profile item.value.field ≡ some old
    → old.validation_status ≡ ValidationStatus.confirmed
    → Memᴰ item (candidates extraction)
    → contains ai_forbidden_fields item.value.field ≡ false
    → same_value old.value item.value.value ≡ true
    → old.source_message_id ≢ some item.value.source_message_id
    → old.confidence <ℤ item.confidence
    → (new : ProfileFact) × (fact r.updated_profile item.value.field ≡ some new)
      × (same_value old.value new.value ≡ true)
      × (new.validation_status ≢ ValidationStatus.confirmed)
      × (new.confirmed_by ≡ none)
unfolding fact Keeps
reinforcement_unconfirmed corrects profile extraction content at r old item h e confirmed there
      allowed same apart more =
    let p = Parts-of corrects profile extraction content at r h in
    let (mine, made, by) =
      decision_made profile (corrects content) (candidates extraction) r.decisions item p.decided_by
        there in
    let is_mine =
      reinforced old item (corrects content) mine allowed same apart more (rw e at by) in
    rw p.new_facts (
      apply_facts_made item.value.field (IsUnconfirmed old) r.decisions profile.facts
        (λ d m current here.
          let (x, x_there, x_by) =
            decided profile (corrects content) (candidates extraction) r.decisions d p.decided_by
              m in
          let (b, built) = value-Built (fact profile x.value.field) x (corrects content) d x_by in
          let at_f = field_of x b d.candidate item.value.field built here in
          let known : fact profile x.value.field ≡ some old = rw at_f e in
          let x_by' =
            decide_value_candidate (fact profile x.value.field) x (corrects content) d x_by in
          Built-IsUnconfirmed old d.candidate x b built (
            candidate_kept old x (corrects content) (fact_value false x) d confirmed
              (rw known at x_by') current))
        mine made is_mine.0 is_mine.1)
