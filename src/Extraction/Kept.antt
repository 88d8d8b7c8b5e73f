-- ===== src/Extraction/Kept.antt =====
-- What a proposal does to the profile: it adds facts where there are none, and records conflicts.
use mathlib.Core.List.{append-nil, append_assoc}
use plataforma_saa_s_de_auto.Prelude.{
  ◌≡◌, refl, sym, ap, ◌∙◌, subst, inl, inr, ◌⊎◌, Option, none, some, List, [], ◌∷◌, ◌++◌, Memᴰ,
  length, ◌==◌, eq_of_true, if◌then◌else◌, Bool-cases, Option-cases, arith,
}
use plataforma_saa_s_de_auto.Prelude.Dict.{get, put, get-put_self, get-put_ne}
use plataforma_saa_s_de_auto.Errors.{ok, >>-ok, >>=-ok}
use plataforma_saa_s_de_auto.Foundation.{DateTime}
use plataforma_saa_s_de_auto.LeadQualification.Vocabulary.{
  ProfileField, FactSource, ExtractionMethod, ValidationStatus, profile_field_eq,
}
use plataforma_saa_s_de_auto.LeadQualification.Profile.{
  ProfileFact, FactConflict, LeadProfile, Opportunity, profile_fact_post_init,
  lead_profile_post_init,
}
use plataforma_saa_s_de_auto.LeadQualification.Request.{extraction_metadata_post_init}
use plataforma_saa_s_de_auto.Extraction.Vocabulary.{ConfidenceTreatment, confidence_treatment_eq}
use plataforma_saa_s_de_auto.Extraction.Mapper.{signals_of}
use plataforma_saa_s_de_auto.Extraction.Domain.{
  ResolvedField, ExtractionContradiction, AcceptedExtraction,
}
use plataforma_saa_s_de_auto.Extraction.Command.{TelecomExtractionCommand, ProfileUpdateProposal}
use plataforma_saa_s_de_auto.Extraction.Proposal.{
  Facts, Added, Origin, added_status, fact_from, add_field, add_fields, add_conflicts,
  conflict_from, updated_profile, propose, apply, proposed_opportunity, latest_id, metadata_of,
}

-- The fact of an accepted field: said by the customer, accepted where its confidence allows it and
-- otherwise a hypothesis, and confirmed by nobody.
abbrev pub accepted_fact : ResolvedField → ProfileFact
accepted_fact item = record {
  field = item.value.field;
  value = item.value.value;
  source = FactSource.customer;
  source_message_id = some item.value.source_message_id;
  observed_at = item.value.observed_at;
  confidence = item.confidence;
  extraction_method = ExtractionMethod.ai;
  validation_status =
      if item.treatment == ConfidenceTreatment.auto_accept
      then ValidationStatus.accepted
      else ValidationStatus.hypothesis;
  confirmed_by = none;
}

-- The facts that are there stay, and a new one states an accepted field.
abbrev pub Extends : List ResolvedField → Facts → Facts → Type 0
Extends items before after =
    ((k : ProfileField) (v : ProfileFact) → get k before ≡ some v → get k after ≡ some v)
    × ((k : ProfileField) (v : ProfileFact)
        → get k after ≡ some v
        → (get k before ≡ some v)
          ⊎ ((item : ResolvedField) × Memᴰ item items
              × (item.value.field ≡ k)
              × (get k before ≡ none)
              × (v ≡ accepted_fact item)))

put-Extends :
    (item : ResolvedField) (items : List ResolvedField) (before : Facts)
    → get item.value.field before ≡ none
    → Memᴰ item items
    → Extends items before (put item.value.field (accepted_fact item) before)
put-Extends item items before absent m = (
  λ k v there. elim (Bool-cases (k == item.value.field)) [
    | inl t ↦ absurd (cc (there, absent, ap (λ j. get j before) (eq_of_true k item.value.field t)))
    | inr f ↦ get-put_ne k item.value.field _ before f ∙ there
  ],
  λ k v there. elim (Bool-cases (k == item.value.field)) [
    | inl t ↦
        let same = eq_of_true k item.value.field t in
        let new = accepted_fact item in
        let value : new ≡ v = cc (
          get-put_self item.value.field new before,
          subst (λ j. get j (put item.value.field new before) ≡ some v) same there,
        ) in
        inr (item, m, sym same, subst (λ j. get j before ≡ none) (sym same) absent, sym value)
    | inr f ↦ inl (sym (get-put_ne k item.value.field _ before f) ∙ there)
  ],
)

step-Extends :
    (item : ResolvedField) (items : List ResolvedField) (o : Option ProfileFact) (a b : Added)
    → get item.value.field a.facts ≡ o
    → Memᴰ item items
    → add_field o item a ≡ ok b
    → Extends items a.facts b.facts
unfolding add_field fact_from added_status
step-Extends item items (some existing) a b e m h =
    let same : a.facts ≡ b.facts = cc h in
    (
      λ k v there. subst (λ d. get k d ≡ some v) same there,
      λ k v there. inl (subst (λ d. get k d ≡ some v) (sym same) there),
    )
step-Extends item items none a b e m h =
    let same : put item.value.field (accepted_fact item) a.facts ≡ b.facts =
      cc ((>>-ok (profile_fact_post_init (accepted_fact item)) _ h).1) in
    subst (Extends items a.facts) same (put-Extends item items a.facts e m)

Extends-trans :
    (items : List ResolvedField) (a b c : Facts)
    → Extends items a b
    → Extends items b c
    → Extends items a c
Extends-trans items a b c (keep, made) (keep', made') = (
  λ k v there. keep' k v (keep k v there),
  λ k v there. elim (made' k v there) [
    | inl old ↦ made k v old
    | inr (item, m, same, absent, value) ↦ elim (Option-cases (get k a)) [
      | inl none_yet ↦ inr (item, m, same, none_yet, value)
      | inr (w, old) ↦ absurd (cc (keep k w old, absent))
    ]
  ],
)

all-Extends :
    (items all_items : List ResolvedField) (a b : Added)
    → ((x : ResolvedField) → Memᴰ x items → Memᴰ x all_items)
    → add_fields items a ≡ ok b
    → Extends all_items a.facts b.facts
unfolding add_fields
all-Extends [] all_items a b f h =
    let same : a.facts ≡ b.facts = cc h in
    (
      λ k v there. subst (λ d. get k d ≡ some v) same there,
      λ k v there. inl (subst (λ d. get k d ≡ some v) (sym same) there),
    )
all-Extends (item ∷ items) all_items a b f h =
    let (c, first, rest) = >>=-ok (add_field (get item.value.field a.facts) item a) _ h in
    Extends-trans all_items a.facts c.facts b.facts
      (step-Extends item all_items (get item.value.field a.facts) a c refl (f item (Memᴰ.head refl))
        first)
      (all-Extends items all_items c b (λ x m. f x (Memᴰ.tail m)) rest)

conflicts_added :
    (facts : Facts) (cs : List ExtractionContradiction) (now : DateTime)
    (before after : List FactConflict)
    → add_conflicts facts cs now before ≡ ok after
    → (new : List FactConflict) × (after ≡ before ++ new) × (length new ≡ length cs)
unfolding add_conflicts
conflicts_added facts [] now before after h =
    let same : before ≡ after = cc h in ([], sym same ∙ sym (append-nil before), refl)
conflicts_added facts (c ∷ cs) now before after h =
    let (conflict, made, rest) = >>=-ok (conflict_from (get c.field facts) c now) _ h in
    let (new, same, count) = conflicts_added facts cs now (before ++ (conflict ∷ [])) after rest in
    (conflict ∷ new, same ∙ append_assoc before (conflict ∷ []) new, omega (arith, count))

pub propose_ok :
    (command : TelecomExtractionCommand) (e : AcceptedExtraction) (origin : Origin) (now : DateTime)
    (a : Added) (conflicts : List FactConflict) (o : Opportunity) (u : ProfileUpdateProposal)
    → propose command e origin now a conflicts o ≡ ok u
    → (u.updated_profile
        ≡ updated_profile command.profile o a.facts conflicts e.missing_information)
      × (u.qualification_request.profile ≡ u.updated_profile)
      × (u.previous_profile ≡ command.profile)
      × (signals_of e now ≡ ok u.qualification_request.signals)
unfolding propose
propose_ok command e origin now a conflicts o u h =
    let updated = updated_profile command.profile o a.facts conflicts e.missing_information in
    let (checked, rest) = >>-ok (lead_profile_post_init updated) _ h in
    let (signals, sent, rest') = >>=-ok (signals_of e now) _ rest in
    let (trigger, found, rest'') = >>=-ok (latest_id command.messages) _ rest' in
    let (fine, last) =
      >>-ok (extraction_metadata_post_init (metadata_of origin e.overall_confidence)) _ rest'' in
    (cc last, cc last, cc last, cc (sent, last))

pub apply_ok :
    (command : TelecomExtractionCommand) (e : AcceptedExtraction) (origin : Origin) (now : DateTime)
    (u : ProfileUpdateProposal)
    → apply command e origin now ≡ ok u
    → (a : Added) × (conflicts : List FactConflict) × (o : Opportunity) × (add_fields e.fields
          (record { facts = command.profile.facts; facts_added = []; facts_preserved = [] })
        ≡ ok a)
      × (add_conflicts a.facts e.contradictions now command.profile.conflicts ≡ ok conflicts)
      × (propose command e origin now a conflicts o ≡ ok u)
unfolding apply
apply_ok command e origin now u h =
    let (a, added, rest) =
      >>=-ok
        (add_fields e.fields
          (record { facts = command.profile.facts; facts_added = []; facts_preserved = [] }))
        _ h in
    let (conflicts, recorded, rest') =
      >>=-ok (add_conflicts a.facts e.contradictions now command.profile.conflicts) _ rest in
    let (o, merged, rest'') =
      >>=-ok (proposed_opportunity command.profile.opportunity e.opportunity.opportunity) _ rest' in
    (a, conflicts, o, added, recorded, rest'')

-- A returned proposal keeps every fact of the profile as it is. A fact that it adds is for a field
-- without one, states a field that the extraction accepted, and is not confirmed. The conflicts of
-- the profile stay, and each contradiction of the extraction adds one. The request to evaluate has
-- the proposed profile.
pub proposal_keeps :
    (command : TelecomExtractionCommand) (e : AcceptedExtraction) (origin : Origin) (now : DateTime)
    (u : ProfileUpdateProposal)
    → apply command e origin now ≡ ok u
    → Extends e.fields command.profile.facts u.updated_profile.facts
      × ((new : List FactConflict) × (u.updated_profile.conflicts
            ≡ command.profile.conflicts ++ new)
          × (length new ≡ length e.contradictions))
      × (u.qualification_request.profile ≡ u.updated_profile)
      × (u.previous_profile ≡ command.profile)
unfolding updated_profile
proposal_keeps command e origin now u h =
    let (a, conflicts, o, added, recorded, last) = apply_ok command e origin now u h in
    let (updated, requested, previous, sent) =
      propose_ok command e origin now a conflicts o u last in
    let (new, same, count) =
      conflicts_added a.facts e.contradictions now command.profile.conflicts conflicts recorded in
    let start : Added = record {
      facts = command.profile.facts;
      facts_added = [];
      facts_preserved = [];
    } in
    (
      subst (λ (p : LeadProfile). Extends e.fields command.profile.facts p.facts) (sym updated)
          (all-Extends e.fields e.fields start a (λ x m. m) added),
      (new, ap (λ (p : LeadProfile). p.conflicts) updated ∙ same, count),
      requested,
      previous,
    )
