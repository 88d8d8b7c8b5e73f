-- ===== src/Conversations/Profile/Plan.antt =====
-- `plan` and `_opportunity` of `IncrementalLeadProfileApplier`, telecom_conversations/profile.py
-- (src/saas_platform/modules).
use plataforma_saa_s_de_auto.Prelude.{
  none, ℕ, map, length, option_eq, string_eq, true, false, ◌&&◌, Bool, not, String, Option, some,
  List, [], ◌∷◌, ◌++◌, filter, distinct, if◌then◌else◌, ◌==◌,
}
use plataforma_saa_s_de_auto.Prelude.Text.{is_empty}
use plataforma_saa_s_de_auto.Prelude.Dict.{Dict, put}
use plataforma_saa_s_de_auto.Errors.{Result, ok, ◌>>=◌, ◌>>◌}
use plataforma_saa_s_de_auto.Foundation.{DateTime}
use plataforma_saa_s_de_auto.LeadQualification.Vocabulary.{
  OpportunityType, ProfileField, opportunity_type_eq, profile_field_eq,
}
use plataforma_saa_s_de_auto.LeadQualification.Profile.{
  Opportunity, opportunity_post_init, ProfileFact, FactConflict, fact_conflict_post_init,
  LeadProfile, lead_profile_post_init, fact,
}
use plataforma_saa_s_de_auto.Extraction.Domain.{ResolvedField, AcceptedExtraction}
use plataforma_saa_s_de_auto.Conversations.Profile.Action.{
  ProfileValueAction, profile_value_action_eq,
}
use plataforma_saa_s_de_auto.Conversations.Profile.Decision.{
  ProfileValueDecision, makes_current, candidates, decide_value,
}

pub record ProfileApplicationPlan : Type 0 where
  pub decisions : List ProfileValueDecision
  pub opportunity : Opportunity
  pub missing_information : List ProfileField
  pub updated_profile : LeadProfile

-- The tuple of decisions: each candidate against the profile as it was.
unfoldable pub decide_all :
    LeadProfile → Bool → List ResolvedField → Result (List ProfileValueDecision)
decide_all profile explicit_correction [] = ok []
decide_all profile explicit_correction (item ∷ items) = do
  d ← decide_value (fact profile item.value.field) item explicit_correction
  ds ← decide_all profile explicit_correction items
  ok (d ∷ ds)

unfoldable pub apply_fact :
    ProfileValueDecision → Dict ProfileField ProfileFact → Dict ProfileField ProfileFact
apply_fact d facts = if makes_current d then put d.candidate.field d.candidate facts else facts

-- The facts after the loop over the decisions.
unfoldable pub apply_facts :
    List ProfileValueDecision → Dict ProfileField ProfileFact → Dict ProfileField ProfileFact
unfolding apply_fact
apply_facts [] facts = facts
apply_facts (d ∷ ds) facts = apply_facts ds (apply_fact d facts)

-- `decision.conflict_reason or "conflict"`
unfoldable pub reason_text : String → String
reason_text reason = if is_empty reason then "conflict" else reason

unfoldable pub construct_conflict : FactConflict → Result FactConflict
construct_conflict c = fact_conflict_post_init c >> ok c

-- The conflict that a decision adds: it has a reason and a previous fact.
unfoldable pub conflict_of :
    ProfileValueDecision → DateTime → Option String → Option ProfileFact → List FactConflict
conflict_of d applied_at (some reason) (some previous) =
    record {
      field = d.candidate.field;
      previous = previous;
      current = d.candidate;
      reason = reason_text reason;
      detected_at = applied_at;
    }
    ∷ []
conflict_of d applied_at _ _ = []

-- The conflicts that the loop appends.
unfoldable pub new_conflicts : List ProfileValueDecision → DateTime → List FactConflict
unfolding conflict_of
new_conflicts [] applied_at = []
new_conflicts (d ∷ ds) applied_at =
    conflict_of d applied_at d.conflict_reason d.previous ++ new_conflicts ds applied_at

unfoldable pub construct_all : List FactConflict → Result (List FactConflict)
construct_all [] = ok []
construct_all (c ∷ cs) = do
  checked ← construct_conflict c
  rest ← construct_all cs
  ok (checked ∷ rest)

unfoldable pub construct_opportunity : Opportunity → Result Opportunity
construct_opportunity o = opportunity_post_init o >> ok o

-- `_opportunity`
unfoldable pub merge_opportunity : Opportunity → Opportunity → Result Opportunity
merge_opportunity current proposed =
    if proposed.primary == OpportunityType.unidentified
    then ok current
    else if current.primary == OpportunityType.unidentified
    then ok proposed
    else if proposed.primary == current.primary
    then construct_opportunity (record {
      primary = current.primary;
      secondary = distinct (current.secondary ++ proposed.secondary);
    })
    else construct_opportunity (record {
      primary = current.primary;
      secondary =
          filter (λ o. not (o == current.primary))
            (distinct (current.secondary ++ (proposed.primary ∷ proposed.secondary)));
    })

unfoldable pub construct_profile : LeadProfile → Result LeadProfile
construct_profile p = lead_profile_post_init p >> ok p

unfoldable pub updated_with :
    LeadProfile
    → AcceptedExtraction
    → List ProfileValueDecision
    → List FactConflict
    → Opportunity
    → LeadProfile
updated_with profile extraction decisions conflicts opportunity = record {
  tenant_id = profile.tenant_id;
  lead_id = profile.lead_id;
  conversation_id = profile.conversation_id;
  opportunity = opportunity;
  facts = apply_facts decisions profile.facts;
  conflicts = profile.conflicts ++ conflicts;
  missing_information = extraction.missing_information;
}

-- The end of `plan`: the updated profile and the plan.
unfoldable pub finish :
    LeadProfile
    → AcceptedExtraction
    → List ProfileValueDecision
    → List FactConflict
    → Opportunity
    → Result ProfileApplicationPlan
finish profile extraction decisions conflicts opportunity =
    construct_profile (updated_with profile extraction decisions conflicts opportunity)
    >>= (λ updated. ok (record {
      decisions = decisions;
      opportunity = opportunity;
      missing_information = extraction.missing_information;
      updated_profile = updated;
    }))

-- `plan`, where `corrects` is whether CORRECTION_PATTERN is found in a text.
unfoldable pub plan :
    (String → Bool)
    → LeadProfile
    → AcceptedExtraction
    → String
    → DateTime
    → Result ProfileApplicationPlan
plan corrects profile extraction message_content applied_at = do
  decisions ← decide_all profile (corrects message_content) (candidates extraction)
  conflicts ← construct_all (new_conflicts decisions applied_at)
  opportunity ← merge_opportunity profile.opportunity extraction.opportunity.opportunity
  finish profile extraction decisions conflicts opportunity

unfoldable pub changed_fields : List ProfileValueDecision → List ProfileField
changed_fields ds = map (λ d. d.candidate.field) (filter makes_current ds)

is_none : Option ProfileFact → Bool
is_none none = true
is_none (some f) = false

unfoldable pub creates_conflict : ProfileValueDecision → Bool
unfolding is_none
creates_conflict d = not (d.conflict_reason == none) && not (is_none d.previous)

unfoldable pub conflict_count : List ProfileValueDecision → ℕ
unfolding creates_conflict
conflict_count ds = length (filter creates_conflict ds)

unfoldable pub forbidden_fields : List ProfileValueDecision → List ProfileField
forbidden_fields ds =
    map (λ d. d.candidate.field) (filter (λ d. d.action == ProfileValueAction.forbidden) ds)
