-- ===== src/Extraction/Reconcile.antt =====
-- `ContradictionReconciler` of telecom_extraction/processing.py (src/saas_platform/modules): values of
-- one field that contradict each other, or the profile.
use plataforma_saa_s_de_auto.Prelude.{
  Bool, true, ltb, String, Option, none, some, List, [], ◌∷◌, ◌++◌, map, ◌==◌, string_eq, pos,
  leb_ℤ, min_ℤ, max_ℤ, if◌then◌else◌,
}
use plataforma_saa_s_de_auto.Prelude.Sort.{sort_by}
use plataforma_saa_s_de_auto.Prelude.Dict.{Dict, get, put}
use plataforma_saa_s_de_auto.Prelude.Text.{text_concat}
use plataforma_saa_s_de_auto.LeadQualification.Vocabulary.{
  ProfileField, ValidationStatus, profile_field_eq, profile_field_value, validation_status_eq,
}
use plataforma_saa_s_de_auto.LeadQualification.Profile.{ProfileFact, LeadProfile, fact, same_value}
use plataforma_saa_s_de_auto.Extraction.Vocabulary.{ConfidenceTreatment, ExtractionFieldStatus}
use plataforma_saa_s_de_auto.Extraction.Domain.{
  NormalizedField, ResolvedField, ExtractionContradiction, extraction_contradiction_post_init,
  resolved_field_post_init,
}
use plataforma_saa_s_de_auto.Errors.{Result, ok, ◌>>◌, for_each}
use plataforma_saa_s_de_auto.Extraction.Resolve.{less_hundredths}

unfoldable pub observed_before : ResolvedField → ResolvedField → Bool
observed_before a b = ltb a.value.observed_at.instant b.value.observed_at.instant

-- `grouped`, in the order in which the fields appear.
unfoldable pub group_field :
    ResolvedField → Dict ProfileField (List ResolvedField) → Dict ProfileField (List ResolvedField)
group_field f [] = (f.value.field, f ∷ []) ∷ []
group_field f ((k, g) ∷ groups) =
    if f.value.field == k then (k, g ++ (f ∷ [])) ∷ groups else (k, g) ∷ group_field f groups

unfoldable pub group_fields :
    List ResolvedField
    → Dict ProfileField (List ResolvedField)
    → Dict ProfileField (List ResolvedField)
group_fields [] groups = groups
group_fields (f ∷ fs) groups = group_fields fs (group_field f groups)

unfoldable pub clarification : ProfileField → String
clarification field =
    text_concat ("Could you confirm the current value for " ∷ profile_field_value field ∷ "?" ∷ [])

-- `_contradicted`
unfoldable pub contradicted : ResolvedField → ResolvedField
contradicted f = record f {
  confidence = max_ℤ (pos 0) (less_hundredths f.confidence 25);
  status = ExtractionFieldStatus.contradicted;
  treatment = ConfidenceTreatment.contradicted;
  reasons = f.reasons ++ ("contradiction_detected" ∷ []);
}

-- `_between_extractions`
unfoldable pub between_extractions :
    ProfileField → ResolvedField → ResolvedField → ExtractionContradiction
between_extractions field previous current = record {
  field = field;
  previous_value = previous.value.value;
  new_value = current.value.value;
  previous_source_message_id = some previous.value.source_message_id;
  new_source_message_id = current.value.source_message_id;
  previous_evidence = some previous.value.evidence;
  new_evidence = current.value.evidence;
  confidence = min_ℤ previous.confidence current.confidence;
  resolution = "clarification_required; neither value replaces the other";
  clarification_question = clarification field;
}

-- `_against_profile`
unfoldable pub against_profile : ProfileFact → ResolvedField → ExtractionContradiction
against_profile previous current = record {
  field = previous.field;
  previous_value = previous.value;
  new_value = current.value.value;
  previous_source_message_id = previous.source_message_id;
  new_source_message_id = current.value.source_message_id;
  previous_evidence = none;
  new_evidence = current.value.evidence;
  confidence = current.confidence;
  resolution =
      if previous.validation_status == ValidationStatus.confirmed
      then "confirmed value preserved; human clarification required"
      else "existing value preserved; clarification required";
  clarification_question = clarification previous.field;
}

unfoldable pub is_at_least : ResolvedField → Option ResolvedField → Bool
is_at_least f none = true
is_at_least f (some current) = leb_ℤ current.confidence f.confidence

-- What a field comes to: the value that stands for it, and perhaps a contradiction.
abbrev pub Verdict : Type 0
Verdict = ResolvedField × Option ExtractionContradiction

unfoldable pub against_fact : Option ProfileFact → ResolvedField → Verdict
against_fact none latest = (latest, none)
against_fact (some existing) latest =
    if same_value existing.value latest.value.value
    then (latest, none)
    else (contradicted latest, some (against_profile existing latest))

-- The last value and the one before it, of values in the order of observation.
unfoldable pub judge :
    Option ProfileFact → ProfileField → ResolvedField → List ResolvedField → Verdict
judge existing field first [] = against_fact existing first
judge existing field first (latest ∷ []) =
    (contradicted latest, some (between_extractions field first latest))
judge existing field first (next ∷ rest) = judge existing field next rest

unfoldable pub check_contradiction : Option ExtractionContradiction → Result (Unit {0})
check_contradiction none = ok tt
check_contradiction (some c) = extraction_contradiction_post_init c

-- The values of a group's verdict are constructed, the contradiction first.
unfoldable pub check_verdict : Verdict → Result (Unit {0})
unfolding check_contradiction
check_verdict (f, c) = check_contradiction c >> resolved_field_post_init f

unfoldable pub listed : Option ExtractionContradiction → List ExtractionContradiction
listed none = []
listed (some c) = c ∷ []

unfoldable pub contradictions_of : List Verdict → List ExtractionContradiction
unfolding listed
contradictions_of [] = []
contradictions_of (v ∷ vs) = listed v.1 ++ contradictions_of vs

unfoldable pub outputs : List Verdict → List ResolvedField
outputs [] = []
outputs (v ∷ vs) = v.0 ∷ outputs vs

-- `value_text` is `str` of a field's value.
module _ (value_text : NormalizedField → String) where
  unfoldable pub keep_value : ResolvedField → Dict String ResolvedField → Dict String ResolvedField
  unfolding is_at_least
  keep_value f d =
      if is_at_least f (get (value_text f.value) d) then put (value_text f.value) f d else d

  unfoldable pub by_value :
      List ResolvedField → Dict String ResolvedField → Dict String ResolvedField
  by_value [] d = d
  by_value (f ∷ fs) d = by_value fs (keep_value f d)

  unfoldable pub unique_values : List ResolvedField → List ResolvedField
  unfolding by_value
  unique_values candidates =
      sort_by observed_before (map (λ e. e.1) (by_value (sort_by observed_before candidates) []))

  -- The body of the loop of `reconcile`; a group is never empty.
  unfoldable pub verdict : LeadProfile → ProfileField → List ResolvedField → List Verdict
  verdict profile field [] = []
  verdict profile field (first ∷ rest) = judge (fact profile field) field first rest ∷ []

  unfoldable pub verdicts : LeadProfile → Dict ProfileField (List ResolvedField) → List Verdict
  unfolding verdict unique_values
  verdicts profile [] = []
  verdicts profile ((field, candidates) ∷ groups) =
      verdict profile field (unique_values candidates) ++ verdicts profile groups

  -- `reconcile`
  unfoldable pub reconcile :
      List ResolvedField → LeadProfile → Result (List ResolvedField × List ExtractionContradiction)
  unfolding check_verdict
  reconcile resolved profile =
      let vs = verdicts profile (group_fields resolved []) in
      for_each check_verdict vs >> ok (outputs vs, contradictions_of vs)
