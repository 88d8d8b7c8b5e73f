-- ===== src/Extraction/Agreement.antt =====
-- Accepted fields agree with the profile: `reconcile` and `accept` of telecom_extraction/processing.py
-- (src/saas_platform/modules), one after the other.
use plataforma_saa_s_de_auto.Prelude.{
  Bool, true, false, ◌≡◌, refl, sym, subst, inl, inr, String, Option, none, some, List, [], ◌∷◌,
  Memᴰ, All, All-mem, All-append, All-map, filter, filter_sound, mem_of_mem-filter, ◌==◌,
  eq_of_true, Bool-cases, string_eq, decide,
}
use plataforma_saa_s_de_auto.Prelude.Sort.{sort_by, All-sort_by}
use plataforma_saa_s_de_auto.Prelude.Dict.{Dict, get, All-put}
use plataforma_saa_s_de_auto.Errors.{ok, >>-ok, for_each}
use plataforma_saa_s_de_auto.LeadQualification.Vocabulary.{ProfileField, profile_field_eq}
use plataforma_saa_s_de_auto.LeadQualification.Profile.{ProfileFact, LeadProfile, fact, same_value}
use plataforma_saa_s_de_auto.Extraction.Vocabulary.{
  ConfidenceTreatment-discrete, confidence_treatment_eq,
}
use plataforma_saa_s_de_auto.Extraction.Domain.{
  NormalizedField, ResolvedField, ResolvedSignal, ExtractionContradiction, AcceptedExtraction,
  accepted_extraction_post_init,
}
use plataforma_saa_s_de_auto.Extraction.Command.{NormalizedExtraction, TelecomExtractionCommand}
use plataforma_saa_s_de_auto.Extraction.Confidence.{ConfidencePolicy}
use plataforma_saa_s_de_auto.Extraction.Decisions.Accept.{
  is_accepted_field, accept, accepted_extraction,
}
use plataforma_saa_s_de_auto.Extraction.Reconcile.{
  observed_before, group_field, group_fields, contradicted, against_fact, judge, keep_value,
  by_value, unique_values, verdict, verdicts, outputs, reconcile, Verdict, is_at_least,
  check_verdict, contradictions_of,
}

-- A field whose value the profile does not contradict, or that is not accepted.
abbrev Agrees : LeadProfile → ResolvedField → Type 0
Agrees profile f =
    is_accepted_field f ≡ true
    → (existing : ProfileFact) → fact profile f.value.field ≡ some existing
    → same_value existing.value f.value.value ≡ true

abbrev IsOf : ProfileField → ResolvedField → Type 0
IsOf k f = f.value.field ≡ k

-- Each group holds values of its field.
abbrev HasGroups : Dict ProfileField (List ResolvedField) → Type 0
HasGroups groups = All (λ (g : ProfileField × List ResolvedField). All (IsOf g.0) g.1) groups

group_field-HasGroups :
    (f : ResolvedField) (groups : Dict ProfileField (List ResolvedField))
    → HasGroups groups
    → HasGroups (group_field f groups)
unfolding group_field
group_field-HasGroups f [] h = ((refl, tt), tt)
group_field-HasGroups f ((k, g) ∷ groups) h = elim (Bool-cases (f.value.field == k)) [
  | inl t ↦ rw t (All-append (IsOf k) g (f ∷ []) h.0 (eq_of_true f.value.field k t, tt), h.1)
  | inr n ↦ rw n (h.0, group_field-HasGroups f groups h.1)
]

group_fields-HasGroups :
    (fs : List ResolvedField) (groups : Dict ProfileField (List ResolvedField))
    → HasGroups groups
    → HasGroups (group_fields fs groups)
unfolding group_fields
group_fields-HasGroups [] groups h = h
group_fields-HasGroups (f ∷ fs) groups h =
    group_fields-HasGroups fs (group_field f groups) (group_field-HasGroups f groups h)

contradicted_not_accepted : (f : ResolvedField) → is_accepted_field (contradicted f) ≡ false
unfolding is_accepted_field contradicted decide ConfidenceTreatment-discrete
contradicted_not_accepted f = refl

contradicted-Agrees : (profile : LeadProfile) (f : ResolvedField) → Agrees profile (contradicted f)
contradicted-Agrees profile f accepted existing there =
    absurd (cc (accepted, contradicted_not_accepted f))

module _ (profile : LeadProfile) (k : ProfileField) where
  against_fact-Agrees :
      (o : Option ProfileFact) (f : ResolvedField)
      → fact profile k ≡ o
      → IsOf k f
      → Agrees profile (against_fact o f).0
  unfolding against_fact
  against_fact-Agrees none f e of = λ accepted existing there.
      absurd (cc (e, subst (λ j. fact profile j ≡ some existing) of there))
  against_fact-Agrees (some known) f e of =
      elim (Bool-cases (same_value known.value f.value.value)) [
        | inl t ↦ rw t (λ accepted existing there.
            let same : known ≡ existing =
              cc (e, subst (λ j. fact profile j ≡ some existing) of there) in
            subst (λ (x : ProfileFact). same_value x.value f.value.value ≡ true) same t)
        | inr n ↦ rw n (contradicted-Agrees profile f)
      ]

  judge-Agrees :
      (first : ResolvedField) (rest : List ResolvedField)
      → IsOf k first
      → All (IsOf k) rest
      → Agrees profile (judge (fact profile k) k first rest).0
  unfolding judge
  judge-Agrees first [] of h = against_fact-Agrees (fact profile k) first refl of
  judge-Agrees first (latest ∷ []) of h = contradicted-Agrees profile latest
  judge-Agrees first (next ∷ later ∷ rest) of h = judge-Agrees next (later ∷ rest) h.0 h.1

module _ (value_text : NormalizedField → String) (profile : LeadProfile) where
  by_value-IsOf :
      (k : ProfileField) (fs : List ResolvedField) (d : Dict String ResolvedField)
      → All (IsOf k) fs
      → All (λ (e : String × ResolvedField). IsOf k e.1) d
      → All (λ (e : String × ResolvedField). IsOf k e.1) (by_value value_text fs d)
  unfolding by_value keep_value
  by_value-IsOf k [] d h g = g
  by_value-IsOf k (f ∷ fs) d h g =
      by_value-IsOf k fs (keep_value value_text f d) h.1
        (elim (Bool-cases (is_at_least f (get (value_text f.value) d))) [
          | inl t ↦
              rw t (
                All-put (λ (e : String × ResolvedField). IsOf k e.1) (value_text f.value) f d h.0 g)
          | inr n ↦ rw n g
        ])

  unique_values-IsOf :
      (k : ProfileField) (fs : List ResolvedField)
      → All (IsOf k) fs
      → All (IsOf k) (unique_values value_text fs)
  unfolding unique_values
  unique_values-IsOf k fs h = All-sort_by observed_before (IsOf k) _ (
      All-map (IsOf k) (λ (e : String × ResolvedField). e.1)
        (by_value value_text (sort_by observed_before fs) [])
        (by_value-IsOf k (sort_by observed_before fs) [] (All-sort_by observed_before (IsOf k) fs h)
          tt))

  verdict-Agrees :
      (k : ProfileField) (fs : List ResolvedField)
      → All (IsOf k) fs
      → All (λ (v : Verdict). Agrees profile v.0) (verdict value_text profile k fs)
  unfolding verdict
  verdict-Agrees k [] h = tt
  verdict-Agrees k (f ∷ fs) h = (judge-Agrees profile k f fs h.0 h.1, tt)

  verdicts-Agrees :
      (groups : Dict ProfileField (List ResolvedField))
      → HasGroups groups
      → All (λ (v : Verdict). Agrees profile v.0) (verdicts value_text profile groups)
  unfolding verdicts
  verdicts-Agrees [] h = tt
  verdicts-Agrees ((k, g) ∷ groups) h =
      All-append (λ (v : Verdict). Agrees profile v.0)
        (verdict value_text profile k (unique_values value_text g))
        (verdicts value_text profile groups)
        (verdict-Agrees k (unique_values value_text g) (unique_values-IsOf k g h.0))
        (verdicts-Agrees groups h.1)

  outputs-Agrees :
      (vs : List Verdict)
      → All (λ (v : Verdict). Agrees profile v.0) vs
      → All (Agrees profile) (outputs vs)
  unfolding outputs
  outputs-Agrees [] h = tt
  outputs-Agrees (v ∷ vs) h = (h.0, outputs-Agrees vs h.1)

  reconcile-Agrees :
      (resolved fields : List ResolvedField) (cs : List ExtractionContradiction)
      → reconcile value_text resolved profile ≡ ok (fields, cs)
      → All (Agrees profile) fields
  unfolding reconcile
  reconcile-Agrees resolved fields cs h =
      let vs = verdicts value_text profile (group_fields resolved []) in
      let (checked, last) =
        >>-ok (for_each check_verdict vs) (ok (outputs vs, contradictions_of vs)) h in
      let same : outputs vs ≡ fields = cc last in
      subst (All (Agrees profile)) same (
        outputs-Agrees (verdicts value_text profile (group_fields resolved []))
          (verdicts-Agrees (group_fields resolved []) (group_fields-HasGroups resolved [] tt)))

-- An accepted field never contradicts the profile: where the profile has a fact of the field, the
-- accepted value is the fact's.
pub accepted_agrees :
    (value_text : NormalizedField → String) (is_sensitive : String → Bool) (p : ConfidencePolicy)
    (n : NormalizedExtraction) (resolved fields : List ResolvedField)
    (cs : List ExtractionContradiction) (signals : List ResolvedSignal)
    (command : TelecomExtractionCommand) (e : AcceptedExtraction) (f : ResolvedField)
    (existing : ProfileFact)
    → reconcile value_text resolved command.profile ≡ ok (fields, cs)
    → accept is_sensitive p n fields cs signals command ≡ ok e
    → Memᴰ f e.fields
    → fact command.profile f.value.field ≡ some existing
    → same_value existing.value f.value.value ≡ true
unfolding accept accepted_extraction
accepted_agrees value_text is_sensitive p n resolved fields cs signals command e f existing
      reconciled accepted m there =
    let made = accepted_extraction is_sensitive p n fields cs signals command in
    let (checked, last) = >>-ok (accepted_extraction_post_init made) (ok made) accepted in
    let same : filter is_accepted_field fields ≡ e.fields = cc last in
    let m' = subst (λ l. Memᴰ f l) (sym same) m in
    All-mem (Agrees command.profile) f fields
      (reconcile-Agrees value_text command.profile resolved fields cs reconciled)
      (mem_of_mem-filter is_accepted_field f fields m') (filter_sound is_accepted_field f fields m')
      existing there
