-- ===== src/Extraction/Decisions/Question.antt =====
-- `_question` of `ExtractionDecisionService` in telecom_extraction/processing.py
-- (src/saas_platform/modules).
use plataforma_saa_s_de_auto.Prelude.{
  leb, Bool, true, false, not, ◌&&◌, ◌||◌, ◌≡◌, refl, inl, inr, ◌⊎◌, String, Option, none, some,
  List, [], ◌∷◌, ◌++◌, map, filter, any, contains, ◌==◌, option_eq, ℤ, pos, if◌then◌else◌,
  Bool-cases, arith, ◌≤◌, ap, subst, sym, ◌∙◌, Memᴰ, filter_sound, length, nat_eq,
}
use plataforma_saa_s_de_auto.Prelude.Text.{is_empty, text_length, count_code}
use plataforma_saa_s_de_auto.LeadQualification.Vocabulary.{ProfileField, profile_field_eq}
use plataforma_saa_s_de_auto.Extraction.Vocabulary.{SpecialControl, special_control_eq}
use plataforma_saa_s_de_auto.Extraction.Domain.{
  SpecialControlFinding, ExtractionContradiction, SuggestedQuestion,
}
use plataforma_saa_s_de_auto.Extraction.Command.{NormalizedExtraction, TelecomExtractionCommand}
use plataforma_saa_s_de_auto.Extraction.Decisions.Required.{question_text}

-- `control in {item.control for item in controls}`
unfoldable pub has_control : SpecialControl → List SpecialControlFinding → Bool
has_control control controls = any (λ item. item.control == control) controls

-- No question after a handoff, a no-contact request or a request for a person.
unfoldable pub is_silenced : Bool → List SpecialControlFinding → Bool
is_silenced handoff_confirmed controls =
    handoff_confirmed
    || has_control SpecialControl.do_not_contact controls
    || has_control SpecialControl.human_requested controls

unfoldable pub eligible_targets :
    List ExtractionContradiction → List ProfileField → List ProfileField → List ProfileField
eligible_targets contradictions missing recently_asked =
    filter (λ f. not (contains recently_asked f)) (map (λ c. c.field) contradictions ++ missing)

-- The first text for one of the targets.
unfoldable pub first_text : List ProfileField → Option String
first_text [] = none
first_text (f ∷ fs) = elim (question_text f) [ some t ↦ some t | none ↦ first_text fs ]

unfoldable pub or_else :
    Option SuggestedQuestion → Option SuggestedQuestion → Option SuggestedQuestion
or_else (some q) other = some q
or_else none other = other

or_else-some :
    (o other : Option SuggestedQuestion) {q : SuggestedQuestion}
    → or_else o other ≡ some q
    → (o ≡ some q) ⊎ (other ≡ some q)
unfolding or_else
or_else-some (some p) other h = inl h
or_else-some none other h = inr h

-- `is_sensitive` is whether SENSITIVE_QUESTION_PATTERN is found in a text.
module _ (is_sensitive : String → Bool) where
  unfoldable pub is_acceptable : String → String → Bool
  is_acceptable text reason =
      not (is_empty text)
      && (not (is_empty reason)
          && (leb (text_length text) 180
              && (leb (count_code b'?' text) 1 && not (is_sensitive text))))

  unfoldable pub offered_question :
      Option String
      → Option String
      → Option ℤ
      → NormalizedExtraction
      → ProfileField
      → Option SuggestedQuestion
  offered_question (some text) (some reason) (some priority) n target =
      if is_acceptable text reason
      then some (record {
        target_field = target;
        text = text;
        reason = reason;
        priority = priority;
        alternatives = n.provider_question_alternatives;
        skippable = n.provider_question_skippable;
      })
      else none
  offered_question _ _ _ n target = none

  -- The provider's question, when it asks for the target and may be asked.
  unfoldable pub provider_question : NormalizedExtraction → ProfileField → Option SuggestedQuestion
  provider_question n target =
      if n.provider_question_target == some target
      then offered_question n.provider_question n.provider_question_reason
          n.provider_question_priority n target
      else none

  unfoldable pub default_question : ProfileField → Option String → Bool → Option SuggestedQuestion
  default_question target none no_contradictions = none
  default_question target (some text) no_contradictions = some (record {
    target_field = target;
    text = text;
    reason = "Resolve the highest-priority relevant missing or conflicting field.";
    priority = if no_contradictions then pos 2 else pos 1;
    alternatives = [];
    skippable = true;
  })

  unfoldable pub ask : NormalizedExtraction → List ProfileField → Bool → Option SuggestedQuestion
  ask n [] no_contradictions = none
  ask n (target ∷ rest) no_contradictions =
      or_else (provider_question n target)
        (default_question target (first_text (target ∷ rest)) no_contradictions)

  -- `_question`
  unfoldable pub question :
      NormalizedExtraction
      → List ProfileField
      → List ExtractionContradiction
      → List SpecialControlFinding
      → TelecomExtractionCommand
      → Option SuggestedQuestion
  question n missing contradictions controls command =
      if is_silenced command.handoff_confirmed controls
      then none
      else ask n (eligible_targets contradictions missing command.recently_asked_fields)
          (length contradictions == 0)

  -- What a question must be: the provider's, for the target and fit to be asked, or the text of the
  -- first target that has one.
  abbrev pub IsAnswerable : NormalizedExtraction → List ProfileField → SuggestedQuestion → Type 0
  IsAnswerable n targets q =
      ((n.provider_question_target ≡ some q.target_field)
        × (n.provider_question ≡ some q.text)
        × (is_sensitive q.text ≡ false)
        × (text_length q.text ≤ 180)
        × (count_code b'?' q.text ≤ 1))
      ⊎ (first_text targets ≡ some q.text)

  acceptable_parts :
      (text reason : String)
      → is_acceptable text reason ≡ true
      → (is_sensitive text ≡ false) × (text_length text ≤ 180) × (count_code b'?' text ≤ 1)
  unfolding is_acceptable
  acceptable_parts text reason h = (ground arith, ground arith, ground arith)

  offered_sound :
      (text reason : Option String) (priority : Option ℤ) (n : NormalizedExtraction)
      (target : ProfileField) (q : SuggestedQuestion)
      → offered_question text reason priority n target ≡ some q
      → (q.target_field ≡ target)
        × (text ≡ some q.text)
        × (is_sensitive q.text ≡ false)
        × (text_length q.text ≤ 180)
        × (count_code b'?' q.text ≤ 1)
  unfolding offered_question
  offered_sound none reason priority n target q h = cc
  offered_sound (some text) none priority n target q h = cc
  offered_sound (some text) (some reason) none n target q h = cc
  offered_sound (some text) (some reason) (some priority) n target q h =
      elim (Bool-cases (is_acceptable text reason)) [
        | inl t ↦
            let (calm, short, single) = acceptable_parts text reason t in
            let same : text ≡ q.text = cc (rw t at h) in
            (
              cc (rw t at h),
              ap some same,
              subst (λ x. is_sensitive x ≡ false) same calm,
              subst (λ x. text_length x ≤ 180) same short,
              subst (λ x. count_code b'?' x ≤ 1) same single,
            )
        | inr f ↦ cc (rw f at h)
      ]

  provider_sound :
      (n : NormalizedExtraction) (target : ProfileField) (q : SuggestedQuestion)
      (targets : List ProfileField)
      → provider_question n target ≡ some q
      → (q.target_field ≡ target) × IsAnswerable n targets q
  unfolding provider_question
  provider_sound n target q targets h =
      elim (Bool-cases (n.provider_question_target == some target)) [
        | inl t ↦
            let (same, text, calm, short, single) =
              offered_sound n.provider_question n.provider_question_reason
                n.provider_question_priority n target q (rw t at h) in
            (
              same,
              inl ((option_eq.same_iff _ _).0 t ∙ ap some (sym same), text, calm, short, single),
            )
        | inr f ↦ cc (rw f at h)
      ]

  default_sound :
      (target : ProfileField) (o : Option String) (no_contradictions : Bool) (q : SuggestedQuestion)
      → default_question target o no_contradictions ≡ some q
      → (q.target_field ≡ target) × (o ≡ some q.text)
  unfolding default_question
  default_sound target none no_contradictions q h = cc
  default_sound target (some text) no_contradictions q h = (cc, cc)

  ask_sound :
      (n : NormalizedExtraction) (targets : List ProfileField) (no_contradictions : Bool)
      (q : SuggestedQuestion)
      → ask n targets no_contradictions ≡ some q
      → (rest : List ProfileField) × (targets ≡ q.target_field ∷ rest) × IsAnswerable n targets q
  unfolding ask
  ask_sound n [] no_contradictions q h = cc
  ask_sound n (target ∷ rest) no_contradictions q h =
      elim (or_else-some (provider_question n target) _ h) [
        | inl offer ↦
            let (same, answer) = provider_sound n target q (target ∷ rest) offer in
            (rest, ap (λ f. f ∷ rest) (sym same), answer)
        | inr default ↦
            let (same, text) =
              default_sound target (first_text (target ∷ rest)) no_contradictions q default in
            (rest, ap (λ f. f ∷ rest) (sym same), inr text)
      ]

  -- A returned question comes after no handoff, no-contact request or request for a person. It is
  -- recorded for the first field that is contradicted or missing and was not asked recently. It is
  -- the provider's question for that field, of at most 180 characters and one question mark and not
  -- sensitive, or the text of the first such field that has one, which may be a later field.
  pub question_sound :
      (n : NormalizedExtraction) (missing : List ProfileField)
      (contradictions : List ExtractionContradiction) (controls : List SpecialControlFinding)
      (command : TelecomExtractionCommand) (q : SuggestedQuestion)
      → question n missing contradictions controls command ≡ some q
      → let targets = eligible_targets contradictions missing command.recently_asked_fields in
        (is_silenced command.handoff_confirmed controls ≡ false)
        × ((rest : List ProfileField) × (targets ≡ q.target_field ∷ rest))
        × (contains command.recently_asked_fields q.target_field ≡ false)
        × IsAnswerable n targets q
  unfolding question eligible_targets
  question_sound n missing contradictions controls command q h =
      elim (Bool-cases (is_silenced command.handoff_confirmed controls)) [
        | inl t ↦ cc (rw t at h)
        | inr f ↦
            let targets = eligible_targets contradictions missing command.recently_asked_fields in
            let (rest, first, answer) =
              ask_sound n targets (length contradictions == 0) q (rw f at h) in
            let unasked =
              filter_sound (λ x. not (contains command.recently_asked_fields x)) q.target_field
                (map (λ c. c.field) contradictions ++ missing)
                (subst (λ l. Memᴰ q.target_field l) (sym first) (Memᴰ.head refl)) in
            (f, (rest, first), ground (arith, unasked), answer)
      ]
