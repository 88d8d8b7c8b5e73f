-- ===== src/Extraction/Examples.antt =====
-- The theorems about extraction at inputs where their hypotheses hold.
use plataforma_saa_s_de_auto.Prelude.{
  ◌≤◌, true, false, ◌≡◌, contains, ◌++◌, refl, List, [], ◌∷◌, Memᴰ, pos, length,
}
use plataforma_saa_s_de_auto.LeadQualification.Samples.{noon, no_print}
use plataforma_saa_s_de_auto.LeadQualification.Vocabulary.{
  OpportunityType, profile_field_eq, ProfileField,
}
use plataforma_saa_s_de_auto.Extraction.Confidence.{default_confidence_policy}
use plataforma_saa_s_de_auto.Extraction.Command.{ConversationMessage}
use plataforma_saa_s_de_auto.Extraction.Context.Selection.{sent_before}
use plataforma_saa_s_de_auto.LeadQualification.Profile.{same_value, FactConflict}
use plataforma_saa_s_de_auto.Extraction.Decisions.Question.{
  question_sound, is_silenced, eligible_targets, IsAnswerable,
}
use plataforma_saa_s_de_auto.Extraction.NoContact.{
  IsStopped, no_contact_obeyed, degraded_no_contact,
}
use plataforma_saa_s_de_auto.Extraction.Context.Fits.{characters, prepare_fits}
use plataforma_saa_s_de_auto.Extraction.Kept.{Extends, proposal_keeps}
use plataforma_saa_s_de_auto.Extraction.Agreement.{accepted_agrees}
use plataforma_saa_s_de_auto.Extraction.Runs.{
  leaving, command, limits, render, spot, leave, calm, prepared, it_is_prepared, origin, fallback,
  accepted, silent, proposed, it_is_accepted, it_is_applied, it_degrades, answer_to,
  it_is_evaluated, it_is_evaluated_too, limits_are_valid, controls_kept, it-Matches,
}
use plataforma_saa_s_de_auto.Extraction.FieldRuns.{
  wants_basic, basic, with_plan, proposed_plan, known, agreed, keep_number_question, plan_is_added,
  always_basic, it_is_reconciled, it_is_agreed, plan_is_known, plan_is_accepted, it_asks,
}

no_contact_obeyed_example : IsStopped (answer_to (proposed accepted).qualification_request)
no_contact_obeyed_example =
    no_contact_obeyed no_print calm default_confidence_policy render spot leave limits command noon
      prepared leaving fallback [] [] [] accepted origin (proposed accepted) 7 1
      OpportunityType.portability noon (pos 1) 12 noon
      (answer_to (proposed accepted).qualification_request) it_is_prepared (Memᴰ.head refl)
      it-Matches controls_kept it_is_accepted it_is_applied it_is_evaluated

degraded_no_contact_example : IsStopped (answer_to (proposed silent).qualification_request)
degraded_no_contact_example =
    degraded_no_contact no_print calm default_confidence_policy render spot leave limits command
      noon prepared leaving [] origin silent (proposed silent) 7 1 OpportunityType.portability noon
      (pos 1) 12 noon (answer_to (proposed silent).qualification_request) it_is_prepared
      (Memᴰ.head refl) it-Matches it_degrades it_is_evaluated_too

prepare_fits_example :
    (length prepared.request.messages ≤ 20)
    × (characters prepared.request.messages ≤ 12000)
    × ((z : ConversationMessage) × (before : List ConversationMessage) × (prepared.original_messages
          ≡ before ++ (z ∷ []))
        × Memᴰ z command.messages
        × ((n : ConversationMessage) → Memᴰ n command.messages → sent_before z n ≡ false))
prepare_fits_example =
    prepare_fits render spot leave limits command noon prepared limits_are_valid it_is_prepared

proposal_keeps_example :
    Extends with_plan.fields command.profile.facts proposed_plan.updated_profile.facts
    × ((new : List FactConflict) × (proposed_plan.updated_profile.conflicts
          ≡ command.profile.conflicts ++ new)
        × (length new ≡ length with_plan.contradictions))
    × (proposed_plan.qualification_request.profile ≡ proposed_plan.updated_profile)
    × (proposed_plan.previous_profile ≡ command.profile)
proposal_keeps_example = proposal_keeps command with_plan origin noon proposed_plan plan_is_added

accepted_agrees_example : same_value basic.value wants_basic.value.value ≡ true
accepted_agrees_example =
    accepted_agrees always_basic calm default_confidence_policy fallback (wants_basic ∷ [])
      (wants_basic ∷ []) [] [] known agreed wants_basic basic it_is_reconciled it_is_agreed
      plan_is_accepted plan_is_known

question_sound_example :
    let targets = eligible_targets [] (ProfileField.keep_number ∷ []) [] in
    (is_silenced false [] ≡ false)
    × ((rest : List ProfileField) × (targets ≡ ProfileField.keep_number ∷ rest))
    × (contains [] ProfileField.keep_number ≡ false)
    × IsAnswerable calm fallback targets keep_number_question
question_sound_example =
    question_sound calm fallback (ProfileField.keep_number ∷ []) [] [] command keep_number_question
      it_asks
