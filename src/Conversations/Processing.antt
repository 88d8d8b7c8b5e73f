-- ===== src/Conversations/Processing.antt =====
-- Where the processing of a message moves the lead and the conversation: `_lead_target`,
-- `_conversation_target` and the two transitions of `_finalize`, telecom_conversations/application.py
-- (src/saas_platform/modules).
use plataforma_saa_s_de_auto.Prelude.{
  Bool, true, false, not, ◌≡◌, refl, String, List, [], ◌∷◌, contains, decide, if◌then◌else◌, ◌==◌,
  inl, inr, Bool-cases, Option, some, none,
}
use plataforma_saa_s_de_auto.Prelude.Text.{is_blank, codes}
use plataforma_saa_s_de_auto.Errors.{Result, ok, err}
use plataforma_saa_s_de_auto.LeadQualification.Vocabulary.{
  LeadState, LeadClassification, ProfileField, lead_state_eq, lead_classification_eq,
  LeadState-discrete,
}
use plataforma_saa_s_de_auto.LeadQualification.Request.{QualificationResult}
use plataforma_saa_s_de_auto.Conversations.Vocabulary.{
  ConversationState, TransitionActor, conversation_state_eq, ConversationState-discrete,
  TransitionActor-discrete,
}
use plataforma_saa_s_de_auto.Conversations.Machine.Conversation.{
  conversation_transition, conversation_allowed, is_terminal, required_cause,
}
use plataforma_saa_s_de_auto.Conversations.Machine.Lead.{lead_transition, lead_allowed, is_settled}

unfoldable pub is_missing : List ProfileField → Bool
is_missing [] = false
is_missing (f ∷ fs) = true

-- `_lead_target`, of what the evaluation misses and how it classifies.
unfoldable pub lead_target : List ProfileField → LeadClassification → Bool → LeadState
unfolding is_missing
lead_target missing class dnc =
    if dnc
    then LeadState.do_not_contact
    else if is_missing missing
    then LeadState.incomplete_information
    else if contains
        (LeadClassification.warm ∷ LeadClassification.hot ∷ LeadClassification.priority ∷ []) class
    then LeadState.qualified
    else LeadState.qualifying

-- `if lead.state is not target_lead_state: …transition(…)`, and the state that is then stored.
unfoldable pub lead_step : LeadState → LeadState → Result LeadState
lead_step current target =
    let moved =
      lead_transition current target TransitionActor.worker "deterministic_qualification" in
    if not (current == target) then moved else ok target

-- The lead's state after an evaluation.
unfoldable pub advance_lead : LeadState → QualificationResult → Bool → Result LeadState
unfolding lead_step
advance_lead current evaluation dnc =
    lead_step current
      (lead_target evaluation.explanation.missing_information evaluation.classification dnc)

-- `_conversation_target`
unfoldable pub conversation_target : Bool → Bool → Bool → ConversationState × Bool
conversation_target dnc handoff question =
    if dnc
    then (ConversationState.do_not_contact, false)
    else if handoff
    then (ConversationState.waiting_human, false)
    else if question
    then (ConversationState.waiting_customer, true)
    else (ConversationState.qualifying, true)

unfoldable pub processing_cause : Bool → Bool → String
processing_cause dnc handoff =
    if dnc
    then "explicit_do_not_contact"
    else if handoff
    then "handoff_requested"
    else "qualification_processed"

-- The conversation's state after its message is processed.
unfoldable pub advance_conversation :
    ConversationState → Bool → Bool → Bool → Result ConversationState
advance_conversation current dnc handoff question =
    let target = (conversation_target dnc handoff question).0 in
    let moved =
      conversation_transition current target TransitionActor.worker
        (processing_cause dnc handoff) in
    if not (current == target) then moved else ok target

-- Where the conversation is then, if nothing raised.
unfoldable pub moved_to : Result ConversationState → Option ConversationState
moved_to (ok s) = some s
moved_to (err e) = none

-- What each state comes to, of what the message was: a no-contact request, a request for an advisor,
-- or a message that leaves a question.
unfoldable pub ended : ConversationState → Bool → Bool → Bool → Option ConversationState
ended s true handoff question =
    if contains (ConversationState.closed ∷ []) s
    then none
    else some ConversationState.do_not_contact
ended s false true question =
    if contains
      (ConversationState.human_active ∷ ConversationState.do_not_contact ∷ ConversationState.closed
        ∷ [])
      s
    then none
    else some ConversationState.waiting_human
ended s false false true =
    if contains
      (ConversationState.qualifying ∷ ConversationState.waiting_customer
        ∷ ConversationState.human_active ∷ [])
      s
    then some ConversationState.waiting_customer
    else none
ended s false false false =
    if contains (ConversationState.do_not_contact ∷ ConversationState.closed ∷ []) s
    then none
    else some ConversationState.qualifying

-- The transition, branch by branch, against that table.
pub advance_exact :
    (s : ConversationState) (dnc handoff question : Bool)
    → moved_to (advance_conversation s dnc handoff question) ≡ ended s dnc handoff question
unfolding advance_conversation conversation_target processing_cause conversation_transition
    conversation_allowed is_terminal required_cause moved_to ended contains decide is_blank codes
    ConversationState-discrete TransitionActor-discrete
advance_exact ConversationState.opened true handoff question = refl
advance_exact ConversationState.opened false true question = refl
advance_exact ConversationState.opened false false true = refl
advance_exact ConversationState.opened false false false = refl
advance_exact ConversationState.qualifying true handoff question = refl
advance_exact ConversationState.qualifying false true question = refl
advance_exact ConversationState.qualifying false false true = refl
advance_exact ConversationState.qualifying false false false = refl
advance_exact ConversationState.waiting_customer true handoff question = refl
advance_exact ConversationState.waiting_customer false true question = refl
advance_exact ConversationState.waiting_customer false false true = refl
advance_exact ConversationState.waiting_customer false false false = refl
advance_exact ConversationState.waiting_human true handoff question = refl
advance_exact ConversationState.waiting_human false true question = refl
advance_exact ConversationState.waiting_human false false true = refl
advance_exact ConversationState.waiting_human false false false = refl
advance_exact ConversationState.human_active true handoff question = refl
advance_exact ConversationState.human_active false true question = refl
advance_exact ConversationState.human_active false false true = refl
advance_exact ConversationState.human_active false false false = refl
advance_exact ConversationState.automated_paused true handoff question = refl
advance_exact ConversationState.automated_paused false true question = refl
advance_exact ConversationState.automated_paused false false true = refl
advance_exact ConversationState.automated_paused false false false = refl
advance_exact ConversationState.do_not_contact true handoff question = refl
advance_exact ConversationState.do_not_contact false true question = refl
advance_exact ConversationState.do_not_contact false false true = refl
advance_exact ConversationState.do_not_contact false false false = refl
advance_exact ConversationState.closed true handoff question = refl
advance_exact ConversationState.closed false true question = refl
advance_exact ConversationState.closed false false true = refl
advance_exact ConversationState.closed false false false = refl

-- The states that the processing gives to a lead that starts new.
unfoldable pub is_worked : LeadState → Bool
is_worked s =
    contains
      (LeadState.new ∷ LeadState.qualifying ∷ LeadState.incomplete_information ∷ LeadState.qualified
        ∷ [])
      s

to_no_contact :
    (s : LeadState)
    → is_worked s ≡ true
    → lead_step s LeadState.do_not_contact ≡ ok LeadState.do_not_contact
unfolding is_worked lead_step lead_transition lead_allowed is_settled contains decide is_blank codes
    LeadState-discrete TransitionActor-discrete
to_no_contact LeadState.new h = refl
to_no_contact LeadState.qualifying h = refl
to_no_contact LeadState.incomplete_information h = refl
to_no_contact LeadState.qualified h = refl
to_no_contact _ h = cc

to_incomplete :
    (s : LeadState)
    → is_worked s ≡ true
    → lead_step s LeadState.incomplete_information ≡ ok LeadState.incomplete_information
unfolding is_worked lead_step lead_transition lead_allowed is_settled contains decide is_blank codes
    LeadState-discrete TransitionActor-discrete
to_incomplete LeadState.new h = refl
to_incomplete LeadState.qualifying h = refl
to_incomplete LeadState.incomplete_information h = refl
to_incomplete LeadState.qualified h = refl
to_incomplete _ h = cc

to_qualified :
    (s : LeadState) → is_worked s ≡ true → lead_step s LeadState.qualified ≡ ok LeadState.qualified
unfolding is_worked lead_step lead_transition lead_allowed is_settled contains decide is_blank codes
    LeadState-discrete TransitionActor-discrete
to_qualified LeadState.new h = refl
to_qualified LeadState.qualifying h = refl
to_qualified LeadState.incomplete_information h = refl
to_qualified LeadState.qualified h = refl
to_qualified _ h = cc

to_qualifying :
    (s : LeadState)
    → is_worked s ≡ true
    → lead_step s LeadState.qualifying ≡ ok LeadState.qualifying
unfolding is_worked lead_step lead_transition lead_allowed is_settled contains decide is_blank codes
    LeadState-discrete TransitionActor-discrete
to_qualifying LeadState.new h = refl
to_qualifying LeadState.qualifying h = refl
to_qualifying LeadState.incomplete_information h = refl
to_qualifying LeadState.qualified h = refl
to_qualifying _ h = cc

-- A lead that is new, qualifying, incomplete_information or qualified takes the target state of any
-- evaluation without an error, and without a no-contact request it is again in one of these states.
pub worked_lead_advances :
    (s : LeadState) (evaluation : QualificationResult) (dnc : Bool)
    → is_worked s ≡ true
    → let t =
        lead_target evaluation.explanation.missing_information evaluation.classification dnc in
      (advance_lead s evaluation dnc ≡ ok t) × (dnc ≡ false → is_worked t ≡ true)
unfolding advance_lead lead_target is_worked contains decide LeadState-discrete
worked_lead_advances s evaluation true h = (to_no_contact s h, (λ e. cc))
worked_lead_advances s evaluation false h =
    let missing = evaluation.explanation.missing_information in
    let good =
      contains (LeadClassification.warm ∷ LeadClassification.hot ∷ LeadClassification.priority ∷ [])
        evaluation.classification in
    elim (Bool-cases (is_missing missing)) [
      | inl t ↦ rw t (to_incomplete s h, (λ e. refl))
      | inr f ↦ elim (Bool-cases good) [
        | inl t ↦ rw f (rw t (to_qualified s h, (λ e. refl)))
        | inr g ↦ rw f (rw g (to_qualifying s h, (λ e. refl)))
      ]
    ]
