-- ===== src/Conversations/Tests.antt =====
-- The state machines on small sequences of requests.
use plataforma_saa_s_de_auto.Prelude.{
  ◌⊎◌, inr, true, false, ◌≡◌, ◌≢◌, refl, List, [], ◌∷◌, contains, decide, Memᴰ, string_eq, none,
}
use plataforma_saa_s_de_auto.Prelude.Text.{is_blank}
use plataforma_saa_s_de_auto.Errors.{ok}
use plataforma_saa_s_de_auto.LeadQualification.Vocabulary.{LeadState, LeadState-discrete}
use plataforma_saa_s_de_auto.Conversations.Vocabulary.{
  ConversationState, conversation_state_eq, TransitionActor, HandoffStatus,
  ConversationState-discrete, TransitionActor-discrete, HandoffStatus-discrete,
}
use plataforma_saa_s_de_auto.LeadQualification.Samples.{buyer_result}
use plataforma_saa_s_de_auto.Conversations.Processing.{
  moved_to, advance_conversation, ended, advance_exact, advance_lead, lead_target, is_worked,
  worked_lead_advances,
}
use plataforma_saa_s_de_auto.Conversations.Questions.{readied}
use plataforma_saa_s_de_auto.Conversations.Processed.{Message}
use plataforma_saa_s_de_auto.Conversations.Machine.Conversation.{
  conversation_allowed, is_terminal, required_cause, conversation_transition,
}
use plataforma_saa_s_de_auto.Conversations.Machine.Lead.{lead_allowed, is_settled, lead_transition}
use plataforma_saa_s_de_auto.Conversations.Machine.Handoff.{
  handoff_allowed, is_active, handoff_transition,
}
use plataforma_saa_s_de_auto.Conversations.Machine.ConversationRuns.{
  Ask, after, HumanAsked, terminal_left, human_active_reached,
}
use plataforma_saa_s_de_auto.Conversations.Machine.LeadRuns.{
  LeadAsk, lead_after, no_contact_left, no_contact_reachable, settled_stays,
}
use plataforma_saa_s_de_auto.Conversations.Machine.HandoffRuns.{
  handoff_after, visited, resolved_after_accepted,
}

-- What a run of the machines computes with.
run : Unit {0}
unfolding is_blank contains decide after conversation_allowed is_terminal required_cause
    conversation_transition lead_allowed is_settled lead_transition lead_after handoff_allowed
    is_active handoff_transition handoff_after visited ConversationState-discrete
    TransitionActor-discrete HandoffStatus-discrete LeadState-discrete
run = tt

-- The automation is refused, the advisor is not.
abbrev reopening : List Ask
reopening =
    record {
      target = ConversationState.opened;
      actor = TransitionActor.system;
      cause = "manual_reopen";
    }
    ∷ record {
      target = ConversationState.opened;
      actor = TransitionActor.human;
      cause = "manual_reopen";
    }
    ∷ []

reopened : after ConversationState.closed reopening ≡ ConversationState.opened
unfolding run
reopened = refl

closed_left : after ConversationState.closed reopening ≢ ConversationState.closed
closed_left = λ e. cc reopened

terminal_left_example :
    HumanAsked ConversationState.opened
      (λ c.
        ((ConversationState.closed ≡ ConversationState.do_not_contact)
          × (c ≡ "explicit_consent_restored"))
        ⊎ ((ConversationState.closed ≡ ConversationState.closed) × (c ≡ "manual_reopen")))
      reopening
terminal_left_example = terminal_left ConversationState.closed reopening (inr refl) closed_left

abbrev takeover : List Ask
takeover =
    record {
      target = ConversationState.waiting_human;
      actor = TransitionActor.system;
      cause = "handoff";
    }
    ∷ record {
      target = ConversationState.human_active;
      actor = TransitionActor.human;
      cause = "accepted";
    }
    ∷ []

taken : after ConversationState.qualifying takeover ≡ ConversationState.human_active
unfolding run
taken = refl

human_active_reached_example :
    HumanAsked ConversationState.human_active (λ c. is_blank c ≡ false) takeover
human_active_reached_example =
    human_active_reached ConversationState.qualifying takeover (λ e. cc) taken

abbrev restoring : List LeadAsk
restoring =
    record {
      target = LeadState.in_conversation;
      actor = TransitionActor.human;
      cause = "explicit_consent_restored";
    }
    ∷ []

restored : lead_after LeadState.do_not_contact restoring ≡ LeadState.in_conversation
unfolding run
restored = refl

left_no_contact : lead_after LeadState.do_not_contact restoring ≢ LeadState.do_not_contact
left_no_contact = λ e. cc restored

no_contact_left_example :
    (a : LeadAsk) × Memᴰ a restoring
    × (a.actor ≡ TransitionActor.human)
    × (a.target ≡ LeadState.in_conversation)
    × (a.cause ≡ "explicit_consent_restored")
no_contact_left_example = no_contact_left restoring left_no_contact

opt_out_has_cause : is_blank "customer_opt_out" ≡ false
unfolding run
opt_out_has_cause = refl

-- A qualified lead that is lost, and that nothing leads on from but a no-contact request.
abbrev losing : List LeadAsk
losing =
    record { target = LeadState.lost; actor = TransitionActor.human; cause = "competitor" }
    ∷ record { target = LeadState.qualified; actor = TransitionActor.worker; cause = "again" }
    ∷ []

lost_at_last : lead_after LeadState.qualified losing ≡ LeadState.lost
unfolding run
lost_at_last = refl

no_contact_reachable_example :
    lead_transition
      (lead_after LeadState.qualified losing)
      LeadState.do_not_contact
      TransitionActor.system
      "customer_opt_out"
    ≡ ok LeadState.do_not_contact
no_contact_reachable_example =
    no_contact_reachable LeadState.qualified losing TransitionActor.system "customer_opt_out"
      (λ e. cc) (λ e. cc) (λ e. cc) opt_out_has_cause

duplicate_is_settled : is_settled LeadState.duplicate ≡ true
unfolding run
duplicate_is_settled = refl

settled_stays_example : lead_after LeadState.duplicate restoring ≡ LeadState.duplicate
settled_stays_example = settled_stays LeadState.duplicate restoring duplicate_is_settled

abbrev handled : List HandoffStatus
handled =
    HandoffStatus.queued ∷ HandoffStatus.assigned ∷ HandoffStatus.accepted ∷ HandoffStatus.resolved
    ∷ []

handled_resolves : handoff_after HandoffStatus.requested handled ≡ HandoffStatus.resolved
unfolding run
handled_resolves = refl

resolved_after_accepted_example :
    Memᴰ HandoffStatus.accepted (visited HandoffStatus.requested handled)
resolved_after_accepted_example =
    resolved_after_accepted HandoffStatus.requested handled (λ e. cc) handled_resolves

-- A message, a handoff, and a message after it.
abbrev taken_back : List Message
taken_back =
    record { no_contact = false; handoff = false; question = false }
    ∷ record { no_contact = false; handoff = true; question = false }
    ∷ record { no_contact = false; handoff = false; question = false }
    ∷ []

-- A question cannot be the first that is asked, but may follow those messages.
first_question_refused :
    (moved_to (advance_conversation ConversationState.opened false false true) ≡ none)
    × (readied false taken_back ≡ true)
unfolding ended contains decide ConversationState-discrete readied
first_question_refused = (advance_exact ConversationState.opened false false true, refl)

-- A request for an advisor, a no-contact request, and a question that is not asked any more.
abbrev heard : List Message
heard =
    record { no_contact = false; handoff = true; question = false }
    ∷ record { no_contact = true; handoff = false; question = false }
    ∷ record { no_contact = false; handoff = false; question = true }
    ∷ []

new_is_worked : is_worked LeadState.new ≡ true
unfolding is_worked contains decide LeadState-discrete
new_is_worked = refl

worked_lead_advances_example :
    let t =
      lead_target buyer_result.explanation.missing_information buyer_result.classification false in
    (advance_lead LeadState.new buyer_result false ≡ ok t) × (false ≡ false → is_worked t ≡ true)
worked_lead_advances_example = worked_lead_advances LeadState.new buyer_result false new_is_worked
