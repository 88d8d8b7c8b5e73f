-- ===== src/Conversations/Processed.antt =====
-- The conversation over a sequence of processed messages, each moved by `_conversation_target` and the
-- transition of `_finalize`, telecom_conversations/application.py (src/saas_platform/modules). Where
-- the transition raises, the transaction is rolled back and the state stays.
use plataforma_saa_s_de_auto.Prelude.{
  Bool, true, false, not, ◌≡◌, refl, List, [], ◌∷◌, contains, decide, Memᴰ,
}
use mathlib.Core.List.Memᴰ
use plataforma_saa_s_de_auto.Prelude.Text.{is_blank, codes}
use plataforma_saa_s_de_auto.Errors.{keep_or}
use plataforma_saa_s_de_auto.Conversations.Vocabulary.{
  ConversationState, conversation_state_eq, ConversationState-discrete, TransitionActor-discrete,
}
use plataforma_saa_s_de_auto.Conversations.Machine.Conversation.{
  conversation_transition, conversation_allowed, is_terminal, required_cause,
}
use plataforma_saa_s_de_auto.Conversations.Processing.{
  advance_conversation, conversation_target, processing_cause,
}

-- What a message was: a no-contact request, a request for an advisor, or one that leaves a question.
pub record Message : Type 0 where
  pub no_contact : Bool
  pub handoff : Bool
  pub question : Bool

unfoldable pub advanced : ConversationState → Message → ConversationState
advanced s m = keep_or s (advance_conversation s m.no_contact m.handoff m.question)

unfoldable pub processed : ConversationState → List Message → ConversationState
unfolding advanced
processed s [] = s
processed s (m ∷ ms) = processed (advanced s m) ms

-- Neither closed nor do_not_contact.
unfoldable pub is_live : ConversationState → Bool
is_live s = not (contains (ConversationState.closed ∷ ConversationState.do_not_contact ∷ []) s)

computes : Unit {0}
unfolding advance_conversation conversation_target processing_cause conversation_transition
    conversation_allowed is_terminal required_cause is_live contains decide is_blank codes
    ConversationState-discrete TransitionActor-discrete
computes = tt

pub to_no_contact :
    (s : ConversationState) (handoff question : Bool)
    → is_live s ≡ true
    → keep_or s (advance_conversation s true handoff question) ≡ ConversationState.do_not_contact
unfolding computes
to_no_contact ConversationState.opened handoff question h = refl
to_no_contact ConversationState.qualifying handoff question h = refl
to_no_contact ConversationState.waiting_customer handoff question h = refl
to_no_contact ConversationState.waiting_human handoff question h = refl
to_no_contact ConversationState.human_active handoff question h = refl
to_no_contact ConversationState.automated_paused handoff question h = refl
to_no_contact ConversationState.do_not_contact handoff question h = refl
to_no_contact ConversationState.closed handoff question h = cc

stays_refused :
    (dnc handoff question : Bool)
    → keep_or ConversationState.do_not_contact
        (advance_conversation ConversationState.do_not_contact dnc handoff question)
      ≡ ConversationState.do_not_contact
unfolding computes
stays_refused true handoff question = refl
stays_refused false true question = refl
stays_refused false false true = refl
stays_refused false false false = refl

pub processed_refused :
    (ms : List Message)
    → processed ConversationState.do_not_contact ms ≡ ConversationState.do_not_contact
unfolding processed advanced
processed_refused [] = refl
processed_refused (m ∷ ms) =
    rw (stays_refused m.no_contact m.handoff m.question) (processed_refused ms)
