-- ===== src/Conversations/Machine/ConversationRuns.antt =====
-- Sequences of requests to the conversation's state machine. A refused request raises, so that the
-- caller keeps the state that it had.
use plataforma_saa_s_de_auto.Prelude.{
  ap, ◌⊎◌, true, false, ◌≡◌, ◌≢◌, refl, sym, ◌∙◌, inl, inr, String, List, [], ◌∷◌, contains, decide,
  ◌==◌, string_eq, eq_of_true, arith, Bool-cases, Memᴰ, ne_of_false,
}
use plataforma_saa_s_de_auto.Prelude.Text.{is_blank}
use plataforma_saa_s_de_auto.Errors.{ok, keep_or, Result-cases}
use plataforma_saa_s_de_auto.Conversations.Vocabulary.{
  ConversationState, TransitionActor, conversation_state_eq, transition_actor_eq,
  ConversationState-discrete,
}
use plataforma_saa_s_de_auto.Conversations.Machine.Conversation.{
  conversation_allowed, is_terminal, required_cause, conversation_transition,
}

pub record Ask : Type 0 where
  pub target : ConversationState
  pub actor : TransitionActor
  pub cause : String

unfoldable pub after : ConversationState → List Ask → ConversationState
after s [] = s
after s (a ∷ rest) = after (keep_or s (conversation_transition s a.target a.actor a.cause)) rest

-- What a request needs: a cause, an edge of the table, a human with the right cause to reopen, and a
-- human to take a conversation over.
pub record Permitted (s t : ConversationState) (a : TransitionActor) (cause : String) : Type 0 where
  pub has_cause : is_blank cause ≡ false
  pub edge : contains (conversation_allowed s) t ≡ true
  pub reopened :
      is_terminal s ≡ true
      → ((a == TransitionActor.human) ≡ true) × ((cause == required_cause s) ≡ true)
  pub taken_over :
      (t == ConversationState.human_active) ≡ true → (a == TransitionActor.human) ≡ true

Permitted-of_ok :
    (s t r : ConversationState) (a : TransitionActor) (cause : String)
    → conversation_transition s t a cause ≡ ok r
    → (r ≡ t) × Permitted s t a cause
unfolding conversation_transition
Permitted-of_ok s t r a cause h = ground arith

-- Some request of the list was made by a human, with this target and this cause.
abbrev pub HumanAsked : ConversationState → (String → Type 0) → List Ask → Type 0
HumanAsked t P asks =
    (a : Ask) × Memᴰ a asks × (a.actor ≡ TransitionActor.human) × (a.target ≡ t) × P a.cause

terminal_target :
    (s t : ConversationState)
    → is_terminal s ≡ true
    → contains (conversation_allowed s) t ≡ true
    → t ≡ ConversationState.opened
unfolding is_terminal conversation_allowed contains decide ConversationState-discrete
terminal_target ConversationState.do_not_contact t h e =
    eq_of_true t ConversationState.opened (ground arith)
terminal_target ConversationState.closed t h e =
    eq_of_true t ConversationState.opened (ground arith)
terminal_target ConversationState.opened t h e = cc
terminal_target ConversationState.qualifying t h e = cc
terminal_target ConversationState.waiting_customer t h e = cc
terminal_target ConversationState.waiting_human t h e = cc
terminal_target ConversationState.human_active t h e = cc
terminal_target ConversationState.automated_paused t h e = cc

reopening_asked :
    (s : ConversationState) (asks : List Ask)
    → is_terminal s ≡ true
    → after s asks ≢ s
    → HumanAsked ConversationState.opened (λ c. c ≡ required_cause s) asks
unfolding after
reopening_asked s [] h n = absurd (n refl)
reopening_asked s (a ∷ asks) h n =
    elim (Result-cases (conversation_transition s a.target a.actor a.cause)) [
      | inl (r, e) ↦
          let (same, p) = Permitted-of_ok s a.target r a.actor a.cause e in
          let (human, cause) = p.reopened h in
          (
            a,
            Memᴰ.head refl,
            eq_of_true a.actor TransitionActor.human human,
            terminal_target s a.target h p.edge,
            eq_of_true a.cause (required_cause s) cause,
          )
      | inr (x, e) ↦
          let (b, m, who, what, why) = reopening_asked s asks h (rw e at n) in
          (b, Memᴰ.tail m, who, what, why)
    ]

-- A run of requests takes a conversation out of do_not_contact only if a human asks to open it for
-- the cause explicit_consent_restored, and out of closed only if a human asks to open it for the
-- cause manual_reopen.
pub terminal_left :
    (s : ConversationState) (asks : List Ask)
    → (s ≡ ConversationState.do_not_contact) ⊎ (s ≡ ConversationState.closed)
    → after s asks ≢ s
    → HumanAsked ConversationState.opened
        (λ c.
          ((s ≡ ConversationState.do_not_contact) × (c ≡ "explicit_consent_restored"))
          ⊎ ((s ≡ ConversationState.closed) × (c ≡ "manual_reopen")))
        asks
unfolding is_terminal required_cause contains decide ConversationState-discrete
terminal_left s asks (inl p) n =
    let (a, m, who, what, why) = reopening_asked s asks (rw p) n in
    (a, m, who, what, inl (p, why ∙ ap required_cause p))
terminal_left s asks (inr p) n =
    let (a, m, who, what, why) = reopening_asked s asks (rw p) n in
    (a, m, who, what, inr (p, why ∙ ap required_cause p))

-- A run of requests reaches human_active from another state only if a human asked for it.
pub human_active_reached :
    (s : ConversationState) (asks : List Ask)
    → s ≢ ConversationState.human_active
    → after s asks ≡ ConversationState.human_active
    → HumanAsked ConversationState.human_active (λ c. is_blank c ≡ false) asks
unfolding after
human_active_reached s [] n h = absurd (n h)
human_active_reached s (a ∷ asks) n h =
    elim (Result-cases (conversation_transition s a.target a.actor a.cause)) [
      | inl (r, e) ↦
          let (same, p) = Permitted-of_ok s a.target r a.actor a.cause e in
          elim (Bool-cases (a.target == ConversationState.human_active)) [
            | inl t ↦ (
              a,
              Memᴰ.head refl,
              eq_of_true a.actor TransitionActor.human (p.taken_over t),
              eq_of_true a.target ConversationState.human_active t,
              p.has_cause,
            )
            | inr f ↦
                let h' = rw e at h in
                let (b, m, who, what, why) =
                  human_active_reached r asks
                    (λ q. ne_of_false a.target ConversationState.human_active f (sym same ∙ q))
                    h' in
                (b, Memᴰ.tail m, who, what, why)
          ]
      | inr (x, e) ↦
          let (b, m, who, what, why) = human_active_reached s asks n (rw e at h) in
          (b, Memᴰ.tail m, who, what, why)
    ]
