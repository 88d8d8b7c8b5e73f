-- ===== src/Conversations/Machine/LeadRuns.antt =====
-- Sequences of requests to the lead's state machine.
use plataforma_saa_s_de_auto.Prelude.{
  Bool, true, false, ◌≡◌, ◌≢◌, refl, subst, ◌⊎◌, inl, inr, String, List, [], ◌∷◌, contains, decide,
  ◌==◌, string_eq, eq_self, eq_of_true, ne_of_false, arith, Bool-cases, Memᴰ, not, All, All-mem,
  mem_of_contains, false_of_ne,
}
use plataforma_saa_s_de_auto.Prelude.Text.{is_blank}
use plataforma_saa_s_de_auto.Errors.{ok, keep_or, Result-cases}
use plataforma_saa_s_de_auto.LeadQualification.Vocabulary.{
  LeadState, lead_state_eq, LeadState-discrete,
}
use plataforma_saa_s_de_auto.Conversations.Vocabulary.{TransitionActor, transition_actor_eq}
use plataforma_saa_s_de_auto.Conversations.Machine.Lead.{lead_allowed, is_settled, lead_transition}

pub record LeadAsk : Type 0 where
  pub target : LeadState
  pub actor : TransitionActor
  pub cause : String

unfoldable pub lead_after : LeadState → List LeadAsk → LeadState
lead_after s [] = s
lead_after s (a ∷ rest) = lead_after (keep_or s (lead_transition s a.target a.actor a.cause)) rest

-- Not new, sale_completed or duplicate.
unfoldable pub is_underway : LeadState → Bool
is_underway s =
    not (contains (LeadState.new ∷ LeadState.sale_completed ∷ LeadState.duplicate ∷ []) s)

edges_underway :
    (s : LeadState) → is_underway s ≡ true → All (λ t. is_underway t ≡ true) (lead_allowed s)
unfolding is_underway lead_allowed contains decide LeadState-discrete
edges_underway LeadState.in_conversation h = (refl, (refl, (refl, (refl, (refl, (refl, tt))))))
edges_underway LeadState.qualifying h = (refl, (refl, (refl, (refl, (refl, (refl, tt))))))
edges_underway LeadState.incomplete_information h = (refl, (refl, (refl, (refl, (refl, tt)))))
edges_underway LeadState.qualified h = (refl, (refl, (refl, (refl, (refl, (refl, tt))))))
edges_underway LeadState.quote_requested h = (refl, (refl, (refl, (refl, tt))))
edges_underway LeadState.transferred_to_advisor h = (refl, (refl, (refl, (refl, (refl, tt)))))
edges_underway LeadState.contacted_by_advisor h = (refl, (refl, (refl, (refl, (refl, tt)))))
edges_underway LeadState.new h = cc
edges_underway _ h = tt

accepted_cases :
    (s t r : LeadState) (a : TransitionActor) (cause : String)
    → lead_transition s t a cause ≡ ok r
    → (r ≡ s)
      ⊎ ((r ≡ LeadState.do_not_contact)
          ⊎ ((r ≡ LeadState.in_conversation) ⊎ (contains (lead_allowed s) r ≡ true)))
unfolding lead_transition
accepted_cases s t r a cause h =
    ground (arith, eq_of_true t LeadState.do_not_contact, eq_of_true t LeadState.in_conversation)

accepted_underway :
    (s t r : LeadState) (a : TransitionActor) (cause : String)
    → is_underway s ≡ true
    → lead_transition s t a cause ≡ ok r
    → is_underway r ≡ true
unfolding is_underway contains decide LeadState-discrete
accepted_underway s t r a cause h e = elim (accepted_cases s t r a cause e) [
  | inl same ↦ rw same h
  | inr (inl p) ↦ rw p
  | inr (inr (inl p)) ↦ rw p
  | inr (inr (inr edge)) ↦
      All-mem (λ x. is_underway x ≡ true) r (lead_allowed s) (edges_underway s h)
        (mem_of_contains r (lead_allowed s) edge)
]

lead_after_underway :
    (s : LeadState) (asks : List LeadAsk)
    → is_underway s ≡ true
    → is_underway (lead_after s asks) ≡ true
unfolding lead_after
lead_after_underway s [] h = h
lead_after_underway s (a ∷ asks) h =
    elim (Result-cases (lead_transition s a.target a.actor a.cause)) [
      | inl (r, e) ↦
          rw e (lead_after_underway r asks (accepted_underway s a.target r a.actor a.cause h e))
      | inr (x, e) ↦ rw e (lead_after_underway s asks h)
    ]

underway_stops :
    (s : LeadState) (a : TransitionActor) (cause : String)
    → is_underway s ≡ true
    → is_blank cause ≡ false
    → lead_transition s LeadState.do_not_contact a cause ≡ ok LeadState.do_not_contact
unfolding lead_transition is_settled is_underway contains decide LeadState-discrete
underway_stops LeadState.new a cause h full = cc
underway_stops LeadState.in_conversation a cause h full = rw full refl
underway_stops LeadState.qualifying a cause h full = rw full refl
underway_stops LeadState.incomplete_information a cause h full = rw full refl
underway_stops LeadState.qualified a cause h full = rw full refl
underway_stops LeadState.pending_validation a cause h full = rw full refl
underway_stops LeadState.pending_documents a cause h full = rw full refl
underway_stops LeadState.pending_inventory a cause h full = rw full refl
underway_stops LeadState.pending_coverage a cause h full = rw full refl
underway_stops LeadState.pending_financing a cause h full = rw full refl
underway_stops LeadState.not_eligible a cause h full = rw full refl
underway_stops LeadState.quote_requested a cause h full = rw full refl
underway_stops LeadState.quote_sent a cause h full = rw full refl
underway_stops LeadState.transferred_to_advisor a cause h full = rw full refl
underway_stops LeadState.contacted_by_advisor a cause h full = rw full refl
underway_stops LeadState.portability_started a cause h full = rw full refl
underway_stops LeadState.contracting_started a cause h full = rw full refl
underway_stops LeadState.sale_completed a cause h full = cc
underway_stops LeadState.lost a cause h full = rw full refl
underway_stops LeadState.do_not_contact a cause h full = rw full refl
underway_stops LeadState.duplicate a cause h full = cc

underway_of_ne :
    (s : LeadState)
    → s ≢ LeadState.new
    → s ≢ LeadState.sale_completed
    → s ≢ LeadState.duplicate
    → is_underway s ≡ true
unfolding is_underway contains
underway_of_ne s n1 n2 n3 =
    rw (false_of_ne s LeadState.new n1, false_of_ne s LeadState.sale_completed n2)
      (rw (false_of_ne s LeadState.duplicate n3) refl)

-- A lead that is neither new nor sale_completed nor duplicate can always be taken out of contact:
-- after any run of requests, accepted or refused, a request for do_not_contact with a cause gives
-- do_not_contact, whatever the actor.
pub no_contact_reachable :
    (s : LeadState) (asks : List LeadAsk) (a : TransitionActor) (cause : String)
    → s ≢ LeadState.new
    → s ≢ LeadState.sale_completed
    → s ≢ LeadState.duplicate
    → is_blank cause ≡ false
    → lead_transition (lead_after s asks) LeadState.do_not_contact a cause
      ≡ ok LeadState.do_not_contact
no_contact_reachable s asks a cause not_new not_completed not_duplicate full =
    underway_stops (lead_after s asks) a cause
      (lead_after_underway s asks (underway_of_ne s not_new not_completed not_duplicate)) full

consent_needed :
    (t r : LeadState) (a : TransitionActor) (cause : String)
    → lead_transition LeadState.do_not_contact t a cause ≡ ok r
    → r ≢ LeadState.do_not_contact
    → ((a == TransitionActor.human) ≡ true)
      × ((cause == "explicit_consent_restored") ≡ true)
      × ((t == LeadState.in_conversation) ≡ true)
unfolding lead_transition
consent_needed t r a cause h n = ground (
  arith,
  eq_self LeadState.do_not_contact,
  eq_of_true t LeadState.do_not_contact,
  eq_of_true LeadState.do_not_contact t,
)

-- A run of requests takes a lead out of do_not_contact only if a human asked for in_conversation
-- with the cause explicit_consent_restored.
pub no_contact_left :
    (asks : List LeadAsk)
    → lead_after LeadState.do_not_contact asks ≢ LeadState.do_not_contact
    → (a : LeadAsk) × Memᴰ a asks
      × (a.actor ≡ TransitionActor.human)
      × (a.target ≡ LeadState.in_conversation)
      × (a.cause ≡ "explicit_consent_restored")
unfolding lead_after
no_contact_left [] n = absurd (n refl)
no_contact_left (a ∷ asks) n =
    elim (Result-cases (lead_transition LeadState.do_not_contact a.target a.actor a.cause)) [
      | inl (r, e) ↦ elim (Bool-cases (r == LeadState.do_not_contact)) [
        | inl t ↦
            let same : r ≡ LeadState.do_not_contact = eq_of_true r LeadState.do_not_contact t in
            let n' : lead_after LeadState.do_not_contact asks ≢ LeadState.do_not_contact =
              subst (λ q. lead_after q asks ≢ LeadState.do_not_contact) same (rw e at n) in
            let (b, m, who, what, why) = no_contact_left asks n' in (b, Memᴰ.tail m, who, what, why)
        | inr f ↦
            let (who, why, what) =
              consent_needed a.target r a.actor a.cause e
                (ne_of_false r LeadState.do_not_contact f) in
            (
              a,
              Memᴰ.head refl,
              eq_of_true a.actor TransitionActor.human who,
              eq_of_true a.target LeadState.in_conversation what,
              eq_of_true a.cause "explicit_consent_restored" why,
            )
      ]
      | inr (x, e) ↦
          let (b, m, who, what, why) = no_contact_left asks (rw e at n) in
          (b, Memᴰ.tail m, who, what, why)
    ]

-- No entry of the table leads on from the state.
abbrev pub HasNoEdge : LeadState → Type 0
HasNoEdge s = lead_allowed s ≡ []

no_edge_step :
    (s t r : LeadState) (a : TransitionActor) (cause : String)
    → HasNoEdge s
    → s ≢ LeadState.do_not_contact
    → lead_transition s t a cause ≡ ok r
    → (r ≡ s) ⊎ ((r ≡ LeadState.do_not_contact) × (is_settled s ≡ false))
unfolding lead_transition contains
no_edge_step s t r a cause h n e =
    ground (arith, eq_of_true t LeadState.do_not_contact, eq_of_true s LeadState.do_not_contact)

settled_no_edge :
    (s : LeadState) → is_settled s ≡ true → HasNoEdge s × (s ≢ LeadState.do_not_contact)
unfolding is_settled contains decide LeadState-discrete lead_allowed
settled_no_edge LeadState.sale_completed h = (refl, (λ e. cc))
settled_no_edge LeadState.duplicate h = (refl, (λ e. cc))
settled_no_edge _ h = cc

-- A lead that is sale_completed or duplicate stays so, whatever is asked and by whom.
pub settled_stays :
    (s : LeadState) (asks : List LeadAsk) → is_settled s ≡ true → lead_after s asks ≡ s
unfolding lead_after
settled_stays s [] h = refl
settled_stays s (a ∷ asks) h = elim (Result-cases (lead_transition s a.target a.actor a.cause)) [
  | inl (r, e) ↦
      let (none_out, other) = settled_no_edge s h in
      elim (no_edge_step s a.target r a.actor a.cause none_out other e) [
        | inl same ↦ rw (e, same) (settled_stays s asks h)
        | inr (no_contact, open_state) ↦ cc
      ]
  | inr (x, e) ↦ rw e (settled_stays s asks h)
]
