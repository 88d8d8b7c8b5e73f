-- ===== src/Conversations/Machine/HandoffRuns.antt =====
-- Sequences of requests to the handoff's state machine.
use plataforma_saa_s_de_auto.Prelude.{
  true, ◌≡◌, ◌≢◌, ◌↔◌, refl, sym, ◌∙◌, subst, inl, inr, List, [], ◌∷◌, contains, decide, ◌==◌,
  eq_of_true, ne_of_false, arith, Bool-cases, Memᴰ,
}
use plataforma_saa_s_de_auto.Errors.{ok, keep_or, Result-cases}
use plataforma_saa_s_de_auto.Conversations.Vocabulary.{
  HandoffStatus, handoff_status_eq, HandoffStatus-discrete,
}
use plataforma_saa_s_de_auto.Conversations.Machine.Handoff.{
  handoff_allowed, is_active, handoff_transition,
}

unfoldable pub handoff_after : HandoffStatus → List HandoffStatus → HandoffStatus
handoff_after s [] = s
handoff_after s (t ∷ ts) = handoff_after (keep_or s (handoff_transition s t)) ts

-- The states that a run goes through, its start included.
unfoldable pub visited : HandoffStatus → List HandoffStatus → List HandoffStatus
visited s [] = s ∷ []
visited s (t ∷ ts) = s ∷ visited (keep_or s (handoff_transition s t)) ts

-- Every active status has a transition, and an inactive one has none.
pub active_iff_moves :
    (s : HandoffStatus)
    → (is_active s ≡ true) ↔ ((t : HandoffStatus) × (handoff_transition s t ≡ ok t))
unfolding is_active handoff_transition handoff_allowed contains decide HandoffStatus-discrete
active_iff_moves HandoffStatus.requested = ((λ h. (HandoffStatus.queued, refl)), (λ w. refl))
active_iff_moves HandoffStatus.queued = ((λ h. (HandoffStatus.assigned, refl)), (λ w. refl))
active_iff_moves HandoffStatus.assigned = ((λ h. (HandoffStatus.accepted, refl)), (λ w. refl))
active_iff_moves HandoffStatus.accepted = ((λ h. (HandoffStatus.resolved, refl)), (λ w. refl))
active_iff_moves HandoffStatus.resolved = ((λ h. cc), (λ w. cc (w.1)))
active_iff_moves HandoffStatus.cancelled = ((λ h. cc), (λ w. cc (w.1)))
active_iff_moves HandoffStatus.expired = ((λ h. cc), (λ w. cc (w.1)))

resolved_from :
    (s r : HandoffStatus)
    → handoff_transition s HandoffStatus.resolved ≡ ok r
    → s ≡ HandoffStatus.accepted
unfolding handoff_transition handoff_allowed contains decide HandoffStatus-discrete
resolved_from HandoffStatus.accepted r h = refl
resolved_from _ r h = cc

target_of : (s t r : HandoffStatus) → handoff_transition s t ≡ ok r → r ≡ t
unfolding handoff_transition
target_of s t r h = ground arith

-- A run that ends in resolved went through accepted, or began in resolved.
pub resolved_after_accepted :
    (s : HandoffStatus) (ts : List HandoffStatus)
    → s ≢ HandoffStatus.resolved
    → handoff_after s ts ≡ HandoffStatus.resolved
    → Memᴰ HandoffStatus.accepted (visited s ts)
unfolding handoff_after visited
resolved_after_accepted s [] n h = absurd (n h)
resolved_after_accepted s (t ∷ ts) n h = elim (Result-cases (handoff_transition s t)) [
  | inl (r, e) ↦ elim (Bool-cases (t == HandoffStatus.resolved)) [
    | inl same ↦
        let p = eq_of_true t HandoffStatus.resolved same in
        Memᴰ.head (sym (resolved_from s r (subst (λ x. handoff_transition s x ≡ ok r) p e)))
    | inr f ↦
        let n' : r ≢ HandoffStatus.resolved =
          λ q. ne_of_false t HandoffStatus.resolved f (sym (target_of s t r e) ∙ q) in
        rw e (Memᴰ.tail (resolved_after_accepted r ts n' (rw e at h)))
  ]
  | inr (x, e) ↦ rw e (Memᴰ.tail (resolved_after_accepted s ts n (rw e at h)))
]
