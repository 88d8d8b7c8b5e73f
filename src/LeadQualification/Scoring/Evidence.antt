-- ===== src/LeadQualification/Scoring/Evidence.antt =====
-- The loop of `_usable_signals` of lead_qualification/scoring.py.
use plataforma_saa_s_de_auto.Prelude.{
  true, false, ◌≡◌, refl, sym, ap, ◌∙◌, subst, inl, inr, some, List, [], ◌∷◌, Memᴰ, Bool-cases,
  Option-cases, arith, lex_ℤ_asymm, lex_ℤ_not_trans, lex_ℤ_self, ◌==◌, eq_of_true,
}
use plataforma_saa_s_de_auto.Prelude.Sort.{IsWeakOrder}
use plataforma_saa_s_de_auto.Prelude.Dict.{Dict, get, put, get-put_self, get-put_ne}
use plataforma_saa_s_de_auto.Foundation.{Decimal}
use plataforma_saa_s_de_auto.LeadQualification.Vocabulary.{SignalCode, signal_code_eq}
use plataforma_saa_s_de_auto.LeadQualification.Policy.{ScoringPolicy}
use plataforma_saa_s_de_auto.LeadQualification.Request.{
  CommercialSignal, is_usable, QualificationRequest,
}
use plataforma_saa_s_de_auto.LeadQualification.Scoring.Signals.{
  rank_lt, validation_rank, replaces, select_signal, select_signals, usable_signals,
}

rank_lt-IsWeakOrder : IsWeakOrder rank_lt
unfolding rank_lt
rank_lt-IsWeakOrder = record {
  asymm =
      λ a b. lex_ℤ_asymm _ _ _ _ (lex_ℤ_asymm a.confidence b.confidence _ _ (λ h. ground arith));
  not_trans = λ a b c.
      lex_ℤ_not_trans _ _ _ _ _ _
        (lex_ℤ_not_trans a.confidence b.confidence c.confidence _ _ _ (λ h k. ground arith));
}

rank_lt_irrefl : (a : CommercialSignal) → rank_lt a a ≡ false
unfolding rank_lt
rank_lt_irrefl a =
    rw (lex_ℤ_self (validation_rank a.validation_status))
      (rw (lex_ℤ_self a.confidence) (ground arith))

abbrev Selected : Type 0
Selected = Dict SignalCode CommercialSignal

module _ (minimum : Decimal) where
  -- The table has, for the signal's code, a signal that it does not outrank.
  abbrev Covered : CommercialSignal → Selected → Type 0
  Covered t sel = (s : CommercialSignal) × (get t.code sel ≡ some s) × (rank_lt s t ≡ false)

  step_covers :
      (s0 : CommercialSignal) (sel : Selected)
      → is_usable s0 minimum ≡ true
      → Covered s0 (select_signal minimum s0 sel)
  unfolding select_signal
  step_covers s0 sel u = elim (Option-cases (get s0.code sel)) [
    | inl e ↦ rw (u, e) (s0, get-put_self s0.code s0 sel, rank_lt_irrefl s0)
    | inr (c, e) ↦ elim (Bool-cases (rank_lt c s0)) [
      | inl lower ↦ rw (u, e) (rw lower (s0, get-put_self s0.code s0 sel, rank_lt_irrefl s0))
      | inr kept ↦ rw u (rw e (rw kept (c, e, kept)))
    ]
  ]

  put_keeps :
      (s0 t : CommercialSignal) (sel : Selected)
      → replaces s0 (get s0.code sel) ≡ true
      → Covered t sel
      → Covered t (put s0.code s0 sel)
  unfolding replaces
  put_keeps s0 t sel r (s, e, low) = elim (Bool-cases (t.code == s0.code)) [
    | inl same ↦
        let p = eq_of_true t.code s0.code same in
        let at_code : get s0.code sel ≡ some s = subst (λ k. get k sel ≡ some s) p e in
        let raised : rank_lt s s0 ≡ true = rw at_code at r in
        (
          s0,
          subst (λ k. get k (put s0.code s0 sel) ≡ some s0) (sym p) (get-put_self s0.code s0 sel),
          rank_lt-IsWeakOrder.not_trans s0 s t (rank_lt-IsWeakOrder.asymm s s0 raised) low,
        )
    | inr other ↦ (s, get-put_ne t.code s0.code s0 sel other ∙ e, low)
  ]

  step_keeps :
      (s0 t : CommercialSignal) (sel : Selected)
      → Covered t sel
      → Covered t (select_signal minimum s0 sel)
  unfolding select_signal
  step_keeps s0 t sel c = elim (Bool-cases (is_usable s0 minimum)) [
    | inl u ↦ elim (Bool-cases (replaces s0 (get s0.code sel))) [
      | inl r ↦ rw (u, r) (put_keeps s0 t sel r c)
      | inr k ↦ rw (u, k) c
    ]
    | inr n ↦ rw n c
  ]

  loop_keeps :
      (ss : List CommercialSignal) (t : CommercialSignal) (sel : Selected)
      → Covered t sel
      → Covered t (select_signals minimum ss sel)
  unfolding select_signals
  loop_keeps [] t sel c = c
  loop_keeps (s ∷ ss) t sel c = loop_keeps ss t (select_signal minimum s sel) (step_keeps s t sel c)

  loop_covers :
      (ss : List CommercialSignal) (t : CommercialSignal) (sel : Selected)
      → Memᴰ t ss
      → is_usable t minimum ≡ true
      → Covered t (select_signals minimum ss sel)
  unfolding select_signals
  loop_covers [] t sel m u = elim m [ ]
  loop_covers (s ∷ ss) t sel (Memᴰ.head e) u =
      loop_keeps ss t (select_signal minimum s sel)
        (subst (λ x. Covered t (select_signal minimum x sel)) e (step_covers t sel u))
  loop_covers (s ∷ ss) t sel (Memᴰ.tail m) u = loop_covers ss t (select_signal minimum s sel) m u

  module _ (all_signals : List CommercialSignal) where
    -- Every entry of the table is a usable signal of the request, under its own code.
    abbrev IsSound : Selected → Type 0
    IsSound sel =
        (k : SignalCode) (s : CommercialSignal)
        → get k sel ≡ some s
        → Memᴰ s all_signals × (is_usable s minimum ≡ true) × (s.code ≡ k)

    put-IsSound :
        (s0 : CommercialSignal) (sel : Selected)
        → Memᴰ s0 all_signals
        → is_usable s0 minimum ≡ true
        → IsSound sel
        → IsSound (put s0.code s0 sel)
    put-IsSound s0 sel m u h k s e = elim (Bool-cases (k == s0.code)) [
      | inl same ↦
          let p = eq_of_true k s0.code same in
          let q : s0 ≡ s =
            cc
              (get-put_self s0.code s0 sel, subst (λ j. get j (put s0.code s0 sel) ≡ some s) p e) in
          (
            subst (λ x. Memᴰ x all_signals) q m,
            subst (λ x. is_usable x minimum ≡ true) q u,
            ap (λ (x : CommercialSignal). x.code) (sym q) ∙ sym p,
          )
      | inr other ↦ h k s (sym (get-put_ne k s0.code s0 sel other) ∙ e)
    ]

    step-IsSound :
        (s0 : CommercialSignal) (sel : Selected)
        → Memᴰ s0 all_signals
        → IsSound sel
        → IsSound (select_signal minimum s0 sel)
    unfolding select_signal
    step-IsSound s0 sel m h = elim (Bool-cases (is_usable s0 minimum)) [
      | inl u ↦ elim (Bool-cases (replaces s0 (get s0.code sel))) [
        | inl r ↦ rw (u, r) (put-IsSound s0 sel m u h)
        | inr k ↦ rw (u, k) h
      ]
      | inr n ↦ rw n h
    ]

    loop-IsSound :
        (ss : List CommercialSignal) (sel : Selected)
        → ((s : CommercialSignal) → Memᴰ s ss → Memᴰ s all_signals)
        → IsSound sel
        → IsSound (select_signals minimum ss sel)
    unfolding select_signals
    loop-IsSound [] sel f h = h
    loop-IsSound (s ∷ ss) sel f h =
        loop-IsSound ss (select_signal minimum s sel) (λ x m. f x (Memᴰ.tail m))
          (step-IsSound s sel (f s (Memᴰ.head refl)) h)

module _ (request : QualificationRequest) (p : ScoringPolicy) where
  -- The signal used for a code is a usable signal of the request with that code, and no usable
  -- signal of the request with that code outranks it.
  pub usable_signals_best :
      (k : SignalCode) (s : CommercialSignal)
      → get k (usable_signals request p) ≡ some s
      → Memᴰ s request.signals
        × (is_usable s p.minimum_signal_confidence ≡ true)
        × (s.code ≡ k)
        × ((t : CommercialSignal)
            → Memᴰ t request.signals
            → is_usable t p.minimum_signal_confidence ≡ true
            → t.code ≡ k
            → rank_lt s t ≡ false)
  unfolding usable_signals get
  usable_signals_best k s e =
      let minimum = p.minimum_signal_confidence in
      let (m, u, c) =
        loop-IsSound minimum request.signals request.signals [] (λ x m. m) (λ j x h. cc) k s e in
      (
        m,
        u,
        c,
        (λ t n v d.
            let (s', e', low) = loop_covers minimum request.signals t [] n v in
            let same : s' ≡ s = cc (
              e',
              subst (λ j. get j (select_signals minimum request.signals []) ≡ some s) (sym d) e,
            ) in
            subst (λ x. rank_lt x t ≡ false) same low),
      )

  -- Every usable signal of the request has its code among those used.
  pub usable_signals_complete :
      (t : CommercialSignal)
      → Memᴰ t request.signals
      → is_usable t p.minimum_signal_confidence ≡ true
      → (s : CommercialSignal) × (get t.code (usable_signals request p) ≡ some s)
  unfolding usable_signals
  usable_signals_complete t m u =
      let (s, e, low) = loop_covers p.minimum_signal_confidence request.signals t [] m u in (s, e)
