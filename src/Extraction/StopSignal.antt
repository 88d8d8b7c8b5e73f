-- ===== src/Extraction/StopSignal.antt =====
-- From a no-contact request that the extraction accepts to the signal of the qualification request:
-- `accept` and `apply` of telecom_extraction/processing.py (src/saas_platform/modules), and the answer of
-- the default policy of lead_qualification to that request.
use plataforma_saa_s_de_auto.Prelude.{
  false, ◌≡◌, refl, ap, ◌∙◌, subst, inl, inr, Option, none, some, List, [], ◌∷◌, Memᴰ, ◌==◌,
  eq_of_true, eq_self, false_of_ne, Bool-cases, ◌≤ℤ◌,
}
use plataforma_saa_s_de_auto.Prelude.Dict.{get, get-put_self, get-put_ne}
use plataforma_saa_s_de_auto.LeadQualification.Vocabulary.{SignalCode, signal_code_eq}
use plataforma_saa_s_de_auto.Foundation.{Decimal}
use plataforma_saa_s_de_auto.Extraction.Vocabulary.{SpecialControl, special_control_eq}
use plataforma_saa_s_de_auto.Extraction.Domain.{
  SpecialControlFinding, ExtractionContradiction, AcceptedExtraction,
}
use plataforma_saa_s_de_auto.Extraction.Mapper.{
  Candidate, Candidates, control_signal, control_candidate, put_control, put_controls,
  put_contradiction, set_if_absent, set_default, put_signals, signal_candidates, base_candidate,
  supported_code, intent_signal, urgency_signal, opportunity_signal,
}

-- The candidates have a no-contact signal of at least this confidence.
abbrev pub Stops : Decimal → Candidates → Type 0
Stops x d = (c : Candidate) × (get SignalCode.do_not_contact d ≡ some c) × (x ≤ℤ c.0)

control_signal_other :
    (c : SpecialControl)
    → (c == SpecialControl.do_not_contact) ≡ false
    → (code : SignalCode) → control_signal c ≡ some code
    → (SignalCode.do_not_contact == code) ≡ false
unfolding control_signal
control_signal_other SpecialControl.do_not_contact other code h =
    cc (eq_self SpecialControl.do_not_contact, other)
control_signal_other SpecialControl.human_requested other code h =
    false_of_ne SignalCode.do_not_contact code (λ p. cc (p, h))
control_signal_other _ other code h = cc h

put_control-Stops :
    (x : Decimal) (f : SpecialControlFinding) (d : Candidates)
    → f.control ≡ SpecialControl.do_not_contact
    → x ≤ℤ f.confidence
    → Stops x (put_control (control_signal f.control) f d)
unfolding put_control control_signal
put_control-Stops x f d same enough =
    rw same
      (control_candidate f, get-put_self SignalCode.do_not_contact (control_candidate f) d, enough)

put_other_keeps :
    (x : Decimal) (o : Option SignalCode) (f : SpecialControlFinding) (d : Candidates)
    → ((code : SignalCode) → o ≡ some code → (SignalCode.do_not_contact == code) ≡ false)
    → Stops x d
    → Stops x (put_control o f d)
unfolding put_control
put_other_keeps x none f d other s = s
put_other_keeps x (some code) f d other (c, there, enough) = (
  c,
  get-put_ne SignalCode.do_not_contact code (control_candidate f) d (other code refl) ∙ there,
  enough,
)

put_control_keeps :
    (x : Decimal) (f : SpecialControlFinding) (d : Candidates)
    → (f.control ≡ SpecialControl.do_not_contact → x ≤ℤ f.confidence)
    → Stops x d
    → Stops x (put_control (control_signal f.control) f d)
put_control_keeps x f d enough s = elim (Bool-cases (f.control == SpecialControl.do_not_contact)) [
  | inl t ↦
      let same = eq_of_true f.control SpecialControl.do_not_contact t in
      put_control-Stops x f d same (enough same)
  | inr n ↦ put_other_keeps x (control_signal f.control) f d (control_signal_other f.control n) s
]

put_controls_keep :
    (x : Decimal) (fs : List SpecialControlFinding) (d : Candidates)
    → ((f : SpecialControlFinding)
        → Memᴰ f fs
        → f.control ≡ SpecialControl.do_not_contact
        → x ≤ℤ f.confidence)
    → Stops x d
    → Stops x (put_controls fs d)
unfolding put_controls
put_controls_keep x [] d enough s = s
put_controls_keep x (f ∷ fs) d enough s =
    put_controls_keep x fs (put_control (control_signal f.control) f d)
      (λ g m. enough g (Memᴰ.tail m)) (put_control_keeps x f d (enough f (Memᴰ.head refl)) s)

put_controls_stop :
    (x : Decimal) (fs : List SpecialControlFinding) (d : Candidates) (g : SpecialControlFinding)
    → ((f : SpecialControlFinding)
        → Memᴰ f fs
        → f.control ≡ SpecialControl.do_not_contact
        → x ≤ℤ f.confidence)
    → Memᴰ g fs
    → g.control ≡ SpecialControl.do_not_contact
    → Stops x (put_controls fs d)
unfolding put_controls
put_controls_stop x [] d g enough m same = elim m [ ]
put_controls_stop x (f ∷ fs) d g enough (Memᴰ.head e) same =
    let here : f.control ≡ SpecialControl.do_not_contact =
      subst (λ (h : SpecialControlFinding). h.control ≡ SpecialControl.do_not_contact) e same in
    put_controls_keep x fs (put_control (control_signal f.control) f d)
      (λ h m. enough h (Memᴰ.tail m))
      (put_control-Stops x f d here (enough f (Memᴰ.head refl) here))
put_controls_stop x (f ∷ fs) d g enough (Memᴰ.tail m) same =
    put_controls_stop x fs (put_control (control_signal f.control) f d) g
      (λ h n. enough h (Memᴰ.tail n)) m same

put_contradiction_keeps :
    (x : Decimal) (cs : List ExtractionContradiction) (d : Candidates)
    → Stops x d
    → Stops x (put_contradiction cs d)
unfolding put_contradiction
put_contradiction_keeps x [] d s = s
put_contradiction_keeps x (c ∷ cs) d (k, there, enough) = (
  k,
  get-put_ne SignalCode.do_not_contact SignalCode.contradictory_information _ d
        (false_of_ne SignalCode.do_not_contact SignalCode.contradictory_information (λ p. cc p))
      ∙ there,
  enough,
)

set_default_keeps :
    (x : Decimal) (o : Option SignalCode) (c : Candidate) (d : Candidates)
    → Stops x d
    → Stops x (set_default o c d)
unfolding set_default set_if_absent
set_default_keeps x none c d s = s
set_default_keeps x (some code) c d (k, there, enough) = absent_keeps (get code d) refl
  where
    absent_keeps :
        (old : Option Candidate) → get code d ≡ old → Stops x (set_if_absent code c old d)
    absent_keeps (some old) e = (k, there, enough)
    absent_keeps none e = (
      k,
      get-put_ne SignalCode.do_not_contact code c d
            (false_of_ne SignalCode.do_not_contact code (λ p. cc (there, e, ap (λ j. get j d) p)))
          ∙ there,
      enough,
    )

-- An extraction that accepts a no-contact control of this confidence has that signal.
pub signal_candidates_stop :
    (x : Decimal) (e : AcceptedExtraction) (g : SpecialControlFinding)
    → ((f : SpecialControlFinding)
        → Memᴰ f e.controls
        → f.control ≡ SpecialControl.do_not_contact
        → x ≤ℤ f.confidence)
    → Memᴰ g e.controls
    → g.control ≡ SpecialControl.do_not_contact
    → Stops x (signal_candidates e)
unfolding signal_candidates
signal_candidates_stop x e g enough m same =
    let base = base_candidate e in
    set_default_keeps x (opportunity_signal e.opportunity.opportunity.primary) base _ (
      set_default_keeps x (supported_code e.urgency_treatment e (urgency_signal e.urgency)) base _ (
        set_default_keeps x (supported_code e.intent_treatment e (intent_signal e.intent)) base _ (
          put_contradiction_keeps x e.contradictions _
            (put_controls_stop x e.controls (put_signals e.signals []) g enough m same))))
