-- ===== src/Extraction/StopRequest.antt =====
-- From a no-contact control of an extraction to the signal of the request that `apply` of
-- telecom_extraction/processing.py (src/saas_platform/modules) makes, and what the degraded mode returns.
use plataforma_saa_s_de_auto.Prelude.{
  Bool, true, ◌≡◌, refl, sym, ap, ◌∙◌, subst, String, none, List, [], ◌∷◌, map, Memᴰ, false_of_ne,
  arith, ℤ, ◌≤ℤ◌, leb_ℤ,
}
use plataforma_saa_s_de_auto.Prelude.Dict.{mem_of_get}
use plataforma_saa_s_de_auto.Errors.{ok, for_each, >>-ok, >>=-ok}
use plataforma_saa_s_de_auto.Foundation.{Uuid, DateTime, hundredths}
use plataforma_saa_s_de_auto.LeadQualification.Vocabulary.{
  SignalCode, signal_code_eq, ValidationStatus, validation_status_eq,
}
use plataforma_saa_s_de_auto.LeadQualification.Request.{
  CommercialSignal, is_usable, commercial_signal_post_init,
}
use plataforma_saa_s_de_auto.Extraction.Vocabulary.{SpecialControl}
use plataforma_saa_s_de_auto.Extraction.Domain.{
  SpecialControlFinding, ResolvedField, ResolvedSignal, ExtractionContradiction, AcceptedExtraction,
  accepted_extraction_post_init, extracted_opportunity_post_init,
}
use plataforma_saa_s_de_auto.Extraction.Confidence.{ConfidencePolicy}
use plataforma_saa_s_de_auto.Extraction.Command.{
  NormalizedExtraction, TelecomExtractionCommand, ProfileUpdateProposal,
  normalized_extraction_post_init,
}
use plataforma_saa_s_de_auto.Extraction.Decisions.Accept.{
  accept, accepted_extraction, accepted_controls, is_accepted_control,
}
use plataforma_saa_s_de_auto.Extraction.AcceptedControls.{accepted_controls_heaviest}
use plataforma_saa_s_de_auto.Extraction.Mapper.{
  Candidate, commercial_signal, signal_candidates, signals_of,
}
use plataforma_saa_s_de_auto.Extraction.StopSignal.{signal_candidates_stop}
use plataforma_saa_s_de_auto.Extraction.Proposal.{Origin, apply}
use plataforma_saa_s_de_auto.Extraction.Kept.{propose_ok, apply_ok}
use plataforma_saa_s_de_auto.Extraction.Context.Request.{PreparedExtractionContext}
use plataforma_saa_s_de_auto.Extraction.Context.Found.{IsCertain}
use plataforma_saa_s_de_auto.Extraction.Degraded.{
  degraded_extraction, degraded_acceptance, degraded, last_id,
}

mem-map : {A B : Type 0} (f : A → B) (x : A) (xs : List A) → Memᴰ x xs → Memᴰ (f x) (map f xs)
mem-map f x [] m = elim m [ ]
mem-map f x (y ∷ xs) (Memᴰ.head e) = Memᴰ.head (ap f e)
mem-map f x (y ∷ xs) (Memᴰ.tail m) = Memᴰ.tail (mem-map f x xs m)

-- The accepted controls have a no-contact control, and every such control has at least the least
-- usable confidence.
abbrev pub AcceptsNoContact : List SpecialControlFinding → Type 0
AcceptsNoContact controls =
    ((g : SpecialControlFinding) × Memᴰ g controls × (g.control ≡ SpecialControl.do_not_contact))
    × ((g : SpecialControlFinding)
        → Memᴰ g controls
        → g.control ≡ SpecialControl.do_not_contact
        → hundredths 70 ≤ℤ g.confidence)

enough_of : (a b : ℤ) → a ≤ℤ b → leb_ℤ a b ≡ true
enough_of a b h = ground arith

candidate_is_usable :
    (now : DateTime) (c : Candidate)
    → hundredths 70 ≤ℤ c.0
    → is_usable (commercial_signal now (SignalCode.do_not_contact, c)) (hundredths 70) ≡ true
unfolding is_usable commercial_signal
candidate_is_usable now c enough =
    rw
      (
        false_of_ne ValidationStatus.accepted ValidationStatus.rejected (λ p. cc p),
        false_of_ne ValidationStatus.accepted ValidationStatus.confirmed (λ p. cc p),
      )
      (enough_of (hundredths 70) c.0 enough)

pub request_signal :
    (command : TelecomExtractionCommand) (e : AcceptedExtraction) (origin : Origin) (now : DateTime)
    (u : ProfileUpdateProposal)
    → apply command e origin now ≡ ok u
    → AcceptsNoContact e.controls
    → (s : CommercialSignal) × Memᴰ s u.qualification_request.signals
      × (is_usable s (hundredths 70) ≡ true)
      × (s.code ≡ SignalCode.do_not_contact)
unfolding signals_of
request_signal command e origin now u applied ((g, m, same), enough) =
    let (a, conflicts, o, added, recorded, proposed) = apply_ok command e origin now u applied in
    let (profile, asked, previous, sent) =
      propose_ok command e origin now a conflicts o u proposed in
    let (c, there, weight) = signal_candidates_stop (hundredths 70) e g enough m same in
    let d = signal_candidates e in
    let (valid, last) =
      >>-ok (for_each commercial_signal_post_init (map (commercial_signal now) d)) _ sent in
    let listed : map (commercial_signal now) d ≡ u.qualification_request.signals = cc last in
    (
      commercial_signal now (SignalCode.do_not_contact, c),
      subst (λ l. Memᴰ (commercial_signal now (SignalCode.do_not_contact, c)) l) listed
          (mem-map (commercial_signal now) (SignalCode.do_not_contact, c) d
            (mem_of_get SignalCode.do_not_contact c d there)),
      candidate_is_usable now c weight,
      refl,
    )

seventy : (x : ℤ) → hundredths 100 ≤ℤ x → hundredths 70 ≤ℤ x
seventy x h = omega (arith, h)

pub accept_controls :
    (is_sensitive : String → Bool) (p : ConfidencePolicy) (n : NormalizedExtraction)
    (fields : List ResolvedField) (cs : List ExtractionContradiction)
    (signals : List ResolvedSignal) (command : TelecomExtractionCommand) (e : AcceptedExtraction)
    (f : SpecialControlFinding)
    → accept is_sensitive p n fields cs signals command ≡ ok e
    → Memᴰ f n.controls
    → f.control ≡ SpecialControl.do_not_contact
    → IsCertain f
    → AcceptsNoContact e.controls
unfolding accept accepted_extraction is_accepted_control
accept_controls is_sensitive p n fields cs signals command e f accepted m same (sure, whole) =
    let made = accepted_extraction is_sensitive p n fields cs signals command in
    let (valid, last) = >>-ok (accepted_extraction_post_init made) _ accepted in
    let controls : accepted_controls p n.controls ≡ e.controls = cc last in
    let ((g, there, own), heaviest) = accepted_controls_heaviest p n.controls f m (rw sure refl) in
    (
      (g, subst (λ l. Memᴰ g l) controls there, own ∙ same),
      λ h n' control.
          let most = heaviest h (subst (λ l. Memᴰ h l) (sym controls) n') (control ∙ sym same) in
          seventy h.confidence (subst (λ x. x ≤ℤ h.confidence) whole most),
    )

-- What the degraded mode returns: an acceptance of the fallback, and what it proposes.
pub degraded_ok :
    (is_sensitive : String → Bool) (p : ConfidencePolicy) (command : TelecomExtractionCommand)
    (prepared : PreparedExtractionContext) (codes : List String) (origin : Origin) (now : DateTime)
    (e : AcceptedExtraction) (u : ProfileUpdateProposal)
    → degraded is_sensitive p command prepared codes origin now ≡ ok (e, u)
    → (source : Uuid) × (accepted : AcceptedExtraction) × (accept is_sensitive p
          (degraded_extraction command prepared source codes)
          []
          []
          []
          command
        ≡ ok accepted)
      × (accepted.controls ≡ e.controls)
      × (apply command e origin now ≡ ok u)
unfolding degraded degraded_acceptance
degraded_ok is_sensitive p command prepared codes origin now e u ran =
    let (taken, mode, rest) =
      >>=-ok (degraded_acceptance is_sensitive p command prepared codes) _ ran in
    let (update, applied, last) = >>=-ok (apply command taken origin now) _ rest in
    let (source, there, rest') = >>=-ok (last_id prepared.original_messages) _ mode in
    let fallback = degraded_extraction command prepared source codes in
    let (valid, rest2) = >>-ok (extracted_opportunity_post_init fallback.opportunity) _ rest' in
    let (valid', made) = >>-ok (normalized_extraction_post_init fallback) _ rest2 in
    let (accepted, done, rest3) = >>=-ok (accept is_sensitive p fallback [] [] [] command) _ made in
    let (valid2, last') =
      >>-ok (accepted_extraction_post_init (record accepted { next_question = none })) _ rest3 in
    let silent : record accepted { next_question = none } ≡ taken = cc last' in
    let same : taken ≡ e = cc last in
    let updated : update ≡ u = cc last in
    (
      source,
      accepted,
      done,
      ap (λ (x : AcceptedExtraction). x.controls) (silent ∙ same),
      ap (λ x. apply command x origin now) (sym same) ∙ applied ∙ ap ok updated,
    )
