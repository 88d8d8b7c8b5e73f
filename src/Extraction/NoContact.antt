-- ===== src/Extraction/NoContact.antt =====
-- A no-contact request that telecom_extraction (src/saas_platform/modules) finds, and the answer of the
-- default policy of lead_qualification to what the extraction asks it to evaluate.
use plataforma_saa_s_de_auto.Prelude.{Bool, ◌≡◌, subst, String, Option, some, List, [], Memᴰ, ℤ}
use plataforma_saa_s_de_auto.Errors.{ok}
use plataforma_saa_s_de_auto.Foundation.{Uuid, TenantId, DateTime}
use plataforma_saa_s_de_auto.LeadQualification.Vocabulary.{
  OpportunityType, signal_code_eq, RecommendedAction, LeadState, validation_status_eq,
}
use plataforma_saa_s_de_auto.LeadQualification.Policy.{ScoringPolicy}
use plataforma_saa_s_de_auto.LeadQualification.Request.{QualificationResult}
use plataforma_saa_s_de_auto.LeadQualification.Scoring.Decision.{no_handoff}
use plataforma_saa_s_de_auto.LeadQualification.Scoring.Engine.{evaluate}
use plataforma_saa_s_de_auto.LeadQualification.DefaultPolicy.{build_default_telecom_policy}
use plataforma_saa_s_de_auto.LeadQualification.DefaultPolicy.NoContact.{default_no_contact}
use plataforma_saa_s_de_auto.Extraction.Vocabulary.{SpecialControl}
use plataforma_saa_s_de_auto.Extraction.Domain.{
  SpecialControlFinding, ResolvedField, ResolvedSignal, ExtractionContradiction, AcceptedExtraction,
}
use plataforma_saa_s_de_auto.Extraction.Confidence.{ConfidencePolicy}
use plataforma_saa_s_de_auto.Extraction.Command.{
  ConversationMessage, ContextLimits, NormalizedExtraction, TelecomExtractionCommand,
  ProfileUpdateProposal,
}
use plataforma_saa_s_de_auto.Extraction.Decisions.Accept.{accept}
use plataforma_saa_s_de_auto.Extraction.Proposal.{Origin, apply}
use plataforma_saa_s_de_auto.Extraction.Context.Patterns.{Pattern}
use plataforma_saa_s_de_auto.Extraction.Context.Request.{
  Rendering, PreparedExtractionContext, prepare,
}
use plataforma_saa_s_de_auto.Extraction.Context.Found.{IsCertain, Matches, controls_found}
use plataforma_saa_s_de_auto.Extraction.Context.Fits.{prepare_ok}
use plataforma_saa_s_de_auto.Extraction.Degraded.{degraded_extraction, degraded}
use plataforma_saa_s_de_auto.Extraction.StopRequest.{
  AcceptsNoContact, request_signal, accept_controls, degraded_ok,
}

-- The answer of the default policy to a request that a no-contact control asks for.
abbrev pub IsStopped : QualificationResult → Type 0
IsStopped r =
    (r.action ≡ RecommendedAction.stop_automation)
    × (r.handoff ≡ no_handoff)
    × (r.state_recommendation ≡ some LeadState.do_not_contact)

module _ (fingerprint : ScoringPolicy → String) (is_sensitive : String → Bool)
    (p : ConfidencePolicy) (render : Rendering) (search : Pattern → String → Option String)
    (sub : Pattern → String → String → String) where
  found_in :
      (limits : ContextLimits) (command : TelecomExtractionCommand) (now : DateTime)
      (prepared : PreparedExtractionContext) (m : ConversationMessage)
      → prepare render search sub limits command now ≡ ok prepared
      → Memᴰ m prepared.original_messages
      → Matches search SpecialControl.do_not_contact m
      → (f : SpecialControlFinding) × Memᴰ f prepared.deterministic_controls
        × (f.control ≡ SpecialControl.do_not_contact)
        × IsCertain f
  found_in limits command now prepared m h there match =
      let (nonempty, sent, original, found) =
        prepare_ok render search sub limits command now prepared h in
      controls_found search SpecialControl.do_not_contact m prepared.original_messages
        prepared.deterministic_controls found there match

  -- A message of the prepared context that matches a no-contact pattern stops the automation: where
  -- the extraction has the controls that the context found, and is accepted and applied, the default
  -- policy answers its request by stopping, with no handoff, and the lead is to become
  -- do_not_contact, whatever else the provider says.
  pub no_contact_obeyed :
      (limits : ContextLimits) (command : TelecomExtractionCommand) (now : DateTime)
      (prepared : PreparedExtractionContext) (m : ConversationMessage) (n : NormalizedExtraction)
      (fields : List ResolvedField) (cs : List ExtractionContradiction)
      (signals : List ResolvedSignal) (e : AcceptedExtraction) (origin : Origin)
      (u : ProfileUpdateProposal) (tenant_id : TenantId) (policy_id : Uuid) (o : OpportunityType)
      (published_at : DateTime) (version : ℤ) (id : Uuid) (at : DateTime) (r : QualificationResult)
      → prepare render search sub limits command now ≡ ok prepared
      → Memᴰ m prepared.original_messages
      → Matches search SpecialControl.do_not_contact m
      → ((f : SpecialControlFinding) → Memᴰ f prepared.deterministic_controls → Memᴰ f n.controls)
      → accept is_sensitive p n fields cs signals command ≡ ok e
      → apply command e origin now ≡ ok u
      → (evaluate fingerprint u.qualification_request
            (build_default_telecom_policy tenant_id policy_id o published_at version)
            id
            at
          ≡ ok r)
      → IsStopped r
  no_contact_obeyed limits command now prepared m n fields cs signals e origin u tenant_id policy_id
        o published_at version id at r h there match kept accepted applied answer =
      let (f, found, same, certain) = found_in limits command now prepared m h there match in
      let (s, asked, usable, code) = request_signal command e origin now u applied (
        accept_controls is_sensitive p n fields cs signals command e f accepted (kept f found) same
          certain) in
      default_no_contact fingerprint tenant_id policy_id o published_at version
        u.qualification_request id at r s answer asked usable code

  -- The degraded mode obeys too: a message of the prepared context that matches a no-contact pattern
  -- stops the automation when the provider gives nothing at all.
  pub degraded_no_contact :
      (limits : ContextLimits) (command : TelecomExtractionCommand) (now : DateTime)
      (prepared : PreparedExtractionContext) (m : ConversationMessage) (codes : List String)
      (origin : Origin) (e : AcceptedExtraction) (u : ProfileUpdateProposal) (tenant_id : TenantId)
      (policy_id : Uuid) (o : OpportunityType) (published_at : DateTime) (version : ℤ) (id : Uuid)
      (at : DateTime) (r : QualificationResult)
      → prepare render search sub limits command now ≡ ok prepared
      → Memᴰ m prepared.original_messages
      → Matches search SpecialControl.do_not_contact m
      → degraded is_sensitive p command prepared codes origin now ≡ ok (e, u)
      → (evaluate fingerprint u.qualification_request
            (build_default_telecom_policy tenant_id policy_id o published_at version)
            id
            at
          ≡ ok r)
      → IsStopped r
  unfolding degraded_extraction
  degraded_no_contact limits command now prepared m codes origin e u tenant_id policy_id o
        published_at version id at r h there match ran answer =
      let (f, found, same, certain) = found_in limits command now prepared m h there match in
      let (source, accepted, made, controls, applied) =
        degraded_ok is_sensitive p command prepared codes origin now e u ran in
      let fallback = degraded_extraction command prepared source codes in
      let (s, asked, usable, code) = request_signal command e origin now u applied (
        subst AcceptsNoContact controls (
          accept_controls is_sensitive p fallback [] [] [] command accepted f made found same
            certain)) in
      default_no_contact fingerprint tenant_id policy_id o published_at version
        u.qualification_request id at r s answer asked usable code
