-- ===== src/Extraction/Resolve.antt =====
-- `ConfidenceResolver` of telecom_extraction/processing.py (src/saas_platform/modules): the confidence
-- of the fields and signals of an extraction.
use plataforma_saa_s_de_auto.Prelude.{
  ℕ, ◌*◌, ◌-◌, ◌^◌, ltb, Bool, true, false, ◌&&◌, String, Option, none, some, List, [], ◌∷◌, ◌++◌,
  filter, length, ◌==◌, string_eq, nat_eq, pos, negsuc, ◌+ℤ◌, min_ℤ, max_ℤ, if◌then◌else◌,
}
use plataforma_saa_s_de_auto.Prelude.Dict.{Dict, get, put}
use plataforma_saa_s_de_auto.Errors.{Result, ok, err, ◌>>◌, ◌>>=◌, key_error}
use plataforma_saa_s_de_auto.Foundation.{Uuid, Decimal, hundredths}
use plataforma_saa_s_de_auto.LeadQualification.Vocabulary.{profile_field_eq}
use plataforma_saa_s_de_auto.Extraction.Vocabulary.{ProviderFieldState}
use plataforma_saa_s_de_auto.Extraction.Domain.{
  NormalizedField, NormalizedSignal, ResolvedField, ResolvedSignal, resolved_field_post_init,
  resolved_signal_post_init,
}
use plataforma_saa_s_de_auto.Extraction.Command.{ConversationMessage, NormalizedExtraction}
use plataforma_saa_s_de_auto.Extraction.Confidence.{
  ConfidencePolicy, field_treatment, signal_treatment,
}

-- `confidence - Decimal("0.n")`
unfoldable pub less_hundredths : Decimal → ℕ → Decimal
less_hundredths c n = c +ℤ negsuc (n * 10 ^ 26 - 1)

-- `min(Decimal("1"), max(Decimal("0"), confidence))`
unfoldable pub clamped : Decimal → Decimal
clamped c = min_ℤ (hundredths 100) (max_ℤ (pos 0) c)

-- `{message.id: message.content for message in messages}`
unfoldable pub contents : List ConversationMessage → Dict Uuid String → Dict Uuid String
contents [] d = d
contents (m ∷ ms) d = contents ms (put m.id m.content d)

unfoldable pub look_up : Uuid → Dict Uuid String → Option String → Result String
look_up id d (some content) = ok content
look_up id d none = err (key_error "message")

unfoldable pub content_of : Uuid → List ConversationMessage → Result String
unfolding look_up contents
content_of id messages = let d = contents messages [] in look_up id d (get id d)

unfoldable pub construct_field : ResolvedField → Result ResolvedField
construct_field f = resolved_field_post_init f >> ok f

unfoldable pub construct_signal : ResolvedSignal → Result ResolvedSignal
construct_signal s = resolved_signal_post_init s >> ok s

-- The confidence and the reasons of a field, step by step.
abbrev pub Weighed : Type 0
Weighed = Decimal × List String

unfoldable pub weigh_evidence : Bool → Decimal → Weighed
unfolding less_hundredths
weigh_evidence true c = (c, "evidence_verified" ∷ [])
weigh_evidence false c = (less_hundredths c 20, "evidence_not_verbatim" ∷ [])

unfoldable pub weigh_state : ProviderFieldState → Weighed → Weighed
unfolding less_hundredths
weigh_state ProviderFieldState.observed w = w
weigh_state ProviderFieldState.inferred (c, reasons) =
    (less_hundredths c 15, reasons ++ ("inference_penalty" ∷ []))
weigh_state ProviderFieldState.unknown (c, reasons) =
    (min_ℤ c (hundredths 39), reasons ++ ("unknown_value" ∷ []))

unfoldable pub weigh_support : ℕ → Weighed → Weighed
weigh_support n (c, reasons) =
    if ltb 1 n
    then (c +ℤ hundredths 5, reasons ++ ("multiple_supporting_messages" ∷ []))
    else (c, reasons)

-- `occurs` is whether one text is in another when both are case-folded; `value_text` is `str` of a
-- field's value, which also shows the digits that a Decimal was written with.
module _ (occurs : String → String → Bool) (value_text : NormalizedField → String)
    (p : ConfidencePolicy) where
  -- How many fields have the same name and the same text of their value.
  unfoldable pub support : NormalizedField → List NormalizedField → ℕ
  support f fields =
      length (filter (λ g. g.field == f.field && value_text g == value_text f) fields)

  unfoldable pub resolved_field : List NormalizedField → NormalizedField → String → ResolvedField
  unfolding weigh_evidence weigh_state weigh_support support clamped
  resolved_field fields f content =
      let (c, reasons) = weigh_support (support f fields) (
        weigh_state f.provider_state
          (weigh_evidence (occurs f.evidence content) f.declared_confidence)) in
      let (treatment, status) = field_treatment p (clamped c) f.provider_state in
      record {
        value = f;
        confidence = clamped c;
        status = status;
        treatment = treatment;
        reasons = reasons;
      }

  unfoldable pub resolve_each :
      List NormalizedField
      → List ConversationMessage
      → List NormalizedField
      → Result (List ResolvedField)
  resolve_each fields messages [] = ok []
  resolve_each fields messages (f ∷ fs) = do
    content ← content_of f.source_message_id messages
    r ← construct_field (resolved_field fields f content)
    rest ← resolve_each fields messages fs
    ok (r ∷ rest)

  -- `resolve_fields`
  unfoldable pub resolve_fields :
      NormalizedExtraction → List ConversationMessage → Result (List ResolvedField)
  unfolding resolve_each
  resolve_fields n messages = resolve_each n.fields messages n.fields

  unfoldable pub resolved_signal : NormalizedSignal → String → ResolvedSignal
  unfolding less_hundredths clamped
  resolved_signal s content =
      let weighed =
        if occurs s.evidence content
        then s.declared_confidence
        else less_hundredths s.declared_confidence 20 in
      record {
        value = s;
        confidence = clamped weighed;
        treatment = signal_treatment p (clamped weighed);
      }

  unfoldable pub resolve_each_signal :
      List ConversationMessage → List NormalizedSignal → Result (List ResolvedSignal)
  resolve_each_signal messages [] = ok []
  resolve_each_signal messages (s ∷ ss) = do
    content ← content_of s.source_message_id messages
    r ← construct_signal (resolved_signal s content)
    rest ← resolve_each_signal messages ss
    ok (r ∷ rest)

  -- `resolve_signals`
  unfoldable pub resolve_signals :
      NormalizedExtraction → List ConversationMessage → Result (List ResolvedSignal)
  unfolding resolve_each_signal
  resolve_signals n messages = resolve_each_signal messages n.signals
