-- ===== src/Extraction/Context/Controls.antt =====
-- `_controls` of telecom_extraction/context.py (src/saas_platform/modules).
use plataforma_saa_s_de_auto.Prelude.{true, String, Option, none, some, List, [], ◌∷◌, ◌++◌, map}
use plataforma_saa_s_de_auto.Prelude.Dict.{Dict, put}
use plataforma_saa_s_de_auto.Errors.{Result, ok, ◌>>◌, for_each}
use plataforma_saa_s_de_auto.Foundation.{hundredths}
use plataforma_saa_s_de_auto.Extraction.Vocabulary.{SpecialControl, special_control_eq}
use plataforma_saa_s_de_auto.Extraction.Domain.{
  SpecialControlFinding, special_control_finding_post_init,
}
use plataforma_saa_s_de_auto.Extraction.Command.{ConversationMessage}
use plataforma_saa_s_de_auto.Extraction.Context.Patterns.{
  Pattern, dnc_patterns, human_patterns, injection_patterns,
}
use plataforma_saa_s_de_auto.Prelude.Text.{take_text}

unfoldable pub control_patterns : List (SpecialControl × List Pattern)
unfolding dnc_patterns human_patterns injection_patterns
control_patterns =
    (SpecialControl.do_not_contact, dnc_patterns)
    ∷ (SpecialControl.human_requested, human_patterns)
    ∷ (SpecialControl.prompt_injection, injection_patterns)
    ∷ []

module _ (search : Pattern → String → Option String) where
  unfoldable pub first_match : List Pattern → String → Option String
  first_match [] content = none
  first_match (p ∷ ps) content = elim (search p content) [
    | none ↦ first_match ps content
    | some found ↦ some found
  ]

  unfoldable pub finding_of :
      SpecialControl → ConversationMessage → Option String → List SpecialControlFinding
  unfolding take_text
  finding_of control m none = []
  finding_of control m (some found) =
      record {
        control = control;
        confidence = hundredths 100;
        evidence = take_text 300 found;
        source_message_id = m.id;
        deterministic = true;
      }
      ∷ []

  unfoldable pub message_findings :
      List (SpecialControl × List Pattern) → ConversationMessage → List SpecialControlFinding
  unfolding first_match finding_of
  message_findings [] m = []
  message_findings ((control, expressions) ∷ patterns) m =
      finding_of control m (first_match expressions m.content) ++ message_findings patterns m

  unfoldable pub findings_of : List ConversationMessage → List SpecialControlFinding
  unfolding message_findings control_patterns
  findings_of [] = []
  findings_of (m ∷ ms) = message_findings control_patterns m ++ findings_of ms

  -- The last finding of each control.
  unfoldable pub by_control :
      List SpecialControlFinding
      → Dict SpecialControl SpecialControlFinding
      → Dict SpecialControl SpecialControlFinding
  by_control [] d = d
  by_control (f ∷ fs) d = by_control fs (put f.control f d)

  -- `_controls`
  unfoldable pub controls : List ConversationMessage → Result (List SpecialControlFinding)
  unfolding findings_of by_control
  controls messages =
      let findings = findings_of messages in
      for_each special_control_finding_post_init findings
      >> ok (map (λ (x : SpecialControl × SpecialControlFinding). x.1) (by_control findings []))
