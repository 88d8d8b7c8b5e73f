-- ===== src/Extraction/Context/Patterns.antt =====
-- The patterns of telecom_extraction/context.py (src/saas_platform/modules).
use plataforma_saa_s_de_auto.Prelude.{Bool, true, false, String, List, [], ◌∷◌}

-- A compiled pattern, and whether it ignores case.
pub record Pattern : Type 0 where
  pub expression : String
  pub ignore_case : Bool

abbrev any_case : String → Pattern
any_case expression = record { expression = expression; ignore_case = true }

unfoldable pub email_pattern : Pattern
email_pattern = any_case "\\b[A-Z0-9._%+-]+@[A-Z0-9.-]+\\.[A-Z]{2,}\\b"

unfoldable pub phone_pattern : Pattern
phone_pattern = record {
  expression = "(?<!\\d)(?:\\+?52[\\s.-]?)?(?:\\d[\\s.-]?){10}(?!\\d)";
  ignore_case = false;
}

unfoldable pub sensitive_id_pattern : Pattern
sensitive_id_pattern =
    any_case "\\b(?:[A-Z]{4}\\d{6}[A-Z0-9]{3}|[A-Z]{4}\\d{6}[HM][A-Z]{5}[A-Z0-9]\\d)\\b"

unfoldable pub dnc_patterns : List Pattern
dnc_patterns =
    any_case "\\bno\\s+me\\s+(?:escriban|escribas|contacten|contactes|llamen|llames)\\b"
    ∷ any_case "\\b(?:dejen|deja)\\s+de\\s+(?:escribirme|contactarme|llamarme)\\b"
    ∷ any_case "\\bno\\s+quiero\\s+(?:mas\\s+)?(?:mensajes|llamadas|contacto)\\b"
    ∷ any_case "\\b(?:stop messaging|do not contact|unsubscribe)\\b"
    ∷ []

unfoldable pub human_patterns : List Pattern
human_patterns =
    any_case "\\b(?:hablar|comunicarme)\\s+con\\s+(?:un|una)\\s+(?:asesor|persona|humano)\\b"
    ∷ any_case "\\b(?:quiero|prefiero|necesito)\\s+(?:un|una)?\\s*(?:asesor|persona|humano)\\b"
    ∷ []

unfoldable pub injection_patterns : List Pattern
injection_patterns =
    any_case "\\bignora\\s+(?:tus|las|los)\\s+instrucciones\\b"
    ∷ any_case "\\b(?:marca|asigna|pon)\\w*\\s+(?:me\\s+)?(?:con\\s+)?100\\s+puntos\\b"
    ∷ any_case "\\bact[uú]a\\s+como\\s+administrador\\b"
    ∷ any_case "\\b(?:muestra|dime)\\s+(?:tus\\s+)?instrucciones\\s+internas\\b"
    ∷ any_case "\\bdatos\\s+de\\s+otros\\s+(?:clientes|tenants)\\b"
    ∷ []

-- `redact_commercial_context`
unfoldable pub redact : (Pattern → String → String → String) → String → String
unfolding email_pattern phone_pattern sensitive_id_pattern
redact sub value =
    sub sensitive_id_pattern "[SENSITIVE_ID_REDACTED]"
      (sub phone_pattern "[PHONE_REDACTED]" (sub email_pattern "[EMAIL_REDACTED]" value))
