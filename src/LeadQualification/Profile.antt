-- ===== src/LeadQualification/Profile.antt =====
-- Opportunities, profile facts and the lead profile of lead_qualification/domain.py
-- (src/saas_platform/modules), with the checks of each `__post_init__`.
use plataforma_saa_s_de_auto.Prelude.{
  ◌*◌, ◌^◌, Bool, true, false, not, ◌&&◌, ◌||◌, String, Option, none, some, List, ℤ, pos, negsuc,
  ◌-◌, suc, beq_ℤ, beq_ℤ_self, eq_self, ◌≡◌, contains, has_duplicates, ◌==◌,
}
use plataforma_saa_s_de_auto.Prelude.{string_eq}
use plataforma_saa_s_de_auto.Prelude.Text.{is_blank, is_empty}
use plataforma_saa_s_de_auto.Prelude.Dict.{Dict, get}
use plataforma_saa_s_de_auto.Errors.{Result, ◌>>◌, raise_if, for_each, validation_error}
use plataforma_saa_s_de_auto.Foundation.{
  Uuid, TenantId, DateTime, Decimal, ensure_aware, ensure_ratio,
}
use plataforma_saa_s_de_auto.LeadQualification.Vocabulary.{
  OpportunityType, ProfileField, FactSource, ExtractionMethod, ValidationStatus,
  opportunity_type_eq, profile_field_eq, validation_status_eq,
}

pub record Opportunity : Type 0 where
  pub primary : OpportunityType
  pub secondary : List OpportunityType

unfoldable pub opportunity_post_init : Opportunity → Result (Unit {0})
opportunity_post_init o = do
  raise_if (contains o.secondary o.primary)
      (validation_error "primary opportunity cannot also be secondary")
  raise_if (has_duplicates o.secondary) (validation_error "secondary opportunities must be unique")

-- `ProfileFactValue`
pub data FactValue : Type 0 where
  text : String → FactValue
  integer : ℤ → FactValue
  flag : Bool → FactValue
  decimal : Decimal → FactValue

-- An integer as a Decimal.
abbrev whole : ℤ → Decimal
whole (pos n) = pos (n * 10 ^ 28)
whole (negsuc n) = negsuc (suc n * 10 ^ 28 - 1)

-- A number's value, a `bool` being 0 or 1.
abbrev numeric : FactValue → Option Decimal
numeric (text s) = none
numeric (integer n) = some (whole n)
numeric (flag true) = some (whole (pos 1))
numeric (flag false) = some (whole (pos 0))
numeric (decimal d) = some d

same_number : Option Decimal → Option Decimal → Bool
same_number (some a) (some b) = beq_ℤ a b
same_number _ _ = false

-- `==` of two fact values: numbers by their value, across their types.
unfoldable pub same_value : FactValue → FactValue → Bool
unfolding same_number
same_value (text s) (text t) = s == t
same_value a b = same_number (numeric a) (numeric b)

pub same_value_self : (v : FactValue) → same_value v v ≡ true
unfolding same_value
same_value_self (text s) = eq_self s
same_value_self (integer n) = beq_ℤ_self (whole n)
same_value_self (flag true) = beq_ℤ_self (whole (pos 1))
same_value_self (flag false) = beq_ℤ_self (whole (pos 0))
same_value_self (decimal d) = beq_ℤ_self d

pub record ProfileFact : Type 0 where
  pub field : ProfileField
  pub value : FactValue
  pub source : FactSource
  pub source_message_id : Option Uuid
  pub observed_at : DateTime
  pub confidence : Decimal
  pub extraction_method : ExtractionMethod
  pub validation_status : ValidationStatus
  pub confirmed_by : Option String

unfoldable pub blank_text : FactValue → Bool
blank_text (text s) = is_blank s
blank_text _ = false

unfoldable pub absent : Option String → Bool
absent none = true
absent (some s) = is_empty s

unfoldable pub profile_fact_post_init : ProfileFact → Result (Unit {0})
unfolding blank_text absent
profile_fact_post_init f = do
  ensure_aware f.observed_at "fact observed_at"
  ensure_ratio f.confidence "fact confidence"
  raise_if (blank_text f.value) (validation_error "profile fact string value cannot be empty")
  raise_if (f.validation_status == ValidationStatus.confirmed && absent f.confirmed_by)
      (validation_error "confirmed profile facts require confirmed_by")

pub record FactConflict : Type 0 where
  pub field : ProfileField
  pub previous : ProfileFact
  pub current : ProfileFact
  pub reason : String
  pub detected_at : DateTime

unfoldable pub fact_conflict_post_init : FactConflict → Result (Unit {0})
fact_conflict_post_init c = do
  raise_if (not (c.previous.field == c.field) || not (c.current.field == c.field))
      (validation_error "fact conflict values must refer to the same field")
  raise_if (is_blank c.reason) (validation_error "fact conflict requires a reason")
  ensure_aware c.detected_at "conflict detected_at"

pub record LeadProfile : Type 0 where
  pub tenant_id : TenantId
  pub lead_id : Uuid
  pub conversation_id : Uuid
  pub opportunity : Opportunity
  pub facts : Dict ProfileField ProfileFact
  pub conflicts : List FactConflict
  pub missing_information : List ProfileField

unfoldable pub key_matches : ProfileField × ProfileFact → Result (Unit {0})
key_matches (field_name, f) =
    raise_if (not (field_name == f.field))
      (validation_error "profile fact key must match its field")

unfoldable pub lead_profile_post_init : LeadProfile → Result (Unit {0})
lead_profile_post_init p = do
  for_each key_matches p.facts
  raise_if (has_duplicates p.missing_information)
      (validation_error "missing profile fields must be unique")

-- `LeadProfile.fact`
unfoldable pub fact : LeadProfile → ProfileField → Option ProfileFact
fact p field_name = get field_name p.facts
