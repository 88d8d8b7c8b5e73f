-- ===== src/Extraction/Decisions/Required.antt =====
-- The fields that each opportunity needs, and the question that asks for a field, of
-- telecom_extraction/processing.py (src/saas_platform/modules).
use plataforma_saa_s_de_auto.Prelude.{
  not, String, Option, none, some, List, [], ◌∷◌, ◌++◌, map, filter, contains,
}
use plataforma_saa_s_de_auto.Prelude.Dict.{keys}
use plataforma_saa_s_de_auto.LeadQualification.Vocabulary.{
  OpportunityType, ProfileField, profile_field_eq,
}
use plataforma_saa_s_de_auto.LeadQualification.Profile.{LeadProfile}
use plataforma_saa_s_de_auto.Extraction.Domain.{ResolvedField}

-- `REQUIRED_FIELDS`
unfoldable pub required_fields : OpportunityType → List ProfileField
required_fields OpportunityType.device_purchase =
    ProfileField.brand ∷ ProfileField.device_budget ∷ ProfileField.payment_method
    ∷ ProfileField.purchase_timeframe ∷ []
required_fields OpportunityType.device_with_plan =
    ProfileField.brand ∷ ProfileField.device_budget ∷ ProfileField.monthly_budget
    ∷ ProfileField.data_usage ∷ ProfileField.line_count ∷ ProfileField.purchase_timeframe ∷ []
required_fields OpportunityType.plan_subscription =
    ProfileField.monthly_budget ∷ ProfileField.data_usage ∷ ProfileField.portability
    ∷ ProfileField.line_count ∷ []
required_fields OpportunityType.new_line =
    ProfileField.monthly_budget ∷ ProfileField.data_usage ∷ ProfileField.line_count
    ∷ ProfileField.purchase_timeframe ∷ []
required_fields OpportunityType.portability =
    ProfileField.keep_number ∷ ProfileField.current_operator ∷ ProfileField.purchase_timeframe
    ∷ ProfileField.monthly_budget ∷ []
required_fields OpportunityType.renewal =
    ProfileField.current_operator ∷ ProfileField.plan ∷ ProfileField.purchase_timeframe ∷ []
required_fields OpportunityType.prepaid_to_postpaid =
    ProfileField.current_operator ∷ ProfileField.monthly_budget ∷ ProfileField.data_usage ∷ []
required_fields OpportunityType.accessory =
    ProfileField.product_category ∷ ProfileField.device_budget ∷ ProfileField.purchase_timeframe
    ∷ []
required_fields OpportunityType.multiple_lines =
    ProfileField.line_count ∷ ProfileField.monthly_budget ∷ ProfileField.purchase_timeframe ∷ []
required_fields OpportunityType.business_account =
    ProfileField.line_count ∷ ProfileField.device_included ∷ ProfileField.purchase_timeframe
    ∷ ProfileField.contact_role ∷ ProfileField.requested_action ∷ []
required_fields OpportunityType.unidentified = ProfileField.requested_action ∷ []

-- `QUESTION_TEXT`
unfoldable pub question_text : ProfileField → Option String
question_text ProfileField.brand =
    some "Do you have a preferred brand, or what will you use the device for?"
question_text ProfileField.device_budget = some "What is your maximum budget for the device?"
question_text ProfileField.monthly_budget =
    some "What monthly budget would you like to stay within?"
question_text ProfileField.payment_method = some "Would you prefer cash payment or financing?"
question_text ProfileField.purchase_timeframe = some "When would you like to complete the purchase?"
question_text ProfileField.data_usage = some "How much mobile data do you expect to use?"
question_text ProfileField.portability = some "Would this be a new line or a portability request?"
question_text ProfileField.keep_number = some "Would you like to keep your current number?"
question_text ProfileField.current_operator = some "Which operator do you currently use?"
question_text ProfileField.line_count = some "How many lines do you need?"
question_text ProfileField.device_included = some "Will the lines also require devices?"
question_text ProfileField.contact_role = some "What is your role in this purchase decision?"
question_text ProfileField.requested_action = some "What would you like us to help you with next?"
question_text ProfileField.product_category = some "What type of accessory are you looking for?"
question_text ProfileField.plan = some "Do you have a plan in mind?"
question_text _ = none

-- `_missing`
unfoldable pub missing : OpportunityType → LeadProfile → List ResolvedField → List ProfileField
missing opportunity profile fields =
    filter (λ f. not (contains (keys profile.facts ++ map (λ item. item.value.field) fields) f))
      (required_fields opportunity)
