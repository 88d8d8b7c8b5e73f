-- ===== src/LeadQualification/Vocabulary/Field.antt =====
-- The profile fields of lead_qualification/domain.py (src/saas_platform/modules).
use plataforma_saa_s_de_auto.Prelude.{String, Eq, eq_of_discrete}

pub data ProfileField : Type 0 where
  product product_category brand model storage_capacity color condition quantity mentioned_price
        device_budget financing_preference monthly_budget payment_method down_payment
        max_monthly_payment preferred_term plan data_usage calls_required messages_required
        social_networks_required roaming_required international_calls_required service_modality
        device_included portability keep_number current_operator purchase_timeframe change_reason
        cutoff_date request_status line_count customer_type company_name business_size
        equipment_count invoicing_required centralized_administration contact_role
        decision_participation customer_declared_financing_status location postal_code coverage
        inventory requested_action preferred_channel preferred_branch detected_intent :
      ProfileField

unfoldable pub ProfileField-discrete : Discrete ProfileField
ProfileField-discrete = hlevel

instance abbrev pub profile_field_eq : Eq ProfileField
profile_field_eq = eq_of_discrete ProfileField-discrete

unfoldable pub profile_field_value : ProfileField → String
profile_field_value ProfileField.product = "product"
profile_field_value ProfileField.product_category = "product_category"
profile_field_value ProfileField.brand = "brand"
profile_field_value ProfileField.model = "model"
profile_field_value ProfileField.storage_capacity = "storage_capacity"
profile_field_value ProfileField.color = "color"
profile_field_value ProfileField.condition = "condition"
profile_field_value ProfileField.quantity = "quantity"
profile_field_value ProfileField.mentioned_price = "mentioned_price"
profile_field_value ProfileField.device_budget = "device_budget"
profile_field_value ProfileField.financing_preference = "financing_preference"
profile_field_value ProfileField.monthly_budget = "monthly_budget"
profile_field_value ProfileField.payment_method = "payment_method"
profile_field_value ProfileField.down_payment = "down_payment"
profile_field_value ProfileField.max_monthly_payment = "max_monthly_payment"
profile_field_value ProfileField.preferred_term = "preferred_term"
profile_field_value ProfileField.plan = "plan"
profile_field_value ProfileField.data_usage = "data_usage"
profile_field_value ProfileField.calls_required = "calls_required"
profile_field_value ProfileField.messages_required = "messages_required"
profile_field_value ProfileField.social_networks_required = "social_networks_required"
profile_field_value ProfileField.roaming_required = "roaming_required"
profile_field_value ProfileField.international_calls_required = "international_calls_required"
profile_field_value ProfileField.service_modality = "service_modality"
profile_field_value ProfileField.device_included = "device_included"
profile_field_value ProfileField.portability = "portability"
profile_field_value ProfileField.keep_number = "keep_number"
profile_field_value ProfileField.current_operator = "current_operator"
profile_field_value ProfileField.purchase_timeframe = "purchase_timeframe"
profile_field_value ProfileField.change_reason = "change_reason"
profile_field_value ProfileField.cutoff_date = "cutoff_date"
profile_field_value ProfileField.request_status = "request_status"
profile_field_value ProfileField.line_count = "line_count"
profile_field_value ProfileField.customer_type = "customer_type"
profile_field_value ProfileField.company_name = "company_name"
profile_field_value ProfileField.business_size = "business_size"
profile_field_value ProfileField.equipment_count = "equipment_count"
profile_field_value ProfileField.invoicing_required = "invoicing_required"
profile_field_value ProfileField.centralized_administration = "centralized_administration"
profile_field_value ProfileField.contact_role = "contact_role"
profile_field_value ProfileField.decision_participation = "decision_participation"
profile_field_value ProfileField.customer_declared_financing_status =
    "customer_declared_financing_status"
profile_field_value ProfileField.location = "location"
profile_field_value ProfileField.postal_code = "postal_code"
profile_field_value ProfileField.coverage = "coverage"
profile_field_value ProfileField.inventory = "inventory"
profile_field_value ProfileField.requested_action = "requested_action"
profile_field_value ProfileField.preferred_channel = "preferred_channel"
profile_field_value ProfileField.preferred_branch = "preferred_branch"
profile_field_value ProfileField.detected_intent = "detected_intent"
