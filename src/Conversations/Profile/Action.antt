-- ===== src/Conversations/Profile/Action.antt =====
-- `ProfileValueAction` of telecom_conversations/profile.py (src/saas_platform/modules).
use plataforma_saa_s_de_auto.Prelude.{String, Eq, eq_of_discrete}

pub data ProfileValueAction : Type 0 where
  new_current reinforce_current supersede_current historical_only duplicate forbidden :
      ProfileValueAction

unfoldable pub ProfileValueAction-discrete : Discrete ProfileValueAction
ProfileValueAction-discrete = hlevel

instance abbrev pub profile_value_action_eq : Eq ProfileValueAction
profile_value_action_eq = eq_of_discrete ProfileValueAction-discrete

unfoldable pub profile_value_action_value : ProfileValueAction → String
profile_value_action_value ProfileValueAction.new_current = "new_current"
profile_value_action_value ProfileValueAction.reinforce_current = "reinforce_current"
profile_value_action_value ProfileValueAction.supersede_current = "supersede_current"
profile_value_action_value ProfileValueAction.historical_only = "historical_only"
profile_value_action_value ProfileValueAction.duplicate = "duplicate"
profile_value_action_value ProfileValueAction.forbidden = "forbidden"
