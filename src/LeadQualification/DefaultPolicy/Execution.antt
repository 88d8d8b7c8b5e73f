-- ===== src/LeadQualification/DefaultPolicy/Execution.antt =====
-- The use case of lead_qualification/application.py with the provider of
-- telecom_conversations/policy.py.
use plataforma_saa_s_de_auto.Prelude.{true, ◌≡◌, ◌↔◌, refl, String, pos, arith}
use plataforma_saa_s_de_auto.Errors.{ok}
use plataforma_saa_s_de_auto.Foundation.{Uuid, DateTime}
use plataforma_saa_s_de_auto.LeadQualification.Policy.{ScoringPolicy}
use plataforma_saa_s_de_auto.LeadQualification.Request.{QualificationRequest, QualificationResult}
use plataforma_saa_s_de_auto.LeadQualification.Scoring.Engine.{execute}
use plataforma_saa_s_de_auto.LeadQualification.Scoring.Total.{Applies, evaluate_iff}
use plataforma_saa_s_de_auto.LeadQualification.DefaultPolicy.{
  build_default_telecom_policy, base_policy_published_at, get_published,
}
use plataforma_saa_s_de_auto.LeadQualification.DefaultPolicy.Valid.{default_policy-IsConstructed}

module _ (fingerprint : ScoringPolicy → String) (uuid5 : String → Uuid)
    (uuid_text : Uuid → String) where
  provided : QualificationRequest → ScoringPolicy
  provided request =
      get_published uuid5 uuid_text request.profile.tenant_id request.profile.opportunity.primary

  provided-Applies : (request : QualificationRequest) → Applies request (provided request)
  unfolding provided get_published build_default_telecom_policy
  provided-Applies request = record {
    published = refl;
    same_tenant = refl;
    same_opportunity = refl;
  }

  -- With the default policy's provider, the evaluation of any request returns exactly when the clock
  -- gives a time with a timezone.
  pub execute_iff :
      (new : Uuid) (now : DateTime) (request : QualificationRequest)
      → ((r : QualificationResult) × (execute fingerprint
              (get_published uuid5 uuid_text)
              new
              now
              request
            ≡ ok r))
        ↔ (now.aware ≡ true)
  unfolding execute provided get_published
  execute_iff new now request =
      let made =
        default_policy-IsConstructed request.profile.tenant_id _ request.profile.opportunity.primary
          base_policy_published_at (pos 1) refl (omega arith) in
      let (to, from) = evaluate_iff fingerprint request (provided request) new now made in
      ((λ w. (to w).1), (λ aware. from (provided-Applies request, aware)))
