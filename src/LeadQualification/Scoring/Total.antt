-- ===== src/LeadQualification/Scoring/Total.antt =====
-- The branches of `evaluate` of lead_qualification/scoring.py that return and those that raise.
use plataforma_saa_s_de_auto.Prelude.{
  true, ◌≡◌, ◌∙◌, ◌↔◌, String, List, Memᴰ, ℤ, pos, ◌≤ℤ◌, max_ℤ, min_ℤ, arith, find_sound, find-some,
  ◌==◌, eq_self, eq_of_true, nat_eq, ap, subst,
}
use plataforma_saa_s_de_auto.Errors.{ok, >>=-ok, >>-ok}
use plataforma_saa_s_de_auto.Foundation.{Uuid, DateTime, ensure_aware}
use plataforma_saa_s_de_auto.LeadQualification.Vocabulary.{
  PolicyStatus, policy_status_eq, opportunity_type_eq, LeadClassification, RecommendedAction,
}
use plataforma_saa_s_de_auto.LeadQualification.Policy.{
  ScoringPolicy, IsConstructed, ClassificationBand,
}
use plataforma_saa_s_de_auto.LeadQualification.Policy.Bands.{InBand, band_exists, band_unique}
use plataforma_saa_s_de_auto.LeadQualification.Request.{
  QualificationRequest, QualificationResult, qualification_result_post_init, AppliedPenalty,
}
use plataforma_saa_s_de_auto.LeadQualification.Scoring.Decision.{in_band, classification}
use plataforma_saa_s_de_auto.LeadQualification.Scoring.Bounds.{subtotal_bounds}
use plataforma_saa_s_de_auto.LeadQualification.Scoring.Engine.{
  ensure_policy_applies, final_score, score_of, construct_result, result_of, evaluate,
}

-- The policy is published, of the request's tenant and for its primary opportunity.
pub record Applies (request : QualificationRequest) (p : ScoringPolicy) : Type 0 where
  pub published : p.status ≡ PolicyStatus.published
  pub same_tenant : p.tenant_id ≡ request.profile.tenant_id
  pub same_opportunity : p.opportunity_type ≡ request.profile.opportunity.primary

final_score_bounds :
    (subtotal : ℤ) (ps : List AppliedPenalty)
    → (pos 0 ≤ℤ final_score subtotal ps) × (final_score subtotal ps ≤ℤ pos 100)
unfolding final_score max_ℤ min_ℤ
final_score_bounds subtotal ps = ground arith

pub score_bounds :
    (request : QualificationRequest) (p : ScoringPolicy)
    → (pos 0 ≤ℤ score_of request p) × (score_of request p ≤ℤ pos 100)
unfolding score_of
score_bounds request p = final_score_bounds _ _

in_band_of : (s : ℤ) (b : ClassificationBand) → InBand s b → in_band s b ≡ true
unfolding in_band
in_band_of s b h = ground arith

InBand-of : (s : ℤ) (b : ClassificationBand) → in_band s b ≡ true → InBand s b
unfolding in_band
InBand-of s b h = ground arith

-- In a constructed policy a score of 0 to 100 has the class and the action of the band that
-- contains it, and no other band contains it.
pub classification_exact :
    (p : ScoringPolicy) (s : ℤ)
    → IsConstructed p
    → pos 0 ≤ℤ s
    → s ≤ℤ pos 100
    → (b : ClassificationBand) × Memᴰ b p.classification_bands
      × InBand s b
      × (classification p s ≡ ok (b.classification, b.action))
      × ((c : ClassificationBand) → Memᴰ c p.classification_bands → InBand s c → c ≡ b)
unfolding classification
classification_exact p s made low high =
    let (x, m, within) = band_exists p made s low high in
    let (b, e) = find-some (in_band s) x p.classification_bands m (in_band_of s x within) in
    let (there, holds) = find_sound (in_band s) p.classification_bands b e in
    let inside = InBand-of s b holds in
    (b, there, inside, rw e, (λ c n k. band_unique p made s c b n there k inside))

applies_of_ok :
    (request : QualificationRequest) (p : ScoringPolicy)
    → ensure_policy_applies request p ≡ ok tt
    → ((p.status == PolicyStatus.published) ≡ true)
      × ((p.tenant_id == request.profile.tenant_id) ≡ true)
      × ((p.opportunity_type == request.profile.opportunity.primary) ≡ true)
unfolding ensure_policy_applies
applies_of_ok request p h = ground arith

ok_of_Applies :
    (request : QualificationRequest) (p : ScoringPolicy)
    → Applies request p
    → ensure_policy_applies request p ≡ ok tt
unfolding ensure_policy_applies
ok_of_Applies request p a =
    rw
      (
        a.published,
        a.same_tenant,
        a.same_opportunity,
        eq_self (request.profile.opportunity.primary),
      )
      (rw (eq_self request.profile.tenant_id) (rw (eq_self PolicyStatus.published)))

module _ (fingerprint : ScoringPolicy → String) where
  result_ok :
      (request : QualificationRequest) (p : ScoringPolicy) (id : Uuid) (at : DateTime)
      (c : LeadClassification × RecommendedAction)
      → IsConstructed p
      → at.aware ≡ true
      → qualification_result_post_init (result_of fingerprint request p id at c) ≡ ok tt
  unfolding qualification_result_post_init result_of ensure_aware
  result_ok request p id at c made aware =
      ground (arith, score_bounds request p, subtotal_bounds request p made)

  pub evaluate_returns :
      (request : QualificationRequest) (p : ScoringPolicy) (id : Uuid) (at : DateTime)
      → IsConstructed p
      → Applies request p
      → at.aware ≡ true
      → (b : ClassificationBand) × Memᴰ b p.classification_bands
        × InBand (score_of request p) b
        × (evaluate fingerprint request p id at
            ≡ ok (result_of fingerprint request p id at (b.classification, b.action)))
  unfolding evaluate construct_result
  evaluate_returns request p id at made applies aware =
      let (low, high) = score_bounds request p in
      let (b, m, inside, e, only) = classification_exact p (score_of request p) made low high in
      (
        b,
        m,
        inside,
        rw (ok_of_Applies request p applies, e)
            (rw (result_ok request p id at (b.classification, b.action) made aware)),
      )

  post_init_aware :
      (r : QualificationResult)
      → qualification_result_post_init r ≡ ok tt
      → r.evaluated_at.aware ≡ true
  unfolding qualification_result_post_init ensure_aware
  post_init_aware r h = ground arith

  constructed :
      (q r : QualificationResult)
      → construct_result q ≡ ok r
      → (q ≡ r) × (qualification_result_post_init q ≡ ok tt)
  unfolding construct_result
  constructed q r h =
      let (checked, e) = >>-ok (qualification_result_post_init q) (ok q) h in (cc, checked)

  -- What `evaluate` returns is the assembled result, of a policy that applies.
  pub evaluate_ok :
      (request : QualificationRequest) (p : ScoringPolicy) (id : Uuid) (at : DateTime)
      (r : QualificationResult)
      → evaluate fingerprint request p id at ≡ ok r
      → (c : LeadClassification × RecommendedAction) × Applies request p
        × (classification p (score_of request p) ≡ ok c)
        × (result_of fingerprint request p id at c ≡ r)
        × (r.evaluated_at.aware ≡ true)
  unfolding evaluate
  evaluate_ok request p id at r h =
      let (guards, rest) = >>-ok (ensure_policy_applies request p) _ h in
      let (c, e, last) = >>=-ok (classification p (score_of request p)) _ rest in
      let (same, checked) = constructed (result_of fingerprint request p id at c) r last in
      let (a, b, d) = applies_of_ok request p guards in
      let applies : Applies request p = record {
        published = eq_of_true p.status PolicyStatus.published a;
        same_tenant = eq_of_true p.tenant_id request.profile.tenant_id b;
        same_opportunity = eq_of_true p.opportunity_type request.profile.opportunity.primary d;
      } in
      (
        c,
        applies,
        e,
        same,
        post_init_aware r (subst (λ q. qualification_result_post_init q ≡ ok tt) same checked),
      )

  -- With a constructed policy, `evaluate` returns exactly when the policy is published, belongs to
  -- the request's tenant and is for its primary opportunity, and the evaluation time has a timezone.
  pub evaluate_iff :
      (request : QualificationRequest) (p : ScoringPolicy) (id : Uuid) (at : DateTime)
      → IsConstructed p
      → ((r : QualificationResult) × (evaluate fingerprint request p id at ≡ ok r))
        ↔ (Applies request p × (at.aware ≡ true))
  unfolding result_of
  evaluate_iff request p id at made = (
    (λ w.
        let (c, applies, e, same, aware) = evaluate_ok request p id at w.0 w.1 in
        (applies, ap (λ (q : QualificationResult). q.evaluated_at.aware) same ∙ aware)),
    (λ w.
        let (b, m, inside, e) = evaluate_returns request p id at made w.0 w.1 in
        (result_of fingerprint request p id at (b.classification, b.action), e)),
  )
