-- ===== src/LeadQualification/Scoring/Points.antt =====
-- The `raw_points` of `_dimension_scores` of lead_qualification/scoring.py.
use mathlib.Core.Path.{fun_ext}
use plataforma_saa_s_de_auto.Prelude.{
  true, false, ◌≡◌, sym, ◌∙◌, ap, subst, inl, inr, none, List, [], ◌∷◌, map, Bool-cases, ℤ, ◌+ℤ◌,
  min_ℤ, sum_ℤ, filter, int_laws, ◌==◌, eq_of_true, eq_symm,
}
use plataforma_saa_s_de_auto.Prelude.Dict.{Dict, get, put, get-put_self, get-put_ne}
use plataforma_saa_s_de_auto.LeadQualification.Vocabulary.{ScoreDimension, score_dimension_eq}
use plataforma_saa_s_de_auto.LeadQualification.Policy.{ScoringPolicy, DimensionDefinition}
use plataforma_saa_s_de_auto.LeadQualification.Request.{ScoreContribution, DimensionScore}
use plataforma_saa_s_de_auto.LeadQualification.Scoring.Criteria.{
  value_or_zero, add_points, dimension_score, dimension_scores,
}

-- The points that the contributions of a dimension add up to.
pub points_in : ScoreDimension → List ScoreContribution → ℤ
points_in d cs = sum_ℤ (map (λ c. c.points) (filter (λ c. c.dimension == d) cs))

points_in_self :
    (d : ScoreDimension) (c : ScoreContribution) (cs : List ScoreContribution)
    → (c.dimension == d) ≡ true
    → points_in d (c ∷ cs) ≡ c.points +ℤ points_in d cs
unfolding points_in filter sum_ℤ
points_in_self d c cs t = rw t

points_in_other :
    (d : ScoreDimension) (c : ScoreContribution) (cs : List ScoreContribution)
    → (c.dimension == d) ≡ false
    → points_in d (c ∷ cs) ≡ points_in d cs
unfolding points_in filter sum_ℤ
points_in_other d c cs f = rw f

false_symm : (a b : ScoreDimension) → (a == b) ≡ false → (b == a) ≡ false
false_symm a b f = elim (Bool-cases (b == a)) [ inl t ↦ cc (eq_symm b a t) | inr g ↦ g ]

plus_assoc : (a b c : ℤ) → a +ℤ b +ℤ c ≡ a +ℤ (b +ℤ c)
plus_assoc a b c = omega int_laws

zero_plus : (n : ℤ) → value_or_zero none +ℤ n ≡ n
unfolding value_or_zero
zero_plus n = omega int_laws

capped :
    (d : DimensionDefinition) {m n : ℤ}
    → m ≡ n
    → ◌≡◌ {A = DimensionScore}
        (record {
          dimension = d.dimension;
          raw_points = m;
          points = min_ℤ m d.max_points;
          maximum = d.max_points;
        })
        (record {
          dimension = d.dimension;
          raw_points = n;
          points = min_ℤ n d.max_points;
          maximum = d.max_points;
        })
capped d e = rw e

raw_points :
    (d : ScoreDimension) (cs : List ScoreContribution) (raw : Dict ScoreDimension ℤ)
    → value_or_zero (get d (add_points cs raw)) ≡ value_or_zero (get d raw) +ℤ points_in d cs
unfolding add_points value_or_zero points_in filter sum_ℤ
raw_points d [] raw = omega int_laws
raw_points d (c ∷ cs) raw =
    let raw' = put c.dimension (value_or_zero (get c.dimension raw) +ℤ c.points) raw in
    let ih = raw_points d cs raw' in
    elim (Bool-cases (c.dimension == d)) [
      | inl t ↦
          let p = eq_of_true c.dimension d t in
          let here : value_or_zero (get d raw') ≡ value_or_zero (get d raw) +ℤ c.points =
            subst (λ k. value_or_zero (get k raw') ≡ value_or_zero (get k raw) +ℤ c.points) p
              (ap value_or_zero (get-put_self c.dimension _ raw)) in
          ih
          ∙ (ap (λ v. v +ℤ points_in d cs) here
              ∙ (plus_assoc _ c.points _
                  ∙ ap (λ w. value_or_zero (get d raw) +ℤ w) (sym (points_in_self d c cs t))))
      | inr f ↦
          let other : (d == c.dimension) ≡ false = false_symm c.dimension d f in
          let here = ap value_or_zero (
            get-put_ne d c.dimension (value_or_zero (get c.dimension raw) +ℤ c.points) raw other) in
          ih
          ∙ (ap (λ v. v +ℤ points_in d cs) here
              ∙ ap (λ w. value_or_zero (get d raw) +ℤ w) (sym (points_in_other d c cs f)))
    ]

-- Each dimension of the policy scores the sum of its contributions, capped at its maximum, in the
-- policy's order.
pub dimension_scores_exact :
    (p : ScoringPolicy) (cs : List ScoreContribution)
    → dimension_scores p cs
      ≡ map
          (λ d. record {
            dimension = d.dimension;
            raw_points = points_in d.dimension cs;
            points = min_ℤ (points_in d.dimension cs) d.max_points;
            maximum = d.max_points;
          })
          p.dimensions
unfolding dimension_scores dimension_score get points_in
dimension_scores_exact p cs =
    ap (λ f. map f p.dimensions)
      (fun_ext
        (λ d. capped d (raw_points d.dimension cs [] ∙ zero_plus (points_in d.dimension cs))))
