-- ===== src/LeadQualification/Scoring/Bounds.antt =====
-- The subtotal in `evaluate` of lead_qualification/scoring.py.
use plataforma_saa_s_de_auto.Prelude.{
  inl, inr, List, [], ◌∷◌, map, All, All-mem, All-intro, All-map, Option-cases, ℤ, pos, ◌+ℤ◌, ◌≤ℤ◌,
  min_ℤ, sum_ℤ, int_laws, arith,
}
use plataforma_saa_s_de_auto.Prelude.Dict.{Dict, get, put, All-put, All-get}
use plataforma_saa_s_de_auto.LeadQualification.Vocabulary.{ScoreDimension, score_dimension_eq}
use plataforma_saa_s_de_auto.LeadQualification.Policy.{
  ScoringPolicy, IsConstructed, DimensionDefinition,
}
use plataforma_saa_s_de_auto.LeadQualification.Policy.Facts.{
  policy_facts, dimension_bounds, criterion_points,
}
use plataforma_saa_s_de_auto.LeadQualification.Request.{ScoreContribution, QualificationRequest}
use plataforma_saa_s_de_auto.LeadQualification.Scoring.Criteria.{
  value_or_zero, add_points, dimension_score, dimension_scores, contribution_of,
}
use plataforma_saa_s_de_auto.LeadQualification.Scoring.Selection.{select_criteria_sound}
use plataforma_saa_s_de_auto.LeadQualification.Scoring.Engine.{contributions_of, subtotal_of}

abbrev IsNonneg : ScoreDimension × ℤ → Type 0
IsNonneg e = pos 0 ≤ℤ e.1

value_or_zero_nonneg :
    (d : ScoreDimension) (raw : Dict ScoreDimension ℤ)
    → All IsNonneg raw
    → pos 0 ≤ℤ value_or_zero (get d raw)
unfolding value_or_zero
value_or_zero_nonneg d raw h = elim (Option-cases (get d raw)) [
  | inl e ↦ rw e (omega arith)
  | inr (v, e) ↦ rw e (All-get IsNonneg d v raw h e)
]

add_points-IsNonneg :
    (cs : List ScoreContribution) (raw : Dict ScoreDimension ℤ)
    → All (λ c. pos 0 ≤ℤ c.points) cs
    → All IsNonneg raw
    → All IsNonneg (add_points cs raw)
unfolding add_points
add_points-IsNonneg [] raw h k = k
add_points-IsNonneg (c ∷ cs) raw h k =
    let old = value_or_zero_nonneg c.dimension raw k in
    add_points-IsNonneg cs (put c.dimension (value_or_zero (get c.dimension raw) +ℤ c.points) raw)
      h.1
      (All-put IsNonneg c.dimension (value_or_zero (get c.dimension raw) +ℤ c.points) raw
        (omega (int_laws, old, h.0)) k)

-- A dimension scores between 0 and its maximum.
dimension_score_bounds :
    (raw : Dict ScoreDimension ℤ) (d : DimensionDefinition)
    → All IsNonneg raw
    → pos 1 ≤ℤ d.max_points
    → (pos 0 ≤ℤ (dimension_score raw d).points) × ((dimension_score raw d).points ≤ℤ d.max_points)
unfolding dimension_score min_ℤ
dimension_score_bounds raw d h k = ground (arith, value_or_zero_nonneg d.dimension raw h)

sum_bounds :
    (raw : Dict ScoreDimension ℤ) (ds : List DimensionDefinition)
    → All IsNonneg raw
    → All (λ d. pos 1 ≤ℤ d.max_points) ds
    → let points = sum_ℤ (map (λ s. s.points) (map (dimension_score raw) ds)) in
      (pos 0 ≤ℤ points) × (points ≤ℤ sum_ℤ (map (λ d. d.max_points) ds))
unfolding sum_ℤ
sum_bounds raw [] h k = omega arith
sum_bounds raw (d ∷ ds) h k =
    omega (int_laws, dimension_score_bounds raw d h k.0, sum_bounds raw ds h k.1)

pub contributions_nonneg :
    (request : QualificationRequest) (p : ScoringPolicy)
    → IsConstructed p
    → All (λ c. pos 0 ≤ℤ c.points) (contributions_of request p)
unfolding contributions_of contribution_of
contributions_nonneg request p made = All-map _ _ _ (
    All-intro _ _ (λ c m.
      let found = (All-mem _ c _ (select_criteria_sound p.criteria _) m).0 in
      omega (arith, criterion_points c (All-mem _ c p.criteria made.criteria_ok found))))

-- The subtotal of a constructed policy lies within 0 and 100.
pub subtotal_bounds :
    (request : QualificationRequest) (p : ScoringPolicy)
    → IsConstructed p
    → (pos 0 ≤ℤ subtotal_of request p) × (subtotal_of request p ≤ℤ pos 100)
unfolding subtotal_of dimension_scores
subtotal_bounds request p made =
    let raw_ok =
      add_points-IsNonneg (contributions_of request p) [] (contributions_nonneg request p made)
        tt in
    let maxima =
      All-intro (λ d. pos 1 ≤ℤ d.max_points) p.dimensions
        (λ d m. (dimension_bounds d (All-mem _ d p.dimensions made.dimensions_ok m)).0) in
    let bounds =
      sum_bounds (add_points (contributions_of request p) []) p.dimensions raw_ok maxima in
    let total = (policy_facts p made.policy_ok).total in (bounds.0, rw total at bounds.1)
