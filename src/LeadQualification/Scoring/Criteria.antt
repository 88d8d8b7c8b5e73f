-- ===== src/LeadQualification/Scoring/Criteria.antt =====
-- `_select_criteria` and `_dimension_scores` of lead_qualification/scoring.py
-- (src/saas_platform/modules).
use plataforma_saa_s_de_auto.Prelude.{
  Bool, not, ◌&&◌, String, Option, none, some, List, [], ◌∷◌, ◌++◌, map, ℤ, pos, ◌+ℤ◌, min_ℤ, lex_ℤ,
  filter, subset, intersects, if◌then◌else◌, ◌==◌, option_eq, string_eq,
}
use plataforma_saa_s_de_auto.Prelude.Sort.{sort_by}
use plataforma_saa_s_de_auto.Prelude.Dict.{Dict, get, put}
use plataforma_saa_s_de_auto.Prelude.Text.{text_lt}
use plataforma_saa_s_de_auto.LeadQualification.Vocabulary.{
  SignalCode, ScoreDimension, signal_code_eq, score_dimension_eq, signal_code_value,
  score_dimension_value,
}
use plataforma_saa_s_de_auto.LeadQualification.Request.{ScoreContribution, DimensionScore}
use plataforma_saa_s_de_auto.LeadQualification.Policy.{
  ScoringPolicy, ScoringCriterion, DimensionDefinition,
}

-- `item.required_signals <= signal_codes and not (item.excluded_signals & signal_codes)`
unfoldable pub criterion_matches : List SignalCode → ScoringCriterion → Bool
criterion_matches signals c =
    subset c.required_signals signals && not (intersects c.excluded_signals signals)

unfoldable pub is_ungrouped : ScoringCriterion → Bool
is_ungrouped c = c.exclusive_group == none

-- `(item.dimension, item.exclusive_group)`, of an item that has a group.
abbrev pub GroupKey : Type 0
GroupKey = ScoreDimension × String

-- `(-item.points, item.code)`
unfoldable pub points_lt : ScoringCriterion → ScoringCriterion → Bool
points_lt a b = lex_ℤ b.points a.points (text_lt a.code b.code)

-- The criteria of one group, in the order of the policy.
unfoldable pub in_group : ScoreDimension → String → ScoringCriterion → Bool
in_group d g c = c.dimension == d && c.exclusive_group == some g

-- `sorted(values, …)[0]` of each list of `groups.values()`: `groups` has a list for each key, in
-- the order in which the keys are first met, and no list is empty.
unfoldable pub add_to_group :
    ScoringCriterion
    → Option String
    → List (GroupKey × List ScoringCriterion)
    → List (GroupKey × List ScoringCriterion)
add_to_group c none groups = groups
add_to_group c (some g) [] = ((c.dimension, g), c ∷ []) ∷ []
add_to_group c (some g) (((d, h), values) ∷ groups) =
    if c.dimension == d && g == h
    then ((d, h), values ++ (c ∷ [])) ∷ groups
    else ((d, h), values) ∷ add_to_group c (some g) groups

unfoldable pub group_criteria :
    List ScoringCriterion
    → List (GroupKey × List ScoringCriterion)
    → List (GroupKey × List ScoringCriterion)
unfolding add_to_group
group_criteria [] groups = groups
group_criteria (c ∷ cs) groups = group_criteria cs (add_to_group c c.exclusive_group groups)

unfoldable pub head_of : List ScoringCriterion → List ScoringCriterion
head_of [] = []
head_of (c ∷ cs) = c ∷ []

unfoldable pub best_of_groups : List (GroupKey × List ScoringCriterion) → List ScoringCriterion
unfolding head_of
best_of_groups [] = []
best_of_groups ((key, values) ∷ groups) =
    head_of (sort_by points_lt values) ++ best_of_groups groups

-- `(item.dimension.value, item.code)`
unfoldable pub dimension_code_lt : ScoringCriterion → ScoringCriterion → Bool
dimension_code_lt a b =
    let v = score_dimension_value a.dimension in
    let w = score_dimension_value b.dimension in
    if not (v == w) then text_lt v w else text_lt a.code b.code

unfoldable pub select_criteria : List ScoringCriterion → List SignalCode → List ScoringCriterion
select_criteria criteria signals =
    let matched = filter (criterion_matches signals) criteria in
    sort_by dimension_code_lt
      (filter is_ungrouped matched ++ best_of_groups (group_criteria matched []))

abbrev pub signal_lt : SignalCode → SignalCode → Bool
signal_lt a b = text_lt (signal_code_value a) (signal_code_value b)

unfoldable pub contribution_of : ScoringCriterion → ScoreContribution
contribution_of c = record {
  rule_code = c.code;
  dimension = c.dimension;
  points = c.points;
  signal_codes = sort_by signal_lt c.required_signals;
  explanation = c.explanation;
}

-- `raw_points[key]` of a `defaultdict(int)`
unfoldable pub value_or_zero : Option ℤ → ℤ
value_or_zero none = pos 0
value_or_zero (some n) = n

unfoldable pub add_points : List ScoreContribution → Dict ScoreDimension ℤ → Dict ScoreDimension ℤ
unfolding value_or_zero
add_points [] raw = raw
add_points (c ∷ cs) raw =
    add_points cs (put c.dimension (value_or_zero (get c.dimension raw) +ℤ c.points) raw)

unfoldable pub dimension_score : Dict ScoreDimension ℤ → DimensionDefinition → DimensionScore
unfolding value_or_zero
dimension_score raw d =
    let points = value_or_zero (get d.dimension raw) in
    record {
      dimension = d.dimension;
      raw_points = points;
      points = min_ℤ points d.max_points;
      maximum = d.max_points;
    }

unfoldable pub dimension_scores : ScoringPolicy → List ScoreContribution → List DimensionScore
dimension_scores policy contributions =
    map (dimension_score (add_points contributions [])) policy.dimensions
