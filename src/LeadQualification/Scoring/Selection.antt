-- ===== src/LeadQualification/Scoring/Selection.antt =====
-- What `_select_criteria` of lead_qualification/scoring.py may return.
use plataforma_saa_s_de_auto.Prelude.{
  true, ◌&&◌, ◌≡◌, inl, inr, String, Option, none, some, List, [], ◌∷◌, Memᴰ, All, All-intro,
  All-append, All-filter, filter, filter_sound, mem_of_mem-filter, Bool-cases, ◌==◌, string_eq,
  option_eq,
}
use plataforma_saa_s_de_auto.Prelude.Sort.{sort_by, All-sort_by}
use plataforma_saa_s_de_auto.LeadQualification.Vocabulary.{SignalCode, score_dimension_eq}
use plataforma_saa_s_de_auto.LeadQualification.Policy.{ScoringCriterion}
use plataforma_saa_s_de_auto.LeadQualification.Scoring.Criteria.{
  criterion_matches, is_ungrouped, GroupKey, points_lt, add_to_group, group_criteria, head_of,
  best_of_groups, dimension_code_lt, select_criteria,
}

abbrev Groups : Type 0
Groups = List (GroupKey × List ScoringCriterion)

-- A property of criteria passes to the groups, and to the best of each.
module _ (P : ScoringCriterion → Type 0) where
  abbrev AllIn : Groups → Type 0
  AllIn = All (λ e. All P e.1)

  add_to_group-AllIn :
      (c : ScoringCriterion) (o : Option String) (gs : Groups)
      → P c
      → AllIn gs
      → AllIn (add_to_group c o gs)
  unfolding add_to_group
  add_to_group-AllIn c none gs p h = h
  add_to_group-AllIn c (some g) [] p h = ((p, tt), tt)
  add_to_group-AllIn c (some g) (((d, k), values) ∷ gs) p h =
      elim (Bool-cases (c.dimension == d && g == k)) [
        | inl t ↦ rw t (All-append P values (c ∷ []) h.0 (p, tt), h.1)
        | inr f ↦ rw f (h.0, add_to_group-AllIn c (some g) gs p h.1)
      ]

  group_criteria-AllIn :
      (cs : List ScoringCriterion) (gs : Groups)
      → All P cs
      → AllIn gs
      → AllIn (group_criteria cs gs)
  unfolding group_criteria
  group_criteria-AllIn [] gs h k = k
  group_criteria-AllIn (c ∷ cs) gs h k =
      group_criteria-AllIn cs (add_to_group c c.exclusive_group gs) h.1
        (add_to_group-AllIn c c.exclusive_group gs h.0 k)

  All-head_of : (cs : List ScoringCriterion) → All P cs → All P (head_of cs)
  unfolding head_of
  All-head_of [] h = tt
  All-head_of (c ∷ cs) h = (h.0, tt)

  best_of_groups-AllIn : (gs : Groups) → AllIn gs → All P (best_of_groups gs)
  unfolding best_of_groups
  best_of_groups-AllIn [] h = tt
  best_of_groups-AllIn ((key, values) ∷ gs) h =
      All-append P (head_of (sort_by points_lt values)) (best_of_groups gs)
        (All-head_of (sort_by points_lt values) (All-sort_by points_lt P values h.0))
        (best_of_groups-AllIn gs h.1)

  pub All-select_criteria :
      (cs : List ScoringCriterion) (signals : List SignalCode)
      → All P (filter (criterion_matches signals) cs)
      → All P (select_criteria cs signals)
  unfolding select_criteria
  All-select_criteria cs signals h = All-sort_by dimension_code_lt P _ (
      All-append P _ _ (All-filter P is_ungrouped _ h)
        (best_of_groups-AllIn _ (group_criteria-AllIn _ [] h tt)))

-- A selected criterion is one of the policy's, and the signals match it.
pub select_criteria_sound :
    (cs : List ScoringCriterion) (signals : List SignalCode)
    → All (λ c. Memᴰ c cs × (criterion_matches signals c ≡ true)) (select_criteria cs signals)
select_criteria_sound cs signals =
    All-select_criteria (λ c. Memᴰ c cs × (criterion_matches signals c ≡ true)) cs signals
      (All-intro _ (filter (criterion_matches signals) cs)
        (λ c m. (mem_of_mem-filter _ c cs m, filter_sound _ c cs m)))
